-- ===== src/Broker/Listen/Invariant/Dropping.antt =====
-- A pointer to a listener of src/broker_impl/broker.cc goes, and what holds of the listeners after.
use capy_amqp_cpp.Broker.Listen.Pointers.{is_held-PointsTo, or_right}
use capy_amqp_cpp.Broker.Listen.Kept.{Same-drop_pointer}
use capy_amqp_cpp.Prelude.{
  ℕ, ◌≡◌, Bool, refl, sym, subst, ◌∙◌, true, false, ◌||◌, Option, none, some, ◌==◌, ==_iff, Text,
  Key, text_key, update, inl, inr, Bool-cases, Option-cases,
}
use capy_amqp_cpp.Connections.Reached.{PointsTo}
use capy_amqp_cpp.Broker.Registry.{Object}
use capy_amqp_cpp.Broker.Registry.Laws.{IsSound}
use capy_amqp_cpp.Broker.Listen.Owners.{Listening, drop_pointer, is_registered, is_held}
use capy_amqp_cpp.Broker.Listen.Invariant.{IsKept, IsKeptBut}

module _ {ℓ} {K : Type ℓ} ⦃e : Key K⦄ (hash_thread : K → ℕ) (hash : Text → ℕ) where
  pub connections-drop_pointer :
      (D : Type 0) (p : Option ℕ) (s : Listening K)
      → (drop_pointer {D = D} p s).0.connections ≡ s.connections
  connections-drop_pointer D none s = refl
  connections-drop_pointer D (some n) s =
      elim (Bool-cases (is_registered n s.listeners.ids || is_held n s.connections)) [
        | inl q ↦ rw q refl
        | inr q ↦ elim (Option-cases (s.listeners.objects n)) [
          | inl q' ↦ rw (q, q') refl
          | inr (o, q') ↦ rw (q, q') refl
        ]
      ]

  abbrev is_owned : ℕ → Listening K → Bool
  is_owned n s = is_registered n s.listeners.ids || is_held n s.connections

  -- The object has no owner hash_thread hash left, and goes.
  destroyed-Kept :
      (n : ℕ) (o : Object) (s : Listening K)
      → IsKeptBut hash_thread hash (some n) s
      → is_owned n s ≡ false
      → s.listeners.objects n ≡ some o
      → IsSound hash (record s.listeners { objects = update s.listeners.objects n none })
      → IsKept hash_thread hash (record s {
        listeners = record s.listeners { objects = update s.listeners.objects n none };
      })
  destroyed-Kept n o s w q q' sound = record {
    paired = w.paired;
    sound = sound;
    single = w.single;
    held = λ k m p. elim (Bool-cases (n == m)) [
      | inl e ↦
          let t : is_held n s.connections ≡ true =
            is_held-PointsTo s.connections k n
              (subst (λ x. PointsTo s.connections k x) (sym ((==_iff n m).0 e)) p) in
          let bad : true ≡ false = sym (or_right (is_registered n s.listeners.ids) t) ∙ q in
          absurd (cc)
      | inr e ↦ let (o', a) = w.held k m p in (o', rw e a)
    ];
    owned = λ m o' h. elim (Bool-cases (n == m)) [
      | inl e ↦ let bad : none ≡ some o' = rw e at h in absurd (cc)
      | inr e ↦ elim (w.owned m o' (rw e at h)) [
        | inl p ↦
            let p' : n ≡ m = cc in
            let bad : true ≡ false = sym ((==_iff n m).1 p') ∙ e in absurd (cc)
        | inr r ↦ inr r
      ]
    ];
  }

  settled :
      (n : ℕ) (s : Listening K)
      → IsKeptBut hash_thread hash (some n) s
      → ((o : Object) → s.listeners.objects n ≡ some o → is_owned n s ≡ true)
      → IsKept hash_thread hash s
  settled n s w h = record {
    paired = w.paired;
    sound = w.sound;
    single = w.single;
    held = w.held;
    owned = λ m o a. elim (w.owned m o a) [
      | inl p ↦
          let p' : n ≡ m = cc in
          inr (
            subst (λ x. is_owned x s ≡ true) p'
              (h o (subst (λ x. s.listeners.objects x ≡ some o) (sym p') a)))
      | inr r ↦ inr r
    ];
  }

  -- The pointer goes, and the object with it if it has no other owner.
  pub drop_pointer-Kept :
      (D : Type 0) (p : Option ℕ) (s : Listening K)
      → IsKeptBut hash_thread hash p s
      → IsKept hash_thread hash (drop_pointer {D = D} p s).0
  drop_pointer-Kept D none s w = w
  drop_pointer-Kept D (some n) s w = elim (Bool-cases (is_owned n s)) [
    | inl q ↦ rw q (settled n s w (λ o h. q))
    | inr q ↦ elim (Option-cases (s.listeners.objects n)) [
      | inl q' ↦
          rw (q, q') (settled n s w (λ o h. let bad : none ≡ some o = sym q' ∙ h in absurd (cc)))
      | inr (o, q') ↦
          let sound : IsSound hash
              (record s.listeners { objects = update s.listeners.objects n none }) =
            rw (q, q') at (Same-drop_pointer D hash (some n) s w.sound).0 in
          rw (q, q') (destroyed-Kept n o s w q q' sound)
    ]
  ]
