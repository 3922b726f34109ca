-- ===== src/Broker/Teardown/Fetches.antt =====
-- The fetches that the destructor of `BrokerImpl` (src/broker_impl/broker.cc) lets go of.
use capy_amqp_cpp.Prelude.{
  subst, ℕ, ◌≡◌, ◌⊎◌, refl, sym, ap, ◌∙◌, true, false, none, some, List, [], ◌∷◌, map, ◌==◌, ==_iff,
  Text, text_key, inl, inr, Bool-cases, Option-cases,
}
use capy_amqp_cpp.Deferred.{destroy}
use capy_amqp_cpp.Cache.Contents.{Has, Has-view, payloads}
use capy_amqp_cpp.Broker.Registry.{Registry, Object, Effect, call, release_object}
use capy_amqp_cpp.Broker.Registry.Reachable.{AllReached}
use capy_amqp_cpp.Broker.Teardown.{release_objects, destroy_fetchers}
use capy_amqp_cpp.Broker.Teardown.Released.{Part, Destroys, release_objects-Destroys}

module _ (D : Type 0) where
  release_object-none :
      (m n : ℕ) (r : Registry)
      → (m ≡ n) ⊎ (r.objects n ≡ none)
      → (release_object {D = D} m (r.objects m) r).0.objects n ≡ none
  release_object-none m n r h = elim (Option-cases (r.objects m)) [
    | inl q ↦ rw q (elim h [ inl same ↦ ap r.objects (sym same) ∙ q | inr a ↦ a ])
    | inr (o, q) ↦ rw q (elim (Bool-cases (m == n)) [
      | inl e ↦ rw e refl
      | inr e ↦ elim h [
        | inl same ↦ let bad : true ≡ false = sym ((==_iff m n).1 same) ∙ e in absurd (cc)
        | inr a ↦ rw e a
      ]
    ])
  ]

  release_objects-none :
      (ns : List ℕ) (r : Registry) (n : ℕ)
      → (r.objects n ≡ none) ⊎ Has n ns
      → (release_objects {D = D} ns r).0.objects n ≡ none
  unfolding release_objects
  release_objects-none [] r n (inl h) = h
  release_objects-none [] r n (inr h) = absurd h
  release_objects-none (m ∷ ns) r n h =
      let r' = (release_object {D = D} m (r.objects m) r).0 in
      release_objects-none ns r' n (elim h [
        | inl a ↦ inl (release_object-none m n r (inr a))
        | inr x ↦ elim x [
          | inl same ↦ inl (release_object-none m n r (inl same))
          | inr later ↦ inr later
        ]
      ])

  pub destroy_fetchers-none :
      (hash : Text → ℕ) (r : Registry)
      → AllReached hash r
      → (n : ℕ) → (destroy_fetchers {D = D} r).0.objects n ≡ none
  unfolding destroy_fetchers
  destroy_fetchers-none hash r w n = elim (Option-cases (r.objects n)) [
    | inl q ↦ release_objects-none (payloads r.ids) _ n (inl q)
    | inr (o, q) ↦
        let (id, i, e, p) = w n o q in
        release_objects-none (payloads r.ids) _ n
          (inr (subst (λ x. Has x (payloads r.ids)) p (Has-view hash id i r.ids e)))
  ]

  destroy_fetchers-Destroys :
      (r : Registry)
      → Destroys r.objects (destroy_fetchers {D = D} r).0.objects (destroy_fetchers {D = D} r).1
  unfolding destroy_fetchers
  destroy_fetchers-Destroys r = release_objects-Destroys (payloads r.ids) _

  pub destroy_fetchers-effects :
      (hash : Text → ℕ) (r : Registry)
      → AllReached hash r
      → (n : ℕ) (o : Object) → r.objects n ≡ some o
      → Part {A = Effect D} (map call (destroy o.deferred)) (destroy_fetchers {D = D} r).1
  destroy_fetchers-effects hash r w n o h = elim (destroy_fetchers-Destroys r n o h) [
    | inl a ↦ let bad : none ≡ some o = sym (destroy_fetchers-none hash r w n) ∙ a in absurd (cc)
    | inr p ↦ p
  ]
