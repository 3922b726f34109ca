-- ===== src/Broker/Listen/Kept.antt =====
-- What a listener that goes (src/broker_impl/broker.cc) leaves to the registered ones.
use capy_amqp_cpp.Broker.Listen.Pointers.{is_registered-view}
use capy_amqp_cpp.Prelude.{
  ℕ, ◌≡◌, refl, sym, ap, subst, ==_iff, ◌∙◌, Bool, true, false, ◌||◌, Option, none, some, List,
  ◌==◌, Text, text_key, update, Bool-cases, Option-cases, inl, inr,
}
use capy_amqp_cpp.Cache.Shards.{CacheItem}
use capy_amqp_cpp.Cache.View.{view}
use capy_amqp_cpp.Cache.Idle.{get-idle}
use capy_amqp_cpp.Broker.Registry.{Registry, Object, Effect, at_id}
use capy_amqp_cpp.Broker.Registry.Laws.{lookup, lookup-some, IsSound}
use capy_amqp_cpp.Cache.Permanent.{live-permanent}
use capy_amqp_cpp.Broker.Listen.Owners.{
  Listening, drop_pointer, destroy_object, is_registered, is_held,
}

pub or_false : (a b : Bool) → (a || b) ≡ false → a ≡ false
or_false true b h = h
or_false false b h = refl

module _ (hash : Text → ℕ) where
  -- An object that is not registered is behind no id.
  elsewhere :
      (n : ℕ) (r : Registry) (k : Text) (i : CacheItem ℕ)
      → is_registered n r.ids ≡ false
      → view hash r.ids k ≡ some i
      → (n == i.payload) ≡ false
  elsewhere n r k i out h = elim (Bool-cases (n == i.payload)) [
    | inl e ↦
        let p : is_registered n r.ids ≡ true =
          subst (λ m. is_registered m r.ids ≡ true) (sym ((==_iff n i.payload).0 e))
            (is_registered-view hash k i r.ids h) in
        let bad : true ≡ false = sym p ∙ out in absurd (cc)
    | inr e ↦ e
  ]

module _ {ℓ} {K : Type ℓ} (D : Type 0) (hash : Text → ℕ) where
  -- What is left when an object that is not registered goes.
  abbrev Same : Listening K → Listening K → Type 0
  Same s s' =
      IsSound hash s'.listeners
      × ((k : Text) → lookup hash s'.listeners k ≡ lookup hash s.listeners k)

  Same-destroy_object :
      (n : ℕ) (o : Option Object) (s : Listening K)
      → IsSound hash s.listeners
      → is_registered n s.listeners.ids ≡ false
      → Same s (destroy_object {D = D} n o s).0
  Same-destroy_object n none s w out = (w, λ k. refl)
  Same-destroy_object n (some o) s w out = (
    record {
      permanent = w.permanent;
      known = w.known;
      alive = λ k i h.
          let (o', q) = w.alive k i h in (o', rw (elsewhere hash n s.listeners k i out h) q);
      apart = w.apart;
    },
    λ k. elim (Option-cases (view hash s.listeners.ids k)) [
      | inl e ↦ rw e refl
      | inr (i, e) ↦ rw (e, elsewhere hash n s.listeners k i out e) refl
    ],
  )

  -- Letting go of a pointer changes no object that is registered.
  pub Same-drop_pointer :
      (p : Option ℕ) (s : Listening K)
      → IsSound hash s.listeners
      → Same s (drop_pointer {D = D} p s).0
  Same-drop_pointer none s w = (w, λ k. refl)
  Same-drop_pointer (some n) s w =
      elim (Bool-cases (is_registered n s.listeners.ids || is_held n s.connections)) [
        | inl q ↦ rw q (w, λ k. refl)
        | inr q ↦ rw q (Same-destroy_object n (s.listeners.objects n) s w (or_false _ _ q))
      ]

update_same_at {ℓ} :
    {A : Type ℓ} (f : ℕ → A) (i : ℕ) (a : A) (j : ℕ) → f i ≡ a → update f i a j ≡ f j
update_same_at f i a j h = elim (Bool-cases (i == j)) [
  | inl e ↦ rw e (sym h ∙ ap f ((==_iff i j).0 e))
  | inr e ↦ rw e refl
]

update_same {ℓ} : {A : Type ℓ} (f : ℕ → A) (i : ℕ) (a : A) → f i ≡ a → update f i a ≡ f
update_same f i a h = λ k j. update_same_at f i a j h k

-- An operation that leaves the object as it is leaves everything as it is.
pub at_id-same :
    (D : Type 0) (hash : Text → ℕ) (now : ℕ) (id : Text) (f : Object → Object × List (Effect D))
    (r : Registry) (o : Object)
    → IsSound hash r
    → lookup hash r id ≡ some o
    → (f o).0 ≡ o
    → at_id hash now id f r ≡ some (r, (f o).1)
unfolding at_id
at_id-same D hash now id f r o w h same =
    let (i, e, q) = lookup-some hash r id o h in
    rw
      (
        get-idle hash now id r.ids (live-permanent now (view hash r.ids id) (w.permanent id)),
        e,
        q,
        same,
      )
      (ap (λ g. some (record r { objects = g }, (f o).1))
        (update_same r.objects i.payload (some o) q))
