-- ===== src/Broker/Registry/Laws.antt =====
-- The registry of src/broker_impl/broker.h seen as a map from ids to objects.
use capy_amqp_cpp.Prelude.{
  ℕ, ◌<◌, ◌≡◌, sym, ◌∙◌, Option, none, some, List, [], Text, text_key, inl, inr, Option-cases,
}
use capy_amqp_cpp.Cache.Shards.{CacheItem}
use capy_amqp_cpp.Cache.View.{view}
use capy_amqp_cpp.Cache.Permanent.{live-permanent}
use capy_amqp_cpp.Cache.Idle.{has-idle}
use capy_amqp_cpp.Broker.Registry.{Registry, Object, Effect, if_has}

module _ (hash : Text → ℕ) where
  abbrev pub behind : (ℕ → Option Object) → Option (CacheItem ℕ) → Option Object
  behind objects none = none
  behind objects (some i) = objects i.payload

  -- The object behind an id.
  abbrev pub lookup : Registry → Text → Option Object
  lookup r id = behind r.objects (view hash r.ids id)

  -- An id is for good, its object exists, and no other id has the same.
  pub record IsSound (r : Registry) : Type 0 where
    pub permanent : (id : Text) (i : CacheItem ℕ) → view hash r.ids id ≡ some i → i.expiration ≡ 0
    pub known : (id : Text) (i : CacheItem ℕ) → view hash r.ids id ≡ some i → i.payload < r.created
    pub alive :
        (id : Text) (i : CacheItem ℕ)
        → view hash r.ids id ≡ some i
        → (o : Object) × (r.objects i.payload ≡ some o)
    pub apart :
        (id id' : Text) (i i' : CacheItem ℕ)
        → view hash r.ids id ≡ some i
        → view hash r.ids id' ≡ some i'
        → i.payload ≡ i'.payload
        → id ≡ id'

  pub lookup-some :
      (r : Registry) (id : Text) (o : Object)
      → lookup r id ≡ some o
      → (i : CacheItem ℕ) × (view hash r.ids id ≡ some i) × (r.objects i.payload ≡ some o)
  lookup-some r id o h = elim (Option-cases (view hash r.ids id)) [
    | inl e ↦ let bad : none ≡ some o = rw e at h in absurd (cc)
    | inr (i, e) ↦ (i, e, rw e at h)
  ]

  module _ {ℓ} {D : Type ℓ} (now : ℕ) (id : Text) where
    pub if_has-open :
        (f : Registry → Option (Registry × List (Effect D))) (r : Registry) (o : Object)
        → IsSound r
        → lookup r id ≡ some o
        → if_has hash now id f r ≡ f r
    unfolding if_has
    if_has-open f r o w h =
        let (i, e, q) = lookup-some r id o h in
        rw
          (has-idle hash now id r.ids (live-permanent now (view hash r.ids id) (w.permanent id)), e)

    pub if_has-closed :
        (f : Registry → Option (Registry × List (Effect D))) (r : Registry)
        → IsSound r
        → lookup r id ≡ none
        → if_has hash now id f r ≡ some (r, [])
    unfolding if_has
    if_has-closed f r w h = elim (Option-cases (view hash r.ids id)) [
      | inl e ↦
          rw (
            has-idle hash now id r.ids (live-permanent now (view hash r.ids id) (w.permanent id)),
            e,
          )
      | inr (i, e) ↦
          let (o, q) = w.alive id i e in let bad : some o ≡ none = sym (rw e q) ∙ h in absurd (cc)
    ]
