-- ===== src/Broker/Registry/Reachable.antt =====
-- The objects of a registry of src/broker_impl/broker.h that an id still leads to.
use capy_amqp_cpp.Prelude.{
  ℕ, ◌≡◌, ◌≢◌, refl, sym, ap, ◌∙◌, true, Option, none, some, ◌==◌, ==_iff, Text, update, text_key,
  =?=_refl, inl, inr, Bool-cases,
}
use capy_amqp_cpp.Cache.Shards.{CacheItem}
use capy_amqp_cpp.Cache.View.{view, view-del}
use capy_amqp_cpp.Cache.Permanent.{kept}
use capy_amqp_cpp.Broker.Registry.{Registry, Object}
use capy_amqp_cpp.Broker.Registry.Others.{different, without}
use capy_amqp_cpp.Broker.Registry.Adding.{added, view-added}

module _ (hash : Text → ℕ) where
  abbrev pub Leads : Registry → ℕ → Type 0
  Leads r n = (id : Text) × (i : CacheItem ℕ) × (view hash r.ids id ≡ some i) × (i.payload ≡ n)

  -- An object that is not destroyed is behind an id.
  abbrev pub AllReached : Registry → Type 0
  AllReached r = (n : ℕ) (o : Object) → r.objects n ≡ some o → Leads r n

  pub added-AllReached :
      (id : Text) (o : Object) (r : Registry)
      → view hash r.ids id ≡ none
      → AllReached r
      → AllReached (added hash id o r)
  added-AllReached id o r fresh w n o' h = elim (Bool-cases (r.created == n)) [
    | inl q ↦ (
      id,
      kept r.created,
      view-added hash id o r id ∙ rw (=?=_refl id) refl,
      (==_iff r.created n).0 q,
    )
    | inr q ↦
        let (k, i, e, p) = w n o' (rw q at h) in
        let ne : id ≢ k =
          λ same. let bad : none ≡ some i = sym fresh ∙ ap (view hash r.ids) same ∙ e in cc in
        (k, i, view-added hash id o r k ∙ rw (different id k ne) e, p)
  ]

  module _ (id : Text) (r : Registry) (w : AllReached r) where
    pub altered-AllReached :
        (i : CacheItem ℕ) (o : Object)
        → view hash r.ids id ≡ some i
        → AllReached (record r { objects = update r.objects i.payload (some o) })
    altered-AllReached i o e n o' h = elim (Bool-cases (i.payload == n)) [
      | inl q ↦ (id, i, e, (==_iff i.payload n).0 q)
      | inr q ↦ w n o' (rw q at h)
    ]

    still :
        (objects : ℕ → Option Object) (n : ℕ)
        → ((i : CacheItem ℕ) → view hash r.ids id ≡ some i → i.payload ≢ n)
        → Leads r n
        → Leads (without hash id objects r) n
    still objects n ne (k, j, e, p) =
        let apart : id ≢ k = λ same. ne j (ap (view hash r.ids) same ∙ e) p in
        (k, j, view-del hash id k r.ids ∙ rw (different id k apart) e, p)

    pub absent-AllReached : view hash r.ids id ≡ none → AllReached (without hash id r.objects r)
    absent-AllReached e n o h =
        still r.objects n (λ i q. let bad : none ≡ some i = sym e ∙ q in absurd (cc)) (w n o h)

    pub without-AllReached :
        (i : CacheItem ℕ)
        → view hash r.ids id ≡ some i
        → AllReached (without hash id (update r.objects i.payload none) r)
    without-AllReached i e n o h = elim (Bool-cases (i.payload == n)) [
      | inl q ↦ let bad : none ≡ some o = rw q at h in absurd (cc)
      | inr q ↦
          still (update r.objects i.payload none) n
            (λ j a p.
              let same : some i ≡ some j = sym e ∙ a in
              let same' : i.payload ≡ j.payload = cc in
              let t : (i.payload == n) ≡ true = (==_iff i.payload n).1 (same' ∙ p) in cc)
            (w n o (rw q at h))
    ]
