-- ===== src/Broker/Registry/Adding.antt =====
-- A new id in a registry of src/broker_impl/broker.h.
use capy_amqp_cpp.Prelude.{
  ℕ, suc, ◌≡◌, ◌≢◌, ◌⊎◌, refl, sym, ap, ◌∙◌, true, false, some, ◌==◌, ==_refl, if◌then◌else◌, Text,
  update, text_key, ◌=?=◌, =?=_refl, =?=_iff, arith, inl, inr, Bool-cases, Option-cases,
}
use capy_amqp_cpp.Cache.Shards.{CacheItem, write_always}
use capy_amqp_cpp.Cache.{set}
use capy_amqp_cpp.Cache.View.{view, view-set}
use capy_amqp_cpp.Cache.Permanent.{kept}
use capy_amqp_cpp.Broker.Registry.{Registry, Object}
use capy_amqp_cpp.Broker.Registry.Laws.{lookup, IsSound}
use capy_amqp_cpp.Broker.Registry.Others.{different}

module _ (hash : Text → ℕ) (id : Text) (o : Object) (r : Registry) where
  abbrev pub added : Registry
  added = record {
    ids = (set hash id r.created 0 write_always r.ids).0;
    objects = update r.objects r.created (some o);
    created = suc r.created;
  }

  pub view-added :
      (k : Text)
      → view hash added.ids k ≡ (if id =?= k then some (kept r.created) else view hash r.ids k)
  view-added k = view-set hash id k r.created 0 write_always r.ids

  pub entry_cases :
      (k : Text) (i : CacheItem ℕ)
      → view hash added.ids k ≡ some i
      → ((id ≡ k) × (kept r.created ≡ i)) ⊎ ((id ≢ k) × (view hash r.ids k ≡ some i))
  entry_cases k i h =
      let g : (if id =?= k then some (kept r.created) else view hash r.ids k) ≡ some i =
        sym (view-added k) ∙ h in
      elim (Bool-cases (id =?= k)) [
        | inl q ↦ let p : some (kept r.created) ≡ some i = rw q at g in inl ((=?=_iff id k).0 q, cc)
        | inr q ↦ inr (λ p. let t : (id =?= k) ≡ true = (=?=_iff id k).1 p in cc, rw q at g)
      ]

  module _ (w : IsSound hash r) where
    older :
        (k : Text) (i : CacheItem ℕ) → view hash r.ids k ≡ some i → (r.created == i.payload) ≡ false
    older k i h = ground (arith, w.known k i h)

    pub lookup-added : lookup hash added id ≡ some o
    lookup-added = rw (view-added id, =?=_refl id) (rw (==_refl r.created) refl)

    pub lookup-added_other : (k : Text) → id ≢ k → lookup hash added k ≡ lookup hash r k
    lookup-added_other k ne =
        rw (view-added k, different id k ne)
          (elim (Option-cases (view hash r.ids k)) [
            | inl e ↦ rw e refl
            | inr (i, e) ↦ rw (e, older k i e) refl
          ])

    pub added-IsSound : IsSound hash added
    added-IsSound = record {
      permanent = λ k i h. elim (entry_cases k i h) [
        | inl (p, q) ↦ sym (ap (λ x. x.expiration) q)
        | inr (ne, e) ↦ w.permanent k i e
      ];
      known = λ k i h. elim (entry_cases k i h) [
        | inl (p, q) ↦ omega (arith, ap (λ x. x.payload) q)
        | inr (ne, e) ↦ omega (arith, w.known k i e)
      ];
      alive = λ k i h. elim (entry_cases k i h) [
        | inl (p, q) ↦ (o, rw (← q, ==_refl r.created) refl)
        | inr (ne, e) ↦ let (o', a) = w.alive k i e in (o', rw (older k i e) a)
      ];
      apart = λ k k' i i' h h' same. elim (entry_cases k i h) [
        | inl (p, q) ↦ elim (entry_cases k' i' h') [
          | inl (p', q') ↦ sym p ∙ p'
          | inr (ne', e') ↦ absurd (omega (arith, w.known k' i' e', ap (λ x. x.payload) q, same))
        ]
        | inr (ne, e) ↦ elim (entry_cases k' i' h') [
          | inl (p', q') ↦ absurd (omega (arith, w.known k i e, ap (λ x. x.payload) q', same))
          | inr (ne', e') ↦ w.apart k k' i i' e e' same
        ]
      ];
    }
