-- ===== src/Broker/Registry/Others.antt =====
-- Changes at one id of a registry (src/broker_impl/broker.h), and the other ids.
use capy_amqp_cpp.Prelude.{
  ℕ, ◌≡◌, ◌≢◌, refl, sym, ◌∙◌, true, false, Option, none, some, ◌==◌, if◌then◌else◌, Text, update,
  text_key, ◌=?=◌, =?=_iff, arith, inl, inr, Option-cases, Bool-cases,
}
use capy_amqp_cpp.Cache.Shards.{CacheItem}
use capy_amqp_cpp.Cache.{del}
use capy_amqp_cpp.Cache.View.{view, view-del}
use capy_amqp_cpp.Broker.Registry.{Registry, Object}
use capy_amqp_cpp.Broker.Registry.Laws.{behind, lookup, IsSound}

pub different : (id k : Text) → id ≢ k → (id =?= k) ≡ false
different id k ne = elim (Bool-cases (id =?= k)) [
  | inl q ↦ absurd (ne ((=?=_iff id k).0 q))
  | inr q ↦ q
]

module _ (hash : Text → ℕ) (id : Text) where
  -- Another id has another object.
  pub other_object :
      (r : Registry) (k : Text) (i j : CacheItem ℕ)
      → IsSound hash r
      → view hash r.ids id ≡ some i
      → view hash r.ids k ≡ some j
      → id ≢ k
      → (i.payload == j.payload) ≡ false
  other_object r k i j w e e' ne =
      let p : i.payload ≢ j.payload = λ q. ne (w.apart id k i j e e' q) in ground arith

  -- A registry whose ids are the same up to objects.
  pub behind-update :
      (r : Registry) (k : Text) (i : CacheItem ℕ) (x : Option Object)
      → IsSound hash r
      → view hash r.ids id ≡ some i
      → id ≢ k
      → behind hash (update r.objects i.payload x) (view hash r.ids k) ≡ lookup hash r k
  behind-update r k i x w e ne = elim (Option-cases (view hash r.ids k)) [
    | inl e' ↦ rw e'
    | inr (j, e') ↦ rw (e', other_object r k i j w e e' ne)
  ]

  pub alter-IsSound :
      (r : Registry) (i : CacheItem ℕ) (o : Object)
      → IsSound hash r
      → view hash r.ids id ≡ some i
      → IsSound hash (record r { objects = update r.objects i.payload (some o) })
  alter-IsSound r i o w e = record {
    permanent = w.permanent;
    known = w.known;
    alive = λ k j e'. elim (Bool-cases (i.payload == j.payload)) [
      | inl q ↦ (o, rw q refl)
      | inr q ↦ let (o', p) = w.alive k j e' in (o', rw q p)
    ];
    apart = w.apart;
  }

  -- The registry without the id, and with other objects.
  abbrev pub without : (ℕ → Option Object) → Registry → Registry
  without objects r = record r { ids = (del hash id r.ids).0; objects = objects }

  pub view-without :
      (objects : ℕ → Option Object) (r : Registry) (k : Text) (j : CacheItem ℕ)
      → view hash (without objects r).ids k ≡ some j
      → (id ≢ k) × (view hash r.ids k ≡ some j)
  view-without objects r k j h =
      let g : (if id =?= k then none else view hash r.ids k) ≡ some j =
        sym (view-del hash id k r.ids) ∙ h in
      elim (Bool-cases (id =?= k)) [
        | inl q ↦ let bad : none ≡ some j = rw q at g in absurd (cc)
        | inr q ↦ (λ p. let t : (id =?= k) ≡ true = (=?=_iff id k).1 p in cc, rw q at g)
      ]

  pub without-IsSound :
      (objects : ℕ → Option Object) (r : Registry)
      → IsSound hash r
      → ((k : Text) (j : CacheItem ℕ)
          → id ≢ k
          → view hash r.ids k ≡ some j
          → objects j.payload ≡ r.objects j.payload)
      → IsSound hash (without objects r)
  without-IsSound objects r w h = record {
    permanent = λ k j e. w.permanent k j (view-without objects r k j e).1;
    known = λ k j e. w.known k j (view-without objects r k j e).1;
    alive = λ k j e.
        let (ne, e') = view-without objects r k j e in
        let (o, p) = w.alive k j e' in (o, h k j ne e' ∙ p);
    apart = λ k k' j j' e e'.
        w.apart k k' j j' (view-without objects r k j e).1 (view-without objects r k' j' e').1;
  }

  pub lookup-without :
      (objects : ℕ → Option Object) (r : Registry) (k : Text)
      → lookup hash (without objects r) k
        ≡ (if id =?= k then none else behind hash objects (view hash r.ids k))
  lookup-without objects r k =
      rw (view-del hash id k r.ids)
        (elim (Bool-cases (id =?= k)) [ inl q ↦ rw q refl | inr q ↦ rw q refl ])
