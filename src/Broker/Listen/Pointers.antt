-- ===== src/Broker/Listen/Pointers.antt =====
-- The pointers of src/broker_impl/broker.cc and src/broker_impl/broker.h to a listener: from the map,
-- and from the connections.
use capy_amqp_cpp.Prelude.{
  ℕ, zero, suc, ◌+◌, ◌≤◌, ◌<◌, ◌≡◌, ◌⊎◌, refl, sym, ap, subst, ==_iff, ◌∙◌, Bool, true, false, ◌||◌,
  none, some, [], ◌∷◌, ◌==◌, ==_refl, Text, text_key, indices, update, Bool-cases, Option-cases,
  inl, inr, arith, ◌=?=◌, =?=_iff,
}
use native.Mathlib.Decide.{ℕ_discrete}
use capy_amqp_cpp.Cache.Shards.{Shard, CacheItem, write_always, find, remove, set_in}
use capy_amqp_cpp.Cache.Shards.Laws.{Distinct}
use capy_amqp_cpp.Cache.{Cache, shard_size, calc_index, set, del}
use capy_amqp_cpp.Cache.View.{view, calc_index-lt}
use capy_amqp_cpp.Cache.Metrics.{IsMap}
use capy_amqp_cpp.Connections.{ConnectionCache}
use capy_amqp_cpp.Connections.Reached.{PointsTo}
use capy_amqp_cpp.Broker.Listen.Owners.{is_registered, is_held, shard_has, any_of}

pub or_right : (a : Bool) {b : Bool} → b ≡ true → (a || b) ≡ true
or_right true h = refl
or_right false h = h

find-shard_has :
    (id : Text) (i : CacheItem ℕ) (s : Shard Text ℕ)
    → find id s ≡ some i
    → shard_has i.payload s ≡ true
unfolding find shard_has
find-shard_has id i [] h = absurd (cc)
find-shard_has id i ((k, item) ∷ s) h = elim (Bool-cases (k =?= id)) [
  | inl q ↦
      let p : some item ≡ some i = rw q at h in
      let p' : item.payload ≡ i.payload = cc in rw (p', ==_refl i.payload) refl
  | inr q ↦ or_right (item.payload == i.payload) (find-shard_has id i s (rw q at h))
]

pub any_of-indices :
    (p : ℕ → Bool) (i n k : ℕ) → i ≤ k → k < i + n → p k ≡ true → any_of p (indices i n) ≡ true
unfolding indices
any_of-indices p i zero k lo hi h = absurd (omega arith)
any_of-indices p i (suc n) k lo hi h = elim (ℕ_discrete i k) [
  | yes e ↦ rw (e, h) refl
  | no ne ↦ or_right (p i) (any_of-indices p (suc i) n k (omega arith) (omega arith) h)
]

-- The object behind an id is registered.
pub is_registered-view :
    (hash : Text → ℕ) (id : Text) (i : CacheItem ℕ) (c : Cache Text ℕ)
    → view hash c id ≡ some i
    → is_registered i.payload c ≡ true
unfolding is_registered view
is_registered-view hash id i c h =
    any_of-indices (λ k. shard_has i.payload (c.shards k)) 0 shard_size (calc_index hash id)
      (omega arith) (omega (arith, calc_index-lt hash id))
      (find-shard_has id i (c.shards (calc_index hash id)) h)

pub or_left : {a : Bool} (b : Bool) → a ≡ true → (a || b) ≡ true
or_left b h = rw h refl

pub or_cases : (a b : Bool) → (a || b) ≡ true → (a ≡ true) ⊎ (b ≡ true)
or_cases true b h = inl refl
or_cases false b h = inr h

pub any_of-found :
    (p : ℕ → Bool) (i n : ℕ) → any_of p (indices i n) ≡ true → (k : ℕ) × (k < i + n) × (p k ≡ true)
unfolding indices
any_of-found p i zero h = absurd (cc)
any_of-found p i (suc n) h = elim (Bool-cases (p i)) [
  | inl q ↦ (i, omega arith, q)
  | inr q ↦ let (k, lt, r) = any_of-found p (suc i) n (rw q at h) in (k, omega arith, r)
]

pub is_held-PointsTo {ℓ} :
    {K : Type ℓ} (c : ConnectionCache K) (k n : ℕ) → PointsTo c k n → is_held n c ≡ true
unfolding is_held
is_held-PointsTo c k n (lt, h) =
    any_of-indices _ 0 c.created k (omega arith) (omega arith) (rw h (==_refl n))

pub PointsTo-is_held {ℓ} :
    {K : Type ℓ} (c : ConnectionCache K) (n : ℕ) → is_held n c ≡ true → (k : ℕ) × PointsTo c k n
unfolding is_held
PointsTo-is_held c n h =
    let (k, lt, q) = any_of-found _ 0 c.created h in
    elim (Option-cases (c.objects k).deferred) [
      | inl e ↦ let bad : false ≡ true = rw e at q in absurd (cc)
      | inr (m, e) ↦
          let q' : (m == n) ≡ true = rw e at q in
          (k, (omega arith, e ∙ ap some ((==_iff m n).0 q')))
    ]

-- A new key hides no pointer.
shard_has-set_in :
    (n : ℕ) (id : Text) (item : CacheItem ℕ) (s : Shard Text ℕ)
    → find id s ≡ none
    → shard_has n s ≡ true
    → shard_has n (set_in write_always id item s).0 ≡ true
unfolding set_in shard_has
shard_has-set_in n id item s e h = rw e (or_right (item.payload == n) h)

-- A key that goes takes its own pointer with it.
shard_has-remove :
    (n : ℕ) (id : Text) (s : Shard Text ℕ)
    → Distinct s
    → shard_has n s ≡ true
    → ((i : CacheItem ℕ) × (find id s ≡ some i) × (i.payload ≡ n))
      ⊎ (shard_has n (remove id s) ≡ true)
unfolding shard_has remove find
shard_has-remove n id [] d h = absurd (cc)
shard_has-remove n id ((k, item) ∷ s) d h = elim (Bool-cases (item.payload == n)) [
  | inl p ↦ elim (Bool-cases (k =?= id)) [
    | inl q ↦ inl (item, rw q refl, (==_iff item.payload n).0 p)
    | inr q ↦ inr (rw (q, p) refl)
  ]
  | inr p ↦
      let ih = shard_has-remove n id s d.1 (rw p at h) in
      elim (Bool-cases (k =?= id)) [
        | inl q ↦ elim ih [
          | inl (i, a, b) ↦
              let gone : find id s ≡ none = subst (λ x. find x s ≡ none) ((=?=_iff k id).0 q) d.0 in
              let bad : none ≡ some i = sym gone ∙ a in absurd (cc)
          | inr r ↦ inr (rw q r)
        ]
        | inr q ↦ elim ih [
          | inl (i, a, b) ↦ inl (i, rw q a, b)
          | inr r ↦ inr (rw q (or_right (item.payload == n) r))
        ]
      ]
]

module _ (hash : Text → ℕ) (n : ℕ) (id : Text) (c : Cache Text ℕ) where
  -- The shard that has the pointer, after a change at the shard of the id.
  is_registered-update :
      (s : Shard Text ℕ)
      → (shard_has n (c.shards (calc_index hash id)) ≡ true → shard_has n s ≡ true)
      → is_registered n c ≡ true
      → is_registered n (record c { shards = update c.shards (calc_index hash id) s }) ≡ true
  unfolding is_registered
  is_registered-update s keep h =
      let (k, lt, q) = any_of-found (λ j. shard_has n (c.shards j)) 0 shard_size h in
      any_of-indices (λ j. shard_has n (update c.shards (calc_index hash id) s j)) 0 shard_size k
        (omega arith) (omega arith)
        (elim (Bool-cases (calc_index hash id == k)) [
          | inl e ↦
              rw e (keep (subst (λ j. shard_has n (c.shards j) ≡ true) (sym ((==_iff _ k).0 e)) q))
          | inr e ↦ rw e q
        ])

  pub is_registered-set :
      (val : ℕ)
      → view hash c id ≡ none
      → is_registered n c ≡ true
      → is_registered n (set hash id val 0 write_always c).0 ≡ true
  unfolding set view
  is_registered-set val fresh =
      is_registered-update _ (shard_has-set_in n id _ (c.shards (calc_index hash id)) fresh)

  pub is_registered-del :
      IsMap c
      → is_registered n c ≡ true
      → ((i : CacheItem ℕ) × (view hash c id ≡ some i) × (i.payload ≡ n))
        ⊎ (is_registered n (del hash id c).0 ≡ true)
  unfolding del view
  is_registered-del m h =
      let s = c.shards (calc_index hash id) in
      elim (Bool-cases (shard_has n s)) [
        | inl q ↦ elim (shard_has-remove n id s (m.distinct (calc_index hash id)) q) [
          | inl found ↦ inl found
          | inr r ↦ inr (is_registered-update (remove id s) (λ _. r) h)
        ]
        | inr q ↦ inr (
            is_registered-update (remove id s)
              (λ r. let bad : true ≡ false = sym r ∙ q in absurd (cc)) h)
      ]
