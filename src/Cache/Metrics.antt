-- ===== src/Cache/Metrics.antt =====
-- The loops of `Cache` over its shards: `metrics`, `flush` and the invariant of the maps.
use capy_amqp_cpp.Prelude.{
  ℕ, zero, suc, ◌+◌, ◌≤◌, ◌<◌, ◌≡◌, refl, ◌≢◌, sym, ap, ◌∙◌, Bool, none, [], arith, ◌==◌, length,
  Key, ==_iff, ==_refl, Bool-cases, inl, inr, indices, update, sum_from, sum_from_ext,
  sum_from_zero, sum_from-update,
}
use capy_amqp_cpp.Cache.Shards.{Shard, WriteMode, find, count_of}
use capy_amqp_cpp.Cache.Shards.Laws.{
  written, Distinct, remove-Distinct, set_in-Distinct, get_in-Distinct, length-remove,
  length-set_in,
}
use capy_amqp_cpp.Cache.{
  Cache, shard_size, init, tally, metrics, flush_shards, flush, calc_index, set, get, del,
}
use capy_amqp_cpp.Cache.View.{view, calc_index-lt}
use native.Mathlib.Decide.{ℕ_discrete}

module _ {ℓ κ} {K : Type ℓ} {T : Type κ} where
  abbrev pub sizes : Cache K T → ℕ → ℕ
  sizes c n = length (c.shards n)

  tally-sum_from :
      (i n : ℕ) (c : Cache K T) (acc : ℕ) → tally (indices i n) c acc ≡ acc + sum_from (sizes c) i n
  unfolding tally indices sum_from
  tally-sum_from i zero c acc = omega arith
  tally-sum_from i (suc n) c acc = omega (arith, tally-sum_from (suc i) n c (acc + sizes c i))

  pub metrics_lem : (c : Cache K T) → metrics c ≡ sum_from (sizes c) 0 shard_size
  unfolding metrics
  metrics_lem c = omega (arith, tally-sum_from 0 shard_size c 0)

  -- A loop of `flush` leaves the shards before it alone and empties the others.
  flush_shards-below :
      (i n m : ℕ) (c : Cache K T) (acc : ℕ)
      → m < i
      → (flush_shards (indices i n) c acc).0.shards m ≡ c.shards m
  unfolding flush_shards indices
  flush_shards-below i zero m c acc h = refl
  flush_shards-below i (suc n) m c acc h = ground (
    arith,
    flush_shards-below (suc i) n m (record c { shards = update c.shards i [] })
        (acc + length (c.shards i)),
  )

  pub flush_shards-range :
      (i n m : ℕ) (c : Cache K T) (acc : ℕ)
      → i ≤ m
      → m < i + n
      → (flush_shards (indices i n) c acc).0.shards m ≡ []
  unfolding flush_shards indices
  flush_shards-range i zero m c acc lo hi = absurd (omega arith)
  flush_shards-range i (suc n) m c acc lo hi =
      let c' : Cache K T = record c { shards = update c.shards i [] } in
      let acc' : ℕ = acc + length (c.shards i) in
      elim (ℕ_discrete i m) [
        | yes here ↦ flush_shards-below (suc i) n m c' acc' (omega arith) ∙ rw ((==_iff i m).1 here)
        | no later ↦ flush_shards-range (suc i) n m c' acc' (omega arith) (omega arith)
      ]

  flush_shards-count :
      (i n : ℕ) (c : Cache K T) (acc : ℕ)
      → (flush_shards (indices i n) c acc).1 ≡ acc + sum_from (sizes c) i n
  unfolding flush_shards indices sum_from
  flush_shards-count i zero c acc = omega arith
  flush_shards-count i (suc n) c acc =
      let c' : Cache K T = record c { shards = update c.shards i [] } in
      omega (
        arith,
        flush_shards-count (suc i) n c' (acc + sizes c i),
        sum_from_ext (sizes c') (sizes c) (suc i) n (λ j le. ground arith),
      )

  -- `flush` returns the count that `metrics` returns before it.
  pub flush-count : (c : Cache K T) → (flush c).1 ≡ metrics c
  unfolding flush
  flush-count c = omega (arith, flush_shards-count 0 shard_size c 0, metrics_lem c)

  -- After a `flush`, `metrics` returns 0.
  pub metrics-flush : (c : Cache K T) → metrics (flush c).0 ≡ 0
  unfolding flush
  metrics-flush c =
      metrics_lem _
      ∙ sum_from_zero _ 0 shard_size
          (λ j lo hi. ap length (flush_shards-range 0 shard_size j c 0 lo hi))

pub metrics-init {ℓ κ} : (K : Type ℓ) (T : Type κ) (b : Bool) → metrics (init {K = K} {T = T} b) ≡ 0
unfolding init
metrics-init K T b = metrics_lem _ ∙ sum_from_zero _ 0 shard_size (λ j lo hi. refl)

update-ne {ℓ} : {A : Type ℓ} (f : ℕ → A) (k j : ℕ) (a : A) → j ≢ k → update f k a j ≡ f j
update-ne f k j a ne = elim (Bool-cases (k == j)) [
  | inl same ↦ absurd (ne (sym ((==_iff k j).0 same)))
  | inr other ↦ rw other
]

module _ {ℓ κ} {K : Type ℓ} ⦃e : Key K⦄ {T : Type κ} where
  -- The invariant of the cache: no map holds a key twice.
  pub record IsMap (c : Cache K T) : Type κ where
    pub distinct : (n : ℕ) → Distinct (c.shards n)

  -- A change of one shard, and the number of entries.
  metrics-update :
      (c : Cache K T) (k : ℕ) (s : Shard K T)
      → k < shard_size
      → metrics (record c { shards = update c.shards k s }) + length (c.shards k)
        ≡ metrics c + length s
  metrics-update c k s lt =
      let c' : Cache K T = record c { shards = update c.shards k s } in
      let e' : sizes c' k ≡ length s = ap length (rw (==_refl k)) in
      omega (
        arith,
        metrics_lem c,
        metrics_lem c',
        sum_from-update (sizes c') (sizes c) 0 shard_size k (omega arith) lt
            (λ j ne. ap length (update-ne c.shards k j s ne)),
        e',
      )

  pub update-IsMap :
      (c : Cache K T) (k : ℕ) (s : Shard K T)
      → IsMap c
      → Distinct s
      → IsMap (record c { shards = update c.shards k s })
  update-IsMap c k s m d = record {
    distinct = λ n. elim (Bool-cases (k == n)) [
      | inl here ↦ rw here d
      | inr other ↦ rw other (m.distinct n)
    ];
  }

  module _ (hash : K → ℕ) where
    -- `set` keeps the invariant that no map of the cache holds a key twice.
    pub set-IsMap :
        (id : K) (val : T) (expiration : ℕ) (mode : WriteMode) (c : Cache K T)
        → IsMap c
        → IsMap (set hash id val expiration mode c).0
    unfolding set
    set-IsMap id val expiration mode c m =
        update-IsMap c _ _ m (set_in-Distinct mode id _ _ (m.distinct (calc_index hash id)))

    pub get-IsMap : (now : ℕ) (id : K) (c : Cache K T) → IsMap c → IsMap (get hash now id c).0
    unfolding get
    get-IsMap now id c m =
        update-IsMap c _ _ m (get_in-Distinct now id _ (m.distinct (calc_index hash id)))

    pub del-IsMap : (id : K) (c : Cache K T) → IsMap c → IsMap (del hash id c).0
    unfolding del
    del-IsMap id c m = update-IsMap c _ _ m (remove-Distinct id _ (m.distinct (calc_index hash id)))

    -- In a cache whose maps hold no key twice, a `del` lowers the count that `metrics` returns by
    -- the number that `del` returns.
    pub metrics-del :
        (id : K) (c : Cache K T)
        → IsMap c
        → metrics (del hash id c).0 + (del hash id c).1 ≡ metrics c
    unfolding del
    metrics-del id c m = omega (
      arith,
      metrics-update c (calc_index hash id) _ (calc_index-lt hash id),
      length-remove id (c.shards (calc_index hash id)) (m.distinct (calc_index hash id)),
    )

    -- In a cache whose maps hold no key twice, a `set` takes the old item of its key out of the
    -- count that `metrics` returns and puts the new one in, and counts no other key anew.
    pub metrics-set :
        (id : K) (val : T) (expiration : ℕ) (mode : WriteMode) (c : Cache K T)
        → IsMap c
        → metrics (set hash id val expiration mode c).0 + count_of (view hash c id)
          ≡ metrics c
            + count_of
                (written mode (view hash c id) (record { payload = val; expiration = expiration }))
    unfolding set view
    metrics-set id val expiration mode c m = omega (
      arith,
      metrics-update c (calc_index hash id) _ (calc_index-lt hash id),
      length-set_in mode id (record { payload = val; expiration = expiration })
          (c.shards (calc_index hash id)) (m.distinct (calc_index hash id)),
    )

    -- After `flush` no key is there.
    pub view-flush : (c : Cache K T) (id : K) → view hash (flush c).0 id ≡ none
    unfolding view flush find
    view-flush c id =
        ap (find id) (flush_shards-range 0 shard_size _ c 0 (omega arith) (calc_index-lt hash id))

    pub view-init : (b : Bool) (id : K) → view hash (init {T = T} b) id ≡ none
    unfolding view init find
    view-init b id = refl

  pub init-IsMap : (b : Bool) → IsMap (init {K = K} {T = T} b)
  unfolding init
  init-IsMap b = record { distinct = λ n. tt }
