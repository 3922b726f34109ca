-- ===== src/Cache/Curator/Unseen.antt =====
-- The curator of include/capy/amqp_cache.h and the readers of the cache.
use capy_amqp_cpp.Prelude.{
  map, update, if◌then◌else◌, ℕ, zero, suc, ◌+◌, ◌≤◌, ◌<◌, ◌≡◌, ◌≢◌, refl, sym, ap, ◌∙◌, true,
  Option, none, some, List, [], ◌∷◌, arith, ◌==◌, ==_iff, Key, All, inl, inr, Bool-cases, indices,
}
use capy_amqp_cpp.Cache.Shards.{CacheItem, expired, find, cull_expired_keys}
use capy_amqp_cpp.Cache.Shards.Laws.{live, payload_of, find-cull, cull-Distinct}
use capy_amqp_cpp.Cache.{Cache, shard_size, calc_index, get}
use capy_amqp_cpp.Cache.View.{view, calc_index-lt, get_result}
use capy_amqp_cpp.Cache.Metrics.{IsMap, update-IsMap}
use capy_amqp_cpp.Cache.Curator.{
  Stage, tests, sleeps, stopped, culls, is_running, next_shard, begins, curator_step, curate,
}

-- What is dead at a time is dead later.
pub live-live {κ} :
    {T : Type κ} (s t : ℕ) (o : Option (CacheItem T)) → s ≤ t → live t (live s o) ≡ live t o
unfolding expired
live-live s t none h = refl
live-live s t (some item) h = ground arith

-- The times of one round: those of the test and of the sleep are not used.
abbrev pub round_clocks {ℓ} : {K : Type ℓ} → (ℕ → K → ℕ) → List (K → ℕ)
round_clocks clock = (λ k. 0) ∷ (λ k. 0) ∷ map clock (indices 0 shard_size)

module _ {ℓ κ} {K : Type ℓ} ⦃e : Key K⦄ {T : Type κ} where
  -- Every shard in order. `clock n k` is the time that is read at the item of `k` in shard `n`.
  unfoldable cull_shards : List ℕ → (ℕ → K → ℕ) → Cache K T → Cache K T
  cull_shards [] clock c = c
  cull_shards (n ∷ ns) clock c =
      cull_shards ns clock
        (record c { shards = update c.shards n (cull_expired_keys (clock n) (c.shards n)) })

  cull_shards-below :
      (i n m : ℕ) (clock : ℕ → K → ℕ) (c : Cache K T)
      → m < i
      → (cull_shards (indices i n) clock c).shards m ≡ c.shards m
  unfolding cull_shards indices
  cull_shards-below i zero m clock c h = refl
  cull_shards-below i (suc n) m clock c h = elim (Bool-cases (i == m)) [
    | inl here ↦ absurd (omega (arith, (==_iff i m).0 here))
    | inr other ↦ cull_shards-below (suc i) n m clock _ (omega arith) ∙ rw other
  ]

  cull_shards-range :
      (i n m : ℕ) (clock : ℕ → K → ℕ) (c : Cache K T)
      → i ≤ m
      → m < i + n
      → (cull_shards (indices i n) clock c).shards m ≡ cull_expired_keys (clock m) (c.shards m)
  unfolding cull_shards indices
  cull_shards-range i zero m clock c lo hi = absurd (omega arith)
  cull_shards-range i (suc n) m clock c lo hi = elim (Bool-cases (i == m)) [
    | inl here ↦
        let p : i ≡ m = (==_iff i m).0 here in
        cull_shards-below (suc i) n m clock _ (omega arith)
        ∙ rw here (ap (λ j. cull_expired_keys (clock j) (c.shards j)) p)
    | inr other ↦
        let ne : i ≢ m = λ p. cc (other, (==_iff i m).1 p) in
        cull_shards-range (suc i) n m clock _ (omega arith) (omega arith) ∙ rw other
  ]

  -- One round of the curator, over all the shards.
  abbrev round : (ℕ → K → ℕ) → Cache K T → Cache K T
  round clock c = cull_shards (indices 0 shard_size) clock c

  culled-IsMap :
      (n : ℕ) (clock : K → ℕ) (c : Cache K T)
      → IsMap c
      → IsMap (record c { shards = update c.shards n (cull_expired_keys clock (c.shards n)) })
  culled-IsMap n clock c m = update-IsMap c n _ m (cull-Distinct clock _ (m.distinct n))

  step-IsMap :
      (clock : K → ℕ) (stage : Stage) (c : Cache K T)
      → IsMap c
      → IsMap (curator_step clock stage c).1
  unfolding curator_step
  step-IsMap clock tests c m = m
  step-IsMap clock sleeps c m = m
  step-IsMap clock stopped c m = m
  step-IsMap clock (culls n ns) c m = culled-IsMap n clock c m

  -- A whole loop over shards.
  curate-culls :
      (ns : List ℕ) (clock : ℕ → K → ℕ) (c : Cache K T)
      → curate (map clock ns) (next_shard ns) c ≡ (tests, cull_shards ns clock c)
  unfolding curate cull_shards
  curate-culls [] clock c = refl
  curate-culls (n ∷ ns) clock c = curate-culls ns clock _

  curate-round :
      (clock : ℕ → K → ℕ) (c : Cache K T)
      → is_running c.curator_run ≡ true
      → curate (round_clocks clock) tests c ≡ (tests, round clock c)
  unfolding curate curator_step
  curate-round clock c running =
      ap
        (λ b.
          curate ((λ k. 0) ∷ map clock (indices 0 shard_size)) (if b then sleeps else stopped) c)
        running
      ∙ curate-culls (indices 0 shard_size) clock c

  module _ (hash : K → ℕ) where
    -- A round drops exactly the items that have expired when it reaches them.
    view-round :
        (clock : ℕ → K → ℕ) (c : Cache K T) (id : K)
        → IsMap c
        → view hash (round clock c) id ≡ live (clock (calc_index hash id) id) (view hash c id)
    unfolding view
    view-round clock c id m =
        ap (find id)
          (cull_shards-range 0 shard_size _ clock c (omega arith) (calc_index-lt hash id))
        ∙ find-cull (clock (calc_index hash id)) id _ (m.distinct (calc_index hash id))

    view-culled :
        (n : ℕ) (clock : K → ℕ) (c : Cache K T) (id : K)
        → IsMap c
        → view hash
            (record c { shards = update c.shards n (cull_expired_keys clock (c.shards n)) })
            id
          ≡ (if n == calc_index hash id then live (clock id) (view hash c id) else view hash c id)
    unfolding view
    view-culled n clock c id m = elim (Bool-cases (n == calc_index hash id)) [
      | inl q ↦ rw q (
          ap (λ j. find id (cull_expired_keys clock (c.shards j)))
            ((==_iff n (calc_index hash id)).0 q)
          ∙ find-cull clock id _ (m.distinct (calc_index hash id)))
      | inr q ↦ rw q refl
    ]

    -- A step that reads no time after `t` changes nothing that a reader may see at `t`.
    live-view-step :
        (t : ℕ) (clock : K → ℕ) (stage : Stage) (c : Cache K T) (id : K)
        → IsMap c
        → ((k : K) → clock k ≤ t)
        → live t (view hash (curator_step clock stage c).1 id) ≡ live t (view hash c id)
    unfolding curator_step
    live-view-step t clock tests c id m before = refl
    live-view-step t clock sleeps c id m before = refl
    live-view-step t clock stopped c id m before = refl
    live-view-step t clock (culls n ns) c id m before =
        ap (live t) (view-culled n clock c id m) ∙ elim (Bool-cases (n == calc_index hash id)) [
          | inl q ↦ rw q (live-live (clock id) t (view hash c id) (before id))
          | inr q ↦ rw q refl
        ]

    live-view-curate :
        (t : ℕ) (clocks : List (K → ℕ)) (stage : Stage) (c : Cache K T) (id : K)
        → IsMap c
        → All (λ clock. (k : K) → clock k ≤ t) clocks
        → live t (view hash (curate clocks stage c).1 id) ≡ live t (view hash c id)
    unfolding curate
    live-view-curate t [] stage c id m before = refl
    live-view-curate t (clock ∷ clocks) stage c id m before =
        let r = curator_step clock stage c in
        live-view-curate t clocks r.0 r.1 id (step-IsMap clock stage c m) before.1
        ∙ live-view-step t clock stage c id m before.0

    -- The curator is invisible: in a cache whose maps hold no key twice, a `get` at the time `t`
    -- returns the same before and after any number of steps of the curator, from any point of its
    -- loop, that read no time after `t`.
    pub get-curate :
        (t : ℕ) (clocks : List (K → ℕ)) (stage : Stage) (c : Cache K T) (id : K)
        → IsMap c
        → All (λ clock. (k : K) → clock k ≤ t) clocks
        → (get hash t id (curate clocks stage c).1).1 ≡ (get hash t id c).1
    get-curate t clocks stage c id m before =
        get_result hash t id (curate clocks stage c).1
        ∙ ap payload_of (live-view-curate t clocks stage c id m before)
        ∙ sym (get_result hash t id c)

    -- In a cache whose maps hold no key twice, a round of a running curator, from the start of its
    -- thread, drops the item under a key exactly if it had expired at the time that was read at
    -- it, and leaves it as it is otherwise; then the curator is at its test again.
    pub view-curate :
        (clock : ℕ → K → ℕ) (c : Cache K T) (id : K)
        → IsMap c
        → c.enable_curator ≡ true
        → is_running c.curator_run ≡ true
        → (view hash (curate (round_clocks clock) (begins c) c).1 id
            ≡ live (clock (calc_index hash id) id) (view hash c id))
          × ((curate (round_clocks clock) (begins c) c).0 ≡ tests)
    view-curate clock c id m enabled running =
        let e : curate (round_clocks clock) (begins c) c ≡ (tests, round clock c) =
          ap (λ b. curate (round_clocks clock) (if b then tests else stopped) c) enabled
          ∙ curate-round clock c running in
        (ap (λ r. view hash r.1 id) e ∙ view-round clock c id m, ap (λ r. r.0) e)
