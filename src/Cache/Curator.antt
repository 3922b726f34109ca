-- ===== src/Cache/Curator.antt =====
-- The curator thread of include/capy/amqp_cache.h, in small steps: the operations of the cache come
-- between any two of them.
pub mod Retired
pub mod Unseen
use capy_amqp_cpp.Prelude.{
  ℕ, zero, suc, Bool, true, false, List, [], ◌∷◌, if◌then◌else◌, Key, indices, update,
}
use capy_amqp_cpp.Cache.Shards.{Shard, cull_expired_keys}
use capy_amqp_cpp.Cache.{Cache, shard_size}

-- Where the curator is: about to test `*curator_run`, asleep, about to cull a shard with others to come,
-- or at the end of its thread.
pub data Stage : Type 0 where
  tests sleeps stopped : Stage
  culls : ℕ → List ℕ → Stage

-- The test of the loop, `*curator_run`.
abbrev pub is_running : ℕ → Bool
is_running zero = false
is_running (suc n) = true

abbrev pub next_shard : List ℕ → Stage
next_shard [] = tests
next_shard (n ∷ ns) = culls n ns

-- `if (!enable_curator_) return`
abbrev pub begins {ℓ κ} : {K : Type ℓ} {T : Type κ} → Cache K T → Stage
begins c = if c.enable_curator then tests else stopped

module _ {ℓ κ} {K : Type ℓ} ⦃e : Key K⦄ {T : Type κ} where
  -- One step; it holds the lock of a shard while it culls it. `clock k` is the time that it reads at the
  -- item of `k`.
  unfoldable pub curator_step : (K → ℕ) → Stage → Cache K T → Stage × Cache K T
  curator_step clock tests c = (if is_running c.curator_run then sleeps else stopped, c)
  curator_step clock sleeps c = (next_shard (indices 0 shard_size), c)
  curator_step clock stopped c = (stopped, c)
  curator_step clock (culls n ns) c = (
    next_shard ns,
    record c { shards = update c.shards n (cull_expired_keys clock (c.shards n)) },
  )

  -- `curate`, from a stage on, for as many steps as there are clocks.
  unfoldable pub curate : List (K → ℕ) → Stage → Cache K T → Stage × Cache K T
  unfolding curator_step
  curate [] stage c = (stage, c)
  curate (clock ∷ clocks) stage c =
      let (stage', c') = curator_step clock stage c in curate clocks stage' c'
