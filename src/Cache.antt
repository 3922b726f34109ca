-- ===== src/Cache.antt =====
-- include/capy/amqp_cache.h: a cache in shards, each a map behind a lock. A `shared_ptr` to a value
-- is the value, and the empty pointer is `none`. Times are seconds of the clock, an argument of what
-- reads it. Each operation holds the lock of the one shard that it uses, so it is one step.
pub mod Shards
pub mod View
pub mod Metrics
pub mod Curator
pub mod Idle
pub mod Contents
pub mod Permanent
mod Tests
use capy_amqp_cpp.Prelude.{
  ℕ, zero, suc, ◌+◌, ◌-◌, ◌%◌, Bool, true, false, Option, none, some, List, [], ◌∷◌, ◌==◌,
  if◌then◌else◌, length, is_some, Key, indices, update,
}
use Shards.{Shard, CacheItem, WriteMode, erase, set_in, get_in, cull_expired_keys}

-- FASTCACHE_SHARDSIZE
abbrev pub shard_size : ℕ
shard_size = 256

-- The vector of shards is a function of the index below `shard_size`. `curator_run` is the counter
-- that the curator reads, and 0 where there is no curator.
pub record Cache {ℓ κ} (K : Type ℓ) (T : Type κ) : Type (ℓ ⊔ κ) where
  pub shards : ℕ → Shard K T
  pub enable_curator : Bool
  pub curator_run : ℕ

module _ {ℓ κ} {K : Type ℓ} {T : Type κ} where
  -- The constructor.
  unfoldable pub init : Bool → Cache K T
  init enable_curator = record {
    shards = λ n. [];
    enable_curator = enable_curator;
    curator_run = if enable_curator then 1 else 0;
  }

  -- The destructor, up to its wait for the curator to end.
  unfoldable pub retire : Cache K T → Cache K T
  retire c = if c.enable_curator then record c { curator_run = c.curator_run - 1 } else c

  -- The loops over the shards, in order, by their indices.
  unfoldable pub tally : List ℕ → Cache K T → ℕ → ℕ
  tally [] c total_size = total_size
  tally (n ∷ ns) c total_size = tally ns c (total_size + length (c.shards n))

  unfoldable pub metrics : Cache K T → ℕ
  unfolding tally
  metrics c = tally (indices 0 shard_size) c 0

  unfoldable pub flush_shards : List ℕ → Cache K T → ℕ → Cache K T × ℕ
  flush_shards [] c count = (c, count)
  flush_shards (n ∷ ns) c count =
      flush_shards ns (record c { shards = update c.shards n [] }) (count + length (c.shards n))

  unfoldable pub flush : Cache K T → Cache K T × ℕ
  unfolding flush_shards
  flush c = flush_shards (indices 0 shard_size) c 0

-- `std::hash<Key>` is the parameter `hash`.
unfoldable pub calc_index {ℓ} : {K : Type ℓ} → (K → ℕ) → K → ℕ
calc_index hash id = hash id % shard_size

module _ {ℓ κ} {K : Type ℓ} ⦃e : Key K⦄ {T : Type κ} (hash : K → ℕ) where
  -- An operation on the shard of a key.
  abbrev pub at_shard {μ} :
      {R : Type μ} → K → (Shard K T → Shard K T × R) → Cache K T → Cache K T × R
  at_shard id f c =
      let (s, r) = f (c.shards (calc_index hash id)) in
      (record c { shards = update c.shards (calc_index hash id) s }, r)

  -- `expiration` is 0 and `mode` is `write_always` where the caller gives none.
  unfoldable pub set : K → T → ℕ → WriteMode → Cache K T → Cache K T × ℕ
  unfolding calc_index set_in
  set id val expiration mode =
      at_shard id (set_in mode id (record { payload = val; expiration = expiration }))

  unfoldable pub get : ℕ → K → Cache K T → Cache K T × Option T
  unfolding calc_index get_in
  get now id = at_shard id (get_in now id)

  unfoldable pub has : ℕ → K → Cache K T → Cache K T × Bool
  unfolding get
  has now id c = let (c', found) = get now id c in (c', is_some found)

  unfoldable pub del : K → Cache K T → Cache K T × ℕ
  unfolding calc_index erase
  del id = at_shard id (erase id)
