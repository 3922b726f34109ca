-- ===== src/Cache/Shards.antt =====
-- `CacheItem` and `Shard` of include/capy/amqp_cache.h, and what each operation of `Cache` does to the
-- one shard that it locks. A `std::map` is a list of entries with distinct keys; its order of
-- iteration makes no difference to the program.
pub mod Laws
use capy_amqp_cpp.Prelude.{
  ℕ, suc, ◌+◌, Bool, true, false, not, ◌&&◌, Option, none, some, List, [], ◌∷◌, ◌==◌, ltb,
  if◌then◌else◌, length, is_some, Key, ◌=?=◌,
}

-- enum CacheWritemode
pub data WriteMode : Type 0 where
  write_always only_write_if_set only_write_if_not_set : WriteMode

abbrev pub is_if_set : WriteMode → Bool
is_if_set only_write_if_set = true
is_if_set _ = false

abbrev pub is_if_not_set : WriteMode → Bool
is_if_not_set only_write_if_not_set = true
is_if_not_set _ = false

-- `payload` is the source's `data`.
pub record CacheItem {κ} (T : Type κ) : Type κ where
  pub payload : T
  pub expiration : ℕ

-- CacheItem::expired, at the time `now`
unfoldable pub expired {κ} : {T : Type κ} → ℕ → CacheItem T → Bool
expired now item = if item.expiration == 0 then false else ltb item.expiration now

abbrev pub Shard {ℓ κ} : Type ℓ → Type κ → Type (ℓ ⊔ κ)
Shard K T = List (K × CacheItem T)

abbrev pub count_of {κ} : {T : Type κ} → Option (CacheItem T) → ℕ
count_of none = 0
count_of (some item) = 1

module _ {ℓ κ} {K : Type ℓ} ⦃e : Key K⦄ {T : Type κ} where
  -- map.find, map.at
  unfoldable pub find : K → Shard K T → Option (CacheItem T)
  find id [] = none
  find id ((k, item) ∷ s) = if k =?= id then some item else find id s

  -- map.erase(id): the map without the key, and the number of entries erased.
  unfoldable pub remove : K → Shard K T → Shard K T
  remove id [] = []
  remove id ((k, item) ∷ s) = let rest = remove id s in if k =?= id then rest else (k, item) ∷ rest

  unfoldable pub erase : K → Shard K T → Shard K T × ℕ
  erase id s = (remove id s, count_of (find id s))

  -- map.insert, which writes no key that is there; the flag says that it wrote.
  unfoldable pub insert : K → CacheItem T → Shard K T → Shard K T × Bool
  insert id item s = if is_some (find id s) then (s, false) else ((id, item) ∷ s, true)

  -- The second half of `Cache::set`: insert, and erase and insert again where the key was there.
  unfoldable pub store : WriteMode → K → CacheItem T → Shard K T → Shard K T × ℕ
  unfolding insert erase
  store mode id item s =
      let (s', written) = insert id item s in
      if not written
      then (if is_if_not_set mode then (s', 0) else ((insert id item (erase id s').0).0, 1))
      else (s', 1)

  -- Cache::set on the shard: what it leaves, and the number of items written.
  unfoldable pub set_in : WriteMode → K → CacheItem T → Shard K T → Shard K T × ℕ
  unfolding store
  set_in mode id item s =
      if is_if_set mode
      then (if not (is_some (find id s)) then (s, 0) else store mode id item (erase id s).0)
      else store mode id item s

  -- Cache::get on the shard, once `map.at` has found the item or thrown.
  abbrev pub read_item : ℕ → K → Option (CacheItem T) → Shard K T → Shard K T × Option T
  read_item now id none s = (s, none)
  read_item now id (some item) s =
      if expired now item then ((erase id s).0, none) else (s, some item.payload)

  unfoldable pub get_in : ℕ → K → Shard K T → Shard K T × Option T
  unfolding erase
  get_in now id s = read_item now id (find id s) s

  -- Shard::cull_expired_keys. Each item reads the clock anew: `clock k` is the time at the item of `k`.
  unfoldable pub cull_expired_keys : (K → ℕ) → Shard K T → Shard K T
  cull_expired_keys clock [] = []
  cull_expired_keys clock ((k, item) ∷ s) =
      let rest = cull_expired_keys clock s in
      if expired (clock k) item then rest else (k, item) ∷ rest
