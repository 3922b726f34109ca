-- ===== src/Cache/Shards/Laws.antt =====
-- The entries of a shard of include/capy/amqp_cache.h under its operations.
use capy_amqp_cpp.Prelude.{
  ℕ, ◌+◌, ◌≡◌, refl, Option, none, some, [], ◌∷◌, arith, if◌then◌else◌, length, Key, ◌=?=◌,
  =?=_refl,
}
use capy_amqp_cpp.Cache.Shards.{
  WriteMode, write_always, only_write_if_set, only_write_if_not_set, CacheItem, expired, Shard,
  find, remove, set_in, get_in, cull_expired_keys, count_of,
}

-- The write that `Cache::set` promises, on what is stored under the key.
abbrev pub written {κ} :
    {T : Type κ} → WriteMode → Option (CacheItem T) → CacheItem T → Option (CacheItem T)
written only_write_if_set none item = none
written only_write_if_not_set (some old) item = some old
written _ _ item = some item

-- The number of items that it promises to write.
abbrev pub writes {κ} : {T : Type κ} → WriteMode → Option (CacheItem T) → ℕ
writes only_write_if_set none = 0
writes only_write_if_not_set (some old) = 0
writes _ _ = 1

-- What a reader at the time `now` may still see of an entry.
abbrev pub live {κ} : {T : Type κ} → ℕ → Option (CacheItem T) → Option (CacheItem T)
live now none = none
live now (some item) = if expired now item then none else some item

abbrev pub payload_of {κ} : {T : Type κ} → Option (CacheItem T) → Option T
payload_of none = none
payload_of (some item) = some item.payload

module _ {ℓ κ} {K : Type ℓ} ⦃e : Key K⦄ {T : Type κ} where
  pub find-remove :
      (id j : K) (s : Shard K T) → find j (remove id s) ≡ (if id =?= j then none else find j s)
  unfolding find remove
  find-remove id j [] = ground arith
  find-remove id j ((k, item) ∷ s) =
      ground (arith, find-remove id j s, e.same_iff k id, e.same_iff k j, e.same_iff id j)

  find-cons :
      (id j : K) (item : CacheItem T) (s : Shard K T)
      → find j ((id, item) ∷ s) ≡ (if id =?= j then some item else find j s)
  unfolding find
  find-cons id j item s = refl

  -- The set of `store`, where the key's own entry is `o`.
  find-set_in_at :
      (mode : WriteMode) (o : Option (CacheItem T)) (id j : K) (item : CacheItem T) (s : Shard K T)
      → find id s ≡ o
      → find j (set_in mode id item s).0 ≡ (if id =?= j then written mode o item else find j s)
  unfolding set_in
  find-set_in_at write_always none id j item s h = ground (arith, find-cons id j item s)
  find-set_in_at write_always (some o) id j item s h = ground (
    arith,
    find-remove id id s,
    find-remove id j s,
    =?=_refl id,
    find-cons id j item (remove id s),
  )
  find-set_in_at only_write_if_set none id j item s h = ground (arith, e.same_iff id j)
  find-set_in_at only_write_if_set (some o) id j item s h = ground (
    arith,
    find-remove id id s,
    find-remove id j s,
    =?=_refl id,
    find-cons id j item (remove id s),
  )
  find-set_in_at only_write_if_not_set none id j item s h = ground (arith, find-cons id j item s)
  find-set_in_at only_write_if_not_set (some o) id j item s h = ground (arith, e.same_iff id j)

  pub find-set_in :
      (mode : WriteMode) (id j : K) (item : CacheItem T) (s : Shard K T)
      → find j (set_in mode id item s).0
        ≡ (if id =?= j then written mode (find id s) item else find j s)
  find-set_in mode id j item s = find-set_in_at mode (find id s) id j item s refl

  pub set_in_count :
      (mode : WriteMode) (id : K) (item : CacheItem T) (s : Shard K T)
      → (set_in mode id item s).1 ≡ writes mode (find id s)
  unfolding set_in
  set_in_count write_always id item s = ground arith
  set_in_count only_write_if_set id item s = ground (arith, find-remove id id s, =?=_refl id)
  set_in_count only_write_if_not_set id item s = ground (arith, find-remove id id s)

  pub get_in_payload :
      (now : ℕ) (id : K) (s : Shard K T) → (get_in now id s).1 ≡ payload_of (live now (find id s))
  unfolding get_in
  get_in_payload now id s = ground arith

  pub find-get_in :
      (now : ℕ) (id j : K) (s : Shard K T)
      → find j (get_in now id s).0 ≡ (if id =?= j then live now (find id s) else find j s)
  unfolding get_in
  find-get_in now id j s = ground (arith, find-remove id j s, e.same_iff id j)

  -- The invariant of a `std::map`: no key twice.
  abbrev pub Distinct : Shard K T → Type κ
  Distinct [] = Unit
  Distinct ((k, item) ∷ s) = (find k s ≡ none) × Distinct s

  pub remove-Distinct : (id : K) (s : Shard K T) → Distinct s → Distinct (remove id s)
  unfolding remove
  remove-Distinct id [] d = tt
  remove-Distinct id ((k, item) ∷ s) d =
      ground (arith, remove-Distinct id s d.1, find-remove id k s)

  pub length-remove :
      (id : K) (s : Shard K T) → Distinct s → length (remove id s) + count_of (find id s) ≡ length s
  unfolding remove find
  length-remove id [] d = omega arith
  length-remove id ((k, item) ∷ s) d = ground (arith, length-remove id s d.1, e.same_iff k id)

  pub set_in-Distinct :
      (mode : WriteMode) (id : K) (item : CacheItem T) (s : Shard K T)
      → Distinct s
      → Distinct (set_in mode id item s).0
  unfolding set_in
  set_in-Distinct write_always id item s d =
      ground (arith, remove-Distinct id s d, find-remove id id s, =?=_refl id)
  set_in-Distinct only_write_if_set id item s d =
      ground (arith, remove-Distinct id s d, find-remove id id s, =?=_refl id)
  set_in-Distinct only_write_if_not_set id item s d = ground arith

  pub length-set_in :
      (mode : WriteMode) (id : K) (item : CacheItem T) (s : Shard K T)
      → Distinct s
      → length (set_in mode id item s).0 + count_of (find id s)
        ≡ length s + count_of (written mode (find id s) item)
  unfolding set_in
  length-set_in write_always id item s d =
      ground (arith, length-remove id s d, find-remove id id s, =?=_refl id)
  length-set_in only_write_if_set id item s d =
      ground (arith, length-remove id s d, find-remove id id s, =?=_refl id)
  length-set_in only_write_if_not_set id item s d = ground arith

  pub get_in-Distinct :
      (now : ℕ) (id : K) (s : Shard K T) → Distinct s → Distinct (get_in now id s).0
  unfolding get_in
  get_in-Distinct now id s d = ground (arith, remove-Distinct id s d)

  pub find-cull :
      (clock : K → ℕ) (j : K) (s : Shard K T)
      → Distinct s
      → find j (cull_expired_keys clock s) ≡ live (clock j) (find j s)
  unfolding cull_expired_keys find
  find-cull clock j [] d = refl
  find-cull clock j ((k, item) ∷ s) d =
      ground (arith, find-cull clock j s d.1, find-cull clock k s d.1, e.same_iff k j)

  pub cull-Distinct :
      (clock : K → ℕ) (s : Shard K T) → Distinct s → Distinct (cull_expired_keys clock s)
  unfolding cull_expired_keys
  cull-Distinct clock [] d = tt
  cull-Distinct clock ((k, item) ∷ s) d =
      ground (arith, cull-Distinct clock s d.1, find-cull clock k s d.1)
