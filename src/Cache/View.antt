-- ===== src/Cache/View.antt =====
-- The cache of include/capy/amqp_cache.h seen as one map from keys to items.
use capy_amqp_cpp.Prelude.{
  ℕ, ◌<◌, ◌≡◌, refl, sym, ap, ◌∙◌, true, false, Option, none, some, arith, ◌==◌, if◌then◌else◌,
  is_some, Key, ◌=?=◌, =?=_refl, ==_iff, Bool-cases, inl, inr, update,
}
use capy_amqp_cpp.Cache.Shards.{
  Shard, CacheItem, WriteMode, write_always, only_write_if_not_set, expired, find, count_of,
}
use capy_amqp_cpp.Cache.Shards.Laws.{
  find-remove, written, writes, find-set_in, set_in_count, live, payload_of, get_in_payload,
  find-get_in,
}
use capy_amqp_cpp.Cache.{Cache, shard_size, calc_index, set, get, has, del}

pub calc_index-lt {ℓ} : {K : Type ℓ} (hash : K → ℕ) (id : K) → calc_index hash id < shard_size
unfolding calc_index
calc_index-lt hash id = omega arith

module _ {ℓ κ} {K : Type ℓ} ⦃e : Key K⦄ {T : Type κ} (hash : K → ℕ) where
  -- The item stored under a key, expired or not.
  unfoldable pub view : Cache K T → K → Option (CacheItem T)
  view c id = find id (c.shards (calc_index hash id))

  if_other :
      (c : Cache K T) (id j : K) (o : Option (CacheItem T))
      → (calc_index hash id == calc_index hash j) ≡ false
      → (if id =?= j then o else view c j) ≡ view c j
  if_other c id j o h = ground (arith, e.same_iff id j, λ (p : id ≡ j). ap (calc_index hash) p)

  -- A write at one shard is seen at the keys of that shard only.
  view-update :
      (c : Cache K T) (id j : K) (s : Shard K T) (o : Option (CacheItem T))
      → ((k : K) → find k s ≡ (if id =?= k then o else find k (c.shards (calc_index hash id))))
      → view (record c { shards = update c.shards (calc_index hash id) s }) j
        ≡ (if id =?= j then o else view c j)
  unfolding view
  view-update c id j s o h = elim (Bool-cases (calc_index hash id == calc_index hash j)) [
    | inl same ↦
        let p : calc_index hash id ≡ calc_index hash j = (==_iff _ _).0 same in
        rw same (h j ∙ ap (λ n. if id =?= j then o else find j (c.shards n)) p)
    | inr other ↦ rw other (sym (if_other c id j o other))
  ]

  -- After a `set` in any mode, the item under the key is the one that the mode writes over the
  -- item that was there (or none), and the items under all other keys are as before.
  pub view-set :
      (id j : K) (val : T) (expiration : ℕ) (mode : WriteMode) (c : Cache K T)
      → view (set hash id val expiration mode c).0 j ≡ (
          if id =?= j
          then written mode (view c id) (record { payload = val; expiration = expiration })
          else view c j)
  unfolding set view
  view-set id j val expiration mode c =
      view-update c id j _ _ (λ k. find-set_in mode id k _ (c.shards (calc_index hash id)))

  -- `set` returns 1 if its mode lets it write over what is under the key, and 0 otherwise.
  pub set-count :
      (id : K) (val : T) (expiration : ℕ) (mode : WriteMode) (c : Cache K T)
      → (set hash id val expiration mode c).1 ≡ writes mode (view c id)
  unfolding set view
  set-count id val expiration mode c = set_in_count mode id _ (c.shards (calc_index hash id))

  -- A `get` at the time `now` erases the item under its key if that has expired, and changes no
  -- item otherwise, under any key.
  pub view-get :
      (now : ℕ) (id j : K) (c : Cache K T)
      → view (get hash now id c).0 j ≡ (if id =?= j then live now (view c id) else view c j)
  unfolding get view
  view-get now id j c =
      view-update c id j _ _ (λ k. find-get_in now id k (c.shards (calc_index hash id)))

  -- A `get` at the time `now` returns the payload of the item under its key if there is one that
  -- has not expired, and nothing otherwise.
  pub get_result :
      (now : ℕ) (id : K) (c : Cache K T) → (get hash now id c).1 ≡ payload_of (live now (view c id))
  unfolding get view
  get_result now id c = get_in_payload now id (c.shards (calc_index hash id))

  pub view-has :
      (now : ℕ) (id j : K) (c : Cache K T)
      → view (has hash now id c).0 j ≡ (if id =?= j then live now (view c id) else view c j)
  unfolding has
  view-has = view-get

  is_some-payload_of : (o : Option (CacheItem T)) → is_some (payload_of o) ≡ is_some o
  is_some-payload_of none = refl
  is_some-payload_of (some item) = refl

  pub has_result :
      (now : ℕ) (id : K) (c : Cache K T) → (has hash now id c).1 ≡ is_some (live now (view c id))
  unfolding has
  has_result now id c = ap is_some (get_result now id c) ∙ is_some-payload_of (live now (view c id))

  -- After a `del` no item is under its key, and the items under all other keys are as before.
  pub view-del :
      (id j : K) (c : Cache K T) → view (del hash id c).0 j ≡ (if id =?= j then none else view c j)
  unfolding del view
  view-del id j c = view-update c id j _ _ (λ k. find-remove id k (c.shards (calc_index hash id)))

  pub del-count : (id : K) (c : Cache K T) → (del hash id c).1 ≡ count_of (view c id)
  unfolding del view
  del-count id c = refl

  -- A value that was set with `write_always` is what a `get` returns, at each time at which its
  -- expiration has not passed.
  pub get-set :
      (id : K) (val : T) (expiration now : ℕ) (c : Cache K T)
      → expired now (record { payload = val; expiration = expiration }) ≡ false
      → (get hash now id (set hash id val expiration write_always c).0).1 ≡ some val
  get-set id val expiration now c h =
      get_result now id (set hash id val expiration write_always c).0
      ∙ rw (view-set id id val expiration write_always c, =?=_refl id, h) refl

  -- Over an item that has expired, which `get` does not return, `only_write_if_not_set` still
  -- writes nothing and returns 0, and a `get` after it returns nothing.
  pub set-expired :
      (id : K) (val : T) (expiration now : ℕ) (c : Cache K T) (old : CacheItem T)
      → view c id ≡ some old
      → expired now old ≡ true
      → ((set hash id val expiration only_write_if_not_set c).1 ≡ 0)
        × ((get hash now id (set hash id val expiration only_write_if_not_set c).0).1 ≡ none)
  set-expired id val expiration now c old h x = (
    set-count id val expiration only_write_if_not_set c ∙ rw h refl,
    get_result now id (set hash id val expiration only_write_if_not_set c).0
        ∙ rw (view-set id id val expiration only_write_if_not_set c, =?=_refl id, h, x) refl,
  )
