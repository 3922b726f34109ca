-- ===== src/Cache/Permanent.antt =====
-- Items of the cache (include/capy/amqp_cache.h) that never expire.
use capy_amqp_cpp.Prelude.{
  ℕ, ◌≡◌, refl, sym, ap, ◌∙◌, Option, none, some, if◌then◌else◌, Key, ◌=?=◌, arith,
}
use capy_amqp_cpp.Cache.Shards.{CacheItem, expired}
use capy_amqp_cpp.Cache.Shards.Laws.{live}
use capy_amqp_cpp.Cache.{Cache, get, has}
use capy_amqp_cpp.Cache.View.{view, view-get, view-has}

-- An item that no time expires.
abbrev pub kept {κ} : {T : Type κ} → T → CacheItem T
kept x = record { payload = x; expiration = 0 }

pub live-kept {κ} : {T : Type κ} (now : ℕ) (x : T) → live now (some (kept x)) ≡ some (kept x)
unfolding expired
live-kept now x = refl

pub live-permanent {κ} :
    {T : Type κ} (now : ℕ) (o : Option (CacheItem T))
    → ((i : CacheItem T) → o ≡ some i → i.expiration ≡ 0)
    → live now o ≡ o
unfolding expired
live-permanent now none h = refl
live-permanent now (some i) h = rw (h i refl)

module _ {ℓ κ} {K : Type ℓ} ⦃e : Key K⦄ {T : Type κ} (hash : K → ℕ) where
  same_or : (id j : K) (f : K → Option (CacheItem T)) → (if id =?= j then f id else f j) ≡ f j
  same_or id j f = ground (arith, e.same_iff id j)

  pub view-has_kept :
      (now : ℕ) (id j : K) (c : Cache K T)
      → live now (view hash c id) ≡ view hash c id
      → view hash (has hash now id c).0 j ≡ view hash c j
  view-has_kept now id j c h = view-has hash now id j c ∙ rw h (same_or id j (view hash c))

  pub view-get_kept :
      (now : ℕ) (id j : K) (c : Cache K T)
      → live now (view hash c id) ≡ view hash c id
      → view hash (get hash now id c).0 j ≡ view hash c j
  view-get_kept now id j c h = view-get hash now id j c ∙ rw h (same_or id j (view hash c))

  pub view-get-has :
      (now : ℕ) (id j : K) (c : Cache K T)
      → live now (view hash c id) ≡ view hash c id
      → view hash (get hash now id (has hash now id c).0).0 j ≡ view hash c j
  view-get-has now id j c h =
      let at : view hash (has hash now id c).0 id ≡ view hash c id = view-has_kept now id id c h in
      view-get_kept now id j (has hash now id c).0 (rw (at, h)) ∙ view-has_kept now id j c h

  pub kept_or :
      (id j : K) (i : CacheItem T) (f : K → Option (CacheItem T))
      → f id ≡ some i
      → i.expiration ≡ 0
      → f j ≡ (if id =?= j then some (kept i.payload) else f j)
  kept_or id j i f h z =
      let eta : some i ≡ some (kept i.payload) =
        ap (λ n. some (record { payload = i.payload; expiration = n })) z in
      sym (same_or id j f) ∙ ap (λ o. if id =?= j then o else f j) (h ∙ eta)
