-- ===== src/Cache/Idle.antt =====
-- Reads of the cache (include/capy/amqp_cache.h) that find no expired item.
use capy_amqp_cpp.Prelude.{
  ℕ, ◌≡◌, refl, ap, ◌∙◌, Option, none, some, ◌==◌, is_some, Key, update, ==_iff, Bool-cases,
  Option-cases, inl, inr,
}
use capy_amqp_cpp.Cache.Shards.{Shard, CacheItem, expired, find, get_in}
use capy_amqp_cpp.Cache.Shards.Laws.{live, payload_of}
use capy_amqp_cpp.Cache.{Cache, calc_index, get, has}
use capy_amqp_cpp.Cache.View.{view}

update_same_at {ℓ} : {A : Type ℓ} (f : ℕ → A) (i j : ℕ) → update f i (f i) j ≡ f j
update_same_at f i j = elim (Bool-cases (i == j)) [
  | inl e ↦ rw e (ap f ((==_iff i j).0 e))
  | inr e ↦ rw e
]

update_same {ℓ} : {A : Type ℓ} (f : ℕ → A) (i : ℕ) → update f i (f i) ≡ f
update_same f i = λ k j. update_same_at f i j k

is_some-payload_of {κ} :
    {T : Type κ} (o : Option (CacheItem T)) → is_some (payload_of o) ≡ is_some o
is_some-payload_of none = refl
is_some-payload_of (some item) = refl

module _ {ℓ κ} {K : Type ℓ} ⦃e : Key K⦄ {T : Type κ} (hash : K → ℕ) where
  get_in-idle :
      (now : ℕ) (id : K) (s : Shard K T)
      → live now (find id s) ≡ find id s
      → get_in now id s ≡ (s, payload_of (find id s))
  unfolding get_in
  get_in-idle now id s h = elim (Option-cases (find id s)) [
    | inl q ↦ rw q
    | inr (item, q) ↦ elim (Bool-cases (expired now item)) [
      | inl x ↦ let bad : none ≡ some item = rw (q, x) at h in absurd (cc)
      | inr x ↦ rw (q, x)
    ]
  ]

  pub get-idle :
      (now : ℕ) (id : K) (c : Cache K T)
      → live now (view hash c id) ≡ view hash c id
      → get hash now id c ≡ (c, payload_of (view hash c id))
  unfolding get view
  get-idle now id c h = rw (get_in-idle now id (c.shards (calc_index hash id)) h) (
      ap (λ f. (record c { shards = f }, payload_of (view hash c id)))
        (update_same c.shards (calc_index hash id)))

  pub has-idle :
      (now : ℕ) (id : K) (c : Cache K T)
      → live now (view hash c id) ≡ view hash c id
      → has hash now id c ≡ (c, is_some (view hash c id))
  unfolding has
  has-idle now id c h =
      ap (λ (r : Cache K T × Option T). (r.0, is_some r.1)) (get-idle now id c h)
      ∙ ap (λ b. (c, b)) (is_some-payload_of (view hash c id))
