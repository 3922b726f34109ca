-- ===== src/Cache/Contents.antt =====
-- What `flush` and the destructor of include/capy/amqp_cache.h let go of.
use capy_amqp_cpp.Prelude.{
  ℕ, zero, suc, ◌+◌, ◌≤◌, ◌<◌, ◌≡◌, ◌⊎◌, some, List, [], ◌∷◌, ◌++◌, arith, Key, ◌=?=◌, Bool-cases,
  inl, inr, indices,
}
use native.Mathlib.Decide.{ℕ_discrete}
use capy_amqp_cpp.Cache.Shards.{Shard, CacheItem, find}
use capy_amqp_cpp.Cache.{Cache, shard_size, calc_index}
use capy_amqp_cpp.Cache.View.{view, calc_index-lt}

module _ {ℓ κ} {K : Type ℓ} {T : Type κ} where
  unfoldable pub shard_payloads : Shard K T → List T
  shard_payloads [] = []
  shard_payloads ((k, item) ∷ s) = item.payload ∷ shard_payloads s

  unfoldable pub payloads_at : List ℕ → Cache K T → List T
  payloads_at [] c = []
  payloads_at (n ∷ ns) c = shard_payloads (c.shards n) ++ payloads_at ns c

  -- The maps of all shards, cleared in order.
  unfoldable pub payloads : Cache K T → List T
  unfolding payloads_at shard_payloads
  payloads c = payloads_at (indices 0 shard_size) c

abbrev pub Has : ℕ → List ℕ → Type 0
Has x [] = ⊥
Has x (y ∷ ys) = (y ≡ x) ⊎ Has x ys

pub Has-append_left : (x : ℕ) (xs ys : List ℕ) → Has x xs → Has x (xs ++ ys)
Has-append_left x [] ys h = absurd h
Has-append_left x (y ∷ xs) ys (inl e) = inl e
Has-append_left x (y ∷ xs) ys (inr h) = inr (Has-append_left x xs ys h)

pub Has-append_right : (x : ℕ) (xs ys : List ℕ) → Has x ys → Has x (xs ++ ys)
Has-append_right x [] ys h = h
Has-append_right x (y ∷ xs) ys h = inr (Has-append_right x xs ys h)

module _ {ℓ} {K : Type ℓ} where
  pub Has-payloads_at :
      (x : ℕ) (c : Cache K ℕ) (i n k : ℕ)
      → i ≤ k
      → k < i + n
      → Has x (shard_payloads (c.shards k))
      → Has x (payloads_at (indices i n) c)
  unfolding payloads_at indices
  Has-payloads_at x c i zero k lo hi h = absurd (omega arith)
  Has-payloads_at x c i (suc n) k lo hi h = elim (ℕ_discrete i k) [
    | yes e ↦
        Has-append_left x (shard_payloads (c.shards i)) (payloads_at (indices (suc i) n) c) (rw e h)
    | no ne ↦
        Has-append_right x (shard_payloads (c.shards i)) (payloads_at (indices (suc i) n) c)
          (Has-payloads_at x c (suc i) n k (omega arith) (omega arith) h)
  ]

module _ {ℓ} {K : Type ℓ} ⦃e : Key K⦄ where
  Has-find :
      (id : K) (i : CacheItem ℕ) (s : Shard K ℕ)
      → find id s ≡ some i
      → Has i.payload (shard_payloads s)
  unfolding find shard_payloads
  Has-find id i [] h = absurd (cc)
  Has-find id i ((k, item) ∷ s) h = elim (Bool-cases (k =?= id)) [
    | inl q ↦
        let p : some item ≡ some i = rw q at h in let p' : item.payload ≡ i.payload = cc in inl p'
    | inr q ↦ inr (Has-find id i s (rw q at h))
  ]

  -- Every item is let go of.
  pub Has-view :
      (hash : K → ℕ) (id : K) (i : CacheItem ℕ) (c : Cache K ℕ)
      → view hash c id ≡ some i
      → Has i.payload (payloads c)
  unfolding view payloads
  Has-view hash id i c h =
      Has-payloads_at i.payload c 0 shard_size (calc_index hash id) (omega arith)
        (omega (arith, calc_index-lt hash id)) (Has-find id i (c.shards (calc_index hash id)) h)
