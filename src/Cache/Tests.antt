-- ===== src/Cache/Tests.antt =====
-- Tests of the cache: the properties at small caches.
use capy_amqp_cpp.Prelude.{ℕ, ◌+◌, ◌≡◌, refl, true, none, some, [], ◌∷◌, arith, nat_key}
use capy_amqp_cpp.Cache.Shards.{
  CacheItem, write_always, only_write_if_set, only_write_if_not_set, expired, find, count_of,
}
use capy_amqp_cpp.Cache.Shards.Laws.{written, live}
use capy_amqp_cpp.Cache.{Cache, init, set, get, metrics}
use capy_amqp_cpp.Cache.Curator.{curate, begins, tests, culls}
use capy_amqp_cpp.Cache.View.{view, view-set, get-set, set-expired}
use capy_amqp_cpp.Cache.Metrics.{IsMap, init-IsMap, set-IsMap, metrics-set}
use capy_amqp_cpp.Cache.Curator.Unseen.{round_clocks, get-curate, view-curate}

abbrev hash : ℕ → ℕ
hash n = n

abbrev empty_cache : Cache ℕ ℕ
empty_cache = init true

-- Key 1, which expires after 10, and key 257 in the same shard.
abbrev two_keys : Cache ℕ ℕ
two_keys = (set hash 257 9 0 write_always (set hash 1 7 10 write_always empty_cache).0).0

two_keys-IsMap : IsMap two_keys
two_keys-IsMap =
    set-IsMap hash 257 9 0 write_always _
      (set-IsMap hash 1 7 10 write_always empty_cache (init-IsMap true))

abbrev item : ℕ → ℕ → CacheItem ℕ
item payload expiration = record { payload = payload; expiration = expiration }

view-set_example :
    view hash (set hash 1 8 0 only_write_if_set two_keys).0 1
    ≡ written only_write_if_set (view hash two_keys 1) (item 8 0)
view-set_example = view-set hash 1 1 8 0 only_write_if_set two_keys

get-set_example : (get hash 9 3 (set hash 3 5 9 write_always two_keys).0).1 ≡ some 5
unfolding expired
get-set_example = get-set hash 3 5 9 9 two_keys refl

key_1 : view hash two_keys 1 ≡ some (item 7 10)
unfolding view set init find
key_1 = refl

key_1_expired : expired 11 (item 7 10) ≡ true
unfolding expired
key_1_expired = refl

set-expired_example :
    ((set hash 1 8 0 only_write_if_not_set two_keys).1 ≡ 0)
    × ((get hash 11 1 (set hash 1 8 0 only_write_if_not_set two_keys).0).1 ≡ none)
set-expired_example = set-expired hash 1 8 0 11 two_keys (item 7 10) key_1 key_1_expired

metrics-set_example :
    metrics (set hash 1 8 0 write_always two_keys).0 + count_of (view hash two_keys 1)
    ≡ metrics two_keys + count_of (written write_always (view hash two_keys 1) (item 8 0))
metrics-set_example = metrics-set hash 1 8 0 write_always two_keys two_keys-IsMap

abbrev at : ℕ → ℕ → ℕ
at time k = time

get-curate_example :
    (get hash 20 1 (curate (at 11 ∷ at 20 ∷ []) (culls 1 []) two_keys).1).1
    ≡ (get hash 20 1 two_keys).1
get-curate_example =
    get-curate hash 20 (at 11 ∷ at 20 ∷ []) (culls 1 []) two_keys 1 two_keys-IsMap
      (λ k. omega arith, (λ k. omega arith, tt))

view-curate_example :
    (view hash (curate (round_clocks (λ n k. 11)) (begins two_keys) two_keys).1 1
      ≡ live 11 (view hash two_keys 1))
    × ((curate (round_clocks (λ n k. 11)) (begins two_keys) two_keys).0 ≡ tests)
unfolding set init
view-curate_example = view-curate hash (λ n k. 11) two_keys 1 two_keys-IsMap refl refl
