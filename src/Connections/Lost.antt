-- ===== src/Connections/Lost.antt =====
-- The errors of a connection (src/broker_impl/handler.h) and the deferred object of its thread.
use capy_amqp_cpp.Prelude.{
  ℕ, ◌≡◌, ◌≢◌, refl, false, Option, none, some, [], ◌∷◌, ◌==◌, ==_refl, Text, codes, Key, update,
  arith,
}
use capy_amqp_cpp.Error.{broker_error, connection, connection_lost}
use capy_amqp_cpp.Cache.Shards.{CacheItem}
use capy_amqp_cpp.Connections.{
  ConnectionCache, get_connection, assign_deferred, set_deferred, reset_deferred, on_error, on_lost,
}
use capy_amqp_cpp.Connections.Paired.{
  IsPaired, item_of, own, own_apart, get_connection_result, objects-get_connection,
}

module _ {ℓ} {K : Type ℓ} where
  abbrev pub assigned : Option ℕ → ℕ → ConnectionCache K → ConnectionCache K
  assigned d n c = record c { objects = update c.objects n (record (c.objects n) { deferred = d }) }

  pub assign_deferred-some :
      (d : Option ℕ) (r : ConnectionCache K × Option ℕ) (n : ℕ)
      → r.1 ≡ some n
      → assign_deferred d r ≡ some (assigned d n r.0)
  assign_deferred-some d (c, o) n h = rw h

  pub deferred-assigned :
      (d : Option ℕ) (n : ℕ) (c : ConnectionCache K) → ((assigned d n c).objects n).deferred ≡ d
  deferred-assigned d n c = rw (==_refl n)

module _ {ℓ} {K : Type ℓ} ⦃e : Key K⦄ (hash : K → ℕ) where
  -- If the connections are paired with threads, `set_deferred` succeeds; from then on an error of
  -- the connection of the calling thread is reported to the object that was set as CONNECTION with
  -- its text, and a lost connection as CONNECTION_LOST, and the connections of the other threads
  -- are as they were.
  pub on_error-set_deferred :
      (now : ℕ) (id : K) (d : ℕ) (c : ConnectionCache K)
      → IsPaired hash c
      → (c' : ConnectionCache K) × (set_deferred hash now id d c ≡ some c')
        × ((message : Text)
            → on_error message (c'.objects (own hash c id))
              ≡ (d, broker_error connection (some message)) ∷ [])
        × (on_lost (c'.objects (own hash c id))
            ≡ (d, broker_error connection_lost (some (codes "connection lost"))) ∷ [])
        × ((k : K) (i : CacheItem ℕ)
            → item_of hash c k ≡ some i
            → id ≢ k
            → c'.objects i.payload ≡ c.objects i.payload)
  unfolding set_deferred on_error on_lost
  on_error-set_deferred now id d c w =
      let r = get_connection hash now id c in
      let same = deferred-assigned (some d) (own hash c id) r.0 in
      (
        assigned (some d) (own hash c id) r.0,
        assign_deferred-some (some d) r (own hash c id) (get_connection_result hash now id c w),
        λ message. rw same,
        rw same,
        λ k i h ne.
            let other : own hash c id ≢ i.payload = λ p. ne (own_apart hash now id c w k i h p) in
            let ne' : (own hash c id == i.payload) ≡ false = ground arith in
            rw ne' (objects-get_connection hash now id c w i.payload (w.known k i h)),
      )

  -- In paired connections, a `reset_deferred` that runs on another thread than the one that set an
  -- object leaves that object set: a loss of that connection is still reported to it.
  pub on_lost-reset_other :
      (now : ℕ) (id id' : K) (d : ℕ) (c : ConnectionCache K) (i : CacheItem ℕ)
      → IsPaired hash c
      → item_of hash c id ≡ some i
      → (c.objects i.payload).deferred ≡ some d
      → id' ≢ id
      → (c' : ConnectionCache K) × (reset_deferred hash now id' c ≡ some c')
        × (on_lost (c'.objects i.payload)
            ≡ (d, broker_error connection_lost (some (codes "connection lost"))) ∷ [])
  unfolding reset_deferred on_lost
  on_lost-reset_other now id id' d c i w h set ne =
      let r = get_connection hash now id' c in
      let other : own hash c id' ≢ i.payload = λ p. ne (own_apart hash now id' c w id i h p) in
      let other' : (own hash c id' == i.payload) ≡ false = ground arith in
      (
        assigned none (own hash c id') r.0,
        assign_deferred-some none r (own hash c id') (get_connection_result hash now id' c w),
        rw (other', objects-get_connection hash now id' c w i.payload (w.known id i h), set) refl,
      )
