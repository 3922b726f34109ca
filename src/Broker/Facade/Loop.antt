-- ===== src/Broker/Facade/Loop.antt =====
-- The thread of the loop that `BrokerImpl::run` of src/broker_impl/broker.cc chooses, and the deferred
-- object of the connection of the thread that called `listen`.
use capy_amqp_cpp.Prelude.{ℕ, ◌≡◌, ◌≢◌, refl, sym, none, some, List, [], ◌∷◌, codes, Key}
use capy_amqp_cpp.Error.{Error, broker_error, connection_lost}
use capy_amqp_cpp.Cache.Shards.{CacheItem}
use capy_amqp_cpp.Connections.{ConnectionCache, get_connection, reset_deferred, on_lost}
use capy_amqp_cpp.Connections.Lost.{
  assigned, assign_deferred-some, deferred-assigned, on_lost-reset_other,
}
use capy_amqp_cpp.Connections.Paired.{IsPaired, item_of, own, get_connection_result}
use capy_amqp_cpp.Broker.Bind.{BrokerImpl}
use capy_amqp_cpp.Broker.Facade.{Launch, async, sync, Running, make_broker, run, run_impl}

-- Who hears of a lost connection after a callback on the loop's thread has reset the deferred object.
abbrev pub told : Launch → ℕ → List (ℕ × Error)
told sync d = []
told async d = (d, broker_error connection_lost (some (codes "connection lost"))) ∷ []

module _ {ℓ} {K : Type ℓ} ⦃e : Key K⦄ (hash : K → ℕ) where
  reset_own :
      (now : ℕ) (id : K) (c : ConnectionCache K) (i : CacheItem ℕ)
      → IsPaired hash c
      → item_of hash c id ≡ some i
      → (c' : ConnectionCache K) × (reset_deferred hash now id c ≡ some c')
        × (on_lost (c'.objects i.payload) ≡ [])
  unfolding reset_deferred on_lost
  reset_own now id c i w h =
      let r = get_connection hash now id c in
      let mine : own hash c id ≡ i.payload = rw h refl in
      (
        assigned none (own hash c id) r.0,
        assign_deferred-some none r (own hash c id) (get_connection_result hash now id c w),
        rw (sym mine) (rw (deferred-assigned none (own hash c id) r.0) refl),
      )

  -- `run` decides who hears of a lost connection after a callback on the thread of its loop has
  -- called `reset_deferred`: with `sync` nobody, since the loop runs on the thread that calls, and
  -- with `async`, on another thread, the object that was set on the connection of the calling
  -- thread still does. The connections are taken to be paired with threads, and the calling thread
  -- to have one, with an object set.
  pub run-reset :
      (launch : Launch) (caller new_thread : K) (impl : BrokerImpl K) (now d : ℕ) (i : CacheItem ℕ)
      → new_thread ≢ caller
      → IsPaired hash impl.connections
      → item_of hash impl.connections caller ≡ some i
      → (impl.connections.objects i.payload).deferred ≡ some d
      → (running : Running K) × (c' : ConnectionCache K) × (run caller new_thread launch
            (make_broker impl)
          ≡ some running)
        × (reset_deferred hash now running.loop_thread impl.connections ≡ some c')
        × (on_lost (c'.objects i.payload) ≡ told launch d)
  unfolding run make_broker
  run-reset sync caller new_thread impl now d i ne w h set =
      let (c', runs, quiet) = reset_own now caller impl.connections i w h in
      (run_impl caller new_thread sync, c', refl, runs, quiet)
  run-reset async caller new_thread impl now d i ne w h set =
      let (c', runs, lost) =
        on_lost-reset_other hash now caller new_thread d impl.connections i w h set ne in
      (run_impl caller new_thread async, c', refl, runs, lost)
