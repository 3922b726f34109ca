-- ===== src/Broker/Listen/Ended.antt =====
-- The end of a listener of src/broker_impl/broker.cc.
use capy_amqp_cpp.Prelude.{ℕ, ◌≡◌, refl, ◌∙◌, ◌++◌, none, some, List, Text, Key, text_key}
use capy_amqp_cpp.Error.{broker_error, queue_consuming}
use capy_amqp_cpp.Deferred.{report_error}
use capy_amqp_cpp.Connections.Paired.{IsPaired}
use capy_amqp_cpp.Cache.View.{view}
use capy_amqp_cpp.Broker.Json.{Json}
use capy_amqp_cpp.Broker.Registry.{Object, Effect, reporting}
use capy_amqp_cpp.Broker.Registry.Laws.{lookup, IsSound}
use capy_amqp_cpp.Broker.Registry.Refines.{at_id-Meets}
use capy_amqp_cpp.Broker.Listen.Owners.{Listening}
use capy_amqp_cpp.Broker.Listen.{Request, consume_failed, at_listener, del_listener, step}
use capy_amqp_cpp.Broker.Listen.Requests.{view-del_listener}
use capy_amqp_cpp.Broker.Listen.Served.{resets-some}

module _ {ℓ} {K : Type ℓ} ⦃e : Key K⦄ {J : Type 0} (json : Json J) (exchange : Text)
    (hash_thread : K → ℕ) (hash : Text → ℕ) (now : ℕ) (thread : K) (id : Text) where
  -- The callback of a failed consumer of a registered listener runs, and takes its id away.
  pub consume_failed-view :
      (message : Text) (s : Listening K) (o : Object)
      → IsPaired hash_thread s.connections
      → IsSound hash s.listeners
      → lookup hash s.listeners id ≡ some o
      → (s' : Listening K) × (effects : List (Effect (Request J))) × (step json exchange hash_thread
            hash now thread id
            (consume_failed message)
            s
          ≡ some (s', effects))
        × (view hash s'.listeners.ids id ≡ none)
  unfolding step at_listener
  consume_failed-view message s o paired w open_ =
      let (s1, released, runs, sound, same, releases, reset) =
        resets-some json exchange hash_thread hash now thread id s paired w in
      let met =
        at_id-Meets hash id now
          (reporting (report_error {D = Request J} (broker_error queue_consuming (some message))))
          s1.listeners o sound (same id ∙ open_) in
      let s2 : Listening K = record s1 { listeners = met.after } in
      let d = del_listener json exchange hash_thread hash now thread id s2 in
      (
        d.0,
        (released ++ met.effects) ++ d.1,
        rw (runs, met.runs) refl,
        view-del_listener json exchange hash_thread hash now thread id s2,
      )
