-- ===== src/Broker/Process.antt =====
-- A broker at work: its state, and every call and callback that changes it, in any order and on any
-- thread. The calls are those of the class `Broker` (src/amqp_broker.cc); the callbacks are those that
-- src/broker_impl/broker.cc and src/broker_impl/handler.h leave with AMQP-CPP.
pub mod Working
pub mod Rpc
use capy_amqp_cpp.Prelude.{
  ℕ, Bool, Option, none, some, List, [], ◌∷◌, ◌++◌, map, Text, Key, text_key,
}
use capy_amqp_cpp.Error.{Error, Result}
use capy_amqp_cpp.Deferred
use capy_amqp_cpp.Deferred.{report_error}
use capy_amqp_cpp.Connections.{ConnectionCache, on_error, on_lost}
use capy_amqp_cpp.Broker.Json.{Json}
use capy_amqp_cpp.Broker.Registry.{Registry, Effect, Command, and_then, at_object, reporting}
use capy_amqp_cpp.Broker.Fetch
use capy_amqp_cpp.Broker.Listen
use capy_amqp_cpp.Broker.Listen.{Request}
use capy_amqp_cpp.Broker.Listen.Owners.{Listening}
use capy_amqp_cpp.Broker.Reply.{on_commit}
use capy_amqp_cpp.Broker.Bind.{BrokerImpl}
use capy_amqp_cpp.Broker.Facade
use capy_amqp_cpp.Broker.Facade.{Called, Sent, make_broker, listening}

-- The broker behind the pointer, and the counter of `create_unique_id`, which is the process's.
pub record Process {ℓ} (K : Type ℓ) : Type ℓ where
  pub impl : BrokerImpl K
  pub counter : ℕ

-- What happens, at which time and on which thread where that matters. A client calls `fetch`, `listen`
-- or `publish`, commits a replay, or calls a member of a fetch or a listener that it was given a
-- reference to, by its number (it sets a handler, as a rule); AMQP-CPP calls back, for a fetch or a listener by its id, or for
-- a connection by its number; another broker of the process takes ids.
pub data Action {ℓ} (K : Type ℓ) (J : Type 0) : Type ℓ where
  fetch : ℕ → K → J → Text → Bool → Action K J
  listen : ℕ → K → Bool → Text → List Text → Action K J
  publish : ℕ → K → J → Text → Option Text → Action K J
  commit : ℕ → K → Text → Text → Result J → Action K J
  fetch_event : ℕ → Text → Fetch.Event J → Action K J
  listen_event : ℕ → K → Text → Listen.Event → Action K J
  fetch_used : ℕ → Deferred.Event J → Action K J
  listen_used : ℕ → Deferred.Event (Request J) → Action K J
  connection_failed : ℕ → Text → Action K J
  connection_lost : ℕ → Action K J
  ids_taken : ℕ → Action K J

-- What the broker does: for a fetch, the callback that it leaves with AMQP-CPP for the queue of a fetch, for a listener, a command of `publish` or of a commit on a
-- connection, or the error that `publish` returns.
pub data Deed (J : Type 0) : Type 0 where
  fetching : Effect J → Deed J
  leaving : Text → (Text → Fetch.Event J) → Deed J
  listening_to : Effect (Request J) → Deed J
  sending : ℕ → Command → Deed J
  returning : Error → Deed J

-- The errors of a connection, reported to the listeners that it points to.
unfoldable pub report_all :
    {D : Type 0} → List (ℕ × Error) → Registry → Option (Registry × List (Effect D))
report_all [] r = some (r, [])
report_all ((d, error) ∷ es) r =
    and_then (at_object (reporting (report_error error)) (some d) r) (report_all es)

-- A fault, or what is left and done.
abbrev pub Outcome {ℓ} : Type ℓ → Type 0 → Type ℓ
Outcome K J = Option (Process K × List (Deed J))

module _ {ℓ} {K : Type ℓ} {J : Type 0} where
  abbrev pub fetch_called : Option (Called K J × (Text → Fetch.Event J)) → Outcome K J
  fetch_called none = none
  fetch_called (some (c, on_declared)) = some (
    record { impl = c.impl; counter = c.counter },
    map fetching c.effects ++ leaving c.correlation_id on_declared ∷ [],
  )

  abbrev pub listen_called : Option (Called K (Request J)) → Outcome K J
  listen_called none = none
  listen_called (some c) =
      some (record { impl = c.impl; counter = c.counter }, map listening_to c.effects)

  abbrev pub publish_called : Process K → Option (Sent K) → Outcome K J
  publish_called s none = none
  publish_called s (some p) =
      some
        (record s { impl = p.impl }, map (sending p.channel) p.commands ++ returning p.error ∷ [])

  abbrev pub committed : Process K → Option (ConnectionCache K × ℕ × List Command) → Outcome K J
  committed s none = none
  committed s (some (c, channel, commands)) =
      some (record s { impl = record s.impl { connections = c } }, map (sending channel) commands)

  abbrev pub with_fetchers : Process K → Option (Registry × List (Effect J)) → Outcome K J
  with_fetchers s none = none
  with_fetchers s (some (r, effects)) =
      some (record s { impl = record s.impl { fetchers = r } }, map fetching effects)

  abbrev pub with_listeners :
      Process K → Option (Registry × List (Effect (Request J))) → Outcome K J
  with_listeners s none = none
  with_listeners s (some (r, effects)) =
      some (record s { impl = record s.impl { listeners = r } }, map listening_to effects)

  abbrev pub with_listening :
      Process K → Option (Listening K × List (Effect (Request J))) → Outcome K J
  with_listening s none = none
  with_listening s (some (l, effects)) = some (
    record s { impl = record s.impl { connections = l.connections; listeners = l.listeners } },
    map listening_to effects,
  )

module _ {ℓ} {K : Type ℓ} ⦃e : Key K⦄ {J : Type 0} (json : Json J) (hash_thread : K → ℕ)
    (hash : Text → ℕ) where
  unfoldable pub step : Action K J → Process K → Outcome K J
  step (fetch now thread message routing_key indeterminate) s = fetch_called (
      Facade.fetch json hash_thread hash now thread message routing_key indeterminate s.counter
        (make_broker s.impl))
  step (listen now thread indeterminate queue keys) s = listen_called (
      Facade.listen json hash_thread hash now thread indeterminate queue keys s.counter
        (make_broker s.impl))
  step (publish now thread message routing_key failure) s = publish_called s (
      Facade.publish json hash_thread hash now thread message routing_key failure
        (make_broker s.impl))
  step (commit now thread cid replay_to message) s =
      committed s (on_commit json hash_thread now thread cid replay_to message s.impl.connections)
  step (fetch_event now id event) s =
      with_fetchers s (Fetch.step json s.impl.exchange_name hash now id event s.impl.fetchers)
  step (listen_event now thread id event) s = with_listening s (
      Listen.step json s.impl.exchange_name hash_thread hash now thread id event (listening s.impl))
  step (fetch_used n event) s =
      with_fetchers s (at_object (reporting (Deferred.step event)) (some n) s.impl.fetchers)
  step (listen_used n event) s =
      with_listeners s (at_object (reporting (Deferred.step event)) (some n) s.impl.listeners)
  step (connection_failed n message) s =
      with_listeners s
        (report_all (on_error message (s.impl.connections.objects n)) s.impl.listeners)
  step (connection_lost n) s =
      with_listeners s (report_all (on_lost (s.impl.connections.objects n)) s.impl.listeners)
  step (ids_taken counter) s = some (record s { counter = counter }, [])

  -- A history of them.
  abbrev pub add_deeds : List (Deed J) → Outcome K J → Outcome K J
  add_deeds ds none = none
  add_deeds ds (some (s, ds')) = some (s, ds ++ ds')

  abbrev pub and_run : Outcome K J → (Process K → Outcome K J) → Outcome K J
  and_run none rest = none
  and_run (some (s, ds)) rest = add_deeds ds (rest s)

  unfoldable pub run : List (Action K J) → Process K → Outcome K J
  run [] s = some (s, [])
  run (a ∷ rest) s = and_run (step a s) (run rest)
