-- ===== src/Broker/Listen.antt =====
-- `BrokerImpl::listen_messages` of src/broker_impl/broker.cc: the server of remote calls. A listener is
-- owned by the map of listeners and by the connections whose deferred object it is; it is destroyed when
-- the last of them lets go. The client's handlers return: one that throws ends the program.
pub mod Owners
pub mod Pointers
pub mod Requests
pub mod Kept
pub mod Served
pub mod Ended
pub mod Invariant
pub mod Resets
pub mod Releases
pub mod Steps
pub mod Adding
pub mod Start
use Owners.{Listening, drop_pointer, and_then, add_effects, on_listeners, with_connections}
use capy_amqp_cpp.Prelude.{
  ℕ, suc, Bool, true, false, not, ◌&&◌, ◌||◌, Option, none, some, List, [], ◌∷◌, ◌++◌, map, ◌==◌,
  if◌then◌else◌, Text, codes, Key, text_key, indices, update,
}
use capy_amqp_cpp.Error.{
  Error, BrokerError, broker_error, channel_message, queue_declaration, queue_binding,
  queue_consuming,
}
use capy_amqp_cpp.Error.Format.{error_string}
use capy_amqp_cpp.Deferred.{Deferred, Call, report_data, report_success, report_error, destroy}
use capy_amqp_cpp.Cache.Shards.{Shard, CacheItem}
use capy_amqp_cpp.Cache.{Cache, shard_size, get, del}
use capy_amqp_cpp.Cache.View.{view}
use capy_amqp_cpp.Connections.{
  ConnectionCache, Connection, new_channel, get_connection, set_deferred, reset_deferred,
}
use capy_amqp_cpp.Broker.Ids.{create_unique_id}
use capy_amqp_cpp.Broker.Json.{
  Json, Decoded, decoded, json_exception, std_exception, other_exception,
}
use capy_amqp_cpp.Broker.Registry.{
  Registry, Object, Effect, Command, command, call, declare_queue, bind_queue, consume, ack,
  durable, reporting, at_id, add,
}
use capy_amqp_cpp.Broker.Fetch.{fresh_object}

-- What the data handler of a listener is given: the `Rpc`, and the replay by what its commit handler
-- keeps.
pub record Request {ℓ} (J : Type ℓ) : Type ℓ where
  pub routing_key : Text
  pub message : J
  pub cid : Text
  pub replay_to : Text

-- A message of AMQP-CPP, as far as it is read.
pub record Message : Type 0 where
  pub body : Text
  pub reply_to : Text
  pub routing_key : Text
  pub correlation_id : Text

-- The callbacks of one listener.
pub data Event : Type 0 where
  channel_failed queue_failed binding_failed consume_failed publish_failed : Text → Event
  received : Message → ℕ → Event
  consuming : Event

-- What `listen_messages` leaves and does. The object that it returns is the one behind the id.
pub record Listened {ℓ} (K : Type ℓ) (J : Type 0) : Type ℓ where
  pub after : Listening K
  pub counter : ℕ
  pub correlation_id : Text
  pub effects : List (Effect (Request J))

-- `hash` and `hash_thread` are `std::hash`, `exchange` is exchange_name_, `thread` the thread that calls.
module _ {ℓ} {K : Type ℓ} ⦃e : Key K⦄ {J : Type 0} (json : Json J) (exchange : Text)
    (hash_thread : K → ℕ) (hash : Text → ℕ) (now : ℕ) (thread : K) where
  abbrev pub deferred_of : ConnectionCache K × Option ℕ → Option ℕ
  deferred_of (c, none) = none
  deferred_of (c, some n) = (c.objects n).deferred

  abbrev old_deferred : ConnectionCache K → Option ℕ
  old_deferred c = deferred_of (get_connection hash_thread now thread c)

  -- connections_->reset_deferred()
  unfoldable pub resets : Listening K → Option (Listening K × List (Effect (Request J)))
  resets s =
      with_connections (old_deferred s.connections)
        (reset_deferred hash_thread now thread s.connections) s

  module _ (id : Text) where
    -- listeners_.get(id)->
    unfoldable pub at_listener :
        (Object → Object × List (Effect (Request J)))
        → Listening K
        → Option (Listening K × List (Effect (Request J)))
    at_listener f s = on_listeners (at_id hash now id f s.listeners) s

    abbrev pub reports_error :
        BrokerError → Text → Listening K → Option (Listening K × List (Effect (Request J)))
    reports_error error message =
        at_listener (reporting (report_error (broker_error error (some message))))

    -- listeners_.del(id)
    abbrev forgets : Option (CacheItem ℕ) → Listening K → Listening K × List (Effect (Request J))
    forgets none s = (s, [])
    forgets (some item) s =
        drop_pointer (some item.payload)
          (record s { listeners = record s.listeners { ids = (del hash id s.listeners.ids).0 } })

    unfoldable pub del_listener : Listening K → Listening K × List (Effect (Request J))
    del_listener s = forgets (view hash s.listeners.ids id) s

    unfoldable pub on_channel_failed :
        Text → Listening K → Option (Listening K × List (Effect (Request J)))
    on_channel_failed message = reports_error channel_message message

    unfoldable pub on_queue_failed :
        Text → Listening K → Option (Listening K × List (Effect (Request J)))
    on_queue_failed message = reports_error queue_declaration message

    -- The text has a format with more conversions than arguments: without one, nothing is defined.
    abbrev report_binding :
        Option Text → Listening K → Option (Listening K × List (Effect (Request J)))
    report_binding none s = none
    report_binding (some text) s = reports_error queue_binding text s

    unfoldable pub on_binding_failed :
        Text → Listening K → Option (Listening K × List (Effect (Request J)))
    on_binding_failed message =
        report_binding (error_string (codes "%s: %s:%s <- %s") (message ∷ exchange ∷ []))

    -- The transaction of a commit handler failed; the replay is deleted next.
    unfoldable pub on_publish_failed :
        Text → Listening K → Option (Listening K × List (Effect (Request J)))
    on_publish_failed message = reports_error BrokerError.publish message

    unfoldable pub on_consuming : Listening K → Option (Listening K × List (Effect (Request J)))
    on_consuming = at_listener (reporting report_success)

    unfoldable pub on_consume_failed :
        Text → Listening K → Option (Listening K × List (Effect (Request J)))
    on_consume_failed message s =
        and_then (and_then (resets s) (reports_error queue_consuming message))
          (λ s'. some (del_listener s'))

    abbrev serve :
        Message → Decoded J → Listening K → Option (Listening K × List (Effect (Request J)))
    serve m (decoded j) s = and_then (resets s) (
        at_listener (
          reporting (
            report_data (record {
              routing_key = m.routing_key;
              message = j;
              cid = m.correlation_id;
              replay_to = m.reply_to;
            }))))
    serve m (json_exception what) s = reports_error channel_message what s
    serve m (std_exception what) s = reports_error channel_message (codes "unknown error") s
    serve m other_exception s = reports_error channel_message (codes "unknown error") s

    -- The message is acknowledged before it is decoded.
    unfoldable pub on_received :
        Message → ℕ → Listening K → Option (Listening K × List (Effect (Request J)))
    on_received m tag s =
        and_then (at_listener (λ o. (o, command o.channel (ack tag) ∷ [])) s)
          (serve m (json.from_msgpack m.body))

    unfoldable pub step : Event → Listening K → Option (Listening K × List (Effect (Request J)))
    unfolding on_publish_failed on_channel_failed on_queue_failed on_binding_failed on_consuming
        on_consume_failed on_received
    step (channel_failed message) = on_channel_failed message
    step (queue_failed message) = on_queue_failed message
    step (binding_failed message) = on_binding_failed message
    step (publish_failed message) = on_publish_failed message
    step (consume_failed message) = on_consume_failed message
    step (received m tag) = on_received m tag
    step consuming = on_consuming

  -- listen_messages: the listener, its place at the connection of this thread, and the commands to its
  -- channel.
  abbrev pub listen_commands : Text → List Text → ℕ → List (Effect (Request J))
  listen_commands queue keys channel =
      command channel (declare_queue queue (durable ∷ []))
      ∷ (map (λ key. command channel (bind_queue exchange queue key)) keys
          ++ command channel (consume queue []) ∷ [])

  -- `get` of the id, which `set_deferred` is given.
  abbrev defers :
      Cache Text ℕ × Option ℕ → Listening K → Option (Listening K × List (Effect (Request J)))
  defers (cache, none) s = none
  defers (cache, some n) s =
      with_connections (old_deferred s.connections)
        (set_deferred hash_thread now thread n s.connections)
        (record s { listeners = record s.listeners { ids = cache } })

  abbrev listen_on :
      Bool
      → Text
      → List Text
      → Text
      → ConnectionCache K × Option ℕ
      → Registry
      → Option (Listening K × List (Effect (Request J)))
  listen_on indeterminate queue keys id (c, none) r = none
  listen_on indeterminate queue keys id (c, some channel) r =
      let (r', effects) = add hash now id (fresh_object indeterminate channel) r in
      and_then
        (add_effects effects
          (defers (get hash now id r'.ids) (record { connections = c; listeners = r' })))
        (λ s. some (s, listen_commands queue keys channel))

  abbrev listened :
      ℕ → Text → Option (Listening K × List (Effect (Request J))) → Option (Listened K J)
  listened counter id none = none
  listened counter id (some (s, effects)) =
      some (record { after = s; counter = counter; correlation_id = id; effects = effects })

  abbrev with_id : Bool → Text → List Text → Option (Text × ℕ) → Listening K → Option (Listened K J)
  with_id indeterminate queue keys none s = none
  with_id indeterminate queue keys (some (id, counter)) s = listened counter id (
      listen_on indeterminate queue keys id (new_channel hash_thread now thread s.connections)
        s.listeners)

  unfoldable pub listen_messages : Bool → Text → List Text → ℕ → Listening K → Option (Listened K J)
  listen_messages indeterminate queue keys counter =
      with_id indeterminate queue keys (create_unique_id counter)
