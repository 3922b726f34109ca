-- ===== src/Broker/Fetch.antt =====
-- `BrokerImpl::fetch_message` of src/broker_impl/broker.cc: the request of a remote call. Each callback
-- that it hands to AMQP-CPP is an event. The client's handlers return: one that throws ends the
-- program.
pub mod Outcome
pub mod History
pub mod Quiet
pub mod Once
pub mod Start
use capy_amqp_cpp.Prelude.{
  ℕ, suc, Bool, true, false, Option, none, some, List, [], ◌∷◌, ◌++◌, map, if◌then◌else◌, Text,
  codes, Key, text_key,
}
use capy_amqp_cpp.Error.{
  Error, ok_error, BrokerError, broker_error, publish, queue_declaration, data_response,
}
use capy_amqp_cpp.Deferred.{Deferred, init, report_data, report_success, report_error}
use capy_amqp_cpp.Connections.{ConnectionCache, new_channel}
use capy_amqp_cpp.Broker.Ids.{create_unique_id}
use capy_amqp_cpp.Broker.Json.{
  Json, Decoded, decoded, json_exception, std_exception, other_exception,
}
use capy_amqp_cpp.Broker.Registry.{
  Registry, Object, Effect, Envelope, Command, command, call, declare_queue, start_transaction,
  commit_transaction, consume, exclusive, autodelete, mandatory, noack, and_then, reporting, at_id,
  if_has, forget, add,
}

-- The callbacks of one fetch. The queue's name, the message and the routing key come with the first.
pub data Event {ℓ} (J : Type ℓ) : Type ℓ where
  queue_declared : Text → J → Text → Event J
  queue_failed publish_failed consume_failed received : Text → Event J
  consuming : Event J

-- An object of the class `DeferredFetching`, or `DeferredListening`: the flag is what the memory
-- holds where the constructor gives no value.
abbrev pub fresh_object : Bool → ℕ → Object
fresh_object indeterminate channel = record {
  deferred = init ok_error indeterminate;
  channel = channel;
}

module _ {ℓ} {J : Type ℓ} (json : Json J) where
  unfoldable pub request : Text → Text → J → Envelope
  request correlation_id name message = record {
    body = json.to_msgpack message;
    delivery_mode = some 2;
    correlation_id = some correlation_id;
    reply_to = some name;
  }

  -- What `onReceived` holds after it tried to decode the body.
  abbrev pub received_value : Decoded J → J
  received_value (decoded j) = j
  received_value _ = json.null

  -- `exchange` is exchange_name_.
  module _ (exchange : Text) (hash : Text → ℕ) (now : ℕ) (id : Text) where
    abbrev pub reports_error : Error → Registry → Option (Registry × List (Effect J))
    reports_error error = at_id hash now id (reporting (report_error error))

    abbrev pub reports_and_forgets :
        BrokerError → Text → Registry → Option (Registry × List (Effect J))
    reports_and_forgets e message r =
        and_then (reports_error (broker_error e (some message)) r)
          (λ r'. some (forget hash now id r'))

    unfoldable pub on_queue_declared :
        Text → J → Text → Registry → Option (Registry × List (Effect J))
    on_queue_declared name message routing_key = if_has hash now id (
        at_id hash now id (λ o. (
          o,
          map (command o.channel) (
              start_transaction
              ∷ Command.publish exchange routing_key (request id name message)
                  (autodelete ∷ mandatory ∷ [])
              ∷ commit_transaction
              ∷ consume name (noack ∷ [])
              ∷ []),
        )))

    unfoldable pub on_queue_failed : Text → Registry → Option (Registry × List (Effect J))
    on_queue_failed message = if_has hash now id (reports_and_forgets queue_declaration message)

    unfoldable pub on_publish_failed : Text → Registry → Option (Registry × List (Effect J))
    on_publish_failed message =
        if_has hash now id (reports_error (broker_error publish (some message)))

    unfoldable pub on_consuming : Registry → Option (Registry × List (Effect J))
    on_consuming = if_has hash now id (at_id hash now id (reporting report_success))

    unfoldable pub on_consume_failed : Text → Registry → Option (Registry × List (Effect J))
    on_consume_failed message = if_has hash now id (reports_and_forgets data_response message)

    abbrev pub decode : Decoded J → Registry → Option (Registry × List (Effect J))
    decode (decoded j) r = some (r, [])
    decode (json_exception what) r =
        if_has hash now id (reports_error (broker_error data_response (some what))) r
    decode (std_exception what) r =
        if_has hash now id (reports_error (broker_error data_response (some what))) r
    decode other_exception r =
        if_has hash now id
          (reports_error (broker_error data_response (some (codes "unknown error")))) r

    -- After an error of decoding, it goes on with the null value.
    unfoldable pub on_received : Text → Registry → Option (Registry × List (Effect J))
    on_received body r =
        let result = json.from_msgpack body in
        and_then
          (and_then (decode result r) (
            if_has hash now id
              (at_id hash now id (reporting (report_data (received_value result))))))
          (if_has hash now id (λ r'. some (forget hash now id r')))

    unfoldable pub step : Event J → Registry → Option (Registry × List (Effect J))
    unfolding on_queue_declared on_queue_failed on_publish_failed on_consuming on_consume_failed
        on_received
    step (queue_declared name message routing_key) = on_queue_declared name message routing_key
    step (queue_failed message) = on_queue_failed message
    step (publish_failed message) = on_publish_failed message
    step (consume_failed message) = on_consume_failed message
    step (received body) = on_received body
    step consuming = on_consuming

-- What `fetch_message` leaves, and the effects. The object that it returns is the one behind the id.
-- `on_declared` is the callback that it leaves for the queue, with the message and the routing key that
-- it captures: the event that AMQP-CPP makes of it when it knows the queue's name.
pub record Fetched {ℓ κ} (K : Type ℓ) (J : Type κ) : Type (ℓ ⊔ κ) where
  pub connections : ConnectionCache K
  pub fetchers : Registry
  pub counter : ℕ
  pub correlation_id : Text
  pub effects : List (Effect J)
  pub on_declared : Text → Event J

module _ {ℓ κ} {K : Type ℓ} ⦃e : Key K⦄ {J : Type κ} (hash_thread : K → ℕ) (hash : Text → ℕ)
    (now : ℕ) (message : J) (routing_key : Text) where
  abbrev pub with_channel :
      Bool → Text → ℕ → ConnectionCache K × Option ℕ → Registry → Option (Fetched K J)
  with_channel indeterminate id counter (connections, none) r = none
  with_channel indeterminate id counter (connections, some channel) r =
      let (r', effects) = add hash now id (fresh_object indeterminate channel) r in
      some (record {
        connections = connections;
        fetchers = r';
        counter = counter;
        correlation_id = id;
        effects = effects ++ command channel (declare_queue [] (exclusive ∷ autodelete ∷ [])) ∷ [];
        on_declared = λ name. queue_declared name message routing_key;
      })

  abbrev pub with_id :
      Bool → K → Option (Text × ℕ) → ConnectionCache K → Registry → Option (Fetched K J)
  with_id indeterminate thread none connections r = none
  with_id indeterminate thread (some (id, counter)) connections r =
      with_channel indeterminate id counter (new_channel hash_thread now thread connections) r

  unfoldable pub fetch_message : Bool → K → ℕ → ConnectionCache K → Registry → Option (Fetched K J)
  fetch_message indeterminate thread counter =
      with_id indeterminate thread (create_unique_id counter)
