-- ===== src/Broker/Fetch/Outcome.antt =====
-- What the callbacks of a fetch (src/broker_impl/broker.cc) do, seen at the one object that they are about.
use capy_amqp_cpp.Prelude.{ℕ, refl, Option, some, List, [], ◌∷◌, map, Text, codes}
use capy_amqp_cpp.Error.{
  Error, BrokerError, broker_error, publish, queue_declaration, data_response,
}
use capy_amqp_cpp.Deferred.{report_data, report_success, report_error}
use capy_amqp_cpp.Broker.Json.{
  Json, Decoded, decoded, json_exception, std_exception, other_exception,
}
use capy_amqp_cpp.Broker.Registry.{
  Registry, Object, Effect, Command, command, start_transaction, commit_transaction, consume,
  autodelete, mandatory, noack, reporting, at_id, if_has, forget,
}
use capy_amqp_cpp.Broker.Registry.Laws.{IsSound}
use capy_amqp_cpp.Broker.Registry.Refines.{
  Meets, alter, finish, followed_by, if_has-Meets, at_id-Meets, and_then-Meets, forget-Meets,
  nothing-Meets,
}
use capy_amqp_cpp.Broker.Fetch.{
  Event, queue_declared, queue_failed, publish_failed, consume_failed, received, consuming, request,
  received_value, decode, reports_and_forgets, step,
}

module _ {ℓ} {J : Type ℓ} (json : Json J) (exchange : Text) where
  abbrev pub reported : Error → Option Object → Option Object × List (Effect J)
  reported error = alter (reporting (report_error error))

  abbrev pub decoding : Decoded J → Option Object → Option Object × List (Effect J)
  decoding (decoded j) = λ o. (o, [])
  decoding (json_exception what) = reported (broker_error data_response (some what))
  decoding (std_exception what) = reported (broker_error data_response (some what))
  decoding other_exception = reported (broker_error data_response (some (codes "unknown error")))

  abbrev pub delivering : Decoded J → Option Object → Option Object × List (Effect J)
  delivering d = alter (reporting (report_data (received_value json d)))

  -- A fetch is an object, or over. The reply, and the failures of the queue and the consumer, end it.
  abbrev pub outcome : Text → Event J → Option Object → Option Object × List (Effect J)
  outcome id (queue_declared name message routing_key) = alter (λ o. (
    o,
    map (command o.channel) (
        start_transaction
        ∷ Command.publish exchange routing_key (request json id name message)
            (autodelete ∷ mandatory ∷ [])
        ∷ commit_transaction
        ∷ consume name (noack ∷ [])
        ∷ []),
  ))
  outcome id (queue_failed message) =
      followed_by (reported (broker_error queue_declaration (some message))) finish
  outcome id (publish_failed message) = reported (broker_error publish (some message))
  outcome id (consume_failed message) =
      followed_by (reported (broker_error data_response (some message))) finish
  outcome id (received body) =
      followed_by
        (followed_by (decoding (json.from_msgpack body)) (delivering (json.from_msgpack body)))
        finish
  outcome id consuming = alter (reporting report_success)

  module _ (hash : Text → ℕ) (now : ℕ) (id : Text) where
    guarded :
        (f : Object → Object × List (Effect J)) (r : Registry)
        → IsSound hash r
        → Meets hash id (alter f) r (if_has hash now id (at_id hash now id f) r)
    guarded f r w =
        if_has-Meets hash id now (at_id hash now id f) (alter f) r w refl
          (λ o h. at_id-Meets hash id now f r o w h)

    ending :
        (e : BrokerError) (message : Text) (r : Registry)
        → IsSound hash r
        → Meets hash id
            (followed_by (reported (broker_error e (some message))) finish)
            r
            (if_has hash now id (reports_and_forgets json exchange hash now id e message) r)
    ending e message r w =
        if_has-Meets hash id now _ (followed_by (reported (broker_error e (some message))) finish) r
          w refl
          (λ o h.
            and_then-Meets hash id _ _ (reported (broker_error e (some message))) finish r
              (at_id-Meets hash id now _ r o w h) (λ r' w'. forget-Meets hash id now r' w'))

    decode-Meets :
        (d : Decoded J) (r : Registry)
        → IsSound hash r
        → Meets hash id (decoding d) r (decode json exchange hash now id d r)
    decode-Meets (decoded j) r w = nothing-Meets hash id r w
    decode-Meets (json_exception what) r w = guarded _ r w
    decode-Meets (std_exception what) r w = guarded _ r w
    decode-Meets other_exception r w = guarded _ r w

    forgetting :
        (r : Registry)
        → IsSound hash r
        → Meets {D = J} hash id finish r (if_has hash now id (λ r'. some (forget hash now id r')) r)
    forgetting r w =
        if_has-Meets hash id now _ finish r w refl (λ o h. forget-Meets hash id now r w)

    pub step-outcome :
        (ev : Event J) (r : Registry)
        → IsSound hash r
        → Meets hash id (outcome id ev) r (step json exchange hash now id ev r)
    unfolding step
    step-outcome (queue_declared name message routing_key) r w = guarded _ r w
    step-outcome (queue_failed message) r w = ending queue_declaration message r w
    step-outcome (publish_failed message) r w = guarded _ r w
    step-outcome (consume_failed message) r w = ending data_response message r w
    step-outcome consuming r w = guarded _ r w
    step-outcome (received body) r w =
        and_then-Meets hash id _ _
          (followed_by (decoding (json.from_msgpack body)) (delivering (json.from_msgpack body)))
          finish r
          (and_then-Meets hash id _ _ (decoding (json.from_msgpack body))
            (delivering (json.from_msgpack body)) r (decode-Meets (json.from_msgpack body) r w)
            (λ r' w'. guarded _ r' w'))
          forgetting
