-- ===== src/Broker/Reply.antt =====
-- The commit handler that `BrokerImpl::listen_messages` of src/broker_impl/broker.cc sets on a replay:
-- what it sends back.
pub mod Delivery
use capy_amqp_cpp.Prelude.{
  ℕ, Bool, true, false, Option, none, some, List, [], ◌∷◌, if◌then◌else◌, Text, codes, Key,
}
use capy_amqp_cpp.Error.{
  Error, value, message, Result, value_of, unexpected, broker_code, empty_replay,
}
use capy_amqp_cpp.Connections.{ConnectionCache, new_channel}
use capy_amqp_cpp.Broker.Json.{Json}
use capy_amqp_cpp.Broker.Registry.{Envelope, Command, start_transaction, commit_transaction}

module _ {ℓ} {J : Type ℓ} (json : Json J) where
  -- {"error", {{"code", code}, {"message", text}}}
  abbrev pub error_object : ℕ → Text → J
  error_object code text = json.array (
      json.string (codes "error")
      ∷ json.object ((codes "code", json.number code) ∷ (codes "message", json.string text) ∷ [])
      ∷ [])

  -- error_json
  unfoldable pub error_json : Result J → J
  error_json (unexpected e) = error_object (value e) (message e)
  error_json (value_of v) =
      if json.is_empty v
      then error_object (broker_code empty_replay) (codes "worker replay is empty")
      else json.null

  -- message.value(), which throws if there is none.
  abbrev value_or_throw : Result J → Option J
  value_or_throw (value_of v) = some v
  value_or_throw (unexpected e) = none

  unfoldable pub reply_json : Result J → Option J
  unfolding error_json
  reply_json m = if json.is_empty (error_json m) then value_or_throw m else some (error_json m)

  abbrev pub reply_envelope : Text → J → Envelope
  reply_envelope cid reply = record {
    body = json.to_msgpack reply;
    delivery_mode = none;
    correlation_id = some cid;
    reply_to = none;
  }

  abbrev pub reply_commands : Text → Text → J → List Command
  reply_commands cid replay_to reply =
      start_transaction
      ∷ Command.publish [] replay_to (reply_envelope cid reply) []
      ∷ commit_transaction
      ∷ []

  -- The handler, up to the outcome of the transaction: the connection of its channel and the commands.
  module _ {κ} {K : Type κ} ⦃e : Key K⦄ (hash : K → ℕ) where
    abbrev pub send :
        Text
        → Text
        → Option J
        → ConnectionCache K × Option ℕ
        → Option (ConnectionCache K × ℕ × List Command)
    send cid replay_to none r = none
    send cid replay_to (some reply) (c, none) = none
    send cid replay_to (some reply) (c, some channel) =
        some (c, channel, reply_commands cid replay_to reply)

    unfoldable pub on_commit :
        ℕ
        → K
        → Text
        → Text
        → Result J
        → ConnectionCache K
        → Option (ConnectionCache K × ℕ × List Command)
    unfolding reply_json
    on_commit now thread cid replay_to m c =
        send cid replay_to (reply_json m) (new_channel hash now thread c)
