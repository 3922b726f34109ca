-- ===== src/Broker/Publish.antt =====
-- `BrokerImpl::publish_message` of src/broker_impl/broker.cc. It waits for the transaction: how that
-- ends, without an error or with its text, is an argument.
use capy_amqp_cpp.Prelude.{
  ℕ, not, Option, none, some, List, [], ◌∷◌, if◌then◌else◌, Text, Key, is_empty,
}
use capy_amqp_cpp.Error.{Error, ok_error, broker_error, publish}
use capy_amqp_cpp.Connections.{ConnectionCache, new_channel}
use capy_amqp_cpp.Broker.Json.{Json}
use capy_amqp_cpp.Broker.Registry.{
  Command, start_transaction, commit_transaction, autodelete, mandatory,
}

-- The value of `publish_barrier`, and the error made of it.
abbrev pub barrier_value : Option Text → Text
barrier_value none = []
barrier_value (some message) = message

unfoldable pub publish_error : Option Text → Error
publish_error failure =
    let error = barrier_value failure in
    if not (is_empty error) then broker_error publish (some error) else ok_error

-- The connections, the connection of the channel, the commands to it, and the error returned.
pub record Published {κ} (K : Type κ) : Type κ where
  pub connections : ConnectionCache K
  pub channel : ℕ
  pub commands : List Command
  pub error : Error

module _ {ℓ κ} {J : Type ℓ} {K : Type κ} ⦃e : Key K⦄ (json : Json J) (exchange : Text)
    (hash : K → ℕ) where
  abbrev pub publish_commands : J → Text → List Command
  publish_commands message routing_key =
      start_transaction
      ∷ Command.publish exchange routing_key
          (record {
            body = json.to_msgpack message;
            delivery_mode = some 2;
            correlation_id = none;
            reply_to = none;
          })
          (autodelete ∷ mandatory ∷ [])
      ∷ commit_transaction
      ∷ []

  abbrev published : J → Text → Option Text → ConnectionCache K × Option ℕ → Option (Published K)
  published message routing_key failure (c, none) = none
  published message routing_key failure (c, some channel) = some (record {
    connections = c;
    channel = channel;
    commands = publish_commands message routing_key;
    error = publish_error failure;
  })

  unfoldable pub publish_message :
      ℕ → K → J → Text → Option Text → ConnectionCache K → Option (Published K)
  unfolding publish_error
  publish_message now thread message routing_key failure c =
      published message routing_key failure (new_channel hash now thread c)
