-- ===== src/Broker/Bind.antt =====
-- `Broker::Bind` of include/capy/amqp_broker.h and src/amqp_broker.cc, its overloads, and the
-- constructor of `BrokerImpl` in src/broker_impl/broker.cc.
pub mod Established
use capy_amqp_cpp.Prelude.{
  ℕ, Bool, false, Option, none, some, List, [], ◌∷◌, Text, codes, Key, text_key,
}
use capy_amqp_cpp.Error.{
  Error, Result, value_of, unexpected, broker_error, connection, queue_declaration,
}
use capy_amqp_cpp.Error.Format.{error_string}
use capy_amqp_cpp.Address.{Address}
use capy_amqp_cpp.Cache
use capy_amqp_cpp.Connections.{Connection, ConnectionCache, new_channel, to_address}
use capy_amqp_cpp.Broker.Registry.{Registry, Command, declare_exchange, durable, topic}

-- BrokerImpl; the thread of its loop is not modelled.
pub record BrokerImpl {ℓ} (K : Type ℓ) : Type ℓ where
  pub exchange_name : Text
  pub connections : ConnectionCache K
  pub fetchers : Registry
  pub listeners : Registry

-- The arguments of `Bind` behind the address. A handler is a number, and `none` the one that does
-- nothing.
pub record Binding : Type 0 where
  pub exchange_name : Text
  pub heartbeat_timeout : ℕ
  pub on_error : Option ℕ

abbrev default_timeout : ℕ
default_timeout = 60

abbrev default_exchange : Text
default_exchange = codes "amq.topic"

-- The four overloads, by what they are given.
unfoldable pub with_exchange : Text → Binding
with_exchange exchange_name = record {
  exchange_name = exchange_name;
  heartbeat_timeout = default_timeout;
  on_error = none;
}

unfoldable pub with_handler : ℕ → Binding
with_handler on_error = record {
  exchange_name = default_exchange;
  heartbeat_timeout = default_timeout;
  on_error = some on_error;
}

unfoldable pub with_timeout : ℕ → Binding
with_timeout heartbeat_timeout = record {
  exchange_name = default_exchange;
  heartbeat_timeout = heartbeat_timeout;
  on_error = none;
}

unfoldable pub with_defaults : Binding
with_defaults = record {
  exchange_name = default_exchange;
  heartbeat_timeout = default_timeout;
  on_error = none;
}

abbrev pub empty_registry : Registry
empty_registry = record { ids = Cache.init false; objects = λ n. none; created = 0 }

-- The constructor. `memory` is what stands where no connection has been made yet.
unfoldable pub make_impl {ℓ} : {K : Type ℓ} → (ℕ → Connection) → Address → Text → ℕ → BrokerImpl K
make_impl memory address exchange_name heartbeat_timeout = record {
  exchange_name = exchange_name;
  connections = record {
    address = address;
    heartbeat_timeout = heartbeat_timeout;
    connections = Cache.init false;
    objects = memory;
    created = 0;
  };
  fetchers = empty_registry;
  listeners = empty_registry;
}

-- How the calls into AMQP-CPP end: without an exception, with a `std::exception`, or with another.
pub data Attempt : Type 0 where
  returned threw_other : Attempt
  threw : Text → Attempt

-- The broker and the commands to its first channel, which is deleted at once.
pub record Bound {ℓ} (K : Type ℓ) : Type ℓ where
  pub impl : BrokerImpl K
  pub channel : ℕ
  pub commands : List Command

abbrev calls_handler : Option ℕ → Error → List (ℕ × Error)
calls_handler none error = []
calls_handler (some h) error = (h, error) ∷ []

-- The callback of a failed declaration of the exchange: the handler and the error it is given.
unfoldable pub on_exchange_failed : Binding → Text → List (ℕ × Error)
on_exchange_failed b message =
    calls_handler b.on_error (broker_error queue_declaration (some message))

module _ {ℓ} {K : Type ℓ} ⦃e : Key K⦄ (hash : K → ℕ) (memory : ℕ → Connection) (now : ℕ)
    (thread : K) where
  abbrev pub bound : BrokerImpl K → Text → ConnectionCache K × Option ℕ → Option (Result (Bound K))
  bound impl exchange_name (c, none) = none
  bound impl exchange_name (c, some channel) = some (
      value_of (record {
        impl = record impl { connections = c };
        channel = channel;
        commands = declare_exchange exchange_name (topic ∷ durable ∷ []) ∷ [];
      }))

  -- The text of the exception is the format: without the arguments that it asks for, nothing is defined.
  abbrev pub connection_error : Option Text → Option (Result (Bound K))
  connection_error none = none
  connection_error (some text) = some (unexpected (broker_error connection (some text)))

  unfoldable pub bind : Address → Binding → Attempt → Option (Result (Bound K))
  unfolding make_impl
  bind address b returned =
      let impl = make_impl memory address b.exchange_name b.heartbeat_timeout in
      bound impl b.exchange_name (new_channel hash now thread impl.connections)
  bind address b (threw what) = connection_error (error_string what [])
  bind address b threw_other = connection_error (error_string (codes "Unknown error") [])
