-- ===== src/Broker/Facade.antt =====
-- The class `Broker` of include/capy/amqp_broker.h and src/amqp_broker.cc: it has a pointer to a
-- `BrokerImpl`, and each member hands its arguments on. A member that follows an empty pointer has no
-- result. `BrokerImpl::run` of src/broker_impl/broker.cc decides on which thread the callbacks run.
pub mod Loop
use capy_amqp_cpp.Prelude.{ℕ, Bool, Option, none, some, List, Text, Key, text_key}
use capy_amqp_cpp.Error.{Error}
use capy_amqp_cpp.Broker.Json.{Json}
use capy_amqp_cpp.Broker.Registry.{Effect, Command}
use capy_amqp_cpp.Broker.Fetch
use capy_amqp_cpp.Broker.Fetch.{Fetched, fetch_message}
use capy_amqp_cpp.Broker.Listen.Owners.{Listening}
use capy_amqp_cpp.Broker.Listen.{Request, Listened, listen_messages}
use capy_amqp_cpp.Broker.Publish.{Published, publish_message}
use capy_amqp_cpp.Broker.Bind.{BrokerImpl}

-- impl_, by what it points to.
pub record Broker {ℓ} (K : Type ℓ) : Type ℓ where
  pub impl : Option (BrokerImpl K)

-- The two constructors.
unfoldable pub make_broker {ℓ} : {K : Type ℓ} → BrokerImpl K → Broker K
make_broker impl = record { impl = some impl }

unfoldable pub make_empty {ℓ} : {K : Type ℓ} → Broker K
make_empty = record { impl = none }

pub data Launch : Type 0 where
  async sync : Launch

-- The thread that runs the loop of libuv, and the callbacks with it: a new one that is detached, or
-- the caller's, which waits.
pub record Running {ℓ} (K : Type ℓ) : Type ℓ where
  pub loop_thread : K
  pub caller_waits : Bool

abbrev pub run_impl {ℓ} : {K : Type ℓ} → K → K → Launch → Running K
run_impl caller new_thread async = record { loop_thread = new_thread; caller_waits = Bool.false }
run_impl caller new_thread sync = record { loop_thread = caller; caller_waits = Bool.true }

-- What a member leaves: the broker behind the pointer, the counter of ids, the id of the object that
-- is returned, and the effects.
pub record Called {ℓ} (K : Type ℓ) (D : Type 0) : Type ℓ where
  pub impl : BrokerImpl K
  pub counter : ℕ
  pub correlation_id : Text
  pub effects : List (Effect D)

-- What `publish` leaves: the broker, the commands to a connection, and the error that it returns.
pub record Sent {ℓ} (K : Type ℓ) : Type ℓ where
  pub impl : BrokerImpl K
  pub channel : ℕ
  pub commands : List Command
  pub error : Error

module _ {ℓ} {K : Type ℓ} {J : Type 0} where
  -- With the callback for the queue of the fetch.
  abbrev pub fetched :
      BrokerImpl K → Option (Fetched K J) → Option (Called K J × (Text → Fetch.Event J))
  fetched impl none = none
  fetched impl (some f) = some (
    record {
      impl = record impl { connections = f.connections; fetchers = f.fetchers };
      counter = f.counter;
      correlation_id = f.correlation_id;
      effects = f.effects;
    },
    f.on_declared,
  )

  abbrev pub listened : BrokerImpl K → Option (Listened K J) → Option (Called K (Request J))
  listened impl none = none
  listened impl (some l) = some (record {
    impl = record impl { connections = l.after.connections; listeners = l.after.listeners };
    counter = l.counter;
    correlation_id = l.correlation_id;
    effects = l.effects;
  })

abbrev pub published {ℓ} : {K : Type ℓ} → BrokerImpl K → Option (Published K) → Option (Sent K)
published impl none = none
published impl (some p) = some (record {
  impl = record impl { connections = p.connections };
  channel = p.channel;
  commands = p.commands;
  error = p.error;
})

abbrev pub listening {ℓ} : {K : Type ℓ} → BrokerImpl K → Listening K
listening impl = record { connections = impl.connections; listeners = impl.listeners }

-- `thread` is the thread that calls.
module _ {ℓ} {K : Type ℓ} ⦃e : Key K⦄ {J : Type 0} (json : Json J) (hash_thread : K → ℕ)
    (hash : Text → ℕ) (now : ℕ) (thread : K) where
  abbrev impl_fetch :
      J → Text → Bool → ℕ → Option (BrokerImpl K) → Option (Called K J × (Text → Fetch.Event J))
  impl_fetch message routing_key indeterminate counter none = none
  impl_fetch message routing_key indeterminate counter (some impl) = fetched impl (
      fetch_message hash_thread hash now message routing_key indeterminate thread counter
        impl.connections impl.fetchers)

  unfoldable pub fetch :
      J → Text → Bool → ℕ → Broker K → Option (Called K J × (Text → Fetch.Event J))
  fetch message routing_key indeterminate counter b =
      impl_fetch message routing_key indeterminate counter b.impl

  abbrev impl_listen :
      Bool → Text → List Text → ℕ → Option (BrokerImpl K) → Option (Called K (Request J))
  impl_listen indeterminate queue routing_keys counter none = none
  impl_listen indeterminate queue routing_keys counter (some impl) = listened impl (
      listen_messages json impl.exchange_name hash_thread hash now thread indeterminate queue
        routing_keys counter (listening impl))

  unfoldable pub listen : Bool → Text → List Text → ℕ → Broker K → Option (Called K (Request J))
  listen indeterminate queue routing_keys counter b =
      impl_listen indeterminate queue routing_keys counter b.impl

  abbrev impl_publish : J → Text → Option Text → Option (BrokerImpl K) → Option (Sent K)
  impl_publish message routing_key failure none = none
  impl_publish message routing_key failure (some impl) = published impl (
      publish_message json impl.exchange_name hash_thread now thread message routing_key failure
        impl.connections)

  unfoldable pub publish : J → Text → Option Text → Broker K → Option (Sent K)
  publish message routing_key failure b = impl_publish message routing_key failure b.impl

-- `run` calls the member of the implementation, through the pointer.
abbrev run_behind {ℓ} : {K : Type ℓ} → K → K → Launch → Option (BrokerImpl K) → Option (Running K)
run_behind caller new_thread launch none = none
run_behind caller new_thread launch (some impl) = some (run_impl caller new_thread launch)

unfoldable pub run {ℓ} : {K : Type ℓ} → K → K → Launch → Broker K → Option (Running K)
run caller new_thread launch b = run_behind caller new_thread launch b.impl
