-- ===== src/Broker/Process/Working/Bound.antt =====
-- The broker that `Broker::Bind` of src/amqp_broker.cc returns, at work.
use capy_amqp_cpp.Prelude.{ℕ, ◌≡◌, refl, [], ◌∷◌, false, some, Text, Key, text_key}
use capy_amqp_cpp.Error.{value_of}
use capy_amqp_cpp.Address.{Address}
use capy_amqp_cpp.Cache
use capy_amqp_cpp.Cache.Shards.{find}
use capy_amqp_cpp.Cache.View.{view}
use capy_amqp_cpp.Broker.Registry.{Command, Flag}
use capy_amqp_cpp.Cache.Metrics.{init-IsMap}
use capy_amqp_cpp.Connections.{Connection, new_channel}
use capy_amqp_cpp.Connections.Paired.{own, new_channel_result}
use capy_amqp_cpp.Broker.Listen.Invariant.{IsKept}
use capy_amqp_cpp.Broker.Listen.Adding.{new_channel-Kept}
use capy_amqp_cpp.Broker.Bind.{Binding, Bound, returned, make_impl, bind}
use capy_amqp_cpp.Broker.Bind.Established.{
  make_impl-IsPaired, empty_registry-IsSound, empty_registry-IsNumbered,
}
use capy_amqp_cpp.Broker.Facade.{listening}
use capy_amqp_cpp.Broker.Process.Working.{IsWorking}

module _ {ℓ} {K : Type ℓ} ⦃e : Key K⦄ (hash : K → ℕ) (hash_text : Text → ℕ)
    (memory : ℕ → Connection) (now : ℕ) (thread : K) where
  make_impl-Kept :
      (address : Address) (b : Binding)
      → IsKept hash hash_text
          (listening (make_impl {K = K} memory address b.exchange_name b.heartbeat_timeout))
  unfolding make_impl
  make_impl-Kept address b = record {
    paired =
        make_impl-IsPaired hash hash_text memory now thread address b.exchange_name
          b.heartbeat_timeout;
    sound = empty_registry-IsSound hash_text;
    single = init-IsMap false;
    held = λ k n p. elim p.0 [ ];
    owned = λ n o h. absurd (cc);
  }

  -- `Bind`, if AMQP-CPP throws nothing, returns a broker of the exchange that it was given which
  -- is at work, with any counter: it has the invariant that every safe history keeps.
  pub bind-IsWorking :
      (address : Address) (b : Binding) (counter : ℕ)
      → (x : Bound K) × (bind hash memory now thread address b returned ≡ some (value_of x))
        × IsWorking hash hash_text (record { impl = x.impl; counter = counter })
        × (x.impl.exchange_name ≡ b.exchange_name)
  unfolding bind make_impl Cache.init view find
  bind-IsWorking address b counter =
      let impl = make_impl {K = K} memory address b.exchange_name b.heartbeat_timeout in
      let c = impl.connections in
      let kept = make_impl-Kept address b in
      (
        record {
          impl = record impl { connections = (new_channel hash now thread c).0 };
          channel = own hash c thread;
          commands = Command.declare_exchange b.exchange_name (Flag.topic ∷ Flag.durable ∷ []) ∷ [];
        },
        rw (new_channel_result hash now thread c kept.paired) refl,
        record {
          listeners = new_channel-Kept hash hash_text now thread (listening impl) kept;
          fetchers = kept.sound;
          listen_ids = empty_registry-IsNumbered hash_text counter;
          fetch_ids = empty_registry-IsNumbered hash_text counter;
          fetch_reached = λ n o h. absurd (cc);
          apart = λ k o o' h h'. absurd (cc);
        },
        refl,
      )
