-- ===== src/Broker/Bind/Established.antt =====
-- The state after `Broker::Bind` of src/amqp_broker.cc.
use capy_amqp_cpp.Prelude.{
  ℕ, ◌≡◌, refl, ◌∙◌, false, Option, none, some, [], ◌∷◌, Text, Key, text_key, leb, is_some,
}
use capy_amqp_cpp.Error.{value_of}
use capy_amqp_cpp.Error.Format.{error_string, conversions, is_some-error_string}
use capy_amqp_cpp.Address.{Address}
use capy_amqp_cpp.Cache
use capy_amqp_cpp.Cache.Shards.{find}
use capy_amqp_cpp.Cache.View.{view}
use capy_amqp_cpp.Connections.{Connection, new_channel}
use capy_amqp_cpp.Connections.Paired.{IsPaired, own, new_channel_result, new_channel-IsPaired}
use capy_amqp_cpp.Broker.Registry.{Command, Flag}
use capy_amqp_cpp.Broker.Registry.Laws.{IsSound}
use capy_amqp_cpp.Broker.Numbered.{IsNumbered}
use capy_amqp_cpp.Broker.Bind.{
  Binding, Bound, returned, threw, make_impl, bind, connection_error, empty_registry,
}

pub empty_registry-IsSound : (hash : Text → ℕ) → IsSound hash empty_registry
unfolding Cache.init view find
empty_registry-IsSound hash = record {
  permanent = λ k i h. absurd (cc);
  known = λ k i h. absurd (cc);
  alive = λ k i h. absurd (cc);
  apart = λ k k' i i' h h' p. absurd (cc);
}

pub empty_registry-IsNumbered :
    (hash : Text → ℕ) (counter : ℕ) → IsNumbered hash counter empty_registry
unfolding Cache.init view find
empty_registry-IsNumbered hash counter k i h = absurd (cc)

module _ {ℓ} {K : Type ℓ} ⦃e : Key K⦄ (hash : K → ℕ) (hash_text : Text → ℕ)
    (memory : ℕ → Connection) (now : ℕ) (thread : K) where
  pub make_impl-IsPaired :
      (address : Address) (exchange_name : Text) (heartbeat_timeout : ℕ)
      → IsPaired hash (make_impl {K = K} memory address exchange_name heartbeat_timeout).connections
  unfolding make_impl Cache.init view find
  make_impl-IsPaired address exchange_name heartbeat_timeout = record {
    permanent = λ k i h. absurd (cc);
    known = λ k i h. absurd (cc);
    apart = λ k k' i i' h h' p. absurd (cc);
    complete = λ n lt. elim lt [ ];
  }

  is_some-connection_error :
      (o : Option Text) → is_some (connection_error hash memory now thread o) ≡ is_some o
  is_some-connection_error none = refl
  is_some-connection_error (some text) = refl

  -- `Bind`, if AMQP-CPP throws nothing, returns a broker of the exchange that it was given, whose
  -- connections are paired with threads and whose fetches and listeners are sound and numbered
  -- below any counter: the states that the other operations start from.
  pub bind-establishes :
      (address : Address) (b : Binding) (counter : ℕ)
      → (x : Bound K) × (bind hash memory now thread address b returned ≡ some (value_of x))
        × IsPaired hash x.impl.connections
        × IsSound hash_text x.impl.fetchers
        × IsNumbered hash_text counter x.impl.fetchers
        × IsSound hash_text x.impl.listeners
        × IsNumbered hash_text counter x.impl.listeners
        × (x.impl.exchange_name ≡ b.exchange_name)
  unfolding bind make_impl
  bind-establishes address b counter =
      let c = (make_impl {K = K} memory address b.exchange_name b.heartbeat_timeout).connections in
      let paired = make_impl-IsPaired address b.exchange_name b.heartbeat_timeout in
      (
        record {
          impl = record (make_impl memory address b.exchange_name b.heartbeat_timeout) {
            connections = (new_channel hash now thread c).0;
          };
          channel = own hash c thread;
          commands = Command.declare_exchange b.exchange_name (Flag.topic ∷ Flag.durable ∷ []) ∷ [];
        },
        rw (new_channel_result hash now thread c paired) refl,
        new_channel-IsPaired hash now thread c paired,
        empty_registry-IsSound hash_text,
        empty_registry-IsNumbered hash_text counter,
        empty_registry-IsSound hash_text,
        empty_registry-IsNumbered hash_text counter,
        refl,
      )

  -- If AMQP-CPP throws a `std::exception` whose text, read as a format, has only `%s` and `%%` as
  -- conversions, then `Bind` has a result exactly if the text has no `%s`: the text is passed to
  -- `error_string` as the format.
  pub bind_threw :
      (address : Address) (b : Binding) (what : Text) (n : ℕ)
      → conversions false what ≡ some n
      → is_some (bind hash memory now thread address b (threw what)) ≡ leb n 0
  unfolding bind
  bind_threw address b what n h =
      is_some-connection_error (error_string what []) ∙ is_some-error_string what [] n h
