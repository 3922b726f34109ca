-- ===== src/Broker/Fetch/Start.antt =====
-- The start of a fetch: `fetch_message` of src/broker_impl/broker.cc, up to its return.
use capy_amqp_cpp.Prelude.{
  ℕ, suc, ◌<◌, ◌≡◌, ◌≢◌, refl, Bool, none, some, [], ◌∷◌, Text, Key, text_key, lt→ltb,
}
use capy_amqp_cpp.Connections.{ConnectionCache, new_channel}
use capy_amqp_cpp.Connections.Paired.{IsPaired, own, new_channel_result, new_channel-IsPaired}
use capy_amqp_cpp.Broker.Ids.{create_unique_id, print}
use capy_amqp_cpp.Broker.Registry.{Registry, command, declare_queue, exclusive, autodelete, add}
use capy_amqp_cpp.Broker.Registry.Laws.{lookup, IsSound}
use capy_amqp_cpp.Broker.Registry.Adding.{added, lookup-added, lookup-added_other, added-IsSound}
use capy_amqp_cpp.Broker.Registry.Reachable.{AllReached, added-AllReached}
use capy_amqp_cpp.Broker.Numbered.{IsNumbered, numbered_fresh, added-IsNumbered}
use capy_amqp_cpp.Broker.Fetch.{Fetched, fetch_message, fresh_object, queue_declared}

module _ {ℓ} {K : Type ℓ} ⦃e : Key K⦄ (J : Type 0) (hash_thread : K → ℕ) (hash : Text → ℕ) where
  -- If the connections are paired with threads, the registry is sound, its ids were all given out
  -- by the counter, every object that is not destroyed is behind an id and the counter is below
  -- the largest `int`, then `fetch_message` returns: under an id that was not in use it registers
  -- one new object, whose channel is on the connection of the calling thread, it asks that channel
  -- for an exclusive queue and does nothing else, leaves the other fetches as they are, and keeps
  -- all of these invariants. The id is the counter in decimal digits, the counter goes up by one,
  -- the connections are those that `new_channel` leaves, and the callback that it leaves for the
  -- queue has the message and the routing key that it was given.
  pub fetch_message-starts :
      (now counter : ℕ) (message : J) (routing_key : Text) (indeterminate : Bool) (thread : K)
      (c : ConnectionCache K) (r : Registry)
      → IsPaired hash_thread c
      → IsSound hash r
      → IsNumbered hash counter r
      → AllReached hash r
      → counter < 2147483647
      → (f : Fetched K J) × (fetch_message hash_thread hash now message routing_key indeterminate
            thread counter c r
          ≡ some f)
        × IsPaired hash_thread f.connections
        × IsSound hash f.fetchers
        × IsNumbered hash f.counter f.fetchers
        × AllReached hash f.fetchers
        × (lookup hash r f.correlation_id ≡ none)
        × (lookup hash f.fetchers f.correlation_id
            ≡ some (fresh_object indeterminate (own hash_thread c thread)))
        × ((k : Text) → f.correlation_id ≢ k → lookup hash f.fetchers k ≡ lookup hash r k)
        × (f.effects
            ≡ command (own hash_thread c thread) (declare_queue [] (exclusive ∷ autodelete ∷ []))
              ∷ [])
        × (f.correlation_id ≡ print counter)
        × (f.counter ≡ suc counter)
        × (f.connections ≡ (new_channel hash_thread now thread c).0)
        × ((name : Text) → f.on_declared name ≡ queue_declared name message routing_key)
  unfolding fetch_message create_unique_id add
  fetch_message-starts now counter message routing_key indeterminate thread c r paired w num reached
        small =
      let id = print counter in
      let o = fresh_object indeterminate (own hash_thread c thread) in
      let fresh = numbered_fresh hash counter r num in
      (
        record {
          connections = (new_channel hash_thread now thread c).0;
          fetchers = added hash id o r;
          counter = suc counter;
          correlation_id = id;
          effects =
              command (own hash_thread c thread) (declare_queue [] (exclusive ∷ autodelete ∷ []))
              ∷ [];
          on_declared = λ name. queue_declared name message routing_key;
        },
        rw
            (
              lt→ltb counter 2147483647 small,
              new_channel_result hash_thread now thread c paired,
              fresh,
            )
            refl,
        new_channel-IsPaired hash_thread now thread c paired,
        added-IsSound hash id o r w,
        added-IsNumbered hash counter o r num,
        added-AllReached hash id o r fresh reached,
        rw fresh refl,
        lookup-added hash id o r w,
        lookup-added_other hash id o r w,
        refl,
        refl,
        refl,
        refl,
        λ name. refl,
      )
