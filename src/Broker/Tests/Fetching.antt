-- ===== src/Broker/Tests/Fetching.antt =====
-- Tests of fetches.
use capy_amqp_cpp.Prelude.{false}
use capy_amqp_cpp.Prelude.{
  ℕ, ◌≡◌, ◌≢◌, refl, false, none, some, List, [], ◌∷◌, Text, codes, nat_key, text_key, arith,
}
use capy_amqp_cpp.Connections.{new_channel}
use capy_amqp_cpp.Connections.Paired.{IsPaired, own}
use capy_amqp_cpp.Broker.Ids.{print}
use capy_amqp_cpp.Broker.Registry.{Registry, Effect, command, declare_queue, exclusive, autodelete}
use capy_amqp_cpp.Broker.Registry.Laws.{lookup, IsSound}
use capy_amqp_cpp.Broker.Fetch.{
  Event, Fetched, queue_declared, received, consuming, fetch_message, fresh_object,
}
use capy_amqp_cpp.Broker.Registry.Reachable.{AllReached}
use capy_amqp_cpp.Broker.Numbered.{IsNumbered}
use capy_amqp_cpp.Broker.Fetch.Start.{fetch_message-starts}
use capy_amqp_cpp.Broker.Fetch.History.{Entry, run, of_id, outcomes, run-outcomes}
use capy_amqp_cpp.Broker.Fetch.Quiet.{finals}
use capy_amqp_cpp.Broker.Fetch.Once.{run-finalizes}
use capy_amqp_cpp.Broker.Tests.{
  hash, hash_thread, json, no_fetchers, no_fetchers-IsSound, open_fetch, id, fetchers,
  fetchers-IsSound, fetchers-lookup, exchange, connections, connections-IsPaired,
  no_fetchers-IsNumbered, no_fetchers-AllReached,
}

-- The queue is there, the consumer is there, the reply comes, and a second one.
abbrev entry : Event Text → Entry Text
entry ev = record { now = 5; id = id; event = ev }

abbrev history : List (Entry Text)
history =
    entry (queue_declared (codes "q") (codes "hi") (codes "key"))
    ∷ entry consuming
    ∷ entry (received (1 ∷ codes "yes"))
    ∷ entry (received (1 ∷ codes "no"))
    ∷ []

run-outcomes_example :
    (r' : Registry) × (es : List (Text × Effect Text)) × (run json exchange hash history fetchers
      ≡ some (r', es))
    × IsSound hash r'
    × ((k : Text)
        → (lookup hash r' k ≡ (outcomes json exchange hash k history (lookup hash fetchers k)).0)
          × (of_id json exchange hash k es
              ≡ (outcomes json exchange hash k history (lookup hash fetchers k)).1))
run-outcomes_example = run-outcomes json exchange hash history fetchers fetchers-IsSound

run-finalizes_example :
    (r' : Registry) × (es : List (Text × Effect Text)) × (run json exchange hash history fetchers
      ≡ some (r', es))
    × (finals (of_id json exchange hash id es) ≡ 1)
run-finalizes_example =
    run-finalizes json exchange hash id history fetchers open_fetch 3 fetchers-IsSound
      fetchers-lookup refl

fetch_message-starts_example :
    (f : Fetched ℕ Text) × (fetch_message hash_thread hash 5
        (codes "hi")
        (codes "key")
        false
        7
        1
        connections
        no_fetchers
      ≡ some f)
    × IsPaired hash_thread f.connections
    × IsSound hash f.fetchers
    × IsNumbered hash f.counter f.fetchers
    × AllReached hash f.fetchers
    × (lookup hash no_fetchers f.correlation_id ≡ none)
    × (lookup hash f.fetchers f.correlation_id
        ≡ some (fresh_object false (own hash_thread connections 7)))
    × ((k : Text) → f.correlation_id ≢ k → lookup hash f.fetchers k ≡ lookup hash no_fetchers k)
    × (f.effects
        ≡ command (own hash_thread connections 7) (declare_queue [] (exclusive ∷ autodelete ∷ []))
          ∷ [])
    × (f.correlation_id ≡ print 1)
    × (f.counter ≡ 2)
    × (f.connections ≡ (new_channel hash_thread 5 7 connections).0)
    × ((name : Text) → f.on_declared name ≡ queue_declared name (codes "hi") (codes "key"))
fetch_message-starts_example =
    fetch_message-starts Text hash_thread hash 5 1 (codes "hi") (codes "key") false 7 connections
      no_fetchers connections-IsPaired no_fetchers-IsSound no_fetchers-IsNumbered
      no_fetchers-AllReached (omega arith)
