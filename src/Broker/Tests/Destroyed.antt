-- ===== src/Broker/Tests/Destroyed.antt =====
-- Tests of the destructor of a broker.
use capy_amqp_cpp.Prelude.{◌+◌, ◌∷◌, [], refl, List}
use capy_amqp_cpp.Broker.Fetch
use capy_amqp_cpp.Broker.Fetch.History.{Entry, of_id, run}
use capy_amqp_cpp.Broker.Fetch.Quiet.{finals}
use capy_amqp_cpp.Broker.Registry.{Effect, Registry}
use capy_amqp_cpp.Broker.Registry.Laws.{lookup}
use capy_amqp_cpp.Broker.Registry.Refines.{finish}
use capy_amqp_cpp.Broker.Teardown.{destroy_fetchers}
use capy_amqp_cpp.Broker.Teardown.Lifetime.{run-finalizes_finally}
use capy_amqp_cpp.Broker.Tests.{
  id, json, exchange, fetchers, fetchers-IsSound, fetchers-AllReached, fetchers-lookup, open_fetch,
}
use capy_amqp_cpp.Prelude.{ℕ, ◌≡◌, none, some, map, Text, nat_key, text_key}
use capy_amqp_cpp.Connections.Reached.{PointsTo}
use capy_amqp_cpp.Broker.Registry.{Object, call}
use capy_amqp_cpp.Broker.Tests.{hash, hash_thread}
use capy_amqp_cpp.Broker.Tests.States.{server, server-IsWorking}
use capy_amqp_cpp.Deferred.{destroy}
use capy_amqp_cpp.Broker.Teardown.{destroy_impl}
use capy_amqp_cpp.Broker.Teardown.Released.{Part}
use capy_amqp_cpp.Broker.Teardown.Freed.{destroy_impl-frees}

destroy_impl-frees_example :
    let (after, es, fs) = destroy_impl {J = Text} server.impl in
    ((k n : ℕ) → PointsTo after.connections k n → ⊥)
    × ((n : ℕ) → after.listeners.objects n ≡ none)
    × ((n : ℕ) → after.fetchers.objects n ≡ none)
    × ((n : ℕ) (o : Object)
        → server.impl.listeners.objects n ≡ some o
        → Part (map call (destroy o.deferred)) es)
    × ((n : ℕ) (o : Object)
        → server.impl.fetchers.objects n ≡ some o
        → Part (map call (destroy o.deferred)) fs)
destroy_impl-frees_example =
    destroy_impl-frees hash_thread hash Text server.impl server-IsWorking.listeners
      server-IsWorking.fetch_reached

abbrev unanswered : List (Entry Text)
unanswered = record { now = 5; id = id; event = Fetch.consuming } ∷ []

run-finalizes_finally_example :
    (r' : Registry) × (es : List (Text × Effect Text)) × (run json exchange hash unanswered fetchers
      ≡ some (r', es))
    × (finals (of_id json exchange hash id es) + finals (finish {D = Text} (lookup hash r' id)).1
        ≡ 1)
    × ((o' : Object)
        → lookup hash r' id ≡ some o'
        → Part (map call (destroy o'.deferred)) (destroy_fetchers {D = Text} r').1)
    × ((n : ℕ) → (destroy_fetchers {D = Text} r').0.objects n ≡ none)
run-finalizes_finally_example =
    run-finalizes_finally json exchange hash id unanswered fetchers open_fetch 3 fetchers-IsSound
      fetchers-AllReached fetchers-lookup refl
