-- ===== src/Broker/Tests/Working.antt =====
-- Tests of a broker at work: calls, callbacks and histories of them.
use capy_amqp_cpp.Prelude.{refl}
use capy_amqp_cpp.Deferred
use capy_amqp_cpp.Broker.Process.{listen_used}
use capy_amqp_cpp.Broker.Tests.{open_fetch}
use capy_amqp_cpp.Prelude.{
  ℕ, ◌≡◌, ◌≢◌, false, none, some, List, [], ◌∷◌, ◌++◌, Text, codes, nat_key, text_key, arith,
}
use capy_amqp_cpp.Error.{value_of, broker_error, connection}
use capy_amqp_cpp.Connections.{
  Connection, ConnectionCache, new_channel, reset_deferred, on_error, on_lost,
}
use capy_amqp_cpp.Connections.Lost.{assigned, deferred-assigned}
use capy_amqp_cpp.Connections.Paired.{IsPaired, own, item_of-new_channel, new_channel-IsPaired}
use capy_amqp_cpp.Cache.Permanent.{kept}
use capy_amqp_cpp.Connections.Reached.{assigned-IsPaired}
use capy_amqp_cpp.Broker.Ids.{print}
use capy_amqp_cpp.Broker.Registry.{Object, Effect}
use capy_amqp_cpp.Broker.Registry.Laws.{lookup}
use capy_amqp_cpp.Broker.Numbered.{IsNumbered}
use capy_amqp_cpp.Broker.Fetch.{fresh_object}
use capy_amqp_cpp.Broker.Listen
use capy_amqp_cpp.Broker.Listen.{Request, Message, Listened, listen_messages, listen_commands}
use capy_amqp_cpp.Broker.Listen.Releases.{Releases}
use capy_amqp_cpp.Broker.Registry.{command, declare_queue, bind_queue, consume, durable}
use capy_amqp_cpp.Broker.Listen.Invariant.{IsKept}
use capy_amqp_cpp.Broker.Listen.Start.{listen_messages-starts}
use capy_amqp_cpp.Broker.Bind.{Bound, bind, returned, with_defaults}
use capy_amqp_cpp.Broker.Facade
use capy_amqp_cpp.Broker.Facade.{Running, async, make_broker, listening}
use capy_amqp_cpp.Broker.Facade.Loop.{told, run-reset}
use capy_amqp_cpp.Broker.Process.{Action, publish, listen_event, step, run}
use capy_amqp_cpp.Broker.Process.Working.{IsWorking, Works}
use capy_amqp_cpp.Broker.Process.Working.Safe.{Safe, SafeRun, step-safe, run-Works}
use capy_amqp_cpp.Broker.Process.Working.Needs.{step-needs}
use capy_amqp_cpp.Broker.Process.Working.Ended.{consume_failed-faults}
use capy_amqp_cpp.Broker.Process.Working.Bound.{bind-IsWorking}
use capy_amqp_cpp.Broker.Tests.{
  json, json-IsJson, hash, hash_thread, exchange, connections, open_fetch, no_fetchers,
  connections-IsPaired, no_fetchers-IsNumbered,
}
use capy_amqp_cpp.Broker.Tests.States.{idle, idle-Kept, one-lookup, server, server-IsWorking}

abbrev memory : ℕ → Connection
memory = connections.objects

bind-IsWorking_example :
    (x : Bound ℕ) × (bind hash_thread memory 5 7 connections.address with_defaults returned
      ≡ some (value_of x))
    × IsWorking hash_thread hash (record { impl = x.impl; counter = 1 })
    × (x.impl.exchange_name ≡ codes "amq.topic")
unfolding with_defaults
bind-IsWorking_example =
    bind-IsWorking hash_thread hash memory 5 7 connections.address with_defaults 1

listen_messages-starts_example :
    (l : Listened ℕ Text) × (released : List (Effect (Request Text))) × (listen_messages json
        exchange hash_thread hash 5 7 false
        (codes "q")
        (codes "key" ∷ [])
        1
        (listening idle.impl)
      ≡ some l)
    × IsKept hash_thread hash l.after
    × IsNumbered hash l.counter l.after.listeners
    × (lookup hash no_fetchers l.correlation_id ≡ none)
    × (lookup hash l.after.listeners l.correlation_id
        ≡ some (fresh_object false (own hash_thread connections 7)))
    × ((k : Text)
        → l.correlation_id ≢ k
        → lookup hash l.after.listeners k ≡ lookup hash no_fetchers k)
    × (l.effects
        ≡ released
          ++ command (own hash_thread connections 7) (declare_queue (codes "q") (durable ∷ []))
            ∷ command
                (own hash_thread connections 7)
                (bind_queue exchange (codes "q") (codes "key"))
            ∷ command (own hash_thread connections 7) (consume (codes "q") [])
            ∷ [])
    × Releases (listening idle.impl) (own hash_thread connections 7) released
    × ((message : Text)
        → on_error message (l.after.connections.objects (own hash_thread connections 7))
          ≡ (0, broker_error connection (some message)) ∷ [])
    × (l.correlation_id ≡ print 1)
    × (l.counter ≡ 2)
listen_messages-starts_example =
    listen_messages-starts json exchange hash_thread hash 5 7 false (codes "q") (codes "key" ∷ []) 1
      (listening idle.impl) idle-Kept no_fetchers-IsNumbered (omega arith)

-- The consumer of the listener fails.
abbrev failure : Action ℕ Text
failure = listen_event 5 7 (print 1) (Listen.consume_failed (codes "closed"))

failure-Safe : Safe hash failure server
failure-Safe = ((open_fetch, one-lookup), λ message q. absurd (cc))

failed : Works hash_thread hash Text server (step json hash_thread hash failure server)
failed = step-safe json hash_thread hash failure server json-IsJson server-IsWorking tt failure-Safe

step-needs_example :
    ((o : Object) × (lookup hash server.impl.listeners (print 1) ≡ some o))
    × ((message : Text) → Listen.consume_failed (codes "closed") ≢ Listen.binding_failed message)
step-needs_example =
    step-needs json hash_thread hash failure server (failed.after, failed.deeds) server-IsWorking
      failed.runs

-- The client sets a handler of its listener, and publishes.
abbrev uses : List (Action ℕ Text)
uses = listen_used 0 (Deferred.sets_data 9) ∷ publish 6 8 (codes "hi") (codes "key") none ∷ []

uses-SafeRun : SafeRun json hash_thread hash uses server
uses-SafeRun = (tt, (open_fetch, refl), λ s' ds h. (tt, tt, λ s'' ds' h'. tt))

run-Works_example : Works hash_thread hash Text server (run json hash_thread hash uses server)
run-Works_example =
    run-Works json hash_thread hash uses server json-IsJson server-IsWorking uses-SafeRun

-- The client publishes after the consumer of the listener has failed.
abbrev afterwards : List (Action ℕ Text)
afterwards = publish 6 8 (codes "hi") (codes "key") none ∷ []

later : Works hash_thread hash Text failed.after (run json hash_thread hash afterwards failed.after)
later =
    run-Works json hash_thread hash afterwards failed.after json-IsJson failed.working
      (tt, tt, λ s'' ds h. tt)

consume_failed-faults_example :
    step json hash_thread hash
      (listen_event 9 8 (print 1) (Listen.binding_failed (codes "late")))
      later.after
    ≡ none
consume_failed-faults_example =
    consume_failed-faults json hash_thread hash 5 9 7 8 (print 1) (codes "closed")
      (Listen.binding_failed (codes "late")) afterwards server failed.after later.after failed.deeds
      later.deeds json-IsJson server-IsWorking failed.runs (tt, λ s'' ds h. tt) later.runs

-- The connection of thread 7, with a listener set.
abbrev opened : ConnectionCache ℕ
opened = (new_channel hash_thread 5 7 connections).0

abbrev watched : ConnectionCache ℕ
watched = assigned (some 3) (own hash_thread connections 7) opened

watched-IsPaired : IsPaired hash_thread watched
watched-IsPaired =
    assigned-IsPaired hash_thread (some 3) (own hash_thread connections 7) opened
      (new_channel-IsPaired hash_thread 5 7 connections connections-IsPaired)

run-reset_example :
    (running : Running ℕ) × (c' : ConnectionCache ℕ) × (Facade.run 7 8 async
        (make_broker (record idle.impl { connections = watched }))
      ≡ some running)
    × (reset_deferred hash_thread 6 running.loop_thread watched ≡ some c')
    × (on_lost (c'.objects (own hash_thread connections 7)) ≡ told async 3)
run-reset_example =
    run-reset hash_thread async 7 8 (record idle.impl { connections = watched }) 6 3
      (kept (own hash_thread connections 7)) (λ p. omega (arith, p)) watched-IsPaired
      (item_of-new_channel hash_thread 5 7 connections connections-IsPaired 7)
      (deferred-assigned (some 3) (own hash_thread connections 7) opened)
