-- ===== src/Broker/Tests/Rpc.antt =====
-- Tests of whole remote calls.
use capy_amqp_cpp.Prelude.{
  arith, false, ℕ, ◌≡◌, refl, none, some, List, [], ◌∷◌, ◌++◌, map, Text, codes, nat_key, text_key,
}
use capy_amqp_cpp.Error.{value_of}
use capy_amqp_cpp.Connections.Paired.{own}
use capy_amqp_cpp.Deferred.{call_if_set, data_call}
use capy_amqp_cpp.Broker.Ids.{print}
use capy_amqp_cpp.Broker.Registry.{
  Effect, Command, command, call, start_transaction, commit_transaction, consume, autodelete,
  mandatory, noack, ack,
}
use capy_amqp_cpp.Broker.Registry.Laws.{lookup}
use capy_amqp_cpp.Broker.Fetch
use capy_amqp_cpp.Broker.Fetch.{request, fresh_object}
use capy_amqp_cpp.Broker.Listen.Releases.{Releases}
use capy_amqp_cpp.Broker.Facade.{listening}
use capy_amqp_cpp.Broker.Process.{fetch, leaving}
use capy_amqp_cpp.Broker.Registry.{declare_queue, exclusive}
use capy_amqp_cpp.Broker.Reply.Delivery.{sent, ending_calls}
use capy_amqp_cpp.Broker.Listen
use capy_amqp_cpp.Broker.Listen.{Request, Message, Listened, listen_messages, listen_commands}
use capy_amqp_cpp.Broker.Process.{
  Process, commit, fetch_event, listen_event, fetching, listening_to, sending, step,
}
use capy_amqp_cpp.Broker.Process.Working.{IsWorking}
use capy_amqp_cpp.Broker.Process.Rpc.{rpc-answered}
use capy_amqp_cpp.Broker.Tests.{
  json, json-IsJson, hash, hash_thread, exchange, connections, open_fetch, open_fetch-good,
  open_fetch-fine,
}
use capy_amqp_cpp.Broker.Tests.States.{
  one-lookup, idle, idle-IsWorking, client, client-IsWorking, server, server-IsWorking,
}

abbrev asked : Message
asked = record {
  body = 1 ∷ codes "ping";
  reply_to = codes "q";
  routing_key = codes "key";
  correlation_id = print 1;
}

rpc-answered_example :
    (called server' replying' answering' : Process ℕ) × (on_declared : Text → Fetch.Event Text)
    × (released : List (Effect (Request Text))) × (step json hash_thread hash
          (fetch 4 3 (codes "ping") (codes "key") false)
          idle
        ≡ some (
          called,
          map fetching (
                command
                  (own hash_thread connections 3)
                  (declare_queue [] (exclusive ∷ autodelete ∷ []))
                ∷ [])
              ++ leaving (print 1) on_declared ∷ [],
        ))
    × (lookup hash called.impl.fetchers (print 1)
        ≡ some (fresh_object false (own hash_thread connections 3)))
    × (step json hash_thread hash (fetch_event 5 (print 1) (on_declared (codes "q"))) client
        ≡ some (
          client,
          map fetching (
              map (command 0) (
                start_transaction
                ∷ Command.publish exchange
                    (codes "key")
                    (record {
                      body = json.to_msgpack (codes "ping");
                      delivery_mode = some 2;
                      correlation_id = some (print 1);
                      reply_to = some (codes "q");
                    })
                    (autodelete ∷ mandatory ∷ [])
                ∷ commit_transaction
                ∷ consume (codes "q") (noack ∷ [])
                ∷ [])),
        ))
    × (step json hash_thread hash (listen_event 6 7 (print 1) (Listen.received asked 4)) server
        ≡ some (
          server',
          map listening_to (
              command 0 (ack 4)
              ∷ (released
                  ++ map call (
                      call_if_set (some 1) (λ h. data_call h (record {
                        routing_key = codes "key";
                        message = codes "ping";
                        cid = print 1;
                        replay_to = codes "q";
                      }))))),
        ))
    × Releases (listening server.impl) (own hash_thread connections 7) released
    × (step json hash_thread hash
          (commit 7 9 (print 1) (codes "q") (value_of (codes "pong")))
          server
        ≡ some (
          replying',
          map (sending (own hash_thread connections 9)) (
              start_transaction
              ∷ Command.publish []
                  (codes "q")
                  (record {
                    body = json.to_msgpack (sent json json-IsJson (value_of (codes "pong")));
                    delivery_mode = none;
                    correlation_id = some (print 1);
                    reply_to = none;
                  })
                  []
              ∷ commit_transaction
              ∷ []),
        ))
    × (step json hash_thread hash
          (fetch_event 8
            (print 1)
            (Fetch.received (json.to_msgpack (sent json json-IsJson (value_of (codes "pong"))))))
          client
        ≡ some (
          answering',
          map fetching (
              map call (
                call_if_set
                  (some 1)
                  (λ h. data_call h (sent json json-IsJson (value_of (codes "pong")))))
              ++ ending_calls open_fetch.deferred),
        ))
    × (lookup hash answering'.impl.fetchers (print 1) ≡ none)
    × IsWorking hash_thread hash called
    × IsWorking hash_thread hash server'
    × IsWorking hash_thread hash replying'
    × IsWorking hash_thread hash answering'
rpc-answered_example =
    rpc-answered json json-IsJson hash_thread hash 4 5 6 7 8 3 7 9 false (print 1) (codes "q")
      (codes "key") (codes "ping") asked 4 (value_of (codes "pong")) idle client client server
      server open_fetch open_fetch open_fetch idle-IsWorking (omega arith) client-IsWorking
      one-lookup server-IsWorking one-lookup open_fetch-good refl refl refl server-IsWorking
      client-IsWorking one-lookup open_fetch-good open_fetch-fine
