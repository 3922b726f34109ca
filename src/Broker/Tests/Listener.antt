-- ===== src/Broker/Tests/Listener.antt =====
-- Tests of the listener: the properties at one listener.
use capy_amqp_cpp.Prelude.{
  ℕ, ◌≡◌, refl, none, some, List, [], ◌∷◌, ◌++◌, map, Text, codes, nat_key, text_key,
}
use capy_amqp_cpp.Error.{broker_error}
use capy_amqp_cpp.Deferred.{call_if_set, data_call, error_call}
use capy_amqp_cpp.Broker.Registry.{Effect, command, call}
use capy_amqp_cpp.Broker.Registry.Laws.{lookup}
use capy_amqp_cpp.Error.{channel_message}
use capy_amqp_cpp.Broker.Registry.{ack}
use capy_amqp_cpp.Broker.Listen
use capy_amqp_cpp.Broker.Listen.{
  Request, Message, binding_failed, resets, at_listener, on_consume_failed, del_listener,
}
use capy_amqp_cpp.Connections.Paired.{own}
use capy_amqp_cpp.Broker.Listen.Releases.{Releases}
use capy_amqp_cpp.Broker.Listen.Owners.{Listening}
use capy_amqp_cpp.Broker.Listen.Served.{received-served, received-refused}
use capy_amqp_cpp.Broker.Listen.Requests.{on_binding_failed-undefined}
use capy_amqp_cpp.Broker.Tests.{
  json, hash, hash_thread, exchange, id, connections, open_fetch, fetchers, connections-IsPaired,
  fetchers-IsSound, fetchers-lookup, open_fetch-good,
}

-- A listener with a data handler and an error handler.
abbrev listening : Listening ℕ
listening = record { connections = connections; listeners = fetchers }

abbrev good_message : Message
good_message = record {
  body = 1 ∷ codes "ping";
  reply_to = codes "q";
  routing_key = codes "key";
  correlation_id = codes "9";
}

abbrev bad_message : Message
bad_message = record good_message { body = [] }

received-served_example :
    (s' : Listening ℕ) × (released : List (Effect (Request Text))) × (resets json exchange
        hash_thread hash 5 7 listening
      ≡ some (s', released))
    × (Listen.step json exchange hash_thread hash 5 7 id (Listen.received good_message 4) listening
        ≡ some (
          s',
          command 0 (ack 4)
              ∷ (released
                  ++ map call (
                      call_if_set (some 1) (λ h. data_call h (record {
                        routing_key = codes "key";
                        message = codes "ping";
                        cid = codes "9";
                        replay_to = codes "q";
                      })))),
        ))
    × ((k : Text) → lookup hash s'.listeners k ≡ lookup hash fetchers k)
    × Releases listening (own hash_thread connections 7) released
    × ((s'.connections.objects (own hash_thread connections 7)).deferred ≡ none)
received-served_example =
    received-served json exchange hash_thread hash 5 7 id good_message 4 (codes "ping") listening
      open_fetch refl connections-IsPaired fetchers-IsSound fetchers-lookup open_fetch-good

received-refused_example :
    (s' : Listening ℕ) × (Listen.step json exchange hash_thread hash 5 7 id
        (Listen.received bad_message 4)
        listening
      ≡ some (
        s',
        command 0 (ack 4)
            ∷ map call (
                call_if_set
                  (some 2)
                  (λ h. error_call h (broker_error channel_message (some (codes "end of input"))))),
      ))
    × (s'.connections ≡ connections)
received-refused_example =
    received-refused json exchange hash_thread hash 5 7 id bad_message 4 (codes "end of input")
      listening open_fetch refl fetchers-IsSound fetchers-lookup

on_binding_failed-undefined_example :
    Listen.step json exchange hash_thread hash 5 7 id (binding_failed (codes "NOT_FOUND")) listening
    ≡ none
on_binding_failed-undefined_example =
    on_binding_failed-undefined json exchange hash_thread hash 5 7 id (codes "NOT_FOUND") listening
