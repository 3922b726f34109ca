-- ===== src/Broker/Tests/Replying.antt =====
-- Tests of replies, of `publish_message` and of `Bind`.
use capy_amqp_cpp.Broker.Bind.{bind, threw, with_defaults}
use capy_amqp_cpp.Broker.Bind.Established.{bind_threw}
use capy_amqp_cpp.Prelude.{is_some, false}
use capy_amqp_cpp.Prelude.{
  ◌≡◌, refl, false, none, some, [], ◌∷◌, ◌++◌, map, codes, nat_key, text_key,
}
use capy_amqp_cpp.Error.{value_of, broker_error, data_response}
use capy_amqp_cpp.Deferred.{call_if_set, data_call, error_call}
use capy_amqp_cpp.Connections.{new_channel}
use capy_amqp_cpp.Connections.Paired.{own}
use capy_amqp_cpp.Broker.Registry.{Registry, Command, call, start_transaction, commit_transaction}
use capy_amqp_cpp.Broker.Registry.Laws.{lookup}
use capy_amqp_cpp.Broker.Fetch.{received, step}
use capy_amqp_cpp.Broker.Reply.{reply_json, on_commit}
use capy_amqp_cpp.Broker.Reply.Delivery.{
  sent, ending_calls, reply_json-sent, on_commit-sent, reply-received, undecodable-received,
}
use capy_amqp_cpp.Broker.Tests.{
  hash, hash_thread, json, json-IsJson, open_fetch, id, fetchers, fetchers-IsSound, fetchers-lookup,
  exchange, open_fetch-good, open_fetch-fine, connections, connections-IsPaired,
}

reply_yes : reply_json json (value_of (codes "yes")) ≡ some (codes "yes")
reply_yes = reply_json-sent json json-IsJson (value_of (codes "yes"))

reply-received_example :
    (r' : Registry) × (step json exchange hash 5 id
        (received (json.to_msgpack (codes "yes")))
        fetchers
      ≡ some (
        r',
        map call (call_if_set open_fetch.deferred.data_handler (λ h. data_call h (codes "yes")))
            ++ ending_calls open_fetch.deferred,
      ))
    × (lookup hash r' id ≡ none)
reply-received_example =
    reply-received json exchange hash 5 id (value_of (codes "yes")) (codes "yes") fetchers
      open_fetch json-IsJson reply_yes fetchers-IsSound fetchers-lookup open_fetch-good
      open_fetch-fine

undecodable-received_example :
    (r' : Registry) × (step json exchange hash 5 id (received []) fetchers
      ≡ some (
        r',
        map call (
              call_if_set open_fetch.deferred.error_handler
                (λ h. error_call h (broker_error data_response (some (codes "end of input")))))
            ++ ending_calls open_fetch.deferred,
      ))
    × (lookup hash r' id ≡ none)
undecodable-received_example =
    undecodable-received json exchange hash 5 id [] (codes "end of input") fetchers open_fetch refl
      fetchers-IsSound fetchers-lookup

on_commit-sent_example :
    on_commit json hash_thread 5 7 id (codes "q") (value_of []) connections
    ≡ some (
      (new_channel hash_thread 5 7 connections).0,
      own hash_thread connections 7,
      start_transaction
          ∷ Command.publish []
              (codes "q")
              (record {
                body = json.to_msgpack (sent json json-IsJson (value_of []));
                delivery_mode = none;
                correlation_id = some id;
                reply_to = none;
              })
              []
          ∷ commit_transaction
          ∷ [],
    )
on_commit-sent_example =
    on_commit-sent json json-IsJson hash_thread 5 7 id (codes "q") (value_of []) connections
      connections-IsPaired

bind_threw_example :
    is_some (
      bind hash_thread connections.objects 5 7 connections.address with_defaults
        (threw (codes "bad option %s")))
    ≡ false
bind_threw_example =
    bind_threw hash_thread hash connections.objects 5 7 connections.address with_defaults
      (codes "bad option %s") 1 refl
