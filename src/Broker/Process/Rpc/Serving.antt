-- ===== src/Broker/Process/Rpc/Serving.antt =====
-- The legs of a remote call at the end that serves, in src/broker_impl/broker.cc.
use capy_amqp_cpp.Prelude.{
  ℕ, ◌≡◌, ap, ap₂, ◌∙◌, true, some, none, List, [], ◌∷◌, ◌++◌, map, Text, Key, text_key,
}
use capy_amqp_cpp.Error.{Result}
use capy_amqp_cpp.Deferred.{is_good, call_if_set, data_call}
use capy_amqp_cpp.Connections.{new_channel}
use capy_amqp_cpp.Connections.Paired.{own}
use capy_amqp_cpp.Broker.Json.{Json, IsJson}
use capy_amqp_cpp.Broker.Registry.{
  Object, Effect, Command, command, call, start_transaction, commit_transaction, ack,
}
use capy_amqp_cpp.Broker.Registry.Laws.{lookup}
use capy_amqp_cpp.Broker.Listen
use capy_amqp_cpp.Broker.Listen.{Request, Message}
use capy_amqp_cpp.Broker.Listen.Served.{received-served}
use capy_amqp_cpp.Broker.Listen.Releases.{Releases}
use capy_amqp_cpp.Broker.Reply.Delivery.{sent, on_commit-sent}
use capy_amqp_cpp.Broker.Facade.{listening}
use capy_amqp_cpp.Broker.Process.{
  Process, Outcome, listening_to, sending, listen_event, commit, with_listening, committed, step,
}
use capy_amqp_cpp.Broker.Process.Working.{IsWorking, Works-IsWorking}
use capy_amqp_cpp.Broker.Process.Working.Calls.{commit-Works}
use capy_amqp_cpp.Broker.Process.Working.Events.{listen_event-Works}

module _ {ℓ} {K : Type ℓ} ⦃e : Key K⦄ {J : Type 0} (json : Json J) (laws : IsJson json)
    (hash_thread : K → ℕ) (hash : Text → ℕ) where
  -- The message of a request, as the server's listener has it.
  pub request-served :
      (now : ℕ) (thread : K) (id lid name : Text) (message : J) (m : Message) (tag : ℕ)
      (s : Process K) (o : Object)
      → IsWorking hash_thread hash s
      → lookup hash s.impl.listeners lid ≡ some o
      → is_good o.deferred ≡ true
      → m.body ≡ json.to_msgpack message
      → m.reply_to ≡ name
      → m.correlation_id ≡ id
      → (s' : Process K) × (released : List (Effect (Request J))) × (step json hash_thread hash
            (listen_event now thread lid (Listen.received m tag))
            s
          ≡ some (
            s',
            map listening_to (
                command o.channel (ack tag)
                ∷ (released
                    ++ map call (
                        call_if_set o.deferred.data_handler (λ h. data_call h (record {
                          routing_key = m.routing_key;
                          message = message;
                          cid = id;
                          replay_to = name;
                        }))))),
          ))
        × Releases (listening s.impl) (own hash_thread s.impl.connections thread) released
        × IsWorking hash_thread hash s'
  unfolding step
  request-served now thread id lid name message m tag s o w h good body reply_to cid =
      let (l, released, resets, runs, still, releases, reset) =
        received-served json s.impl.exchange_name hash_thread hash now thread lid m tag message
          (listening s.impl) o (ap json.from_msgpack body ∙ laws.from_msgpack-to_msgpack message)
          w.listeners.paired w.listeners.sound h good in
      let asked : Text → Text → Request J =
        λ c r. record { routing_key = m.routing_key; message = message; cid = c; replay_to = r } in
      let s' : Process K = record s {
        impl = record s.impl { connections = l.connections; listeners = l.listeners };
      } in
      let done : Request J → Outcome K J = λ q. some (
        s',
        map listening_to (
            command o.channel (ack tag)
            ∷ (released ++ map call (call_if_set o.deferred.data_handler (λ h'. data_call h' q)))),
      ) in
      let runs' : step json hash_thread hash (listen_event now thread lid (Listen.received m tag)) s
          ≡ done (asked id name) =
        ap (with_listening s) runs ∙ ap done (ap₂ asked cid reply_to) in
      (
        s',
        released,
        runs',
        releases,
        Works-IsWorking hash_thread hash J s
            (step json hash_thread hash (listen_event now thread lid (Listen.received m tag)) s) s'
            _
            (listen_event-Works json hash_thread hash now thread lid (Listen.received m tag) s o w h
              (λ message' q. absurd (cc)))
            runs',
      )

  -- The worker commits its result, in any later state and on any thread.
  pub result-committed :
      (now : ℕ) (thread : K) (id name : Text) (result : Result J) (s : Process K)
      → IsWorking hash_thread hash s
      → (s' : Process K) × (step json hash_thread hash (commit now thread id name result) s
          ≡ some (
            s',
            map (sending (own hash_thread s.impl.connections thread)) (
                start_transaction
                ∷ Command.publish [] name
                    (record {
                      body = json.to_msgpack (sent json laws result);
                      delivery_mode = none;
                      correlation_id = some id;
                      reply_to = none;
                    })
                    []
                ∷ commit_transaction
                ∷ []),
          ))
        × IsWorking hash_thread hash s'
  unfolding step
  result-committed now thread id name result s w =
      let runs = ap (committed s) (
        on_commit-sent json laws hash_thread now thread id name result s.impl.connections
          w.listeners.paired) in
      let c = (new_channel hash_thread now thread s.impl.connections).0 in
      let s' : Process K = record s { impl = record s.impl { connections = c } } in
      (
        s',
        runs,
        Works-IsWorking hash_thread hash J s
            (step json hash_thread hash (commit now thread id name result) s) s' _
            (commit-Works json hash_thread hash now thread id name result s laws w) runs,
      )
