-- ===== src/Broker/Process/Rpc.antt =====
-- A remote call from the client that makes it to the client that has the answer, through
-- src/broker_impl/broker.cc at both ends.
pub mod Calling
pub mod Serving
use Calling.{request-made, request-sent, answer-received}
use Serving.{request-served, result-committed}
use capy_amqp_cpp.Prelude.{
  Bool, ◌<◌, ℕ, ◌≡◌, refl, sym, ap, ap₂, ◌∙◌, subst, true, false, some, none, List, [], ◌∷◌, ◌++◌,
  map, Text, Key, text_key,
}
use capy_amqp_cpp.Error.{Result, is_error}
use capy_amqp_cpp.Deferred.{is_good, call_if_set, data_call}
use capy_amqp_cpp.Connections.{new_channel}
use capy_amqp_cpp.Connections.Paired.{own}
use capy_amqp_cpp.Broker.Json.{Json, IsJson}
use capy_amqp_cpp.Broker.Registry.{
  Object, Effect, Command, command, call, start_transaction, commit_transaction, consume,
  autodelete, mandatory, noack, ack, at_id, declare_queue, exclusive,
}
use capy_amqp_cpp.Broker.Registry.Laws.{lookup, if_has-open}
use capy_amqp_cpp.Broker.Fetch
use capy_amqp_cpp.Broker.Ids.{print}
use capy_amqp_cpp.Broker.Fetch.{fresh_object}
use capy_amqp_cpp.Broker.Listen
use capy_amqp_cpp.Broker.Listen.{Request, Message}
use capy_amqp_cpp.Broker.Listen.Kept.{at_id-same}
use capy_amqp_cpp.Broker.Listen.Served.{received-served}
use capy_amqp_cpp.Broker.Listen.Releases.{Releases}
use capy_amqp_cpp.Broker.Reply.Delivery.{
  sent, ending_calls, reply_json-sent, on_commit-sent, reply-received,
}
use capy_amqp_cpp.Broker.Facade.{listening}
use capy_amqp_cpp.Broker.Process.{
  Process, Outcome, fetch, leaving, fetching, listening_to, sending, fetch_event, listen_event,
  commit, with_fetchers, with_listening, committed, step,
}
use capy_amqp_cpp.Broker.Process.Working.{IsWorking, Works-IsWorking}
use capy_amqp_cpp.Broker.Process.Working.Calls.{commit-Works}
use capy_amqp_cpp.Broker.Process.Working.Events.{fetch_event-Works, listen_event-Works}

module _ {ℓ} {K : Type ℓ} ⦃e : Key K⦄ {J : Type 0} (json : Json J) (laws : IsJson json)
    (hash_thread : K → ℕ) (hash : Text → ℕ) where
  -- A remote call is answered, over brokers at work at all ends and in any states between its
  -- legs. `fetch`, with the counter of ids below the largest `int`, registers a fetch under the
  -- decimal digits of the counter, asks for an exclusive queue on the connection of the calling
  -- thread and leaves a callback. That callback, called with the name of the queue while the fetch
  -- is open, sends one persistent message in a transaction, to the exchange of the broker under
  -- the routing key that `fetch` was given: the message that `fetch` was given, with the id and
  -- with the name of the queue for the reply; then it consumes from the queue. A message with that
  -- body, that id and that address, received by a registered listener that has had no error, is
  -- acknowledged and given to the data handler of the listener with that id and that address;
  -- between the two nothing is done but, if the connection of the thread pointed to a listener
  -- that is no longer registered, the calls of the destructor of that listener. The commit of a
  -- result for it, on any thread, sends one message in a transaction to the queue, with that id:
  -- the value, or an error object with the code and the text of the error, or with EMPTY_REPLAY
  -- for an empty value. That body, received by the fetch while it is open and has had no error,
  -- goes to its data handler, the finalize handler is called, and the fetch is over. The invariant
  -- of a broker at work holds after each leg. The json library is taken to decode what it encodes,
  -- and to find an array with an element not empty and the null value empty.
  pub rpc-answered :
      (t0 t1 t2 t3 t4 : ℕ) (caller worker committer : K) (indeterminate : Bool)
      (lid name routing_key : Text) (message : J) (m : Message) (tag : ℕ) (result : Result J)
      (calling asking answering server replying : Process K) (o o' listener : Object)
      → IsWorking hash_thread hash calling
      → calling.counter < 2147483647
      → IsWorking hash_thread hash asking
      → lookup hash asking.impl.fetchers (print calling.counter) ≡ some o
      → IsWorking hash_thread hash server
      → lookup hash server.impl.listeners lid ≡ some listener
      → is_good listener.deferred ≡ true
      → m.body ≡ json.to_msgpack message
      → m.reply_to ≡ name
      → m.correlation_id ≡ print calling.counter
      → IsWorking hash_thread hash replying
      → IsWorking hash_thread hash answering
      → lookup hash answering.impl.fetchers (print calling.counter) ≡ some o'
      → is_good o'.deferred ≡ true
      → is_error o'.deferred.error ≡ false
      → (called server' replying' answering' : Process K) × (on_declared : Text → Fetch.Event J)
        × (released : List (Effect (Request J))) × (step json hash_thread hash
              (fetch t0 caller message routing_key indeterminate)
              calling
            ≡ some (
              called,
              map fetching (
                    command
                      (own hash_thread calling.impl.connections caller)
                      (declare_queue [] (exclusive ∷ autodelete ∷ []))
                    ∷ [])
                  ++ leaving (print calling.counter) on_declared ∷ [],
            ))
        × (lookup hash called.impl.fetchers (print calling.counter)
            ≡ some (fresh_object indeterminate (own hash_thread calling.impl.connections caller)))
        × (step json hash_thread hash
              (fetch_event t1 (print calling.counter) (on_declared name))
              asking
            ≡ some (
              asking,
              map fetching (
                  map (command o.channel) (
                    start_transaction
                    ∷ Command.publish asking.impl.exchange_name routing_key
                        (record {
                          body = json.to_msgpack message;
                          delivery_mode = some 2;
                          correlation_id = some (print calling.counter);
                          reply_to = some name;
                        })
                        (autodelete ∷ mandatory ∷ [])
                    ∷ commit_transaction
                    ∷ consume name (noack ∷ [])
                    ∷ [])),
            ))
        × (step json hash_thread hash (listen_event t2 worker lid (Listen.received m tag)) server
            ≡ some (
              server',
              map listening_to (
                  command listener.channel (ack tag)
                  ∷ (released
                      ++ map call (
                          call_if_set listener.deferred.data_handler (λ h. data_call h (record {
                            routing_key = m.routing_key;
                            message = message;
                            cid = print calling.counter;
                            replay_to = name;
                          }))))),
            ))
        × Releases (listening server.impl) (own hash_thread server.impl.connections worker) released
        × (step json hash_thread hash
              (commit t3 committer (print calling.counter) name result)
              replying
            ≡ some (
              replying',
              map (sending (own hash_thread replying.impl.connections committer)) (
                  start_transaction
                  ∷ Command.publish [] name
                      (record {
                        body = json.to_msgpack (sent json laws result);
                        delivery_mode = none;
                        correlation_id = some (print calling.counter);
                        reply_to = none;
                      })
                      []
                  ∷ commit_transaction
                  ∷ []),
            ))
        × (step json hash_thread hash
              (fetch_event t4
                (print calling.counter)
                (Fetch.received (json.to_msgpack (sent json laws result))))
              answering
            ≡ some (
              answering',
              map fetching (
                  map call (
                    call_if_set o'.deferred.data_handler (λ h. data_call h (sent json laws result)))
                  ++ ending_calls o'.deferred),
            ))
        × (lookup hash answering'.impl.fetchers (print calling.counter) ≡ none)
        × IsWorking hash_thread hash called
        × IsWorking hash_thread hash server'
        × IsWorking hash_thread hash replying'
        × IsWorking hash_thread hash answering'
  rpc-answered t0 t1 t2 t3 t4 caller worker committer indeterminate lid name routing_key message m
        tag result calling asking answering server replying o o' listener wc small wa open_ ws
        registered good body reply_to cid wr wn waiting ready fine =
      let id = print calling.counter in
      let (called, on_declared, made, declared, present, wc') =
        request-made json laws hash_thread hash t0 caller message routing_key indeterminate calling
          wc small in
      let (server', released, served, releases, ws') =
        request-served json laws hash_thread hash t2 worker id lid name message m tag server
          listener ws registered good body reply_to cid in
      let (replying', replied, wr') =
        result-committed json laws hash_thread hash t3 committer id name result replying wr in
      let (answering', answered, over, wn') =
        answer-received json laws hash_thread hash t4 id result answering o' wn waiting ready
          fine in
      (
        called,
        server',
        replying',
        answering',
        on_declared,
        released,
        made,
        present,
        ap (λ ev. step json hash_thread hash (fetch_event t1 id ev) asking) (declared name)
            ∙ request-sent json laws hash_thread hash t1 id name routing_key message asking o wa
                open_,
        served,
        releases,
        replied,
        answered,
        over,
        wc',
        ws',
        wr',
        wn',
      )
