-- ===== src/Broker/Process/Rpc/Calling.antt =====
-- The legs of a remote call at the end that calls, in src/broker_impl/broker.cc.
use capy_amqp_cpp.Prelude.{
  sym, Bool, ◌<◌, ℕ, ◌≡◌, refl, ap, ap₂, ◌∙◌, true, false, some, none, List, [], ◌∷◌, ◌++◌, map,
  Text, Key, text_key,
}
use capy_amqp_cpp.Error.{Result, is_error}
use capy_amqp_cpp.Deferred.{is_good, call_if_set, data_call}
use capy_amqp_cpp.Connections.Paired.{own}
use capy_amqp_cpp.Broker.Json.{Json, IsJson}
use capy_amqp_cpp.Broker.Registry.{
  Object, Effect, Command, command, call, start_transaction, commit_transaction, consume,
  autodelete, mandatory, noack, at_id, declare_queue, exclusive,
}
use capy_amqp_cpp.Broker.Registry.Laws.{lookup, if_has-open}
use capy_amqp_cpp.Broker.Fetch
use capy_amqp_cpp.Broker.Ids.{print}
use capy_amqp_cpp.Broker.Fetch.{request, fresh_object}
use capy_amqp_cpp.Broker.Fetch.Start.{fetch_message-starts}
use capy_amqp_cpp.Broker.Facade
use capy_amqp_cpp.Broker.Listen.Kept.{at_id-same}
use capy_amqp_cpp.Broker.Reply.Delivery.{sent, ending_calls, reply_json-sent, reply-received}
use capy_amqp_cpp.Broker.Facade.{listening, make_broker, fetched}
use capy_amqp_cpp.Broker.Process.{
  Process, Deed, fetch, leaving, fetch_called, fetching, fetch_event, with_fetchers, step,
}
use capy_amqp_cpp.Broker.Process.Working.{IsWorking, Works-IsWorking}
use capy_amqp_cpp.Broker.Process.Working.Calls.{fetch-Works}
use capy_amqp_cpp.Broker.Process.Working.Events.{fetch_event-Works}

module _ {ℓ} {K : Type ℓ} ⦃e : Key K⦄ {J : Type 0} (json : Json J) (laws : IsJson json)
    (hash_thread : K → ℕ) (hash : Text → ℕ) where
  -- The call registers the fetch, asks for its queue and leaves the callback for it.
  pub request-made :
      (now : ℕ) (thread : K) (message : J) (routing_key : Text) (indeterminate : Bool)
      (s : Process K)
      → IsWorking hash_thread hash s
      → s.counter < 2147483647
      → (s' : Process K) × (on_declared : Text → Fetch.Event J) × (step json hash_thread hash
            (fetch now thread message routing_key indeterminate)
            s
          ≡ some (
            s',
            map fetching (
                  command
                    (own hash_thread s.impl.connections thread)
                    (declare_queue [] (exclusive ∷ autodelete ∷ []))
                  ∷ [])
                ++ leaving (print s.counter) on_declared ∷ [],
          ))
        × ((name : Text) → on_declared name ≡ Fetch.queue_declared name message routing_key)
        × (lookup hash s'.impl.fetchers (print s.counter)
            ≡ some (fresh_object indeterminate (own hash_thread s.impl.connections thread)))
        × IsWorking hash_thread hash s'
  unfolding step Facade.fetch make_broker
  request-made now thread message routing_key indeterminate s w small =
      let (
        f, runs, paired, sound, num, reached, absent, present, others, effects, id, next, channel,
        declared,
      ) =
        fetch_message-starts J hash_thread hash now s.counter message routing_key indeterminate
          thread s.impl.connections s.impl.fetchers w.listeners.paired w.fetchers w.fetch_ids
          w.fetch_reached small in
      let s' : Process K = record {
        impl = record s.impl { connections = f.connections; fetchers = f.fetchers };
        counter = f.counter;
      } in
      let deeds : Text → List (Effect J) → List (Deed J) =
        λ i es. map fetching es ++ leaving i f.on_declared ∷ [] in
      let runs' : step json hash_thread hash (fetch now thread message routing_key indeterminate) s
          ≡ some (
            s',
            deeds (print s.counter) (
                command (own hash_thread s.impl.connections thread)
                  (declare_queue [] (exclusive ∷ autodelete ∷ []))
                ∷ []),
          ) =
        ap (λ x. fetch_called (fetched s.impl x)) runs
        ∙ ap (λ x. some (s', x)) (ap₂ deeds id effects) in
      (
        s',
        f.on_declared,
        runs',
        declared,
        ap (lookup hash f.fetchers) (sym id) ∙ present,
        Works-IsWorking hash_thread hash J s
            (step json hash_thread hash (fetch now thread message routing_key indeterminate) s) s' _
            (fetch-Works json hash_thread hash now thread message routing_key indeterminate s w
              small)
            runs',
      )

  -- The request goes out, and the fetch waits.
  pub request-sent :
      (now : ℕ) (id name routing_key : Text) (message : J) (s : Process K) (o : Object)
      → IsWorking hash_thread hash s
      → lookup hash s.impl.fetchers id ≡ some o
      → step json hash_thread hash
          (fetch_event now id (Fetch.queue_declared name message routing_key))
          s
        ≡ some (
          s,
          map fetching (
              map (command o.channel) (
                start_transaction
                ∷ Command.publish s.impl.exchange_name routing_key
                    (record {
                      body = json.to_msgpack message;
                      delivery_mode = some 2;
                      correlation_id = some id;
                      reply_to = some name;
                    })
                    (autodelete ∷ mandatory ∷ [])
                ∷ commit_transaction
                ∷ consume name (noack ∷ [])
                ∷ [])),
        )
  unfolding step Fetch.step request
  request-sent now id name routing_key message s o w h =
      let f : Object → Object × List (Effect J) = λ x. (
        x,
        map (command x.channel) (
            start_transaction
            ∷ Command.publish s.impl.exchange_name routing_key (request json id name message)
                (autodelete ∷ mandatory ∷ [])
            ∷ commit_transaction
            ∷ consume name (noack ∷ [])
            ∷ []),
      ) in
      ap (with_fetchers s) (
        if_has-open hash now id (at_id hash now id f) s.impl.fetchers o w.fetchers h
        ∙ at_id-same J hash now id f s.impl.fetchers o w.fetchers h refl)

  -- The answer comes back, and the fetch is over.
  pub answer-received :
      (now : ℕ) (id : Text) (result : Result J) (s : Process K) (o : Object)
      → IsWorking hash_thread hash s
      → lookup hash s.impl.fetchers id ≡ some o
      → is_good o.deferred ≡ true
      → is_error o.deferred.error ≡ false
      → (s' : Process K) × (step json hash_thread hash
            (fetch_event now id (Fetch.received (json.to_msgpack (sent json laws result))))
            s
          ≡ some (
            s',
            map fetching (
                map call
                  (call_if_set o.deferred.data_handler (λ h. data_call h (sent json laws result)))
                ++ ending_calls o.deferred),
          ))
        × (lookup hash s'.impl.fetchers id ≡ none)
        × IsWorking hash_thread hash s'
  unfolding step
  answer-received now id result s o w h good fine =
      let event = Fetch.received (json.to_msgpack (sent json laws result)) in
      let (r, runs, over) =
        reply-received json s.impl.exchange_name hash now id result (sent json laws result)
          s.impl.fetchers o laws (reply_json-sent json laws result) w.fetchers h good fine in
      let s' : Process K = record s { impl = record s.impl { fetchers = r } } in
      (
        s',
        ap (with_fetchers s) runs,
        over,
        Works-IsWorking hash_thread hash J s
            (step json hash_thread hash (fetch_event now id event) s) s' _
            (fetch_event-Works json hash_thread hash now id event s w) (ap (with_fetchers s) runs),
      )
