-- ===== src/Broker/Listen/Served.antt =====
-- The requests that a listener of src/broker_impl/broker.cc serves.
use capy_amqp_cpp.Broker.Listen.Kept.{Same-drop_pointer, at_id-same}
use capy_amqp_cpp.Broker.Listen.Releases.{Releases, drop_pointer-Releases, old_deferred-PointsTo}
use capy_amqp_cpp.Broker.Listen.Invariant.Dropping.{connections-drop_pointer}
use capy_amqp_cpp.Prelude.{
  inl, inr, ℕ, ◌≡◌, refl, ap, ◌∙◌, true, none, some, List, [], ◌∷◌, ◌++◌, map, Text, Key, text_key,
}
use capy_amqp_cpp.Error.{BrokerError, broker_error, channel_message}
use capy_amqp_cpp.Error.Laws.{is_error-broker}
use capy_amqp_cpp.Deferred.{
  Deferred, report_data, report_error, is_good, call_if_set, data_call, error_call,
}
use capy_amqp_cpp.Connections.{get_connection, reset_deferred}
use capy_amqp_cpp.Connections.Lost.{assigned, assign_deferred-some, deferred-assigned}
use capy_amqp_cpp.Connections.Paired.{IsPaired, own, get_connection_result}
use capy_amqp_cpp.Broker.Json.{Json, decoded, json_exception}
use capy_amqp_cpp.Broker.Registry.{Object, Effect, command, call, ack, reporting}
use capy_amqp_cpp.Broker.Registry.Laws.{lookup, IsSound}
use capy_amqp_cpp.Broker.Registry.Refines.{alter, at_id-Meets}
use capy_amqp_cpp.Broker.Listen.Owners.{Listening, drop_pointer, with_connections}
use capy_amqp_cpp.Broker.Listen.{
  Request, Message, received, at_listener, old_deferred, resets, step,
}

module _ {ℓ} {K : Type ℓ} ⦃e : Key K⦄ {J : Type 0} (json : Json J) (exchange : Text)
    (hash_thread : K → ℕ) (hash : Text → ℕ) (now : ℕ) (thread : K) (id : Text) where
  at_listener-same :
      (f : Object → Object × List (Effect (Request J))) (s : Listening K) (o : Object)
      → IsSound hash s.listeners
      → lookup hash s.listeners id ≡ some o
      → (f o).0 ≡ o
      → at_listener json exchange hash_thread hash now thread id f s ≡ some (s, (f o).1)
  unfolding at_listener
  at_listener-same f s o w h same =
      rw (at_id-same (Request J) hash now id f s.listeners o w h same) refl

  pub resets-some :
      (s : Listening K)
      → IsPaired hash_thread s.connections
      → IsSound hash s.listeners
      → (s' : Listening K) × (released : List (Effect (Request J))) × (resets json exchange
            hash_thread hash now thread s
          ≡ some (s', released))
        × IsSound hash s'.listeners
        × ((k : Text) → lookup hash s'.listeners k ≡ lookup hash s.listeners k)
        × Releases s (own hash_thread s.connections thread) released
        × ((s'.connections.objects (own hash_thread s.connections thread)).deferred ≡ none)
  unfolding resets reset_deferred
  resets-some s paired w =
      let c = get_connection hash_thread now thread s.connections in
      let n = own hash_thread s.connections thread in
      let old = old_deferred json exchange hash_thread hash now thread s.connections in
      let d = drop_pointer {D = Request J} old (record s { connections = assigned none n c.0 }) in
      let (sound, same) =
        Same-drop_pointer (Request J) hash old (record s { connections = assigned none n c.0 }) w in
      (
        d.0,
        d.1,
        ap (λ x. with_connections old x s)
            (assign_deferred-some none c n
              (get_connection_result hash_thread now thread s.connections paired)),
        sound,
        same,
        elim (drop_pointer-Releases (Request J) old
            (record s { connections = assigned none n c.0 })) [
              | inl q ↦ inl q
              | inr (m, o, p, alive, out, q) ↦ inr (
                m,
                o,
                old_deferred-PointsTo json exchange hash_thread hash now thread s.connections m
                    paired p,
                alive,
                out,
                q,
              )
            ],
        ap (λ x. (x.objects n).deferred)
              (connections-drop_pointer hash_thread hash (Request J) old
                (record s { connections = assigned none n c.0 }))
            ∙ deferred-assigned none n c.0,
      )

  abbrev request_of : Message → J → Request J
  request_of m j = record {
    routing_key = m.routing_key;
    message = j;
    cid = m.correlation_id;
    replay_to = m.reply_to;
  }

  -- If the connections are paired, the registry of listeners is sound and the listener is
  -- registered and has had no error, then a message that the json library decodes is acknowledged
  -- on the channel of the listener, `reset_deferred` is called for the calling thread, and the
  -- data handler, if one is set, is called once with the decoded request: its routing key, its
  -- correlation id and its address for the reply. The connection of the calling thread points to
  -- nothing after that, every registered listener is as it was, and between the acknowledgement
  -- and the data handler nothing is done but, if the connection pointed to a listener that is no
  -- longer registered, the calls of the destructor of that listener.
  pub received-served :
      (m : Message) (tag : ℕ) (j : J) (s : Listening K) (o : Object)
      → json.from_msgpack m.body ≡ decoded j
      → IsPaired hash_thread s.connections
      → IsSound hash s.listeners
      → lookup hash s.listeners id ≡ some o
      → is_good o.deferred ≡ true
      → (s' : Listening K) × (released : List (Effect (Request J))) × (resets json exchange
            hash_thread hash now thread s
          ≡ some (s', released))
        × (step json exchange hash_thread hash now thread id (received m tag) s
            ≡ some (
              s',
              command o.channel (ack tag)
                  ∷ (released
                      ++ map call (
                          call_if_set o.deferred.data_handler (λ h. data_call h (request_of m j)))),
            ))
        × ((k : Text) → lookup hash s'.listeners k ≡ lookup hash s.listeners k)
        × Releases s (own hash_thread s.connections thread) released
        × ((s'.connections.objects (own hash_thread s.connections thread)).deferred ≡ none)
  unfolding step report_data
  received-served m tag j s o h paired w open_ good =
      let (s', released, runs, sound, same, releases, reset) = resets-some s paired w in
      (
        s',
        released,
        runs,
        rw
            (
              at_listener-same (λ o. (o, command o.channel (ack tag) ∷ [])) s o w open_ refl,
              h,
              runs,
              at_listener-same (reporting (report_data (request_of m j))) s' o sound
                  (same id ∙ open_) refl,
              good,
            )
            refl,
        same,
        releases,
        reset,
      )

  report_error-calls :
      (error : BrokerError) (text : Text) (d : Deferred)
      → (report_error {D = Request J} (broker_error error (some text)) d).1
        ≡ call_if_set d.error_handler (λ h. error_call h (broker_error error (some text)))
  unfolding report_error
  report_error-calls error text d = rw (is_error-broker error (some text)) refl

  -- A message that the json library cannot decode, with a `json::exception`, is acknowledged all
  -- the same and reported to the error handler of the registered listener as CHANNEL_MESSAGE with
  -- the text of the exception; no data handler is called, and the connections are as they were.
  -- The registry is taken to be sound.
  pub received-refused :
      (m : Message) (tag : ℕ) (what : Text) (s : Listening K) (o : Object)
      → json.from_msgpack m.body ≡ json_exception what
      → IsSound hash s.listeners
      → lookup hash s.listeners id ≡ some o
      → (s' : Listening K) × (step json exchange hash_thread hash now thread id (received m tag) s
          ≡ some (
            s',
            command o.channel (ack tag)
                ∷ map call (
                    call_if_set o.deferred.error_handler
                      (λ h. error_call h (broker_error channel_message (some what)))),
          ))
        × (s'.connections ≡ s.connections)
  unfolding step at_listener
  received-refused m tag what s o h w open_ =
      let met =
        at_id-Meets hash id now
          (reporting (report_error {D = Request J} (broker_error channel_message (some what))))
          s.listeners o w open_ in
      let es : met.effects
          ≡ map call (
              call_if_set o.deferred.error_handler
                (λ h. error_call h (broker_error channel_message (some what)))) =
        met.made
        ∙ ap
            (λ x.
              (alter
                (reporting
                  (report_error {D = Request J} (broker_error channel_message (some what))))
                x).1)
            open_
        ∙ ap (map call) (report_error-calls channel_message what o.deferred) in
      (
        record s { listeners = met.after },
        rw
            (
              at_id-same (Request J) hash now id (λ o. (o, command o.channel (ack tag) ∷ []))
                  s.listeners o w open_ refl,
              h,
              met.runs,
              es,
            )
            refl,
        refl,
      )
