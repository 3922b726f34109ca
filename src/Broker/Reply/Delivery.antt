-- ===== src/Broker/Reply/Delivery.antt =====
-- A reply on its way from the commit handler of a listener to the data handler of a fetch, both in
-- src/broker_impl/broker.cc.
use capy_amqp_cpp.Prelude.{
  append-nil, ℕ, ◌≡◌, refl, ap, ◌∙◌, true, false, none, some, List, [], ◌∷◌, ◌++◌, map,
  if◌then◌else◌, Text, codes, Key, Bool-cases, inl, inr,
}
use capy_amqp_cpp.Error.{
  ok_error, is_error, value, message, Result, value_of, unexpected, broker_code, broker_error,
  empty_replay, data_response,
}
use capy_amqp_cpp.Deferred.{
  Deferred, data_call, error_call, finalize_call, call_if_set, report_data, report_error, is_good,
  destroy,
}
use capy_amqp_cpp.Connections.{ConnectionCache, new_channel}
use capy_amqp_cpp.Connections.Paired.{IsPaired, own, new_channel_result}
use capy_amqp_cpp.Broker.Json.{Json, IsJson, json_exception}
use capy_amqp_cpp.Broker.Registry.Laws.{lookup, IsSound}
use capy_amqp_cpp.Broker.Registry.{
  Registry, Object, Effect, Command, call, start_transaction, commit_transaction,
}
use capy_amqp_cpp.Broker.Reply.{reply_json, on_commit}
use capy_amqp_cpp.Broker.Fetch.{received, step}
use capy_amqp_cpp.Broker.Fetch.Outcome.{outcome, step-outcome}

-- The calls at the end of a fetch.
abbrev pub ending_calls {ℓ} : {J : Type ℓ} → Deferred → List (Effect J)
ending_calls d = map call (call_if_set d.finalize_handler finalize_call)

module _ {ℓ} {J : Type ℓ} (json : Json J) (laws : IsJson json) where
  -- An error, as a worker is told of it: its code and its text under "error".
  abbrev pub error_answer : ℕ → Text → J
  error_answer code text = json.array (
      json.string (codes "error")
      ∷ json.object ((codes "code", json.number code) ∷ (codes "message", json.string text) ∷ [])
      ∷ [])

  -- What is sent for each kind of message.
  abbrev pub sent : Result J → J
  sent (unexpected e) = error_answer (value e) (message e)
  sent (value_of v) =
      if json.is_empty v
      then error_answer (broker_code empty_replay) (codes "worker replay is empty")
      else v

  pub reply_json-sent : (m : Result J) → reply_json json m ≡ some (sent m)
  unfolding reply_json
  reply_json-sent (unexpected e) = rw laws.is_empty-array refl
  reply_json-sent (value_of v) = elim (Bool-cases (json.is_empty v)) [
    | inl q ↦ rw (q, laws.is_empty-array) refl
    | inr q ↦ rw (q, laws.is_empty-null) refl
  ]

  pub sent_nonempty : (m : Result J) → json.is_empty (sent m) ≡ false
  sent_nonempty (unexpected e) = rw laws.is_empty-array refl
  sent_nonempty (value_of v) = elim (Bool-cases (json.is_empty v)) [
    | inl q ↦ rw (q, laws.is_empty-array) refl
    | inr q ↦ rw (q, q) refl
  ]

  module _ {κ} {K : Type κ} ⦃e : Key K⦄ (hash : K → ℕ) where
    -- In paired connections, the commit handler of a replay sends one message in a transaction to
    -- the address that the request named, with its correlation id, on the connection of the
    -- calling thread: the message of the replay if it is a value that is not empty, an error
    -- object with EMPTY_REPLAY if it is empty, and one with the code and the text of the error if
    -- it is an error. The json library is taken to find an array with an element not empty and the
    -- null value empty.
    pub on_commit-sent :
        (now : ℕ) (thread : K) (cid replay_to : Text) (m : Result J) (c : ConnectionCache K)
        → IsPaired hash c
        → on_commit json hash now thread cid replay_to m c
          ≡ some (
            (new_channel hash now thread c).0,
            own hash c thread,
            start_transaction
                ∷ Command.publish [] replay_to
                    (record {
                      body = json.to_msgpack (sent m);
                      delivery_mode = none;
                      correlation_id = some cid;
                      reply_to = none;
                    })
                    []
                ∷ commit_transaction
                ∷ [],
          )
    unfolding on_commit
    on_commit-sent now thread cid replay_to m c w =
        rw (reply_json-sent m, new_channel_result hash now thread c w) refl

  pub received-sent :
      (exchange id : Text) (m : Result J) (o : Object)
      → is_good o.deferred ≡ true
      → is_error o.deferred.error ≡ false
      → outcome json exchange id (received (json.to_msgpack (sent m))) (some o) ≡ (
        none,
        map call (call_if_set o.deferred.data_handler (λ h. data_call h (sent m)))
            ++ ending_calls o.deferred,
      )
  unfolding report_data destroy
  received-sent exchange id m o good fine =
      rw (laws.from_msgpack-to_msgpack (sent m), good, fine) refl

module _ {ℓ} {J : Type ℓ} (json : Json J) where
  pub received-undecodable :
      (exchange id body what : Text) (o : Object)
      → json.from_msgpack body ≡ json_exception what
      → outcome json exchange id (received body) (some o) ≡ (
        none,
        map call (
              call_if_set o.deferred.error_handler
                (λ h. error_call h (broker_error data_response (some what))))
            ++ ending_calls o.deferred,
      )
  unfolding report_error report_data is_good destroy is_error ok_error broker_error
  received-undecodable exchange id body what o h = rw (h, append-nil) refl

module _ {ℓ} {J : Type ℓ} (json : Json J) (exchange : Text) (hash : Text → ℕ) (now : ℕ)
    (id : Text) where
  -- The reply that a commit handler makes of a message, received by a fetch that is open in a
  -- sound registry and has had no error, is given to the data handler of the fetch, if one is set;
  -- its finalize handler is called next, and the fetch is over. The json library is taken to
  -- decode what it encodes.
  pub reply-received :
      (m : Result J) (j : J) (r : Registry) (o : Object)
      → IsJson json
      → reply_json json m ≡ some j
      → IsSound hash r
      → lookup hash r id ≡ some o
      → is_good o.deferred ≡ true
      → is_error o.deferred.error ≡ false
      → (r' : Registry) × (step json exchange hash now id (received (json.to_msgpack j)) r
          ≡ some (
            r',
            map call (call_if_set o.deferred.data_handler (λ h. data_call h j))
                ++ ending_calls o.deferred,
          ))
        × (lookup hash r' id ≡ none)
  reply-received m j r o laws h w open_ good fine =
      let same : j ≡ sent json laws m = cc (h, reply_json-sent json laws m) in
      let met = step-outcome json exchange hash now id (received (json.to_msgpack j)) r w in
      let e : outcome json exchange id (received (json.to_msgpack j)) (lookup hash r id) ≡ (
        none,
        map call (call_if_set o.deferred.data_handler (λ h. data_call h j))
            ++ ending_calls o.deferred,
      ) =
        rw (open_, same) (received-sent json laws exchange id m o good fine) in
      (
        met.after,
        met.runs ∙ ap (λ es. some (met.after, es)) (met.made ∙ ap (λ x. x.1) e),
        met.here ∙ ap (λ x. x.0) e,
      )

  -- A reply that the json library cannot decode, with a `json::exception`, is reported to the
  -- error handler of the open fetch as DATA_RESPONSE with the text of the exception; its data
  -- handler is not called, its finalize handler is, and the fetch is over. The registry is taken
  -- to be sound.
  pub undecodable-received :
      (body what : Text) (r : Registry) (o : Object)
      → json.from_msgpack body ≡ json_exception what
      → IsSound hash r
      → lookup hash r id ≡ some o
      → (r' : Registry) × (step json exchange hash now id (received body) r
          ≡ some (
            r',
            map call (
                  call_if_set o.deferred.error_handler
                    (λ h. error_call h (broker_error data_response (some what))))
                ++ ending_calls o.deferred,
          ))
        × (lookup hash r' id ≡ none)
  undecodable-received body what r o h w open_ =
      let met = step-outcome json exchange hash now id (received body) r w in
      let e : outcome json exchange id (received body) (lookup hash r id) ≡ (
        none,
        map call (
              call_if_set o.deferred.error_handler
                (λ h. error_call h (broker_error data_response (some what))))
            ++ ending_calls o.deferred,
      ) =
        rw open_ (received-undecodable json exchange id body what o h) in
      (
        met.after,
        met.runs ∙ ap (λ es. some (met.after, es)) (met.made ∙ ap (λ x. x.1) e),
        met.here ∙ ap (λ x. x.0) e,
      )
