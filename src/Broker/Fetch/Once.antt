-- ===== src/Broker/Fetch/Once.antt =====
-- The end of a fetch (src/broker_impl/broker.cc): its finalize handler, and what comes after.
use capy_amqp_cpp.Broker.Fetch.Quiet.{
  zero_plus, finals, finals-append, ends, some_ends, Kept, alter-Kept, followed_by-Kept,
  finish-once, error-Kept, report_success-Quiet, report_data-Quiet,
}
use capy_amqp_cpp.Prelude.{
  ℕ, ◌≡◌, refl, ap, ◌∙◌, true, false, none, some, List, [], ◌∷◌, if◌then◌else◌, Text, text_key,
  ◌=?=◌, =?=_iff, append-nil, codes, Bool-cases, inl, inr,
}
use capy_amqp_cpp.Error.{broker_error, publish, queue_declaration, data_response}
use capy_amqp_cpp.Deferred.{report_data, report_success}
use capy_amqp_cpp.Broker.Json.{
  Json, Decoded, decoded, json_exception, std_exception, other_exception,
}
use capy_amqp_cpp.Broker.Registry.Laws.{lookup, IsSound}
use capy_amqp_cpp.Broker.Registry.{Registry, Object, Effect}
use capy_amqp_cpp.Broker.Registry.Refines.{followed_by}
use capy_amqp_cpp.Broker.Fetch.{
  Event, queue_declared, queue_failed, publish_failed, consume_failed, received, consuming,
  received_value,
}
use capy_amqp_cpp.Broker.Fetch.Outcome.{outcome, decoding, delivering, reported}
use capy_amqp_cpp.Broker.Fetch.History.{Entry, outcomes, of_id, run, run-outcomes}

module _ {ℓ} {J : Type ℓ} (json : Json J) (exchange : Text) where
  decoding-Kept : (d : Decoded J) → Kept J (decoding json exchange d)
  decoding-Kept (decoded j) = λ o. (o, refl, refl, refl)
  decoding-Kept (json_exception what) = error-Kept J (broker_error data_response (some what))
  decoding-Kept (std_exception what) = error-Kept J (broker_error data_response (some what))
  decoding-Kept other_exception =
      error-Kept J (broker_error data_response (some (codes "unknown error")))

  pub outcome-Kept :
      (id : Text) (ev : Event J) → ends ev ≡ false → Kept J (outcome json exchange id ev)
  outcome-Kept id (queue_declared n m k) h = λ o. (o, refl, refl, refl)
  outcome-Kept id (queue_failed m) h = absurd (cc)
  outcome-Kept id (publish_failed m) h = error-Kept J (broker_error publish (some m))
  outcome-Kept id (consume_failed m) h = absurd (cc)
  outcome-Kept id (received body) h = absurd (cc)
  outcome-Kept id consuming h = alter-Kept J report_success (report_success-Quiet J)

  pub outcome-once :
      (id : Text) (ev : Event J) (o : Object) (h : ℕ)
      → ends ev ≡ true
      → o.deferred.finalize_handler ≡ some h
      → ((outcome json exchange id ev (some o)).0 ≡ none)
        × (finals (outcome json exchange id ev (some o)).1 ≡ 1)
  outcome-once id (queue_declared n m k) o h e f = absurd (cc)
  outcome-once id (queue_failed m) o h e f =
      finish-once J (reported json exchange (broker_error queue_declaration (some m))) o h
        (error-Kept J (broker_error queue_declaration (some m))) f
  outcome-once id (publish_failed m) o h e f = absurd (cc)
  outcome-once id (consume_failed m) o h e f =
      finish-once J (reported json exchange (broker_error data_response (some m))) o h
        (error-Kept J (broker_error data_response (some m))) f
  outcome-once id consuming o h e f = absurd (cc)
  outcome-once id (received body) o h e f =
      let d = json.from_msgpack body in
      finish-once J (followed_by (decoding json exchange d) (delivering json exchange d)) o h
        (followed_by-Kept J (decoding json exchange d) (delivering json exchange d)
          (decoding-Kept d)
          (alter-Kept J (report_data (received_value json d))
            (report_data-Quiet J (received_value json d))))
        f

  decoding-none : (d : Decoded J) → decoding json exchange d none ≡ (none, [])
  decoding-none (decoded j) = refl
  decoding-none (json_exception what) = refl
  decoding-none (std_exception what) = refl
  decoding-none other_exception = refl

  -- Nothing happens to a fetch that is over.
  outcome-none : (id : Text) (ev : Event J) → outcome json exchange id ev none ≡ (none, [])
  outcome-none id (queue_declared n m k) = refl
  outcome-none id (queue_failed m) = refl
  outcome-none id (publish_failed m) = refl
  outcome-none id (consume_failed m) = refl
  outcome-none id consuming = refl
  outcome-none id (received body) = rw (decoding-none (json.from_msgpack body)) refl

  module _ (hash : Text → ℕ) (id : Text) where
    pub outcomes-none : (xs : List (Entry J)) → outcomes json exchange hash id xs none ≡ (none, [])
    outcomes-none [] = refl
    outcomes-none (x ∷ xs) = elim (Bool-cases (x.id =?= id)) [
      | inl q ↦ rw (q, outcome-none id x.event, outcomes-none xs) refl
      | inr q ↦ rw q (outcomes-none xs)
    ]

    pub finals-outcomes :
        (xs : List (Entry J)) (o : Object) (h : ℕ)
        → o.deferred.finalize_handler ≡ some h
        → finals (outcomes json exchange hash id xs (some o)).1 ≡ (if some_ends id xs then 1 else 0)
    finals-outcomes [] o h e = refl
    finals-outcomes (x ∷ xs) o h e = elim (Bool-cases (x.id =?= id)) [
      | inr q ↦ rw (q, finals-outcomes xs o h e) refl
      | inl q ↦ elim (Bool-cases (ends x.event)) [
        | inl t ↦
            let (gone, one) = outcome-once id x.event o h t e in
            rw (q, t, finals-append, gone, outcomes-none xs, one) refl
        | inr t ↦
            let (o', kept, same, zero_) = outcome-Kept id x.event t o in
            rw (q, t, finals-append, kept, zero_) (zero_plus _ ∙ finals-outcomes xs o' h (same ∙ e))
      ]
    ]

    pub silent-outcomes :
        (x : Entry J) (xs : List (Entry J)) (o : Object) (h : ℕ)
        → x.id ≡ id
        → ends x.event ≡ true
        → o.deferred.finalize_handler ≡ some h
        → outcomes json exchange hash id (x ∷ xs) (some o)
          ≡ (none, (outcome json exchange id x.event (some o)).1)
    silent-outcomes x xs o h p t e =
        let (gone, one) = outcome-once id x.event o h t e in
        let q : (x.id =?= id) ≡ true = (=?=_iff x.id id).1 p in
        rw (q, gone, outcomes-none xs, append-nil) refl

    -- In any history of callbacks of any fetches from a sound registry, a fetch that is open and
    -- has a finalize handler calls a finalize handler exactly once if one of its callbacks ends it
    -- (its queue fails, its consumer fails, or a reply comes), and never otherwise.
    pub run-finalizes :
        (xs : List (Entry J)) (r : Registry) (o : Object) (h : ℕ)
        → IsSound hash r
        → lookup hash r id ≡ some o
        → o.deferred.finalize_handler ≡ some h
        → (r' : Registry) × (es : List (Text × Effect J)) × (run json exchange hash xs r
            ≡ some (r', es))
          × (finals (of_id json exchange hash id es) ≡ (if some_ends id xs then 1 else 0))
    run-finalizes xs r o h w open_ e =
        let (r', es, runs, sound, at) = run-outcomes json exchange hash xs r w in
        (
          r',
          es,
          runs,
          ap finals (at id).1
              ∙ ap (λ x. finals (outcomes json exchange hash id xs x).1) open_
              ∙ finals-outcomes xs o h e,
        )
