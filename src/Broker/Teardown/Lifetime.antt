-- ===== src/Broker/Teardown/Lifetime.antt =====
-- A fetch from its start to the destructor of the broker (src/broker_impl/broker.cc).
use capy_amqp_cpp.Prelude.{
  ℕ, ◌+◌, ◌≡◌, refl, ap, ◌∙◌, subst, none, some, List, [], ◌∷◌, map, Text, text_key, ◌=?=◌,
  Bool-cases, inl, inr,
}
use capy_amqp_cpp.Deferred.{destroy}
use capy_amqp_cpp.Broker.Json.{Json}
use capy_amqp_cpp.Broker.Registry.{Registry, Object, Effect, call}
use capy_amqp_cpp.Broker.Registry.Laws.{lookup, lookup-some, IsSound}
use capy_amqp_cpp.Broker.Registry.Reachable.{AllReached}
use capy_amqp_cpp.Broker.Registry.Refines.{finish}
use capy_amqp_cpp.Broker.Fetch.Outcome.{step-outcome}
use capy_amqp_cpp.Broker.Fetch.History.{Entry, outcomes, of_id, run, run-outcomes}
use capy_amqp_cpp.Broker.Fetch.Quiet.{zero_plus, finals, finals-append, finals-destroy, ends}
use capy_amqp_cpp.Broker.Fetch.Once.{outcome-Kept, outcome-once, outcomes-none}
use capy_amqp_cpp.Broker.Teardown.{destroy_fetchers}
use capy_amqp_cpp.Broker.Teardown.Released.{Part}
use capy_amqp_cpp.Broker.Teardown.Fetches.{destroy_fetchers-none, destroy_fetchers-effects}

module _ {J : Type 0} (json : Json J) (exchange : Text) (hash : Text → ℕ) where
  run-AllReached :
      (xs : List (Entry J)) (r r' : Registry) (es : List (Text × Effect J))
      → IsSound hash r
      → AllReached hash r
      → run json exchange hash xs r ≡ some (r', es)
      → AllReached hash r'
  unfolding run
  run-AllReached [] r r' es w reached h =
      let p : some (r, []) ≡ some (r', es) = h in
      let q : r ≡ r' = cc in subst (AllReached hash) q reached
  run-AllReached (x ∷ xs) r r' es w reached h =
      let m = step-outcome json exchange hash x.now x.id x.event r w in
      let (r1, es1, runs, sound, at) = run-outcomes json exchange hash xs m.after m.sound in
      let all : AllReached hash r1 =
        run-AllReached xs m.after r1 es1 m.sound (m.reached reached) runs in
      let p : some (r1, _) ≡ some (r', es) = rw (m.runs, runs) at h in
      let q : r1 ≡ r' = cc in subst (AllReached hash) q all

  module _ (id : Text) where
    finals-lifetime :
        (xs : List (Entry J)) (o : Object) (h : ℕ)
        → o.deferred.finalize_handler ≡ some h
        → finals (outcomes json exchange hash id xs (some o)).1
            + finals (finish {D = J} (outcomes json exchange hash id xs (some o)).0).1
          ≡ 1
    finals-lifetime [] o h e = zero_plus _ ∙ finals-destroy J o.deferred h e
    finals-lifetime (x ∷ xs) o h e = elim (Bool-cases (x.id =?= id)) [
      | inr q ↦ rw q (finals-lifetime xs o h e)
      | inl q ↦ elim (Bool-cases (ends x.event)) [
        | inl t ↦
            let (gone, one) = outcome-once json exchange id x.event o h t e in
            rw (q, finals-append, gone, outcomes-none json exchange hash id xs, one) refl
        | inr t ↦
            let (o', kept, same, zero_) = outcome-Kept json exchange id x.event t o in
            rw (q, finals-append, kept, zero_)
              (ap
                  (λ n.
                    n + finals (finish {D = J} (outcomes json exchange hash id xs (some o')).0).1)
                  (zero_plus (finals (outcomes json exchange hash id xs (some o')).1))
                ∙ finals-lifetime xs o' h (same ∙ e))
      ]
    ]

    -- In any history of callbacks of any fetches, from a sound registry of which every object that
    -- is not destroyed is behind an id, and with the destructor of the broker after it, a fetch
    -- that is open and has a finalize handler calls a finalize handler exactly once: in a callback
    -- that ends it, or, if it is still open, in its destructor, whose calls are among those of the
    -- destructor of the broker, after which no fetch is left.
    pub run-finalizes_finally :
        (xs : List (Entry J)) (r : Registry) (o : Object) (h : ℕ)
        → IsSound hash r
        → AllReached hash r
        → lookup hash r id ≡ some o
        → o.deferred.finalize_handler ≡ some h
        → (r' : Registry) × (es : List (Text × Effect J)) × (run json exchange hash xs r
            ≡ some (r', es))
          × (finals (of_id json exchange hash id es) + finals (finish {D = J} (lookup hash r' id)).1
              ≡ 1)
          × ((o' : Object)
              → lookup hash r' id ≡ some o'
              → Part (map call (destroy o'.deferred)) (destroy_fetchers {D = J} r').1)
          × ((n : ℕ) → (destroy_fetchers {D = J} r').0.objects n ≡ none)
    run-finalizes_finally xs r o h w reached open_ e =
        let (r', es, runs, sound, at) = run-outcomes json exchange hash xs r w in
        let all : AllReached hash r' = run-AllReached xs r r' es w reached runs in
        (
          r',
          es,
          runs,
          rw ((at id).0, (at id).1, open_) (finals-lifetime xs o h e),
          λ o' q.
              let (i, a, b) = lookup-some hash r' id o' q in
              destroy_fetchers-effects J hash r' all i.payload o' b,
          destroy_fetchers-none J hash r' all,
        )
