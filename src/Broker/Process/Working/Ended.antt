-- ===== src/Broker/Process/Working/Ended.antt =====
-- What comes after the end of a listener (src/broker_impl/broker.cc) in a broker at work.
use capy_amqp_cpp.Prelude.{
  ℕ, ◌≡◌, refl, sym, ap, ◌∙◌, subst, none, some, List, [], ◌∷◌, ◌++◌, Text, Key, text_key, inl, inr,
  Option-cases, arith,
}
use capy_amqp_cpp.Cache.View.{view}
use capy_amqp_cpp.Broker.Json.{Json, IsJson}
use capy_amqp_cpp.Broker.Registry.{Registry}
use capy_amqp_cpp.Broker.Registry.Laws.{lookup, lookup-some, IsSound}
use capy_amqp_cpp.Broker.Numbered.{lookup-view}
use capy_amqp_cpp.Broker.Listen
use capy_amqp_cpp.Broker.Listen.Ended.{consume_failed-view}
use capy_amqp_cpp.Broker.Listen.Requests.{step-unregistered}
use capy_amqp_cpp.Broker.Facade.{listening}
use capy_amqp_cpp.Broker.Process.{Process, Deed, Action, listen_event, with_listening, step, run}
use capy_amqp_cpp.Broker.Process.Working.{IsWorking, Works-IsWorking, Works-Ages, Ages}
use capy_amqp_cpp.Broker.Process.Working.Safe.{Possible, step-safe}
use capy_amqp_cpp.Broker.Process.Working.Needs.{step-needs}

view-lookup :
    (hash : Text → ℕ) (r : Registry) (k : Text)
    → IsSound hash r
    → lookup hash r k ≡ none
    → view hash r.ids k ≡ none
view-lookup hash r k w h = elim (Option-cases (view hash r.ids k)) [
  | inl q ↦ q
  | inr (i, q) ↦
      let (o, a) = lookup-view hash r k i w q in let bad : none ≡ some o = sym h ∙ a in absurd (cc)
]

module _ {ℓ} {K : Type ℓ} ⦃e : Key K⦄ {J : Type 0} (json : Json J) (hash_thread : K → ℕ)
    (hash : Text → ℕ) where
  -- Each step of a history is possible in the state that the ones before it left.
  abbrev pub PossibleRun : List (Action K J) → Process K → Type ℓ
  PossibleRun [] s = Unit
  PossibleRun (a ∷ rest) s =
      Possible a s
      × ((s' : Process K) (ds : List (Deed J))
          → step json hash_thread hash a s ≡ some (s', ds)
          → PossibleRun rest s')

  -- A history that has a result was safe.
  run-later :
      (history : List (Action K J)) (s s' : Process K) (ds : List (Deed J))
      → IsJson json
      → IsWorking hash_thread hash s
      → PossibleRun history s
      → run json hash_thread hash history s ≡ some (s', ds)
      → IsWorking hash_thread hash s' × Ages hash_thread hash s s'
  unfolding run
  run-later [] s s' ds laws w possible h =
      let p : some (s, []) ≡ some (s', ds) = h in
      let q : s ≡ s' = cc in
      subst (λ x. IsWorking hash_thread hash x × Ages hash_thread hash s x) q
        (w, (omega arith, λ m lt a. a))
  run-later (a ∷ rest) s s' ds laws w (possible, later) h =
      elim (Option-cases (step json hash_thread hash a s)) [
        | inl q ↦ let bad : none ≡ some (s', ds) = rw q at h in absurd (cc)
        | inr ((s1, ds1), q) ↦
            let m =
              step-safe json hash_thread hash a s laws w possible
                (step-needs json hash_thread hash a s (s1, ds1) w q) in
            let w1 = Works-IsWorking hash_thread hash J s _ s1 ds1 m q in
            let ages1 = Works-Ages hash_thread hash J s _ s1 ds1 m q in
            elim (Option-cases (run json hash_thread hash rest s1)) [
              | inl q' ↦ let bad : none ≡ some (s', ds) = rw (q, q') at h in absurd (cc)
              | inr ((s2, ds2), q') ↦
                  let p : some (s2, ds1 ++ ds2) ≡ some (s', ds) = rw (q, q') at h in
                  let same : s2 ≡ s' = cc in
                  let (w2, ages2) = run-later rest s1 s2 ds2 laws w1 (later s1 ds1 q) q' in
                  subst (λ x. IsWorking hash_thread hash x × Ages hash_thread hash s x) same
                    (
                      w2,
                      (
                        omega (arith, ages1.0, ages2.0),
                        λ k lt b. ages2.1 k (omega (arith, lt, ages1.0)) (ages1.1 k lt b),
                      ),
                    )
            ]
      ]

  -- In a broker at work, once the callback of the failed consumer of a listener has run, and after
  -- any possible history that has run after it, no callback of that listener has a result, at any
  -- time and on any thread: it follows an empty pointer. Possible: an error comes from a
  -- connection that was opened, and other brokers only count the counter up. The json library is
  -- taken to find an array with an element not empty and the null value empty, and to decode what
  -- it encodes.
  pub consume_failed-faults :
      (now now' : ℕ) (thread thread' : K) (id message : Text) (event : Listen.Event)
      (history : List (Action K J)) (s s' s'' : Process K) (ds ds' : List (Deed J))
      → IsJson json
      → IsWorking hash_thread hash s
      → step json hash_thread hash (listen_event now thread id (Listen.consume_failed message)) s
        ≡ some (s', ds)
      → PossibleRun history s'
      → run json hash_thread hash history s' ≡ some (s'', ds')
      → step json hash_thread hash (listen_event now' thread' id event) s'' ≡ none
  unfolding step
  consume_failed-faults now now' thread thread' id message event history s s' s'' ds ds' laws w
        failed possible runs =
      let action : Action K J = listen_event now thread id (Listen.consume_failed message) in
      let ((o, open_), ne) = step-needs json hash_thread hash action s (s', ds) w failed in
      let (i, at, alive) = lookup-some hash s.impl.listeners id o open_ in
      let (m, lt, number) = w.listen_ids id i at in
      let (l, effects, ends, gone) =
        consume_failed-view json s.impl.exchange_name hash_thread hash now thread id message
          (listening s.impl) o w.listeners.paired w.listeners.sound open_ in
      let p : some (
        record s { impl = record s.impl { connections = l.connections; listeners = l.listeners } },
        _,
      )
          ≡ some (s', ds) =
        sym (ap (with_listening s) ends) ∙ failed in
      let q : record s {
        impl = record s.impl { connections = l.connections; listeners = l.listeners };
      }
          ≡ s' =
        cc in
      let w' =
        Works-IsWorking hash_thread hash J s _ s' ds
          (step-safe json hash_thread hash action s laws w tt ((o, open_), ne)) failed in
      let (w'', ages) = run-later history s' s'' ds' laws w' possible runs in
      let gone' : lookup hash s'.impl.listeners id ≡ none =
        subst (λ x. lookup hash x.impl.listeners id ≡ none) q (rw gone refl) in
      let over : lookup hash s''.impl.listeners id ≡ none =
        subst (λ x. lookup hash s''.impl.listeners x ≡ none) (sym number)
          (ages.1 m (omega (arith, lt, ap (λ x. x.counter) q))
            (subst (λ x. lookup hash s'.impl.listeners x ≡ none) number gone')) in
      ap (with_listening s'') (
        step-unregistered json s''.impl.exchange_name hash_thread hash now' thread' id event
          (listening s''.impl) (view-lookup hash s''.impl.listeners id w''.listeners.sound over))
