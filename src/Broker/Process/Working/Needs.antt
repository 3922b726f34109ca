-- ===== src/Broker/Process/Working/Needs.antt =====
-- What a step of a broker at work (src/broker_impl/broker.cc) that has a result needed.
use capy_amqp_cpp.Prelude.{
  ℕ, ◌<◌, ◌≡◌, refl, sym, ap, ◌∙◌, none, some, List, Text, Key, text_key, ltb, inl, inr, Bool,
  Bool-cases, Option-cases, arith, false,
}
use capy_amqp_cpp.Cache.View.{view}
use capy_amqp_cpp.Broker.Ids.{create_unique_id}
use capy_amqp_cpp.Broker.Json.{Json}
use capy_amqp_cpp.Broker.Registry.{Object}
use capy_amqp_cpp.Broker.Registry.Laws.{lookup}
use capy_amqp_cpp.Broker.Numbered.{lookup-view}
use capy_amqp_cpp.Broker.Fetch.{fetch_message}
use capy_amqp_cpp.Broker.Listen
use capy_amqp_cpp.Broker.Listen.{binding_failed, listen_messages}
use capy_amqp_cpp.Broker.Listen.Requests.{step-unregistered, on_binding_failed-undefined}
use capy_amqp_cpp.Broker.Facade
use capy_amqp_cpp.Broker.Facade.{listening, make_broker}
use capy_amqp_cpp.Broker.Process.{
  Process, Deed, Outcome, Action, fetch, listen, publish, commit, fetch_event, listen_event,
  fetch_used, listen_used, connection_failed, connection_lost, ids_taken, with_listening, step,
}
use capy_amqp_cpp.Broker.Process.Working.{IsWorking}
use capy_amqp_cpp.Broker.Process.Working.Uses.{fetch_used-alive, listen_used-alive}
use capy_amqp_cpp.Broker.Process.Working.Safe.{Safe}

module _ {ℓ} {K : Type ℓ} ⦃e : Key K⦄ {J : Type 0} (json : Json J) (hash_thread : K → ℕ)
    (hash : Text → ℕ) where
  fetch-exhausted :
      (now : ℕ) (thread : K) (message : J) (routing_key : Text) (indeterminate : Bool)
      (s : Process K)
      → ltb s.counter 2147483647 ≡ false
      → step json hash_thread hash (fetch now thread message routing_key indeterminate) s ≡ none
  unfolding step Facade.fetch make_broker fetch_message create_unique_id
  fetch-exhausted now thread message routing_key indeterminate s h = rw h refl

  listen-exhausted :
      (now : ℕ) (thread : K) (indeterminate : Bool) (queue : Text) (keys : List Text)
      (s : Process K)
      → ltb s.counter 2147483647 ≡ false
      → step json hash_thread hash (listen now thread indeterminate queue keys) s ≡ none
  unfolding step Facade.listen make_broker listen_messages create_unique_id
  listen-exhausted now thread indeterminate queue keys s h = rw h refl

  -- A callback of a listener has a result only if it is registered.
  listened_event :
      (now : ℕ) (thread : K) (id : Text) (event : Listen.Event) (s : Process K)
      (r : Process K × List (Deed J))
      → IsWorking hash_thread hash s
      → step json hash_thread hash (listen_event now thread id event) s ≡ some r
      → (o : Object) × (lookup hash s.impl.listeners id ≡ some o)
  unfolding step
  listened_event now thread id event s r w h =
      elim (Option-cases (view hash s.impl.listeners.ids id)) [
        | inl q ↦
            let bad : none ≡ some r =
              sym (
                ap (with_listening s) (
                  step-unregistered json s.impl.exchange_name hash_thread hash now thread id event
                    (listening s.impl) q))
              ∙ h in
            absurd (cc)
        | inr (i, q) ↦ lookup-view hash s.impl.listeners id i w.listeners.sound q
      ]

  bound_event :
      (now : ℕ) (thread : K) (id : Text) (message : Text) (s : Process K)
      → step json hash_thread hash (listen_event now thread id (binding_failed message)) s ≡ none
  unfolding step
  bound_event now thread id message s = ap (with_listening s) (
      on_binding_failed-undefined json s.impl.exchange_name hash_thread hash now thread id message
        (listening s.impl))

  small :
      (n : ℕ) (r : Process K × List (Deed J)) (x : Outcome K J)
      → x ≡ some r
      → (ltb n 2147483647 ≡ false → x ≡ none)
      → n < 2147483647
  small n r x h exhausted = elim (Bool-cases (ltb n 2147483647)) [
    | inl q ↦ ground arith
    | inr q ↦ let bad : none ≡ some r = sym (exhausted q) ∙ h in absurd (cc)
  ]

  -- In a broker at work, a call or callback that has a result was safe: a fetch or a listener that
  -- starts had a counter below the largest `int`, a callback of a listener found it registered and
  -- was not that of a failed binding, and the object that a client called a member of was not
  -- destroyed.
  pub step-needs :
      (a : Action K J) (s : Process K) (r : Process K × List (Deed J))
      → IsWorking hash_thread hash s
      → step json hash_thread hash a s ≡ some r
      → Safe hash a s
  step-needs (fetch now thread message routing_key indeterminate) s r w h =
      small s.counter r
        (step json hash_thread hash (fetch now thread message routing_key indeterminate) s) h
        (fetch-exhausted now thread message routing_key indeterminate s)
  step-needs (listen now thread indeterminate queue keys) s r w h =
      small s.counter r (step json hash_thread hash (listen now thread indeterminate queue keys) s)
        h (listen-exhausted now thread indeterminate queue keys s)
  step-needs (listen_event now thread id event) s r w h = (
    listened_event now thread id event s r w h,
    λ message q.
        let bad : none ≡ some r =
          sym (bound_event now thread id message s)
          ∙ ap (λ ev. step json hash_thread hash (listen_event now thread id ev) s) (sym q)
          ∙ h in
        cc,
  )
  step-needs (publish now thread message routing_key failure) s r w h = tt
  step-needs (commit now thread cid replay_to message) s r w h = tt
  step-needs (fetch_event now id event) s r w h = tt
  step-needs (fetch_used n event) s r w h = fetch_used-alive json hash_thread hash n event s r h
  step-needs (listen_used n event) s r w h = listen_used-alive json hash_thread hash n event s r h
  step-needs (connection_failed n message) s r w h = tt
  step-needs (connection_lost n) s r w h = tt
  step-needs (ids_taken counter) s r w h = tt
