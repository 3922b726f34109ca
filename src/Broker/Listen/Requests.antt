-- ===== src/Broker/Listen/Requests.antt =====
-- The callbacks of a listener of src/broker_impl/broker.cc that find no entry for it.
use capy_amqp_cpp.Prelude.{
  ℕ, ◌≡◌, refl, =?=_refl, false, ◌||◌, Option, none, some, is_some, List, [], ◌∷◌, Text, codes, Key,
  text_key, Bool-cases, Option-cases, inl, inr,
}
use capy_amqp_cpp.Error.Format.{error_string, is_some-error_string}
use capy_amqp_cpp.Cache.{del}
use capy_amqp_cpp.Cache.View.{view, view-del}
use capy_amqp_cpp.Cache.Idle.{get-idle}
use capy_amqp_cpp.Connections.{ConnectionCache}
use capy_amqp_cpp.Broker.Json.{Json}
use capy_amqp_cpp.Broker.Registry.{Registry, Object, Effect, at_id}
use capy_amqp_cpp.Broker.Listen.Owners.{
  Listening, drop_pointer, destroy_object, and_then, with_connections, is_registered, is_held,
}
use capy_amqp_cpp.Broker.Listen.{
  Request, Event, channel_failed, queue_failed, binding_failed, consume_failed, publish_failed,
  received, consuming, at_listener, resets, del_listener, step,
}

at_id-unregistered :
    (D : Type 0) (hash : Text → ℕ) (now : ℕ) (id : Text) (f : Object → Object × List (Effect D))
    (r : Registry)
    → view hash r.ids id ≡ none
    → at_id hash now id f r ≡ none
unfolding at_id
at_id-unregistered D hash now id f r h = rw (get-idle hash now id r.ids (rw h refl), h) refl

module _ {ℓ} {K : Type ℓ} (D : Type 0) where
  ids-destroy_object :
      (n : ℕ) (o : Option Object) (s : Listening K)
      → (destroy_object {D = D} n o s).0.listeners.ids ≡ s.listeners.ids
  ids-destroy_object n none s = refl
  ids-destroy_object n (some o) s = refl

  -- Letting go of a pointer leaves the map as it is.
  ids-drop_pointer :
      (p : Option ℕ) (s : Listening K)
      → (drop_pointer {D = D} p s).0.listeners.ids ≡ s.listeners.ids
  ids-drop_pointer none s = refl
  ids-drop_pointer (some n) s =
      elim (Bool-cases (is_registered n s.listeners.ids || is_held n s.connections)) [
        | inl q ↦ rw q refl
        | inr q ↦ rw q (ids-destroy_object n (s.listeners.objects n) s)
      ]

module _ {ℓ} {K : Type ℓ} ⦃e : Key K⦄ {J : Type 0} (json : Json J) (exchange : Text)
    (hash_thread : K → ℕ) (hash : Text → ℕ) (now : ℕ) (thread : K) (id : Text) where
  at_listener-unregistered :
      (f : Object → Object × List (Effect (Request J))) (s : Listening K)
      → view hash s.listeners.ids id ≡ none
      → at_listener json exchange hash_thread hash now thread id f s ≡ none
  unfolding at_listener
  at_listener-unregistered f s h =
      rw (at_id-unregistered (Request J) hash now id f s.listeners h) refl

  and_then-none :
      (p : Option ℕ) (c : Option (ConnectionCache K)) (s : Listening K)
      (f : Object → Object × List (Effect (Request J)))
      → view hash s.listeners.ids id ≡ none
      → and_then
          (with_connections p c s)
          (at_listener json exchange hash_thread hash now thread id f)
        ≡ none
  and_then-none p none s f h = refl
  and_then-none p (some c) s f h =
      rw
        (at_listener-unregistered f
          (drop_pointer {D = Request J} p (record s { connections = c })).0
          (rw (ids-drop_pointer (Request J) p (record s { connections = c })) h))
        refl

  -- The callback of a failed binding has no result, whatever the error and the state are: its
  -- format has more conversions than arguments.
  pub on_binding_failed-undefined :
      (message : Text) (s : Listening K)
      → step json exchange hash_thread hash now thread id (binding_failed message) s ≡ none
  unfolding step
  on_binding_failed-undefined message s =
      elim (Option-cases (error_string (codes "%s: %s:%s <- %s") (message ∷ exchange ∷ []))) [
        | inl q ↦ rw q refl
        | inr (text, q) ↦
            let bad : is_some (some text) ≡ false =
              rw q at
                (is_some-error_string (codes "%s: %s:%s <- %s") (message ∷ exchange ∷ []) 4 refl) in
            absurd (cc)
      ]

  pub step-unregistered :
      (ev : Event) (s : Listening K)
      → view hash s.listeners.ids id ≡ none
      → step json exchange hash_thread hash now thread id ev s ≡ none
  unfolding step resets
  step-unregistered (channel_failed m) s h = at_listener-unregistered _ s h
  step-unregistered (queue_failed m) s h = at_listener-unregistered _ s h
  step-unregistered (publish_failed m) s h = at_listener-unregistered _ s h
  step-unregistered (binding_failed m) s h = on_binding_failed-undefined m s
  step-unregistered consuming s h = at_listener-unregistered _ s h
  step-unregistered (received m tag) s h = rw (at_listener-unregistered _ s h) refl
  step-unregistered (consume_failed m) s h = rw (and_then-none _ _ s _ h) refl

  pub view-del_listener :
      (s : Listening K)
      → view hash
          (del_listener {K = K} json exchange hash_thread hash now thread id s).0.listeners.ids
          id
        ≡ none
  unfolding del_listener
  view-del_listener s = elim (Option-cases (view hash s.listeners.ids id)) [
    | inl q ↦ rw q q
    | inr (item, q) ↦
        rw
          (
            q,
            ids-drop_pointer (Request J) (some item.payload) (record s {
              listeners = record s.listeners { ids = (del hash id s.listeners.ids).0 };
            }),
            view-del,
            =?=_refl id,
          )
          refl
  ]
