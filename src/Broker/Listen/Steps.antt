-- ===== src/Broker/Listen/Steps.antt =====
-- Every callback of a listener (src/broker_impl/broker.cc), and the invariant.
use capy_amqp_cpp.Broker.Listen.Resets.{resets-Keeps}
use capy_amqp_cpp.Prelude.{
  Option, List, [], =?=_refl, ℕ, ◌≡◌, ◌≢◌, refl, sym, ◌∙◌, none, some, Text, Key, text_key, inl,
  inr, Option-cases,
}
use capy_amqp_cpp.Cache.{del}
use capy_amqp_cpp.Cache.View.{view}
use capy_amqp_cpp.Cache.Metrics.{del-IsMap}
use capy_amqp_cpp.Broker.Listen.Pointers.{or_left, or_right, is_registered-del}
use capy_amqp_cpp.Broker.Json.{
  Json, Decoded, decoded, json_exception, std_exception, other_exception,
}
use capy_amqp_cpp.Broker.Registry.{Object, Effect}
use capy_amqp_cpp.Broker.Registry.Laws.{lookup}
use capy_amqp_cpp.Broker.Registry.Others.{without, without-IsSound, view-without, lookup-without}
use capy_amqp_cpp.Broker.Numbered.{Within-view}
use capy_amqp_cpp.Broker.Listen.Kept.{Same-drop_pointer}
use capy_amqp_cpp.Broker.Listen.Owners.{Listening, drop_pointer, and_then, is_held, is_registered}
use capy_amqp_cpp.Broker.Listen.{
  Request, Message, Event, channel_failed, queue_failed, binding_failed, consume_failed,
  publish_failed, received, consuming, at_listener, resets, del_listener, serve, step,
}
use capy_amqp_cpp.Broker.Listen.Invariant.{IsKept, IsKeptBut, owner}
use capy_amqp_cpp.Broker.Listen.Invariant.Changes.{Keeps, and_then-Keeps, at_id-Keeps}
use capy_amqp_cpp.Broker.Listen.Invariant.Dropping.{drop_pointer-Kept}

module _ {ℓ} {K : Type ℓ} ⦃e : Key K⦄ {J : Type 0} (json : Json J) (exchange : Text)
    (hash_thread : K → ℕ) (hash : Text → ℕ) (now : ℕ) (thread : K) where
  forget_post :
      (P : Listening K → Type 0) (s : Listening K)
      (x : Option (Listening K × List (Effect (Request J))))
      → Keeps hash_thread hash (Request J) P s x
      → Keeps hash_thread hash (Request J) (λ s'. Unit {0}) s x
  forget_post P s x m = record {
    after = m.after;
    effects = m.effects;
    runs = m.runs;
    kept = m.kept;
    within = m.within;
    post = tt;
  }

  module _ (id : Text) where
    abbrev IsOpen : Listening K → Type 0
    IsOpen s = (o : Object) × (lookup hash s.listeners id ≡ some o)

    at_listener-Keeps :
        (f : Object → Object × List (Effect (Request J))) (s : Listening K)
        → IsKept hash_thread hash s
        → IsOpen s
        → Keeps hash_thread hash
            (Request J)
            IsOpen
            s
            (at_listener json exchange hash_thread hash now thread id f s)
    unfolding at_listener
    at_listener-Keeps f s w (o, h) = at_id-Keeps hash_thread hash (Request J) now id f s o w h

    -- The id goes, and its object with it unless a connection points to it.
    del_listener-Keeps :
        (s : Listening K)
        → IsKept hash_thread hash s
        → Keeps hash_thread hash
            (Request J)
            (λ s'. (o : Object) → lookup hash s'.listeners id ≢ some o)
            s
            (some (del_listener json exchange hash_thread hash now thread id s))
    unfolding del_listener
    del_listener-Keeps s w = elim (Option-cases (view hash s.listeners.ids id)) [
      | inl q ↦ record {
        after = s;
        effects = [];
        runs = rw q refl;
        kept = w;
        within = λ k o h. (o, h);
        post = λ o h. let bad : none ≡ some o = rw q at h in absurd (cc);
      }
      | inr (i, q) ↦
          let s1 : Listening K = record s {
            listeners = without hash id s.listeners.objects s.listeners;
          } in
          let kept1 : IsKeptBut hash_thread hash (some i.payload) s1 = record {
            single = del-IsMap hash id s.listeners.ids w.single;
            owned = λ m o a. elim (owner hash_thread hash s m o w a) [
              | inl r ↦ elim (is_registered-del hash m id s.listeners.ids w.single r) [
                | inl (j, q', p) ↦ let same : some i ≡ some j = sym q ∙ q' in inl (cc)
                | inr r' ↦ inr (or_left (is_held m s.connections) r')
              ]
              | inr r ↦ inr (or_right (is_registered m (del hash id s.listeners.ids).0) r)
            ];
            paired = w.paired;
            sound =
                without-IsSound hash id s.listeners.objects s.listeners w.sound (λ k j ne a. refl);
            held = w.held;
          } in
          let d = drop_pointer {D = Request J} (some i.payload) s1 in
          let same = (Same-drop_pointer (Request J) hash (some i.payload) s1 kept1.sound).1 in
          record {
            after = d.0;
            effects = d.1;
            runs = rw q refl;
            kept = drop_pointer-Kept hash_thread hash (Request J) (some i.payload) s1 kept1;
            within = λ k o h.
                Within-view hash s1.listeners s.listeners w.sound
                  (λ k' j a. (view-without hash id s.listeners.objects s.listeners k' j a).1) k o
                  (sym (same k) ∙ h);
            post = λ o h.
                let g : lookup hash s1.listeners id ≡ some o = sym (same id) ∙ h in
                let g' : none ≡ some o =
                  rw (lookup-without hash id s.listeners.objects s.listeners id, =?=_refl id) at
                    g in
                absurd (cc);
          }
    ]

    -- `listeners_.get(id)->` and what comes before it.
    then_at_listener :
        (f : Object → Object × List (Effect (Request J))) (s : Listening K)
        → IsKept hash_thread hash s
        → IsOpen s
        → Keeps hash_thread hash (Request J) IsOpen s (
            and_then
              (resets json exchange hash_thread hash now thread s)
              (at_listener json exchange hash_thread hash now thread id f))
    then_at_listener f s w (o, h) =
        and_then-Keeps hash_thread hash (Request J)
          (λ s'. (k : Text) → lookup hash s'.listeners k ≡ lookup hash s.listeners k) IsOpen s _ _
          (resets-Keeps json exchange hash_thread hash now thread s w)
          (λ s' w' same. at_listener-Keeps f s' w' (o, same id ∙ h))

    serve-Keeps :
        (m : Message) (d : Decoded J) (s : Listening K)
        → IsKept hash_thread hash s
        → IsOpen s
        → Keeps hash_thread hash
            (Request J)
            IsOpen
            s
            (serve json exchange hash_thread hash now thread id m d s)
    serve-Keeps m (decoded j) s w open_ = then_at_listener _ s w open_
    serve-Keeps m (json_exception what) s w open_ = at_listener-Keeps _ s w open_
    serve-Keeps m (std_exception what) s w open_ = at_listener-Keeps _ s w open_
    serve-Keeps m other_exception s w open_ = at_listener-Keeps _ s w open_

    -- A callback of a listener that is registered, but for that of a failed binding, runs, keeps the
    -- invariant and opens no id.
    pub step-Keeps :
        (ev : Event) (s : Listening K)
        → ((message : Text) → ev ≢ binding_failed message)
        → IsKept hash_thread hash s
        → IsOpen s
        → Keeps hash_thread hash
            (Request J)
            (λ s'. Unit {0})
            s
            (step json exchange hash_thread hash now thread id ev s)
    unfolding step
    step-Keeps (channel_failed message) s ne w open_ =
        forget_post _ s _ (at_listener-Keeps _ s w open_)
    step-Keeps (queue_failed message) s ne w open_ =
        forget_post _ s _ (at_listener-Keeps _ s w open_)
    step-Keeps (binding_failed message) s ne w open_ = absurd (ne message refl)
    step-Keeps (publish_failed message) s ne w open_ =
        forget_post _ s _ (at_listener-Keeps _ s w open_)
    step-Keeps consuming s ne w open_ = forget_post _ s _ (at_listener-Keeps _ s w open_)
    step-Keeps (received m tag) s ne w open_ = forget_post _ s _ (
        and_then-Keeps hash_thread hash (Request J) IsOpen IsOpen s _ _
          (at_listener-Keeps _ s w open_)
          (λ s' w' o'. serve-Keeps m (json.from_msgpack m.body) s' w' o'))
    step-Keeps (consume_failed message) s ne w open_ = forget_post _ s _ (
        and_then-Keeps hash_thread hash (Request J) IsOpen _ s _ _ (then_at_listener _ s w open_)
          (λ s' w' o'. del_listener-Keeps s' w'))
