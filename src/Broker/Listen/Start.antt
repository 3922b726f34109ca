-- ===== src/Broker/Listen/Start.antt =====
-- The start of a listener: `listen_messages` of src/broker_impl/broker.cc, up to its return.
use capy_amqp_cpp.Prelude.{
  map, false, ℕ, suc, ◌<◌, ◌≡◌, ◌≢◌, refl, sym, ap, ◌∙◌, Bool, Option, none, some, List, [], ◌∷◌,
  ◌++◌, =?=_refl, subst, ==_refl, Text, Key, text_key, inl, inr, lt→ltb,
}
use capy_amqp_cpp.Error.{broker_error, connection}
use capy_amqp_cpp.Cache.View.{view}
use capy_amqp_cpp.Cache.Idle.{get-idle}
use capy_amqp_cpp.Connections.{new_channel, get_connection, set_deferred, on_error}
use capy_amqp_cpp.Connections.Lost.{assigned, assign_deferred-some, deferred-assigned}
use capy_amqp_cpp.Connections.Paired.{
  own, new_channel_result, new_channel-IsPaired, get_connection_result,
}
use capy_amqp_cpp.Cache.Permanent.{live-kept}
use capy_amqp_cpp.Connections.Reached.{PointsTo, PointsTo-new_channel}
use capy_amqp_cpp.Broker.Ids.{create_unique_id, print}
use capy_amqp_cpp.Broker.Registry.{
  Object, Effect, add, command, declare_queue, bind_queue, consume, durable,
}
use capy_amqp_cpp.Broker.Registry.Laws.{lookup}
use capy_amqp_cpp.Broker.Registry.Adding.{added, view-added, lookup-added, lookup-added_other}
use capy_amqp_cpp.Broker.Numbered.{IsNumbered, numbered_fresh, added-IsNumbered, Within-IsNumbered}
use capy_amqp_cpp.Broker.Fetch.{fresh_object}
use capy_amqp_cpp.Broker.Listen.Owners.{Listening, drop_pointer, is_registered}
use capy_amqp_cpp.Broker.Listen.Kept.{Same-drop_pointer}
use capy_amqp_cpp.Broker.Listen.{Request, Listened, listen_messages, listen_commands, old_deferred}
use capy_amqp_cpp.Broker.Listen.Invariant.{IsKept}
use capy_amqp_cpp.Broker.Listen.Invariant.Dropping.{drop_pointer-Kept, connections-drop_pointer}
use capy_amqp_cpp.Broker.Listen.Releases.{Releases, drop_pointer-Releases, old_deferred-PointsTo}
use capy_amqp_cpp.Broker.Listen.Resets.{own-KeptBut}
use capy_amqp_cpp.Broker.Json.{Json}
use capy_amqp_cpp.Broker.Listen.Adding.{added-Kept, new_channel-Kept, own-new_channel, before-added}

module _ {ℓ} {K : Type ℓ} ⦃e : Key K⦄ {J : Type 0} (json : Json J) (exchange : Text)
    (hash_thread : K → ℕ) (hash : Text → ℕ) (now : ℕ) (thread : K) where
  -- What the connection of the thread lets go of, in the state before the call.
  released-before :
      (id : Text) (o : Object) (s s2 : Listening K)
      → IsKept hash_thread hash s
      → view hash s.listeners.ids id ≡ none
      → s2.listeners ≡ added hash id o s.listeners
      → Releases s
          (own hash_thread s.connections thread)
          (drop_pointer {D = Request J}
            (old_deferred json exchange hash_thread hash now thread
              (new_channel hash_thread now thread s.connections).0)
            s2).1
  released-before id o s s2 w fresh same =
      let c = (new_channel hash_thread now thread s.connections).0 in
      let channel = own hash_thread s.connections thread in
      elim (drop_pointer-Releases (Request J)
        (old_deferred json exchange hash_thread hash now thread c) s2) [
          | inl q ↦ inl q
          | inr (m, x, q, alive, out, calls) ↦
              let (alive', out') =
                before-added hash id o s.listeners m x fresh
                  (subst (λ r. is_registered m r.ids ≡ false) same out)
                  (subst (λ r. r.objects m ≡ some x) same alive) in
              let at : PointsTo c channel m =
                subst (λ j. PointsTo c j m)
                  (own-new_channel hash_thread hash now thread s.connections w.paired)
                  (old_deferred-PointsTo json exchange hash_thread hash now thread c m
                    (new_channel-IsPaired hash_thread now thread s.connections w.paired) q) in
              inr (
                m,
                x,
                PointsTo-new_channel hash_thread now thread s.connections channel m at,
                alive',
                out',
                calls,
              )
        ]

  -- The object that is set hears of an error of the connection.
  set-reported :
      (d : ℕ) (old : Option ℕ) (s : Listening K) (channel : ℕ) (message : Text)
      → channel ≡ own hash_thread s.connections thread
      → on_error message (
          (drop_pointer {D = Request J} old (record s {
            connections =
                assigned
                  (some d)
                  (own hash_thread s.connections thread)
                  (get_connection hash_thread now thread s.connections).0;
          })).0.connections.objects
            channel)
        ≡ (d, broker_error connection (some message)) ∷ []
  unfolding on_error
  set-reported d old s channel message same =
      let g = (get_connection hash_thread now thread s.connections).0 in
      let s2 : Listening K = record s {
        connections = assigned (some d) (own hash_thread s.connections thread) g;
      } in
      let p = drop_pointer {D = Request J} old s2 in
      let set : (p.0.connections.objects channel).deferred ≡ some d =
        ap (λ x. (x.objects channel).deferred)
          (connections-drop_pointer hash_thread hash (Request J) old s2)
        ∙ ap (λ x. (s2.connections.objects x).deferred) same
        ∙ deferred-assigned (some d) (own hash_thread s.connections thread) g in
      rw set refl

  -- If the listeners and the connections are as a broker at work keeps them, the ids of the
  -- listeners were all given out by the counter and the counter is below the largest `int`, then
  -- `listen_messages` returns: under the decimal digits of the counter, an id that was not in use,
  -- it registers one new object, whose channel is on the connection of the calling thread, and
  -- sets it there, so that an error of that connection is reported to it as CONNECTION. It asks
  -- the channel for a durable queue, for its binding in the exchange to each key in turn and for a
  -- consumer, and before that does nothing but, if the connection pointed to a listener that is no
  -- longer registered, the calls of the destructor of that listener; it leaves the other listeners
  -- as they are, counts the counter up by one, and keeps all of these invariants.
  pub listen_messages-starts :
      (indeterminate : Bool) (queue : Text) (keys : List Text) (counter : ℕ) (s : Listening K)
      → IsKept hash_thread hash s
      → IsNumbered hash counter s.listeners
      → counter < 2147483647
      → (l : Listened K J) × (released : List (Effect (Request J))) × (listen_messages json exchange
            hash_thread hash now thread indeterminate queue keys counter s
          ≡ some l)
        × IsKept hash_thread hash l.after
        × IsNumbered hash l.counter l.after.listeners
        × (lookup hash s.listeners l.correlation_id ≡ none)
        × (lookup hash l.after.listeners l.correlation_id
            ≡ some (fresh_object indeterminate (own hash_thread s.connections thread)))
        × ((k : Text)
            → l.correlation_id ≢ k
            → lookup hash l.after.listeners k ≡ lookup hash s.listeners k)
        × (l.effects
            ≡ released
              ++ command (own hash_thread s.connections thread) (declare_queue queue (durable ∷ []))
                ∷ (map
                      (λ key.
                        command
                          (own hash_thread s.connections thread)
                          (bind_queue exchange queue key))
                      keys
                    ++ command (own hash_thread s.connections thread) (consume queue []) ∷ []))
        × Releases s (own hash_thread s.connections thread) released
        × ((message : Text)
            → on_error message (l.after.connections.objects (own hash_thread s.connections thread))
              ≡ (s.listeners.created, broker_error connection (some message)) ∷ [])
        × (l.correlation_id ≡ print counter)
        × (l.counter ≡ suc counter)
  unfolding listen_messages create_unique_id add set_deferred on_error
  listen_messages-starts indeterminate queue keys counter s w num small =
      let id = print counter in
      let channel = own hash_thread s.connections thread in
      let o = fresh_object indeterminate channel in
      let fresh = numbered_fresh hash counter s.listeners num in
      let c = (new_channel hash_thread now thread s.connections).0 in
      let s1 : Listening K = record { connections = c; listeners = added hash id o s.listeners } in
      let kept1 : IsKept hash_thread hash s1 =
        added-Kept hash_thread hash id o (record s { connections = c }) fresh
          (new_channel-Kept hash_thread hash now thread s w) in
      let old = old_deferred json exchange hash_thread hash now thread c in
      let g = get_connection hash_thread now thread c in
      let d = s.listeners.created in
      let s2 : Listening K = record s1 {
        connections = assigned (some d) (own hash_thread c thread) g.0;
      } in
      let kept2 = own-KeptBut json exchange hash_thread hash now thread (some d) s1 kept1 (λ m q.
        let q' : d ≡ m = cc in
        (o, subst (λ x. s1.listeners.objects x ≡ some o) q' (rw (==_refl d) refl))) in
      let p = drop_pointer {D = Request J} old s2 in
      let (sound, same) = Same-drop_pointer (Request J) hash old s2 kept1.sound in
      (
        record {
          after = p.0;
          counter = suc counter;
          correlation_id = id;
          effects =
              p.1 ++ listen_commands json exchange hash_thread hash now thread queue keys channel;
        },
        p.1,
        rw
            (
              lt→ltb counter 2147483647 small,
              new_channel_result hash_thread now thread s.connections w.paired,
              fresh,
              get-idle hash now id s1.listeners.ids
                  (rw (view-added hash id o s.listeners id, =?=_refl id) (live-kept now d)),
              view-added hash id o s.listeners id,
              =?=_refl id,
              assign_deferred-some (some d) g (own hash_thread c thread)
                  (get_connection_result hash_thread now thread c kept1.paired),
            )
            refl,
        drop_pointer-Kept hash_thread hash (Request J) old s2 kept2,
        Within-IsNumbered hash (suc counter) p.0.listeners s1.listeners sound
            (λ k o' h. (o', sym (same k) ∙ h)) (added-IsNumbered hash counter o s.listeners num),
        rw fresh refl,
        same id ∙ lookup-added hash id o s.listeners w.sound,
        λ k ne. same k ∙ lookup-added_other hash id o s.listeners w.sound k ne,
        refl,
        released-before id o s s2 w fresh refl,
        λ message.
            set-reported d old s1 channel message
              (sym (own-new_channel hash_thread hash now thread s.connections w.paired)),
        refl,
        refl,
      )
