-- ===== src/Broker/Listen/Resets.antt =====
-- The connection of a thread is found, and given another listener or none (src/broker_impl/broker.cc).
use capy_amqp_cpp.Prelude.{
  Option, ℕ, ◌≡◌, refl, sym, ap, subst, ◌∙◌, none, some, Text, Key, text_key, inl, inr,
}
use capy_amqp_cpp.Connections.{ConnectionCache, get_connection, reset_deferred}
use capy_amqp_cpp.Connections.Lost.{assigned, assign_deferred-some}
use capy_amqp_cpp.Connections.Paired.{IsPaired, own, get_connection_result}
use capy_amqp_cpp.Connections.Reached.{
  get_connection-IsPaired, PointsTo-get_connection, get_connection-PointsTo,
}
use capy_amqp_cpp.Broker.Listen.Pointers.{or_left, or_right, is_held-PointsTo, PointsTo-is_held}
use capy_amqp_cpp.Broker.Json.{Json}
use capy_amqp_cpp.Broker.Registry.{Object}
use capy_amqp_cpp.Broker.Registry.Laws.{lookup}
use capy_amqp_cpp.Broker.Listen.Kept.{Same-drop_pointer}
use capy_amqp_cpp.Broker.Listen.Owners.{
  Listening, drop_pointer, with_connections, is_held, is_registered,
}
use capy_amqp_cpp.Broker.Listen.{Request, old_deferred, deferred_of, resets}
use capy_amqp_cpp.Broker.Listen.Invariant.{IsKept, IsKeptBut, owner}
use capy_amqp_cpp.Broker.Listen.Invariant.Changes.{Keeps, assigned-KeptBut}
use capy_amqp_cpp.Broker.Listen.Invariant.Dropping.{drop_pointer-Kept}

module _ {ℓ} {K : Type ℓ} ⦃e : Key K⦄ {J : Type 0} (json : Json J) (exchange : Text)
    (hash_thread : K → ℕ) (hash : Text → ℕ) (now : ℕ) (thread : K) where
  deferred_of-result :
      (r : ConnectionCache K × Option ℕ) (n : ℕ)
      → r.1 ≡ some n
      → deferred_of json exchange hash_thread hash now thread r ≡ (r.0.objects n).deferred
  deferred_of-result (c, p) n h = rw h refl

  pub old_deferred-own :
      (c : ConnectionCache K)
      → IsPaired hash_thread c
      → old_deferred json exchange hash_thread hash now thread c
        ≡ ((get_connection hash_thread now thread c).0.objects (own hash_thread c thread)).deferred
  old_deferred-own c w =
      deferred_of-result (get_connection hash_thread now thread c) (own hash_thread c thread)
        (get_connection_result hash_thread now thread c w)

  -- The connection of the thread is found, or opened, and no listener is touched.
  get_connection-Kept :
      (s : Listening K)
      → IsKept hash_thread hash s
      → IsKept hash_thread hash
          (record s { connections = (get_connection hash_thread now thread s.connections).0 })
  get_connection-Kept s w =
      let c = (get_connection hash_thread now thread s.connections).0 in
      record {
        paired = get_connection-IsPaired hash_thread now thread s.connections w.paired;
        sound = w.sound;
        single = w.single;
        held = λ k n p.
            w.held k n (PointsTo-get_connection hash_thread now thread s.connections k n p);
        owned = λ n o a. elim (owner hash_thread hash s n o w a) [
          | inl r ↦ inr (or_left (is_held n c) r)
          | inr r ↦
              let (k, p) = PointsTo-is_held s.connections n r in
              inr (
                or_right (is_registered n s.listeners.ids) (
                  is_held-PointsTo c k n
                    (get_connection-PointsTo hash_thread now thread s.connections w.paired k n p)))
        ];
      }

  -- The connection of the thread is given another object, which is there, or none.
  pub own-KeptBut :
      (d : Option ℕ) (s : Listening K)
      → IsKept hash_thread hash s
      → ((m : ℕ) → d ≡ some m → (o : Object) × (s.listeners.objects m ≡ some o))
      → IsKeptBut hash_thread hash
          (old_deferred json exchange hash_thread hash now thread s.connections)
          (record s {
            connections =
                assigned d
                  (own hash_thread s.connections thread)
                  (get_connection hash_thread now thread s.connections).0;
          })
  own-KeptBut d s w alive =
      let c = (get_connection hash_thread now thread s.connections).0 in
      let n = own hash_thread s.connections thread in
      subst (λ p. IsKeptBut hash_thread hash p (record s { connections = assigned d n c }))
        (sym (old_deferred-own s.connections w.paired))
        (assigned-KeptBut hash_thread hash d n (record s { connections = c })
          (get_connection-Kept s w) alive)

  pub resets-Keeps :
      (s : Listening K)
      → IsKept hash_thread hash s
      → Keeps hash_thread hash
          (Request J)
          (λ s'. (k : Text) → lookup hash s'.listeners k ≡ lookup hash s.listeners k)
          s
          (resets json exchange hash_thread hash now thread s)
  unfolding resets reset_deferred
  resets-Keeps s w =
      let c = get_connection hash_thread now thread s.connections in
      let n = own hash_thread s.connections thread in
      let old = old_deferred json exchange hash_thread hash now thread s.connections in
      let s1 : Listening K = record s { connections = assigned none n c.0 } in
      let kept1 = own-KeptBut none s w (λ m q. absurd (cc)) in
      let d = drop_pointer {D = Request J} old s1 in
      let same = (Same-drop_pointer (Request J) hash old s1 w.sound).1 in
      record {
        after = d.0;
        effects = d.1;
        runs =
            ap (λ x. with_connections old x s)
              (assign_deferred-some none c n
                (get_connection_result hash_thread now thread s.connections w.paired));
        kept = drop_pointer-Kept hash_thread hash (Request J) old s1 kept1;
        within = λ k o h. (o, sym (same k) ∙ h);
        post = same;
      }
