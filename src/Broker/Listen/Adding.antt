-- ===== src/Broker/Listen/Adding.antt =====
-- A listener that is registered, and the channel that it gets (src/broker_impl/broker.cc).
use capy_amqp_cpp.Prelude.{
  false, ℕ, ◌≡◌, refl, sym, ◌∙◌, true, none, some, =?=_refl, subst, ◌==◌, ==_iff, Text, Key,
  text_key, inl, inr, Bool-cases,
}
use capy_amqp_cpp.Cache.Shards.{write_always}
use capy_amqp_cpp.Cache.View.{view}
use capy_amqp_cpp.Cache.Metrics.{set-IsMap}
use capy_amqp_cpp.Connections.{ConnectionCache, new_channel}
use capy_amqp_cpp.Connections.Paired.{IsPaired, own, new_channel-IsPaired, item_of-new_channel}
use capy_amqp_cpp.Cache.Permanent.{kept}
use capy_amqp_cpp.Connections.Reached.{PointsTo-new_channel, new_channel-PointsTo}
use capy_amqp_cpp.Broker.Registry.{Registry, Object}
use capy_amqp_cpp.Broker.Registry.Adding.{added, view-added, added-IsSound}
use capy_amqp_cpp.Broker.Listen.Owners.{Listening, is_held, is_registered}
use capy_amqp_cpp.Broker.Listen.Pointers.{
  or_left, or_right, is_held-PointsTo, PointsTo-is_held, is_registered-set, is_registered-view,
}
use capy_amqp_cpp.Broker.Listen.Invariant.{IsKept, owner, update-AllHeld}

module _ {ℓ} {K : Type ℓ} ⦃e : Key K⦄ (hash_thread : K → ℕ) (hash : Text → ℕ) where
  -- A new id, that was not in use, makes an object that has an owner.
  pub added-Kept :
      (id : Text) (o : Object) (s : Listening K)
      → view hash s.listeners.ids id ≡ none
      → IsKept hash_thread hash s
      → IsKept hash_thread hash (record s { listeners = added hash id o s.listeners })
  added-Kept id o s fresh w = record {
    paired = w.paired;
    sound = added-IsSound hash id o s.listeners w.sound;
    single = set-IsMap hash id s.listeners.created 0 write_always s.listeners.ids w.single;
    held = update-AllHeld s.connections s.listeners.objects s.listeners.created o w.held;
    owned = λ n o' a. elim (Bool-cases (s.listeners.created == n)) [
      | inl q ↦ inr (
          or_left (is_held n s.connections) (
            subst (λ m. is_registered m (added hash id o s.listeners).ids ≡ true)
              ((==_iff s.listeners.created n).0 q)
              (is_registered-view hash id (kept s.listeners.created)
                (added hash id o s.listeners).ids
                (view-added hash id o s.listeners id ∙ rw (=?=_refl id) refl))))
      | inr q ↦ elim (owner hash_thread hash s n o' w (rw q at a)) [
        | inl r ↦ inr (
            or_left (is_held n s.connections)
              (is_registered-set hash n id s.listeners.ids s.listeners.created fresh r))
        | inr r ↦ inr (or_right (is_registered n (added hash id o s.listeners).ids) r)
      ]
    ];
  }

  module _ (now : ℕ) (thread : K) where
    -- A new channel touches no listener.
    pub new_channel-Kept :
        (s : Listening K)
        → IsKept hash_thread hash s
        → IsKept hash_thread hash
            (record s { connections = (new_channel hash_thread now thread s.connections).0 })
    new_channel-Kept s w = record {
      paired = new_channel-IsPaired hash_thread now thread s.connections w.paired;
      sound = w.sound;
      single = w.single;
      held = λ k n p. w.held k n (PointsTo-new_channel hash_thread now thread s.connections k n p);
      owned = λ n o a. elim (owner hash_thread hash s n o w a) [
        | inl r ↦ inr (or_left (is_held n (new_channel hash_thread now thread s.connections).0) r)
        | inr r ↦
            let c = (new_channel hash_thread now thread s.connections).0 in
            let (k, p) = PointsTo-is_held s.connections n r in
            inr (
              or_right (is_registered n s.listeners.ids) (
                is_held-PointsTo c k n
                  (new_channel-PointsTo hash_thread now thread s.connections k n p)))
      ];
    }

    pub own-new_channel :
        (c : ConnectionCache K)
        → IsPaired hash_thread c
        → own hash_thread (new_channel hash_thread now thread c).0 thread ≡ own hash_thread c thread
    own-new_channel c w =
        rw (item_of-new_channel hash_thread now thread c w thread, =?=_refl thread) refl

-- An object that no id leads to after a new one was registered was there before, without an id.
pub before-added :
    (hash : Text → ℕ) (id : Text) (o : Object) (r : Registry) (m : ℕ) (x : Object)
    → view hash r.ids id ≡ none
    → is_registered m (added hash id o r).ids ≡ false
    → (added hash id o r).objects m ≡ some x
    → (r.objects m ≡ some x) × (is_registered m r.ids ≡ false)
before-added hash id o r m x fresh out h = (
  elim (Bool-cases (r.created == m)) [
    | inl q ↦
        let t : is_registered m (added hash id o r).ids ≡ true =
          subst (λ j. is_registered j (added hash id o r).ids ≡ true) ((==_iff r.created m).0 q)
            (is_registered-view hash id (kept r.created) (added hash id o r).ids
              (view-added hash id o r id ∙ rw (=?=_refl id) refl)) in
        let bad : true ≡ false = sym t ∙ out in absurd (cc)
    | inr q ↦ rw q at h
  ],
  elim (Bool-cases (is_registered m r.ids)) [
    | inl q ↦
        let bad : true ≡ false = sym (is_registered-set hash m id r.ids r.created fresh q) ∙ out in
        absurd (cc)
    | inr q ↦ q
  ],
)
