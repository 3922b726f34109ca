-- ===== src/Broker/Listen/Invariant/Changes.antt =====
-- Changes of the listeners of src/broker_impl/broker.cc that keep what holds of them.
use capy_amqp_cpp.Broker.Listen.Pointers.{is_held-PointsTo, PointsTo-is_held, or_left, or_right}
use capy_amqp_cpp.Prelude.{
  ℕ, ◌≡◌, refl, subst, Option, some, List, ◌++◌, ◌==◌, ==_refl, ==_iff, Text, Key, text_key, update,
  inl, inr, Bool-cases,
}
use capy_amqp_cpp.Cache.View.{view}
use capy_amqp_cpp.Cache.Idle.{get-idle}
use capy_amqp_cpp.Connections.Lost.{assigned}
use capy_amqp_cpp.Connections.Reached.{PointsTo-assigned, assigned_or, assigned-IsPaired}
use capy_amqp_cpp.Broker.Registry.{Object, Effect, at_id}
use capy_amqp_cpp.Broker.Registry.Laws.{lookup, lookup-some}
use capy_amqp_cpp.Cache.Permanent.{live-permanent}
use capy_amqp_cpp.Broker.Numbered.{Within, Within-view}
use capy_amqp_cpp.Broker.Listen.Owners.{Listening, is_registered, is_held, and_then, on_listeners}
use capy_amqp_cpp.Broker.Listen.Invariant.{IsKept, IsKeptBut, owner, update-AllHeld}

module _ {ℓ} {K : Type ℓ} ⦃e : Key K⦄ (hash_thread : K → ℕ) (hash : Text → ℕ) where
  -- An operation runs, keeps the invariant and opens no id; `P` is what it gives besides.
  pub record Keeps (D : Type 0) (P : Listening K → Type 0) (s : Listening K)
      (x : Option (Listening K × List (Effect D))) : Type ℓ where
    pub after : Listening K
    pub effects : List (Effect D)
    pub runs : x ≡ some (after, effects)
    pub kept : IsKept hash_thread hash after
    pub within : Within hash after.listeners s.listeners
    pub post : P after

  pub and_then-Keeps :
      (D : Type 0) (P Q : Listening K → Type 0) (s : Listening K)
      (x : Option (Listening K × List (Effect D)))
      (f : Listening K → Option (Listening K × List (Effect D)))
      → Keeps D P s x
      → ((s' : Listening K) → IsKept hash_thread hash s' → P s' → Keeps D Q s' (f s'))
      → Keeps D Q s (and_then x f)
  and_then-Keeps D P Q s x f m h =
      let n = h m.after m.kept m.post in
      record {
        after = n.after;
        effects = m.effects ++ n.effects;
        runs = rw (m.runs, n.runs) refl;
        kept = n.kept;
        within = λ k o q. let (o', q') = n.within k o q in m.within k o' q';
        post = n.post;
      }

  -- A change of an object that is there, by whatever pointer it was reached.
  pub altered-Kept :
      (d : ℕ) (o o' : Object) (s : Listening K)
      → IsKept hash_thread hash s
      → s.listeners.objects d ≡ some o
      → IsKept hash_thread hash (record s {
        listeners = record s.listeners { objects = update s.listeners.objects d (some o') };
      })
  altered-Kept d o o' s w q = record {
    paired = w.paired;
    sound = record {
      permanent = w.sound.permanent;
      known = w.sound.known;
      alive = λ k j a. elim (Bool-cases (d == j.payload)) [
        | inl e' ↦ (o', rw e' refl)
        | inr e' ↦ let (x, p) = w.sound.alive k j a in (x, rw e' p)
      ];
      apart = w.sound.apart;
    };
    single = w.single;
    held = update-AllHeld s.connections s.listeners.objects d o' w.held;
    owned = λ n x a. elim (Bool-cases (d == n)) [
      | inl e' ↦ w.owned n o (subst (λ y. s.listeners.objects y ≡ some o) ((==_iff d n).0 e') q)
      | inr e' ↦ w.owned n x (rw e' at a)
    ];
  }

  -- An operation on the object behind an id.
  pub at_id-Keeps :
      (D : Type 0) (now : ℕ) (id : Text) (f : Object → Object × List (Effect D)) (s : Listening K)
      (o : Object)
      → IsKept hash_thread hash s
      → lookup hash s.listeners id ≡ some o
      → Keeps D
          (λ s'. (o' : Object) × (lookup hash s'.listeners id ≡ some o'))
          s
          (on_listeners (at_id hash now id f s.listeners) s)
  unfolding at_id
  at_id-Keeps D now id f s o w h =
      let (i, e, q) = lookup-some hash s.listeners id o h in
      let objects = update s.listeners.objects i.payload (some (f o).0) in
      record {
        after = record s { listeners = record s.listeners { objects = objects } };
        effects = (f o).1;
        runs =
            rw
              (
                get-idle hash now id s.listeners.ids
                    (live-permanent now (view hash s.listeners.ids id) (w.sound.permanent id)),
                e,
                q,
              )
              refl;
        kept = altered-Kept i.payload o (f o).0 s w q;
        within =
            Within-view hash (record s.listeners { objects = objects }) s.listeners w.sound
              (λ k j a. a);
        post = ((f o).0, rw (e, ==_refl i.payload) refl);
      }

  -- A connection is given another object, which is there, or none: the object that it pointed to may
  -- lose its last owner.
  pub assigned-KeptBut :
      (d : Option ℕ) (i : ℕ) (s : Listening K)
      → IsKept hash_thread hash s
      → ((m : ℕ) → d ≡ some m → (o : Object) × (s.listeners.objects m ≡ some o))
      → IsKeptBut hash_thread hash
          (s.connections.objects i).deferred
          (record s { connections = assigned d i s.connections })
  assigned-KeptBut d i s w alive =
      let c = assigned d i s.connections in
      record {
        paired = assigned-IsPaired hash_thread d i s.connections w.paired;
        sound = w.sound;
        single = w.single;
        held = λ k m p. elim (PointsTo-assigned d i s.connections k m p) [
          | inl q ↦ alive m q
          | inr q ↦ w.held k m q
        ];
        owned = λ m o a. elim (owner hash_thread hash s m o w a) [
          | inl r ↦ inr (or_left (is_held m c) r)
          | inr r ↦
              let (k, p) = PointsTo-is_held s.connections m r in
              elim (assigned_or d i s.connections k m p) [
                | inl q ↦ inl q
                | inr q ↦
                    inr (or_right (is_registered m s.listeners.ids) (is_held-PointsTo c k m q))
              ]
        ];
      }
