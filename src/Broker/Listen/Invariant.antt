-- ===== src/Broker/Listen/Invariant.antt =====
-- What holds of the listeners of src/broker_impl/broker.cc, and of the connections that share them,
-- between two callbacks.
pub mod Dropping
pub mod Changes
use capy_amqp_cpp.Broker.Listen.Pointers.{
  is_held-PointsTo, PointsTo-is_held, or_left, or_right, or_cases,
}
use capy_amqp_cpp.Broker.Listen.Kept.{Same-drop_pointer}
use capy_amqp_cpp.Prelude.{
  ℕ, ◌≡◌, ◌⊎◌, Bool, refl, sym, subst, ◌∙◌, true, false, ◌||◌, Option, none, some, List, ◌++◌, ◌==◌,
  ==_refl, ==_iff, Text, Key, text_key, update, inl, inr, Bool-cases, Option-cases,
}
use capy_amqp_cpp.Cache.View.{view}
use capy_amqp_cpp.Cache.Metrics.{IsMap}
use capy_amqp_cpp.Cache.Idle.{get-idle}
use capy_amqp_cpp.Connections.{ConnectionCache}
use capy_amqp_cpp.Connections.Paired.{IsPaired}
use capy_amqp_cpp.Connections.Lost.{assigned}
use capy_amqp_cpp.Connections.Reached.{PointsTo, PointsTo-assigned, assigned_or, assigned-IsPaired}
use capy_amqp_cpp.Broker.Registry.{Object, Effect, at_id}
use capy_amqp_cpp.Broker.Registry.Laws.{lookup, lookup-some, IsSound}
use capy_amqp_cpp.Cache.Permanent.{live-permanent}
use capy_amqp_cpp.Broker.Numbered.{Within, Within-view}
use capy_amqp_cpp.Broker.Listen.Owners.{
  Listening, drop_pointer, is_registered, is_held, and_then, on_listeners,
}

-- An object that is destroyed is pointed to by no connection.
abbrev pub AllHeld {ℓ} : {K : Type ℓ} → ConnectionCache K → (ℕ → Option Object) → Type 0
AllHeld c objects = (k n : ℕ) → PointsTo c k n → (o : Object) × (objects n ≡ some o)

-- A change that makes no object go.
pub update-AllHeld {ℓ} :
    {K : Type ℓ} (c : ConnectionCache K) (objects : ℕ → Option Object) (i : ℕ) (o : Object)
    → AllHeld c objects
    → AllHeld c (update objects i (some o))
update-AllHeld c objects i o h k n p = elim (Bool-cases (i == n)) [
  | inl e ↦ (o, rw e refl)
  | inr e ↦ let (o', q) = h k n p in (o', rw e q)
]

module _ {ℓ} {K : Type ℓ} ⦃e : Key K⦄ (hash_thread : K → ℕ) (hash : Text → ℕ) where
  -- The connections are paired with threads, the registry of listeners is sound and its map holds no
  -- id twice, no connection points to an object that is destroyed, and an object that is not has an
  -- owner, the map or a connection; but for the object whose pointer is about to go.
  pub record IsKeptBut (p : Option ℕ) (s : Listening K) : Type ℓ where
    pub paired : IsPaired hash_thread s.connections
    pub sound : IsSound hash s.listeners
    pub single : IsMap s.listeners.ids
    pub held : AllHeld s.connections s.listeners.objects
    pub owned :
        (n : ℕ) (o : Object)
        → s.listeners.objects n ≡ some o
        → (p ≡ some n) ⊎ ((is_registered n s.listeners.ids || is_held n s.connections) ≡ true)

  abbrev pub IsKept : Listening K → Type ℓ
  IsKept = IsKeptBut none

  -- An object that is not destroyed has an owner.
  pub owner :
      (s : Listening K) (n : ℕ) (o : Object)
      → IsKept s
      → s.listeners.objects n ≡ some o
      → (is_registered n s.listeners.ids ≡ true) ⊎ (is_held n s.connections ≡ true)
  owner s n o w h = elim (w.owned n o h) [
    | inl p ↦ absurd (cc)
    | inr r ↦ or_cases (is_registered n s.listeners.ids) (is_held n s.connections) r
  ]
