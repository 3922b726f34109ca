-- ===== src/Broker/Process/Working.antt =====
-- The invariant of a broker at work (src/broker_impl/broker.h), and the parts of a step that keep it.
pub mod Calls
pub mod Events
pub mod Uses
pub mod Safe
pub mod Needs
pub mod Ended
pub mod Bound
use capy_amqp_cpp.Prelude.{
  ℕ, ◌<◌, arith, ◌≤◌, ◌≡◌, refl, sym, subst, ◌∙◌, Option, none, some, List, Text, Key, text_key,
  inl, inr, Option-cases,
}
use capy_amqp_cpp.Cache.Shards.{CacheItem}
use capy_amqp_cpp.Cache.View.{view}
use capy_amqp_cpp.Connections.{ConnectionCache}
use capy_amqp_cpp.Broker.Registry.{Registry, Object}
use capy_amqp_cpp.Broker.Registry.Laws.{lookup, IsSound}
use capy_amqp_cpp.Broker.Registry.Reachable.{AllReached}
use capy_amqp_cpp.Broker.Ids.{print}
use capy_amqp_cpp.Broker.Numbered.{IsNumbered, Within, Within-IsNumbered}
use capy_amqp_cpp.Broker.Listen.Owners.{Listening}
use capy_amqp_cpp.Broker.Listen.Invariant.{IsKept}
use capy_amqp_cpp.Broker.Facade.{listening}
use capy_amqp_cpp.Broker.Process.{Process, Deed, Outcome}

-- No id is in both registries.
abbrev pub Apart : (Text → ℕ) → Registry → Registry → Type 0
Apart hash r r' =
    (k : Text) (o o' : Object) → lookup hash r k ≡ some o → lookup hash r' k ≡ some o' → ⊥

pub Apart-none :
    (hash : Text → ℕ) (r r' : Registry)
    → ((k : Text) (o : Object) → lookup hash r k ≡ some o → lookup hash r' k ≡ none)
    → Apart hash r r'
Apart-none hash r r' h k o o' a b = let bad : none ≡ some o' = sym (h k o a) ∙ b in absurd (cc)

pub Within-none :
    (hash : Text → ℕ) (r' r : Registry)
    → Within hash r' r
    → (k : Text) → lookup hash r k ≡ none
    → lookup hash r' k ≡ none
Within-none hash r' r within k h = elim (Option-cases (lookup hash r' k)) [
  | inl q ↦ q
  | inr (o, q) ↦ let (o', a) = within k o q in let bad : none ≡ some o' = sym h ∙ a in absurd (cc)
]

module _ {ℓ} {K : Type ℓ} ⦃e : Key K⦄ (hash_thread : K → ℕ) (hash : Text → ℕ) where
  -- The listeners and the connections are kept, the registry of fetches is sound and none of its objects
  -- is without an id, the ids of both were all given out by the counter, and none is in both.
  pub record IsWorking (s : Process K) : Type ℓ where
    pub listeners : IsKept hash_thread hash (listening s.impl)
    pub fetchers : IsSound hash s.impl.fetchers
    pub listen_ids : IsNumbered hash s.counter s.impl.listeners
    pub fetch_ids : IsNumbered hash s.counter s.impl.fetchers
    pub fetch_reached : AllReached hash s.impl.fetchers
    pub apart : Apart hash s.impl.fetchers s.impl.listeners

  -- Later: the counter has not gone back, and an id that was given out and leads to no listener leads
  -- to none.
  abbrev pub Ages : Process K → Process K → Type 0
  Ages s s' =
      (s.counter ≤ s'.counter)
      × ((m : ℕ)
          → m < s.counter
          → lookup hash s.impl.listeners (print m) ≡ none
          → lookup hash s'.impl.listeners (print m) ≡ none)

  -- A step has a result, which is later, and the invariant holds after it.
  pub record Works (J : Type 0) (s : Process K) (x : Outcome K J) : Type ℓ where
    pub after : Process K
    pub deeds : List (Deed J)
    pub runs : x ≡ some (after, deeds)
    pub working : IsWorking after
    pub ages : Ages s after

  pub Works-IsWorking :
      (J : Type 0) (s0 : Process K) (x : Outcome K J) (s : Process K) (ds : List (Deed J))
      → Works J s0 x
      → x ≡ some (s, ds)
      → IsWorking s
  Works-IsWorking J s0 x s ds m h =
      let p : some (m.after, m.deeds) ≡ some (s, ds) = sym m.runs ∙ h in
      let q : m.after ≡ s = cc in subst IsWorking q m.working

  pub Works-Ages :
      (J : Type 0) (s0 : Process K) (x : Outcome K J) (s : Process K) (ds : List (Deed J))
      → Works J s0 x
      → x ≡ some (s, ds)
      → Ages s0 s
  Works-Ages J s0 x s ds m h =
      let p : some (m.after, m.deeds) ≡ some (s, ds) = sym m.runs ∙ h in
      let q : m.after ≡ s = cc in subst (Ages s0) q m.ages

  -- The listeners and the connections change, and no id is opened.
  pub listeners-IsWorking :
      (s : Process K) (l : Listening K)
      → IsWorking s
      → IsKept hash_thread hash l
      → Within hash l.listeners s.impl.listeners
      → IsWorking (record s {
        impl = record s.impl { connections = l.connections; listeners = l.listeners };
      })
  listeners-IsWorking s l w kept within = record {
    listeners = kept;
    fetchers = w.fetchers;
    listen_ids =
        Within-IsNumbered hash s.counter l.listeners s.impl.listeners kept.sound within
          w.listen_ids;
    fetch_ids = w.fetch_ids;
    fetch_reached = w.fetch_reached;
    apart = λ k o o' a b. let (o'', c) = within k o' b in w.apart k o o'' a c;
  }

  -- So do the fetches.
  pub fetchers-IsWorking :
      (s : Process K) (r : Registry)
      → IsWorking s
      → IsSound hash r
      → AllReached hash r
      → Within hash r s.impl.fetchers
      → IsWorking (record s { impl = record s.impl { fetchers = r } })
  fetchers-IsWorking s r w sound reached within = record {
    listeners = w.listeners;
    fetchers = sound;
    listen_ids = w.listen_ids;
    fetch_ids = Within-IsNumbered hash s.counter r s.impl.fetchers sound within w.fetch_ids;
    fetch_reached = reached;
    apart = λ k o o' a b. let (o'', c) = within k o a in w.apart k o'' o' c b;
  }

  -- Connections alone change.
  pub connections-IsWorking :
      (s : Process K) (c : ConnectionCache K)
      → IsWorking s
      → IsKept hash_thread hash (record { connections = c; listeners = s.impl.listeners })
      → IsWorking (record s { impl = record s.impl { connections = c } })
  connections-IsWorking s c w kept =
      listeners-IsWorking s (record { connections = c; listeners = s.impl.listeners }) w kept
        (λ k o h. (o, h))
