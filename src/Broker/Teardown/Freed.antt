-- ===== src/Broker/Teardown/Freed.antt =====
-- What is left after the destructor of `BrokerImpl` (src/broker_impl/broker.cc), and what it has done.
use capy_amqp_cpp.Prelude.{
  ℕ, ◌≡◌, ◌⊎◌, refl, sym, ◌∙◌, subst, true, false, ◌||◌, none, some, List, [], ◌∷◌, ◌++◌, map, ◌==◌,
  ==_iff, Text, Key, text_key, inl, inr, Bool-cases, Option-cases, arith,
}
use capy_amqp_cpp.Deferred.{destroy}
use capy_amqp_cpp.Cache.{Cache, shard_size, flush}
use capy_amqp_cpp.Cache.Metrics.{flush_shards-range}
use capy_amqp_cpp.Cache.Contents.{Has, payloads}
use capy_amqp_cpp.Connections.Reached.{PointsTo}
use capy_amqp_cpp.Broker.Registry.{Object, Effect, call}
use capy_amqp_cpp.Broker.Listen.{Request}
use capy_amqp_cpp.Broker.Listen.Owners.{Listening, drop_pointer, is_registered, is_held, shard_has}
use capy_amqp_cpp.Broker.Listen.Pointers.{any_of-found, PointsTo-is_held}
use capy_amqp_cpp.Broker.Listen.Invariant.{IsKept}
use capy_amqp_cpp.Broker.Listen.Invariant.Dropping.{connections-drop_pointer}
use capy_amqp_cpp.Broker.Bind.{BrokerImpl}
use capy_amqp_cpp.Broker.Facade.{listening}
use capy_amqp_cpp.Broker.Registry.Reachable.{AllReached}
use capy_amqp_cpp.Broker.Teardown.{drop_pointers, flush_all, destroy_listeners, destroy_impl}
use capy_amqp_cpp.Broker.Teardown.Released.{
  Part, Destroys, append-Destroys, release_connections-Destroys, drop_pointers-Destroys,
}
use capy_amqp_cpp.Broker.Teardown.Fetches.{destroy_fetchers-none, destroy_fetchers-effects}
use capy_amqp_cpp.Broker.Teardown.Dangling.{PointsTo-flush_all, registered-flush_all}

-- No listener has an owner.
abbrev Unowned {ℓ} : {K : Type ℓ} → Listening K → Type 0
Unowned s = (n : ℕ) → (is_registered n s.listeners.ids || is_held n s.connections) ≡ false

module _ {ℓ} {K : Type ℓ} (D : Type 0) where
  -- The last pointer to an object takes it with it.
  drop_pointer-none :
      (m : ℕ) (s : Listening K)
      → Unowned s
      → Unowned (drop_pointer {D = D} (some m) s).0
        × ((drop_pointer {D = D} (some m) s).0.listeners.objects m ≡ none)
        × ((n : ℕ)
            → s.listeners.objects n ≡ none
            → (drop_pointer {D = D} (some m) s).0.listeners.objects n ≡ none)
  drop_pointer-none m s u = elim (Option-cases (s.listeners.objects m)) [
    | inl q ↦ rw (u m, q) (u, q, λ n h. h)
    | inr (o, q) ↦
        rw (u m, q)
          (
            u,
            rw ((==_iff m m).1 refl) refl,
            λ n h. elim (Bool-cases (m == n)) [ inl e ↦ rw e refl | inr e ↦ rw e h ],
          )
  ]

  drop_pointers-none :
      (ns : List ℕ) (s : Listening K) (n : ℕ)
      → Unowned s
      → (s.listeners.objects n ≡ none) ⊎ Has n ns
      → (drop_pointers {D = D} ns s).0.listeners.objects n ≡ none
  unfolding drop_pointers
  drop_pointers-none [] s n u (inl h) = h
  drop_pointers-none [] s n u (inr h) = absurd h
  drop_pointers-none (m ∷ ns) s n u h =
      let (u', gone, others) = drop_pointer-none m s u in
      let s' = (drop_pointer {D = D} (some m) s).0 in
      drop_pointers-none ns s' n u' (elim h [
        | inl a ↦ inl (others n a)
        | inr x ↦ elim x [
          | inl same ↦ inl (subst (λ j. s'.listeners.objects j ≡ none) same gone)
          | inr later ↦ inr later
        ]
      ])

  connections-drop_pointers :
      ⦃e : Key K⦄ (hash_thread : K → ℕ) (hash : Text → ℕ) (ns : List ℕ) (s : Listening K)
      → (drop_pointers {D = D} ns s).0.connections ≡ s.connections
  unfolding drop_pointers
  connections-drop_pointers hash_thread hash [] s = refl
  connections-drop_pointers hash_thread hash (m ∷ ns) s =
      connections-drop_pointers hash_thread hash ns (drop_pointer {D = D} (some m) s).0
      ∙ connections-drop_pointer hash_thread hash D (some m) s

is_registered-flush : (n : ℕ) (c : Cache Text ℕ) → is_registered n (flush c).0 ≡ false
unfolding is_registered flush shard_has
is_registered-flush n c = elim (Bool-cases (is_registered n (flush c).0)) [
  | inr q ↦ q
  | inl q ↦
      let (k, lt, h) = any_of-found (λ j. shard_has n ((flush c).0.shards j)) 0 shard_size q in
      let empty : (flush c).0.shards k ≡ [] =
        flush_shards-range 0 shard_size k c 0 (omega arith) lt in
      let bad : false ≡ true = rw empty at h in absurd (cc)
]

module _ {ℓ} {K : Type ℓ} ⦃e : Key K⦄ (hash_thread : K → ℕ) (hash : Text → ℕ) where
  unowned :
      (s : Listening K)
      → ((k n : ℕ) → PointsTo s.connections k n → ⊥)
      → Unowned (record s { listeners = record s.listeners { ids = (flush s.listeners.ids).0 } })
  unowned s free n = elim (Bool-cases (is_held n s.connections)) [
    | inl q ↦ let (k, p) = PointsTo-is_held s.connections n q in absurd (free k n p)
    | inr q ↦ rw (is_registered-flush n s.listeners.ids, q) refl
  ]

  module _ (D : Type 0) (s : Listening K) (w : IsKept hash_thread hash s) where
    abbrev flushed : Listening K
    flushed = (flush_all {D = D} s).0

    abbrev left : Listening K
    left = (destroy_listeners {D = D} flushed).0

    destroy_listeners-none : (n : ℕ) → left.listeners.objects n ≡ none
    unfolding destroy_listeners
    destroy_listeners-none n =
        drop_pointers-none D (payloads flushed.listeners.ids) _ n
          (unowned flushed (λ k m. PointsTo-flush_all hash_thread hash D s k m w))
          (elim (Option-cases (flushed.listeners.objects n)) [
            | inl q ↦ inl q
            | inr (o, q) ↦ inr (registered-flush_all hash_thread hash D s n o w q)
          ])

    destroy_listeners-free : (k n : ℕ) → PointsTo left.connections k n → ⊥
    unfolding destroy_listeners
    destroy_listeners-free k n h = PointsTo-flush_all hash_thread hash D s k n w (
        subst (λ c. PointsTo c k n)
          (connections-drop_pointers D hash_thread hash (payloads flushed.listeners.ids) _) h)

    destroy_listeners-Destroys :
        Destroys s.listeners.objects left.listeners.objects
          ((flush_all {D = D} s).1 ++ (destroy_listeners {D = D} flushed).1)
    unfolding flush_all destroy_listeners
    destroy_listeners-Destroys =
        append-Destroys s.listeners.objects flushed.listeners.objects left.listeners.objects _ _
          (release_connections-Destroys (payloads s.connections.connections) s)
          (drop_pointers-Destroys (payloads flushed.listeners.ids) _)

    destroyed-effects :
        (n : ℕ) (o : Object)
        → s.listeners.objects n ≡ some o
        → Part {A = Effect D}
            (map call (destroy o.deferred))
            ((flush_all {D = D} s).1 ++ (destroy_listeners {D = D} flushed).1)
    destroyed-effects n o h = elim (destroy_listeners-Destroys n o h) [
      | inl a ↦ let bad : none ≡ some o = sym (destroy_listeners-none n) ∙ a in absurd (cc)
      | inr p ↦ p
    ]

module _ {ℓ} {K : Type ℓ} ⦃e : Key K⦄ (hash_thread : K → ℕ) (hash : Text → ℕ) (J : Type 0) where
  -- Given the invariant that a broker at work keeps of its connections, listeners and fetches:
  -- after the destructor of `BrokerImpl` no connection points to a deferred object, and no
  -- listener and no fetch is left; and for each listener and for each fetch that was there the
  -- calls of its destructor were done: that of its error handler, if an error was still to be
  -- reported, and that of its finalizer.
  pub destroy_impl-frees :
      (impl : BrokerImpl K)
      → IsKept hash_thread hash (listening impl)
      → AllReached hash impl.fetchers
      → let (after, es, fs) = destroy_impl {J = J} impl in
        ((k n : ℕ) → PointsTo after.connections k n → ⊥)
        × ((n : ℕ) → after.listeners.objects n ≡ none)
        × ((n : ℕ) → after.fetchers.objects n ≡ none)
        × ((n : ℕ) (o : Object)
            → impl.listeners.objects n ≡ some o
            → Part (map call (destroy o.deferred)) es)
        × ((n : ℕ) (o : Object)
            → impl.fetchers.objects n ≡ some o
            → Part (map call (destroy o.deferred)) fs)
  unfolding destroy_impl
  destroy_impl-frees impl w reached = (
    destroy_listeners-free hash_thread hash (Request J) (listening impl) w,
    destroy_listeners-none hash_thread hash (Request J) (listening impl) w,
    destroy_fetchers-none J hash impl.fetchers reached,
    destroyed-effects hash_thread hash (Request J) (listening impl) w,
    destroy_fetchers-effects J hash impl.fetchers reached,
  )
