-- ===== src/Broker/Teardown/Dangling.antt =====
-- The connections that the destructor of `BrokerImpl` (src/broker_impl/broker.cc) flushes, and the
-- pointers to listeners that go with them.
use capy_amqp_cpp.Prelude.{
  ℕ, ◌≡◌, ◌<◌, sym, ◌∙◌, subst, true, false, none, some, List, [], ◌∷◌, ◌==◌, ==_iff, Text, Key,
  text_key, inl, inr, Bool-cases, arith,
}
use capy_amqp_cpp.Cache.Shards.{Shard}
use capy_amqp_cpp.Cache.{Cache, shard_size}
use capy_amqp_cpp.Cache.Contents.{Has, Has-view, Has-payloads_at, payloads, shard_payloads}
use capy_amqp_cpp.Connections.{ConnectionCache, flush_connections}
use capy_amqp_cpp.Connections.Lost.{assigned}
use capy_amqp_cpp.Connections.Paired.{IsPaired}
use capy_amqp_cpp.Connections.Reached.{PointsTo}
use capy_amqp_cpp.Broker.Registry.{Object}
use capy_amqp_cpp.Broker.Listen.Owners.{Listening, is_registered, shard_has}
use capy_amqp_cpp.Broker.Listen.Pointers.{any_of-found, PointsTo-is_held}
use capy_amqp_cpp.Broker.Listen.Invariant.{IsKept, owner}
use capy_amqp_cpp.Broker.Listen.Invariant.Changes.{assigned-KeptBut}
use capy_amqp_cpp.Broker.Listen.Invariant.Dropping.{connections-drop_pointer, drop_pointer-Kept}
use capy_amqp_cpp.Broker.Teardown.{release_connection, release_connections, flush_all}

-- A registered object is behind some id.
shard_has-payloads : (n : ℕ) (s : Shard Text ℕ) → shard_has n s ≡ true → Has n (shard_payloads s)
unfolding shard_has shard_payloads
shard_has-payloads n [] h = absurd (cc)
shard_has-payloads n ((k, item) ∷ s) h = elim (Bool-cases (item.payload == n)) [
  | inl q ↦ inl ((==_iff item.payload n).0 q)
  | inr q ↦ inr (shard_has-payloads n s (rw q at h))
]

pub is_registered-payloads :
    (n : ℕ) (c : Cache Text ℕ) → is_registered n c ≡ true → Has n (payloads c)
unfolding is_registered payloads
is_registered-payloads n c h =
    let (k, lt, q) = any_of-found (λ j. shard_has n (c.shards j)) 0 shard_size h in
    Has-payloads_at n c 0 shard_size k (omega arith) lt (shard_has-payloads n (c.shards k) q)

module _ {ℓ} {K : Type ℓ} ⦃e : Key K⦄ (hash_thread : K → ℕ) (hash : Text → ℕ) (D : Type 0) where
  -- Every connection that was opened is flushed.
  created-payloads :
      (c : ConnectionCache K) (k : ℕ)
      → IsPaired hash_thread c
      → k < c.created
      → Has k (payloads c.connections)
  created-payloads c k w lt =
      let (id, i, h, p) = w.complete k lt in
      subst (λ x. Has x (payloads c.connections)) p (Has-view hash_thread id i c.connections h)

  release_connections-Kept :
      (ns : List ℕ) (s : Listening K)
      → IsKept hash_thread hash s
      → IsKept hash_thread hash (release_connections {D = D} ns s).0
  unfolding release_connections release_connection
  release_connections-Kept [] s w = w
  release_connections-Kept (n ∷ ns) s w =
      release_connections-Kept ns (release_connection {D = D} n s).0 (
        drop_pointer-Kept hash_thread hash D (s.connections.objects n).deferred
          (record s { connections = assigned none n s.connections })
          (assigned-KeptBut hash_thread hash none n s w (λ m p. absurd (cc))))

  PointsTo-release_connection :
      (m : ℕ) (s : Listening K) (k n : ℕ)
      → PointsTo (release_connection {D = D} m s).0.connections k n
      → PointsTo s.connections k n × (m ≡ k → ⊥)
  unfolding release_connection
  PointsTo-release_connection m s k n h =
      let (lt, p) : PointsTo (assigned none m s.connections) k n =
        subst (λ c. PointsTo c k n)
          (connections-drop_pointer hash_thread hash D (s.connections.objects m).deferred
            (record s { connections = assigned none m s.connections }))
          h in
      elim (Bool-cases (m == k)) [
        | inl q ↦ let bad : none ≡ some n = rw q at p in absurd (cc)
        | inr q ↦ (
          (lt, rw q at p),
          λ same. let bad : true ≡ false = sym ((==_iff m k).1 same) ∙ q in absurd (cc),
        )
      ]

  -- A connection that points to something after the loop was not in it.
  PointsTo-release_connections :
      (ns : List ℕ) (s : Listening K) (k n : ℕ)
      → PointsTo (release_connections {D = D} ns s).0.connections k n
      → PointsTo s.connections k n × (Has k ns → ⊥)
  unfolding release_connections
  PointsTo-release_connections [] s k n h = (h, λ x. x)
  PointsTo-release_connections (m ∷ ns) s k n h =
      let (p, out) = PointsTo-release_connections ns (release_connection {D = D} m s).0 k n h in
      let (q, ne) = PointsTo-release_connection m s k n p in
      (q, λ x. elim x [ inl same ↦ ne same | inr later ↦ out later ])

  -- After the flush no connection points to a listener, and a listener that is left is registered.
  no_pointer :
      (s : Listening K) (k n : ℕ)
      → IsKept hash_thread hash s
      → PointsTo
          (release_connections {D = D} (payloads s.connections.connections) s).0.connections
          k
          n
      → ⊥
  no_pointer s k n w h =
      let (p, out) = PointsTo-release_connections (payloads s.connections.connections) s k n h in
      out (created-payloads s.connections k w.paired p.0)

  pub PointsTo-flush_all :
      (s : Listening K) (k n : ℕ)
      → IsKept hash_thread hash s
      → PointsTo (flush_all {D = D} s).0.connections k n
      → ⊥
  unfolding flush_all flush_connections
  PointsTo-flush_all s k n w h = no_pointer s k n w h

  pub registered-flush_all :
      (s : Listening K) (n : ℕ) (o : Object)
      → IsKept hash_thread hash s
      → (flush_all {D = D} s).0.listeners.objects n ≡ some o
      → Has n (payloads (flush_all {D = D} s).0.listeners.ids)
  unfolding flush_all
  registered-flush_all s n o w h =
      let ns : List ℕ = payloads s.connections.connections in
      let s' = (release_connections {D = D} ns s).0 in
      elim (owner hash_thread hash s' n o (release_connections-Kept ns s w) h) [
        | inl r ↦ is_registered-payloads n s'.listeners.ids r
        | inr r ↦ let (k, p) = PointsTo-is_held s'.connections n r in absurd (no_pointer s k n w p)
      ]
