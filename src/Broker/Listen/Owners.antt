-- ===== src/Broker/Listen/Owners.antt =====
-- The owners of the listeners of src/broker_impl/broker.cc: `listeners_`, and the connections.
use capy_amqp_cpp.Prelude.{
  ℕ, Bool, false, ◌||◌, Option, none, some, List, [], ◌∷◌, ◌++◌, map, ◌==◌, if◌then◌else◌, Text,
  indices, update,
}
use capy_amqp_cpp.Deferred.{destroy}
use capy_amqp_cpp.Cache.Shards.{Shard}
use capy_amqp_cpp.Cache.{Cache, shard_size}
use capy_amqp_cpp.Connections.{ConnectionCache}
use capy_amqp_cpp.Broker.Registry.{Registry, Object, Effect, call}

pub record Listening {ℓ} (K : Type ℓ) : Type ℓ where
  pub connections : ConnectionCache K
  pub listeners : Registry

-- A map, or a connection, points to the object `n`.
unfoldable pub shard_has : ℕ → Shard Text ℕ → Bool
shard_has n [] = false
shard_has n ((k, item) ∷ s) = item.payload == n || shard_has n s

abbrev points_to : ℕ → Option ℕ → Bool
points_to n none = false
points_to n (some m) = m == n

abbrev pub any_of : (ℕ → Bool) → List ℕ → Bool
any_of p [] = false
any_of p (n ∷ ns) = p n || any_of p ns

unfoldable pub is_registered : ℕ → Cache Text ℕ → Bool
is_registered n c = any_of (λ i. shard_has n (c.shards i)) (indices 0 shard_size)

unfoldable pub is_held {ℓ} : {K : Type ℓ} → ℕ → ConnectionCache K → Bool
is_held n c = any_of (λ i. points_to n (c.objects i).deferred) (indices 0 c.created)

module _ {ℓ} {K : Type ℓ} {D : Type 0} where
  abbrev pub destroy_object : ℕ → Option Object → Listening K → Listening K × List (Effect D)
  destroy_object n none s = (s, [])
  destroy_object n (some o) s = (
    record s { listeners = record s.listeners { objects = update s.listeners.objects n none } },
    map call (destroy o.deferred),
  )

  -- A pointer to an object goes away.
  abbrev pub drop_pointer : Option ℕ → Listening K → Listening K × List (Effect D)
  drop_pointer none s = (s, [])
  drop_pointer (some n) s =
      if is_registered n s.listeners.ids || is_held n s.connections
      then (s, [])
      else destroy_object n (s.listeners.objects n) s

  -- One operation after another; the effects are in order.
  abbrev pub add_effects :
      List (Effect D)
      → Option (Listening K × List (Effect D))
      → Option (Listening K × List (Effect D))
  add_effects es none = none
  add_effects es (some (s, es')) = some (s, es ++ es')

  abbrev pub and_then :
      Option (Listening K × List (Effect D))
      → (Listening K → Option (Listening K × List (Effect D)))
      → Option (Listening K × List (Effect D))
  and_then none f = none
  and_then (some (s, es)) f = add_effects es (f s)

  -- An operation on the listeners alone.
  abbrev pub on_listeners :
      Option (Registry × List (Effect D)) → Listening K → Option (Listening K × List (Effect D))
  on_listeners none s = none
  on_listeners (some (r, es)) s = some (record s { listeners = r }, es)

  -- A connection points to another object now.
  abbrev pub with_connections :
      Option ℕ → Option (ConnectionCache K) → Listening K → Option (Listening K × List (Effect D))
  with_connections old none s = none
  with_connections old (some c) s = some (drop_pointer old (record s { connections = c }))
