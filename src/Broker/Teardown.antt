-- ===== src/Broker/Teardown.antt =====
-- The destructor of `BrokerImpl` (src/broker_impl/broker.cc): it flushes the connections, and then the
-- members go, the last one first: the thread of the loop, which is detached, the listeners, the fetches,
-- and the connections, of which none is left. A map lets go of its entries in an order that the standard
-- library leaves open: here in that of the lists.
pub mod Released
pub mod Dangling
pub mod Fetches
pub mod Freed
pub mod Lifetime
use capy_amqp_cpp.Prelude.{ℕ, Option, none, some, List, [], ◌∷◌, ◌++◌, Text, update}
use capy_amqp_cpp.Cache.{flush}
use capy_amqp_cpp.Cache.Contents.{payloads}
use capy_amqp_cpp.Connections.{ConnectionCache, flush_connections}
use capy_amqp_cpp.Connections.Lost.{assigned}
use capy_amqp_cpp.Broker.Registry.{Registry, Object, Effect, release_object}
use capy_amqp_cpp.Broker.Listen.{Request}
use capy_amqp_cpp.Broker.Listen.Owners.{Listening, drop_pointer}
use capy_amqp_cpp.Broker.Bind.{BrokerImpl}
use capy_amqp_cpp.Broker.Facade.{listening}

module _ {ℓ} {K : Type ℓ} {D : Type 0} where
  -- A connection goes, with its handler and the pointer in it.
  unfoldable pub release_connection : ℕ → Listening K → Listening K × List (Effect D)
  release_connection n s =
      drop_pointer (s.connections.objects n).deferred
        (record s { connections = assigned none n s.connections })

  unfoldable pub release_connections : List ℕ → Listening K → Listening K × List (Effect D)
  release_connections [] s = (s, [])
  release_connections (n ∷ ns) s =
      let (s', es) = release_connection n s in
      let (s'', es') = release_connections ns s' in (s'', es ++ es')

  -- connections_->flush()
  unfoldable pub flush_all : Listening K → Listening K × List (Effect D)
  flush_all s =
      let (s', es) = release_connections (payloads s.connections.connections) s in
      (record s' { connections = flush_connections s'.connections }, es)

  unfoldable pub drop_pointers : List ℕ → Listening K → Listening K × List (Effect D)
  drop_pointers [] s = (s, [])
  drop_pointers (n ∷ ns) s =
      let (s', es) = drop_pointer (some n) s in
      let (s'', es') = drop_pointers ns s' in (s'', es ++ es')

  -- listeners_
  unfoldable pub destroy_listeners : Listening K → Listening K × List (Effect D)
  destroy_listeners s =
      drop_pointers (payloads s.listeners.ids)
        (record s { listeners = record s.listeners { ids = (flush s.listeners.ids).0 } })

module _ {D : Type 0} where
  unfoldable pub release_objects : List ℕ → Registry → Registry × List (Effect D)
  release_objects [] r = (r, [])
  release_objects (n ∷ ns) r =
      let (r', es) = release_object n (r.objects n) r in
      let (r'', es') = release_objects ns r' in (r'', es ++ es')

  -- fetchers_
  unfoldable pub destroy_fetchers : Registry → Registry × List (Effect D)
  destroy_fetchers r = release_objects (payloads r.ids) (record r { ids = (flush r.ids).0 })

-- What is left, and what is done for the listeners and for the fetches.
unfoldable pub destroy_impl {ℓ} :
    {K : Type ℓ} {J : Type 0}
    → BrokerImpl K
    → BrokerImpl K × List (Effect (Request J)) × List (Effect J)
destroy_impl impl =
    let (s, es) = flush_all (listening impl) in
    let (s', es') = destroy_listeners s in
    let (r, fs) = destroy_fetchers impl.fetchers in
    (
      record impl { connections = s'.connections; listeners = s'.listeners; fetchers = r },
      es ++ es',
      fs,
    )
