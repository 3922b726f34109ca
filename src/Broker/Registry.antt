-- ===== src/Broker/Registry.antt =====
-- The maps `fetchers_` and `listeners_` of src/broker_impl/broker.h, with the objects of
-- src/deferred_mpl/deferred.h that they point to. A pointer is the number of an object in the order
-- of creation; an object that is destroyed is `none`. An operation that follows an empty pointer, or
-- one to a destroyed object, has no result.
pub mod Laws
pub mod Others
pub mod Refines
pub mod Adding
pub mod Reachable
use capy_amqp_cpp.Prelude.{
  ℕ, suc, Bool, true, false, Option, none, some, List, [], ◌∷◌, ◌++◌, map, if◌then◌else◌, Text,
  update, text_key,
}
use capy_amqp_cpp.Error.{ok_error}
use capy_amqp_cpp.Deferred.{Deferred, Call, init, destroy}
use capy_amqp_cpp.Cache.Shards.{CacheItem, write_always}
use capy_amqp_cpp.Cache.{Cache, set, get, has, del}
use capy_amqp_cpp.Cache.View.{view}

-- The contents and the properties of AMQP::Envelope that the program sets.
pub record Envelope : Type 0 where
  pub body : Text
  pub delivery_mode : Option ℕ
  pub correlation_id : Option Text
  pub reply_to : Option Text

-- The flags of AMQP-CPP that the program passes; `topic` is a type of exchange.
pub data Flag : Type 0 where
  exclusive autodelete mandatory noack durable topic : Flag

-- What the program asks of a channel.
pub data Command : Type 0 where
  declare_exchange : Text → List Flag → Command
  declare_queue : Text → List Flag → Command
  bind_queue : Text → Text → Text → Command
  start_transaction commit_transaction : Command
  publish : Text → Text → Envelope → List Flag → Command
  consume : Text → List Flag → Command
  ack : ℕ → Command

-- What an operation does: a command to a channel of a connection, or a call of a handler.
pub data Effect {ℓ} (D : Type ℓ) : Type ℓ where
  command : ℕ → Command → Effect D
  call : Call D → Effect D

-- DeferredFetching, DeferredListening: the channel is given by its connection.
pub record Object : Type 0 where
  pub deferred : Deferred
  pub channel : ℕ

pub record Registry : Type 0 where
  pub ids : Cache Text ℕ
  pub objects : ℕ → Option Object
  pub created : ℕ

module _ {ℓ} {D : Type ℓ} where
  -- One operation after another; the effects are in order.
  abbrev pub add_effects :
      List (Effect D) → Option (Registry × List (Effect D)) → Option (Registry × List (Effect D))
  add_effects es none = none
  add_effects es (some (r, es')) = some (r, es ++ es')

  abbrev pub and_then :
      Option (Registry × List (Effect D))
      → (Registry → Option (Registry × List (Effect D)))
      → Option (Registry × List (Effect D))
  and_then none f = none
  and_then (some (r, es)) f = add_effects es (f r)

  -- An operation on the object behind a pointer.
  abbrev pub at_live :
      (Object → Object × List (Effect D))
      → ℕ
      → Option Object
      → Registry
      → Option (Registry × List (Effect D))
  at_live f n none r = none
  at_live f n (some o) r =
      let (o', effects) = f o in some (record r { objects = update r.objects n (some o') }, effects)

  abbrev pub at_object :
      (Object → Object × List (Effect D))
      → Option ℕ
      → Registry
      → Option (Registry × List (Effect D))
  at_object f none r = none
  at_object f (some n) r = at_live f n (r.objects n) r

  abbrev pub reporting : (Deferred → Deferred × List (Call D)) → Object → Object × List (Effect D)
  reporting report o =
      let (d, calls) = report o.deferred in (record o { deferred = d }, map call calls)

  -- The last pointer to an object goes away.
  abbrev pub release_object : ℕ → Option Object → Registry → Registry × List (Effect D)
  release_object n none r = (r, [])
  release_object n (some o) r =
      (record r { objects = update r.objects n none }, map call (destroy o.deferred))

  abbrev pub release : Option (CacheItem ℕ) → Registry → Registry × List (Effect D)
  release none r = (r, [])
  release (some item) r = release_object item.payload (r.objects item.payload) r

-- `hash` is `std::hash` of a string.
module _ {ℓ} {D : Type ℓ} (hash : Text → ℕ) (now : ℕ) (id : Text) where
  -- `get(id)->`
  unfoldable pub at_id :
      (Object → Object × List (Effect D)) → Registry → Option (Registry × List (Effect D))
  at_id f r = let (cache, p) = get hash now id r.ids in at_object f p (record r { ids = cache })

  -- `if (has(id)) ...`
  unfoldable pub if_has :
      (Registry → Option (Registry × List (Effect D)))
      → Registry
      → Option (Registry × List (Effect D))
  if_has f r =
      let (cache, found) = has hash now id r.ids in
      let r' = record r { ids = cache } in let done = f r' in if found then done else some (r', [])

  -- `del(id)`
  unfoldable pub forget : Registry → Registry × List (Effect D)
  forget r = release (view hash r.ids id) (record r { ids = (del hash id r.ids).0 })

  -- `set(id, make_shared(...))`, which lets go of the object that was there before.
  unfoldable pub add : Object → Registry → Registry × List (Effect D)
  add o r = release (view hash r.ids id) (record r {
    ids = (set hash id r.created 0 write_always r.ids).0;
    objects = update r.objects r.created (some o);
    created = suc r.created;
  })
