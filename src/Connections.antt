-- ===== src/Connections.antt =====
-- `Connection` and `ConnectionCache` of src/broker_impl/broker.h, and `ConnectionHandler` of
-- src/broker_impl/handler.h. A pointer to a connection is its number in the order of creation. The
-- thread that calls is an argument, as is the time that the cache reads. An operation that follows
-- an empty pointer has no result.
pub mod Paired
pub mod Lost
pub mod Reached
mod Tests
use capy_amqp_cpp.Prelude.{
  ℕ, zero, suc, Bool, true, false, Option, none, some, List, [], ◌∷◌, if◌then◌else◌, Text, codes,
  Key, update,
}
use capy_amqp_cpp.Error.{Error, broker_error, connection, connection_lost}
use capy_amqp_cpp.Address.{
  Address, Login, get_username, get_password, get_hostname, get_port, get_login, get_vhost,
}
use capy_amqp_cpp.Cache.Shards.{write_always}
use capy_amqp_cpp.Cache.{Cache, set, get, has, flush}

-- AMQP::Address, with the AMQP::Login in it.
pub record Endpoint : Type 0 where
  pub hostname : Text
  pub port : ℕ
  pub username : Text
  pub password : Text
  pub vhost : Text

unfoldable pub to_address : Address → Endpoint
unfolding get_username get_password get_hostname get_port get_login get_vhost
to_address address = record {
  hostname = get_hostname address;
  port = get_port address;
  username = get_username (get_login address);
  password = get_password (get_login address);
  vhost = get_vhost address;
}

-- A connection, with the state of its handler: the deferred object is named by its number.
pub record Connection : Type 0 where
  pub endpoint : Endpoint
  pub heartbeat_timeout : ℕ
  pub deferred : Option ℕ

pub record ConnectionCache {ℓ} (K : Type ℓ) : Type ℓ where
  pub address : Address
  pub heartbeat_timeout : ℕ
  pub connections : Cache K ℕ
  pub objects : ℕ → Connection
  pub created : ℕ

-- ConnectionHandler::onNegotiate
unfoldable pub on_negotiate : ℕ → Connection → ℕ
on_negotiate interval c = c.heartbeat_timeout

-- The error reports of `ConnectionHandler`: the deferred object to report to, and the error.
abbrev pub report_to : Option ℕ → Error → List (ℕ × Error)
report_to none error = []
report_to (some d) error = (d, error) ∷ []

unfoldable pub on_error : Text → Connection → List (ℕ × Error)
on_error message c = report_to c.deferred (broker_error connection (some message))

unfoldable pub on_lost : Connection → List (ℕ × Error)
on_lost c = report_to c.deferred (broker_error connection_lost (some (codes "connection lost")))

module _ {ℓ} {K : Type ℓ} where
  -- make_shared<Connection>(address_, loop_, heartbeat_timeout_)
  unfoldable pub make_connection : ConnectionCache K → ConnectionCache K × ℕ
  unfolding to_address
  make_connection c = (
    record c {
      objects = update c.objects c.created (record {
        endpoint = to_address c.address;
        heartbeat_timeout = c.heartbeat_timeout;
        deferred = none;
      });
      created = suc c.created;
    },
    c.created,
  )

  unfoldable pub flush_connections : ConnectionCache K → ConnectionCache K
  flush_connections c = record c { connections = (flush c.connections).0 }

  abbrev pub assign_deferred : Option ℕ → ConnectionCache K × Option ℕ → Option (ConnectionCache K)
  assign_deferred d (c, none) = none
  assign_deferred d (c, some n) =
      some (record c { objects = update c.objects n (record (c.objects n) { deferred = d }) })

-- `std::hash` of a thread's id is `hash`.
module _ {ℓ} {K : Type ℓ} ⦃e : Key K⦄ (hash : K → ℕ) where
  abbrev put : K → ConnectionCache K → ConnectionCache K × ℕ
  put id c =
      let (c', n) = make_connection c in
      (record c' { connections = (set hash id n 0 write_always c'.connections).0 }, n)

  abbrev fetch : ℕ → K → ConnectionCache K → ConnectionCache K × Option ℕ
  fetch now id c =
      let (cache, p) = get hash now id c.connections in (record c { connections = cache }, p)

  unfoldable pub get_connection : ℕ → K → ConnectionCache K → ConnectionCache K × Option ℕ
  unfolding make_connection
  get_connection now id c =
      let (cache, found) = has hash now id c.connections in
      let c' = record c { connections = cache } in
      if found then fetch now id c' else fetch now id (put id c').0

  -- The connection that the new channel is on.
  unfoldable pub new_channel : ℕ → K → ConnectionCache K → ConnectionCache K × Option ℕ
  unfolding make_connection
  new_channel now id c =
      let (cache, found) = has hash now id c.connections in
      let c' = record c { connections = cache } in
      let (c'', n) = put id c' in if found then fetch now id c' else (c'', some n)

  unfoldable pub set_deferred : ℕ → K → ℕ → ConnectionCache K → Option (ConnectionCache K)
  unfolding get_connection
  set_deferred now id d c = assign_deferred (some d) (get_connection now id c)

  unfoldable pub reset_deferred : ℕ → K → ConnectionCache K → Option (ConnectionCache K)
  unfolding get_connection
  reset_deferred now id c = assign_deferred none (get_connection now id c)
