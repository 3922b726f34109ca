-- ===== src/Lib.antt =====
-- A model of capy-amqp-cpp, a client library for remote calls and messages over AMQP, with the
-- theorems on its behaviour.
--
-- The parts of the program, and the files that model them:
--   * Errors (include/capy/amqp_common.h, src/amqp_common.cc, and the enumerations of the other
--     headers): Error.antt. `Error` is a condition with an optional text, `Result` the sum of a value
--     and an error; Error/Format.antt has `error_string` with the conversions of vsnprintf.
--   * The cache (include/capy/amqp_cache.h): Cache.antt, over the single shard of Cache/Shards.antt.
--     Each operation takes the cache and returns it with the result. Cache/View.antt sees the shards as
--     one map, Cache/Metrics.antt has the loops over the shards, Cache/Curator.antt the curator thread
--     as a state machine: its test, its sleep and the cull of one shard are steps, and the operations
--     come between any two of them.
--   * The pool (src/broker_impl/pool.h): Pool.antt; Pool/Threads.antt has the threads that share it, as
--     a step relation, with the wait on the condition variable and spurious wakeups. A thread may have
--     several objects and may return one that another acquired; a client is taken to return only what
--     `acquire` returned, and once, which the pool does not test.
--   * Deferred objects (include/capy/amqp_deferred.h): Deferred.antt. The handlers are numbers, and an
--     operation returns the list of the calls that it makes.
--   * Replays (include/capy/amqp_common.h, src/broker_impl/broker.h, src/broker_impl/broker.cc):
--     Replay.antt, in the same way.
--   * Addresses (include/capy/amqp_address.h, src/amqp_address.cc): Address.antt is `Address::From` and
--     the getters; Address/Matcher.antt the matcher of its regular expression, by backtracking, with
--     the captures; Address/Split.antt `split`; Address/Stoi.antt `std::stoi` with base 0.
--   * Connections (src/broker_impl/broker.h, src/broker_impl/handler.h): Connections.antt, the cache of
--     connections by thread over the model of the cache, and the error callbacks of a connection.
--   * The broker (src/broker_impl/broker.cc, src/deferred_mpl/): Broker/Ids.antt is `create_unique_id`,
--     Broker/Registry.antt the maps of deferred objects with the objects they point to,
--     Broker/Fetch.antt `fetch_message`, with the callback that captures its message and the other
--     callbacks, Broker/Listen.antt `listen_messages` and its callbacks, over the ownership of
--     listeners in Broker/Listen/Owners.antt, Broker/Reply.antt the commit handler that a listener
--     gives a replay, Broker/Publish.antt `publish_message`,
--     Broker/Bind.antt `Broker::Bind` of src/amqp_broker.cc, Broker/Facade.antt the class `Broker` of
--     include/capy/amqp_broker.h, and Broker/Json.antt the interface of the json library.
--   * The broker at work: Broker/Process.antt has every call of a client, the members of a fetch
--     or a listener that it calls by a reference, and every callback of AMQP-CPP as an action on one
--     state, with the counter of ids, and `run` for a history of them;
--     Broker/Process/Working.antt has the invariant, Broker/Process/Rpc.antt a whole remote call.
--     Broker/Teardown.antt is the destructor of `BrokerImpl`, over Cache/Contents.antt, which lists what
--     a cache lets go of.
--   * The environment: Environment.antt is `get_dotenv` of include/capy/amqp.h.
--
-- The broker keeps its fetches in a cache, from correlation ids to deferred objects, and opens their
-- channels on the connection that the calling thread has in another cache; the callbacks of AMQP-CPP
-- look the object up again and report to it. So Broker/Fetch.antt is over Cache, Deferred and
-- Connections: the callbacks are events, `step` is one of them, `run` of Broker/Fetch/History.antt a
-- history of them for any fetches, in any order. A pointer is the number of an object in the order of
-- creation, and following an empty pointer, or one to a destroyed object, has no result (`none`).
--
-- Bounds: the cache has its 256 shards, ports are checked against 65535, `int` has 32 bits in
-- `std::stoi` and in the counter of ids, whose overflow has no result. The only fuel is that of the
-- printed digits of an id, one more than the number, which is enough for its digits. Everything else is
-- structural recursion.
--
-- Not modelled: the network, AMQP-CPP, libuv, and the json library beyond its interface (what the
-- program asks of them is an effect or a parameter); handlers that throw or that change the object which
-- calls them; reports of one deferred object by several threads at once; calls of `create_unique_id` by
-- several threads at once, which increment a static counter without a lock (the model takes a call as
-- one step); what libuv and AMQP-CPP do when the broker is destroyed; `Task`, a queue of the dispatch
-- library that nothing here uses;
-- include/capy/amqp_expected.h and external/, which are copies of other projects.
mod Prelude
pub mod Error
pub mod Cache
pub mod Pool
pub mod Deferred
pub mod Replay
pub mod Address
pub mod Connections
pub mod Broker
pub mod Environment
