-- ===== src/Broker/Tests.antt =====
-- Tests of the broker: the properties at one fetch, with texts for json values.
mod Fetching
mod Replying
mod Listener
mod States
mod Working
mod Rpc
mod Destroyed
use capy_amqp_cpp.Broker.Bind.{Bound, Binding, bind, returned, threw, with_exchange, with_defaults}
use capy_amqp_cpp.Broker.Bind.Established.{bind-establishes, bind_threw}
use capy_amqp_cpp.Error.{Result}
use capy_amqp_cpp.Prelude.{is_some, false}
use capy_amqp_cpp.Prelude.{
  ℕ, ◌≡◌, ◌≢◌, refl, false, true, none, some, List, [], ◌∷◌, ◌++◌, map, Text, codes, nat_key,
  text_key, arith, is_empty,
}
use capy_amqp_cpp.Error.{value_of, is_error, ok_error, broker_error, data_response}
use capy_amqp_cpp.Address.{amqp}
use capy_amqp_cpp.Deferred.{is_good, call_if_set, data_call, error_call}
use capy_amqp_cpp.Cache.Shards.{find}
use capy_amqp_cpp.Cache.View.{view}
use capy_amqp_cpp.Cache
use capy_amqp_cpp.Connections.{ConnectionCache, new_channel}
use capy_amqp_cpp.Connections.Paired.{IsPaired, own}
use capy_amqp_cpp.Broker.Ids.{create_unique_id, print, print_digits}
use capy_amqp_cpp.Broker.Json.{Json, IsJson, Decoded, decoded, json_exception, std_exception}
use capy_amqp_cpp.Broker.Registry.{
  Registry, Object, Effect, command, call, declare_queue, exclusive, autodelete,
}
use capy_amqp_cpp.Broker.Registry.Laws.{lookup, IsSound}
use capy_amqp_cpp.Broker.Registry.Adding.{added, added-IsSound, lookup-added}
use capy_amqp_cpp.Broker.Fetch.{
  Event, Fetched, queue_declared, received, consuming, step, fetch_message, fresh_object,
}
use capy_amqp_cpp.Broker.Registry.Reachable.{AllReached, added-AllReached}
use capy_amqp_cpp.Broker.Numbered.{IsNumbered}
use capy_amqp_cpp.Broker.Fetch.Start.{fetch_message-starts}
use capy_amqp_cpp.Broker.Fetch.History.{Entry, run, of_id, outcomes, run-outcomes}
use capy_amqp_cpp.Broker.Fetch.Quiet.{finals}
use capy_amqp_cpp.Broker.Fetch.Once.{run-finalizes}
use capy_amqp_cpp.Broker.Reply.{reply_json, on_commit, reply_commands}
use capy_amqp_cpp.Broker.Reply.Delivery.{
  sent, ending_calls, reply_json-sent, on_commit-sent, reply-received, undecodable-received,
}
use capy_amqp_cpp.Broker.Publish.{Published, publish_message, publish_commands}
use capy_amqp_cpp.Error.{channel_message}
use capy_amqp_cpp.Broker.Registry.{ack}
use capy_amqp_cpp.Broker.Listen
use capy_amqp_cpp.Broker.Listen.{
  Request, Message, binding_failed, resets, at_listener, on_consume_failed, del_listener,
}
use capy_amqp_cpp.Broker.Listen.Owners.{Listening}
use capy_amqp_cpp.Broker.Listen.Served.{received-served, received-refused}
use capy_amqp_cpp.Broker.Listen.Requests.{on_binding_failed-undefined}

abbrev pub hash : Text → ℕ
hash s = 0

abbrev pub hash_thread : ℕ → ℕ
hash_thread n = n

-- A json library whose values are texts. An encoding has a byte in front.
abbrev decode_text : Text → Decoded Text
decode_text [] = json_exception (codes "end of input")
decode_text (c ∷ s) = decoded s

abbrev pub json : Json Text
json = record {
  null = [];
  string = λ t. t;
  number = λ n. n ∷ [];
  array = λ js. b'[' ∷ [];
  object = λ fields. b'{' ∷ [];
  is_empty = is_empty;
  to_msgpack = λ t. 1 ∷ t;
  from_msgpack = decode_text;
}

pub json-IsJson : IsJson json
json-IsJson = record {
  from_msgpack-to_msgpack = λ j. refl;
  is_empty-null = refl;
  is_empty-array = λ j js. refl;
}

abbrev pub no_fetchers : Registry
no_fetchers = record { ids = Cache.init false; objects = λ n. none; created = 0 }

pub no_fetchers-IsSound : IsSound hash no_fetchers
unfolding Cache.init view find
no_fetchers-IsSound = record {
  permanent = λ k i h. absurd (cc);
  known = λ k i h. absurd (cc);
  alive = λ k i h. absurd (cc);
  apart = λ k k' i i' h h' p. absurd (cc);
}

-- A fetch with a data handler, an error handler and a finalize handler.
abbrev pub open_fetch : Object
open_fetch = record {
  deferred = record {
    data_handler = some 1;
    success_handler = none;
    error_handler = some 2;
    finalize_handler = some 3;
    error = ok_error;
    failed = false;
  };
  channel = 0;
}

abbrev pub id : Text
id = codes "1"

abbrev pub fetchers : Registry
fetchers = added hash id open_fetch no_fetchers

pub fetchers-IsSound : IsSound hash fetchers
fetchers-IsSound = added-IsSound hash id open_fetch no_fetchers no_fetchers-IsSound

pub fetchers-lookup : lookup hash fetchers id ≡ some open_fetch
fetchers-lookup = lookup-added hash id open_fetch no_fetchers no_fetchers-IsSound

abbrev pub exchange : Text
exchange = codes "amq.topic"

pub open_fetch-good : is_good open_fetch.deferred ≡ true
unfolding is_good
open_fetch-good = refl

pub open_fetch-fine : is_error open_fetch.deferred.error ≡ false
unfolding is_error ok_error
open_fetch-fine = refl

abbrev pub connections : ConnectionCache ℕ
connections = record {
  address = record {
    protocol = amqp;
    login = record { user = codes "guest"; password = codes "guest" };
    hostname = codes "localhost";
    vhost = [];
    port = 5672;
  };
  heartbeat_timeout = 60;
  connections = Cache.init false;
  objects = λ n. record {
    endpoint = record { hostname = []; port = 0; username = []; password = []; vhost = [] };
    heartbeat_timeout = 0;
    deferred = none;
  };
  created = 0;
}

pub connections-IsPaired : IsPaired hash_thread connections
unfolding Cache.init view find
connections-IsPaired = record {
  permanent = λ k i h. absurd (cc);
  known = λ k i h. absurd (cc);
  apart = λ k k' i i' h h' p. absurd (cc);
  complete = λ n lt. elim lt [ ];
}

pub no_fetchers-IsNumbered : IsNumbered hash 1 no_fetchers
unfolding Cache.init view find
no_fetchers-IsNumbered = λ k i h. absurd (cc)

pub no_fetchers-AllReached : AllReached hash no_fetchers
no_fetchers-AllReached = λ n o h. absurd (cc)

id_1 : create_unique_id 1 ≡ some (codes "1", 2)
unfolding create_unique_id print print_digits
id_1 = refl

id_12 : create_unique_id 12 ≡ some (codes "12", 13)
unfolding create_unique_id print print_digits
id_12 = refl

pub fetchers-AllReached : AllReached hash fetchers
unfolding view find Cache.init
fetchers-AllReached = added-AllReached hash id open_fetch no_fetchers refl no_fetchers-AllReached
