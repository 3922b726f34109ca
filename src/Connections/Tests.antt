-- ===== src/Connections/Tests.antt =====
-- Tests of the connections: the properties at two threads.
use capy_amqp_cpp.Prelude.{ℕ, ◌≡◌, ◌≢◌, false, none, some, [], ◌∷◌, Text, codes, nat_key}
use capy_amqp_cpp.Error.{broker_error, connection, connection_lost}
use capy_amqp_cpp.Address.{Address, amqp}
use capy_amqp_cpp.Cache.{init}
use capy_amqp_cpp.Cache.Shards.{CacheItem, find}
use capy_amqp_cpp.Cache.View.{view}
use capy_amqp_cpp.Connections.{ConnectionCache, new_channel, set_deferred, on_error, on_lost}
use capy_amqp_cpp.Connections.Paired.{IsPaired, item_of, own, new_channel-IsPaired}
use capy_amqp_cpp.Connections.Lost.{on_error-set_deferred}

abbrev hash : ℕ → ℕ
hash n = n

abbrev address : Address
address = record {
  protocol = amqp;
  login = record { user = codes "guest"; password = codes "guest" };
  hostname = codes "localhost";
  vhost = [];
  port = 5672;
}

abbrev fresh : ConnectionCache ℕ
fresh = record {
  address = address;
  heartbeat_timeout = 60;
  connections = init false;
  objects = λ n. record {
    endpoint = record { hostname = []; port = 0; username = []; password = []; vhost = [] };
    heartbeat_timeout = 0;
    deferred = none;
  };
  created = 0;
}

fresh-IsPaired : IsPaired hash fresh
unfolding init view find
fresh-IsPaired = record {
  permanent = λ k i h. absurd (cc);
  known = λ k i h. absurd (cc);
  apart = λ k k' i i' h h' p. absurd (cc);
  complete = λ n lt. elim lt [ ];
}

-- Thread 7 has a connection.
abbrev one : ConnectionCache ℕ
one = (new_channel hash 0 7 fresh).0

one-IsPaired : IsPaired hash one
one-IsPaired = new_channel-IsPaired hash 0 7 fresh fresh-IsPaired

new_channel-IsPaired_example : IsPaired hash (new_channel hash 0 8 one).0
new_channel-IsPaired_example = new_channel-IsPaired hash 0 8 one one-IsPaired

on_error-set_deferred_example :
    (c' : ConnectionCache ℕ) × (set_deferred hash 0 7 3 one ≡ some c')
    × ((message : Text)
        → on_error message (c'.objects (own hash one 7))
          ≡ (3, broker_error connection (some message)) ∷ [])
    × (on_lost (c'.objects (own hash one 7))
        ≡ (3, broker_error connection_lost (some (codes "connection lost"))) ∷ [])
    × ((k : ℕ) (i : CacheItem ℕ)
        → item_of hash one k ≡ some i
        → 7 ≢ k
        → c'.objects i.payload ≡ one.objects i.payload)
on_error-set_deferred_example = on_error-set_deferred hash 0 7 3 one one-IsPaired

-- Thread 7's connection reports to the object 3.
abbrev listening : ConnectionCache ℕ
listening = record one { objects = λ n. record (one.objects n) { deferred = some 3 } }

listening-IsPaired : IsPaired hash listening
listening-IsPaired = record {
  permanent = one-IsPaired.permanent;
  known = one-IsPaired.known;
  apart = one-IsPaired.apart;
  complete = one-IsPaired.complete;
}
