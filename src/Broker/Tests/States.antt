-- ===== src/Broker/Tests/States.antt =====
-- Brokers at work for the tests.
use capy_amqp_cpp.Prelude.{ℕ, ◌≡◌, refl, false, none, some, Text, nat_key, text_key, arith}
use capy_amqp_cpp.Cache
use capy_amqp_cpp.Cache.Shards.{find}
use capy_amqp_cpp.Cache.View.{view}
use capy_amqp_cpp.Cache.Metrics.{init-IsMap}
use capy_amqp_cpp.Broker.Ids.{print}
use capy_amqp_cpp.Broker.Registry.{Registry}
use capy_amqp_cpp.Broker.Registry.Laws.{lookup}
use capy_amqp_cpp.Broker.Registry.Adding.{added, added-IsSound, lookup-added}
use capy_amqp_cpp.Broker.Registry.Reachable.{added-AllReached}
use capy_amqp_cpp.Broker.Numbered.{added-IsNumbered, later-IsNumbered}
use capy_amqp_cpp.Broker.Listen.Invariant.{IsKept}
use capy_amqp_cpp.Broker.Listen.Adding.{added-Kept}
use capy_amqp_cpp.Broker.Facade.{listening}
use capy_amqp_cpp.Broker.Process.{Process}
use capy_amqp_cpp.Broker.Process.Working.{IsWorking}
use capy_amqp_cpp.Broker.Tests.{
  hash, hash_thread, exchange, connections, open_fetch, no_fetchers, connections-IsPaired,
  no_fetchers-IsSound, no_fetchers-IsNumbered, no_fetchers-AllReached,
}

-- A broker with no fetch and no listener.
abbrev pub idle : Process ℕ
idle = record {
  impl = record {
    exchange_name = exchange;
    connections = connections;
    fetchers = no_fetchers;
    listeners = no_fetchers;
  };
  counter = 1;
}

pub idle-Kept : IsKept hash_thread hash (listening idle.impl)
idle-Kept = record {
  paired = connections-IsPaired;
  sound = no_fetchers-IsSound;
  single = init-IsMap false;
  held = λ k n p. elim p.0 [ ];
  owned = λ n o h. absurd (cc);
}

pub idle-IsWorking : IsWorking hash_thread hash idle
unfolding Cache.init view find
idle-IsWorking = record {
  listeners = idle-Kept;
  fetchers = no_fetchers-IsSound;
  listen_ids = no_fetchers-IsNumbered;
  fetch_ids = no_fetchers-IsNumbered;
  fetch_reached = no_fetchers-AllReached;
  apart = λ k o o' h h'. absurd (cc);
}

-- With one fetch, and with one listener, that have a data handler each.
abbrev pub one : Registry
one = added hash (print 1) open_fetch no_fetchers

pub one-lookup : lookup hash one (print 1) ≡ some open_fetch
one-lookup = lookup-added hash (print 1) open_fetch no_fetchers no_fetchers-IsSound

no_fetchers-view : (k : Text) → view hash no_fetchers.ids k ≡ none
unfolding Cache.init view find
no_fetchers-view k = refl

abbrev pub client : Process ℕ
client = record { impl = record idle.impl { fetchers = one }; counter = 2 }

pub client-IsWorking : IsWorking hash_thread hash client
client-IsWorking = record {
  listeners = idle-Kept;
  fetchers = added-IsSound hash (print 1) open_fetch no_fetchers no_fetchers-IsSound;
  listen_ids = later-IsNumbered hash 1 2 no_fetchers (omega arith) no_fetchers-IsNumbered;
  fetch_ids = added-IsNumbered hash 1 open_fetch no_fetchers no_fetchers-IsNumbered;
  fetch_reached =
      added-AllReached hash (print 1) open_fetch no_fetchers (no_fetchers-view (print 1))
        no_fetchers-AllReached;
  apart = λ k o o' h h'. let bad : none ≡ some o' = rw (no_fetchers-view k) at h' in absurd (cc);
}

abbrev pub server : Process ℕ
server = record { impl = record idle.impl { listeners = one }; counter = 2 }

pub server-IsWorking : IsWorking hash_thread hash server
server-IsWorking = record {
  listeners =
      added-Kept hash_thread hash (print 1) open_fetch (listening idle.impl)
        (no_fetchers-view (print 1)) idle-Kept;
  fetchers = no_fetchers-IsSound;
  listen_ids = added-IsNumbered hash 1 open_fetch no_fetchers no_fetchers-IsNumbered;
  fetch_ids = later-IsNumbered hash 1 2 no_fetchers (omega arith) no_fetchers-IsNumbered;
  fetch_reached = no_fetchers-AllReached;
  apart = λ k o o' h h'. let bad : none ≡ some o = rw (no_fetchers-view k) at h in absurd (cc);
}
