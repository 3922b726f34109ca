-- ===== src/Broker/Process/Working/Safe.antt =====
-- Which steps of a broker at work (src/broker_impl/broker.cc) have a result, and histories of them.
use capy_amqp_cpp.Prelude.{
  arith, ℕ, ◌<◌, ◌≤◌, ◌≡◌, ◌≢◌, refl, some, List, [], ◌∷◌, ◌++◌, Text, Key, text_key,
}
use capy_amqp_cpp.Broker.Json.{Json, IsJson}
use capy_amqp_cpp.Broker.Registry.{Object}
use capy_amqp_cpp.Broker.Registry.Laws.{lookup}
use capy_amqp_cpp.Broker.Numbered.{later-IsNumbered}
use capy_amqp_cpp.Broker.Listen.{binding_failed}
use capy_amqp_cpp.Broker.Process.{
  Process, Deed, Action, fetch, listen, publish, commit, fetch_event, listen_event, fetch_used,
  listen_used, connection_failed, connection_lost, ids_taken, step, run,
}
use capy_amqp_cpp.Broker.Process.Working.{IsWorking, Works}
use capy_amqp_cpp.Broker.Process.Working.Uses.{fetch_used-Works, listen_used-Works}
use capy_amqp_cpp.Broker.Process.Working.Calls.{
  fetch-Works, listen-Works, publish-Works, commit-Works,
}
use capy_amqp_cpp.Broker.Process.Working.Events.{
  fetch_event-Works, listen_event-Works, connection_failed-Works, connection_lost-Works,
}

module _ {ℓ} {K : Type ℓ} {J : Type 0} where
  -- What the environment keeps to: errors come from connections that were opened, and the counter is
  -- only counted up.
  abbrev pub Possible : Action K J → Process K → Type 0
  Possible (connection_failed n message) s = n < s.impl.connections.created
  Possible (connection_lost n) s = n < s.impl.connections.created
  Possible (ids_taken counter) s = s.counter ≤ counter
  Possible _ s = Unit

  -- What the program needs to have a result: an id that the counter can still give, and, for the
  -- callback of a listener, that it is registered and that the callback is not that of a failed
  -- binding; and the object that a client calls a member of must not be destroyed.
  abbrev pub Safe : (Text → ℕ) → Action K J → Process K → Type 0
  Safe hash (fetch now thread message routing_key indeterminate) s = s.counter < 2147483647
  Safe hash (listen now thread indeterminate queue keys) s = s.counter < 2147483647
  Safe hash (listen_event now thread id event) s =
      ((o : Object) × (lookup hash s.impl.listeners id ≡ some o))
      × ((message : Text) → event ≢ binding_failed message)
  Safe hash (fetch_used n event) s = (o : Object) × (s.impl.fetchers.objects n ≡ some o)
  Safe hash (listen_used n event) s = (o : Object) × (s.impl.listeners.objects n ≡ some o)
  Safe hash _ s = Unit

module _ {ℓ} {K : Type ℓ} ⦃e : Key K⦄ {J : Type 0} (json : Json J) (hash_thread : K → ℕ)
    (hash : Text → ℕ) where
  pub step-safe :
      (a : Action K J) (s : Process K)
      → IsJson json
      → IsWorking hash_thread hash s
      → Possible a s
      → Safe hash a s
      → Works hash_thread hash J s (step json hash_thread hash a s)
  unfolding step
  step-safe (fetch now thread message routing_key indeterminate) s laws w possible safe =
      fetch-Works json hash_thread hash now thread message routing_key indeterminate s w safe
  step-safe (listen now thread indeterminate queue keys) s laws w possible safe =
      listen-Works json hash_thread hash now thread indeterminate queue keys s w safe
  step-safe (publish now thread message routing_key failure) s laws w possible safe =
      publish-Works json hash_thread hash now thread message routing_key failure s w
  step-safe (commit now thread cid replay_to message) s laws w possible safe =
      commit-Works json hash_thread hash now thread cid replay_to message s laws w
  step-safe (fetch_event now id event) s laws w possible safe =
      fetch_event-Works json hash_thread hash now id event s w
  step-safe (listen_event now thread id event) s laws w possible ((o, h), ne) =
      listen_event-Works json hash_thread hash now thread id event s o w h ne
  step-safe (fetch_used n event) s laws w possible (o, h) =
      fetch_used-Works json hash_thread hash n event s o w h
  step-safe (listen_used n event) s laws w possible (o, h) =
      listen_used-Works json hash_thread hash n event s o w h
  step-safe (connection_failed n message) s laws w possible safe =
      connection_failed-Works json hash_thread hash n message s w possible
  step-safe (connection_lost n) s laws w possible safe =
      connection_lost-Works json hash_thread hash n s w possible
  step-safe (ids_taken counter) s laws w possible safe = record {
    after = record s { counter = counter };
    deeds = [];
    runs = refl;
    working = record {
      listeners = w.listeners;
      fetchers = w.fetchers;
      listen_ids = later-IsNumbered hash s.counter counter s.impl.listeners possible w.listen_ids;
      fetch_ids = later-IsNumbered hash s.counter counter s.impl.fetchers possible w.fetch_ids;
      fetch_reached = w.fetch_reached;
      apart = w.apart;
    };
    ages = (possible, λ m lt h. h);
  }

  -- Each step of a history is possible and safe in the state that the ones before it left.
  abbrev pub SafeRun : List (Action K J) → Process K → Type ℓ
  SafeRun [] s = Unit
  SafeRun (a ∷ rest) s =
      Possible a s
      × Safe hash a s
      × ((s' : Process K) (ds : List (Deed J))
          → step json hash_thread hash a s ≡ some (s', ds)
          → SafeRun rest s')

  -- Any history of a broker at work has a result, and keeps its invariant, if each of its calls
  -- and callbacks, in any order and on any threads, is possible and safe in the state that the
  -- ones before it left. The invariant: each thread has a connection of its own for good, both
  -- registries are sound, their ids are all from the counter and none is in both, the map of
  -- listeners holds no id twice, no connection points to a listener that is destroyed, a listener
  -- that is not destroyed has an owner, and so has a fetch. Possible: an error comes from a
  -- connection that was opened, and other brokers only count the counter up. Safe: a fetch or a
  -- listener starts with the counter below the largest `int`, a callback of a listener finds it
  -- registered and is not that of a failed binding, and a client calls a member of a fetch or a
  -- listener only while it is not destroyed. And an id that was given out and leads to no listener
  -- leads to none after it. The json library is taken to find an array with an element not empty
  -- and the null value empty, and to decode what it encodes.
  pub run-Works :
      (history : List (Action K J)) (s : Process K)
      → IsJson json
      → IsWorking hash_thread hash s
      → SafeRun history s
      → Works hash_thread hash J s (run json hash_thread hash history s)
  unfolding run
  run-Works [] s laws w safe = record {
    after = s;
    deeds = [];
    runs = refl;
    working = w;
    ages = (omega arith, λ m lt h. h);
  }
  run-Works (a ∷ rest) s laws w (possible, needs, later) =
      let m = step-safe a s laws w possible needs in
      let n = run-Works rest m.after laws m.working (later m.after m.deeds m.runs) in
      record {
        after = n.after;
        deeds = m.deeds ++ n.deeds;
        runs = rw (m.runs, n.runs) refl;
        working = n.working;
        ages = (
          omega (arith, m.ages.0, n.ages.0),
          λ k lt h. n.ages.1 k (omega (arith, lt, m.ages.0)) (m.ages.1 k lt h),
        );
      }
