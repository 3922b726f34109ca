-- ===== src/Broker/Process/Working/Events.antt =====
-- The callbacks of AMQP-CPP (src/broker_impl/broker.cc, src/broker_impl/handler.h) in a broker at work.
use capy_amqp_cpp.Broker.Ids.{print}
use capy_amqp_cpp.Broker.Process.Working.{Within-none}
use capy_amqp_cpp.Prelude.{
  arith, ℕ, ◌<◌, ◌≡◌, ◌≢◌, refl, sym, ap, ◌∙◌, Option, none, some, List, [], ◌++◌, map, update,
  Text, Key, text_key, inl, inr, Option-cases, ◌=?=◌, =?=_iff, Bool-cases, true,
}
use capy_amqp_cpp.Error.{Error, broker_error, connection, connection_lost}
use capy_amqp_cpp.Prelude.{codes}
use capy_amqp_cpp.Deferred.{report_error}
use capy_amqp_cpp.Connections.{on_error, on_lost, report_to}
use capy_amqp_cpp.Broker.Json.{
  Json, Decoded, decoded, json_exception, std_exception, other_exception,
}
use capy_amqp_cpp.Broker.Registry.{Registry, Object, Effect, reporting}
use capy_amqp_cpp.Broker.Registry.Laws.{lookup}
use capy_amqp_cpp.Broker.Registry.Refines.{Meets}
use capy_amqp_cpp.Broker.Numbered.{Within, Within-view}
use capy_amqp_cpp.Broker.Fetch
use capy_amqp_cpp.Broker.Fetch.Outcome.{outcome, decoding, step-outcome}
use capy_amqp_cpp.Broker.Listen
use capy_amqp_cpp.Broker.Listen.{Request, binding_failed}
use capy_amqp_cpp.Broker.Listen.Owners.{Listening}
use capy_amqp_cpp.Broker.Listen.Invariant.Changes.{altered-Kept}
use capy_amqp_cpp.Broker.Listen.Steps.{step-Keeps}
use capy_amqp_cpp.Broker.Facade.{listening}
use capy_amqp_cpp.Broker.Process.{
  Process, fetching, listening_to, fetch_event, listen_event, Action, with_fetchers, with_listeners,
  with_listening, report_all, step,
}
use capy_amqp_cpp.Broker.Process.Working.{IsWorking, Works, fetchers-IsWorking, listeners-IsWorking}

Within-Meets {ℓ} :
    {D : Type ℓ} (hash : Text → ℕ) (id : Text) (g : Option Object → Option Object × List (Effect D))
    (r : Registry) (x : Option (Registry × List (Effect D))) (m : Meets hash id g r x)
    → (g none).0 ≡ none
    → Within hash m.after r
Within-Meets hash id g r x m z k o h = elim (Bool-cases (id =?= k)) [
  | inl q ↦ elim (Option-cases (lookup hash r k)) [
    | inl e ↦
        let p : id ≡ k = (=?=_iff id k).0 q in
        let closed : lookup hash m.after k ≡ none =
          ap (lookup hash m.after) (sym p)
          ∙ m.here
          ∙ ap (λ y. (g y).0) (ap (lookup hash r) p ∙ e)
          ∙ z in
        let bad : none ≡ some o = sym closed ∙ h in absurd (cc)
    | inr found ↦ found
  ]
  | inr q ↦ (o, sym (m.elsewhere k (λ p. let t : (id =?= k) ≡ true = (=?=_iff id k).1 p in cc)) ∙ h)
]

-- A fetch that is over stays over.
module _ {J : Type 0} (json : Json J) (exchange : Text) where
  decoding-none : (d : Decoded J) → (decoding json exchange d none).0 ≡ none
  decoding-none (decoded j) = refl
  decoding-none (json_exception what) = refl
  decoding-none (std_exception what) = refl
  decoding-none other_exception = refl

  outcome-none : (id : Text) (ev : Fetch.Event J) → (outcome json exchange id ev none).0 ≡ none
  outcome-none id (Fetch.queue_declared name message routing_key) = refl
  outcome-none id (Fetch.queue_failed message) = refl
  outcome-none id (Fetch.publish_failed message) = refl
  outcome-none id (Fetch.consume_failed message) = refl
  outcome-none id (Fetch.received body) = rw (decoding-none (json.from_msgpack body)) refl
  outcome-none id Fetch.consuming = refl

module _ {ℓ} {K : Type ℓ} ⦃e : Key K⦄ {J : Type 0} (json : Json J) (hash_thread : K → ℕ)
    (hash : Text → ℕ) where
  pub fetch_event-Works :
      (now : ℕ) (id : Text) (event : Fetch.Event J) (s : Process K)
      → IsWorking hash_thread hash s
      → Works hash_thread hash J s (step json hash_thread hash (fetch_event now id event) s)
  unfolding step
  fetch_event-Works now id event s w =
      let m = step-outcome json s.impl.exchange_name hash now id event s.impl.fetchers w.fetchers in
      record {
        after = record s { impl = record s.impl { fetchers = m.after } };
        deeds = map fetching m.effects;
        runs = ap (with_fetchers s) m.runs;
        working =
            fetchers-IsWorking hash_thread hash s m.after w m.sound (m.reached w.fetch_reached) (
              Within-Meets hash id (outcome json s.impl.exchange_name id event) s.impl.fetchers _ m
                (outcome-none json s.impl.exchange_name id event));
        ages = (omega arith, λ m lt h. h);
      }

  pub listen_event-Works :
      (now : ℕ) (thread : K) (id : Text) (event : Listen.Event) (s : Process K) (o : Object)
      → IsWorking hash_thread hash s
      → lookup hash s.impl.listeners id ≡ some o
      → ((message : Text) → event ≢ binding_failed message)
      → Works hash_thread hash J s (step json hash_thread hash (listen_event now thread id event) s)
  unfolding step
  listen_event-Works now thread id event s o w h ne =
      let m =
        step-Keeps json s.impl.exchange_name hash_thread hash now thread id event (listening s.impl)
          ne w.listeners (o, h) in
      record {
        after = record s {
          impl = record s.impl { connections = m.after.connections; listeners = m.after.listeners };
        };
        deeds = map listening_to m.effects;
        runs = ap (with_listening s) m.runs;
        working = listeners-IsWorking hash_thread hash s m.after w m.kept m.within;
        ages = (
          omega arith,
          λ k lt h. Within-none hash m.after.listeners s.impl.listeners m.within (print k) h,
        );
      }

  -- The errors of a connection are reported to an object that is there.
  report_to-Works :
      (s : Process K) (n : ℕ) (error : Error)
      → IsWorking hash_thread hash s
      → n < s.impl.connections.created
      → Works hash_thread hash J s (
          with_listeners s
            (report_all (report_to (s.impl.connections.objects n).deferred error) s.impl.listeners))
  unfolding report_all
  report_to-Works s n error w lt = elim (Option-cases (s.impl.connections.objects n).deferred) [
    | inl q ↦ record {
      after = s;
      deeds = [];
      runs = rw q refl;
      working = w;
      ages = (omega arith, λ m lt h. h);
    }
    | inr (d, q) ↦
        let (o, alive) = w.listeners.held n d (lt, q) in
        let o' = (reporting {D = Request J} (report_error error) o).0 in
        let objects = update s.impl.listeners.objects d (some o') in
        let l : Listening K = record {
          connections = s.impl.connections;
          listeners = record s.impl.listeners { objects = objects };
        } in
        record {
          after = record s { impl = record s.impl { listeners = l.listeners } };
          deeds = map listening_to ((reporting {D = Request J} (report_error error) o).1 ++ []);
          runs = rw (q, alive) refl;
          working =
              listeners-IsWorking hash_thread hash s l w
                (altered-Kept hash_thread hash d o o' (listening s.impl) w.listeners alive)
                (Within-view hash l.listeners s.impl.listeners w.listeners.sound (λ k i a. a));
          ages = (
            omega arith,
            λ k lt h.
                Within-none hash l.listeners s.impl.listeners
                  (Within-view hash l.listeners s.impl.listeners w.listeners.sound (λ k i a. a))
                  (print k) h,
          );
        }
  ]

  pub connection_failed-Works :
      (n : ℕ) (message : Text) (s : Process K)
      → IsWorking hash_thread hash s
      → n < s.impl.connections.created
      → Works hash_thread hash J s
          (step json hash_thread hash (Action.connection_failed n message) s)
  unfolding step on_error
  connection_failed-Works n message s w lt =
      report_to-Works s n (broker_error connection (some message)) w lt

  pub connection_lost-Works :
      (n : ℕ) (s : Process K)
      → IsWorking hash_thread hash s
      → n < s.impl.connections.created
      → Works hash_thread hash J s (step json hash_thread hash (Action.connection_lost n) s)
  unfolding step on_lost
  connection_lost-Works n s w lt =
      report_to-Works s n (broker_error connection_lost (some (codes "connection lost"))) w lt
