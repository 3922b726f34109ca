-- ===== src/Broker/Process/Working/Calls.antt =====
-- The calls of a client of src/amqp_broker.cc, and the commit of a replay, in a broker at work.
use capy_amqp_cpp.Prelude.{
  ℕ, ◌<◌, ◌≡◌, ◌≢◌, refl, sym, ap, ◌∙◌, subst, Bool, Option, none, some, List, [], ◌∷◌, ◌++◌, map,
  Text, Key, text_key, arith, inl, inr, ◌=?=◌, =?=_iff, Bool-cases, true, false,
}
use capy_amqp_cpp.Error.{Result}
use capy_amqp_cpp.Connections.{new_channel}
use capy_amqp_cpp.Connections.Paired.{own, new_channel_result}
use capy_amqp_cpp.Broker.Ids.{print, print-injective}
use capy_amqp_cpp.Broker.Json.{Json, IsJson}
use capy_amqp_cpp.Broker.Registry.{Registry}
use capy_amqp_cpp.Broker.Registry.Laws.{lookup}
use capy_amqp_cpp.Broker.Numbered.{IsNumbered, numbered_fresh, later-IsNumbered}
use capy_amqp_cpp.Broker.Fetch.Start.{fetch_message-starts}
use capy_amqp_cpp.Broker.Listen.Adding.{new_channel-Kept}
use capy_amqp_cpp.Broker.Listen.Start.{listen_messages-starts}
use capy_amqp_cpp.Broker.Listen.Invariant.{IsKept}
use capy_amqp_cpp.Broker.Publish.{publish_message, publish_commands, publish_error}
use capy_amqp_cpp.Broker.Reply.{reply_commands}
use capy_amqp_cpp.Broker.Reply.Delivery.{sent, on_commit-sent}
use capy_amqp_cpp.Broker.Facade
use capy_amqp_cpp.Broker.Facade.{listening, make_broker, fetched, listened}
use capy_amqp_cpp.Broker.Process.{
  Process, fetch, listen, publish, commit, fetching, leaving, listening_to, sending, returning,
  fetch_called, listen_called, step,
}
use capy_amqp_cpp.Broker.Process.Working.{Apart, IsWorking, Works, connections-IsWorking}

different' : (id k : Text) → (id =?= k) ≡ false → id ≢ k
different' id k q p = let t : (id =?= k) ≡ true = (=?=_iff id k).1 p in cc

-- A registry with a new id stays apart from one whose ids are older.
Apart-new :
    (hash : Text → ℕ) (counter : ℕ) (id : Text) (r r0 r' : Registry)
    → id ≡ print counter
    → IsNumbered hash counter r'
    → ((k : Text) → id ≢ k → lookup hash r k ≡ lookup hash r0 k)
    → Apart hash r0 r'
    → Apart hash r r'
Apart-new hash counter id r r0 r' new num others apart k o o' a b = elim (Bool-cases (id =?= k)) [
  | inl q ↦
      let absent : lookup hash r' (print counter) ≡ none =
        rw (numbered_fresh hash counter r' num) refl in
      let bad : none ≡ some o' =
        sym absent ∙ ap (lookup hash r') (sym new ∙ (=?=_iff id k).0 q) ∙ b in
      absurd (cc)
  | inr q ↦ apart k o o' (sym (others k (different' id k q)) ∙ a) b
]

Apart-sym : (hash : Text → ℕ) (r r' : Registry) → Apart hash r r' → Apart hash r' r
Apart-sym hash r r' h k o o' a b = h k o' o b a

module _ {ℓ} {K : Type ℓ} ⦃e : Key K⦄ {J : Type 0} (json : Json J) (hash_thread : K → ℕ)
    (hash : Text → ℕ) where
  pub fetch-Works :
      (now : ℕ) (thread : K) (message : J) (routing_key : Text) (indeterminate : Bool)
      (s : Process K)
      → IsWorking hash_thread hash s
      → s.counter < 2147483647
      → Works hash_thread hash J s
          (step json hash_thread hash (fetch now thread message routing_key indeterminate) s)
  unfolding step Facade.fetch make_broker
  fetch-Works now thread message routing_key indeterminate s w small =
      let (
        f, runs, paired, sound, num, reached, absent, present, others, effects, id, next, channel,
        declared,
      ) =
        fetch_message-starts J hash_thread hash now s.counter message routing_key indeterminate
          thread s.impl.connections s.impl.fetchers w.listeners.paired w.fetchers w.fetch_ids
          w.fetch_reached small in
      record {
        after = record {
          impl = record s.impl { connections = f.connections; fetchers = f.fetchers };
          counter = f.counter;
        };
        deeds = map fetching f.effects ++ leaving f.correlation_id f.on_declared ∷ [];
        runs = ap (λ x. fetch_called (fetched s.impl x)) runs;
        working = record {
          listeners =
              subst
                (λ c.
                  IsKept hash_thread hash
                    (record { connections = c; listeners = s.impl.listeners }))
                (sym channel)
                (new_channel-Kept hash_thread hash now thread (listening s.impl) w.listeners);
          fetchers = sound;
          listen_ids =
              later-IsNumbered hash s.counter f.counter s.impl.listeners (omega (arith, next))
                w.listen_ids;
          fetch_ids = num;
          fetch_reached = reached;
          apart =
              Apart-new hash s.counter f.correlation_id f.fetchers s.impl.fetchers s.impl.listeners
                id w.listen_ids others w.apart;
        };
        ages = (omega (arith, next), λ m lt h. h);
      }

  pub listen-Works :
      (now : ℕ) (thread : K) (indeterminate : Bool) (queue : Text) (keys : List Text)
      (s : Process K)
      → IsWorking hash_thread hash s
      → s.counter < 2147483647
      → Works hash_thread hash J s
          (step json hash_thread hash (listen now thread indeterminate queue keys) s)
  unfolding step Facade.listen make_broker
  listen-Works now thread indeterminate queue keys s w small =
      let (
        l, released, runs, kept, num, absent, present, others, effects, releases, errors, id, next,
      ) =
        listen_messages-starts json s.impl.exchange_name hash_thread hash now thread indeterminate
          queue keys s.counter (listening s.impl) w.listeners w.listen_ids small in
      record {
        after = record {
          impl = record s.impl { connections = l.after.connections; listeners = l.after.listeners };
          counter = l.counter;
        };
        deeds = map listening_to l.effects;
        runs = ap (λ x. listen_called (listened s.impl x)) runs;
        working = record {
          listeners = kept;
          fetchers = w.fetchers;
          listen_ids = num;
          fetch_ids =
              later-IsNumbered hash s.counter l.counter s.impl.fetchers (omega (arith, next))
                w.fetch_ids;
          fetch_reached = w.fetch_reached;
          apart = Apart-sym hash l.after.listeners s.impl.fetchers (
              Apart-new hash s.counter l.correlation_id l.after.listeners s.impl.listeners
                s.impl.fetchers id w.fetch_ids others
                (Apart-sym hash s.impl.fetchers s.impl.listeners w.apart));
        };
        ages = (
          omega (arith, next),
          λ m lt h.
              others (print m)
                (λ p. absurd (omega (arith, lt, print-injective s.counter m (sym id ∙ p))))
              ∙ h,
        );
      }

  pub publish-Works :
      (now : ℕ) (thread : K) (message : J) (routing_key : Text) (failure : Option Text)
      (s : Process K)
      → IsWorking hash_thread hash s
      → Works hash_thread hash J s
          (step json hash_thread hash (publish now thread message routing_key failure) s)
  unfolding step Facade.publish make_broker publish_message
  publish-Works now thread message routing_key failure s w =
      let c = (new_channel hash_thread now thread s.impl.connections).0 in
      record {
        after = record s { impl = record s.impl { connections = c } };
        deeds =
            map (sending (own hash_thread s.impl.connections thread))
              (publish_commands json s.impl.exchange_name hash_thread message routing_key)
            ++ returning (publish_error failure) ∷ [];
        runs =
            rw (new_channel_result hash_thread now thread s.impl.connections w.listeners.paired)
              refl;
        working =
            connections-IsWorking hash_thread hash s c w
              (new_channel-Kept hash_thread hash now thread (listening s.impl) w.listeners);
        ages = (omega arith, λ m lt h. h);
      }

  pub commit-Works :
      (now : ℕ) (thread : K) (cid replay_to : Text) (message : Result J) (s : Process K)
      → IsJson json
      → IsWorking hash_thread hash s
      → Works hash_thread hash J s
          (step json hash_thread hash (commit now thread cid replay_to message) s)
  unfolding step
  commit-Works now thread cid replay_to message s laws w =
      let c = (new_channel hash_thread now thread s.impl.connections).0 in
      record {
        after = record s { impl = record s.impl { connections = c } };
        deeds =
            map (sending (own hash_thread s.impl.connections thread))
              (reply_commands json cid replay_to (sent json laws message));
        runs =
            rw
              (on_commit-sent json laws hash_thread now thread cid replay_to message
                s.impl.connections w.listeners.paired)
              refl;
        working =
            connections-IsWorking hash_thread hash s c w
              (new_channel-Kept hash_thread hash now thread (listening s.impl) w.listeners);
        ages = (omega arith, λ m lt h. h);
      }
