-- ===== src/Broker/Process/Working/Uses.antt =====
-- The members of a fetch or a listener that a client calls by its reference (include/capy/amqp_deferred.h),
-- in a broker at work.
use capy_amqp_cpp.Broker.Ids.{print}
use capy_amqp_cpp.Broker.Process.Working.{Within-none}
use capy_amqp_cpp.Prelude.{
  arith, ℕ, ◌≡◌, refl, subst, none, some, List, map, update, Text, Key, text_key, inl, inr,
  Option-cases,
}
use capy_amqp_cpp.Deferred
use capy_amqp_cpp.Broker.Json.{Json}
use capy_amqp_cpp.Cache.Shards.{CacheItem}
use capy_amqp_cpp.Cache.View.{view}
use capy_amqp_cpp.Broker.Registry.{Registry, Object, reporting}
use capy_amqp_cpp.Broker.Registry.Others.{alter-IsSound}
use capy_amqp_cpp.Broker.Registry.Reachable.{altered-AllReached}
use capy_amqp_cpp.Broker.Numbered.{Within-view}
use capy_amqp_cpp.Broker.Listen.{Request}
use capy_amqp_cpp.Broker.Listen.Owners.{Listening}
use capy_amqp_cpp.Broker.Listen.Invariant.Changes.{altered-Kept}
use capy_amqp_cpp.Broker.Facade.{listening}
use capy_amqp_cpp.Broker.Process.{
  Process, Deed, fetching, listening_to, fetch_used, listen_used, step,
}
use capy_amqp_cpp.Broker.Process.Working.{IsWorking, Works, fetchers-IsWorking, listeners-IsWorking}

module _ {ℓ} {K : Type ℓ} ⦃e : Key K⦄ {J : Type 0} (json : Json J) (hash_thread : K → ℕ)
    (hash : Text → ℕ) where
  altered-IsWorking :
      (s : Process K) (id : Text) (i : CacheItem ℕ) (o : Object)
      → IsWorking hash_thread hash s
      → view hash s.impl.fetchers.ids id ≡ some i
      → IsWorking hash_thread hash (record s {
        impl = record s.impl {
          fetchers = record s.impl.fetchers {
            objects = update s.impl.fetchers.objects i.payload (some o);
          };
        };
      })
  altered-IsWorking s id i o w h =
      let r = s.impl.fetchers in
      let r' : Registry = record r { objects = update r.objects i.payload (some o) } in
      fetchers-IsWorking hash_thread hash s r' w (alter-IsSound hash id r i o w.fetchers h)
        (altered-AllReached hash id r w.fetch_reached i o h)
        (Within-view hash r' r w.fetchers (λ k j a. a))

  pub fetch_used-Works :
      (n : ℕ) (event : Deferred.Event J) (s : Process K) (o : Object)
      → IsWorking hash_thread hash s
      → s.impl.fetchers.objects n ≡ some o
      → Works hash_thread hash J s (step json hash_thread hash (fetch_used n event) s)
  unfolding step
  fetch_used-Works n event s o w h =
      let (id, i, a, p) = w.fetch_reached n o h in
      let o' = (reporting {D = J} (Deferred.step event) o).0 in
      record {
        after = record s {
          impl = record s.impl {
            fetchers = record s.impl.fetchers {
              objects = update s.impl.fetchers.objects n (some o');
            };
          };
        };
        deeds = map fetching (reporting {D = J} (Deferred.step event) o).1;
        runs = rw h refl;
        working =
            subst
              (λ m. IsWorking hash_thread hash (record s {
                impl = record s.impl {
                  fetchers = record s.impl.fetchers {
                    objects = update s.impl.fetchers.objects m (some o');
                  };
                };
              }))
              p (altered-IsWorking s id i o' w a);
        ages = (omega arith, λ m lt h. h);
      }

  pub listen_used-Works :
      (n : ℕ) (event : Deferred.Event (Request J)) (s : Process K) (o : Object)
      → IsWorking hash_thread hash s
      → s.impl.listeners.objects n ≡ some o
      → Works hash_thread hash J s (step json hash_thread hash (listen_used n event) s)
  unfolding step
  listen_used-Works n event s o w h =
      let o' = (reporting {D = Request J} (Deferred.step event) o).0 in
      let l : Listening K = record {
        connections = s.impl.connections;
        listeners = record s.impl.listeners {
          objects = update s.impl.listeners.objects n (some o');
        };
      } in
      record {
        after = record s { impl = record s.impl { listeners = l.listeners } };
        deeds = map listening_to (reporting {D = Request J} (Deferred.step event) o).1;
        runs = rw h refl;
        working =
            listeners-IsWorking hash_thread hash s l w
              (altered-Kept hash_thread hash n o o' (listening s.impl) w.listeners h)
              (Within-view hash l.listeners s.impl.listeners w.listeners.sound (λ k i a. a));
        ages = (
          omega arith,
          λ k lt h.
              Within-none hash l.listeners s.impl.listeners
                (Within-view hash l.listeners s.impl.listeners w.listeners.sound (λ k i a. a))
                (print k) h,
        );
      }

  -- A reference to an object that is destroyed must not be followed.
  pub fetch_used-alive :
      (n : ℕ) (event : Deferred.Event J) (s : Process K) (r : Process K × List (Deed J))
      → step json hash_thread hash (fetch_used n event) s ≡ some r
      → (o : Object) × (s.impl.fetchers.objects n ≡ some o)
  unfolding step
  fetch_used-alive n event s r h = elim (Option-cases (s.impl.fetchers.objects n)) [
    | inl q ↦ let bad : none ≡ some r = rw q at h in absurd (cc)
    | inr found ↦ found
  ]

  pub listen_used-alive :
      (n : ℕ) (event : Deferred.Event (Request J)) (s : Process K) (r : Process K × List (Deed J))
      → step json hash_thread hash (listen_used n event) s ≡ some r
      → (o : Object) × (s.impl.listeners.objects n ≡ some o)
  unfolding step
  listen_used-alive n event s r h = elim (Option-cases (s.impl.listeners.objects n)) [
    | inl q ↦ let bad : none ≡ some r = rw q at h in absurd (cc)
    | inr found ↦ found
  ]
