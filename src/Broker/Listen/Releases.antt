-- ===== src/Broker/Listen/Releases.antt =====
-- What is done when the connection of a thread lets go of a listener (src/broker_impl/broker.cc).
use capy_amqp_cpp.Prelude.{
  ℕ, ◌≡◌, ◌⊎◌, refl, sym, ◌∙◌, false, ◌||◌, Option, none, some, List, [], map, Text, Key, text_key,
  inl, inr, Bool-cases, Option-cases,
}
use capy_amqp_cpp.Deferred.{destroy}
use capy_amqp_cpp.Connections.{ConnectionCache}
use capy_amqp_cpp.Connections.Paired.{IsPaired, own}
use capy_amqp_cpp.Connections.Reached.{PointsTo, PointsTo-get_connection, created-get_connection}
use capy_amqp_cpp.Broker.Json.{Json}
use capy_amqp_cpp.Broker.Registry.{Object, Effect, call}
use capy_amqp_cpp.Broker.Listen.Owners.{Listening, drop_pointer, is_registered, is_held}
use capy_amqp_cpp.Broker.Listen.Kept.{or_false}
use capy_amqp_cpp.Broker.Listen.{old_deferred}
use capy_amqp_cpp.Broker.Listen.Resets.{old_deferred-own}

-- Nothing is done, or the object that the connection `k` points to, which no id leads to, is
-- destroyed: its destructor's calls are all that is done.
abbrev pub Releases {ℓ} : {K : Type ℓ} {D : Type 0} → Listening K → ℕ → List (Effect D) → Type 0
Releases s k es =
    (es ≡ [])
    ⊎ ((n : ℕ) × (o : Object) × PointsTo s.connections k n
        × (s.listeners.objects n ≡ some o)
        × (is_registered n s.listeners.ids ≡ false)
        × (es ≡ map call (destroy o.deferred)))

module _ {ℓ} {K : Type ℓ} (D : Type 0) where
  pub drop_pointer-Releases :
      (p : Option ℕ) (s : Listening K)
      → ((drop_pointer {D = D} p s).1 ≡ [])
        ⊎ ((n : ℕ) × (o : Object) × (p ≡ some n)
            × (s.listeners.objects n ≡ some o)
            × (is_registered n s.listeners.ids ≡ false)
            × ((drop_pointer {D = D} p s).1 ≡ map call (destroy o.deferred)))
  drop_pointer-Releases none s = inl refl
  drop_pointer-Releases (some n) s =
      elim (Bool-cases (is_registered n s.listeners.ids || is_held n s.connections)) [
        | inl q ↦ inl (rw q refl)
        | inr q ↦ elim (Option-cases (s.listeners.objects n)) [
          | inl e ↦ inl (rw (q, e) refl)
          | inr (o, e) ↦ inr (n, o, refl, e, or_false _ _ q, rw (q, e) refl)
        ]
      ]

module _ {ℓ} {K : Type ℓ} ⦃e : Key K⦄ {J : Type 0} (json : Json J) (exchange : Text)
    (hash_thread : K → ℕ) (hash : Text → ℕ) (now : ℕ) (thread : K) where
  -- The object that a thread's connection is about to let go of.
  pub old_deferred-PointsTo :
      (c : ConnectionCache K) (n : ℕ)
      → IsPaired hash_thread c
      → old_deferred json exchange hash_thread hash now thread c ≡ some n
      → PointsTo c (own hash_thread c thread) n
  old_deferred-PointsTo c n w h =
      PointsTo-get_connection hash_thread now thread c (own hash_thread c thread) n (
        (created-get_connection hash_thread now thread c w).0,
        sym (old_deferred-own json exchange hash_thread hash now thread c w) ∙ h,
      )
