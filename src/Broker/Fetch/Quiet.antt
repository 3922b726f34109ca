-- ===== src/Broker/Fetch/Quiet.antt =====
-- The calls of finalize handlers among the effects of a fetch (src/broker_impl/broker.cc).
use capy_amqp_cpp.Prelude.{
  ℕ, ◌+◌, ◌≡◌, refl, ◌∙◌, Bool, true, false, ◌&&◌, ◌||◌, Option, none, some, List, [], ◌∷◌, ◌++◌,
  map, Text, text_key, ◌=?=◌, Bool-cases, inl, inr, arith,
}
use capy_amqp_cpp.Error.{Error, is_error}
use capy_amqp_cpp.Deferred.{
  Deferred, Call, error_call, finalize_call, call_if_set, report_data, report_success, report_error,
  is_good, destroy,
}
use capy_amqp_cpp.Broker.Registry.{Object, Effect, command, call, reporting}
use capy_amqp_cpp.Broker.Registry.Refines.{alter, finish, followed_by}
use capy_amqp_cpp.Broker.Fetch.{Event, queue_failed, consume_failed, received}
use capy_amqp_cpp.Broker.Fetch.History.{Entry}

pub zero_plus : (n : ℕ) → 0 + n ≡ n
zero_plus n = omega arith

module _ {ℓ} {J : Type ℓ} where
  -- The number of calls of a finalize handler.
  abbrev finalize_count : Call J → ℕ
  finalize_count (finalize_call h) = 1
  finalize_count _ = 0

  abbrev effect_count : Effect J → ℕ
  effect_count (call c) = finalize_count c
  effect_count (command channel c) = 0

  abbrev pub finals : List (Effect J) → ℕ
  finals [] = 0
  finals (x ∷ es) = effect_count x + finals es

  pub finals-append : (es es' : List (Effect J)) → finals (es ++ es') ≡ finals es + finals es'
  finals-append [] es' = omega arith
  finals-append (x ∷ es) es' = omega (arith, finals-append es es')

  -- The events that end a fetch.
  abbrev pub ends : Event J → Bool
  ends (queue_failed m) = true
  ends (consume_failed m) = true
  ends (received m) = true
  ends _ = false

  abbrev pub some_ends : Text → List (Entry J) → Bool
  some_ends id [] = false
  some_ends id (x ∷ xs) = (x.id =?= id && ends x.event) || some_ends id xs

  -- A report calls no finalize handler, and keeps it.
  abbrev Quiet : (Deferred → Deferred × List (Call J)) → Type 0
  Quiet report =
      (d : Deferred)
      → (finals (map call (report d).1) ≡ 0) × ((report d).0.finalize_handler ≡ d.finalize_handler)

  quiet_call :
      (o : Option ℕ) (f : ℕ → Call J)
      → ((h : ℕ) → finalize_count (f h) ≡ 0)
      → finals (map call (call_if_set o f)) ≡ 0
  quiet_call none f q = refl
  quiet_call (some h) f q = omega (arith, q h)

module _ {ℓ} (J : Type ℓ) where
  report_error-Quiet : (error : Error) → Quiet {J = J} (report_error error)
  unfolding report_error
  report_error-Quiet error d = elim (Bool-cases (is_error error)) [
    | inl q ↦ rw q (quiet_call d.error_handler _ (λ h. refl), refl)
    | inr q ↦ rw q (refl, refl)
  ]

  pub report_success-Quiet : Quiet {J = J} report_success
  unfolding report_success
  report_success-Quiet d = (quiet_call d.success_handler _ (λ h. refl), refl)

  pub report_data-Quiet : (x : J) → Quiet (report_data x)
  unfolding report_data
  report_data-Quiet x d = elim (Bool-cases (is_good d)) [
    | inl q ↦ rw q (quiet_call d.data_handler _ (λ h. refl), refl)
    | inr q ↦ rw q (refl, refl)
  ]

  finals_calls :
      (o o' : Option ℕ) (h : ℕ) (error : Error)
      → o' ≡ some h
      → finals (
          map call
            (call_if_set {D = J} o (λ k. error_call k error) ++ call_if_set o' finalize_call))
        ≡ 1
  finals_calls none o' h error e = rw e refl
  finals_calls (some k) o' h error e = rw e refl

  pub finals-destroy :
      (d : Deferred) (h : ℕ)
      → d.finalize_handler ≡ some h
      → finals (map call (destroy {D = J} d)) ≡ 1
  unfolding destroy
  finals-destroy d h e = elim (Bool-cases (is_error d.error)) [
    | inl q ↦ rw q (finals_calls d.error_handler d.finalize_handler h d.error e)
    | inr q ↦ rw (q, e) refl
  ]

  -- What goes on with the object and its finalize handler.
  abbrev pub Kept : (Option Object → Option Object × List (Effect J)) → Type 0
  Kept g =
      (o : Object)
      → (o' : Object) × ((g (some o)).0 ≡ some o')
        × (o'.deferred.finalize_handler ≡ o.deferred.finalize_handler)
        × (finals (g (some o)).1 ≡ 0)

  pub alter-Kept :
      (report : Deferred → Deferred × List (Call J))
      → Quiet report
      → Kept (alter (reporting report))
  alter-Kept report q o =
      (record o { deferred = (report o.deferred).0 }, refl, (q o.deferred).1, (q o.deferred).0)

  pub followed_by-Kept :
      (g g' : Option Object → Option Object × List (Effect J))
      → Kept g
      → Kept g'
      → Kept (followed_by g g')
  followed_by-Kept g g' k k' o =
      let (o1, e1, h1, f1) = k o in
      let (o2, e2, h2, f2) = k' o1 in
      (
        o2,
        rw e1 e2,
        h2 ∙ h1,
        finals-append (g (some o)).1 (g' (g (some o)).0).1 ∙ rw (e1, f1, f2) refl,
      )

  pub finish-once :
      (g : Option Object → Option Object × List (Effect J)) (o : Object) (h : ℕ)
      → Kept g
      → o.deferred.finalize_handler ≡ some h
      → ((followed_by g finish (some o)).0 ≡ none) × (finals (followed_by g finish (some o)).1 ≡ 1)
  finish-once g o h k e =
      let (o1, e1, h1, f1) = k o in
      (
        rw e1 refl,
        finals-append (g (some o)).1 (finish (g (some o)).0).1
            ∙ rw (e1, f1) (zero_plus _ ∙ finals-destroy o1.deferred h (h1 ∙ e)),
      )

  pub error-Kept : (error : Error) → Kept (alter (reporting (report_error error)))
  error-Kept error = alter-Kept (report_error error) (report_error-Quiet error)
