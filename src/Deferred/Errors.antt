-- ===== src/Deferred/Errors.antt =====
-- Which errors reach the error handler of a deferred object (include/capy/amqp_deferred.h).
use capy_amqp_cpp.Prelude.{
  ℕ, ◌≡◌, refl, ap, ap₂, ◌∙◌, Bool, true, false, not, Option, none, some, List, [], ◌∷◌, ◌++◌,
  arith, if◌then◌else◌, Bool-cases, inl, inr,
}
use capy_amqp_cpp.Error.{Error, is_error, ok_error}
use capy_amqp_cpp.Deferred.{
  Call, data_call, success_call, error_call, finalize_call, Deferred, call_if_set, report_error,
  is_good, destroy, Event, sets_data, sets_success, sets_error, sets_finalize, reports_data,
  reports_success, reports_error, step, run,
}

report_error-handler {ℓ} :
    (D : Type ℓ) (e : Error) (d : Deferred)
    → (report_error {D = D} e d).0.error_handler ≡ d.error_handler
unfolding report_error
report_error-handler D e d = ground arith

abbrev pub error_if_set : Option ℕ → Error → List (ℕ × Error)
error_if_set none e = []
error_if_set (some h) e = (h, e) ∷ []

module _ {ℓ} {D : Type ℓ} where
  -- The error calls among the calls.
  abbrev pub error_calls : List (Call D) → List (ℕ × Error)
  error_calls [] = []
  error_calls (data_call h x ∷ cs) = error_calls cs
  error_calls (success_call h ∷ cs) = error_calls cs
  error_calls (error_call h e ∷ cs) = (h, e) ∷ error_calls cs
  error_calls (finalize_call h ∷ cs) = error_calls cs

  -- The errors that a history promises, from the handler that is set.
  abbrev pub errors : Option ℕ → List (Event D) → List (ℕ × Error)
  errors h [] = []
  errors h (sets_error h' ∷ evs) = errors (some h') evs
  errors h (sets_data _ ∷ evs) = errors h evs
  errors h (sets_success _ ∷ evs) = errors h evs
  errors h (sets_finalize _ ∷ evs) = errors h evs
  errors h (reports_data x ∷ evs) = errors h evs
  errors h (reports_success ∷ evs) = errors h evs
  errors h (reports_error e ∷ evs) = (if is_error e then error_if_set h e else []) ++ errors h evs

module _ {ℓ} (D : Type ℓ) where
  error_calls-append :
      (cs ds : List (Call D)) → error_calls (cs ++ ds) ≡ error_calls cs ++ error_calls ds
  error_calls-append [] ds = refl
  error_calls-append (data_call h x ∷ cs) ds = error_calls-append cs ds
  error_calls-append (success_call h ∷ cs) ds = error_calls-append cs ds
  error_calls-append (error_call h e ∷ cs) ds = ap (◌∷◌ (h, e)) (error_calls-append cs ds)
  error_calls-append (finalize_call h ∷ cs) ds = error_calls-append cs ds

  error_calls-success : (h : Option ℕ) → error_calls (call_if_set {D = D} h success_call) ≡ []
  error_calls-success none = refl
  error_calls-success (some h) = refl

  error_calls-data :
      (shut : Bool) (h : Option ℕ) (x : D)
      → error_calls (if not shut then call_if_set h (λ k. data_call k x) else []) ≡ []
  error_calls-data true h x = refl
  error_calls-data false none x = refl
  error_calls-data false (some h) x = refl

  error_calls-error :
      (h : Option ℕ) (e : Error)
      → error_calls (call_if_set {D = D} h (λ k. error_call k e)) ≡ error_if_set h e
  error_calls-error none e = refl
  error_calls-error (some h) e = refl

  report_error-calls :
      (e : Error) (d : Deferred)
      → error_calls (report_error {D = D} e d).1
        ≡ (if is_error e then error_if_set d.error_handler e else [])
  unfolding report_error
  report_error-calls e d = elim (Bool-cases (is_error e)) [
    | inl bad ↦ rw bad (error_calls-error d.error_handler e)
    | inr fine ↦ rw fine
  ]

  -- Over any history of handlers set and reports made, the error handler that is set is called
  -- once for each report of an error, in order, and for nothing else.
  pub run-errors :
      (evs : List (Event D)) (d : Deferred) → error_calls (run evs d).1 ≡ errors d.error_handler evs
  unfolding run step is_good
  run-errors [] d = refl
  run-errors (sets_data h ∷ evs) d = run-errors evs _
  run-errors (sets_success h ∷ evs) d = run-errors evs _
  run-errors (sets_error h ∷ evs) d = run-errors evs _
  run-errors (sets_finalize h ∷ evs) d = run-errors evs _
  run-errors (reports_data x ∷ evs) d =
      rw error_calls-append
        (ap₂ ◌++◌ (error_calls-data d.failed d.data_handler x) (run-errors evs d))
  run-errors (reports_success ∷ evs) d = rw error_calls-append (
      ap₂ ◌++◌ (error_calls-success d.success_handler)
        (run-errors evs (record d { failed = false })))
  run-errors (reports_error e ∷ evs) d = rw error_calls-append (
      ap₂ ◌++◌ (report_error-calls e d) (
        run-errors evs (report_error {D = D} e d).0
        ∙ ap (λ h. errors h evs) (report_error-handler D e d)))

  -- No report leaves an error behind.
  step-no_error :
      (ev : Event D) (d : Deferred)
      → is_error d.error ≡ false
      → is_error (step ev d).0.error ≡ false
  unfolding step ok_error is_error
  step-no_error (sets_data h) d v = v
  step-no_error (sets_success h) d v = v
  step-no_error (sets_error h) d v = v
  step-no_error (sets_finalize h) d v = v
  step-no_error (reports_data x) d v = v
  step-no_error reports_success d v = v
  step-no_error (reports_error e) d v = ground arith

  run-no_error :
      (evs : List (Event D)) (d : Deferred)
      → is_error d.error ≡ false
      → is_error (run evs d).0.error ≡ false
  unfolding run
  run-no_error [] d v = v
  run-no_error (ev ∷ evs) d v = run-no_error evs (step ev d).0 (step-no_error ev d v)

  -- After any history of an object that was made without an error, the destructor calls the
  -- finalize handler, if one is set, and nothing else.
  pub destroy-run :
      (evs : List (Event D)) (d : Deferred)
      → is_error d.error ≡ false
      → destroy {D = D} (run evs d).0 ≡ call_if_set (run evs d).0.finalize_handler finalize_call
  unfolding destroy
  destroy-run evs d v = rw (run-no_error evs d v)
