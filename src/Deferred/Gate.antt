-- ===== src/Deferred/Gate.antt =====
-- Which data reach the data handler of a deferred object (include/capy/amqp_deferred.h).
use capy_amqp_cpp.Prelude.{
  ℕ, ◌≡◌, refl, ap, ap₂, ◌∙◌, Bool, true, false, not, Option, none, some, List, [], ◌∷◌, ◌++◌,
  arith, if◌then◌else◌, Bool-cases, inl, inr,
}
use capy_amqp_cpp.Error.{Error, is_error}
use capy_amqp_cpp.Deferred.{
  Call, data_call, success_call, error_call, finalize_call, Deferred, call_if_set, report_error,
  is_good, Event, sets_data, sets_success, sets_error, sets_finalize, reports_data, reports_success,
  reports_error, step, run,
}

report_error-failed {ℓ} :
    (D : Type ℓ) (e : Error) (d : Deferred)
    → (report_error {D = D} e d).0.failed ≡ (if is_error e then true else d.failed)
unfolding report_error
report_error-failed D e d = ground arith

report_error-handler {ℓ} :
    (D : Type ℓ) (e : Error) (d : Deferred)
    → (report_error {D = D} e d).0.data_handler ≡ d.data_handler
unfolding report_error
report_error-handler D e d = ground arith

module _ {ℓ} {D : Type ℓ} where
  -- The data calls among the calls.
  abbrev pub data_calls : List (Call D) → List (ℕ × D)
  data_calls [] = []
  data_calls (data_call h x ∷ cs) = (h, x) ∷ data_calls cs
  data_calls (success_call h ∷ cs) = data_calls cs
  data_calls (error_call h e ∷ cs) = data_calls cs
  data_calls (finalize_call h ∷ cs) = data_calls cs

  abbrev pub pair_if_set : Option ℕ → D → List (ℕ × D)
  pair_if_set none x = []
  pair_if_set (some h) x = (h, x) ∷ []

  -- The deliveries that a history promises, from the state of the gate and the handler that is set.
  abbrev pub deliveries : Bool → Option ℕ → List (Event D) → List (ℕ × D)
  deliveries shut h [] = []
  deliveries shut h (sets_data h' ∷ evs) = deliveries shut (some h') evs
  deliveries shut h (sets_success _ ∷ evs) = deliveries shut h evs
  deliveries shut h (sets_error _ ∷ evs) = deliveries shut h evs
  deliveries shut h (sets_finalize _ ∷ evs) = deliveries shut h evs
  deliveries shut h (reports_data x ∷ evs) =
      (if shut then [] else pair_if_set h x) ++ deliveries shut h evs
  deliveries shut h (reports_success ∷ evs) = deliveries false h evs
  deliveries shut h (reports_error e ∷ evs) = deliveries (if is_error e then true else shut) h evs

module _ {ℓ} (D : Type ℓ) where
  data_calls-append :
      (cs ds : List (Call D)) → data_calls (cs ++ ds) ≡ data_calls cs ++ data_calls ds
  data_calls-append [] ds = refl
  data_calls-append (data_call h x ∷ cs) ds = ap (◌∷◌ (h, x)) (data_calls-append cs ds)
  data_calls-append (success_call h ∷ cs) ds = data_calls-append cs ds
  data_calls-append (error_call h e ∷ cs) ds = data_calls-append cs ds
  data_calls-append (finalize_call h ∷ cs) ds = data_calls-append cs ds

  -- The data calls of a step, and the gate and handler that it leaves.
  data_calls-report :
      (h : Option ℕ) (x : D) → data_calls (call_if_set h (λ k. data_call k x)) ≡ pair_if_set h x
  data_calls-report none x = refl
  data_calls-report (some h) x = refl

  data_calls-success : (h : Option ℕ) → data_calls (call_if_set {D = D} h success_call) ≡ []
  data_calls-success none = refl
  data_calls-success (some h) = refl

  data_calls-error :
      (h : Option ℕ) (e : Error) → data_calls (call_if_set {D = D} h (λ k. error_call k e)) ≡ []
  data_calls-error none e = refl
  data_calls-error (some h) e = refl

  data_calls-gate :
      (shut : Bool) (h : Option ℕ) (x : D)
      → data_calls (if not shut then call_if_set h (λ k. data_call k x) else [])
        ≡ (if shut then [] else pair_if_set h x)
  data_calls-gate true h x = refl
  data_calls-gate false h x = data_calls-report h x

  report_error-quiet : (e : Error) (d : Deferred) → data_calls (report_error {D = D} e d).1 ≡ []
  unfolding report_error
  report_error-quiet e d = elim (Bool-cases (is_error e)) [
    | inl bad ↦ rw bad (data_calls-error d.error_handler e)
    | inr fine ↦ rw fine
  ]

  -- Over any history of handlers set and reports made, the data handler that is set is called with
  -- each datum that is reported while the last report on the state was no error, in order, and
  -- with no other.
  pub run-deliveries :
      (evs : List (Event D)) (d : Deferred)
      → data_calls (run evs d).1 ≡ deliveries d.failed d.data_handler evs
  unfolding run step is_good
  run-deliveries [] d = refl
  run-deliveries (sets_data h ∷ evs) d = run-deliveries evs _
  run-deliveries (sets_success h ∷ evs) d = run-deliveries evs _
  run-deliveries (sets_error h ∷ evs) d = run-deliveries evs _
  run-deliveries (sets_finalize h ∷ evs) d = run-deliveries evs _
  run-deliveries (reports_data x ∷ evs) d =
      rw data_calls-append
        (ap₂ ◌++◌ (data_calls-gate d.failed d.data_handler x) (run-deliveries evs d))
  run-deliveries (reports_success ∷ evs) d = rw data_calls-append (
      ap₂ ◌++◌ (data_calls-success d.success_handler)
        (run-deliveries evs (record d { failed = false })))
  run-deliveries (reports_error e ∷ evs) d = rw data_calls-append (
      ap₂ ◌++◌ (report_error-quiet e d) (
        run-deliveries evs (report_error {D = D} e d).0
        ∙ ap₂ (λ b h. deliveries b h evs) (report_error-failed D e d) (report_error-handler D e d)))
