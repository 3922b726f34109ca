-- ===== src/Deferred/Tests.antt =====
-- Tests of the deferred object: the properties on one history.
use capy_amqp_cpp.Prelude.{ℕ, ◌≡◌, refl, false, none, List, [], ◌∷◌}
use capy_amqp_cpp.Error.{Error, ok_error, is_error, broker_error, data_response}
use capy_amqp_cpp.Deferred.{
  Deferred, Event, init, sets_data, sets_error, sets_finalize, reports_data, reports_success,
  reports_error, run, destroy, call_if_set, finalize_call,
}
use capy_amqp_cpp.Deferred.Gate.{data_calls, deliveries, run-deliveries}
use capy_amqp_cpp.Deferred.Errors.{error_calls, errors, run-errors, destroy-run}

abbrev bad : Error
bad = broker_error data_response none

abbrev history : List (Event ℕ)
history =
    sets_data 1
    ∷ sets_error 2
    ∷ sets_finalize 3
    ∷ reports_data 5
    ∷ reports_error bad
    ∷ reports_data 6
    ∷ reports_success
    ∷ reports_data 7
    ∷ []

abbrev fresh : Deferred
fresh = init ok_error false

run-deliveries_example :
    data_calls (run history fresh).1 ≡ deliveries fresh.failed fresh.data_handler history
run-deliveries_example = run-deliveries ℕ history fresh

run-errors_example : error_calls (run history fresh).1 ≡ errors fresh.error_handler history
run-errors_example = run-errors ℕ history fresh

destroy-run_example :
    destroy {D = ℕ} (run history fresh).0
    ≡ call_if_set (run history fresh).0.finalize_handler finalize_call
unfolding init is_error ok_error
destroy-run_example = destroy-run ℕ history fresh refl
