-- ===== src/Deferred.antt =====
-- include/capy/amqp_deferred.h: the handlers of one fetch or listen. A handler is a number that names
-- the callback; calling one is an entry of the list of calls that an operation returns. Each report is
-- one step: reports of one object by several threads at once, which its shared lock does not exclude,
-- are not modelled.
pub mod Gate
pub mod Errors
mod Tests
use capy_amqp_cpp.Prelude.{
  ℕ, Bool, true, false, not, ◌&&◌, Option, none, some, List, [], ◌∷◌, ◌++◌, if◌then◌else◌,
}
use capy_amqp_cpp.Error.{Error, is_error, ok_error}

-- A call of a handler, with what it is given. `D` is the tuple of the `Types`.
pub data Call {ℓ} (D : Type ℓ) : Type ℓ where
  data_call : ℕ → D → Call D
  success_call : ℕ → Call D
  error_call : ℕ → Error → Call D
  finalize_call : ℕ → Call D

pub record Deferred : Type 0 where
  pub data_handler : Option ℕ
  pub success_handler : Option ℕ
  pub error_handler : Option ℕ
  pub finalize_handler : Option ℕ
  pub error : Error
  pub failed : Bool

-- The constructor. It gives `failed_` no value: `indeterminate` is what the memory holds.
unfoldable pub init : Error → Bool → Deferred
init error indeterminate = record {
  data_handler = none;
  success_handler = none;
  error_handler = none;
  finalize_handler = none;
  error = error;
  failed = indeterminate;
}

-- operator bool
unfoldable pub is_good : Deferred → Bool
is_good d = not d.failed

unfoldable pub on_data : ℕ → Deferred → Deferred
on_data callback d = record d { data_handler = some callback }

unfoldable pub on_success : ℕ → Deferred → Deferred
on_success callback d = record d { success_handler = some callback }

unfoldable pub on_error : ℕ → Deferred → Deferred
on_error callback d = record d { error_handler = some callback }

unfoldable pub on_finalize : ℕ → Deferred → Deferred
on_finalize callback d = record d { finalize_handler = some callback }

-- `reset`, with which the destructor ends.
unfoldable pub reset : Deferred → Deferred
reset d = record d {
  data_handler = none;
  success_handler = none;
  error_handler = none;
  finalize_handler = none;
}

module _ {ℓ} {D : Type ℓ} where
  -- `if (handler) handler.value()(...)`
  abbrev pub call_if_set : Option ℕ → (ℕ → Call D) → List (Call D)
  call_if_set none call = []
  call_if_set (some h) call = call h ∷ []

  unfoldable pub report_data : D → Deferred → Deferred × List (Call D)
  unfolding is_good
  report_data parameters d =
      (d, if is_good d then call_if_set d.data_handler (λ h. data_call h parameters) else [])

  unfoldable pub report_success : Deferred → Deferred × List (Call D)
  report_success d = (record d { failed = false }, call_if_set d.success_handler success_call)

  -- `error_` holds the error while the handler runs, and is OK again afterwards.
  unfoldable pub report_error : Error → Deferred → Deferred × List (Call D)
  report_error error d =
      if is_error error
      then (
        record d { error = ok_error; failed = true },
        call_if_set d.error_handler (λ h. error_call h error),
      )
      else (record d { error = error }, [])

  -- The destructor: its calls.
  unfoldable pub destroy : Deferred → List (Call D)
  destroy d =
      (if is_error d.error then call_if_set d.error_handler (λ h. error_call h d.error) else [])
      ++ call_if_set d.finalize_handler finalize_call

-- What the client and the broker do to a deferred object while it lives.
pub data Event {ℓ} (D : Type ℓ) : Type ℓ where
  sets_data sets_success sets_error sets_finalize : ℕ → Event D
  reports_data : D → Event D
  reports_success : Event D
  reports_error : Error → Event D

module _ {ℓ} {D : Type ℓ} where
  unfoldable pub step : Event D → Deferred → Deferred × List (Call D)
  unfolding on_data on_success on_error on_finalize report_data report_success report_error
  step (sets_data h) d = (on_data h d, [])
  step (sets_success h) d = (on_success h d, [])
  step (sets_error h) d = (on_error h d, [])
  step (sets_finalize h) d = (on_finalize h d, [])
  step (reports_data x) d = report_data x d
  step reports_success d = report_success d
  step (reports_error error) d = report_error error d

  -- A history, and the calls that it makes.
  unfoldable pub run : List (Event D) → Deferred → Deferred × List (Call D)
  run [] d = (d, [])
  run (ev ∷ evs) d =
      let (d', calls) = step ev d in let (d'', later) = run evs d' in (d'', calls ++ later)
