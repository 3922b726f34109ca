-- ===== src/Replay.antt =====
-- `Replay` and `ReplayImpl`: include/capy/amqp_common.h, src/broker_impl/broker.h and the head of
-- src/broker_impl/broker.cc. A handler is a number that names the callback; an operation returns the
-- handlers that it calls.
pub mod Completion
mod Tests
use capy_amqp_cpp.Prelude.{Bool, Option, none, some, List, [], ◌∷◌, ◌++◌, ℕ}
use capy_amqp_cpp.Error.{Result}

-- `message` is the payload, a json value (or an error) that the client fills in.
pub record Replay {ℓ} (J : Type ℓ) : Type ℓ where
  pub message : Result J
  pub commit_handler : Option ℕ
  pub complete_handler : Option ℕ

-- A call of a handler on the replay.
pub data Call {ℓ} (J : Type ℓ) : Type ℓ where
  commits completes : ℕ → Result J → Call J

module _ {ℓ} {J : Type ℓ} where
  -- The constructor; `message` is the default value of the payload.
  unfoldable pub init : Result J → Replay J
  init message = record { message = message; commit_handler = none; complete_handler = none }

  unfoldable pub on_complete : ℕ → Replay J → Replay J
  on_complete complete_handler r = record r { complete_handler = some complete_handler }

  unfoldable pub set_commit : ℕ → Replay J → Replay J
  set_commit commit_handler r = record r { commit_handler = some commit_handler }

  unfoldable pub set_message : Result J → Replay J → Replay J
  set_message message r = record r { message = message }

  abbrev commit_with : Option ℕ → Replay J → Replay J × List (Call J)
  commit_with none r = (r, [])
  commit_with (some h) r = (record r { complete_handler = none }, commits h r.message ∷ [])

  unfoldable pub commit : Replay J → Replay J × List (Call J)
  commit r = commit_with r.commit_handler r

  abbrev complete_with : Option ℕ → Replay J → Replay J × List (Call J)
  complete_with none r = (r, [])
  complete_with (some h) r = (record r { commit_handler = none }, completes h r.message ∷ [])

  -- The destructor.
  unfoldable pub destroy : Replay J → Replay J × List (Call J)
  destroy r = complete_with r.complete_handler r

-- What a client does to a replay while it lives.
pub data Event {ℓ} (J : Type ℓ) : Type ℓ where
  sets_commit sets_complete : ℕ → Event J
  sets_message : Result J → Event J
  calls_commit : Event J

module _ {ℓ} {J : Type ℓ} where
  unfoldable pub step : Event J → Replay J → Replay J × List (Call J)
  unfolding set_commit on_complete set_message commit
  step (sets_commit h) r = (set_commit h r, [])
  step (sets_complete h) r = (on_complete h r, [])
  step (sets_message m) r = (set_message m r, [])
  step calls_commit r = commit r

  unfoldable pub run : List (Event J) → Replay J → Replay J × List (Call J)
  run [] r = (r, [])
  run (ev ∷ evs) r =
      let (r', calls) = step ev r in let (r'', later) = run evs r' in (r'', calls ++ later)

  -- A whole life: a history, and the destructor.
  unfoldable pub life : List (Event J) → Replay J → List (Call J)
  unfolding run destroy
  life evs r = let (r', calls) = run evs r in calls ++ (destroy r').1
