-- ===== src/Replay/Tests.antt =====
-- Tests of the replay: the property on one life.
use capy_amqp_cpp.Prelude.{ℕ, ◌≡◌, List, [], ◌∷◌}
use capy_amqp_cpp.Error.{value_of}
use capy_amqp_cpp.Replay.{
  Replay, Event, init, sets_commit, sets_complete, sets_message, calls_commit, life,
}
use capy_amqp_cpp.Replay.Completion.{promised, life-promised}

abbrev history : List (Event ℕ)
history =
    sets_commit 1
    ∷ sets_complete 2
    ∷ sets_message (value_of 5)
    ∷ calls_commit
    ∷ sets_complete 3
    ∷ []

abbrev fresh : Replay ℕ
fresh = init (value_of 0)

life-promised_example :
    life history fresh ≡ promised fresh.commit_handler fresh.complete_handler fresh.message history
life-promised_example = life-promised history fresh
