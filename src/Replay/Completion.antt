-- ===== src/Replay/Completion.antt =====
-- The handlers that a replay of src/broker_impl/broker.cc calls in its life.
use capy_amqp_cpp.Prelude.{
  Option, none, some, List, [], ◌∷◌, ◌++◌, ℕ, ◌≡◌, refl, ap, ◌∙◌, append_assoc,
}
use capy_amqp_cpp.Error.{Result}
use capy_amqp_cpp.Replay.{
  Replay, Call, commits, completes, Event, sets_commit, sets_complete, sets_message, calls_commit,
  step, run, life,
}

module _ {ℓ} {J : Type ℓ} where
  abbrev completion : Option ℕ → Result J → List (Call J)
  completion none m = []
  completion (some h) m = completes h m ∷ []

  -- The calls that a life promises: each commit sends the message of its time and cancels the complete
  -- handler, if a commit handler is set; the end runs the complete handler that is left.
  abbrev pub promised : Option ℕ → Option ℕ → Result J → List (Event J) → List (Call J)
  promised c k m [] = completion k m
  promised c k m (sets_commit h ∷ evs) = promised (some h) k m evs
  promised c k m (sets_complete h ∷ evs) = promised c (some h) m evs
  promised c k m (sets_message m' ∷ evs) = promised c k m' evs
  promised none k m (calls_commit ∷ evs) = promised none k m evs
  promised (some h) k m (calls_commit ∷ evs) = commits h m ∷ promised (some h) none m evs

  life-step :
      (ev : Event J) (evs : List (Event J)) (r : Replay J)
      → life (ev ∷ evs) r ≡ (step ev r).1 ++ life evs (step ev r).0
  unfolding life
  life-step ev evs r = append_assoc (step ev r).1 (run evs (step ev r).0).1 _

  life_nil :
      (c k : Option ℕ) (m : Result J)
      → life [] (record { message = m; commit_handler = c; complete_handler = k }) ≡ completion k m
  unfolding life
  life_nil c none m = refl
  life_nil c (some h) m = refl

  life-at :
      (c k : Option ℕ) (m : Result J) (evs : List (Event J))
      → life evs (record { message = m; commit_handler = c; complete_handler = k })
        ≡ promised c k m evs
  unfolding step
  life-at c k m [] = life_nil c k m
  life-at c k m (sets_commit h ∷ evs) = life-step _ evs _ ∙ life-at (some h) k m evs
  life-at c k m (sets_complete h ∷ evs) = life-step _ evs _ ∙ life-at c (some h) m evs
  life-at c k m (sets_message m' ∷ evs) = life-step _ evs _ ∙ life-at c k m' evs
  life-at none k m (calls_commit ∷ evs) = life-step _ evs _ ∙ life-at none k m evs
  life-at (some h) k m (calls_commit ∷ evs) =
      life-step _ evs _ ∙ ap (◌∷◌ (commits h m)) (life-at (some h) none m evs)

  -- Every life of a replay calls exactly the promised handlers, in order: each commit calls the
  -- commit handler with the message of its time, if one is set, and cancels the complete handler;
  -- the destructor calls the complete handler that is left.
  pub life-promised :
      (evs : List (Event J)) (r : Replay J)
      → life evs r ≡ promised r.commit_handler r.complete_handler r.message evs
  life-promised evs r = life-at r.commit_handler r.complete_handler r.message evs
