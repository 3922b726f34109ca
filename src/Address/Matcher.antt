-- ===== src/Address/Matcher.antt =====
-- `std::regex_match` for the expressions of src/amqp_address.cc: a backtracking search in the order of
-- the ECMAScript rules. A quantifier takes as much as it can first, an alternative its left side first.
pub mod Greedy
pub mod Language
use capy_amqp_cpp.Prelude.{
  ℕ, Bool, true, false, Option, none, some, List, [], ◌∷◌, ◌++◌, ◌==◌, if◌then◌else◌, Text,
  is_empty, update,
}

pub data Regex : Type 0 where
  one : (ℕ → Bool) → Regex  -- a character of a class
  star : (ℕ → Bool) → Regex  -- `[...]*`
  plus : (ℕ → Bool) → Regex  -- `[...]+`
  opt : Regex → Regex  -- `r?`
  seq : Regex → Regex → Regex
  alt : Regex → Regex → Regex  -- `r|s`
  group : ℕ → Regex → Regex  -- `(r)`, by its number

-- The text of each group, empty for one that takes no part.
abbrev pub Captures : Type 0
Captures = ℕ → Text

-- What follows: it is given the text matched, the text behind it, and the groups so far.
abbrev pub Rest : Type 0
Rest = Text → Text → Captures → Option Captures

abbrev pub first_of_two : Option Captures → Option Captures → Option Captures
first_of_two (some x) o = some x
first_of_two none o = o

unfoldable pub run_star : (ℕ → Bool) → Rest → Text → Captures → Option Captures
run_star p k [] caps = k [] [] caps
run_star p k (c ∷ s) caps =
    let longer = run_star p (λ u. k (c ∷ u)) s caps in
    if p c then (first_of_two longer (k [] (c ∷ s) caps)) else k [] (c ∷ s) caps

unfoldable pub run_plus : (ℕ → Bool) → Rest → Text → Captures → Option Captures
unfolding run_star
run_plus p k [] caps = none
run_plus p k (c ∷ s) caps = if p c then run_star p (λ u. k (c ∷ u)) s caps else none

unfoldable pub run_one : (ℕ → Bool) → Rest → Text → Captures → Option Captures
run_one p k [] caps = none
run_one p k (c ∷ s) caps = if p c then k (c ∷ []) s caps else none

unfoldable pub run : Regex → Rest → Text → Captures → Option Captures
unfolding run_star run_plus run_one
run (one p) k s caps = run_one p k s caps
run (star p) k s caps = run_star p k s caps
run (plus p) k s caps = run_plus p k s caps
run (opt r) k s caps = first_of_two (run r k s caps) (k [] s caps)
run (seq a b) k s caps = run a (λ u t. run b (λ v. k (u ++ v)) t) s caps
run (alt a b) k s caps = first_of_two (run a k s caps) (run b k s caps)
run (group n r) k s caps = run r (λ u t cs. k u t (update cs n u)) s caps

-- The whole text has to match.
abbrev pub at_end : Rest
at_end u [] caps = some caps
at_end u (c ∷ s) caps = none

unfoldable pub regex_match : Regex → Text → Option Captures
unfolding run
regex_match r s = run r at_end s (λ n. [])

-- A literal.
abbrev pub lit : ℕ → Regex
lit c = one (λ d. c == d)

abbrev pub lits : ℕ → Text → Regex
lits c [] = lit c
lits c (d ∷ s) = seq (lit c) (lits d s)
