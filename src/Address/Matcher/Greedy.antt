-- ===== src/Address/Matcher/Greedy.antt =====
-- The search of an expression of src/amqp_address.cc on a text that a class fits to a point.
use capy_amqp_cpp.Prelude.{
  ℕ, ◌≡◌, refl, Bool, true, false, ◌&&◌, Option, none, some, [], ◌∷◌, ◌++◌, append-nil, ==_refl,
  update, ◌==◌, Text, all,
}
use capy_amqp_cpp.Address.Matcher.{
  Regex, plus, star, opt, seq, group, lit, Captures, Rest, first_of_two, run_star, run_plus, run,
}

-- The class goes no further at the text.
abbrev pub Stops : (ℕ → Bool) → Text → Type 0
Stops p [] = Unit {0}
Stops p (c ∷ s) = p c ≡ false

pub and_left : (a b : Bool) → (a && b) ≡ true → a ≡ true
and_left true b h = refl
and_left false b h = cc

pub and_right : (a b : Bool) → (a && b) ≡ true → b ≡ true
and_right true b h = h
and_right false b h = cc

pub first_of_two-some :
    (o o' : Option Captures) (x : Captures) → o ≡ some x → first_of_two o o' ≡ some x
first_of_two-some none o' x h = cc
first_of_two-some (some y) o' x h = h

run_star-greedy :
    (p : ℕ → Bool) (k : Rest) (u t : Text) (caps x : Captures)
    → all p u ≡ true
    → Stops p t
    → k u t caps ≡ some x
    → run_star p k (u ++ t) caps ≡ some x
unfolding run_star
run_star-greedy p k [] [] caps x h st ok = ok
run_star-greedy p k [] (c ∷ t) caps x h st ok = rw st ok
run_star-greedy p k (c ∷ u) t caps x h st ok = rw (and_left (p c) (all p u) h) (
    first_of_two-some _ _ x
      (run_star-greedy p (λ v. k (c ∷ v)) u t caps x (and_right (p c) (all p u) h) st ok))

run_plus-greedy :
    (p : ℕ → Bool) (k : Rest) (c : ℕ) (u t : Text) (caps x : Captures)
    → all p (c ∷ u) ≡ true
    → Stops p t
    → k (c ∷ u) t caps ≡ some x
    → run_plus p k ((c ∷ u) ++ t) caps ≡ some x
unfolding run_plus
run_plus-greedy p k c u t caps x h st ok =
    rw (and_left (p c) (all p u) h)
      (run_star-greedy p (λ v. k (c ∷ v)) u t caps x (and_right (p c) (all p u) h) st ok)

run_star-greedy_end :
    (p : ℕ → Bool) (k : Rest) (u : Text) (caps x : Captures)
    → all p u ≡ true
    → k u [] caps ≡ some x
    → run_star p k u caps ≡ some x
run_star-greedy_end p k u caps x h ok =
    rw (append-nil u) at (run_star-greedy p k u [] caps x h tt ok)

-- The search for `r` on `s` first tries `u`, with `t` behind it and the groups `after`: if what follows
-- succeeds there, that is the result.
pub record Finds (r : Regex) (s : Text) (before : Captures) (u t : Text) (after : Captures)
    : Type 0 where
  pub at : (k : Rest) (x : Captures) → k u t after ≡ some x → run r k s before ≡ some x

pub Finds-lit : (c : ℕ) (t : Text) {caps : Captures} → Finds (lit c) (c ∷ t) caps (c ∷ []) t caps
unfolding run
Finds-lit c t = record { at = λ k x ok. rw (==_refl c) ok }

pub Finds-seq :
    {a b : Regex} {s t t' u v : Text} {caps caps' caps'' : Captures}
    → Finds a s caps u t caps'
    → Finds b t caps' v t' caps''
    → Finds (seq a b) s caps (u ++ v) t' caps''
unfolding run
Finds-seq {b} {u} f g = record { at = λ k x ok. f.at _ x (g.at (λ v. k (u ++ v)) x ok) }

pub Finds-group :
    {n : ℕ} {r : Regex} {s t u : Text} {caps caps' : Captures}
    → Finds r s caps u t caps'
    → Finds (group n r) s caps u t (update caps' n u)
unfolding run
Finds-group f = record { at = λ k x ok. f.at _ x ok }

pub Finds-opt :
    {r : Regex} {s t u : Text} {caps caps' : Captures}
    → Finds r s caps u t caps'
    → Finds (opt r) s caps u t caps'
unfolding run
Finds-opt f = record { at = λ k x ok. first_of_two-some _ _ x (f.at k x ok) }

-- The literal is not there, and left out.
pub Finds-opt_lit :
    (c : ℕ) (s : Text) {caps : Captures}
    → Stops (λ d. c == d) s
    → Finds (opt (lit c)) s caps [] s caps
unfolding run
Finds-opt_lit c [] st = record { at = λ k x ok. ok }
Finds-opt_lit c (d ∷ s) st = record { at = λ k x ok. rw st ok }

pub Finds-star :
    (p : ℕ → Bool) (u t : Text) {caps : Captures}
    → all p u ≡ true
    → Stops p t
    → Finds (star p) (u ++ t) caps u t caps
unfolding run
Finds-star p u t {caps} h st = record { at = λ k x ok. run_star-greedy p k u t caps x h st ok }

pub Finds-star_end :
    (p : ℕ → Bool) (u : Text) {caps : Captures} → all p u ≡ true → Finds (star p) u caps u [] caps
unfolding run
Finds-star_end p u {caps} h = record { at = λ k x ok. run_star-greedy_end p k u caps x h ok }

pub Finds-plus :
    (p : ℕ → Bool) (c : ℕ) (u t : Text) {caps : Captures}
    → all p (c ∷ u) ≡ true
    → Stops p t
    → Finds (plus p) ((c ∷ u) ++ t) caps (c ∷ u) t caps
unfolding run
Finds-plus p c u t {caps} h st = record { at = λ k x ok. run_plus-greedy p k c u t caps x h st ok }
