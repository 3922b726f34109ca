-- ===== src/Address/Matcher/Language.antt =====
-- The language of an expression of src/amqp_address.cc, and the search.
pub mod Sound
use capy_amqp_cpp.Prelude.{
  ℕ, ◌≡◌, ◌≢◌, ◌⊎◌, inl, inr, refl, sym, ap, ◌∙◌, subst, Bool, true, false, ◌&&◌, Option, none,
  some, List, [], ◌∷◌, ◌++◌, arith, ◌==◌, if◌then◌else◌, Text, all, is_some, is_empty, update,
  append_assoc, append-nil, Bool-cases, Option-cases,
}
use capy_amqp_cpp.Address.Matcher.{
  Regex, opt, alt, Captures, Rest, first_of_two, run_star, run_plus, run_one, run, at_end,
  regex_match,
}

-- The texts that an expression stands for.
pub data Matches : Regex → Text → Type 0 where
  one : {p : ℕ → Bool} {c : ℕ} → p c ≡ true → Matches (Regex.one p) (c ∷ [])
  star : {p : ℕ → Bool} {s : Text} → all p s ≡ true → Matches (Regex.star p) s
  plus :
      {p : ℕ → Bool} {c : ℕ} {s : Text}
      → p c ≡ true
      → all p s ≡ true
      → Matches (Regex.plus p) (c ∷ s)
  skip : {r : Regex} → Matches (opt r) []
  take : {r : Regex} {s : Text} → Matches r s → Matches (opt r) s
  seq :
      {a b : Regex} {u v s : Text}
      → Matches a u
      → Matches b v
      → s ≡ u ++ v
      → Matches (Regex.seq a b) s
  left : {a b : Regex} {s : Text} → Matches a s → Matches (alt a b) s
  right : {a b : Regex} {s : Text} → Matches b s → Matches (alt a b) s
  group : {n : ℕ} {r : Regex} {s : Text} → Matches r s → Matches (Regex.group n r) s

first_some : (x y : Option Captures) → is_some x ≡ true → is_some (first_of_two x y) ≡ true
first_some none y h = cc
first_some (some x) y h = refl

second_some : (x y : Option Captures) → is_some y ≡ true → is_some (first_of_two x y) ≡ true
second_some none y h = h
second_some (some x) y h = refl

-- What follows succeeds on `u` before `t`, whatever the groups are.
abbrev Succeeds : Rest → Text → Text → Type 0
Succeeds k u t = (caps : Captures) → is_some (k u t caps) ≡ true

run_star_complete :
    (p : ℕ → Bool) (k : Rest) (s t : Text) (caps : Captures)
    → all p s ≡ true
    → Succeeds k s t
    → is_some (run_star p k (s ++ t) caps) ≡ true
unfolding run_star
run_star_complete p k [] [] caps h ok = ok caps
run_star_complete p k [] (c ∷ t) caps h ok = elim (Bool-cases (p c)) [
  | inl e ↦ rw e (second_some _ _ (ok caps))
  | inr e ↦ rw e (ok caps)
]
run_star_complete p k (c ∷ s) t caps h ok =
    let e : p c ≡ true = ground arith in
    rw e (first_some _ _ (run_star_complete p (λ u. k (c ∷ u)) s t caps (ground arith) ok))

pub run_complete :
    {r : Regex} {s : Text} (k : Rest) (t : Text) (caps : Captures)
    → Matches r s
    → Succeeds k s t
    → is_some (run r k (s ++ t) caps) ≡ true
unfolding run run_plus run_one
run_complete k t caps (one h) ok = rw h (ok caps)
run_complete k t caps (star {p} {s} h) ok = run_star_complete p k s t caps h ok
run_complete k t caps (plus {p} {c} {s} h hs) ok =
    rw h (run_star_complete p (λ u. k (c ∷ u)) s t caps hs ok)
run_complete k t caps skip ok = second_some _ _ (ok caps)
run_complete k t caps (take m) ok = first_some _ _ (run_complete k t caps m ok)
run_complete k t caps (seq {a} {b} {u} {v} {s} m n e) ok =
    subst (λ w. is_some (run (Regex.seq a b) k (w ++ t) caps) ≡ true) (sym e)
      (rw append_assoc (
        run_complete (λ u' t'. run b (λ v'. k (u' ++ v')) t') (v ++ t) caps m
          (λ cs.
            run_complete (λ v'. k (u ++ v')) t cs n
              (λ cs'. subst (λ w. is_some (k w t cs') ≡ true) e (ok cs')))))
run_complete k t caps (left m) ok = first_some _ _ (run_complete k t caps m ok)
run_complete k t caps (right m) ok = second_some _ _ (run_complete k t caps m ok)
run_complete k t caps (group {n} m) ok =
    run_complete (λ u s cs. k u s (update cs n u)) t caps m (λ cs. ok _)
