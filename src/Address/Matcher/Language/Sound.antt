-- ===== src/Address/Matcher/Language/Sound.antt =====
-- What a search of an expression of src/amqp_address.cc finds.
use capy_amqp_cpp.Prelude.{
  ◌↔◌, ℕ, ◌≡◌, ◌⊎◌, inl, inr, refl, sym, ap, ◌∙◌, subst, Bool, true, false, Option, none, some, [],
  ◌∷◌, ◌++◌, Text, all, is_some, update, append_assoc, append-nil, Bool-cases, Option-cases,
}
use capy_amqp_cpp.Address.Matcher.{
  Regex, opt, alt, Captures, Rest, first_of_two, run_star, run_plus, run_one, run, at_end,
  regex_match,
}
use capy_amqp_cpp.Address.Matcher.Language.{
  Matches, one, star, plus, skip, take, seq, left, right, group, run_complete,
}

-- What a search that succeeds has found: a part of the text that matches, and what follows it.
pub record Found (P : Text → Type 0) (k : Rest) (s : Text) (x : Captures) : Type 0 where
  pub matched : Text
  pub behind : Text
  pub groups : Captures
  pub split : s ≡ matched ++ behind
  pub here : P matched
  pub goes_on : k matched behind groups ≡ some x

first_of_two-eq-some :
    (o o' : Option Captures) (x : Captures)
    → first_of_two o o' ≡ some x
    → (o ≡ some x) ⊎ (o' ≡ some x)
first_of_two-eq-some none o' x h = inr h
first_of_two-eq-some (some y) o' x h = inl h

Found-star_cons :
    (p : ℕ → Bool) {k : Rest} (c : ℕ) {s : Text} {x : Captures}
    → p c ≡ true
    → Found (λ u. all p u ≡ true) (λ u. k (c ∷ u)) s x
    → Found (λ u. all p u ≡ true) k (c ∷ s) x
Found-star_cons p c h f = record {
  matched = c ∷ f.matched;
  behind = f.behind;
  groups = f.groups;
  split = ap (◌∷◌ c) f.split;
  here = rw h f.here;
  goes_on = f.goes_on;
}

Found-nil :
    {P : Text → Type 0} {k : Rest} (s : Text) (caps : Captures) {x : Captures}
    → P []
    → k [] s caps ≡ some x
    → Found P k s x
Found-nil s caps h e = record {
  matched = [];
  behind = s;
  groups = caps;
  split = refl;
  here = h;
  goes_on = e;
}

run_star_sound :
    (p : ℕ → Bool) (k : Rest) (s : Text) (caps x : Captures)
    → run_star p k s caps ≡ some x
    → Found (λ u. all p u ≡ true) k s x
unfolding run_star
run_star_sound p k [] caps x h = Found-nil [] caps refl h
run_star_sound p k (c ∷ s) caps x h = elim (Bool-cases (p c)) [
  | inl e ↦ elim (first_of_two-eq-some _ _ x (rw e at h)) [
    | inl l ↦ Found-star_cons p c e (run_star_sound p (λ u. k (c ∷ u)) s caps x l)
    | inr n ↦ Found-nil (c ∷ s) caps refl n
  ]
  | inr e ↦ Found-nil (c ∷ s) caps refl (rw e at h)
]

run_one_sound :
    (p : ℕ → Bool) (k : Rest) (s : Text) (caps x : Captures)
    → run_one p k s caps ≡ some x
    → Found (Matches (Regex.one p)) k s x
unfolding run_one
run_one_sound p k [] caps x h = cc
run_one_sound p k (c ∷ s) caps x h = elim (Bool-cases (p c)) [
  | inl e ↦ record {
    matched = c ∷ [];
    behind = s;
    groups = caps;
    split = refl;
    here = one e;
    goes_on = rw e at h;
  }
  | inr e ↦ let bad : none ≡ some x = rw e at h in cc
]

run_plus_sound :
    (p : ℕ → Bool) (k : Rest) (s : Text) (caps x : Captures)
    → run_plus p k s caps ≡ some x
    → Found (Matches (Regex.plus p)) k s x
unfolding run_plus
run_plus_sound p k [] caps x h = cc
run_plus_sound p k (c ∷ s) caps x h = elim (Bool-cases (p c)) [
  | inl e ↦
      let f = run_star_sound p (λ u. k (c ∷ u)) s caps x (rw e at h) in
      record {
        matched = c ∷ f.matched;
        behind = f.behind;
        groups = f.groups;
        split = ap (◌∷◌ c) f.split;
        here = plus e f.here;
        goes_on = f.goes_on;
      }
  | inr e ↦ let bad : none ≡ some x = rw e at h in cc
]

Found-map :
    {P Q : Text → Type 0} {k : Rest} {s : Text} {x : Captures}
    → ((u : Text) → P u → Q u)
    → Found P k s x
    → Found Q k s x
Found-map g f = record {
  matched = f.matched;
  behind = f.behind;
  groups = f.groups;
  split = f.split;
  here = g f.matched f.here;
  goes_on = f.goes_on;
}

run_sound :
    (r : Regex) (k : Rest) (s : Text) (caps x : Captures)
    → run r k s caps ≡ some x
    → Found (Matches r) k s x
unfolding run
run_sound (Regex.one p) k s caps x h = run_one_sound p k s caps x h
run_sound (Regex.star p) k s caps x h = Found-map (λ u m. star m) (run_star_sound p k s caps x h)
run_sound (Regex.plus p) k s caps x h = run_plus_sound p k s caps x h
run_sound (opt r) k s caps x h = elim (first_of_two-eq-some _ _ x h) [
  | inl l ↦ Found-map (λ u m. take m) (run_sound r k s caps x l)
  | inr n ↦ Found-nil s caps skip n
]
run_sound (Regex.seq a b) k s caps x h =
    let f = run_sound a _ s caps x h in
    let g = run_sound b _ f.behind f.groups x f.goes_on in
    record {
      matched = f.matched ++ g.matched;
      behind = g.behind;
      groups = g.groups;
      split = f.split ∙ ap (◌++◌ f.matched) g.split ∙ sym (append_assoc f.matched _ _);
      here = seq f.here g.here refl;
      goes_on = g.goes_on;
    }
run_sound (alt a b) k s caps x h = elim (first_of_two-eq-some _ _ x h) [
  | inl l ↦ Found-map (λ u m. left m) (run_sound a k s caps x l)
  | inr n ↦ Found-map (λ u m. right m) (run_sound b k s caps x n)
]
run_sound (Regex.group n r) k s caps x h =
    let f = run_sound r _ s caps x h in
    record {
      matched = f.matched;
      behind = f.behind;
      groups = update f.groups n f.matched;
      split = f.split;
      here = group f.here;
      goes_on = f.goes_on;
    }

at_end-eq-some : (u t : Text) (caps x : Captures) → at_end u t caps ≡ some x → t ≡ []
at_end-eq-some u [] caps x h = refl
at_end-eq-some u (c ∷ t) caps x h = cc

-- `regex_match` succeeds exactly on the texts of the language.
pub regex_match-Matches : (r : Regex) (s : Text) → Matches r s ↔ (is_some (regex_match r s) ≡ true)
unfolding regex_match
regex_match-Matches r s = (
  λ m. rw (append-nil s) at (run_complete {s = s} at_end [] (λ n. []) m (λ caps. refl)),
  λ h. elim (Option-cases (regex_match r s)) [
    | inl e ↦ let bad : false ≡ true = rw e at h in cc
    | inr (x, e) ↦
        let f = run_sound r at_end s (λ n. []) x e in
        let g = at_end-eq-some f.matched f.behind f.groups x f.goes_on in
        subst (Matches r) (sym (f.split ∙ ap (◌++◌ f.matched) g ∙ append-nil f.matched)) f.here
  ],
)
