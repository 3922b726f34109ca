-- ===== src/Address/Split.antt =====
-- `split` of src/amqp_address.cc, with `std::getline` over a string stream.
use capy_amqp_cpp.Prelude.{
  ℕ, ◌≡◌, refl, ap, sym, ◌∙◌, Bool, true, false, not, List, [], ◌∷◌, ◌++◌, arith, ◌==◌, ==_refl,
  if◌then◌else◌, Text, all, append_assoc, append-nil,
}

-- What is left at the end of the stream is a token only if it is not empty.
abbrev last_token : Text → List Text
last_token [] = []
last_token (c ∷ token) = (c ∷ token) ∷ []

-- `token` is what the current call of `getline` has read.
unfoldable pub split_from : ℕ → Text → Text → List Text
split_from delimiter token [] = last_token token
split_from delimiter token (c ∷ s) =
    let next = split_from delimiter [] s in
    let more = split_from delimiter (token ++ c ∷ []) s in
    if c == delimiter then token ∷ next else more

unfoldable pub split : Text → ℕ → List Text
unfolding split_from
split s delimiter = split_from delimiter [] s

-- No character of the token is the delimiter.
abbrev pub free_of : ℕ → Text → Bool
free_of d = all (λ c. not (c == d))

split_from-run :
    (d : ℕ) (t u s : Text) → free_of d u ≡ true → split_from d t (u ++ s) ≡ split_from d (t ++ u) s
unfolding split_from
split_from-run d t [] s h = rw append-nil
split_from-run d t (c ∷ u) s h =
    let e : (c == d) ≡ false = ground arith in
    rw e (split_from-run d (t ++ c ∷ []) u s (ground arith) ∙ rw append_assoc)

-- Each token with the delimiter behind it.
abbrev pub terminated : ℕ → List Text → Text
terminated d [] = []
terminated d (t ∷ ts) = t ++ d ∷ terminated d ts

-- `split` gives back any tokens that do not contain the delimiter, empty ones too, from the text
-- in which each is followed by the delimiter.
pub split-terminated :
    (d : ℕ) (ts : List Text) → all (free_of d) ts ≡ true → split (terminated d ts) d ≡ ts
unfolding split
split-terminated d [] h = refl
split-terminated d (t ∷ ts) h =
    split_from-run d [] t (d ∷ terminated d ts) (ground arith)
    ∙ rw (==_refl d) (ap (◌∷◌ t) (split-terminated d ts (ground arith)))

-- The last token needs no delimiter, if it is not empty.
pub split_pair :
    (d c : ℕ) (u v : Text)
    → free_of d u ≡ true
    → free_of d (c ∷ v) ≡ true
    → split (u ++ d ∷ c ∷ v) d ≡ u ∷ (c ∷ v) ∷ []
unfolding split
split_pair d c u v hu hv =
    split_from-run d [] u (d ∷ c ∷ v) hu
    ∙ rw (==_refl d) (
        ap (◌∷◌ u)
          (ap (split_from d []) (sym (append-nil (c ∷ v))) ∙ split_from-run d [] (c ∷ v) [] hv))
