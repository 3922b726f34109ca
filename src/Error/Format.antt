-- ===== src/Error/Format.antt =====
-- `error_string` of src/amqp_common.cc.
use capy_amqp_cpp.Prelude.{
  ℕ, suc, ◌+◌, ◌-◌, ◌≤◌, ◌≡◌, refl, inl, inr, Bool, true, false, Option, none, some, List, [], ◌∷◌,
  ◌++◌, arith, ◌==◌, if◌then◌else◌, Text, codes, is_some, leb, length, take, length-append,
  length-take-le, Bool-cases, leb-suc, leb-suc_zero, sym, ◌∙◌,
}

-- The text `t` in front of what follows it.
abbrev prefix : Text → Option Text → Option Text
prefix t none = none
prefix t (some u) = some (t ++ u)

-- vsnprintf without its limit, for the conversions `%s` and `%%`. The flag says that the last byte
-- was an open `%`. `none` stands for undefined behaviour: a `%s` with no argument left, or another
-- conversion.
unfoldable pub print_format : Bool → Text → List Text → Option Text
print_format false [] args = some []
print_format true [] args = none
print_format false (c ∷ cs) args =
    if c == b'%' then print_format true cs args else prefix (c ∷ []) (print_format false cs args)
print_format true (c ∷ cs) [] =
    if c == b'%' then prefix (c ∷ []) (print_format false cs []) else none
print_format true (c ∷ cs) (a ∷ args) =
    if c == b'%'
    then prefix (c ∷ []) (print_format false cs (a ∷ args))
    else if c == b's'
    then prefix a (print_format false cs args)
    else none

abbrev buffer_size : ℕ
buffer_size = 1024

abbrev banner : Text
banner = codes "Cappy error: "

abbrev banner_and : Option Text → Option Text
banner_and none = none
banner_and (some s) = some (banner ++ take (buffer_size - 1) s)

-- const std::string error_string(const char* format, ...)
unfoldable pub error_string : Text → List Text → Option Text
unfolding print_format
error_string format args = banner_and (print_format false format args)

abbrev add_one_to : Option ℕ → Option ℕ
add_one_to none = none
add_one_to (some n) = some (suc n)

-- The number of arguments that a format asks for, if it has no conversion but `%s` and `%%`.
abbrev pub conversions : Bool → Text → Option ℕ
conversions false [] = some 0
conversions true [] = none
conversions false (c ∷ cs) = if c == b'%' then conversions true cs else conversions false cs
conversions true (c ∷ cs) =
    let rest = conversions false cs in
    if c == b'%' then rest else if c == b's' then add_one_to rest else none

is_some-banner_and : (o : Option Text) → is_some (banner_and o) ≡ is_some o
is_some-banner_and none = refl
is_some-banner_and (some u) = refl

banner_and_bounds :
    (o : Option Text) (s : Text)
    → banner_and o ≡ some s
    → (take (length banner) s ≡ banner) × (length s ≤ length banner + 1023)
banner_and_bounds none s h = absurd (cc)
banner_and_bounds (some u) s h =
    let e : banner ++ take 1023 u ≡ s = cc in
    rw (← e) (refl, omega (arith, length-append banner (take 1023 u), length-take-le 1023 u))

is_some-prefix : (t : Text) (o : Option Text) → is_some (prefix t o) ≡ is_some o
is_some-prefix t none = refl
is_some-prefix t (some u) = refl

add_one_to-eq-some :
    (o : Option ℕ) (n : ℕ) → add_one_to o ≡ some n → (k : ℕ) × (o ≡ some k) × (suc k ≡ n)
add_one_to-eq-some none n h = absurd (cc)
add_one_to-eq-some (some k) n h = (k, refl, cc)

-- A format is printed if it has its arguments, and is undefined if it lacks one.
pub is_some-print_format :
    (b : Bool) (format : Text) (args : List Text) (n : ℕ)
    → conversions b format ≡ some n
    → is_some (print_format b format args) ≡ leb n (length args)
unfolding print_format
is_some-print_format false [] args n h = ground arith
is_some-print_format true [] args n h = ground arith
is_some-print_format false (c ∷ cs) args n h = elim (Bool-cases (c == b'%')) [
  | inl e ↦ rw e (is_some-print_format true cs args n (rw e at h))
  | inr e ↦ rw (e, is_some-prefix) (is_some-print_format false cs args n (rw e at h))
]
is_some-print_format true (c ∷ cs) [] n h = elim (Bool-cases (c == b'%')) [
  | inl e ↦ rw (e, is_some-prefix) (is_some-print_format false cs [] n (rw e at h))
  | inr e ↦ elim (Bool-cases (c == b's')) [
    | inl e' ↦
        let (k, q, r) = add_one_to-eq-some (conversions false cs) n (rw (e, e') at h) in
        rw (e, ← r) (sym (leb-suc_zero k))
    | inr e' ↦ let bad : none ≡ some n = rw (e, e') at h in cc
  ]
]
is_some-print_format true (c ∷ cs) (a ∷ args) n h = elim (Bool-cases (c == b'%')) [
  | inl e ↦ rw (e, is_some-prefix) (is_some-print_format false cs (a ∷ args) n (rw e at h))
  | inr e ↦ elim (Bool-cases (c == b's')) [
    | inl e' ↦
        let (k, q, r) = add_one_to-eq-some (conversions false cs) n (rw (e, e') at h) in
        rw (e, e', is_some-prefix)
          (is_some-print_format false cs args k q ∙ rw (← r) (sym (leb-suc k (length args))))
    | inr e' ↦ let bad : none ≡ some n = rw (e, e') at h in cc
  ]
]

-- For a format with no conversion but `%s` and `%%`, `error_string` is defined exactly if the
-- format has no more `%s` than there are arguments.
pub is_some-error_string :
    (format : Text) (args : List Text) (n : ℕ)
    → conversions false format ≡ some n
    → is_some (error_string format args) ≡ leb n (length args)
unfolding error_string
is_some-error_string format args n h =
    is_some-banner_and (print_format false format args) ∙ is_some-print_format false format args n h

-- The result of `error_string` has the banner in front and fits the buffer.
pub error_string_bounds :
    (format : Text) (args : List Text) (s : Text)
    → error_string format args ≡ some s
    → (take (length banner) s ≡ banner) × (length s ≤ length banner + 1023)
unfolding error_string
error_string_bounds format args s h = banner_and_bounds (print_format false format args) s h
