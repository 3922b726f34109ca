-- ===== src/Broker/Ids.antt =====
-- `create_unique_id` of src/broker_impl/broker.cc.
use capy_amqp_cpp.Prelude.{
  ℕ, zero, suc, ◌+◌, ◌-◌, ◌*◌, ◌/◌, ◌%◌, ◌≤◌, ◌<◌, ◌≡◌, ◌≢◌, refl, sym, ap, ◌∙◌, Option, none, some,
  [], ◌∷◌, ◌++◌, arith, ltb, if◌then◌else◌, Text, Bool-cases, inl, inr,
}

-- The decimal digits of `n`, as `<<` prints an `int` that is not negative. `fuel` digits are enough.
unfoldable pub print_digits : ℕ → ℕ → Text
print_digits zero n = []
print_digits (suc fuel) n =
    let front = print_digits fuel (n / 10) in
    if ltb n 10 then (b'0' + n) ∷ [] else front ++ (b'0' + n % 10) ∷ []

unfoldable pub print : ℕ → Text
unfolding print_digits
print n = print_digits (suc n) n

-- `n` is the static counter, which has no lock: the threads are taken to call this one after the other.
-- The `int` has no value past 2 ^ 31 - 1: the increment is undefined there.
unfoldable pub create_unique_id : ℕ → Option (Text × ℕ)
unfolding print
create_unique_id n = if ltb n 2147483647 then some (print n, suc n) else none

-- The number that a text of digits shows, behind the number `acc` of those before.
abbrev reading : ℕ → Text → ℕ
reading acc [] = acc
reading acc (c ∷ s) = reading (acc * 10 + (c - b'0')) s

reading-append :
    (acc : ℕ) (s : Text) (c : ℕ) → reading acc (s ++ c ∷ []) ≡ reading acc s * 10 + (c - b'0')
reading-append acc [] c = refl
reading-append acc (d ∷ s) c = reading-append (acc * 10 + (d - b'0')) s c

reading-print_digits : (fuel n : ℕ) → n < fuel → reading 0 (print_digits fuel n) ≡ n
unfolding print_digits
reading-print_digits zero n h = omega arith
reading-print_digits (suc fuel) n h = elim (Bool-cases (ltb n 10)) [
  | inl e ↦ rw e (omega arith)
  | inr e ↦
      let big : 10 ≤ n = ground arith in
      let front : reading 0 (print_digits fuel (n / 10)) ≡ n / 10 =
        reading-print_digits fuel (n / 10) (omega arith) in
      rw (e, reading-append, front) (omega arith)
]

pub print-injective : (m n : ℕ) → print m ≡ print n → m ≡ n
unfolding print
print-injective m n h =
    sym (reading-print_digits (suc m) m (omega arith))
    ∙ ap (reading 0) h
    ∙ reading-print_digits (suc n) n (omega arith)

pub create_unique_id-eq-some :
    (n n' : ℕ) (s : Text) → create_unique_id n ≡ some (s, n') → (s ≡ print n) × (n' ≡ suc n)
unfolding create_unique_id
create_unique_id-eq-some n n' s h = elim (Bool-cases (ltb n 2147483647)) [
  | inl e ↦
      let q : some (print n, suc n) ≡ some (s, n') = rw e at h in
      let a : s ≡ print n = cc in let b : n' ≡ suc n = cc in (a, b)
  | inr e ↦ let q : none ≡ some (s, n') = rw e at h in absurd (cc)
]

-- Two calls of `create_unique_id`, the second on a counter that is at least what the first left, give
-- different texts.
pub create_unique_id-fresh :
    (m n m' n' : ℕ) (s t : Text)
    → create_unique_id m ≡ some (s, m')
    → m' ≤ n
    → create_unique_id n ≡ some (t, n')
    → (s ≢ t) × (m' < n')
create_unique_id-fresh m n m' n' s t hm le hn =
    let (sm, em) = create_unique_id-eq-some m m' s hm in
    let (sn, en) = create_unique_id-eq-some n n' t hn in
    (λ p. omega (arith, em, le, print-injective m n (sym sm ∙ p ∙ sn)), omega (arith, em, en, le))
