-- ===== src/Prelude/Loops.antt =====
-- Counted loops over the indices of an array, and arrays as functions of the index.
use Prim.Native.Nat.{ℕ, zero, suc, ◌+◌, ◌≤◌, ◌<◌}
use mathlib.Core.Path.{◌≡◌, refl, ap}
use mathlib.Core.Logic.{◌≢◌}
use native.Mathlib.Decide.{ℕ_discrete}
use mathlib.Core.List.{List, [], ◌∷◌}
use native.Mathlib.Omega.{arith}
use capy_amqp_cpp.Prelude.Tests.{◌==◌, if◌then◌else◌}

-- `n` indices from `i` on, in order.
unfoldable pub indices : ℕ → ℕ → List ℕ
indices i zero = []
indices i (suc n) = i ∷ indices (suc i) n

-- The array `f` with `a` at index `i`.
abbrev pub update {ℓ} : {A : Type ℓ} → (ℕ → A) → ℕ → A → ℕ → A
update f i a j = if i == j then a else f j

-- The sum of `f` over the `n` indices from `i` on.
unfoldable pub sum_from : (ℕ → ℕ) → ℕ → ℕ → ℕ
sum_from f i zero = 0
sum_from f i (suc n) = f i + sum_from f (suc i) n

pub sum_from_ext :
    (f g : ℕ → ℕ) (i n : ℕ) → ((j : ℕ) → i ≤ j → f j ≡ g j) → sum_from f i n ≡ sum_from g i n
unfolding sum_from
sum_from_ext f g i zero h = refl
sum_from_ext f g i (suc n) h =
    omega (arith, h i (omega arith), sum_from_ext f g (suc i) n (λ j le. h j (omega arith)))

-- One index changed changes the sum by as much.
pub sum_from-update :
    (f g : ℕ → ℕ) (i n k : ℕ)
    → i ≤ k
    → k < i + n
    → ((j : ℕ) → j ≢ k → f j ≡ g j)
    → sum_from f i n + g k ≡ sum_from g i n + f k
unfolding sum_from
sum_from-update f g i zero k lo hi h = absurd (omega arith)
sum_from-update f g i (suc n) k lo hi h = elim (ℕ_discrete i k) [
  | yes e ↦
      let rest = sum_from_ext f g (suc i) n (λ j le. h j (omega arith)) in
      omega (arith, rest, ap f e, ap g e)
  | no ne ↦ omega (arith, h i ne, sum_from-update f g (suc i) n k (omega arith) (omega arith) h)
]

pub sum_from_zero :
    (f : ℕ → ℕ) (i n : ℕ) → ((j : ℕ) → i ≤ j → j < i + n → f j ≡ 0) → sum_from f i n ≡ 0
unfolding sum_from
sum_from_zero f i zero h = refl
sum_from_zero f i (suc n) h = omega (
  arith,
  h i (omega arith) (omega arith),
  sum_from_zero f (suc i) n (λ j lo hi. h j (omega arith) (omega arith)),
)

pub sum_from-ge : (f : ℕ → ℕ) (i n k : ℕ) → i ≤ k → k < i + n → f k ≤ sum_from f i n
unfolding sum_from
sum_from-ge f i zero k lo hi = absurd (omega arith)
sum_from-ge f i (suc n) k lo hi = elim (ℕ_discrete i k) [
  | yes e ↦ omega (arith, ap f e)
  | no ne ↦ omega (arith, sum_from-ge f (suc i) n k (omega arith) (omega arith))
]

-- A sum that is not zero has a summand that is not.
pub sum_from-pos :
    (f : ℕ → ℕ) (i n : ℕ) → 0 < sum_from f i n → (k : ℕ) × (i ≤ k) × (k < i + n) × (0 < f k)
unfolding sum_from
sum_from-pos f i zero h = absurd (omega arith)
sum_from-pos f i (suc n) h = elim (ℕ_discrete (f i) 0) [
  | yes e ↦
      let (k, lo, hi, p) = sum_from-pos f (suc i) n (omega arith) in
      (k, omega arith, omega arith, p)
  | no ne ↦ (i, omega arith, omega arith, omega arith)
]
