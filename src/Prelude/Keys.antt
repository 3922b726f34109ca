-- ===== src/Prelude/Keys.antt =====
-- The keys of the maps: types with a Boolean equality.
use Prim.Native.Nat.{ℕ}
use mathlib.Core.Path.{◌≡◌, refl, subst}
use mathlib.Core.Logic.{◌↔◌}
use mathlib.Core.Bool.{Bool, true}
use mathlib.Core.List.{[], ◌∷◌}
use native.Mathlib.Omega.{arith}
use capy_amqp_cpp.Prelude.Tests.{◌==◌, ==_iff}
use capy_amqp_cpp.Prelude.Lists.{Text, text_eq}

pub record Key {ℓ} (K : Type ℓ) : Type ℓ where
  pub same : K → K → Bool
  pub same_iff : (a b : K) → (same a b ≡ true) ↔ (a ≡ b)

module _ {ℓ} {K : Type ℓ} ⦃e : Key K⦄ where
  infix 50 ◌=?=◌
  abbrev pub ◌=?=◌ : K → K → Bool
  a =?= b = e.same a b

  pub =?=_refl : (a : K) → (a =?= a) ≡ true
  =?=_refl a = (e.same_iff a a).1 refl

  pub =?=_iff : (a b : K) → ((a =?= b) ≡ true) ↔ (a ≡ b)
  =?=_iff a b = e.same_iff a b

instance abbrev pub nat_key : Key ℕ
nat_key = record { same = ◌==◌; same_iff = ==_iff }

text_eq_sound : (s t : Text) → text_eq s t ≡ true → s ≡ t
text_eq_sound [] [] h = refl
text_eq_sound [] (b ∷ t) h = cc
text_eq_sound (a ∷ s) [] h = cc
text_eq_sound (a ∷ s) (b ∷ t) h = ground (arith, text_eq_sound s t)

pub text_eq_refl : (s : Text) → text_eq s s ≡ true
text_eq_refl [] = refl
text_eq_refl (a ∷ s) = ground (arith, text_eq_refl s)

pub text_eq_iff : (s t : Text) → (text_eq s t ≡ true) ↔ (s ≡ t)
text_eq_iff s t = (text_eq_sound s t, λ p. subst (λ u. text_eq s u ≡ true) p (text_eq_refl s))

instance abbrev pub text_key : Key Text
text_key = record { same = text_eq; same_iff = text_eq_iff }
