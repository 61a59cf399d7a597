-- ===== src/Common/Keys.antt =====
-- Keys with a Boolean equality, as an interface, and its two instances.
use Prim.Native.Nat.{ℕ}
use mathlib.Core.Path.{◌≡◌, refl}
use mathlib.Core.Logic.{◌↔◌}
use mathlib.Core.Bool.{Bool, true, false, ◌&&◌}
use mathlib.Core.List.{[], ◌∷◌}
use native.Mathlib.Omega.{arith}
use beast_examples.Common.Tests.{nat_eqb, nat_eqb_iff}
use beast_examples.Common.Lists.{Text}

-- Types whose values are told apart by a test, as the keys of a map are.
pub record Eq {ℓ} (K : Type ℓ) : Type ℓ where
  pub same : K → K → Bool
  pub same_iff : (j k : K) → (same j k ≡ true) ↔ (j ≡ k)

abbrev pub text_eqb : Text → Text → Bool
text_eqb [] [] = true
text_eqb [] (d ∷ t) = false
text_eqb (c ∷ s) [] = false
text_eqb (c ∷ s) (d ∷ t) = nat_eqb c d && text_eqb s t

pub text_eqb_iff : (s t : Text) → (text_eqb s t ≡ true) ↔ (s ≡ t)
text_eqb_iff [] [] = ground arith
text_eqb_iff [] (d ∷ t) = ground arith
text_eqb_iff (c ∷ s) [] = ground arith
text_eqb_iff (c ∷ s) (d ∷ t) = ground (arith, text_eqb_iff s t)

instance abbrev pub text_eq : Eq Text
text_eq = record { same = text_eqb; same_iff = text_eqb_iff }

instance abbrev pub nat_eq : Eq ℕ
nat_eq = record { same_iff = nat_eqb_iff; same = nat_eqb }

module _ {ℓ} {K : Type ℓ} ⦃keys : Eq K⦄ where
  infix 50 ◌==◌
  abbrev pub ◌==◌ : K → K → Bool
  j == k = keys.same j k

  pub beq_refl : (k : K) → (k == k) ≡ true
  beq_refl k = (keys.same_iff k k).1 refl
