-- ===== src/Common/Decimal.antt =====
-- `std::to_string` of an unsigned number: its decimal digits.
use Prim.Native.Nat.{ℕ, zero, suc, ◌+◌, ◌/◌, ◌%◌, ◌≤◌, ◌<◌}
use mathlib.Core.Path.{◌≡◌, refl}
use mathlib.Core.Bool.{false}
use mathlib.Core.Logic.{inl, inr}
use mathlib.Core.List.{[], ◌∷◌, ◌++◌}
use native.Mathlib.Omega.{arith}
use beast_examples.Common.Tests.{ltb, if◌then◌else◌, Bool-cases, ltb→lt}
use beast_examples.Common.Lists.{Text, All, All-append, is_empty}

-- With fuel for more digits than the number has.
unfoldable pub digits_from : ℕ → ℕ → Text
digits_from zero n = []
digits_from (suc fuel) n =
    let rest = digits_from fuel (n / 10) ++ (b'0' + n % 10) ∷ [] in
    if ltb n 10 then (b'0' + n) ∷ [] else rest

unfoldable pub to_string : ℕ → Text
unfolding digits_from
to_string n = digits_from (suc n) n

abbrev pub IsDigit : ℕ → Type 0
IsDigit c = (48 ≤ c) × (c ≤ 57)

digits_from-IsDigit : (fuel n : ℕ) → All IsDigit (digits_from fuel n)
unfolding digits_from
digits_from-IsDigit zero n = tt
digits_from-IsDigit (suc fuel) n = elim (Bool-cases (ltb n 10)) [
  | inl one ↦ rw one (let small : n < 10 = ltb→lt _ _ one in ((omega arith, omega arith), tt))
  | inr more ↦ rw more (
      All-append IsDigit (digits_from fuel (n / 10)) (_ ∷ []) (digits_from-IsDigit fuel (n / 10))
        ((omega arith, omega arith), tt))
]

-- All characters are digits.
pub to_string-IsDigit : (n : ℕ) → All IsDigit (to_string n)
unfolding to_string
to_string-IsDigit n = digits_from-IsDigit (suc n) n

snoc_nonempty : (t : Text) (c : ℕ) → is_empty (t ++ c ∷ []) ≡ false
snoc_nonempty [] c = refl
snoc_nonempty (d ∷ t) c = refl

digits_from-nonempty : (fuel n : ℕ) → is_empty (digits_from (suc fuel) n) ≡ false
unfolding digits_from
digits_from-nonempty fuel n = elim (Bool-cases (ltb n 10)) [
  | inl one ↦ rw one
  | inr more ↦ rw more (snoc_nonempty (digits_from fuel (n / 10)) _)
]

pub to_string-nonempty : (n : ℕ) → is_empty (to_string n) ≡ false
unfolding to_string
to_string-nonempty n = digits_from-nonempty n n

-- A number of two digits or more has digits before its last one.
pub to_string-snoc :
    (n : ℕ)
    → ltb n 10 ≡ false
    → (front : Text) × (d : ℕ) × (to_string n ≡ front ++ d ∷ [])
      × (is_empty front ≡ false)
      × All IsDigit front
unfolding to_string digits_from
to_string-snoc zero more = cc
to_string-snoc (suc n) more = (
  digits_from (suc n) (suc n / 10),
  b'0' + suc n % 10,
  rw more,
  digits_from-nonempty n (suc n / 10),
  digits_from-IsDigit (suc n) (suc n / 10),
)
