-- ===== src/Preview/Reading.antt =====
-- A splitter of paths and a reader of numbers that do what the addresses of pictures ask, and a
-- generator that draws no identifier twice.
use beast_examples.Common.{
  replicate, length, sym, Option, none, some, ℕ, zero, suc, ◌+◌, ◌*◌, ◌-◌, ◌/◌, ◌%◌, ◌≤◌, ◌<◌, ◌≡◌,
  refl, ap, ◌∙◌, false, ltb, if◌then◌else◌, List, [], ◌∷◌, ◌++◌, any, All, Text, arith, Bool-cases,
  inl, inr,
}
use beast_examples.Common.Decimal.{to_string, digits_from}
use beast_examples.Preview.Drawing.{Draws}
use beast_examples.Preview.Urls.{is_slash, IsSegment, path_of, Splits, Converts}

abbrev extend_first : ℕ → List Text → List Text
extend_first c [] = (c ∷ []) ∷ []
extend_first c (t ∷ ts) = (c ∷ t) ∷ ts

unfoldable pub split_slash : Text → List Text
split_slash [] = [] ∷ []
split_slash (c ∷ t) =
    let rest = split_slash t in if is_slash c then [] ∷ rest else extend_first c rest

split_slash-append :
    (t : Text) (ts : List Text)
    → any is_slash t ≡ false
    → All IsSegment ts
    → split_slash (t ++ path_of ts) ≡ t ∷ ts
unfolding split_slash
split_slash-append [] [] h all = refl
split_slash-append [] (u ∷ ts) h ((_, plain), all) = ap (◌∷◌ []) (split_slash-append u ts plain all)
split_slash-append (c ∷ t) ts h all = elim (Bool-cases (is_slash c)) [
  | inl slash ↦ ground arith
  | inr plain ↦ rw (plain, split_slash-append t ts (rw plain at h) all)
]

pub split_slash-Splits : Splits split_slash
split_slash-Splits ts all = split_slash-append [] ts refl all

unfoldable pub read_from : ℕ → Text → ℕ
read_from n [] = n
read_from n (c ∷ t) = read_from (n * 10 + (c - b'0')) t

unfoldable pub read_decimal : Text → ℕ → ℕ
read_decimal t default = read_from 0 t

read_from-snoc :
    (n : ℕ) (t : Text) (c : ℕ) → read_from n (t ++ c ∷ []) ≡ read_from n t * 10 + (c - b'0')
unfolding read_from
read_from-snoc n [] c = refl
read_from-snoc n (d ∷ t) c = read_from-snoc (n * 10 + (d - b'0')) t c

read_from-digits_from : (fuel n : ℕ) → n < fuel → read_from 0 (digits_from fuel n) ≡ n
unfolding read_from digits_from
read_from-digits_from zero n h = absurd (omega arith)
read_from-digits_from (suc fuel) n h = elim (Bool-cases (ltb n 10)) [
  | inl one ↦ rw one (omega arith)
  | inr more ↦
      let large : 10 ≤ n = ground arith in
      rw more (
        read_from-snoc 0 (digits_from fuel (n / 10)) (b'0' + n % 10)
        ∙ ap (λ v. v * 10 + (b'0' + n % 10 - b'0'))
            (read_from-digits_from fuel (n / 10) (omega arith))
        ∙ omega arith)
]

pub read_decimal-Converts : Converts read_decimal
unfolding read_decimal to_string
read_decimal-Converts n default h = read_from-digits_from (suc n) n (omega arith)

-- Identifiers that get longer.
abbrev pub name : ℕ → Text
name n = replicate (suc n) b'a'

length-name : (n : ℕ) → length (name n) ≡ suc n
length-name zero = refl
length-name (suc n) = ap suc (length-name n)

name_of : Option Text → Text
name_of none = []
name_of (some t) = t

pub name-Draws : Draws (λ n. some (name n))
unfolding name_of
name-Draws = record {
  drawn = λ n. (name n, refl);
  apart =
      λ m n h. omega (arith, sym (length-name m) ∙ ap (λ t. length (name_of t)) h ∙ length-name n);
}
