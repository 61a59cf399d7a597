-- ===== src/Preview/Drawing.antt =====
-- The identifiers that the random generator gives (`boost::uuids::random_generator`).
use beast_examples.Common.{
  ℕ, zero, suc, ◌+◌, ◌<◌, ◌≡◌, refl, ap, sym, ◌∙◌, false, ◌==◌, text_eq, text_eqb_iff, List, [],
  ◌∷◌, All, take, Text, Option, some, arith, Bool-cases, inl, inr,
}
use beast_examples.Preview.Defs.{choose_id}
use beast_examples.Preview.Trimming.{contains}

-- Every call draws an identifier, and never the same one twice.
pub record Draws (random : ℕ → Option Text) : Type 0 where
  pub drawn : (n : ℕ) → (t : Text) × (random n ≡ some t)
  pub apart : (m n : ℕ) → random m ≡ random n → m ≡ n

-- One of the first `turn` calls drew it.
abbrev pub Drawn : (ℕ → Option Text) → ℕ → Text → Type 0
Drawn random turn k = (m : ℕ) × (m < turn) × (random m ≡ some k)

pub All-take {ℓ κ} :
    {A : Type ℓ} (P : A → Type κ) (n : ℕ) (xs : List A) → All P xs → All P (take n xs)
All-take P zero xs h = tt
All-take P (suc n) [] h = tt
All-take P (suc n) (x ∷ xs) (h, hs) = (h, All-take P n xs hs)

-- What was drawn before is drawn before the next call too.
pub older :
    (random : ℕ → Option Text) (turn : ℕ) (ids : List Text)
    → All (Drawn random turn) ids
    → All (Drawn random (turn + 1)) ids
older random turn [] h = tt
older random turn (k ∷ ids) ((m, earlier, e), h) = ((m, omega arith, e), older random turn ids h)

-- An identifier that is drawn now is not in use.
not_in_use :
    (random : ℕ → Option Text) (turn : ℕ) (t : Text) (ids : List Text)
    → Draws random
    → random turn ≡ some t
    → All (Drawn random turn) ids
    → contains t ids ≡ false
not_in_use random turn t [] d e named = refl
not_in_use random turn t (k ∷ ids) d e ((m, earlier, f), named) = elim (Bool-cases (k == t)) [
  | inl same ↦
      let both : random m ≡ random turn = f ∙ ap some ((text_eqb_iff k t).0 same) ∙ sym e in
      absurd (omega (arith, d.apart m turn both))
  | inr other ↦ rw other (not_in_use random turn t ids d e named)
]

pub fresh :
    (random : ℕ → Option Text) (generate : Text → Option Text) (turn seq : ℕ) (ids : List Text)
    → Draws random
    → All (Drawn random turn) ids
    → contains (choose_id (random turn) generate seq) ids ≡ false
fresh random generate turn seq ids d named =
    let (t, e) = d.drawn turn in rw e (not_in_use random turn t ids d e named)
