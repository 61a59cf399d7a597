-- ===== src/Common/Alls.antt =====
-- What holds of all elements of a list, or of all entries of an association list.
use Prim.Native.Nat.{ℕ, zero, suc}
use mathlib.Core.Path.{◌≡◌, sym, subst}
use mathlib.Core.Bool.{Bool}
use mathlib.Core.Logic.{inl, inr}
use mathlib.Core.Option.{some}
use mathlib.Core.List.{List, [], ◌∷◌, map}
use beast_examples.Common.Tests.{Bool-cases}
use beast_examples.Common.Lists.{All, reject, get_elem?}
use beast_examples.Common.Keys.{Eq, ◌==◌}
use beast_examples.Common.Assoc.{lookup, emplace, insert, erase}

module _ {ℓ κ} {A : Type ℓ} (P : A → Type κ) where
  pub All-reject : (p : A → Bool) (xs : List A) → All P xs → All P (reject p xs)
  All-reject p [] h = tt
  All-reject p (x ∷ xs) (k, h) = elim (Bool-cases (p x)) [
    | inl out ↦ rw out (All-reject p xs h)
    | inr kept ↦ rw kept (k, All-reject p xs h)
  ]

  pub All-get_elem? : (i : ℕ) (xs : List A) (a : A) → All P xs → get_elem? xs i ≡ some a → P a
  All-get_elem? i [] a h e = cc
  All-get_elem? zero (x ∷ xs) a (k, h) e = subst P (cc e) k
  All-get_elem? (suc i) (x ∷ xs) a (k, h) e = All-get_elem? i xs a h e

pub All-map {ℓ κ μ ν} :
    {A : Type ℓ} {B : Type κ} (P : A → Type μ) (Q : B → Type ν) (f : A → B)
    → ((a : A) → P a → Q (f a))
    → (xs : List A) → All P xs
    → All Q (map f xs)
All-map P Q f go [] h = tt
All-map P Q f go (x ∷ xs) (k, h) = (go x k, All-map P Q f go xs h)

pub All-weaken {ℓ κ μ} :
    {A : Type ℓ} (P : A → Type κ) (Q : A → Type μ)
    → ((a : A) → P a → Q a)
    → (xs : List A) → All P xs
    → All Q xs
All-weaken P Q go [] h = tt
All-weaken P Q go (x ∷ xs) (k, h) = (go x k, All-weaken P Q go xs h)

module _ {ℓ κ μ} {K : Type ℓ} {V : Type κ} ⦃keys : Eq K⦄ (P : K × V → Type μ) where
  pub All-emplace : (n : K) (v : V) (m : List (K × V)) → P (n, v) → All P m → All P (emplace n v m)
  All-emplace n v [] h hs = (h, tt)
  All-emplace n v ((j, w) ∷ m) h (k, hs) = elim (Bool-cases (j == n)) [
    | inl same ↦ rw same (k, hs)
    | inr other ↦ rw other (k, All-emplace n v m h hs)
  ]

  pub All-insert : (n : K) (v : V) (m : List (K × V)) → P (n, v) → All P m → All P (insert n v m)
  All-insert n v [] h hs = (h, tt)
  All-insert n v ((j, w) ∷ m) h (k, hs) = elim (Bool-cases (j == n)) [
    | inl same ↦ rw same (subst (λ i. P (i, v)) (sym ((keys.same_iff j n).0 same)) h, hs)
    | inr other ↦ rw other (k, All-insert n v m h hs)
  ]

  pub All-erase : (n : K) (m : List (K × V)) → All P m → All P (erase n m)
  All-erase n [] hs = tt
  All-erase n ((j, w) ∷ m) (k, hs) = elim (Bool-cases (j == n)) [
    | inl same ↦ rw same (All-erase n m hs)
    | inr other ↦ rw other (k, All-erase n m hs)
  ]

  pub All-lookup : (j : K) (b : V) (m : List (K × V)) → All P m → lookup j m ≡ some b → P (j, b)
  All-lookup j b [] hs h = cc
  All-lookup j b ((i, c) ∷ m) (k, hs) h = elim (Bool-cases (i == j)) [
    | inl same ↦
        let here : (i, c) ≡ (j, b) = cc (rw same at h, (keys.same_iff i j).0 same) in subst P here k
    | inr other ↦ All-lookup j b m hs (rw other at h)
  ]
