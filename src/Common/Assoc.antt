-- ===== src/Common/Assoc.antt =====
-- `std::unordered_map` as an association list, whose order stands for the (unspecified) order of
-- iteration. Its operations keep the keys distinct; laws in terms of `lookup`.
use mathlib.Core.Path.{◌≡◌, refl}
use mathlib.Core.Logic.{inl, inr}
use mathlib.Core.Option.{Option, none, some}
use mathlib.Core.List.{List, [], ◌∷◌}
use native.Mathlib.Omega.{arith}
use beast_examples.Common.Tests.{if◌then◌else◌, Option-cases}
use beast_examples.Common.Keys.{Eq, ◌==◌}

module _ {ℓ κ} {K : Type ℓ} {V : Type κ} ⦃keys : Eq K⦄ where
  -- `m.erase(k)`
  abbrev pub erase : K → List (K × V) → List (K × V)
  erase k [] = []
  erase k ((i, x) ∷ m) = let others = erase k m in if i == k then others else (i, x) ∷ others

  -- `find`, and `at` where the caller turns `none` into `std::out_of_range`
  abbrev pub lookup : K → List (K × V) → Option V
  lookup k [] = none
  lookup k ((i, x) ∷ m) = let later = lookup k m in if i == k then some x else later

  -- `m.emplace(k, x)`: an entry that is there stays
  abbrev pub emplace : K → V → List (K × V) → List (K × V)
  emplace k x [] = (k, x) ∷ []
  emplace k x ((i, y) ∷ m) =
      let later = emplace k x m in if i == k then (i, y) ∷ m else (i, y) ∷ later

  -- `m[k] = x`
  abbrev pub insert : K → V → List (K × V) → List (K × V)
  insert k x [] = (k, x) ∷ []
  insert k x ((i, y) ∷ m) =
      let later = insert k x m in if i == k then (i, x) ∷ m else (i, y) ∷ later

  pub lookup-insert :
      (key k : K) (x : V) (m : List (K × V))
      → lookup k (insert key x m) ≡ (if key == k then some x else lookup k m)
  lookup-insert key k x [] = refl
  lookup-insert key k x ((i, y) ∷ m) =
      ground (
        arith,
        lookup-insert key k x m,
        keys.same_iff i k,
        keys.same_iff i key,
        keys.same_iff key k,
      )

  pub lookup-erase :
      (k j : K) (m : List (K × V)) → lookup j (erase k m) ≡ (if k == j then none else lookup j m)
  lookup-erase k j [] = ground arith
  lookup-erase k j ((i, w) ∷ m) =
      ground (arith, keys.same_iff k j, keys.same_iff i k, keys.same_iff i j, lookup-erase k j m)

  pub lookup-emplace_fresh :
      (k j : K) (v : V) (m : List (K × V))
      → lookup k m ≡ none
      → lookup j (emplace k v m) ≡ (if k == j then some v else lookup j m)
  lookup-emplace_fresh k j v [] h = refl
  lookup-emplace_fresh k j v ((i, w) ∷ m) h =
      ground (
        arith,
        keys.same_iff k j,
        keys.same_iff i k,
        keys.same_iff i j,
        lookup-emplace_fresh k j v m,
      )

  pub lookup-emplace_there :
      (k : K) (v w : V) (m : List (K × V)) → lookup k m ≡ some w → emplace k v m ≡ m
  lookup-emplace_there k v w [] h = absurd (cc h)
  lookup-emplace_there k v w ((i, x) ∷ m) h = ground (arith, lookup-emplace_there k v w m)

  -- No key stands twice.
  abbrev pub DistinctKeys : List (K × V) → Type (ℓ ⊔ κ)
  DistinctKeys [] = Unit
  DistinctKeys ((k, v) ∷ m) = (lookup k m ≡ none) × DistinctKeys m

  pub insert-DistinctKeys :
      (k : K) (v : V) (m : List (K × V)) → DistinctKeys m → DistinctKeys (insert k v m)
  insert-DistinctKeys k v [] d = (refl, tt)
  insert-DistinctKeys k v ((j, w) ∷ m) d = ground (
    arith,
    lookup-insert k j v m,
    keys.same_iff j k,
    keys.same_iff k j,
    insert-DistinctKeys k v m d.1,
  )

  emplace-DistinctKeys_fresh :
      (k : K) (v : V) (m : List (K × V))
      → lookup k m ≡ none
      → DistinctKeys m
      → DistinctKeys (emplace k v m)
  emplace-DistinctKeys_fresh k v [] h d = (refl, tt)
  emplace-DistinctKeys_fresh k v ((j, w) ∷ m) h d = ground (
    arith,
    lookup-emplace_fresh k j v m,
    keys.same_iff j k,
    keys.same_iff k j,
    emplace-DistinctKeys_fresh k v m,
  )

  pub emplace-DistinctKeys :
      (k : K) (v : V) (m : List (K × V)) → DistinctKeys m → DistinctKeys (emplace k v m)
  emplace-DistinctKeys k v m d = elim (Option-cases (lookup k m)) [
    | inl absent ↦ emplace-DistinctKeys_fresh k v m absent d
    | inr (w, there) ↦ rw (lookup-emplace_there k v w m there) d
  ]

  pub erase-DistinctKeys : (k : K) (m : List (K × V)) → DistinctKeys m → DistinctKeys (erase k m)
  erase-DistinctKeys k [] d = tt
  erase-DistinctKeys k ((j, w) ∷ m) d =
      ground (arith, lookup-erase k j m, erase-DistinctKeys k m d.1)
