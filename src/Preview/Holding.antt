-- ===== src/Preview/Holding.antt =====
-- What a client is shown of a store that holds a given list of previews (src/PicturePreviewHandler.cpp).
use beast_examples.Common.{
  ℕ, zero, suc, ◌+◌, ◌<◌, ◌≡◌, refl, false, ◌==◌, text_eq, List, [], ◌∷◌, map, take, All, Text,
  some, arith, Bool-cases, inl, inr, if◌then◌else◌, ok, leb,
}
use beast_examples.Common.Assoc.{lookup}
use beast_examples.Preview.Defs.{Pictures, Previews, collect}

-- All of `ps` are in the map, under their own names.
abbrev pub Found : List (Text × Pictures) → List Pictures → Type 0
Found m = All (λ ps. lookup ps.uuid m ≡ some ps)

-- The store holds exactly `pss`, in this order.
pub record Holds (s : Previews) (pss : List Pictures) : Type 0 where
  pub order : s.ids ≡ map (λ ps. ps.uuid) pss
  pub found : Found s.pictures pss

-- The previews before `prev`.
abbrev pub since : Text → List Pictures → List Pictures
since prev [] = []
since prev (ps ∷ pss) = if ps.uuid == prev then [] else ps ∷ since prev pss

-- At most `limit` of them, if `limit` is not 0.
abbrev pub at_most : ℕ → List Pictures → List Pictures
at_most zero pss = pss
at_most (suc limit) pss = take (suc limit) pss

collect_every :
    (prev : Text) (m : List (Text × Pictures)) (n : ℕ) (pss : List Pictures)
    → Found m pss
    → collect prev 0 m n (map (λ ps. ps.uuid) pss) ≡ ok (since prev pss)
unfolding collect
collect_every prev m n [] h = refl
collect_every prev m n (ps ∷ pss) (found, h) = elim (Bool-cases (ps.uuid == prev)) [
  | inl stop ↦ rw stop
  | inr go ↦ rw go (ground (arith, found, collect_every prev m (n + 1) pss h))
]

collect_first :
    (prev : Text) (left n limit : ℕ) (m : List (Text × Pictures)) (pss : List Pictures)
    → 0 < limit
    → left + n ≡ limit
    → Found m pss
    → collect prev limit m n (map (λ ps. ps.uuid) pss) ≡ ok (take left (since prev pss))
unfolding collect
collect_first prev zero n limit m [] p q h = refl
collect_first prev (suc left) n limit m [] p q h = refl
collect_first prev zero n limit m (ps ∷ pss) p q h = ground arith
collect_first prev (suc left) n limit m (ps ∷ pss) p q (found, h) =
    elim (Bool-cases (ps.uuid == prev)) [
      | inl stop ↦ rw stop
      | inr go ↦
          let rest = collect_first prev left (n + 1) limit m pss p (omega arith) h in
          let more : (leb limit n) ≡ false = ground arith in
          rw (go, more) (ground (arith, found, rest))
    ]

-- Listing is a matter of the list that the store holds.
pub collect-Holds :
    (prev : Text) (limit : ℕ) (s : Previews) (pss : List Pictures)
    → Holds s pss
    → collect prev limit s.pictures 0 s.ids ≡ ok (at_most limit (since prev pss))
collect-Holds prev zero s pss h = rw h.order (collect_every prev s.pictures 0 pss h.found)
collect-Holds prev (suc limit) s pss h = rw h.order (
    collect_first prev (suc limit) 0 (suc limit) s.pictures pss (omega arith) (omega arith) h.found)
