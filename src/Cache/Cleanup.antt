-- ===== src/Cache/Cleanup.antt =====
-- What the cleanup of src/PictureCache.cpp keeps.
use beast_examples.Common.{
  ℕ, ◌≡◌, refl, ◌∙◌, if◌then◌else◌, List, [], ◌∷◌, map, length, reject, length-map, Option, none,
  some, arith, nat_eq, nat_eqb_iff, Bool-cases, inl, inr,
}
use beast_examples.Common.Assoc.{lookup, DistinctKeys}
use beast_examples.Picture.{Wrapper}
use beast_examples.Cache.{
  Cache, Lines, cache_lines, is_expired, all_lines_empty, remove_expired, remove_empty,
  remove_faces, cleanup,
}

-- A state between two operations.
pub record Inv (s : Cache) : Type 0 where
  pub body_keys : DistinctKeys s.bodies
  pub face_keys : DistinctKeys s.faces
  pub four : (id : ℕ) (lines : Lines) → lookup id s.bodies ≡ some lines → length lines ≡ cache_lines

-- What is left of an object's lines, and of its face.
abbrev pub fresh_lines : ℕ → Option Lines → Option Lines
fresh_lines now none = none
fresh_lines now (some lines) =
    let kept = map (reject (is_expired now)) lines in
    if all_lines_empty kept then none else some kept

abbrev pub fresh_face : ℕ → Option Wrapper → Option Wrapper
fresh_face now none = none
fresh_face now (some w) = if is_expired now w then none else some w

lookup-remove_faces :
    (now id : ℕ) (m : List (ℕ × Wrapper))
    → DistinctKeys m
    → lookup id (remove_faces now m) ≡ fresh_face now (lookup id m)
unfolding remove_faces
lookup-remove_faces now id [] d = refl
lookup-remove_faces now id ((j, w) ∷ m) d =
    ground (arith, lookup-remove_faces now id m d.1, nat_eqb_iff j id)

-- The two passes over the bodies.
lookup-remove_bodies :
    (now id : ℕ) (m : List (ℕ × Lines))
    → DistinctKeys m
    → lookup id (remove_empty (remove_expired now m)) ≡ fresh_lines now (lookup id m)
unfolding remove_empty remove_expired
lookup-remove_bodies now id [] d = refl
lookup-remove_bodies now id ((j, lines) ∷ m) d =
    elim (Bool-cases (all_lines_empty (map (reject (is_expired now)) lines))) [
      | inl gone ↦ ground (arith, gone, lookup-remove_bodies now id m d.1, nat_eqb_iff j id)
      | inr kept ↦ ground (arith, kept, lookup-remove_bodies now id m d.1, nat_eqb_iff j id)
    ]

remove_faces-DistinctKeys :
    (now : ℕ) (m : List (ℕ × Wrapper)) → DistinctKeys m → DistinctKeys (remove_faces now m)
unfolding remove_faces
remove_faces-DistinctKeys now [] d = tt
remove_faces-DistinctKeys now ((j, w) ∷ m) d =
    ground (arith, lookup-remove_faces now j m d.1, remove_faces-DistinctKeys now m d.1)

remove_bodies-DistinctKeys :
    (now : ℕ) (m : List (ℕ × Lines))
    → DistinctKeys m
    → DistinctKeys (remove_empty (remove_expired now m))
unfolding remove_empty remove_expired
remove_bodies-DistinctKeys now [] d = tt
remove_bodies-DistinctKeys now ((j, lines) ∷ m) d =
    elim (Bool-cases (all_lines_empty (map (reject (is_expired now)) lines))) [
      | inl gone ↦ rw gone (remove_bodies-DistinctKeys now m d.1)
      | inr kept ↦
          rw kept
            (lookup-remove_bodies now j m d.1 ∙ rw (d.0), remove_bodies-DistinctKeys now m d.1)
    ]

fresh_lines-length :
    (now : ℕ) (o : Option Lines) (kept : Lines)
    → ((lines : Lines) → o ≡ some lines → length lines ≡ cache_lines)
    → fresh_lines now o ≡ some kept
    → length kept ≡ cache_lines
fresh_lines-length now none kept h e = cc
fresh_lines-length now (some lines) kept h e =
    ground (arith, h lines refl, length-map (reject (is_expired now)) lines)

-- After a cleanup the cache holds exactly the pictures that are at most 10 seconds old: of each
-- object the face if it is, the lines without their expired pictures, and no entry whose lines have
-- all become empty. The maps stay well-formed.
pub cleanup-Inv :
    (now : ℕ) (s : Cache)
    → Inv s
    → Inv (cleanup now s)
      × ((id : ℕ)
          → (lookup id (cleanup now s).faces ≡ fresh_face now (lookup id s.faces))
            × (lookup id (cleanup now s).bodies ≡ fresh_lines now (lookup id s.bodies)))
unfolding cleanup
cleanup-Inv now s v = (
  record {
    body_keys = remove_bodies-DistinctKeys now s.bodies v.body_keys;
    face_keys = remove_faces-DistinctKeys now s.faces v.face_keys;
    four = λ id kept e.
        fresh_lines-length now (lookup id s.bodies) kept (v.four id)
          (rw (lookup-remove_bodies now id s.bodies v.body_keys) at e);
  },
  λ id. (
    lookup-remove_faces now id s.faces v.face_keys,
    lookup-remove_bodies now id s.bodies v.body_keys,
  ),
)
