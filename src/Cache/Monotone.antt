-- ===== src/Cache/Monotone.antt =====
-- What can make an object complete (src/PictureCache.cpp): neither a cleanup nor a refused picture.
use beast_examples.Common.{
  ℕ, ◌≤◌, ◌≡◌, refl, Bool, true, false, ltb, lt→ltb, ◌&&◌, List, [], ◌∷◌, map, reject,
  length-reject-le, Option, none, some, arith, nat_eq, nat_eqb_iff, Bool-cases, inl, inr,
  Option-cases,
}
use beast_examples.Common.Assoc.{lookup, emplace, lookup-emplace_fresh, lookup-emplace_there}
use beast_examples.Picture.{Wrapper}
use beast_examples.Cache.{Cache, Lines, cleanup, empty_lines, has_empty, is_expired, is_there}
use beast_examples.Cache.Cleanup.{Inv, cleanup-Inv, fresh_face, fresh_lines}
use beast_examples.Cache.Trying.{long_lines, posts_of, is_complete}

module _ (p : Wrapper → Bool) where
  long_lines-reject-le : (ls : Lines) → long_lines (map (reject p) ls) ≤ long_lines ls
  long_lines-reject-le [] = omega arith
  long_lines-reject-le (l ∷ ls) = ground (arith, length-reject-le p l, long_lines-reject-le ls)

  has_empty-reject : (ls : Lines) → has_empty (map (reject p) ls) ≡ false → has_empty ls ≡ false
  has_empty-reject [] h = refl
  has_empty-reject ([] ∷ ls) h = cc
  has_empty-reject ((w ∷ l) ∷ ls) h = ground (arith, has_empty-reject ls)

  posts_of-reject-le : (ls : Lines) → posts_of (some (map (reject p) ls)) ≤ posts_of (some ls)
  posts_of-reject-le ls = ground (arith, long_lines-reject-le ls, has_empty-reject ls)

posts_of-fresh_lines-le : (now : ℕ) (o : Option Lines) → posts_of (fresh_lines now o) ≤ posts_of o
posts_of-fresh_lines-le now none = omega arith
posts_of-fresh_lines-le now (some ls) = ground (arith, posts_of-reject-le (is_expired now) ls)

is_there-fresh_face :
    (now : ℕ) (o : Option Wrapper) → is_there (fresh_face now o) ≡ true → is_there o ≡ true
is_there-fresh_face now none h = h
is_there-fresh_face now (some w) h = refl

-- Whether a face and bodies make an object complete.
abbrev completes : Option Wrapper → Option Lines → Bool
completes f b = is_there f && ltb 0 (posts_of b)

completes-le :
    (f g : Option Wrapper) (b d : Option Lines)
    → (is_there f ≡ true → is_there g ≡ true)
    → posts_of b ≤ posts_of d
    → completes f b ≡ true
    → completes g d ≡ true
completes-le f g b d there more h = elim (Bool-cases (is_there f)) [
  | inl here ↦ rw (there here) (lt→ltb _ _ (ground arith))
  | inr not_here ↦ absurd (cc (rw not_here at h))
]

pub is_complete-cleanup :
    (now id : ℕ) (s : Cache)
    → Inv s
    → is_complete id (cleanup now s) ≡ true
    → is_complete id s ≡ true
is_complete-cleanup now id s v h =
    let (_, left) = cleanup-Inv now s v in
    let (f, b) = left id in
    completes-le (fresh_face now (lookup id s.faces)) (lookup id s.faces)
      (fresh_lines now (lookup id s.bodies)) (lookup id s.bodies)
      (is_there-fresh_face now (lookup id s.faces))
      (posts_of-fresh_lines-le now (lookup id s.bodies)) (rw (f, b) at h)

-- A new entry without pictures.
posts_of-emplace :
    (j id : ℕ) (m : List (ℕ × Lines))
    → posts_of (lookup id (emplace j empty_lines m)) ≡ posts_of (lookup id m)
posts_of-emplace j id m = elim (Option-cases (lookup j m)) [
  | inr (w, there) ↦ rw (lookup-emplace_there j empty_lines w m there)
  | inl absent ↦
      rw (lookup-emplace_fresh j id empty_lines m absent) (ground (arith, nat_eqb_iff j id))
]

pub is_complete-emplace :
    (j id : ℕ) (s : Cache)
    → is_complete id (record s { bodies = emplace j empty_lines s.bodies }) ≡ is_complete id s
is_complete-emplace j id s = rw (posts_of-emplace j id s.bodies)
