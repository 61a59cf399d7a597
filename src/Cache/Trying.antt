-- ===== src/Cache/Trying.antt =====
-- What trying to post one object does, and when an object is complete (src/PictureCache.cpp).
use beast_examples.Common.{
  ℕ, zero, suc, ◌+◌, ◌*◌, ◌≤◌, ◌<◌, ◌≡◌, refl, ◌∙◌, Bool, true, false, if◌then◌else◌, ltb, leb,
  ◌&&◌, List, [], ◌∷◌, ◌++◌, map, length, is_empty, Option, none, some, arith, nat_eq, Bool-cases,
  inl, inr, Result, ok, ◌>>=◌, length-append, get_elem?-lt, leb→le,
}
use beast_examples.Common.Assoc.{lookup, erase}
use beast_examples.Picture.{Wrapper}
use beast_examples.Preview.Defs.{PictureView, view_of}
use beast_examples.Cache.{
  Cache, Lines, cache_lines, has_empty, at_index, at_object, post_line, post_lines, try_post,
  is_there,
}

-- The number of lines that hold six pictures or more.
abbrev pub long_lines : Lines → ℕ
long_lines [] = 0
long_lines (l ∷ ls) = (if leb 6 (length l) then 1 else 0) + long_lines ls

-- The number of posts of an object: none while one of its lines is empty.
abbrev pub posts_of : Option Lines → ℕ
posts_of none = 0
posts_of (some lines) = if has_empty lines then 0 else long_lines lines

abbrev pub posts : ℕ → Cache → ℕ
posts id s = posts_of (lookup id s.bodies)

-- An object is complete when its pictures make a preview.
abbrev pub is_complete : ℕ → Cache → Bool
is_complete id s = is_there (lookup id s.faces) && ltb 0 (posts id s)

at_index-ok {ℓ} :
    {A : Type ℓ} (i : ℕ) (xs : List A) → i < length xs → (a : A) × (at_index i xs ≡ ok a)
at_index-ok i xs h = let (a, e) = get_elem?-lt xs i h in (a, rw (e, at_index))

-- The first picture of a line that is not empty.
at_first :
    (i : ℕ) (lines : Lines)
    → i < length lines
    → has_empty lines ≡ false
    → (w : Wrapper) × ((at_index i lines >>= at_index 0) ≡ ok w)
at_first i [] h full = elim h [ ]
at_first i ([] ∷ ls) h full = cc
at_first zero ((w ∷ l) ∷ ls) h full = (w, refl)
at_first (suc i) ((w ∷ l) ∷ ls) h full = at_first i ls (omega arith) full

module _ (id : ℕ) (s : Cache) (face : Wrapper) (lines : Lines)
    (has_face : lookup id s.faces ≡ some face) (has_lines : lookup id s.bodies ≡ some lines)
    (four : length lines ≡ cache_lines) (full : has_empty lines ≡ false) where
  post_line-ok :
      (line : List Wrapper)
      → 6 ≤ length line
      → (views : List PictureView) × (post_line id s line ≡ ok views) × (length views ≡ 11)
  unfolding post_line
  post_line-ok line long =
      let (b0, e0) = at_first 0 lines (omega arith) full in
      let (b1, e1) = at_first 1 lines (omega arith) full in
      let (b2, e2) = at_first 2 lines (omega arith) full in
      let (b3, e3) = at_first 3 lines (omega arith) full in
      let (l0, k0) = at_index-ok 0 line (omega arith) in
      let (l1, k1) = at_index-ok 1 line (omega arith) in
      let (l2, k2) = at_index-ok 2 line (omega arith) in
      let (l3, k3) = at_index-ok 3 line (omega arith) in
      let (l4, k4) = at_index-ok 4 line (omega arith) in
      let (l5, k5) = at_index-ok 5 line (omega arith) in
      (
        map (λ w. view_of w.picture) (face ∷ b0 ∷ b1 ∷ b2 ∷ b3 ∷ l0 ∷ l1 ∷ l2 ∷ l3 ∷ l4 ∷ l5 ∷ []),
        rw (has_face, has_lines, at_object) (rw (e0, e1, e2, e3, k0, k1, k2, k3, k4, k5)),
        refl,
      )

  post_lines-ok :
      (ls : Lines) (pvs : List PictureView)
      → (views : List PictureView) × (post_lines id s ls pvs ≡ ok views)
        × (length views ≡ length pvs + 11 * long_lines ls)
  unfolding post_lines
  post_lines-ok [] pvs = (pvs, refl, omega arith)
  post_lines-ok (l ∷ ls) pvs = elim (Bool-cases (leb 6 (length l))) [
    | inl long ↦
        let (more, e, n) = post_line-ok l (leb→le _ _ long) in
        let (views, e', n') = post_lines-ok ls (pvs ++ more) in
        (views, rw (long, e) e', n' ∙ rw long (omega (arith, length-append {0} pvs more, n)))
    | inr short ↦
        let (views, e', n') = post_lines-ok ls pvs in
        (views, rw short e', n' ∙ rw short (omega arith))
  ]

-- What `tryPostWithObject` leaves of the cache.
abbrev pub dropped_if : Bool → ℕ → Cache → Cache
dropped_if true id s = s
dropped_if false id s = record { bodies = erase id s.bodies; faces = erase id s.faces }

-- The object has a face and bodies.
abbrev pub IsPaired : Cache → ℕ → Type 0
IsPaired s id =
    (face : Wrapper) × (lines : Lines) × (lookup id s.faces ≡ some face)
    × (lookup id s.bodies ≡ some lines)
    × (length lines ≡ cache_lines)

pub try_post-ok :
    (id : ℕ) (s : Cache) (pvs : List PictureView)
    → IsPaired s id
    → (views : List PictureView) × (try_post id s pvs
        ≡ ok (dropped_if (is_empty views) id s, views))
      × (length views ≡ length pvs + 11 * posts id s)
unfolding try_post
try_post-ok id s pvs (face, lines, has_face, has_lines, four) =
    elim (Bool-cases (has_empty lines)) [
      | inl some_empty ↦ (
        pvs,
        rw (has_lines, at_object, some_empty) (ok_state pvs),
        rw (has_lines, some_empty) (omega arith),
      )
      | inr full ↦
          let (views, e, n) =
            post_lines-ok id s face lines has_face has_lines four full lines pvs in
          (views, rw (has_lines, at_object, full, e) (ok_state views), n ∙ rw (has_lines, full))
    ]
  where
    ok_state :
        (views : List PictureView)
        → ◌≡◌ {A = Result (Cache × List PictureView)}
            (ok (
              if is_empty views
                  then s
                  else record { bodies = erase id s.bodies; faces = erase id s.faces },
              views,
            ))
            (ok (dropped_if (is_empty views) id s, views))
    ok_state [] = refl
    ok_state (v ∷ vs) = refl
