-- ===== src/Cache/Views.antt =====
-- Which views the cache takes of its pictures, and in which order (src/PictureCache.cpp).
use beast_examples.Common.{
  ℕ, ◌≡◌, refl, ◌∙◌, ap, Bool, true, false, Bool-cases, inl, inr, if◌then◌else◌, leb, List, [], ◌∷◌,
  ◌++◌, map, length, take, append_assoc, append-nil, is_empty, Option, none, some, Result, ok,
  ◌>>=◌, All, nat_eq, arith, leb→le, ◌≤◌, ◌<◌, zero, suc, nat_eqb_iff,
}
use beast_examples.Common.Assoc.{lookup, erase, lookup-erase}
use beast_examples.Picture.{Wrapper}
use beast_examples.Preview.Defs.{PictureView, view_of}
use beast_examples.Cache.{
  Cache, Lines, cache_lines, has_empty, at_index, at_object, process, post_line, post_lines,
  try_post, try_all,
}
use beast_examples.Cache.Cleanup.{Inv}
use beast_examples.Cache.Trying.{dropped_if, IsPaired}
use beast_examples.Cache.Posting.{
  absent, DistinctIds, dropped-IsPaired, paired-DistinctIds, paired-IsPaired, KeysIn-self, visited,
}

-- The first picture of each line.
abbrev pub heads : Lines → List Wrapper
heads [] = []
heads ([] ∷ ls) = heads ls
heads ((w ∷ l) ∷ ls) = w ∷ heads ls

-- The views of a long line: the face, the first body picture of each camera, and the first six of the line.
abbrev pub line_views : Wrapper → Lines → List Wrapper → List PictureView
line_views face lines line = map (λ w. view_of w.picture) (face ∷ heads lines ++ take 6 line)

-- Those of all long lines in their order.
abbrev pub lines_views : Wrapper → Lines → Lines → List PictureView
lines_views face lines [] = []
lines_views face lines (line ∷ more) =
    let rest = lines_views face lines more in
    if leb 6 (length line) then line_views face lines line ++ rest else rest

-- Those of an object, if it has a face and none of its lines is empty.
abbrev pub views_of : Option Wrapper → Option Lines → List PictureView
views_of none lines = []
views_of (some face) none = []
views_of (some face) (some lines) = if has_empty lines then [] else lines_views face lines lines

abbrev pub object_views : ℕ → Cache → List PictureView
object_views id s = views_of (lookup id s.faces) (lookup id s.bodies)

abbrev pub all_views : List ℕ → Cache → List PictureView
all_views [] s = []
all_views (id ∷ ids) s = object_views id s ++ all_views ids s

at_heads :
    (i : ℕ) (lines : Lines)
    → i < length lines
    → has_empty lines ≡ false
    → (at_index i lines >>= at_index 0) ≡ at_index i (heads lines)
at_heads i [] h full = absurd (omega arith)
at_heads i ([] ∷ ls) h full = cc
at_heads zero ((w ∷ l) ∷ ls) h full = refl
at_heads (suc i) ((w ∷ l) ∷ ls) h full = at_heads i ls (omega arith) full

length-heads : (lines : Lines) → has_empty lines ≡ false → length (heads lines) ≡ length lines
length-heads [] full = refl
length-heads ([] ∷ ls) full = cc
length-heads ((w ∷ l) ∷ ls) full = ap suc (length-heads ls full)

-- Four pictures and six, one by one.
each_at : Wrapper → List Wrapper → List Wrapper → Result (List PictureView)
each_at face hs line = do
  b0 ← at_index 0 hs
  b1 ← at_index 1 hs
  b2 ← at_index 2 hs
  b3 ← at_index 3 hs
  l0 ← at_index 0 line
  l1 ← at_index 1 line
  l2 ← at_index 2 line
  l3 ← at_index 3 line
  l4 ← at_index 4 line
  l5 ← at_index 5 line
  ok (map (λ w. view_of w.picture) (face ∷ b0 ∷ b1 ∷ b2 ∷ b3 ∷ l0 ∷ l1 ∷ l2 ∷ l3 ∷ l4 ∷ l5 ∷ []))

each_at_lem :
    (face : Wrapper) (hs line : List Wrapper)
    → length hs ≡ 4
    → 6 ≤ length line
    → each_at face hs line ≡ ok (map (λ w. view_of w.picture) (face ∷ hs ++ take 6 line))
unfolding each_at
each_at_lem face [] line h k = absurd (omega arith)
each_at_lem face (a ∷ []) line h k = absurd (omega arith)
each_at_lem face (a ∷ b ∷ []) line h k = absurd (omega arith)
each_at_lem face (a ∷ b ∷ c ∷ []) line h k = absurd (omega arith)
each_at_lem face (a ∷ b ∷ c ∷ d ∷ e ∷ hs) line h k = absurd (omega arith)
each_at_lem face (a ∷ b ∷ c ∷ d ∷ []) [] h k = absurd (omega arith)
each_at_lem face (a ∷ b ∷ c ∷ d ∷ []) (k0 ∷ []) h k = absurd (omega arith)
each_at_lem face (a ∷ b ∷ c ∷ d ∷ []) (k0 ∷ k1 ∷ []) h k = absurd (omega arith)
each_at_lem face (a ∷ b ∷ c ∷ d ∷ []) (k0 ∷ k1 ∷ k2 ∷ []) h k = absurd (omega arith)
each_at_lem face (a ∷ b ∷ c ∷ d ∷ []) (k0 ∷ k1 ∷ k2 ∷ k3 ∷ []) h k = absurd (omega arith)
each_at_lem face (a ∷ b ∷ c ∷ d ∷ []) (k0 ∷ k1 ∷ k2 ∷ k3 ∷ k4 ∷ []) h k = absurd (omega arith)
each_at_lem face (a ∷ b ∷ c ∷ d ∷ []) (k0 ∷ k1 ∷ k2 ∷ k3 ∷ k4 ∷ k5 ∷ more) h k = refl

module _ (id : ℕ) (s : Cache) (face : Wrapper) (lines : Lines)
    (has_face : lookup id s.faces ≡ some face) (has_lines : lookup id s.bodies ≡ some lines)
    (four : length lines ≡ cache_lines) (full : has_empty lines ≡ false) where
  post_line-line_views :
      (line : List Wrapper)
      → 6 ≤ length line
      → post_line id s line ≡ ok (line_views face lines line)
  unfolding post_line each_at
  post_line-line_views line long =
      rw (has_face, has_lines, at_object)
        (rw
          (
            at_heads 0 lines (omega arith) full,
            at_heads 1 lines (omega arith) full,
            at_heads 2 lines (omega arith) full,
            at_heads 3 lines (omega arith) full,
          )
          (each_at_lem face (heads lines) line (length-heads lines full ∙ four) long))

  post_lines-lines_views :
      (ls : Lines) (pvs : List PictureView)
      → post_lines id s ls pvs ≡ ok (pvs ++ lines_views face lines ls)
  unfolding post_lines
  post_lines-lines_views [] pvs = rw (append-nil pvs) refl
  post_lines-lines_views (l ∷ ls) pvs = elim (Bool-cases (leb 6 (length l))) [
    | inl long ↦
        rw (long, post_line-line_views l (leb→le _ _ long))
          (post_lines-lines_views ls (pvs ++ line_views face lines l)
            ∙ ap ok (append_assoc pvs (line_views face lines l) (lines_views face lines ls)))
    | inr short ↦ rw short (post_lines-lines_views ls pvs)
  ]

try_post-object_views :
    (id : ℕ) (s : Cache) (pvs : List PictureView)
    → IsPaired s id
    → try_post id s pvs
      ≡ ok (dropped_if (is_empty (pvs ++ object_views id s)) id s, pvs ++ object_views id s)
unfolding try_post
try_post-object_views id s pvs (face, lines, has_face, has_lines, four) =
    elim (Bool-cases (has_empty lines)) [
      | inl some_empty ↦
          rw (has_face, has_lines, at_object, some_empty) (rw (append-nil pvs) (ok_state pvs))
      | inr full ↦
          rw (has_face, has_lines, at_object, full)
            (rw (post_lines-lines_views id s face lines has_face has_lines four full lines pvs)
              (ok_state (pvs ++ lines_views face lines lines)))
    ]
  where
    ok_state :
        (views : List PictureView)
        → ◌≡◌ {A = Result (Cache × List PictureView)}
            (ok (
              if is_empty views
                  then s
                  else record { bodies = erase id s.bodies; faces = erase id s.faces },
              views,
            ))
            (ok (dropped_if (is_empty views) id s, views))
    ok_state [] = refl
    ok_state (v ∷ vs) = refl

all_views-dropped :
    (b : Bool) (id : ℕ) (s : Cache) (ids : List ℕ)
    → absent id ids ≡ true
    → all_views ids (dropped_if b id s) ≡ all_views ids s
all_views-dropped true id s ids a = refl
all_views-dropped false id s [] a = refl
all_views-dropped false id s (j ∷ js) a =
    let body : lookup j (erase id s.bodies) ≡ lookup j s.bodies =
      lookup-erase id j s.bodies ∙ ground (arith, nat_eqb_iff j id) in
    let face : lookup j (erase id s.faces) ≡ lookup j s.faces =
      lookup-erase id j s.faces ∙ ground (arith, nat_eqb_iff j id) in
    rw (body, face, all_views-dropped false id s js (ground arith))

kept-IsPaired :
    (b : Bool) (id : ℕ) (s : Cache) (ids : List ℕ)
    → absent id ids ≡ true
    → All (IsPaired s) ids
    → All (IsPaired (dropped_if b id s)) ids
kept-IsPaired true id s ids a h = h
kept-IsPaired false id s ids a h = dropped-IsPaired id s ids a h

try_all-all_views :
    (ids : List ℕ) (s t : Cache) (pvs views : List PictureView)
    → DistinctIds ids
    → All (IsPaired s) ids
    → try_all ids s pvs ≡ ok (t, views)
    → views ≡ pvs ++ all_views ids s
unfolding try_all
try_all-all_views [] s t pvs views d h e = rw (append-nil pvs) (cc e)
try_all-all_views (id ∷ ids) s t pvs views (a, d) (p, h) e =
    let more = pvs ++ object_views id s in
    let b = is_empty more in
    try_all-all_views ids (dropped_if b id s) t more views d (kept-IsPaired b id s ids a h)
      (rw (try_post-object_views id s pvs p) at e)
    ∙ rw (all_views-dropped b id s ids a) (append_assoc pvs (object_views id s) (all_views ids s))

-- The views of `process` are those of the objects that it visits, in their order.
pub process-all_views :
    (s t : Cache) (views : List PictureView)
    → Inv s
    → process s ≡ ok (t, views)
    → views ≡ all_views (visited s) s
unfolding process
process-all_views s t views v e =
    try_all-all_views (visited s) s t [] views (paired-DistinctIds s.bodies s.faces v.face_keys)
      (paired-IsPaired s s.faces v (KeysIn-self s.faces)) e
