-- ===== src/Cache/Posting.antt =====
-- Which objects a preview is made of, and which lose their pictures (src/PictureCache.cpp).
use beast_examples.Common.{
  ℕ, ◌+◌, ◌*◌, ◌≡◌, refl, ◌∙◌, Bool, true, false, if◌then◌else◌, ltb, not, ◌&&◌, List, [], ◌∷◌,
  length, is_empty, All, none, some, arith, nat_eq, nat_eqb_iff, Bool-cases, inl, inr, Option-cases,
  ◌==◌, beq_refl, ok, ◌⊎◌,
}
use beast_examples.Common.Assoc.{lookup, erase, DistinctKeys, lookup-erase}
use beast_examples.Picture.{Wrapper}
use beast_examples.Preview.Defs.{PictureView}
use beast_examples.Cache.{Cache, Lines, paired, try_all, process}
use beast_examples.Cache.Cleanup.{Inv}
use beast_examples.Cache.Trying.{posts, dropped_if, IsPaired, try_post-ok}

-- Identifiers in an order, each once.
abbrev pub absent : ℕ → List ℕ → Bool
absent id [] = true
absent id (j ∷ js) = not (j == id) && absent id js

abbrev pub DistinctIds : List ℕ → Type 0
DistinctIds [] = Unit
DistinctIds (id ∷ ids) = (absent id ids ≡ true) × DistinctIds ids

-- The objects that are erased when `ids` are visited in their order: from the first complete one on.
abbrev pub from_complete : Cache → List ℕ → List ℕ
from_complete s [] = []
from_complete s (id ∷ ids) = if ltb 0 (posts id s) then id ∷ ids else from_complete s ids

abbrev pub erase_all : List ℕ → Cache → Cache
erase_all [] s = s
erase_all (id ∷ ids) s = erase_all ids (dropped_if false id s)

abbrev pub all_posts : Cache → List ℕ → ℕ
all_posts s [] = 0
all_posts s (id ∷ ids) = posts id s + all_posts s ids

-- Erasing one object leaves the others.
pub dropped-IsPaired :
    (id : ℕ) (s : Cache) (ids : List ℕ)
    → absent id ids ≡ true
    → All (IsPaired s) ids
    → All (IsPaired (dropped_if false id s)) ids
dropped-IsPaired id s [] a h = tt
dropped-IsPaired id s (j ∷ js) a ((face, lines, f, b, four), h) = (
  (
    face,
    lines,
    lookup-erase id j s.faces ∙ ground (arith, nat_eqb_iff j id),
    lookup-erase id j s.bodies ∙ ground (arith, nat_eqb_iff j id),
    four,
  ),
  dropped-IsPaired id s js (ground arith) h,
)

all_posts-dropped :
    (id : ℕ) (s : Cache) (ids : List ℕ)
    → absent id ids ≡ true
    → all_posts (dropped_if false id s) ids ≡ all_posts s ids
all_posts-dropped id s [] a = refl
all_posts-dropped id s (j ∷ js) a =
    let same : lookup j (erase id s.bodies) ≡ lookup j s.bodies =
      lookup-erase id j s.bodies ∙ ground (arith, nat_eqb_iff j id) in
    rw (same, all_posts-dropped id s js (ground arith))

-- Once there are views, every object that is visited is erased.
try_all-started :
    (ids : List ℕ) (s : Cache) (pvs : List PictureView)
    → is_empty pvs ≡ false
    → DistinctIds ids
    → All (IsPaired s) ids
    → (views : List PictureView) × (try_all ids s pvs ≡ ok (erase_all ids s, views))
      × (length views ≡ length pvs + 11 * all_posts s ids)
unfolding try_all
try_all-started [] s pvs ne d h = (pvs, refl, omega arith)
try_all-started (id ∷ ids) s pvs ne (a, d) (p, h) =
    let (views, e, n) = try_post-ok id s pvs p in
    let more : is_empty views ≡ false = ground (arith, n) in
    let (views', e', n') =
      try_all-started ids (dropped_if false id s) views more d (dropped-IsPaired id s ids a h) in
    (views', rw (e, more) e', omega (arith, n, n', all_posts-dropped id s ids a))

-- Until there are views, nothing is erased.
try_all-idle :
    (ids : List ℕ) (s : Cache)
    → DistinctIds ids
    → All (IsPaired s) ids
    → (views : List PictureView) × (try_all ids s []
        ≡ ok (erase_all (from_complete s ids) s, views))
      × (length views ≡ 11 * all_posts s ids)
unfolding try_all
try_all-idle [] s d h = ([], refl, refl)
try_all-idle (id ∷ ids) s (a, d) (p, h) =
    let (views, e, n) = try_post-ok id s [] p in
    elim (Bool-cases (ltb 0 (posts id s))) [
      | inl complete ↦
          let some_views : is_empty views ≡ false = ground (arith, n) in
          let (views', e', n') =
            try_all-started ids (dropped_if false id s) views some_views d
              (dropped-IsPaired id s ids a h) in
          (
            views',
            rw (e, some_views, complete) e',
            omega (arith, n, n', all_posts-dropped id s ids a),
          )
      | inr other ↦
          let (views', e', n') = try_all-idle ids s d h in
          let none_yet : views ≡ [] = ground (arith, n) in
          (views', rw (e, none_yet, other) e', ground (arith, n'))
    ]

-- The keys of `m` are all in `whole`.
abbrev pub KeysIn : List (ℕ × Wrapper) → List (ℕ × Wrapper) → Type 0
KeysIn whole m = All (λ entry. (w : Wrapper) × (lookup entry.0 whole ≡ some w)) m

KeysIn-cons :
    (id : ℕ) (w : Wrapper) (whole m : List (ℕ × Wrapper))
    → KeysIn whole m
    → KeysIn ((id, w) ∷ whole) m
KeysIn-cons id w whole [] h = tt
KeysIn-cons id w whole ((j, x) ∷ m) ((y, e), h) =
    (found (Bool-cases (id == j)), KeysIn-cons id w whole m h)
  where
    found :
        ((id == j) ≡ true) ⊎ ((id == j) ≡ false)
        → (v : Wrapper) × (lookup j ((id, w) ∷ whole) ≡ some v)
    found (inl same) = (w, rw same)
    found (inr other) = (y, rw other e)

pub KeysIn-self : (m : List (ℕ × Wrapper)) → KeysIn m m
KeysIn-self [] = tt
KeysIn-self ((id, w) ∷ m) = ((w, rw (beq_refl id)), KeysIn-cons id w m m (KeysIn-self m))

pub paired-IsPaired :
    (s : Cache) (m : List (ℕ × Wrapper))
    → Inv s
    → KeysIn s.faces m
    → All (IsPaired s) (paired s.bodies m)
unfolding paired
paired-IsPaired s [] v h = tt
paired-IsPaired s ((id, w) ∷ m) v ((face, f), h) = elim (Option-cases (lookup id s.bodies)) [
  | inl e ↦ rw e (paired-IsPaired s m v h)
  | inr (lines, e) ↦ rw e ((face, lines, f, e, v.four id lines e), paired-IsPaired s m v h)
]

absent-paired :
    (id : ℕ) (bodies : List (ℕ × Lines)) (m : List (ℕ × Wrapper))
    → lookup id m ≡ none
    → absent id (paired bodies m) ≡ true
unfolding paired
absent-paired id bodies [] h = refl
absent-paired id bodies ((j, w) ∷ m) h = ground (arith, absent-paired id bodies m, nat_eqb_iff j id)

pub paired-DistinctIds :
    (bodies : List (ℕ × Lines)) (m : List (ℕ × Wrapper))
    → DistinctKeys m
    → DistinctIds (paired bodies m)
unfolding paired
paired-DistinctIds bodies [] d = tt
paired-DistinctIds bodies ((id, w) ∷ m) d =
    ground (arith, absent-paired id bodies m d.0, paired-DistinctIds bodies m d.1)

-- The objects with a face and bodies, in the order in which `process` visits them.
abbrev pub visited : Cache → List ℕ
visited s = paired s.bodies s.faces

-- `process` never throws. It erases the first complete object that it visits and every object that
-- it visits after that one, complete or not, and nothing else; and it posts eleven views for each
-- long line of each complete object it visits.
pub process-erase_all :
    (s : Cache)
    → Inv s
    → (views : List PictureView) × (process s
        ≡ ok (erase_all (from_complete s (visited s)) s, views))
      × (length views ≡ 11 * all_posts s (visited s))
unfolding process
process-erase_all s v =
    try_all-idle (visited s) s (paired-DistinctIds s.bodies s.faces v.face_keys)
      (paired-IsPaired s s.faces v (KeysIn-self s.faces))
