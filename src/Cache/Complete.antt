-- ===== src/Cache/Complete.antt =====
-- What a call of `addPicture` leaves behind (src/PictureCache.cpp).
use beast_examples.Common.{
  ℕ, ◌≡◌, refl, ◌∙◌, ◌⊎◌, Bool, true, false, if◌then◌else◌, ltb, ◌||◌, List, [], ◌∷◌, Option, none,
  some, arith, nat_eq, nat_eqb_iff, Bool-cases, inl, inr, ◌==◌, Result, ok, throw, out_of_range,
  codes, ltb→lt,
}
use beast_examples.Common.Assoc.{lookup, lookup-erase, erase-DistinctKeys}
use beast_examples.Picture.{Wrapper, is_face}
use beast_examples.Preview.Defs.{PictureView, Previews}
use beast_examples.Cache.{
  processed, made, Cache, Lines, cache_lines, cleanup, store, paired, process, add_picture,
}
use beast_examples.Cache.Cleanup.{Inv, cleanup-Inv}
use beast_examples.Cache.Adding.{store-Inv, store_face, store_fits, store_refused}
use beast_examples.Cache.Posting.{absent, from_complete, erase_all, visited, process-erase_all}
use beast_examples.Cache.Trying.{posts, is_complete, dropped_if}

lookup-erase_all :
    (j : ℕ) (ids : List ℕ) (s : Cache)
    → (lookup j (erase_all ids s).faces ≡ (if absent j ids then lookup j s.faces else none))
      × (lookup j (erase_all ids s).bodies ≡ (if absent j ids then lookup j s.bodies else none))
lookup-erase_all j [] s = (refl, refl)
lookup-erase_all j (id ∷ ids) s =
    let (f, b) = lookup-erase_all j ids (dropped_if false id s) in
    (f ∙ ground (arith, lookup-erase id j s.faces), b ∙ ground (arith, lookup-erase id j s.bodies))

erase_all-Inv : (ids : List ℕ) (s : Cache) → Inv s → Inv (erase_all ids s)
erase_all-Inv [] s v = v
erase_all-Inv (id ∷ ids) s v = erase_all-Inv ids (dropped_if false id s) (record {
  body_keys = erase-DistinctKeys id s.bodies v.body_keys;
  face_keys = erase-DistinctKeys id s.faces v.face_keys;
  four = λ j lines e. v.four j lines (kept j lines (rw (lookup-erase id j s.bodies) at e));
})
  where
    kept :
        (j : ℕ) (lines : Lines)
        → (if id == j then none else lookup j s.bodies) ≡ some lines
        → lookup j s.bodies ≡ some lines
    kept j lines e = ground arith

-- An object with a face and bodies is visited.
visited_of_paired :
    (id : ℕ) (bodies : List (ℕ × Lines)) (m : List (ℕ × Wrapper)) (w : Wrapper) (lines : Lines)
    → lookup id m ≡ some w
    → lookup id bodies ≡ some lines
    → absent id (paired bodies m) ≡ false
unfolding paired
visited_of_paired id bodies [] w lines f b = cc
visited_of_paired id bodies ((j, x) ∷ m) w lines f b =
    ground (arith, visited_of_paired id bodies m w lines, nat_eqb_iff j id)

-- A complete object that is visited is erased.
from_complete-posts :
    (id : ℕ) (s : Cache) (ids : List ℕ)
    → absent id ids ≡ false
    → absent id (from_complete s ids) ≡ true
    → posts id s ≡ 0
from_complete-posts id s [] a k = cc
from_complete-posts id s (j ∷ js) a k = elim (Bool-cases (ltb 0 (posts j s))) [
  | inl complete ↦ absurd (Bool-absurd a (rw complete at k))
  | inr idle ↦ elim (Bool-cases (j == id)) [
    | inl same ↦ rw (← (nat_eqb_iff j id).0 same) (ground arith)
    | inr other ↦ from_complete-posts id s js (ground arith) (rw idle at k)
  ]
]
  where
    Bool-absurd : {b : Bool} → b ≡ false → b ≡ true → ⊥
    Bool-absurd p q = cc

-- An object that `process` does not erase is not complete.
kept-not_complete :
    (s : Cache) (id : ℕ) → absent id (from_complete s (visited s)) ≡ true → is_complete id s ≡ false
kept-not_complete s id kept = idle (lookup id s.faces) (lookup id s.bodies) refl refl
  where
    idle :
        (f : Option Wrapper) (b : Option Lines)
        → lookup id s.faces ≡ f
        → lookup id s.bodies ≡ b
        → is_complete id s ≡ false
    idle none b ef eb = rw ef
    idle (some w) none ef eb = rw (ef, eb)
    idle (some w) (some lines) ef eb =
        let seen = visited_of_paired id s.bodies s.faces w lines ef eb in
        rw (from_complete-posts id s (visited s) seen kept, ef)

-- After `process` no object is complete any more, and the maps stay well-formed.
pub process-not_complete :
    (s : Cache)
    → Inv s
    → (t : Cache) × (views : List PictureView) × (process s ≡ ok (t, views))
      × Inv t
      × ((id : ℕ) → is_complete id t ≡ false)
process-not_complete s v =
    let (views, e, _) = process-erase_all s v in
    (erase_all ids s, views, e, erase_all-Inv ids s v, λ id. gone id (Bool-cases (absent id ids)))
  where
    ids : List ℕ
    ids = from_complete s (visited s)

    gone :
        (id : ℕ)
        → ((absent id ids ≡ true) ⊎ (absent id ids ≡ false))
        → is_complete id (erase_all ids s) ≡ false
    gone id (inr erased) = let (f, b) = lookup-erase_all id ids s in rw (f, erased)
    gone id (inl kept) =
        let (f, b) = lookup-erase_all id ids s in rw (f, b, kept) (kept-not_complete s id kept)

-- The picture has a place in the cache.
abbrev pub has_place : Wrapper → Bool
has_place w = is_face w.picture.object_type || ltb w.picture.camera_id cache_lines

-- The answer of a call of `addPicture`, and what it leaves.
abbrev pub Leaves : Bool → Previews → Cache × Previews × Result (Unit {0}) → Type 0
Leaves true p (t, q, r) = Inv t × (r ≡ ok tt) × ((id : ℕ) → is_complete id t ≡ false)
Leaves false p (t, q, r) = Inv t × (r ≡ throw (out_of_range (codes "at"))) × (q ≡ p)

pub store-has_place :
    (w : Wrapper) (s : Cache)
    → Inv s
    → (store w s).1 ≡ (if has_place w then ok tt else throw (out_of_range (codes "at")))
store-has_place w s v = elim (Bool-cases (is_face w.picture.object_type)) [
  | inl face ↦ rw (store_face w s face, face)
  | inr body ↦ elim (Bool-cases (ltb w.picture.camera_id cache_lines)) [
    | inl small ↦ rw (store_fits w s v body (ltb→lt _ _ small), body, small)
    | inr big ↦ rw (store_refused w s v body (ground arith), body, big)
  ]
]

-- A call of `addPicture` keeps the maps well-formed. A body picture of a camera above 3 makes it
-- throw `std::out_of_range` and leave the previews as they were. For every other picture it succeeds,
-- and no complete object is left in the cache.
pub add_picture-Leaves :
    (now : ℕ) (create : List PictureView → Previews → Previews) (w : Wrapper) (s : Cache)
    (p : Previews)
    → Inv s
    → Leaves (has_place w) p (add_picture now create w s p)
unfolding add_picture
add_picture-Leaves now create w s p v =
    let c = (cleanup-Inv now s v).0 in
    let inv = store-Inv w (cleanup now s) c in
    let (u, views, e, inv', idle) = process-not_complete (store w (cleanup now s)).0 inv in
    elim (Bool-cases (has_place w)) [
      | inl fits ↦
          rw (store-has_place w (cleanup now s) c, fits, add_picture, processed)
            (rw (e, made) (inv', refl, idle))
      | inr misfit ↦
          rw (store-has_place w (cleanup now s) c, misfit, add_picture, processed) (inv, refl, refl)
    ]
