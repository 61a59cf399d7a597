-- ===== src/Cache/Adding.antt =====
-- Where a new picture goes (src/PictureCache.cpp).
use beast_examples.Common.{
  ℕ, zero, suc, ◌≤◌, ◌<◌, ◌≡◌, refl, ap, ◌∙◌, Bool, true, false, if◌then◌else◌, ltb, List, [], ◌∷◌,
  length, Option, none, some, arith, nat_eq, nat_eqb_iff, Bool-cases, inl, inr, Option-cases, ◌==◌,
  beq_refl, ok, throw, out_of_range, codes, lt→ltb, ltb→lt,
}
use beast_examples.Common.Assoc.{
  lookup, insert, emplace, lookup-insert, lookup-emplace_fresh, lookup-emplace_there,
  insert-DistinctKeys, emplace-DistinctKeys,
}
use beast_examples.Picture.{Wrapper, is_face}
use beast_examples.Cache.{Cache, Lines, cache_lines, empty_lines, add_to_line, store_body, store}
use beast_examples.Cache.Cleanup.{Inv}

-- The lines of an object, four empty ones if it has no entry.
abbrev pub lines_of : Option Lines → Lines
lines_of none = empty_lines
lines_of (some lines) = lines

length-add_to_line : (i : ℕ) (w : Wrapper) (ls : Lines) → length (add_to_line i w ls) ≡ length ls
length-add_to_line i w [] = refl
length-add_to_line zero w (l ∷ ls) = refl
length-add_to_line (suc i) w (l ∷ ls) = ap suc (length-add_to_line i w ls)

lookup-emplace :
    (k j : ℕ) (m : List (ℕ × Lines))
    → lookup j (emplace k empty_lines m)
      ≡ (if k == j then some (lines_of (lookup k m)) else lookup j m)
lookup-emplace k j m = elim (Option-cases (lookup k m)) [
  | inl absent ↦ rw absent (lookup-emplace_fresh k j empty_lines m absent)
  | inr (w, there) ↦
      rw (lookup-emplace_there k empty_lines w m there, there)
        (ground (arith, nat_eqb_iff k j, there))
]

-- The new entry's lines.
abbrev pub with_picture : Wrapper → Cache → Lines
with_picture w s =
    add_to_line w.picture.camera_id w (lines_of (lookup w.picture.object_id s.bodies))

length-lines_of :
    (s : Cache) (id : ℕ) → Inv s → length (lines_of (lookup id s.bodies)) ≡ cache_lines
length-lines_of s id v = elim (Option-cases (lookup id s.bodies)) [
  | inl e ↦ rw e
  | inr (lines, e) ↦ rw e (v.four id lines e)
]

-- The entry that `emplace` makes or finds.
found_entry :
    (id : ℕ) (s : Cache)
    → lookup id (emplace id empty_lines s.bodies) ≡ some (lines_of (lookup id s.bodies))
found_entry id s = lookup-emplace id id s.bodies ∙ rw (beq_refl id)

pub store_face :
    (w : Wrapper) (s : Cache)
    → is_face w.picture.object_type ≡ true
    → store w s ≡ (record s { faces = insert w.picture.object_id w s.faces }, ok tt)
unfolding store
store_face w s face = rw face

pub store_fits :
    (w : Wrapper) (s : Cache)
    → Inv s
    → is_face w.picture.object_type ≡ false
    → w.picture.camera_id < cache_lines
    → store w s ≡ (
      record s {
        bodies =
            insert w.picture.object_id
              (with_picture w s)
              (emplace w.picture.object_id empty_lines s.bodies);
      },
      ok tt,
    )
unfolding store
store_fits w s v body small =
    let id = w.picture.object_id in
    let fits : ltb w.picture.camera_id (length (lines_of (lookup id s.bodies))) ≡ true =
      rw (length-lines_of s id v) (lt→ltb _ _ small) in
    rw (body, found_entry id s, store_body, fits)

pub store_refused :
    (w : Wrapper) (s : Cache)
    → Inv s
    → is_face w.picture.object_type ≡ false
    → cache_lines ≤ w.picture.camera_id
    → store w s ≡ (
      record s { bodies = emplace w.picture.object_id empty_lines s.bodies },
      throw (out_of_range (codes "at")),
    )
unfolding store
store_refused w s v body big =
    let id = w.picture.object_id in
    let beyond : ltb w.picture.camera_id (length (lines_of (lookup id s.bodies))) ≡ false =
      rw (length-lines_of s id v) (ground arith) in
    rw (body, found_entry id s, store_body, beyond)

-- An entry of a map after one entry was replaced.
replaced-length :
    (here : Bool) (new lines : Lines) (old : Option Lines)
    → length new ≡ cache_lines
    → (old ≡ some lines → length lines ≡ cache_lines)
    → (if here then some new else old) ≡ some lines
    → length lines ≡ cache_lines
replaced-length true new lines old h k e = ap length {x = lines} {y = new} (cc) ∙ h
replaced-length false new lines old h k e = k e

emplace-Inv :
    (id : ℕ) (s : Cache) → Inv s → Inv (record s { bodies = emplace id empty_lines s.bodies })
emplace-Inv id s v = record {
  body_keys = emplace-DistinctKeys id empty_lines s.bodies v.body_keys;
  face_keys = v.face_keys;
  four = λ j lines e.
      replaced-length (id == j) (lines_of (lookup id s.bodies)) lines (lookup j s.bodies)
        (length-lines_of s id v) (v.four j lines) (rw (lookup-emplace id j s.bodies) at e);
}

insert-Inv :
    (id : ℕ) (new : Lines) (s : Cache)
    → length new ≡ cache_lines
    → Inv s
    → Inv (record s { bodies = insert id new s.bodies })
insert-Inv id new s h v = record {
  body_keys = insert-DistinctKeys id new s.bodies v.body_keys;
  face_keys = v.face_keys;
  four = λ j lines e.
      replaced-length (id == j) new lines (lookup j s.bodies) h (v.four j lines)
        (rw (lookup-insert id j new s.bodies) at e);
}

-- Storing keeps the maps well-formed, also when it throws.
pub store-Inv : (w : Wrapper) (s : Cache) → Inv s → Inv (store w s).0
store-Inv w s v = elim (Bool-cases (is_face w.picture.object_type)) [
  | inl face ↦ rw (store_face w s face) (record {
    body_keys = v.body_keys;
    face_keys = insert-DistinctKeys w.picture.object_id w s.faces v.face_keys;
    four = v.four;
  })
  | inr body ↦ elim (Bool-cases (ltb w.picture.camera_id cache_lines)) [
    | inl small ↦ rw (store_fits w s v body (ltb→lt _ _ small)) (
        insert-Inv w.picture.object_id (with_picture w s)
          (record s { bodies = emplace w.picture.object_id empty_lines s.bodies })
          (length-add_to_line w.picture.camera_id w _ ∙ length-lines_of s w.picture.object_id v)
          (emplace-Inv w.picture.object_id s v))
    | inr big ↦ rw (store_refused w s v body (ground arith)) (emplace-Inv w.picture.object_id s v)
  ]
]

-- A body picture of cameras 0 to 3 is added at the end of its camera's line; the lines of the other
-- objects, and the faces, stay.
store-body :
    (w : Wrapper) (s : Cache)
    → Inv s
    → is_face w.picture.object_type ≡ false
    → w.picture.camera_id < cache_lines
    → ((store w s).1 ≡ ok tt)
      × ((store w s).0.faces ≡ s.faces)
      × ((id : ℕ)
          → lookup id (store w s).0.bodies
            ≡ (if w.picture.object_id == id then some (with_picture w s) else lookup id s.bodies))
store-body w s v body small =
    let id = w.picture.object_id in
    rw (store_fits w s v body small) (
      refl,
      refl,
      λ j.
          lookup-insert id j (with_picture w s) (emplace id empty_lines s.bodies)
          ∙ other_entry id j,
    )
  where
    other_entry :
        (id j : ℕ)
        → (if id == j then some (with_picture w s) else lookup j (emplace id empty_lines s.bodies))
          ≡ (if id == j then some (with_picture w s) else lookup j s.bodies)
    other_entry id j = ground (arith, lookup-emplace id j s.bodies)
