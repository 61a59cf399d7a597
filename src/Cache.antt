-- ===== src/Cache.antt =====
-- src/PictureCache.cpp: the pictures of each object, collected until a preview can be made of them.
--
-- The two maps are association lists, whose order stands for the order of iteration. Times are the
-- seconds of `time_t`; where a picture lies in the future, `now - timestamp` is negative in the
-- source and 0 here, and neither is above the limit. `addPicture` takes the mutex three times (for
-- the cleanup, the storing and the posting); here a call runs alone, and in Cache/Threads with others.
pub mod Cleanup
pub mod Adding
pub mod Sources
pub mod Yielding
pub mod Trying
pub mod Posting
pub mod Complete
pub mod Views
pub mod Creating
pub mod Monotone
pub mod Threads
pub mod Interleaving
mod Tests
use beast_examples.Common.{
  ℕ, zero, suc, ◌+◌, ◌-◌, ◌≤◌, Bool, true, false, if◌then◌else◌, ltb, leb, not, List, [], ◌∷◌, ◌++◌,
  map, length, get_elem?, is_empty, any, all, reject, replicate, Text, codes, Option, none, some,
  Result, ok, throw, ◌>>=◌, or_throw, out_of_range, nat_eq,
}
use beast_examples.Common.Assoc.{lookup, insert, emplace, erase}
use beast_examples.Picture.{PostPicture, Wrapper, is_face}
use beast_examples.Preview.Defs.{PictureView, Previews, view_of, create_preview}

-- `BodyPictureCacheLine`, an array of four vectors.
abbrev pub Lines : Type 0
Lines = List (List Wrapper)

abbrev pub cache_lines : ℕ
cache_lines = 4

-- seconds
abbrev pub time_limit : ℕ
time_limit = 10

pub record Cache : Type 0 where
  pub bodies : List (ℕ × Lines)
  pub faces : List (ℕ × Wrapper)

unfoldable pub new_cache : Cache
new_cache = record { bodies = []; faces = [] }

abbrev pub empty_lines : Lines
empty_lines = replicate cache_lines []

abbrev pub is_expired : ℕ → Wrapper → Bool
is_expired now w = ltb time_limit (now - w.made_at)

abbrev pub all_lines_empty : Lines → Bool
all_lines_empty lines = all is_empty lines

-- The two passes over the bodies: expired pictures go, then objects without pictures.
unfoldable pub remove_expired : ℕ → List (ℕ × Lines) → List (ℕ × Lines)
remove_expired now [] = []
remove_expired now ((id, lines) ∷ m) =
    (id, map (reject (is_expired now)) lines) ∷ remove_expired now m

unfoldable pub remove_empty : List (ℕ × Lines) → List (ℕ × Lines)
remove_empty [] = []
remove_empty ((id, lines) ∷ m) =
    let rest = remove_empty m in if all_lines_empty lines then rest else (id, lines) ∷ rest

unfoldable pub remove_faces : ℕ → List (ℕ × Wrapper) → List (ℕ × Wrapper)
remove_faces now [] = []
remove_faces now ((id, w) ∷ m) =
    let rest = remove_faces now m in if is_expired now w then rest else (id, w) ∷ rest

unfoldable pub cleanup : ℕ → Cache → Cache
unfolding remove_expired remove_empty remove_faces
cleanup now s = record {
  bodies = remove_empty (remove_expired now s.bodies);
  faces = remove_faces now s.faces;
}

-- `v.at(i)`
abbrev pub at_index {ℓ} : {A : Type ℓ} → ℕ → List A → Result A
at_index i xs = or_throw (get_elem? xs i) (out_of_range (codes "at"))

-- `m.at(id)`
abbrev pub at_object {ℓ} : {A : Type ℓ} → ℕ → List (ℕ × A) → Result A
at_object id m = or_throw (lookup id m) (out_of_range (codes "unordered_map::at"))

-- `lines.at(i).emplace_back(w)`, for a line that is there
abbrev pub add_to_line : ℕ → Wrapper → Lines → Lines
add_to_line i w [] = []
add_to_line zero w (l ∷ ls) = (l ++ w ∷ []) ∷ ls
add_to_line (suc i) w (l ∷ ls) = l ∷ add_to_line i w ls

abbrev pub has_empty : Lines → Bool
has_empty lines = any is_empty lines

-- The eleven pictures that one long line gives: `face`, the first of each line, six of the line.
-- `bodies.at(id)` is the same in all of them.
unfoldable pub post_line : ℕ → Cache → List Wrapper → Result (List PictureView)
post_line id s line = do
  face ← at_object id s.faces
  lines ← at_object id s.bodies
  b0 ← at_index 0 lines >>= at_index 0
  b1 ← at_index 1 lines >>= at_index 0
  b2 ← at_index 2 lines >>= at_index 0
  b3 ← at_index 3 lines >>= at_index 0
  l0 ← at_index 0 line
  l1 ← at_index 1 line
  l2 ← at_index 2 line
  l3 ← at_index 3 line
  l4 ← at_index 4 line
  l5 ← at_index 5 line
  ok (map (λ w. view_of w.picture) (face ∷ b0 ∷ b1 ∷ b2 ∷ b3 ∷ l0 ∷ l1 ∷ l2 ∷ l3 ∷ l4 ∷ l5 ∷ []))

-- `for(auto& line : lines)`
unfoldable pub post_lines : ℕ → Cache → Lines → List PictureView → Result (List PictureView)
unfolding post_line
post_lines id s [] pvs = ok pvs
post_lines id s (line ∷ lines) pvs =
    let skipped = post_lines id s lines pvs in
    if leb 6 (length line)
    then (post_line id s line >>= λ more. post_lines id s lines (pvs ++ more))
    else skipped

-- `tryPostWithObject`: `pvs` collects the views of all objects.
unfoldable pub try_post : ℕ → Cache → List PictureView → Result (Cache × List PictureView)
unfolding post_lines
try_post id s pvs = do
  lines ← at_object id s.bodies
  pvs' ← (if has_empty lines then ok pvs else post_lines id s lines pvs)
  ok (
    if is_empty pvs' then s else record { bodies = erase id s.bodies; faces = erase id s.faces },
    pvs',
  )

-- The objects that have a face and bodies, in the order of the faces.
abbrev pub is_there {ℓ} : {A : Type ℓ} → Option A → Bool
is_there none = false
is_there (some a) = true

unfoldable pub paired : List (ℕ × Lines) → List (ℕ × Wrapper) → List ℕ
paired bodies [] = []
paired bodies ((id, w) ∷ m) =
    let rest = paired bodies m in if is_there (lookup id bodies) then id ∷ rest else rest

unfoldable pub try_all : List ℕ → Cache → List PictureView → Result (Cache × List PictureView)
unfolding try_post
try_all [] s pvs = ok (s, pvs)
try_all (id ∷ ids) s pvs = try_post id s pvs >>= λ r. try_all ids r.0 r.1

-- `process`, up to the call of `createPreview`: the views that are handed to it, if any.
unfoldable pub process : Cache → Result (Cache × List PictureView)
unfolding paired try_all
process s = try_all (paired s.bodies s.faces) s []

-- `lines->second.at(cameraId).emplace_back(…)` in the entry of an object.
abbrev pub store_body :
    ℕ → ℕ → Wrapper → List (ℕ × Lines) → Option Lines → List (ℕ × Lines) × Result (Unit {0})
store_body id camera w m none = (m, throw (out_of_range (codes "at")))
store_body id camera w m (some lines) =
    if ltb camera (length lines)
    then (insert id (add_to_line camera w lines) m, ok tt)
    else (m, throw (out_of_range (codes "at")))

-- The picture goes to its place: the part of `addPicture` under the lock. An object's entry is made
-- before `at` throws.
unfoldable pub store : Wrapper → Cache → Cache × Result (Unit {0})
store w s =
    let id = w.picture.object_id in
    let m = emplace id empty_lines s.bodies in
    let (m', stored) = store_body id w.picture.camera_id w m (lookup id m) in
    if is_face w.picture.object_type
    then (record s { faces = insert id w s.faces }, ok tt)
    else (record s { bodies = m' }, stored)

-- What follows `process`, and what follows the storing of a picture.
abbrev pub made :
    (List PictureView → Previews → Previews)
    → Cache
    → Previews
    → Result (Cache × List PictureView)
    → Cache × Previews × Result (Unit {0})
made create t p (throw e) = (t, p, throw e)
made create t p (ok (u, pvs)) = (u, if is_empty pvs then p else create pvs p, ok tt)

abbrev pub processed :
    (List PictureView → Previews → Previews)
    → Previews
    → Cache × Result (Unit {0})
    → Cache × Previews × Result (Unit {0})
processed create p (t, throw e) = (t, p, throw e)
processed create p (t, ok _) = made create t p (process t)

-- `addPicture`, with the time of its cleanup, and the function that makes a preview of views.
unfoldable pub add_picture :
    ℕ
    → (List PictureView → Previews → Previews)
    → Wrapper
    → Cache
    → Previews
    → Cache × Previews × Result (Unit {0})
unfolding store process
add_picture now create w s p = processed create p (store w (cleanup now s))
