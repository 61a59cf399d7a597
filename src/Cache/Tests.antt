-- ===== src/Cache/Tests.antt =====
-- A cache with one complete object and one that is not, and the theorems at it.
use beast_examples.Common.{
  is_empty, length, if◌then◌else◌, ◌*◌, zero, true, suc, ℕ, ◌*◌, ◌≡◌, refl, nat_eq, List, [], ◌∷◌,
  length, none, some, ok, All, arith,
}
use beast_examples.Common.Assoc.{lookup}
use beast_examples.Picture.{ObjectType, Wrapper, face, body}
use beast_examples.Preview.Defs.{PictureView, Previews, new_previews, create_preview}
use beast_examples.Cache.{
  new_cache, Cache, Lines, cache_lines, cleanup, store, process, add_picture, paired,
}
use beast_examples.Cache.Cleanup.{Inv, fresh_lines, fresh_face, cleanup-Inv}
use beast_examples.Cache.Posting.{visited, from_complete, erase_all, all_posts, process-erase_all}
use beast_examples.Cache.Threads.{advance, System, advanced, run, begin, Reach, start, later}
use beast_examples.Cache.Interleaving.{Safe, Reach-Safe, is_stored}
use beast_examples.Cache.Views.{all_views}
use beast_examples.Cache.Creating.{add_picture-create}
use beast_examples.Cache.Complete.{Leaves, has_place, add_picture-Leaves}

abbrev picture : ℕ → ℕ → ObjectType → ℕ → Wrapper
picture object camera type made = record {
  picture = record {
    camera_id = camera;
    object_id = object;
    object_type = type;
    timestamp = 0;
    width = 1;
    height = 1;
    size = 1;
    pixels = some (object ∷ []);
  };
  made_at = made;
}

abbrev shot : ℕ → ℕ → Wrapper
shot object camera = picture object camera body 100

-- Object 5 has six pictures of camera 0 and one of each other; object 6 has one picture.
abbrev full : Cache
full = record {
  bodies =
      (
        5,
        (shot 5 0 ∷ shot 5 0 ∷ shot 5 0 ∷ shot 5 0 ∷ shot 5 0 ∷ shot 5 0 ∷ [])
            ∷ (shot 5 1 ∷ [])
            ∷ (shot 5 2 ∷ [])
            ∷ (shot 5 3 ∷ [])
            ∷ [],
      )
      ∷ (6, (shot 6 0 ∷ []) ∷ [] ∷ [] ∷ [] ∷ [])
      ∷ [];
  faces = (5, picture 5 0 face 100) ∷ (6, picture 6 0 face 85) ∷ [];
}

lines_are_four :
    (m : List (ℕ × Lines)) (id : ℕ) (lines : Lines)
    → All (λ entry. length entry.1 ≡ cache_lines) m
    → lookup id m ≡ some lines
    → length lines ≡ cache_lines
lines_are_four [] id lines h e = cc
lines_are_four ((j, l) ∷ m) id lines (four, h) e = ground (arith, lines_are_four m id lines h)

full-Inv : Inv full
full-Inv = record {
  body_keys = (refl, (refl, tt));
  face_keys = (refl, (refl, tt));
  four = λ id lines e. lines_are_four full.bodies id lines (refl, (refl, tt)) e;
}

cleanup-Inv_example :
    Inv (cleanup 101 full)
    × ((id : ℕ)
        → (lookup id (cleanup 101 full).faces ≡ fresh_face 101 (lookup id full.faces))
          × (lookup id (cleanup 101 full).bodies ≡ fresh_lines 101 (lookup id full.bodies)))
cleanup-Inv_example = cleanup-Inv 101 full full-Inv

process-erase_all_example :
    (views : List PictureView) × (process full
      ≡ ok (erase_all (from_complete full (visited full)) full, views))
    × (length views ≡ 11 * all_posts full (visited full))
process-erase_all_example = process-erase_all full full-Inv

-- Object 6 is not complete, and its pictures go with those of object 5.
both_erased :
    erase_all (from_complete full (visited full)) full ≡ record { bodies = []; faces = [] }
unfolding paired
both_erased = refl

abbrev create : List PictureView → Previews → Previews
create views p = create_preview 101 none (λ t. some t) views p

add_picture-Leaves_example :
    Leaves
      (has_place (shot 6 4))
      (new_previews 3)
      (add_picture 101 create (shot 6 4) full (new_previews 3))
add_picture-Leaves_example = add_picture-Leaves 101 create (shot 6 4) full (new_previews 3) full-Inv

-- Thread 0 has stored a face, thread 1 a body picture, and neither has posted.
abbrev two_pictures : ℕ → Wrapper
two_pictures zero = picture 5 0 face 100
two_pictures (suc i) = shot 5 0

abbrev after_steps : List ℕ → System → System
after_steps [] s = s
after_steps (i ∷ is) s =
    advanced (after_steps is s) i
      (advance 101 create ((after_steps is s).phase i) (after_steps is s).shared)

steps-Reach : (is : List ℕ) → Reach 3 two_pictures (after_steps is (begin 3 two_pictures))
steps-Reach [] = start
steps-Reach (i ∷ is) = later (steps-Reach is) (run i 101 create)

abbrev order : List ℕ
order = 1 ∷ 0 ∷ 1 ∷ 0 ∷ []

Reach-Safe_example : Safe (after_steps order (begin 3 two_pictures))
Reach-Safe_example = Reach-Safe {limit = 3} {pictures = two_pictures} (steps-Reach order)

both_stored :
    (is_stored ((after_steps order (begin 3 two_pictures)).phase 0) ≡ true)
    × (is_stored ((after_steps order (begin 3 two_pictures)).phase 1) ≡ true)
unfolding advance store cleanup new_cache
both_stored = (refl, refl)

-- The cache with one more picture of object 6, which is not complete with it either.
abbrev stored : Cache
stored = (store (shot 6 3) (cleanup 101 full)).0

add_picture-create_example :
    (add_picture 101 create (shot 6 3) full (new_previews 3) ≡ (
      erase_all (from_complete stored (visited stored)) stored,
      if is_empty (all_views (visited stored) stored)
          then new_previews 3
          else create (all_views (visited stored) stored) (new_previews 3),
      ok tt,
    ))
    × (length (all_views (visited stored) stored) ≡ 11 * all_posts stored (visited stored))
add_picture-create_example =
    add_picture-create 101 create (shot 6 3) full (new_previews 3) full-Inv refl
