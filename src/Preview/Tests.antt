-- ===== src/Preview/Tests.antt =====
-- A store that gets two previews, and the theorems at it.
use beast_examples.Preview.History.{Creation, AllFresh, create_all, made_by, collect-create_all}
use beast_examples.Preview.Holding.{Found, at_most, since}
use beast_examples.Common.{
  [], ℕ, ◌+◌, ◌*◌, ◌≡◌, refl, true, if◌then◌else◌, ltb, List, [], ◌∷◌, take, drop, Text, codes,
  Option, none, some, ok, text_eq,
}
use beast_examples.Common.Assoc.{lookup}
use beast_examples.Json.{JsonLib}
use beast_examples.Json.Sample.{sample, str}
use beast_examples.Http.{Request, get}
use beast_examples.Preview.Defs.{
  PictureView, Pictures, Previews, new_previews, new_pictures, create_preview, collect,
  get_snap_mask, trim, snap,
}
use beast_examples.Preview.Store.{create_preview-Inv}
use beast_examples.Preview.Trimming.{Inv, new-Inv}
use beast_examples.Preview.Mask.{new_pictures-take-drop, get_snap_mask-bits, bit, has_snap}

abbrev view : Text → PictureView
view t = record { bytes = t }

abbrev views : List PictureView
views =
    view (codes "s0")
    ∷ view []
    ∷ view (codes "s2")
    ∷ view (codes "s3")
    ∷ view (codes "s4")
    ∷ view (codes "t0")
    ∷ []

abbrev names : Text → Option Text
names t = some t

-- After the first preview, under the name `a`.
abbrev one : Previews
one = create_preview 1 (some (codes "a")) names views (new_previews 3)

one_ids : one.ids ≡ codes "a" ∷ []
unfolding create_preview trim new_previews
one_ids = refl

one-Inv : Inv one
unfolding new_previews
one-Inv = (create_preview-Inv 1 (some (codes "a")) names views (new_previews 3) (new-Inv 3) refl).0

create_preview-Inv_example :
    let t = create_preview 2 (some (codes "b")) names views one in
    Inv t
    × (t.ids ≡ take one.cache_limit (codes "b" ∷ one.ids))
    × (t.cache_limit ≡ one.cache_limit)
    × (lookup (codes "b") t.pictures
        ≡ (if ltb 0 one.cache_limit then some (new_pictures (codes "b") 2 views) else none))
create_preview-Inv_example =
    create_preview-Inv 2 (some (codes "b")) names views one one-Inv (rw one_ids)

new_pictures-take-drop_example :
    new_pictures (codes "a") 1 views
    ≡ record { uuid = codes "a"; timestamp = 1; snaps = take 5 views; tracks = drop 5 views }
new_pictures-take-drop_example = new_pictures-take-drop (codes "a") 1 views

abbrev pictures : Pictures
pictures = record {
  uuid = codes "a";
  timestamp = 1;
  snaps = view (codes "s0") ∷ view [] ∷ view (codes "s2") ∷ [];
  tracks = [];
}

get_snap_mask-bits_example :
    get_snap_mask pictures
    ≡ bit (has_snap pictures 0)
      + 2 * bit (has_snap pictures 1)
      + 4 * bit (has_snap pictures 2)
      + 8 * bit (has_snap pictures 3)
      + 16 * bit (has_snap pictures 4)
get_snap_mask-bits_example = get_snap_mask-bits pictures

-- Snaps 0 and 2 have data.
mask_of_pictures : get_snap_mask pictures ≡ 5
unfolding get_snap_mask snap
mask_of_pictures = refl

-- Three previews for a store of two.
abbrev three : List Creation
three =
    record { now = 1; random = some (codes "a"); views = views }
    ∷ record { now = 2; random = some (codes "b"); views = views }
    ∷ record { now = 3; random = some (codes "c"); views = views }
    ∷ []

three-AllFresh : AllFresh names three (new_previews 2)
unfolding create_preview trim new_previews
three-AllFresh = (refl, (refl, (refl, tt)))

collect-create_all_example :
    let t = create_all names three (new_previews 2) in
    let kept = take 2 (made_by names three (new_previews 2) []) in
    Found t.pictures kept
    × (collect (codes "b") 10 t.pictures 0 t.ids ≡ ok (at_most 10 (since (codes "b") kept)))
collect-create_all_example = collect-create_all names 2 three (codes "b") 10 three-AllFresh

abbrev plain : JsonLib
plain = sample (λ j. ok (codes "{}")) (λ t. ok (str t))

abbrev request : Request
request = record {
  method = get;
  target = codes "/b/tracks/0";
  version = 11;
  keep_alive = true;
  body = [];
}

abbrev parts : Text → List Text
parts t = codes "b" ∷ codes "tracks" ∷ codes "0" ∷ []

abbrev number : Text → ℕ → ℕ
number t default = 0
