-- ===== src/Preview/Defs.antt =====
-- The classes of src/PicturePreviewHandler.cpp and their operations on the stored previews.
use beast_examples.Common.{
  ℕ, zero, suc, ◌+◌, ◌*◌, ◌%◌, ◌^◌, Bool, ◌&&◌, ◌||◌, if◌then◌else◌, ltb, leb, ◌==◌, text_eq, List,
  [], ◌∷◌, ◌++◌, length, take, get_elem?, get_last?, drop_last, Text, codes, Option, none, some,
  Result, ok, ◌>>=◌, or_throw, out_of_range,
}
use Prim.Native.Nat.{bit_or}
use beast_examples.Common.Assoc.{lookup, emplace, erase}
use beast_examples.Common.Decimal.{to_string}
use beast_examples.Picture.{PostPicture, bytes_of}

pub record PictureView : Type 0 where
  pub bytes : Text

-- `PictureView(const PostPicture&)`
abbrev pub view_of : PostPicture → PictureView
view_of p = record { bytes = take p.size (bytes_of p) }

pub record Pictures : Type 0 where
  pub uuid : Text
  pub timestamp : ℕ
  pub snaps : List PictureView
  pub tracks : List PictureView

abbrev pub snaps_len : ℕ
snaps_len = 5

-- The loop of the constructor: the first views are snaps, the rest tracks.
unfoldable pub place : ℕ → List PictureView → Pictures → Pictures
place index [] ps = ps
place index (v ∷ vs) ps = place (index + 1) vs (
    if ltb index snaps_len
    then record ps { snaps = ps.snaps ++ v ∷ [] }
    else record ps { tracks = ps.tracks ++ v ∷ [] })

unfoldable pub new_pictures : Text → ℕ → List PictureView → Pictures
unfolding place
new_pictures uuid now vs =
    place 0 vs (record { uuid = uuid; timestamp = now; snaps = []; tracks = [] })

-- `vector::at` inside a handler of `out_of_range` that returns an empty picture.
abbrev pub view_or_empty : Option PictureView → PictureView
view_or_empty none = record { bytes = [] }
view_or_empty (some v) = v

unfoldable pub snap : Pictures → ℕ → PictureView
snap ps index = view_or_empty (get_elem? ps.snaps index)

unfoldable pub track : Pictures → ℕ → PictureView
track ps index = view_or_empty (get_elem? ps.tracks index)

abbrev pub num_of_tracks : Pictures → ℕ
num_of_tracks ps = length ps.tracks

abbrev pub has_data : PictureView → Bool
has_data v = ltb 0 (length v.bytes)

-- The loop of `getSnapMask`, with the rounds left, the index, the current bit and the mask.
unfoldable pub mask_from : ℕ → ℕ → ℕ → ℕ → Pictures → ℕ
mask_from zero i curr mask ps = mask
mask_from (suc rounds) i curr mask ps =
    mask_from rounds (i + 1) (curr * 2) (if has_data (snap ps i) then bit_or mask curr else mask) ps

unfoldable pub get_snap_mask : Pictures → ℕ
unfolding mask_from
get_snap_mask ps = mask_from 5 0 1 0 ps

abbrev pub picture_url : Text → Text → ℕ → Text
picture_url uuid kind i =
    codes "/api/v1/realtime/preview/picture/" ++ (uuid ++ (kind ++ to_string i))

-- The loop of `getTrackUrls`, from index `i` on.
unfoldable pub track_urls_from : Text → ℕ → List PictureView → List Text
track_urls_from uuid i [] = []
track_urls_from uuid i (v ∷ vs) =
    picture_url uuid (codes "/tracks/") i ∷ track_urls_from uuid (i + 1) vs

unfoldable pub get_track_urls : Pictures → List Text
unfolding track_urls_from
get_track_urls ps = track_urls_from ps.uuid 0 ps.tracks

-- The loop of `getSnapUrls`, which leaves out a picture without data.
unfoldable pub snap_urls_from : Text → ℕ → List PictureView → List Text
snap_urls_from uuid i [] = []
snap_urls_from uuid i (v ∷ vs) =
    let rest = snap_urls_from uuid (i + 1) vs in
    if has_data v then picture_url uuid (codes "/snaps/") i ∷ rest else rest

unfoldable pub get_snap_urls : Pictures → List Text
unfolding snap_urls_from
get_snap_urls ps = snap_urls_from ps.uuid 0 ps.snaps

-- The state of `PicturePreviewHandler`; the newest identifier comes first.
pub record Previews : Type 0 where
  pub cache_limit : ℕ
  pub ids : List Text
  pub pictures : List (Text × Pictures)
  pub seq : ℕ

unfoldable pub new_previews : ℕ → Previews
new_previews limit = record { cache_limit = limit; ids = []; pictures = []; seq = 0 }

-- The identifier of a new preview: at random, or else from the sequence number; `none` stands for
-- an exception of the generator.
abbrev pub choose_id : Option Text → (Text → Option Text) → ℕ → Text
choose_id (some uuid) generate seq = uuid
choose_id none generate seq = elim (generate (to_string seq)) [
  | some uuid ↦ uuid
  | none ↦ to_string seq
]

-- `while(ids.size() > cacheLimit)`: the oldest preview goes. The fuel is the number of identifiers.
unfoldable pub trim : ℕ → Previews → Previews
trim zero s = s
trim (suc fuel) s =
    let rest = trim fuel (record s {
      ids = drop_last s.ids;
      pictures = elim (get_last? s.ids) [ none ↦ s.pictures | some old ↦ erase old s.pictures ];
    }) in
    if ltb s.cache_limit (length s.ids) then rest else s

-- `createPreview`, with the time and the outcome of the random generator.
unfoldable pub create_preview :
    ℕ → Option Text → (Text → Option Text) → List PictureView → Previews → Previews
unfolding new_pictures trim
create_preview now random generate views s =
    let seq' = (s.seq + 1) % 2 ^ 64 in
    let uuid = choose_id random generate seq' in
    let s' = record s {
      seq = seq';
      pictures = emplace uuid (new_pictures uuid now views) s.pictures;
      ids = uuid ∷ s.ids;
    } in
    trim (length s'.ids) s'

-- `pictures.at(uuid)`
abbrev pub at_id : Text → List (Text × Pictures) → Result Pictures
at_id uuid m = or_throw (lookup uuid m) (out_of_range (codes "unordered_map::at"))

-- The loop of `listPreview`, with the number of previews listed so far.
unfoldable pub collect : Text → ℕ → List (Text × Pictures) → ℕ → List Text → Result (List Pictures)
collect prev limit m n [] = ok []
collect prev limit m n (uuid ∷ ids) =
    let rest = collect prev limit m (n + 1) ids in
    if uuid == prev || (ltb 0 limit && leb limit n)
    then ok []
    else (at_id uuid m >>= λ ps. rest >>= λ pss. ok (ps ∷ pss))
