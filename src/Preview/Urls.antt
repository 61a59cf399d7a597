-- ===== src/Preview/Urls.antt =====
-- The handler of pictures at the addresses that a preview lists (src/PicturePreviewHandler.cpp).
use beast_examples.Common.{
  ℕ, zero, suc, ◌+◌, ◌^◌, ◌≤◌, ◌<◌, ◌≡◌, refl, ap, ◌∙◌, Bool, true, false, text_eq, nat_eqb, not,
  List, [], ◌∷◌, ◌++◌, map, length, take, drop, reject, get_elem?, is_empty, any, All, Text, codes,
  some, arith, append-nil, Bool-cases, inl, inr, Result, ok, append_assoc,
}
use beast_examples.Common.Assoc.{lookup}
use beast_examples.Common.Decimal.{to_string, IsDigit, to_string-IsDigit, to_string-nonempty}
use beast_examples.Json.{JsonLib}
use beast_examples.Http.{Request, Response, is_get}
use beast_examples.Preview.Defs.{
  PictureView, Pictures, Previews, snap, track, has_data, picture_url, track_urls_from,
  snap_urls_from,
}
use beast_examples.Preview.Serving.{
  get_picture, visit_parts, visit_preview, handle_request, picture_response,
}

abbrev pub is_slash : ℕ → Bool
is_slash c = nat_eqb c b'/'

-- A part of a path: not empty, and without a slash.
abbrev pub IsSegment : Text → Type 0
IsSegment t = (is_empty t ≡ false) × (any is_slash t ≡ false)

-- The path of some parts.
abbrev pub path_of : List Text → Text
path_of [] = []
path_of (t ∷ ts) = b'/' ∷ t ++ path_of ts

-- `boost::split` at slashes gives the parts of a path, behind the empty text before its first slash.
abbrev pub Splits : (Text → List Text) → Type 0
Splits split = (ts : List Text) → All IsSegment ts → split (path_of ts) ≡ [] ∷ ts

-- `try_lexical_convert` reads what `std::to_string` writes.
abbrev pub Converts : (Text → ℕ → ℕ) → Type 0
Converts convert = (n default : ℕ) → n < 2 ^ 64 → convert (to_string n) default ≡ n

digits-no_slash : (t : Text) → All IsDigit t → any is_slash t ≡ false
digits-no_slash [] h = refl
digits-no_slash (c ∷ t) (d, h) = ground (arith, digits-no_slash t h)

to_string-IsSegment : (n : ℕ) → IsSegment (to_string n)
to_string-IsSegment n = (to_string-nonempty n, digits-no_slash (to_string n) (to_string-IsDigit n))

drop_next :
    (n : ℕ) (v : PictureView) (xs vs : List PictureView)
    → drop n xs ≡ v ∷ vs
    → (get_elem? xs n ≡ some v) × (drop (n + 1) xs ≡ vs)
drop_next zero v xs vs h = rw h (refl, refl)
drop_next (suc n) v [] vs h = cc
drop_next (suc n) v (x ∷ xs) vs h =
    let (e, f) = drop_next n v xs vs h in
    (e, ap (λ k. drop k (x ∷ xs)) {x = suc n + 1} {y = suc (n + 1)} (omega arith) ∙ f)

-- The answer to a request for an address.
abbrev pub fetched :
    JsonLib → (Text → List Text) → (Text → ℕ → ℕ) → Request → Previews → Text → Result Response
fetched J split convert req s url = handle_request J split convert (record req { target = url }) s

module _ (J : JsonLib) (split : Text → List Text) (convert : Text → ℕ → ℕ) (req : Request)
    (s : Previews) (ps : Pictures) (splits : Splits split) (converts : Converts convert)
    (got : is_get req.method ≡ true) (stored : lookup ps.uuid s.pictures ≡ some ps)
    (named : IsSegment ps.uuid) where
  abbrev response_to : Text → Result Response
  response_to = fetched J split convert req s

  url_parts :
      (kind : Text) (i : ℕ)
      → IsSegment kind
      → split (picture_url ps.uuid (b'/' ∷ kind ++ codes "/") i)
        ≡ []
          ∷ codes "api"
          ∷ codes "v1"
          ∷ codes "realtime"
          ∷ codes "preview"
          ∷ codes "picture"
          ∷ ps.uuid
          ∷ kind
          ∷ to_string i
          ∷ []
  url_parts kind i h = rw (append_assoc kind (codes "/") (to_string i)) (
      rw (append-nil (to_string i)) at (
        splits
          (codes "api"
            ∷ codes "v1"
            ∷ codes "realtime"
            ∷ codes "preview"
            ∷ codes "picture"
            ∷ ps.uuid
            ∷ kind
            ∷ to_string i
            ∷ [])
          (
            (refl, refl),
            (
              (refl, refl),
              (
                (refl, refl),
                ((refl, refl), ((refl, refl), (named, (h, (to_string-IsSegment i, tt))))),
              ),
            ),
          )))

  pub fetch_track :
      (i : ℕ)
      → i < 2 ^ 64
      → response_to (picture_url ps.uuid (codes "/tracks/") i)
        ≡ ok (picture_response req (track ps i))
  unfolding handle_request visit_preview visit_parts get_picture
  fetch_track i small =
      rw (got, url_parts (codes "tracks") i (refl, refl), converts i 0 small, stored)

  pub fetch_snap :
      (i : ℕ)
      → i < 2 ^ 64
      → response_to (picture_url ps.uuid (codes "/snaps/") i)
        ≡ ok (picture_response req (snap ps i))
  unfolding handle_request visit_preview visit_parts get_picture
  fetch_snap i small =
      rw (got, url_parts (codes "snaps") i (refl, refl), converts i 0 small, stored)

-- Let `f` answer the first `k` addresses of the tracks and of the snaps with their pictures.
module _ (req : Request) (ps : Pictures) (k : ℕ) (f : Text → Result Response)
    (tracks : (i : ℕ)
      → i < k
      → f (picture_url ps.uuid (codes "/tracks/") i) ≡ ok (picture_response req (track ps i)))
    (snaps : (i : ℕ)
      → i < k
      → f (picture_url ps.uuid (codes "/snaps/") i) ≡ ok (picture_response req (snap ps i))) where
  pub tracks_from :
      (m i : ℕ) (vs : List PictureView)
      → drop i ps.tracks ≡ vs
      → i + m ≤ k
      → map f (take m (track_urls_from ps.uuid i vs))
        ≡ map (λ v. ok (picture_response req v)) (take m vs)
  unfolding track_urls_from track
  tracks_from zero i vs h room = refl
  tracks_from (suc m) i [] h room = refl
  tracks_from (suc m) i (v ∷ vs) h room =
      let (here, next) = drop_next i v ps.tracks vs h in
      rw (tracks i (omega arith), here)
        (ap (◌∷◌ (ok (picture_response req v))) (tracks_from m (i + 1) vs next (omega arith)))

  pub snaps_from :
      (i : ℕ) (vs : List PictureView)
      → drop i ps.snaps ≡ vs
      → i + length vs ≤ k
      → map f (snap_urls_from ps.uuid i vs)
        ≡ map (λ v. ok (picture_response req v)) (reject (λ v. not (has_data v)) vs)
  unfolding snap_urls_from snap
  snaps_from i [] h room = refl
  snaps_from i (v ∷ vs) h room =
      let (here, next) = drop_next i v ps.snaps vs h in
      let rest = snaps_from (i + 1) vs next (omega arith) in
      elim (Bool-cases (has_data v)) [
        | inl full ↦
            rw full (rw (snaps i (omega arith), here) (ap (◌∷◌ (ok (picture_response req v))) rest))
        | inr empty ↦ rw empty rest
      ]
