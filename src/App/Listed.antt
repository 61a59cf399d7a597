-- ===== src/App/Listed.antt =====
-- The addresses that a preview lists, fetched from the whole server (src/PicturePreviewHandler.cpp).
use beast_examples.Common.{
  ℕ, ◌≤◌, ◌<◌, ◌≡◌, refl, ◌∙◌, true, not, map, take, length, reject, Text, codes, some, Result, ok,
  text_eq, arith,
}
use beast_examples.Common.Assoc.{lookup}
use beast_examples.Http.{Request, Response, is_get}
use beast_examples.Preview.Defs.{
  PictureView, Pictures, track, snap, has_data, picture_url, get_track_urls, get_snap_urls,
}
use beast_examples.Preview.Serving.{picture_response}
use beast_examples.Preview.Urls.{
  Splits, Converts, IsSegment, fetch_track, fetch_snap, tracks_from, snaps_from,
}
use beast_examples.App.{Outside, App, handler}
use beast_examples.App.Fetching.{Routed, handler-IsPicturePath}

module _ (E : Outside) (root : Text) (req : Request) (s : App) where
  -- The server's answer to a request for an address, through its router.
  abbrev pub fetched : Text → Result Response
  fetched url = (handler E root url (record req { target = url }) s).1

  abbrev pub shown_as : PictureView → Result Response
  shown_as v = ok (picture_response req v)

  -- The addresses that are listed for a stored preview, fetched in their order from the whole server,
  -- through its router: the first ten addresses of the tracks give the first ten tracks, and the
  -- addresses of the snaps, of which there are at most ten, give the snaps that have data. (The
  -- identifier is no empty text and has no slash, the patterns of the table match as in `Routed`, a
  -- path is cut at its slashes, and a decimal number is read back.)
  pub fetched-get_urls :
      (ps : Pictures)
      → Splits E.split
      → Converts E.convert
      → Routed E.matches ps.uuid
      → IsSegment ps.uuid
      → is_get req.method ≡ true
      → lookup ps.uuid s.previews.pictures ≡ some ps
      → length ps.snaps ≤ 10
      → (map fetched (take 10 (get_track_urls ps)) ≡ map shown_as (take 10 ps.tracks))
        × (map fetched (get_snap_urls ps) ≡ map shown_as (reject (λ v. not (has_data v)) ps.snaps))
  unfolding get_track_urls get_snap_urls
  fetched-get_urls ps splits converts routed named got stored few =
      let tracks : (i : ℕ)
          → i < 10
          → fetched (picture_url ps.uuid (codes "/tracks/") i) ≡ shown_as (track ps i) =
        λ i small.
          handler-IsPicturePath E root _ _ s (routed i small).0
          ∙ fetch_track E.json E.split E.convert req s.previews ps splits converts got stored named
              i (omega arith) in
      let snaps : (i : ℕ)
          → i < 10
          → fetched (picture_url ps.uuid (codes "/snaps/") i) ≡ shown_as (snap ps i) =
        λ i small.
          handler-IsPicturePath E root _ _ s (routed i small).1
          ∙ fetch_snap E.json E.split E.convert req s.previews ps splits converts got stored named i
              (omega arith) in
      (
        tracks_from req ps 10 fetched tracks snaps 10 0 ps.tracks refl (omega arith),
        snaps_from req ps 10 fetched tracks snaps 0 ps.snaps refl (omega arith),
      )
