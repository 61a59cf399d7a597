-- ===== src/Preview/Serving.antt =====
-- The JSON of a preview, and the requests for a picture (src/PicturePreviewHandler.cpp).
use beast_examples.Common.{
  ℕ, ◌+◌, ◌-◌, ◌%◌, ◌^◌, ◌==◌, text_eq, List, [], ◌∷◌, map, length, get_elem?, Text, codes,
  if◌then◌else◌, Result, ok, throw, ◌>>=◌, catch, or_throw, out_of_range, what,
}
use beast_examples.Json.{JsonLib}
use beast_examples.Http.{Request, Response, status_ok, text, is_get}
use beast_examples.Utils.{
  server_signature, create_json_bad_request, create_json_not_found, create_json_server_error,
}
use beast_examples.Preview.Defs.{
  PictureView, Pictures, Previews, snap, track, num_of_tracks, get_snap_mask, get_snap_urls,
  get_track_urls, collect, at_id,
}

module _ (J : JsonLib) where
  open J use {Json, of_text, of_nat, object, array}

  -- `to_json` of one preview
  unfoldable pub to_json : Pictures → Json
  to_json ps = object (
      (codes "uuid", of_text ps.uuid)
      ∷ (codes "timestamp", of_nat ps.timestamp)
      ∷ (
        codes "snaps",
        object (
            (codes "mask", of_nat (get_snap_mask ps))
            ∷ (codes "pictures", array (map of_text (get_snap_urls ps)))
            ∷ []),
      )
      ∷ (
        codes "tracks",
        object (
            (codes "num", of_nat (num_of_tracks ps))
            ∷ (codes "pictures", array (map of_text (get_track_urls ps)))
            ∷ []),
      )
      ∷ [])

  unfoldable pub list_preview : Text → ℕ → Previews → Result Json
  list_preview prev limit s = do
    pics ← collect prev limit s.pictures 0 s.ids
    ok (object ((codes "pictures", array (map to_json pics)) ∷ []))

-- `getPicture`, the picture that a path names
unfoldable pub get_picture : Text → Text → ℕ → Previews → Result PictureView
get_picture uuid name index s =
    if name == codes "snaps"
    then (at_id uuid s.pictures >>= λ ps. ok (snap ps index))
    else if name == codes "tracks"
    then (at_id uuid s.pictures >>= λ ps. ok (track ps index))
    else throw (out_of_range [])

-- `paths.at(paths.size() - k)`: for too short a list the index wraps round, past the end.
abbrev pub at_back : ℕ → List Text → Result Text
at_back k paths =
    or_throw (get_elem? paths ((length paths + 2 ^ 64 - k) % 2 ^ 64))
      (out_of_range (codes "vector::at"))

abbrev pub picture_response : Request → PictureView → Response
picture_response req v = record {
  status = status_ok;
  version = req.version;
  server = server_signature;
  content_type = codes "image/jpeg";
  keep_alive = req.keep_alive;
  content_length = length v.bytes;
  body = text v.bytes;
}

-- `split` cuts at slashes; `convert` is the index that `try_lexical_convert` leaves in a variable.
module _ (J : JsonLib) (split : Text → List Text) (convert : Text → ℕ → ℕ) where
  -- The last part of `visitPreview`, with its `catch` clause.
  abbrev pub found_or_not : Request → Result PictureView → Result Response
  found_or_not req (ok v) = ok (picture_response req v)
  found_or_not req (throw (out_of_range _)) = create_json_not_found J req req.target
  found_or_not req (throw e) = throw e

  -- `visitPreview` behind the splitting of the path.
  unfoldable pub visit_parts : List Text → Request → Previews → Result Response
  visit_parts paths req s = do
    last ← at_back 1 paths
    let index = convert last 0
    name ← at_back 2 paths
    uuid ← at_back 3 paths
    found_or_not req (get_picture uuid name index s)

  unfoldable pub visit_preview : Request → Previews → Result Response
  unfolding visit_parts
  visit_preview req s = visit_parts (split req.target) req s

  unfoldable pub handle_request : Request → Previews → Result Response
  unfolding visit_preview
  handle_request req s =
      if is_get req.method
      then catch (visit_preview req s) (λ e. create_json_server_error J req (what e))
      else create_json_bad_request J req (codes "Unsupported method.")
