-- ===== src/Preview/Fetch.antt =====
-- What a request for a picture is answered with (src/PicturePreviewHandler.cpp).
use beast_examples.Common.{
  Bool, ℕ, ◌+◌, ◌<◌, ◌≡◌, ◌∙◌, ◌⊎◌, inl, inr, true, false, text_eq, List, [], ◌∷◌, ◌++◌, length,
  get_elem?, Text, codes, Option, none, some, Result, ok, throw, Exn, get_elem?-take,
  get_elem?-drop,
}
use beast_examples.Json.{JsonLib}
use beast_examples.Http.{
  text, Request, Response, status_ok, bad_request, not_found, internal_server_error, is_get,
}
use beast_examples.JsonApi.Laws.{IsReply, IsErrorText}
use beast_examples.Preview.Defs.{PictureView, Previews, snap, track, create_preview}
use beast_examples.Preview.Mask.{new_pictures-take-drop}
use beast_examples.Preview.Store.{next_id, lookup-create_preview}
use beast_examples.Preview.Trimming.{Inv, contains}
use beast_examples.Preview.Serving.{
  get_picture, visit_parts, visit_preview, handle_request, picture_response,
}

-- A reply to `req` that carries the picture `v`.
pub record IsPicture (req : Request) (v : PictureView) (res : Response) : Type 0 where
  pub status : res.status ≡ status_ok
  pub version : res.version ≡ req.version
  pub typed : res.content_type ≡ codes "image/jpeg"
  pub kept : res.keep_alive ≡ req.keep_alive
  pub sized : res.content_length ≡ length v.bytes
  pub filled : res.body ≡ text v.bytes

module _ (J : JsonLib) (split : Text → List Text) (convert : Text → ℕ → ℕ) where
  -- The picture that the last three parts of a path ask for (identifier, kind, index).
  abbrev pub parts_picture : Previews → List Text → Option (Result PictureView)
  parts_picture s [] = none
  parts_picture s (a ∷ []) = none
  parts_picture s (a ∷ b ∷ []) = none
  parts_picture s (uuid ∷ name ∷ last ∷ []) = some (get_picture uuid name (convert last 0) s)
  parts_picture s (a ∷ b ∷ c ∷ d ∷ more) = parts_picture s (b ∷ c ∷ d ∷ more)

  -- The reply to a request, for a method that is GET or not, and the picture that is asked for.
  abbrev pub Answers : Bool → Request → Option (Result PictureView) → Response → Type 0
  Answers false req found res =
      (payload : Text) × IsReply req bad_request payload res
      × IsErrorText J (codes "Unsupported method.") payload
  Answers true req none res = (payload : Text) × IsReply req internal_server_error payload res
  Answers true req (some (throw e)) res =
      (payload : Text) × IsReply req not_found payload res
      × IsErrorText J (req.target ++ codes " not found") payload
  Answers true req (some (ok v)) res = IsPicture req v res

  -- The picture's response, or the error that leaves `visitPreview`.
  abbrev Visited : Request → Previews → List Text → Result Response → Type 0
  Visited req s paths r =
      ((res : Response) × (r ≡ ok res) × Answers true req (parts_picture s paths) res)
      ⊎ ((e : Exn) × (r ≡ throw e) × (parts_picture s paths ≡ none))

  -- What is stored can be fetched: after `createPreview` under a new identifier, a GET for snap or
  -- track `i` of that preview is answered with 200, `image/jpeg` and the bytes of view `i`, or
  -- `5 + i`, of those it was created from.
  handle_request-create_preview :
      (now : ℕ) (random : Option Text) (generate : Text → Option Text) (views : List PictureView)
      (s : Previews) (req : Request) (name last : Text) (v : PictureView)
      → Inv s
      → 0 < s.cache_limit
      → contains (next_id now random generate views s) s.ids ≡ false
      → is_get req.method ≡ true
      → split req.target ≡ next_id now random generate views s ∷ name ∷ last ∷ []
      → ((name ≡ codes "snaps")
          × (convert last 0 < 5)
          × (get_elem? views (convert last 0) ≡ some v))
        ⊎ ((name ≡ codes "tracks") × (get_elem? views (5 + convert last 0) ≡ some v))
      → handle_request J split convert req (create_preview now random generate views s)
        ≡ ok (picture_response req v)
  unfolding handle_request visit_preview visit_parts get_picture snap track
  handle_request-create_preview now random generate views s req name last v inv room fresh got path
        choice =
      let found = lookup-create_preview now random generate views s inv room fresh in
      elim choice [
        | inl (n, small, e) ↦
            let nth = get_elem?-take 5 (convert last 0) views small ∙ e in
            rw (got, path, n, found, new_pictures-take-drop, nth)
        | inr (n, e) ↦
            let nth = get_elem?-drop 5 (convert last 0) views ∙ e in
            rw (got, path, n, found, new_pictures-take-drop, nth)
      ]
