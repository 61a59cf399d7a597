-- ===== src/Preview/Sources.antt =====
-- Where the pictures that are served come from (src/PicturePreviewHandler.cpp).
use beast_examples.Common.{
  ℕ, zero, suc, ◌+◌, ◌%◌, ◌^◌, ◌≡◌, ◌⊎◌, refl, Bool-cases, Option-cases, inl, inr, ltb, List, [],
  ◌∷◌, ◌++◌, length, get_elem?, get_last?, Text, text_eq, ◌==◌, Option, none, some, Result, ok,
  throw, ◌>>=◌, All, All-append, All-get_elem?, All-emplace, All-erase, All-lookup, Gives, ok-Gives,
  throw-Gives, bind-Gives, next-Gives, catch-Gives, or_throw-Gives, out_of_range, no_resource,
  runtime_error, json_parse_error, json_type_error, json_out_of_range, what, codes,
}
use beast_examples.Common.Assoc.{lookup, emplace, erase}
use beast_examples.Json.{JsonLib}
use beast_examples.Http.{
  Request, Response, Status, status_ok, bad_request, not_found, internal_server_error, text, is_get,
}
use beast_examples.Utils.{
  json_response, create_json_bad_request, create_json_not_found, create_json_server_error,
}
use beast_examples.Preview.Defs.{
  PictureView, Pictures, Previews, place, snaps_len, new_pictures, view_or_empty, snap, track, trim,
  create_preview, choose_id, at_id,
}
use beast_examples.Preview.Serving.{
  get_picture, at_back, picture_response, found_or_not, visit_parts, visit_preview, handle_request,
}

module _ (V : PictureView → Type 0) where
  abbrev pub Showing : Pictures → Type 0
  Showing ps = All V ps.snaps × All V ps.tracks

  -- All pictures of all previews are as `V` says.
  abbrev pub Stored : Previews → Type 0
  Stored p = All (λ entry. Showing entry.1) p.pictures

  place-Showing :
      (index : ℕ) (vs : List PictureView) (ps : Pictures)
      → All V vs
      → Showing ps
      → Showing (place index vs ps)
  unfolding place
  place-Showing index [] ps h k = k
  place-Showing index (v ∷ vs) ps (g, h) (s, t) = elim (Bool-cases (ltb index snaps_len)) [
    | inl front ↦
        rw (front, place)
          (place-Showing (index + 1) vs (record ps { snaps = ps.snaps ++ v ∷ [] }) h
            (All-append V ps.snaps (v ∷ []) s (g, tt), t))
    | inr behind ↦
        rw (behind, place)
          (place-Showing (index + 1) vs (record ps { tracks = ps.tracks ++ v ∷ [] }) h
            (s, All-append V ps.tracks (v ∷ []) t (g, tt)))
  ]

  trim-Stored : (fuel : ℕ) (p : Previews) → Stored p → Stored (trim fuel p)
  unfolding trim
  trim-Stored zero p h = h
  trim-Stored (suc fuel) p h = elim (Bool-cases (ltb p.cache_limit (length p.ids))) [
    | inr fits ↦ rw fits h
    | inl long ↦ rw long (trim-Stored fuel _ (without (get_last? p.ids)))
  ]
    where
      without :
          (old : Option Text)
          → All
              (λ entry. Showing entry.1)
              (elim old [ none ↦ p.pictures | some id ↦ erase id p.pictures ])
      without none = h
      without (some id) = All-erase (λ entry. Showing entry.1) id p.pictures h

  pub create_preview-Stored :
      (now : ℕ) (random : Option Text) (generate : Text → Option Text) (views : List PictureView)
      (p : Previews)
      → All V views
      → Stored p
      → Stored (create_preview now random generate views p)
  unfolding create_preview new_pictures
  create_preview-Stored now random generate views p vs h =
      let seq' = (p.seq + 1) % 2 ^ 64 in
      let uuid = choose_id random generate seq' in
      let new : Pictures = record { uuid = uuid; timestamp = now; snaps = []; tracks = [] } in
      let q : Previews = record p {
        seq = seq';
        pictures = emplace uuid (new_pictures uuid now views) p.pictures;
        ids = uuid ∷ p.ids;
      } in
      trim-Stored (length q.ids) q (
        All-emplace (λ entry. Showing entry.1) uuid (new_pictures uuid now views) p.pictures
          (place-Showing 0 views new vs (tt, tt)) h)

  -- A picture that is stored, or the empty one.
  abbrev pub Shown : PictureView → Type 0
  Shown v = V v ⊎ (v.bytes ≡ [])

  view-Shown : (i : ℕ) (vs : List PictureView) → All V vs → Shown (view_or_empty (get_elem? vs i))
  view-Shown i vs h = elim (Option-cases (get_elem? vs i)) [
    | inl gone ↦ rw gone (inr refl)
    | inr (v, e) ↦ rw e (inl (All-get_elem? V i vs v h e))
  ]

  at_id-Gives : (id : Text) (p : Previews) → Stored p → Gives Showing (at_id id p.pictures)
  at_id-Gives id p h =
      or_throw-Gives Showing (lookup id p.pictures) _
        (λ ps. All-lookup (λ entry. Showing entry.1) id ps p.pictures h)

  get_picture-Gives :
      (id name : Text) (i : ℕ) (p : Previews) → Stored p → Gives Shown (get_picture id name i p)
  unfolding get_picture snap track
  get_picture-Gives id name i p h = elim (Bool-cases (name == codes "snaps")) [
    | inl snaps ↦ rw snaps (
        bind-Gives Showing Shown _ _ (at_id-Gives id p h)
          (λ ps k. ok-Gives Shown _ (view-Shown i ps.snaps (k.0))))
    | inr other ↦ elim (Bool-cases (name == codes "tracks")) [
      | inl tracks ↦
          rw (other, tracks)
            (bind-Gives Showing Shown _ _ (at_id-Gives id p h)
              (λ ps k. ok-Gives Shown _ (view-Shown i ps.tracks (k.1))))
      | inr neither ↦ rw (other, neither) (throw-Gives Shown _)
    ]
  ]

  -- The response is an error, or its body is a picture that is stored, or nothing.
  abbrev pub Replies : Response → Type 0
  Replies res = res.status ≡ status_ok → (v : PictureView) × (res.body ≡ text v.bytes) × Shown v

  module _ (J : JsonLib) (req : Request) where
    error-Replies :
        (st : Status) (json : J.Json)
        → (st ≡ status_ok → ⊥)
        → Gives Replies (J.dump json >>= λ payload. ok (json_response req st payload))
    error-Replies st json h =
        next-Gives Replies (J.dump json) _ (λ t. ok-Gives Replies _ (λ e. absurd (h e)))

    found_or_not-Replies :
        (split : Text → List Text) (convert : Text → ℕ → ℕ) (r : Result PictureView)
        → Gives Shown r
        → Gives Replies (found_or_not J split convert req r)
    unfolding create_json_not_found
    found_or_not-Replies split convert (ok v) h =
        ok-Gives Replies (picture_response req v) (λ e. (v, refl, h v refl))
    found_or_not-Replies split convert (throw (out_of_range t)) h =
        error-Replies not_found _ (λ e. cc e)
    found_or_not-Replies split convert (throw (no_resource t)) h = throw-Gives Replies _
    found_or_not-Replies split convert (throw (runtime_error t)) h = throw-Gives Replies _
    found_or_not-Replies split convert (throw (json_parse_error t)) h = throw-Gives Replies _
    found_or_not-Replies split convert (throw (json_type_error t)) h = throw-Gives Replies _
    found_or_not-Replies split convert (throw (json_out_of_range t)) h = throw-Gives Replies _

    pub handle_request-Replies :
        (split : Text → List Text) (convert : Text → ℕ → ℕ) (p : Previews)
        → Stored p
        → Gives Replies (handle_request J split convert req p)
    unfolding handle_request visit_preview visit_parts create_json_bad_request
        create_json_server_error
    handle_request-Replies split convert p h = elim (Bool-cases (is_get req.method)) [
      | inr other ↦ rw other (error-Replies bad_request _ (λ e. cc e))
      | inl got ↦ rw got (
          catch-Gives Replies _ (λ x. create_json_server_error J req (what x))
            (next-Gives Replies (at_back 1 (split req.target)) _ λ last.
              next-Gives Replies (at_back 2 (split req.target)) _ λ name.
                next-Gives Replies (at_back 3 (split req.target)) _ λ uuid.
                  found_or_not-Replies split convert (get_picture uuid name (convert last 0) p)
                    (get_picture-Gives uuid name (convert last 0) p h))
            (λ x. error-Replies internal_server_error _ (λ e. cc e)))
    ]
