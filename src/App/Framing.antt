-- ===== src/App/Framing.antt =====
-- How the responses of all handlers fit their requests (src/Utils.cpp, src/StaticRequestHandler.cpp,
-- src/PicturePreviewHandler.cpp).
use beast_examples.Common.{
  Gives, ok-Gives, throw-Gives, catch-Gives, next-Gives, Bool-cases, ℕ, ◌≡◌, refl, Bool, false,
  true, ◌&&◌, ◌||◌, List, length, Text, Result, ok, throw, ◌>>=◌, Exn, what, inl, inr, no_resource,
  runtime_error, out_of_range, json_parse_error, json_type_error, json_out_of_range, arith, codes,
}
use beast_examples.Json.{JsonLib}
use beast_examples.Utils.{
  server_signature, json_response, create_json_ok, create_json_bad_request, create_json_not_found,
  create_json_server_error,
}
use beast_examples.Http.{
  Verb, get, head, post, other_verb, Request, Response, Status, status_ok, bad_request, not_found,
  internal_server_error, Body, text, empty, file, ErrorCode, success, is_get, is_head, is_post,
}
use beast_examples.JsonApi
use beast_examples.Preview.Defs.{PictureView, Previews}
use beast_examples.Preview.Serving
use beast_examples.Preview.Serving.{
  at_back, picture_response, found_or_not, get_picture, visit_parts, visit_preview,
}
use beast_examples.JsonApi.{recover}

abbrev pub is_bare : Body → Bool
is_bare empty = true
is_bare _ = false

abbrev pub is_ok : Status → Bool
is_ok status_ok = true
is_ok _ = false

-- The length that is announced is that of the text, or of the file that was opened.
abbrev pub Sized : (Text → ErrorCode × ℕ) → ℕ → Body → Type 0
Sized open_file size (text t) = size ≡ length t
Sized open_file size (file path) = open_file path ≡ (success, size)
Sized open_file size empty = (path : Text) × (open_file path ≡ (success, size))

pub record IsFramed (open_file : Text → ErrorCode × ℕ) (req : Request) (res : Response)
    : Type 0 where
  pub version : res.version ≡ req.version
  pub signed : res.server ≡ server_signature
  pub kept : res.keep_alive ≡ req.keep_alive
  pub sized : Sized open_file res.content_length res.body
  pub bare : is_bare res.body ≡ (is_head req.method && is_ok res.status)

pub and_false : (b : Bool) → (b && false) ≡ false
and_false b = ground arith

allowed_not_head : (m : Verb) → (is_get m || is_post m) ≡ true → is_head m ≡ false
allowed_not_head get h = refl
allowed_not_head head h = cc
allowed_not_head post h = refl
allowed_not_head (other_verb t) h = refl

module _ (open_file : Text → ErrorCode × ℕ) (req : Request) where
  -- Where the result is a response, it fits the request.
  abbrev pub Frames : Result Response → Type 0
  Frames = Gives (IsFramed open_file req)

  json_response-IsFramed :
      (st : Status) (payload : Text)
      → (is_head req.method && is_ok st) ≡ false
      → IsFramed open_file req (json_response req st payload)
  json_response-IsFramed st payload h = record {
    version = refl;
    signed = refl;
    kept = refl;
    sized = refl;
    bare = rw h;
  }

  module _ (J : JsonLib) where
    dumped-Frames :
        (st : Status) (json : J.Json)
        → (is_head req.method && is_ok st) ≡ false
        → Frames (J.dump json >>= λ payload. ok (json_response req st payload))
    dumped-Frames st json h =
        next-Gives (IsFramed open_file req) (J.dump json) _
          (λ t. ok-Gives (IsFramed open_file req) _ (json_response-IsFramed st t h))

    create_json_ok-Frames :
        is_head req.method ≡ false → (json : J.Json) → Frames (create_json_ok J req json)
    unfolding create_json_ok
    create_json_ok-Frames other json =
        next-Gives (IsFramed open_file req) (J.emplace (codes "ret") (J.of_nat 0) json) _
          (λ j. dumped-Frames status_ok j (rw other))

    create_json_bad_request-Frames : (why : Text) → Frames (create_json_bad_request J req why)
    unfolding create_json_bad_request
    create_json_bad_request-Frames why =
        dumped-Frames bad_request _ (and_false (is_head req.method))

    create_json_not_found-Frames : (why : Text) → Frames (create_json_not_found J req why)
    unfolding create_json_not_found
    create_json_not_found-Frames why = dumped-Frames not_found _ (and_false (is_head req.method))

    create_json_server_error-Frames : (why : Text) → Frames (create_json_server_error J req why)
    unfolding create_json_server_error
    create_json_server_error-Frames why =
        dumped-Frames internal_server_error _ (and_false (is_head req.method))

    recover-Frames : (x : Exn) → Frames (recover J req x)
    unfolding recover
    recover-Frames (no_resource t) = create_json_not_found-Frames _
    recover-Frames (runtime_error t) = create_json_server_error-Frames _
    recover-Frames (out_of_range t) = create_json_server_error-Frames _
    recover-Frames (json_parse_error t) = create_json_server_error-Frames _
    recover-Frames (json_type_error t) = create_json_server_error-Frames _
    recover-Frames (json_out_of_range t) = create_json_server_error-Frames _

    pub json-Frames {ℓ} :
        {S : Type ℓ} (func : Request → S → S × Result J.Json) (s : S)
        → Frames ((JsonApi.handle_request J func req s).1)
    unfolding JsonApi.handle_request
    json-Frames func s = elim (Bool-cases (is_get req.method || is_post req.method)) [
      | inl allowed ↦ rw allowed (
          catch-Gives (IsFramed open_file req) _ (recover J req)
            (next-Gives (IsFramed open_file req) ((func req s).1) (create_json_ok J req)
              (create_json_ok-Frames (allowed_not_head req.method allowed)))
            recover-Frames)
      | inr refused ↦ rw refused (create_json_bad_request-Frames _)
    ]

    picture_response-IsFramed :
        (v : PictureView)
        → is_head req.method ≡ false
        → IsFramed open_file req (picture_response req v)
    picture_response-IsFramed v other = record {
      version = refl;
      signed = refl;
      kept = refl;
      sized = refl;
      bare = rw other;
    }

    found_or_not-Frames :
        (split : Text → List Text) (convert : Text → ℕ → ℕ) (r : Result PictureView)
        → is_head req.method ≡ false
        → Frames (found_or_not J split convert req r)
    found_or_not-Frames split convert (ok v) other =
        ok-Gives (IsFramed open_file req) _ (picture_response-IsFramed v other)
    found_or_not-Frames split convert (throw (out_of_range t)) other =
        create_json_not_found-Frames _
    found_or_not-Frames split convert (throw (no_resource t)) other =
        throw-Gives (IsFramed open_file req) _
    found_or_not-Frames split convert (throw (runtime_error t)) other =
        throw-Gives (IsFramed open_file req) _
    found_or_not-Frames split convert (throw (json_parse_error t)) other =
        throw-Gives (IsFramed open_file req) _
    found_or_not-Frames split convert (throw (json_type_error t)) other =
        throw-Gives (IsFramed open_file req) _
    found_or_not-Frames split convert (throw (json_out_of_range t)) other =
        throw-Gives (IsFramed open_file req) _

    pub picture-Frames :
        (split : Text → List Text) (convert : Text → ℕ → ℕ) (s : Previews)
        → Frames (Serving.handle_request J split convert req s)
    unfolding Serving.handle_request visit_preview visit_parts
    picture-Frames split convert s = elim (Bool-cases (is_get req.method)) [
      | inl got ↦ rw got (
          catch-Gives (IsFramed open_file req) _ (λ x. create_json_server_error J req (what x))
            (next-Gives (IsFramed open_file req) (at_back 1 (split req.target)) _ (λ last.
              next-Gives (IsFramed open_file req) (at_back 2 (split req.target)) _ (λ name.
                next-Gives (IsFramed open_file req) (at_back 3 (split req.target)) _ (λ uuid.
                  found_or_not-Frames split convert (get_picture uuid name (convert last 0) s)
                    (allowed_not_head req.method (rw got))))))
            (λ x. create_json_server_error-Frames (what x)))
      | inr other ↦ rw other (create_json_bad_request-Frames _)
    ]
