-- ===== src/JsonApi/Laws.antt =====
-- What a request to a JSON handler is answered with, on every path.
use beast_examples.Common.{
  Bool, [], ◌∷◌, ◌++◌, what, ◌≡◌, refl, inl, inr, ◌||◌, true, false, Text, Result, ok, throw, ◌>>=◌,
  no_resource, codes, Exn, length, if◌then◌else◌, ◌∙◌, catch, runtime_error, Bool-cases,
}
use beast_examples.Json.{JsonLib, JsonLaws}
use beast_examples.Http.{
  Request, Response, Status, status_ok, bad_request, not_found, internal_server_error, is_get,
  is_post, text,
}
use beast_examples.Utils.{
  create_json_ok, create_json_bad_request, create_json_not_found, create_json_server_error,
  json_response, error_json,
}
use beast_examples.JsonApi.{handle_request, recover}

-- What the request and the outcome of the handler's function ask for.
abbrev pub expected {ℓ} : {A : Type ℓ} → Request → Result A → Status
expected req (ok _) = if is_get req.method || is_post req.method then status_ok else bad_request
expected req (throw (no_resource _)) =
    if is_get req.method || is_post req.method then not_found else bad_request
expected req (throw _) =
    if is_get req.method || is_post req.method then internal_server_error else bad_request

-- A complete JSON reply to `req` with status `st` and the text `payload`.
pub record IsReply (req : Request) (st : Status) (payload : Text) (res : Response) : Type 0 where
  pub status : res.status ≡ st
  pub version : res.version ≡ req.version
  pub signed : res.server ≡ codes "UNIS-WEB-SERVER/1.0"
  pub typed : res.content_type ≡ codes "application/json"
  pub kept : res.keep_alive ≡ req.keep_alive
  pub sized : res.content_length ≡ length payload
  pub filled : res.body ≡ text payload

pub json_response-IsReply :
    (req : Request) (st : Status) (payload : Text)
    → IsReply req st payload (json_response req st payload)
json_response-IsReply req st payload = record {
  status = refl;
  version = refl;
  signed = refl;
  typed = refl;
  kept = refl;
  sized = refl;
  filled = refl;
}

module _ (J : JsonLib) where
  -- `dump` succeeds on every error object.
  abbrev pub DumpsErrors : Type 0
  DumpsErrors = (why : Text) → (t : Text) × (J.dump (error_json J why) ≡ ok t)

  -- The text of `{"ret": 1, "error": why}`.
  abbrev pub IsErrorText : Text → Text → Type 0
  IsErrorText why payload =
      J.dump (J.object ((codes "ret", J.of_nat 1) ∷ (codes "error", J.of_text why) ∷ []))
      ≡ ok payload

  -- The text of what a function returns, with `"ret": 0` added.
  abbrev pub dumped : Result J.Json → Result Text
  dumped r = r >>= λ json. J.emplace (codes "ret") (J.of_nat 0) json >>= J.dump

  -- What a reply carries, for a method that is allowed or not, and what the function came to.
  abbrev pub Carries : Request → Bool → Result Text → Text → Type 0
  Carries req false r payload = IsErrorText (codes "Unsupported method.") payload
  Carries req true (ok t) payload = payload ≡ t
  Carries req true (throw (no_resource _)) payload =
      IsErrorText (req.target ++ codes " not found") payload
  Carries req true (throw x) payload = IsErrorText (what x) payload

  create_json_ok-dumped :
      (req : Request) (r : Result J.Json)
      → (r >>= create_json_ok J req) ≡ (dumped r >>= λ t. ok (json_response req status_ok t))
  unfolding create_json_ok
  create_json_ok-dumped req (throw x) = refl
  create_json_ok-dumped req (ok json) = dump_after (J.emplace (codes "ret") (J.of_nat 0) json)
    where
      dump_after :
          (added : Result J.Json)
          → (added >>= λ j. J.dump j >>= λ t. ok (json_response req status_ok t))
            ≡ ((added >>= J.dump) >>= λ t. ok (json_response req status_ok t))
      dump_after (throw x) = refl
      dump_after (ok j) = refl

  -- An error reply is made whenever its text can be dumped.
  error-IsReply :
      (req : Request) (st : Status) (why : Text)
      → DumpsErrors
      → (res : Response) × (payload : Text) × ((J.dump (error_json J why) >>= λ t.
            ok (json_response req st t))
          ≡ ok res)
        × IsReply req st payload res
        × IsErrorText why payload
  error-IsReply req st why d =
      let (t, e) = d why in (json_response req st t, t, rw e, json_response-IsReply req st t, e)

  -- A function's text, or its exception, under a method that is allowed.
  answer-IsReply :
      DumpsErrors
      → (req : Request) (o : Result Text) → (is_get req.method || is_post req.method) ≡ true
      → let r = o >>= λ t. ok (json_response req status_ok t) in
        (res : Response) × (payload : Text) × (catch r (recover J req) ≡ ok res)
        × IsReply req (expected req r) payload res
        × Carries req true o payload
  unfolding recover create_json_not_found create_json_server_error
  answer-IsReply d req (ok t) h =
      rw h (json_response req status_ok t, t, refl, json_response-IsReply req status_ok t, refl)
  answer-IsReply d req (throw (no_resource m)) h = rw h (error-IsReply req not_found _ d)
  answer-IsReply d req (throw x) h = rw h (error-IsReply req internal_server_error _ d)

  expected_refused {κ} :
      {A : Type κ} (req : Request) (r : Result A)
      → (is_get req.method || is_post req.method) ≡ false
      → expected req r ≡ bad_request
  expected_refused req (ok a) h = rw h
  expected_refused req (throw (no_resource m)) h = rw h
  expected_refused req (throw x) h = rw h

  module _ {ℓ} {S : Type ℓ} (func : Request → S → S × Result J.Json) where
    -- If every error object can be dumped, then each request to a JSON handler is answered with one
    -- complete JSON reply, which names the server and echoes the request's version and keep-alive: 400
    -- if the method is neither GET nor POST, else 200, 404 or 500 as the handler's function and the
    -- dump of its result end. Its body is of type `application/json` and of the announced length: with
    -- 200 the dump of the function's result, with `"ret": 0` added; else that of an object with
    -- `"ret": 1` and the error. The state changes by the function alone, and not at all under another
    -- method.
    pub handle_request-IsReply :
        DumpsErrors
        → (req : Request) (s : S)
        → let r = handle_request J func req s in
          (res : Response) × (payload : Text) × (r.1 ≡ ok res)
          × IsReply req (expected req ((func req s).1 >>= create_json_ok J req)) payload res
          × Carries req (is_get req.method || is_post req.method) (dumped (func req s).1) payload
          × (r.0 ≡ (if is_get req.method || is_post req.method then (func req s).0 else s))
    unfolding handle_request create_json_bad_request
    handle_request-IsReply d req s = elim (Bool-cases (is_get req.method || is_post req.method)) [
      | inl allowed ↦
          let (res, payload, e, reply, carried) =
            answer-IsReply d req (dumped (func req s).1) allowed in
          (
            res,
            payload,
            rw (allowed, create_json_ok-dumped req (func req s).1) e,
            rw (create_json_ok-dumped req (func req s).1) reply,
            rw allowed carried,
            rw allowed,
          )
      | inr refused ↦
          let (res, payload, e, reply, carried) =
            error-IsReply req bad_request (codes "Unsupported method.") d in
          (
            res,
            payload,
            rw refused e,
            rw (expected_refused req ((func req s).1 >>= create_json_ok J req) refused) reply,
            rw refused carried,
            rw refused,
          )
    ]

    -- When the handler's function throws an exception whose text cannot be dumped as JSON, the
    -- exception of the dump leaves the handler, from inside its `catch` clause: no reply is sent.
    handle_request-throws :
        (req : Request) (s : S) (why : Text) (bad : Exn)
        → (is_get req.method || is_post req.method) ≡ true
        → (func req s).1 ≡ throw (runtime_error why)
        → J.dump (error_json J why) ≡ throw bad
        → (handle_request J func req s).1 ≡ throw bad
    unfolding handle_request create_json_server_error
    handle_request-throws req s why bad h e d = rw (h, e) (rw d)

    -- A function that returns a JSON string is always answered with 500, whatever it returns, since
    -- `"ret"` cannot be added to a string: so the version handler fails on each GET and POST.
    pub handle_request_of_text :
        JsonLaws J
        → DumpsErrors
        → (req : Request) (s : S) (t : Text) → (is_get req.method || is_post req.method) ≡ true
        → (func req s).1 ≡ ok (J.of_text t)
        → (res : Response) × ((handle_request J func req s).1 ≡ ok res)
          × (res.status ≡ internal_server_error)
    unfolding create_json_ok
    handle_request_of_text laws d req s t h e =
        let (res, payload, r, reply, carried, left) = handle_request-IsReply d req s in
        let (m, refused) = laws.emplace-of_text (codes "ret") t (J.of_nat 0) in
        (res, r, reply.status ∙ rw (e, refused, h))
