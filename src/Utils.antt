-- ===== src/Utils.antt =====
-- src/Utils.cpp: the JSON replies, and the question whether a path is a directory.
-- `handleSystemError` only logs.
use beast_examples.Common.{
  ◌∷◌, [], ◌++◌, codes, length, Text, Result, ok, ◌>>=◌, Bool, false, ℕ, Option, none, some,
}
use beast_examples.Json.{JsonLib}
use beast_examples.Http.{
  Request, Response, Status, status_ok, bad_request, not_found, internal_server_error, text,
}

abbrev pub server_signature : Text
server_signature = codes "UNIS-WEB-SERVER/1.0"

abbrev pub client_agent : Text
client_agent = codes "UNIS-WEB-CLIENT/1.0"

-- `stat` gives the mode of a path, `none` where it fails; `is_dir_mode` is `S_ISDIR`.
unfoldable pub is_directory : (Text → Option ℕ) → (ℕ → Bool) → Text → Bool
is_directory stat is_dir_mode path = elim (stat path) [
  | none ↦ false
  | some mode ↦ is_dir_mode mode
]

-- The lines that the four functions share: `prepare_payload` sets the length of the body.
abbrev pub json_response : Request → Status → Text → Response
json_response req st payload = record {
  status = st;
  version = req.version;
  server = server_signature;
  content_type = codes "application/json";
  keep_alive = req.keep_alive;
  content_length = length payload;
  body = text payload;
}

module _ (J : JsonLib) where
  open J use {Json, of_text, of_nat, object, emplace, dump}

  unfoldable pub create_json_ok : Request → Json → Result Response
  create_json_ok req json = do
    json' ← emplace (codes "ret") (of_nat 0) json
    payload ← dump json'
    ok (json_response req status_ok payload)

  -- `{"ret": 1, "error": why}`
  abbrev pub error_json : Text → Json
  error_json why = object ((codes "ret", of_nat 1) ∷ (codes "error", of_text why) ∷ [])

  unfoldable pub create_json_bad_request : Request → Text → Result Response
  create_json_bad_request req why = do
    payload ← dump (error_json why)
    ok (json_response req bad_request payload)

  unfoldable pub create_json_not_found : Request → Text → Result Response
  create_json_not_found req target = do
    payload ← dump (error_json (target ++ codes " not found"))
    ok (json_response req not_found payload)

  unfoldable pub create_json_server_error : Request → Text → Result Response
  create_json_server_error req reason = do
    payload ← dump (error_json reason)
    ok (json_response req internal_server_error payload)
