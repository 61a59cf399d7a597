-- ===== src/JsonApi/Tests.antt =====
-- The theorems on JSON handlers at concrete requests.
use beast_examples.Common.{
  Text, ℕ, ◌+◌, ◌≡◌, refl, ◌||◌, true, Result, ok, throw, ◌>>=◌, no_resource, codes, if◌then◌else◌,
  [],
}
use beast_examples.Json.{JsonLib}
use beast_examples.Json.Sample.{Json, sample, sample-JsonLaws, str}
use beast_examples.Http.{Request, Response, post, is_get, is_post, internal_server_error}
use beast_examples.Utils.{create_json_ok}
use beast_examples.JsonApi.{handle_request}
use beast_examples.JsonApi.Laws.{
  IsReply, Carries, dumped, expected, handle_request-IsReply, handle_request_of_text,
}

abbrev plain : JsonLib
plain = sample (λ j. ok (codes "{}")) (λ t. ok (str t))

abbrev start : Request
start = record {
  method = post;
  target = codes "/api/v1/sampling/start";
  version = 11;
  keep_alive = true;
  body = [];
}

abbrev absent : Request → ℕ → ℕ × Result Json
absent req n = (n + 1, throw (no_resource req.target))

abbrev version : Request → ℕ → ℕ × Result Json
version req n = (n + 1, ok (str (codes "1.0.0")))

handle_request-IsReply_example :
    let r = handle_request plain absent start 7 in
    (res : Response) × (payload : Text) × (r.1 ≡ ok res)
    × IsReply start (expected start ((absent start 7).1 >>= create_json_ok plain start)) payload res
    × Carries plain start
        (is_get start.method || is_post start.method)
        (dumped plain (absent start 7).1)
        payload
    × (r.0 ≡ (if is_get start.method || is_post start.method then (absent start 7).0 else 7))
handle_request-IsReply_example =
    handle_request-IsReply plain absent (λ why. (codes "{}", refl)) start 7

handle_request_of_text_example :
    (res : Response) × ((handle_request plain version start 7).1 ≡ ok res)
    × (res.status ≡ internal_server_error)
handle_request_of_text_example =
    handle_request_of_text plain version (sample-JsonLaws (λ j. ok (codes "{}")) (λ t. ok (str t)))
      (λ why. (codes "{}", refl)) start 7 (codes "1.0.0") refl refl
