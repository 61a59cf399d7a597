-- ===== src/JsonApi.antt =====
-- src/JsonApiRequestHandler.cpp. `func` may change the state `S` that its closure holds.
pub mod Laws
mod Tests
use beast_examples.Common.{
  ◌∷◌, codes, Bool, true, false, ◌||◌, not, if◌then◌else◌, Text, Result, ok, throw, ◌>>=◌, catch,
  Exn, no_resource, what,
}
use beast_examples.Json.{JsonLib}
use beast_examples.Http.{Request, Response, is_get, is_post}
use beast_examples.Utils.{
  create_json_ok, create_json_bad_request, create_json_not_found, create_json_server_error,
}

module _ (J : JsonLib) where
  -- The two `catch` clauses, in their order.
  unfoldable pub recover : Request → Exn → Result Response
  recover req (no_resource _) = create_json_not_found J req req.target
  recover req ex = create_json_server_error J req (what ex)

  unfoldable pub handle_request {ℓ} :
      {S : Type ℓ} → (Request → S → S × Result J.Json) → Request → S → S × Result Response
  unfolding recover
  handle_request func req s =
      let done = func req s in
      if is_get req.method || is_post req.method
      then (done.0, catch (done.1 >>= create_json_ok J req) (recover req))
      else (s, create_json_bad_request J req (codes "Unsupported method."))
