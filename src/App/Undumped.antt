-- ===== src/App/Undumped.antt =====
-- Which exceptions leave the handlers (src/JsonApiRequestHandler.cpp, src/PicturePreviewHandler.cpp).
use beast_examples.Common.{
  Bool-cases, ℕ, ◌≡◌, ◌||◌, List, Text, Result, ok, throw, ◌>>=◌, catch, Exn, what, no_resource,
  runtime_error, out_of_range, json_parse_error, json_type_error, json_out_of_range, inl, inr,
}
use beast_examples.Json.{JsonLib}
use beast_examples.Utils.{
  error_json, create_json_bad_request, create_json_not_found, create_json_server_error,
}
use beast_examples.Http.{Request, is_get, is_post}
use beast_examples.JsonApi
use beast_examples.JsonApi.{recover}
use beast_examples.Preview.Defs.{Previews}
use beast_examples.Preview.Serving

-- An exception that was thrown when an error object was dumped.
abbrev pub Undumped : JsonLib → Exn → Type 0
Undumped J x = (why : Text) × (J.dump (error_json J why) ≡ throw x)

>>=-ok-throw {ℓ κ} :
    {A : Type ℓ} {B : Type κ} (r : Result A) (k : A → B) (x : Exn)
    → (r >>= λ a. ok (k a)) ≡ throw x
    → r ≡ throw x
>>=-ok-throw (ok a) k x h = cc
>>=-ok-throw (throw e) k x h = cc

catch-throw {ℓ} :
    {A : Type ℓ} (r : Result A) (k : Exn → Result A) (x : Exn)
    → catch r k ≡ throw x
    → (e : Exn) × (k e ≡ throw x)
catch-throw (ok a) k x h = cc
catch-throw (throw e) k x h = (e, h)

module _ (J : JsonLib) (req : Request) (x : Exn) where
  bad_request-Undumped : (why : Text) → create_json_bad_request J req why ≡ throw x → Undumped J x
  unfolding create_json_bad_request
  bad_request-Undumped why h = (why, >>=-ok-throw _ _ x h)

  server_error-Undumped : (why : Text) → create_json_server_error J req why ≡ throw x → Undumped J x
  unfolding create_json_server_error
  server_error-Undumped why h = (why, >>=-ok-throw _ _ x h)

  recover-Undumped : (e : Exn) → recover J req e ≡ throw x → Undumped J x
  unfolding recover create_json_not_found
  recover-Undumped (no_resource t) h = (_, >>=-ok-throw _ _ x h)
  recover-Undumped (runtime_error t) h = server_error-Undumped _ h
  recover-Undumped (out_of_range t) h = server_error-Undumped _ h
  recover-Undumped (json_parse_error t) h = server_error-Undumped _ h
  recover-Undumped (json_type_error t) h = server_error-Undumped _ h
  recover-Undumped (json_out_of_range t) h = server_error-Undumped _ h

  pub json-Undumped {ℓ} :
      {S : Type ℓ} (func : Request → S → S × Result J.Json) (s : S)
      → (JsonApi.handle_request J func req s).1 ≡ throw x
      → Undumped J x
  unfolding JsonApi.handle_request
  json-Undumped func s h = elim (Bool-cases (is_get req.method || is_post req.method)) [
    | inl allowed ↦
        let (e, h') = catch-throw _ (recover J req) x (rw allowed at h) in recover-Undumped e h'
    | inr refused ↦ bad_request-Undumped _ (rw refused at h)
  ]

  pub picture-Undumped :
      (split : Text → List Text) (convert : Text → ℕ → ℕ) (s : Previews)
      → Serving.handle_request J split convert req s ≡ throw x
      → Undumped J x
  unfolding Serving.handle_request
  picture-Undumped split convert s h = elim (Bool-cases (is_get req.method)) [
    | inl got ↦
        let (e, h') =
          catch-throw _ (λ e. create_json_server_error J req (what e)) x (rw got at h) in
        server_error-Undumped (what e) h'
    | inr other ↦ bad_request-Undumped _ (rw other at h)
  ]
