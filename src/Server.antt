-- ===== src/Server.antt =====
-- src/HttpUriRouter.cpp and the handlers of pictures in src/main.cpp.
--
-- `matches` stands for `std::regex_match` of a path and a pattern, compiled when it is registered.
pub mod Laws
pub mod Urls
pub mod Start
pub mod Starting
mod Tests
mod StartTests
use beast_examples.Common.{
  ℕ, Bool, true, false, if◌then◌else◌, nat_eqb, ◌&&◌, List, [], ◌∷◌, ◌++◌, get_last?, drop, length,
  Text, codes, Option, none, some, Result, ok, throw, ◌>>=◌, catch, Exn, runtime_error, what,
}
use beast_examples.Json.{JsonLib}
use beast_examples.Http.{Request}
use beast_examples.Picture.{PostPicture, Wrapper, from_json}
use beast_examples.Preview.Defs.{PictureView, Previews}
use beast_examples.Preview.Serving.{list_preview}
use beast_examples.Cache.{Cache, add_picture}

-- `handlers.emplace_back(…)`
abbrev pub register {ℓ} : {H : Type ℓ} → Text → H → List (Text × H) → List (Text × H)
register pattern handler handlers = handlers ++ (pattern, handler) ∷ []

module _ {ℓ} {H : Type ℓ} (matches : Text → Text → Bool) where
  abbrev pub last_handler : Option (Text × H) → Option H
  last_handler none = none
  last_handler (some (pattern, handler)) = some handler

  unfoldable pub first_match : Text → List (Text × H) → Option H
  first_match path [] = none
  first_match path ((pattern, handler) ∷ more) =
      let later = first_match path more in if matches path pattern then some handler else later

  -- `resolve`; `back()` of no handlers is undefined, and `none` here.
  unfoldable pub resolve : Text → List (Text × H) → Option H
  unfolding first_match
  resolve path handlers = elim (first_match path handlers) [
    | some handler ↦ some handler
    | none ↦ last_handler (get_last? handlers)
  ]

-- The handlers of `main`, in the order of their registration.
pub data Route : Type 0 where
  version_api sampling_start sampling_status sampling_stop picture post_picture list_pictures
        files :
      Route

unfoldable pub routes : List (Text × Route)
routes =
    (codes "^/api/v1/version$", version_api)
    ∷ (codes "^/api/v1/calibration/sampling/start$", sampling_start)
    ∷ (codes "^/api/v1/calibration/sampling/\\d+$", sampling_status)
    ∷ (codes "^/api/v1/calibration/sampling/stop$", sampling_stop)
    ∷ (codes "^/api/v1/realtime/preview/picture/[a-f0-9-]+/(snaps|tracks)/[0-9]$", picture)
    ∷ (codes "^/api/v1/realtime/preview/pictures$", post_picture)
    ∷ (codes "^/api/v1/realtime/preview(\\?prev=.+)?$", list_pictures)
    ∷ (codes ".*", files)
    ∷ []

-- `t` behind `prefix`, if it starts with that
abbrev pub strip : Text → Text → Option Text
strip [] t = some t
strip (p ∷ prefix) [] = none
strip (p ∷ prefix) (c ∷ t) = let later = strip prefix t in if nat_eqb p c then later else none

-- `substr(rfind(pattern) + length)`, `none` for `npos`
unfoldable pub after_last : Text → Text → Option Text
after_last pattern [] = strip pattern []
after_last pattern (c ∷ t) = elim (after_last pattern t) [
  | some rest ↦ some rest
  | none ↦ strip pattern (c ∷ t)
]

module _ (J : JsonLib) (decode : Text → Result Text) where
  -- The picture of a request's body; what its decoding writes behind its buffer is left out.
  abbrev pub parse_picture : (Text → Text) → ℕ → Request → Result Wrapper
  parse_picture encode now req = do
    json ← J.parse req.body
    read ← from_json J encode decode json
    ok (record { picture = read.0; made_at = now })

  abbrev pub added : Cache × Previews × Result (Unit {0}) → (Cache × Previews) × Result J.Json
  added (c, p, r) = ((c, p), catch (r >>= λ done. ok J.null) (λ e. throw (runtime_error (what e))))

  -- `picPostHandler`: every exception becomes a `std::runtime_error`.
  unfoldable pub post_handler :
      (Text → Text)
      → ℕ
      → (List PictureView → Previews → Previews)
      → Request
      → Cache × Previews
      → (Cache × Previews) × Result J.Json
  post_handler encode now create req s = elim (parse_picture encode now req) [
    | throw e ↦ (s, throw (runtime_error (what e)))
    | ok w ↦ added (add_picture now create w s.0 s.1)
  ]

-- `picListHandler`: at most 10 previews, those after the identifier of the query.
abbrev pub query : Option Text → Text
query none = []
query (some t) = t

unfoldable pub list_handler : (J : JsonLib) → Request → Previews → Previews × Result J.Json
unfolding after_last
list_handler J req s = (s, list_preview J (query (after_last (codes "?prev=") req.target)) 10 s)
