-- ===== src/App.antt =====
-- src/main.cpp: the handlers of the whole server, with the state that they share, and its sessions.
--
-- What lies outside the repository is the record `Outside`; the clock and the generator of
-- identifiers give a value for each request that is handled. A request is handled in one step here,
-- but for the test of a request to start a sampling, which may have been made earlier (`early`).
pub mod Undumped
pub mod Answers
pub mod Sessions
pub mod Pictures
pub mod Invariant
pub mod Reachable
pub mod Lasting
pub mod Fetching
pub mod Listing
pub mod Listed
pub mod Framing
pub mod Framed
pub mod Samplings
pub mod Watching
pub mod Finishing
pub mod Sources
pub mod Provenance
mod Tests
mod Sample
mod FetchTests
use beast_examples.Common.{
  ℕ, ◌+◌, ◌&&◌, not, Bool, List, Text, codes, Option, none, some, Result, ok, throw, Exn,
  runtime_error,
}
use beast_examples.Json.{JsonLib}
use beast_examples.Utils.{is_directory}
use beast_examples.Http.{Request, Response, ErrorCode}
use beast_examples.Preview.Defs.{PictureView, Previews, new_previews, create_preview}
use beast_examples.Preview.Serving
use beast_examples.Cache.{Cache, new_cache}
use beast_examples.JsonApi
use beast_examples.Static
use beast_examples.Sampling.{Mock, new_mock, is_running, start_found, stop_handler, status_handler}
use beast_examples.Server.{
  Route, version_api, sampling_start, sampling_status, sampling_stop, picture, post_picture,
  list_pictures, files, routes, resolve, post_handler, list_handler,
}

pub record Outside : Type 1 where
  pub json : JsonLib
  pub encode : Text → Text
  pub decode : Text → Result Text
  pub split : Text → List Text
  pub convert : Text → ℕ → ℕ
  pub matches : Text → Text → Bool
  pub iequals : Text → Text → Bool
  pub message : ErrorCode → Text
  pub stat : Text → Option ℕ
  pub is_dir_mode : ℕ → Bool
  pub open_file : Text → ErrorCode × ℕ
  -- the fuel of the loop over directories
  pub depth : ℕ
  pub clock : ℕ → ℕ
  pub random : ℕ → Option Text
  pub generate : Text → Option Text
  -- whether the request with this number, if it is to start a sampling, looked for a running one
  -- before the start of one that it did not see
  pub early : ℕ → Bool

-- What the handlers share, and the number of requests that were handled.
pub record App : Type 0 where
  pub mock : Mock
  pub cache : Cache
  pub previews : Previews
  pub turn : ℕ

-- `picPreviewCacheNum` previews are kept.
abbrev pub new_app : App
new_app = record { mock = new_mock; cache = new_cache; previews = new_previews 30; turn = 0 }

-- A handler that works on one part of the state.
abbrev pub on_mock : App → Mock × Result Response → App × Result Response
on_mock s (m, r) = (record s { mock = m }, r)

abbrev pub on_pictures : App → (Cache × Previews) × Result Response → App × Result Response
on_pictures s ((c, p), r) = (record s { cache = c; previews = p }, r)

abbrev pub on_previews : App → Previews × Result Response → App × Result Response
on_previews s (p, r) = (record s { previews = p }, r)

-- A loop over directories that is out of fuel gives no response.
abbrev pub sent : Option Response → Result Response
sent none = throw (runtime_error (codes "out of fuel"))
sent (some res) = ok res

abbrev pub counted : App × Result Response → App × Result Response
counted (s, r) = (record s { turn = s.turn + 1 }, r)

abbrev pub version_text : Text
version_text = codes "{\"ret\":0,\"version\":\"1.0\"}"

module _ (E : Outside) (root : Text) where
  open E use {
    json, encode, decode, split, convert, matches, iequals, message, stat, is_dir_mode, open_file,
    depth, clock, random, generate, early,
  }

  abbrev pub version_handler : Request → App → App × Result json.Json
  version_handler req s = (s, ok (json.of_text version_text))

  abbrev pub create : ℕ → List PictureView → Previews → Previews
  create turn = create_preview (clock turn) (random turn) generate

  -- `samplingStartHandler`: its test and its start are two locks of the samplings.
  abbrev pub start_seen : ℕ → Request → Mock → Mock × Result json.Json
  start_seen turn req m = start_found json (is_running m && not (early turn)) req m

  -- The handler of a route.
  unfoldable pub dispatch : Route → Request → App → App × Result Response
  dispatch version_api req s = JsonApi.handle_request json version_handler req s
  dispatch sampling_start req s =
      on_mock s (JsonApi.handle_request json (start_seen s.turn) req s.mock)
  dispatch sampling_status req s =
      on_mock s (JsonApi.handle_request json (status_handler json convert) req s.mock)
  dispatch sampling_stop req s =
      on_mock s (JsonApi.handle_request json (stop_handler json) req s.mock)
  dispatch picture req s = (s, Serving.handle_request json split convert req s.previews)
  dispatch post_picture req s = on_pictures s (
      JsonApi.handle_request json (post_handler json decode encode (clock s.turn) (create s.turn))
        req (s.cache, s.previews))
  dispatch list_pictures req s =
      on_previews s (JsonApi.handle_request json (list_handler json) req s.previews)
  dispatch files req s = (
    s,
    sent (
        Static.handle_request iequals message (is_directory stat is_dir_mode) open_file depth root
          req),
  )

  abbrev pub handled : Option Route → Request → App → App × Result Response
  handled none req s = (s, throw (runtime_error (codes "no handler")))
  handled (some route) req s = counted (dispatch route req s)

  -- The handler that `resolve` finds for a path.
  unfoldable pub handler : Text → Request → App → App × Result Response
  unfolding dispatch
  handler path req s = handled (resolve matches path routes) req s
