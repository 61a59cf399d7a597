-- ===== src/App/Invariant.antt =====
-- What holds of the whole server in every state that it reaches (src/main.cpp).
use beast_examples.Common.{
  Option-cases, ℕ, ◌+◌, ◌||◌, text_eq, nat_eq, Text, Option, Result, Bool-cases, inl, inr,
}
use beast_examples.Json.{JsonLib}
use beast_examples.Http.{Request, is_get, is_post}
use beast_examples.JsonApi
use beast_examples.Preview.Defs.{Previews}
use beast_examples.Cache.{Cache}
use beast_examples.Cache.Cleanup
use beast_examples.Sampling.{Mock, status_handler}
use beast_examples.Server.{
  Route, version_api, sampling_start, sampling_status, sampling_stop, picture, post_picture,
  list_pictures, files, routes, resolve, post_handler, list_handler,
}
use beast_examples.App.{create, version_handler, Outside, App, dispatch, handler, counted}
use beast_examples.Preview.Drawing.{Draws}
use beast_examples.App.Pictures.{Held, Pictured, older-Held, post_handler-Pictured}

-- The state that the handlers share: the maps of the cache are consistent, the store of previews is as
-- in `Held`.
pub record AppInv (random : ℕ → Option Text) (s : App) : Type 0 where
  pub cache : Cleanup.Inv s.cache
  pub previews : Held random s.turn s.previews

-- The state that a JSON handler leaves is the one before, or its function's.
pub json_keeps {ℓ} :
    (J : JsonLib) {S : Type ℓ} (P : S → Type ℓ) (func : Request → S → S × Result J.Json)
    (req : Request) (s : S)
    → P s
    → P (func req s).0
    → P (JsonApi.handle_request J func req s).0
unfolding JsonApi.handle_request
json_keeps J P func req s h k = elim (Bool-cases (is_get req.method || is_post req.method)) [
  | inl allowed ↦ rw allowed k
  | inr refused ↦ rw refused h
]

-- One more request was handled, which changed no preview.
later-AppInv :
    (random : ℕ → Option Text) (s : App) (m : Mock)
    → AppInv random s
    → AppInv random (record s { mock = m; turn = s.turn + 1 })
later-AppInv random s m h = record {
  cache = h.cache;
  previews = older-Held random s.turn s.previews h.previews;
}

Pictured-AppInv :
    (random : ℕ → Option Text) (s : App) (r : Cache × Previews)
    → AppInv random s
    → Pictured random (s.turn + 1) r
    → AppInv random (record s { cache = r.0; previews = r.1; turn = s.turn + 1 })
Pictured-AppInv random s (c, p) h (v, w) = record { cache = v; previews = w }

kept-Pictured :
    (random : ℕ → Option Text) (s : App)
    → AppInv random s
    → Pictured random (s.turn + 1) (s.cache, s.previews)
kept-Pictured random s h = (h.cache, older-Held random s.turn s.previews h.previews)

module _ (E : Outside) (root : Text) (d : Draws E.random) where
  dispatch-AppInv :
      (route : Route) (req : Request) (s : App)
      → AppInv E.random s
      → AppInv E.random (counted (dispatch E root route req s)).0
  unfolding dispatch status_handler list_handler
  dispatch-AppInv version_api req s h =
      json_keeps E.json (λ t. AppInv E.random (record t { turn = t.turn + 1 }))
        (version_handler E root) req s (later-AppInv E.random s s.mock h)
        (later-AppInv E.random s s.mock h)
  dispatch-AppInv sampling_start req s h = later-AppInv E.random s _ h
  dispatch-AppInv sampling_status req s h = later-AppInv E.random s _ h
  dispatch-AppInv sampling_stop req s h = later-AppInv E.random s _ h
  dispatch-AppInv picture req s h = later-AppInv E.random s s.mock h
  dispatch-AppInv post_picture req s h = Pictured-AppInv E.random s _ h (
      json_keeps E.json (Pictured E.random (s.turn + 1))
        (post_handler E.json E.decode E.encode (E.clock s.turn) (create E root s.turn)) req
        (s.cache, s.previews) (kept-Pictured E.random s h)
        (post_handler-Pictured E.json E.decode E.encode (E.clock s.turn) E.random E.generate s.turn
          req s.cache s.previews d (h.cache, h.previews)))
  dispatch-AppInv list_pictures req s h = Pictured-AppInv E.random s _ h (
      json_keeps E.json (λ p. Pictured E.random (s.turn + 1) (s.cache, p)) (list_handler E.json) req
        s.previews (kept-Pictured E.random s h) (kept-Pictured E.random s h))
  dispatch-AppInv files req s h = later-AppInv E.random s s.mock h

  -- Every handler of the server keeps the invariant, whatever the path that it is found for.
  pub handler-AppInv :
      (path : Text) (req : Request) (s : App)
      → AppInv E.random s
      → AppInv E.random (handler E root path req s).0
  unfolding handler
  handler-AppInv path req s h = elim (Option-cases (resolve E.matches path routes)) [
    | inl missing ↦ rw missing h
    | inr (route, found) ↦ rw found (dispatch-AppInv route req s h)
  ]
