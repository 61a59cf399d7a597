-- ===== src/App/Fetching.antt =====
-- What a client fetches from the whole server after other requests (src/main.cpp).
use beast_examples.Common.{
  inl, drop, ℕ, ◌+◌, ◌≤◌, ◌<◌, ◌≡◌, refl, subst, ◌∙◌, Bool, true, false, text_eq, take, Text, codes,
  some, Result, ok, arith,
}
use beast_examples.Http.{Request, Response, is_get}
use beast_examples.Preview.Defs.{Pictures, picture_url, snap, track}
use beast_examples.Preview.Serving
use beast_examples.Preview.Serving.{picture_response}
use beast_examples.Preview.Urls.{Splits, Converts, IsSegment, fetch_track, fetch_snap}
use beast_examples.Server.{picture, routes, resolve}
use beast_examples.Server.Laws.{resolve-append}
use beast_examples.Server.Urls.{picture_pattern}
use beast_examples.Session.Shared.{step-keeps}
use beast_examples.App.{Outside, App, dispatch, handler}
use beast_examples.App.Sessions.{Site, Step, connect, event, take_round, Runs, here, more, Reach}
use beast_examples.Preview.Drawing.{Draws}
use beast_examples.App.Reachable.{sampled-AppInv, Reach-SiteInv}
use beast_examples.App.Lasting.{Stays, Lasts, handler-Lasts}

-- A path matches the pattern of pictures, and no earlier one of the table.
abbrev pub IsPicturePath : (Text → Text → Bool) → Text → Type 0
IsPicturePath matches path =
    (matches path (codes "^/api/v1/version$") ≡ false)
    × (matches path (codes "^/api/v1/calibration/sampling/start$") ≡ false)
    × (matches path (codes "^/api/v1/calibration/sampling/\\d+$") ≡ false)
    × (matches path (codes "^/api/v1/calibration/sampling/stop$") ≡ false)
    × (matches path picture_pattern ≡ true)

-- So do the addresses of a preview with one digit.
abbrev pub Routed : (Text → Text → Bool) → Text → Type 0
Routed matches uuid =
    (i : ℕ)
    → i < 10
    → IsPicturePath matches (picture_url uuid (codes "/tracks/") i)
      × IsPicturePath matches (picture_url uuid (codes "/snaps/") i)

pub resolve-IsPicturePath :
    (matches : Text → Text → Bool) (path : Text)
    → IsPicturePath matches path
    → resolve matches path routes ≡ some picture
unfolding routes
resolve-IsPicturePath matches path (a, b, c, d, hit) =
    resolve-append matches path picture_pattern picture (take 4 routes) (drop 5 routes)
      (a, (b, (c, (d, tt)))) (inl hit)

pub handler-IsPicturePath :
    (E : Outside) (root path : Text) (req : Request) (s : App)
    → IsPicturePath E.matches path
    → (handler E root path req s).1 ≡ Serving.handle_request E.json E.split E.convert req s.previews
unfolding handler dispatch
handler-IsPicturePath E root path req s h = rw (resolve-IsPicturePath E.matches path h) refl

-- The answer of the server to a request for an address.
abbrev pub answer : Outside → Text → Site → Request → Text → Result Response
answer E root s req url = (handler E root url (record req { target = url }) s.app).1

module _ (E : Outside) (root : Text) (need_eof : Response → Bool) (is_upgrade : Request → Bool)
    (d : Draws E.random) where
  module _ (base : ℕ) (ps : Pictures) (n : ℕ) where
    Step-Lasts :
        {s t : Site}
        → Step E root need_eof is_upgrade s t
        → Lasts E.random base ps n s.app
        → Lasts E.random base ps n t.app
    Step-Lasts (connect now s) h = h
    Step-Lasts (event now e s before after t w own k) h =
        step-keeps (Lasts E.random base ps n) need_eof is_upgrade (handler E root)
          (handler-Lasts E root d base ps n) now e _ w own k h
    Step-Lasts (take_round m s) h = record {
      inv = sampled-AppInv E.random m s.app h.inv;
      on = h.on;
      kept = h.kept;
    }

    Runs-Lasts :
        {s t : Site}
        → Runs E root need_eof is_upgrade s t
        → Lasts E.random base ps n s.app
        → Lasts E.random base ps n t.app
    Runs-Lasts here h = h
    Runs-Lasts (more r k) h = Step-Lasts k (Runs-Lasts r h)

  -- Let a preview be among the `n` newest of the server, in any state that it reaches, and let it run
  -- on in any way (connections, requests of all sessions to all handlers, samplings). As long as no
  -- more than 30 - n requests were handled since, a GET for the address of its track or snap
  -- `i` < 10 is answered with 200, `image/jpeg` and the bytes of that picture. (The generator draws
  -- no identifier twice, the preview's has characters and no slash, the patterns of the table match
  -- as in `Routed`, a path is cut at its slashes, and a decimal number is read back.)
  pub answer-Runs :
      {s t : Site} (ps : Pictures) (n : ℕ) (req : Request) (i : ℕ)
      → Splits E.split
      → Converts E.convert
      → Routed E.matches ps.uuid
      → IsSegment ps.uuid
      → is_get req.method ≡ true
      → Reach E root need_eof is_upgrade s
      → Stays ps.uuid ps n s.app.previews
      → Runs E root need_eof is_upgrade s t
      → n + t.app.turn ≤ s.app.turn + 30
      → i < 10
      → (answer E root t req (picture_url ps.uuid (codes "/tracks/") i)
          ≡ ok (picture_response req (track ps i)))
        × (answer E root t req (picture_url ps.uuid (codes "/snaps/") i)
            ≡ ok (picture_response req (snap ps i)))
  answer-Runs {s} {t} ps n req i splits converts routed named got start stays run room digit =
      let first : Lasts E.random s.app.turn ps n s.app = record {
        inv = (Reach-SiteInv E root need_eof is_upgrade d start).0;
        on = omega arith;
        kept = λ h. subst (λ m. Stays ps.uuid ps m s.app.previews) (omega arith) stays;
      } in
      let found = (Runs-Lasts s.app.turn ps n run first).kept room in
      let (tracks, snaps) = routed i digit in
      (
        handler-IsPicturePath E root _ _ t.app tracks
            ∙ fetch_track E.json E.split E.convert req t.app.previews ps splits converts got
                (found.0) named i (omega arith),
        handler-IsPicturePath E root _ _ t.app snaps
            ∙ fetch_snap E.json E.split E.convert req t.app.previews ps splits converts got
                (found.0) named i (omega arith),
      )
