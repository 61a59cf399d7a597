-- ===== src/App/Provenance.antt =====
-- The requests that the sessions have read, and the pictures that are served (src/main.cpp).
use beast_examples.Common.{◌≡◌, ◌⊎◌, Bool, List, [], ◌++◌, Text, some, ok}
use beast_examples.Http.{Request, Response, status_ok, text}
use beast_examples.Preview.Defs.{PictureView, new_previews}
use beast_examples.Preview.Sources.{handle_request-Replies}
use beast_examples.Cache.{new_cache}
use beast_examples.Session.Replies.{asked_by}
use beast_examples.Session.Shared.{step-moves}
use beast_examples.Server.{picture, routes, resolve}
use beast_examples.App.{Outside, new_app, dispatch, handler}
use beast_examples.App.Sessions.{Site, connect, event, take_round, Runs, here, more, Reach}
use beast_examples.App.Sources.{Viewed, IsPosted, Viewed-IsPosted, From, later-From, handler-From}

module _ (E : Outside) (root : Text) (need_eof : Response → Bool)
    (is_upgrade : Request → Bool) where
  -- The requests that the sessions have read, the latest first.
  abbrev pub requested : {s t : Site} → Runs E root need_eof is_upgrade s t → List Request
  requested here = []
  requested (more r (connect now s)) = requested r
  requested (more r (event now e s before after t w own k)) = asked_by is_upgrade e ++ requested r
  requested (more r (take_round n s)) = requested r

  new-From : From E root [] new_app
  unfolding new_cache new_previews
  new-From = (record { faces = tt; bodies = tt }, tt)

  Reach-From : {t : Site} (r : Reach E root need_eof is_upgrade t) → From E root (requested r) t.app
  Reach-From here = new-From
  Reach-From (more r (connect now s)) = Reach-From r
  Reach-From (more r (event now e s before after t w own k)) =
      step-moves (From E root (asked_by is_upgrade e ++ requested r)) need_eof is_upgrade
        (handler E root) now e _ w own k
        (later-From E root (asked_by is_upgrade e) (requested r) (s.cache, s.previews)
          (Reach-From r))
        (λ req read. rw read (handler-From E root req (requested r) s (Reach-From r)))
  Reach-From (more r (take_round n s)) = Reach-From r

  -- In every state that the whole server reaches, when a request to the route of pictures is answered
  -- with 200, then the body is what the buffer of a picture held that was made for a request that one
  -- of the sessions has read before, to the route that takes pictures: the decoded `data` of the JSON
  -- in the request's body, as many bytes as its `size` says, and where the data are shorter, bytes of
  -- the new buffer that nothing has written, which no request has sent; or the body is empty, as for
  -- an index behind the end.
  pub answer-Viewed :
      {t : Site} (r : Reach E root need_eof is_upgrade t) (path : Text) (req : Request)
      (res : Response)
      → resolve E.matches path routes ≡ some picture
      → (handler E root path req t.app).1 ≡ ok res
      → res.status ≡ status_ok
      → (v : PictureView) × (res.body ≡ text v.bytes)
        × (IsPosted E root (requested r) v.bytes ⊎ (v.bytes ≡ []))
  unfolding handler dispatch
  answer-Viewed {t} r path req res found answered good =
      let (v, body, shown) =
        handle_request-Replies (Viewed E root (requested r)) E.json req E.split E.convert
          t.app.previews ((Reach-From r).1) res (rw found at answered) good in
      (v, body, Viewed-IsPosted E root (requested r) v shown)
