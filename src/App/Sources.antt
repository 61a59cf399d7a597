-- ===== src/App/Sources.antt =====
-- The requests that the pictures of the cache and of the previews were read from (src/main.cpp).
use beast_examples.Common.{
  ◌⊎◌, >>=-eq-ok, ok-injective, ap, subst, sym, ℕ, ◌≡◌, refl, Option-cases, Result-cases, inl, inr,
  List, [], ◌∷◌, ◌++◌, All, All-weaken, Mem, mem-cons_self, mem-append_right, Text, some, ok,
  text_eq, nat_eq,
}
use beast_examples.Http.{Request}
use beast_examples.Picture.{Wrapper, from_json}
use beast_examples.Picture.Reading.{IsDataOf, from_json-Reads}
use beast_examples.Preview.Defs.{PictureView, Previews, view_of}
use beast_examples.Preview.Sources.{Stored, Showing, create_preview-Stored}
use beast_examples.Cache.{Cache}
use beast_examples.Cache.Sources.{AllLines, Holding}
use beast_examples.Cache.Yielding.{add_picture-Holding}
use beast_examples.Server.{
  Route, version_api, sampling_start, sampling_status, sampling_stop, picture, post_picture,
  list_pictures, files, routes, resolve, post_handler, list_handler, parse_picture,
}
use beast_examples.App.{Outside, App, dispatch, handler, version_handler, create}
use beast_examples.App.Invariant.{json_keeps}

-- A cache and previews, all of whose pictures are as `G` and `V` say.
abbrev pub Sourced : (Wrapper → Type 0) → (PictureView → Type 0) → Cache × Previews → Type 0
Sourced G V (c, p) = Holding G c × Stored V p

Sourced-weaken :
    (G G' : Wrapper → Type 0) (V V' : PictureView → Type 0) (r : Cache × Previews)
    → ((w : Wrapper) → G w → G' w)
    → ((v : PictureView) → V v → V' v)
    → Sourced G V r
    → Sourced G' V' r
Sourced-weaken G G' V V' (c, p) g v (h, k) = (
  record {
    faces =
        All-weaken (λ entry. G entry.1) (λ entry. G' entry.1) (λ entry. g entry.1) c.faces h.faces;
    bodies =
        All-weaken (λ entry. AllLines G entry.1) (λ entry. AllLines G' entry.1)
          (λ entry. All-weaken (All G) (All G') (All-weaken G G' g) entry.1) c.bodies h.bodies;
  },
  All-weaken (λ entry. Showing V entry.1) (λ entry. Showing V' entry.1)
      (λ entry k. (All-weaken V V' v entry.1.snaps (k.0), All-weaken V V' v entry.1.tracks (k.1)))
      p.pictures k,
)

module _ (E : Outside) (root : Text) where
  -- The picture was read from the body of one of the requests, which was for the route of posts.
  abbrev pub Posted : List Request → Wrapper → Type 0
  Posted reqs w =
      (req : Request) × (now : ℕ) × Mem req reqs
      × (resolve E.matches req.target routes ≡ some post_picture)
      × (parse_picture E.json E.decode E.encode now req ≡ ok w)

  abbrev pub Viewed : List Request → PictureView → Type 0
  Viewed reqs v = (w : Wrapper) × Posted reqs w × (v ≡ view_of w.picture)

  -- The bytes that the buffer of a picture holds that one of the requests has posted.
  abbrev pub IsPosted : List Request → Text → Type 0
  IsPosted reqs bytes =
      (req : Request) × (json : E.json.Json) × Mem req reqs
      × (resolve E.matches req.target routes ≡ some post_picture)
      × (E.json.parse req.body ≡ ok json)
      × IsDataOf E.json E.decode json bytes

  pub Viewed-IsPosted :
      (reqs : List Request) (v : PictureView)
      → Viewed reqs v ⊎ (v.bytes ≡ [])
      → IsPosted reqs v.bytes ⊎ (v.bytes ≡ [])
  Viewed-IsPosted reqs v (inr nothing) = inr nothing
  Viewed-IsPosted reqs v (inl (w, (req, now, m, there, e), same)) =
      let (json, parsed, e') = >>=-eq-ok (E.json.parse req.body) _ e in
      let (r, read, made) = >>=-eq-ok (from_json E.json E.encode E.decode json) _ e' in
      let picture_of : r.0 ≡ w.picture = ap (λ x. x.picture) (ok-injective made) in
      inl (
        req,
        json,
        m,
        there,
        parsed,
        subst (λ u. IsDataOf E.json E.decode json u.bytes) (sym same)
            (subst (λ p. IsDataOf E.json E.decode json (view_of p).bytes) picture_of
              (from_json-Reads E.json E.encode E.decode json r read)),
      )

  -- The state, after these requests.
  abbrev pub From : List Request → App → Type 0
  From reqs s = Sourced (Posted reqs) (Viewed reqs) (s.cache, s.previews)

  pub later-From :
      (more reqs : List Request) (r : Cache × Previews)
      → Sourced (Posted reqs) (Viewed reqs) r
      → Sourced (Posted (more ++ reqs)) (Viewed (more ++ reqs)) r
  later-From more reqs r =
      Sourced-weaken (Posted reqs) (Posted (more ++ reqs)) (Viewed reqs) (Viewed (more ++ reqs)) r
        old (λ v k. let (w, p, e) = k in (w, old w p, e))
    where
      old : (w : Wrapper) → Posted reqs w → Posted (more ++ reqs) w
      old w (req, now, m, there, e) = (req, now, mem-append_right more m, there, e)

  post_handler-Sourced :
      (req : Request) (reqs : List Request) (turn : ℕ) (c : Cache) (p : Previews)
      → resolve E.matches req.target routes ≡ some post_picture
      → Sourced (Posted (req ∷ reqs)) (Viewed (req ∷ reqs)) (c, p)
      → Sourced
          (Posted (req ∷ reqs))
          (Viewed (req ∷ reqs))
          (post_handler E.json E.decode E.encode (E.clock turn) (create E root turn) req (c, p)).0
  unfolding post_handler
  post_handler-Sourced req reqs turn c p there (h, k) =
      elim (Result-cases (parse_picture E.json E.decode E.encode (E.clock turn) req)) [
        | inr (e, bad) ↦ rw (bad, post_handler) (h, k)
        | inl (w, good) ↦
            rw (good, post_handler)
              (add_picture-Holding (Posted (req ∷ reqs)) (Viewed (req ∷ reqs)) (λ x y. (x, y, refl))
                (Stored (Viewed (req ∷ reqs))) (create E root turn)
                (λ views q vs old.
                  create_preview-Stored (Viewed (req ∷ reqs)) (E.clock turn) (E.random turn)
                    E.generate views q vs old)
                (E.clock turn) w c p (req, E.clock turn, mem-cons_self, there, good) h k)
      ]

  dispatch-From :
      (route : Route) (req : Request) (reqs : List Request) (s : App)
      → resolve E.matches req.target routes ≡ some route
      → From (req ∷ reqs) s
      → From (req ∷ reqs) (dispatch E root route req s).0
  unfolding dispatch list_handler
  dispatch-From version_api req reqs s there h =
      json_keeps E.json (From (req ∷ reqs)) (version_handler E root) req s h h
  dispatch-From sampling_start req reqs s there h = h
  dispatch-From sampling_status req reqs s there h = h
  dispatch-From sampling_stop req reqs s there h = h
  dispatch-From picture req reqs s there h = h
  dispatch-From post_picture req reqs s there h =
      json_keeps E.json (Sourced (Posted (req ∷ reqs)) (Viewed (req ∷ reqs)))
        (post_handler E.json E.decode E.encode (E.clock s.turn) (create E root s.turn)) req
        (s.cache, s.previews) h (post_handler-Sourced req reqs s.turn s.cache s.previews there h)
  dispatch-From list_pictures req reqs s there h =
      json_keeps E.json (λ p. Sourced (Posted (req ∷ reqs)) (Viewed (req ∷ reqs)) (s.cache, p))
        (list_handler E.json) req s.previews h h
  dispatch-From files req reqs s there h = h

  pub handler-From :
      (req : Request) (reqs : List Request) (s : App)
      → From reqs s
      → From (req ∷ reqs) (handler E root req.target req s).0
  unfolding handler
  handler-From req reqs s h =
      let h' : From (req ∷ reqs) s = later-From (req ∷ []) reqs (s.cache, s.previews) h in
      elim (Option-cases (resolve E.matches req.target routes)) [
        | inl missing ↦ rw missing h'
        | inr (route, found) ↦ rw found (dispatch-From route req reqs s found h')
      ]
