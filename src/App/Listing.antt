-- ===== src/App/Listing.antt =====
-- What a client is listed by the whole server (src/main.cpp, src/PicturePreviewHandler.cpp).
use beast_examples.Common.{
  text_eq, subst, ◌≡◌, refl, sym, Bool, true, ◌||◌, List, [], ◌∷◌, ◌++◌, map, take, drop, Text,
  codes, none, some, ok, catch, inl,
}
use beast_examples.Common.Assoc.{lookup}
use beast_examples.Json.{JsonLib}
use beast_examples.Http.{Request, Response, is_get, is_post}
use beast_examples.Utils.{create_json_ok}
use beast_examples.JsonApi
use beast_examples.JsonApi.{recover}
use beast_examples.Preview.Defs.{Pictures, Previews}
use beast_examples.Preview.Holding.{Found, Holds, since, at_most, collect-Holds}
use beast_examples.Preview.Serving.{to_json, list_preview}
use beast_examples.Preview.Trimming.{Inv, Stored}
use beast_examples.Server.{list_pictures, routes, resolve, after_last, list_handler}
use beast_examples.Server.Laws.{NoneMatches, resolve-append}
use beast_examples.App.{Outside, dispatch, handler}
use beast_examples.App.Sessions.{Site, Reach}
use beast_examples.App.Reachable.{Reach-SiteInv}
use beast_examples.Preview.Drawing.{Draws}

abbrev pub prev_query : Text
prev_query = codes "?prev="

after_last-here :
    (prev : Text)
    → after_last prev_query prev ≡ none
    → after_last prev_query (prev_query ++ prev) ≡ some prev
unfolding after_last
after_last-here prev h = rw h refl

-- The query is what follows the last `?prev=`.
after_last-append :
    (lead prev : Text)
    → after_last prev_query prev ≡ none
    → after_last prev_query (lead ++ (prev_query ++ prev)) ≡ some prev
unfolding after_last
after_last-append [] prev h = after_last-here prev h
after_last-append (c ∷ lead) prev h = rw (after_last-append lead prev h) refl

-- A consistent store holds the previews of its identifiers.
Stored-Found :
    (m : List (Text × Pictures)) (ids : List Text)
    → Stored m ids
    → (pss : List Pictures) × (ids ≡ map (λ ps. ps.uuid) pss) × Found m pss
Stored-Found m [] h = ([], refl, tt)
Stored-Found m (k ∷ ids) ((ps, found, named), h) =
    let (pss, e, all) = Stored-Found m ids h in
    (ps ∷ pss, rw (named, e) refl, (subst (λ j. lookup j m ≡ some ps) (sym named) found, all))

Inv-Holds : (p : Previews) → Inv p → (pss : List Pictures) × Holds p pss
Inv-Holds p v =
    let (pss, e, all) = Stored-Found p.pictures p.ids v.stored in
    (pss, record { order = e; found = all })

-- The JSON of some previews.
abbrev pub listing : (J : JsonLib) → List Pictures → J.Json
listing J pss = J.object ((codes "pictures", J.array (map (to_json J) pss)) ∷ [])

list_handler-Holds :
    (J : JsonLib) (req : Request) (lead prev : Text) (p : Previews) (pss : List Pictures)
    → req.target ≡ lead ++ (prev_query ++ prev)
    → after_last prev_query prev ≡ none
    → Holds p pss
    → (list_handler J req p).1 ≡ ok (listing J (at_most 10 (since prev pss)))
unfolding list_handler list_preview
list_handler-Holds J req lead prev p pss e h holds =
    rw (e, after_last-append lead prev h, collect-Holds prev 10 p pss holds) refl

-- A path matches the pattern of the list, and no earlier one of the table.
abbrev pub IsListPath : (Text → Text → Bool) → Text → Type 0
IsListPath matches path =
    NoneMatches matches path (take 6 routes)
    × (matches path (codes "^/api/v1/realtime/preview(\\?prev=.+)?$") ≡ true)

resolve-IsListPath :
    (matches : Text → Text → Bool) (path : Text)
    → IsListPath matches path
    → resolve matches path routes ≡ some list_pictures
unfolding routes
resolve-IsListPath matches path (misses, hit) =
    resolve-append matches path (codes "^/api/v1/realtime/preview(\\?prev=.+)?$") list_pictures
      (take 6 routes) (drop 7 routes) misses (inl hit)

module _ (E : Outside) (root : Text) (need_eof : Response → Bool) (is_upgrade : Request → Bool)
    (d : Draws E.random) where
  -- In every state that the server reaches, a GET or POST for a path that matches the pattern of the
  -- list, and ends in `?prev=` and an identifier, is answered with the JSON of the newest of the
  -- stored previews, those made after that identifier and 10 at most, with `"ret"` 0; or, should that
  -- fail to be added or dumped, as any exception of a JSON handler is. (The generator draws no
  -- identifier twice, and the identifier has no `?prev=` in it.)
  pub answer-list_handler :
      {s : Site} (req : Request) (lead prev : Text)
      → Reach E root need_eof is_upgrade s
      → req.target ≡ lead ++ (prev_query ++ prev)
      → after_last prev_query prev ≡ none
      → IsListPath E.matches req.target
      → (is_get req.method || is_post req.method) ≡ true
      → (pss : List Pictures) × Holds s.app.previews pss
        × ((handler E root req.target req s.app).1
            ≡ catch
                (create_json_ok E.json req (listing E.json (at_most 10 (since prev pss))))
                (recover E.json req))
  unfolding handler dispatch JsonApi.handle_request
  answer-list_handler {s} req lead prev reach e h path allowed =
      let v = (Reach-SiteInv E root need_eof is_upgrade d reach).0.previews.0 in
      let (pss, holds) = Inv-Holds s.app.previews v in
      let found = resolve-IsListPath E.matches req.target path in
      let listed = list_handler-Holds E.json req lead prev s.app.previews pss e h holds in
      (pss, holds, rw (found, allowed, listed) refl)
