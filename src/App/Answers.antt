-- ===== src/App/Answers.antt =====
-- Which exceptions of the handlers reach the event loop (src/main.cpp, src/HttpSession.cpp).
use beast_examples.Common.{
  Option-cases, ℕ, zero, suc, ◌≤◌, ◌≡◌, refl, Bool, false, List, [], ◌∷◌, length, Text, none, some,
  Result, ok, throw, Exn, inl, inr,
}
use beast_examples.Utils.{is_directory}
use beast_examples.Http.{Request, Response, ErrorCode, operation_aborted}
use beast_examples.Static.Laws.{handle_request-Answered}
use beast_examples.Sampling.{stop_handler, status_handler}
use beast_examples.Server.{
  first_match, Route, version_api, sampling_start, sampling_status, sampling_stop, picture,
  post_picture, list_pictures, files, routes, resolve, post_handler, list_handler,
}
use beast_examples.Session.{on_read, Session}
use beast_examples.Session.Progress.{on_read-eq-throw_iff}
use beast_examples.Session.Runs.{
  after_step, fate, spend, spend_write, Event, ran, read_done, write_done, timer_done, elsewhere,
  World, Fate, blocked, crashed, next, step, run_events,
}
use beast_examples.App.Undumped.{Undumped, json-Undumped, picture-Undumped}
use beast_examples.App.{start_seen, Outside, App, dispatch, handler, version_handler, create}

-- The fuel of the loop over directories: `stat` fails for every path of `limit` characters or more.
pub record Shallow (E : Outside) : Type 0 where
  pub limit : ℕ
  pub deep : E.depth ≡ suc limit
  pub shallow : (path : Text) → limit ≤ length path → E.stat path ≡ none

-- The table has a handler for every path.
resolve-routes :
    (matches : Text → Text → Bool) (path : Text)
    → (route : Route) × (resolve matches path routes ≡ some route)
unfolding resolve routes
resolve-routes matches path = elim (Option-cases (first_match matches path routes)) [
  | inl none_matches ↦ (files, rw (none_matches, resolve))
  | inr (route, e) ↦ (route, rw (e, resolve))
]

fate-crashed {ℓ} :
    {S : Type ℓ} (r : S × Result Session) (x : Exn) → fate r ≡ crashed x → r.1 ≡ throw x
fate-crashed (s, ok t) x h = cc
fate-crashed (s, throw y) x h = cc

-- What follows from every crash of what goes on.
module _ {ℓ} {S : Type ℓ} (x : Exn) (P : Type 0) where
  spend-crashed :
      (n : ℕ) (k : ℕ → Fate S) → ((m : ℕ) → k m ≡ crashed x → P) → spend n k ≡ crashed x → P
  spend-crashed zero k go h = cc
  spend-crashed (suc n) k go h = go n h

  spend_write-crashed :
      (ms : List Response) (k : Response → List Response → Fate S)
      → ((m : Response) (ns : List Response) → k m ns ≡ crashed x → P)
      → spend_write ms k ≡ crashed x
      → P
  spend_write-crashed [] k go h = cc
  spend_write-crashed (m ∷ ms) k go h = go m ms h

  after_step-crashed :
      (f : Fate S) (k : World S → Fate S)
      → (f ≡ crashed x → P)
      → ((w : World S) → k w ≡ crashed x → P)
      → after_step f k ≡ crashed x
      → P
  after_step-crashed (next w) k here rest h = rest w h
  after_step-crashed blocked k here rest h = cc
  after_step-crashed (crashed y) k here rest h = here h

module _ (E : Outside) (root : Text) (fuel : Shallow E) (x : Exn) where
  no_directory :
      (path : Text) → fuel.limit ≤ length path → is_directory E.stat E.is_dir_mode path ≡ false
  unfolding is_directory
  no_directory path long = rw (fuel.shallow path long, is_directory) refl

  dispatch-Undumped :
      (route : Route) (req : Request) (s : App)
      → (dispatch E root route req s).1 ≡ throw x
      → Undumped E.json x
  unfolding dispatch
  dispatch-Undumped version_api req s h = json-Undumped E.json req x (version_handler E root) s h
  dispatch-Undumped sampling_start req s h =
      json-Undumped E.json req x (start_seen E root s.turn) s.mock h
  dispatch-Undumped sampling_status req s h =
      json-Undumped E.json req x (status_handler E.json E.convert) s.mock h
  dispatch-Undumped sampling_stop req s h =
      json-Undumped E.json req x (stop_handler E.json) s.mock h
  dispatch-Undumped picture req s h = picture-Undumped E.json req x E.split E.convert s.previews h
  dispatch-Undumped post_picture req s h =
      json-Undumped E.json req x
        (post_handler E.json E.decode E.encode (E.clock s.turn) (create E root s.turn))
        (s.cache, s.previews) h
  dispatch-Undumped list_pictures req s h =
      json-Undumped E.json req x (list_handler E.json) s.previews h
  dispatch-Undumped files req s h =
      let (res, e, _) =
        handle_request-Answered E.iequals E.message (is_directory E.stat E.is_dir_mode) E.open_file
          fuel.limit root req no_directory in
      let answered : (dispatch E root files req s).1 ≡ ok res = rw (fuel.deep) (rw e) in
      absurd (cc (answered, h))

  handler-Undumped :
      (path : Text) (req : Request) (s : App)
      → (handler E root path req s).1 ≡ throw x
      → Undumped E.json x
  unfolding handler
  handler-Undumped path req s h =
      let (route, e) = resolve-routes E.matches path in dispatch-Undumped route req s (rw e at h)

  module _ (need_eof : Response → Bool) (is_upgrade : Request → Bool) where
    on_read-Undumped :
        (e : ErrorCode) (req : Request) (now : ℕ) (t : Session) (s : App)
        → (on_read is_upgrade (handler E root) e req now t s).1 ≡ throw x
        → Undumped E.json x
    on_read-Undumped e req now t s h =
        let (_, _, thrown) =
          (on_read-eq-throw_iff is_upgrade (handler E root) e req now t s x).0 h in
        handler-Undumped req.target req s thrown

    step-Undumped :
        (now : ℕ) (e : Event App) (w : World App)
        → step need_eof is_upgrade (handler E root) now e w ≡ crashed x
        → Undumped E.json x
    unfolding step
    step-Undumped now ran w h = spend-crashed x _ w.session.posts _ (λ m k. cc) h
    step-Undumped now (read_done e req) w h =
        spend-crashed x _ w.session.reads _
          (λ m k. on_read-Undumped e req now _ w.server (fate-crashed _ x k)) h
    step-Undumped now (write_done e) w h =
        spend_write-crashed x _ w.session.writes _ (λ m ns k. cc) h
    step-Undumped now (timer_done operation_aborted) w h =
        spend-crashed x _ w.session.cancelled _ (λ m k. cc) h
    step-Undumped now (timer_done e) w h = spend-crashed x _ w.session.waiting _ (λ m k. cc) h
    step-Undumped now (elsewhere server) w h = cc

    -- Whatever is requested of the server in a session, in whatever state, and whatever else
    -- happens: if its events end with an exception in the event loop, that exception was thrown when
    -- the JSON of an error was dumped. No other exception of a handler gets there. (`stat` fails for
    -- paths from some length on, so that the fuel is enough for the loop over directories.)
    pub run_events-Undumped :
        (es : List (ℕ × Event App)) (w : World App)
        → run_events need_eof is_upgrade (handler E root) es w ≡ crashed x
        → Undumped E.json x
    unfolding run_events
    run_events-Undumped [] w h = cc
    run_events-Undumped ((now, e) ∷ es) w h =
        after_step-crashed x _ (step need_eof is_upgrade (handler E root) now e w) _
          (step-Undumped now e w) (λ v. run_events-Undumped es v) h
