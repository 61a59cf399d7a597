-- ===== src/App/Framed.antt =====
-- How the responses of a session fit the requests that it reads (src/StaticRequestHandler.cpp,
-- src/HttpSession.cpp, src/main.cpp).
use beast_examples.Common.{
  ok-Gives, throw-Gives, Forall₂, ◌++◌, Option-cases, Bool-cases, ℕ, ◌≡◌, refl, Bool, false, true,
  not, ◌&&◌, if◌then◌else◌, List, Text, inl, inr, codes,
}
use beast_examples.Utils.{is_directory}
use beast_examples.Http.{
  Request, Response, Status, bad_request, not_found, internal_server_error, empty, file, ErrorCode,
  success, no_such_file, is_get, is_head,
}
use beast_examples.Static
use beast_examples.Static.{
  first_path, illegal, find_index, html_response, file_response, serve, create_bad_request,
  create_not_found, create_server_error,
}
use beast_examples.Sampling.{stop_handler, status_handler}
use beast_examples.Server.{
  Route, version_api, sampling_start, sampling_status, sampling_stop, picture, post_picture,
  list_pictures, files, routes, resolve, post_handler, list_handler,
}
use beast_examples.Session.Order.{accepted}
use beast_examples.Session.Replies.{asked, run_events-Forall₂}
use beast_examples.Session.Runs.{Event, World, next, run_events}
use beast_examples.App.{start_seen, Outside, App, sent, dispatch, handler, version_handler, create}
use beast_examples.App.Framing.{
  is_bare, is_ok, Sized, IsFramed, Frames, and_false, json-Frames, picture-Frames,
}

module _ (open_file : Text → ErrorCode × ℕ) (req : Request) where
  html_response-IsFramed :
      (st : Status) (message : Text)
      → is_ok st ≡ false
      → IsFramed open_file req (html_response req st message)
  html_response-IsFramed st message error = record {
    version = refl;
    signed = refl;
    kept = refl;
    sized = refl;
    bare = rw (error, and_false (is_head req.method));
  }

  file_body-Sized :
      (path : Text) (size : ℕ)
      → open_file path ≡ (success, size)
      → (is_h : Bool)
      → Sized open_file size (if is_h then empty else file path)
        × (is_bare (if is_h then empty else file path) ≡ (is_h && true))
  file_body-Sized path size h true = ((path, h), refl)
  file_body-Sized path size h false = (h, refl)

  module _ (iequals : Text → Text → Bool) (message : ErrorCode → Text) where
    file_response-IsFramed :
        (path : Text) (size : ℕ)
        → open_file path ≡ (success, size)
        → IsFramed open_file req (file_response iequals req path size)
    file_response-IsFramed path size h =
        let (fits, b) = file_body-Sized path size h (is_head req.method) in
        record { version = refl; signed = refl; kept = refl; sized = fits; bare = b }

    serve-IsFramed :
        (path : Text) (opened : ErrorCode × ℕ)
        → open_file path ≡ opened
        → IsFramed open_file req (serve iequals message req path opened)
    unfolding serve create_not_found create_server_error
    serve-IsFramed path (success, size) h = file_response-IsFramed path size h
    serve-IsFramed path (no_such_file, size) h = html_response-IsFramed not_found _ refl
    serve-IsFramed path (_, size) h = html_response-IsFramed internal_server_error _ refl

    file-Frames :
        (is_dir : Text → Bool) (depth : ℕ) (root : Text)
        → Frames open_file req
            (sent (Static.handle_request iequals message is_dir open_file depth root req))
    unfolding Static.handle_request create_bad_request
    file-Frames is_dir depth root =
        elim (Bool-cases (not (is_get req.method) && not (is_head req.method))) [
          | inl other ↦ rw other (
              ok-Gives (IsFramed open_file req) _
                (html_response-IsFramed bad_request (codes "Unsupported method.") refl))
          | inr allowed ↦ elim (Bool-cases (illegal req.target)) [
            | inl bad ↦
                rw (allowed, bad)
                  (ok-Gives (IsFramed open_file req) _
                    (html_response-IsFramed bad_request (codes "Illegal request-target") refl))
            | inr legal ↦
                rw (allowed, legal)
                  (elim (Option-cases (find_index is_dir depth (first_path root req))) [
                    | inl ended ↦ rw ended (throw-Gives (IsFramed open_file req) _)
                    | inr (path, found) ↦ rw found (
                        ok-Gives (IsFramed open_file req) _
                          (serve-IsFramed path (open_file path) refl))
                  ])
          ]
        ]

module _ (E : Outside) (root : Text) where
  dispatch-Frames :
      (route : Route) (req : Request) (s : App)
      → Frames E.open_file req ((dispatch E root route req s).1)
  unfolding dispatch
  dispatch-Frames version_api req s = json-Frames E.open_file req E.json (version_handler E root) s
  dispatch-Frames sampling_start req s =
      json-Frames E.open_file req E.json (start_seen E root s.turn) s.mock
  dispatch-Frames sampling_status req s =
      json-Frames E.open_file req E.json (status_handler E.json E.convert) s.mock
  dispatch-Frames sampling_stop req s =
      json-Frames E.open_file req E.json (stop_handler E.json) s.mock
  dispatch-Frames picture req s = picture-Frames E.open_file req E.json E.split E.convert s.previews
  dispatch-Frames post_picture req s =
      json-Frames E.open_file req E.json
        (post_handler E.json E.decode E.encode (E.clock s.turn) (create E root s.turn))
        (s.cache, s.previews)
  dispatch-Frames list_pictures req s =
      json-Frames E.open_file req E.json (list_handler E.json) s.previews
  dispatch-Frames files req s =
      file-Frames E.open_file req E.iequals E.message (is_directory E.stat E.is_dir_mode) E.depth
        root

  handler-Frames :
      (req : Request) (s : App) → Frames E.open_file req ((handler E root req.target req s).1)
  unfolding handler
  handler-Frames req s = elim (Option-cases (resolve E.matches req.target routes)) [
    | inl none_matches ↦ rw none_matches (throw-Gives (IsFramed E.open_file req) _)
    | inr (route, e) ↦ rw e (dispatch-Frames route req s)
  ]

  -- Over any run of events of a session, whatever the state and the rest of the server do, the
  -- responses that the session accepts (those whose write is started, then those that wait) are one
  -- for each request that it reads, upgrades excepted, in their order, and each fits its request: it
  -- has the request's version and keep-alive flag and the server's name, its length is that of its
  -- text or of the file that was opened, and its body is empty exactly where the request is a HEAD
  -- and the status is 200. A HEAD that is refused, or names no file, is thus answered with a body.
  pub run_events-IsFramed :
      (need_eof : Response → Bool) (is_upgrade : Request → Bool) (es : List (ℕ × Event App))
      (w w' : World App)
      → run_events need_eof is_upgrade (handler E root) es w ≡ next w'
      → (ms : List Response) × (accepted w'.session ≡ accepted w.session ++ ms)
        × Forall₂ (IsFramed E.open_file) (asked is_upgrade es) ms
  run_events-IsFramed need_eof is_upgrade =
      run_events-Forall₂ (IsFramed E.open_file) need_eof is_upgrade (handler E root) handler-Frames
