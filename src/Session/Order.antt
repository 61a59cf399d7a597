-- ===== src/Session/Order.antt =====
-- Responses go out in the order of the requests.
use beast_examples.Common.{
  ℕ, ◌≡◌, refl, sym, ◌∙◌, Bool, true, List, [], ◌∷◌, ◌++◌, Text, tail, arith, append_assoc,
  append-nil, length-append, ok-injective, Bool-cases, inl, inr, >>=-eq-ok, Result, ok, throw,
  if◌then◌else◌,
}
use beast_examples.Http.{Request, Response, ErrorCode, success, operation_aborted}
use beast_examples.Session.{
  Session, Expiry, Handler, push, queue_on_write, do_read, do_close, check_expiry, on_timer, run,
  on_write, on_read, time_min, time_max, at, respond,
}
use beast_examples.Session.Moves.{
  Moved, by_run, by_read, by_write, by_cancelled, by_timer, by_other, step-Moved, next_session,
  after_step-eq-next,
}
use beast_examples.Session.Runs.{
  Event, read_done, World, Fate, next, blocked, crashed, step, run_events,
}

-- The responses whose write was started, then those that wait behind the front one.
abbrev pub accepted : Session → List Response
accepted s = s.started ++ tail s.workers

accepted-push :
    (m : Response) (s : Session) (ws : List Response)
    → s.workers ≡ ws
    → accepted (push m s) ≡ accepted s ++ m ∷ []
unfolding push
accepted-push m s [] e = ground (arith, append-nil s.started, append-nil (s.started ++ m ∷ []))
accepted-push m s (w ∷ ws) e =
    ground (arith, append_assoc s.started ws (m ∷ []), length-append ws (m ∷ []))

accepted-queue_on_write :
    (s : Session) (ws : List Response) → s.workers ≡ ws → accepted (queue_on_write s).1 ≡ accepted s
unfolding queue_on_write
accepted-queue_on_write s [] e = ground arith
accepted-queue_on_write s (w ∷ []) e = ground arith
accepted-queue_on_write s (w ∷ v ∷ ws) e = ground (arith, append_assoc s.started (v ∷ []) ws)

accepted-check_expiry :
    (e : Expiry) (now : ℕ) (s : Session) → accepted (check_expiry e now s) ≡ accepted s
unfolding check_expiry
accepted-check_expiry time_min now s = refl
accepted-check_expiry time_max now s = refl
accepted-check_expiry (at t) now s = ground arith

accepted-on_timer :
    (e : ErrorCode) (now : ℕ) (s : Session) → accepted (on_timer e now s) ≡ accepted s
unfolding on_timer
accepted-on_timer success now s = accepted-check_expiry s.expiry now s
accepted-on_timer operation_aborted now s = accepted-check_expiry s.expiry now s
accepted-on_timer _ now s = refl

accepted-run : (now : ℕ) (s : Session) → accepted (run true now s) ≡ accepted s
unfolding run do_read
accepted-run now s = accepted-on_timer success now s

accepted-on_write :
    (e : ErrorCode) (close : Bool) (now : ℕ) (s : Session)
    → accepted (on_write e close now s) ≡ accepted s
unfolding on_write do_read do_close
accepted-on_write success close now s = ground (arith, accepted-queue_on_write s s.workers refl)
accepted-on_write _ close now s = refl

module _ {ℓ} {S : Type ℓ} (need_eof : Response → Bool) (is_upgrade : Request → Bool)
    (resolve : Text → Handler S) where
  -- The handler's response to a request that was read, unless it is an upgrade.
  abbrev pub answer_list : Result Response → List Response
  answer_list (ok m) = m ∷ []
  answer_list (throw e) = []

  abbrev pub answers : Event S → S → List Response
  answers (read_done success req) server =
      if is_upgrade req then [] else answer_list (resolve req.target req server).1
  answers _ server = []

  abbrev pub answers_after : Fate S → (World S → List Response) → List Response
  answers_after (next w) k = k w
  answers_after blocked k = []
  answers_after (crashed e) k = []

  -- The responses of the handlers over a run, in the order of the requests.
  unfoldable pub all_answers : List (ℕ × Event S) → World S → List Response
  all_answers [] w = []
  all_answers ((now, e) ∷ es) w =
      answers e w.server
      ++ answers_after (step need_eof is_upgrade resolve now e w) (λ w'. all_answers es w')

  accepted-on_read :
      (e : ErrorCode) (req : Request) (now : ℕ) (s s' : Session) (server : S)
      → (on_read is_upgrade resolve e req now s server).1 ≡ ok s'
      → accepted s' ≡ accepted s ++ answers (read_done e req) server
  unfolding on_read do_close do_read
  accepted-on_read success req now s s' server h = elim (Bool-cases (is_upgrade req)) [
    | inl up ↦ rw (up, ← ok-injective {A = Session} (rw up at h)) (sym (append-nil _))
    | inr plain ↦
        let (m, e, h') = >>=-eq-ok (resolve req.target req server).1 _ (rw plain at h) in
        rw (plain, e, ← ok-injective h') (respond_case m)
  ]
    where
      respond_case : (m : Response) → accepted (respond now s m) ≡ accepted s ++ m ∷ []
      respond_case m = ground (arith, accepted-push m s s.workers refl)
  accepted-on_read _ req now s s' server h = rw (← ok-injective h) (sym (append-nil _))

  accepted-Moved :
      (now : ℕ) (server : S) {s s' : Session} {e : Event S}
      → Moved need_eof is_upgrade resolve now server s s' e
      → accepted s' ≡ accepted s ++ answers e server
  accepted-Moved now server {s} (by_run n k e) =
      rw (← e, append-nil) (accepted-run now (record s { posts = n }))
  accepted-Moved now server {s} {s'} (by_read c req n k e) =
      accepted-on_read c req now (record s { reads = n }) s' server e
  accepted-Moved now server {s} (by_write c m ms k e) =
      rw (← e, append-nil) (accepted-on_write c (need_eof m) now (record s { writes = ms }))
  accepted-Moved now server {s} (by_cancelled n k e) =
      rw (← e, append-nil) (accepted-on_timer operation_aborted now (record s { cancelled = n }))
  accepted-Moved now server {s} (by_timer c n k e) =
      rw (← e, append-nil) (accepted-on_timer c now (record s { waiting = n }))
  accepted-Moved now server (by_other changed e) = rw (← e, append-nil)

  -- Responses leave in the order of their requests: over any run, the responses whose write was
  -- started, followed by those that wait behind the front of the queue, are those of before the run
  -- followed by the handlers' responses to the requests read in it, in order. None is lost,
  -- repeated or overtaken.
  pub accepted-run_events :
      (es : List (ℕ × Event S)) (w w' : World S)
      → run_events need_eof is_upgrade resolve es w ≡ next w'
      → accepted w'.session ≡ accepted w.session ++ all_answers es w
  unfolding run_events all_answers
  accepted-run_events [] w w' h = rw (← next_session h, append-nil)
  accepted-run_events ((now, e) ∷ es) w w' h =
      let (v, here, rest) =
        after_step-eq-next (step need_eof is_upgrade resolve now e w)
          (run_events need_eof is_upgrade resolve es) w' h in
      accepted-run_events es v w' rest
      ∙ rw (here) (
          rw (accepted-Moved now w.server (step-Moved need_eof is_upgrade resolve now e w v here))
            (append_assoc (accepted w.session) _ _))
