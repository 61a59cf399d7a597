-- ===== src/Session/Invariant.antt =====
-- What holds in every state of a session: one read, one write and one timer wait at most are
-- pending, and the queue stays within its limit.
use beast_examples.Common.{
  ℕ, ◌+◌, ◌≤◌, ◌≡◌, refl, inl, inr, Bool, List, [], ◌∷◌, Text, length, arith, length-append, subst,
  ok-injective, Bool-cases, >>=-eq-ok, ok, true,
}
use beast_examples.Http.{Request, Response, ErrorCode, success, operation_aborted, end_of_stream}
use beast_examples.Session.{
  Session, Expiry, Handler, limit, push, queue_on_write, do_read, do_close, check_expiry, on_timer,
  run, on_write, on_read, time_min, time_max, at, respond,
}
use beast_examples.Session.Moves.{
  Moved, by_run, by_read, by_write, by_cancelled, by_timer, by_other, step-Moved, next_session,
  after_step-eq-next,
}
use beast_examples.Session.Runs.{Event, World, next, step, run_events}

-- The message being written is the front worker's.
abbrev pub WritesFront : List Response → List Response → Type 0
WritesFront [] workers = Unit {0}
WritesFront (m ∷ ms) [] = ⊥
WritesFront (m ∷ ms) (n ∷ ns) = (m ≡ n) × (ms ≡ [])

-- `s` is a state between two handlers.
pub record Inv (s : Session) : Type 0 where
  pub one_read : s.posts + s.reads ≤ 1
  pub room : s.posts + s.reads + length s.workers ≤ limit
  pub one_write : WritesFront s.writes s.workers
  pub one_wait : s.posts + s.waiting + s.cancelled ≤ 1

-- With `s` inside a handler that has spent its operation: `r` reads and `t` waits were spent.
abbrev Spent : ℕ → ℕ → Session → Type 0
Spent r t s =
    (s.posts + s.reads + r ≤ 1)
    × (s.posts + s.reads + r + length s.workers ≤ limit)
    × WritesFront s.writes s.workers
    × (s.posts + s.waiting + s.cancelled + t ≤ 1)

push-Inv :
    (m : Response) (s : Session) (ws : List Response)
    → s.workers ≡ ws
    → Spent 1 0 s
    → Spent 0 0 (push m s) × (push m s).posts + (push m s).reads ≤ 0
unfolding push
push-Inv m s [] e h = ground (arith, length-append s.workers (m ∷ []))
push-Inv m s (w ∷ ws) e h = ground (arith, length-append s.workers (m ∷ []))

check_expiry-Inv : (e : Expiry) (now : ℕ) (s : Session) → Spent 0 1 s → Inv (check_expiry e now s)
unfolding check_expiry
check_expiry-Inv time_min now s h = ground arith
check_expiry-Inv time_max now s h = ground arith
check_expiry-Inv (at t) now s h = ground arith

queue_on_write-Inv :
    (s : Session) (ws : List Response)
    → s.workers ≡ ws
    → s.writes ≡ []
    → Spent 0 0 s
    → Inv (queue_on_write s).1
unfolding queue_on_write
queue_on_write-Inv s [] e k h = ground arith
queue_on_write-Inv s (w ∷ []) e k h = ground arith
queue_on_write-Inv s (w ∷ v ∷ ws) e k h = ground arith

respond-Inv : (now : ℕ) (m : Response) (s : Session) → Spent 1 0 s → Inv (respond now s m)
unfolding do_read
respond-Inv now m s h = ground (arith, push-Inv m s s.workers refl h)

on_timer-Inv : (e : ErrorCode) (now : ℕ) (s : Session) → Spent 0 1 s → Inv (on_timer e now s)
unfolding on_timer
on_timer-Inv success now s h = check_expiry-Inv s.expiry now s h
on_timer-Inv operation_aborted now s h = check_expiry-Inv s.expiry now s h
on_timer-Inv _ now s h = ground arith

run-Inv : (now : ℕ) (s : Session) → Spent 1 1 s → Inv (run true now s)
unfolding run do_read
run-Inv now s h = ground arith

on_write-Inv :
    (e : ErrorCode) (close : Bool) (now : ℕ) (s : Session)
    → s.writes ≡ []
    → Spent 0 0 s
    → Inv (on_write e close now s)
unfolding on_write
on_write-Inv success close now s k h = ground (arith, queue_on_write-Inv s s.workers refl k h)
on_write-Inv _ close now s k h = ground arith

-- The write that completes was the only one.
pub written :
    {m : Response} {ms : List Response} (writes workers : List Response)
    → writes ≡ m ∷ ms
    → WritesFront writes workers
    → ms ≡ []
written [] workers e h = cc
written (n ∷ ns) [] e h = absurd h
written (n ∷ ns) (x ∷ xs) e h = cc (h.1)

module _ {ℓ} {S : Type ℓ} (need_eof : Response → Bool) (is_upgrade : Request → Bool)
    (resolve : Text → Handler S) where
  on_read-Inv :
      (e : ErrorCode) (req : Request) (now : ℕ) (s s' : Session) (server : S)
      → Spent 1 0 s
      → (on_read is_upgrade resolve e req now s server).1 ≡ ok s'
      → Inv s'
  unfolding on_read do_close
  on_read-Inv success req now s s' server h e = elim (Bool-cases (is_upgrade req)) [
    | inl up ↦ subst Inv (ok-injective (rw up at e)) (ground arith)
    | inr plain ↦
        let (m, _, e') = >>=-eq-ok (resolve req.target req server).1 _ (rw plain at e) in
        subst Inv (ok-injective e') (respond-Inv now m s h)
  ]
  on_read-Inv end_of_stream req now s s' server h e = subst Inv (ok-injective e) (ground arith)
  on_read-Inv _ req now s s' server h e = subst Inv (ok-injective e) (ground arith)

  Moved-Inv :
      (now : ℕ) (server : S) {s s' : Session} {e : Event S}
      → Moved need_eof is_upgrade resolve now server s s' e
      → Inv s
      → Inv s'
  Moved-Inv now server {s} (by_run n k e) h =
      subst Inv e (run-Inv now _ (omega arith, omega arith, h.one_write, omega arith))
  Moved-Inv now server {s} {s'} (by_read c req n k e) h =
      on_read-Inv c req now _ s' server (omega arith, omega arith, h.one_write, omega arith) e
  Moved-Inv now server {s} (by_write c m ms k e) h = subst Inv e (
      on_write-Inv c (need_eof m) now _ (written s.writes s.workers k h.one_write)
        (omega arith, omega arith, rw (written s.writes s.workers k h.one_write) tt, omega arith))
  Moved-Inv now server {s} (by_cancelled n k e) h =
      subst Inv e
        (on_timer-Inv operation_aborted now _ (omega arith, omega arith, h.one_write, omega arith))
  Moved-Inv now server {s} (by_timer c n k e) h =
      subst Inv e (on_timer-Inv c now _ (omega arith, omega arith, h.one_write, omega arith))
  Moved-Inv now server (by_other changed e) h = subst Inv e h

  -- Every event keeps the invariant.
  pub step-Inv :
      (now : ℕ) (e : Event S) (w w' : World S)
      → Inv w.session
      → step need_eof is_upgrade resolve now e w ≡ next w'
      → Inv w'.session
  step-Inv now e w w' h k =
      Moved-Inv now w.server (step-Moved need_eof is_upgrade resolve now e w w' k) h

  -- Every run of events keeps this of a session, whatever the requests, the errors, the timing and
  -- the rest of the server do: at most one read, one write and one timer wait are pending, the
  -- message being written is the front of the queue, and the queue with the pending read does not
  -- pass its limit of 16.
  pub run_events-Inv :
      (es : List (ℕ × Event S)) (w w' : World S)
      → Inv w.session
      → run_events need_eof is_upgrade resolve es w ≡ next w'
      → Inv w'.session
  unfolding run_events
  run_events-Inv [] w w' h k = subst Inv (next_session k) h
  run_events-Inv ((now, e) ∷ es) w w' h k =
      let (v, here, rest) = after_step-eq-next _ _ w' k in
      run_events-Inv es v w' (step-Inv now e w v h here) rest
