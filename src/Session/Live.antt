-- ===== src/Session/Live.antt =====
-- What keeps an open session going, one operation at a time (src/HttpSession.cpp).
use beast_examples.Common.{
  ℕ, ◌+◌, ◌≡◌, ◌≢◌, refl, ◌⊎◌, Bool, true, false, List, [], ◌∷◌, length, take, arith, length-append,
}
use beast_examples.Http.{Response, ErrorCode, success, operation_aborted}
use beast_examples.Session.{
  Session, Expiry, limit, push, queue_on_write, do_read, do_close, check_expiry, on_timer, run,
  on_write, time_min, time_max, at, respond,
}
use beast_examples.Session.Invariant.{Inv}
use beast_examples.Session.Runs.{Event, read_done, write_done, timer_done}

-- What an open session is doing between two handlers: it writes the front response if there is one,
-- it reads unless the queue is full, and it waits on its timer.
pub record Ready (s : Session) : Type 0 where
  pub writing : s.writes ≡ take 1 s.workers
  pub reading : (s.posts + s.reads ≡ 1) ⊎ (length s.workers ≡ limit)
  pub timing : s.posts + s.waiting + s.cancelled ≡ 1
  pub here : s.expiry ≢ time_min

abbrev pub Live : Session → Type 0
Live s = (s.is_open ≡ false) ⊎ Ready s

-- No operation failed, but for timer waits that were cancelled.
abbrev pub IsCalm {ℓ} : {S : Type ℓ} → Event S → Type 0
IsCalm (read_done e req) = e ≡ success
IsCalm (write_done e) = e ≡ success
IsCalm (timer_done e) = (e ≡ success) ⊎ (e ≡ operation_aborted)
IsCalm _ = Unit

abbrev pub AllCalm {ℓ} : {S : Type ℓ} → List (ℕ × Event S) → Type 0
AllCalm [] = Unit
AllCalm ((now, e) ∷ es) = IsCalm e × AllCalm es

-- The fields that the queue does not touch.
abbrev SameRest : Session → Session → Type 0
SameRest s t =
    (t.posts ≡ s.posts)
    × (t.reads ≡ s.reads)
    × (t.waiting ≡ s.waiting)
    × (t.cancelled ≡ s.cancelled)
    × (t.expiry ≡ s.expiry)
    × (t.is_open ≡ s.is_open)

push-SameRest : (m : Response) (s : Session) → SameRest s (push m s)
unfolding push
push-SameRest m s = go s.workers refl
  where
    go : (ws : List Response) → s.workers ≡ ws → SameRest s (push m s)
    go [] e = ground arith
    go (w ∷ ws) e = ground (arith, length-append ws (m ∷ []))

queue_on_write-SameRest :
    (s : Session) (ws : List Response) → s.workers ≡ ws → SameRest s (queue_on_write s).1
unfolding queue_on_write
queue_on_write-SameRest s [] e = ground arith
queue_on_write-SameRest s (w ∷ []) e = ground arith
queue_on_write-SameRest s (w ∷ v ∷ ws) e = ground arith

push-writing :
    (m : Response) (s : Session) (ws : List Response)
    → s.workers ≡ ws
    → s.writes ≡ take 1 s.workers
    → ((push m s).writes ≡ take 1 (push m s).workers)
      × (length (push m s).workers ≡ length s.workers + 1)
unfolding push
push-writing m s [] e h = ground (arith, length-append s.workers (m ∷ []))
push-writing m s (w ∷ ws) e h =
    ground (arith, length-append s.workers (m ∷ []), length-append ws (m ∷ []))

-- The write of the front response has completed.
queue_on_write-writing :
    (s : Session) (w : Response) (ws : List Response)
    → s.workers ≡ w ∷ ws
    → s.writes ≡ []
    → ((queue_on_write s).1.writes ≡ take 1 (queue_on_write s).1.workers)
      × (length s.workers ≡ length (queue_on_write s).1.workers + 1)
unfolding queue_on_write
queue_on_write-writing s w [] e h = ground arith
queue_on_write-writing s w (v ∷ ws) e h = ground arith

check_expiry-Live :
    (e : Expiry) (now : ℕ) (s : Session)
    → s.expiry ≡ e
    → Live (record s { waiting = s.waiting + 1 })
    → Live (check_expiry e now s)
unfolding check_expiry
check_expiry-Live time_min now s k h = ground arith
check_expiry-Live time_max now s k h = ground arith
check_expiry-Live (at t) now s k h = ground arith

pub respond-Live :
    (now : ℕ) (m : Response) (s : Session)
    → Inv (record s { reads = s.reads + 1 })
    → Live (record s { reads = s.reads + 1 })
    → Live (respond now s m)
unfolding do_read
respond-Live now m s v h = ground (arith, push-writing m s s.workers refl, push-SameRest m s)

pub on_timer-Live :
    (e : ErrorCode) (now : ℕ) (s : Session)
    → (e ≡ success) ⊎ (e ≡ operation_aborted)
    → Live (record s { waiting = s.waiting + 1 })
    → Live (on_timer e now s)
unfolding on_timer
on_timer-Live success now s c h = check_expiry-Live s.expiry now s refl h
on_timer-Live operation_aborted now s c h = check_expiry-Live s.expiry now s refl h
on_timer-Live _ now s c h = ground arith

pub run-Live :
    (now : ℕ) (s : Session)
    → Inv (record s { posts = s.posts + 1 })
    → Live (record s { posts = s.posts + 1 })
    → Live (run true now s)
unfolding run do_read
run-Live now s v h = ground (arith, on_timer-Live success now s)

pub on_write-Live :
    (close : Bool) (now : ℕ) (s : Session) (w : Response) (ws : List Response)
    → s.workers ≡ w ∷ ws
    → s.writes ≡ []
    → Inv s
    → (s.is_open ≡ false) ⊎ Ready (record s { writes = w ∷ [] })
    → Live (on_write success close now s)
unfolding on_write do_read do_close
on_write-Live close now s w ws e k v h =
    ground (arith, queue_on_write-writing s w ws e k, queue_on_write-SameRest s (w ∷ ws) e)
