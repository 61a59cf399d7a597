-- ===== src/Websocket/Messages.antt =====
-- The messages of a websocket session (src/WebsocketSession.cpp).
use beast_examples.Common.{
  ℕ, zero, suc, ◌+◌, ◌-◌, ◌≤◌, arith, length, length-append, ◌≡◌, refl, ap, sym, ◌∙◌, Bool, true,
  false, ltb, if◌then◌else◌, List, [], ◌∷◌, ◌++◌, drop, append_assoc, append-nil, Text, none, some,
  Bool-cases, inl, inr,
}
use beast_examples.Http.{ErrorCode, success, operation_aborted, ws_closed}
use beast_examples.Websocket.{
  turned, message_of, Websocket, check_timer, on_timer, activity, on_ping, on_accept, received,
  on_read, do_read, write, on_write, pick_message, Event, accepted, timer_done, ping_done,
  write_done, read_done, control_frame, taken, writes_message, step, run_events, pop_front,
  without_message,
}
use beast_examples.Websocket.Keeping.{run_events_cons, some-injective}

-- The messages that an event adds to the queue, and how many it takes from it.
abbrev pub read_of : Event → List Text
read_of (read_done operation_aborted parts) = []
read_of (read_done ws_closed parts) = []
read_of (read_done _ parts) = message_of parts ∷ []
read_of _ = []

abbrev pub takes : Event → ℕ
takes taken = 1
takes _ = 0

abbrev pub read_in : List (ℕ × Event) → List Text
read_in [] = []
read_in ((now, e) ∷ es) = read_of e ++ read_in es

abbrev pub taken_in : List (ℕ × Event) → ℕ
taken_in [] = 0
taken_in ((now, e) ∷ es) = takes e + taken_in es

guarded_queue :
    (b : Bool) (x t : Websocket) (q : List Text)
    → (if b then some x else none) ≡ some t
    → x.queue ≡ q
    → t.queue ≡ q
guarded_queue true x t q h e = ap (λ s. s.queue) (sym (some-injective h)) ∙ e
guarded_queue false x t q h e = cc

queue-check_timer : (now : ℕ) (s : Websocket) → (check_timer now s).queue ≡ s.queue
unfolding check_timer
queue-check_timer now s = ground arith

queue-on_timer : (e : ErrorCode) (now : ℕ) (s : Websocket) → (on_timer e now s).queue ≡ s.queue
unfolding on_timer
queue-on_timer success now s = queue-check_timer now s
queue-on_timer operation_aborted now s = queue-check_timer now s
queue-on_timer _ now s = refl

queue-on_ping : (e : ErrorCode) (s : Websocket) → (on_ping e s).queue ≡ s.queue
unfolding on_ping
queue-on_ping success s = ground arith
queue-on_ping _ s = refl

queue-on_accept : (e : ErrorCode) (s : Websocket) → (on_accept e s).queue ≡ s.queue
unfolding on_accept do_read
queue-on_accept success s = refl
queue-on_accept _ s = refl

queue-on_read :
    (e : ErrorCode) (parts : List Text) (now : ℕ) (s : Websocket)
    → (on_read e parts now s).queue ≡ s.queue ++ read_of (read_done e parts)
unfolding on_read received message_of activity do_read
queue-on_read operation_aborted parts now s = sym (append-nil s.queue)
queue-on_read ws_closed parts now s = sym (append-nil s.queue)
queue-on_read _ parts now s = refl

timer_step :
    (now : ℕ) (e : ErrorCode) (s t : Websocket)
    → step now (timer_done e) s ≡ some t
    → t.queue ≡ s.queue
unfolding step
timer_step now success s t h = elim (Bool-cases (ltb 0 s.waiting)) [
  | inl b ↦
      guarded_queue true _ t _ (rw (b, step) at h)
        (queue-on_timer success now (record s { waiting = s.waiting - 1 }))
  | inr b ↦ absurd (cc (rw (b, step) at h))
]
timer_step now operation_aborted s t h = elim (Bool-cases (ltb 0 s.cancelled)) [
  | inl b ↦
      guarded_queue true _ t _ (rw (b, step) at h)
        (queue-on_timer operation_aborted now (record s { cancelled = s.cancelled - 1 }))
  | inr b ↦ absurd (cc (rw (b, step) at h))
]
timer_step now _ s t h = cc

-- What one step does to the queue.
abbrev Moved : Event → Websocket → Websocket → Type 0
Moved e s t = (takes e ≤ length s.queue) × (t.queue ≡ drop (takes e) (s.queue ++ read_of e))

step-Moved : (now : ℕ) (e : Event) (s t : Websocket) → step now e s ≡ some t → Moved e s t
unfolding step write on_write pick_message activity
step-Moved now (accepted e) s t h = (
  omega arith,
  guarded_queue (ltb 0 s.accepts) _ t _ h (queue-on_accept e _ ∙ sym (append-nil s.queue)),
)
step-Moved now (timer_done e) s t h =
    (omega arith, timer_step now e s t h ∙ sym (append-nil s.queue))
step-Moved now (ping_done e) s t h = (
  omega arith,
  guarded_queue (ltb 0 s.pings) _ t _ h (queue-on_ping e _ ∙ sym (append-nil s.queue)),
)
step-Moved now (write_done e) s t h =
    (omega arith, guarded_queue (ltb 0 s.writes) _ t _ h (sym (append-nil s.queue)))
step-Moved now (read_done e parts) s t h =
    (omega arith, guarded_queue (ltb 0 s.reads) _ t _ h (queue-on_read e parts now _))
step-Moved now control_frame s t h =
    (omega arith, guarded_queue (ltb 0 s.reads) _ t _ h (sym (append-nil s.queue)))
step-Moved now taken s t h = take_one s.queue h
  where
    take_one :
        (q : List Text)
        → without_message (pop_front q s) ≡ some t
        → (1 ≤ length q) × (t.queue ≡ drop 1 (q ++ []))
    take_one [] h' = cc
    take_one (msg ∷ more) h' =
        (omega arith, ap (λ u. u.queue) (sym (some-injective h')) ∙ sym (append-nil more))
step-Moved now (turned up) s t h =
    (omega arith, guarded_queue true _ t _ h (sym (append-nil s.queue)))
step-Moved now (writes_message msg) s t h =
    (omega arith, guarded_queue true _ t _ h (sym (append-nil s.queue)))

drop-append : (n : ℕ) (xs ys : List Text) → n ≤ length xs → drop n xs ++ ys ≡ drop n (xs ++ ys)
drop-append zero xs ys h = refl
drop-append (suc n) [] ys h = absurd (omega arith)
drop-append (suc n) (x ∷ xs) ys h = drop-append n xs ys (omega arith)

drop_nil : (n : ℕ) → drop {A = Text} n [] ≡ []
drop_nil zero = refl
drop_nil (suc n) = refl

drop-drop : (n m : ℕ) (xs : List Text) → drop n (drop m xs) ≡ drop (m + n) xs
drop-drop n zero xs = ap (λ k. drop k xs) (omega arith)
drop-drop n (suc m) [] = drop_nil n ∙ sym (drop_nil (suc m + n))
drop-drop n (suc m) (x ∷ xs) =
    drop-drop n m xs ∙ ap (λ k. drop k (x ∷ xs)) {x = suc (m + n)} (omega arith)

-- Each read adds the string that `onRead` makes of the parts of its buffer: the message, if that is
-- in one part, else its first part and then memory that is not the message. A read that fails, other
-- than by an aborted operation or a closed websocket, adds what is in the buffer as a message does.
-- These strings leave the queue in the order in which they were read, each once: after a run of
-- events the queue holds what it held before and what was read since, less what was taken, from the
-- front.
pub queue-run_events :
    (es : List (ℕ × Event)) (s t : Websocket)
    → run_events es s ≡ some t
    → t.queue ≡ drop (taken_in es) (s.queue ++ read_in es)
unfolding run_events
queue-run_events [] s t h = ap (λ u. u.queue) (sym (some-injective h)) ∙ sym (append-nil s.queue)
queue-run_events ((now, e) ∷ es) s t h =
    let (u, moved, rest) = run_events_cons now e es s t h in
    let (enough, next) = step-Moved now e s u moved in
    queue-run_events es u t rest
    ∙ rw next (
        ap (drop (taken_in es)) (
          drop-append (takes e) (s.queue ++ read_of e) (read_in es)
            (omega (arith, length-append s.queue (read_of e))))
        ∙ drop-drop (taken_in es) (takes e) _
        ∙ ap (drop (takes e + taken_in es)) (append_assoc s.queue (read_of e) (read_in es)))
