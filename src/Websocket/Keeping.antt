-- ===== src/Websocket/Keeping.antt =====
-- A websocket session keeps its timer (src/WebsocketSession.cpp).
use beast_examples.Common.{
  ℕ, ◌+◌, ◌-◌, ◌≤◌, ◌≡◌, refl, Bool, true, false, ◌&&◌, if◌then◌else◌, ltb, nat_eqb, List, [], ◌∷◌,
  Text, none, some, arith, Bool-cases, Option-cases, inl, inr, subst,
}
use beast_examples.Http.{
  ErrorCode, success, operation_aborted, end_of_stream, ws_closed, no_such_file, failure,
}
use beast_examples.Websocket.{
  turned, opened_by, closed_by, Websocket, new_websocket, check_timer, on_timer, do_accept,
  activity, on_ping, on_accept, received, on_read, do_read, write, on_write, pick_message, Event,
  accepted, timer_done, ping_done, write_done, read_done, control_frame, taken, writes_message,
  step, run_events, is_expired, pop_front, without_message,
}

-- A session has one pending wait of its timer until it has closed its socket, and none then; it
-- accepts or reads at most once at a time.
pub record Inv (s : Websocket) : Type 0 where
  pub armed : s.waiting + s.cancelled ≡ (if s.connected then 1 else 0)
  pub one_read : s.accepts + s.reads ≤ 1
  pub pinging : s.ping_state ≤ 2

do_accept-Inv : (now : ℕ) → Inv (do_accept now new_websocket)
unfolding do_accept on_timer check_timer new_websocket
do_accept-Inv now = record { armed = refl; one_read = omega arith; pinging = omega arith }

-- A wait that has just ended is not counted.
check_timer-Inv :
    (now : ℕ) (s : Websocket)
    → s.waiting + s.cancelled + 1 ≡ (if s.connected then 1 else 0)
    → s.accepts + s.reads ≤ 1
    → s.ping_state ≤ 2
    → Inv (check_timer now s)
unfolding check_timer
check_timer-Inv now s armed one pinging = elim (Bool-cases (is_expired s.expiry now)) [
  | inl late ↦ elim (Bool-cases (s.is_open && nat_eqb s.ping_state 0)) [
    | inl ping ↦
        rw (late, ping) (record { armed = ground arith; one_read = one; pinging = omega arith })
    | inr close ↦
        rw (late, close) (record { armed = ground arith; one_read = one; pinging = pinging })
  ]
  | inr early ↦ rw early (record { armed = ground arith; one_read = one; pinging = pinging })
]

pub some-injective {ℓ} : {A : Type ℓ} {a b : A} → some a ≡ some b → a ≡ b
some-injective h = cc

guarded-Inv :
    (b : Bool) {x t : Websocket}
    → (if b then some x else none) ≡ some t
    → (b ≡ true → Inv x)
    → Inv t
guarded-Inv true h f = subst Inv (some-injective h) (f refl)
guarded-Inv false h f = cc

timer_done-Inv :
    (now : ℕ) (e : ErrorCode) (s t : Websocket) → Inv s → step now (timer_done e) s ≡ some t → Inv t
unfolding step on_timer
timer_done-Inv now success s t v h = elim (Bool-cases (ltb 0 s.waiting)) [
  | inl b ↦ subst Inv (some-injective (rw (b, step) at h)) (
      check_timer-Inv now (record s { waiting = s.waiting - 1 }) (ground (arith, v.armed))
        v.one_read v.pinging)
  | inr b ↦ absurd (cc (rw (b, step) at h))
]
timer_done-Inv now operation_aborted s t v h = elim (Bool-cases (ltb 0 s.cancelled)) [
  | inl b ↦ subst Inv (some-injective (rw (b, step) at h)) (
      check_timer-Inv now (record s { cancelled = s.cancelled - 1 }) (ground (arith, v.armed))
        v.one_read v.pinging)
  | inr b ↦ absurd (cc (rw (b, step) at h))
]
timer_done-Inv now end_of_stream s t v h = cc
timer_done-Inv now ws_closed s t v h = cc
timer_done-Inv now no_such_file s t v h = cc
timer_done-Inv now (failure m) s t v h = cc

activity-Inv : (now : ℕ) (s : Websocket) → Inv s → Inv (activity now s)
unfolding activity
activity-Inv now s v = record {
  armed = omega (arith, v.armed);
  one_read = v.one_read;
  pinging = omega arith;
}

-- A read or an acceptance that has just ended is not counted.
on_accept-Inv :
    (e : ErrorCode) (s : Websocket) → Inv s → s.accepts + s.reads ≡ 0 → Inv (on_accept e s)
unfolding on_accept do_read
on_accept-Inv success s v h = record {
  armed = v.armed;
  one_read = omega arith;
  pinging = v.pinging;
}
on_accept-Inv _ s v h = v

received-Inv :
    (parts : List Text) (now : ℕ) (s : Websocket)
    → Inv s
    → s.accepts + s.reads ≡ 0
    → Inv (received parts now s)
unfolding received activity do_read
received-Inv parts now s v h = record {
  armed = omega (arith, v.armed);
  one_read = omega arith;
  pinging = omega arith;
}

on_read-Inv :
    (e : ErrorCode) (parts : List Text) (now : ℕ) (s : Websocket)
    → Inv s
    → s.accepts + s.reads ≡ 0
    → Inv (on_read e parts now s)
unfolding on_read
on_read-Inv operation_aborted parts now s v h = v
on_read-Inv ws_closed parts now s v h = v
on_read-Inv _ parts now s v h = received-Inv parts now s v h

on_ping-Inv : (e : ErrorCode) (s : Websocket) → Inv s → Inv (on_ping e s)
unfolding on_ping
on_ping-Inv success s v = elim (Bool-cases (nat_eqb s.ping_state 1)) [
  | inl b ↦ rw b (record { armed = v.armed; one_read = v.one_read; pinging = omega arith })
  | inr b ↦ rw b v
]
on_ping-Inv _ s v = v

step-Inv : (now : ℕ) (e : Event) (s t : Websocket) → Inv s → step now e s ≡ some t → Inv t
unfolding step write on_write pick_message
step-Inv now (accepted e) s t v h = guarded-Inv (ltb 0 s.accepts) h (λ b.
    on_accept-Inv e (record s { accepts = s.accepts - 1; is_open = opened_by e s.is_open })
      (record { armed = v.armed; one_read = omega (arith, v.one_read); pinging = v.pinging })
      (ground (arith, v.one_read)))
step-Inv now (timer_done e) s t v h = timer_done-Inv now e s t v h
step-Inv now (ping_done e) s t v h = guarded-Inv (ltb 0 s.pings) h (λ b.
    on_ping-Inv e (record s { pings = s.pings - 1 })
      (record { armed = v.armed; one_read = v.one_read; pinging = v.pinging }))
step-Inv now (write_done e) s t v h =
    guarded-Inv (ltb 0 s.writes) h
      (λ b. record { armed = v.armed; one_read = v.one_read; pinging = v.pinging })
step-Inv now (read_done e parts) s t v h = guarded-Inv (ltb 0 s.reads) h (λ b.
    on_read-Inv e parts now (record s { reads = s.reads - 1; is_open = closed_by e s.is_open })
      (record { armed = v.armed; one_read = omega (arith, v.one_read); pinging = v.pinging })
      (ground (arith, v.one_read)))
step-Inv now control_frame s t v h = guarded-Inv (ltb 0 s.reads) h (λ b. activity-Inv now s v)
step-Inv now taken s t v h = take_one s.queue h
  where
    take_one : (q : List Text) → without_message (pop_front q s) ≡ some t → Inv t
    take_one [] h' = cc
    take_one (msg ∷ more) h' =
        subst Inv (some-injective h')
          (record { armed = v.armed; one_read = v.one_read; pinging = v.pinging })
step-Inv now (turned up) s t v h =
    subst Inv (some-injective h)
      (record { armed = v.armed; one_read = v.one_read; pinging = v.pinging })
step-Inv now (writes_message msg) s t v h =
    subst Inv (some-injective h)
      (record { armed = v.armed; one_read = v.one_read; pinging = v.pinging })

pub run_events_cons :
    (now : ℕ) (e : Event) (es : List (ℕ × Event)) (s t : Websocket)
    → run_events ((now, e) ∷ es) s ≡ some t
    → (u : Websocket) × (step now e s ≡ some u) × (run_events es u ≡ some t)
unfolding run_events
run_events_cons now e es s t h = elim (Option-cases (step now e s)) [
  | inl stuck ↦ absurd (cc (rw (stuck, run_events) at h))
  | inr (u, moved) ↦ (u, moved, rw (moved, run_events) at h)
]

run_events-Inv :
    (es : List (ℕ × Event)) (s t : Websocket) → Inv s → run_events es s ≡ some t → Inv t
unfolding run_events
run_events-Inv [] s t v h = subst Inv (some-injective h) v
run_events-Inv ((now, e) ∷ es) s t v h =
    let (u, moved, rest) = run_events_cons now e es s t h in
    run_events-Inv es u t (step-Inv now e s u v moved) rest

-- From its acceptance on, whatever happens to it and however the websocket's status turns, a session
-- that has not closed its socket has exactly one pending wait of its timer, so that it never loses
-- its watch over a silent peer; one that has closed it has none; and it never reads twice at a time.
pub run_events-do_accept :
    (now : ℕ) (es : List (ℕ × Event)) (t : Websocket)
    → run_events es (do_accept now new_websocket) ≡ some t
    → Inv t
run_events-do_accept now es t h =
    run_events-Inv es (do_accept now new_websocket) t (do_accept-Inv now) h
