-- ===== src/Websocket.antt =====
-- src/WebsocketSession.cpp: a connection that was upgraded, its timer, its pings and its messages.
--
-- An asynchronous call is counted until its handler runs, as in Session. The thread of `processProc`
-- only takes messages out of the queue. `now` is in seconds.
pub mod Keeping
pub mod Messages
pub mod Silence
mod Tests
use beast_examples.Common.{
  ℕ, ◌+◌, ◌-◌, Bool, true, false, ◌&&◌, if◌then◌else◌, ltb, leb, nat_eqb, length, replicate,
  unknown, List, [], ◌∷◌, ◌++◌, Text, Option, none, some,
}
use beast_examples.Http.{
  ErrorCode, success, operation_aborted, end_of_stream, ws_closed, no_such_file, failure,
}
use beast_examples.Session.{Expiry, time_min, time_max, at, timeout}

pub record Websocket : Type 0 where
  pub expiry : Expiry
  -- what `ws.is_open()` says: the websocket is between its handshake and a close frame or a failure
  pub is_open : Bool
  -- the session has not closed its socket
  pub connected : Bool
  -- 0: nothing, 1: a ping is being sent, 2: it was sent
  pub ping_state : ℕ
  pub queue : List Text
  -- the thread of `processProc` was started
  pub processing : Bool
  pub accepts : ℕ
  pub reads : ℕ
  pub pings : ℕ
  pub writes : ℕ
  pub waiting : ℕ
  pub cancelled : ℕ

unfoldable pub new_websocket : Websocket
new_websocket = record {
  expiry = time_max;
  is_open = false;
  connected = true;
  ping_state = 0;
  queue = [];
  processing = false;
  accepts = 0;
  reads = 0;
  pings = 0;
  writes = 0;
  waiting = 0;
  cancelled = 0;
}

-- `timer.expires_after`: a pending wait is cancelled.
abbrev pub expires_after : ℕ → Websocket → Websocket
expires_after now s = record s {
  expiry = at (now + timeout);
  cancelled = s.cancelled + s.waiting;
  waiting = 0;
}

abbrev pub is_expired : Expiry → ℕ → Bool
is_expired time_min now = true
is_expired time_max now = false
is_expired (at t) now = leb t now

abbrev pub wait : Websocket → Websocket
wait s = record s { waiting = s.waiting + 1 }

-- The part of `onTimer` behind the test of `error`.
unfoldable pub check_timer : ℕ → Websocket → Websocket
check_timer now s =
    if is_expired s.expiry now
    then if s.is_open && nat_eqb s.ping_state 0
      then (let s' = expires_after now (record s { ping_state = 1 }) in
          wait (record s' { pings = s'.pings + 1 }))
      else record s { connected = false }
    else wait s

unfoldable pub on_timer : ErrorCode → ℕ → Websocket → Websocket
unfolding check_timer
on_timer success now s = check_timer now s
on_timer operation_aborted now s = check_timer now s
on_timer _ now s = s

unfoldable pub do_accept : ℕ → Websocket → Websocket
unfolding on_timer
do_accept now s =
    let s' = expires_after now (on_timer success now s) in record s' { accepts = s'.accepts + 1 }

unfoldable pub activity : ℕ → Websocket → Websocket
activity now s = expires_after now (record s { ping_state = 0 })

unfoldable pub on_ping : ErrorCode → Websocket → Websocket
on_ping success s = if nat_eqb s.ping_state 1 then record s { ping_state = 2 } else s
on_ping _ s = s

unfoldable pub do_read : Websocket → Websocket
do_read s = record s { reads = s.reads + 1 }

unfoldable pub on_accept : ErrorCode → Websocket → Websocket
unfolding do_read
on_accept success s = do_read (record s { processing = true })
on_accept _ s = s

abbrev pub buffer_size : List Text → ℕ
buffer_size [] = 0
buffer_size (b ∷ more) = length b + buffer_size more

-- The string that `onRead` makes of the parts of the buffer: as many characters as all parts have,
-- from where the first part starts. Behind the first part, these are whatever the memory holds.
unfoldable pub message_of : List Text → Text
message_of [] = []
message_of (front ∷ more) = front ++ replicate (buffer_size more) unknown

-- The part of `onRead` behind the tests of `error`, of which the last one does not return.
unfoldable pub received : List Text → ℕ → Websocket → Websocket
unfolding activity do_read message_of
received parts now s =
    let s' = activity now s in do_read (record s' { queue = s'.queue ++ message_of parts ∷ [] })

unfoldable pub on_read : ErrorCode → List Text → ℕ → Websocket → Websocket
unfolding received
on_read operation_aborted parts now s = s
on_read ws_closed parts now s = s
on_read _ parts now s = received parts now s

unfoldable pub write : Text → Websocket → Websocket
write msg s = record s { writes = s.writes + 1 }

-- `onWrite` changes nothing.
unfoldable pub on_write : ErrorCode → Websocket → Websocket
on_write error s = s

-- What `processProc` does with a message that is there; `none` while it waits for one.
abbrev pub pop_front : List Text → Websocket → Option (Text × Websocket)
pop_front [] s = none
pop_front (msg ∷ more) s = some (msg, record s { queue = more })

unfoldable pub pick_message : Websocket → Option (Text × Websocket)
pick_message s = pop_front s.queue s

abbrev pub without_message : Option (Text × Websocket) → Option Websocket
without_message none = none
without_message (some (msg, s)) = some s

-- What can happen to a session once it was accepted: a pending operation completes, a control frame
-- arrives while it reads, the thread takes a message, or the server writes. The websocket is open
-- after its handshake, not after `closed`, and turns at any other time, as frames and failures come.
pub data Event : Type 0 where
  accepted timer_done ping_done write_done : ErrorCode → Event
  -- with the parts of the buffer
  read_done : ErrorCode → List Text → Event
  turned : Bool → Event
  control_frame taken : Event
  writes_message : Text → Event

-- A wait completes with success, or with `operation_aborted` if it was cancelled.
abbrev pub wait_done : ErrorCode → Websocket → Option Websocket
wait_done success s = if ltb 0 s.waiting then some (record s { waiting = s.waiting - 1 }) else none
wait_done operation_aborted s =
    if ltb 0 s.cancelled then some (record s { cancelled = s.cancelled - 1 }) else none
wait_done _ s = none

-- Whether the websocket is open when an operation that completes has reported `e`.
abbrev pub opened_by : ErrorCode → Bool → Bool
opened_by success up = true
opened_by _ up = up

abbrev pub closed_by : ErrorCode → Bool → Bool
closed_by ws_closed up = false
closed_by _ up = up

-- One step, `none` if the event cannot happen.
unfoldable pub step : ℕ → Event → Websocket → Option Websocket
unfolding on_accept on_timer on_ping on_read activity pick_message write on_write
step now (accepted e) s =
    if ltb 0 s.accepts
    then some (on_accept e (record s { accepts = s.accepts - 1; is_open = opened_by e s.is_open }))
    else none
step now (timer_done e) s = elim (wait_done e s) [
  | none ↦ none
  | some s' ↦ some (on_timer e now s')
]
step now (ping_done e) s =
    if ltb 0 s.pings then some (on_ping e (record s { pings = s.pings - 1 })) else none
step now (write_done e) s =
    if ltb 0 s.writes then some (on_write e (record s { writes = s.writes - 1 })) else none
step now (read_done e parts) s =
    if ltb 0 s.reads
    then some
        (on_read e parts now (record s { reads = s.reads - 1; is_open = closed_by e s.is_open }))
    else none
step now (turned up) s = some (record s { is_open = up })
step now control_frame s = if ltb 0 s.reads then some (activity now s) else none
step now taken s = without_message (pick_message s)
step now (writes_message msg) s = some (write msg s)

unfoldable pub run_events : List (ℕ × Event) → Websocket → Option Websocket
unfolding step
run_events [] s = some s
run_events ((now, e) ∷ es) s = elim (step now e s) [ none ↦ none | some s' ↦ run_events es s' ]
