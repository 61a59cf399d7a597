-- ===== src/Session.antt =====
-- src/HttpSession.cpp and src/HttpSession.hpp: one connection, its queue of responses and its timer.
--
-- An asynchronous call is counted in the state until its handler runs: `posts` (the posted `run`),
-- `reads`, `writes` (the messages being written), `waiting` and `cancelled` (timer waits; a wait
-- that a new expiry cancels ends with `operation_aborted`). `started` logs the calls of
-- `async_write`. The strand runs the handlers of a session one at a time; `now` is in seconds.
pub mod Runs
pub mod Moves
pub mod Shared
pub mod Invariant
pub mod Order
pub mod Live
pub mod Progress
pub mod Replies
mod Tests
use beast_examples.Common.{
  ℕ, ◌+◌, ◌-◌, Bool, true, false, if◌then◌else◌, not, leb, nat_eqb, List, [], ◌∷◌, ◌++◌, length,
  tail, Text, Result, ok, ◌>>=◌,
}
use beast_examples.Http.{
  Request, Response, ErrorCode, success, operation_aborted, end_of_stream, ws_closed, no_such_file,
  failure,
}

-- `std::chrono::steady_clock::time_point`, with its two ends.
pub data Expiry : Type 0 where
  time_min time_max : Expiry
  at : ℕ → Expiry

pub record Session : Type 0 where
  -- `queue.workers`
  pub workers : List Response
  -- `timer.expiry()`
  pub expiry : Expiry
  pub is_open : Bool
  pub posts : ℕ
  pub reads : ℕ
  pub writes : List Response
  pub waiting : ℕ
  pub cancelled : ℕ
  pub started : List Response
  -- the upgrade requests that were handed to a `WebsocketSession` with the socket
  pub upgrades : List Request

-- The members as they are initialised: nothing is pending, and the timer never expires.
unfoldable pub new_session : Session
new_session = record {
  workers = [];
  expiry = time_max;
  is_open = true;
  posts = 0;
  reads = 0;
  writes = [];
  waiting = 0;
  cancelled = 0;
  started = [];
  upgrades = [];
}

-- The constructor, with what `socket.remote_endpoint()` comes to: it throws if the peer is gone.
unfoldable pub construct : Result Text → Result Session
unfolding new_session
construct peer = do address ← peer; ok new_session

-- `Queue::limit`
abbrev pub limit : ℕ
limit = 16

-- seconds, in `doRead`
abbrev pub timeout : ℕ
timeout = 15

abbrev pub is_full : Session → Bool
is_full s = leb limit (length s.workers)

-- `WorkerImpl::operator()` of the front worker, if there is one.
abbrev pub start_front : List Response → Session → Session
start_front [] s = s
start_front (m ∷ ms) s = record s { writes = s.writes ++ m ∷ []; started = s.started ++ m ∷ [] }

-- `Queue::operator()`
unfoldable pub push : Response → Session → Session
push m s =
    let s' = record s { workers = s.workers ++ m ∷ [] } in
    if nat_eqb (length s'.workers) 1 then start_front s'.workers s' else s'

-- `Queue::onWrite`, which returns whether the queue was full. `erase(begin())` wants a worker;
-- `tail` of no worker is no worker.
unfoldable pub queue_on_write : Session → Bool × Session
queue_on_write s =
    let s' = record s { workers = tail s.workers } in (is_full s, start_front s'.workers s')

-- `timer.expires_after`, `timer.expires_at`: a pending wait is cancelled.
abbrev pub expires : Expiry → Session → Session
expires e s = record s { expiry = e; cancelled = s.cancelled + s.waiting; waiting = 0 }

unfoldable pub do_read : ℕ → Session → Session
do_read now s = let s' = expires (at (now + timeout)) s in record s' { reads = s'.reads + 1 }

unfoldable pub do_close : Session → Session
do_close s = record s { is_open = false }

-- The part of `onTimer` behind the test of `error`.
unfoldable pub check_expiry : Expiry → ℕ → Session → Session
check_expiry time_min now s = s
check_expiry time_max now s = record s { waiting = s.waiting + 1 }
check_expiry (at t) now s =
    if leb t now then record s { is_open = false } else record s { waiting = s.waiting + 1 }

unfoldable pub on_timer : ErrorCode → ℕ → Session → Session
unfolding check_expiry
on_timer success now s = check_expiry s.expiry now s
on_timer operation_aborted now s = check_expiry s.expiry now s
on_timer _ now s = s

-- `run`, which posts itself to the strand when it is called from elsewhere.
unfoldable pub run : Bool → ℕ → Session → Session
unfolding on_timer do_read
run in_strand now s =
    if in_strand then do_read now (on_timer success now s) else record s { posts = s.posts + 1 }

unfoldable pub on_write : ErrorCode → Bool → ℕ → Session → Session
unfolding do_close queue_on_write do_read
on_write success close now s =
    let (full, s') = queue_on_write s in
    if close then do_close s else if full then do_read now s' else s'
on_write _ close now s = s

-- A handler works on the server's shared state `S` and sends one response, or throws.
abbrev pub Handler {ℓ} : Type ℓ → Type ℓ
Handler S = Request → S → S × Result Response

-- The upgrade: the timer is set so that `onTimer` sees it, and the socket leaves this session.
abbrev pub upgrade : Request → Session → Session
upgrade req s =
    let s' = expires time_min s in record s' { is_open = false; upgrades = s'.upgrades ++ req ∷ [] }

-- The last part of `onRead`: the response is queued, and the next request is read if there is room.
abbrev pub respond : ℕ → Session → Response → Session
respond now s m = let s' = push m s in if is_full s' then s' else do_read now s'

module _ {ℓ} {S : Type ℓ} (is_upgrade : Request → Bool) (resolve : Text → Handler S) where
  unfoldable pub on_read : ErrorCode → Request → ℕ → Session → S → S × Result Session
  unfolding do_close push do_read
  on_read end_of_stream req now s server = (server, ok (do_close s))
  on_read success req now s server =
      let answered = resolve req.target req server in
      if is_upgrade req
      then (server, ok (upgrade req s))
      else (answered.0, answered.1 >>= λ m. ok (respond now s m))
  on_read _ req now s server = (server, ok s)
