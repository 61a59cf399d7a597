-- ===== src/Listener.antt =====
-- src/HttpListener.cpp: the socket that accepts connections, and the start of their sessions.
--
-- The acceptor of Boost.Asio is an interface, with what its documentation says of an open acceptor in
-- `AcceptorLaws`. A call that waits is counted until its handler runs: `dispatched` (the dispatched
-- call of `doAccept`) and `accepts` (calls of `async_accept`). The router is not state here: it is
-- filled before `run`, and every session gets it.
pub mod Accepting
mod Tests
use beast_examples.Common.{
  ℕ, zero, suc, ◌+◌, ◌≡◌, Bool, true, false, if◌then◌else◌, List, [], ◌∷◌, ◌++◌, Text, codes,
  Result, ok, throw, ◌>>=◌,
}
use beast_examples.Http.{ErrorCode, success}
use beast_examples.Session
use beast_examples.Session.{Session, construct}

-- `if(error)`
abbrev pub is_error : ErrorCode → Bool
is_error success = false
is_error _ = true

-- A constructor of an acceptor, and the calls of one for an endpoint, which set an error code.
pub record AcceptorLib : Type 1 where
  pub Acceptor : Type 0
  pub Endpoint : Type 0
  pub Socket : Type 0
  pub closed : Acceptor
  pub open_for : Endpoint → Acceptor → Acceptor × ErrorCode
  pub bind : Endpoint → Acceptor → Acceptor × ErrorCode
  pub set_option : Acceptor → Acceptor × ErrorCode
  pub listen : Acceptor → Acceptor × ErrorCode
  pub is_open : Acceptor → Bool
  -- of an accepted connection; it throws if the peer is gone
  pub remote_endpoint : Socket → Result Text

module _ (A : AcceptorLib) where
  -- `reported` logs the calls of `handleSystemError`.
  pub record HttpListener : Type 0 where
    pub acceptor : A.Acceptor
    pub error : ErrorCode
    pub reported : List Text
    pub dispatched : ℕ
    pub accepts : ℕ
    pub sessions : List (A.Socket × Session)

  -- A listener that nothing waits for.
  abbrev pub idle : A.Acceptor × ErrorCode → List Text → HttpListener
  idle (a, e) reported = record {
    acceptor = a;
    error = e;
    reported = reported;
    dispatched = 0;
    accepts = 0;
    sessions = [];
  }

  -- The constructor: it returns behind the first call that sets the error.
  unfoldable pub new_listener : A.Endpoint → HttpListener
  new_listener endpoint =
      let opened = A.open_for endpoint A.closed in
      let reusing = A.set_option opened.0 in
      let bound = A.bind endpoint reusing.0 in
      let listening = A.listen bound.0 in
      if is_error opened.1
      then idle opened (codes "Acceptor open" ∷ [])
      else if is_error reusing.1
      then idle reusing (codes "Acceptor set_option" ∷ [])
      else if is_error bound.1
      then idle bound (codes "Acceptor bind" ∷ [])
      else if is_error listening.1
      then idle listening (codes "Acceptor listen" ∷ [])
      else idle listening []

  abbrev pub last_error : HttpListener → ErrorCode
  last_error l = l.error

  unfoldable pub run : HttpListener → HttpListener
  run l = if A.is_open l.acceptor then record l { dispatched = l.dispatched + 1 } else l

  unfoldable pub do_accept : HttpListener → HttpListener
  do_accept l = record l { accepts = l.accepts + 1 }

  -- The session of an accepted connection, which is run from outside of its strand.
  unfoldable pub start_session : ℕ → A.Socket → HttpListener → Result HttpListener
  unfolding Session.construct
  start_session now socket l = do
    session ← construct (A.remote_endpoint socket)
    ok (record l { sessions = l.sessions ++ (socket, Session.run false now session) ∷ [] })

  -- An exception of the session's constructor leaves `onAccept` before `doAccept`.
  abbrev pub accept_next : HttpListener → Result HttpListener → HttpListener × Result (Unit {0})
  accept_next l (throw e) = (l, throw e)
  accept_next l (ok started) = (do_accept started, ok tt)

  unfoldable pub on_accept :
      ℕ → ErrorCode → A.Socket → HttpListener → HttpListener × Result (Unit {0})
  unfolding do_accept start_session
  on_accept now error socket l =
      if is_error error
      then accept_next l (ok (record l { reported = l.reported ++ codes "accept" ∷ [] }))
      else accept_next l (start_session now socket l)
