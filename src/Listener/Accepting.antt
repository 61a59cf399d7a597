-- ===== src/Listener/Accepting.antt =====
-- A listener accepts one connection after the other (src/HttpListener.cpp).
use beast_examples.Common.{
  ℕ, suc, ◌+◌, ◌≡◌, refl, ◌∙◌, true, false, if◌then◌else◌, List, [], ◌∷◌, ◌++◌, arith, Bool-cases,
  inl, inr, Bool, ◌||◌, Result, ok, throw, Result-cases,
}
use beast_examples.Http.{ErrorCode}
use beast_examples.Session
use beast_examples.Session.{Session, new_session, construct}
use beast_examples.Listener.{
  AcceptorLib, HttpListener, is_error, new_listener, last_error, run, do_accept, on_accept,
  start_session,
}

module _ (A : AcceptorLib) where
  -- An acceptor is open once `open` has succeeded, and the other calls do not close it.
  pub record AcceptorLaws : Type 0 where
    pub opens :
        (endpoint : A.Endpoint) (a : A.Acceptor)
        → is_error (A.open_for endpoint a).1 ≡ false
        → A.is_open (A.open_for endpoint a).0 ≡ true
    pub stays_reusing : (a : A.Acceptor) → A.is_open (A.set_option a).0 ≡ A.is_open a
    pub stays_bound :
        (endpoint : A.Endpoint) (a : A.Acceptor) → A.is_open (A.bind endpoint a).0 ≡ A.is_open a
    pub stays_listening : (a : A.Acceptor) → A.is_open (A.listen a).0 ≡ A.is_open a

  -- An `async_accept` that has ended, with its error and the socket.
  pub record Accepted : Type 0 where
    pub error : ErrorCode
    pub socket : A.Socket

  -- A waiting call ends, and its handler runs; the list is the accepts that have ended, the last one first.
  pub data Reach (l : HttpListener A) : HttpListener A → List Accepted → Type 0 where
    begin : Reach l l []
    dispatch :
        {m : HttpListener A} {ended : List Accepted} (n : ℕ)
        → Reach l m ended
        → m.dispatched ≡ suc n
        → Reach l (do_accept A (record m { dispatched = n })) ended
    accept :
        {m : HttpListener A} {ended : List Accepted} (n now : ℕ) (a : Accepted)
        → Reach l m ended
        → m.accepts ≡ suc n
        → Reach l (on_accept A now a.error a.socket (record m { accepts = n })).0 (a ∷ ended)

  abbrev pub is_thrown {κ} : {B : Type κ} → Result B → Bool
  is_thrown (throw e) = true
  is_thrown (ok b) = false

  -- A connection that was accepted without an error, and whose peer is gone.
  abbrev pub is_gone : Accepted → Bool
  is_gone a = if is_error a.error then false else is_thrown (A.remote_endpoint a.socket)

  abbrev pub any_gone : List Accepted → Bool
  any_gone [] = false
  any_gone (a ∷ before) = is_gone a || any_gone before

  -- The sessions of the connections that were accepted without an error from a peer that is there, in
  -- their order.
  abbrev pub sessions_of : List Accepted → List (A.Socket × Session)
  sessions_of [] = []
  sessions_of (a ∷ before) =
      if is_error a.error || is_gone a
      then sessions_of before
      else sessions_of before ++ (a.socket, Session.run false 0 new_session) ∷ []

  new_listener-is_open :
      (endpoint : A.Endpoint)
      → AcceptorLaws
      → is_error (last_error A (new_listener A endpoint)) ≡ false
      → A.is_open (new_listener A endpoint).acceptor ≡ true
  unfolding new_listener
  new_listener-is_open endpoint laws h =
      let opened = A.open_for endpoint A.closed in
      let reusing = A.set_option opened.0 in
      let bound = A.bind endpoint reusing.0 in
      elim (Bool-cases (is_error opened.1)) [
        | inl e ↦ ground arith
        | inr fine ↦
            let first : A.is_open opened.0 ≡ true = laws.opens endpoint A.closed fine in
            let second : A.is_open reusing.0 ≡ true = laws.stays_reusing opened.0 ∙ first in
            let third : A.is_open bound.0 ≡ true = laws.stays_bound endpoint reusing.0 ∙ second in
            let fourth : A.is_open (A.listen bound.0).0 ≡ true =
              laws.stays_listening bound.0 ∙ third in
            ground arith
      ]

  new_listener-idle :
      (endpoint : A.Endpoint)
      → let l = new_listener A endpoint in (l.dispatched ≡ 0) × (l.accepts ≡ 0) × (l.sessions ≡ [])
  unfolding new_listener
  new_listener-idle endpoint = ground arith

  -- One accept waits, or the call that makes one, until a peer was gone.
  abbrev pub Waiting : HttpListener A → List Accepted → Type 0
  Waiting m ended =
      (m.dispatched + m.accepts ≡ (if any_gone ended then 0 else 1))
      × (m.sessions ≡ sessions_of ended)

  Reach-Waiting :
      {l m : HttpListener A} {ended : List Accepted}
      → Waiting l []
      → Reach l m ended
      → Waiting m ended
  unfolding do_accept on_accept start_session Session.construct Session.run
  Reach-Waiting w begin = w
  Reach-Waiting w (dispatch n r e) = let (one, same) = Reach-Waiting w r in (omega arith, same)
  Reach-Waiting w (accept n now a r e) =
      let (one, same) = Reach-Waiting w r in
      elim (Bool-cases (is_error a.error)) [
        | inl failed ↦ rw failed (omega arith, same)
        | inr well ↦ elim (Result-cases (A.remote_endpoint a.socket)) [
          | inl (address, there) ↦ rw (well, there) (omega arith, rw same)
          | inr (x, gone) ↦ rw (well, gone) (ground (arith, one, e), same)
        ]
      ]

  -- After a constructor without an error, and `run`, the listener keeps accepting, whatever
  -- connections come and whichever accepts fail: one accept waits at any time (or, at first, the
  -- dispatched call that makes it), and never a second one, until it accepts a connection whose peer
  -- is gone before its session is made. From then on no accept waits: the listener has stopped. Each
  -- connection that was accepted from a peer that was there has got one session, in their order. (The
  -- acceptor's calls are as `AcceptorLaws` says.)
  pub run-Reach :
      (endpoint : A.Endpoint)
      → AcceptorLaws
      → is_error (last_error A (new_listener A endpoint)) ≡ false
      → {m : HttpListener A} {ended : List Accepted}
      → Reach (run A (new_listener A endpoint)) m ended
      → (m.dispatched + m.accepts ≡ (if any_gone ended then 0 else 1))
        × (m.sessions ≡ sessions_of ended)
  unfolding run new_listener
  run-Reach endpoint laws h r =
      let (none_dispatched, none_waits, none_started) = new_listener-idle endpoint in
      Reach-Waiting
        (rw (new_listener-is_open endpoint laws h, none_dispatched, none_waits, none_started)
          (refl, refl))
        r
