-- ===== src/Listener/Tests.antt =====
-- A listener that accepts a connection behind a failed accept, and then one whose peer is gone.
use beast_examples.Common.{
  ok, throw, runtime_error, if◌then◌else◌, ltb, ℕ, ◌+◌, ◌≡◌, refl, Bool, true, false, List, [], ◌∷◌,
  codes,
}
use beast_examples.Http.{success, failure}
use beast_examples.Session.{construct}
use beast_examples.Listener.{
  AcceptorLib, HttpListener, new_listener, run, do_accept, on_accept, start_session, is_error,
  last_error,
}
use beast_examples.Listener.Accepting.{
  AcceptorLaws, Accepted, Reach, begin, dispatch, accept, any_gone, sessions_of, run-Reach,
}

-- An acceptor is whether it is open, an endpoint and a socket are numbers; a low port is refused.
abbrev acceptors : AcceptorLib
acceptors = record {
  Acceptor = Bool;
  Endpoint = ℕ;
  Socket = ℕ;
  closed = false;
  open_for = λ endpoint a. (true, success);
  bind =
      λ endpoint a. (a, if ltb endpoint 1024 then failure (codes "Permission denied") else success);
  set_option = λ a. (a, success);
  listen = λ a. (a, success);
  is_open = λ a. a;
  remote_endpoint =
      λ socket. if ltb 100 socket then throw (runtime_error (codes "not connected")) else ok [];
}

acceptors-AcceptorLaws : AcceptorLaws acceptors
acceptors-AcceptorLaws = record {
  opens = λ endpoint a h. refl;
  stays_reusing = λ a. refl;
  stays_bound = λ endpoint a. refl;
  stays_listening = λ a. refl;
}

refused_port : (new_listener acceptors 80).reported ≡ codes "Acceptor bind" ∷ []
unfolding new_listener
refused_port = refl

abbrev fresh : HttpListener acceptors
fresh = run acceptors (new_listener acceptors 8088)

abbrev waits : HttpListener acceptors
waits = do_accept acceptors (record fresh { dispatched = 0 })

abbrev waits_again : HttpListener acceptors
waits_again = (on_accept acceptors 3 (failure (codes "EMFILE")) 7 (record waits { accepts = 0 })).0

abbrev serves : HttpListener acceptors
serves = (on_accept acceptors 4 success 8 (record waits_again { accepts = 0 })).0

-- The peer of the next connection is gone.
abbrev stops : HttpListener acceptors
stops = (on_accept acceptors 5 success 101 (record serves { accepts = 0 })).0

abbrev ended : List (Accepted acceptors)
ended =
    record { error = success; socket = 101 }
    ∷ record { error = success; socket = 8 }
    ∷ record { error = failure (codes "EMFILE"); socket = 7 }
    ∷ []

reached : Reach acceptors fresh stops ended
unfolding new_listener run do_accept on_accept start_session construct
reached =
    accept 0 5 (record { error = success; socket = 101 })
      (accept 0 4 (record { error = success; socket = 8 })
        (accept 0 3 (record { error = failure (codes "EMFILE"); socket = 7 })
          (dispatch 0 begin refl) refl)
        refl)
      refl

no_error : is_error (last_error acceptors (new_listener acceptors 8088)) ≡ false
unfolding new_listener
no_error = refl

run-Reach_example :
    (stops.dispatched + stops.accepts ≡ (if any_gone acceptors ended then 0 else 1))
    × (stops.sessions ≡ sessions_of acceptors ended)
run-Reach_example = run-Reach acceptors 8088 acceptors-AcceptorLaws no_error reached
