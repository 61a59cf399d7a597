-- ===== src/Session/Tests.antt =====
-- A run of a session that pipelines two requests, and the theorems at it.
use beast_examples.Common.{
  ℕ, ◌+◌, ◌≡◌, refl, inr, Bool, true, false, not, List, [], ◌∷◌, ◌++◌, Text, codes, ok, arith,
}
use beast_examples.Http.{Request, Response, get, status_ok, text, success, operation_aborted}
use beast_examples.Session.{
  at, Handler, new_session, run, on_read, on_timer, do_read, push, on_write,
}
use beast_examples.Session.Runs.{
  Event, ran, read_done, write_done, timer_done, World, next, run_events, step,
}
use beast_examples.Session.Invariant.{Inv, run_events-Inv}
use beast_examples.Session.Order.{accepted, all_answers, accepted-run_events}
use beast_examples.Session.Progress.{run_events-Live}
use beast_examples.Session.Live.{Live}

abbrev ask : Text → Request
ask target = record { method = get; target = target; version = 11; keep_alive = true; body = [] }

-- The server's state is the number of requests that it has seen.
abbrev reply : ℕ → Response
reply n = record {
  status = status_ok;
  version = 11;
  server = [];
  content_type = [];
  keep_alive = true;
  content_length = 1;
  body = text (n ∷ []);
}

abbrev counting : Text → Handler ℕ
counting target req n = (n + 1, ok (reply n))

abbrev closes : Response → Bool
closes m = not m.keep_alive

abbrev plain : Request → Bool
plain req = false

abbrev begin : World ℕ
begin = record {
  session = record {
    workers = [];
    expiry = new_session.expiry;
    is_open = true;
    posts = 1;
    reads = 0;
    writes = [];
    waiting = 0;
    cancelled = 0;
    started = [];
    upgrades = [];
  };
  server = 7;
}

-- The world `begin` is a new session on which `run` was called.
begin_lem : run false 0 new_session ≡ begin.session
unfolding run new_session
begin_lem = refl

abbrev history : List (ℕ × Event ℕ)
history =
    (1, ran)
    ∷ (2, read_done success (ask (codes "/a")))
    ∷ (3, read_done success (ask (codes "/b")))
    ∷ (4, timer_done operation_aborted)
    ∷ (5, write_done success)
    ∷ []

abbrev final : World ℕ
final = record {
  session = record {
    workers = reply 8 ∷ [];
    expiry = at 18;
    is_open = true;
    posts = 0;
    reads = 1;
    writes = reply 8 ∷ [];
    waiting = 1;
    cancelled = 0;
    started = reply 7 ∷ reply 8 ∷ [];
    upgrades = [];
  };
  server = 9;
}

history-run : run_events closes plain counting history begin ≡ next final
unfolding run_events step run on_read on_timer on_write push do_read new_session
history-run = refl

begin-Inv : Inv begin.session
unfolding new_session
begin-Inv = ground arith

run_events-Inv_example : Inv final.session
run_events-Inv_example =
    run_events-Inv closes plain counting history begin final begin-Inv history-run

accepted-run_events_example :
    accepted final.session ≡ [] ++ all_answers closes plain counting history begin
accepted-run_events_example =
    accepted-run_events closes plain counting history begin final history-run

run_events-Live_example : Live final.session
unfolding new_session
run_events-Live_example =
    run_events-Live closes plain counting history begin final
      (tt, (refl, (refl, (inr refl, (refl, tt))))) begin-Inv (inr (ground arith)) history-run
