-- ===== src/Websocket/Tests.antt =====
-- A websocket session that gets one message, and the theorems at it.
use beast_examples.Common.{
  ℕ, ◌+◌, ◌≡◌, refl, true, ◌||◌, ◌&&◌, not, if◌then◌else◌, leb, List, [], ◌∷◌, ◌++◌, drop, codes,
  some,
}
use beast_examples.Http.{success, operation_aborted}
use beast_examples.Session.{at, timeout}
use beast_examples.Websocket.{
  Websocket, new_websocket, do_accept, on_timer, on_ping, activity, Event, accepted, read_done,
  timer_done, taken, run_events,
}
use beast_examples.Websocket.Keeping.{Inv, run_events-do_accept}
use beast_examples.Websocket.Silence.{on_timer-activity}
use beast_examples.Websocket.Messages.{queue-run_events, read_in, taken_in}

abbrev history : List (ℕ × Event)
history =
    (1, accepted success)
    ∷ (2, timer_done operation_aborted)
    ∷ (3, read_done success (codes "hi" ∷ []))
    ∷ (4, taken)
    ∷ []

abbrev after : Websocket
after = record {
  expiry = at 18;
  is_open = true;
  connected = true;
  ping_state = 0;
  queue = [];
  processing = true;
  accepts = 0;
  reads = 1;
  pings = 0;
  writes = 0;
  waiting = 0;
  cancelled = 1;
}

history_lem : run_events history (do_accept 0 new_websocket) ≡ some after
unfolding run_events do_accept new_websocket
history_lem = refl

run_events-do_accept_example : Inv after
run_events-do_accept_example = run_events-do_accept 0 history after history_lem

queue-run_events_example :
    after.queue ≡ drop (taken_in history) ((do_accept 0 new_websocket).queue ++ read_in history)
queue-run_events_example = queue-run_events history (do_accept 0 new_websocket) after history_lem

on_timer-activity_example :
    let looked = on_timer success 15 (record (activity 0 after) { is_open = true }) in
    let again = on_timer success 30 (record (on_ping success looked) { is_open = true }) in
    (looked.pings ≡ after.pings + (if leb (0 + timeout) 15 && true then 1 else 0))
    × (again.connected ≡ (
        if leb (0 + timeout) 15
        then true && not (leb (15 + timeout) 30)
        else (true || not (leb (0 + timeout) 30))))
on_timer-activity_example = on_timer-activity 0 15 30 true true success after refl
