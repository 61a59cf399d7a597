-- ===== src/Sampling/Tests.antt =====
-- Samplings with a timeout of two seconds, and the theorems at them.
use beast_examples.Sampling.Bounded.{Reach-count_running}
use beast_examples.Sampling.Requests.{Requests, Reach, ask, begin, later, none_yet, may_start, free}
use beast_examples.Sampling.Stopping.{stop_thread-turns}
use beast_examples.Sampling.Threads.{BlockThread, sleeping, ended, turns, stop_thread, new_thread}
use beast_examples.Common.{[], ◌∷◌, ℕ, ◌≤◌, ◌≡◌, ◌↔◌, refl, true, codes, some, ok}
use beast_examples.Common.Int.{pos, negsuc}
use beast_examples.Json.{JsonLib}
use beast_examples.Json.Sample.{sample, obj, field, end, num}
use beast_examples.Http.{Request, post}
use beast_examples.Sampling.{start, Block, new_block, new_mock, run, is_running}
use beast_examples.Sampling.Rounds.{Ended, can_end, run-Ended, run_iff-can_end}
use beast_examples.Sampling.Starting.{count_running}

abbrev block : Block
block = new_block 1 (pos 2) (negsuc 0)

run-Ended_example :
    (c : Block) × (next : ℕ) × (run 3 (new_block 1 (pos 2) (negsuc 0)) 7 ≡ some (c, next))
    × Ended (pos 2) (negsuc 0) c
run-Ended_example = run-Ended 1 (pos 2) (negsuc 0) 7 2 refl

-- 31 snaps are needed, and there is no timeout.
run_iff-can_end_example :
    ((fuel : ℕ) × (r : Block × ℕ) × (run fuel (new_block 1 (pos 0) (pos 31)) 7 ≡ some r))
    ↔ (can_end (pos 0) (pos 31) ≡ true)
run_iff-can_end_example = run_iff-can_end 1 (pos 0) (pos 31) 7

-- A library that reads every body as an object with a timeout and a number.
abbrev plain : JsonLib
plain =
    sample (λ j. ok (codes "{}"))
      (λ t. ok (obj (field (codes "timeout") (num 2) (field (codes "id") (num 1) end))))

abbrev request : Request
request = record {
  method = post;
  target = codes "/api/v1/calibration/sampling/start";
  version = 11;
  keep_alive = true;
  body = codes "{}";
}

-- In its sleep, with a goal that it never reaches.
abbrev asleep : BlockThread
asleep = record { block = new_block 1 (pos 0) (pos 31); phase = sleeping; snap = 4 }

stop_thread-turns_example :
    ((turns 2 (stop_thread asleep)).phase ≡ ended)
    × (((n : ℕ) × ((turns n (stop_thread (new_thread 1 (pos 0) (pos 31) 4))).phase ≡ ended))
        ↔ (can_end (pos 0) (pos 31) ≡ true))
stop_thread-turns_example = stop_thread-turns asleep 1 (pos 0) (pos 31) 4 (λ e. cc)

-- Both threads find nothing running, and both start.
abbrev first_asked : Requests
first_asked = record { mock = new_mock; threads = may_start (pos 5) (pos 0) ∷ free ∷ [] }

abbrev both_asked : Requests
both_asked = record {
  mock = new_mock;
  threads = may_start (pos 5) (pos 0) ∷ may_start (pos 6) (pos 0) ∷ [];
}

abbrev first_started : Requests
first_started = record {
  mock = (start (pos 5) (pos 0) new_mock).1;
  threads = free ∷ may_start (pos 6) (pos 0) ∷ [];
}

abbrev both_started : Requests
both_started = record {
  mock = (start (pos 6) (pos 0) (start (pos 5) (pos 0) new_mock).1).1;
  threads = free ∷ free ∷ [];
}

both-Reach : Reach 2 both_started
unfolding is_running
both-Reach =
    later {r = first_started}
      (later {r = both_asked}
        (later {r = first_asked} (later none_yet (ask new_mock [] (free ∷ []) (pos 5) (pos 0) refl))
          (ask new_mock (may_start (pos 5) (pos 0) ∷ []) [] (pos 6) (pos 0) refl))
        (begin new_mock [] (may_start (pos 6) (pos 0) ∷ []) (pos 5) (pos 0)))
      (begin first_started.mock (free ∷ []) [] (pos 6) (pos 0))

two_running : count_running both_started.mock.samplings ≡ 2
unfolding start new_block
two_running = refl

Reach-count_running_example : count_running both_started.mock.samplings ≤ 2
Reach-count_running_example = Reach-count_running both-Reach
