-- ===== src/Sampling/Requests.antt =====
-- Requests to start and to stop samplings, on several threads (src/main.cpp).
--
-- The handler that starts takes the lock once for `isRunning` and once for `start`: each is one step,
-- and steps of other threads may come between.
use beast_examples.Common.{
  ℕ, ◌≡◌, false, if◌then◌else◌, ◌==◌, nat_eq, List, [], ◌∷◌, ◌++◌, replicate,
}
use beast_examples.Common.Int.{ℤ}
use beast_examples.Sampling.{Block, Mock, new_mock, is_running, start, stop}

-- A thread is free, or in a handler that has found nothing running.
pub data Phase : Type 0 where
  free : Phase
  may_start : ℤ → ℤ → Phase

pub record Requests : Type 0 where
  pub mock : Mock
  pub threads : List Phase

-- The thread of sampling `n` ends.
abbrev pub finish : ℕ → List (ℕ × Block) → List (ℕ × Block)
finish n [] = []
finish n ((j, b) ∷ m) = (j, if j == n then record b { running = false } else b) ∷ finish n m

-- A handler's next step on one of the threads, or the end of a sampling. A request that is refused
-- changes nothing.
pub data Step : Requests → Requests → Type 0 where
  ask :
      (m : Mock) (before after : List Phase) (timeout snaps_needed : ℤ)
      → is_running m ≡ false
      → Step
          (record { mock = m; threads = before ++ free ∷ after })
          (record { mock = m; threads = before ++ may_start timeout snaps_needed ∷ after })
  begin :
      (m : Mock) (before after : List Phase) (timeout snaps_needed : ℤ)
      → Step
          (record { mock = m; threads = before ++ may_start timeout snaps_needed ∷ after })
          (record { mock = (start timeout snaps_needed m).1; threads = before ++ free ∷ after })
  stop_one : (n : ℕ) (r : Requests) → Step r (record r { mock = stop n r.mock })
  finish_one :
      (n : ℕ) (r : Requests)
      → Step r (record r { mock = record (r.mock) { samplings = finish n r.mock.samplings } })

pub data Reach (threads : ℕ) : Requests → Type 0 where
  none_yet : Reach threads (record { mock = new_mock; threads = replicate threads free })
  later : {r t : Requests} → Reach threads r → Step r t → Reach threads t
