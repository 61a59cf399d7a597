-- ===== src/Sampling/Threads.antt =====
-- The thread of a block, one step at a time, and `stop` (`SamplingMock::SamplingBlock` of
-- src/main.cpp).
use beast_examples.Common.{ℕ, zero, suc, ◌+◌, ◌%◌, ◌^◌, true, false, if◌then◌else◌}
use beast_examples.Common.Int.{ℤ}
use beast_examples.Sampling.{Block, new_block, is_done, tick}

-- Where the thread is: made by the constructor, at the test of `while`, in its sleep, at its end.
pub data Phase : Type 0 where
  created testing sleeping ended : Phase

pub record BlockThread : Type 0 where
  pub block : Block
  pub phase : Phase
  -- the next number of a snap
  pub snap : ℕ

-- What the constructor leaves.
abbrev pub new_thread : ℕ → ℤ → ℤ → ℕ → BlockThread
new_thread i timeout snaps_needed snap = record {
  block = new_block i timeout snaps_needed;
  phase = created;
  snap = snap;
}

-- The tests of a round.
abbrev pub test : BlockThread → BlockThread
test t =
    if t.block.running
    then (if is_done t.block
        then record t { block = record (t.block) { running = false } }
        else record t { phase = sleeping })
    else record t { phase = ended }

abbrev pub turn_at : Phase → BlockThread → BlockThread
turn_at created t = record t {
  block = record (t.block) { running = true; elapsed = 0 };
  phase = testing;
}
turn_at testing t = test t
turn_at sleeping t = record t {
  block = tick t.snap t.block;
  phase = testing;
  snap = (t.snap + 1) % 2 ^ 64;
}
turn_at ended t = t

-- The next step of `run`.
unfoldable pub turn : BlockThread → BlockThread
turn t = turn_at t.phase t

unfoldable pub turns : ℕ → BlockThread → BlockThread
unfolding turn
turns zero t = t
turns (suc n) t = turns n (turn t)

-- `stop`, before its `join` waits for the end of the thread.
unfoldable pub stop_thread : BlockThread → BlockThread
stop_thread t =
    if t.block.running then record t { block = record (t.block) { running = false } } else t
