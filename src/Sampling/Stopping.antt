-- ===== src/Sampling/Stopping.antt =====
-- Whether `stop` ends the thread of a sampling (src/main.cpp).
use beast_examples.Common.{
  ℕ, zero, suc, ◌+◌, ◌%◌, ◌^◌, ◌≡◌, ◌≢◌, ◌↔◌, refl, ap, sym, ◌∙◌, true, false, some, arith,
  Bool-cases, inl, inr,
}
use beast_examples.Common.Int.{ℤ}
use beast_examples.Sampling.{Block, new_block, is_done, tick, loop, run}
use beast_examples.Sampling.Threads.{
  Phase, created, testing, sleeping, ended, BlockThread, new_thread, turns, stop_thread,
}
use beast_examples.Sampling.Rounds.{can_end, run_iff-can_end}

abbrev at_test : Block → ℕ → BlockThread
at_test b snap = record { block = b; phase = testing; snap = snap }

next_test :
    (n : ℕ) (b : Block) (snap : ℕ)
    → b.running ≡ true
    → is_done b ≡ false
    → turns (suc (suc n)) (at_test b snap) ≡ turns n (at_test (tick snap b) ((snap + 1) % 2 ^ 64))
unfolding turns
next_test n b snap on later = rw (on, later)

-- A loop that ends is a thread that ends.
turns-loop :
    (fuel : ℕ) (b : Block) (snap : ℕ) (r : Block × ℕ)
    → b.running ≡ true
    → loop fuel b snap ≡ some r
    → (n : ℕ) × ((turns n (at_test b snap)).phase ≡ ended)
unfolding loop turns
turns-loop zero b snap r on e = cc
turns-loop (suc fuel) b snap r on e = elim (Bool-cases (is_done b)) [
  | inl done ↦ (2, rw (on, done))
  | inr later ↦
      let (n, h) = turns-loop fuel (tick snap b) ((snap + 1) % 2 ^ 64) r on (rw later at e) in
      (suc (suc n), ap (λ t. t.phase) (next_test n b snap on later) ∙ h)
]

loop-turns :
    (n : ℕ) (b : Block) (snap : ℕ)
    → b.running ≡ true
    → (turns n (at_test b snap)).phase ≡ ended
    → (fuel : ℕ) × (r : Block × ℕ) × (loop fuel b snap ≡ some r)
unfolding loop turns
loop-turns zero b snap on h = cc
loop-turns (suc zero) b snap on h = ground arith
loop-turns (suc (suc n)) b snap on h = elim (Bool-cases (is_done b)) [
  | inl done ↦ (1, (record b { running = false }, snap), rw done)
  | inr later ↦
      let (fuel, r, e) =
        loop-turns n (tick snap b) ((snap + 1) % 2 ^ 64) on
          (ap (λ t. t.phase) (sym (next_test n b snap on later)) ∙ h) in
      (suc fuel, r, rw later e)
]

-- `stop` ends a thread that has begun `run`, whatever its block, by its second step from there. But
-- when it comes before the thread of a new sampling has begun, `run` sets the flag again: the thread
-- ends exactly if the sampling would have ended without the `stop`, that is, if it has a timeout or
-- needs 1 to 30 snaps.
pub stop_thread-turns :
    (t : BlockThread) (i : ℕ) (timeout needed : ℤ) (snap : ℕ)
    → t.phase ≢ created
    → ((turns 2 (stop_thread t)).phase ≡ ended)
      × (((n : ℕ) × ((turns n (stop_thread (new_thread i timeout needed snap))).phase ≡ ended))
          ↔ (can_end timeout needed ≡ true))
unfolding turns stop_thread run new_block
stop_thread-turns t i timeout needed snap running = (begun t.phase running, (ends, can))
  where
    begun :
        (p : Phase) → p ≢ created → (turns 2 (stop_thread (record t { phase = p }))).phase ≡ ended
    begun created h = absurd (h refl)
    begun testing h = ground arith
    begun sleeping h = ground arith
    begun ended h = ground arith

    ends :
        (n : ℕ) × ((turns n (stop_thread (new_thread i timeout needed snap))).phase ≡ ended)
        → can_end timeout needed ≡ true
    ends (zero, h) = cc
    ends (suc n, h) = (run_iff-can_end i timeout needed snap).0 (loop-turns n _ snap refl h)

    can :
        can_end timeout needed ≡ true
        → (n : ℕ) × ((turns n (stop_thread (new_thread i timeout needed snap))).phase ≡ ended)
    can h =
        let (fuel, r, e) = (run_iff-can_end i timeout needed snap).1 h in
        let (n, done) = turns-loop fuel _ snap r refl e in (suc n, done)
