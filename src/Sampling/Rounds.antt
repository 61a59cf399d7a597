-- ===== src/Sampling/Rounds.antt =====
-- When the thread of a sampling ends (src/main.cpp).
use beast_examples.Common.{
  ℕ, zero, suc, ◌+◌, ◌%◌, ◌^◌, ◌≤◌, ◌<◌, ◌≡◌, ◌↔◌, refl, ◌∙◌, Bool, true, false, ◌&&◌, ◌||◌, ltb,
  leb, min, max, List, [], ◌∷◌, ◌++◌, length, length-append, none, some, arith, Bool-cases, inl,
  inr, ltb→lt, subst,
}
use beast_examples.Common.Int.{ℤ, is_positive, to_nat}
use beast_examples.Sampling.{
  Block, new_block, progress, is_done, snaps_kept, pop_old, tick, loop, run,
}

length-pop_old : (xs : List ℕ) → length (pop_old xs) ≡ min snaps_kept (length xs)
unfolding pop_old
length-pop_old [] = refl
length-pop_old (x ∷ xs) = ground (arith, length-pop_old xs)

-- The goal of a sampling: its timeout, or the number of snaps that it needs of those that are kept.
abbrev pub goal : ℤ → ℤ → ℕ → Bool
goal timeout needed n =
    is_positive timeout && leb (to_nat timeout) n
    || is_positive needed && leb (to_nat needed) (min snaps_kept n)

-- It was reached before second `n`.
abbrev pub reached_before : ℤ → ℤ → ℕ → Bool
reached_before timeout needed zero = false
reached_before timeout needed (suc n) = goal timeout needed n || reached_before timeout needed n

-- A block whose thread has run: it has the snaps of its seconds, and never reached its goal before.
pub record OnTime (b : Block) : Type 0 where
  pub counted : length b.snaps ≡ min snaps_kept b.elapsed
  pub first : reached_before b.timeout b.snaps_needed b.elapsed ≡ false

pub is_done-goal : (b : Block) → OnTime b → is_done b ≡ goal b.timeout b.snaps_needed b.elapsed
is_done-goal b v = rw (v.counted)

pub tick-OnTime :
    (snap : ℕ) (b : Block)
    → OnTime b
    → goal b.timeout b.snaps_needed b.elapsed ≡ false
    → OnTime (tick snap b)
tick-OnTime snap b v later = record {
  counted =
      length-pop_old (b.snaps ++ snap ∷ [])
      ∙ rw (length-append b.snaps (snap ∷ []), v.counted) (omega arith);
  first = before b.elapsed later v.first;
}
  where
    before :
        (n : ℕ)
        → goal b.timeout b.snaps_needed n ≡ false
        → reached_before b.timeout b.snaps_needed n ≡ false
        → reached_before b.timeout b.snaps_needed (n + 1) ≡ false
    before n g h =
        subst (λ m. reached_before b.timeout b.snaps_needed m ≡ false) {x = suc n} (omega arith)
          (rw (g, h))

-- What is left when the thread has ended.
pub record Ended (timeout needed : ℤ) (b : Block) : Type 0 where
  pub stopped : b.running ≡ false
  pub counted : length b.snaps ≡ min snaps_kept b.elapsed
  pub reached : goal timeout needed b.elapsed ≡ true
  pub first : reached_before timeout needed b.elapsed ≡ false

loop-Ended :
    (fuel n : ℕ) (b : Block) (snap : ℕ)
    → OnTime b
    → goal b.timeout b.snaps_needed n ≡ true
    → b.elapsed ≤ n
    → n < b.elapsed + fuel
    → (c : Block) × (next : ℕ) × (loop fuel b snap ≡ some (c, next))
      × Ended b.timeout b.snaps_needed c
unfolding loop
loop-Ended zero n b snap v g h k = absurd (omega arith)
loop-Ended (suc fuel) n b snap v g h k =
    elim (Bool-cases (goal b.timeout b.snaps_needed b.elapsed)) [
      | inl done ↦ (
        record b { running = false },
        snap,
        rw (is_done-goal b v, done),
        record { stopped = refl; counted = v.counted; reached = done; first = v.first },
      )
      | inr later ↦
          let more : b.elapsed < n = not_yet b.elapsed h later in
          let (c, next, e, ended) =
            loop-Ended fuel n (tick snap b) ((snap + 1) % 2 ^ 64) (tick-OnTime snap b v later) g
              (omega arith) (omega arith) in
          (c, next, rw (is_done-goal b v, later) e, ended)
    ]
  where
    not_yet : (e : ℕ) → e ≤ n → goal b.timeout b.snaps_needed e ≡ false → e < n
    not_yet e h' later = elim (Bool-cases (ltb e n)) [
      | inl below ↦ ltb→lt _ _ below
      | inr above ↦ let same : e ≡ n = ground arith in absurd (cc (same, g, later))
    ]

loop-never :
    (fuel : ℕ) (b : Block) (snap : ℕ)
    → OnTime b
    → ((n : ℕ) → goal b.timeout b.snaps_needed n ≡ false)
    → loop fuel b snap ≡ none
unfolding loop
loop-never zero b snap v never = refl
loop-never (suc fuel) b snap v never =
    rw (is_done-goal b v, never b.elapsed)
      (loop-never fuel (tick snap b) ((snap + 1) % 2 ^ 64) (tick-OnTime snap b v (never b.elapsed))
        never)

pub new_block-OnTime :
    (i : ℕ) (timeout needed : ℤ)
    → OnTime (record (new_block i timeout needed) { running = true; elapsed = 0 })
unfolding new_block
new_block-OnTime i timeout needed = record { counted = refl; first = refl }

-- A sampling whose goal (its timeout, or so many snaps of the 30 that are kept) is reached after
-- some number of seconds ends: it stops at the first second at which the goal is reached, with one
-- snap for each second, of which the newest 30 are kept.
pub run-Ended :
    (i : ℕ) (timeout needed : ℤ) (snap n : ℕ)
    → goal timeout needed n ≡ true
    → (c : Block) × (next : ℕ) × (run (suc n) (new_block i timeout needed) snap ≡ some (c, next))
      × Ended timeout needed c
unfolding run new_block
run-Ended i timeout needed snap n g =
    loop-Ended (suc n) n _ snap (new_block-OnTime i timeout needed) g (omega arith) (omega arith)

-- Whether a sampling can end at all.
abbrev pub can_end : ℤ → ℤ → Bool
can_end timeout needed = is_positive timeout || is_positive needed && leb (to_nat needed) snaps_kept

never_goal :
    (timeout needed : ℤ) (n : ℕ) → can_end timeout needed ≡ false → goal timeout needed n ≡ false
never_goal timeout needed n h = ground arith

-- The thread of a sampling ends exactly when it has a timeout, or needs 1 to 30 snaps: a request for
-- more than 30 snaps without a timeout runs for ever, since no more than 30 are kept.
pub run_iff-can_end :
    (i : ℕ) (timeout needed : ℤ) (snap : ℕ)
    → ((fuel : ℕ) × (r : Block × ℕ) × (run fuel (new_block i timeout needed) snap ≡ some r))
      ↔ (can_end timeout needed ≡ true)
unfolding run new_block
run_iff-can_end i timeout needed snap = (ends, goes_on)
  where
    ends :
        (fuel : ℕ) × (r : Block × ℕ) × (run fuel (new_block i timeout needed) snap ≡ some r)
        → can_end timeout needed ≡ true
    ends (fuel, r, e) = elim (Bool-cases (can_end timeout needed)) [
      | inl possible ↦ possible
      | inr never ↦
          let endless =
            loop-never fuel _ snap (new_block-OnTime i timeout needed)
              (λ n. never_goal timeout needed n never) in
          absurd (cc (e, endless))
    ]

    goes_on :
        can_end timeout needed ≡ true
        → (fuel : ℕ) × (r : Block × ℕ) × (run fuel (new_block i timeout needed) snap ≡ some r)
    goes_on h =
        let n = max (to_nat timeout) (to_nat needed) in
        let (c, next, e, _) = run-Ended i timeout needed snap n (ground arith) in
        (suc n, (c, next), e)

-- The progress of a sampling is a number of percent.
progress-le : (b : Block) → progress b ≤ 100
unfolding progress
progress-le b = ground arith
