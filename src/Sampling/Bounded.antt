-- ===== src/Sampling/Bounded.antt =====
-- How many samplings can run at once (src/main.cpp).
use beast_examples.Common.{
  ℕ, zero, suc, ◌+◌, ◌≤◌, ◌≡◌, refl, ◌∙◌, nat_eq, List, [], ◌∷◌, ◌++◌, replicate, length,
  length-append, arith,
}
use beast_examples.Common.Assoc.{emplace, erase}
use beast_examples.Sampling.{Block, new_block, is_running, start, stop}
use beast_examples.Sampling.Starting.{count_running, count_idle}
use beast_examples.Sampling.Requests.{
  Phase, free, may_start, Requests, finish, Step, ask, begin, stop_one, finish_one, Reach, none_yet,
  later,
}

pub count_running-emplace :
    (n : ℕ) (b : Block) (m : List (ℕ × Block)) → count_running (emplace n b m) ≤ 1 + count_running m
count_running-emplace n b [] = ground arith
count_running-emplace n b ((j, c) ∷ m) = ground (arith, count_running-emplace n b m)

pub count_running-erase :
    (n : ℕ) (m : List (ℕ × Block)) → count_running (erase n m) ≤ count_running m
count_running-erase n [] = omega arith
count_running-erase n ((j, c) ∷ m) = ground (arith, count_running-erase n m)

count_running-finish : (n : ℕ) (m : List (ℕ × Block)) → count_running (finish n m) ≤ count_running m
count_running-finish n [] = omega arith
count_running-finish n ((j, c) ∷ m) = ground (arith, count_running-finish n m)

abbrev waits : Phase → ℕ
waits free = 0
waits (may_start _ _) = 1

-- The threads that are about to start a sampling.
abbrev count_waiting : List Phase → ℕ
count_waiting [] = 0
count_waiting (p ∷ ps) = waits p + count_waiting ps

count_waiting-append :
    (before after : List Phase)
    → count_waiting (before ++ after) ≡ count_waiting before + count_waiting after
count_waiting-append [] after = omega arith
count_waiting-append (p ∷ before) after = rw (count_waiting-append before after) (omega arith)

count_waiting-le : (ps : List Phase) → count_waiting ps ≤ length ps
count_waiting-le [] = omega arith
count_waiting-le (free ∷ ps) = omega (arith, count_waiting-le ps)
count_waiting-le (may_start _ _ ∷ ps) = omega (arith, count_waiting-le ps)

abbrev Bounded : Requests → Type 0
Bounded r = count_running r.mock.samplings + count_waiting r.threads ≤ length r.threads

-- One thread of a list.
length-replaced :
    (p q : Phase) (before after : List Phase)
    → length (before ++ p ∷ after) ≡ length (before ++ q ∷ after)
length-replaced p q before after =
    omega (arith, length-append before (p ∷ after), length-append before (q ∷ after))

count_waiting-split :
    (p : Phase) (before after : List Phase)
    → count_waiting (before ++ p ∷ after) ≡ waits p + (count_waiting before + count_waiting after)
count_waiting-split p before after = omega (arith, count_waiting-append before (p ∷ after))

Step-Bounded :
    {r t : Requests} → Step r t → Bounded r → (length t.threads ≡ length r.threads) × Bounded t
unfolding start stop is_running
Step-Bounded (ask m before after timeout needed idle) h = (
  length-replaced (may_start timeout needed) free before after,
  omega (
    arith,
    count_idle m.samplings idle,
    count_waiting-le (before ++ may_start timeout needed ∷ after),
  ),
)
Step-Bounded (begin m before after timeout needed) h = (
  length-replaced free (may_start timeout needed) before after,
  omega (
    arith,
    h,
    count_running-emplace m.sampling_id (new_block m.sampling_id timeout needed) m.samplings,
    count_waiting-split free before after,
    count_waiting-split (may_start timeout needed) before after,
    length-replaced free (may_start timeout needed) before after,
  ),
)
Step-Bounded (stop_one n r) h = (refl, omega (arith, count_running-erase n r.mock.samplings))
Step-Bounded (finish_one n r) h = (refl, omega (arith, count_running-finish n r.mock.samplings))

none_yet-Bounded :
    (n : ℕ) → (length (replicate n free) ≡ n) × (count_waiting (replicate n free) ≡ 0)
none_yet-Bounded zero = (refl, refl)
none_yet-Bounded (suc n) = let (e, f) = none_yet-Bounded n in (omega arith, omega arith)

Reach-Bounded : {n : ℕ} {r : Requests} → Reach n r → (length r.threads ≡ n) × Bounded r
Reach-Bounded {n} none_yet = let (e, f) = none_yet-Bounded n in (e, omega arith)
Reach-Bounded (later r s) =
    let (e, h) = Reach-Bounded r in let (f, k) = Step-Bounded s h in (f ∙ e, k)

-- However requests to start and to stop samplings, handled on `n` threads, and the ends of samplings
-- interleave, at most `n` samplings run at once; a handler asks whether one runs and starts its own in
-- two steps, between which others may come.
pub Reach-count_running : {n : ℕ} {r : Requests} → Reach n r → count_running r.mock.samplings ≤ n
Reach-count_running h = let (e, k) = Reach-Bounded h in omega arith
