-- ===== src/App/Finishing.antt =====
-- The rounds of the samplings, between the other steps of the whole server (src/main.cpp).
use beast_examples.Common.{
  All-lookup, ℕ, ◌+◌, ◌^◌, ◌<◌, ◌≡◌, refl, subst, Bool, Option-cases, inl, inr, true, if◌then◌else◌,
  nat_eq, ◌==◌, Text, some, arith,
}
use beast_examples.Common.Int.{ℤ}
use beast_examples.Common.Assoc.{lookup}
use beast_examples.Http.{Request, Response}
use beast_examples.Session.Shared.{step-keeps}
use beast_examples.Sampling.{Block, Mock, start}
use beast_examples.Sampling.Rounds.{goal}
use beast_examples.Server.{resolve, routes}
use beast_examples.App.{Outside, App, handler}
use beast_examples.App.Sessions.{Site, Step, connect, event, take_round, Runs, here, more, Reach}
use beast_examples.App.Lasting.{dispatch-turn}
use beast_examples.App.Samplings.{
  RequestMove, dispatch-RequestMove, MockInv, RequestMove-MockInv, sampled-MockInv, new-MockInv,
}
use beast_examples.App.Watching.{
  Watched, RequestMove-Watched, round-Watched, Going, is_over, Watched-is_over,
}

module _ (E : Outside) (root : Text) where
  -- What every request keeps of the samplings and the number of requests, the server's handlers keep.
  handler-keeps :
      (P : ℕ → Mock → Type 0)
      → ((m m' : Mock) (turn : ℕ) → RequestMove m m' → P turn m → P (turn + 1) m')
      → (path : Text) (req : Request) (s : App) → P s.turn s.mock
      → P (handler E root path req s).0.turn (handler E root path req s).0.mock
  unfolding handler
  handler-keeps P go path req s h = elim (Option-cases (resolve E.matches path routes)) [
    | inl missing ↦ rw missing h
    | inr (route, found) ↦
        rw (found, dispatch-turn E root route req s)
          (go s.mock _ s.turn (dispatch-RequestMove E root route req s) h)
  ]

  module _ (need_eof : Response → Bool) (is_upgrade : Request → Bool) where
    Step-MockInv :
        {s t : Site}
        → Step E root need_eof is_upgrade s t
        → MockInv s.app.turn s.app.mock
        → MockInv t.app.turn t.app.mock
    Step-MockInv (connect now s) h = h
    Step-MockInv (event now e s before after t w own k) h =
        step-keeps (λ a. MockInv a.turn a.mock) need_eof is_upgrade (handler E root)
          (handler-keeps MockInv (λ m m' turn r. RequestMove-MockInv turn r)) now e _ w own k h
    Step-MockInv (take_round n s) h = sampled-MockInv s.app.turn n _ _ s.app.mock h

    Reach-MockInv : {s : Site} → Reach E root need_eof is_upgrade s → MockInv s.app.turn s.app.mock
    Reach-MockInv here = new-MockInv
    Reach-MockInv (more r k) = Step-MockInv k (Reach-MockInv r)

    -- How many rounds the thread of a sampling has taken.
    abbrev pub rounds : ℕ → {s t : Site} → Runs E root need_eof is_upgrade s t → ℕ
    rounds j here = 0
    rounds j (more r (connect now s)) = rounds j r
    rounds j (more r (event now e s before after t w own k)) = rounds j r
    rounds j (more r (take_round n s)) = rounds j r + (if j == n then 1 else 0)

    module _ (j : ℕ) (timeout needed : ℤ) where
      -- As long as the numbers of samplings do not run out.
      abbrev Stage : ℕ → ℕ → Mock → Type 0
      Stage k turn m = MockInv turn m × (turn + 1 < 2 ^ 64 → Watched j timeout needed k m)

      RequestMove-Stage :
          (k : ℕ) {m m' : Mock} (turn : ℕ)
          → RequestMove m m'
          → Stage k turn m
          → Stage k (turn + 1) m'
      RequestMove-Stage k turn r (v, h) = (
        RequestMove-MockInv turn r v,
        λ room. RequestMove-Watched j timeout needed turn k r v (omega arith) (h (omega arith)),
      )

      Runs-Stage :
          {s t : Site} (r : Runs E root need_eof is_upgrade s t)
          → Stage 0 s.app.turn s.app.mock
          → Stage (rounds j r) t.app.turn t.app.mock
      Runs-Stage here h = h
      Runs-Stage (more r (connect now s)) h = Runs-Stage r h
      Runs-Stage (more r (event now e s before after t w own k)) h =
          step-keeps (λ a. Stage (rounds j r) a.turn a.mock) need_eof is_upgrade (handler E root)
            (handler-keeps (Stage (rounds j r))
              (λ m m' turn move. RequestMove-Stage (rounds j r) turn move))
            now e _ w own k (Runs-Stage r h)
      Runs-Stage (more r (take_round n s)) h =
          let (v, w) = Runs-Stage r h in
          (
            sampled-MockInv s.app.turn n _ _ s.app.mock v,
            λ room. round-Watched j timeout needed n _ _ (rounds j r) s.app.mock (w room),
          )

    -- Let a sampling be at the server, in any state that it reaches, whose goal (its timeout, or so
    -- many snaps of the 30 that are kept) is reached after `n` seconds, and let the server run on in
    -- any way (connections, requests of all sessions, rounds of all samplings). When the thread of
    -- the sampling has taken more than `n` rounds since, the sampling is not running any more, or it
    -- is gone. (Fewer than 2^64 - 1 requests were handled, so that the numbers of samplings do not
    -- run out.)
    pub Runs-is_over :
        {s t : Site} (j n : ℕ) (b : Block) (r : Runs E root need_eof is_upgrade s t)
        → Reach E root need_eof is_upgrade s
        → lookup j s.app.mock.samplings ≡ some b
        → goal b.timeout b.snaps_needed n ≡ true
        → n < rounds j r
        → t.app.turn + 1 < 2 ^ 64
        → is_over (lookup j t.app.mock.samplings) ≡ true
    Runs-is_over {s} {t} j n b r start found ends late room =
        let v = Reach-MockInv start in
        let first : s.app.turn + 1 < 2 ^ 64 → Watched j b.timeout b.snaps_needed 0 s.app.mock =
          λ few. record {
            old = All-lookup _ j b s.app.mock.samplings (v.below few) found;
            there = λ c again on.
                subst (Going b.timeout b.snaps_needed 0) {x = b} (cc (found, again))
                  (All-lookup _ j b s.app.mock.samplings v.on_time found, omega arith, refl, refl);
          } in
        let w = (Runs-Stage j b.timeout b.snaps_needed r (v, first)).1 room in
        Watched-is_over j n (rounds j r) b.timeout b.snaps_needed t.app.mock w ends late
