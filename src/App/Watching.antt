-- ===== src/App/Watching.antt =====
-- How long a sampling can run (src/main.cpp).
use beast_examples.Common.{
  ltb, ltb→lt, ◌||◌, ℕ, zero, suc, ◌+◌, ◌^◌, ◌≤◌, ◌<◌, ◌≡◌, refl, sym, ◌∙◌, ◌%◌, subst, Bool,
  Bool-cases, Option-cases, inl, inr, true, false, not, if◌then◌else◌, nat_eq, nat_eqb_iff, ◌==◌,
  List, [], ◌∷◌, Option, none, some, arith,
}
use beast_examples.Common.Int.{ℤ}
use beast_examples.Common.Assoc.{lookup, emplace, lookup-erase}
use beast_examples.Sampling.{Block, Mock, start, stop}
use beast_examples.Sampling.Rounds.{OnTime, goal, reached_before}
use beast_examples.App.Sessions.{round, round_of}
use beast_examples.App.Samplings.{
  round-OnTime, RequestMove, same_mock, one_started, one_stopped, MockInv,
}

-- Sampling `j` was stopped, or has taken `k` seconds at least.
pub record Watched (j : ℕ) (timeout needed : ℤ) (k : ℕ) (m : Mock) : Type 0 where
  pub old : j < m.sampling_id
  pub there :
      (b : Block)
      → lookup j m.samplings ≡ some b
      → b.running ≡ true
      → OnTime b × (k ≤ b.elapsed) × (b.timeout ≡ timeout) × (b.snaps_needed ≡ needed)

lookup-emplace_other :
    (k j : ℕ) (b : Block) (m : List (ℕ × Block)) → j < k → lookup j (emplace k b m) ≡ lookup j m
lookup-emplace_other k j b [] h = ground (arith, nat_eqb_iff k j)
lookup-emplace_other k j b ((i, c) ∷ m) h =
    ground (arith, nat_eqb_iff k j, nat_eqb_iff i k, nat_eqb_iff i j, lookup-emplace_other k j b m)

lookup-round_of :
    (j n snap : ℕ) (m : List (ℕ × Block)) (c : Block)
    → lookup j (round_of n snap m) ≡ some c
    → (b : Block) × (lookup j m ≡ some b) × (c ≡ (if j == n then round snap b else b))
lookup-round_of j n snap [] c h = cc
lookup-round_of j n snap ((i, b) ∷ m) c h = elim (Bool-cases (i == j)) [
  | inl same ↦
      let at_j : i ≡ j = (nat_eqb_iff i j).0 same in
      let e : c ≡ (if i == n then round snap b else b) = cc (rw same at h) in
      (b, rw same, subst (λ l. c ≡ (if l == n then round snap b else b)) at_j e)
  | inr other ↦
      let (d, found, e) = lookup-round_of j n snap m c (rw other at h) in (d, rw other found, e)
]

-- What a round does to a block that still runs behind it.
round-running :
    (snap : ℕ) (b : Block)
    → (round snap b).running ≡ true
    → (b.running ≡ true)
      × ((round snap b).elapsed ≡ b.elapsed + 1)
      × ((round snap b).timeout ≡ b.timeout)
      × ((round snap b).snaps_needed ≡ b.snaps_needed)
round-running snap b h = ground arith

-- Sampling `j` still runs as long as it may.
abbrev pub Going : ℤ → ℤ → ℕ → Block → Type 0
Going timeout needed k b =
    OnTime b × (k ≤ b.elapsed) × (b.timeout ≡ timeout) × (b.snaps_needed ≡ needed)

round-Going :
    (timeout needed : ℤ) (snap k : ℕ) (b : Block) (hit : Bool)
    → (b.running ≡ true → Going timeout needed k b)
    → (if hit then round snap b else b).running ≡ true
    → Going timeout needed (k + (if hit then 1 else 0)) (if hit then round snap b else b)
round-Going timeout needed snap k b false h on =
    let (v, late, t, n) = h on in (v, omega (arith, late), t, n)
round-Going timeout needed snap k b true h on =
    let (before, e, t, n) = round-running snap b on in
    let (v, late, t', n') = h before in
    (round-OnTime snap b v, omega (arith, late, e), t ∙ t', n ∙ n')

module _ (j : ℕ) (timeout needed : ℤ) where
  pub RequestMove-Watched :
      {m m' : Mock} (turn k : ℕ)
      → RequestMove m m'
      → MockInv turn m
      → turn + 2 < 2 ^ 64
      → Watched j timeout needed k m
      → Watched j timeout needed k m'
  unfolding start stop
  RequestMove-Watched turn k same_mock v room h = h
  RequestMove-Watched {m} turn k (one_started t n) v room h = record {
    old = rw next (omega (arith, h.old));
    there = λ b found.
        h.there b (rw (lookup-emplace_other m.sampling_id j _ m.samplings h.old) at found);
  }
    where
      next : (m.sampling_id + 1) % 2 ^ 64 ≡ m.sampling_id + 1
      next = omega (arith, v.few (omega arith))
  RequestMove-Watched {m} turn k (one_stopped n) v room h = record {
    old = h.old;
    there = λ b found. elim (Bool-cases (n == j)) [
      | inl same ↦ absurd (cc (rw (lookup-erase n j m.samplings, same) at found))
      | inr other ↦ h.there b (rw (lookup-erase n j m.samplings, other) at found)
    ];
  }

  pub round-Watched :
      (n snap next k : ℕ) (m : Mock)
      → Watched j timeout needed k m
      → Watched j timeout needed
          (k + (if j == n then 1 else 0))
          (record m { samplings = round_of n snap m.samplings; snap_id = next })
  round-Watched n snap next k m h = record {
    old = h.old;
    there = λ c found on.
        let (b, before, e) = lookup-round_of j n snap m.samplings c found in
        subst (Going timeout needed (k + (if j == n then 1 else 0))) (sym e)
          (round-Going timeout needed snap k b (j == n) (h.there b before) (rw (← e) on));
  }

both_false : (a b : Bool) → (a || b) ≡ false → (a ≡ false) × (b ≡ false)
both_false false b h = (refl, h)
both_false true b h = cc

goal_later :
    (timeout needed : ℤ) (n e : ℕ)
    → reached_before timeout needed e ≡ false
    → n < e
    → goal timeout needed n ≡ false
goal_later timeout needed n zero h k = absurd (omega arith)
goal_later timeout needed n (suc e) h k =
    let (now, before) : (goal timeout needed e ≡ false)
        × (reached_before timeout needed e ≡ false) =
      both_false _ _ h in
    elim (Bool-cases (ltb n e)) [
      | inl below ↦ goal_later timeout needed n e before (ltb→lt _ _ below)
      | inr above ↦ let same : n ≡ e = ground arith in rw same now
    ]

-- It is not there, or it has ended.
abbrev pub is_over : Option Block → Bool
is_over none = true
is_over (some b) = not b.running

pub Watched-is_over :
    (j n k : ℕ) (timeout needed : ℤ) (m : Mock)
    → Watched j timeout needed k m
    → goal timeout needed n ≡ true
    → n < k
    → is_over (lookup j m.samplings) ≡ true
Watched-is_over j n k timeout needed m w ends late = elim (Option-cases (lookup j m.samplings)) [
  | inl gone ↦ rw gone
  | inr (b, found) ↦ elim (Bool-cases b.running) [
    | inr stopped ↦ rw found (rw stopped)
    | inl on ↦
        let (v, long, t, d) = w.there b found on in
        let reached : goal b.timeout b.snaps_needed n ≡ true = rw (t, d) ends in
        absurd (
          cc (
            reached,
            goal_later b.timeout b.snaps_needed n b.elapsed v.first (omega (arith, long, late)),
          ))
  ]
]
