-- ===== src/Sampling/Starting.antt =====
-- Requests to start a sampling that are handled one after the other (src/main.cpp).
use beast_examples.Common.{
  ℕ, ◌+◌, ◌≤◌, ◌<◌, ◌≡◌, refl, false, if◌then◌else◌, nat_eqb_iff, nat_eq, ◌==◌, List, [], ◌∷◌, any,
  codes, arith, Bool-cases, inl, inr, ◌>>=◌, Result-cases, All,
}
use beast_examples.Common.Assoc.{emplace, erase}
use beast_examples.Json.{JsonLib}
use beast_examples.Http.{Request}
use beast_examples.Sampling.{Block, Mock, stop, stop_handler}

abbrev pub count_running : List (ℕ × Block) → ℕ
count_running [] = 0
count_running ((n, b) ∷ m) = (if b.running then 1 else 0) + count_running m

-- The numbers that are in use are below the next one, and at most one sampling runs.
pub record Inv (m : Mock) : Type 0 where
  pub below : All (λ entry. entry.0 < m.sampling_id) m.samplings
  pub one : count_running m.samplings ≤ 1

pub count_idle :
    (m : List (ℕ × Block)) → any (λ entry. entry.1.running) m ≡ false → count_running m ≡ 0
count_idle [] h = refl
count_idle ((n, b) ∷ m) h = ground (arith, count_idle m)

pub emplace_new :
    (n : ℕ) (b : Block) (m : List (ℕ × Block))
    → All (λ entry. entry.0 < n) m
    → (count_running (emplace n b m) ≡ count_running ((n, b) ∷ m))
      × All (λ entry. entry.0 < n + 1) (emplace n b m)
emplace_new n b [] h = (refl, (omega arith, tt))
emplace_new n b ((j, c) ∷ m) (lt, h) = elim (Bool-cases (j == n)) [
  | inl same ↦ absurd (ground (arith, nat_eqb_iff j n))
  | inr other ↦
      let (counted, below) = emplace_new n b m h in
      rw other (rw counted (omega arith), (omega arith, below))
]

erase_smaller :
    (n bound : ℕ) (m : List (ℕ × Block))
    → All (λ entry. entry.0 < bound) m
    → (count_running (erase n m) ≤ count_running m) × All (λ entry. entry.0 < bound) (erase n m)
erase_smaller n bound [] h = (omega arith, tt)
erase_smaller n bound ((j, b) ∷ m) (lt, h) =
    let (fewer, below) = erase_smaller n bound m h in
    elim (Bool-cases (j == n)) [
      | inl same ↦ rw same (omega (arith, fewer), below)
      | inr other ↦ rw other (omega (arith, fewer), (lt, below))
    ]

module _ (J : JsonLib) where
  -- Stopping keeps at most one sampling running, whatever it is asked to stop.
  stop_handler-Inv : (req : Request) (m : Mock) → Inv m → Inv (stop_handler J req m).0
  unfolding stop_handler stop
  stop_handler-Inv req m v =
      elim (Result-cases (J.parse req.body >>= λ json. J.at (codes "id") json >>= J.get_nat 64)) [
        | inr (e, bad) ↦ rw (bad, stop_handler) v
        | inl (n, good) ↦
            let (fewer, below) = erase_smaller n m.sampling_id m.samplings v.below in
            rw (good, stop_handler) (record { below = below; one = omega (arith, fewer, v.one) })
      ]
