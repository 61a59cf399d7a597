-- ===== src/Preview/Pending.antt =====
-- The identifiers of the calls of `createPreview` that wait for the mutex
-- (src/PicturePreviewHandler.cpp).
use beast_examples.Common.{
  ℕ, ◌+◌, ◌≡◌, false, ◌==◌, text_eq, text_eqb_iff, List, [], ◌∷◌, ◌++◌, map, take, All, Text,
  Option, arith, Bool-cases, inl, inr,
}
use beast_examples.Preview.Trimming.{contains, contains-take, Distinct}
use beast_examples.Preview.Drawing.{Drawn}
use beast_examples.Preview.Threads.{Call}

-- The identifiers of calls.
abbrev pub uuids : List Call → List Text
uuids cs = map (λ c. c.uuid) cs

-- They were drawn by the first `turn` calls, and none of them is in use.
abbrev pub Waiting : (ℕ → Option Text) → ℕ → List Text → List Call → Type 0
Waiting random turn ids = All (λ c. Drawn random turn c.uuid × (contains c.uuid ids ≡ false))

not_contains-take :
    (k : Text) (n : ℕ) (ids : List Text) → contains k ids ≡ false → contains k (take n ids) ≡ false
not_contains-take k n ids h = elim (Bool-cases (contains k (take n ids))) [
  | inl there ↦ absurd (cc (h, contains-take k n ids there))
  | inr absent ↦ absent
]

pub Waiting-take :
    (random : ℕ → Option Text) (turn n : ℕ) (ids : List Text) (cs : List Call)
    → Waiting random turn ids cs
    → Waiting random turn (take n ids) cs
Waiting-take random turn n ids [] h = tt
Waiting-take random turn n ids (c ∷ cs) ((drawn, absent), h) =
    ((drawn, not_contains-take c.uuid n ids absent), Waiting-take random turn n ids cs h)

pub Waiting-older :
    (random : ℕ → Option Text) (turn : ℕ) (ids : List Text) (cs : List Call)
    → Waiting random turn ids cs
    → Waiting random (turn + 1) ids cs
Waiting-older random turn ids [] h = tt
Waiting-older random turn ids (c ∷ cs) (((m, earlier, e), absent), h) =
    (((m, omega arith, e), absent), Waiting-older random turn ids cs h)

pub uuids-Drawn :
    (random : ℕ → Option Text) (turn : ℕ) (ids : List Text) (cs : List Call)
    → Waiting random turn ids cs
    → All (Drawn random turn) (uuids cs)
uuids-Drawn random turn ids [] h = tt
uuids-Drawn random turn ids (c ∷ cs) ((drawn, absent), h) =
    (drawn, uuids-Drawn random turn ids cs h)

-- What is absent from a list is absent without one of its calls, and is not that call.
contains-without :
    (k : Text) (before : List Call) (c : Call) (after : List Call)
    → contains k (uuids (before ++ c ∷ after)) ≡ false
    → ((c.uuid == k) ≡ false) × (contains k (uuids (before ++ after)) ≡ false)
contains-without k [] c after h = ground arith
contains-without k (b ∷ before) c after h = ground (arith, contains-without k before c after)

pub Distinct-without :
    (before : List Call) (c : Call) (after : List Call)
    → Distinct (uuids (before ++ c ∷ after))
    → Distinct (uuids (before ++ after))
Distinct-without [] c after (absent, h) = h
Distinct-without (b ∷ before) c after (absent, h) =
    ((contains-without b.uuid before c after absent).1, Distinct-without before c after h)

Waiting-cons :
    (random : ℕ → Option Text) (turn : ℕ) (k : Text) (ids : List Text) (cs : List Call)
    → contains k (uuids cs) ≡ false
    → Waiting random turn ids cs
    → Waiting random turn (k ∷ ids) cs
Waiting-cons random turn k ids [] absent h = tt
Waiting-cons random turn k ids (c ∷ cs) absent ((drawn, new), h) = (
  (drawn, ground (arith, text_eqb_iff c.uuid k, text_eqb_iff k c.uuid)),
  Waiting-cons random turn k ids cs (ground arith) h,
)

-- One of them has had the mutex: its identifier is in use, and the others wait.
pub Waiting-without :
    (random : ℕ → Option Text) (turn : ℕ) (ids : List Text) (before : List Call) (c : Call)
    (after : List Call)
    → Distinct (uuids (before ++ c ∷ after))
    → Waiting random turn ids (before ++ c ∷ after)
    → Waiting random turn (c.uuid ∷ ids) (before ++ after)
Waiting-without random turn ids [] c after (absent, _) (_, h) =
    Waiting-cons random turn c.uuid ids after absent h
Waiting-without random turn ids (b ∷ before) c after (absent, distinct) ((drawn, new), h) =
    let (other, _) = contains-without b.uuid before c after absent in
    ((drawn, rw other new), Waiting-without random turn ids before c after distinct h)

-- A call that waits is one of those that wait.
pub Waiting-middle :
    (random : ℕ → Option Text) (turn : ℕ) (ids : List Text) (before : List Call) (c : Call)
    (after : List Call)
    → Waiting random turn ids (before ++ c ∷ after)
    → Drawn random turn c.uuid × (contains c.uuid ids ≡ false)
Waiting-middle random turn ids [] c after (h, _) = h
Waiting-middle random turn ids (b ∷ before) c after (_, h) =
    Waiting-middle random turn ids before c after h
