-- ===== src/App/Samplings.antt =====
-- What the server does to its samplings (src/main.cpp).
use beast_examples.Common.{
  Bool, ◌&&◌, not, All-emplace, All-erase, ℕ, ◌+◌, ◌%◌, ◌^◌, ◌≤◌, ◌<◌, ◌≡◌, ◌>>=◌, Bool-cases,
  Result-cases, inl, inr, nat_eq, ◌==◌, List, [], ◌∷◌, All, codes, Text, arith,
}
use beast_examples.Common.Int.{ℤ}
use beast_examples.Json.{JsonLib}
use beast_examples.Http.{Request}
use beast_examples.Sampling.{
  is_running, new_mock, Block, Mock, new_block, is_done, is_running, start, stop, start_arguments,
  start_found, stop_handler, status_handler,
}
use beast_examples.Sampling.Starting.{emplace_new}
use beast_examples.Sampling.Rounds.{OnTime, is_done-goal, tick-OnTime, new_block-OnTime}
use beast_examples.Server.{
  Route, version_api, sampling_start, sampling_status, sampling_stop, picture, post_picture,
  list_pictures, files,
}
use beast_examples.App.{start_seen, Outside, App, dispatch, version_handler}
use beast_examples.App.Sessions.{round, round_of}
use beast_examples.App.Invariant.{json_keeps}

-- What a request can do to the samplings.
pub data RequestMove (m : Mock) : Mock → Type 0 where
  same_mock : RequestMove m m
  one_started : (timeout needed : ℤ) → RequestMove m (start timeout needed m).1
  one_stopped : (n : ℕ) → RequestMove m (stop n m)

start_found-RequestMove :
    (J : JsonLib) (busy : Bool) (req : Request) (m : Mock)
    → RequestMove m (start_found J busy req m).0
unfolding start_found
start_found-RequestMove J busy req m = elim (Result-cases (start_arguments J req.body)) [
  | inr (e, bad) ↦ rw (bad, start_found) same_mock
  | inl ((timeout, needed), good) ↦ elim (Bool-cases busy) [
    | inl found ↦ rw (good, start_found, found) same_mock
    | inr idle ↦ rw (good, start_found, idle) (one_started timeout needed)
  ]
]

stop_handler-RequestMove :
    (J : JsonLib) (req : Request) (m : Mock) → RequestMove m (stop_handler J req m).0
unfolding stop_handler
stop_handler-RequestMove J req m =
    elim (Result-cases (J.parse req.body >>= λ json. J.at (codes "id") json >>= J.get_nat 64)) [
      | inr (e, bad) ↦ rw (bad, stop_handler) same_mock
      | inl (n, good) ↦ rw (good, stop_handler) (one_stopped n)
    ]

module _ (E : Outside) (root : Text) where
  pub dispatch-RequestMove :
      (route : Route) (req : Request) (s : App)
      → RequestMove s.mock (dispatch E root route req s).0.mock
  unfolding dispatch status_handler
  dispatch-RequestMove version_api req s =
      json_keeps E.json (λ t. RequestMove s.mock t.mock) (version_handler E root) req s same_mock
        same_mock
  dispatch-RequestMove sampling_start req s =
      json_keeps E.json (RequestMove s.mock) (start_seen E root s.turn) req s.mock same_mock
        (start_found-RequestMove E.json (is_running s.mock && not (E.early s.turn)) req s.mock)
  dispatch-RequestMove sampling_status req s =
      json_keeps E.json (RequestMove s.mock) (status_handler E.json E.convert) req s.mock same_mock
        same_mock
  dispatch-RequestMove sampling_stop req s =
      json_keeps E.json (RequestMove s.mock) (stop_handler E.json) req s.mock same_mock
        (stop_handler-RequestMove E.json req s.mock)
  dispatch-RequestMove picture req s = same_mock
  dispatch-RequestMove post_picture req s = same_mock
  dispatch-RequestMove list_pictures req s = same_mock
  dispatch-RequestMove files req s = same_mock

All-round_of :
    (P : ℕ × Block → Type 0) (n snap : ℕ) (m : List (ℕ × Block))
    → ((j : ℕ) (b : Block) → P (j, b) → P (j, round snap b))
    → All P m
    → All P (round_of n snap m)
All-round_of P n snap [] go hs = tt
All-round_of P n snap ((j, b) ∷ m) go (k, hs) = elim (Bool-cases (j == n)) [
  | inl same ↦ rw same (go j b k, All-round_of P n snap m go hs)
  | inr other ↦ rw other (k, All-round_of P n snap m go hs)
]

pub round-OnTime : (snap : ℕ) (b : Block) → OnTime b → OnTime (round snap b)
round-OnTime snap b h = elim (Bool-cases b.running) [
  | inr stopped ↦ rw stopped (record { counted = h.counted; first = h.first })
  | inl on ↦ elim (Bool-cases (is_done b)) [
    | inl done ↦ rw (on, done) (record { counted = h.counted; first = h.first })
    | inr going ↦
        let t = tick-OnTime snap b h (rw (← is_done-goal b h) going) in
        rw (on, going) (record { counted = t.counted; first = t.first })
  ]
]

-- The samplings after some number of requests, as long as their numbers do not run out: the numbers
-- in use are below the next one.
pub record MockInv (turn : ℕ) (m : Mock) : Type 0 where
  pub few : turn + 1 < 2 ^ 64 → m.sampling_id ≤ turn + 1
  pub below : turn + 1 < 2 ^ 64 → All (λ entry. entry.0 < m.sampling_id) m.samplings
  pub on_time : All (λ entry. OnTime entry.1) m.samplings

pub RequestMove-MockInv :
    {m m' : Mock} (turn : ℕ) → RequestMove m m' → MockInv turn m → MockInv (turn + 1) m'
unfolding start stop new_block
RequestMove-MockInv turn same_mock h = record {
  few = λ room. omega (arith, h.few (omega arith));
  below = λ room. h.below (omega arith);
  on_time = h.on_time;
}
RequestMove-MockInv {m} turn (one_started timeout needed) h = record {
  few = λ room. omega (arith, h.few (omega arith));
  below = λ room.
      let next : (m.sampling_id + 1) % 2 ^ 64 ≡ m.sampling_id + 1 =
        omega (arith, h.few (omega arith)) in
      rw next (emplace_new m.sampling_id _ m.samplings (h.below (omega arith))).1;
  on_time =
      All-emplace (λ entry. OnTime entry.1) m.sampling_id _ m.samplings
        (new_block-OnTime m.sampling_id timeout needed) h.on_time;
}
RequestMove-MockInv {m} turn (one_stopped n) h = record {
  few = λ room. omega (arith, h.few (omega arith));
  below = λ room. All-erase _ n m.samplings (h.below (omega arith));
  on_time = All-erase _ n m.samplings h.on_time;
}

pub sampled-MockInv :
    (turn n snap next : ℕ) (m : Mock)
    → MockInv turn m
    → MockInv turn (record m { samplings = round_of n snap m.samplings; snap_id = next })
sampled-MockInv turn n snap next m h = record {
  few = h.few;
  below = λ room.
      All-round_of (λ entry. entry.0 < m.sampling_id) n snap m.samplings (λ j b k. k)
        (h.below room);
  on_time = All-round_of _ n snap m.samplings (λ j b k. round-OnTime snap b k) h.on_time;
}

pub new-MockInv : MockInv 0 new_mock
new-MockInv = record { few = λ room. omega arith; below = λ room. tt; on_time = tt }
