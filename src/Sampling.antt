-- ===== src/Sampling.antt =====
-- `SamplingMock` of src/main.cpp, and the JSON handlers that call it.
--
-- The thread of a block is `run`, whose rounds are taken one at a time; a block that was just made
-- is about to run. The seconds that elapse are not bounded (an `int` in the source, which `progress`
-- multiplies by 100). Signed numbers of the source are ℤ where they come from outside.
pub mod Rounds
pub mod Starting
pub mod Requests
pub mod Bounded
pub mod Threads
pub mod Stopping
mod Tests
use beast_examples.Common.{
  ℕ, zero, suc, ◌+◌, ◌*◌, ◌/◌, ◌%◌, ◌^◌, Bool, true, false, ◌&&◌, ◌||◌, if◌then◌else◌, ltb, leb,
  nat_eqb, nat_eq, min, max, List, [], ◌∷◌, ◌++◌, map, length, any, is_empty, Text, codes, Option,
  none, some, Result, ok, throw, ◌>>=◌, catch, or_throw, Exn, runtime_error, out_of_range,
  no_resource, json_parse_error, json_out_of_range,
}
use beast_examples.Common.Int.{ℤ, pos, negsuc, is_positive, to_nat}
use beast_examples.Common.Assoc.{lookup, emplace, erase}
use beast_examples.Common.Decimal.{to_string}
use beast_examples.Json.{JsonLib}
use beast_examples.Http.{Request}

-- `SamplingBlock`
pub record Block : Type 0 where
  pub number : ℕ
  pub snaps : List ℕ
  pub running : Bool
  pub timeout : ℤ
  pub snaps_needed : ℤ
  pub elapsed : ℕ

unfoldable pub new_block : ℕ → ℤ → ℤ → Block
new_block n timeout snaps_needed = record {
  number = n;
  snaps = [];
  running = true;
  timeout = timeout;
  snaps_needed = snaps_needed;
  elapsed = 0;
}

abbrev pub percent : ℕ → ℤ → ℕ
percent n goal = if is_positive goal then min (n * 100 / to_nat goal) 100 else 0

unfoldable pub progress : Block → ℕ
progress b = max (percent b.elapsed b.timeout) (percent (length b.snaps) b.snaps_needed)

-- The test of the loop of `run`.
abbrev pub is_done : Block → Bool
is_done b =
    is_positive b.timeout && leb (to_nat b.timeout) b.elapsed
    || is_positive b.snaps_needed && leb (to_nat b.snaps_needed) (length b.snaps)

abbrev pub snaps_kept : ℕ
snaps_kept = 30

-- `while(snaps.size() > 30) snaps.pop_front()`
unfoldable pub pop_old : List ℕ → List ℕ
pop_old [] = []
pop_old (x ∷ xs) =
    let later = pop_old xs in if ltb snaps_kept (length (x ∷ xs)) then later else x ∷ xs

-- One more second, with the number of the new snap.
abbrev pub tick : ℕ → Block → Block
tick snap b = record b { elapsed = b.elapsed + 1; snaps = pop_old (b.snaps ++ snap ∷ []) }

-- `SamplingMock`; of its snaps only the next number is told apart.
pub record Mock : Type 0 where
  pub sampling_id : ℕ
  pub snap_id : ℕ
  pub samplings : List (ℕ × Block)

abbrev pub new_mock : Mock
new_mock = record { sampling_id = 1; snap_id = 1; samplings = [] }

-- `while(running)`, with the next number of a snap before and after: `none` if the fuel runs out.
unfoldable pub loop : ℕ → Block → ℕ → Option (Block × ℕ)
unfolding pop_old
loop zero b snap = none
loop (suc fuel) b snap =
    let rest = loop fuel (tick snap b) ((snap + 1) % 2 ^ 64) in
    if is_done b then some (record b { running = false }, snap) else rest

unfoldable pub run : ℕ → Block → ℕ → Option (Block × ℕ)
unfolding loop
run fuel b snap = loop fuel (record b { running = true; elapsed = 0 }) snap

-- `SamplingMock::isRunning`
unfoldable pub is_running : Mock → Bool
is_running m = any (λ entry. entry.1.running) m.samplings

unfoldable pub start : ℤ → ℤ → Mock → ℕ × Mock
unfolding new_block
start timeout snaps_needed m = (
  m.sampling_id,
  record m {
    samplings = emplace m.sampling_id (new_block m.sampling_id timeout snaps_needed) m.samplings;
    sampling_id = (m.sampling_id + 1) % 2 ^ 64;
  },
)

unfoldable pub stop : ℕ → Mock → Mock
stop n m = record m { samplings = erase n m.samplings }

module _ (J : JsonLib) where
  open J use {
    Json, null, of_text, of_nat, object, array, emplace as add, parse, find, at, get_int, get_nat,
  }

  abbrev pub status_name : Block → Text
  status_name b = if b.running then codes "running" else codes "finished"

  -- `SamplingBlock::getStatus`
  unfoldable pub block_status : Bool → Block → Result Json
  unfolding progress
  block_status detail b = do
    named ←
        add (codes "status") (of_text (status_name b)) (object ((codes "id", of_nat b.number) ∷ []))
    let detailed = add (codes "progress") (of_nat (progress b)) named >>= λ j.
        add (codes "snaps") (array (map of_nat b.snaps)) j
    if detail then detailed else ok named

  unfoldable pub get_status : ℕ → Bool → Mock → Result Json
  unfolding block_status
  get_status n detail m =
      or_throw (lookup n m.samplings) (out_of_range (codes "unordered_map::at"))
      >>= block_status detail

  -- `catch(const parse_error&)`
  abbrev pub parse_failed {ℓ} : {A : Type ℓ} → Exn → Result A
  parse_failed (json_parse_error t) = throw (runtime_error t)
  parse_failed e = throw e

  -- An integer of the request's JSON, or a default.
  abbrev pub int_or : Text → ℤ → Json → Result ℤ
  int_or k default json = elim (find k json) [ none ↦ ok default | some v ↦ get_int v ]

  -- The body of a request to start: the timeout and the number of snaps.
  unfoldable pub start_arguments : Text → Result (ℤ × ℤ)
  start_arguments body =
      if is_empty body
      then ok (pos 60, negsuc 0)
      else catch
          (parse body >>= λ json. int_or (codes "timeout") (pos 60) json >>= λ timeout.
            int_or (codes "snaps") (negsuc 0) json >>= λ snaps. ok (timeout, snaps))
          parse_failed

  -- `catch(const std::out_of_range&)`
  abbrev pub not_there {ℓ} : {A : Type ℓ} → Text → Exn → Result A
  not_there t (out_of_range _) = throw (no_resource t)
  not_there t e = throw e

  abbrev pub started : ℤ × ℤ → Mock → Mock × Result Json
  started (timeout, snaps) m =
      let (n, m') = start timeout snaps m in
      (m', catch (get_status n false m') (not_there (codes "id: " ++ to_string n)))

  -- `samplingStartHandler`, whose test found a running sampling or not; the lock of the samplings is
  -- not held between the test and the start.
  unfoldable pub start_found : Bool → Request → Mock → Mock × Result Json
  unfolding start_arguments start get_status
  start_found busy req m = elim (start_arguments req.body) [
    | throw e ↦ (m, throw e)
    | ok args ↦
        if busy then (m, throw (runtime_error (codes "already running"))) else started args m
  ]

  -- `samplingStartHandler`, with nothing between the test and the start.
  unfoldable pub start_handler : Request → Mock → Mock × Result Json
  unfolding start_found is_running
  start_handler req m = start_found (is_running m) req m

  -- `json.at("id")` of a parsed body, with the `catch` clauses.
  abbrev pub stop_failed {ℓ} : {A : Type ℓ} → Exn → Result A
  stop_failed (json_parse_error t) = throw (runtime_error t)
  stop_failed (json_out_of_range t) = throw (runtime_error t)
  stop_failed (out_of_range t) = throw (no_resource (codes "id may not exist"))
  stop_failed e = throw e

  unfoldable pub stop_handler : Request → Mock → Mock × Result Json
  unfolding stop
  stop_handler req m = elim (parse req.body >>= λ json. at (codes "id") json >>= get_nat 64) [
    | throw e ↦ (m, stop_failed e)
    | ok n ↦ (stop n m, ok null)
  ]

  -- `try_lexical_convert` leaves a number in `sampleId`; `find('/')` finds the first slash.
  abbrev pub after_slash : Text → Option Text
  after_slash [] = none
  after_slash (c ∷ t) = let later = after_slash t in if nat_eqb c b'/' then some t else later

  abbrev pub behind_slash : Text → Text
  behind_slash t = elim (after_slash t) [ none ↦ t | some rest ↦ rest ]

  unfoldable pub status_handler : (Text → ℕ → ℕ) → Request → Mock → Mock × Result Json
  unfolding get_status
  status_handler convert req m =
      let n = convert (behind_slash req.target) 0 in
      (
        m,
        if nat_eqb n 0
            then throw (runtime_error (codes "invalid id format"))
            else catch (get_status n true m) (not_there req.target),
      )
