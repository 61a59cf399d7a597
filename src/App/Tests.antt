-- ===== src/App/Tests.antt =====
-- The whole server, with a small JSON library and with paths that match their own patterns.
use beast_examples.Common.{
  zero, suc, arith, nat_eq, ◌≡◌, json_type_error, Exn, throw, ℕ, refl, Bool, true, false, List, [],
  ◌∷◌, ◌++◌, Text, codes, text_eqb, none, some, ok,
}
use beast_examples.Json.{JsonLib}
use beast_examples.Json.Sample.{sample, str}
use beast_examples.JsonApi
use beast_examples.Utils.{create_json_ok, create_json_server_error}
use beast_examples.Http.{Request, get, success, no_such_file}
use beast_examples.Server.{resolve, routes}
use beast_examples.Sampling.{start_found, is_running}
use beast_examples.Session.{new_session, run, on_read}
use beast_examples.Session.Runs.{
  Event, ran, read_done, World, Fate, crashed, next, step, run_events,
}
use beast_examples.App.{Outside, App, new_app, handler}
use beast_examples.App.Sessions.{
  Runs, Site, accepted, sampled, Reach, here, more, connect, event, take_round,
}
use beast_examples.Preview.Reading.{name, name-Draws}
use beast_examples.App.Answers.{Shallow, run_events-Undumped}
use beast_examples.App.Undumped.{Undumped}
use beast_examples.App.Watching.{is_over}
use beast_examples.App.Finishing.{rounds, Runs-is_over}
use beast_examples.Common.Int.{pos, negsuc}
use beast_examples.Common.Assoc.{lookup}
use beast_examples.Sampling.{Block, new_block}
use beast_examples.App.Reachable.{SiteInv, Reach-SiteInv}

abbrev plain : JsonLib
plain = sample (λ j. ok (codes "{}")) (λ t. ok (str t))

-- Patterns without special characters, between `^` and `$`, match their own text.
abbrev outside : Outside
outside = record {
  json = plain;
  encode = λ t. t;
  decode = λ t. ok t;
  split = λ t. t ∷ [];
  convert = λ t n. n;
  matches = λ path pattern. text_eqb (codes "^" ++ (path ++ codes "$")) pattern;
  iequals = text_eqb;
  message = λ e. codes "error";
  stat = λ path. none;
  is_dir_mode = λ mode. false;
  open_file = λ path. (no_such_file, 0);
  depth = 1;
  clock = λ turn. turn;
  random = λ turn. some (name turn);
  generate = λ t. some t;
  early = λ turn. false;
}

abbrev request : Text → Request
request target = record {
  method = get;
  target = target;
  version = 11;
  keep_alive = true;
  body = [];
}

abbrev never {ℓ} : {A : Type ℓ} → A → Bool
never a = false

abbrev opened : World App
opened = record { session = accepted 0; server = new_app }

-- The same server, where nothing can be dumped.
abbrev bad : Exn
bad = json_type_error (codes "invalid UTF-8")

abbrev dumb : Outside
dumb = record outside { json = sample (λ j. throw bad) (λ t. ok (str t)) }

abbrev shallow : Shallow dumb
shallow = record { limit = 0; deep = refl; shallow = λ path h. refl }

abbrev requests : List (ℕ × Event App)
requests = (0, ran) ∷ (1, read_done success (request (codes "/api/v1/version"))) ∷ []

requests_crash : run_events never never (handler dumb (codes "/srv")) requests opened ≡ crashed bad
unfolding run_events step run on_read new_session handler resolve routes JsonApi.handle_request
    create_json_ok create_json_server_error
requests_crash = refl

run_events-Undumped_example : Undumped dumb.json bad
run_events-Undumped_example =
    run_events-Undumped dumb (codes "/srv") shallow bad never never requests opened requests_crash

-- The world after an event.
abbrev moved : World App → Fate App → World App
moved w (next v) = v
moved w _ = w

abbrev after : ℕ → Event App → World App → World App
after now e w = moved w (step never never (handler outside (codes "/srv")) now e w)

abbrev starting : Event App
starting = read_done success (request (codes "/api/v1/calibration/sampling/start"))

abbrev running : World App
running = after 0 ran opened

abbrev started : World App
started = after 3 starting running

abbrev site : World App → Site
site w = record { app = w.server; sessions = w.session ∷ [] }

-- The site where sampling 1 has just started.
abbrev one_started : Site
one_started = site started

started-Reach : Reach outside (codes "/srv") never never one_started
unfolding step run new_session on_read handler resolve routes JsonApi.handle_request start_found
    is_running create_json_ok
started-Reach =
    more (more (more here (connect 0 _)) (event 0 ran _ [] [] _ running tt refl))
      (event 3 starting _ [] [] _ started tt refl)

-- After some rounds of the thread of sampling 1.
abbrev turned : ℕ → Site → Site
turned zero s = s
turned (suc n) s = let t = turned n s in record t { app = sampled 1 t.app }

abbrev turning : (n : ℕ) (s : Site) → Runs outside (codes "/srv") never never s (turned n s)
turning zero s = here
turning (suc n) s = more (turning n s) (take_round 1 (turned n s))

rounds-turning : (n : ℕ) (s : Site) → rounds outside (codes "/srv") never never 1 (turning n s) ≡ n
rounds-turning zero s = refl
rounds-turning (suc n) s = rw (rounds-turning n s) (omega arith)

turn-turned : (n : ℕ) (s : Site) → (turned n s).app.turn ≡ s.app.turn
turn-turned zero s = refl
turn-turned (suc n) s = turn-turned n s

Reach-SiteInv_example : SiteInv (λ turn. some (name turn)) (turned 1 one_started)
Reach-SiteInv_example =
    Reach-SiteInv outside (codes "/srv") never never name-Draws
      (more started-Reach (take_round 1 one_started))

-- It has a timeout of 60 seconds.
abbrev first_block : Block
first_block = new_block 1 (pos 60) (negsuc 0)

started_lem :
    (lookup 1 one_started.app.mock.samplings ≡ some first_block) × (one_started.app.turn ≡ 1)
unfolding step run new_session on_read handler resolve routes JsonApi.handle_request start_found
    is_running create_json_ok
started_lem = (refl, refl)

Runs-is_over_example : is_over (lookup 1 (turned 61 one_started).app.mock.samplings) ≡ true
unfolding new_block
Runs-is_over_example =
    Runs-is_over outside (codes "/srv") never never 1 60 first_block (turning 61 one_started)
      started-Reach (started_lem.0) refl (rw (rounds-turning 61 one_started) (omega arith))
      (rw (turn-turned 61 one_started, started_lem.1) (omega arith))
