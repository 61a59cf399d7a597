-- ===== src/App/Sample.antt =====
-- A server that is sent pictures of a face and of four cameras in one session.
use beast_examples.Common.{
  subst, ℕ, ◌≡◌, refl, Bool, true, false, ◌&&◌, if◌then◌else◌, List, [], ◌∷◌, ◌++◌, map, replicate,
  Text, codes, text_eqb, nat_eqb, none, some, ok, All,
}
use beast_examples.Json.{JsonLib}
use beast_examples.Json.Sample.{sample, str}
use beast_examples.JsonApi
use beast_examples.Http.{Request, Response, status_ok, text, get, post, success, no_such_file}
use beast_examples.Utils.{server_signature, create_json_ok}
use beast_examples.Picture.{PostPicture, Wrapper, face, body, to_json, from_json, encoded_data}
use beast_examples.Cache.{add_picture, cleanup, new_cache}
use beast_examples.Sampling.{new_mock}
use beast_examples.Preview.Defs.{create_preview, new_previews, Pictures}
use beast_examples.Preview.Reading.{split_slash, read_decimal, read_from, name}
use beast_examples.Server.{resolve, routes, post_handler}
use beast_examples.Server.Urls.{picture_pattern}
use beast_examples.Session.{Session, at, run, new_session, on_read}
use beast_examples.Session.Runs.{Event, IsOwn, ran, read_done, World, Fate, next, step, run_events}
use beast_examples.Session.Moves.{after_step-eq-next}
use beast_examples.App.{Outside, App, new_app, handler}
use beast_examples.App.Sessions.{Site, accepted, Runs, Reach, here, more, connect, event}
use beast_examples.App.Lasting.{Stays}
use beast_examples.JsonApi.{recover}
use beast_examples.App.Fetching.{Routed}

abbrev bare : JsonLib
bare = sample (λ j. ok (codes "{}")) (λ t. ok (str t))

-- A body names the camera of its picture, or is `f` for a face.
abbrev posted : Text → PostPicture
posted t = record {
  camera_id = if text_eqb t (codes "f") then 0 else read_decimal t 0;
  object_id = 7;
  object_type = if text_eqb t (codes "f") then face else body;
  timestamp = 100;
  width = 1;
  height = 3;
  size = 3;
  pixels = some (codes "abc");
}

abbrev pub plain : JsonLib
plain = sample (λ j. ok (codes "{}")) (λ t. ok (to_json bare (λ u. u) (λ u. ok u) (posted t)))

abbrev picture_path : Text
picture_path = codes "/api/v1/realtime/preview/picture/"

abbrev post_path : Text
post_path = codes "/api/v1/realtime/preview/pictures"

unfoldable pub starts_with : Text → Text → Bool
starts_with [] t = true
starts_with (c ∷ p) [] = false
starts_with (c ∷ p) (d ∷ t) = let rest = starts_with p t in nat_eqb c d && rest

abbrev list_pattern : Text
list_pattern = codes "^/api/v1/realtime/preview(\\?prev=.+)?$"

-- The patterns of pictures and of the list match behind their first parts, other patterns their own
-- text.
abbrev pub matching : Text → Text → Bool
matching path pattern =
    if text_eqb pattern picture_pattern
    then starts_with picture_path path
    else if text_eqb pattern list_pattern
    then starts_with (codes "/api/v1/realtime/preview?prev=") path
    else text_eqb (codes "^" ++ (path ++ codes "$")) pattern

abbrev pub outside : Outside
outside = record {
  json = plain;
  encode = λ t. t;
  decode = λ t. ok t;
  split = split_slash;
  convert = read_decimal;
  matches = matching;
  iequals = text_eqb;
  message = λ e. codes "error";
  stat = λ path. none;
  is_dir_mode = λ mode. false;
  open_file = λ path. (no_such_file, 0);
  depth = 1;
  clock = λ turn. 100;
  random = λ turn. some (name turn);
  generate = λ t. some t;
  early = λ turn. false;
}

pub matching-Routed : (uuid : Text) → Routed matching uuid
unfolding starts_with
matching-Routed uuid i digit = ((refl, refl, refl, refl, refl), (refl, refl, refl, refl, refl))

-- The only session of a server.
abbrev pub site : World App → Site
site w = record { app = w.server; sessions = w.session ∷ [] }

abbrev pub never {ℓ} : {A : Type ℓ} → A → Bool
never a = false

abbrev runs : List (ℕ × Event App) → World App → Fate App
runs = run_events never never (handler outside (codes "/srv"))

next-injective : {w v : World App} → next w ≡ next v → w ≡ v
next-injective h = cc

run_events-Runs :
    (s : Site) (es : List (ℕ × Event App)) (w v : World App)
    → All (λ e. IsOwn e.1) es
    → Runs outside (codes "/srv") never never s (site w)
    → runs es w ≡ next v
    → Runs outside (codes "/srv") never never s (site v)
unfolding run_events
run_events-Runs s [] w v own r h =
    subst (λ u. Runs outside (codes "/srv") never never s (site u)) (next-injective h) r
run_events-Runs s ((now, e) ∷ es) w v (mine, own) r h =
    let (u, k, h') =
      after_step-eq-next (step never never (handler outside (codes "/srv")) now e w) _ v h in
    run_events-Runs s es u v own (more r (event now e w.server [] [] w.session u mine k)) h'

-- A request to post the picture that `t` names.
abbrev posting : Text → ℕ × Event App
posting t = (
  1,
  read_done success
      (record { method = post; target = post_path; version = 11; keep_alive = true; body = t }),
)

abbrev pub shown : Request
shown = record { method = get; target = codes "/"; version = 11; keep_alive = true; body = [] }

-- A face, one picture of each camera, and five more of the first camera.
abbrev pub posts : List (ℕ × Event App)
posts =
    (0, ran)
    ∷ map posting (
        codes "f"
        ∷ codes "0"
        ∷ codes "1"
        ∷ codes "2"
        ∷ codes "3"
        ∷ codes "0"
        ∷ codes "0"
        ∷ codes "0"
        ∷ codes "0"
        ∷ codes "0"
        ∷ [])

-- Two more faces.
abbrev others : List (ℕ × Event App)
others = posting (codes "f") ∷ posting (codes "f") ∷ []

abbrev pub opened : World App
opened = record { session = accepted 0; server = new_app }

-- The answer to every post.
abbrev done : Response
done = record {
  status = status_ok;
  version = 11;
  server = server_signature;
  content_type = codes "application/json";
  keep_alive = true;
  content_length = 2;
  body = text (codes "{}");
}

-- The preview that is made of the pictures.
abbrev pub first_preview : Pictures
first_preview = record {
  uuid = name 9;
  timestamp = 100;
  snaps = replicate 5 (record { bytes = codes "abc" });
  tracks = replicate 6 (record { bytes = codes "abc" });
}

abbrev answered : ℕ → Session
answered n = record {
  workers = replicate n done;
  expiry = at 16;
  is_open = true;
  posts = 0;
  reads = 1;
  writes = done ∷ [];
  waiting = 0;
  cancelled = 1;
  started = done ∷ [];
  upgrades = [];
}

abbrev holding : ℕ → List (ℕ × Wrapper) → App
holding n faces = record {
  mock = new_mock;
  cache = record { bodies = []; faces = faces };
  previews = record {
    cache_limit = 30;
    seq = 1;
    ids = name 9 ∷ [];
    pictures = (name 9, first_preview) ∷ [];
  };
  turn = n;
}

abbrev pub filled : World App
filled = record { session = answered 10; server = holding 10 [] }

abbrev pub visited : World App
visited = record {
  session = answered 12;
  server = holding 12 ((7, record { picture = posted (codes "f"); made_at = 100 }) ∷ []);
}

pub filled_lem : runs posts opened ≡ next filled
unfolding run_events step run new_session on_read handler resolve routes starts_with
    JsonApi.handle_request post_handler from_json to_json add_picture cleanup new_cache
    create_json_ok create_preview new_previews read_decimal read_from encoded_data
filled_lem = refl

visited_lem : runs others filled ≡ next visited
unfolding run_events step run new_session on_read handler resolve routes starts_with
    JsonApi.handle_request post_handler from_json to_json add_picture cleanup new_cache
    create_json_ok create_preview encoded_data
visited_lem = refl

pub first_preview-Stays : Stays (name 9) first_preview 1 filled.server.previews
first_preview-Stays = (refl, refl)

pub filled-Reach : Reach outside (codes "/srv") never never (site filled)
filled-Reach =
    run_events-Runs _ posts opened filled
      (tt, (tt, (tt, (tt, (tt, (tt, (tt, (tt, (tt, (tt, (tt, tt))))))))))) (more here (connect 0 _))
      filled_lem

pub filled-visited : Runs outside (codes "/srv") never never (site filled) (site visited)
filled-visited = run_events-Runs _ others filled visited (tt, (tt, tt)) here visited_lem
