-- ===== src/Server/Tests.antt =====
-- Paths that are resolved in the table of `main`.
use beast_examples.Server.Urls.{picture_pattern, EndsInDigit, resolve-get_track_urls}
use beast_examples.Common.{
  nat_eqb_iff, replicate, false, if◌then◌else◌, get_last?, drop_last, ap, ◌≢◌, get_elem?, ℕ, Option,
  nat_eqb, ◌≡◌, refl, Bool, true, nat_eq, [], ◌++◌, Text, codes, text_eqb, none, some, arith,
}
use beast_examples.Preview.Defs.{Pictures, get_track_urls}
use beast_examples.Server.{picture, version_api, files, routes, resolve}

-- Patterns without special characters, between `^` and `$`.
abbrev literal : Text → Text → Bool
literal path pattern = text_eqb (codes "^" ++ (path ++ codes "$")) pattern

-- The version's path reaches its handler in the table, a path of no pattern the last one.
version_route : resolve literal (codes "/api/v1/version") routes ≡ some version_api
unfolding resolve routes
version_route = refl

files_route : resolve literal (codes "/index.html") routes ≡ some files
unfolding resolve routes
files_route = refl

abbrev one_digit : Option ℕ → Bool
one_digit (some c) = nat_eqb c b'/'
one_digit none = false

-- The picture's pattern asks for its end, the others for the text.
abbrev matching : Text → Text → Bool
matching path pattern =
    if text_eqb pattern picture_pattern
    then one_digit (get_last? (drop_last path))
    else literal path pattern

one_digit-some : (c : Option ℕ) → one_digit c ≡ true → c ≡ some b'/'
one_digit-some (some c) h = ap some ((nat_eqb_iff c b'/').0 h)
one_digit-some none h = cc

matching-EndsInDigit : EndsInDigit matching
matching-EndsInDigit path h = one_digit-some (get_last? (drop_last path)) h

abbrev eleven : Pictures
eleven = record {
  uuid = codes "a-1";
  timestamp = 7;
  snaps = [];
  tracks = replicate 11 (record { bytes = codes "t" });
}

resolve-get_track_urls_example :
    (url : Text) × (get_elem? (get_track_urls eleven) 10 ≡ some url)
    × (resolve matching url routes ≢ some picture)
resolve-get_track_urls_example =
    resolve-get_track_urls matching matching-EndsInDigit eleven 10 (omega arith) (omega arith)
