-- ===== src/Static/Tests.antt =====
-- A document root with one directory, and requests to it.
use beast_examples.Common.{
  ℕ, suc, ◌≤◌, ◌≡◌, refl, Bool, true, false, if◌then◌else◌, [], length, Text, codes, some, arith,
  text_eqb, ltb, text_eq, ◌&&◌,
}
use beast_examples.Http.{Request, Response, get, ErrorCode, success, no_such_file}
use beast_examples.Static.{handle_request, file_response, path_concat}
use beast_examples.Static.Paths.{Confined}
use beast_examples.Static.Laws.{
  Answered, is_refused, handle_request-Answered, handle_request-Confined,
}

-- Only `/w/a` is a directory.
abbrev is_dir : Text → Bool
is_dir p = text_eqb p (codes "/w/a") && ltb (length p) 8

long_file : (p : Text) → 8 ≤ length p → is_dir p ≡ false
long_file p h = ground arith

abbrev open_any : Text → ErrorCode × ℕ
open_any p = if text_eqb p (codes "/w/a/index.html") then (success, 12) else (no_such_file, 0)

abbrev name_of : ErrorCode → Text
name_of e = []

abbrev request : Request
request = record { method = get; target = codes "/a"; version = 11; keep_alive = true; body = [] }

abbrev reply : Response
reply = file_response text_eqb request (codes "/w/a/index.html") 12

handle_request-Answered_example :
    (res : Response) × (handle_request text_eqb name_of is_dir open_any
        (suc 8)
        (codes "/w/")
        request
      ≡ some res)
    × Answered text_eqb name_of is_dir open_any
        (codes "/w/")
        request
        (is_refused text_eqb request)
        res
handle_request-Answered_example =
    handle_request-Answered text_eqb name_of is_dir open_any 8 (codes "/w/") request long_file

handle_request-Confined_example :
    Confined (codes "/w/") (codes "/w/a/index.html") × (is_dir (codes "/w/a/index.html") ≡ false)
unfolding handle_request path_concat
handle_request-Confined_example =
    handle_request-Confined text_eqb name_of is_dir open_any 9 (codes "/w/")
      (codes "/w/a/index.html") request reply refl refl
