-- ===== src/Static.antt =====
-- src/StaticRequestHandler.cpp: the files below the document root.
--
-- The file system is two parameters: `is_directory` stands for `utils::isDirectory`, and
-- `open_file` for opening a file, with its error code and its size. `iequals` is Boost.Beast's
-- comparison that ignores case, and `message` the text of an error. The separator is that of a system other than Windows.
pub mod Paths
pub mod Laws
mod Tests
use beast_examples.Common.{
  ℕ, zero, suc, Bool, true, false, ◌&&◌, ◌||◌, not, if◌then◌else◌, nat_eqb, List, [], ◌∷◌, ◌++◌,
  length, get_last?, drop_last, is_empty, Text, codes, Option, none, some,
}
use beast_examples.Http.{
  Request, Response, Status, status_ok, bad_request, not_found, internal_server_error, Body, text,
  empty, file, ErrorCode, success, no_such_file, failure, operation_aborted, end_of_stream,
  ws_closed, is_get, is_head,
}
use beast_examples.Utils.{server_signature}

-- `back() == '/'`
abbrev pub ends_in_slash : Text → Bool
ends_in_slash t = elim (get_last? t) [ none ↦ false | some c ↦ nat_eqb c b'/' ]

-- `pathConcat`
unfoldable pub path_concat : Text → Text → Text
path_concat [] path = path
path_concat (c ∷ base) path =
    (if ends_in_slash (c ∷ base) then drop_last (c ∷ base) else c ∷ base) ++ path

-- `find("..") != npos`
abbrev pub starts_with_dot : Text → Bool
starts_with_dot [] = false
starts_with_dot (c ∷ t) = nat_eqb c b'.'

abbrev pub has_dots : Text → Bool
has_dots [] = false
has_dots (c ∷ t) = nat_eqb c b'.' && starts_with_dot t || has_dots t

abbrev pub starts_with_slash : Text → Bool
starts_with_slash [] = false
starts_with_slash (c ∷ t) = nat_eqb c b'/'

-- `substr(rfind("."))`, empty if there is no dot
unfoldable pub extension : Text → Text
extension [] = []
extension (c ∷ t) =
    let rest = extension t in if is_empty rest then if nat_eqb c b'.' then c ∷ t else [] else rest

-- The tests of `getMimeType` in their order.
abbrev pub mime_types : List (Text × Text)
mime_types =
    (codes ".htm", codes "text/html")
    ∷ (codes ".html", codes "text/html")
    ∷ (codes ".css", codes "text/css")
    ∷ (codes ".txt", codes "text/plain")
    ∷ (codes ".js", codes "application/javascript")
    ∷ (codes ".json", codes "application/json")
    ∷ (codes ".xml", codes "application/xml")
    ∷ (codes ".png", codes "image/png")
    ∷ (codes ".jpe", codes "image/jpeg")
    ∷ (codes ".jpeg", codes "image/jpeg")
    ∷ (codes ".jpg", codes "image/jpeg")
    ∷ (codes ".gif", codes "image/gif")
    ∷ (codes ".bmp", codes "image/bmp")
    ∷ (codes ".ico", codes "image/vnd.microsoft.icon")
    ∷ (codes ".tiff", codes "image/tiff")
    ∷ (codes ".tif", codes "image/tiff")
    ∷ (codes ".svg", codes "image/svg+xml")
    ∷ (codes ".svgz", codes "image/svg+xml")
    ∷ []

-- A message in the body, as the three functions `create…` make it.
abbrev pub html_response : Request → Status → Text → Response
html_response req st message = record {
  status = st;
  version = req.version;
  server = server_signature;
  content_type = codes "text/html";
  keep_alive = req.keep_alive;
  content_length = length message;
  body = text message;
}

unfoldable pub create_bad_request : Request → Text → Response
create_bad_request req why = html_response req bad_request why

unfoldable pub create_not_found : Request → Text → Response
create_not_found req target =
    html_response req not_found (codes "The resource '" ++ (target ++ codes "' was not found."))

unfoldable pub create_server_error : Request → Text → Response
create_server_error req what =
    html_response req internal_server_error (codes "An error occurred: '" ++ (what ++ codes "'"))

-- The path before the loop.
abbrev pub first_path : Text → Request → Text
first_path root req =
    let path = path_concat root req.target in
    if ends_in_slash req.target then path ++ codes "index.html" else path

unfoldable pub illegal : Text → Bool
illegal target = is_empty target || not (starts_with_slash target) || has_dots target

-- `while(isDirectory(path)) path.append("/index.html")`, `none` if the fuel runs out
unfoldable pub find_index : (Text → Bool) → ℕ → Text → Option Text
find_index is_directory zero path = none
find_index is_directory (suc fuel) path =
    let rest = find_index is_directory fuel (path ++ codes "/index.html") in
    if is_directory path then rest else some path

module _ (iequals : Text → Text → Bool) where
  abbrev pub mime_of : Text → List (Text × Text) → Text
  mime_of ext [] = codes "application/data"
  mime_of ext ((e, type) ∷ more) =
      let later = mime_of ext more in if iequals ext e then type else later

  unfoldable pub get_mime_type : Text → Text
  get_mime_type path = mime_of (extension path) mime_types

  -- The responses to HEAD and GET for a file of some size.
  abbrev pub file_response : Request → Text → ℕ → Response
  file_response req path size = record {
    status = status_ok;
    version = req.version;
    server = server_signature;
    content_type = get_mime_type path;
    keep_alive = req.keep_alive;
    content_length = size;
    body = if is_head req.method then empty else file path;
  }

  module _ (message : ErrorCode → Text) where
    -- What follows the opening of the file.
    unfoldable pub serve : Request → Text → ErrorCode × ℕ → Response
    unfolding create_not_found create_server_error
    serve req path (success, size) = file_response req path size
    serve req path (no_such_file, size) = create_not_found req req.target
    serve req path (error, size) = create_server_error req (message error)

    module _ (is_directory : Text → Bool) (open_file : Text → ErrorCode × ℕ) where
      unfoldable pub handle_request : ℕ → Text → Request → Option Response
      unfolding find_index serve illegal create_bad_request
      handle_request fuel root req =
          if not (is_get req.method) && not (is_head req.method)
          then some (create_bad_request req (codes "Unsupported method."))
          else if illegal req.target
          then some (create_bad_request req (codes "Illegal request-target"))
          else elim (find_index is_directory fuel (first_path root req)) [
            | none ↦ none
            | some path ↦ some (serve req path (open_file path))
          ]
