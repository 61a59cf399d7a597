-- ===== src/Http.antt =====
-- The HTTP messages of Boost.Beast, as far as the handlers read and fill them
-- (`boost::beast::http::request<string_body>`, `response<…>`, `verb`, `status`, `error_code`).
use beast_examples.Common.{ℕ, Bool, true, false, Text}

pub data Verb : Type 0 where
  get head post : Verb
  -- any other method, by its name
  other_verb : Text → Verb

pub record Request : Type 0 where
  pub method : Verb
  pub target : Text
  pub version : ℕ
  pub keep_alive : Bool
  pub body : Text

pub data Status : Type 0 where
  status_ok bad_request not_found internal_server_error : Status

-- `string_body`, `empty_body`, and `file_body` with the path of the file
pub data Body : Type 0 where
  text : Text → Body
  empty : Body
  file : Text → Body

pub record Response : Type 0 where
  pub status : Status
  pub version : ℕ
  pub server : Text
  pub content_type : Text
  pub keep_alive : Bool
  pub content_length : ℕ
  pub body : Body

pub data ErrorCode : Type 0 where
  success operation_aborted end_of_stream ws_closed no_such_file : ErrorCode
  -- any other error, by its message
  failure : Text → ErrorCode

-- `req.method() != verb::get` and the like
abbrev pub is_get : Verb → Bool
is_get get = true
is_get _ = false

abbrev pub is_head : Verb → Bool
is_head head = true
is_head _ = false

abbrev pub is_post : Verb → Bool
is_post post = true
is_post _ = false
