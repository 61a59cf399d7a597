-- ===== src/Server/Start.antt =====
-- src/main.cpp: `installPoc` and `main`, from the arguments to the threads that serve.
use beast_examples.Common.{
  ℕ, zero, suc, ◌+◌, ◌-◌, ◌%◌, ◌^◌, if◌then◌else◌, ltb, List, [], ◌∷◌, Text, codes,
}
use beast_examples.Listener.{AcceptorLib, HttpListener, is_error, new_listener, last_error, run}
use beast_examples.Server.{
  Route, version_api, sampling_start, sampling_status, sampling_stop, picture, post_picture,
  list_pictures, files, register,
}

pub record Arguments : Type 0 where
  pub document_root : Text
  pub listen_port : ℕ

abbrev pub default_port : ℕ
default_port = 8088

-- The conversion gets what the variable holds.
unfoldable pub read_arguments : (Text → ℕ → ℕ) → List Text → Arguments
read_arguments convert (program ∷ root ∷ port ∷ more) = record {
  document_root = root;
  listen_port = convert port default_port;
}
read_arguments convert (program ∷ root ∷ []) = record {
  document_root = root;
  listen_port = default_port;
}
read_arguments convert _ = record { document_root = codes "/tmp"; listen_port = default_port }

-- The calls of `registHandler`, in their order.
unfoldable pub install_poc : List (Text × Route) → List (Text × Route)
install_poc handlers =
    let h1 = register (codes "^/api/v1/calibration/sampling/start$") sampling_start handlers in
    let h2 = register (codes "^/api/v1/calibration/sampling/\\d+$") sampling_status h1 in
    let h3 = register (codes "^/api/v1/calibration/sampling/stop$") sampling_stop h2 in
    let h4 =
      register (codes "^/api/v1/realtime/preview/picture/[a-f0-9-]+/(snaps|tracks)/[0-9]$") picture
        h3 in
    let h5 = register (codes "^/api/v1/realtime/preview/pictures$") post_picture h4 in
    register (codes "^/api/v1/realtime/preview(\\?prev=.+)?$") list_pictures h5

unfoldable pub install : List (Text × Route)
unfolding install_poc
install =
    register (codes ".*") files (install_poc (register (codes "^/api/v1/version$") version_api []))

-- `threads - 1`, a `size_t`
abbrev pub one_less : ℕ → ℕ
one_less threads = (threads + (2 ^ 64 - 1)) % 2 ^ 64

-- The loop that makes the runners, each of which runs the event loop.
unfoldable pub runners : ℕ → ℕ
runners zero = zero
runners (suc i) = runners i + 1

module _ (A : AcceptorLib) where
  -- How `main` ends, or with what it serves; `loops` counts the threads that run the event loop.
  pub data Outcome : Type 0 where
    exited : ℕ → Outcome
    serving :
        (listener : HttpListener A) (handlers : List (Text × Route)) (document_root : Text)
        (loops : ℕ)
        → Outcome

  -- The `try` block; `reserve` throws above the size that a vector can have, and then the event loop
  -- is stopped.
  unfoldable pub serve : ℕ → ℕ → Arguments → HttpListener A → Outcome
  unfolding install
  serve max_size threads arguments server =
      if ltb max_size (one_less threads)
      then exited 0
      else serving (run A server) install arguments.document_root (runners (one_less threads) + 1)

  -- `endpoint` makes the address of a port; `threads` is the number of cores, 0 if that is not known.
  unfoldable pub main : (Text → ℕ → ℕ) → (ℕ → A.Endpoint) → ℕ → ℕ → List Text → Outcome
  unfolding read_arguments serve
  main convert endpoint max_size threads argv =
      let arguments = read_arguments convert argv in
      let server = new_listener A (endpoint arguments.listen_port) in
      if is_error (last_error A server) then exited 1 else serve max_size threads arguments server
