-- ===== src/Server/StartTests.antt =====
-- `main` on a machine of two cores, with a document root and a port.
use beast_examples.Common.{
  ok, [], ℕ, ◌^◌, ◌≡◌, Bool, true, false, if◌then◌else◌, nat_eqb, List, [], ◌∷◌, Text, codes, arith,
}
use beast_examples.Http.{success}
use beast_examples.Listener.{AcceptorLib, is_error, new_listener, last_error, run}
use beast_examples.Server.{routes}
use beast_examples.Server.Start.{read_arguments, exited, serving, main}
use beast_examples.Server.Starting.{main-cases}

abbrev acceptors : AcceptorLib
acceptors = record {
  Acceptor = Bool;
  Endpoint = ℕ;
  Socket = ℕ;
  closed = false;
  open_for = λ endpoint a. (true, success);
  bind = λ endpoint a. (a, success);
  set_option = λ a. (a, success);
  listen = λ a. (a, success);
  is_open = λ a. a;
  remote_endpoint = λ socket. ok [];
}

abbrev words : List Text
words = codes "server" ∷ codes "/srv/www" ∷ codes "9090" ∷ []

abbrev unread : Text → ℕ → ℕ
unread t default = default

main-cases_example :
    let arguments = read_arguments unread words in
    let server = new_listener acceptors arguments.listen_port in
    main acceptors unread (λ port. port) (2 ^ 60) 2 words ≡ (
      if is_error (last_error acceptors server)
      then exited 1
      else if nat_eqb 2 0
      then exited 0
      else serving (run acceptors server) routes arguments.document_root 2)
main-cases_example =
    main-cases acceptors (2 ^ 60) (omega arith) unread (λ port. port) 2 words (omega arith)
