-- ===== src/Server/Starting.antt =====
-- What `main` starts (src/main.cpp).
use beast_examples.Common.{
  lt→ltb, ℕ, zero, suc, ◌+◌, ◌-◌, ◌^◌, ◌≤◌, ◌<◌, ◌≡◌, refl, ap, ◌∙◌, false, if◌then◌else◌, ltb,
  nat_eqb, List, Text, arith, Bool-cases, inl, inr,
}
use beast_examples.Listener.{AcceptorLib, HttpListener, is_error, new_listener, last_error, run}
use beast_examples.Server.{routes}
use beast_examples.Server.Start.{
  Arguments, read_arguments, install_poc, install, one_less, runners, exited, serving, serve, main,
}

install-routes : install ≡ routes
unfolding install install_poc routes
install-routes = refl

runners_lem : (n : ℕ) → runners n ≡ n
unfolding runners
runners_lem zero = refl
runners_lem (suc n) = rw (runners_lem n) (omega arith)

one_less-suc : (n max_size : ℕ) → max_size < 2 ^ 64 - 1 → n < max_size → one_less (suc n) ≡ n
one_less-suc n max_size limit fits = omega arith

loops_lem :
    (n max_size : ℕ) → max_size < 2 ^ 64 - 1 → n < max_size → runners (one_less (suc n)) + 1 ≡ suc n
loops_lem n max_size limit fits =
    ap (λ k. k + 1) (runners_lem (one_less (suc n)) ∙ one_less-suc n max_size limit fits)
    ∙ omega arith

not_above :
    (n max_size : ℕ)
    → max_size < 2 ^ 64 - 1
    → n < max_size
    → ltb max_size (one_less (suc n)) ≡ false
not_above n max_size limit fits = rw (one_less-suc n max_size limit fits) (ground arith)

module _ (A : AcceptorLib) (max_size : ℕ) (limit : max_size < 2 ^ 64 - 1) where
  serve-cases :
      (threads : ℕ) (arguments : Arguments) (server : HttpListener A)
      → threads ≤ max_size
      → serve A max_size threads arguments server ≡ (
          if nat_eqb threads 0
          then exited 0
          else serving (run A server) routes arguments.document_root threads)
  unfolding serve
  serve-cases zero arguments server fits = rw (lt→ltb max_size (2 ^ 64 - 1) limit)
  serve-cases (suc n) arguments server fits =
      let some_threads : nat_eqb (suc n) 0 ≡ false = ground arith in
      rw (
        not_above n max_size limit fits,
        loops_lem n max_size limit fits,
        install-routes,
        some_threads,
      )

  -- `main` exits with 1 if the listener cannot be set up; if the number of cores is not known (0),
  -- `threads - 1` wraps round, reserving so many runners throws, and `main` returns 0 without having
  -- served anything. Otherwise the listener runs with the table of routes, and as many threads run
  -- the event loop as there are cores. (A vector can hold fewer than 2 ^ 64 - 1 threads, and holds
  -- as many as there are cores.)
  pub main-cases :
      (convert : Text → ℕ → ℕ) (endpoint : ℕ → A.Endpoint) (threads : ℕ) (argv : List Text)
      → threads ≤ max_size
      → let arguments = read_arguments convert argv in
        let server = new_listener A (endpoint arguments.listen_port) in
        main A convert endpoint max_size threads argv ≡ (
          if is_error (last_error A server)
          then exited 1
          else if nat_eqb threads 0
          then exited 0
          else serving (run A server) routes arguments.document_root threads)
  unfolding main
  main-cases convert endpoint threads argv fits =
      let arguments = read_arguments convert argv in
      let server = new_listener A (endpoint arguments.listen_port) in
      elim (Bool-cases (is_error (last_error A server))) [
        | inl failed ↦ rw failed
        | inr ok ↦ rw (ok, serve-cases threads arguments server fits)
      ]
