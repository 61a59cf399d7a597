-- ===== src/Session/Runs.antt =====
-- The event loop's view of a session (src/HttpSession.cpp): a pending operation completes, its
-- handler runs. `blocked` means that no such operation is pending, `crashed` that a handler's
-- exception leaves `onRead` for the event loop.
use beast_examples.Common.{ℕ, zero, suc, Bool, true, List, [], ◌∷◌, Text, Result, ok, throw, Exn}
use beast_examples.Http.{Request, Response, ErrorCode, operation_aborted}
use beast_examples.Session.{Session, Handler, run, on_timer, on_read, on_write}

pub data Event {ℓ} (S : Type ℓ) : Type ℓ where
  -- the posted `run`
  ran : Event S
  read_done : ErrorCode → Request → Event S
  write_done timer_done : ErrorCode → Event S
  -- another session's handler changes the server's state
  elsewhere : S → Event S

-- An event of the session itself.
abbrev pub IsOwn {ℓ} : {S : Type ℓ} → Event S → Type 0
IsOwn (elsewhere s) = ⊥
IsOwn _ = Unit {0}

pub record World {ℓ} (S : Type ℓ) : Type ℓ where
  pub session : Session
  pub server : S

pub data Fate {ℓ} (S : Type ℓ) : Type ℓ where
  blocked : Fate S
  crashed : Exn → Fate S
  next : World S → Fate S

abbrev pub fate {ℓ} : {S : Type ℓ} → S × Result Session → Fate S
fate (server, ok s) = next (record { session = s; server = server })
fate (server, throw e) = crashed e

-- One pending operation is taken away, and the rest goes on.
abbrev pub spend {ℓ} : {S : Type ℓ} → ℕ → (ℕ → Fate S) → Fate S
spend zero k = blocked
spend (suc n) k = k n

abbrev pub spend_write {ℓ} :
    {S : Type ℓ} → List Response → (Response → List Response → Fate S) → Fate S
spend_write [] k = blocked
spend_write (m ∷ ms) k = k m ms

abbrev pub after_step {ℓ} : {S : Type ℓ} → Fate S → (World S → Fate S) → Fate S
after_step (next w) k = k w
after_step blocked k = blocked
after_step (crashed e) k = crashed e

module _ {ℓ} {S : Type ℓ} (need_eof : Response → Bool) (is_upgrade : Request → Bool)
    (resolve : Text → Handler S) where
  abbrev pub settle : World S → Session → Fate S
  settle w s = next (record w { session = s })

  unfoldable pub step : ℕ → Event S → World S → Fate S
  step now ran w =
      spend w.session.posts λ n. settle w (run true now (record (w.session) { posts = n }))
  step now (read_done e req) w =
      spend w.session.reads
        λ n. fate (on_read is_upgrade resolve e req now (record (w.session) { reads = n }) w.server)
  step now (write_done e) w =
      spend_write w.session.writes
        λ m ms. settle w (on_write e (need_eof m) now (record (w.session) { writes = ms }))
  step now (timer_done operation_aborted) w =
      spend w.session.cancelled
        λ n. settle w (on_timer operation_aborted now (record (w.session) { cancelled = n }))
  step now (timer_done e) w =
      spend w.session.waiting λ n. settle w (on_timer e now (record (w.session) { waiting = n }))
  step now (elsewhere server) w = next (record w { server = server })

  unfoldable pub run_events : List (ℕ × Event S) → World S → Fate S
  run_events [] w = next w
  run_events ((now, e) ∷ es) w = after_step (step now e w) (λ w'. run_events es w')
