-- ===== src/Session/Progress.antt =====
-- An open session never stalls, and an idle one is closed.
use beast_examples.Common.{
  ℕ, ◌+◌, ◌≡◌, refl, Bool, false, List, [], ◌∷◌, Text, arith, subst, ok-injective, Bool-cases, ltb,
  if◌then◌else◌, inl, inr, >>=-eq-ok, Result, ok, throw, Exn, ◌↔◌, ◌>>=◌,
}
use beast_examples.Http.{Request, Response, ErrorCode, success, operation_aborted}
use beast_examples.Session.{Session, Handler, timeout, do_read, on_timer, on_read, respond}
use beast_examples.Session.Invariant.{Inv, WritesFront, step-Inv}
use beast_examples.Session.Moves.{
  Moved, by_run, by_read, by_write, by_cancelled, by_timer, by_other, step-Moved, next_session,
  after_step-eq-next,
}
use beast_examples.Session.Runs.{Event, World, next, step, run_events}
use beast_examples.Session.Live.{
  Live, IsCalm, AllCalm, respond-Live, on_timer-Live, run-Live, on_write-Live,
}

-- The front worker of a session that is writing.
front :
    (m : Response) (ms : List Response) (s : Session)
    → s.writes ≡ m ∷ ms
    → (ws : List Response) → s.workers ≡ ws
    → Inv s
    → (rest : List Response) × (s.workers ≡ m ∷ rest) × (ms ≡ [])
front m ms s k [] e v = absurd (no_worker s.writes k (rw e at v.one_write))
  where
    no_worker : (writes : List Response) → writes ≡ m ∷ ms → WritesFront writes [] → ⊥
    no_worker [] k' f = cc
    no_worker (x ∷ xs) k' f = f
front m ms s k (w ∷ ws) e v = let (p, q) = go s.writes k (rw e at v.one_write) in (ws, p, q)
  where
    go :
        (writes : List Response)
        → writes ≡ m ∷ ms
        → WritesFront writes (w ∷ ws)
        → (s.workers ≡ m ∷ ws) × (ms ≡ [])
    go [] k' f = cc
    go (x ∷ xs) k' f = ground arith

module _ {ℓ} {S : Type ℓ} (need_eof : Response → Bool) (is_upgrade : Request → Bool)
    (resolve : Text → Handler S) where
  on_read-Live :
      (req : Request) (now : ℕ) (s s' : Session) (server : S)
      → Inv (record s { reads = s.reads + 1 })
      → Live (record s { reads = s.reads + 1 })
      → (on_read is_upgrade resolve success req now s server).1 ≡ ok s'
      → Live s'
  unfolding on_read
  on_read-Live req now s s' server v h e = elim (Bool-cases (is_upgrade req)) [
    | inl up ↦ subst Live (ok-injective (rw up at e)) (inl refl)
    | inr plain ↦
        let (m, _, e') = >>=-eq-ok (resolve req.target req server).1 _ (rw plain at e) in
        subst Live (ok-injective e') (respond-Live now m s v h)
  ]

  Moved-Live :
      (now : ℕ) (server : S) {s s' : Session} {e : Event S}
      → Moved need_eof is_upgrade resolve now server s s' e
      → IsCalm e
      → Inv s
      → Live s
      → Live s'
  Moved-Live now server {s} (by_run n k e) c v h =
      subst Live e (run-Live now (record s { posts = n }) (ground arith) (ground arith))
  Moved-Live now server {s} {s'} (by_read x req n k e) c v h =
      on_read-Live req now (record s { reads = n }) s' server (ground arith) (ground arith)
        (rw c at e)
  Moved-Live now server {s} (by_write x m ms k e) c v h =
      let (ws, p, q) = front m ms s k s.workers refl v in
      subst Live (rw c at e) (
        on_write-Live (need_eof m) now (record s { writes = ms }) m ws p q (ground arith)
          (ground arith))
  Moved-Live now server {s} (by_cancelled n k e) c v h =
      subst Live e
        (on_timer-Live operation_aborted now (record s { cancelled = n }) (inr refl) (ground arith))
  Moved-Live now server {s} (by_timer x n k e) c v h =
      subst Live e (on_timer-Live x now (record s { waiting = n }) c (ground arith))
  Moved-Live now server (by_other changed e) c v h = subst Live e h

  -- A run of events in which no read or write fails keeps this of a session that has the invariant:
  -- while its socket is open it is not stuck, that is, the front response is being written, a
  -- request is being read unless the queue holds 16 responses, and exactly one timer wait is
  -- pending.
  pub run_events-Live :
      (es : List (ℕ × Event S)) (w w' : World S)
      → AllCalm es
      → Inv w.session
      → Live w.session
      → run_events need_eof is_upgrade resolve es w ≡ next w'
      → Live w'.session
  unfolding run_events
  run_events-Live [] w w' c v h k = subst Live (next_session k) h
  run_events-Live ((now, e) ∷ es) w w' (c, cs) v h k =
      let (u, here, rest) =
        after_step-eq-next (step need_eof is_upgrade resolve now e w)
          (run_events need_eof is_upgrade resolve es) w' k in
      run_events-Live es u w' cs (step-Inv need_eof is_upgrade resolve now e w u v here)
        (Moved-Live now w.server (step-Moved need_eof is_upgrade resolve now e w u here) c v h) rest

-- An idle session is closed 15 seconds after its last read was issued, and no earlier: a wait that
-- ends before the deadline is renewed and changes nothing else, one that ends at or after it closes
-- the socket and is not renewed.
on_timer-do_read :
    (issued now : ℕ) (s : Session)
    → let t = do_read issued s in
      on_timer success now t ≡ (
        if ltb now (issued + timeout)
        then record t { waiting = t.waiting + 1 }
        else record t { is_open = false })
unfolding on_timer do_read
on_timer-do_read issued now s = ground arith

module _ {ℓ} {S : Type ℓ} (is_upgrade : Request → Bool) (resolve : Text → Handler S) where
  respond_only :
      (now : ℕ) (s : Session) {x : Exn} (r : Result Response)
      → (r >>= λ m. ok (respond now s m)) ≡ throw x
      → r ≡ throw x
  respond_only now s (ok m) h = cc
  respond_only now s (throw y) h = cc

  -- `onRead` lets an exception out into the event loop exactly when a request was read, is no
  -- upgrade, and its handler throws; the exception is the handler's.
  pub on_read-eq-throw_iff :
      (e : ErrorCode) (req : Request) (now : ℕ) (s : Session) (server : S) (x : Exn)
      → ((on_read is_upgrade resolve e req now s server).1 ≡ throw x)
        ↔ ((e ≡ success) × (is_upgrade req ≡ false) × ((resolve req.target req server).1 ≡ throw x))
  unfolding on_read
  on_read-eq-throw_iff success req now s server x = elim (Bool-cases (is_upgrade req)) [
    | inl up ↦ rw (up) (λ h. cc, λ h. cc (h.1))
    | inr plain ↦
        rw plain
          (λ h. (refl, refl, respond_only now s (resolve req.target req server).1 h), λ h. rw (h.2))
  ]
  on_read-eq-throw_iff _ req now s server x = (λ h. cc, λ h. cc (h.0))
