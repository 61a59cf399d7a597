-- ===== src/Session/Moves.antt =====
-- What one event does to a session (src/HttpSession.cpp), read back from `step`: the case split that
-- the proofs about runs share.
use beast_examples.Common.{
  ℕ, zero, suc, ◌≡◌, refl, Bool, true, List, [], ◌∷◌, Text, Result, ok, throw,
}
use beast_examples.Http.{Request, Response, ErrorCode, operation_aborted}
use beast_examples.Session.{Session, Handler, run, on_timer, on_read, on_write}
use beast_examples.Session.Runs.{
  Event, ran, read_done, write_done, timer_done, elsewhere, World, Fate, next, spend, spend_write,
  fate, step, after_step, blocked, crashed,
}

module _ {ℓ} {S : Type ℓ} where
  pub next_session : {w w' : World S} → next w ≡ next w' → w.session ≡ w'.session
  next_session h = cc

  spend-eq-next :
      (n : ℕ) (k : ℕ → Fate S) (w : World S)
      → spend n k ≡ next w
      → (m : ℕ) × (n ≡ suc m) × (k m ≡ next w)
  spend-eq-next zero k w h = cc
  spend-eq-next (suc n) k w h = (n, refl, h)

  spend_write-eq-next :
      (ws : List Response) (k : Response → List Response → Fate S) (w : World S)
      → spend_write ws k ≡ next w
      → (m : Response) × (ms : List Response) × (ws ≡ m ∷ ms) × (k m ms ≡ next w)
  spend_write-eq-next [] k w h = cc
  spend_write-eq-next (m ∷ ms) k w h = (m, ms, refl, h)

  fate-eq-next : (r : S × Result Session) (w : World S) → fate r ≡ next w → r.1 ≡ ok w.session
  fate-eq-next (x, ok s) w h = cc
  fate-eq-next (x, throw e) w h = cc

  pub after_step-eq-next :
      (f : Fate S) (k : World S → Fate S) (w : World S)
      → after_step f k ≡ next w
      → (v : World S) × (f ≡ next v) × (k v ≡ next w)
  after_step-eq-next blocked k w h = cc
  after_step-eq-next (crashed e) k w h = cc
  after_step-eq-next (next v) k w h = (v, refl, h)

module _ {ℓ} {S : Type ℓ} (need_eof : Response → Bool) (is_upgrade : Request → Bool)
    (resolve : Text → Handler S) where
  pub data Moved (now : ℕ) (server : S) (s s' : Session) : Event S → Type ℓ where
    by_run :
        (n : ℕ)
        → s.posts ≡ suc n
        → run true now (record s { posts = n }) ≡ s'
        → Moved now server s s' ran
    by_read :
        (e : ErrorCode) (req : Request) (n : ℕ)
        → s.reads ≡ suc n
        → (on_read is_upgrade resolve e req now (record s { reads = n }) server).1 ≡ ok s'
        → Moved now server s s' (read_done e req)
    by_write :
        (e : ErrorCode) (m : Response) (ms : List Response)
        → s.writes ≡ m ∷ ms
        → on_write e (need_eof m) now (record s { writes = ms }) ≡ s'
        → Moved now server s s' (write_done e)
    by_cancelled :
        (n : ℕ)
        → s.cancelled ≡ suc n
        → on_timer operation_aborted now (record s { cancelled = n }) ≡ s'
        → Moved now server s s' (timer_done operation_aborted)
    by_timer :
        (e : ErrorCode) (n : ℕ)
        → s.waiting ≡ suc n
        → on_timer e now (record s { waiting = n }) ≡ s'
        → Moved now server s s' (timer_done e)
    by_other : (changed : S) → s ≡ s' → Moved now server s s' (elsewhere changed)

  pub step-Moved :
      (now : ℕ) (e : Event S) (w w' : World S)
      → step need_eof is_upgrade resolve now e w ≡ next w'
      → Moved now w.server w.session w'.session e
  unfolding step
  step-Moved now ran w w' h =
      let (n, e, h') = spend-eq-next _ _ w' h in by_run n e (next_session h')
  step-Moved now (read_done c req) w w' h =
      let (n, e, h') = spend-eq-next _ _ w' h in by_read c req n e (fate-eq-next _ w' h')
  step-Moved now (write_done c) w w' h =
      let (m, ms, e, h') = spend_write-eq-next _ _ w' h in by_write c m ms e (next_session h')
  step-Moved now (timer_done operation_aborted) w w' h =
      let (n, e, h') = spend-eq-next _ _ w' h in by_cancelled n e (next_session h')
  step-Moved now (timer_done c) w w' h =
      let (n, e, h') = spend-eq-next _ _ w' h in by_timer c n e (next_session h')
  step-Moved now (elsewhere x) w w' h = by_other x (next_session h)
