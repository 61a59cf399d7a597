-- ===== src/Session/Replies.antt =====
-- The requests that a session reads, beside its responses (src/HttpSession.cpp).
use beast_examples.Common.{
  ℕ, ◌≡◌, Bool, Bool-cases, inl, inr, if◌then◌else◌, List, [], ◌∷◌, ◌++◌, Text, ok, >>=-eq-ok,
  Forall₂,
}
use beast_examples.Http.{Request, Response, ErrorCode, success}
use beast_examples.Session.{Session, Handler, on_read}
use beast_examples.Session.Moves.{
  Moved, by_run, by_read, by_write, by_cancelled, by_timer, by_other, step-Moved,
  after_step-eq-next,
}
use beast_examples.Session.Order.{accepted, answers, all_answers, accepted-run_events}
use beast_examples.Session.Runs.{Event, read_done, World, next, step, run_events}

-- The request that an event hands to a handler.
abbrev pub asked_by {ℓ} : {S : Type ℓ} → (Request → Bool) → Event S → List Request
asked_by is_upgrade (read_done success req) = if is_upgrade req then [] else req ∷ []
asked_by is_upgrade _ = []

-- The requests that were read over the events, without the upgrades.
abbrev pub asked {ℓ} : {S : Type ℓ} → (Request → Bool) → List (ℕ × Event S) → List Request
asked is_upgrade [] = []
asked is_upgrade ((now, e) ∷ es) = asked_by is_upgrade e ++ asked is_upgrade es

module _ {ℓ κ} {S : Type ℓ} (R : Request → Response → Type κ) (need_eof : Response → Bool)
    (is_upgrade : Request → Bool) (resolve : Text → Handler S)
    (fits : (req : Request) (s : S) (res : Response)
      → (resolve req.target req s).1 ≡ ok res
      → R req res) where
  on_read-Forall₂ :
      (c : ErrorCode) (req : Request) (now : ℕ) (t t' : Session) (s : S) (rs : List Request)
      (ms : List Response)
      → (on_read is_upgrade resolve c req now t s).1 ≡ ok t'
      → Forall₂ R rs ms
      → Forall₂ R
          (asked_by {S = S} is_upgrade (read_done c req) ++ rs)
          (answers need_eof is_upgrade resolve (read_done c req) s ++ ms)
  unfolding on_read
  on_read-Forall₂ success req now t t' s rs ms h ps = elim (Bool-cases (is_upgrade req)) [
    | inl up ↦ rw up ps
    | inr plain ↦
        let (m, e, _) = >>=-eq-ok (resolve req.target req s).1 _ (rw plain at h) in
        rw (plain, e) (Forall₂.cons (fits req s m e) ps)
  ]
  on_read-Forall₂ _ req now t t' s rs ms h ps = ps

  Moved-Forall₂ :
      (now : ℕ) (server : S) (rs : List Request) (ms : List Response) {t t' : Session} {e : Event S}
      → Moved need_eof is_upgrade resolve now server t t' e
      → Forall₂ R rs ms
      → Forall₂ R (asked_by is_upgrade e ++ rs) (answers need_eof is_upgrade resolve e server ++ ms)
  Moved-Forall₂ now server rs ms {t} {t'} (by_read c req n k e) ps =
      on_read-Forall₂ c req now (record t { reads = n }) t' server rs ms e ps
  Moved-Forall₂ now server rs ms (by_run n k e) ps = ps
  Moved-Forall₂ now server rs ms (by_write c m ws k e) ps = ps
  Moved-Forall₂ now server rs ms (by_cancelled n k e) ps = ps
  Moved-Forall₂ now server rs ms (by_timer c n k e) ps = ps
  Moved-Forall₂ now server rs ms (by_other changed e) ps = ps

  all_answers-Forall₂ :
      (es : List (ℕ × Event S)) (w w' : World S)
      → run_events need_eof is_upgrade resolve es w ≡ next w'
      → Forall₂ R (asked is_upgrade es) (all_answers need_eof is_upgrade resolve es w)
  unfolding run_events all_answers
  all_answers-Forall₂ [] w w' h = Forall₂.nil
  all_answers-Forall₂ ((now, e) ∷ es) w w' h =
      let (v, here, rest) =
        after_step-eq-next (step need_eof is_upgrade resolve now e w)
          (run_events need_eof is_upgrade resolve es) w' h in
      rw here (
        Moved-Forall₂ now w.server _ _ (step-Moved need_eof is_upgrade resolve now e w v here)
          (all_answers-Forall₂ es v w' rest))

  -- What the handlers answer fits the requests.
  pub run_events-Forall₂ :
      (es : List (ℕ × Event S)) (w w' : World S)
      → run_events need_eof is_upgrade resolve es w ≡ next w'
      → (ms : List Response) × (accepted w'.session ≡ accepted w.session ++ ms)
        × Forall₂ R (asked is_upgrade es) ms
  run_events-Forall₂ es w w' h = (
    all_answers need_eof is_upgrade resolve es w,
    accepted-run_events need_eof is_upgrade resolve es w w' h,
    all_answers-Forall₂ es w w' h,
  )
