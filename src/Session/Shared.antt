-- ===== src/Session/Shared.antt =====
-- What the handlers of the server keep of its state, the events of a session keep (src/HttpSession.cpp).
use beast_examples.Common.{
  ℕ, zero, suc, ◌≡◌, subst, Bool, inl, inr, List, [], ◌∷◌, Text, Result, ok, throw, Bool-cases,
}
use beast_examples.Http.{Request, Response, ErrorCode, success, operation_aborted}
use beast_examples.Session.{Session, Handler, on_read}
use beast_examples.Session.Replies.{asked_by}
use beast_examples.Session.Runs.{
  Event, IsOwn, ran, read_done, write_done, timer_done, elsewhere, World, Fate, next, fate, spend,
  spend_write, step,
}

module _ {ℓ κ} {S : Type ℓ} (P : S → Type κ) where
  -- Where the fate is a next state, `P` holds of the server there.
  abbrev Keeps : Fate S → Type (ℓ ⊔ κ)
  Keeps f = (w : World S) → f ≡ next w → P w.server

  next-Keeps : (t : Session) (s : S) → P s → Keeps (next (record { session = t; server = s }))
  next-Keeps t s k w h = subst P e k
    where
      e : s ≡ w.server
      e = cc

  fate-Keeps : (r : S × Result Session) → P r.0 → Keeps (fate r)
  fate-Keeps (s, ok t) k w h = next-Keeps t s k w h
  fate-Keeps (s, throw e) k w h = cc

  spend-Keeps : (n : ℕ) (k : ℕ → Fate S) → ((m : ℕ) → Keeps (k m)) → Keeps (spend n k)
  spend-Keeps zero k safe w h = cc
  spend-Keeps (suc n) k safe w h = safe n w h

  spend_write-Keeps :
      (ms : List Response) (k : Response → List Response → Fate S)
      → ((m : Response) (ns : List Response) → Keeps (k m ns))
      → Keeps (spend_write ms k)
  spend_write-Keeps [] k safe w h = cc
  spend_write-Keeps (m ∷ ms) k safe w h = safe m ms w h

  module _ (need_eof : Response → Bool) (is_upgrade : Request → Bool)
      (resolve : Text → Handler S) where
    on_read-moves :
        (e : ErrorCode) (req : Request) (now : ℕ) (t : Session) (s : S)
        → P s
        → ((r : Request)
            → asked_by {S = S} is_upgrade (read_done e req) ≡ r ∷ []
            → P (resolve r.target r s).0)
        → P (on_read is_upgrade resolve e req now t s).0
    unfolding on_read
    on_read-moves success req now t s h go = elim (Bool-cases (is_upgrade req)) [
      | inl upgraded ↦ rw upgraded h
      | inr plain ↦ rw plain (go req (rw plain))
    ]
    on_read-moves _ req now t s h go = h

    -- The server's state behind an event is the one before, or what the handler of the request that was
    -- read leaves.
    pub step-moves :
        (now : ℕ) (e : Event S) (w w' : World S)
        → IsOwn e
        → step need_eof is_upgrade resolve now e w ≡ next w'
        → P w.server
        → ((r : Request) → asked_by is_upgrade e ≡ r ∷ [] → P (resolve r.target r w.server).0)
        → P w'.server
    unfolding step
    step-moves now ran w w' own h k go =
        spend-Keeps w.session.posts _ (λ n. next-Keeps _ w.server k) w' h
    step-moves now (read_done c req) w w' own h k go =
        spend-Keeps w.session.reads _
          (λ n.
            fate-Keeps _ (on_read-moves c req now (record (w.session) { reads = n }) w.server k go))
          w' h
    step-moves now (write_done c) w w' own h k go =
        spend_write-Keeps w.session.writes _ (λ m ms. next-Keeps _ w.server k) w' h
    step-moves now (timer_done operation_aborted) w w' own h k go =
        spend-Keeps w.session.cancelled _ (λ n. next-Keeps _ w.server k) w' h
    step-moves now (timer_done c) w w' own h k go =
        spend-Keeps w.session.waiting _ (λ n. next-Keeps _ w.server k) w' h
    step-moves now (elsewhere s) w w' own h k go = absurd own

    module _ (keeps : (path : Text) (req : Request) (s : S) → P s → P (resolve path req s).0) where
      pub step-keeps :
          (now : ℕ) (e : Event S) (w w' : World S)
          → IsOwn e
          → step need_eof is_upgrade resolve now e w ≡ next w'
          → P w.server
          → P w'.server
      step-keeps now e w w' own h k =
          step-moves now e w w' own h k (λ r here. keeps r.target r w.server k)
