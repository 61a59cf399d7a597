-- ===== src/App/Sessions.antt =====
-- The server as it runs: its sessions, the state that their handlers share, and the samplings.
--
-- The listener adds a session for a connection (one whose peer is gone gives no session, and stops the
-- listener: see Listener); an event of one of the sessions is completed; the
-- thread of a sampling takes a round. The events of different sessions are steps one after the other.
use beast_examples.Common.{
  ◌&&◌, not, Option, none, some, ℕ, ◌+◌, ◌%◌, ◌^◌, ◌≡◌, Bool, false, if◌then◌else◌, nat_eq, ◌==◌,
  List, [], ◌∷◌, ◌++◌, Text,
}
use beast_examples.Common.Assoc.{lookup}
use beast_examples.Http.{Request, Response}
use beast_examples.Session
use beast_examples.Session.{Session, new_session}
use beast_examples.Session.Runs.{Event, IsOwn, World, next, step}
use beast_examples.Sampling.{Block, is_done, tick}
use beast_examples.App.{Outside, App, new_app, handler}

-- One round of the thread of a block, with the number of the next snap.
abbrev pub round : ℕ → Block → Block
round snap b =
    if b.running then (if is_done b then record b { running = false } else tick snap b) else b

abbrev pub round_of : ℕ → ℕ → List (ℕ × Block) → List (ℕ × Block)
round_of n snap [] = []
round_of n snap ((j, b) ∷ m) = (j, if j == n then round snap b else b) ∷ round_of n snap m

pub record Site : Type 0 where
  pub app : App
  pub sessions : List Session

-- The session that `HttpListener::onAccept` makes when its constructor does not throw, run from outside of its strand.
abbrev pub accepted : ℕ → Session
accepted now = Session.run false now new_session

-- The round draws a number.
abbrev pub is_snapping : Option Block → Bool
is_snapping none = false
is_snapping (some b) = b.running && not (is_done b)

abbrev pub sampled : ℕ → App → App
sampled n s =
    let m = s.mock in
    let next = if is_snapping (lookup n m.samplings) then (m.snap_id + 1) % 2 ^ 64 else m.snap_id in
    record s { mock = record m { samplings = round_of n m.snap_id m.samplings; snap_id = next } }

module _ (E : Outside) (root : Text) (need_eof : Response → Bool)
    (is_upgrade : Request → Bool) where
  pub data Step : Site → Site → Type 0 where
    connect :
        (now : ℕ) (s : Site) → Step s (record s { sessions = s.sessions ++ accepted now ∷ [] })
    event :
        (now : ℕ) (e : Event App) (s : App) (before after : List Session) (t : Session)
        (w : World App)
        → IsOwn e
        → step need_eof is_upgrade (handler E root) now e (record { session = t; server = s })
          ≡ next w
        → Step
            (record { app = s; sessions = before ++ t ∷ after })
            (record { app = w.server; sessions = before ++ w.session ∷ after })
    take_round : (n : ℕ) (s : Site) → Step s (record s { app = sampled n s.app })

  -- Any number of steps.
  pub data Runs (s : Site) : Site → Type 0 where
    here : Runs s s
    more : {t u : Site} → Runs s t → Step t u → Runs s u

  -- From the server as it starts.
  abbrev pub Reach : Site → Type 0
  Reach = Runs (record { app = new_app; sessions = [] })
