-- ===== src/App/Reachable.antt =====
-- What holds of the whole server in every state that it reaches (src/main.cpp).
use beast_examples.Common.{refl, ℕ, Bool, List, [], ◌∷◌, ◌++◌, All, All-append, Text, Option, arith}
use beast_examples.Http.{Request, Response}
use beast_examples.Preview.Trimming.{new-Inv}
use beast_examples.Cache.{new_cache}
use beast_examples.Preview.Defs.{new_previews}
use beast_examples.Session.{run, new_session, do_read}
use beast_examples.Session.Invariant
use beast_examples.Session.Shared.{step-keeps}
use beast_examples.App.{Outside, App, new_app, handler}
use beast_examples.App.Sessions.{
  Site, accepted, sampled, Step, connect, event, take_round, Reach, here, more,
}
use beast_examples.Preview.Drawing.{Draws}
use beast_examples.App.Invariant.{AppInv, handler-AppInv}

-- The state of every session and of what their handlers share.
abbrev pub SiteInv : (ℕ → Option Text) → Site → Type 0
SiteInv random s = AppInv random s.app × All Invariant.Inv s.sessions

pub sampled-AppInv :
    (random : ℕ → Option Text) (n : ℕ) (s : App) → AppInv random s → AppInv random (sampled n s)
sampled-AppInv random n s h = record { cache = h.cache; previews = h.previews }

accepted-Inv : (now : ℕ) → Invariant.Inv (accepted now)
unfolding run new_session do_read
accepted-Inv now = record {
  one_read = omega arith;
  room = omega arith;
  one_write = tt;
  one_wait = omega arith;
}

new-AppInv : (random : ℕ → Option Text) → AppInv random new_app
unfolding new_previews new_cache
new-AppInv random = record {
  cache = record { body_keys = tt; face_keys = tt; four = λ id lines e. cc };
  previews = (new-Inv 30, tt, refl);
}

-- One of the sessions is in another state.
All-replace {ℓ κ} :
    {A : Type ℓ} (P : A → Type κ) (xs : List A) (x y : A) (zs : List A)
    → All P (xs ++ x ∷ zs)
    → (P x → P y)
    → All P (xs ++ y ∷ zs)
All-replace P [] x y zs (h, hs) k = (k h, hs)
All-replace P (w ∷ xs) x y zs (h, hs) k = (h, All-replace P xs x y zs hs k)

module _ (E : Outside) (root : Text) (need_eof : Response → Bool) (is_upgrade : Request → Bool)
    (d : Draws E.random) where
  Step-SiteInv :
      {s t : Site} → Step E root need_eof is_upgrade s t → SiteInv E.random s → SiteInv E.random t
  Step-SiteInv (connect now s) (h, hs) = (h, All-append _ s.sessions _ hs (accepted-Inv now, tt))
  Step-SiteInv (event now e s before after t w own k) (h, hs) = (
    step-keeps (AppInv E.random) need_eof is_upgrade (handler E root) (handler-AppInv E root d) now
        e _ w own k h,
    All-replace Invariant.Inv before t w.session after hs
        (λ v. Invariant.step-Inv need_eof is_upgrade (handler E root) now e _ w v k),
  )
  Step-SiteInv (take_round n s) (h, hs) = (sampled-AppInv E.random n s.app h, hs)

  -- In every state that the server reaches, by connections, the events of its sessions (requests to
  -- any handler, in any order) and rounds of its samplings: the maps of the cache are well-formed, the
  -- store of previews is consistent, has the limit 30 and holds only identifiers that were drawn
  -- before, and every session has at most one read, one write and one
  -- timer wait pending, writes the front of its queue, and has no more than 16 responses queued, the
  -- pending read included. The generator must never draw an identifier twice.
  pub Reach-SiteInv : {s : Site} → Reach E root need_eof is_upgrade s → SiteInv E.random s
  Reach-SiteInv here = (new-AppInv E.random, tt)
  Reach-SiteInv (more r k) = Step-SiteInv k (Reach-SiteInv r)
