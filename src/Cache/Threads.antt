-- ===== src/Cache/Threads.antt =====
-- Calls of `addPicture` (src/PictureCache.cpp) on several threads.
--
-- A call takes the mutex three times: for the cleanup, to store its picture, and in `process`; then it
-- makes its preview without the mutex. Each of the four is one step, and the steps of the threads
-- interleave in any order. A thread that has returned may call again.
use beast_examples.Common.{ℕ, ◌≡◌, if◌then◌else◌, nat_eqb, List, is_empty, Result, ok, throw}
use beast_examples.Picture.{Wrapper}
use beast_examples.Preview.Defs.{PictureView, Previews, new_previews}
use beast_examples.Cache.{Cache, new_cache, cleanup, store, process}

-- Where a thread is in its call.
pub data Phase : Type 0 where
  calling cleaned stored : Wrapper → Phase
  posting : Wrapper → List PictureView → Phase
  returned : Wrapper → Result (Unit {0}) → Phase

-- What the threads share.
pub record Shared : Type 0 where
  pub cache : Cache
  pub previews : Previews

abbrev pub after_store : Wrapper → Shared → Cache × Result (Unit {0}) → Phase × Shared
after_store w s (c, ok _) = (stored w, record s { cache = c })
after_store w s (c, throw e) = (returned w (throw e), record s { cache = c })

abbrev pub after_process : Wrapper → Shared → Result (Cache × List PictureView) → Phase × Shared
after_process w s (throw e) = (returned w (throw e), s)
after_process w s (ok (c, views)) =
    (if is_empty views then returned w (ok tt) else posting w views, record s { cache = c })

-- The next step of a call, with the time of its cleanup and the making of its preview.
unfoldable pub advance :
    ℕ → (List PictureView → Previews → Previews) → Phase → Shared → Phase × Shared
advance now create (calling w) s = (cleaned w, record s { cache = cleanup now s.cache })
advance now create (cleaned w) s = after_store w s (store w s.cache)
advance now create (stored w) s = after_process w s (process s.cache)
advance now create (posting w views) s =
    (returned w (ok tt), record s { previews = create views s.previews })
advance now create (returned w r) s = (returned w r, s)

pub record System : Type 0 where
  pub shared : Shared
  pub phase : ℕ → Phase

abbrev pub update : (ℕ → Phase) → ℕ → Phase → ℕ → Phase
update f i p j = if nat_eqb i j then p else f j

abbrev pub advanced : System → ℕ → Phase × Shared → System
advanced s i (p, shared) = record { shared = shared; phase = update s.phase i p }

-- One thread takes a step, or calls again.
pub data Step (s : System) : System → Type 0 where
  run :
      (i now : ℕ) (create : List PictureView → Previews → Previews)
      → Step s (advanced s i (advance now create (s.phase i) s.shared))
  call_again :
      (i : ℕ) (w v : Wrapper) (r : Result (Unit {0}))
      → s.phase i ≡ returned v r
      → Step s (record s { phase = update s.phase i (calling w) })

abbrev pub begin : ℕ → (ℕ → Wrapper) → System
begin limit pictures = record {
  shared = record { cache = new_cache; previews = new_previews limit };
  phase = λ i. calling (pictures i);
}

pub data Reach (limit : ℕ) (pictures : ℕ → Wrapper) : System → Type 0 where
  start : Reach limit pictures (begin limit pictures)
  later : {s t : System} → Reach limit pictures s → Step s t → Reach limit pictures t
