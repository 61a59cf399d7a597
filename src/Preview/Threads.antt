-- ===== src/Preview/Threads.antt =====
-- Calls of `createPreview` on several threads (src/PicturePreviewHandler.cpp).
--
-- A call counts `seq` and draws its identifier without the mutex, and stores its preview with it. Each
-- of the two is one step; any number of calls are between them. That `++seq` of two threads can
-- meet (it is not atomic) is left out.
use beast_examples.Common.{
  ℕ, ◌+◌, ◌%◌, ◌^◌, ◌≡◌, refl, text_eq, List, [], ◌∷◌, ◌++◌, length, Text, Option,
}
use beast_examples.Common.Assoc.{emplace}
use beast_examples.Preview.Defs.{
  PictureView, Previews, new_previews, new_pictures, choose_id, trim, create_preview,
}

-- The lines of `createPreview` under the lock.
unfoldable pub insert_preview : Text → ℕ → List PictureView → Previews → Previews
unfolding new_pictures trim
insert_preview uuid now views s =
    let s' = record s {
      pictures = emplace uuid (new_pictures uuid now views) s.pictures;
      ids = uuid ∷ s.ids;
    } in
    trim (length s'.ids) s'

-- The local variables of a call.
pub record Call : Type 0 where
  pub uuid : Text
  pub now : ℕ
  pub views : List PictureView

-- The store, the number of calls of the generator, and the calls that wait for the mutex or have had it
-- (the last one first).
pub record Calls : Type 0 where
  pub previews : Previews
  pub drawn : ℕ
  pub pending : List Call
  pub inserted : List Call

abbrev pub counted : Previews → Previews
counted p = record p { seq = (p.seq + 1) % 2 ^ 64 }

abbrev pub inserting : Call → Previews → Previews
inserting c p = insert_preview c.uuid c.now c.views p

module _ (random : ℕ → Option Text) (generate : Text → Option Text) where
  abbrev pub call_of : ℕ → List PictureView → Calls → Call
  call_of now views s = record {
    uuid = choose_id (random s.drawn) generate ((s.previews.seq + 1) % 2 ^ 64);
    now = now;
    views = views;
  }

  pub data Step : Calls → Calls → Type 0 where
    draw :
        (now : ℕ) (views : List PictureView) (s : Calls)
        → Step s (record s {
          previews = counted s.previews;
          drawn = s.drawn + 1;
          pending = call_of now views s ∷ s.pending;
        })
    insert :
        (p : Previews) (drawn : ℕ) (before after inserted : List Call) (c : Call)
        → Step
            (record {
              previews = p;
              drawn = drawn;
              pending = before ++ c ∷ after;
              inserted = inserted;
            })
            (record {
              previews = inserting c p;
              drawn = drawn;
              pending = before ++ after;
              inserted = c ∷ inserted;
            })

  pub data Reach (limit : ℕ) : Calls → Type 0 where
    begin :
        Reach limit
          (record { previews = new_previews limit; drawn = 0; pending = []; inserted = [] })
    later : {s t : Calls} → Reach limit s → Step s t → Reach limit t

-- A call that runs alone is `createPreview`.
pub insert_preview-create_preview :
    (now : ℕ) (random : Option Text) (generate : Text → Option Text) (views : List PictureView)
    (p : Previews)
    → create_preview now random generate views p
      ≡ insert_preview (choose_id random generate ((p.seq + 1) % 2 ^ 64)) now views (counted p)
unfolding create_preview insert_preview
insert_preview-create_preview now random generate views p = refl
