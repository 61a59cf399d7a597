-- ===== src/Preview/Serial.antt =====
-- Calls of `createPreview` on several threads leave what they leave one after the other
-- (src/PicturePreviewHandler.cpp).
use beast_examples.Common.{
  ℕ, zero, suc, ◌+◌, ◌%◌, ◌^◌, ◌≡◌, refl, ap, sym, ◌∙◌, false, text_eq, ltb, List, [], ◌∷◌, ◌++◌,
  length, take, All, length-append, Text, Option, some, ok, arith, Bool-cases, inl, inr,
}
use beast_examples.Common.Assoc.{emplace}
use beast_examples.Preview.Defs.{PictureView, Previews, new_previews, new_pictures, trim, collect}
use beast_examples.Preview.Trimming.{Inv, new-Inv, contains, Distinct}
use beast_examples.Preview.Store.{create_preview-Inv}
use beast_examples.Preview.Drawing.{Draws, Drawn, older, All-take, fresh}
use beast_examples.Preview.History.{
  Creation, created, new_id, create_all, made_by, AllFresh, collect-create_all,
}
use beast_examples.Preview.Holding.{since, at_most}
use beast_examples.Preview.Pending.{
  uuids, Waiting, Waiting-take, Waiting-older, Waiting-without, Waiting-middle, uuids-Drawn,
  Distinct-without,
}
use beast_examples.Preview.Threads.{
  insert_preview, Call, Calls, counted, inserting, call_of, draw, insert, Reach, begin, later,
  insert_preview-create_preview,
}

-- What a call does when it runs alone.
abbrev pub creation_of : Call → Creation
creation_of c = record { now = c.now; random = some c.uuid; views = c.views }

-- The calls that have had the mutex, in their order.
abbrev pub serial : List Call → List Creation
serial [] = []
serial (c ∷ cs) = serial cs ++ creation_of c ∷ []

-- The store with another number.
abbrev with_seq : ℕ → Previews → Previews
with_seq n p = record p { seq = n }

-- The number that is counted is no part of the rest.
trim-seq : (fuel n : ℕ) (p : Previews) → trim fuel (with_seq n p) ≡ with_seq n (trim fuel p)
unfolding trim
trim-seq zero n p = refl
trim-seq (suc fuel) n p = elim (Bool-cases (ltb p.cache_limit (length p.ids))) [
  | inl big ↦ rw big (trim-seq fuel n _)
  | inr small ↦ rw small refl
]

insert_preview-seq :
    (c : Call) (n : ℕ) (p : Previews) → inserting c (with_seq n p) ≡ with_seq n (inserting c p)
unfolding insert_preview
insert_preview-seq c n p = trim-seq (length (c.uuid ∷ p.ids)) n (record p {
  ids = c.uuid ∷ p.ids;
  pictures = emplace c.uuid (new_pictures c.uuid c.now c.views) p.pictures;
})

module _ (generate : Text → Option Text) where
  -- The store that the calls leave one after the other.
  abbrev pub alone : ℕ → List Call → Previews
  alone limit cs = create_all generate (serial cs) (new_previews limit)

  create_all-append :
      (cs : List Creation) (c : Creation) (p : Previews)
      → create_all generate (cs ++ c ∷ []) p ≡ created generate c (create_all generate cs p)
  create_all-append [] c p = refl
  create_all-append (d ∷ cs) c p = create_all-append cs c (created generate d p)

  AllFresh-append :
      (cs : List Creation) (c : Creation) (p : Previews)
      → AllFresh generate cs p
      → contains (new_id generate c (create_all generate cs p)) (create_all generate cs p).ids
        ≡ false
      → AllFresh generate (cs ++ c ∷ []) p
  AllFresh-append [] c p h new = (new, tt)
  AllFresh-append (d ∷ cs) c p (h, hs) new = (h, AllFresh-append cs c (created generate d p) hs new)

  -- A call that stores its preview does what it does alone, up to the number that is counted.
  inserting-created :
      (c : Call) (n : ℕ) (p q : Previews)
      → p ≡ with_seq n q
      → inserting c p ≡ with_seq n (created generate (creation_of c) q)
  inserting-created c n p q h =
      ap (inserting c) h
      ∙ insert_preview-seq c n q
      ∙ sym (
          ap (with_seq n) (
            insert_preview-create_preview c.now (some c.uuid) generate c.views q
            ∙ insert_preview-seq c ((q.seq + 1) % 2 ^ 64) q))

module _ (random : ℕ → Option Text) (generate : Text → Option Text) (limit : ℕ)
    (d : Draws random) where
  record Serial (s : Calls) : Type 0 where
    seq : ℕ
    same : s.previews ≡ with_seq seq (alone generate limit s.inserted)
    inv : Inv (alone generate limit s.inserted)
    fresh_ids : AllFresh generate (serial s.inserted) (new_previews limit)
    kept : All (Drawn random s.drawn) (alone generate limit s.inserted).ids
    waiting : Waiting random s.drawn (alone generate limit s.inserted).ids s.pending
    apart : Distinct (uuids s.pending)
    number : length s.inserted + length s.pending ≡ s.drawn

  draw-Serial :
      (now : ℕ) (views : List PictureView) (s : Calls)
      → Serial s
      → Serial (record s {
        previews = counted s.previews;
        drawn = s.drawn + 1;
        pending = call_of random generate now views s ∷ s.pending;
      })
  draw-Serial now views s h =
      let (t, e) = d.drawn s.drawn in
      let seq = (s.previews.seq + 1) % 2 ^ 64 in
      let ids = (alone generate limit s.inserted).ids in
      record {
        seq = seq;
        same = ap (with_seq seq) h.same;
        inv = h.inv;
        fresh_ids = h.fresh_ids;
        kept = older random s.drawn ids h.kept;
        waiting = (
          ((s.drawn, omega arith, rw e), fresh random generate s.drawn seq ids d h.kept),
          Waiting-older random s.drawn ids s.pending h.waiting,
        );
        apart = (
          fresh random generate s.drawn seq (uuids s.pending) d
              (uuids-Drawn random s.drawn ids s.pending h.waiting),
          h.apart,
        );
        number = omega (arith, h.number);
      }

  insert-Serial :
      (p : Previews) (drawn : ℕ) (before after inserted : List Call) (c : Call)
      → Serial (record {
        previews = p;
        drawn = drawn;
        pending = before ++ c ∷ after;
        inserted = inserted;
      })
      → Serial (record {
        previews = inserting c p;
        drawn = drawn;
        pending = before ++ after;
        inserted = c ∷ inserted;
      })
  insert-Serial p drawn before after inserted c h =
      let q = alone generate limit inserted in
      let (mine, new) = Waiting-middle random drawn q.ids before c after h.waiting in
      let one = create_all-append generate (serial inserted) (creation_of c) (new_previews limit) in
      let (inv, ids, _, _) = create_preview-Inv c.now (some c.uuid) generate c.views q h.inv new in
      record {
        seq = h.seq;
        same = inserting-created generate c h.seq p q h.same ∙ ap (with_seq h.seq) (sym one);
        inv = rw one inv;
        fresh_ids =
            AllFresh-append generate (serial inserted) (creation_of c) (new_previews limit)
              h.fresh_ids new;
        kept = rw (one, ids) (All-take _ q.cache_limit (c.uuid ∷ q.ids) (mine, h.kept));
        waiting =
            rw (one, ids)
              (Waiting-take random drawn q.cache_limit (c.uuid ∷ q.ids) (before ++ after)
                (Waiting-without random drawn q.ids before c after h.apart h.waiting));
        apart = Distinct-without before c after h.apart;
        number =
            omega (arith, h.number, length-append before (c ∷ after), length-append before after);
      }

  Reach-Serial : {s : Calls} → Reach random generate limit s → Serial s
  unfolding new_previews
  Reach-Serial begin = record {
    seq = 0;
    same = refl;
    inv = new-Inv limit;
    fresh_ids = tt;
    kept = tt;
    waiting = tt;
    apart = tt;
    number = omega arith;
  }
  Reach-Serial (later r (draw now views s)) = draw-Serial now views s (Reach-Serial r)
  Reach-Serial (later r (insert p drawn before after inserted c)) =
      insert-Serial p drawn before after inserted c (Reach-Serial r)

  -- However calls of `createPreview` interleave on threads, if their generator draws no identifier
  -- twice: the store has the previews and the order that the calls leave which have had the mutex,
  -- run one after the other in the order of the mutex on a new store; each of them gets an identifier
  -- that is not in use then; every call either waits for the mutex or is one of them; and listing
  -- does not fail, and shows those of their newest previews that were made after `prev`.
  pub Reach-create_all :
      {s : Calls} (prev : Text) (shown : ℕ)
      → Reach random generate limit s
      → (s.previews.ids ≡ (alone generate limit s.inserted).ids)
        × (s.previews.pictures ≡ (alone generate limit s.inserted).pictures)
        × AllFresh generate (serial s.inserted) (new_previews limit)
        × (length s.inserted + length s.pending ≡ s.drawn)
        × (collect prev shown s.previews.pictures 0 s.previews.ids
            ≡ ok (
                at_most shown (
                  since prev
                    (take limit (made_by generate (serial s.inserted) (new_previews limit) [])))))
  Reach-create_all {s} prev shown r =
      let h = Reach-Serial r in
      let ids : s.previews.ids ≡ (alone generate limit s.inserted).ids = ap (λ p. p.ids) h.same in
      let pictures : s.previews.pictures ≡ (alone generate limit s.inserted).pictures =
        ap (λ p. p.pictures) h.same in
      let (_, listed) =
        collect-create_all generate limit (serial s.inserted) prev shown h.fresh_ids in
      (ids, pictures, h.fresh_ids, h.number, rw (ids, pictures) listed)
