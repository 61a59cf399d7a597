-- ===== src/Preview/Store.antt =====
-- The store keeps the newest previews, `cache_limit` of them at most.
use beast_examples.Common.{
  ◌==◌, text_eq, ℕ, zero, suc, ◌+◌, ◌%◌, ◌^◌, ◌<◌, ◌≡◌, refl, ◌∙◌, inl, inr, true, false, text_eq,
  text_eqb_iff, List, [], ◌∷◌, ◌++◌, length, take, Text, Option, none, some, arith, Bool-cases,
  if◌then◌else◌, beq_refl, ltb, ltb→lt, lt→ltb,
}
use beast_examples.Common.Assoc.{lookup, emplace, lookup-emplace_fresh}
use beast_examples.Preview.Defs.{
  PictureView, Pictures, Previews, place, new_pictures, choose_id, create_preview,
}
use beast_examples.Preview.Trimming.{contains, Stored, Inv, trim_lem, lookup-trim}

module _ (now : ℕ) (random : Option Text) (generate : Text → Option Text) (views : List PictureView)
    (s : Previews) where
  -- The identifier that the next preview gets.
  abbrev pub next_id : Text
  next_id = choose_id random generate ((s.seq + 1) % 2 ^ 64)

  -- The store with the new preview in it, before the loop.
  abbrev added : Previews
  added = record s {
    seq = (s.seq + 1) % 2 ^ 64;
    pictures = emplace next_id (new_pictures next_id now views) s.pictures;
    ids = next_id ∷ s.ids;
  }

  uuid-place : (i : ℕ) (vs : List PictureView) (ps : Pictures) → (place i vs ps).uuid ≡ ps.uuid
  unfolding place
  uuid-place i [] ps = refl
  uuid-place i (v ∷ vs) ps = ground (
    arith,
    uuid-place (i + 1) vs (record ps { snaps = ps.snaps ++ v ∷ [] }),
    uuid-place (i + 1) vs (record ps { tracks = ps.tracks ++ v ∷ [] }),
  )

  Stored-emplace :
      (uuid : Text) (ps : Pictures) (ids : List Text)
      → lookup uuid s.pictures ≡ none
      → contains uuid ids ≡ false
      → Stored s.pictures ids
      → Stored (emplace uuid ps s.pictures) ids
  Stored-emplace uuid ps [] e c h = tt
  Stored-emplace uuid ps (k ∷ ks) e c ((qs, found, named), h) = (
    (
      qs,
      lookup-emplace_fresh uuid k ps s.pictures e
          ∙ ground (arith, text_eqb_iff k uuid, text_eqb_iff uuid k),
      named,
    ),
    Stored-emplace uuid ps ks e (ground arith) h,
  )

  added-Inv : Inv s → contains next_id s.ids ≡ false → Inv added
  unfolding new_pictures
  added-Inv v fresh =
      let absent = v.only next_id fresh in
      record {
        distinct = (fresh, v.distinct);
        stored = (
          (
            new_pictures next_id now views,
            lookup-emplace_fresh next_id next_id _ s.pictures absent ∙ rw (beq_refl next_id),
            uuid-place 0 views _,
          ),
          Stored-emplace next_id _ s.ids absent fresh v.stored,
        );
        only = λ k h. lookup-emplace_fresh next_id k _ s.pictures absent ∙ ground (arith, v.only k);
      }

  -- With an identifier that is not in use, `createPreview` keeps the store consistent (identifiers
  -- are distinct, each has its preview and no other preview is there), puts the new preview first,
  -- keeps the newest `cache_limit` of the old and new ones, and stores exactly the given views,
  -- unless the limit is 0.
  pub create_preview-Inv :
      Inv s
      → contains next_id s.ids ≡ false
      → let t = create_preview now random generate views s in
        Inv t
        × (t.ids ≡ take s.cache_limit (next_id ∷ s.ids))
        × (t.cache_limit ≡ s.cache_limit)
        × (lookup next_id t.pictures
            ≡ (if ltb 0 s.cache_limit then some (new_pictures next_id now views) else none))
  unfolding create_preview
  create_preview-Inv v fresh =
      let (inv, kept, same, _) =
        trim_lem (length added.ids) added (omega arith) (added-Inv v fresh) in
      (
        inv,
        kept,
        same,
        elim (Bool-cases (ltb 0 s.cache_limit)) [
          | inl room ↦ rw room (
              lookup-trim (length added.ids) added next_id (omega arith) (added-Inv v fresh)
                (newest s.cache_limit (ltb→lt _ _ room))
              ∙ lookup-emplace_fresh next_id next_id _ s.pictures (v.only next_id fresh)
              ∙ rw (beq_refl next_id))
          | inr full ↦ rw full (inv.only next_id (rw kept (gone s.cache_limit (ground arith))))
        ],
      )
    where
      newest : (n : ℕ) → 0 < n → contains next_id (take n (next_id ∷ s.ids)) ≡ true
      newest zero h = absurd (omega arith)
      newest (suc n) h = rw (beq_refl next_id)

      gone : (n : ℕ) → n ≡ 0 → contains next_id (take n (next_id ∷ s.ids)) ≡ false
      gone zero h = refl
      gone (suc n) h = absurd (omega arith)

  pub lookup-create_preview :
      Inv s
      → 0 < s.cache_limit
      → contains next_id s.ids ≡ false
      → lookup next_id (create_preview now random generate views s).pictures
        ≡ some (new_pictures next_id now views)
  lookup-create_preview v room fresh =
      let (_, _, _, found) = create_preview-Inv v fresh in found ∙ rw (lt→ltb _ _ room)

  -- A preview that is kept is what it was before, and the new one is as it was made.
  pub lookup-create_kept :
      (k : Text)
      → Inv s
      → contains next_id s.ids ≡ false
      → contains k (create_preview now random generate views s).ids ≡ true
      → lookup k (create_preview now random generate views s).pictures
        ≡ (if next_id == k then some (new_pictures next_id now views) else lookup k s.pictures)
  unfolding create_preview
  lookup-create_kept k v fresh there =
      let (_, kept, _, _) = trim_lem (length added.ids) added (omega arith) (added-Inv v fresh) in
      lookup-trim (length added.ids) added k (omega arith) (added-Inv v fresh) (rw kept at there)
      ∙ lookup-emplace_fresh next_id k _ s.pictures (v.only next_id fresh)

  pub uuid-new_pictures : (uuid : Text) → (new_pictures uuid now views).uuid ≡ uuid
  unfolding new_pictures
  uuid-new_pictures uuid = uuid-place 0 views _
