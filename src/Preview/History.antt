-- ===== src/Preview/History.antt =====
-- The store of previews as the list of what was created (src/PicturePreviewHandler.cpp).
use beast_examples.Common.{
  ℕ, zero, suc, ◌≡◌, refl, ap, sym, ◌∙◌, true, false, text_eq, beq_refl, text_eqb_iff, List, [],
  ◌∷◌, map, take, Text, Option, some, arith, Bool-cases, inl, inr, ok, subst,
}
use beast_examples.Common.Assoc.{lookup}
use beast_examples.Preview.Defs.{
  PictureView, Pictures, Previews, new_previews, new_pictures, create_preview, collect,
}
use beast_examples.Preview.Store.{
  next_id, create_preview-Inv, lookup-create_kept, uuid-new_pictures,
}
use beast_examples.Preview.Trimming.{contains-take, Inv, new-Inv, contains}
use beast_examples.Preview.Holding.{Found, Holds, since, at_most, collect-Holds}

-- What one call of `createPreview` gets: the time, the random identifier, and the views.
pub record Creation : Type 0 where
  pub now : ℕ
  pub random : Option Text
  pub views : List PictureView

map-take :
    (n : ℕ) (pss : List Pictures)
    → map (λ ps. ps.uuid) (take n pss) ≡ take n (map (λ ps. ps.uuid) pss)
map-take zero pss = refl
map-take (suc n) [] = refl
map-take (suc n) (ps ∷ pss) = ap (◌∷◌ ps.uuid) (map-take n pss)

Found-take :
    (m : List (Text × Pictures)) (n : ℕ) (pss : List Pictures) → Found m pss → Found m (take n pss)
Found-take m zero pss h = tt
Found-take m (suc n) [] h = tt
Found-take m (suc n) (ps ∷ pss) (found, h) = (found, Found-take m n pss h)

-- A list that is cut and gets a new front is cut as the whole list is.
take-cons :
    (n : ℕ) (ps : Pictures) (pss : List Pictures) → take n (ps ∷ take n pss) ≡ take n (ps ∷ pss)
take-cons zero ps pss = refl
take-cons (suc n) ps pss = ap (◌∷◌ ps) (shorter n pss)
  where
    shorter : (n : ℕ) (pss : List Pictures) → take n (take (suc n) pss) ≡ take n pss
    shorter zero pss = refl
    shorter (suc n) [] = refl
    shorter (suc n) (ps ∷ pss) = ap (◌∷◌ ps) (shorter n pss)

module _ (generate : Text → Option Text) where
  abbrev pub created : Creation → Previews → Previews
  created c s = create_preview c.now c.random generate c.views s

  abbrev pub new_id : Creation → Previews → Text
  new_id c s = next_id c.now c.random generate c.views s

  -- The preview that a call makes.
  abbrev pub preview_of : Creation → Previews → Pictures
  preview_of c s = new_pictures (new_id c s) c.now c.views

  created-Found :
      (c : Creation) (s : Previews) (pss : List Pictures)
      → Inv s
      → contains (new_id c s) s.ids ≡ false
      → ((k : Text)
          → contains k (map (λ ps. ps.uuid) pss) ≡ true
          → contains k (created c s).ids ≡ true)
      → contains (new_id c s) (map (λ ps. ps.uuid) pss) ≡ false
      → Found s.pictures pss
      → Found (created c s).pictures pss
  created-Found c s [] v fresh there other h = tt
  created-Found c s (ps ∷ pss) v fresh there other (found, h) = (
    lookup-create_kept c.now c.random generate c.views s ps.uuid v fresh
          (there ps.uuid (rw (beq_refl ps.uuid)))
        ∙ ground
            (arith, found, text_eqb_iff (new_id c s) ps.uuid, text_eqb_iff ps.uuid (new_id c s)),
    created-Found c s pss v fresh (λ k g. there k (ground arith)) (ground arith) h,
  )

  -- One call of `createPreview` puts its preview in front, and cuts the list at the limit.
  created-Holds :
      (c : Creation) (s : Previews) (pss : List Pictures)
      → Inv s
      → contains (new_id c s) s.ids ≡ false
      → Holds s pss
      → Holds (created c s) (take s.cache_limit (preview_of c s ∷ pss))
  created-Holds c s pss v fresh h =
      cut s.cache_limit (create_preview-Inv c.now c.random generate c.views s v fresh).1
    where
      same_id : (preview_of c s).uuid ≡ new_id c s
      same_id = uuid-new_pictures c.now c.random generate c.views s (new_id c s)

      not_before : (n : ℕ) → contains (new_id c s) (map (λ ps. ps.uuid) (take n pss)) ≡ false
      not_before n = elim (Bool-cases (contains (new_id c s) (map (λ ps. ps.uuid) (take n pss)))) [
        | inl there ↦
            let before =
              contains-take (new_id c s) n (map (λ ps. ps.uuid) pss)
                (rw (map-take n pss) at there) in
            absurd (cc (before, fresh, h.order))
        | inr absent ↦ absent
      ]

      cut :
          (n : ℕ)
          → (created c s).ids ≡ take n (new_id c s ∷ s.ids)
          → Holds (created c s) (take n (preview_of c s ∷ pss))
      cut zero kept = record { order = kept; found = tt }
      cut (suc n) kept =
          let shape : (created c s).ids ≡ map (λ ps. ps.uuid) (preview_of c s ∷ take n pss) =
            kept ∙ rw (h.order, same_id, map-take n pss) in
          record {
            order = shape;
            found = (
              subst (λ k. lookup k (created c s).pictures ≡ some (preview_of c s)) (sym same_id)
                  (lookup-create_kept c.now c.random generate c.views s (new_id c s) v fresh
                      (rw kept (rw (beq_refl (new_id c s))))
                    ∙ rw (beq_refl (new_id c s))),
              created-Found c s (take n pss) v fresh (λ k g. rw shape (ground arith)) (not_before n)
                  (Found-take s.pictures n pss h.found),
            );
          }

  -- The calls of `createPreview`, in their order.
  abbrev pub create_all : List Creation → Previews → Previews
  create_all [] s = s
  create_all (c ∷ cs) s = create_all cs (created c s)

  -- The previews that they make, the newest first, in front of those made before.
  abbrev pub made_by : List Creation → Previews → List Pictures → List Pictures
  made_by [] s pss = pss
  made_by (c ∷ cs) s pss = made_by cs (created c s) (preview_of c s ∷ pss)

  -- No call gets an identifier that is in use.
  abbrev pub AllFresh : List Creation → Previews → Type 0
  AllFresh [] s = Unit {0}
  AllFresh (c ∷ cs) s = (contains (new_id c s) s.ids ≡ false) × AllFresh cs (created c s)

  empty-Holds : (limit n : ℕ) → Holds (new_previews limit) (take n [])
  unfolding new_previews
  empty-Holds limit zero = record { order = refl; found = tt }
  empty-Holds limit (suc n) = record { order = refl; found = tt }

  create_all-Holds :
      (n : ℕ) (cs : List Creation) (s : Previews) (pss : List Pictures)
      → s.cache_limit ≡ n
      → Inv s
      → AllFresh cs s
      → Holds s (take n pss)
      → Holds (create_all cs s) (take n (made_by cs s pss))
  create_all-Holds n [] s pss e v fresh h = h
  create_all-Holds n (c ∷ cs) s pss e v (f, fresh) h =
      let (inv, _, same, _) = create_preview-Inv c.now c.random generate c.views s v f in
      let one : Holds (created c s) (take s.cache_limit (preview_of c s ∷ take n pss)) =
        created-Holds c s (take n pss) v f h in
      let cut : take s.cache_limit (preview_of c s ∷ take n pss) ≡ take n (preview_of c s ∷ pss) =
        rw e (take-cons n (preview_of c s) pss) in
      create_all-Holds n cs (created c s) (preview_of c s ∷ pss) (same ∙ e) inv fresh
        (subst (Holds (created c s)) cut one)

  -- After any series of calls of `createPreview` on a new store, none of which gets an identifier
  -- that is in use, the newest of their previews, `limit` at most, are found by their identifiers as
  -- they were made; and listing does not fail, and shows those of them that were made after `prev`,
  -- the newest first, and the first `shown` of them if `shown` is not 0.
  pub collect-create_all :
      (limit : ℕ) (cs : List Creation) (prev : Text) (shown : ℕ)
      → AllFresh cs (new_previews limit)
      → let t = create_all cs (new_previews limit) in
        let kept = take limit (made_by cs (new_previews limit) []) in
        Found t.pictures kept
        × (collect prev shown t.pictures 0 t.ids ≡ ok (at_most shown (since prev kept)))
  unfolding new_previews
  collect-create_all limit cs prev shown fresh =
      let h =
        create_all-Holds limit cs (new_previews limit) [] refl (new-Inv limit) fresh
          (empty-Holds limit limit) in
      (h.found, collect-Holds prev shown _ _ h)
