-- ===== src/Preview/Listing.antt =====
-- Which previews a client is shown.
use beast_examples.Common.{
  ℕ, zero, suc, ◌+◌, ◌-◌, ◌<◌, ◌≡◌, refl, ap, ◌∙◌, inl, inr, false, ◌&&◌, ◌==◌, text_eq,
  text_eqb_iff, List, [], ◌∷◌, map, take, Text, Option, some, arith, Bool-cases, if◌then◌else◌, ok,
  ltb, leb,
}
use beast_examples.Common.Assoc.{lookup}
use beast_examples.Preview.Defs.{
  PictureView, Pictures, Previews, new_pictures, create_preview, collect,
}
use beast_examples.Preview.Store.{next_id, create_preview-Inv, lookup-create_preview}
use beast_examples.Preview.Trimming.{Inv, Stored, contains}

-- The identifiers in front of `prev`.
abbrev pub until : Text → List Text → List Text
until prev [] = []
until prev (k ∷ ks) = if k == prev then [] else k ∷ until prev ks

-- At most `limit` of them, if `limit` is not 0.
abbrev pub listed : Text → ℕ → List Text → List Text
listed prev zero ids = until prev ids
listed prev (suc limit) ids = take (suc limit) (until prev ids)

collect_all :
    (prev : Text) (m : List (Text × Pictures)) (n : ℕ) (ids : List Text)
    → Stored m ids
    → (pss : List Pictures) × (collect prev 0 m n ids ≡ ok pss)
      × (map (λ ps. ps.uuid) pss ≡ until prev ids)
unfolding collect
collect_all prev m n [] h = ([], refl, refl)
collect_all prev m n (k ∷ ks) ((ps, found, named), h) = elim (Bool-cases (k == prev)) [
  | inl stop ↦ ([], rw stop, rw stop)
  | inr go ↦
      let (pss, e, same) = collect_all prev m (n + 1) ks h in
      (ps ∷ pss, rw go (ground (arith, found, e)), rw (go, named, same))
]

collect_some :
    (prev : Text) (left n limit : ℕ) (m : List (Text × Pictures)) (ids : List Text)
    → 0 < limit
    → left + n ≡ limit
    → Stored m ids
    → (pss : List Pictures) × (collect prev limit m n ids ≡ ok pss)
      × (map (λ ps. ps.uuid) pss ≡ take left (until prev ids))
unfolding collect
collect_some prev zero n limit m [] p q h = ([], refl, refl)
collect_some prev (suc left) n limit m [] p q h = ([], refl, refl)
collect_some prev zero n limit m (k ∷ ks) p q h = ([], ground arith, refl)
collect_some prev (suc left) n limit m (k ∷ ks) p q ((ps, found, named), h) =
    elim (Bool-cases (k == prev)) [
      | inl stop ↦ ([], rw stop, rw stop)
      | inr go ↦
          let (pss, e, same) = collect_some prev left (n + 1) limit m ks p (omega arith) h in
          let more : (leb limit n) ≡ false = ground arith in
          (ps ∷ pss, rw (go, more) (ground (arith, found, e)), rw (go, named, same))
    ]

-- On a consistent store, listing succeeds (no identifier lacks its preview), and shows, newest
-- first, the previews that came after `prev`, at most `limit` of them if `limit` is not 0.
collect-listed :
    (prev : Text) (limit : ℕ) (s : Previews)
    → Inv s
    → (pss : List Pictures) × (collect prev limit s.pictures 0 s.ids ≡ ok pss)
      × (map (λ ps. ps.uuid) pss ≡ listed prev limit s.ids)
collect-listed prev zero s v = collect_all prev s.pictures 0 s.ids v.stored
collect-listed prev (suc limit) s v =
    collect_some prev (suc limit) 0 (suc limit) s.pictures s.ids (omega arith) (omega arith)
      v.stored

-- The listing stops before `prev`, and at the end.
abbrev StopsAt : Text → List Text → Type 0
StopsAt prev [] = Unit {0}
StopsAt prev (k ∷ ks) = k ≡ prev

collect_stop :
    (prev : Text) (limit n : ℕ) (m : List (Text × Pictures)) (ids : List Text)
    → StopsAt prev ids
    → collect prev limit m n ids ≡ ok []
unfolding collect
collect_stop prev limit n m [] h = refl
collect_stop prev limit n m (k ∷ ks) h = rw ((text_eqb_iff k prev).1 h)

collect_one :
    (prev uuid : Text) (limit : ℕ) (m : List (Text × Pictures)) (ids : List Text) (ps : Pictures)
    → (uuid == prev) ≡ false
    → lookup uuid m ≡ some ps
    → StopsAt prev ids
    → collect prev limit m 0 (uuid ∷ ids) ≡ ok (ps ∷ [])
unfolding collect
collect_one prev uuid limit m ids ps other found stop =
    let at_start : (ltb 0 limit && leb limit 0) ≡ false = ground arith in
    rw (other, at_start) (ground (arith, found, collect_stop prev limit (0 + 1) m ids stop))

StopsAt-take :
    (n : ℕ) (prev : Text) (ids : List Text) → StopsAt prev ids → StopsAt prev (take n ids)
StopsAt-take zero prev ids h = tt
StopsAt-take (suc n) prev [] h = tt
StopsAt-take (suc n) prev (k ∷ ks) h = h

-- A client that asks with the newest identifier it knows is told of exactly the preview that was
-- created since, with the views it was created from.
collect-create_preview :
    (now : ℕ) (random : Option Text) (generate : Text → Option Text) (views : List PictureView)
    (s : Previews) (prev : Text) (rest : List Text) (limit : ℕ)
    → Inv s
    → 0 < s.cache_limit
    → s.ids ≡ prev ∷ rest
    → contains (next_id now random generate views s) s.ids ≡ false
    → let t = create_preview now random generate views s in
      collect prev limit t.pictures 0 t.ids
      ≡ ok (new_pictures (next_id now random generate views s) now views ∷ [])
collect-create_preview now random generate views s prev rest limit v room e fresh =
    let uuid = next_id now random generate views s in
    let (_, kept, _, _) = create_preview-Inv now random generate views s v fresh in
    let t = create_preview now random generate views s in
    let shape : t.ids ≡ uuid ∷ take (s.cache_limit - 1) (prev ∷ rest) =
      kept ∙ rw e (newest s.cache_limit room uuid (prev ∷ rest)) in
    rw shape (
      collect_one prev uuid limit t.pictures (take (s.cache_limit - 1) (prev ∷ rest)) _
        (not_head uuid (rw e at fresh))
        (lookup-create_preview now random generate views s v room fresh)
        (StopsAt-take (s.cache_limit - 1) prev (prev ∷ rest) refl))
  where
    newest : (n : ℕ) → 0 < n → (x : Text) (xs : List Text) → take n (x ∷ xs) ≡ x ∷ take (n - 1) xs
    newest zero h x xs = absurd (omega arith)
    newest (suc n) h x xs = ap (λ k. x ∷ take k xs) (omega arith)

    not_head : (x : Text) → contains x (prev ∷ rest) ≡ false → (x == prev) ≡ false
    not_head x h = ground (arith, text_eqb_iff x prev, text_eqb_iff prev x)
