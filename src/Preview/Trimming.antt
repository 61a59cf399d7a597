-- ===== src/Preview/Trimming.antt =====
-- The loop of `createPreview` that takes the oldest previews away (src/PicturePreviewHandler.cpp).
use beast_examples.Common.{
  ℕ, zero, suc, ◌≤◌, ◌<◌, ◌≡◌, refl, ap, sym, ◌∙◌, ◌⊎◌, inl, inr, Bool, true, false, ◌||◌, ◌==◌,
  text_eq, text_eqb_iff, List, [], ◌∷◌, length, take, drop_last, get_last?, Text, none, some, arith,
  All, length-drop_last, Bool-cases, All-drop_last, ltb, ltb→lt, Option-cases,
}
use beast_examples.Common.Assoc.{lookup, erase, lookup-erase}
use beast_examples.Preview.Defs.{Pictures, Previews, trim, new_previews}

abbrev pub contains : Text → List Text → Bool
contains k [] = false
contains k (j ∷ js) = j == k || contains k js

abbrev pub Distinct : List Text → Type 0
Distinct [] = Unit
Distinct (k ∷ ks) = (contains k ks ≡ false) × Distinct ks

-- Every identifier has its preview, under its own name.
abbrev pub Stored : List (Text × Pictures) → List Text → Type 0
Stored m = All (λ k. (ps : Pictures) × (lookup k m ≡ some ps) × (ps.uuid ≡ k))

pub record Inv (s : Previews) : Type 0 where
  pub distinct : Distinct s.ids
  pub stored : Stored s.pictures s.ids
  -- and there are no other previews
  pub only : (k : Text) → contains k s.ids ≡ false → lookup k s.pictures ≡ none

pub new-Inv : (limit : ℕ) → Inv (new_previews limit)
unfolding new_previews
new-Inv limit = record { distinct = tt; stored = tt; only = λ k h. refl }

contains-drop_last :
    (k : Text) (ids : List Text) → contains k ids ≡ false → contains k (drop_last ids) ≡ false
contains-drop_last k [] h = refl
contains-drop_last k (i ∷ []) h = refl
contains-drop_last k (i ∷ j ∷ ids) h = ground (arith, contains-drop_last k (j ∷ ids))

Distinct-drop_last : (ids : List Text) → Distinct ids → Distinct (drop_last ids)
Distinct-drop_last [] d = tt
Distinct-drop_last (i ∷ []) d = tt
Distinct-drop_last (i ∷ j ∷ ids) d =
    (contains-drop_last i (j ∷ ids) d.0, Distinct-drop_last (j ∷ ids) d.1)

contains-last_self :
    (ids : List Text) (old : Text) → get_last? ids ≡ some old → contains old ids ≡ true
contains-last_self [] old h = cc
contains-last_self (i ∷ []) old h = ground (arith, text_eqb_iff i old)
contains-last_self (i ∷ j ∷ ids) old h = ground (arith, contains-last_self (j ∷ ids) old h)

-- The last identifier is none of the others.
last-ne :
    (ids : List Text) (old : Text)
    → get_last? ids ≡ some old
    → Distinct ids
    → contains old (drop_last ids) ≡ false
last-ne [] old h d = refl
last-ne (i ∷ []) old h d = refl
last-ne (i ∷ j ∷ ids) old h d =
    ground
      (arith, text_eqb_iff i old, contains-last_self (j ∷ ids) old h, last-ne (j ∷ ids) old h d.1)

-- An identifier that is gone was the last one.
contains-last :
    (k : Text) (ids : List Text) (old : Text)
    → get_last? ids ≡ some old
    → contains k (drop_last ids) ≡ false
    → (old == k) ≡ false
    → contains k ids ≡ false
contains-last k [] old h c n = refl
contains-last k (i ∷ []) old h c n = ground arith
contains-last k (i ∷ j ∷ ids) old h c n = ground (arith, contains-last k (j ∷ ids) old h)

Stored-erase :
    (old : Text) (m : List (Text × Pictures)) (ids : List Text)
    → contains old ids ≡ false
    → Stored m ids
    → Stored (erase old m) ids
Stored-erase old m [] c h = tt
Stored-erase old m (k ∷ ks) c ((ps, found, named), h) = (
  (ps, lookup-erase old k m ∙ ground (arith, text_eqb_iff k old, text_eqb_iff old k), named),
  Stored-erase old m ks (ground arith) h,
)

-- One round of the loop.
drop_oldest-Inv :
    (s : Previews) (old : Text)
    → get_last? s.ids ≡ some old
    → Inv s
    → Inv (record s { ids = drop_last s.ids; pictures = erase old s.pictures })
drop_oldest-Inv s old e v = record {
  distinct = Distinct-drop_last s.ids v.distinct;
  stored =
      Stored-erase old s.pictures (drop_last s.ids) (last-ne s.ids old e v.distinct)
        (All-drop_last _ s.ids v.stored);
  only = λ k h. gone k h (Bool-cases (old == k));
}
  where
    gone :
        (k : Text)
        → contains k (drop_last s.ids) ≡ false
        → ((old == k) ≡ true) ⊎ ((old == k) ≡ false)
        → lookup k (erase old s.pictures) ≡ none
    gone k h (inl same) = lookup-erase old k s.pictures ∙ rw same
    gone k h (inr other) =
        lookup-erase old k s.pictures ∙ rw other (v.only k (contains-last k s.ids old e h other))

get_last?-none {ℓ} : {A : Type ℓ} (xs : List A) → get_last? xs ≡ none → length xs ≡ 0
get_last?-none [] h = refl
get_last?-none (x ∷ []) h = cc
get_last?-none (x ∷ y ∷ xs) h = absurd (omega (arith, get_last?-none (y ∷ xs) h))

take-drop_last {ℓ} :
    {A : Type ℓ} (n : ℕ) (xs : List A) → n < length xs → take n (drop_last xs) ≡ take n xs
take-drop_last zero xs h = refl
take-drop_last (suc n) [] h = refl
take-drop_last (suc n) (x ∷ []) h = absurd (omega arith)
take-drop_last (suc n) (x ∷ y ∷ xs) h = ap (◌∷◌ x) (take-drop_last n (y ∷ xs) (omega arith))

take_long {ℓ} : {A : Type ℓ} (n : ℕ) (xs : List A) → length xs ≤ n → take n xs ≡ xs
take_long zero [] h = refl
take_long zero (x ∷ xs) h = absurd (omega arith)
take_long (suc n) [] h = refl
take_long (suc n) (x ∷ xs) h = ap (◌∷◌ x) (take_long n xs (omega arith))

-- With fuel for every identifier the loop ends by its test, and leaves the newest ones.
pub trim_lem :
    (fuel : ℕ) (s : Previews)
    → length s.ids ≤ fuel
    → Inv s
    → Inv (trim fuel s)
      × ((trim fuel s).ids ≡ take s.cache_limit s.ids)
      × ((trim fuel s).cache_limit ≡ s.cache_limit)
      × ((trim fuel s).seq ≡ s.seq)
unfolding trim
trim_lem zero s h v = (v, sym (take_long s.cache_limit s.ids (omega arith)), refl, refl)
trim_lem (suc fuel) s h v = elim (Bool-cases (ltb s.cache_limit (length s.ids))) [
  | inr small ↦ rw small (v, sym (take_long s.cache_limit s.ids (ground arith)), refl, refl)
  | inl big ↦ elim (Option-cases (get_last? s.ids)) [
    | inl e ↦ absurd (ground (arith, get_last?-none s.ids e))
    | inr (old, e) ↦
        let t = record s { ids = drop_last s.ids; pictures = erase old s.pictures } in
        let (inv, kept, same, counted) =
          trim_lem fuel t (omega (arith, length-drop_last s.ids)) (drop_oldest-Inv s old e v) in
        rw (big, e) (inv, kept ∙ take-drop_last s.cache_limit s.ids (ltb→lt _ _ big), same, counted)
  ]
]

pub contains-take :
    (k : Text) (n : ℕ) (ids : List Text) → contains k (take n ids) ≡ true → contains k ids ≡ true
contains-take k zero ids h = cc
contains-take k (suc n) [] h = cc
contains-take k (suc n) (i ∷ ids) h = ground (arith, contains-take k n ids)

-- The loop leaves the previews that it keeps as they were.
pub lookup-trim :
    (fuel : ℕ) (s : Previews) (k : Text)
    → length s.ids ≤ fuel
    → Inv s
    → contains k (take s.cache_limit s.ids) ≡ true
    → lookup k (trim fuel s).pictures ≡ lookup k s.pictures
unfolding trim
lookup-trim zero s k h v c = refl
lookup-trim (suc fuel) s k h v c = elim (Bool-cases (ltb s.cache_limit (length s.ids))) [
  | inr small ↦ rw small
  | inl big ↦ elim (Option-cases (get_last? s.ids)) [
    | inl e ↦ absurd (ground (arith, get_last?-none s.ids e))
    | inr (old, e) ↦
        let t = record s { ids = drop_last s.ids; pictures = erase old s.pictures } in
        let c' : contains k (take s.cache_limit (drop_last s.ids)) ≡ true =
          rw (take-drop_last s.cache_limit s.ids (ltb→lt _ _ big)) c in
        let kept =
          lookup-trim fuel t k (omega (arith, length-drop_last s.ids)) (drop_oldest-Inv s old e v)
            c' in
        let there = contains-take k s.cache_limit (drop_last s.ids) c' in
        rw (big, e)
          (kept
            ∙ lookup-erase old k s.pictures
            ∙ ground (arith, text_eqb_iff old k, last-ne s.ids old e v.distinct))
  ]
]
