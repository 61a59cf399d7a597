-- ===== src/Server/Urls.antt =====
-- Which of the addresses that previews list reach the handler of pictures (src/main.cpp).
use beast_examples.Common.{
  ℕ, zero, suc, ◌+◌, ◌≤◌, ◌<◌, ◌≡◌, ◌≢◌, refl, ap, sym, ◌∙◌, Bool, true, false, List, [], ◌∷◌, ◌++◌,
  length, get_elem?, get_last?, drop_last, is_empty, All, append_assoc, Text, codes, some, arith,
  Bool-cases, inl, inr,
}
use beast_examples.Common.Decimal.{to_string, IsDigit, to_string-snoc}
use beast_examples.Preview.Defs.{
  PictureView, Pictures, picture_url, track_urls_from, get_track_urls,
}
use beast_examples.Server.{picture, routes, first_match, resolve}

-- The pattern of the route for pictures.
abbrev pub picture_pattern : Text
picture_pattern = codes "^/api/v1/realtime/preview/picture/[a-f0-9-]+/(snaps|tracks)/[0-9]$"

-- What its end, `/[0-9]$`, asks of a path: the last character but one is a slash.
abbrev pub EndsInDigit : (Text → Text → Bool) → Type 0
EndsInDigit matches =
    (path : Text) → matches path picture_pattern ≡ true → get_last? (drop_last path) ≡ some b'/'

drop_last-snoc : (t : Text) (c : ℕ) → drop_last (t ++ c ∷ []) ≡ t
drop_last-snoc [] c = refl
drop_last-snoc (d ∷ []) c = refl
drop_last-snoc (d ∷ e ∷ t) c = ap (◌∷◌ d) (drop_last-snoc (e ∷ t) c)

get_last?-append : (s t : Text) → is_empty t ≡ false → get_last? (s ++ t) ≡ get_last? t
get_last?-append [] t h = refl
get_last?-append (c ∷ []) [] h = cc
get_last?-append (c ∷ []) (d ∷ t) h = refl
get_last?-append (c ∷ e ∷ s) t h = get_last?-append (e ∷ s) t h

-- The last digit is no slash.
get_last?-IsDigit : (t : Text) → All IsDigit t → get_last? t ≢ some b'/'
get_last?-IsDigit [] h e = cc
get_last?-IsDigit (c ∷ []) ((low, _), _) e = ground arith
get_last?-IsDigit (c ∷ d ∷ t) (_, h) e = get_last?-IsDigit (d ∷ t) h e

before_last :
    (lead front : Text) (d : ℕ)
    → is_empty front ≡ false
    → All IsDigit front
    → get_last? (drop_last ((lead ++ front) ++ d ∷ [])) ≢ some b'/'
before_last lead front d some_digits digits h = get_last?-IsDigit front digits (
    sym (get_last?-append lead front some_digits)
    ∙ ap get_last? (sym (drop_last-snoc (lead ++ front) d))
    ∙ h)

split_url :
    (uuid kind : Text) (i : ℕ) (front : Text) (d : ℕ)
    → to_string i ≡ front ++ d ∷ []
    → ((codes "/api/v1/realtime/preview/picture/" ++ (uuid ++ kind)) ++ front) ++ d ∷ []
      ≡ picture_url uuid kind i
split_url uuid kind i front d e =
    append_assoc (codes "/api/v1/realtime/preview/picture/" ++ (uuid ++ kind)) front (d ∷ [])
    ∙ append_assoc (codes "/api/v1/realtime/preview/picture/") (uuid ++ kind) (front ++ d ∷ [])
    ∙ ap (λ t. codes "/api/v1/realtime/preview/picture/" ++ t)
        (append_assoc uuid kind (front ++ d ∷ []) ∙ ap (λ t. uuid ++ (kind ++ t)) (sym e))

-- The address of a picture from number 10 on does not end in a slash and a digit.
two_digits :
    (uuid kind : Text) (i : ℕ)
    → 10 ≤ i
    → get_last? (drop_last (picture_url uuid kind i)) ≢ some b'/'
two_digits uuid kind i big h =
    let (front, d, e, some_digits, digits) = to_string-snoc i (ground arith) in
    before_last (codes "/api/v1/realtime/preview/picture/" ++ (uuid ++ kind)) front d some_digits
      digits (ap (λ t. get_last? (drop_last t)) (split_url uuid kind i front d e) ∙ h)

get_elem?-track_urls_from :
    (uuid : Text) (i j : ℕ) (vs : List PictureView)
    → j < length vs
    → get_elem? (track_urls_from uuid i vs) j ≡ some (picture_url uuid (codes "/tracks/") (i + j))
unfolding track_urls_from
get_elem?-track_urls_from uuid i j [] h = absurd (omega arith)
get_elem?-track_urls_from uuid i zero (v ∷ vs) h =
    ap (λ k. some (picture_url uuid (codes "/tracks/") k)) (omega arith)
get_elem?-track_urls_from uuid i (suc j) (v ∷ vs) h =
    get_elem?-track_urls_from uuid (i + 1) j vs (omega arith)
    ∙ ap (λ k. some (picture_url uuid (codes "/tracks/") k)) {y = i + suc j} (omega arith)

module _ (matches : Text → Text → Bool) (ends : EndsInDigit matches) where
  unmatched :
      (path : Text)
      → get_last? (drop_last path) ≢ some b'/'
      → resolve matches path routes ≢ some picture
  unfolding resolve first_match routes
  unmatched path h e = elim (Bool-cases (matches path picture_pattern)) [
    | inl y ↦ h (ends path y)
    | inr n1 ↦ ground arith
  ]

  -- The addresses of the tracks from number 10 on are listed with the others, but a request for one
  -- is not resolved to the handler of pictures, whose pattern ends in one digit.
  pub resolve-get_track_urls :
      (ps : Pictures) (i : ℕ)
      → 10 ≤ i
      → i < length ps.tracks
      → (url : Text) × (get_elem? (get_track_urls ps) i ≡ some url)
        × (resolve matches url routes ≢ some picture)
  unfolding get_track_urls
  resolve-get_track_urls ps i big listed = (
    picture_url ps.uuid (codes "/tracks/") i,
    get_elem?-track_urls_from ps.uuid 0 i ps.tracks listed
        ∙ ap (λ k. some (picture_url ps.uuid (codes "/tracks/") k)) (omega arith),
    unmatched (picture_url ps.uuid (codes "/tracks/") i)
        (two_digits ps.uuid (codes "/tracks/") i big),
  )
