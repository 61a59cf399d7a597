-- ===== src/Server/Laws.antt =====
-- The handler that a path reaches, and what posting a picture does (src/main.cpp).
use beast_examples.Common.{
  ◌⊎◌, inl, inr, none, get_last?, Bool-cases, refl, ℕ, ◌%◌, ◌≡◌, Bool, true, false, List, [], ◌∷◌,
  ◌++◌, All, Text, codes, some, Result, ok, throw, runtime_error,
}
use beast_examples.Json.{JsonLib, JsonLaws}
use beast_examples.Http.{Request}
use beast_examples.Picture.{PostPicture, Wrapper, bytes_of, to_json}
use beast_examples.Picture.Laws.{Fits, DecodesPadding, from_json-to_json_exact}
use beast_examples.Preview.Defs.{PictureView, Previews}
use beast_examples.Cache.{Cache, add_picture}
use beast_examples.Cache.Cleanup.{Inv}
use beast_examples.Cache.Complete.{Leaves, has_place, add_picture-Leaves}
use beast_examples.Server.{first_match, resolve, post_handler, added}

module _ {ℓ} {H : Type ℓ} (matches : Text → Text → Bool) where
  -- No pattern of the list matches.
  abbrev pub NoneMatches : Text → List (Text × H) → Type 0
  NoneMatches path handlers = All (λ entry. matches path entry.0 ≡ false) handlers

  first_match-append :
      (path pattern : Text) (handler : H) (before after : List (Text × H))
      → NoneMatches path before
      → matches path pattern ≡ true
      → first_match matches path (before ++ (pattern, handler) ∷ after) ≡ some handler
  unfolding first_match
  first_match-append path pattern handler [] after miss_all hit = rw hit
  first_match-append path pattern handler ((p, h) ∷ before) after (miss, miss_all) hit =
      rw miss (first_match-append path pattern handler before after miss_all hit)

  first_match-missed :
      (path pattern : Text) (handler : H) (before : List (Text × H))
      → NoneMatches path before
      → matches path pattern ≡ false
      → first_match matches path (before ++ (pattern, handler) ∷ []) ≡ none
  unfolding first_match
  first_match-missed path pattern handler [] miss_all miss = rw miss
  first_match-missed path pattern handler ((p, h) ∷ before) (m, miss_all) miss =
      rw m (first_match-missed path pattern handler before miss_all miss)

  get_last?-snoc :
      (pattern : Text) (handler : H) (before : List (Text × H))
      → get_last? (before ++ (pattern, handler) ∷ []) ≡ some (pattern, handler)
  get_last?-snoc pattern handler [] = refl
  get_last?-snoc pattern handler (e ∷ []) = refl
  get_last?-snoc pattern handler (e ∷ f ∷ before) = get_last?-snoc pattern handler (f ∷ before)

  -- A path is resolved to the first handler whose pattern it matches, whatever is registered behind
  -- that, and to the last handler if it matches no pattern.
  pub resolve-append :
      (path pattern : Text) (handler : H) (before after : List (Text × H))
      → NoneMatches path before
      → (matches path pattern ≡ true) ⊎ (after ≡ [])
      → resolve matches path (before ++ (pattern, handler) ∷ after) ≡ some handler
  unfolding resolve
  resolve-append path pattern handler before after miss_all (inl hit) =
      rw (first_match-append path pattern handler before after miss_all hit, resolve)
  resolve-append path pattern handler before after miss_all (inr e) =
      elim (Bool-cases (matches path pattern)) [
        | inl hit ↦ rw (first_match-append path pattern handler before after miss_all hit, resolve)
        | inr miss ↦ rw e (
            rw (first_match-missed path pattern handler before miss_all miss, resolve)
              (rw (get_last?-snoc pattern handler before)))
      ]

module _ (J : JsonLib) (laws : JsonLaws J) (encode : Text → Text)
    (decode : Text → Result Text) where
  -- The picture that is read back.
  abbrev pub wrapped : ℕ → PostPicture → Wrapper
  wrapped now p = record { picture = record p { pixels = some (bytes_of p) }; made_at = now }

  -- The reply to a posted picture.
  abbrev pub posted : Bool → Result J.Json
  posted true = ok J.null
  posted false = throw (runtime_error (codes "at"))

  added-posted :
      (b : Bool) (p : Previews) (r : Cache × Previews × Result (Unit {0}))
      → Leaves b p r
      → Inv (added J decode r).0.0 × ((added J decode r).1 ≡ posted b)
  added-posted true p (c, q, r) (v, e, _) = (v, rw e)
  added-posted false p (c, q, r) (v, e, _) = (v, rw e)

  -- What a posted picture in its JSON form does is what `addPicture` does with it.
  pub post_handler-add_picture :
      (now : ℕ) (create : List PictureView → Previews → Previews) (req : Request) (c : Cache)
      (q : Previews) (p : PostPicture)
      → Fits p
      → DecodesPadding J laws encode decode (bytes_of p)
      → p.size % 3 ≡ 0
      → J.parse req.body ≡ ok (to_json J encode decode p)
      → post_handler J decode encode now create req (c, q)
        ≡ added J decode (add_picture now create (wrapped now p) c q)
  unfolding post_handler
  post_handler-add_picture now create req c q p fits pad whole body =
      rw (body, from_json-to_json_exact J laws encode decode p fits pad, post_handler)

  -- If a picture is posted in its JSON form, whose fields fit their types and whose size is
  -- a multiple of 3 (so that nothing is written behind its buffer), the cache stays well-formed, and the request succeeds, unless it is a body picture of a camera above 3: then
  -- `std::runtime_error` is thrown.
  pub post_handler-to_json :
      (now : ℕ) (create : List PictureView → Previews → Previews) (req : Request) (c : Cache)
      (q : Previews) (p : PostPicture)
      → Fits p
      → DecodesPadding J laws encode decode (bytes_of p)
      → p.size % 3 ≡ 0
      → J.parse req.body ≡ ok (to_json J encode decode p)
      → Inv c
      → let (s, r) = post_handler J decode encode now create req (c, q) in
        Inv s.0 × (r ≡ posted (has_place (wrapped now p)))
  post_handler-to_json now create req c q p fits pad whole body v =
      rw (post_handler-add_picture now create req c q p fits pad whole body) (
        added-posted (has_place (wrapped now p)) q (add_picture now create (wrapped now p) c q)
          (add_picture-Leaves now create (wrapped now p) c q v))
