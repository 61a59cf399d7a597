-- ===== src/App/Pictures.antt =====
-- What a request to post a picture keeps of the cache and of the store of previews (src/main.cpp).
use beast_examples.Common.{
  ◌%◌, ◌^◌, ℕ, ◌+◌, ◌≡◌, ◌∙◌, Bool, true, false, text_eq, nat_eq, List, [], ◌∷◌, All, Text, Option,
  Result, ok, throw, arith, Result-cases, inl, inr,
}
use beast_examples.Json.{JsonLib}
use beast_examples.Http.{Request}
use beast_examples.Picture.{Wrapper}
use beast_examples.Preview.Defs.{PictureView, Previews, create_preview}
use beast_examples.Preview.Drawing.{Draws, Drawn, fresh, older, All-take}
use beast_examples.Preview.Trimming
use beast_examples.Preview.Trimming.{contains, new-Inv}
use beast_examples.Preview.Store.{create_preview-Inv}
use beast_examples.Cache.{process, store, cleanup, Cache, add_picture, made, processed}
use beast_examples.Cache.Cleanup
use beast_examples.Cache.Complete.{Leaves, add_picture-Leaves}
use beast_examples.Server.{parse_picture, post_handler}

-- What is kept of the store of previews: it is consistent, its identifiers were drawn by the first
-- `turn` requests, and its limit is `picPreviewCacheNum`.
abbrev pub Held : (ℕ → Option Text) → ℕ → Previews → Type 0
Held random turn p = Trimming.Inv p × All (Drawn random turn) p.ids × (p.cache_limit ≡ 30)

pub older-Held :
    (random : ℕ → Option Text) (turn : ℕ) (p : Previews)
    → Held random turn p
    → Held random (turn + 1) p
older-Held random turn p (v, named, limit) = (v, older random turn p.ids named, limit)

create-Held :
    (now : ℕ) (random : ℕ → Option Text) (generate : Text → Option Text) (turn : ℕ)
    (views : List PictureView) (p : Previews)
    → Draws random
    → Held random turn p
    → Held random (turn + 1) (create_preview now (random turn) generate views p)
create-Held now random generate turn views p d (v, named, limit) =
    let new = fresh random generate turn ((p.seq + 1) % 2 ^ 64) p.ids d named in
    let (inv, ids, same, _) = create_preview-Inv now (random turn) generate views p v new in
    let (t, e) = d.drawn turn in
    (
      inv,
      rw ids
          (All-take _ p.cache_limit _ ((turn, omega arith, rw e), older random turn p.ids named)),
      same ∙ limit,
    )

-- The previews after a picture was added are the ones before, or have one more that was made.
pub data Outcome (create : List PictureView → Previews → Previews) (p : Previews)
    : Previews → Type 0 where
  unchanged : Outcome create p p
  created : (views : List PictureView) → Outcome create p (create views p)

Outcome-made :
    (create : List PictureView → Previews → Previews) (t : Cache) (p : Previews)
    (r : Result (Cache × List PictureView))
    → Outcome create p (made create t p r).1
Outcome-made create t p (throw e) = unchanged
Outcome-made create t p (ok (u, [])) = unchanged
Outcome-made create t p (ok (u, v ∷ vs)) = created (v ∷ vs)

Outcome-add_picture :
    (now : ℕ) (create : List PictureView → Previews → Previews) (w : Wrapper) (s : Cache)
    (p : Previews)
    → Outcome create p (add_picture now create w s p).1
unfolding add_picture
Outcome-add_picture now create w s p = go (store w (cleanup now s))
  where
    go : (r : Cache × Result (Unit {0})) → Outcome create p (processed create p r).1
    go (t, throw e) = unchanged
    go (t, ok u) = Outcome-made create t p (process t)

Outcome-Held :
    (random : ℕ → Option Text) (turn : ℕ) (create : List PictureView → Previews → Previews)
    (p q : Previews)
    → ((views : List PictureView) → Held random (turn + 1) (create views p))
    → Held random turn p
    → Outcome create p q
    → Held random (turn + 1) q
Outcome-Held random turn create p q made h unchanged = older-Held random turn p h
Outcome-Held random turn create p q made h (created views) = made views

Leaves-Inv :
    (b : Bool) (p : Previews) (r : Cache × Previews × Result (Unit {0}))
    → Leaves b p r
    → Cleanup.Inv r.0
Leaves-Inv true p (t, q, r) (v, _, _) = v
Leaves-Inv false p (t, q, r) (v, _, _) = v

-- What a handler leaves of the cache and the previews.
abbrev pub Pictured : (ℕ → Option Text) → ℕ → Cache × Previews → Type 0
Pictured random turn (c, p) = Cleanup.Inv c × Held random turn p

pub post_handler-Pictured :
    (J : JsonLib) (decode : Text → Result Text) (encode : Text → Text) (now : ℕ)
    (random : ℕ → Option Text) (generate : Text → Option Text) (turn : ℕ) (req : Request)
    (c : Cache) (p : Previews)
    → Draws random
    → Pictured random turn (c, p)
    → Pictured random
        (turn + 1)
        (post_handler J decode encode now (create_preview now (random turn) generate) req (c, p)).0
unfolding post_handler
post_handler-Pictured J decode encode now random generate turn req c p d (v, h) =
    elim (Result-cases (parse_picture J decode encode now req)) [
      | inr (e, bad) ↦ rw (bad, post_handler) (v, older-Held random turn p h)
      | inl (w, good) ↦
          rw (good, post_handler)
            (
              Leaves-Inv _ p _
                  (add_picture-Leaves now (create_preview now (random turn) generate) w c p v),
              Outcome-Held random turn (create_preview now (random turn) generate) p _
                  (λ views. create-Held now random generate turn views p d h) h
                  (Outcome-add_picture now (create_preview now (random turn) generate) w c p),
            )
    ]

-- A request to post a picture makes one preview at most.
pub post_handler-Outcome :
    (J : JsonLib) (decode : Text → Result Text) (encode : Text → Text) (now : ℕ)
    (create : List PictureView → Previews → Previews) (req : Request) (c : Cache) (p : Previews)
    → Outcome create p (post_handler J decode encode now create req (c, p)).0.1
unfolding post_handler
post_handler-Outcome J decode encode now create req c p =
    elim (Result-cases (parse_picture J decode encode now req)) [
      | inr (e, bad) ↦ rw (bad, post_handler) unchanged
      | inl (w, good) ↦ rw (good, post_handler) (Outcome-add_picture now create w c p)
    ]
