-- ===== src/Cache/Yielding.antt =====
-- Which views the cache hands on (src/PictureCache.cpp).
use beast_examples.Common.{
  ℕ, refl, Bool, true, false, Bool-cases, inl, inr, if◌then◌else◌, leb, List, [], ◌∷◌, ◌++◌, length,
  is_empty, Result, ok, throw, ◌>>=◌, All, All-append, All-get_elem?, All-map, All-lookup, Gives,
  ok-Gives, bind-Gives, or_throw-Gives, nat_eq, get_elem?,
}
use beast_examples.Common.Assoc.{lookup, erase}
use beast_examples.Picture.{Wrapper}
use beast_examples.Preview.Defs.{PictureView, Previews, view_of}
use beast_examples.Cache.{
  Lines, Cache, cleanup, at_index, at_object, has_empty, post_line, post_lines, try_post, paired,
  try_all, process, store, made, processed, add_picture,
}
use beast_examples.Cache.Sources.{AllLines, Holding, cleanup-Holding, store-Holding, erase-Holding}

at_index-Gives {ℓ κ} :
    {A : Type ℓ} (P : A → Type κ) (i : ℕ) (xs : List A) → All P xs → Gives P (at_index i xs)
at_index-Gives P i xs h = or_throw-Gives P (get_elem? xs i) _ (λ a. All-get_elem? P i xs a h)

at_object-Gives {ℓ κ} :
    {A : Type ℓ} (P : A → Type κ) (id : ℕ) (m : List (ℕ × A))
    → All (λ entry. P entry.1) m
    → Gives P (at_object id m)
at_object-Gives P id m h =
    or_throw-Gives P (lookup id m) _ (λ a. All-lookup (λ entry. P entry.1) id a m h)

module _ (G : Wrapper → Type 0) (V : PictureView → Type 0)
    (see : (w : Wrapper) → G w → V (view_of w.picture)) where
  first-Gives :
      (i : ℕ) (lines : Lines) → AllLines G lines → Gives G (at_index i lines >>= at_index 0)
  first-Gives i lines h =
      bind-Gives (All G) G (at_index i lines) (at_index 0) (at_index-Gives (All G) i lines h)
        (λ l k. at_index-Gives G 0 l k)

  post_line-Gives :
      (id : ℕ) (s : Cache) (line : List Wrapper)
      → Holding G s
      → All G line
      → Gives (All V) (post_line id s line)
  unfolding post_line
  post_line-Gives id s line h k =
      bind-Gives G (All V) _ _ (at_object-Gives G id s.faces h.faces) λ face f.
        bind-Gives (AllLines G) (All V) _ _ (at_object-Gives (AllLines G) id s.bodies h.bodies)
          λ lines ls. bind-Gives G (All V) _ _ (first-Gives 0 lines ls) λ b0 c0.
            bind-Gives G (All V) _ _ (first-Gives 1 lines ls) λ b1 c1.
              bind-Gives G (All V) _ _ (first-Gives 2 lines ls) λ b2 c2.
                bind-Gives G (All V) _ _ (first-Gives 3 lines ls) λ b3 c3.
                  bind-Gives G (All V) _ _ (at_index-Gives G 0 line k) λ l0 k0.
                    bind-Gives G (All V) _ _ (at_index-Gives G 1 line k) λ l1 k1.
                      bind-Gives G (All V) _ _ (at_index-Gives G 2 line k) λ l2 k2.
                        bind-Gives G (All V) _ _ (at_index-Gives G 3 line k) λ l3 k3.
                          bind-Gives G (All V) _ _ (at_index-Gives G 4 line k) λ l4 k4.
                            bind-Gives G (All V) _ _ (at_index-Gives G 5 line k) λ l5 k5.
                              ok-Gives (All V) _ (
                                All-map G V (λ w. view_of w.picture) see
                                  (face ∷ b0 ∷ b1 ∷ b2 ∷ b3 ∷ l0 ∷ l1 ∷ l2 ∷ l3 ∷ l4 ∷ l5 ∷ [])
                                  (
                                    f,
                                    (c0, (c1, (c2, (c3, (k0, (k1, (k2, (k3, (k4, (k5, tt)))))))))),
                                  ))

  post_lines-Gives :
      (id : ℕ) (s : Cache) (lines : Lines) (pvs : List PictureView)
      → Holding G s
      → AllLines G lines
      → All V pvs
      → Gives (All V) (post_lines id s lines pvs)
  unfolding post_lines
  post_lines-Gives id s [] pvs h ls vs = ok-Gives (All V) pvs vs
  post_lines-Gives id s (line ∷ lines) pvs h (l, ls) vs = elim (Bool-cases (leb 6 (length line))) [
    | inr short ↦ rw short (post_lines-Gives id s lines pvs h ls vs)
    | inl long ↦ rw long (
        bind-Gives (All V) (All V) (post_line id s line) _ (post_line-Gives id s line h l)
          (λ more ms. post_lines-Gives id s lines (pvs ++ more) h ls (All-append V pvs more vs ms)))
  ]

  -- A cache and views that are as they should be.
  abbrev pub Yield : Cache × List PictureView → Type 0
  Yield (s, pvs) = Holding G s × All V pvs

  kept_or_erased :
      (id : ℕ) (s : Cache) (pvs : List PictureView) (b : Bool)
      → Holding G s
      → All V pvs
      → Yield
          (if b then s else record { bodies = erase id s.bodies; faces = erase id s.faces }, pvs)
  kept_or_erased id s pvs true h vs = (h, vs)
  kept_or_erased id s pvs false h vs = (erase-Holding G id s h, vs)

  try_post-Gives :
      (id : ℕ) (s : Cache) (pvs : List PictureView)
      → Holding G s
      → All V pvs
      → Gives Yield (try_post id s pvs)
  unfolding try_post
  try_post-Gives id s pvs h vs =
      bind-Gives (AllLines G) Yield _ _ (at_object-Gives (AllLines G) id s.bodies h.bodies)
        λ lines ls.
          bind-Gives (All V) Yield (if has_empty lines then ok pvs else post_lines id s lines pvs) _
            (posted lines ls (has_empty lines))
            (λ more ms. ok-Gives Yield _ (kept_or_erased id s more (is_empty more) h ms))
    where
      posted :
          (lines : Lines)
          → AllLines G lines
          → (b : Bool) → Gives (All V) (if b then ok pvs else post_lines id s lines pvs)
      posted lines ls true = ok-Gives (All V) pvs vs
      posted lines ls false = post_lines-Gives id s lines pvs h ls vs

  try_all-Gives :
      (ids : List ℕ) (s : Cache) (pvs : List PictureView)
      → Holding G s
      → All V pvs
      → Gives Yield (try_all ids s pvs)
  unfolding try_all
  try_all-Gives [] s pvs h vs = ok-Gives Yield (s, pvs) (h, vs)
  try_all-Gives (id ∷ ids) s pvs h vs =
      bind-Gives Yield Yield (try_post id s pvs) _ (try_post-Gives id s pvs h vs)
        (λ r k. try_all-Gives ids r.0 r.1 (k.0) (k.1))

  process-Gives : (s : Cache) → Holding G s → Gives Yield (process s)
  unfolding process
  process-Gives s h = try_all-Gives (paired s.bodies s.faces) s [] h tt

  -- What a call of `addPicture` leaves: `P` is what each new preview keeps.
  module _ (P : Previews → Type 0) (create : List PictureView → Previews → Previews)
      (keeps : (views : List PictureView) (p : Previews)
        → All V views
        → P p
        → P (create views p)) where
    made-Holding :
        (t : Cache) (p : Previews) (r : Result (Cache × List PictureView))
        → Holding G t
        → P p
        → Gives Yield r
        → let (u, q, _) = made create t p r in Holding G u × P q
    made-Holding t p (throw e) h k g = (h, k)
    made-Holding t p (ok (u, [])) h k g = ((g (u, []) refl).0, k)
    made-Holding t p (ok (u, v ∷ vs)) h k g =
        let (h', vs') = g (u, v ∷ vs) refl in (h', keeps (v ∷ vs) p vs' k)

    processed-Holding :
        (p : Previews) (r : Cache × Result (Unit {0}))
        → Holding G r.0
        → P p
        → let (u, q, _) = processed create p r in Holding G u × P q
    processed-Holding p (t, throw e) h k = (h, k)
    processed-Holding p (t, ok u) h k = made-Holding t p (process t) h k (process-Gives t h)

    pub add_picture-Holding :
        (now : ℕ) (w : Wrapper) (s : Cache) (p : Previews)
        → G w
        → Holding G s
        → P p
        → let (u, q, _) = add_picture now create w s p in Holding G u × P q
    unfolding add_picture
    add_picture-Holding now w s p g h k =
        processed-Holding p (store w (cleanup now s))
          (store-Holding G w (cleanup now s) g (cleanup-Holding G now s h)) k
