-- ===== src/Cache/Sources.antt =====
-- Where the pictures of the cache, and the views that it hands on, come from (src/PictureCache.cpp).
use beast_examples.Common.{
  ℕ, zero, suc, ◌≡◌, refl, Bool-cases, inl, inr, ltb, List, [], ◌∷◌, length, reject, Option, none,
  some, All, All-append, All-reject, All-map, All-emplace, All-insert, All-erase, All-lookup,
  nat_eq,
}
use beast_examples.Common.Assoc.{emplace, erase}
use beast_examples.Picture.{Wrapper, is_face}
use beast_examples.Cache.{
  Lines, Cache, empty_lines, is_expired, all_lines_empty, remove_expired, remove_empty,
  remove_faces, cleanup, add_to_line, store_body, store,
}

module _ (G : Wrapper → Type 0) where
  abbrev pub AllLines : Lines → Type 0
  AllLines = All (All G)

  -- All pictures of the cache are as `G` says.
  pub record Holding (s : Cache) : Type 0 where
    pub faces : All (λ entry. G entry.1) s.faces
    pub bodies : All (λ entry. AllLines entry.1) s.bodies

  remove_expired-AllLines :
      (now : ℕ) (m : List (ℕ × Lines))
      → All (λ entry. AllLines entry.1) m
      → All (λ entry. AllLines entry.1) (remove_expired now m)
  unfolding remove_expired
  remove_expired-AllLines now [] h = tt
  remove_expired-AllLines now ((id, lines) ∷ m) (k, h) = (
    All-map (All G) (All G) (reject (is_expired now)) (λ l. All-reject G (is_expired now) l) lines
        k,
    remove_expired-AllLines now m h,
  )

  remove_empty-AllLines :
      (m : List (ℕ × Lines))
      → All (λ entry. AllLines entry.1) m
      → All (λ entry. AllLines entry.1) (remove_empty m)
  unfolding remove_empty
  remove_empty-AllLines [] h = tt
  remove_empty-AllLines ((id, lines) ∷ m) (k, h) = elim (Bool-cases (all_lines_empty lines)) [
    | inl gone ↦ rw gone (remove_empty-AllLines m h)
    | inr kept ↦ rw kept (k, remove_empty-AllLines m h)
  ]

  remove_faces-All :
      (now : ℕ) (m : List (ℕ × Wrapper))
      → All (λ entry. G entry.1) m
      → All (λ entry. G entry.1) (remove_faces now m)
  unfolding remove_faces
  remove_faces-All now [] h = tt
  remove_faces-All now ((id, w) ∷ m) (k, h) = elim (Bool-cases (is_expired now w)) [
    | inl gone ↦ rw gone (remove_faces-All now m h)
    | inr kept ↦ rw kept (k, remove_faces-All now m h)
  ]

  pub cleanup-Holding : (now : ℕ) (s : Cache) → Holding s → Holding (cleanup now s)
  unfolding cleanup
  cleanup-Holding now s h = record {
    faces = remove_faces-All now s.faces h.faces;
    bodies = remove_empty-AllLines _ (remove_expired-AllLines now s.bodies h.bodies);
  }

  add_to_line-AllLines :
      (i : ℕ) (w : Wrapper) (lines : Lines)
      → G w
      → AllLines lines
      → AllLines (add_to_line i w lines)
  add_to_line-AllLines i w [] g h = tt
  add_to_line-AllLines zero w (l ∷ ls) g (k, h) = (All-append G l (w ∷ []) k (g, tt), h)
  add_to_line-AllLines (suc i) w (l ∷ ls) g (k, h) = (k, add_to_line-AllLines i w ls g h)

  store_body-AllLines :
      (id camera : ℕ) (w : Wrapper) (m : List (ℕ × Lines)) (o : Option Lines)
      → G w
      → All (λ entry. AllLines entry.1) m
      → ((lines : Lines) → o ≡ some lines → AllLines lines)
      → All (λ entry. AllLines entry.1) (store_body id camera w m o).0
  store_body-AllLines id camera w m none g h found = h
  store_body-AllLines id camera w m (some lines) g h found =
      elim (Bool-cases (ltb camera (length lines))) [
        | inl small ↦ rw small (
            All-insert (λ entry. AllLines entry.1) id _ m
              (add_to_line-AllLines camera w lines g (found lines refl)) h)
        | inr big ↦ rw big h
      ]

  pub store-Holding : (w : Wrapper) (s : Cache) → G w → Holding s → Holding (store w s).0
  unfolding store
  store-Holding w s g h =
      let id = w.picture.object_id in
      let all : All (λ entry. AllLines entry.1) (emplace id empty_lines s.bodies) =
        All-emplace (λ entry. AllLines entry.1) id empty_lines s.bodies (tt, (tt, (tt, (tt, tt))))
          h.bodies in
      elim (Bool-cases (is_face w.picture.object_type)) [
        | inl face ↦ rw face (record {
          faces = All-insert (λ entry. G entry.1) id w s.faces g h.faces;
          bodies = h.bodies;
        })
        | inr body ↦ rw body (record {
          faces = h.faces;
          bodies =
              store_body-AllLines id w.picture.camera_id w _ _ g all
                (λ lines e. All-lookup (λ entry. AllLines entry.1) id lines _ all e);
        })
      ]

  pub erase-Holding :
      (id : ℕ) (s : Cache)
      → Holding s
      → Holding (record { bodies = erase id s.bodies; faces = erase id s.faces })
  erase-Holding id s h = record {
    faces = All-erase (λ entry. G entry.1) id s.faces h.faces;
    bodies = All-erase (λ entry. AllLines entry.1) id s.bodies h.bodies;
  }
