-- ===== src/Static/Laws.antt =====
-- What a request for a file is answered with (src/StaticRequestHandler.cpp).
use beast_examples.Common.{
  ℕ, suc, ◌≤◌, ◌≡◌, refl, ap, ◌∙◌, inl, inr, Bool, true, false, ◌&&◌, ◌||◌, not, if◌then◌else◌,
  nat_eqb, [], ◌∷◌, ◌++◌, length, any, Text, codes, some, arith, Bool-cases, subst, Option-cases,
}
use beast_examples.Http.{
  Request, Response, Verb, get, head, post, other_verb, status_ok, bad_request, not_found,
  internal_server_error, Body, text, empty, file, ErrorCode, success, no_such_file, is_get, is_head,
}
use beast_examples.Static.{
  first_path, illegal, find_index, extension, mime_types, mime_of, get_mime_type, serve,
  handle_request, create_bad_request, create_not_found, create_server_error,
}
use beast_examples.Static.Paths.{
  Confined, Descends, first_path-Confined, Descends-Confined, find_index-Descends, find_index-ends,
  Descends-file,
}

-- The extension of a path is what follows its last dot, with the dot.
abbrev pub is_dot : ℕ → Bool
is_dot c = nat_eqb c b'.'

extension_none : (s : Text) → any is_dot s ≡ false → extension s ≡ []
unfolding extension
extension_none [] h = refl
extension_none (c ∷ s) h = ground (arith, extension_none s)

extension_last : (p s : Text) → any is_dot s ≡ false → extension (p ++ b'.' ∷ s) ≡ b'.' ∷ s
unfolding extension
extension_last [] s h = rw (extension_none s h)
extension_last (c ∷ p) s h = rw (extension_last p s h)

body-by_method :
    (m : Verb) (p : Text)
    → (is_get m || is_head m) ≡ true
    → ◌≡◌ {A = Body} (if is_head m then empty else file p) (if is_get m then file p else empty)
body-by_method get p h = refl
body-by_method head p h = refl
body-by_method post p h = cc
body-by_method (other_verb t) p h = cc

de_morgan : (a b : Bool) → (not a && not b) ≡ not (a || b)
de_morgan a b = ground arith

module _ (iequals : Text → Text → Bool) where
  -- The type of a file depends only on what follows the last dot of its path, and is found for that
  -- in the table.
  get_mime_type-mime_of :
      (p s : Text)
      → any is_dot s ≡ false
      → get_mime_type iequals (p ++ b'.' ∷ s) ≡ mime_of iequals (b'.' ∷ s) mime_types
  unfolding get_mime_type
  get_mime_type-mime_of p s h = ap (λ e. mime_of iequals e mime_types) (extension_last p s h)

  -- A reply that is right for the outcome of opening the file.
  abbrev pub Served : Request → Text → ErrorCode × ℕ → Response → Type 0
  Served req p (success, size) res =
      (res.status ≡ status_ok)
      × (res.content_length ≡ size)
      × (res.content_type ≡ get_mime_type iequals p)
      × (res.body ≡ (if is_get req.method then file p else empty))
  Served req p (no_such_file, size) res = res.status ≡ not_found
  Served req p (error, size) res = res.status ≡ internal_server_error

  abbrev pub is_refused : Request → Bool
  is_refused req = not (is_get req.method || is_head req.method) || illegal req.target

  module _ (message : ErrorCode → Text) where
    serve-Served :
        (req : Request) (p : Text) (opened : ErrorCode × ℕ)
        → (is_get req.method || is_head req.method) ≡ true
        → Served req p opened (serve iequals message req p opened)
    unfolding serve create_not_found create_server_error
    serve-Served req p (success, size) h = (refl, refl, refl, body-by_method req.method p h)
    serve-Served req p (no_such_file, size) h = refl
    serve-Served req p (_, size) h = refl

    serve-file :
        (req : Request) (q p : Text) (opened : ErrorCode × ℕ)
        → (serve iequals message req q opened).body ≡ file p
        → q ≡ p
    unfolding serve create_not_found create_server_error
    serve-file req q p (success, size) h = elim (Bool-cases (is_head req.method)) [
      | inl e ↦ absurd (cc (rw e at h))
      | inr e ↦ cc (rw e at h)
    ]
    serve-file req q p (no_such_file, size) h = cc
    serve-file req q p (_, size) h = cc

    module _ (is_directory : Text → Bool) (open_file : Text → ErrorCode × ℕ) where
      -- The refusal of a request, or the reply for the file that it names.
      abbrev pub Answered : Text → Request → Bool → Response → Type 0
      Answered root req true res = res.status ≡ bad_request
      Answered root req false res =
          (k : ℕ) × (p : Text) × Descends is_directory k (first_path root req) p
          × Confined root p
          × Served req p (open_file p) res

      -- If no path of `limit` characters or more is a directory, the loop over the directories ends
      -- and every request is answered: with 400 if its method is neither GET nor HEAD or its target
      -- is illegal; else for the path that its target names below the document root, with one
      -- `/index.html` for each directory on the way: the file, of the right type and length (no body
      -- for HEAD), 404 if there is none, and 500 if it cannot be opened.
      pub handle_request-Answered :
          (limit : ℕ) (root : Text) (req : Request)
          → ((p : Text) → limit ≤ length p → is_directory p ≡ false)
          → (res : Response) × (handle_request iequals message is_directory open_file
                (suc limit)
                root
                req
              ≡ some res)
            × Answered root req (is_refused req) res
      unfolding handle_request create_bad_request
      handle_request-Answered limit root req long =
          elim (Bool-cases (is_get req.method || is_head req.method)) [
            | inr other ↦ (
              create_bad_request req (codes "Unsupported method."),
              rw (de_morgan (is_get req.method) (is_head req.method), other),
              rw other,
            )
            | inl allowed ↦ elim (Bool-cases (illegal req.target)) [
              | inl bad ↦ (
                create_bad_request req (codes "Illegal request-target"),
                rw (de_morgan (is_get req.method) (is_head req.method), allowed, bad),
                rw (allowed, bad),
              )
              | inr legal ↦
                  let (p, found) =
                    find_index-ends is_directory limit long limit (first_path root req)
                      (omega arith) in
                  let (k, d) =
                    find_index-Descends is_directory (suc limit) (first_path root req) p found in
                  (
                    serve iequals message req p (open_file p),
                    rw (de_morgan (is_get req.method) (is_head req.method), allowed, legal)
                        (rw found),
                    rw (allowed, legal)
                        (
                          k,
                          p,
                          d,
                          Descends-Confined is_directory root k (first_path root req) p d
                              (first_path-Confined root req legal),
                          serve-Served req p (open_file p) allowed,
                        ),
                  )
            ]
          ]

      -- A file is served only from below the document root, by a path that does not go up, and only
      -- if it is no directory.
      pub handle_request-Confined :
          (fuel : ℕ) (root p : Text) (req : Request) (res : Response)
          → handle_request iequals message is_directory open_file fuel root req ≡ some res
          → res.body ≡ file p
          → Confined root p × (is_directory p ≡ false)
      unfolding handle_request create_bad_request
      handle_request-Confined fuel root p req res h e =
          elim (Bool-cases (is_get req.method || is_head req.method)) [
            | inr other ↦
                not_file (codes "Unsupported method.")
                  (rw (de_morgan (is_get req.method) (is_head req.method), other) at h)
            | inl allowed ↦ elim (Bool-cases (illegal req.target)) [
              | inl bad ↦
                  not_file (codes "Illegal request-target")
                    (rw (de_morgan (is_get req.method) (is_head req.method), allowed, bad) at h)
              | inr legal ↦
                  let h' =
                    rw (de_morgan (is_get req.method) (is_head req.method), allowed, legal) at h in
                  elim (Option-cases (find_index is_directory fuel (first_path root req))) [
                    | inl ended ↦ absurd (cc (rw ended at h'))
                    | inr (q, found) ↦
                        let (k, d) =
                          find_index-Descends is_directory fuel (first_path root req) q found in
                        let same : q ≡ p =
                          serve-file req q p (open_file q)
                            (ap (λ r. r.body) (some-injective (rw found at h')) ∙ e) in
                        subst (λ x. Confined root x × (is_directory x ≡ false)) same
                          (
                            Descends-Confined is_directory root k (first_path root req) q d
                                (first_path-Confined root req legal),
                            Descends-file is_directory k (first_path root req) q d,
                          )
                  ]
            ]
          ]
        where
          some-injective : {a b : Response} → some a ≡ some b → a ≡ b
          some-injective i = cc

          not_file :
              (why : Text)
              → some (create_bad_request req why) ≡ some res
              → Confined root p × (is_directory p ≡ false)
          not_file why i =
              let same : text why ≡ file p = ap (λ r. r.body) (some-injective i) ∙ e in
              absurd (cc same)
