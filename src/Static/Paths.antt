-- ===== src/Static/Paths.antt =====
-- Where the path of a served file lies (src/StaticRequestHandler.cpp).
use beast_examples.Common.{
  ℕ, zero, suc, ◌+◌, ◌≤◌, ◌≡◌, refl, ap, sym, ◌∙◌, inl, inr, Bool, true, false, if◌then◌else◌, [],
  ◌∷◌, ◌++◌, length, length-append, append_assoc, drop_last, Text, codes, some, arith, Bool-cases,
  subst,
}
use beast_examples.Http.{Request}
use beast_examples.Static.{
  path_concat, has_dots, starts_with_dot, starts_with_slash, ends_in_slash, find_index, first_path,
  illegal,
}

has_dots-append :
    (q s : Text)
    → has_dots q ≡ false
    → starts_with_dot s ≡ false
    → has_dots s ≡ false
    → has_dots (q ++ s) ≡ false
has_dots-append [] s h d k = k
has_dots-append (c ∷ []) s h d k = rw (d, k) (ground arith)
has_dots-append (c ∷ e ∷ q) s h d k = ground (arith, has_dots-append (e ∷ q) s)

starts_with_slash-append :
    (q s : Text) → starts_with_slash q ≡ true → starts_with_slash (q ++ s) ≡ true
starts_with_slash-append [] s h = cc
starts_with_slash-append (c ∷ q) s h = h

-- The document root without a slash at its end.
abbrev pub trimmed : Text → Text
trimmed root = if ends_in_slash root then drop_last root else root

-- The path is the document root followed by a slash and more, and nothing behind the root goes up.
pub record Confined (root p : Text) : Type 0 where
  pub below : Text
  pub whole : p ≡ trimmed root ++ below
  pub slash : starts_with_slash below ≡ true
  pub no_dots : has_dots below ≡ false

append-Confined :
    (root p s : Text)
    → starts_with_dot s ≡ false
    → has_dots s ≡ false
    → Confined root p
    → Confined root (p ++ s)
append-Confined root p s d k c = record {
  below = c.below ++ s;
  whole = ap (λ x. x ++ s) c.whole ∙ append_assoc (trimmed root) c.below s;
  slash = starts_with_slash-append c.below s c.slash;
  no_dots = has_dots-append c.below s c.no_dots d k;
}

path_concat-trimmed : (root path : Text) → path_concat root path ≡ trimmed root ++ path
unfolding path_concat
path_concat-trimmed [] path = refl
path_concat-trimmed (c ∷ root) path = refl

pub first_path-Confined :
    (root : Text) (req : Request) → illegal req.target ≡ false → Confined root (first_path root req)
unfolding illegal
first_path-Confined root req legal = elim (Bool-cases (ends_in_slash req.target)) [
  | inl dir ↦ rw dir (append-Confined root _ (codes "index.html") refl refl here)
  | inr plain ↦ rw plain here
]
  where
    here : Confined root (path_concat root req.target)
    here = record {
      below = req.target;
      whole = path_concat-trimmed root req.target;
      slash = ground arith;
      no_dots = ground arith;
    }

module _ (is_directory : Text → Bool) where
  -- The loop appends `/index.html` so many times, once for each directory on its way.
  abbrev pub Descends : ℕ → Text → Text → Type 0
  Descends zero path p = (is_directory path ≡ false) × (p ≡ path)
  Descends (suc k) path p = (is_directory path ≡ true) × Descends k (path ++ codes "/index.html") p

  pub Descends-Confined :
      (root : Text) (k : ℕ) (path p : Text)
      → Descends k path p
      → Confined root path
      → Confined root p
  Descends-Confined root zero path p (_, e) c = subst (Confined root) (sym e) c
  Descends-Confined root (suc k) path p (_, d) c =
      Descends-Confined root k (path ++ codes "/index.html") p d
        (append-Confined root path (codes "/index.html") refl refl c)

  pub find_index-Descends :
      (fuel : ℕ) (path p : Text)
      → find_index is_directory fuel path ≡ some p
      → (k : ℕ) × Descends k path p
  unfolding find_index
  find_index-Descends zero path p h = cc
  find_index-Descends (suc fuel) path p h = elim (Bool-cases (is_directory path)) [
    | inl dir ↦
        let (k, d) = find_index-Descends fuel (path ++ codes "/index.html") p (rw dir at h) in
        (suc k, (dir, d))
    | inr other ↦ (zero, (other, cc (rw other at h)))
  ]

  -- With enough fuel the loop ends, since no long path is a directory.
  pub find_index-ends :
      (limit : ℕ) (long : (p : Text) → limit ≤ length p → is_directory p ≡ false) (fuel : ℕ)
      (path : Text)
      → limit ≤ length path + fuel
      → (p : Text) × (find_index is_directory (suc fuel) path ≡ some p)
  unfolding find_index
  find_index-ends limit long zero path h = (path, rw (long path (omega arith)))
  find_index-ends limit long (suc fuel) path h = elim (Bool-cases (is_directory path)) [
    | inr other ↦ (path, rw other)
    | inl dir ↦
        let (p, e) =
          find_index-ends limit long fuel (path ++ codes "/index.html")
            (omega (arith, length-append path (codes "/index.html"))) in
        (p, rw dir e)
  ]

  pub Descends-file : (k : ℕ) (path p : Text) → Descends k path p → is_directory p ≡ false
  Descends-file zero path p (f, e) = subst (λ x. is_directory x ≡ false) (sym e) f
  Descends-file (suc k) path p (_, d) = Descends-file k (path ++ codes "/index.html") p d
