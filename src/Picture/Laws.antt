-- ===== src/Picture/Laws.antt =====
-- A picture survives its JSON form; what decoding its data writes.
use beast_examples.Common.{
  append-nil, unknown, if◌then◌else◌, nat_eqb, ℕ, zero, suc, ◌-◌, ◌%◌, ◌^◌, ◌<◌, ◌≡◌, refl, ap,
  subst, true, ◌&&◌, List, [], ◌∷◌, ◌++◌, length, take, replicate, Text, codes, some, Result, ok,
  ◌>>=◌, arith, ◌↔◌, beq_refl, nat_eq, text_eq, catch, length-append,
}
use beast_examples.Common.Assoc.{lookup}
use beast_examples.Json.{JsonLib, JsonLaws}
use beast_examples.Picture.{
  PostPicture, ObjectType, body, face, bytes_of, same_picture, equal_count, to_json, from_json,
  encoded_data, picture_fields, rethrow, type_eqb, type_name, type_of_name,
}

take_all {ℓ} : {A : Type ℓ} (xs ys : List A) → take (length xs) (xs ++ ys) ≡ xs
take_all [] ys = refl
take_all (x ∷ xs) ys = ap (◌∷◌ x) (take_all xs ys)

take_self {ℓ} : {A : Type ℓ} (xs : List A) → take (length xs) xs ≡ xs
take_self [] = refl
take_self (x ∷ xs) = ap (◌∷◌ x) (take_self xs)

length-replicate {ℓ} : {A : Type ℓ} (n : ℕ) (a : A) → length (replicate n a) ≡ n
length-replicate zero a = refl
length-replicate (suc n) a = ap suc (length-replicate n a)

type_of_name-type_name : (t : ObjectType) → type_of_name (type_name t) ≡ t
type_of_name-type_name body = refl
type_of_name-type_name face = refl

-- A picture compares equal to its copy.
same_picture_self :
    (p : PostPicture) → same_picture p (record p { pixels = some (bytes_of p) }) ≡ true
unfolding same_picture
same_picture_self p =
    rw
      (
        beq_refl p.height,
        beq_refl p.width,
        beq_refl p.camera_id,
        beq_refl p.timestamp,
        beq_refl p.object_id,
        beq_refl p.size,
        beq_refl (take p.size (bytes_of p)),
      )
      (type_case p.object_type)
  where
    type_case :
        (t : ObjectType)
        → (true && true && true && true && true && type_eqb t t && true && true) ≡ true
    type_case body = refl
    type_case face = refl

-- The fields fit their types, and the buffer has `size` bytes.
pub record Fits (p : PostPicture) : Type 0 where
  pub camera : p.camera_id < 2 ^ 32
  pub object_number : p.object_id < 2 ^ 32
  pub stamp : p.timestamp < 2 ^ 64
  pub wide : p.width < 2 ^ 32
  pub high : p.height < 2 ^ 32
  pub small : p.size < 2 ^ 32
  pub filled : length (bytes_of p) ≡ p.size

module _ (J : JsonLib) (laws : JsonLaws J) (encode : Text → Text)
    (decode : Text → Result Text) where
  -- Decoding a padded text gives the bytes, and a zero byte for each `=`.
  abbrev pub DecodesPadding : Text → Type 0
  DecodesPadding bytes =
      decode (encode bytes ++ replicate (equal_count (length bytes)) b'=')
      ≡ ok (bytes ++ replicate (equal_count (length bytes)) 0)

  get_nat-at :
      (bits n : ℕ) (k : Text) (fs : List (Text × J.Json))
      → n < 2 ^ bits
      → lookup k fs ≡ some (J.of_nat n)
      → (J.at k (J.object fs) >>= J.get_nat bits) ≡ ok n
  get_nat-at bits n k fs h e =
      rw (laws.at-object k fs (J.of_nat n) e) (laws.get_nat-of_nat bits n h)

  get_text-at :
      (t : Text) (k : Text) (fs : List (Text × J.Json))
      → lookup k fs ≡ some (J.of_text t)
      → (J.at k (J.object fs) >>= J.get_text) ≡ ok t
  get_text-at t k fs e = rw (laws.at-object k fs (J.of_text t) e) (laws.get_text-of_text t)

  -- The decoded data of a padded text, in a buffer of `size` bytes.
  decoded-copy :
      (p : PostPicture)
      → Fits p
      → DecodesPadding (bytes_of p)
      → (catch (decode (encoded_data J encode decode p)) rethrow)
        ≡ ok (bytes_of p ++ replicate (equal_count p.size) 0)
  unfolding encoded_data
  decoded-copy p fits d =
      let taken : take p.size (bytes_of p) ≡ bytes_of p =
        subst (λ n. take n (bytes_of p) ≡ bytes_of p) fits.filled (take_self (bytes_of p)) in
      rw (taken, ← fits.filled, d)

  pub from_json-to_json_exact :
      (p : PostPicture)
      → Fits p
      → DecodesPadding (bytes_of p)
      → from_json J encode decode (to_json J encode decode p)
        ≡ ok (record p { pixels = some (bytes_of p) }, equal_count p.size)
  unfolding from_json to_json
  from_json-to_json_exact p fits d =
      let fs = picture_fields J encode decode p in
      rw
        (
          get_nat-at 32 p.camera_id (codes "camera") fs fits.camera refl,
          get_nat-at 32 p.width (codes "width") fs fits.wide refl,
          get_nat-at 32 p.height (codes "height") fs fits.high refl,
          get_nat-at 32 p.object_id (codes "object") fs fits.object_number refl,
          get_nat-at 64 p.timestamp (codes "timestamp") fs fits.stamp refl,
          get_nat-at 32 p.size (codes "size") fs fits.small refl,
          get_text-at (type_name p.object_type) (codes "type") fs refl,
          get_text-at (encoded_data J encode decode p) (codes "data") fs refl,
          decoded-copy p fits d,
        )
        (rw (type_of_name-type_name p.object_type, kept, extra))
    where
      kept :
          take p.size (bytes_of p ++ replicate (equal_count p.size) 0)
            ++ replicate (p.size - length (bytes_of p ++ replicate (equal_count p.size) 0)) unknown
          ≡ bytes_of p
      kept =
          let none_left : p.size - length (bytes_of p ++ replicate (equal_count p.size) 0) ≡ 0 =
            omega
              (arith, length-append (bytes_of p) (replicate (equal_count p.size) 0), fits.filled) in
          rw (none_left, append-nil, ← fits.filled) (take_all (bytes_of p) _)

      extra : length (bytes_of p ++ replicate (equal_count p.size) 0) - p.size ≡ equal_count p.size
      extra = omega (
        arith,
        length-append (bytes_of p) (replicate (equal_count p.size) 0),
        length-replicate {0} {A = ℕ} (equal_count p.size) 0,
        fits.filled,
      )

  -- A picture whose fields fit their types, written as JSON and read back, is equal to itself by
  -- `operator==`; but reading it back writes behind the end of the buffer that it allocates, one byte
  -- for each `=` of the padding: none, two or one, as the size is 0, 1 or 2 modulo 3.
  pub from_json-to_json :
      (p : PostPicture)
      → Fits p
      → DecodesPadding (bytes_of p)
      → (q : PostPicture) × (overrun : ℕ) × (from_json J encode decode (to_json J encode decode p)
          ≡ ok (q, overrun))
        × (same_picture p q ≡ true)
        × (length (bytes_of q) ≡ q.size)
        × (overrun ≡ (if nat_eqb (p.size % 3) 0 then 0 else 3 - p.size % 3))
        × ((overrun ≡ 0) ↔ (p.size % 3 ≡ 0))
  unfolding equal_count
  from_json-to_json p fits d = (
    record p { pixels = some (bytes_of p) },
    equal_count p.size,
    from_json-to_json_exact p fits d,
    same_picture_self p,
    fits.filled,
    ground arith,
    (λ h. omega arith, λ h. omega arith),
  )
