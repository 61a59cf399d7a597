-- ===== src/Picture/Reading.antt =====
-- What lies in the buffer of a picture that was read (src/PostPicture.cpp).
use beast_examples.Common.{
  ℕ, zero, suc, ◌-◌, ◌≡◌, refl, ap, [], ◌∷◌, ◌++◌, length, take, replicate, unknown, Text, codes,
  Result, ok, throw, ◌>>=◌, catch, Gives, ok-Gives, next-Gives, bind-Gives, arith,
}
use beast_examples.Json.{JsonLib}
use beast_examples.Picture.{PostPicture, from_json, copy_into, rethrow, u32, u64}
use beast_examples.Preview.Defs.{view_of}

abbrev pub IsSize : (J : JsonLib) → J.Json → ℕ → Type 0
IsSize J json n = (J.at (codes "size") json >>= J.get_nat 32) ≡ ok n

abbrev pub IsEncoded : (J : JsonLib) → J.Json → Text → Type 0
IsEncoded J json t = (J.at (codes "data") json >>= J.get_text) ≡ ok t

-- The bytes are the decoded text of the JSON's `data`, as many as its `size` says; where the text is
-- shorter, unknown bytes follow, which no request has sent.
pub record IsDataOf (J : JsonLib) (decode : Text → Result Text) (json : J.Json) (bytes : Text)
    : Type 0 where
  pub encoded : Text
  pub raw : Text
  pub size : ℕ
  pub named : IsEncoded J json encoded
  pub sized : IsSize J json size
  pub decoded : decode encoded ≡ ok raw
  pub filled : bytes ≡ take size raw ++ replicate (size - length raw) unknown

take-replicate : (n : ℕ) → take n (replicate n unknown) ≡ replicate n unknown
take-replicate zero = refl
take-replicate (suc n) = ap (◌∷◌ unknown) (take-replicate n)

take_filled :
    (n : ℕ) (xs : Text)
    → take n (take n xs ++ replicate (n - length xs) unknown)
      ≡ take n xs ++ replicate (n - length xs) unknown
take_filled zero xs = let none_left : 0 - length xs ≡ 0 = omega arith in rw none_left refl
take_filled (suc n) [] =
    let all : suc n - 0 ≡ suc n = omega arith in rw all (take-replicate (suc n))
take_filled (suc n) (x ∷ xs) =
    let less : suc n - suc (length xs) ≡ n - length xs = omega arith in
    rw less (ap (◌∷◌ x) (take_filled n xs))

catch-rethrow : (r : Result Text) (t : Text) → catch r rethrow ≡ ok t → r ≡ ok t
catch-rethrow (ok a) t h = h
catch-rethrow (throw e) t h = cc

module _ (J : JsonLib) (encode : Text → Text) (decode : Text → Result Text) (json : J.Json) where
  abbrev Reads : PostPicture × ℕ → Type 0
  Reads (p, overrun) = IsDataOf J decode json (view_of p).bytes

  pub from_json-Reads : Gives Reads (from_json J encode decode json)
  unfolding from_json copy_into
  from_json-Reads = next-Gives Reads (J.at (codes "camera") json >>= J.get_nat u32) _ λ camera.
      next-Gives Reads (J.at (codes "width") json >>= J.get_nat u32) _ λ wide.
        next-Gives Reads (J.at (codes "height") json >>= J.get_nat u32) _ λ high.
          next-Gives Reads (J.at (codes "object") json >>= J.get_nat u32) _ λ object_number.
            next-Gives Reads (J.at (codes "timestamp") json >>= J.get_nat u64) _ λ stamp.
              bind-Gives (IsSize J json) Reads (J.at (codes "size") json >>= J.get_nat u32) _
                (λ size e. e)
                λ size sized. next-Gives Reads (J.at (codes "type") json >>= J.get_text) _ λ name.
                  bind-Gives (IsEncoded J json) Reads (J.at (codes "data") json >>= J.get_text) _
                    (λ encoded e. e)
                    λ encoded named.
                      bind-Gives (λ raw. decode encoded ≡ ok raw) Reads
                        (catch (decode encoded) rethrow) _ (catch-rethrow (decode encoded))
                        λ raw d. ok-Gives Reads _ (record {
                          encoded = encoded;
                          raw = raw;
                          size = size;
                          named = named;
                          sized = sized;
                          decoded = d;
                          filled = take_filled size raw;
                        })
