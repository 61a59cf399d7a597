-- ===== src/Picture/Tests.antt =====
-- A picture of four bytes, and its JSON form.
use beast_examples.Common.{
  nat_eqb, ◌-◌, ℕ, ◌%◌, ◌≡◌, refl, true, ◌==◌, text_eq, nat_eq, if◌then◌else◌, map, length, Text,
  codes, some, Result, ok, ◌↔◌, arith,
}
use beast_examples.Json.{JsonLib}
use beast_examples.Json.Sample.{sample, sample-JsonLaws, str}
use beast_examples.Picture.{
  PostPicture, body, bytes_of, same_picture, from_json, to_json, equal_count,
}
use beast_examples.Picture.Laws.{Fits, from_json-to_json}

abbrev plain : JsonLib
plain = sample (λ j. ok (codes "{}")) (λ t. ok (str t))

-- A code of one digit for each byte, with `=` for a zero byte.
abbrev digits : Text → Text
digits t = t

abbrev byte_of : ℕ → ℕ
byte_of c = if c == b'=' then 0 else c

abbrev bytes : Text → Result Text
bytes t = ok (map byte_of t)

abbrev four_bytes : PostPicture
four_bytes = record {
  camera_id = 2;
  object_id = 17;
  object_type = body;
  timestamp = 1500000000;
  width = 2;
  height = 2;
  size = 4;
  pixels = some (codes "abcd");
}

four_bytes-Fits : Fits four_bytes
four_bytes-Fits = record {
  camera = omega arith;
  object_number = omega arith;
  stamp = omega arith;
  wide = omega arith;
  high = omega arith;
  small = omega arith;
  filled = refl;
}

from_json-to_json_example :
    (q : PostPicture) × (overrun : ℕ) × (from_json plain digits bytes
        (to_json plain digits bytes four_bytes)
      ≡ ok (q, overrun))
    × (same_picture four_bytes q ≡ true)
    × (length (bytes_of q) ≡ q.size)
    × (overrun ≡ (if nat_eqb (four_bytes.size % 3) 0 then 0 else 3 - four_bytes.size % 3))
    × ((overrun ≡ 0) ↔ (four_bytes.size % 3 ≡ 0))
unfolding equal_count
from_json-to_json_example =
    from_json-to_json plain (sample-JsonLaws (λ j. ok (codes "{}")) (λ t. ok (str t))) digits bytes
      four_bytes four_bytes-Fits refl
