-- ===== src/Json.antt =====
-- The JSON library that the program calls (nlohmann::json), as an interface: the operations that
-- the code uses, and in `JsonLaws` what its documentation says of them where a theorem needs it.
pub mod Sample
use beast_examples.Common.{
  ℕ, ◌≡◌, Text, Option, List, some, ok, ◌^◌, ◌<◌, text_eq, Result, throw, json_type_error,
}
use beast_examples.Common.Int.{ℤ}
use beast_examples.Common.Assoc.{lookup}

pub record JsonLib : Type 1 where
  pub Json : Type 0
  -- `nlohmann::json{}`
  pub null : Json
  pub of_text : Text → Json
  pub of_nat : ℕ → Json
  -- an initializer list of pairs, and of values
  pub object : List (Text × Json) → Json
  pub array : List Json → Json
  pub emplace : Text → Json → Json → Result Json
  pub dump : Json → Result Text
  pub parse : Text → Result Json
  -- `json.find(key)`, `none` for `json.end()`
  pub find : Text → Json → Option Json
  -- `json.at(key)`
  pub at : Text → Json → Result Json
  pub get_int : Json → Result ℤ
  -- of an unsigned integer of so many bits
  pub get_nat : ℕ → Json → Result ℕ
  pub get_text : Json → Result Text

pub record JsonLaws (J : JsonLib) : Type 1 where
  -- type_error.311: only an object or null takes a new key
  pub emplace-of_text :
      (k s : Text) (v : J.Json)
      → (m : Text) × (J.emplace k v (J.of_text s) ≡ throw (json_type_error m))
  -- an object has the value that its initializer list gives a key first
  pub at-object :
      (k : Text) (fields : List (Text × J.Json)) (v : J.Json)
      → lookup k fields ≡ some v
      → J.at k (J.object fields) ≡ ok v
  -- conversions give back what a value was made from, where it fits
  pub get_nat-of_nat : (bits n : ℕ) → n < 2 ^ bits → J.get_nat bits (J.of_nat n) ≡ ok n
  pub get_text-of_text : (t : Text) → J.get_text (J.of_text t) ≡ ok t
