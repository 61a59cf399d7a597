-- ===== src/Json/Sample.antt =====
-- A small JSON library that meets the interface, for the theorems at concrete inputs. Texts and the
-- function that dumps are its own: `dump` is an argument.
use native.Mathlib.Nat.{mod-eq_of_lt}
use beast_examples.Common.{
  ℕ, ◌%◌, ◌^◌, ◌≡◌, refl, ap, Text, codes, Option, some, none, List, [], ◌∷◌, Result, ok, throw,
  ◌==◌, text_eq, if◌then◌else◌, json_type_error, json_out_of_range, arith,
}
use beast_examples.Common.Int.{ℤ, pos}
use beast_examples.Common.Assoc.{lookup}
use beast_examples.Json.{JsonLib, JsonLaws}

mutual
  pub data Json : Type 0 where
    nothing : Json
    str : Text → Json
    num : ℕ → Json
    obj : Fields → Json
    arr : Items → Json

  pub data Fields : Type 0 where
    end : Fields
    field : Text → Json → Fields → Fields

  pub data Items : Type 0 where
    nil : Items
    cons : Json → Items → Items

abbrev pub fields : List (Text × Json) → Fields
fields [] = end
fields ((k, v) ∷ fs) = field k v (fields fs)

abbrev pub items : List Json → Items
items [] = nil
items (v ∷ vs) = cons v (items vs)

abbrev pub find_field : Text → Fields → Option Json
find_field k end = none
find_field k (field j v fs) = if j == k then some v else find_field k fs

abbrev pub at_field : Text → Json → Result Json
at_field k (obj fs) = elim (find_field k fs) [ none ↦ throw (json_out_of_range k) | some v ↦ ok v ]
at_field k _ = throw (json_type_error (codes "type must be object"))

abbrev pub find_in : Text → Json → Option Json
find_in k (obj fs) = find_field k fs
find_in k _ = none

abbrev pub add_field : Text → Json → Json → Result Json
add_field k v (obj fs) = ok (obj (elim (find_field k fs) [ none ↦ field k v fs | some w ↦ fs ]))
add_field k v nothing = ok (obj (field k v end))
add_field k v _ = throw (json_type_error (codes "cannot use emplace()"))

abbrev pub int_of : Json → Result ℤ
int_of (num n) = ok (pos n)
int_of _ = throw (json_type_error (codes "type must be number"))

abbrev pub nat_of : ℕ → Json → Result ℕ
nat_of bits (num n) = ok (n % 2 ^ bits)
nat_of bits _ = throw (json_type_error (codes "type must be number"))

abbrev pub text_of : Json → Result Text
text_of (str t) = ok t
text_of _ = throw (json_type_error (codes "type must be string"))

abbrev pub sample : (Json → Result Text) → (Text → Result Json) → JsonLib
sample dump parse = record {
  Json = Json;
  null = nothing;
  of_text = str;
  of_nat = num;
  object = λ fs. obj (fields fs);
  array = λ vs. arr (items vs);
  emplace = add_field;
  dump = dump;
  parse = parse;
  find = find_in;
  at = at_field;
  get_int = int_of;
  get_nat = nat_of;
  get_text = text_of;
}

find_field-fields :
    (k : Text) (fs : List (Text × Json)) (v : Json)
    → lookup k fs ≡ some v
    → find_field k (fields fs) ≡ some v
find_field-fields k [] v h = h
find_field-fields k ((j, w) ∷ fs) v h = ground (arith, find_field-fields k fs v)

at_field-fields :
    (k : Text) (fs : List (Text × Json)) (v : Json)
    → lookup k fs ≡ some v
    → at_field k (obj (fields fs)) ≡ ok v
at_field-fields k fs v h = rw (find_field-fields k fs v h, at_field)

pub sample-JsonLaws :
    (dump : Json → Result Text) (parse : Text → Result Json) → JsonLaws (sample dump parse)
sample-JsonLaws dump parse = record {
  emplace-of_text = λ k s v. (codes "cannot use emplace()", refl);
  at-object = at_field-fields;
  get_nat-of_nat = λ bits n h. ap ok (mod-eq_of_lt h);
  get_text-of_text = λ t. refl;
}
