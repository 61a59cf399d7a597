-- ===== src/Common/Errors.antt =====
-- C++ exceptions as values: the classes that the code throws or tells apart in a `catch`.
use mathlib.Core.Path.{◌≡◌, refl}
use mathlib.Core.Option.{Option, none, some}
use mathlib.Core.Logic.{◌⊎◌, inl, inr}
use beast_examples.Common.Lists.{Text}

-- Each constructor is a class, with the text that `what()` returns.
pub data Exn : Type 0 where
  -- `std::runtime_error`
  runtime_error : Text → Exn
  -- `std::out_of_range`
  out_of_range : Text → Exn
  -- `JsonApiRequestHandler::NotFound`
  no_resource : Text → Exn
  -- `nlohmann::json::parse_error`
  json_parse_error : Text → Exn
  -- `nlohmann::json::type_error`
  json_type_error : Text → Exn
  -- `nlohmann::json::out_of_range`
  json_out_of_range : Text → Exn

-- The virtual `what()`.
abbrev pub what : Exn → Text
what (runtime_error s) = s
what (out_of_range s) = s
what (no_resource s) = s
what (json_parse_error s) = s
what (json_type_error s) = s
what (json_out_of_range s) = s

pub data Result {ℓ} (A : Type ℓ) : Type ℓ where
  ok : A → Result A
  throw : Exn → Result A

abbrev pub catch {ℓ} : {A : Type ℓ} → Result A → (Exn → Result A) → Result A
catch (ok a) h = ok a
catch (throw e) h = h e

-- `at`, which throws on what `find` does not find.
abbrev pub or_throw {ℓ} : {A : Type ℓ} → Option A → Exn → Result A
or_throw none e = throw e
or_throw (some a) e = ok a

pub Result-cases {ℓ} :
    {A : Type ℓ} (r : Result A) → ((a : A) × (r ≡ ok a)) ⊎ ((e : Exn) × (r ≡ throw e))
Result-cases (ok a) = inl (a, refl)
Result-cases (throw e) = inr (e, refl)

module _ {ℓ κ} {R : Type ℓ} {S : Type κ} where
  infixl 5 ◌>>=◌
  -- What stands after a throw is not run.
  abbrev pub ◌>>=◌ : Result R → (R → Result S) → Result S
  throw x >>= next = throw x
  ok r >>= next = next r

  pub >>=-eq-ok :
      (first : Result R) (next : R → Result S) {s : S}
      → (first >>= next) ≡ ok s
      → (r : R) × (first ≡ ok r) × (next r ≡ ok s)
  >>=-eq-ok (throw x) next h = cc
  >>=-eq-ok (ok r) next h = (r, refl, h)

pub ok-injective {ℓ} : {A : Type ℓ} {a b : A} → ok a ≡ ok b → a ≡ b
ok-injective h = cc
