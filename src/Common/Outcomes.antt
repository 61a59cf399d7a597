-- ===== src/Common/Outcomes.antt =====
-- What holds of the value of a computation that may throw.
use mathlib.Core.Path.{◌≡◌, refl, subst}
use beast_examples.Common.Errors.{Exn, Result, ok, throw, catch, ◌>>=◌, ok-injective, or_throw}
use mathlib.Core.Option.{Option, none, some}

module _ {ℓ κ} {A : Type ℓ} (P : A → Type κ) where
  -- Where it returns, `P` holds of the value.
  abbrev pub Gives : Result A → Type (ℓ ⊔ κ)
  Gives r = (a : A) → r ≡ ok a → P a

  pub ok-Gives : (a : A) → P a → Gives (ok a)
  ok-Gives a h b e = subst P (ok-injective e) h

  pub throw-Gives : (x : Exn) → Gives (throw x)
  throw-Gives x b e = cc

  pub catch-Gives :
      (r : Result A) (k : Exn → Result A) → Gives r → ((x : Exn) → Gives (k x)) → Gives (catch r k)
  catch-Gives (ok a) k here go b e = here b e
  catch-Gives (throw x) k here go b e = go x b e

  pub or_throw-Gives :
      (o : Option A) (x : Exn) → ((a : A) → o ≡ some a → P a) → Gives (or_throw o x)
  or_throw-Gives none x h b e = cc
  or_throw-Gives (some a) x h b e = h b (cc e)

pub bind-Gives {ℓ κ μ ν} :
    {A : Type ℓ} {B : Type κ} (P : A → Type μ) (Q : B → Type ν) (r : Result A) (k : A → Result B)
    → Gives P r
    → ((a : A) → P a → Gives Q (k a))
    → Gives Q (r >>= k)
bind-Gives P Q (ok a) k h go b e = go a (h a refl) b e
bind-Gives P Q (throw x) k h go b e = cc

-- Whatever the first computation returns.
pub next-Gives {ℓ κ μ} :
    {A : Type ℓ} {B : Type κ} (Q : B → Type μ) (r : Result A) (k : A → Result B)
    → ((a : A) → Gives Q (k a))
    → Gives Q (r >>= k)
next-Gives Q (ok a) k go b e = go a b e
next-Gives Q (throw x) k go b e = cc
