-- ===== src/Base/Results.antt =====
-- Code that may throw: `err` holds what was thrown.
use mathlib.Core.Path.{◌≡◌, refl}
use mathlib.Core.Logic.{◌⊎◌, inl, inr}
use mathlib.Core.Bool.{Bool, true, false}
use mathlib.Core.Option.{Option, none, some}

pub data Result {ℓ κ} (E : Type ℓ) (A : Type κ) : Type (ℓ ⊔ κ) where
  ok : A → Result E A
  err : E → Result E A

infixl 5 ◌>>=◌ ◌>>◌
module _ {ℓ κ μ} {E : Type ℓ} {A : Type κ} {B : Type μ} where
  -- What follows a call that returned.
  abbrev pub ◌>>=◌ : Result E A → (A → Result E B) → Result E B
  ◌>>=◌ (ok value) next = next value
  ◌>>=◌ (err thrown) next = err thrown

  pub >>=-eq-ok :
      (first : Result E A) (next : A → Result E B) {result : B}
      → ◌>>=◌ first next ≡ ok result
      → (value : A) × (first ≡ ok value) × (next value ≡ ok result)
  >>=-eq-ok (ok value) next same = (value, refl, same)
  >>=-eq-ok (err thrown) next same = cc

module _ {ℓ κ} {E : Type ℓ} {B : Type κ} where
  abbrev pub ◌>>◌ : Result E (Unit {0}) → Result E B → Result E B
  ◌>>◌ check next = check >>= λ _. next

-- `if (test) throw error`
abbrev pub throw_if {ℓ} : {E : Type ℓ} → Bool → E → Result E (Unit {0})
throw_if true e = err e
throw_if false e = ok tt

-- A value that has to be there.
abbrev pub or_throw {ℓ κ} : {E : Type ℓ} {A : Type κ} → Option A → E → Result E A
or_throw (some a) e = ok a
or_throw none e = err e

-- `catch (error) { throw new Other(error) }`
abbrev pub map_err {ℓ κ μ} :
    {E : Type ℓ} {F : Type κ} {A : Type μ} → (E → F) → Result E A → Result F A
map_err f (ok a) = ok a
map_err f (err e) = err (f e)

abbrev pub is_ok {ℓ κ} : {E : Type ℓ} {A : Type κ} → Result E A → Bool
is_ok (ok a) = true
is_ok (err e) = false

module _ {ℓ κ} {E : Type ℓ} {A : Type κ} where
  pub Result-cases : (r : Result E A) → ((a : A) × (r ≡ ok a)) ⊎ ((e : E) × (r ≡ err e))
  Result-cases (ok a) = inl (a, refl)
  Result-cases (err e) = inr (e, refl)

  pub ok-injective : {a b : A} → ◌≡◌ {A = Result E A} (ok a) (ok b) → a ≡ b
  ok-injective h = cc

  pub err-injective : {e f : E} → ◌≡◌ {A = Result E A} (err e) (err f) → e ≡ f
  err-injective h = cc
