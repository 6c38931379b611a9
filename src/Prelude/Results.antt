-- ===== src/Prelude/Results.antt =====
-- Go's pair of a value and an error, as a value of one type.
use mathlib.Core.Path.{◌≡◌, refl}
use mathlib.Core.Logic.{◌⊎◌, inl, inr}

pub data Result {ℓ} (E : Type 0) (A : Type ℓ) : Type ℓ where
  ok : A → Result E A
  err : E → Result E A

-- `if err != nil { return err }` after a call
infixl 5 ◌>>=◌
abbrev pub ◌>>=◌ {ℓ κ} :
    {E : Type 0} {A : Type ℓ} {B : Type κ} → Result E A → (A → Result E B) → Result E B
ok a >>= f = f a
err e >>= f = err e

-- The first call of a chain that succeeds has succeeded, and the rest went on with its value.
pub >>=-eq-ok {ℓ κ} :
    {E : Type 0} {A : Type ℓ} {B : Type κ} {b : B} (go : A → Result E B) (first : Result E A)
    → first >>= go ≡ ok b
    → (value : A) × (go value ≡ ok b) × (first ≡ ok value)
>>=-eq-ok go (err e) eq = cc
>>=-eq-ok go (ok value) eq = (value, eq, refl)

pub Result-cases {ℓ} :
    {E : Type 0} {A : Type ℓ} (res : Result E A)
    → ((value : A) × (res ≡ ok value)) ⊎ ((error : E) × (res ≡ err error))
Result-cases (ok value) = inl (value, refl)
Result-cases (err error) = inr (error, refl)
