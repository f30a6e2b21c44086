-- ===== src/Prelude/Results.antt =====
-- Fallible code: a value, or the exception that it raised.
use mathlib.Core.Path.{◌≡◌, refl}
use mathlib.Core.Bool.{Bool, true, false}
use mathlib.Core.Logic.{◌⊎◌, inl, inr}

pub data Result {ℓ κ} (E : Type ℓ) (A : Type κ) : Type (ℓ ⊔ κ) where
  err : E → Result E A
  ok : A → Result E A

-- Raises unless the test holds.
abbrev pub guard {ℓ} : {E : Type ℓ} → (holds : Bool) (raised : E) → Result E (Unit {0})
guard false raised = err raised
guard true raised = ok tt

-- The statement after it runs on the value; an exception ends the block.
infixl 10 ◌>>=◌
abbrev pub ◌>>=◌ {ℓ κ ι} :
    {E : Type ℓ} {A : Type κ} {B : Type ι} → Result E A → (A → Result E B) → Result E B
err raised >>= next = err raised
ok value >>= next = next value

infixl 10 ◌>>◌
abbrev pub ◌>>◌ {ℓ κ} :
    {E : Type ℓ} {B : Type κ} (check : Result E (Unit {0})) (next : Result E B) → Result E B
check >> next = check >>= (λ passed. next)

-- What a successful bind says of its parts.
pub >>=-eq-ok {ℓ κ ι} :
    {E : Type ℓ} {A : Type κ} {B : Type ι} (m : Result E A) (f : A → Result E B) {b : B}
    → (m >>= f) ≡ ok b
    → (a : A) × (m ≡ ok a) × (f a ≡ ok b)
>>=-eq-ok (err raised) f h = cc
>>=-eq-ok (ok value) f h = (value, refl, h)

pub Result-cases {ℓ κ} :
    {E : Type ℓ} {A : Type κ} (m : Result E A) → ((a : A) × (m ≡ ok a)) ⊎ ((e : E) × (m ≡ err e))
Result-cases (err raised) = inr (raised, refl)
Result-cases (ok value) = inl (value, refl)
