-- ===== src/Prelude/Outcome.antt =====
-- The result of a fallible function, `Result<A, E>`, with the `?` operator as bind.
use mathlib.Core.Path.{◌≡◌, refl}

pub data Result {ℓ κ} (E : Type κ) (A : Type ℓ) : Type (ℓ ⊔ κ) where
  ok : A → Result E A
  err : E → Result E A

infixl 5 ◌>>=◌ ◌>>◌
abbrev pub ◌>>=◌ {ℓ κ ι} :
    {E : Type κ} {A : Type ℓ} {B : Type ι} → Result E A → (A → Result E B) → Result E B
ok a >>= f = f a
err e >>= f = err e

abbrev pub ◌>>◌ {ℓ κ} : {E : Type κ} {B : Type ℓ} → Result E (Unit {0}) → Result E B → Result E B
m >> k = m >>= λ _. k

module _ {ℓ κ ι} {E : Type κ} {A : Type ℓ} {B : Type ι} where
  -- A chain that returned got a value from its first part, and its answer from the rest.
  pub >>=-eq-ok :
      (first : Result E A) (rest : A → Result E B) {answer : B}
      → first >>= rest ≡ ok answer
      → (value : A) × (first ≡ ok value) × (rest value ≡ ok answer)
  >>=-eq-ok (ok value) rest returned = (value, refl, returned)
  >>=-eq-ok (err reason) rest returned = cc
