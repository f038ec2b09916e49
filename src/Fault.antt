-- ===== src/Fault.antt =====
-- How a run can end without a value, and postconditions on runs.
use gwead.Prelude.{◌≡◌, refl, Bool, true, false, if◌then◌else◌, subst}
use gwead.Prelude.Outcome.{Result, ok, err, ◌>>=◌}

-- `error` is an `Err` of the code; `panic` is an index out of bounds, which would abort; the code has
-- no counterpart of `out_of_fuel`.
pub data Fault (E : Type 0) : Type 0 where
  error : E → Fault E
  panic out_of_fuel : Fault E

-- The run returned, without a panic and within its fuel, and `P` holds of its value if it has one.
pub data Ensures {E A : Type 0} (P : A → Type 0) : Result (Fault E) A → Type 0 where
  holds : {a : A} → P a → Ensures P (ok a)
  rejected : {e : E} → Ensures P (err (error e))

module _ {E A : Type 0} {P : A → Type 0} where
  pub Ensures-ok : {r : Result (Fault E) A} {a : A} → Ensures P r → r ≡ ok a → P a
  Ensures-ok (holds h) e = subst P (cc) h
  Ensures-ok rejected e = cc

  pub Ensures-weaken :
      {Q : A → Type 0} {r : Result (Fault E) A} → Ensures P r → ((a : A) → P a → Q a) → Ensures Q r
  Ensures-weaken (holds {a} h) k = holds (k a h)
  Ensures-weaken rejected k = rejected

  pub Ensures-bind :
      {B : Type 0} {Q : B → Type 0} {r : Result (Fault E) A} {f : A → Result (Fault E) B}
      → Ensures P r
      → ((a : A) → P a → Ensures Q (f a))
      → Ensures Q (r >>= f)
  Ensures-bind (holds {a} h) k = k a h
  Ensures-bind rejected k = rejected

  pub Ensures-if :
      (b : Bool) {x y : Result (Fault E) A}
      → (b ≡ true → Ensures P x)
      → (b ≡ false → Ensures P y)
      → Ensures P (if b then x else y)
  Ensures-if true hx hy = hx refl
  Ensures-if false hx hy = hy refl

-- `P` holds of the value, if there is one.
pub data OnOk {E A : Type 0} (P : A → Type 0) : Result E A → Type 0 where
  value : {a : A} → P a → OnOk P (ok a)
  failed : {e : E} → OnOk P (err e)

module _ {E A : Type 0} where
  pub OnOk-elim : {P : A → Type 0} {r : Result E A} {a : A} → OnOk P r → r ≡ ok a → P a
  OnOk-elim {P} (value h) e = subst P (cc e) h
  OnOk-elim failed e = cc e

  pub OnOk-self : (r : Result E A) → OnOk (λ a. r ≡ ok a) r
  OnOk-self (ok a) = value refl
  OnOk-self (err e) = failed

  pub OnOk-any : (r : Result E A) → OnOk (λ a. Unit {0}) r
  OnOk-any (ok a) = value tt
  OnOk-any (err e) = failed

  pub OnOk-weaken :
      {P Q : A → Type 0} {r : Result E A} → OnOk P r → ((a : A) → P a → Q a) → OnOk Q r
  OnOk-weaken (value {a} h) k = value (k a h)
  OnOk-weaken failed k = failed

  pub OnOk-bind :
      {B : Type 0} {P : A → Type 0} {Q : B → Type 0} {r : Result E A} {f : A → Result E B}
      → OnOk P r
      → ((a : A) → P a → OnOk Q (f a))
      → OnOk Q (r >>= f)
  OnOk-bind (value {a} h) k = k a h
  OnOk-bind failed k = failed

  pub OnOk-if :
      {P : A → Type 0} (b : Bool) {x y : Result E A}
      → (b ≡ true → OnOk P x)
      → (b ≡ false → OnOk P y)
      → OnOk P (if b then x else y)
  OnOk-if true hx hy = hx refl
  OnOk-if false hx hy = hy refl
