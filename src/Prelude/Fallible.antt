-- ===== src/Prelude/Fallible.antt =====
-- The result of an instruction: a value, or the failure that aborts the transaction. A failed
-- transaction writes nothing, so a failure carries no state.
use mathlib.Core.Path.{◌≡◌, refl}
use mathlib.Core.Logic.{◌⊎◌, inl, inr}
use mathlib.Core.Bool.{Bool, true, false}
use mathlib.Core.Option.{Option, none, some}

-- What aborts: one of the program's own error codes, one of the framework's checks, the called
-- token program, or a panic of the program (`overflow-checks = true` in the release profile).
pub data Failure {ℓ} (E : Type ℓ) : Type ℓ where
  custom : E → Failure E
  constraint_has_one constraint_seeds constraint_token constraint_raw account_in_use : Failure E
  cpi_failed panicked : Failure E

pub data Result {ℓ κ} (E : Type ℓ) (A : Type κ) : Type (ℓ ⊔ κ) where
  ok : A → Result E A
  err : Failure E → Result E A

infixl 5 ◌>>=◌ ◌>>◌
abbrev pub ◌>>=◌ {ℓ κ μ} :
    {E : Type ℓ} {A : Type κ} {B : Type μ} → Result E A → (A → Result E B) → Result E B
ok value >>= f = f value
err failure >>= f = err failure

abbrev pub ◌>>◌ {ℓ κ} : {E : Type ℓ} {B : Type κ} → Result E (Unit {0}) → Result E B → Result E B
ok _ >> k = k
err e >> k = err e

-- `require!(test, error)`.
abbrev pub require {ℓ} : {E : Type ℓ} → Bool → E → Result E (Unit {0})
require true e = ok tt
require false e = err (custom e)

-- A check that the framework makes on the accounts before the handler runs.
abbrev pub constraint {ℓ} : {E : Type ℓ} → Bool → Failure E → Result E (Unit {0})
constraint true e = ok tt
constraint false e = err e

-- `option.ok_or(error)?`.
abbrev pub ok_or {ℓ κ} : {E : Type ℓ} {A : Type κ} → Option A → E → Result E A
ok_or (some a) e = ok a
ok_or none e = err (custom e)

-- A step that panics or a call that fails, with the failure to report.
abbrev pub or_abort {ℓ κ} : {E : Type ℓ} {A : Type κ} → Option A → Failure E → Result E A
or_abort (some a) e = ok a
or_abort none e = err e

module _ {ℓ} {E : Type ℓ} where
  pub >>=-eq-ok {κ μ} :
      {A : Type κ} {B : Type μ} (first : Result E A) (f : A → Result E B) {out : B}
      → (first >>= f) ≡ ok out
      → (value : A) × (first ≡ ok value) × (f value ≡ ok out)
  >>=-eq-ok (ok value) f done = (value, refl, done)
  >>=-eq-ok (err failure) f done = cc

  pub >>-eq-ok {κ} :
      {B : Type κ} (m : Result E (Unit {0})) (k : Result E B) {b : B}
      → (m >> k) ≡ ok b
      → (m ≡ ok tt) × (k ≡ ok b)
  >>-eq-ok (ok tt) k h = (refl, h)
  >>-eq-ok (err e) k h = cc

  pub Result-cases {κ} :
      {A : Type κ} (r : Result E A) → ((f : Failure E) × (r ≡ err f)) ⊎ ((a : A) × (r ≡ ok a))
  Result-cases (ok a) = inr (a, refl)
  Result-cases (err f) = inl (f, refl)

-- A call of another program (`?` on its result): a failure of the callee aborts the caller.
abbrev pub call {ℓ κ μ} : {E : Type ℓ} {F : Type κ} {A : Type μ} → Result F A → Result E A
call (ok value) = ok value
call (err failure) = err cpi_failed
