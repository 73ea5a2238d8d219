-- ===== src/Outcome.antt =====
-- Rust's `Result` with an error type of its own, for the code outside the on-chain program.
use tickersix.Base.{none-some}
use mathlib.Core.Path.{◌≡◌, refl, sym}
use mathlib.Core.Bool.{Bool, true, false}
use mathlib.Core.Logic.{◌⊎◌, inl, inr}
use mathlib.Core.Option.{Option, none, some}
use tickersix.Errors
use tickersix.Errors.{Result}

pub data Outcome {ℓ} (E : Type 0) (A : Type ℓ) : Type ℓ where
  ok : A → Outcome E A
  err : E → Outcome E A

-- `?` on a `Result`.
infixl 5 ◌>>=◌ ◌>>◌
abbrev pub ◌>>=◌ {κ ℓ} :
    {E : Type 0} {A : Type κ} {B : Type ℓ} → Outcome E A → (A → Outcome E B) → Outcome E B
ok value >>= next = next value
err failure >>= next = err failure

abbrev pub ◌>>◌ {κ} : {E : Type 0} {B : Type κ} → Outcome E (Unit {0}) → Outcome E B → Outcome E B
test >> next = test >>= λ passed. next

-- `if !test { return Err(failure) }`.
abbrev pub require : {E : Type 0} → Bool → E → Outcome E (Unit {0})
require true failure = ok tt
require false failure = err failure

-- `ok_or(failure)`.
abbrev pub ok_or {ℓ} : {E : Type 0} {A : Type ℓ} → Option A → E → Outcome E A
ok_or (some value) failure = ok value
ok_or none failure = err failure

module _ {κ ℓ} {E : Type 0} {A : Type κ} {B : Type ℓ} where
  pub >>=-eq-ok :
      (step : Outcome E A) (next : A → Outcome E B) {last : B}
      → (step >>= next) ≡ ok last
      → (value : A) × (step ≡ ok value) × (next value ≡ ok last)
  >>=-eq-ok (ok value) next success = (value, refl, success)
  >>=-eq-ok (err failure) next success = cc

-- To split on a computed outcome and keep the equation.
pub Outcome-cases {ℓ} :
    {E : Type 0} {A : Type ℓ} (m : Outcome E A) → ((a : A) × (m ≡ ok a)) ⊎ ((e : E) × (m ≡ err e))
Outcome-cases (ok a) = inl (a, refl)
Outcome-cases (err e) = inr (e, refl)

-- An instruction of the program and a function of the services agree: both succeed with the same value,
-- or both fail.
abbrev pub value_of {ℓ} : {A : Type ℓ} → Result A → Option A
value_of (Errors.ok value) = some value
value_of (Errors.err failure) = none

abbrev pub outcome_of {ℓ} : {E : Type 0} {A : Type ℓ} → Outcome E A → Option A
outcome_of (ok value) = some value
outcome_of (err failure) = none

pub Agree->>= {κ ℓ} :
    {E : Type 0} {A : Type κ} {B : Type ℓ} (m : Result A) (o : Outcome E A) (f : A → Result B)
    (g : A → Outcome E B)
    → outcome_of o ≡ value_of m
    → ((a : A) → outcome_of (g a) ≡ value_of (f a))
    → outcome_of (o >>= g) ≡ value_of (Errors.◌>>=◌ m f)
Agree->>= (Errors.ok a) (ok b) f g h k = (let e : b ≡ a = cc in rw e (k a))
Agree->>= (Errors.ok a) (err e) f g h k = absurd (none-some h)
Agree->>= (Errors.err e) (ok b) f g h k = absurd (none-some (sym h))
Agree->>= (Errors.err e) (err e') f g h k = refl
