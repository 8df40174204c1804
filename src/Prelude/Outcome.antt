-- ===== src/Prelude/Outcome.antt =====
-- Runs of C code that may do what the language leaves undefined: an access out of bounds or
-- through a null pointer. A run that reaches such an access is a `fault`.
use mathlib.Core.Path.{◌≡◌, refl}
use mathlib.Core.Bool.{Bool, true, false}
use mathlib.Core.Option.{Option, none, some}
use mathlib.Core.Logic.{◌⊎◌, inl, inr}

-- The result of a run, or the access that must not happen.
pub data Run {ℓ} (Result : Type ℓ) : Type ℓ where
  fault : Run Result
  ok : Result → Run Result

-- One run and then another, which is given the result of the first.
infixl 5 ◌>>=◌ ◌>>◌
abbrev pub ◌>>=◌ {ℓ ℓ'} :
    {First : Type ℓ} {Next : Type ℓ'} → Run First → (First → Run Next) → Run Next
fault >>= next = fault
ok result >>= next = next result

abbrev pub ◌>>◌ {ℓ} : {Next : Type ℓ} → Run (Unit {0}) → Run Next → Run Next
fault >> next = fault
ok _ >> next = next

-- An access that must find something.
abbrev pub access {ℓ} : {A : Type ℓ} → Option A → Run A
access none = fault
access (some a) = ok a

-- What must hold for an access to stay in bounds.
abbrev pub in_bounds : Bool → Run (Unit {0})
in_bounds true = ok tt
in_bounds false = fault

-- Inversion of a run that returns.
module _ {ℓ} {A : Type ℓ} where
  pub ok-injective : {a b : A} → ok a ≡ ok b → a ≡ b
  ok-injective e = cc

  pub >>=-eq-ok {κ} :
      {Next : Type κ} (first : Run A) (next : A → Run Next) {result : Next}
      → (first >>= next) ≡ ok result
      → (between : A) × (first ≡ ok between) × (next between ≡ ok result)
  >>=-eq-ok fault next returned = cc
  >>=-eq-ok (ok between) next returned = (between, refl, returned)

pub >>-eq-ok {ℓ} :
    {Next : Type ℓ} (inside : Bool) (next : Run Next) {result : Next}
    → (in_bounds inside >> next) ≡ ok result
    → (inside ≡ true) × (next ≡ ok result)
>>-eq-ok false next returned = cc
>>-eq-ok true next returned = (refl, returned)

-- What returns does not fault.
pub returns-fault {ℓ κ} : {A : Type ℓ} {P : Type κ} {r : Run A} {a : A} → r ≡ fault → r ≡ ok a → P
returns-fault e h = cc

pub Run-cases {ℓ} : {A : Type ℓ} (r : Run A) → (r ≡ fault) ⊎ ((a : A) × (r ≡ ok a))
Run-cases fault = inl refl
Run-cases (ok a) = inr (a, refl)
