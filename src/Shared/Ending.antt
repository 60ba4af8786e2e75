-- ===== src/Shared/Ending.antt =====
-- How a C++ call ends: it returns, it stops at a failed `assert` or an exception that nobody
-- catches, or its behaviour is undefined because it touches memory outside its storage.
use mathlib.Core.Bool.{Bool, true, false}
use mathlib.Core.Logic.{◌⊎◌, inl, inr}
use mathlib.Core.Path.{◌≡◌, refl}

pub data Outcome {ℓ} (A : Type ℓ) : Type ℓ where
  done : A → Outcome A
  abort : Outcome A
  fault : Outcome A

infixl 5 ◌>>=◌ ◌>>◌
abbrev pub ◌>>=◌ {ℓ κ} : {A : Type ℓ} {B : Type κ} → Outcome A → (A → Outcome B) → Outcome B
done a >>= f = f a
abort >>= f = abort
fault >>= f = fault

abbrev pub ◌>>◌ {ℓ} : {B : Type ℓ} → Outcome (Unit {0}) → Outcome B → Outcome B
m >> k = m >>= λ _. k

-- assert(b)
abbrev pub check : Bool → Outcome (Unit {0})
check true = done tt
check false = abort

-- An access that is defined only if `b` holds.
abbrev pub access : Bool → Outcome (Unit {0})
access true = done tt
access false = fault

-- To split on how a call ends and keep the equation.
pub Outcome-cases {ℓ} :
    {A : Type ℓ} (o : Outcome A) → (o ≡ abort) ⊎ ((o ≡ fault) ⊎ ((a : A) × (o ≡ done a)))
Outcome-cases (done a) = inr (inr (a, refl))
Outcome-cases abort = inl refl
Outcome-cases fault = inr (inl refl)
