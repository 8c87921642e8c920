-- ===== src/Common/Outcome.antt =====
-- Go's pair of a result and an error: a value, or the error that the function returned.

use mathlib.Core.Bool.{Bool, true, false}

pub data Outcome {ℓ κ} (E : Type κ) (A : Type ℓ) : Type (ℓ ⊔ κ) where
  ok : A → Outcome E A
  err : E → Outcome E A

module _ {ε} {E : Type ε} where
  infixl 5 ◌>>=◌
  abbrev pub ◌>>=◌ {κ ℓ} :
      {Before : Type κ} {After : Type ℓ}
      → Outcome E Before
      → (Before → Outcome E After)
      → Outcome E After
  err failure >>= continue = err failure
  ok result >>= continue = continue result

  -- A test whose result says only that the code goes on.
  infixl 5 ◌>>◌
  abbrev pub ◌>>◌ {ℓ} : {After : Type ℓ} → Outcome E (Unit {0}) → Outcome E After → Outcome E After
  err failure >> continue = err failure
  ok passed >> continue = continue

  abbrev pub check : Bool → E → Outcome E (Unit {0})
  check true failure = ok tt
  check false failure = err failure
