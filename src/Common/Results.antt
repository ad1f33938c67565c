-- ===== src/Common/Results.antt =====
-- Results of code that may stop: a failed `assert`, an index outside a vector, or a read of an
-- address that the thread map does not hold.
use mathlib.Core.Bool.{Bool, true, false}
use mathlib.Core.Option.{Option, none, some}

pub data Error : Type 0 where
  assertion out_of_range : Error

-- What a call leaves: the reason it stopped, or its outcome.
pub data Result {ℓ} (Outcome : Type ℓ) : Type ℓ where
  err : (reason : Error) → Result Outcome
  ok : (outcome : Outcome) → Result Outcome

infixl 5 ◌>>=◌ ◌>>◌
abbrev pub ◌>>=◌ {ℓ κ} :
    {First : Type ℓ} {Last : Type κ} → Result First → (First → Result Last) → Result Last
err reason >>= continue = err reason
ok outcome >>= continue = continue outcome

abbrev pub ◌>>◌ {κ} : {Last : Type κ} → Result (Unit {0}) → Result Last → Result Last
err reason >> last = err reason
ok _ >> last = last

-- `assert(b)`
abbrev pub assert : Bool → Result (Unit {0})
assert true = ok tt
assert false = err assertion

-- A vector's element by `[]`.
abbrev pub at {ℓ} : {A : Type ℓ} → Option A → Result A
at none = err out_of_range
at (some a) = ok a
