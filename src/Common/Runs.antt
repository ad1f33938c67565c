-- ===== src/Common/Runs.antt =====
-- Calls that may end the program by `exit`, and loops that may use up their rounds.
use mathlib.Core.Bool.{Bool, true, false}

-- The messages before an `exit`, and an access past the end of an array, which C leaves undefined.
pub data Exit : Type 0 where
  invalid_checksum not_marked_free no_memory not_allocated fell_off not_in_list : Exit
  stack_overflow too_many_rayinfos unknown_object no_free_task : Exit
  too_few_processors too_many_processors bad_radix too_few_keys bad_max_key : Exit
  past_end : Exit

pub data Run {ℓ} (A : Type ℓ) : Type ℓ where
  done : (value : A) → Run A
  exit : (message : Exit) → Run A
  spent : Run A

infixl 5 ◌>>=◌
abbrev pub ◌>>=◌ {ℓ κ} : {A : Type ℓ} {B : Type κ} → Run A → (A → Run B) → Run B
spent >>= rest = spent
exit message >>= rest = exit message
done value >>= rest = rest value

-- `if (!b) { fprintf(...); exit(...); }`
infixl 5 ◌>>◌
abbrev pub ◌>>◌ {κ} : {B : Type κ} → Run (Unit {0}) → Run B → Run B
m >> rest = m >>= λ _. rest

abbrev pub unless : Bool → Exit → Run (Unit {0})
unless true message = done tt
unless false message = exit message
