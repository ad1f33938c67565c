-- ===== src/Common/Fields.antt =====
-- Two-bit fields packed in a word: the saturating counters of a directory line.
use computer_architect.Common.Tests.{◌==◌, leb, if◌then◌else◌}
use computer_architect.Common.Bits.{test_bit, bit_and_three}
use Prim.Native.Nat.{ℕ, zero, suc, ◌+◌, ◌-◌, ◌*◌, ◌/◌, ◌%◌, ◌^◌, ◌≤◌, ◌<◌, bit_and}
use mathlib.Core.Path.{◌≡◌, refl, sym, subst}
use native.Mathlib.Nat.{pow-suc, div-div-eq-div-mul}
use native.Mathlib.Omega.{arith}

-- Field `p` of a word, by recursion on its place.
unfoldable pub field : ℕ → ℕ → ℕ
field v zero = v % 4
field v (suc p) = field (v / 4) p

-- The weight of a field.
pub weight_suc : (p : ℕ) → 2 ^ (suc p * 2) ≡ 4 * 2 ^ (p * 2)
weight_suc p =
    let e : suc p * 2 ≡ suc (suc (p * 2)) = omega arith in
    rw e (omega (arith, pow-suc 2 (suc (p * 2)), pow-suc 2 (p * 2)))

pub field-lt : (v p : ℕ) → field v p < 4
unfolding field
field-lt v zero = omega arith
field-lt v (suc p) = field-lt (v / 4) p

pub field-zero : (p : ℕ) → field 0 p ≡ 0
unfolding field
field-zero zero = refl
field-zero (suc p) = field-zero p

field_digit : (v p : ℕ) → v / 2 ^ (p * 2) % 4 ≡ field v p
unfolding field
field_digit v zero = omega arith
field_digit v (suc p) =
    ground (arith, weight_suc p, div-div-eq-div-mul v 4 (2 ^ (p * 2)), field_digit (v / 4) p)

-- `(v >> (p * 2)) & 3`
pub shift_mask : (v p : ℕ) → bit_and (v / 2 ^ (p * 2)) 3 ≡ field v p
shift_mask v p = rw bit_and_three (field_digit v p)

pub field_add :
    (v p q : ℕ)
    → field v p < 3
    → field (v + 2 ^ (p * 2)) q ≡ (if p == q then field v q + 1 else field v q)
unfolding field
field_add v zero zero h = ground arith
field_add v zero (suc q) h = let e : (v + 1) / 4 ≡ v / 4 = omega arith in rw e (ground arith)
field_add v (suc p) zero h = ground (arith, weight_suc p)
field_add v (suc p) (suc q) h =
    let e : (v + 2 ^ (suc p * 2)) / 4 ≡ v / 4 + 2 ^ (p * 2) = omega (arith, weight_suc p) in
    rw e (ground (arith, field_add (v / 4) p q))

pub field_sub :
    (v p q : ℕ)
    → 0 < field v p
    → (2 ^ (p * 2) ≤ v)
      × (field (v - 2 ^ (p * 2)) q ≡ (if p == q then field v q - 1 else field v q))
unfolding field
field_sub v zero zero h = ground arith
field_sub v zero (suc q) h = let e : (v - 1) / 4 ≡ v / 4 = omega arith in rw e (ground arith)
field_sub v (suc p) zero h =
    let (fits, rest) = field_sub (v / 4) p 0 h in
    (omega (arith, weight_suc p), ground (arith, weight_suc p))
field_sub v (suc p) (suc q) h =
    let (fits, rest) = field_sub (v / 4) p q h in
    let e : (v - 2 ^ (suc p * 2)) / 4 ≡ v / 4 - 2 ^ (p * 2) = omega (arith, weight_suc p) in
    rw e (omega (arith, weight_suc p), ground arith)

-- The high bit of a field says that its value is 2 or 3.
pub test_bit-field : (v p : ℕ) → test_bit v (suc (p * 2)) ≡ leb 2 (field v p)
unfolding field test_bit
test_bit-field v zero = ground arith
test_bit-field v (suc p) =
    let e : v / 2 / 2 ≡ v / 4 = omega arith in
    let e' : suc p * 2 ≡ suc (suc (p * 2)) = omega arith in
    rw e' (
      subst (λ (w : ℕ). test_bit w (suc (p * 2)) ≡ leb 2 (field (v / 4) p)) (sym e)
        (test_bit-field (v / 4) p))

-- Counting up keeps the width.
pub field_add_width :
    (n v p : ℕ) → v < 2 ^ (n * 2) → p < n → field v p < 3 → v + 2 ^ (p * 2) < 2 ^ (n * 2)
unfolding field
field_add_width zero v p h k f = elim k [ ]
field_add_width (suc n) v zero h k f = omega (arith, weight_suc n)
field_add_width (suc n) v (suc p) h k f = omega (
  arith,
  weight_suc n,
  weight_suc p,
  field_add_width n (v / 4) p (omega (arith, weight_suc n)) (omega arith) f,
)
