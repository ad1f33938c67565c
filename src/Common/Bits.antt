-- ===== src/Common/Bits.antt =====
-- Bits of native numbers: `&` and `|` read bit by bit, single-bit masks and their complements, and
-- two-bit fields.
pub mod Step
use Step.{bit_or_step, bit_and_step, zero-bit_and}
use computer_architect.Common.Tests.{◌==◌, ltb, Bool-cases}
use Prim.Native.Nat.{ℕ, zero, suc, ◌+◌, ◌-◌, ◌*◌, ◌/◌, ◌%◌, ◌^◌, ◌≤◌, ◌<◌, bit_and, bit_or}
use mathlib.Core.Path.{◌≡◌, refl}
use mathlib.Core.Logic.{inl, inr}
use mathlib.Core.Bool.{Bool, true, false, not, ◌&&◌, ◌||◌}
use native.Mathlib.Nat.{pow-suc, div-div-eq-div-mul, mul_comm}
use native.Mathlib.Omega.{arith}

-- Bit `p` of a number, by recursion on its place.
unfoldable pub test_bit : ℕ → ℕ → Bool
test_bit v zero = v % 2 == 1
test_bit v (suc p) = test_bit (v / 2) p

bit_or_half : (a b : ℕ) → bit_or a b / 2 ≡ bit_or (a / 2) (b / 2)
bit_or_half a b = omega (arith, bit_or_step a b)

bit_and_half : (a b : ℕ) → bit_and a b / 2 ≡ bit_and (a / 2) (b / 2)
bit_and_half a b = omega (arith, bit_and_step a b)

pow_half : (p : ℕ) → 2 ^ suc p / 2 ≡ 2 ^ p
pow_half p = omega (arith, pow-suc 2 p)

-- Bit `p` of `a | b`.
pub test_bit-bit_or : (a b p : ℕ) → test_bit (bit_or a b) p ≡ test_bit a p || test_bit b p
unfolding test_bit
test_bit-bit_or a b zero = ground (arith, bit_or_step a b)
test_bit-bit_or a b (suc p) = rw (bit_or_half a b) (test_bit-bit_or (a / 2) (b / 2) p)

pub test_bit-bit_and : (a b p : ℕ) → test_bit (bit_and a b) p ≡ test_bit a p && test_bit b p
unfolding test_bit
test_bit-bit_and a b zero = ground (arith, bit_and_step a b)
test_bit-bit_and a b (suc p) = rw (bit_and_half a b) (test_bit-bit_and (a / 2) (b / 2) p)

pub test_bit-zero : (p : ℕ) → test_bit 0 p ≡ false
unfolding test_bit
test_bit-zero zero = refl
test_bit-zero (suc p) = test_bit-zero p

pub test_bit-pow : (p q : ℕ) → test_bit (2 ^ p) q ≡ (p == q)
unfolding test_bit
test_bit-pow zero zero = refl
test_bit-pow zero (suc q) = ground (arith, test_bit-zero q)
test_bit-pow (suc p) zero = ground (arith, pow-suc 2 p)
test_bit-pow (suc p) (suc q) = rw (pow_half p) (ground (arith, test_bit-pow p q))

-- A number is its bits.
pub test_bit_ext :
    (n v w : ℕ) → v < 2 ^ n → w < 2 ^ n → ((p : ℕ) → p < n → test_bit v p ≡ test_bit w p) → v ≡ w
unfolding test_bit
test_bit_ext zero v w hv hw h = omega arith
test_bit_ext (suc n) v w hv hw h =
    let top =
      test_bit_ext n (v / 2) (w / 2) (omega (arith, pow-suc 2 n)) (omega (arith, pow-suc 2 n))
        (λ p hp. h (suc p) (omega arith)) in
    ground (arith, h 0 (omega arith))

-- A bit is a digit of the quotient by its weight.
pub test_bit_digit : (v p : ℕ) → test_bit v p ≡ (v / 2 ^ p % 2 == 1)
unfolding test_bit
test_bit_digit v zero = ground arith
test_bit_digit v (suc p) = ground (
  arith,
  test_bit_digit (v / 2) p,
  div-div-eq-div-mul v 2 (2 ^ p),
  pow-suc 2 p,
  mul_comm (2 ^ p) 2,
)

bit_and-zero_fuel : (n v : ℕ) → v ≤ n → bit_and v 0 ≡ 0
bit_and-zero_fuel n zero h = refl
bit_and-zero_fuel zero (suc v) h = absurd (omega arith)
bit_and-zero_fuel (suc n) (suc v) h =
    omega (arith, bit_and_step (suc v) 0, bit_and-zero_fuel n (suc v / 2) (omega arith))

pub bit_and-zero : (v : ℕ) → bit_and v 0 ≡ 0
bit_and-zero v = bit_and-zero_fuel v v (omega arith)

pub bit_and_three : (v : ℕ) → bit_and v 3 ≡ v % 4
bit_and_three v = omega (arith, bit_and_step v 3, bit_and_step (v / 2) 1, bit_and-zero (v / 2 / 2))

-- `v & (1 << p)` is not 0 exactly when bit `p` is set.
pub mask_test : (v p : ℕ) → not (bit_and v (2 ^ p) == 0) ≡ test_bit v p
unfolding test_bit
mask_test v zero = ground (arith, bit_and_step v 1, bit_and-zero (v / 2))
mask_test v (suc p) =
    ground (arith, bit_and_step v (2 ^ suc p), pow_half p, pow-suc 2 p, mask_test (v / 2) p)

-- The complement of a `k`-bit number.
pub test_bit-complement :
    (k x p : ℕ) → x < 2 ^ k → test_bit (2 ^ k - 1 - x) p ≡ not (test_bit x p) && ltb p k
unfolding test_bit
test_bit-complement zero x p h = let e : x ≡ 0 = omega arith in rw (e, test_bit-zero) (ground arith)
test_bit-complement (suc k) x zero h = ground (arith, pow-suc 2 k)
test_bit-complement (suc k) x (suc p) h =
    let e : (2 ^ suc k - 1 - x) / 2 ≡ 2 ^ k - 1 - x / 2 = omega (arith, pow-suc 2 k) in
    rw e (ground (arith, pow-suc 2 k, test_bit-complement k (x / 2) p))

-- No bit is set from the width on.
pub test_bit_width : (n v p : ℕ) → v < 2 ^ n → n ≤ p → test_bit v p ≡ false
unfolding test_bit
test_bit_width zero v p h le = let e : v ≡ 0 = omega arith in rw e (test_bit-zero p)
test_bit_width (suc n) v (suc p) h le =
    test_bit_width n (v / 2) p (omega (arith, pow-suc 2 n)) (omega arith)
test_bit_width (suc n) v zero h le = absurd (omega arith)

-- `|` and `&` keep a width.
pub bit_or-lt : (n a b : ℕ) → a < 2 ^ n → b < 2 ^ n → bit_or a b < 2 ^ n
bit_or-lt zero a b p q =
    let e : a ≡ 0 = omega arith in let e' : b ≡ 0 = omega arith in rw (e, e') (omega arith)
bit_or-lt (suc n) a b p q = omega (
  arith,
  bit_or_step a b,
  pow-suc 2 n,
  bit_or-lt n (a / 2) (b / 2) (omega (arith, pow-suc 2 n)) (omega (arith, pow-suc 2 n)),
)

pub bit_and-lt : (n a b : ℕ) → a < 2 ^ n → bit_and a b < 2 ^ n
bit_and-lt zero a b p = let e : a ≡ 0 = omega arith in rw e (rw (zero-bit_and b) (omega arith))
bit_and-lt (suc n) a b p = omega (
  arith,
  bit_and_step a b,
  pow-suc 2 n,
  bit_and-lt n (a / 2) (b / 2) (omega (arith, pow-suc 2 n)),
)

pub pow_mono : (p n : ℕ) → p ≤ n → 2 ^ p ≤ 2 ^ n
pow_mono zero zero h = omega arith
pow_mono zero (suc n) h = omega (arith, pow-suc 2 n, pow_mono zero n (omega arith))
pow_mono (suc p) zero h = absurd (omega arith)
pow_mono (suc p) (suc n) h = omega (arith, pow-suc 2 n, pow-suc 2 p, pow_mono p n (omega arith))

pub pow_mono_lt : (p n : ℕ) → p < n → 2 ^ p < 2 ^ n
pow_mono_lt p n h = omega (arith, pow_mono (suc p) n h, pow-suc 2 p, pow_mono 0 p (omega arith))

-- A number above 0 has a bit below its width.
pub bit_exists : (n v : ℕ) → v < 2 ^ n → 0 < v → (p : ℕ) × (p < n) × (test_bit v p ≡ true)
unfolding test_bit
bit_exists zero v h pos = absurd (omega arith)
bit_exists (suc n) v h pos = elim (Bool-cases (v % 2 == 1)) [
  | inl odd ↦ (0, omega arith, odd)
  | inr even ↦
      let half : 0 < v / 2 = ground arith in
      let (p, lt, on) = bit_exists n (v / 2) (omega (arith, pow-suc 2 n)) half in
      (suc p, omega arith, on)
]

-- The `int` of sign bit alone, extended to 64 bits, selects bit 31 of a 32-bit value.
pub bit_and_sign : (v : ℕ) → v < 2 ^ 32 → bit_and v (2 ^ 64 - 2 ^ 31) ≡ bit_and v (2 ^ 31)
bit_and_sign v h = test_bit_ext 32 _ _ (bit_and-lt 32 v _ h) (bit_and-lt 32 v _ h) λ p hp. ground (
  arith,
  test_bit-bit_and v (2 ^ 64 - 2 ^ 31) p,
  test_bit-bit_and v (2 ^ 31) p,
  test_bit-pow 31 p,
  test_bit-complement 64 (2 ^ 31 - 1) p (omega arith),
  test_bit-complement 31 0 p (omega arith),
  test_bit-zero p,
)

pub pos_of_bit : (v p : ℕ) → test_bit v p ≡ true → 0 < v
pos_of_bit zero p h = ground (arith, test_bit-zero p)
pos_of_bit (suc v) p h = omega arith
