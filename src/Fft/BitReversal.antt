-- ===== src/Fft/BitReversal.antt =====
-- Reversing the bits of a number twice.
use computer_architect.Common.{
  ℕ, zero, suc, ◌+◌, ◌*◌, ◌/◌, ◌%◌, ◌^◌, ◌<◌, ◌-◌, ◌≡◌, refl, ap, arith, sym, ◌∙◌,
}
use computer_architect.Common.Bits.{test_bit, test_bit_digit}
use computer_architect.Common.Masks.{mod_pow_suc, pow_pos}
use computer_architect.Fft.{shift_in, bit_reverse}
use native.Mathlib.Nat.{
  pow-suc, pow-succ', mul_assoc, div-div-eq-div-mul, mul-add-mod_self_left, mul-add-div,
  mod-eq_of_lt, div-eq_of_lt, mul-add, mul-le-mul_left, add-zero,
}

-- The lowest bit goes to the highest place.
unfoldable reversed : ℕ → ℕ → ℕ
reversed zero t = 0
reversed (suc m) t = 2 ^ m * (t % 2) + reversed m (t / 2)

shift_in_lem : (m j t : ℕ) → shift_in m j t ≡ 2 ^ m * j + reversed m t
unfolding shift_in reversed
shift_in_lem zero j t = omega arith
shift_in_lem (suc m) j t =
    shift_in_lem m (2 * j + t % 2) (t / 2)
    ∙ omega (
      arith,
      mul-add (2 ^ m) (2 * j) (t % 2),
      sym (mul_assoc (2 ^ m) 2 j),
      ap (λ z. z * j) (pow-suc 2 m),
    )

bit_reverse-reversed : (m k : ℕ) → bit_reverse m k ≡ reversed m k
unfolding bit_reverse
bit_reverse-reversed m k = omega (arith, shift_in_lem m 0 k)

reversed-lt : (m t : ℕ) → reversed m t < 2 ^ m
unfolding reversed
reversed-lt zero t = omega arith
reversed-lt (suc m) t = omega (
  arith,
  reversed-lt m (t / 2),
  pow-suc 2 m,
  mul-le-mul_left {m = t % 2} {n = 1} (2 ^ m) (omega arith),
)

-- The highest bit goes to the lowest place.
reversed_high : (m t : ℕ) → reversed (suc m) t ≡ 2 * reversed m (t % 2 ^ m) + t / 2 ^ m % 2
unfolding reversed
reversed_high zero t = omega arith
reversed_high (suc m) t =
    let w = t % 2 ^ suc m in
    let low : w % 2 ≡ t % 2 = omega (arith, mod_pow_suc m t) in
    let half : w / 2 ≡ t / 2 % 2 ^ m = omega (arith, mod_pow_suc m t) in
    let top : t / 2 ^ suc m ≡ t / 2 / 2 ^ m =
      ap (λ z. t / z) (pow-succ' 2 m) ∙ sym (div-div-eq-div-mul t 2 (2 ^ m)) in
    let weight : 2 ^ suc m * (t % 2) ≡ 2 * (2 ^ m * (t % 2)) =
      ap (λ z. z * (t % 2)) (pow-succ' 2 m) ∙ mul_assoc 2 (2 ^ m) (t % 2) in
    rw (low, half, top) (omega (arith, weight, reversed_high m (t / 2)))

reversed_twice : (m t : ℕ) → t < 2 ^ m → reversed m (reversed m t) ≡ t
unfolding reversed
reversed_twice zero t lt = omega arith
reversed_twice (suc m) t lt =
    let r = reversed m (t / 2) in
    let s = 2 ^ m * (t % 2) + r in
    let low : s % 2 ^ m ≡ r =
      mul-add-mod_self_left (2 ^ m) (t % 2) r ∙ mod-eq_of_lt (reversed-lt m (t / 2)) in
    let top : s / 2 ^ m ≡ t % 2 =
      mul-add-div (pow_pos m) (t % 2) r
      ∙ ap (λ z. t % 2 + z) (div-eq_of_lt (reversed-lt m (t / 2)))
      ∙ add-zero (t % 2) in
    let half = reversed_twice m (t / 2) (omega (arith, pow-suc 2 m)) in
    reversed_high m s ∙ rw (low, top) (omega (arith, half))

-- Reversing the lowest `m` bits of a number of at most `m` bits twice gives the number.
pub bit_reverse_twice : (m k : ℕ) → k < 2 ^ m → bit_reverse m (bit_reverse m k) ≡ k
bit_reverse_twice m k lt =
    rw (bit_reverse-reversed m k, bit_reverse-reversed m (reversed m k)) (reversed_twice m k lt)

pub bit_reverse-lt : (m k : ℕ) → bit_reverse m k < 2 ^ m
bit_reverse-lt m k = rw (bit_reverse-reversed m k) (reversed-lt m k)

-- The low bits of a number are its bits.
test_bit-low : (m t p : ℕ) → p < m → test_bit (t % 2 ^ m) p ≡ test_bit t p
unfolding test_bit
test_bit-low zero t p lt = absurd (omega arith)
test_bit-low (suc m) t zero lt =
    let low : t % 2 ^ suc m % 2 ≡ t % 2 = omega (arith, mod_pow_suc m t) in rw low refl
test_bit-low (suc m) t (suc p) lt =
    let half : t % 2 ^ suc m / 2 ≡ t / 2 % 2 ^ m = omega (arith, mod_pow_suc m t) in
    rw half (test_bit-low m (t / 2) p (omega arith))

test_bit-reversed : (m t p : ℕ) → p < m → test_bit (reversed m t) p ≡ test_bit t (m - 1 - p)
unfolding test_bit
test_bit-reversed zero t p lt = absurd (omega arith)
test_bit-reversed (suc m) t zero lt =
    let low : reversed (suc m) t % 2 ≡ t / 2 ^ m % 2 = omega (arith, reversed_high m t) in
    let last : suc m - 1 - 0 ≡ m = omega arith in rw (low, last) (sym (test_bit_digit t m))
test_bit-reversed (suc m) t (suc p) lt =
    let half : reversed (suc m) t / 2 ≡ reversed m (t % 2 ^ m) = omega (arith, reversed_high m t) in
    let next : suc m - 1 - suc p ≡ m - 1 - p = omega arith in
    rw (half, next)
      (test_bit-reversed m (t % 2 ^ m) p (omega arith) ∙ test_bit-low m t (m - 1 - p) (omega arith))

-- Bit p of the result of BitReverse is bit m - 1 - p of its argument.
pub test_bit-bit_reverse :
    (m k p : ℕ) → p < m → test_bit (bit_reverse m k) p ≡ test_bit k (m - 1 - p)
test_bit-bit_reverse m k p lt = rw (bit_reverse-reversed m k) (test_bit-reversed m k p lt)
