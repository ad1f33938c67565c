-- ===== src/Common/Masks.antt =====
-- Masks of the low and of the high bits of a word, and powers of two.
use computer_architect.Common.Bits.{bit_and-zero, pow_mono}
use computer_architect.Common.Bits.Step.{bit_and_step}
use Prim.Native.Nat.{ℕ, zero, suc, ◌+◌, ◌-◌, ◌*◌, ◌/◌, ◌%◌, ◌^◌, ◌<◌, bit_and}
use mathlib.Core.Logic.{◌↔◌}
use mathlib.Core.Path.{◌≡◌, refl, sym, ap, ◌∙◌}
use native.Mathlib.Nat.{
  pow-suc, pow-succ', div-div-eq-div-mul, div-add-mod', mod-eq_of_lt, mod-lt, mul-div_left,
  mul-add-mod_self_right, mul_assoc,
}
use native.Mathlib.Omega.{arith}

pub pow_pos : (n : ℕ) → 0 < 2 ^ n
pow_pos n = omega (arith, pow_mono 0 n)

-- A remainder by a power of two, from that of the half.
pub mod_pow_suc : (n v : ℕ) → v % 2 ^ suc n ≡ 2 * (v / 2 % 2 ^ n) + v % 2
mod_pow_suc n v =
    let q = v / 2 / 2 ^ n in
    let r = 2 * (v / 2 % 2 ^ n) + v % 2 in
    let split : v ≡ q * 2 ^ suc n + r = omega (
      arith,
      div-add-mod' (v / 2) (2 ^ n),
      ap (λ z. q * z) (pow-suc 2 n) ∙ sym (mul_assoc q (2 ^ n) 2),
    ) in
    let low : r < 2 ^ suc n = omega (arith, mod-lt (v / 2) (pow_pos n), pow-suc 2 n) in
    ap (λ z. z % 2 ^ suc n) split ∙ mul-add-mod_self_right q (2 ^ suc n) r ∙ mod-eq_of_lt low

-- `v & ~(ALL_ONES << n)`
pub bit_and-low : (n v : ℕ) → bit_and v (2 ^ n - 1) ≡ v % 2 ^ n
bit_and-low zero v = omega (arith, bit_and-zero v)
bit_and-low (suc n) v =
    let e : (2 ^ suc n - 1) / 2 ≡ 2 ^ n - 1 = omega (arith, pow-suc 2 n) in
    let step : bit_and v (2 ^ suc n - 1) ≡ bit_and (v / 2) (2 ^ n - 1) * 2 + v % 2 =
      bit_and_step v (2 ^ suc n - 1) ∙ (rw e (omega (arith, pow-suc 2 n, pow_pos n))) in
    omega (arith, step, mod_pow_suc n v, bit_and-low n (v / 2))

-- `v & (ALL_ONES << n)`, in `n + k` bits.
pub bit_and-high : (n k v : ℕ) → v < 2 ^ (n + k) → bit_and v (2 ^ (n + k) - 2 ^ n) ≡ v - v % 2 ^ n
bit_and-high zero k v h =
    let e : 0 + k ≡ k = omega arith in
    rw e (omega (arith, bit_and-low k v, mod-eq_of_lt (rw e at h)))
bit_and-high (suc n) k v h =
    let sum : suc n + k ≡ suc (n + k) = omega arith in
    let m = 2 ^ suc (n + k) - 2 ^ suc n in
    let e : m / 2 ≡ 2 ^ (n + k) - 2 ^ n = omega (arith, pow-suc 2 n, pow-suc 2 (n + k)) in
    let even : m % 2 ≡ 0 = omega (arith, pow-suc 2 n, pow-suc 2 (n + k)) in
    let step : bit_and v m ≡ bit_and (v / 2) (2 ^ (n + k) - 2 ^ n) * 2 =
      bit_and_step v m ∙ (rw (e, even) (omega arith)) in
    let half : v / 2 < 2 ^ (n + k) = omega (arith, pow-suc 2 (n + k), ap (λ z. 2 ^ z) sum) in
    rw sum (
      omega
        (arith, step, mod_pow_suc n v, bit_and-high n k (v / 2) half, div-add-mod' (v / 2) (2 ^ n)))

div_pow_suc : (o v : ℕ) → v / 2 ^ suc o ≡ v / 2 / 2 ^ o
div_pow_suc o v = ap (λ z. v / z) (pow-succ' 2 o) ∙ sym (div-div-eq-div-mul v 2 (2 ^ o))

-- The middle digits of a number.
pub mod-div : (o s v : ℕ) → v % 2 ^ (o + s) / 2 ^ o ≡ v / 2 ^ o % 2 ^ s
mod-div zero s v =
    let e : 0 + s ≡ s = omega arith in
    let one : v / 1 ≡ v = omega arith in rw (e, one) (omega arith)
mod-div (suc o) s v =
    let sum : suc o + s ≡ suc (o + s) = omega arith in
    let half : v % 2 ^ suc (o + s) / 2 ≡ v / 2 % 2 ^ (o + s) =
      omega (arith, mod_pow_suc (o + s) v) in
    rw sum (
      div_pow_suc o (v % 2 ^ suc (o + s))
      ∙ ap (λ z. z / 2 ^ o) half
      ∙ mod-div o s (v / 2)
      ∙ ap (λ z. z % 2 ^ s) (sym (div_pow_suc o v)))

div_pow_add : (o s v : ℕ) → v / 2 ^ (o + s) ≡ v / 2 ^ o / 2 ^ s
div_pow_add zero s v =
    let e : 0 + s ≡ s = omega arith in let one : v / 1 ≡ v = omega arith in rw (e, one) refl
div_pow_add (suc o) s v =
    let sum : suc o + s ≡ suc (o + s) = omega arith in
    rw sum (
      div_pow_suc (o + s) v ∙ div_pow_add o s (v / 2) ∙ ap (λ z. z / 2 ^ s) (sym (div_pow_suc o v)))

-- The middle digits and the high part of a number give its quotient, and conversely.
pub parts_iff :
    (o s a b : ℕ)
    → ((a / 2 ^ o % 2 ^ s ≡ b / 2 ^ o % 2 ^ s) × (a - a % 2 ^ (o + s) ≡ b - b % 2 ^ (o + s)))
      ↔ (a / 2 ^ o ≡ b / 2 ^ o)
parts_iff o s a b =
    let w = 2 ^ (o + s) in
    let high : (v : ℕ) → v - v % w ≡ v / w * w = λ v. omega (arith, div-add-mod' v w) in
    (
      λ h.
          let tops : a / w ≡ b / w =
            sym (mul-div_left (a / w) (pow_pos (o + s)))
            ∙ ap (λ z. z / w) (sym (high a) ∙ h.1 ∙ high b)
            ∙ mul-div_left (b / w) (pow_pos (o + s)) in
          let quotients = sym (div_pow_add o s a) ∙ tops ∙ div_pow_add o s b in
          sym (div-add-mod' (a / 2 ^ o) (2 ^ s))
          ∙ rw (quotients, h.0) (div-add-mod' (b / 2 ^ o) (2 ^ s)),
      λ e. (
        ap (λ z. z % 2 ^ s) e,
        high a
            ∙ ap (λ z. z * w) (div_pow_add o s a ∙ ap (λ z. z / 2 ^ s) e ∙ sym (div_pow_add o s b))
            ∙ sym (high b),
      ),
    )
