-- ===== src/Common/Bits/Step.antt =====
-- `&` and `|` on the lowest digit. The native operations recur on a count of digits to go; a count
-- above the first number changes nothing.
use Prim.Native.Nat.{
  ℕ, zero, suc, ◌+◌, ◌-◌, ◌*◌, ◌/◌, ◌%◌, ◌≤◌, min, max, digits, bitwise, bit_and, bit_or,
  bit_and-bitwise, bit_or-bitwise,
}
use mathlib.Core.Path.{◌≡◌, refl, sym, ap, ◌∙◌}
use native.Mathlib.Omega.{arith}

module _ (end_of : ℕ → ℕ) (join : ℕ → ℕ → ℕ) where
  one_more :
      (count x y : ℕ)
      → x ≤ count
      → digits end_of join (suc count) x y ≡ digits end_of join count x y
  one_more zero zero y enough = refl
  one_more zero (suc x) y enough = absurd (omega arith)
  one_more (suc count) zero y enough = refl
  one_more (suc count) (suc x) y enough =
      ap (λ top. top * 2 + join (suc x % 2) (y % 2))
        (one_more count (suc x / 2) (y / 2) (omega arith))

  many_more : (spare x y : ℕ) → digits end_of join (spare + x) x y ≡ bitwise end_of join x y
  many_more zero x y = let e : 0 + x ≡ x = omega arith in rw e refl
  many_more (suc spare) x y =
      let e : suc spare + x ≡ suc (spare + x) = omega arith in
      rw e (one_more (spare + x) x y (omega arith) ∙ many_more spare x y)

  -- The lowest digit apart, for an end that agrees with the operation on 0.
  pub lowest_digit :
      ((y : ℕ) → end_of y ≡ end_of (y / 2) * 2 + join 0 (y % 2))
      → (x y : ℕ)
      → bitwise end_of join x y ≡ bitwise end_of join (x / 2) (y / 2) * 2 + join (x % 2) (y % 2)
  lowest_digit agrees zero y = agrees y
  lowest_digit agrees (suc x) y =
      let half = suc x / 2 in
      let e : x - half + half ≡ x = omega arith in
      ap (λ top. top * 2 + join (suc x % 2) (y % 2))
        (ap (λ count. digits end_of join count half (y / 2)) (sym e)
          ∙ many_more (x - half) half (y / 2))

pub bit_or_step : (a b : ℕ) → bit_or a b ≡ bit_or (a / 2) (b / 2) * 2 + max (a % 2) (b % 2)
bit_or_step a b = simp bit_or-bitwise (lowest_digit (λ y. y) max (λ y. omega arith) a b)

pub bit_and_step : (a b : ℕ) → bit_and a b ≡ bit_and (a / 2) (b / 2) * 2 + min (a % 2) (b % 2)
bit_and_step a b = simp bit_and-bitwise (lowest_digit (λ y. 0) min (λ y. omega arith) a b)

pub zero-bit_and : (b : ℕ) → bit_and 0 b ≡ 0
zero-bit_and b = bit_and-bitwise 0 b
