-- ===== src/Fft/Blocks.antt =====
-- The number of blocks that `Transpose` cuts the rows of a process into.
use computer_architect.Common.{
  ℕ, suc, ◌+◌, ◌-◌, ◌*◌, ◌/◌, ◌^◌, ◌<◌, ◌≤◌, ◌≡◌, refl, ap, arith, sym, ◌∙◌, ◌==◌, leb, true, false,
  Bool-cases, inl, inr,
}
use computer_architect.Common.Bits.{pow_mono}
use computer_architect.Common.Masks.{pow_pos}
use computer_architect.Fft.{count_blocks}
use computer_architect.Radix.Digits.{pow_sum}
use native.Mathlib.Nat.{pow-succ', mul-div_left, mul-div_right, div-eq_of_lt, div-one}

count_blocks-few : (a b : ℕ) → a ≤ b → count_blocks (2 ^ suc a) (2 ^ b) ≡ 2 ^ (b - a)
unfolding count_blocks
count_blocks-few a b le =
    let e : a + (b - a) ≡ b = omega arith in
    let whole : 2 * 2 ^ b ≡ 2 ^ (b - a) * 2 ^ suc a =
      sym (pow-succ' 2 b)
      ∙ ap (λ z. 2 ^ suc z) (sym e)
      ∙ ap (λ z. 2 ^ z) (omega arith)
      ∙ pow_sum 2 (suc a) (b - a) in
    let count : 2 * 2 ^ b / 2 ^ suc a ≡ 2 ^ (b - a) =
      ap (λ z. z / 2 ^ suc a) whole ∙ mul-div_left (2 ^ (b - a)) (pow_pos (suc a)) in
    let exact : (2 ^ (b - a) * 2 ^ suc a == 2 * 2 ^ b) ≡ true = ground (arith, whole) in
    rw (count, exact) refl

count_blocks-many : (a b : ℕ) → b < a → count_blocks (2 ^ suc a) (2 ^ b) ≡ 1
unfolding count_blocks
count_blocks-many a b lt =
    let more = pow_mono (suc (suc b)) (suc a) (omega arith) in
    let count : 2 * 2 ^ b / 2 ^ suc a ≡ 0 =
      div-eq_of_lt (omega (arith, more, pow-succ' 2 b, pow-succ' 2 (suc b), pow_pos b)) in
    let inexact : (0 * 2 ^ suc a == 2 * 2 ^ b) ≡ false = ground (arith, pow_pos b) in
    rw (count, inexact) refl

-- With a power of two from 2 on as the number of cache lines, and a power of two as the number of
-- rows, the blocks cover the rows.
pub count_blocks_lem :
    (a b : ℕ)
    → count_blocks (2 ^ suc a) (2 ^ b) * (2 ^ b / count_blocks (2 ^ suc a) (2 ^ b)) ≡ 2 ^ b
count_blocks_lem a b = elim (Bool-cases (leb a b)) [
  | inl few ↦
      let le : a ≤ b = ground arith in
      let rows : 2 ^ b ≡ 2 ^ (b - a) * 2 ^ a =
        ap (λ z. 2 ^ z) (omega arith) ∙ pow_sum 2 a (b - a) in
      let size : 2 ^ b / 2 ^ (b - a) ≡ 2 ^ a =
        ap (λ z. z / 2 ^ (b - a)) rows ∙ mul-div_right (2 ^ a) (pow_pos (b - a)) in
      rw (count_blocks-few a b le, size) (sym rows)
  | inr many ↦ rw (count_blocks-many a b (ground arith), div-one (2 ^ b)) (omega arith)
]
