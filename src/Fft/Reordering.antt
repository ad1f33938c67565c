-- ===== src/Fft/Reordering.antt =====
-- The data after `Reverse`: each complex number at the reverse of its index.
use computer_architect.Common.{
  ℕ, zero, suc, ◌+◌, ◌-◌, ◌*◌, ◌^◌, min, ◌<◌, ◌≤◌, ◌≡◌, refl, ap, arith, sym, ◌∙◌, ◌==◌, ltb, false,
  Bool-cases, inl, inr, if◌then◌else◌,
}
use computer_architect.Common.Bits.{test_bit, test_bit_ext}
use computer_architect.Fft.{bit_reverse, swap_vals, reverse}
use computer_architect.Fft.BitReversal.{bit_reverse_twice, bit_reverse-lt, test_bit-bit_reverse}

-- Both parts of two complex numbers change places.
swap_both :
    {A : Type 0} (y : ℕ → A) (j k i c : ℕ)
    → c < 2
    → swap_vals (swap_vals y (2 * j) (2 * k)) (2 * j + 1) (2 * k + 1) (2 * i + c)
      ≡ (if i == k then y (2 * j + c) else if i == j then y (2 * k + c) else y (2 * i + c))
unfolding swap_vals
swap_both y j k i zero lt = ground arith
swap_both y j k i (suc zero) lt = ground arith
swap_both y j k i (suc (suc c)) lt = absurd (omega arith)

-- Where the value of cell `i` comes from after `k` rounds.
abbrev source : (m k i : ℕ) → ℕ
source m k i = if ltb (min i (bit_reverse m i)) k then bit_reverse m i else i

reverse_rounds :
    {A : Type 0} (m : ℕ) (x : ℕ → A) (k i c : ℕ)
    → k ≤ 2 ^ m
    → i < 2 ^ m
    → c < 2
    → reverse m x k (2 * i + c) ≡ x (2 * source m k i + c)
unfolding reverse
reverse_rounds m x zero i c le lt part =
    let none : ltb (min i (bit_reverse m i)) 0 ≡ false = ground arith in rw none refl
reverse_rounds m x (suc k) i c le lt part =
    let j = bit_reverse m k in
    let twice : bit_reverse m j ≡ k = bit_reverse_twice m k (omega arith) in
    let back : bit_reverse m i ≡ k → i ≡ j =
      λ e. sym (bit_reverse_twice m i lt) ∙ ap (λ z. bit_reverse m z) e in
    let before = λ (i' : ℕ) (lt' : i' < 2 ^ m). reverse_rounds m x k i' c (omega arith) lt' part in
    let from = λ (e : ℕ). x (2 * e + c) in
    elim (Bool-cases (ltb k j)) [
      | inl swap ↦ rw swap (
          swap_both (reverse m x k) j k i c part ∙ elim (Bool-cases (i == k)) [
            | inl at ↦
                let e : i ≡ k = ground arith in
                let here : source m k j ≡ source m (suc k) i = rw (twice, e) (ground arith) in
                rw at (before j (bit_reverse-lt m k) ∙ ap from here)
            | inr off ↦ elim (Bool-cases (i == j)) [
              | inl at ↦
                  let e : i ≡ j = ground arith in
                  let here : source m k k ≡ source m (suc k) i = rw (e, twice) (ground arith) in
                  rw (off, at) (before k (omega arith) ∙ ap from here)
              | inr other ↦
                  let same : source m k i ≡ source m (suc k) i = ground (arith, back) in
                  rw (off, other) (before i lt ∙ ap from same)
            ]
          ])
      | inr keep ↦
          let same : source m k i ≡ source m (suc k) i = elim (Bool-cases (i == k)) [
            | inl at ↦ let e : i ≡ k = ground arith in rw e (ground (arith, twice))
            | inr off ↦ ground (arith, back)
          ] in
          rw keep (before i lt ∙ ap from same)
    ]

-- After `Reverse` on 2^m complex numbers, for i and j below 2^m such that bit p of j is bit m - 1
-- - p of i for each p below m, the number that stood at index j is at index i, in both of its
-- parts.
pub reverse_lem :
    {A : Type 0} (m : ℕ) (x : ℕ → A) (i j c : ℕ)
    → i < 2 ^ m
    → j < 2 ^ m
    → c < 2
    → ((p : ℕ) → p < m → test_bit j p ≡ test_bit i (m - 1 - p))
    → reverse m x (2 ^ m) (2 * i + c) ≡ x (2 * j + c)
reverse_lem m x i j c lt lt' part reversed =
    let all : source m (2 ^ m) i ≡ bit_reverse m i = ground arith in
    let same : bit_reverse m i ≡ j =
      test_bit_ext m (bit_reverse m i) j (bit_reverse-lt m i) lt'
        (λ p below. test_bit-bit_reverse m i p below ∙ sym (reversed p below)) in
    reverse_rounds m x (2 ^ m) i c (omega arith) lt part ∙ ap (λ e. x (2 * e + c)) (all ∙ same)
