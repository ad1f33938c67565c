-- ===== src/Fft/Tests.antt =====
-- The reordering and the transposition of a few numbers, and the theorems at concrete inputs.
use computer_architect.Common.{
  ℕ, zero, suc, ◌+◌, ◌*◌, ◌-◌, ◌<◌, List, [], ◌∷◌, refl, ◌≡◌, arith, none, some,
}
use computer_architect.Fft.{reverse, transpose_all, count_blocks}
use computer_architect.Fft.Reordering.{reverse_lem}
use computer_architect.Common.Bits.{test_bit}
use computer_architect.Fft.Transposition.{transpose_all_lem}

abbrev numbers : ℕ → ℕ
numbers i = i + 100

abbrev blank : ℕ → ℕ
blank i = 0

abbrev first : ℕ → (ℕ → ℕ) → List ℕ
first zero f = []
first (suc n) f = f 0 ∷ first n (λ i. f (suc i))

-- Four complex numbers by reversed bits, and a 4 by 4 matrix transposed by 2 processes.
abbrev reordered : List ℕ
reordered = first 8 (reverse 2 numbers 4)

abbrev transposed : List ℕ
transposed = elim (transpose_all 2 2 4 numbers blank 1 2) [ none ↦ [] | some x ↦ first 40 x ]

reversed : (p : ℕ) → p < 3 → test_bit 3 p ≡ test_bit 6 (3 - 1 - p)
unfolding test_bit
reversed zero lt = refl
reversed (suc zero) lt = refl
reversed (suc (suc zero)) lt = refl
reversed (suc (suc (suc p))) lt = absurd (omega arith)

reverse_lem_example : reverse 3 numbers 8 (2 * 6 + 1) ≡ numbers (2 * 3 + 1)
reverse_lem_example = reverse_lem 3 numbers 6 3 1 (omega arith) (omega arith) (omega arith) reversed

transpose_all_lem_example :
    (dest' : ℕ → ℕ) × (transpose_all 2 2 4 numbers blank 1 2 ≡ some dest')
    × ((v h c : ℕ)
        → v < 4
        → h < 4
        → c < 2
        → dest' (2 * (h * (4 + 1) + v) + c) ≡ numbers (2 * (v * (4 + 1) + h) + c))
unfolding count_blocks
transpose_all_lem_example =
    transpose_all_lem 2 2 4 2 1 numbers blank (omega arith) (omega arith) refl refl
