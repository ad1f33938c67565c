-- ===== src/Radix/Parts.antt =====
-- The parts of the keys, one per process.
use computer_architect.Common.{
  ℕ, zero, suc, ◌+◌, ◌*◌, ◌/◌, ◌%◌, ◌<◌, ◌≤◌, ◌≡◌, refl, ap, arith, sym, ◌==◌, ltb, Bool-cases, inl,
  inr,
}
use computer_architect.Common.Runs.{done}
use computer_architect.Radix.{store, cut}
use native.Mathlib.Nat.{
  add-mul, mul_comm, div-add-mod', mod-lt, mul-le-mul_right, div-eq_of_lt-le, mul-div_right,
  zero-mul, le-div_iff_mul-le, div-mul-le_self,
}

-- The sums of the loop after `p` rounds.
abbrev Sums : (total number p sum_i sum_f : ℕ) → Type 0
Sums total number p i f = (i * number + f ≡ p * total) × (f < number)

Sums-suc :
    (total number p i f : ℕ)
    → Sums total number p i f
    → Sums total number
        (p + 1)
        (i + total / number + (f + total % number) / number)
        ((f + total % number) % number)
Sums-suc total number p i f (e, lt) = (
  omega (
    arith,
    add-mul (i + total / number) ((f + total % number) / number) number,
    add-mul i (total / number) number,
    div-add-mod' total number,
    div-add-mod' (f + total % number) number,
    add-mul p 1 total,
  ),
  mod-lt (f + total % number) (omega arith),
)

-- The loop goes on exactly before the last process.
Sums-less : (total number p i f : ℕ) → Sums total number p i f → p ≤ number → i < total → p < number
Sums-less total number p i f (e, lt) le less = elim (Bool-cases (p == number)) [
  | inl at ↦
      let now : p ≡ number = ground arith in
      absurd (
        omega (
          arith,
          ap (λ z. z * total) now,
          mul_comm number total,
          mul-le-mul_right {m = i + 1} {n = total} number (omega arith),
          add-mul i 1 number,
        ))
  | inr before ↦ ground arith
]

Sums-end :
    (total number p i f : ℕ)
    → Sums total number p i f
    → 0 < total
    → p ≤ number
    → total ≤ i
    → p ≡ number
Sums-end total number p i f (e, lt) pos le enough = elim (Bool-cases (p == number)) [
  | inl at ↦ ground arith
  | inr before ↦ absurd (
      omega (
        arith,
        mul_comm number total,
        mul-le-mul_right {m = total} {n = i} number enough,
        mul-le-mul_right {m = p + 1} {n = number} total (ground arith),
        add-mul p 1 total,
      ))
]

Sums-share : (total number p i f : ℕ) → Sums total number p i f → p * total / number ≡ i
Sums-share total number p i f (e, lt) =
    div-eq_of_lt-le number (omega arith) (omega (arith, add-mul i 1 number))

cut_from :
    (left total number : ℕ) (part : ℕ → ℕ) (p i f : ℕ)
    → Sums total number p i f
    → 0 < total
    → p ≤ number
    → number < left + p
    → ((j : ℕ) → j < p → part j ≡ j * total / number)
    → (part' : ℕ → ℕ) × (cut left total number part p i f ≡ done part')
      × ((j : ℕ) → j ≤ number → part' j ≡ j * total / number)
unfolding cut
cut_from zero total number part p i f sums pos le fuel known = absurd (omega arith)
cut_from (suc left) total number part p i f sums pos le fuel known =
    elim (Bool-cases (ltb i total)) [
      | inl less ↦
          let before = Sums-less total number p i f sums le (ground arith) in
          let (part', runs, all) =
            cut_from left total number (store part p i) (p + 1) _ _
              (Sums-suc total number p i f sums) pos (omega arith) (omega arith)
              (λ j lt. elim (Bool-cases (j == p)) [
                | inl at ↦
                    let e : j ≡ p = ground arith in
                    rw (at, e) (sym (Sums-share total number p i f sums))
                | inr off ↦ rw off (known j (ground arith))
              ]) in
          (part', rw less runs, all)
      | inr enough ↦
          let last : p ≡ number = Sums-end total number p i f sums pos le (ground arith) in
          (
            store part p total,
            rw enough refl,
            λ j bound. elim (Bool-cases (j == p)) [
              | inl at ↦
                  let e : j ≡ number = ground arith in
                  rw at (rw e (sym (mul-div_right total (omega arith))))
              | inr off ↦ rw off (known j (ground arith))
            ],
          )
    ]

-- For at least one thing, at least one process and more rounds than processes, the loop that cuts
-- the things into parts ends, and the part of process j starts at j times the things divided by
-- the processes, up to the end of the last part.
pub cut_lem :
    (fuel total number : ℕ)
    → 0 < total
    → 0 < number
    → number < fuel
    → (part : ℕ → ℕ) × (cut fuel total number (λ p. 0) 0 0 0 ≡ done part)
      × ((j : ℕ) → j ≤ number → part j ≡ j * total / number)
cut_lem fuel total number pos some lt =
    cut_from fuel total number (λ p. 0) 0 0 0 (rw (zero-mul number, zero-mul total) (refl, some))
      pos (omega arith) (omega arith) (λ j lt'. absurd (omega arith))

-- The parts follow each other.
pub share-suc : (total number m : ℕ) → 0 < number → m * total / number ≤ suc m * total / number
share-suc total number m some =
    (le-div_iff_mul-le {k = number} {x = m * total / number} {y = suc m * total} some).1 (
      omega
        (arith, div-mul-le_self (m * total) number, add-mul m 1 total, ap (λ z. z * total) (one m)))
  where
    one : (m : ℕ) → m + 1 ≡ suc m
    one m = omega arith
