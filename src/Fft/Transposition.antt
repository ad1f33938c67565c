-- ===== src/Fft/Transposition.antt =====
-- The columns of a process after `Transpose`.
use computer_architect.Common.{
  ℕ, zero, suc, ◌+◌, ◌-◌, ◌*◌, ◌/◌, ◌<◌, ◌≤◌, ◌≡◌, refl, ◌==◌, false, ap, arith, ◌∙◌, ltb, ◌⊎◌,
  some, Bool-cases, inl, inr,
}
use computer_architect.Fft.{
  copy_part, copy_parts, count_blocks, block_count, block_size, copy_all, transpose, transpose_all,
}
use native.Mathlib.Nat.{add-mul, mul-le-mul_right, zero-mul, mul-div_right, mul_assoc, mul_comm}
use computer_architect.Fft.Cells.{Moved, copy_part-Moved, ltb-lt}

module _ {A : Type 0} (src : ℕ → A) (n1p : ℕ) where
  copy_parts-Moved :
      (left blksize numblks row_count l first v' h' : ℕ) (dest : ℕ → A)
      → numblks * blksize ≡ row_count
      → (l + left) * row_count ≤ n1p
      → v' < n1p
      → (((l * row_count ≤ v')
            × (v' < (l + left) * row_count)
            × (first ≤ h')
            × (h' < first + row_count))
          ⊎ Moved src n1p v' h' dest)
      → Moved src n1p v' h' (copy_parts left src n1p blksize numblks row_count l first dest)
  unfolding copy_parts
  copy_parts-Moved zero b n rows l first v' h' dest even le lt (inr before) = before
  copy_parts-Moved zero b n rows l first v' h' dest even le lt (inl (low, high, from, to)) =
      absurd (omega (arith, add-mul l 0 rows, zero-mul rows))
  copy_parts-Moved (suc left) b n rows l first v' h' dest even le lt before =
      let next : l + suc left ≡ l + 1 + left = omega arith in
      let whole : (l + suc left) * rows ≡ (l + 1 + left) * rows = ap (λ z. z * rows) next in
      let bound : l * rows + n * b ≤ n1p =
        omega (arith, add-mul l (suc left) rows, add-mul left 1 rows) in
      let further =
        λ (moved : ((((l + 1) * rows ≤ v')
              × (v' < (l + 1 + left) * rows)
              × (first ≤ h')
              × (h' < first + rows))
            ⊎ Moved src n1p v' h' (copy_part n src n1p b n (l * rows) first dest))).
          copy_parts-Moved left b n rows (l + 1) first v' h' _ even (omega (arith, whole)) lt
            moved in
      elim before [
        | inr moved ↦
            further
              (inr (copy_part-Moved src n1p n b n (l * rows) first v' h' dest bound lt (inr moved)))
        | inl (low, high, from, to) ↦ elim (Bool-cases (ltb v' ((l + 1) * rows))) [
          | inl now ↦
              let here : v' < l * rows + n * b =
                omega (arith, (ltb-lt v' ((l + 1) * rows) now), add-mul l 1 rows) in
              further (
                inr (
                  copy_part-Moved src n1p n b n (l * rows) first v' h' dest bound lt
                    (inl (low, here, from, omega (arith)))))
          | inr later ↦ further (inl (ground arith, omega (arith, whole), from, to))
        ]
      ]

copy_all-Moved :
    {A : Type 0} (p n n1 rows my_num pad_length : ℕ) (src dest : ℕ → A) (v h : ℕ)
    → my_num < p
    → 0 < rows
    → n1 ≡ p * rows
    → n * (rows / n) ≡ rows
    → v < n1
    → (((my_num * rows ≤ h) × (h < (my_num + 1) * rows)) ⊎ Moved src (n1 + pad_length) v h dest)
    → Moved src
        (n1 + pad_length)
        v
        h
        (copy_all p n1 src dest my_num (my_num * rows) pad_length n (rows / n))
unfolding copy_all
copy_all-Moved p n n1 rows m pad src dest v h lt pos parts even bound before =
    let b = rows / n in
    let share : n1 / p ≡ rows = ap (λ z. z / p) parts ∙ mul-div_right rows (omega arith) in
    let upto : m + 1 + (p - (m + 1)) ≡ p = omega arith in
    let top : (m + 1 + (p - (m + 1))) * rows ≡ p * rows = ap (λ z. z * rows) upto in
    let start : 0 + m ≡ m = omega arith in
    let start_rows : (0 + m) * rows ≡ m * rows = ap (λ z. z * rows) start in
    let most = mul-le-mul_right {m = m + 1} {n = p} rows (omega arith) in
    let own =
      copy_part-Moved src (n1 + pad) n b n (m * rows) (m * rows) v h _
        (omega (arith, most, add-mul m 1 rows)) (omega arith) in
    let below =
      copy_parts-Moved src (n1 + pad) m b n rows 0 (m * rows) v h _ even
        (omega (arith, start_rows, most, add-mul m 1 rows)) (omega arith) in
    let above =
      copy_parts-Moved src (n1 + pad) (p - (m + 1)) b n rows (m + 1) (m * rows) v h dest even
        (omega (arith, top)) (omega arith) in
    rw share (elim before [
      | inr moved ↦ own (inr (below (inr (above (inr moved)))))
      | inl (low, high) ↦
          let to : h < m * rows + rows = omega (arith, add-mul m 1 rows) in
          elim (Bool-cases (ltb v (m * rows))) [
            | inl first ↦
                let less = ltb-lt v (m * rows) first in
                own (
                  inr (
                    below (
                      inl
                        (omega (arith, zero-mul rows), omega (arith, less, start_rows), low, to))))
            | inr late ↦ elim (Bool-cases (ltb v ((m + 1) * rows))) [
              | inl now ↦
                  let less = ltb-lt v ((m + 1) * rows) now in
                  own (inl (ground arith, omega (arith, less, add-mul m 1 rows), low, omega arith))
              | inr after ↦
                  own (inr (below (inr (above (inl (ground arith, omega (arith, top), low, to))))))
            ]
          ]
    ])

-- The first column of a process.
part_start : (p n1 rows m : ℕ) → 0 < p → n1 ≡ p * rows → n1 * m / p ≡ m * rows
part_start p n1 rows m positive parts =
    ap (λ z. z * m / p) parts
    ∙ ap (λ z. z / p) (mul_assoc p rows m)
    ∙ mul-div_right (rows * m) positive
    ∙ mul_comm rows m

-- There is at least one block.
count_blocks-pos : (lines rows : ℕ) → 0 < rows → 0 < count_blocks lines rows
unfolding count_blocks
count_blocks-pos lines rows pos = elim (Bool-cases (2 * rows / lines == 0)) [
  | inl none ↦
      let e : 2 * rows / lines ≡ 0 = ground arith in
      let inexact : (0 * lines == 2 * rows) ≡ false = ground (arith, zero-mul lines) in
      rw (e, inexact) (omega arith)
  | inr many ↦ ground arith
]

transpose-runs :
    {A : Type 0} (p lines n1 rows m pad_length : ℕ) (src dest : ℕ → A)
    → 0 < lines
    → 0 < rows
    → transpose p lines n1 src dest m (m * rows) ((m + 1) * rows) pad_length
      ≡ some (
          copy_all p n1 src dest m
            (m * rows)
            pad_length
            (count_blocks lines rows)
            (rows / count_blocks lines rows))
unfolding transpose block_count block_size
transpose-runs p lines n1 rows m pad src dest some_lines pos =
    let width : (m + 1) * rows - m * rows ≡ rows = omega (arith, add-mul m 1 rows) in
    let divides : (lines == 0) ≡ false = ground arith in
    let divides' : (count_blocks lines rows == 0) ≡ false =
      ground (arith, count_blocks-pos lines rows pos) in
    rw (width, divides, divides') refl

transpose_all-Moved :
    {A : Type 0} (p lines n1 rows pad_length : ℕ) (src dest : ℕ → A) (m : ℕ)
    → m ≤ p
    → 0 < lines
    → 0 < rows
    → n1 ≡ p * rows
    → count_blocks lines rows * (rows / count_blocks lines rows) ≡ rows
    → (dest' : ℕ → A) × (transpose_all p lines n1 src dest pad_length m ≡ some dest')
      × ((v h : ℕ) → v < n1 → h < m * rows → Moved src (n1 + pad_length) v h dest')
unfolding transpose_all
transpose_all-Moved p lines n1 rows pad src dest zero le some_lines pos parts even =
    (dest, refl, λ v h row column. absurd (omega (arith, zero-mul rows)))
transpose_all-Moved p lines n1 rows pad src dest (suc m) le some_lines pos parts even =
    let start = part_start p n1 rows m (omega arith) parts in
    let stop = part_start p n1 rows (m + 1) (omega arith) parts in
    let (before, runs, moved) =
      transpose_all-Moved p lines n1 rows pad src dest m (omega arith) some_lines pos parts even in
    (
      copy_all p n1 src before m (m * rows) pad (count_blocks lines rows)
          (rows / count_blocks lines rows),
      rw (runs, start, stop) (transpose-runs p lines n1 rows m pad src before some_lines pos),
      λ v h row column.
          copy_all-Moved p (count_blocks lines rows) n1 rows m pad src before v h (omega arith) pos
            parts even row
            (elim (Bool-cases (ltb h (m * rows))) [
              | inl first ↦ inr (moved v h row (ltb-lt h (m * rows) first))
              | inr now ↦ inl (ground arith, omega (arith, add-mul m 1 rows))
            ]),
    )

-- For at least one cache line and p processes that each have the same number of rows, above 0,
-- which is a multiple of the number of blocks that `Transpose` cuts them into, and any padding,
-- the transpositions of all processes return, without a division by zero, and after them the
-- number in row v and column h, both parts, is in row h and column v, for each row and column,
-- whatever stood there before.
pub transpose_all_lem :
    {A : Type 0} (p lines n1 rows pad_length : ℕ) (src dest : ℕ → A)
    → 0 < lines
    → 0 < rows
    → n1 ≡ p * rows
    → count_blocks lines rows * (rows / count_blocks lines rows) ≡ rows
    → (dest' : ℕ → A) × (transpose_all p lines n1 src dest pad_length p ≡ some dest')
      × ((v h c : ℕ)
          → v < n1
          → h < n1
          → c < 2
          → dest' (2 * (h * (n1 + pad_length) + v) + c) ≡ src (2 * (v * (n1 + pad_length) + h) + c))
unfolding Moved
transpose_all_lem p lines n1 rows pad src dest some_lines pos parts even =
    let (dest', runs, moved) =
      transpose_all-Moved p lines n1 rows pad src dest p (omega arith) some_lines pos parts even in
    (dest', runs, λ v h c row column. moved v h row (omega (arith, parts)) c)
