-- ===== src/Fft/Cells.antt =====
-- The loops of `Transpose` that copy a part: what they move, and what stays moved.
use computer_architect.Common.{
  ℕ, zero, suc, ◌+◌, ◌*◌, ◌%◌, ◌<◌, ◌≤◌, ◌≡◌, refl, ap, arith, sym, ◌∙◌, ◌==◌, ltb, true, false,
  ◌⊎◌, Bool, Bool-cases, inl, inr, if◌then◌else◌,
}
use computer_architect.Radix.{store}
use computer_architect.Fft.{copy_cell, copy_row, copy_block, copy_strip, copy_part}
use native.Mathlib.Nat.{mul-add-mod_self_right, mod-eq_of_lt, add-mul, mul-le-mul_right, zero-mul}

-- Both parts of the number in row `v` and column `h` are where they belong.
unfoldable pub Moved : {A : Type 0} → (src : ℕ → A) → (n1p v h : ℕ) → (dest : ℕ → A) → Type 0
Moved src n1p v h dest =
    (c : ℕ) → c < 2 → dest (2 * (h * n1p + v) + c) ≡ src (2 * (v * n1p + h) + c)

-- A place determines its row and its column.
place_apart :
    (n1p v h v' h' : ℕ) → v < n1p → v' < n1p → h * n1p + v ≡ h' * n1p + v' → (v ≡ v') × (h ≡ h')
place_apart n1p v h v' h' lt lt' e =
    let same : v ≡ v' =
      sym (mod-eq_of_lt lt)
      ∙ sym (mul-add-mod_self_right h n1p v)
      ∙ ap (λ z. z % n1p) e
      ∙ mul-add-mod_self_right h' n1p v'
      ∙ mod-eq_of_lt lt' in
    let rows : h * n1p ≡ h' * n1p = omega arith in
    (
      same,
      elim (Bool-cases (ltb h h')) [
        | inl less ↦ absurd (
            omega
              (arith, mul-le-mul_right {m = h + 1} {n = h'} n1p (ground arith), add-mul h 1 n1p))
        | inr not_less ↦ elim (Bool-cases (h == h')) [
          | inl at ↦ ground arith
          | inr off ↦ absurd (
              omega
                (arith, mul-le-mul_right {m = h' + 1} {n = h} n1p (ground arith), add-mul h' 1 n1p))
        ]
      ],
    )

pub ltb-lt : (a b : ℕ) → ltb a b ≡ true → a < b
ltb-lt a b e = ground arith

-- Both parts are stored at one place.
store_both :
    {A : Type 0} (dest : ℕ → A) (a b : A) (q q' c : ℕ)
    → c < 2
    → store (store dest (2 * q) a) (2 * q + 1) b (2 * q' + c)
      ≡ (if q' == q then (if c == 0 then a else b) else dest (2 * q' + c))
store_both dest a b q q' zero lt = ground arith
store_both dest a b q q' (suc zero) lt = ground arith
store_both dest a b q q' (suc (suc c)) lt = absurd (omega arith)

part_of :
    {A : Type 0} (src : ℕ → A) (w c : ℕ)
    → c < 2
    → (if c == 0 then src (2 * w) else src (2 * w + 1)) ≡ src (2 * w + c)
part_of src w zero lt = ap src (omega arith)
part_of src w (suc zero) lt = refl
part_of src w (suc (suc c)) lt = absurd (omega arith)

module _ {A : Type 0} (src : ℕ → A) (n1p : ℕ) where
  copy_cell-Moved :
      (v h v' h' : ℕ) (dest : ℕ → A)
      → v < n1p
      → v' < n1p
      → (((v' ≡ v) × (h' ≡ h)) ⊎ Moved src n1p v' h' dest)
      → Moved src n1p v' h' (copy_cell src n1p v h dest)
  unfolding Moved copy_cell
  copy_cell-Moved v h v' h' dest lt lt' before c part =
      store_both dest _ _ (h * n1p + v) (h' * n1p + v') c part
      ∙ elim (Bool-cases (h' * n1p + v' == h * n1p + v)) [
        | inl at ↦
            let (rows, columns) = place_apart n1p v' h' v h lt' lt (ground arith) in
            rw at (rw (rows, columns) (part_of src (v * n1p + h) c part))
        | inr off ↦ rw off (elim before [
          | inl (rows, columns) ↦
              let same : (h' * n1p + v' == h * n1p + v) ≡ true =
                rw (rows, columns) (ground arith) in
              let clash : ◌≡◌ {A = Bool} true false = sym same ∙ off in absurd cc
          | inr moved ↦ moved c part
        ])
      ]

  -- Whether a loop has been at row `v'` and column `h'`, or they were there before.
  copy_row-Moved :
      (v h_off j v' h' : ℕ) (dest : ℕ → A)
      → v < n1p
      → v' < n1p
      → (((v' ≡ v) × (h_off ≤ h') × (h' < h_off + j)) ⊎ Moved src n1p v' h' dest)
      → Moved src n1p v' h' (copy_row src n1p v h_off dest j)
  unfolding copy_row
  copy_row-Moved v h_off zero v' h' dest lt lt' (inl (e, low, high)) = absurd (omega arith)
  copy_row-Moved v h_off zero v' h' dest lt lt' (inr before) = before
  copy_row-Moved v h_off (suc j) v' h' dest lt lt' (inr before) =
      copy_cell-Moved v (h_off + j) v' h' _ lt lt'
        (inr (copy_row-Moved v h_off j v' h' dest lt lt' (inr before)))
  copy_row-Moved v h_off (suc j) v' h' dest lt lt' (inl (e, low, high)) =
      copy_cell-Moved v (h_off + j) v' h' _ lt lt' (elim (Bool-cases (h' == h_off + j)) [
        | inl now ↦ inl (e, ground arith)
        | inr off ↦ inr (copy_row-Moved v h_off j v' h' dest lt lt' (inl (e, low, ground arith)))
      ])

  copy_block-Moved :
      (blksize v_off h_off i v' h' : ℕ) (dest : ℕ → A)
      → v_off + i ≤ n1p
      → v' < n1p
      → (((v_off ≤ v') × (v' < v_off + i) × (h_off ≤ h') × (h' < h_off + blksize))
          ⊎ Moved src n1p v' h' dest)
      → Moved src n1p v' h' (copy_block src n1p blksize v_off h_off dest i)
  unfolding copy_block
  copy_block-Moved b v_off h_off zero v' h' dest lt lt' (inl (low, high, left, right)) =
      absurd (omega arith)
  copy_block-Moved b v_off h_off zero v' h' dest lt lt' (inr before) = before
  copy_block-Moved b v_off h_off (suc i) v' h' dest lt lt' (inr before) =
      copy_row-Moved (v_off + i) h_off b v' h' _ (omega arith) lt'
        (inr (copy_block-Moved b v_off h_off i v' h' dest (omega arith) lt' (inr before)))
  copy_block-Moved b v_off h_off (suc i) v' h' dest lt lt' (inl (low, high, left, right)) =
      copy_row-Moved (v_off + i) h_off b v' h' _ (omega arith) lt'
        (elim (Bool-cases (v' == v_off + i)) [
          | inl now ↦ inl (ground arith, left, right)
          | inr off ↦ inr (
              copy_block-Moved b v_off h_off i v' h' dest (omega arith) lt'
                (inl (low, ground arith, left, right)))
        ])

  copy_strip-Moved :
      (left blksize v_off h_off v' h' : ℕ) (dest : ℕ → A)
      → v_off + blksize ≤ n1p
      → v' < n1p
      → (((v_off ≤ v') × (v' < v_off + blksize) × (h_off ≤ h') × (h' < h_off + left * blksize))
          ⊎ Moved src n1p v' h' dest)
      → Moved src n1p v' h' (copy_strip left src n1p blksize v_off h_off dest)
  unfolding copy_strip
  copy_strip-Moved zero b v_off h_off v' h' dest le lt (inr before) = before
  copy_strip-Moved zero b v_off h_off v' h' dest le lt (inl (low, high, from, to)) =
      absurd (omega (arith, zero-mul b))
  copy_strip-Moved (suc left) b v_off h_off v' h' dest le lt (inr before) =
      copy_strip-Moved left b v_off (h_off + b) v' h' _ le lt
        (inr (copy_block-Moved b v_off h_off b v' h' dest le lt (inr before)))
  copy_strip-Moved (suc left) b v_off h_off v' h' dest le lt (inl (low, high, from, to)) =
      copy_strip-Moved left b v_off (h_off + b) v' h' _ le lt
        (elim (Bool-cases (ltb h' (h_off + b))) [
          | inl now ↦ inr (
              copy_block-Moved b v_off h_off b v' h' dest le lt
                (inl (low, high, from, ground arith)))
          | inr later ↦ inl (low, high, ground arith, omega (arith, add-mul left 1 b))
        ])

  pub copy_part-Moved :
      (left blksize numblks v_off first v' h' : ℕ) (dest : ℕ → A)
      → v_off + left * blksize ≤ n1p
      → v' < n1p
      → (((v_off ≤ v')
            × (v' < v_off + left * blksize)
            × (first ≤ h')
            × (h' < first + numblks * blksize))
          ⊎ Moved src n1p v' h' dest)
      → Moved src n1p v' h' (copy_part left src n1p blksize numblks v_off first dest)
  unfolding copy_part
  copy_part-Moved zero b n v_off first v' h' dest le lt (inr before) = before
  copy_part-Moved zero b n v_off first v' h' dest le lt (inl (low, high, from, to)) =
      absurd (omega (arith, zero-mul b))
  copy_part-Moved (suc left) b n v_off first v' h' dest le lt (inr before) =
      copy_part-Moved left b n (v_off + b) first v' h' _ (omega (arith, add-mul left 1 b)) lt (
        inr (
          copy_strip-Moved n b v_off first v' h' dest (omega (arith, add-mul left 1 b)) lt
            (inr before)))
  copy_part-Moved (suc left) b n v_off first v' h' dest le lt (inl (low, high, from, to)) =
      copy_part-Moved left b n (v_off + b) first v' h' _ (omega (arith, add-mul left 1 b)) lt
        (elim (Bool-cases (ltb v' (v_off + b))) [
          | inl now ↦ inr (
              copy_strip-Moved n b v_off first v' h' dest (omega (arith, add-mul left 1 b)) lt
                (inl (low, ground arith, from, to)))
          | inr later ↦ inl (ground arith, omega (arith, add-mul left 1 b), from, to)
        ])
