-- ===== src/Fft/OneLine.antt =====
-- `Transpose` with one cache line.
use computer_architect.Common.{
  ℕ, zero, suc, ◌+◌, ◌-◌, ◌*◌, ◌/◌, ◌<◌, ◌≡◌, refl, ap, arith, ◌∙◌, ◌==◌, true, false, some,
}
use computer_architect.Fft.{
  copy_block, copy_strip, copy_part, copy_parts, count_blocks, block_count, block_size, copy_all,
  transpose,
}
use native.Mathlib.Nat.{add-mul, div-one, div-eq_of_lt}

module _ {A : Type 0} (src : ℕ → A) (n1p : ℕ) where
  copy_strip-empty :
      (left v_off h_off : ℕ) (dest : ℕ → A) → copy_strip left src n1p 0 v_off h_off dest ≡ dest
  unfolding copy_strip copy_block
  copy_strip-empty zero v_off h_off dest = refl
  copy_strip-empty (suc left) v_off h_off dest = copy_strip-empty left v_off (h_off + 0) dest

  copy_part-empty :
      (left n v_off first : ℕ) (dest : ℕ → A) → copy_part left src n1p 0 n v_off first dest ≡ dest
  unfolding copy_part
  copy_part-empty zero n v_off first dest = refl
  copy_part-empty (suc left) n v_off first dest =
      copy_part-empty left n (v_off + 0) first _ ∙ copy_strip-empty n v_off first dest

  copy_parts-empty :
      (left n rows l first : ℕ) (dest : ℕ → A)
      → copy_parts left src n1p 0 n rows l first dest ≡ dest
  unfolding copy_parts
  copy_parts-empty zero n rows l first dest = refl
  copy_parts-empty (suc left) n rows l first dest =
      copy_parts-empty left n rows (l + 1) first _ ∙ copy_part-empty n n (l * rows) first dest

-- With one cache line, which `main` accepts, blocks are of size 0, and `Transpose` of a process with
-- at least one row moves nothing.
pub transpose_one_line :
    {A : Type 0} (p n1 rows my_num pad_length : ℕ) (src dest : ℕ → A)
    → 0 < rows
    → transpose p 1 n1 src dest my_num (my_num * rows) ((my_num + 1) * rows) pad_length ≡ some dest
unfolding transpose block_count count_blocks block_size copy_all
transpose_one_line p n1 rows m pad src dest pos =
    let width : (m + 1) * rows - m * rows ≡ rows = omega (arith, add-mul m 1 rows) in
    let whole : 2 * rows / 1 ≡ 2 * rows = div-one (2 * rows) in
    let exact : (2 * rows * 1 == 2 * rows) ≡ true = ground arith in
    let some_blocks : (2 * rows == 0) ≡ false = ground arith in
    let empty : rows / (2 * rows) ≡ 0 = div-eq_of_lt (omega arith) in
    rw (width, whole, exact, some_blocks, empty)
      (ap some (
        copy_part-empty src (n1 + pad) (2 * rows) (2 * rows) (m * (n1 / p)) (m * rows) _
        ∙ copy_parts-empty src (n1 + pad) m (2 * rows) (n1 / p) 0 (m * rows) _
        ∙ copy_parts-empty src (n1 + pad) (p - (m + 1)) (2 * rows) (n1 / p) (m + 1) (m * rows)
            dest))
