-- ===== src/Fft.antt =====
-- src/splash2/codes/kernels/fft/fft.C: the reordering of the data by reversed bits, and the
-- transposition by blocks. The doubles are
-- of any type, since they are only moved.
pub mod BitReversal
pub mod Reordering
pub mod Cells
pub mod Transposition
pub mod Blocks
pub mod OneLine
mod Tests
use computer_architect.Common.{
  ℕ, zero, suc, ◌+◌, ◌-◌, ◌*◌, ◌/◌, ◌%◌, ◌==◌, ltb, if◌then◌else◌, Option, none, some,
}
use computer_architect.Radix.{store}

infixl 5 ◌>>=◌
abbrev pub ◌>>=◌ {ℓ κ} : {A : Type ℓ} {B : Type κ} → Option A → (A → Option B) → Option B
none >>= rest = none
some a >>= rest = rest a

-- The loop of `BitReverse`.
unfoldable pub shift_in : ℕ → (j tmp : ℕ) → ℕ
shift_in zero j tmp = j
shift_in (suc i) j tmp = shift_in i (2 * j + tmp % 2) (tmp / 2)

unfoldable pub bit_reverse : ℕ → ℕ → ℕ
bit_reverse m k = shift_in m 0 k

-- `SWAP_VALS(x[a], x[b])`
unfoldable pub swap_vals {ℓ} : {A : Type ℓ} → (ℕ → A) → ℕ → ℕ → ℕ → A
swap_vals x a b = store (store x a (x b)) b (x a)

-- The first `k` rounds of `Reverse`.
unfoldable pub reverse {ℓ} : {A : Type ℓ} → (m : ℕ) → (ℕ → A) → (k : ℕ) → ℕ → A
reverse m x zero = x
reverse m x (suc k) =
    let y = reverse m x k in
    let j = bit_reverse m k in
    if ltb k j then swap_vals (swap_vals y (2 * j) (2 * k)) (2 * j + 1) (2 * k + 1) else y

-- A complex number of row `v` and column `h` goes to row `h` and column `v`.
unfoldable pub copy_cell {ℓ} : {A : Type ℓ} → (ℕ → A) → (n1p v h : ℕ) → (ℕ → A) → ℕ → A
copy_cell src n1p v h dest =
    store (store dest (2 * (h * n1p + v)) (src (2 * (v * n1p + h)))) (2 * (h * n1p + v) + 1)
      (src (2 * (v * n1p + h) + 1))

-- The first `j` columns from `h_off` on of row `v`.
unfoldable pub copy_row {ℓ} : {A : Type ℓ} → (ℕ → A) → (n1p v h_off : ℕ) → (ℕ → A) → ℕ → ℕ → A
copy_row src n1p v h_off dest zero = dest
copy_row src n1p v h_off dest (suc j) =
    copy_cell src n1p v (h_off + j) (copy_row src n1p v h_off dest j)

-- The first `i` rows from `v_off` on of a block.
unfoldable pub copy_block {ℓ} :
    {A : Type ℓ} → (ℕ → A) → (n1p blksize v_off h_off : ℕ) → (ℕ → A) → ℕ → ℕ → A
copy_block src n1p blksize v_off h_off dest zero = dest
copy_block src n1p blksize v_off h_off dest (suc i) =
    copy_row src n1p (v_off + i) h_off (copy_block src n1p blksize v_off h_off dest i) blksize

-- The loop on `m`, with `left` blocks to go.
unfoldable pub copy_strip {ℓ} :
    {A : Type ℓ} → ℕ → (ℕ → A) → (n1p blksize v_off h_off : ℕ) → (ℕ → A) → ℕ → A
copy_strip zero src n1p blksize v_off h_off dest = dest
copy_strip (suc left) src n1p blksize v_off h_off dest =
    copy_strip left src n1p blksize v_off (h_off + blksize)
      (copy_block src n1p blksize v_off h_off dest blksize)

-- The loop on `k`, with `left` strips of `numblks` blocks to go.
unfoldable pub copy_part {ℓ} :
    {A : Type ℓ} → ℕ → (ℕ → A) → (n1p blksize numblks v_off firstfirst : ℕ) → (ℕ → A) → ℕ → A
copy_part zero src n1p blksize numblks v_off first dest = dest
copy_part (suc left) src n1p blksize numblks v_off first dest =
    copy_part left src n1p blksize numblks (v_off + blksize) first
      (copy_strip numblks src n1p blksize v_off first dest)

-- The parts of `left` processes from `l` on.
unfoldable pub copy_parts {ℓ} :
    {A : Type ℓ} → ℕ → (ℕ → A) → (n1p blksize numblks row_count l firstfirst : ℕ) → (ℕ → A) → ℕ → A
copy_parts zero src n1p blksize numblks row_count l first dest = dest
copy_parts (suc left) src n1p blksize numblks row_count l first dest =
    copy_parts left src n1p blksize numblks row_count (l + 1) first
      (copy_part numblks src n1p blksize numblks (l * row_count) first dest)

-- `numblks` for at least one cache line.
unfoldable pub count_blocks : (num_cache_lines rows : ℕ) → ℕ
count_blocks num_cache_lines rows =
    let numblks = 2 * rows / num_cache_lines in
    if numblks * num_cache_lines == 2 * rows then numblks else numblks + 1

-- `numblks`; `none` is a division by zero.
unfoldable pub block_count : (num_cache_lines rows : ℕ) → Option ℕ
block_count num_cache_lines rows =
    if num_cache_lines == 0 then none else some (count_blocks num_cache_lines rows)

-- `blksize / numblks`; `none` is a division by zero.
unfoldable pub block_size : (rows numblks : ℕ) → Option ℕ
block_size rows numblks = if numblks == 0 then none else some (rows / numblks)

-- The loops of `Transpose` of one of `p` processes.
unfoldable pub copy_all {ℓ} :
    {A : Type ℓ}
    → (p n1 : ℕ) → (src dest : ℕ → A) → (my_num first pad_length numblks blksize : ℕ) → ℕ
    → A
copy_all p n1 src dest my_num first pad_length numblks blksize =
    let row_count = n1 / p in
    let n1p = n1 + pad_length in
    let above =
      copy_parts (p - (my_num + 1)) src n1p blksize numblks row_count (my_num + 1) first dest in
    let below = copy_parts my_num src n1p blksize numblks row_count 0 first above in
    copy_part numblks src n1p blksize numblks (my_num * row_count) first below

-- `Transpose` of one of `p` processes; `none` is a division by zero.
unfoldable pub transpose {ℓ} :
    {A : Type ℓ}
    → (p num_cache_lines n1 : ℕ) → (src dest : ℕ → A) → (my_num my_first my_last pad_length : ℕ)
    → Option (ℕ → A)
transpose p lines n1 src dest my_num first last pad_length = do
  numblks ← block_count lines (last - first)
  blksize ← block_size (last - first) numblks
  some (copy_all p n1 src dest my_num first pad_length numblks blksize)

-- The transpositions of the first `m` of `p` processes, each of its part of the columns.
unfoldable pub transpose_all {ℓ} :
    {A : Type ℓ}
    → (p num_cache_lines n1 : ℕ) → (src dest : ℕ → A) → (pad_length m : ℕ) → Option (ℕ → A)
transpose_all p lines n1 src dest pad_length zero = some dest
transpose_all p lines n1 src dest pad_length (suc my_num) = do
  before ← transpose_all p lines n1 src dest pad_length my_num
  transpose p lines n1 src before my_num (n1 * my_num / p) (n1 * (my_num + 1) / p) pad_length
