-- ===== src/Directory/Counts.antt =====
-- The read counters of a directory line as two-bit saturating counters. The masks are `int`
-- shifts, in range for 16 processors at most.
use computer_architect.Common.{
  ℕ, suc, ◌+◌, ◌-◌, ◌*◌, ◌^◌, ◌≤◌, ◌<◌, ◌&&◌, Bool-cases, inl, inr, ◌==◌, ltb, leb, if◌then◌else◌,
  ◌≡◌, ok, arith, int_shl, int_to_u64,
}
use computer_architect.Common.Bits.{pow_mono, mask_test, bit_and_sign}
use computer_architect.Common.Fields.{
  field, field_add, field_sub, field_add_width, shift_mask, test_bit-field,
}
use computer_architect.Directory.{
  DirectoryLine, read_count, increase_read_count, decrease_read_count, qualified_reader,
}

-- The counter of processor `p`.
unfoldable pub reads : DirectoryLine → ℕ → ℕ
reads d p = field d.read_count_vector p

counter_mask : (p : ℕ) → p < 16 → int_to_u64 (int_shl 1 (p * 2)) ≡ 2 ^ (p * 2)
counter_mask p h = ground (arith, pow_mono (p * 2) 30 (omega arith))

pub read_count_lem : (d : DirectoryLine) (p : ℕ) → read_count d p ≡ reads d p
unfolding read_count reads
read_count_lem d p = shift_mask d.read_count_vector p

-- The line with the counter of `p` moved up, or down.
unfoldable pub counted_up : DirectoryLine → ℕ → DirectoryLine
counted_up d p =
    if ltb (reads d p) 3
    then record d { read_count_vector = d.read_count_vector + 2 ^ (p * 2) }
    else d

unfoldable pub counted_down : DirectoryLine → ℕ → DirectoryLine
counted_down d p =
    if ltb 0 (reads d p)
    then record d { read_count_vector = d.read_count_vector - 2 ^ (p * 2) }
    else d

-- For p < n <= 16 and counters within 2n bits, `increase_read_count` passes its assertion, and
-- adds the weight of p's counter without wrapping when that counter is below 3 and nothing
-- otherwise.
pub increase_read_count_lem :
    (n : ℕ) (d : DirectoryLine) (p : ℕ)
    → p < n
    → n ≤ 16
    → d.read_count_vector < 2 ^ (n * 2)
    → increase_read_count d p ≡ ok (counted_up d p)
unfolding increase_read_count counted_up
increase_read_count_lem n d p h le w = ground (
  arith,
  read_count_lem d p,
  counter_mask p (omega arith),
  pow_mono (p * 2) 30 (omega arith),
  pow_mono (n * 2) 32 (omega arith),
)

-- For p < n <= 16 and counters within 2n bits, `decrease_read_count` passes its assertion, and
-- takes away the weight of p's counter without wrapping when that counter is above 0 and nothing
-- otherwise.
pub decrease_read_count_lem :
    (n : ℕ) (d : DirectoryLine) (p : ℕ)
    → p < n
    → n ≤ 16
    → d.read_count_vector < 2 ^ (n * 2)
    → decrease_read_count d p ≡ ok (counted_down d p)
unfolding decrease_read_count counted_down reads
decrease_read_count_lem n d p h le w = ground (
  arith,
  read_count_lem d p,
  counter_mask p (omega arith),
  pow_mono (p * 2) 30 (omega arith),
  pow_mono (n * 2) 32 (omega arith),
  field_sub d.read_count_vector p 0,
)

pub reads-counted_up :
    (d : DirectoryLine) (p q : ℕ)
    → reads (counted_up d p) q ≡ (if p == q && ltb (reads d p) 3 then reads d q + 1 else reads d q)
unfolding counted_up reads
reads-counted_up d p q = ground (arith, field_add d.read_count_vector p q)

pub reads-counted_down :
    (d : DirectoryLine) (p q : ℕ)
    → reads (counted_down d p) q ≡ (if p == q then reads d q - 1 else reads d q)
unfolding counted_down reads
reads-counted_down d p q = ground (arith, field_sub d.read_count_vector p q)

pub counted_up_width :
    (n : ℕ) (d : DirectoryLine) (p : ℕ)
    → p < n
    → d.read_count_vector < 2 ^ (n * 2)
    → (counted_up d p).read_count_vector < 2 ^ (n * 2)
unfolding counted_up reads
counted_up_width n d p h w = ground (arith, field_add_width n d.read_count_vector p)

pub counted_down_width :
    (n : ℕ) (d : DirectoryLine) (p : ℕ)
    → d.read_count_vector < 2 ^ (n * 2)
    → (counted_down d p).read_count_vector < 2 ^ (n * 2)
unfolding counted_down reads
counted_down_width n d p w = ground arith

qualified_mask : (p : ℕ) → p < 15 → int_to_u64 (int_shl 1 (2 * p + 1)) ≡ 2 ^ suc (p * 2)
qualified_mask p h =
    let e : 2 * p + 1 ≡ suc (p * 2) = omega arith in
    rw e (ground (arith, pow_mono (suc (p * 2)) 29 (omega arith)))

-- For p < 16 and counters within 32 bits, the test of one bit in `qualified_reader` holds exactly
-- when the read counter of p is 2 or more.
pub qualified_reader_lem :
    (d : DirectoryLine) (p : ℕ)
    → p < 16
    → d.read_count_vector < 2 ^ 32
    → qualified_reader d p ≡ leb 2 (reads d p)
unfolding qualified_reader reads
qualified_reader_lem d p h w = elim (Bool-cases (ltb p 15)) [
  | inl low ↦ ground (
    arith,
    qualified_mask p (ground arith),
    mask_test d.read_count_vector (suc (p * 2)),
    test_bit-field d.read_count_vector p,
  )
  | inr high ↦
      let e : p ≡ 15 = ground arith in
      rw e (
        ground (
          arith,
          bit_and_sign d.read_count_vector w,
          mask_test d.read_count_vector 31,
          test_bit-field d.read_count_vector 15,
        ))
]
