-- ===== src/Directory/Sharers.antt =====
-- The sharer vector of a directory line as a set of processors.
use computer_architect.Common.{
  ℕ, zero, suc, ◌+◌, ◌-◌, ◌^◌, ◌≤◌, ◌<◌, Bool, true, false, not, ◌&&◌, ◌||◌, ◌==◌, ◌≡◌, ok, arith,
  int_shl,
}
use computer_architect.Common.Bits.{
  test_bit, test_bit-bit_or, test_bit-bit_and, test_bit-pow, test_bit-complement, bit_exists,
  pos_of_bit, test_bit_width, test_bit-zero, mask_test, bit_or-lt, bit_and-lt, pow_mono_lt,
}
use computer_architect.Directory.{
  DirectoryLine, is_set, set_sharer, clear_sharer, first_sharer, owner, is_modified,
}

-- Whether processor `p` is in the sharer vector.
unfoldable pub shares : DirectoryLine → ℕ → Bool
shares d p = test_bit d.sharer_vector p

-- The mask of a processor: the `int` shift is in range.
pub mask_lem : (p : ℕ) → p < 32 → int_shl 1 p ≡ 2 ^ p
mask_lem p h = omega (arith, pow_mono_lt p 32 h)

pub is_set_lem : (d : DirectoryLine) (p : ℕ) → p < 32 → is_set d p ≡ shares d p
unfolding is_set shares
is_set_lem d p h = rw (mask_lem p h) (mask_test d.sharer_vector p)

-- For p < 32, the sharers after `set_sharer` are those before it and p.
pub shares-set_sharer :
    (d : DirectoryLine) (p q : ℕ) → p < 32 → shares (set_sharer d p) q ≡ shares d q || p == q
unfolding set_sharer shares
shares-set_sharer d p q h =
    rw (mask_lem p h, test_bit-bit_or d.sharer_vector (2 ^ p) q, test_bit-pow p q)

-- For p < 32 and a 32-bit sharer vector, the sharers after `clear_sharer` are those before it
-- without p.
pub shares-clear_sharer :
    (d : DirectoryLine) (p q : ℕ)
    → p < 32
    → d.sharer_vector < 2 ^ 32
    → shares (clear_sharer d p) q ≡ shares d q && not (p == q)
unfolding clear_sharer shares
shares-clear_sharer d p q h w = ground (
  arith,
  mask_lem p h,
  test_bit-bit_and d.sharer_vector (2 ^ 32 - 1 - 2 ^ p) q,
  test_bit-complement 32 (2 ^ p) q (pow_mono_lt p 32 h),
  test_bit-pow p q,
  test_bit_width 32 d.sharer_vector q w,
)

pub set_sharer_width :
    (n : ℕ) (d : DirectoryLine) (p : ℕ)
    → p < n
    → n ≤ 32
    → d.sharer_vector < 2 ^ n
    → (set_sharer d p).sharer_vector < 2 ^ n
unfolding set_sharer
set_sharer_width n d p h le w =
    rw (mask_lem p (omega arith)) (bit_or-lt n d.sharer_vector (2 ^ p) w (pow_mono_lt p n h))

pub clear_sharer_width :
    (n : ℕ) (d : DirectoryLine) (p : ℕ)
    → d.sharer_vector < 2 ^ n
    → (clear_sharer d p).sharer_vector < 2 ^ n
unfolding clear_sharer
clear_sharer_width n d p w = bit_and-lt n d.sharer_vector _ w

pub shares_none : (d : DirectoryLine) (p : ℕ) → d.sharer_vector ≡ 0 → shares d p ≡ false
unfolding shares
shares_none d p e = rw e (test_bit-zero p)

-- A line with a sharer has a vector above 0.
pub pos_of_shares : (d : DirectoryLine) (p : ℕ) → shares d p ≡ true → 0 < d.sharer_vector
unfolding shares
pos_of_shares d p h = pos_of_bit d.sharer_vector p h

pub set_sharer_pos : (d : DirectoryLine) (p : ℕ) → p < 32 → 0 < (set_sharer d p).sharer_vector
set_sharer_pos d p h = pos_of_shares (set_sharer d p) p (ground (arith, shares-set_sharer d p p h))

-- The loop of `owner` stops at a sharer, if there is one from `i` on.
pub first_sharer_lem :
    (left i n q : ℕ) (d : DirectoryLine)
    → i + left ≡ n
    → n ≤ 32
    → i ≤ q
    → q < n
    → shares d q ≡ true
    → (first_sharer left d i < n) × (shares d (first_sharer left d i) ≡ true)
unfolding first_sharer
first_sharer_lem zero i n q d e le lo hi s = absurd (omega arith)
first_sharer_lem (suc left) i n q d e le lo hi s =
    ground (arith, is_set_lem d i, first_sharer_lem left (i + 1) n q d)

-- With at most 32 processors, a MODIFIED line with a sharer, all of them below n, has an owner:
-- the search succeeds, and gives a sharer below n.
pub owner_lem :
    (n : ℕ) (d : DirectoryLine)
    → n ≤ 32
    → d.sharer_vector < 2 ^ n
    → 0 < d.sharer_vector
    → is_modified d.state ≡ true
    → (p : ℕ) × (owner d n ≡ ok p) × (p < n) × (shares d p ≡ true)
unfolding owner shares
owner_lem n d le w pos m =
    let (q, hi, on) = bit_exists n d.sharer_vector w pos in
    let found = first_sharer_lem n 0 n q d (omega arith) le (omega arith) hi on in
    (first_sharer n d 0, ground arith, found.0, found.1)

-- A vector above 0 has a sharer.
pub sharer_exists :
    (n : ℕ) (d : DirectoryLine)
    → d.sharer_vector < 2 ^ n
    → 0 < d.sharer_vector
    → (p : ℕ) × (p < n) × (shares d p ≡ true)
unfolding shares
sharer_exists n d w pos = bit_exists n d.sharer_vector w pos
