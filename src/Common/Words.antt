-- ===== src/Common/Words.antt =====
-- Machine words as native numbers.
use Prim.Native.Nat.{ℕ, ◌+◌, ◌-◌, ◌*◌, ◌%◌, ◌^◌}
use computer_architect.Common.Tests.{ltb, if◌then◌else◌}

abbrev pub u32 : ℕ → ℕ
u32 n = n % 2 ^ 32

abbrev pub u64 : ℕ → ℕ
u64 n = n % 2 ^ 64

-- `ALL_ONES`, the largest uint64_t.
abbrev pub all_ones : ℕ
all_ones = 0xFFFFFFFFFFFFFFFF

-- The bit pattern of the `int` that `m << k` gives. C leaves it undefined for 32 <= k.
abbrev pub int_shl : ℕ → ℕ → ℕ
int_shl m k = u32 (m * 2 ^ k)

-- An `int`, by its pattern, converted to uint64_t: the sign is extended.
abbrev pub int_to_u64 : ℕ → ℕ
int_to_u64 w = if ltb w (2 ^ 31) then w else w + (2 ^ 64 - 2 ^ 32)
