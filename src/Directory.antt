-- ===== src/Directory.antt =====
-- src/simulator/coherence.H, class Directory_Line: the sharers of a line as a bit vector of 32
-- bits, its state, its last writer, and a two-bit read counter for each processor. The vectors
-- are bit patterns; a shift `1 << k` is an `int` shift, which is sign-extended where it meets the
-- 64-bit counters.
pub mod Sharers
pub mod Counts
use computer_architect.Common.{
  ℕ, zero, suc, ◌+◌, ◌-◌, ◌*◌, ◌/◌, ◌^◌, bit_and, bit_or, Bool, true, false, not, ◌&&◌, ◌==◌, ltb,
  if◌then◌else◌, Result, ok, assert, ◌>>◌, u64, int_shl, int_to_u64,
}

pub data CacheState : Type 0 where
  invalid shared modified : CacheState

unfoldable pub is_invalid : CacheState → Bool
is_invalid invalid = true
is_invalid _ = false

unfoldable pub is_modified : CacheState → Bool
is_modified modified = true
is_modified _ = false

pub record DirectoryLine : Type 0 where
  pub sharer_vector : ℕ
  pub state : CacheState
  pub last_writer : ℕ
  pub read_count_vector : ℕ

-- The constructor; `~0` is the largest uint32_t.
abbrev pub new_line : DirectoryLine
new_line = record {
  sharer_vector = 0;
  state = invalid;
  last_writer = 0xFFFFFFFF;
  read_count_vector = 0;
}

unfoldable pub is_set : DirectoryLine → ℕ → Bool
is_set d pid = not (bit_and d.sharer_vector (int_shl 1 pid) == 0)

unfoldable pub is_owner : DirectoryLine → ℕ → Bool
is_owner d pid = is_set d pid && is_modified d.state

-- The loop of `owner`, with `left` rounds to `num_processors`.
unfoldable pub first_sharer : ℕ → DirectoryLine → ℕ → ℕ
first_sharer zero d pid = pid
first_sharer (suc left) d pid = if is_set d pid then pid else first_sharer left d (pid + 1)

unfoldable pub owner : DirectoryLine → ℕ → Result ℕ
owner d num_processors = do
  let pid = first_sharer num_processors d 0
  assert (not (pid == num_processors))
  assert (is_modified d.state)
  ok pid

unfoldable pub set_sharer : DirectoryLine → ℕ → DirectoryLine
set_sharer d pid = record d { sharer_vector = bit_or d.sharer_vector (int_shl 1 pid) }

unfoldable pub clear_sharer : DirectoryLine → ℕ → DirectoryLine
clear_sharer d pid = record d {
  sharer_vector = bit_and d.sharer_vector (2 ^ 32 - 1 - int_shl 1 pid);
}

unfoldable pub clear_read_count : DirectoryLine → ℕ → DirectoryLine
clear_read_count d pid = record d {
  read_count_vector = bit_and d.read_count_vector (int_to_u64 (2 ^ 32 - 1 - int_shl 3 (pid * 2)));
}

-- `(read_count_vector >> (pid * 2)) & 3`
unfoldable pub read_count : DirectoryLine → ℕ → ℕ
read_count d pid = bit_and (d.read_count_vector / 2 ^ (pid * 2)) 3

unfoldable pub increase_read_count : DirectoryLine → ℕ → Result DirectoryLine
increase_read_count d pid = do
  assert (ltb pid 64)
  ok (
      if ltb (read_count d pid) 3
      then record d {
        read_count_vector = u64 (d.read_count_vector + int_to_u64 (int_shl 1 (pid * 2)));
      }
      else d)

unfoldable pub decrease_read_count : DirectoryLine → ℕ → Result DirectoryLine
decrease_read_count d pid = do
  assert (ltb pid 64)
  ok (
      if ltb 0 (read_count d pid)
      then record d {
        read_count_vector = u64 (d.read_count_vector + 2 ^ 64 - int_to_u64 (int_shl 1 (pid * 2)));
      }
      else d)

unfoldable pub qualified_reader : DirectoryLine → ℕ → Bool
qualified_reader d pid =
    not (bit_and d.read_count_vector (int_to_u64 (int_shl 1 (2 * pid + 1))) == 0)

unfoldable pub is_last_writer : DirectoryLine → ℕ → Bool
is_last_writer d pid = pid == d.last_writer

unfoldable pub update_last_writer : DirectoryLine → ℕ → DirectoryLine
update_last_writer d pid = record (set_sharer (record d { last_writer = pid }) pid) {
  read_count_vector = 0;
}
