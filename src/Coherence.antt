-- ===== src/Coherence.antt =====
-- src/simulator/coherence.H and coherence.cpp, class DIR_MSI: the directory protocol as far as it
-- needs no cache controller. A method takes the object and returns the new one with what it
-- returns and writes through its reference arguments; `hops` is the counter that comes in.
pub mod Lines
pub mod Valid
pub mod Reads
pub mod Evicts
pub mod Evictions
pub mod Claims
pub mod Protocol
use computer_architect.Common.{
  ℕ, zero, suc, ◌+◌, ◌-◌, ◌^◌, bit_and, List, [], none, some, Bool, false, not, ◌&&◌, ◌==◌,
  if◌then◌else◌, Result, ok, assert, ◌>>=◌, ◌>>◌, u32, u64,
}
use computer_architect.Common.Assoc.{lookup, insert, find_or}
use computer_architect.Profile.{
  AccessType, cache_hit, cache_miss, Profile, new_profile, profile_cache_load, profile_cache_evict,
}
use computer_architect.Directory.{
  CacheState, invalid, shared, modified, is_invalid, is_modified, DirectoryLine, new_line, is_set,
  is_owner, owner, set_sharer, clear_sharer, increase_read_count, is_last_writer,
}

-- The enum COST.
abbrev pub local_cache_access : ℕ
local_cache_access = 3

abbrev pub remote_cache_access : ℕ
remote_cache_access = 7

abbrev pub cache_to_cache : ℕ
cache_to_cache = 4

abbrev pub memory_access : ℕ
memory_access = 100

-- `DIR_MSI`
pub record DirMsi : Type 0 where
  pub profiles : Profile
  pub directory : List (ℕ × DirectoryLine)
  pub num_processors : ℕ
  pub detector : Bool

unfoldable pub new_dir_msi : ℕ → DirMsi
new_dir_msi n = record {
  profiles = new_profile n;
  directory = [];
  num_processors = n;
  detector = false;
}

-- What a fetch returns: the cost, and what it writes through its references.
pub record Reply : Type 0 where
  pub cost : ℕ
  pub hops : ℕ
  pub response : AccessType
  pub coherence : DirMsi

unfoldable pub get_home_node : DirMsi → ℕ → ℕ
get_home_node c addr = u32 (bit_and addr (u32 (c.num_processors + 2 ^ 32 - 1)))

-- The cost, and the counter of hops.
unfoldable pub get_directory_cost : ℕ → ℕ → ℕ → ℕ × ℕ
get_directory_cost src dest hops =
    if src == dest then (local_cache_access, hops) else (remote_cache_access, u64 (hops + 2))

unfoldable pub data_write_back : ℕ → ℕ → ℕ → ℕ × ℕ
data_write_back pid home hops =
    let (cost, hops') = get_directory_cost pid home hops in (u64 (cost + memory_access), hops')

-- What the reference that `get_directory_line` returns reads.
unfoldable pub line_at : DirMsi → ℕ → DirectoryLine
line_at c addr = find_or new_line addr c.directory

-- A write through that reference.
unfoldable pub put_line : DirMsi → ℕ → DirectoryLine → DirMsi
put_line c addr d = record c { directory = insert addr d c.directory }

-- What `get_directory_line` does to the map: an absent line is constructed.
unfoldable pub get_directory_line : DirMsi → ℕ → DirMsi
get_directory_line c addr = elim (lookup addr c.directory) [
  | none ↦ put_line c addr new_line
  | some _ ↦ c
]

-- The write back of the owner's line in `fetch`: its cost, and the hops.
unfoldable pub owner_write_back : DirMsi → DirectoryLine → ℕ → ℕ → Result (ℕ × ℕ)
owner_write_back c dir home hops =
    if is_modified dir.state
    then (owner dir c.num_processors >>= λ pid. ok (data_write_back pid home hops))
    else ok (0, hops)

unfoldable pub fetch : DirMsi → ℕ → ℕ → ℕ → ℕ → Result Reply
fetch c pid home addr hops = do
  let (cost, hops') = get_directory_cost pid home hops
  let c' = get_directory_line c addr
  let dir = line_at c' addr
  assert (not (is_invalid dir.state))
  (if is_set dir pid
      then ok (record {
        cost = u64 (cost + local_cache_access);
        hops = hops';
        response = cache_hit;
        coherence = c';
      })
      else (do
        (written_back, hops'') ← owner_write_back c' dir home hops'
        ok (record {
          cost = u64 (u64 (cost + memory_access) + written_back);
          hops = hops'';
          response = cache_miss;
          coherence = put_line c' addr (record (set_sharer dir pid) { state = shared });
        })))

-- Whether the eviction of a line by `pid` writes it back.
unfoldable pub has_ownership : DirMsi → DirectoryLine → ℕ → Bool
has_ownership c dir pid =
    let claimed = is_owner dir pid in
    if c.detector then is_last_writer dir pid && claimed else claimed

-- The write back on eviction: the profile, and the line with its new state.
unfoldable pub evict_write_back : DirMsi → DirectoryLine → ℕ → ℕ → Result (Profile × DirectoryLine)
evict_write_back c dir pid addr =
    if has_ownership c dir pid
    then (do
      let (cost, hops) = data_write_back pid (get_home_node c addr) 0
      profiles ← profile_cache_evict pid addr cost hops c.profiles
      ok (profiles, record dir { state = if c.detector then shared else invalid }))
    else ok (c.profiles, dir)

-- The state of a line with no sharer is reset.
unfoldable pub drop_sharer : DirectoryLine → ℕ → DirectoryLine
drop_sharer dir pid =
    let dir' = clear_sharer dir pid in
    if dir'.sharer_vector == 0 then record dir' { state = invalid } else dir'

unfoldable pub invalidate : DirMsi → ℕ → ℕ → Result DirMsi
invalidate c pid addr = do
  let c' = get_directory_line c addr
  (profiles, dir) ← evict_write_back c' (line_at c' addr) pid addr
  ok (put_line (record c' { profiles = profiles }) addr (drop_sharer dir pid))

-- The loop of `fetch_and_invalidate` at processor `i`: the messages to the other sharers.
unfoldable pub invalidation_hops : ℕ → ℕ → DirectoryLine → ℕ → ℕ → ℕ → ℕ
invalidation_hops zero i dir pid home hops = hops
invalidation_hops (suc left) i dir pid home hops =
    invalidation_hops left (i + 1) dir pid home
      (if is_set dir i && not (i == pid) then (get_directory_cost i home hops).1 else hops)

-- The sharers are reset to the writer.
unfoldable pub claim : DirectoryLine → ℕ → DirectoryLine
claim dir pid = record (set_sharer (record dir { sharer_vector = 0 }) pid) { state = modified }

unfoldable pub fetch_and_invalidate : DirMsi → ℕ → ℕ → ℕ → ℕ → Result Reply
fetch_and_invalidate c pid home addr hops = do
  r ← fetch c pid home addr hops
  let c' = get_directory_line r.coherence addr
  let dir = line_at c' addr
  assert (not (is_invalid dir.state))
  ok (record r {
    hops = invalidation_hops c'.num_processors 0 dir pid home r.hops;
    coherence = put_line c' addr (claim dir pid);
  })

-- `read_miss` and `write_miss`: the state that they set is the argument. They leave `response`
-- as it came in, which is a miss.
unfoldable pub miss : CacheState → DirMsi → ℕ → ℕ → ℕ → ℕ → Result Reply
miss state c pid home addr hops = do
  let (cost, hops') = get_directory_cost pid home hops
  let c' = get_directory_line c addr
  let dir = line_at c' addr
  assert (is_invalid dir.state)
  ok (record {
    cost = u64 (cost + memory_access);
    hops = hops';
    response = cache_miss;
    coherence = put_line c' addr (set_sharer (record dir { state = state }) pid);
  })

unfoldable pub read_miss : DirMsi → ℕ → ℕ → ℕ → ℕ → Result Reply
read_miss = miss shared

unfoldable pub write_miss : DirMsi → ℕ → ℕ → ℕ → ℕ → Result Reply
write_miss = miss modified

-- The `switch` of `process_read`.
unfoldable pub read_reply : CacheState → DirMsi → ℕ → ℕ → ℕ → Result Reply
read_reply modified c pid home addr = fetch c pid home addr 0
read_reply shared c pid home addr = fetch c pid home addr 0
read_reply invalid c pid home addr = read_miss c pid home addr 0

-- A miss is counted in the line's read counters.
unfoldable pub count_read : AccessType → DirMsi → ℕ → ℕ → Result DirMsi
count_read cache_hit c pid addr = ok c
count_read cache_miss c pid addr = do
  dir ← increase_read_count (line_at c addr) pid
  ok (put_line c addr dir)

unfoldable pub process_read : DirMsi → ℕ → ℕ → Result DirMsi
process_read c pid addr = do
  let home = get_home_node c addr
  let c' = get_directory_line c addr
  r ← read_reply (line_at c' addr).state c' pid home addr
  counted ← count_read r.response r.coherence pid addr
  profiles ← profile_cache_load r.response pid addr r.cost r.hops counted.profiles
  ok (record counted { profiles = profiles })
