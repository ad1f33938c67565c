-- ===== src/Profile.antt =====
-- src/simulator/profile.H: the counters of hits, misses, cycles and network messages, for each
-- processor and for each address. Counters are uint64_t and wrap.
pub mod Counts
use computer_architect.Common.{
  ℕ, ◌+◌, List, [], at, get_elem?, set, replicate, Result, ok, ◌>>=◌, u64,
}
use computer_architect.Common.Assoc.{insert, find_or}

pub data AccessType : Type 0 where
  cache_hit cache_miss : AccessType

pub record Stat : Type 0 where
  pub hits : ℕ
  pub misses : ℕ
  pub hit_cycles : ℕ
  pub miss_cycles : ℕ
  pub hops : ℕ

abbrev pub new_stat : Stat
new_stat = record { hits = 0; misses = 0; hit_cycles = 0; miss_cycles = 0; hops = 0 }

-- `Access_Stat`
pub record AccessStat : Type 0 where
  pub load : Stat
  pub store : Stat
  pub evict : Stat
  pub count : ℕ

abbrev pub new_access_stat : AccessStat
new_access_stat = record { load = new_stat; store = new_stat; evict = new_stat; count = 0 }

pub record Profile : Type 0 where
  pub profiles : List AccessStat
  pub line_stat : List (ℕ × AccessStat)
  pub num_processors : ℕ

unfoldable pub new_profile : ℕ → Profile
new_profile n = record {
  profiles = replicate n new_access_stat;
  line_stat = [];
  num_processors = n;
}

-- `++hits` or `++misses`
unfoldable pub tally : AccessType → Stat → Stat
tally cache_hit s = record s { hits = u64 (s.hits + 1) }
tally cache_miss s = record s { misses = u64 (s.misses + 1) }

-- `hit_cycles += cost` or `miss_cycles += cost`
unfoldable pub charge : AccessType → ℕ → Stat → Stat
charge cache_hit cost s = record s { hit_cycles = u64 (s.hit_cycles + cost) }
charge cache_miss cost s = record s { miss_cycles = u64 (s.miss_cycles + cost) }

-- `hops += hops`
unfoldable pub add_hops : ℕ → Stat → Stat
add_hops hops s = record s { hops = u64 (s.hops + hops) }

-- What one access does to a processor's statistics of its kind.
unfoldable pub account : AccessType → ℕ → ℕ → Stat → Stat
account type cost hops s = add_hops hops (charge type cost (tally type s))

-- The entry of an address, which `_line_stat[addr]` constructs if it is absent.
unfoldable pub line_stat_at : Profile → ℕ → AccessStat
line_stat_at p addr = find_or new_access_stat addr p.line_stat

-- The writes to the entries of an address and of a processor.
unfoldable pub put_stats : Profile → ℕ → AccessStat → ℕ → AccessStat → Profile
put_stats p addr line pid own = record p {
  line_stat = insert addr line p.line_stat;
  profiles = set p.profiles pid own;
}

unfoldable pub profile_cache_load : AccessType → ℕ → ℕ → ℕ → ℕ → Profile → Result Profile
profile_cache_load type pid addr cost hops p = do
  own ← at (get_elem? p.profiles pid)
  let line = line_stat_at p addr
  ok (
      put_stats p addr (record line { load = tally type line.load; count = u64 (line.count + 1) })
        pid (record own { load = account type cost hops own.load }))

unfoldable pub profile_cache_store : AccessType → ℕ → ℕ → ℕ → ℕ → Profile → Result Profile
profile_cache_store type pid addr cost hops p = do
  own ← at (get_elem? p.profiles pid)
  let line = line_stat_at p addr
  ok (
      put_stats p addr (record line { store = tally type line.store; count = u64 (line.count + 1) })
        pid (record own { store = account type cost hops own.store }))

-- An eviction counts as a miss, and not in `count`.
unfoldable pub profile_cache_evict : ℕ → ℕ → ℕ → ℕ → Profile → Result Profile
profile_cache_evict pid addr cost hops p = do
  own ← at (get_elem? p.profiles pid)
  let line = line_stat_at p addr
  ok (
      put_stats p addr (record line { evict = tally cache_miss line.evict }) pid
        (record own { evict = account cache_miss cost hops own.evict }))
