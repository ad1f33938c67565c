-- ===== src/Cache.antt =====
-- src/simulator/cache.H, classes Cache_Line, Cache_Set and Cache: the lines of one set, the search
-- for a tag, the choice of a victim, and the replacement.
pub mod Victims
pub mod Sets
pub mod Fetches
use computer_architect.Common.{
  ℕ, ◌+◌, List, [], ◌∷◌, Bool, true, false, not, ◌==◌, ltb, if◌then◌else◌, Result, ok, err,
  out_of_range, assert, at, ◌>>=◌, ◌>>◌, get_elem?, set, replicate, u64, int_to_u64, all_ones,
}
use computer_architect.Coherence.{DirMsi, invalidate}

-- `LOCAL_STATUS`
pub data LocalStatus : Type 0 where
  uncached cached : LocalStatus

unfoldable pub is_cached : LocalStatus → Bool
is_cached cached = true
is_cached uncached = false

pub record CacheLine : Type 0 where
  pub lru : ℕ
  pub tag : ℕ
  pub addr : ℕ
  pub lock : Bool
  pub status : LocalStatus

abbrev pub new_cache_line : CacheLine
new_cache_line = record { lru = 0; tag = all_ones; addr = 0; lock = false; status = uncached }

pub record CacheSet : Type 0 where
  pub associativity : ℕ
  pub lines : List CacheLine

-- The number of lines is an int by its pattern, whose sign is extended for the size of the vector.
unfoldable pub new_cache_set : ℕ → CacheSet
new_cache_set n = record { associativity = n; lines = replicate (int_to_u64 n) new_cache_line }

-- `++_line.lru` and its assertion, on a hit that counts.
unfoldable pub touch_line : Bool → CacheLine → Result CacheLine
touch_line false l = ok l
touch_line true l = do
  assert (not (u64 (l.lru + 1) == all_ones))
  ok (record l { lru = u64 (l.lru + 1) })

-- `Cache_Set::fetch`: the status of the first line with the tag, and the lines.
unfoldable pub fetch_tag : ℕ → Bool → List CacheLine → Result (LocalStatus × List CacheLine)
fetch_tag tag replace [] = ok (uncached, [])
fetch_tag tag replace (l ∷ ls) =
    if l.tag == tag
    then (do l' ← touch_line replace l; ok (l'.status, l' ∷ ls))
    else (do (status, ls') ← fetch_tag tag replace ls; ok (status, l ∷ ls'))

-- The variables of the loop of `evict`.
pub record Victim : Type 0 where
  pub least : ℕ
  pub index : ℕ
  pub addr : ℕ

-- That loop from line `i` on.
unfoldable pub scan : ℕ → List CacheLine → Victim → Victim
scan i [] v = v
scan i (l ∷ ls) v =
    scan (i + 1) ls
      (if ltb l.lru v.least then record { least = l.lru; index = i; addr = l.addr } else v)

-- `_evict`, `_evict_addr` and `_min` after the loop; `_evict_addr` starts at 0.
unfoldable pub choose_victim : List CacheLine → Result Victim
choose_victim [] = err out_of_range
choose_victim (l ∷ ls) = ok (scan 1 ls (record { least = l.lru; index = 0; addr = 0 }))

-- The victim's index, and the directory after it.
unfoldable pub evict : List CacheLine → ℕ → DirMsi → Result (ℕ × DirMsi)
evict lines pid c = do
  v ← choose_victim lines
  l ← at (get_elem? lines v.index)
  c' ← (if is_cached l.status then invalidate c pid v.addr else ok c)
  ok (v.index, c')

-- What is stored into the victim's line.
unfoldable pub fill : Bool → ℕ → ℕ → CacheLine → CacheLine
fill replace tag addr l = record {
  lru = if replace then u64 (l.lru + 1) else l.lru;
  tag = tag;
  addr = addr;
  lock = l.lock;
  status = cached;
}

-- The replacement of a line on a miss.
unfoldable pub replace_line :
    ℕ → ℕ → ℕ → Bool → List CacheLine → DirMsi → Result (List CacheLine × DirMsi)
replace_line pid tag addr replace lines c = do
  (index, c') ← evict lines pid c
  l ← at (get_elem? lines index)
  ok (set lines index (fill replace tag addr l), c')

unfoldable pub fetch_single_line : CacheSet → ℕ → ℕ → ℕ → DirMsi → Bool → Result (CacheSet × DirMsi)
fetch_single_line s pid tag addr c replace = do
  (status, lines) ← fetch_tag tag replace s.lines
  (lines', c') ←
      (if is_cached status then ok (lines, c) else replace_line pid tag addr replace lines c)
  ok (record s { lines = lines' }, c')

-- `Cache`
pub record Cache : Type 0 where
  pub sets : List CacheSet
  pub associativity : ℕ
  pub num_sets : ℕ

unfoldable pub new_cache : ℕ → ℕ → Cache
new_cache associativity num_sets = record {
  sets = replicate num_sets (new_cache_set associativity);
  associativity = associativity;
  num_sets = num_sets;
}
