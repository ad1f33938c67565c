-- ===== src/Controller.antt =====
-- src/simulator/cache.H, class Controller, and the methods of DIR_MSI in coherence.cpp that call it
-- back: the decoding of addresses, the lookup of a line in a processor's cache, the handling of
-- writes with and without the detector, and the two entry points.
pub mod Addresses
pub mod Caches
pub mod Push
pub mod PushLoop
pub mod Writers
pub mod Stores
pub mod Accesses
pub mod Protocol
use computer_architect.Common.{
  ℕ, zero, suc, ◌+◌, ◌-◌, ◌*◌, ◌/◌, ◌^◌, bit_and, List, Bool, true, false, not, ◌&&◌, ◌==◌,
  if◌then◌else◌, Result, ok, assert, at, ◌>>=◌, ◌>>◌, get_elem?, set, replicate, u32, u64, all_ones,
}
use computer_architect.Profile.{AccessType, cache_hit, cache_miss, profile_cache_store}
use computer_architect.Directory.{
  CacheState, invalid, shared, modified, is_invalid, DirectoryLine, is_set, set_sharer,
  clear_sharer, decrease_read_count, qualified_reader, is_last_writer, update_last_writer,
}
use computer_architect.Coherence.{
  DirMsi, new_dir_msi, Reply, local_cache_access, cache_to_cache, memory_access, get_home_node,
  get_directory_cost, get_directory_line, line_at, put_line, fetch_and_invalidate, write_miss,
  process_read,
}
use computer_architect.Cache.{Cache, new_cache, fetch_single_line}

pub record Controller : Type 0 where
  pub coherence : DirMsi
  pub cache : List Cache
  pub num_processors : ℕ
  pub cache_size : ℕ
  pub line_size : ℕ
  pub offset_num_bits : ℕ
  pub set_index_num_bits : ℕ
  pub tag_mask : ℕ
  pub offset_mask : ℕ

-- The loop of `get_num_bits`: 64 halvings bring any uint64_t to 0.
unfoldable pub halvings : ℕ → ℕ → ℕ → ℕ
halvings zero num num_bits = num_bits
halvings (suc fuel) num num_bits =
    let rest = halvings fuel (num / 2) (u32 (num_bits + 1)) in if num == 0 then num_bits else rest

unfoldable pub get_num_bits : ℕ → ℕ
get_num_bits num = u32 (halvings 64 num 0 + 2 ^ 32 - 1)

unfoldable pub new_controller : ℕ → ℕ → ℕ → ℕ → Controller
new_controller num_processors num_sets line_size associativity =
    let offset_num_bits = get_num_bits line_size in
    let set_index_num_bits = get_num_bits num_sets in
    record {
      coherence = new_dir_msi num_processors;
      cache = replicate num_processors (new_cache associativity num_sets);
      num_processors = num_processors;
      cache_size = u32 (u32 (num_sets * associativity) * line_size);
      line_size = line_size;
      offset_num_bits = offset_num_bits;
      set_index_num_bits = set_index_num_bits;
      tag_mask = u64 (all_ones * 2 ^ u32 (offset_num_bits + set_index_num_bits));
      offset_mask = all_ones - u64 (all_ones * 2 ^ offset_num_bits);
    }

unfoldable pub get_set_index : Controller → ℕ → ℕ
get_set_index t addr = bit_and addr (all_ones - t.tag_mask) / 2 ^ t.offset_num_bits

unfoldable pub get_tag : Controller → ℕ → ℕ
get_tag t addr = bit_and addr t.tag_mask

unfoldable pub fetch_cache_line : Controller → ℕ → ℕ → Bool → Result Controller
fetch_cache_line t pid addr replace = do
  let tag = get_tag t addr
  let index = u32 (get_set_index t addr)
  own ← at (get_elem? t.cache pid)
  s ← at (get_elem? own.sets index)
  (s', c) ← fetch_single_line s pid tag addr t.coherence replace
  ok (record t {
    cache = set t.cache pid (record own { sets = set own.sets index s' });
    coherence = c;
  })

-- What `push_and_invalidate` returns and writes through its references. The object is reached
-- through the controller, which it calls.
pub record Pushed : Type 0 where
  pub cost : ℕ
  pub hops : ℕ
  pub response : AccessType
  pub controller : Controller

-- A write through the reference to the directory line of `addr`.
unfoldable pub update_line : Controller → ℕ → (DirectoryLine → DirectoryLine) → Controller
update_line t addr f = record t {
  coherence = put_line t.coherence addr (f (line_at t.coherence addr));
}

-- The body of the pushing loop at processor `i`, other than the writer: the cost and the hops.
unfoldable pub push_to : Controller → ℕ → ℕ → ℕ → ℕ → ℕ → Result (ℕ × ℕ × Controller)
unfolding line_at update_line qualified_reader is_set set_sharer clear_sharer get_directory_cost
    fetch_cache_line
push_to t i home addr cost hops =
    if qualified_reader (line_at t.coherence addr) i
    then (do
      t' ← fetch_cache_line t i addr false
      let cost' = u64 (cost + cache_to_cache)
      ok (
          if is_set (line_at t'.coherence addr) i then (cost', hops, t') else (
            cost',
            (get_directory_cost i home hops).1,
            update_line t' addr (λ d. set_sharer d i),
          )))
    else ok (
      cost,
      hops,
      if is_set (line_at t.coherence addr) i then update_line t addr (λ d. clear_sharer d i) else t,
    )

-- The pushing loop from processor `i` on.
unfoldable pub push_loop : ℕ → ℕ → Controller → ℕ → ℕ → ℕ → ℕ → ℕ → Result (ℕ × ℕ × Controller)
push_loop zero i t pid home addr cost hops = ok (cost, hops, t)
push_loop (suc left) i t pid home addr cost hops = do
  (cost', hops', t') ← (if i == pid then ok (cost, hops, t) else push_to t i home addr cost hops)
  push_loop left (i + 1) t' pid home addr cost' hops'

-- The writer's own copy: fetched again if it was evicted.
unfoldable pub writer_copy : Controller → ℕ → ℕ → ℕ → Result (ℕ × AccessType × Controller)
writer_copy t pid addr cost =
    if is_set (line_at t.coherence addr) pid
    then ok (u64 (cost + local_cache_access), cache_hit, t)
    else (do
      t' ← fetch_cache_line t pid addr true
      ok (u64 (cost + memory_access), cache_miss, update_line t' addr (λ d. set_sharer d pid)))

-- The loop over the qualified readers when the writer changes.
unfoldable pub decrease_loop : ℕ → ℕ → ℕ → DirectoryLine → Result DirectoryLine
decrease_loop zero i pid d = ok d
decrease_loop (suc left) i pid d = do
  d' ← (if not (i == pid) && qualified_reader d i then decrease_read_count d i else ok d)
  decrease_loop left (i + 1) pid d'

-- The branch of the last writer.
unfoldable pub push_update : Controller → ℕ → ℕ → ℕ → ℕ → ℕ → Result Pushed
push_update t pid home addr cost hops = do
  (cost', response, t') ← writer_copy t pid addr cost
  (cost'', hops', t'') ← push_loop t'.coherence.num_processors 0 t' pid home addr cost' hops
  ok (record {
    cost = cost'';
    hops = hops';
    response = response;
    controller = update_line t'' addr (λ d. record d { state = modified });
  })

-- The branch of a new writer.
unfoldable pub change_writer : Controller → ℕ → ℕ → ℕ → ℕ → Result Pushed
change_writer t pid home addr hops = do
  let c = t.coherence
  d ← decrease_loop c.num_processors 0 pid (line_at c addr)
  r ← fetch_and_invalidate (put_line c addr (update_last_writer d pid)) pid home addr hops
  ok (record {
    cost = r.cost;
    hops = r.hops;
    response = r.response;
    controller = record t { coherence = r.coherence };
  })

unfoldable pub push_and_invalidate : Controller → ℕ → ℕ → ℕ → ℕ → Result Pushed
push_and_invalidate t pid home addr hops = do
  let (cost, hops') = get_directory_cost pid home hops
  let t' = record t { coherence = get_directory_line t.coherence addr }
  let dir = line_at t'.coherence addr
  assert (not (is_invalid dir.state))
  (if is_last_writer dir pid
      then push_update t' pid home addr cost hops'
      else change_writer t' pid home addr hops')

-- A reply of the protocol, under the controller.
unfoldable pub lift_reply : Controller → Reply → Pushed
lift_reply t r = record {
  cost = r.cost;
  hops = r.hops;
  response = r.response;
  controller = record t { coherence = r.coherence };
}

-- A write to a line that some cache holds.
unfoldable pub write_held : Controller → ℕ → ℕ → ℕ → Result Pushed
write_held t pid home addr =
    if t.coherence.detector
    then push_and_invalidate t pid home addr 0
    else (fetch_and_invalidate t.coherence pid home addr 0 >>= λ r. ok (lift_reply t r))

-- The `switch` of `process_write`.
unfoldable pub write_reply : CacheState → Controller → ℕ → ℕ → ℕ → Result Pushed
write_reply modified t pid home addr = write_held t pid home addr
write_reply shared t pid home addr = write_held t pid home addr
write_reply invalid t pid home addr = do
  let t' = update_line t addr (λ d. update_last_writer d pid)
  r ← write_miss t'.coherence pid home addr 0
  ok (lift_reply t' r)

unfoldable pub process_write : Controller → ℕ → ℕ → Result Controller
process_write t pid addr = do
  let home = get_home_node t.coherence addr
  let t' = record t { coherence = get_directory_line t.coherence addr }
  r ← write_reply (line_at t'.coherence addr).state t' pid home addr
  let t'' = r.controller
  profiles ← profile_cache_store r.response pid addr r.cost r.hops t''.coherence.profiles
  ok (record t'' { coherence = record t''.coherence { profiles = profiles } })

unfoldable pub store_single_line : Controller → ℕ → ℕ → Result Controller
store_single_line t addr pid = do t' ← fetch_cache_line t pid addr true; process_write t' pid addr

unfoldable pub load_single_line : Controller → ℕ → ℕ → Result Controller
load_single_line t addr pid = do
  t' ← fetch_cache_line t pid addr true
  c ← process_read t'.coherence pid addr
  ok (record t' { coherence = c })
