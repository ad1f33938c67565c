-- ===== src/Raytrace/Heap.antt =====
-- src/splash2/codes/apps/raytrace/memory.C: the global heap. An arena of blocks, each behind a
-- header of four 8-byte words (next, size, free, cksm), and a list of the free blocks in the order
-- of their addresses. Memory is read by words; addresses and sizes are multiples of 8, so two words
-- never overlap. Each routine holds `memlock`, and is one step here.
pub mod Blocks
pub mod Seg
pub mod Arena
pub mod Carve
pub mod Malloc
pub mod Walks
pub mod Free
pub mod Merge
pub mod Release
pub mod Coalesce
pub mod Coalesced
pub mod Sessions
pub mod Totals
use computer_architect.Common.{
  ℕ, zero, suc, ◌+◌, ◌-◌, ◌*◌, ◌/◌, ◌%◌, ◌^◌, bit_and, Bool, true, false, not, ◌&&◌, ◌||◌, ◌==◌,
  ltb, leb, if◌then◌else◌, u64,
}
use computer_architect.Common.Runs.{
  Run, done, exit, spent, ◌>>=◌, ◌>>◌, unless, Exit, invalid_checksum, not_marked_free, no_memory,
  not_allocated, fell_off,
}

-- `CKSM`, `sizeof(NODE)` and `THRESHOLD`
abbrev pub check_sum : ℕ
check_sum = 0x55AA55AA

abbrev pub nodesize : ℕ
nodesize = 32

abbrev pub threshold : ℕ
threshold = nodesize + 16

unfoldable pub round_up : ℕ → ℕ
round_up x = u64 (x + 7) / 8 * 8

-- `x & 0xFFFFFFF8`
unfoldable pub round_dn : ℕ → ℕ
round_dn x = bit_and x 0xFFFFFFF8

-- The words of memory, `gm->freelist`, `begmem` and `endmem`. `NULL` is 0.
pub record Heap : Type 0 where
  pub mem : ℕ → ℕ
  pub freelist : ℕ
  pub begmem : ℕ
  pub endmem : ℕ

abbrev pub store : (ℕ → ℕ) → ℕ → ℕ → ℕ → ℕ
store mem p v a = if a == p then v else mem a

unfoldable pub write_word : Heap → ℕ → ℕ → Heap
write_word h p v = record h { mem = store h.mem p v }

-- The fields of the header at `p`.
abbrev pub next_of : Heap → ℕ → ℕ
next_of h p = h.mem p

abbrev pub size_of : Heap → ℕ → ℕ
size_of h p = h.mem (p + 8)

abbrev pub free_of : Heap → ℕ → ℕ
free_of h p = h.mem (p + 16)

abbrev pub cksm_of : Heap → ℕ → ℕ
cksm_of h p = h.mem (p + 24)

unfoldable pub set_next : Heap → ℕ → ℕ → Heap
unfolding write_word
set_next h p v = write_word h p v

unfoldable pub set_size : Heap → ℕ → ℕ → Heap
unfolding write_word
set_size h p v = write_word h (p + 8) v

unfoldable pub set_free : Heap → ℕ → ℕ → Heap
unfolding write_word
set_free h p v = write_word h (p + 16) v

unfoldable pub set_cksm : Heap → ℕ → ℕ → Heap
unfolding write_word
set_cksm h p v = write_word h (p + 24) v

-- `TRUE` after a request that `G_MALLOC` answers by `got`, and the heap.
unfoldable pub heap_init : (ℕ → ℕ) → ℕ → ℕ → Bool × Heap
unfolding round_up set_size set_next set_free set_cksm
heap_init mem size got =
    let size' = round_up size in
    let h : Heap = record { mem = mem; freelist = got; begmem = got; endmem = got + size' } in
    if got == 0 then (false, record { mem = mem; freelist = got; begmem = 0; endmem = 0 }) else (
      true,
      set_cksm
          (set_free (set_next (set_size h got (u64 (size' + (2 ^ 64 - nodesize)))) got 0) got 1) got
          check_sum,
    )

-- More rounds than a walk over the arena can take: a block has 32 bytes at least.
abbrev pub rounds : Heap → ℕ
rounds h = h.endmem - h.begmem + 1

-- The first fit: `prev` and `curr`.
unfoldable pub first_fit : ℕ → Heap → ℕ → ℕ → ℕ → Run (ℕ × ℕ)
first_fit zero h prev curr size = spent
first_fit (suc left) h prev curr size =
    let rest = first_fit left h curr (next_of h curr) size in
    if curr == 0 || leb size (size_of h curr) then done (prev, curr) else (do
      unless (cksm_of h curr == check_sum) invalid_checksum
      unless (free_of h curr == 1) not_marked_free
      rest)

-- The rest of a block that is larger than needed: the node that follows in the free list.
unfoldable pub carve : Heap → ℕ → ℕ → ℕ × Heap
unfolding set_next set_size set_free set_cksm
carve h curr size =
    let next = curr + (nodesize + size) in
    if ltb threshold (size_of h curr - size)
    then (
      next,
      set_size
          (set_cksm
            (set_free
              (set_next (set_size h next (size_of h curr - nodesize - size)) next (next_of h curr))
              next 1)
            next check_sum)
          curr size,
    )
    else (next_of h curr, h)

-- `if (!prev) gm->freelist = next; else prev->next = next;`
unfoldable pub link : Heap → ℕ → ℕ → Heap
unfolding set_next
link h prev next = if prev == 0 then record h { freelist = next } else set_next h prev next

-- The address, and the heap. A size of 0 gives `NULL`.
unfoldable pub global_malloc : Heap → ℕ → Run (ℕ × Heap)
unfolding round_up first_fit carve link set_next set_free
global_malloc h size = if size == 0 then done (0, h) else (do
  (prev, curr) ← first_fit (rounds h) h 0 h.freelist (round_up size)
  unless (not (curr == 0)) no_memory
  let (next, h') = carve h curr (round_up size)
  done (curr + nodesize, set_free (set_next (link h' prev next) curr 0) curr 0))

-- The search for the free neighbour before `pn`: `prev`, `pcom` and `curr`.
unfoldable pub search_prev : ℕ → Heap → ℕ → ℕ → Bool → ℕ → Run (ℕ × Bool × ℕ)
search_prev zero h pn prev pcom curr = spent
search_prev (suc left) h pn prev pcom curr =
    let free = not (free_of h curr == 0) in
    let rest =
      search_prev left h pn (if free then curr else prev) free
        (curr + (size_of h curr + nodesize)) in
    if ltb curr pn && ltb curr h.endmem
    then (do unless (cksm_of h curr == check_sum) invalid_checksum; rest)
    else done (prev, pcom, curr)

-- The search for the next free block from `curr` on: `next` and `ncom`.
unfoldable pub search_next : ℕ → Heap → Bool → ℕ → Run (ℕ × Bool)
search_next zero h ncom curr = spent
search_next (suc left) h ncom curr =
    let rest = search_next left h false (curr + (size_of h curr + nodesize)) in
    if ltb curr h.endmem
    then (do
      unless (cksm_of h curr == check_sum) invalid_checksum
      (if free_of h curr == 0 then rest else done (curr, ncom)))
    else done (0, false)

-- The nine cases of the combination of `prev`, `curr` and `next`.
unfoldable pub combine : Heap → ℕ → ℕ → ℕ → Bool → Bool → Heap
unfolding set_next set_size
combine h prev curr next pcom ncom =
    if not (next == 0) && not ncom && pcom
    then set_size (set_next h prev next) prev (size_of h prev + (size_of h curr + nodesize))
    else if not (next == 0) && not ncom && not (prev == 0) && not pcom
    then set_next (set_next h prev curr) curr next
    else if not (next == 0) && not ncom && prev == 0
    then set_next (record h { freelist = curr }) curr next
    else if ncom && pcom
    then set_size (set_next h prev (next_of h next)) prev
        (size_of h prev + (size_of h curr + size_of h next + 2 * nodesize))
    else if ncom && not (prev == 0) && not pcom
    then set_size (set_next (set_next h prev curr) curr (next_of h next)) curr
        (size_of h curr + (size_of h next + nodesize))
    else if ncom && prev == 0
    then set_size (set_next (record h { freelist = curr }) curr (next_of h next)) curr
        (size_of h curr + (size_of h next + nodesize))
    else if next == 0 && pcom
    then set_size (set_next h prev 0) prev (size_of h prev + (size_of h curr + nodesize))
    else if next == 0 && not (prev == 0) && not pcom
    then set_next (set_next h prev curr) curr 0
    else if next == 0 && prev == 0
    then set_next (record h { freelist = curr }) curr 0
    else h

-- The free block before `pn`, and whether it is the one right before it.
unfoldable pub find_prev : Heap → ℕ → Run (ℕ × Bool)
unfolding search_prev
find_prev h pn = if h.freelist == 0 then done (0, false) else (do
  (prev, pcom, curr) ← search_prev (rounds h) h pn 0 false h.freelist
  unless (ltb curr h.endmem) fell_off
  done (prev, pcom))

-- `GlobalFree`. It does nothing before the heap is set up.
unfoldable pub global_free : Heap → ℕ → Run Heap
unfolding find_prev search_next set_free combine
global_free h p =
    let pn = p - nodesize in
    if h.begmem == 0 then done h else (do
      unless (cksm_of h pn == check_sum) invalid_checksum
      unless (free_of h pn == 0) not_allocated
      (prev, pcom) ← find_prev h pn
      (next, ncom) ← search_next (rounds h) h true (pn + (size_of h pn + nodesize))
      done (combine (set_free h pn 1) prev pn next pcom ncom))

-- The walks of `GlobalMemAvl` and `GlobalMemMax` over the free list.
unfoldable pub sum_free : ℕ → Heap → ℕ → ℕ → Run ℕ
sum_free zero h curr total = spent
sum_free (suc left) h curr total =
    let rest = sum_free left h (next_of h curr) (u64 (total + size_of h curr)) in
    if curr == 0 then done total else rest

unfoldable pub max_free : ℕ → Heap → ℕ → ℕ → Run ℕ
max_free zero h curr best = spent
max_free (suc left) h curr best =
    let rest =
      max_free left h (next_of h curr)
        (if ltb best (size_of h curr) then size_of h curr else best) in
    if curr == 0 then done best else rest

unfoldable pub global_mem_avl : Heap → Run ℕ
unfolding sum_free round_dn
global_mem_avl h = sum_free (rounds h) h h.freelist 0 >>= λ total. done (round_dn total)

unfoldable pub global_mem_max : Heap → Run ℕ
unfolding max_free round_dn
global_mem_max h = max_free (rounds h) h h.freelist 0 >>= λ best. done (round_dn best)
