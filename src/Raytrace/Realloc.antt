-- ===== src/Raytrace/Realloc.antt =====
-- src/splash2/codes/apps/raytrace/memory.C: `GlobalCalloc` and `GlobalRealloc`, with their loops over
-- words of 8 bytes.
pub mod Clear
pub mod Shrink
use computer_architect.Common.{
  ℕ, zero, suc, ◌+◌, ◌-◌, ◌*◌, ◌/◌, Bool, true, false, not, ◌&&◌, ◌||◌, ◌==◌, ltb, leb,
  if◌then◌else◌, u64,
}
use computer_architect.Common.Runs.{
  Run, done, exit, spent, ◌>>=◌, ◌>>◌, unless, invalid_checksum, not_allocated, not_in_list,
}
use computer_architect.Raytrace.Heap.{
  Heap, write_word, nodesize, threshold, check_sum, round_up, next_of, size_of, free_of, cksm_of,
  set_next, set_size, set_free, set_cksm, link, rounds, global_malloc, global_free,
}

-- `while (nbytes--) *p++ = 0;`
unfoldable pub zero_words : ℕ → Heap → ℕ → Heap
unfolding write_word
zero_words zero h p = h
zero_words (suc left) h p = zero_words left (write_word h p 0) (p + 8)

unfoldable pub global_calloc : Heap → ℕ → ℕ → Run (ℕ × Heap)
unfolding global_malloc round_up zero_words
global_calloc h n size =
    let nbytes = round_up (u64 (n * size)) in
    (do (p, h') ← global_malloc h nbytes; done (p, zero_words (nbytes / 4) h' p))

-- `while (oldsize--) *s++ = *r++;`
unfoldable pub copy_words : ℕ → Heap → ℕ → ℕ → Heap
unfolding write_word
copy_words zero h s r = h
copy_words (suc left) h s r = copy_words left (write_word h s (h.mem r)) (s + 8) (r + 8)

-- The node before `next` in the free list: `prev` and `curr`.
unfoldable pub find_next : ℕ → Heap → ℕ → ℕ → ℕ → Run (ℕ × ℕ)
find_next zero h next prev curr = spent
find_next (suc left) h next prev curr =
    let rest = find_next left h next curr (next_of h curr) in
    if not (curr == 0) && ltb curr next && ltb curr h.endmem then rest else done (prev, curr)

-- The end of the block at `pn` that a smaller size leaves over is freed.
unfoldable pub shrink : Heap → ℕ → ℕ → ℕ → Run Heap
unfolding set_next set_size set_free set_cksm global_free
shrink h p oldsize newsize =
    let next = p + newsize in
    let h1 = set_size h (p - nodesize) newsize in
    let h2 = set_next (set_size h1 next (oldsize - nodesize - newsize)) next 0 in
    global_free (set_cksm (set_free h2 next 0) next check_sum) (next + nodesize)

-- The whole next block is taken, or its end is a new node in its place.
unfoldable pub expand : Heap → ℕ → ℕ → ℕ → ℕ → ℕ → Heap
unfolding set_next set_size set_free set_cksm link
expand h p next prev totsize newsize =
    let node = p + newsize in
    if ltb (totsize - newsize) threshold
    then set_size (set_free (set_next (link h prev (next_of h next)) next 0) next 0) (p - nodesize)
        totsize
    else (let h1 =
          set_size (set_next h node (next_of h next)) node (totsize - nodesize - newsize) in
        let h2 = link (set_cksm (set_free h1 node 1) node check_sum) prev node in
        set_size (set_free (set_next h2 next 0) next 0) (p - nodesize) newsize)

-- A new block, with the old one's words.
unfoldable pub move : Heap → ℕ → ℕ → ℕ → Run (ℕ × Heap)
unfolding global_malloc copy_words global_free
move h p oldsize newsize = (do
  (q, h') ← global_malloc h newsize
  (if q == 0
      then done (0, h')
      else (global_free (copy_words (oldsize / 4) h' q p) p >>= λ h2. done (q, h2))))

unfoldable pub global_realloc : Heap → ℕ → ℕ → Run (ℕ × Heap)
global_realloc h p size =
    let pn = p - nodesize in
    let newsize = round_up size in
    let oldsize = size_of h pn in
    let next = p + oldsize in
    let totsize = u64 (oldsize + nodesize + size_of h next) in
    if size == 0
    then (global_free h p >>= λ h'. done (0, h'))
    else if p == 0
    then global_malloc h size
    else (do
      unless (cksm_of h pn == check_sum) invalid_checksum
      unless (free_of h pn == 0) not_allocated
      (if leb newsize oldsize
          then (if ltb (oldsize - newsize) threshold
              then done (p, h)
              else (shrink h p oldsize newsize >>= λ h'. done (p, h')))
          else if ltb next h.endmem && not (free_of h next == 0) && leb newsize totsize
          then (do
            (prev, curr) ← find_next (rounds h) h next 0 h.freelist
            unless (curr == next) not_in_list
            done (p, expand h p next prev totsize newsize))
          else move h p oldsize newsize))
