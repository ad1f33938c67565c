-- ===== src/Raytrace/Tests.antt =====
-- The theorems on the ray tracer's heap, pools and stack at concrete inputs.
use computer_architect.Common.{
  ℕ, ◌+◌, ◌*◌, ◌%◌, ◌≤◌, ◌<◌, ◌≡◌, refl, true, false, ◌==◌, if◌then◌else◌, List, [], ◌∷◌, arith,
  ◌⊎◌, u64,
}
use computer_architect.Common.Runs.{Run, done, exit, no_memory}
use computer_architect.Raytrace.Heap.{
  Heap, check_sum, heap_init, round_up, global_malloc, global_free,
}
use computer_architect.Raytrace.Heap.Blocks.{Block, block}
use computer_architect.Raytrace.Heap.Seg.{Seg}
use computer_architect.Raytrace.Heap.Arena.{HeapValid}
use computer_architect.Raytrace.Heap.Coalesce.{free_merges, free-malloc}
use computer_architect.Raytrace.Heap.Sessions.{
  Client, malloc, Calls, none_yet, then_call, Sound, start, heap_calls-Sound, heap_serves,
}
use computer_architect.Raytrace.Realloc.{global_calloc, global_realloc}
use computer_architect.Raytrace.Realloc.Clear.{global_calloc_lem}
use computer_architect.Raytrace.Realloc.Shrink.{realloc_shorter}
use computer_architect.Raytrace.WorkPool.{Allocator, Pools, WpJob, get_jobs}
use computer_architect.Raytrace.WorkPool.Steal.{Nothing, Found, get_jobs_none, get_jobs-Found}
use computer_architect.Raytrace.RayStack.{Ray, RayTreeStack, push_ray, pop_ray}
use computer_architect.Raytrace.RayStack.Contents.{message, contents, pop-push_ray}
use computer_architect.Raytrace.Objects.{Sizes, Count, Usage}
use computer_architect.Raytrace.Objects.Counts.{Fits}

-- A block in use before a free one.
abbrev words : List (ℕ × ℕ)
words =
    (1024, 0)
    ∷ (1032, 104)
    ∷ (1040, 0)
    ∷ (1048, check_sum)
    ∷ (1160, 0)
    ∷ (1168, 232)
    ∷ (1176, 1)
    ∷ (1184, check_sum)
    ∷ []

abbrev word_at : List (ℕ × ℕ) → ℕ → ℕ
word_at [] x = 0
word_at ((a, v) ∷ rest) x = if a == x then v else word_at rest x

abbrev heap : Heap
heap = record { mem = λ x. word_at words x; freelist = 1160; begmem = 1024; endmem = 1424 }

heap-HeapValid : HeapValid heap (block 104 false ∷ block 232 true ∷ [])
unfolding Seg
heap-HeapValid = record {
  pos = omega arith;
  aligned = refl;
  end = refl;
  free = refl;
  blocks = (
    record { next = refl; size = refl; free = refl; cksm = refl; whole = refl },
    (record { next = refl; size = refl; free = refl; cksm = refl; whole = refl }, tt),
  );
}

-- A client after one call.
abbrev outcome : Run (ℕ × Heap) → ℕ × Heap
outcome (done r) = r
outcome r = (0, heap)

abbrev client : Client
client = record {
  heap = (outcome (global_malloc (heap_init (λ x. 0) 400 1024).1 100)).1;
  live = λ x. if x == 1056 then true else false;
}

one_call : Calls (start (λ x. 0) 400 1024) client
unfolding global_malloc heap_init
one_call = then_call none_yet (malloc 100 1056 refl refl)

round_up_400 : 32 ≤ round_up 400
unfolding round_up
round_up_400 = omega arith

heap_calls-Sound_example : (bs : List Block) × Sound client bs
heap_calls-Sound_example =
    heap_calls-Sound (λ x. 0) 400 1024 (omega arith) refl round_up_400 client one_call

heap_serves_example :
    ((h' : Heap) × (global_free client.heap 1056 ≡ done h'))
    × ((global_malloc client.heap 16 ≡ exit no_memory)
        ⊎ ((q : ℕ) × (h' : Heap) × (global_malloc client.heap 16 ≡ done (q, h'))
            × (client.live q ≡ false)))
heap_serves_example =
    heap_serves (λ x. 0) 400 1024 (omega arith) refl round_up_400 client one_call 1056 16 refl refl

free_merges_example :
    (h' : Heap) × (global_free heap 1056 ≡ done h')
    × (h'.begmem ≡ 1024)
    × HeapValid h' (block 368 true ∷ [])
free_merges_example =
    free_merges heap [] (block 104 false) (block 232 true ∷ []) heap-HeapValid refl

free-malloc_example :
    (h' : Heap) × (h2 : Heap) × (global_malloc heap 100 ≡ done (1192, h'))
    × (global_free h' 1192 ≡ done h2)
    × HeapValid h2 (block 104 false ∷ block 232 true ∷ [])
unfolding round_up
free-malloc_example =
    free-malloc heap (block 104 false ∷ []) (block 232 true) [] heap-HeapValid refl refl refl 100
      refl (refl, tt) (omega arith)

realloc_shorter_example :
    (h' : Heap) × (global_realloc heap 1056 40 ≡ done (1056, h'))
    × HeapValid h' (block 40 false ∷ block 296 true ∷ [])
unfolding round_up
realloc_shorter_example =
    realloc_shorter heap [] (block 104 false) (block 232 true ∷ []) heap-HeapValid refl 40 refl
      (omega arith)

global_calloc_lem_example :
    (h2 : Heap) × (global_calloc heap 4 8 ≡ done (1192, h2))
    × ((x : ℕ) → x % 8 ≡ 1192 % 8 → 1192 ≤ x → x < 1192 + 2 * round_up (u64 (4 * 8)) → h2.mem x ≡ 0)
    × ((x : ℕ)
        → (x < 1192) ⊎ (1192 + 2 * round_up (u64 (4 * 8)) ≤ x)
        → h2.mem x ≡ (outcome (global_malloc heap 32)).1.mem x)
unfolding round_up global_malloc
global_calloc_lem_example = global_calloc_lem heap 4 8 1192 (outcome (global_malloc heap 32)).1 refl

-- An allocator that never uses memory again.
abbrev bump : Allocator ℕ
bump = record { malloc = λ s n. done (s, s + n); free = λ s p. done s }

abbrev no_job : WpJob
no_job = record { xpix = 0; ypix = 0; xdim = 0; ydim = 0; next = 0 }

-- The second of three pools has a bundle.
abbrev pools : Pools ℕ
pools = record {
  workpool = λ q. if q == 1 then 64 else 0;
  wpstat = λ q. 1;
  entry = λ a. record no_job { xdim = 4; ydim = 4 };
  alloc = 104;
}

abbrev empty_pools : Pools ℕ
empty_pools = record pools { workpool = λ q. 0 }

get_jobs_none_example : Nothing bump empty_pools (get_jobs bump 3 empty_pools 2)
get_jobs_none_example = get_jobs_none bump 3 empty_pools 2 (omega arith) (λ q lt. refl)

get_jobs-Found_example : Found bump 3 pools (get_jobs bump 3 pools 2)
get_jobs-Found_example = get_jobs-Found bump 3 pools 2 1 (omega arith) (omega arith) refl

abbrev ray : Ray ℕ (Unit {0})
ray = record {
  id = 7;
  x = 3;
  y = 4;
  position = (0, 0, 1);
  direction = (1, 0, 0);
  level = 0;
  weight = 1;
  other = tt;
}

abbrev ray_stack : RayTreeStack ℕ (Unit {0})
ray_stack = record { stack = λ k. record ray { id = 0 }; count = 0; stack_size = 2 }

pop-push_ray_example :
    (t : RayTreeStack ℕ (Unit {0})) × (push_ray ray_stack ray ≡ done t)
    × ((pop_ray t ray).0 ≡ true)
    × (message (pop_ray t ray).1 ≡ message ray)
    × (contents (pop_ray t ray).2 ≡ [])
pop-push_ray_example = pop-push_ray ray_stack ray ray (omega arith)

abbrev unused : Count
unused = record { mem = 0; maxmem = 0 }

abbrev usage : Usage
usage = record {
  grid = unused;
  voxel = unused;
  hashtable = unused;
  emptycells = unused;
  bintree = unused;
  pep_array = unused;
}

abbrev sizes : Sizes
sizes = record { grid = 96; voxel = 48; btnode = 72 }

usage-Fits : Fits usage
usage-Fits = record {
  grid = omega arith;
  voxel = omega arith;
  hashtable = omega arith;
  emptycells = omega arith;
  bintree = omega arith;
  pep_array = omega arith;
}

abbrev after_grid : Heap
after_grid = (outcome (global_malloc heap 96)).1

abbrev freed_again : Run Heap → Heap
freed_again (done h) = h
freed_again r = heap
