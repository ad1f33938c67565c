-- ===== src/Raytrace/Heap/Totals.antt =====
-- `GlobalMemAvl` and `GlobalMemMax` on a valid heap.
use computer_architect.Common.{ℕ, ◌+◌, if◌then◌else◌, max, List, [], ◌∷◌}
use computer_architect.Raytrace.Heap.{Heap}
use computer_architect.Raytrace.Heap.Blocks.{Block}
use computer_architect.Raytrace.Heap.Seg.{Seg}

-- The bytes of the free blocks, and of the largest of them.
abbrev pub free_bytes : List Block → ℕ
free_bytes [] = 0
free_bytes (b ∷ bs) = (if b.free then b.size else 0) + free_bytes bs

abbrev pub largest : List Block → ℕ
largest [] = 0
largest (b ∷ bs) = max (if b.free then b.size else 0) (largest bs)
