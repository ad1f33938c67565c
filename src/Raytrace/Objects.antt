-- ===== src/Raytrace/Objects.antt =====
-- src/splash2/codes/apps/raytrace/memory.C: `ObjectMalloc` and `ObjectFree` with their usage counts, and
-- the grid records of a ray. The counts are INT, by their patterns of 64 bits; the sizes of the
-- structs are a parameter.
pub mod Counts
use computer_architect.Common.{
  ℕ, zero, suc, ◌+◌, ◌-◌, ◌*◌, ◌/◌, ◌^◌, max, Bool, true, false, not, ◌==◌, leb, if◌then◌else◌, u64,
}
use computer_architect.Common.Runs.{
  Run, done, exit, ◌>>=◌, ◌>>◌, unless, unknown_object, too_many_rayinfos,
}
use computer_architect.Raytrace.Heap.{Heap, write_word, global_malloc, global_free}

pub data ObjectType : Type 0 where
  ot_grid ot_voxel ot_hashtable ot_emptycells ot_bintree ot_peparray ot_unknown : ObjectType

-- `sizeof(GRID)`, `sizeof(VOXEL)` and `sizeof(BTNODE)`
pub record Sizes : Type 0 where
  pub grid : ℕ
  pub voxel : ℕ
  pub btnode : ℕ

-- The bytes for `count` objects.
unfoldable pub object_bytes : Sizes → ObjectType → ℕ → ℕ
object_bytes sizes ot_grid count = u64 (count * sizes.grid)
object_bytes sizes ot_voxel count = u64 (count * sizes.voxel)
object_bytes sizes ot_hashtable count = u64 (count * 8)
object_bytes sizes ot_emptycells count = (1 + count / 64) * 8
object_bytes sizes ot_bintree count = u64 (count * sizes.btnode)
object_bytes sizes ot_peparray count = u64 (count * 8)
object_bytes sizes ot_unknown count = 0

-- The pairs `mem_grid` and `maxmem_grid`, `mem_voxel` and `maxmem_voxel`, and so on.
pub record Count : Type 0 where
  pub mem : ℕ
  pub maxmem : ℕ

pub record Usage : Type 0 where
  pub grid : Count
  pub voxel : Count
  pub hashtable : Count
  pub emptycells : Count
  pub bintree : Count
  pub pep_array : Count

abbrev pub add_count : ℕ → Count → Count
add_count n c = let m = u64 (c.mem + n) in record { mem = m; maxmem = max m c.maxmem }

abbrev pub sub_count : ℕ → Count → Count
sub_count n c = record c { mem = u64 (c.mem + (2 ^ 64 - n)) }

-- One count is changed.
unfoldable pub on_count : (Count → Count) → ObjectType → Usage → Usage
on_count f ot_grid u = record u { grid = f u.grid }
on_count f ot_voxel u = record u { voxel = f u.voxel }
on_count f ot_hashtable u = record u { hashtable = f u.hashtable }
on_count f ot_emptycells u = record u { emptycells = f u.emptycells }
on_count f ot_bintree u = record u { bintree = f u.bintree }
on_count f ot_peparray u = record u { pep_array = f u.pep_array }
on_count f ot_unknown u = u

-- `for (i = 0; i < count; i++) x[i] = v;`
unfoldable pub fill_words : ℕ → Heap → ℕ → ℕ → Heap
unfolding write_word
fill_words zero h x v = h
fill_words (suc left) h x v = fill_words left (write_word h x v) (x + 8) v

-- The words that are set before the object is returned.
unfoldable pub set_up : ObjectType → ℕ → Heap → ℕ → Heap
unfolding fill_words
set_up ot_hashtable count h p = fill_words count h p 0
set_up ot_emptycells count h p = fill_words (1 + count / 64) h p (2 ^ 64 - 1)
set_up other count h p = h

unfoldable pub is_known : ObjectType → Bool
is_known ot_unknown = false
is_known other = true

unfoldable pub object_malloc : Sizes → Heap → Usage → ObjectType → ℕ → Run (ℕ × Heap × Usage)
object_malloc sizes h u t count = (do
  unless (is_known t) unknown_object
  (p, h') ← global_malloc h (object_bytes sizes t count)
  done (p, set_up t count h' p, on_count (add_count (object_bytes sizes t count)) t u))

unfoldable pub object_free : Sizes → Heap → Usage → ObjectType → ℕ → ℕ → Run (Heap × Usage)
object_free sizes h u t count p = (do
  h' ← global_free h p
  unless (is_known t) unknown_object
  done (h', on_count (sub_count (object_bytes sizes t count)) t u))

-- The totals that `ma_print` prints, without the arrays of elements.
unfoldable pub mem_total : (Count → ℕ) → Usage → ℕ
mem_total f u = u64 (f u.grid + f u.hashtable + f u.emptycells + (f u.voxel + f u.bintree))

abbrev pub max_rayinfo : ℕ
max_rayinfo = 4

-- `ri_indx`, from 0: the index of the record in `rinfo`, and the next one.
unfoldable pub ma_rayinfo : ℕ → Run (ℕ × ℕ)
ma_rayinfo ri_indx =
    unless (leb (ri_indx + 1) (max_rayinfo + 1)) too_many_rayinfos >> done (ri_indx, ri_indx + 1)

-- Of a ray that has a record.
unfoldable pub free_rayinfo : ℕ → ℕ
free_rayinfo ri_indx = ri_indx - 1

unfoldable pub reset_rayinfo : ℕ → ℕ
reset_rayinfo ri_indx = 0
