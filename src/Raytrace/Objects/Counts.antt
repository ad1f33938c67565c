-- ===== src/Raytrace/Objects/Counts.antt =====
-- The counts of `ObjectMalloc` and `ObjectFree`, and the bounds of the records of a ray.
use computer_architect.Common.{
  ℕ, ◌+◌, ◌-◌, ◌^◌, ◌≤◌, ◌<◌, ◌≡◌, refl, sym, ap, ◌∙◌, true, leb, u64, arith, Bool-cases, inl, inr,
}
use computer_architect.Common.Runs.{Run, done, exit, too_many_rayinfos}
use computer_architect.Raytrace.Heap.{Heap, global_malloc, global_free}
use computer_architect.Raytrace.Objects.{
  ObjectType, ot_grid, ot_voxel, ot_hashtable, ot_emptycells, ot_bintree, ot_peparray, ot_unknown,
  Sizes, Count, Usage, object_bytes, add_count, sub_count, on_count, set_up, is_known,
  object_malloc, object_free, ma_rayinfo, free_rayinfo, max_rayinfo,
}

-- The bytes in use, for each type.
abbrev pub mems : Usage → ℕ × ℕ × ℕ × ℕ × ℕ × ℕ
mems u =
    (u.grid.mem, u.voxel.mem, u.hashtable.mem, u.emptycells.mem, u.bintree.mem, u.pep_array.mem)

-- The counts are 64-bit patterns.
pub record Fits (u : Usage) : Type 0 where
  pub grid : u.grid.mem < 2 ^ 64
  pub voxel : u.voxel.mem < 2 ^ 64
  pub hashtable : u.hashtable.mem < 2 ^ 64
  pub emptycells : u.emptycells.mem < 2 ^ 64
  pub bintree : u.bintree.mem < 2 ^ 64
  pub pep_array : u.pep_array.mem < 2 ^ 64

back_lem : (m n : ℕ) → m < 2 ^ 64 → n ≤ 2 ^ 64 → u64 (u64 (m + n) + (2 ^ 64 - n)) ≡ m
back_lem m n fm fn = omega arith

bytes_fit :
    (sizes : Sizes) (t : ObjectType) (count : ℕ)
    → count < 2 ^ 63
    → object_bytes sizes t count ≤ 2 ^ 64
unfolding object_bytes
bytes_fit sizes ot_grid count small = omega arith
bytes_fit sizes ot_voxel count small = omega arith
bytes_fit sizes ot_hashtable count small = omega arith
bytes_fit sizes ot_emptycells count small = omega arith
bytes_fit sizes ot_bintree count small = omega arith
bytes_fit sizes ot_peparray count small = omega arith
bytes_fit sizes ot_unknown count small = omega arith

abbrev back_to : ℕ → Count → Count
back_to n c = sub_count n (add_count n c)

twice-on_count :
    (n : ℕ) (t : ObjectType) (u : Usage)
    → on_count (sub_count n) t (on_count (add_count n) t u) ≡ on_count (back_to n) t u
unfolding on_count
twice-on_count n ot_grid u = refl
twice-on_count n ot_voxel u = refl
twice-on_count n ot_hashtable u = refl
twice-on_count n ot_emptycells u = refl
twice-on_count n ot_bintree u = refl
twice-on_count n ot_peparray u = refl
twice-on_count n ot_unknown u = refl

-- A count that is raised and lowered by the same bytes.
mems-on_count :
    (n : ℕ) (t : ObjectType) (u : Usage)
    → Fits u
    → n ≤ 2 ^ 64
    → mems (on_count (back_to n) t u) ≡ mems u
unfolding on_count
mems-on_count n ot_grid u f le =
    ap (λ z. (z, u.voxel.mem, u.hashtable.mem, u.emptycells.mem, u.bintree.mem, u.pep_array.mem))
      (back_lem u.grid.mem n f.grid le)
mems-on_count n ot_voxel u f le =
    ap (λ z. (u.grid.mem, z, u.hashtable.mem, u.emptycells.mem, u.bintree.mem, u.pep_array.mem))
      (back_lem u.voxel.mem n f.voxel le)
mems-on_count n ot_hashtable u f le =
    ap (λ z. (u.grid.mem, u.voxel.mem, z, u.emptycells.mem, u.bintree.mem, u.pep_array.mem))
      (back_lem u.hashtable.mem n f.hashtable le)
mems-on_count n ot_emptycells u f le =
    ap (λ z. (u.grid.mem, u.voxel.mem, u.hashtable.mem, z, u.bintree.mem, u.pep_array.mem))
      (back_lem u.emptycells.mem n f.emptycells le)
mems-on_count n ot_bintree u f le =
    ap (λ z. (u.grid.mem, u.voxel.mem, u.hashtable.mem, u.emptycells.mem, z, u.pep_array.mem))
      (back_lem u.bintree.mem n f.bintree le)
mems-on_count n ot_peparray u f le =
    ap (λ z. (u.grid.mem, u.voxel.mem, u.hashtable.mem, u.emptycells.mem, u.bintree.mem, z))
      (back_lem u.pep_array.mem n f.pep_array le)
mems-on_count n ot_unknown u f le = refl

-- For a known type, a count below 2^63 and 64-bit usage counts, when the GlobalMalloc and the
-- GlobalFree in them return, ObjectMalloc and a later ObjectFree of the same type and count
-- return, and leave the bytes in use of each type as they were.
pub object_free-malloc :
    (sizes : Sizes) (h h' h1 h2 : Heap) (u : Usage) (t : ObjectType) (count p : ℕ)
    → is_known t ≡ true
    → Fits u
    → count < 2 ^ 63
    → global_malloc h (object_bytes sizes t count) ≡ done (p, h')
    → global_free h1 p ≡ done h2
    → (u' : Usage) × (u2 : Usage) × (object_malloc sizes h u t count
        ≡ done (p, set_up t count h' p, u'))
      × (object_free sizes h1 u' t count p ≡ done (h2, u2))
      × (mems u2 ≡ mems u)
unfolding object_malloc object_free
object_free-malloc sizes h h' h1 h2 u t count p known fits small got freed =
    let n = object_bytes sizes t count in
    (
      on_count (add_count n) t u,
      on_count (sub_count n) t (on_count (add_count n) t u),
      rw (known, got) refl,
      rw (freed, known) refl,
      ap mems (twice-on_count n t u) ∙ mems-on_count n t u fits (bytes_fit sizes t count small),
    )

index_or : Run (ℕ × ℕ) → ℕ × ℕ
index_or (done x) = x
index_or r = (0, 0)

-- A record that a ray gets lies in its array of five, and is the next one again when it is released.
pub ma_rayinfo_lem :
    (i j k : ℕ)
    → ma_rayinfo i ≡ done (j, k)
    → (j ≡ i) × (j < max_rayinfo + 1) × (free_rayinfo k ≡ i)
unfolding ma_rayinfo free_rayinfo index_or
ma_rayinfo_lem i j k run = elim (Bool-cases (leb (i + 1) 5)) [
  | inl room ↦
      let ran : ma_rayinfo i ≡ done (i, i + 1) = rw room refl in
      let same : (i, i + 1) ≡ (j, k) = ap index_or (sym ran ∙ run) in
      let ej : i ≡ j = ap (λ z. z.0) same in
      let ek : i + 1 ≡ k = ap (λ z. z.1) same in (sym ej, ground arith, omega arith)
  | inr full ↦
      let ran : ma_rayinfo i ≡ exit too_many_rayinfos = rw full refl in
      let clash : ◌≡◌ {A = Run (ℕ × ℕ)} (exit too_many_rayinfos) (done (j, k)) = sym ran ∙ run in cc
]
