-- ===== src/Raytrace/Realloc/Shrink.antt =====
-- `GlobalRealloc` to a smaller size: the block stays where it is, and its end is freed.
use computer_architect.Common.{
  ℕ, ◌+◌, ◌-◌, ◌%◌, ◌≤◌, ◌≡◌, refl, sym, subst, ◌∙◌, ap, Bool, true, false, ltb, leb, ◌==◌,
  if◌then◌else◌, arith, List, [], ◌∷◌, ◌++◌, Bool-cases, inl, inr,
}
use computer_architect.Common.Runs.{done}
use computer_architect.Raytrace.Heap.{
  Heap, store, check_sum, write_word, set_next, set_size, set_free, set_cksm, round_up, global_free,
}
use computer_architect.Raytrace.Heap.Blocks.{Block, block, span, end_of, first_free, end_of-append}
use computer_architect.Raytrace.Heap.Seg.{Seg, Seg-Same}
use computer_architect.Raytrace.Heap.Arena.{HeapValid}
use computer_architect.Raytrace.Heap.Carve.{assemble, round_up_whole}
use computer_architect.Raytrace.Heap.Free.{merged_size, rest_of, freed}
use computer_architect.Raytrace.Heap.Merge.{used_parts, used_freelist, used_end, behind}
use computer_architect.Raytrace.Heap.Walks.{last_is_free}
use computer_architect.Raytrace.Heap.Coalesce.{free_merges, merge_prev_apart, append_last}
use computer_architect.Raytrace.Realloc.{shrink, global_realloc}

-- Memory with the block at `a` cut behind `n` bytes, before its end, of `r` bytes, is freed.
abbrev split_at : (ℕ → ℕ) → ℕ → ℕ → ℕ → ℕ → ℕ
split_at m a n r =
    let next = a + (n + 32) in
    store (store (store (store (store m (a + 8) n) (next + 8) r) next 0) (next + 16) 0) (next + 24)
      check_sum

last_used :
    (pre : List Block) (d : Bool) (n : ℕ) → last_is_free d (pre ++ (block n false ∷ [])) ≡ false
last_used [] d n = refl
last_used (b ∷ pre) d n = last_used pre b.free n

module _ (h : Heap) (pre : List Block) (b : Block) (post : List Block)
    (v : HeapValid h (pre ++ (b ∷ post))) (used : b.free ≡ false) (n : ℕ) (whole : n % 8 ≡ 0)
    (room : n + 48 ≤ b.size) where
  abbrev a : ℕ
  a = end_of h.begmem pre

  split_at-HeapValid :
      HeapValid
        (record h { mem = split_at h.mem a n (b.size - 32 - n) })
        (pre ++ (block n false ∷ block (b.size - 32 - n) false ∷ post))
  unfolding Seg
  split_at-HeapValid =
      let (left, hd, right) = used_parts h pre b post v used in
      let wb = hd.whole in
      let fb : h.mem (a + 16) ≡ 0 = hd.free ∙ (rw used refl) in
      let nb : h.mem a ≡ 0 = hd.next ∙ (rw used refl) in
      let cb = hd.cksm in
      let mid : List Block = block n false ∷ block (b.size - 32 - n) false ∷ [] in
      let e : a + span b ≡ end_of a mid = omega arith in
      let m = split_at h.mem a n (b.size - 32 - n) in
      let past : behind h pre b post v used ≡ first_free (end_of a mid) post 0 =
        ap (λ z. first_free z post 0) e in
      assemble _ pre mid post v.pos v.aligned
        (used_end h pre b post v used ∙ ap (λ z. end_of z post) e)
        (used_freelist h pre b post v used ∙ ap (first_free h.begmem pre) past)
        (subst (Seg m h.begmem pre) past
          (Seg-Same h.mem m h.begmem pre _ (λ x lo hi. ground arith) left))
        (
          record {
            next = ground arith;
            size = ground arith;
            free = ground arith;
            cksm = ground arith;
            whole = whole;
          },
          (
            record {
              next = ground arith;
              size = ground arith;
              free = ground arith;
              cksm = ground arith;
              whole = omega arith;
            },
            tt,
          ),
        )
        (subst (λ z. Seg m z post 0) e
          (Seg-Same h.mem m (a + span b) post 0 (λ x lo hi. ground arith) right))

  shrink_lem :
      (h' : Heap) × (shrink h (a + 32) b.size n ≡ done h')
      × HeapValid h'
          (pre ++ (block n false ∷ block (merged_size (b.size - 32 - n) post) true ∷ rest_of post))
  unfolding shrink set_next set_size set_free set_cksm write_word
  shrink_lem =
      let h1 : Heap = record h { mem = split_at h.mem a n (b.size - 32 - n) } in
      let pre' = pre ++ (block n false ∷ []) in
      let r = b.size - 32 - n in
      let v' : HeapValid h1 (pre' ++ (block r false ∷ post)) =
        subst (HeapValid h1) (sym (append_last pre (block n false) (block r false ∷ post)))
          split_at-HeapValid in
      let (h', run, base, valid) = free_merges h1 pre' (block r false) post v' refl in
      let at : end_of h.begmem pre' ≡ a + (n + 32) =
        end_of-append h.begmem pre (block n false ∷ []) in
      let back : a + 32 - 32 ≡ a = omega arith in
      let node : a + 32 + n ≡ a + (n + 32) = omega arith in
      let shape : freed pre' r post
          ≡ pre ++ (block n false ∷ block (merged_size r post) true ∷ rest_of post) =
        merge_prev_apart pre' (merged_size r post) (rest_of post) (last_used pre false n)
        ∙ append_last pre (block n false) (block (merged_size r post) true ∷ rest_of post) in
      (
        h',
        rw (back, node) (ap (λ z. global_free h1 (z + 32)) (sym at) ∙ run),
        subst (HeapValid h') shape valid,
      )

-- A block in use and those behind it, after it is cut to `n` bytes when its end has room for a block.
abbrev pub shortened : ℕ → Block → List Block → List Block
shortened n b post =
    let r = b.size - 32 - n in
    if ltb (b.size - n) 48
    then b ∷ post
    else block n false ∷ block (merged_size r post) true ∷ rest_of post

-- On a valid heap, GlobalRealloc of a block in use to a size above 0 that is, rounded up, not
-- above the block's returns the same pointer. The block stays as it is when less than 48 bytes are
-- left over, and otherwise it is cut, and its end is a free block, merged with the next one if
-- that is free.
pub realloc_shorter :
    (h : Heap) (pre : List Block) (b : Block) (post : List Block)
    → HeapValid h (pre ++ (b ∷ post))
    → b.free ≡ false
    → (size : ℕ) → (size == 0) ≡ false
    → round_up size ≤ b.size
    → (h' : Heap) × (global_realloc h (end_of h.begmem pre + 32) size
        ≡ done (end_of h.begmem pre + 32, h'))
      × HeapValid h' (pre ++ shortened (round_up size) b post)
unfolding global_realloc
realloc_shorter h pre b post v used size pos fits =
    let a = end_of h.begmem pre in
    let hd = (used_parts h pre b post v used).1 in
    let back : a + 32 - 32 ≡ a = omega arith in
    let p0 : (a + 32 == 0) ≡ false = ground arith in
    let taken : h.mem (a + 16) ≡ 0 = hd.free ∙ (rw used refl) in
    let smaller : leb (round_up size) b.size ≡ true = ground arith in
    elim (Bool-cases (ltb (b.size - round_up size) 48)) [
      | inl tight ↦
          (h, rw (pos, p0, back, hd.cksm, taken, hd.size, smaller, tight) refl, rw tight v)
      | inr wide ↦
          let (h', run, valid) =
            shrink_lem h pre b post v used (round_up size) (round_up_whole size) (ground arith) in
          (h', rw (pos, p0, back, hd.cksm, taken, hd.size, smaller, wide, run) refl, rw wide valid)
    ]
