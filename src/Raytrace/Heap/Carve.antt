-- ===== src/Raytrace/Heap/Carve.antt =====
-- Memory after a block is taken, whole or in part, and the blocks that it holds.
use computer_architect.Common.{
  ℕ, ◌+◌, ◌-◌, ◌%◌, ◌≤◌, ◌<◌, ◌≡◌, sym, ap, ◌∙◌, true, false, ltb, ◌==◌, if◌then◌else◌, List, [],
  ◌∷◌, ◌++◌, length, arith, Bool-cases, inl, inr,
}
use computer_architect.Raytrace.Heap.{Heap, store, check_sum, round_up}
use computer_architect.Raytrace.Heap.Blocks.{
  Block, block, span, end_of, first_free, last_free, end_of-append, first_free-append,
  last_free_bounds, first_free_none, first_free_some,
}
use computer_architect.Raytrace.Heap.Seg.{
  Header, Seg, Same, Seg-Same, Seg-append, relink, relink-Seg,
}
use computer_architect.Raytrace.Heap.Arena.{HeapValid}

-- A heap over three runs of blocks.
pub assemble :
    (h : Heap) (pre mid post : List Block)
    → 0 < h.begmem
    → h.begmem % 8 ≡ 0
    → h.endmem ≡ end_of (end_of (end_of h.begmem pre) mid) post
    → h.freelist
      ≡ first_free h.begmem pre (
          first_free
            (end_of h.begmem pre)
            mid
            (first_free (end_of (end_of h.begmem pre) mid) post 0))
    → Seg h.mem h.begmem pre (
        first_free (end_of h.begmem pre) mid (first_free (end_of (end_of h.begmem pre) mid) post 0))
    → Seg h.mem (end_of h.begmem pre) mid (first_free (end_of (end_of h.begmem pre) mid) post 0)
    → Seg h.mem (end_of (end_of h.begmem pre) mid) post 0
    → HeapValid h (pre ++ (mid ++ post))
assemble h pre mid post pos aligned end free s1 s2 s3 =
    let a = end_of h.begmem pre in
    let inner = first_free-append a mid post 0 in
    record {
      pos = pos;
      aligned = aligned;
      end = end ∙ sym (end_of-append h.begmem pre (mid ++ post) ∙ end_of-append a mid post);
      free =
          free
          ∙ sym
              (first_free-append h.begmem pre (mid ++ post) 0 ∙ ap (first_free h.begmem pre) inner);
      blocks =
          Seg-append h.mem h.begmem pre (mid ++ post) 0 (rw inner s1)
            (Seg-append h.mem a mid post 0 s2 s3);
    }

pub length_parts :
    (pre : List Block) (b : Block) (post : List Block) → length pre < length (pre ++ (b ∷ post))
length_parts [] b post = omega arith
length_parts (c ∷ pre) b post = omega (arith, length_parts pre b post)

-- The free list after `prev` is linked to `t`.
pub linked_freelist :
    (a : ℕ) (pre : List Block) (old t : ℕ)
    → 0 < a
    → (if last_free a pre == 0 then t else first_free a pre old) ≡ first_free a pre t
linked_freelist a pre old t pos = elim (Bool-cases (last_free a pre == 0)) [
  | inl none ↦ rw none (sym (first_free_none a pre t pos none))
  | inr found ↦ rw found (first_free_some a pre old t found)
]

pub round_up_whole : (x : ℕ) → round_up x % 8 ≡ 0
unfolding round_up
round_up_whole x = omega arith

-- Memory `m` with the last free block before `a` linked to `t`, and the block at `a` in use.
abbrev pub taken : ℕ → List Block → (ℕ → ℕ) → ℕ → ℕ → ℕ
taken beg pre m t =
    store (store (relink m (last_free beg pre) t) (end_of beg pre) 0) (end_of beg pre + 16) 0

-- Memory with the block at `a` of `size` bytes cut behind its first `n`.
abbrev pub cut : (ℕ → ℕ) → ℕ → ℕ → ℕ → ℕ → ℕ → ℕ
cut m a size nx n =
    let next = a + (n + 32) in
    store
      (store (store (store (store m (next + 8) (size - 32 - n)) next nx) (next + 16) 1) (next + 24)
        check_sum)
      (a + 8) n

module _ (m : ℕ → ℕ) (beg : ℕ) (pre : List Block) (b : Block) (nx n : ℕ) (pos : 0 < beg)
    (hd : Header m (end_of beg pre) b nx) (on : b.free ≡ true) (fits : n ≤ b.size)
    (whole : n % 8 ≡ 0) where
  pub taken-pre :
      (m' : ℕ → ℕ) (t u : ℕ)
      → Same m m' beg (end_of beg pre)
      → Seg m beg pre t
      → Seg (taken beg pre m' u) beg pre u
  taken-pre m' t u same s =
      Seg-Same (relink m' (last_free beg pre) u) (taken beg pre m' u) beg pre u
        (λ x lo hi. ground arith) (relink-Seg m' beg pre t u pos (Seg-Same m m' beg pre t same s))

  pub taken-small : (t u : ℕ) → Seg (taken beg pre m t) (end_of beg pre) (block b.size false ∷ []) u
  unfolding Seg
  taken-small t u = (
    record {
      next = ground arith;
      size = ground (arith, hd.size, last_free_bounds beg pre);
      free = ground arith;
      cksm = ground (arith, hd.cksm, last_free_bounds beg pre);
      whole = hd.whole;
    },
    tt,
  )

  pub taken-large :
      (t : ℕ)
      → ltb 48 (b.size - n) ≡ true
      → Seg
          (taken beg pre (cut m (end_of beg pre) b.size nx n) t)
          (end_of beg pre)
          (block n false ∷ block (b.size - 32 - n) true ∷ [])
          nx
  unfolding Seg
  taken-large t large =
      let wh = hd.whole in
      let ck = hd.cksm in
      (
        record {
          next = ground arith;
          size = ground (arith, last_free_bounds beg pre);
          free = ground arith;
          cksm = ground (arith, last_free_bounds beg pre);
          whole = whole;
        },
        (
          record {
            next = ground (arith, last_free_bounds beg pre);
            size = ground (arith, last_free_bounds beg pre);
            free = ground (arith, last_free_bounds beg pre);
            cksm = ground (arith, last_free_bounds beg pre);
            whole = ground arith;
          },
          tt,
        ),
      )

  pub taken-post-small :
      (t lo hi : ℕ) → end_of beg pre + span b ≤ lo → Same m (taken beg pre m t) lo hi
  taken-post-small t lo hi far x l u = ground (arith, last_free_bounds beg pre)

  pub taken-post-large :
      (t lo hi : ℕ)
      → ltb 48 (b.size - n) ≡ true
      → end_of beg pre + span b ≤ lo
      → Same m (taken beg pre (cut m (end_of beg pre) b.size nx n) t) lo hi
  taken-post-large t lo hi large far x l u = ground (arith, last_free_bounds beg pre)
