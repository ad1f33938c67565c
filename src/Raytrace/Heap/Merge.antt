-- ===== src/Raytrace/Heap/Merge.antt =====
-- The arena after `GlobalFree` has linked a block in, or merged it with the free block before it.
use computer_architect.Common.{
  ℕ, ◌+◌, ◌≡◌, refl, sym, ap, subst, ◌∙◌, true, false, ◌==◌, if◌then◌else◌, List, [], ◌∷◌, ◌++◌,
  arith,
}
use computer_architect.Raytrace.Heap.{Heap, store}
use computer_architect.Raytrace.Heap.Blocks.{
  Block, block, span, end_of, first_free, last_free, end_of-append, first_free-append,
  last_free_bounds,
}
use computer_architect.Raytrace.Heap.Seg.{Header, Seg, Seg-Same, Seg-split, relink, relink-Seg}
use computer_architect.Raytrace.Heap.Arena.{HeapValid}
use computer_architect.Raytrace.Heap.Carve.{assemble, linked_freelist}
use computer_architect.Raytrace.Heap.Free.{Next, next_lem, merged_size, rest_of}

-- Memory with the block at `a` of `n` bytes marked free and linked in behind `pre`.
abbrev pub linked_in : ℕ → List Block → (ℕ → ℕ) → ℕ → ℕ → ℕ → ℕ
linked_in beg pre m nx n =
    let a = end_of beg pre in
    store (store (relink (store m (a + 16) 1) (last_free beg pre) a) a nx) (a + 8) n

-- Memory with the block at `a` marked free and joined to the block at `p`.
abbrev pub joined : ℕ → ℕ → (ℕ → ℕ) → ℕ → ℕ → ℕ → ℕ
joined p a m nx n = store (store (store m (a + 16) 1) p nx) (p + 8) n

-- What is known of a block in use.
module _ (h : Heap) (pre : List Block) (b : Block) (post : List Block)
    (v : HeapValid h (pre ++ (b ∷ post))) (used : b.free ≡ false) where
  abbrev pub behind : ℕ
  behind = first_free (end_of h.begmem pre + span b) post 0

  pub used_parts :
      Seg h.mem h.begmem pre behind
      × Header h.mem (end_of h.begmem pre) b behind
      × Seg h.mem (end_of h.begmem pre + span b) post 0
  unfolding Seg
  used_parts =
      let (left, right) = Seg-split h.mem h.begmem pre (b ∷ post) 0 v.blocks in
      let at : first_free (end_of h.begmem pre) (b ∷ post) 0 ≡ behind = rw used refl in
      (subst (Seg h.mem h.begmem pre) at left, right.0, right.1)

  pub used_freelist : h.freelist ≡ first_free h.begmem pre behind
  used_freelist =
      let at : first_free (end_of h.begmem pre) (b ∷ post) 0 ≡ behind = rw used refl in
      v.free ∙ first_free-append h.begmem pre (b ∷ post) 0 ∙ ap (first_free h.begmem pre) at

  pub used_end : h.endmem ≡ end_of (end_of h.begmem pre + span b) post
  used_end = v.end ∙ end_of-append h.begmem pre (b ∷ post)

  pub used-Next : Next h.mem (end_of h.begmem pre) b.size post
  used-Next = next_lem h.mem (end_of h.begmem pre) b.size post used_parts.1.whole used_parts.2

  -- The free block that follows the merged one.
  abbrev pub beyond : ℕ
  beyond = first_free (end_of h.begmem pre + (merged_size b.size post + 32)) (rest_of post) 0

  pub linked_in_lem :
      HeapValid
        (record h {
          mem = linked_in h.begmem pre h.mem beyond (merged_size b.size post);
          freelist = if last_free h.begmem pre == 0 then end_of h.begmem pre else h.freelist;
        })
        (pre ++ ((block (merged_size b.size post) true ∷ []) ++ rest_of post))
  unfolding Seg
  linked_in_lem =
      let a = end_of h.begmem pre in
      let n = merged_size b.size post in
      let m0 = store h.mem (a + 16) 1 in
      let m = linked_in h.begmem pre h.mem beyond n in
      let nx = used-Next in
      let wh = nx.whole in
      let ck = used_parts.1.cksm in
      assemble _ pre (block n true ∷ []) (rest_of post) v.pos v.aligned (used_end ∙ sym nx.end)
        (rw used_freelist (linked_freelist h.begmem pre behind a v.pos))
        (Seg-Same (relink m0 (last_free h.begmem pre) a) m h.begmem pre a (λ x lo hi. ground arith)
          (relink-Seg m0 h.begmem pre behind a v.pos
            (Seg-Same h.mem m0 h.begmem pre behind (λ x lo hi. ground arith) used_parts.0)))
        (
          record {
            next = ground arith;
            size = ground arith;
            free = ground (arith, last_free_bounds h.begmem pre);
            cksm = ground (arith, last_free_bounds h.begmem pre);
            whole = wh;
          },
          tt,
        )
        (Seg-Same h.mem m (a + (n + 32)) (rest_of post) 0
          (λ x lo hi. ground (arith, last_free_bounds h.begmem pre)) nx.seg)

-- A free block `c` before the one that is freed.
module _ (h : Heap) (pre : List Block) (c b : Block) (post : List Block)
    (v : HeapValid h (pre ++ (c ∷ b ∷ post))) (on : c.free ≡ true) (used : b.free ≡ false) where
  pub joined_parts :
      Seg h.mem h.begmem pre (end_of h.begmem pre)
      × Header h.mem
          (end_of h.begmem pre)
          c
          (first_free (end_of h.begmem pre + span c + span b) post 0)
      × Header h.mem
          (end_of h.begmem pre + span c)
          b
          (first_free (end_of h.begmem pre + span c + span b) post 0)
      × Seg h.mem (end_of h.begmem pre + span c + span b) post 0
  unfolding Seg
  joined_parts =
      let a = end_of h.begmem pre in
      let (left, right) = Seg-split h.mem h.begmem pre (c ∷ b ∷ post) 0 v.blocks in
      let at : first_free a (c ∷ b ∷ post) 0 ≡ a = rw on refl in
      let past : first_free (a + span c) (b ∷ post) 0 ≡ first_free (a + span c + span b) post 0 =
        rw used refl in
      (
        subst (Seg h.mem h.begmem pre) at left,
        subst (Header h.mem a c) past right.0,
        right.1.0,
        right.1.1,
      )

  pub joined_lem :
      HeapValid
        (record h {
          mem =
              joined
                (end_of h.begmem pre)
                (end_of h.begmem pre + span c)
                h.mem
                (first_free
                  (end_of h.begmem pre + span c + (merged_size b.size post + 32))
                  (rest_of post)
                  0)
                (c.size + (merged_size b.size post + 32));
        })
        (pre ++ ((block (c.size + (merged_size b.size post + 32)) true ∷ []) ++ rest_of post))
  unfolding Seg
  joined_lem =
      let p = end_of h.begmem pre in
      let a = p + span c in
      let n = merged_size b.size post in
      let nx = next_lem h.mem a b.size post joined_parts.2.whole joined_parts.3 in
      let wh = nx.whole in
      let (left, hc, hb, right) = joined_parts in
      let wc = hc.whole in
      let fc = hc.free in
      let ck = hc.cksm in
      let f = first_free (a + (n + 32)) (rest_of post) 0 in
      let m = joined p a h.mem f (c.size + (n + 32)) in
      let e : a + (n + 32) ≡ p + (c.size + (n + 32) + 32) = omega arith in
      let at_p : m p ≡ f = ground arith in
      let at : first_free p (c ∷ b ∷ post) 0 ≡ p = rw on refl in
      let end : h.endmem ≡ end_of (a + span b) post =
        v.end ∙ end_of-append h.begmem pre (c ∷ b ∷ post) in
      assemble _ pre (block (c.size + (n + 32)) true ∷ []) (rest_of post) v.pos v.aligned
        (end ∙ sym nx.end ∙ ap (λ z. end_of z (rest_of post)) e)
        (v.free ∙ first_free-append h.begmem pre (c ∷ b ∷ post) 0 ∙ ap (first_free h.begmem pre) at)
        (Seg-Same h.mem m h.begmem pre p (λ x lo hi. ground arith) left)
        (
          record {
            next = at_p ∙ ap (λ z. first_free z (rest_of post) 0) e;
            size = ground arith;
            free = ground arith;
            cksm = ground arith;
            whole = omega arith;
          },
          tt,
        )
        (subst (λ z. Seg m z (rest_of post) 0) e
          (Seg-Same h.mem m (a + (n + 32)) (rest_of post) 0 (λ x lo hi. ground arith) nx.seg))
