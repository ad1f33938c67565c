-- ===== src/Raytrace/Heap/Malloc.antt =====
-- `GlobalMalloc` on a valid heap: the first block that fits is carved, and none that fits is an exit.
use computer_architect.Common.{
  ℕ, suc, ◌+◌, ◌-◌, ◌%◌, ◌≤◌, ◌<◌, ◌≡◌, refl, ap, subst, ◌∙◌, true, false, ltb, leb, ◌==◌,
  if◌then◌else◌, List, [], ◌∷◌, ◌++◌, All, arith, Bool-cases, inl, inr, ◌⊎◌,
}
use computer_architect.Common.Runs.{done, exit, no_memory}
use computer_architect.Raytrace.Heap.{
  Heap, rounds, round_up, first_fit, carve, link, write_word, set_next, set_size, set_free,
  set_cksm, global_malloc,
}
use computer_architect.Raytrace.Heap.Blocks.{
  Block, block, span, end_of, first_free, last_free, frees, carved, le-end_of, frees_le,
  end_of-append, first_free-append,
}
use computer_architect.Raytrace.Heap.Seg.{Header, Seg, Seg-Same, Seg-split}
use computer_architect.Raytrace.Heap.Arena.{HeapValid, Passed, or_else, rounds_lem, first_fit_past}
use computer_architect.Raytrace.Heap.Carve.{
  assemble, length_parts, linked_freelist, round_up_whole, taken, cut, taken-pre, taken-small,
  taken-large, taken-post-small, taken-post-large,
}

-- The heap after the allocation of the block behind `pre`.
abbrev allocated : Heap → List Block → (ℕ → ℕ) → ℕ → Heap
allocated h pre m t = record h {
  mem = taken h.begmem pre m t;
  freelist = if last_free h.begmem pre == 0 then t else h.freelist;
}

module _ (h : Heap) (pre : List Block) (b : Block) (post : List Block)
    (v : HeapValid h (pre ++ (b ∷ post))) (on : b.free ≡ true) where
  -- The first free block behind `b`.
  abbrev after : ℕ
  after = first_free (end_of h.begmem pre + span b) post 0

  parts :
      Seg h.mem h.begmem pre (end_of h.begmem pre)
      × Header h.mem (end_of h.begmem pre) b after
      × Seg h.mem (end_of h.begmem pre + span b) post 0
  unfolding Seg
  parts =
      let (left, right) = Seg-split h.mem h.begmem pre (b ∷ post) 0 v.blocks in
      let at : first_free (end_of h.begmem pre) (b ∷ post) 0 ≡ end_of h.begmem pre = rw on refl in
      (subst (Seg h.mem h.begmem pre) at left, right.0, right.1)

  free_at : h.freelist ≡ first_free h.begmem pre (end_of h.begmem pre)
  free_at =
      let at : first_free (end_of h.begmem pre) (b ∷ post) 0 ≡ end_of h.begmem pre = rw on refl in
      v.free ∙ first_free-append h.begmem pre (b ∷ post) 0 ∙ ap (first_free h.begmem pre) at

  end_at : h.endmem ≡ end_of (end_of h.begmem pre + span b) post
  end_at = v.end ∙ end_of-append h.begmem pre (b ∷ post)

  -- The free list after the allocation leads to `t` behind `pre`.
  freelist_at :
      (t : ℕ) → (if last_free h.begmem pre == 0 then t else h.freelist) ≡ first_free h.begmem pre t
  freelist_at t = rw free_at (linked_freelist h.begmem pre (end_of h.begmem pre) t v.pos)

  module _ (n : ℕ) (whole : n % 8 ≡ 0) (fits : n ≤ b.size) where
    first_fit_stop :
        (k prev : ℕ)
        → first_fit (suc k) h prev (end_of h.begmem pre) n ≡ done (prev, end_of h.begmem pre)
    unfolding first_fit
    first_fit_stop k prev =
        let size : leb n (h.mem (end_of h.begmem pre + 8)) ≡ true = ground (arith, parts.1.size) in
        ground (arith, size)

    first_fit_lem :
        All (Passed n) pre
        → first_fit (rounds h) h 0 h.freelist n ≡ done (last_free h.begmem pre, end_of h.begmem pre)
    first_fit_lem p =
        let left = rounds h - frees pre - 1 in
        let enough : rounds h ≡ frees pre + suc left =
          omega
            (arith, frees_le pre, rounds_lem h (pre ++ (b ∷ post)) v, length_parts pre b post) in
        let kept : or_else (last_free h.begmem pre) 0 ≡ last_free h.begmem pre = ground arith in
        rw enough (
          ap (λ f. first_fit (frees pre + suc left) h 0 f n) free_at
          ∙ first_fit_past h n h.begmem pre (end_of h.begmem pre) (suc left) 0 v.pos parts.0 p
          ∙ first_fit_stop left (or_else (last_free h.begmem pre) 0)
          ∙ ap (λ z. done (z, end_of h.begmem pre)) kept)

    small : HeapValid (allocated h pre h.mem after) (pre ++ ((block b.size false ∷ []) ++ post))
    small =
        assemble (allocated h pre h.mem after) pre (block b.size false ∷ []) post v.pos v.aligned
          end_at (freelist_at after)
          (taken-pre h.mem h.begmem pre b after n v.pos parts.1 on fits whole h.mem
            (end_of h.begmem pre) after (λ x lo hi. refl) parts.0)
          (taken-small h.mem h.begmem pre b after n v.pos parts.1 on fits whole after after)
          (Seg-Same h.mem _ (end_of h.begmem pre + span b) post 0
            (taken-post-small h.mem h.begmem pre b after n v.pos parts.1 on fits whole after _ _
              (omega arith))
            parts.2)

    large :
        ltb 48 (b.size - n) ≡ true
        → HeapValid
            (allocated h pre
              (cut h.mem (end_of h.begmem pre) b.size after n)
              (end_of h.begmem pre + (n + 32)))
            (pre ++ ((block n false ∷ block (b.size - 32 - n) true ∷ []) ++ post))
    large big =
        let a = end_of h.begmem pre in
        let mid : List Block = block n false ∷ block (b.size - 32 - n) true ∷ [] in
        let e : a + span b ≡ end_of a mid = ground arith in
        let m' = cut h.mem a b.size after n in
        assemble (allocated h pre m' (a + (n + 32))) pre mid post v.pos v.aligned
          (end_at ∙ ap (λ z. end_of z post) e) (freelist_at (a + (n + 32)))
          (taken-pre h.mem h.begmem pre b after n v.pos parts.1 on fits whole m' a (a + (n + 32))
            (λ x lo hi. ground arith) parts.0)
          (subst (λ z. Seg (allocated h pre m' (a + (n + 32))).mem a mid (first_free z post 0)) e
            (taken-large h.mem h.begmem pre b after n v.pos parts.1 on fits whole (a + (n + 32))
              big))
          (subst (λ z. Seg (allocated h pre m' (a + (n + 32))).mem z post 0) e
            (Seg-Same h.mem _ (a + span b) post 0
              (taken-post-large h.mem h.begmem pre b after n v.pos parts.1 on fits whole
                (a + (n + 32)) _ _ big (omega arith))
              parts.2))

-- The words that may change: those of one block, and the link of the free block before it.
abbrev pub Touches : (ℕ → ℕ) → (ℕ → ℕ) → ℕ → ℕ → ℕ → Type 0
Touches m m' lo hi p = (x : ℕ) → (m' x ≡ m x) ⊎ ((lo ≤ x) × (x < hi)) ⊎ (x ≡ p)

touches :
    (m m' : ℕ → ℕ) (lo hi p : ℕ)
    → ((x : ℕ) → x < lo → (x == p) ≡ false → m' x ≡ m x)
    → ((x : ℕ) → hi ≤ x → (x == p) ≡ false → m' x ≡ m x)
    → Touches m m' lo hi p
touches m m' lo hi p below above x = elim (Bool-cases (x == p)) [
  | inl here ↦ inr (inr (ground arith))
  | inr elsewhere ↦ elim (Bool-cases (ltb x lo)) [
    | inl left ↦ inl (below x (ground arith) elsewhere)
    | inr not_left ↦ elim (Bool-cases (ltb x hi)) [
      | inl inside ↦ inr (inl (ground arith, ground arith))
      | inr right ↦ inl (above x (ground arith) elsewhere)
    ]
  ]
]

-- The writes that follow the search.
finish :
    (h : Heap) (m : ℕ → ℕ) (pre : List Block) (t : ℕ)
    → set_free
        (set_next (link (record h { mem = m }) (last_free h.begmem pre) t) (end_of h.begmem pre) 0)
        (end_of h.begmem pre)
        0
      ≡ allocated h pre m t
unfolding link set_next set_free write_word
finish h m pre t = elim (Bool-cases (last_free h.begmem pre == 0)) [
  | inl none ↦ rw none refl
  | inr found ↦ rw found refl
]

carve_small :
    (h : Heap) (a n size nx : ℕ)
    → h.mem (a + 8) ≡ size
    → h.mem a ≡ nx
    → ltb 48 (size - n) ≡ false
    → carve h a n ≡ (nx, h)
unfolding carve
carve_small h a n size nx e f small = rw (e, small, f) refl

carve_large :
    (h : Heap) (a n size nx : ℕ)
    → h.mem (a + 8) ≡ size
    → h.mem a ≡ nx
    → ltb 48 (size - n) ≡ true
    → carve h a n ≡ (a + (n + 32), record h { mem = cut h.mem a size nx n })
unfolding carve set_next set_size set_free set_cksm write_word
carve_large h a n size nx e f large =
    let c : 32 + n ≡ n + 32 = omega arith in rw (e, large, f, c) refl

-- What an allocation of `n` bytes from `b` leaves.
pub record Allocated (h : Heap) (pre : List Block) (b : Block) (post : List Block) (n : ℕ)
    (h' : Heap) : Type 0 where
  pub base : h'.begmem ≡ h.begmem
  pub valid : HeapValid h' (pre ++ (carved n b ++ post))
  pub touched :
      Touches h.mem h'.mem
        (end_of h.begmem pre)
        (end_of h.begmem pre + span b)
        (last_free h.begmem pre)

module _ (h : Heap) (pre : List Block) (b : Block) (post : List Block)
    (v : HeapValid h (pre ++ (b ∷ post))) (on : b.free ≡ true) (size : ℕ)
    (pos : (size == 0) ≡ false) (p : All (Passed (round_up size)) pre)
    (fits : round_up size ≤ b.size) where
  -- The search ends at the block, and the rest follows.
  found :
      (t : ℕ) (m : ℕ → ℕ)
      → carve h (end_of h.begmem pre) (round_up size) ≡ (t, record h { mem = m })
      → global_malloc h size ≡ done (end_of h.begmem pre + 32, allocated h pre m t)
  unfolding global_malloc
  found t m e =
      let a0 : (end_of h.begmem pre == 0) ≡ false = ground (arith, le-end_of h.begmem pre, v.pos) in
      rw (pos, first_fit_lem h pre b post v on (round_up size) (round_up_whole size) fits p, a0, e)
        (ap (λ z. done (end_of h.begmem pre + 32, z)) (finish h m pre t))

  pub malloc_fits :
      (h' : Heap) × (global_malloc h size ≡ done (end_of h.begmem pre + 32, h'))
      × Allocated h pre b post (round_up size) h'
  malloc_fits =
      let a = end_of h.begmem pre in
      let n = round_up size in
      let nx = after h pre b post v on in
      let hd = (parts h pre b post v on).1 in
      let next : h.mem a ≡ nx = hd.next ∙ (rw on refl) in
      elim (Bool-cases (ltb 48 (b.size - n))) [
        | inl big ↦
            let m = cut h.mem a b.size nx n in
            (
              allocated h pre m (a + (n + 32)),
              found (a + (n + 32)) m (carve_large h a n b.size nx hd.size next big),
              record {
                base = refl;
                valid = rw big (large h pre b post v on n (round_up_whole size) fits big);
                touched =
                    touches h.mem _ a (a + span b) (last_free h.begmem pre)
                      (λ x lt other. ground arith) (λ x le other. ground arith);
              },
            )
        | inr tight ↦ (
          allocated h pre h.mem nx,
          found nx h.mem (carve_small h a n b.size nx hd.size next tight),
          record {
            base = refl;
            valid = rw tight (small h pre b post v on n (round_up_whole size) fits);
            touched =
                touches h.mem _ a (a + span b) (last_free h.begmem pre) (λ x lt other. ground arith)
                  (λ x le other. ground arith);
          },
        )
      ]

pub malloc_no_memory :
    (h : Heap) (bs : List Block) (size : ℕ)
    → HeapValid h bs
    → (size == 0) ≡ false
    → All (Passed (round_up size)) bs
    → global_malloc h size ≡ exit no_memory
unfolding global_malloc
malloc_no_memory h bs size v pos p =
    let n = round_up size in
    let left = rounds h - frees bs - 1 in
    let enough : rounds h ≡ frees bs + suc left = omega (arith, frees_le bs, rounds_lem h bs v) in
    let stop : first_fit (rounds h) h 0 h.freelist n ≡ done (or_else (last_free h.begmem bs) 0, 0) =
      rw enough (
        ap (λ f. first_fit (frees bs + suc left) h 0 f n) v.free
        ∙ first_fit_past h n h.begmem bs 0 (suc left) 0 v.pos v.blocks p
        ∙ unfold first_fit in refl) in
    rw (pos, stop) refl
