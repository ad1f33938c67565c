-- ===== src/Raytrace/Heap/Coalesce.antt =====
-- What `GlobalFree` makes of a valid heap, and that it gives back what `GlobalMalloc` took.
use computer_architect.Common.{
  ℕ, ◌+◌, ◌-◌, ◌≤◌, ◌<◌, ◌≡◌, refl, sym, ap, subst, ◌∙◌, true, false, ltb, ◌==◌, if◌then◌else◌,
  List, [], ◌∷◌, ◌++◌, All, arith, Bool-cases, inl, inr,
}
use computer_architect.Common.Runs.{done, exit, not_allocated}
use computer_architect.Raytrace.Heap.{Heap, round_up, global_malloc, global_free}
use computer_architect.Raytrace.Heap.Blocks.{
  Block, block, span, end_of, first_free, last_free, carved, le-end_of, end_of-append,
}
use computer_architect.Raytrace.Heap.Seg.{Seg, Seg-split}
use computer_architect.Raytrace.Heap.Arena.{HeapValid, Passed}
use computer_architect.Raytrace.Heap.Malloc.{malloc_fits}
use computer_architect.Raytrace.Heap.Walks.{last_is_free, head_is_free}
use computer_architect.Raytrace.Heap.Free.{merged_size, rest_of, merge_prev, freed}
use computer_architect.Raytrace.Heap.Merge.{
  linked_in, joined, beyond, linked_in_lem, joined_parts, joined_lem,
}
use computer_architect.Raytrace.Heap.Release.{run_lem, apart_lem, joined_run}

pub merge_prev_apart :
    (pre : List Block) (n : ℕ) (post : List Block)
    → last_is_free false pre ≡ false
    → merge_prev pre n post ≡ pre ++ (block n true ∷ post)
merge_prev_apart [] n post off = refl
merge_prev_apart (c ∷ []) n post off = rw off refl
merge_prev_apart (c ∷ d ∷ pre) n post off = ap (c ∷◌) (merge_prev_apart (d ∷ pre) n post off)

pub merge_prev_joined :
    (pre : List Block) (c : Block) (n : ℕ) (post : List Block)
    → c.free ≡ true
    → merge_prev (pre ++ (c ∷ [])) n post ≡ pre ++ (block (c.size + (n + 32)) true ∷ post)
merge_prev_joined [] c n post on = rw on refl
merge_prev_joined (d ∷ []) c n post on = ap (d ∷◌) (merge_prev_joined [] c n post on)
merge_prev_joined (d ∷ e ∷ pre) c n post on = ap (d ∷◌) (merge_prev_joined (e ∷ pre) c n post on)

pub split_last :
    (pre : List Block)
    → last_is_free false pre ≡ true
    → (qs : List Block) × (c : Block) × (pre ≡ qs ++ (c ∷ [])) × (c.free ≡ true)
split_last [] on = ground arith
split_last (c ∷ []) on = ([], c, refl, on)
split_last (c ∷ d ∷ pre) on =
    let (qs, e, eq, free) = split_last (d ∷ pre) on in (c ∷ qs, e, ap (c ∷◌) eq, free)

last_free_end :
    (a : ℕ) (pre : List Block) (c : Block)
    → 0 < a
    → c.free ≡ true
    → last_free a (pre ++ (c ∷ [])) ≡ end_of a pre
last_free_end a [] c pos on = rw on refl
last_free_end a (d ∷ pre) c pos on =
    let later : last_free (a + span d) (pre ++ (c ∷ [])) ≡ end_of (a + span d) pre =
      last_free_end (a + span d) pre c (omega arith) on in
    ground (arith, later, le-end_of (a + span d) pre)

pub append_last :
    (pre : List Block) (c : Block) (post : List Block)
    → (pre ++ (c ∷ [])) ++ post ≡ pre ++ (c ∷ post)
append_last [] c post = refl
append_last (d ∷ pre) c post = ap (d ∷◌) (append_last pre c post)

-- What a release of the block behind `pre` comes to.
abbrev pub Released : Heap → List Block → Block → List Block → Type 0
Released h pre b post =
    (h' : Heap) × (global_free h (end_of h.begmem pre + 32) ≡ done h')
    × (h'.begmem ≡ h.begmem)
    × HeapValid h' (freed pre b.size post)

release_apart :
    (h : Heap) (pre : List Block) (b : Block) (post : List Block)
    → HeapValid h (pre ++ (b ∷ post))
    → b.free ≡ false
    → last_is_free false pre ≡ false
    → Released h pre b post
release_apart h pre b post v used off =
    let run = run_lem h pre b post v used in
    let shape = merge_prev_apart pre (merged_size b.size post) (rest_of post) off in
    (
      record h {
        mem = linked_in h.begmem pre h.mem (beyond h pre b post v used) (merged_size b.size post);
        freelist = if last_free h.begmem pre == 0 then end_of h.begmem pre else h.freelist;
      },
      run ∙ ap done (rw off (apart_lem h pre b post v used)),
      refl,
      subst (HeapValid _) (sym shape) (linked_in_lem h pre b post v used),
    )

release_joined :
    (h : Heap) (qs : List Block) (c b : Block) (post : List Block)
    → HeapValid h ((qs ++ (c ∷ [])) ++ (b ∷ post))
    → c.free ≡ true
    → b.free ≡ false
    → last_is_free false (qs ++ (c ∷ [])) ≡ true
    → Released h (qs ++ (c ∷ [])) b post
release_joined h qs c b post v on used flag =
    let pre = qs ++ (c ∷ []) in
    let p = end_of h.begmem qs in
    let n = merged_size b.size post in
    let run = run_lem h pre b post v used in
    let at : end_of h.begmem pre ≡ p + span c = end_of-append h.begmem qs (c ∷ []) in
    let last : last_free h.begmem pre ≡ p = last_free_end h.begmem qs c v.pos on in
    let v' : HeapValid h (qs ++ (c ∷ b ∷ post)) =
      subst (HeapValid h) (append_last qs c (b ∷ post)) v in
    let size = (joined_parts h qs c b post v' on used).1.size in
    let shape = merge_prev_joined qs c n (rest_of post) on in
    (
      record h {
        mem = joined p (end_of h.begmem pre) h.mem (beyond h pre b post v used) (c.size + (n + 32));
      },
      run
          ∙ ap done (
              rw (flag, last)
                (joined_run h pre b post v used p c.size
                  (omega (arith, le-end_of h.begmem qs, v.pos)) (omega arith) size)),
      refl,
      subst (HeapValid _) (sym shape) (
          subst
            (λ z.
              HeapValid
                (record h {
                  mem =
                      joined p z h.mem (first_free (z + (n + 32)) (rest_of post) 0)
                        (c.size + (n + 32));
                })
                (qs ++ ((block (c.size + (n + 32)) true ∷ []) ++ rest_of post)))
            (sym at) (joined_lem h qs c b post v' on used)),
    )

-- On a valid heap, GlobalFree on the pointer to a block in use returns, and the blocks of the heap
-- are what the free neighbours before and behind it, if any, make of it: one free block of their
-- sizes and headers.
pub free_merges :
    (h : Heap) (pre : List Block) (b : Block) (post : List Block)
    → HeapValid h (pre ++ (b ∷ post))
    → b.free ≡ false
    → Released h pre b post
free_merges h pre b post v used = elim (Bool-cases (last_is_free false pre)) [
  | inl flag ↦
      let (qs, c, e, on) = split_last pre flag in
      subst (λ z. HeapValid h (z ++ (b ∷ post)) → last_is_free false z ≡ true → Released h z b post)
        (sym e) (λ w f. release_joined h qs c b post w on used f) v flag
  | inr off ↦ release_apart h pre b post v used off
]

pub free_twice :
    (h : Heap) (pre : List Block) (b : Block) (post : List Block)
    → HeapValid h (pre ++ (b ∷ post))
    → b.free ≡ true
    → global_free h (end_of h.begmem pre + 32) ≡ exit not_allocated
unfolding global_free Seg
free_twice h pre b post v on =
    let a = end_of h.begmem pre in
    let hd = (Seg-split h.mem h.begmem pre (b ∷ post) 0 v.blocks).1.0 in
    let at : a + 32 - 32 ≡ a = omega arith in
    let set_up : (h.begmem == 0) ≡ false = ground (arith, v.pos) in
    let free : h.mem (a + 16) ≡ 1 = hd.free ∙ (rw on refl) in rw (at, set_up, hd.cksm, free) refl

merged_alone : (n : ℕ) (post : List Block) → head_is_free post ≡ false → merged_size n post ≡ n
merged_alone n [] off = refl
merged_alone n (c ∷ cs) off = rw off refl

rest_alone : (post : List Block) → head_is_free post ≡ false → rest_of post ≡ post
rest_alone [] off = refl
rest_alone (c ∷ cs) off = rw off refl

-- A block that is allocated and freed at once.
merged_back :
    (n : ℕ) (b : Block) (post : List Block)
    → b.free ≡ true
    → n ≤ b.size
    → head_is_free post ≡ false
    → (m : ℕ) × (rest : List Block) × (carved n b ++ post ≡ block m false ∷ rest)
      × (merged_size m rest ≡ b.size)
      × (rest_of rest ≡ post)
merged_back n b post on fits closed = elim (Bool-cases (ltb 48 (b.size - n))) [
  | inl big ↦ (n, block (b.size - 32 - n) true ∷ post, rw big refl, ground arith, refl)
  | inr small ↦
      (b.size, post, rw small refl, merged_alone b.size post closed, rest_alone post closed)
]

-- On a valid heap, when the first free block that is large enough for a size above 0 has no free
-- neighbour, GlobalMalloc followed by GlobalFree of its pointer gives a valid heap of the same
-- blocks.
pub free-malloc :
    (h : Heap) (pre : List Block) (b : Block) (post : List Block)
    → HeapValid h (pre ++ (b ∷ post))
    → b.free ≡ true
    → last_is_free false pre ≡ false
    → head_is_free post ≡ false
    → (size : ℕ) → (size == 0) ≡ false
    → All (Passed (round_up size)) pre
    → round_up size ≤ b.size
    → (h' : Heap) × (h2 : Heap) × (global_malloc h size ≡ done (end_of h.begmem pre + 32, h'))
      × (global_free h' (end_of h.begmem pre + 32) ≡ done h2)
      × HeapValid h2 (pre ++ (b ∷ post))
free-malloc h pre b post v on before closed size pos pass fits =
    let (h', run, got) = malloc_fits h pre b post v on size pos pass fits in
    let (m, rest, shape, size_back, rest_back) =
      merged_back (round_up size) b post on fits closed in
    let v' = subst (λ z. HeapValid h' (pre ++ z)) shape got.valid in
    let (h2, run2, base, w) = free_merges h' pre (block m false) rest v' refl in
    let back : freed pre m rest ≡ pre ++ (b ∷ post) =
      merge_prev_apart pre (merged_size m rest) (rest_of rest) before
      ∙ ap (λ z. pre ++ (block z true ∷ rest_of rest)) size_back
      ∙ ap (λ z. pre ++ (block b.size true ∷ z)) rest_back
      ∙ ap (λ z. pre ++ (block b.size z ∷ post)) (sym on) in
    (
      h',
      h2,
      run,
      ap (λ z. global_free h' (end_of z pre + 32)) (sym got.base) ∙ run2,
      subst (HeapValid h2) back w,
    )
