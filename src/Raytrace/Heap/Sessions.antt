-- ===== src/Raytrace/Heap/Sessions.antt =====
-- Sequences of calls of `GlobalMalloc` and `GlobalFree` after `GlobalHeapInit`, by a client that
-- frees only what it has allocated and not freed yet.
use computer_architect.Common.{
  ℕ, ◌+◌, ◌-◌, ◌%◌, ◌^◌, ◌≤◌, ◌<◌, ◌≡◌, refl, sym, ap, subst, ◌∙◌, Bool, true, false, ◌==◌,
  if◌then◌else◌, List, [], ◌∷◌, ◌++◌, All, arith, Bool-cases, inl, inr, ◌⊎◌, u64,
}
use computer_architect.Common.Runs.{Run, done, exit, no_memory}
use computer_architect.Raytrace.Heap.{
  Heap, round_up, heap_init, set_size, set_next, set_free, set_cksm, write_word, global_malloc,
  global_free,
}
use computer_architect.Raytrace.Heap.Blocks.{Block, block, end_of, carved, passed}
use computer_architect.Raytrace.Heap.Seg.{Seg}
use computer_architect.Raytrace.Heap.Arena.{HeapValid, Passed}
use computer_architect.Raytrace.Heap.Carve.{round_up_whole}
use computer_architect.Raytrace.Heap.Malloc.{malloc_fits, malloc_no_memory}
use computer_architect.Raytrace.Heap.Free.{freed}
use computer_architect.Raytrace.Heap.Coalesce.{free_merges}
use computer_architect.Raytrace.Heap.Coalesced.{
  spaced, is_used, is_used_split, is_used_free, spaced-carved, is_used-carved, spaced-freed,
  is_used-freed,
}

-- The heap, and the pointers the client holds.
pub record Client : Type 0 where
  pub heap : Heap
  pub live : ℕ → Bool

pub data CallStep : Client → Client → Type 0 where
  malloc :
      {h h' : Heap} {live : ℕ → Bool} (size p : ℕ)
      → (size == 0) ≡ false
      → global_malloc h size ≡ done (p, h')
      → CallStep
          (record { heap = h; live = live })
          (record { heap = h'; live = λ x. if x == p then true else live x })
  free :
      {h h' : Heap} {live : ℕ → Bool} (p : ℕ)
      → live p ≡ true
      → global_free h p ≡ done h'
      → CallStep
          (record { heap = h; live = live })
          (record { heap = h'; live = λ x. if x == p then false else live x })

pub data Calls : Client → Client → Type 0 where
  none_yet : {c : Client} → Calls c c
  then_call : {c d e : Client} → Calls c d → CallStep d e → Calls c e

-- The blocks of the heap are those the client holds, and no two free ones are neighbours.
pub record Sound (c : Client) (bs : List Block) : Type 0 where
  pub valid : HeapValid c.heap bs
  pub spaced : spaced false bs ≡ true
  pub live : (x : ℕ) → c.live x ≡ is_used c.heap.begmem bs x

-- The first block that fits, or none.
pub first_fit_cases :
    (n : ℕ) (bs : List Block)
    → All (Passed n) bs
      ⊎ ((pre : List Block) × (b : Block) × (post : List Block) × (bs ≡ pre ++ (b ∷ post))
          × All (Passed n) pre
          × (b.free ≡ true)
          × (n ≤ b.size))
first_fit_cases n [] = inl tt
first_fit_cases n (b ∷ bs) = elim (Bool-cases (passed n b)) [
  | inl pass ↦ elim (first_fit_cases n bs) [
    | inl all ↦ inl (pass, all)
    | inr (pre, c, post, e, all, on, fits) ↦
        inr (b ∷ pre, c, post, ap (b ∷◌) e, (pass, all), on, fits)
  ]
  | inr stop ↦ inr ([], b, bs, refl, tt, ground arith, ground arith)
]

round_up_fits : (x : ℕ) → round_up x < 2 ^ 64
unfolding round_up
round_up_fits x = omega arith

minus_node : (r : ℕ) → 32 ≤ r → r < 2 ^ 64 → u64 (r + (2 ^ 64 - 32)) ≡ r - 32
minus_node r enough fits = omega arith

-- The heap after the set up is one free block.
pub heap_init-HeapValid :
    (mem : ℕ → ℕ) (size got : ℕ)
    → 0 < got
    → got % 8 ≡ 0
    → 32 ≤ round_up size
    → HeapValid (heap_init mem size got).1 (block (round_up size - 32) true ∷ [])
unfolding heap_init set_size set_next set_free set_cksm write_word Seg
heap_init-HeapValid mem size got pos aligned enough =
    let g0 : (got == 0) ≡ false = ground arith in
    let wh = round_up_whole size in
    let first = minus_node (round_up size) enough (round_up_fits size) in
    rw g0 (record {
      pos = pos;
      aligned = aligned;
      end = omega arith;
      free = refl;
      blocks = (
        record {
          next = ground arith;
          size = ground (arith, first);
          free = ground arith;
          cksm = ground arith;
          whole = omega arith;
        },
        tt,
      );
    })

module _ (mem : ℕ → ℕ) (size got : ℕ) where
  abbrev pub start : Client
  start = record { heap = (heap_init mem size got).1; live = λ x. false }

  start-Sound :
      0 < got
      → got % 8 ≡ 0
      → 32 ≤ round_up size
      → Sound start (block (round_up size - 32) true ∷ [])
  start-Sound pos aligned enough = record {
    valid = heap_init-HeapValid mem size got pos aligned enough;
    spaced = refl;
    live = λ x. refl;
  }

-- A client that calls `GlobalFree` on a pointer it holds gets the block merged.
pub free-Sound :
    (c : Client) (bs : List Block) (p : ℕ)
    → Sound c bs
    → c.live p ≡ true
    → (h' : Heap) × (global_free c.heap p ≡ done h')
      × ((cs : List Block) × Sound
            (record { heap = h'; live = λ x. if x == p then false else c.live x })
            cs)
free-Sound c bs p s on =
    let (pre, b, post, e, used, at) = is_used_split c.heap.begmem bs p (sym (s.live p) ∙ on) in
    let v = subst (HeapValid c.heap) e s.valid in
    let (h', run, base, valid) = free_merges c.heap pre b post v used in
    let from_bs : (x : ℕ) → c.live x ≡ is_used c.heap.begmem (pre ++ (b ∷ post)) x =
      λ x. s.live x ∙ ap (λ z. is_used c.heap.begmem z x) e in
    (
      h',
      ap (global_free c.heap) at ∙ run,
      (
        freed pre b.size post,
        record {
          valid = valid;
          spaced = spaced-freed pre b post used (subst (λ z. spaced false z ≡ true) e s.spaced);
          live = λ x.
              let after =
                ap (λ z. is_used z (freed pre b.size post) x) base
                ∙ is_used-freed c.heap.begmem pre b post x used in
              sym (after ∙ rw (at, from_bs x) refl);
        },
      ),
    )

-- A client that calls `GlobalMalloc` gets a pointer it does not hold yet, or the program exits.
pub malloc-Sound :
    (c : Client) (bs : List Block) (size : ℕ)
    → Sound c bs
    → (size == 0) ≡ false
    → (global_malloc c.heap size ≡ exit no_memory)
      ⊎ ((p : ℕ) × (h' : Heap) × (global_malloc c.heap size ≡ done (p, h'))
          × (c.live p ≡ false)
          × ((cs : List Block) × Sound
                (record { heap = h'; live = λ x. if x == p then true else c.live x })
                cs))
malloc-Sound c bs size s pos = elim (first_fit_cases (round_up size) bs) [
  | inl none ↦ inl (malloc_no_memory c.heap bs size s.valid pos none)
  | inr (pre, b, post, e, pass, on, fits) ↦
      let v = subst (HeapValid c.heap) e s.valid in
      let (h', run, got) = malloc_fits c.heap pre b post v on size pos pass fits in
      let from_bs : (x : ℕ) → c.live x ≡ is_used c.heap.begmem (pre ++ (b ∷ post)) x =
        λ x. s.live x ∙ ap (λ z. is_used c.heap.begmem z x) e in
      inr (
        end_of c.heap.begmem pre + 32,
        h',
        run,
        from_bs _ ∙ is_used_free c.heap.begmem pre b post on,
        (
          pre ++ (carved (round_up size) b ++ post),
          record {
            valid = got.valid;
            spaced =
                spaced-carved pre b post (round_up size) on
                  (subst (λ z. spaced false z ≡ true) e s.spaced);
            live = λ x.
                let after =
                  ap (λ z. is_used z (pre ++ (carved (round_up size) b ++ post)) x) got.base
                  ∙ is_used-carved c.heap.begmem pre b post (round_up size) x on fits in
                sym (after ∙ rw (from_bs x) refl);
          },
        ),
      )
]

value_or : {A : Type 0} → A → Run A → A
value_or d (done x) = x
value_or d r = d

step-Sound :
    (c d : Client) (bs : List Block) → Sound c bs → CallStep c d → (cs : List Block) × Sound d cs
unfolding value_or
step-Sound _ _ bs s (malloc {h} {h'} {live} size p pos run) =
    elim (malloc-Sound (record { heap = h; live = live }) bs size s pos) [
      | inl none ↦
          let clash : ◌≡◌ {A = Run (ℕ × Heap)} (exit no_memory) (done (p, h')) = sym none ∙ run in
          cc
      | inr (q, h2, run2, fresh, after) ↦
          let same : (q, h2) ≡ (p, h') = ap (value_or (q, h2)) (sym run2 ∙ run) in
          subst
            (λ z.
              (cs : List Block) × Sound
                (record { heap = z.1; live = λ x. if x == z.0 then true else live x }) cs)
            same after
    ]
step-Sound _ _ bs s (free {h} {h'} {live} p on run) =
    let (h2, run2, after) = free-Sound (record { heap = h; live = live }) bs p s on in
    let same : h2 ≡ h' = ap (value_or h2) (sym run2 ∙ run) in
    subst
      (λ z.
        (cs : List Block) × Sound
          (record { heap = z; live = λ x. if x == p then false else live x }) cs)
      same after

Calls-Sound :
    (c d : Client) (bs : List Block) → Sound c bs → Calls c d → (cs : List Block) × Sound d cs
Calls-Sound c _ bs s none_yet = (bs, s)
Calls-Sound c _ bs s (then_call {d = d} {e} calls step) =
    let (cs, t) = Calls-Sound c d bs s calls in step-Sound d e cs t step

module _ (mem : ℕ → ℕ) (size got : ℕ) (pos : 0 < got) (aligned : got % 8 ≡ 0)
    (enough : 32 ≤ round_up size) (d : Client) (calls : Calls (start mem size got) d) where
  -- From a heap that is set up with an aligned memory of at least 32 bytes, every sequence of
  -- returning calls of GlobalMalloc, with sizes above 0, and of GlobalFree, on pointers that are
  -- held, leaves a heap whose arena is made of consecutive blocks with their headers, whose list
  -- links exactly the free blocks in the order of their addresses, in which no two free blocks are
  -- neighbours, and whose blocks in use are exactly those that are held.
  pub heap_calls-Sound : (bs : List Block) × Sound d bs
  heap_calls-Sound =
      Calls-Sound (start mem size got) d _ (start-Sound mem size got pos aligned enough) calls

  -- From a heap that is set up with an aligned memory of at least 32 bytes, after every sequence
  -- of returning calls of GlobalMalloc, with sizes above 0, and of GlobalFree, on pointers that
  -- are held, GlobalFree on a pointer that is held returns, and GlobalMalloc with a size above 0
  -- either exits because there is no memory, or returns a pointer that is not held yet.
  pub heap_serves :
      (p n : ℕ)
      → d.live p ≡ true
      → (n == 0) ≡ false
      → ((h' : Heap) × (global_free d.heap p ≡ done h'))
        × ((global_malloc d.heap n ≡ exit no_memory)
            ⊎ ((q : ℕ) × (h' : Heap) × (global_malloc d.heap n ≡ done (q, h'))
                × (d.live q ≡ false)))
  heap_serves p n held nonzero =
      let (bs, s) = heap_calls-Sound in
      let (h2, run, after) = free-Sound d bs p s held in
      (
        (h2, run),
        elim (malloc-Sound d bs n s nonzero) [
          | inl none ↦ inl none
          | inr (q, h', got, fresh, then_sound) ↦ inr (q, h', got, fresh)
        ],
      )
