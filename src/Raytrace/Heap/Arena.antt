-- ===== src/Raytrace/Heap/Arena.antt =====
-- The invariant of the heap: the arena is made of blocks, and the free list links the free ones.
use computer_architect.Common.{
  ℕ, suc, ◌+◌, ◌*◌, ◌%◌, ◌<◌, ◌≡◌, refl, ap, ◌∙◌, true, false, leb, ◌==◌, if◌then◌else◌, List, [],
  ◌∷◌, All, length, arith, Bool-cases, inl, inr,
}
use computer_architect.Raytrace.Heap.{Heap, rounds, first_fit}
use computer_architect.Raytrace.Heap.Blocks.{
  Block, span, end_of, first_free, last_free, frees, passed, le-end_of,
}
use computer_architect.Raytrace.Heap.Seg.{Header, Seg}

pub record HeapValid (h : Heap) (bs : List Block) : Type 0 where
  pub pos : 0 < h.begmem
  pub aligned : h.begmem % 8 ≡ 0
  pub end : h.endmem ≡ end_of h.begmem bs
  pub free : h.freelist ≡ first_free h.begmem bs 0
  pub blocks : Seg h.mem h.begmem bs 0

-- The walk has a round for each block, and one more.
pub rounds_lem : (h : Heap) (bs : List Block) → HeapValid h bs → 32 * length bs < rounds h
rounds_lem h bs v = omega (arith, le-end_of h.begmem bs, v.end)

abbrev pub Passed : ℕ → Block → Type 0
Passed n b = passed n b ≡ true

abbrev pub or_else : ℕ → ℕ → ℕ
or_else x p = if x == 0 then p else x

first_fit_step :
    (h : Heap) (n a : ℕ) (b : Block) (nx k prev : ℕ)
    → 0 < a
    → b.free ≡ true
    → Header h.mem a b nx
    → Passed n b
    → first_fit (suc k) h prev a n ≡ first_fit k h a nx n
unfolding first_fit
first_fit_step h n a b nx k prev pos on hd p =
    let a0 : (a == 0) ≡ false = ground arith in
    let small : leb n b.size ≡ false = ground arith in
    let next : h.mem a ≡ nx = hd.next ∙ (rw on refl) in
    let free : h.mem (a + 16) ≡ 1 = hd.free ∙ (rw on refl) in
    rw (hd.size, hd.cksm, free, next, a0, small) refl

last_free_cons :
    (a : ℕ) (b : Block) (bs : List Block) (prev : ℕ)
    → 0 < a
    → b.free ≡ true
    → or_else (last_free (a + span b) bs) a ≡ or_else (last_free a (b ∷ bs)) prev
last_free_cons a b bs prev pos on = ground arith

last_free_skip :
    (a : ℕ) (b : Block) (bs : List Block) (prev : ℕ)
    → b.free ≡ false
    → or_else (last_free (a + span b) bs) prev ≡ or_else (last_free a (b ∷ bs)) prev
last_free_skip a b bs prev off = ground arith

-- The search passes over blocks that do not fit: it stands at the block behind them, and `prev` is
-- the last free one.
pub first_fit_past :
    (h : Heap) (n a : ℕ) (bs : List Block) (t : ℕ) (left prev : ℕ)
    → 0 < a
    → Seg h.mem a bs t
    → All (Passed n) bs
    → first_fit (frees bs + left) h prev (first_free a bs t) n
      ≡ first_fit left h (or_else (last_free a bs) prev) t n
unfolding Seg
first_fit_past h n a [] t left prev pos s p = ap (λ k. first_fit k h prev t n) (omega arith)
first_fit_past h n a (b ∷ bs) t left prev pos s p = elim (Bool-cases b.free) [
  | inl on ↦
      let more : frees (b ∷ bs) + left ≡ suc (frees bs + left) = rw on (omega arith) in
      let at : first_free a (b ∷ bs) t ≡ a = rw on refl in
      rw (more, at)
        (first_fit_step h n a b (first_free (a + span b) bs t) (frees bs + left) prev pos on s.0 p.0
          ∙ first_fit_past h n (a + span b) bs t left a (omega arith) s.1 p.1
          ∙ ap (λ z. first_fit left h z t n) (last_free_cons a b bs prev pos on))
  | inr off ↦
      let same : frees (b ∷ bs) + left ≡ frees bs + left = rw off (omega arith) in
      let at : first_free a (b ∷ bs) t ≡ first_free (a + span b) bs t = rw off refl in
      rw (same, at)
        (first_fit_past h n (a + span b) bs t left prev (omega arith) s.1 p.1
          ∙ ap (λ z. first_fit left h z t n) (last_free_skip a b bs prev off))
]
