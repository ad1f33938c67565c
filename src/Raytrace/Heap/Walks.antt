-- ===== src/Raytrace/Heap/Walks.antt =====
-- The two searches of `GlobalFree`, along the blocks before and behind the one that is freed.
use computer_architect.Common.{
  ℕ, suc, ◌+◌, ◌≤◌, ◌<◌, ◌≡◌, refl, ap, ◌∙◌, Bool, true, false, not, ◌&&◌, ltb, ◌==◌, if◌then◌else◌,
  List, [], ◌∷◌, length, arith, Bool-cases, inl, inr,
}
use computer_architect.Common.Runs.{done}
use computer_architect.Raytrace.Heap.{Heap, search_prev, search_next}
use computer_architect.Raytrace.Heap.Blocks.{Block, span, end_of, first_free, last_free, le-end_of}
use computer_architect.Raytrace.Heap.Seg.{Header, Seg}
use computer_architect.Raytrace.Heap.Arena.{or_else}

-- Whether the last block is free; `d` without a block.
abbrev pub last_is_free : Bool → List Block → Bool
last_is_free d [] = d
last_is_free d (b ∷ bs) = last_is_free b.free bs

-- Whether the first block is free.
abbrev pub head_is_free : List Block → Bool
head_is_free [] = false
head_is_free (b ∷ bs) = b.free

prev_step :
    (h : Heap) (pn a : ℕ) (b : Block) (nx k prev : ℕ) (pcom : Bool)
    → Header h.mem a b nx
    → a < pn
    → a < h.endmem
    → search_prev (suc k) h pn prev pcom a
      ≡ search_prev k h pn (if b.free then a else prev) b.free (a + span b)
unfolding search_prev
prev_step h pn a b nx k prev pcom hd lt le =
    let before : ltb a pn ≡ true = ground arith in
    let inside : ltb a h.endmem ≡ true = ground arith in
    let flag : not (h.mem (a + 16) == 0) ≡ b.free = ground (arith, hd.free) in
    rw (flag, hd.size, hd.cksm, before, inside) refl

prev_walk :
    (h : Heap) (pn a : ℕ) (bs : List Block) (t k prev : ℕ) (pcom : Bool)
    → 0 < a
    → Seg h.mem a bs t
    → end_of a bs ≡ pn
    → pn < h.endmem
    → search_prev (length bs + k) h pn prev pcom a
      ≡ search_prev k h pn (or_else (last_free a bs) prev) (last_is_free pcom bs) pn
unfolding Seg
prev_walk h pn a [] t k prev pcom pos s e lt =
    let z : length {A = Block} [] + k ≡ k = omega arith in rw (z, e) refl
prev_walk h pn a (b ∷ bs) t k prev pcom pos s e lt =
    let z : length (b ∷ bs) + k ≡ suc (length bs + k) = omega arith in
    let before : a < pn = omega (arith, le-end_of (a + span b) bs) in
    let same : or_else (last_free (a + span b) bs) (if b.free then a else prev)
        ≡ or_else (last_free a (b ∷ bs)) prev =
      ground arith in
    rw z (
      prev_step h pn a b _ (length bs + k) prev pcom s.0 before (omega arith)
      ∙ prev_walk h pn (a + span b) bs t k (if b.free then a else prev) b.free (omega arith) s.1 e
          lt
      ∙ ap (λ z. search_prev k h pn z (last_is_free b.free bs) pn) same)

pub prev_stop :
    (h : Heap) (pn prev curr k : ℕ) (pcom : Bool)
    → pn ≤ curr
    → search_prev (suc k) h pn prev pcom curr ≡ done (prev, pcom, curr)
unfolding search_prev
prev_stop h pn prev curr k pcom le = let stop : ltb curr pn ≡ false = ground arith in rw stop refl

-- From the first free block, when there is one before `pn`.
pub prev_found :
    (h : Heap) (a : ℕ) (bs : List Block) (t u k : ℕ)
    → 0 < a
    → Seg h.mem a bs t
    → end_of a bs < h.endmem
    → (last_free a bs == 0) ≡ false
    → search_prev (length bs + suc k) h (end_of a bs) 0 false (first_free a bs u)
      ≡ done (last_free a bs, last_is_free false bs, end_of a bs)
unfolding Seg
prev_found h a [] t u k pos s lt found = ground arith
prev_found h a (b ∷ bs) t u k pos s lt found = elim (Bool-cases b.free) [
  | inl on ↦
      let at : first_free a (b ∷ bs) u ≡ a = rw on refl in
      let kept : or_else (last_free a (b ∷ bs)) 0 ≡ last_free a (b ∷ bs) = ground arith in
      ap (search_prev (length (b ∷ bs) + suc k) h (end_of a (b ∷ bs)) 0 false) at
      ∙ prev_walk h (end_of a (b ∷ bs)) a (b ∷ bs) t (suc k) 0 false pos s refl lt
      ∙ prev_stop h (end_of a (b ∷ bs)) (or_else (last_free a (b ∷ bs)) 0) (end_of a (b ∷ bs)) k
          (last_is_free false (b ∷ bs)) (omega arith)
      ∙ ap (λ z. done (z, last_is_free false (b ∷ bs), end_of a (b ∷ bs))) kept
  | inr off ↦
      let fuel : length (b ∷ bs) + suc k ≡ length bs + suc (suc k) = omega arith in
      let at : first_free a (b ∷ bs) u ≡ first_free (a + span b) bs u = rw off refl in
      let later : (last_free (a + span b) bs == 0) ≡ false = ground arith in
      let last : last_free (a + span b) bs ≡ last_free a (b ∷ bs) = rw later refl in
      let flag : last_is_free false bs ≡ last_is_free b.free bs = rw off refl in
      ap (λ z. search_prev z h (end_of a (b ∷ bs)) 0 false (first_free a (b ∷ bs) u)) fuel
      ∙ ap (search_prev (length bs + suc (suc k)) h (end_of a (b ∷ bs)) 0 false) at
      ∙ prev_found h (a + span b) bs t u (suc k) (omega arith) s.1 lt later
      ∙ ap (λ z. done (z, last_is_free false bs, end_of a (b ∷ bs))) last
      ∙ ap (λ z. done (last_free a (b ∷ bs), z, end_of a (b ∷ bs))) flag
]

next_step :
    (h : Heap) (a : ℕ) (b : Block) (nx k : ℕ) (ncom : Bool)
    → Header h.mem a b nx
    → a < h.endmem
    → search_next (suc k) h ncom a
      ≡ (if b.free then done (a, ncom) else search_next k h false (a + span b))
unfolding search_next
next_step h a b nx k ncom hd lt =
    let inside : ltb a h.endmem ≡ true = ground arith in
    let flag : (h.mem (a + 16) == 0) ≡ not b.free = ground (arith, hd.free) in
    elim (Bool-cases b.free) [
      | inl on ↦ rw (flag, hd.size, hd.cksm, inside, on) refl
      | inr off ↦ rw (flag, hd.size, hd.cksm, inside, off) refl
    ]

next_end :
    (h : Heap) (a k : ℕ) (ncom : Bool)
    → h.endmem ≤ a
    → search_next (suc k) h ncom a ≡ done (0, false)
unfolding search_next
next_end h a k ncom le = let outside : ltb a h.endmem ≡ false = ground arith in rw outside refl

-- The next free block, and whether it is the first.
pub next_walk :
    (h : Heap) (a : ℕ) (bs : List Block) (k : ℕ) (ncom : Bool)
    → Seg h.mem a bs 0
    → h.endmem ≡ end_of a bs
    → search_next (length bs + suc k) h ncom a ≡ done (first_free a bs 0, ncom && head_is_free bs)
unfolding Seg
next_walk h a [] k ncom s e =
    let z : length {A = Block} [] + suc k ≡ suc k = omega arith in
    let never : false ≡ (ncom && false) = ground arith in
    rw z (next_end h a k ncom (omega arith) ∙ ap (λ f. done (0, f)) never)
next_walk h a (b ∷ bs) k ncom s e =
    let z : length (b ∷ bs) + suc k ≡ suc (length bs + suc k) = omega arith in
    let inside : a < h.endmem = omega (arith, le-end_of (a + span b) bs) in
    rw z (
      next_step h a b _ (length bs + suc k) ncom s.0 inside ∙ elim (Bool-cases b.free) [
        | inl on ↦ rw on (ground arith)
        | inr off ↦ rw off (next_walk h (a + span b) bs k false s.1 e ∙ ground arith)
      ])
