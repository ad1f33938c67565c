-- ===== src/Raytrace/Heap/Free.antt =====
-- `GlobalFree` on a valid heap: the block is merged with its free neighbours.
use computer_architect.Common.{
  ℕ, ◌+◌, ◌%◌, ◌≤◌, ◌<◌, ◌≡◌, refl, sym, ap, subst, ◌∙◌, true, false, ◌==◌, if◌then◌else◌, List, [],
  ◌∷◌, arith, Bool-cases, inl, inr,
}
use computer_architect.Raytrace.Heap.{Heap, link, set_next, set_size, combine}
use computer_architect.Raytrace.Heap.Blocks.{
  Block, block, span, end_of, first_free, last_free, le-end_of,
}
use computer_architect.Raytrace.Heap.Seg.{Seg}
use computer_architect.Raytrace.Heap.Walks.{last_is_free, head_is_free}

-- The block and those behind it, after it is merged with the next one if that is free.
abbrev pub merged_size : ℕ → List Block → ℕ
merged_size n [] = n
merged_size n (c ∷ cs) = if c.free then n + (c.size + 32) else n

abbrev pub rest_of : List Block → List Block
rest_of [] = []
rest_of (c ∷ cs) = if c.free then cs else c ∷ cs

-- The blocks before it, with the block of `n` bytes behind them, merged with the last one if that is free.
abbrev pub merge_prev : List Block → ℕ → List Block → List Block
merge_prev [] n post = block n true ∷ post
merge_prev (c ∷ []) n post =
    if c.free then block (c.size + (n + 32)) true ∷ post else c ∷ block n true ∷ post
merge_prev (c ∷ d ∷ pre) n post = c ∷ merge_prev (d ∷ pre) n post

-- The blocks after the one of `n` bytes between `pre` and `post` is freed.
abbrev pub freed : List Block → ℕ → List Block → List Block
freed pre n post = merge_prev pre (merged_size n post) (rest_of post)

-- The cases of `combine`.
module _ (h : Heap) (p a n : ℕ) where
  pub combine_both :
      (p == 0) ≡ false
      → (n == 0) ≡ false
      → combine h p a n true true
        ≡ set_size (set_next h p (h.mem n)) p (h.mem (p + 8) + (h.mem (a + 8) + h.mem (n + 8) + 64))
  unfolding combine
  combine_both e f = rw (e, f) refl

  pub combine_prev :
      combine h p a n true false
      ≡ set_size (set_next h p n) p (h.mem (p + 8) + (h.mem (a + 8) + 32))
  unfolding combine
  combine_prev = elim (Bool-cases (n == 0)) [
    | inl none ↦ let e : n ≡ 0 = ground arith in rw e refl
    | inr found ↦ rw found refl
  ]

  pub combine_next :
      (n == 0) ≡ false
      → combine h p a n false true
        ≡ set_size (set_next (link h p a) a (h.mem n)) a (h.mem (a + 8) + (h.mem (n + 8) + 32))
  unfolding combine link
  combine_next f = elim (Bool-cases (p == 0)) [
    | inl none ↦ rw (f, none) refl
    | inr found ↦ rw (f, found) refl
  ]

  pub combine_none : combine h p a n false false ≡ set_next (link h p a) a n
  unfolding combine link
  combine_none = elim (Bool-cases (p == 0)) [
    | inl no_prev ↦ elim (Bool-cases (n == 0)) [
      | inl none ↦ let e : n ≡ 0 = ground arith in rw (no_prev, e) refl
      | inr found ↦ rw (no_prev, found) refl
    ]
    | inr prev ↦ elim (Bool-cases (n == 0)) [
      | inl none ↦ let e : n ≡ 0 = ground arith in rw (prev, e) refl
      | inr found ↦ rw (prev, found) refl
    ]
  ]

pub first_free_bounds :
    (a : ℕ) (bs : List Block)
    → (first_free a bs 0 == 0) ≡ false
    → (a ≤ first_free a bs 0) × (first_free a bs 0 < end_of a bs)
first_free_bounds a [] h = ground arith
first_free_bounds a (b ∷ bs) h = elim (Bool-cases b.free) [
  | inl on ↦ rw on (omega arith, omega (arith, le-end_of (a + span b) bs))
  | inr off ↦ let ih = first_free_bounds (a + span b) bs (rw off at h) in rw off (omega arith, ih.1)
]

pub first_free_pos :
    (a : ℕ) (bs : List Block) (t : ℕ)
    → 0 < a
    → (last_free a bs == 0) ≡ false
    → 0 < first_free a bs t
first_free_pos a [] t pos h = ground arith
first_free_pos a (b ∷ bs) t pos h = elim (Bool-cases b.free) [
  | inl on ↦ rw on pos
  | inr off ↦ rw off (first_free_pos (a + span b) bs t (omega arith) (ground arith))
]

-- Without a free block the last one is not free.
pub last_not_free :
    (a : ℕ) (bs : List Block) → 0 < a → (last_free a bs == 0) ≡ true → last_is_free false bs ≡ false
last_not_free a [] pos h = refl
last_not_free a (b ∷ []) pos h = ground arith
last_not_free a (b ∷ c ∷ bs) pos h =
    last_not_free (a + span b) (c ∷ bs) (omega arith) (ground arith)

-- What the merge with the next block comes to, for a block at `a`.
pub record Next (m : ℕ → ℕ) (a n : ℕ) (post : List Block) : Type 0 where
  pub seg : Seg m (a + (merged_size n post + 32)) (rest_of post) 0
  pub whole : merged_size n post % 8 ≡ 0
  pub end : end_of (a + (merged_size n post + 32)) (rest_of post) ≡ end_of (a + (n + 32)) post
  pub further : n ≤ merged_size n post
  pub joins :
      head_is_free post ≡ true
      → (first_free (a + (n + 32)) post 0 ≡ a + (n + 32))
        × (m (first_free (a + (n + 32)) post 0)
            ≡ first_free (a + (merged_size n post + 32)) (rest_of post) 0)
        × (n + (m (first_free (a + (n + 32)) post 0 + 8) + 32) ≡ merged_size n post)
  pub apart :
      head_is_free post ≡ false
      → (first_free (a + (n + 32)) post 0
          ≡ first_free (a + (merged_size n post + 32)) (rest_of post) 0)
        × (n ≡ merged_size n post)

pub next_lem :
    (m : ℕ → ℕ) (a n : ℕ) (post : List Block)
    → n % 8 ≡ 0
    → Seg m (a + (n + 32)) post 0
    → Next m a n post
unfolding Seg
next_lem m a n [] w s = record {
  seg = tt;
  whole = w;
  end = refl;
  further = omega arith;
  joins = λ h. cc;
  apart = λ h. (refl, refl);
}
next_lem m a n (c ∷ cs) w s = elim (Bool-cases c.free) [
  | inl on ↦
      let e : a + (n + 32) + span c ≡ a + (n + (c.size + 32) + 32) = omega arith in
      let wh = s.0.whole in
      let link : m (a + (n + 32)) ≡ first_free (a + (n + 32) + span c) cs 0 =
        s.0.next ∙ (rw on refl) in
      rw on (record {
        seg = subst (λ z. Seg m z cs 0) e s.1;
        whole = omega arith;
        end = ap (λ z. end_of z cs) (sym e);
        further = omega arith;
        joins = λ h. (refl, link ∙ ap (λ z. first_free z cs 0) e, ap (λ z. n + (z + 32)) s.0.size);
        apart = λ h. ground arith;
      })
  | inr off ↦
      let alone : merged_size n (c ∷ cs) ≡ n = rw off refl in
      let rest : rest_of (c ∷ cs) ≡ c ∷ cs = rw off refl in
      let at : a + (n + 32) ≡ a + (merged_size n (c ∷ cs) + 32) =
        ap (λ z. a + (z + 32)) (sym alone) in
      record {
        seg =
            subst (λ z. Seg m z (rest_of (c ∷ cs)) 0) at
              (subst (λ z. Seg m (a + (n + 32)) z 0) (sym rest) s);
        whole = subst (λ z. z % 8 ≡ 0) (sym alone) w;
        end = ap (λ z. end_of z (rest_of (c ∷ cs))) (sym at) ∙ ap (end_of (a + (n + 32))) rest;
        further = omega arith;
        joins = λ h. ground arith;
        apart = λ h. (
          sym (
              ap (λ z. first_free z (rest_of (c ∷ cs)) 0) (sym at)
              ∙ ap (λ z. first_free (a + (n + 32)) z 0) rest),
          sym alone,
        );
      }
]
