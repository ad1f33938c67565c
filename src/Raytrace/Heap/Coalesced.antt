-- ===== src/Raytrace/Heap/Coalesced.antt =====
-- No two neighbours are free, and which addresses are in use: what the operations do to both.
use computer_architect.Common.{
  ℕ, ◌+◌, ◌-◌, ◌≤◌, ◌≡◌, refl, sym, ap, subst, ◌∙◌, Bool, true, false, not, ◌&&◌, ◌||◌, ltb, ◌==◌,
  if◌then◌else◌, List, [], ◌∷◌, ◌++◌, arith, Bool-cases, inl, inr,
}
use computer_architect.Raytrace.Heap.Blocks.{
  Block, block, span, end_of, carved, le-end_of, end_of-append,
}
use computer_architect.Raytrace.Heap.Walks.{last_is_free}
use computer_architect.Raytrace.Heap.Free.{merged_size, rest_of, merge_prev, freed}
use computer_architect.Raytrace.Heap.Coalesce.{
  merge_prev_apart, merge_prev_joined, split_last, append_last,
}

-- No two neighbours are free, where `d` says whether the block before them is.
abbrev pub spaced : Bool → List Block → Bool
spaced d [] = true
spaced d (b ∷ bs) = not (d && b.free) && spaced b.free bs

-- Whether a block in use starts right behind the header before `x`.
abbrev pub is_used : ℕ → List Block → ℕ → Bool
is_used a [] x = false
is_used a (b ∷ bs) x = (not b.free && x == a + 32) || is_used (a + span b) bs x

spaced-append :
    (d : Bool) (bs cs : List Block)
    → spaced d (bs ++ cs) ≡ (spaced d bs && spaced (last_is_free d bs) cs)
spaced-append d [] cs = refl
spaced-append d (b ∷ bs) cs = rw (spaced-append b.free bs cs) (ground arith)

pub is_used-append :
    (a : ℕ) (bs cs : List Block) (x : ℕ)
    → is_used a (bs ++ cs) x ≡ (is_used a bs x || is_used (end_of a bs) cs x)
is_used-append a [] cs x = refl
is_used-append a (b ∷ bs) cs x = rw (is_used-append (a + span b) bs cs x) (ground arith)

pub is_used_bounds :
    (a : ℕ) (bs : List Block) (x : ℕ) → is_used a bs x ≡ true → (a + 32 ≤ x) × (x ≤ end_of a bs)
is_used_bounds a [] x h = ground arith
is_used_bounds a (b ∷ bs) x h = elim (Bool-cases (is_used (a + span b) bs x)) [
  | inl later ↦ let ih = is_used_bounds (a + span b) bs x later in (omega (arith, ih), ih.1)
  | inr here ↦ ground (arith, le-end_of (a + span b) bs)
]

pub is_used_split :
    (a : ℕ) (bs : List Block) (x : ℕ)
    → is_used a bs x ≡ true
    → (pre : List Block) × (b : Block) × (post : List Block) × (bs ≡ pre ++ (b ∷ post))
      × (b.free ≡ false)
      × (x ≡ end_of a pre + 32)
is_used_split a [] x h = ground arith
is_used_split a (b ∷ bs) x h = elim (Bool-cases (is_used (a + span b) bs x)) [
  | inl later ↦
      let (pre, c, post, e, used, at) = is_used_split (a + span b) bs x later in
      (b ∷ pre, c, post, ap (b ∷◌) e, used, at)
  | inr here ↦ ([], b, bs, refl, ground arith, ground arith)
]

-- A free block's address is not in use.
pub is_used_free :
    (a : ℕ) (pre : List Block) (b : Block) (post : List Block)
    → b.free ≡ true
    → is_used a (pre ++ (b ∷ post)) (end_of a pre + 32) ≡ false
is_used_free a pre b post on = ground (
  arith,
  is_used-append a pre (b ∷ post) (end_of a pre + 32),
  is_used_bounds a pre (end_of a pre + 32),
  is_used_bounds (end_of a pre + span b) post (end_of a pre + 32),
)

spaced_weaker : (bs : List Block) → spaced true bs ≡ true → spaced false bs ≡ true
spaced_weaker [] h = refl
spaced_weaker (b ∷ bs) h = ground arith

-- Splitting a free block keeps the blocks spaced.
pub spaced-carved :
    (pre : List Block) (b : Block) (post : List Block) (n : ℕ)
    → b.free ≡ true
    → spaced false (pre ++ (b ∷ post)) ≡ true
    → spaced false (pre ++ (carved n b ++ post)) ≡ true
spaced-carved pre b post n on h =
    let before = spaced-append false pre (b ∷ post) in
    elim (Bool-cases (ltb 48 (b.size - n))) [
      | inl big ↦ rw big (
          ground
            (arith, spaced-append false pre (block n false ∷ block (b.size - 32 - n) true ∷ post)))
      | inr small ↦
          rw small (
            ground (arith, spaced-append false pre (block b.size false ∷ post), spaced_weaker post))
    ]

pub is_used-carved :
    (a : ℕ) (pre : List Block) (b : Block) (post : List Block) (n x : ℕ)
    → b.free ≡ true
    → n ≤ b.size
    → is_used a (pre ++ (carved n b ++ post)) x
      ≡ (if x == end_of a pre + 32 then true else is_used a (pre ++ (b ∷ post)) x)
is_used-carved a pre b post n x on fits =
    rw (is_used-append a pre (b ∷ post) x) (elim (Bool-cases (ltb 48 (b.size - n))) [
      | inl big ↦
          let past : end_of a pre + (n + 32) + (b.size - 32 - n + 32) ≡ end_of a pre + span b =
            ground arith in
          rw (big, is_used-append a pre (block n false ∷ block (b.size - 32 - n) true ∷ post) x)
            (rw (past, on) (ground arith))
      | inr small ↦ rw (small, is_used-append a pre (block b.size false ∷ post) x) (ground arith)
    ])

spaced_rest : (post : List Block) → spaced false post ≡ true → spaced true (rest_of post) ≡ true
spaced_rest [] h = refl
spaced_rest (c ∷ cs) h = elim (Bool-cases c.free) [ inl on ↦ ground arith | inr off ↦ ground arith ]

is_used_rest :
    (a n : ℕ) (post : List Block) (x : ℕ)
    → is_used (a + (merged_size n post + 32)) (rest_of post) x ≡ is_used (a + (n + 32)) post x
is_used_rest a n [] x = refl
is_used_rest a n (c ∷ cs) x = elim (Bool-cases c.free) [
  | inl on ↦
      let e : a + (n + (c.size + 32) + 32) ≡ a + (n + 32) + span c = omega arith in rw (on, e) refl
  | inr off ↦ rw off refl
]

spaced-apart :
    (pre : List Block) (b : Block) (post : List Block)
    → b.free ≡ false
    → last_is_free false pre ≡ false
    → spaced false (pre ++ (b ∷ post)) ≡ true
    → spaced false (pre ++ (block (merged_size b.size post) true ∷ rest_of post)) ≡ true
spaced-apart pre b post used off h = ground (
  arith,
  spaced-append false pre (b ∷ post),
  spaced_rest post,
  spaced-append false pre (block (merged_size b.size post) true ∷ rest_of post),
)

spaced-joined :
    (pre : List Block) (c b : Block) (post : List Block) (n : ℕ)
    → c.free ≡ true
    → b.free ≡ false
    → spaced false (pre ++ (c ∷ b ∷ post)) ≡ true
    → spaced false (pre ++ (block n true ∷ rest_of post)) ≡ true
spaced-joined pre c b post n on used h = ground (
  arith,
  spaced-append false pre (c ∷ b ∷ post),
  spaced_rest post,
  spaced-append false pre (block n true ∷ rest_of post),
)

-- Freeing a block keeps the blocks spaced.
pub spaced-freed :
    (pre : List Block) (b : Block) (post : List Block)
    → b.free ≡ false
    → spaced false (pre ++ (b ∷ post)) ≡ true
    → spaced false (freed pre b.size post) ≡ true
spaced-freed pre b post used h = elim (Bool-cases (last_is_free false pre)) [
  | inl flag ↦
      let (qs, c, e, on) = split_last pre flag in
      let n = merged_size b.size post in
      let shape =
        ap (λ z. merge_prev z n (rest_of post)) e ∙ merge_prev_joined qs c n (rest_of post) on in
      let before =
        subst (λ z. spaced false z ≡ true)
          (ap (λ z. z ++ (b ∷ post)) e ∙ append_last qs c (b ∷ post)) h in
      subst (λ z. spaced false z ≡ true) (sym shape)
        (spaced-joined qs c b post (c.size + (n + 32)) on used before)
  | inr off ↦
      subst (λ z. spaced false z ≡ true)
        (sym (merge_prev_apart pre (merged_size b.size post) (rest_of post) off))
        (spaced-apart pre b post used off h)
]

is_used_gone :
    (a : ℕ) (pre : List Block) (b : Block) (post : List Block) (x : ℕ)
    → b.free ≡ false
    → (is_used a pre x || is_used (end_of a pre + (b.size + 32)) post x)
      ≡ (if x == end_of a pre + 32 then false else is_used a (pre ++ (b ∷ post)) x)
is_used_gone a pre b post x used = ground (
  arith,
  is_used-append a pre (b ∷ post) x,
  is_used_bounds a pre x,
  is_used_bounds (end_of a pre + (b.size + 32)) post x,
)

-- Freeing a block takes its address, and no other, out of use.
pub is_used-freed :
    (a : ℕ) (pre : List Block) (b : Block) (post : List Block) (x : ℕ)
    → b.free ≡ false
    → is_used a (freed pre b.size post) x
      ≡ (if x == end_of a pre + 32 then false else is_used a (pre ++ (b ∷ post)) x)
is_used-freed a pre b post x used =
    let n = merged_size b.size post in
    let rest = is_used_rest (end_of a pre) b.size post x in
    let parts : is_used a (freed pre b.size post) x
        ≡ (is_used a pre x || is_used (end_of a pre + (b.size + 32)) post x) =
      elim (Bool-cases (last_is_free false pre)) [
        | inl flag ↦
            let (qs, c, e, on) = split_last pre flag in
            let shape =
              ap (λ z. merge_prev z n (rest_of post)) e
              ∙ merge_prev_joined qs c n (rest_of post) on in
            let at : end_of a pre ≡ end_of a qs + span c =
              ap (end_of a) e ∙ end_of-append a qs (c ∷ []) in
            let past : end_of a qs + (c.size + (n + 32) + 32) ≡ end_of a pre + (n + 32) =
              omega arith in
            let same : is_used a pre x ≡ is_used a qs x =
              ap (λ z. is_used a z x) e ∙ is_used-append a qs (c ∷ []) x ∙ ground arith in
            ap (λ z. is_used a z x) shape
            ∙ is_used-append a qs (block (c.size + (n + 32)) true ∷ rest_of post) x
            ∙ rw (past, rest, same) refl
        | inr off ↦
            ap (λ z. is_used a z x) (merge_prev_apart pre n (rest_of post) off)
            ∙ is_used-append a pre (block n true ∷ rest_of post) x
            ∙ rw rest refl
      ] in
    parts ∙ is_used_gone a pre b post x used
