-- ===== src/Raytrace/Heap/Seg.antt =====
-- The headers of consecutive blocks in memory, and what a change of memory does to them.
use computer_architect.Common.{
  ℕ, ◌+◌, ◌%◌, ◌≤◌, ◌<◌, ◌≡◌, refl, sym, ap, subst, ◌∙◌, true, false, ◌==◌, if◌then◌else◌, List, [],
  ◌∷◌, ◌++◌, arith, Bool-cases, inl, inr,
}
use computer_architect.Raytrace.Heap.{store, check_sum}
use computer_architect.Raytrace.Heap.Blocks.{
  Block, span, end_of, first_free, last_free, le-end_of, first_free-append, last_free_bounds,
  first_free_none, first_free_some,
}

-- The header at `a` of a block whose next free block is at `nx`.
pub record Header (m : ℕ → ℕ) (a : ℕ) (b : Block) (nx : ℕ) : Type 0 where
  pub next : m a ≡ (if b.free then nx else 0)
  pub size : m (a + 8) ≡ b.size
  pub free : m (a + 16) ≡ (if b.free then 1 else 0)
  pub cksm : m (a + 24) ≡ check_sum
  pub whole : b.size % 8 ≡ 0

-- Blocks from `a` on, before the free block at `t`.
unfoldable pub Seg : (ℕ → ℕ) → ℕ → List Block → ℕ → Type 0
Seg m a [] t = Unit
Seg m a (b ∷ bs) t = Header m a b (first_free (a + span b) bs t) × Seg m (a + span b) bs t

-- The two memories agree from `a` to `e`.
abbrev pub Same : (ℕ → ℕ) → (ℕ → ℕ) → ℕ → ℕ → Type 0
Same m m' a e = (x : ℕ) → a ≤ x → x < e → m' x ≡ m x

pub Header-Same :
    (m m' : ℕ → ℕ) (a : ℕ) (b : Block) (nx : ℕ)
    → Same m m' a (a + 32)
    → Header m a b nx
    → Header m' a b nx
Header-Same m m' a b nx same h = record {
  next = same a (omega arith) (omega arith) ∙ h.next;
  size = same (a + 8) (omega arith) (omega arith) ∙ h.size;
  free = same (a + 16) (omega arith) (omega arith) ∙ h.free;
  cksm = same (a + 24) (omega arith) (omega arith) ∙ h.cksm;
  whole = h.whole;
}

pub Seg-Same :
    (m m' : ℕ → ℕ) (a : ℕ) (bs : List Block) (t : ℕ)
    → Same m m' a (end_of a bs)
    → Seg m a bs t
    → Seg m' a bs t
unfolding Seg
Seg-Same m m' a [] t same s = tt
Seg-Same m m' a (b ∷ bs) t same s =
    let long = le-end_of (a + span b) bs in
    (
      Header-Same m m' a b _ (λ x lo hi. same x lo (omega arith)) s.0,
      Seg-Same m m' (a + span b) bs t (λ x lo hi. same x (omega arith) hi) s.1,
    )

pub Seg-append :
    (m : ℕ → ℕ) (a : ℕ) (bs cs : List Block) (t : ℕ)
    → Seg m a bs (first_free (end_of a bs) cs t)
    → Seg m (end_of a bs) cs t
    → Seg m a (bs ++ cs) t
unfolding Seg
Seg-append m a [] cs t s r = r
Seg-append m a (b ∷ bs) cs t s r =
    (rw (first_free-append (a + span b) bs cs t) s.0, Seg-append m (a + span b) bs cs t s.1 r)

pub Seg-split :
    (m : ℕ → ℕ) (a : ℕ) (bs cs : List Block) (t : ℕ)
    → Seg m a (bs ++ cs) t
    → Seg m a bs (first_free (end_of a bs) cs t) × Seg m (end_of a bs) cs t
unfolding Seg
Seg-split m a [] cs t s = (tt, s)
Seg-split m a (b ∷ bs) cs t s =
    let (left, right) = Seg-split m (a + span b) bs cs t s.1 in
    ((rw (← first_free-append (a + span b) bs cs t) s.0, left), right)

-- `prev->next = v`, for the last free block `prev`, if there is one.
abbrev pub relink : (ℕ → ℕ) → ℕ → ℕ → ℕ → ℕ
relink m p v = if p == 0 then m else store m p v

relink_head :
    (m : ℕ → ℕ) (a : ℕ) (b : Block) (nx v : ℕ)
    → b.free ≡ true
    → Header m a b nx
    → Header (store m a v) a b v
relink_head m a b nx v on h = record {
  next = ground arith;
  size = ground (arith, h.size);
  free = ground (arith, h.free);
  cksm = ground (arith, h.cksm);
  whole = h.whole;
}

Header-retarget :
    (m : ℕ → ℕ) (a : ℕ) (b : Block) (nx v : ℕ) → b.free ≡ false → Header m a b nx → Header m a b v
Header-retarget m a b nx v off h = record {
  next = h.next ∙ (rw off refl);
  size = h.size;
  free = h.free;
  cksm = h.cksm;
  whole = h.whole;
}

store_outside : (m : ℕ → ℕ) (p v lo hi : ℕ) → hi ≤ p → Same m (store m p v) lo hi
store_outside m p v lo hi h x l u = ground arith

store_below : (m : ℕ → ℕ) (p v lo hi : ℕ) → p < lo → Same m (store m p v) lo hi
store_below m p v lo hi h x l u = ground arith

-- Where the last free block of `b ∷ bs` is.
relink_tail :
    (m : ℕ → ℕ) (a : ℕ) (b : Block) (bs : List Block) (u : ℕ)
    → (last_free (a + span b) bs == 0) ≡ false
    → relink m (last_free (a + span b) bs) u ≡ relink m (last_free a (b ∷ bs)) u
relink_tail m a b bs u later =
    let e : last_free a (b ∷ bs) ≡ last_free (a + span b) bs = rw later refl in
    ap (λ z. relink m z u) (sym e)

relink_here :
    (m : ℕ → ℕ) (a : ℕ) (b : Block) (bs : List Block) (u : ℕ)
    → 0 < a
    → b.free ≡ true
    → (last_free (a + span b) bs == 0) ≡ true
    → store m a u ≡ relink m (last_free a (b ∷ bs)) u
relink_here m a b bs u pos on none_later =
    let a0 : (a == 0) ≡ false = ground arith in rw (none_later, on, a0) refl

relink_not :
    (m : ℕ → ℕ) (a : ℕ) (b : Block) (bs : List Block) (u : ℕ)
    → b.free ≡ false
    → (last_free (a + span b) bs == 0) ≡ true
    → m ≡ relink m (last_free a (b ∷ bs)) u
relink_not m a b bs u off none_later = rw (none_later, off) refl

relink_none : (m : ℕ → ℕ) (p u : ℕ) → (p == 0) ≡ true → relink m p u ≡ m
relink_none m p u h = rw h refl

-- Blocks that come before `t`, linked to `u` instead.
pub relink-Seg :
    (m : ℕ → ℕ) (a : ℕ) (bs : List Block) (t u : ℕ)
    → 0 < a
    → Seg m a bs t
    → Seg (relink m (last_free a bs) u) a bs u
unfolding Seg
relink-Seg m a [] t u pos s = tt
relink-Seg m a (b ∷ bs) t u pos s =
    let ih = relink-Seg m (a + span b) bs t u (omega arith) s.1 in
    elim (Bool-cases (last_free (a + span b) bs == 0)) [
      | inl none_later ↦
          let tail : Seg m (a + span b) bs u =
            subst (λ z. Seg z (a + span b) bs u) (relink_none m _ u none_later) ih in
          elim (Bool-cases b.free) [
            | inl on ↦
                subst (λ z. Header z a b (first_free (a + span b) bs u) × Seg z (a + span b) bs u)
                  (relink_here m a b bs u pos on none_later)
                  (
                    rw (first_free_none (a + span b) bs u (omega arith) none_later)
                        (relink_head m a b _ u on s.0),
                    Seg-Same m (store m a u) (a + span b) bs u (store_below m a u _ _ (omega arith))
                        tail,
                  )
            | inr off ↦
                subst (λ z. Header z a b (first_free (a + span b) bs u) × Seg z (a + span b) bs u)
                  (relink_not m a b bs u off none_later) (Header-retarget m a b _ _ off s.0, tail)
          ]
      | inr later ↦
          let p = last_free (a + span b) bs in
          let bounds = last_free_bounds (a + span b) bs later in
          subst (λ z. Header z a b (first_free (a + span b) bs u) × Seg z (a + span b) bs u)
            (relink_tail m a b bs u later)
            (
              Header-Same m (relink m p u) a b _
                  (λ x lo hi.
                    rw later (store_outside m p u a (a + 32) (omega (arith, bounds)) x lo hi))
                  (rw (first_free_some (a + span b) bs u t later) s.0),
              ih,
            )
    ]
