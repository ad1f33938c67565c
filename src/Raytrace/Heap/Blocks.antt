-- ===== src/Raytrace/Heap/Blocks.antt =====
-- What the arena stands for: its blocks in the order of their addresses, without headers and links.
use computer_architect.Common.{
  ℕ, ◌+◌, ◌-◌, ◌*◌, ◌≤◌, ◌<◌, ◌≡◌, refl, Bool, true, false, not, ◌&&◌, ltb, leb, ◌==◌,
  if◌then◌else◌, List, [], ◌∷◌, ◌++◌, length, arith, Bool-cases, inl, inr,
}

pub record Block : Type 0 where
  pub size : ℕ
  pub free : Bool

abbrev pub block : ℕ → Bool → Block
block n f = record { size = n; free = f }

-- The bytes of a block, and of blocks, with their headers.
abbrev pub span : Block → ℕ
span b = b.size + 32

abbrev pub end_of : ℕ → List Block → ℕ
end_of a [] = a
end_of a (b ∷ bs) = end_of (a + span b) bs

-- The first free block from `a` on, or `t` when there is none.
abbrev pub first_free : ℕ → List Block → ℕ → ℕ
first_free a [] t = t
first_free a (b ∷ bs) t = if b.free then a else first_free (a + span b) bs t

-- The last free block from `a` on, or 0.
abbrev pub last_free : ℕ → List Block → ℕ
last_free a [] = 0
last_free a (b ∷ bs) =
    let later = last_free (a + span b) bs in if later == 0 then (if b.free then a else 0) else later

abbrev pub frees : List Block → ℕ
frees [] = 0
frees (b ∷ bs) = (if b.free then 1 else 0) + frees bs

-- A block that a request for `n` bytes passes over.
abbrev pub passed : ℕ → Block → Bool
passed n b = not (b.free && leb n b.size)

-- The blocks that a block is carved into for `n` bytes.
abbrev pub carved : ℕ → Block → List Block
carved n b =
    if ltb 48 (b.size - n)
    then block n false ∷ block (b.size - 32 - n) true ∷ []
    else block b.size false ∷ []

pub end_of-append : (a : ℕ) (bs cs : List Block) → end_of a (bs ++ cs) ≡ end_of (end_of a bs) cs
end_of-append a [] cs = refl
end_of-append a (b ∷ bs) cs = end_of-append (a + span b) bs cs

pub le-end_of : (a : ℕ) (bs : List Block) → a + 32 * length bs ≤ end_of a bs
le-end_of a [] = omega arith
le-end_of a (b ∷ bs) = omega (arith, le-end_of (a + span b) bs)

pub frees_le : (bs : List Block) → frees bs ≤ length bs
frees_le [] = omega arith
frees_le (b ∷ bs) = ground (arith, frees_le bs)

pub first_free-append :
    (a : ℕ) (bs cs : List Block) (t : ℕ)
    → first_free a (bs ++ cs) t ≡ first_free a bs (first_free (end_of a bs) cs t)
first_free-append a [] cs t = refl
first_free-append a (b ∷ bs) cs t = ground (arith, first_free-append (a + span b) bs cs t)

-- The last free block lies among the blocks.
pub last_free_bounds :
    (a : ℕ) (bs : List Block)
    → (last_free a bs == 0) ≡ false
    → (a ≤ last_free a bs) × (last_free a bs + 32 ≤ end_of a bs)
last_free_bounds a [] h = ground arith
last_free_bounds a (b ∷ bs) h = elim (Bool-cases (last_free (a + span b) bs == 0)) [
  | inl none_later ↦ ground (arith, le-end_of (a + span b) bs)
  | inr later ↦ ground (arith, last_free_bounds (a + span b) bs later)
]

-- Without a free block the target is the first free one, and with one it does not matter.
pub first_free_none :
    (a : ℕ) (bs : List Block) (t : ℕ) → 0 < a → (last_free a bs == 0) ≡ true → first_free a bs t ≡ t
first_free_none a [] t pos h = refl
first_free_none a (b ∷ bs) t pos h = elim (Bool-cases (last_free (a + span b) bs == 0)) [
  | inl none_later ↦ ground (arith, first_free_none (a + span b) bs t)
  | inr later ↦ ground arith
]

pub first_free_some :
    (a : ℕ) (bs : List Block) (t u : ℕ)
    → (last_free a bs == 0) ≡ false
    → first_free a bs t ≡ first_free a bs u
first_free_some a [] t u h = ground arith
first_free_some a (b ∷ bs) t u h = elim (Bool-cases (last_free (a + span b) bs == 0)) [
  | inl none_later ↦ ground arith
  | inr later ↦ ground (arith, first_free_some (a + span b) bs t u later)
]
