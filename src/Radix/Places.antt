-- ===== src/Radix/Places.antt =====
-- Where a stable counting sort puts each of `n` things that have digits: after the smaller digits,
-- and after the same digits before it. These places are those below `n`, each once.
use computer_architect.Common.{
  ℕ, zero, suc, ◌+◌, ◌-◌, ◌<◌, ◌≤◌, ◌≡◌, refl, arith, subst, ◌==◌, ltb, leb, Bool-cases, true,
  false, ◌⊎◌, inl, inr, if◌then◌else◌,
}
use computer_architect.Radix.Sums.{sum}

-- How many of the first `i` digits are `d`.
unfoldable pub occurs : (ℕ → ℕ) → ℕ → ℕ → ℕ
occurs f zero d = 0
occurs f (suc i) d = if f i == d then occurs f i d + 1 else occurs f i d

-- How many of `n` digits are smaller than `d`.
unfoldable pub below : (ℕ → ℕ) → ℕ → ℕ → ℕ
below f n d = sum d (occurs f n)

unfoldable pub place : (ℕ → ℕ) → ℕ → ℕ → ℕ
place f n i = below f n (f i) + occurs f i (f i)

pub place_def : (f : ℕ → ℕ) (n i : ℕ) → place f n i ≡ below f n (f i) + occurs f i (f i)
unfolding place
place_def f n i = refl

occurs_mono : (f : ℕ → ℕ) (i n d : ℕ) → i ≤ n → occurs f i d ≤ occurs f n d
unfolding occurs
occurs_mono f i zero d le = let e : i ≡ 0 = omega arith in rw e (omega arith)
occurs_mono f i (suc n) d le = elim (Bool-cases (leb i n)) [
  | inl before ↦ let rest = occurs_mono f i n d (ground arith) in ground arith
  | inr now ↦ let e : i ≡ suc n = ground arith in rw e (omega arith)
]

occurs_lt : (f : ℕ → ℕ) (i n d : ℕ) → i < n → f i ≡ d → occurs f i d < occurs f n d
unfolding occurs
occurs_lt f i n d lt e =
    let same : (f i == d) ≡ true = ground arith in
    let up : (if f i == d then occurs f i d + 1 else occurs f i d) ≤ occurs f n d =
      occurs_mono f (suc i) n d (omega arith) in
    omega (arith, rw same at up)

below-suc : (f : ℕ → ℕ) (n d : ℕ) → below f n (suc d) ≡ below f n d + occurs f n d
unfolding below sum
below-suc f n d = refl

below_mono : (f : ℕ → ℕ) (n d d' : ℕ) → d ≤ d' → below f n d ≤ below f n d'
below_mono f n d zero le = let e : d ≡ 0 = omega arith in rw e (omega arith)
below_mono f n d (suc d') le = elim (Bool-cases (leb d d')) [
  | inl before ↦ omega (arith, below_mono f n d d' (ground arith), below-suc f n d')
  | inr now ↦ let e : d ≡ suc d' = ground arith in rw e (omega arith)
]

sum-occurs :
    (f : ℕ → ℕ) (i d : ℕ)
    → sum d (occurs f (suc i)) ≡ sum d (occurs f i) + (if ltb (f i) d then 1 else 0)
unfolding sum occurs
sum-occurs f i zero = ground arith
sum-occurs f i (suc d) = ground (arith, sum-occurs f i d)

sum-none : (f : ℕ → ℕ) (d : ℕ) → sum d (occurs f 0) ≡ 0
unfolding sum occurs
sum-none f zero = refl
sum-none f (suc d) = rw (sum-none f d) refl

-- All digits are smaller than a bound of them.
below_all : (f : ℕ → ℕ) (n d : ℕ) → ((i : ℕ) → i < n → f i < d) → sum d (occurs f n) ≡ n
below_all f zero d h = sum-none f d
below_all f (suc i) d h =
    let rest = below_all f i d (λ j lt. h j (omega arith)) in
    ground (arith, sum-occurs f i d, h i (omega arith))

place-end : (f : ℕ → ℕ) (n i : ℕ) → i < n → place f n i < below f n (suc (f i))
unfolding place
place-end f n i lt = omega (arith, below-suc f n (f i), occurs_lt f i n (f i) lt refl)

-- Smaller digits go first.
pub place_lt : (f : ℕ → ℕ) (n i j : ℕ) → i < n → f i < f j → place f n i < place f n j
unfolding place
place_lt f n i j lt less =
    omega (arith, place-end f n i lt, below_mono f n (suc (f i)) (f j) (omega arith))

-- Equal digits keep their order.
pub place_stable : (f : ℕ → ℕ) (n i j : ℕ) → i < j → f i ≡ f j → place f n i < place f n j
unfolding place
place_stable f n i j lt e = rw e (omega (arith, occurs_lt f i j (f j) lt e))

-- The first of two places is of the smaller digit, or of the first of two equal digits.
pub place_order :
    (f : ℕ → ℕ) (n i j : ℕ)
    → j < n
    → place f n i < place f n j
    → (f i < f j) ⊎ ((f i ≡ f j) × (i < j))
place_order f n i j lt less = elim (Bool-cases (ltb (f i) (f j))) [
  | inl first ↦ inl (ground arith)
  | inr late ↦ elim (Bool-cases (f i == f j)) [
    | inr above ↦ absurd (omega (arith, place_lt f n j i lt (ground arith)))
    | inl same ↦ elim (Bool-cases (ltb i j)) [
      | inl before ↦ inr (ground arith, ground arith)
      | inr after ↦ elim (Bool-cases (i == j)) [
        | inl at ↦
            let e : i ≡ j = ground arith in
            absurd (omega (arith, subst (λ z. place f n z < place f n j) e less))
        | inr off ↦ absurd (omega (arith, place_stable f n j i (ground arith) (ground arith)))
      ]
    ]
  ]
]

pub place_distinct : (f : ℕ → ℕ) (n i j : ℕ) → i < j → j < n → (place f n i == place f n j) ≡ false
place_distinct f n i j lt bound = elim (Bool-cases (ltb (f i) (f j))) [
  | inl first ↦ ground (arith, place_lt f n i j (omega arith) (ground arith))
  | inr late ↦ elim (Bool-cases (f i == f j)) [
    | inr above ↦ ground (arith, place_lt f n j i bound (ground arith))
    | inl same ↦ ground (arith, place_stable f n i j lt (ground arith))
  ]
]

module _ (f : ℕ → ℕ) (n d : ℕ) (bounded : (i : ℕ) → i < n → f i ≤ d) where
  pub place_bound : (i : ℕ) → i < n → place f n i < n
  unfolding below
  place_bound i lt = omega (
    arith,
    place-end f n i lt,
    below_mono f n (suc (f i)) (suc d) (omega (arith, bounded i lt)),
    below_all f n (suc d) (λ i lt. omega (arith, bounded i lt)),
  )

-- Where a function that starts at or below `a` first passes it.
crossing :
    (g : ℕ → ℕ) (n a : ℕ) → g 0 ≤ a → a < g n → (i : ℕ) × (i < n) × (g i ≤ a) × (a < g (suc i))
crossing g zero a le lt = absurd (omega arith)
crossing g (suc n) a le lt = elim (Bool-cases (ltb a (g n))) [
  | inl past ↦
      let (i, bound, low, high) = crossing g n a le (ground arith) in (i, omega arith, low, high)
  | inr before ↦ (n, omega arith, ground arith, lt)
]

occurs_step :
    (f : ℕ → ℕ) (i d a : ℕ)
    → occurs f i d ≤ a
    → a < occurs f (suc i) d
    → (f i ≡ d) × (occurs f i d ≡ a)
unfolding occurs
occurs_step f i d a low high = elim (Bool-cases (f i == d)) [
  | inl at ↦ (ground arith, omega (arith, rw at at high))
  | inr off ↦ absurd (omega (arith, rw off at high))
]

-- Every place is taken.
pub place_taken :
    (f : ℕ → ℕ) (n d : ℕ)
    → ((i : ℕ) → i < n → f i ≤ d)
    → (a : ℕ) → a < n
    → (i : ℕ) × (i < n) × (place f n i ≡ a)
unfolding place below occurs sum
place_taken f n d bounded a lt =
    let all : below f n (suc d) ≡ n = below_all' f n d bounded in
    let (e, _, low, high) = crossing (below f n) (suc d) a (none f n a) (omega arith) in
    let (i, bound, low', high') =
      crossing (λ j. occurs f j e) n (a - below f n e) (first f e (a - below f n e))
        (omega (arith, below-suc f n e)) in
    let (digit, rank) = occurs_step f i e (a - below f n e) low' high' in
    (i, bound, rw digit (omega (arith, rank)))
  where
    none : (f : ℕ → ℕ) (n a : ℕ) → below f n 0 ≤ a
    none f n a = omega arith

    first : (f : ℕ → ℕ) (e a : ℕ) → occurs f 0 e ≤ a
    first f e a = omega arith

    below_all' : (f : ℕ → ℕ) (n d : ℕ) → ((i : ℕ) → i < n → f i ≤ d) → below f n (suc d) ≡ n
    below_all' f n d bounded = below_all f n (suc d) (λ i lt. omega (arith, bounded i lt))
