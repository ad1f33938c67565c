-- ===== src/Radix/Sorted.antt =====
-- The order of the keys, pass by pass, and that they are the first keys in another order.
use computer_architect.Common.{
  ℕ, zero, suc, ◌+◌, ◌-◌, ◌*◌, ◌/◌, ◌%◌, ◌^◌, ◌<◌, ◌≤◌, ◌≡◌, refl, ap, arith, sym, subst, ◌∙◌, ◌==◌,
  ◌↔◌, ltb, false, Bool-cases, inl, inr,
}
use computer_architect.Common.Masks.{pow_pos}
use computer_architect.Radix.{digit_of, mistakes, test_sort}
use computer_architect.Radix.Digits.{digit_of_lem, digit_of-lt, mod_split}
use computer_architect.Radix.Pass.{Placed, digits_of}
use computer_architect.Radix.Places.{place, place_order, place_distinct, place_bound, place_taken}
use native.Mathlib.Nat.{mul-le-mul_right, add-mul, mod-lt}

-- The first `n` keys are in order.
unfoldable pub Ordered : (n : ℕ) → (key : ℕ → ℕ) → Type 0
Ordered n key = (a b : ℕ) → a < b → b < n → key a ≤ key b

-- The `n` keys stand in another order: each at a place of its own, and every place is taken.
unfoldable pub Permuted : (n : ℕ) → (key key' : ℕ → ℕ) → Type 0
Permuted n key key' =
    (place_of : ℕ → ℕ) × ((i : ℕ) → i < n → place_of i < n)
    × ((i j : ℕ) → i < n → j < n → place_of i ≡ place_of j → i ≡ j)
    × ((a : ℕ) → a < n → (i : ℕ) × (i < n) × (place_of i ≡ a))
    × ((i : ℕ) → i < n → key' (place_of i) ≡ key i)

pub Permuted-refl : (n : ℕ) (key : ℕ → ℕ) → Permuted n key key
unfolding Permuted
Permuted-refl n key = (λ i. i, λ i lt. lt, λ i j lt lt' e. e, λ a lt. (a, lt, refl), λ i lt. refl)

pub Permuted-trans :
    (n : ℕ) (key key' key'' : ℕ → ℕ)
    → Permuted n key key'
    → Permuted n key' key''
    → Permuted n key key''
unfolding Permuted
Permuted-trans n key key' key'' (f, f_lt, f_inj, f_taken, f_key) (g, g_lt, g_inj, g_taken, g_key) =
    (
      λ i. g (f i),
      λ i lt. g_lt (f i) (f_lt i lt),
      λ i j lt lt' e. f_inj i j lt lt' (g_inj (f i) (f j) (f_lt i lt) (f_lt j lt') e),
      λ a lt.
          let (j, j_lt, g_j) = g_taken a lt in
          let (i, i_lt, f_i) = f_taken j j_lt in (i, i_lt, ap g f_i ∙ g_j),
      λ i lt. g_key (f i) (f_lt i lt) ∙ f_key i lt,
    )

place_inj : (f : ℕ → ℕ) (n i j : ℕ) → i < n → j < n → place f n i ≡ place f n j → i ≡ j
place_inj f n i j lt lt' e = elim (Bool-cases (ltb i j)) [
  | inl before ↦ absurd (ground (arith, place_distinct f n i j (ground arith) lt'))
  | inr after ↦ elim (Bool-cases (i == j)) [
    | inl at ↦ ground arith
    | inr off ↦ absurd (ground (arith, place_distinct f n j i (ground arith) lt))
  ]
]

-- The keys below a power of two in order.
abbrev pub OrderedLow : (o n : ℕ) → (key : ℕ → ℕ) → Type 0
OrderedLow o n key = Ordered n (λ i. key i % 2 ^ o)

module _ (r o n : ℕ) (from to : ℕ → ℕ)
    (placed : Placed (digits_of (digit_of (2 ^ r) o) from) n n from to) where
  bounded : (i : ℕ) → i < n → digit_of (2 ^ r) o (from i) ≤ 2 ^ r - 1
  bounded i lt = omega (arith, digit_of-lt r o (from i))

  pub Placed-Permuted : Permuted n from to
  unfolding Permuted Placed
  Placed-Permuted = (
    place (digits_of (digit_of (2 ^ r) o) from) n,
    place_bound _ n (2 ^ r - 1) bounded,
    place_inj _ n,
    place_taken _ n (2 ^ r - 1) bounded,
    placed,
  )

  -- Two keys whose places follow each other are in order up to this digit.
  digit_order :
      (i j : ℕ)
      → i < n
      → j < n
      → place (digits_of (digit_of (2 ^ r) o) from) n i
        < place (digits_of (digit_of (2 ^ r) o) from) n j
      → OrderedLow o n from
      → from i % 2 ^ (o + r) ≤ from j % 2 ^ (o + r)
  unfolding Ordered
  digit_order i j lt lt' less ordered =
      let w = 2 ^ o in
      let split = λ (v : ℕ). mod_split o r v in
      let digit = λ (v : ℕ). digit_of_lem r o v in
      elim (place_order (digits_of (digit_of (2 ^ r) o) from) n i j lt' less) [
        | inl smaller ↦
            let a = from i / w % 2 ^ r in
            let b = from j / w % 2 ^ r in
            let a_b : a + 1 ≤ b = omega (arith, digit (from i), digit (from j)) in
            omega (
              arith,
              split (from i),
              split (from j),
              mul-le-mul_right {m = a + 1} {n = b} w a_b,
              add-mul a 1 w,
              mod-lt (from i) (pow_pos o),
            )
        | inr (same, before) ↦
            let e : from i / w % 2 ^ r ≡ from j / w % 2 ^ r =
              sym (digit (from i)) ∙ same ∙ digit (from j) in
            omega (arith, split (from i), split (from j), ap (λ z. z * w) e, ordered i j before lt')
      ]

  pub Placed-OrderedLow : OrderedLow o n from → OrderedLow (o + r) n to
  unfolding Ordered Placed
  Placed-OrderedLow ordered a b lt bound =
      let f = digits_of (digit_of (2 ^ r) o) from in
      let (i, i_lt, i_a) = place_taken f n (2 ^ r - 1) bounded a (omega arith) in
      let (j, j_lt, j_b) = place_taken f n (2 ^ r - 1) bounded b bound in
      let step = digit_order i j i_lt j_lt (rw (i_a, j_b) lt) ordered in
      subst (λ z. to z.0 % 2 ^ (o + r) ≤ to z.1 % 2 ^ (o + r)) (pair_path i_a j_b)
        (rw (placed i i_lt, placed j j_lt) step)
    where
      pair_path : {a b c d : ℕ} → a ≡ b → c ≡ d → ◌≡◌ {A = ℕ × ℕ} (a, c) (b, d)
      pair_path e e' = rw (e, e') refl

mistakes_none : (key : ℕ → ℕ) (n : ℕ) → mistakes key n ≡ 0 → (a : ℕ) → a < n → key a ≤ key (suc a)
unfolding mistakes
mistakes_none key zero none a lt = absurd (omega arith)
mistakes_none key (suc n) none a lt = elim (Bool-cases (ltb (key (suc n)) (key n))) [
  | inl wrong ↦ let clash = rw wrong at none in absurd (omega (arith, clash))
  | inr right ↦ elim (Bool-cases (a == n)) [
    | inl at ↦ let e : a ≡ n = ground arith in rw e (ground arith)
    | inr off ↦ mistakes_none key n (rw right at none) a (ground arith)
  ]
]

none-mistakes : (key : ℕ → ℕ) (n : ℕ) → ((a : ℕ) → a < n → key a ≤ key (suc a)) → mistakes key n ≡ 0
unfolding mistakes
none-mistakes key zero h = refl
none-mistakes key (suc n) h =
    let right : ltb (key (suc n)) (key n) ≡ false = ground (arith, h n (omega arith)) in
    rw right (none-mistakes key n (λ a lt. h a (omega arith)))

-- Neighbours in order are all in order.
steps-Ordered :
    (key : ℕ → ℕ) (n : ℕ)
    → ((a : ℕ) → a < n - 1 → key a ≤ key (suc a))
    → (a b : ℕ) → a < b
    → b < n
    → key a ≤ key b
steps-Ordered key n h a zero lt bound = absurd (omega arith)
steps-Ordered key n h a (suc b) lt bound = elim (Bool-cases (a == b)) [
  | inl at ↦ let e : a ≡ b = ground arith in rw e (h b (omega arith))
  | inr off ↦
      omega (arith, steps-Ordered key n h a b (ground arith) (omega arith), h b (omega arith))
]

-- test_sort finds no mistake exactly when all keys are in order.
pub test_sort_iff : (key : ℕ → ℕ) (n : ℕ) → (test_sort key n ≡ 0) ↔ Ordered n key
unfolding test_sort Ordered
test_sort_iff key n = (
  λ none. steps-Ordered key n (mistakes_none key (n - 1) none),
  λ ordered. none-mistakes key (n - 1) (λ a lt. ordered a (suc a) (omega arith) (omega arith)),
)
