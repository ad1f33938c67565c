-- ===== src/Radix/Pass.antt =====
-- One pass of the sort: the histograms, the prefix tree, and the permutation of the keys.
use computer_architect.Common.{
  ℕ, zero, suc, ◌+◌, ◌-◌, ◌^◌, ◌<◌, ◌≤◌, ◌≡◌, refl, ap, arith, sym, subst, ◌∙◌, ◌==◌, Bool-cases,
  inl, inr, true, false,
}
use computer_architect.Radix.{
  store, max_radix, PrefixTree, rank_keys, rank_parts, key_density, add_densities, up_sweep,
  down_sweep, permute, permute_parts, counting_pass,
}
use computer_architect.Radix.Sums.{sum, key_density_ext, key_density-sum}
use computer_architect.Radix.Places.{occurs, below, place, place_def, place_distinct}
use computer_architect.Radix.Tree.Down.{totals, down_sweep-add_densities}

-- The digits of the keys.
abbrev pub digits_of : (ℕ → ℕ) → (ℕ → ℕ) → ℕ → ℕ
digits_of digit key i = digit (key i)

rank_keys_lem :
    (digit key : ℕ → ℕ) (start n d : ℕ)
    → occurs (digits_of digit key) start d + rank_keys digit key start n d
      ≡ occurs (digits_of digit key) (start + n) d
unfolding rank_keys occurs
rank_keys_lem digit key start zero d = let e : start + 0 ≡ start = omega arith in rw e (omega arith)
rank_keys_lem digit key start (suc n) d =
    let e : start + suc n ≡ suc (start + n) = omega arith in
    rw e (elim (Bool-cases (d == digit (key (start + n)))) [
      | inl at ↦
          let same : d ≡ digit (key (start + n)) = ground arith in
          let at' : (digit (key (start + n)) == d) ≡ true = ground arith in
          rw (at, at') (rw⁻¹ same (omega (arith, rank_keys_lem digit key start n d)))
      | inr off ↦
          let off' : (digit (key (start + n)) == d) ≡ false = ground arith in
          rw (off, off') (rank_keys_lem digit key start n d)
    ])

-- What a pass leaves: every key in its place.
unfoldable pub Placed : (f : ℕ → ℕ) → (n i : ℕ) → (key_from key_to : ℕ → ℕ) → Type 0
Placed f n i key_from key_to = (j : ℕ) → j < i → key_to (place f n j) ≡ key_from j

Placed-none : (f : ℕ → ℕ) (n : ℕ) (key_from key_to : ℕ → ℕ) → Placed f n 0 key_from key_to
unfolding Placed
Placed-none f n key_from key_to j lt = absurd (omega arith)

-- The next free place of each digit after the first `i` keys.
abbrev pub Next : (f : ℕ → ℕ) → (n i : ℕ) → (rank_ff : ℕ → ℕ) → Type 0
Next f n i rank_ff = (d : ℕ) → rank_ff d ≡ below f n d + occurs f i d

module _ (digit key_from : ℕ → ℕ) (n : ℕ) where
  permute_step :
      (i : ℕ) (to ff : ℕ → ℕ)
      → i < n
      → Placed (digits_of digit key_from) n i key_from to
      → Next (digits_of digit key_from) n i ff
      → (Placed
          (digits_of digit key_from)
          n
          (suc i)
          key_from
          (store to (ff (digit (key_from i))) (key_from i)))
        × Next
            (digits_of digit key_from)
            n
            (suc i)
            (store ff (digit (key_from i)) (ff (digit (key_from i)) + 1))
  unfolding Placed occurs
  permute_step i to ff lt placed next =
      let f = digits_of digit key_from in
      let e : ff (f i) ≡ place f n i = next (f i) ∙ sym (place_def f n i) in
      (
        λ j bound. elim (Bool-cases (j == i)) [
          | inl at ↦
              let now : j ≡ i = ground arith in
              let same : (place f n i == place f n i) ≡ true = ground arith in
              rw (e, now, same) refl
          | inr off ↦ rw (e, place_distinct f n j i (ground arith) lt) (placed j (ground arith))
        ],
        λ d. elim (Bool-cases (d == f i)) [
          | inl at ↦
              let now : d ≡ f i = ground arith in
              let at' : (f i == d) ≡ true = ground arith in
              rw (at, at') (rw now (omega (arith, next (f i))))
          | inr off ↦ let off' : (f i == d) ≡ false = ground arith in rw (off, off') (next d)
        ],
      )

  permute-Placed :
      (start m : ℕ) (to ff : ℕ → ℕ)
      → start + m ≤ n
      → Placed (digits_of digit key_from) n start key_from to
      → Next (digits_of digit key_from) n start ff
      → (Placed
          (digits_of digit key_from)
          n
          (start + m)
          key_from
          (permute digit key_from start to ff m).0)
        × Next (digits_of digit key_from) n (start + m) (permute digit key_from start to ff m).1
  unfolding permute
  permute-Placed start zero to ff le placed next =
      let e : start + 0 ≡ start = omega arith in rw e (placed, next)
  permute-Placed start (suc m) to ff le placed next =
      let e : start + suc m ≡ suc (start + m) = omega arith in
      let (placed', next') = permute-Placed start m to ff (omega arith) placed next in
      rw e (permute_step (start + m) _ _ (omega arith) placed' next')

module _ (digit key_from part : ℕ → ℕ) (n number : ℕ)
    (parted : (m : ℕ) → m < number → part m ≤ part (suc m)) (first : part 0 ≡ 0)
    (last : part number ≡ n) where
  part_mono : (m l : ℕ) → m ≤ l → l ≤ number → part m ≤ part l
  part_mono m zero le le' = let e : m ≡ 0 = omega arith in rw e (omega arith)
  part_mono m (suc l) le le' = elim (Bool-cases (m == suc l)) [
    | inl now ↦ let e : m ≡ suc l = ground arith in rw e (omega arith)
    | inr before ↦ omega (arith, part_mono m l (ground arith) (omega arith), parted l (omega arith))
  ]

  -- The histograms of the processes before one count the keys before its part.
  totals-rank_parts :
      (m d : ℕ)
      → m ≤ number
      → totals m (rank_parts digit key_from part) d ≡ occurs (digits_of digit key_from) (part m) d
  unfolding sum occurs rank_parts
  totals-rank_parts zero d le = rw first refl
  totals-rank_parts (suc m) d le =
      let split : part m + (part (suc m) - part m) ≡ part (suc m) =
        omega (arith, parted m (omega arith)) in
      omega (
        arith,
        totals-rank_parts m d (omega arith),
        rank_keys_lem digit key_from (part m) (part (suc m) - part m) d,
        ap (λ z. occurs (digits_of digit key_from) z d) split,
      )

  -- What a process has after both ways are the places of its first keys.
  add_densities-Next :
      (m : ℕ)
      → m < number
      → Next (digits_of digit key_from) n (part m) (
          add_densities
            (totals m (rank_parts digit key_from part))
            (key_density (totals number (rank_parts digit key_from part))))
  unfolding add_densities below sum
  add_densities-Next m lt zero = omega (arith, totals-rank_parts m 0 (omega arith))
  add_densities-Next m lt (suc d) =
      let e : key_density (totals number (rank_parts digit key_from part)) d
          ≡ key_density (occurs (digits_of digit key_from) n) d =
        key_density_ext _ _ d (λ i le.
          totals-rank_parts number i (omega arith)
          ∙ ap (λ z. occurs (digits_of digit key_from) z i) last) in
      omega (
        arith,
        e,
        key_density-sum (occurs (digits_of digit key_from) n) d,
        totals-rank_parts m (suc d) (omega arith),
      )

  permute_parts-Placed :
      (to : ℕ → ℕ) (ff : ℕ → ℕ → ℕ) (m : ℕ)
      → m ≤ number
      → ((l : ℕ) → l < number → Next (digits_of digit key_from) n (part l) (ff l))
      → Placed
          (digits_of digit key_from)
          n
          (part m)
          key_from
          (permute_parts digit part key_from ff to m)
  unfolding permute_parts
  permute_parts-Placed to ff zero le next =
      rw first (Placed-none (digits_of digit key_from) n key_from to)
  permute_parts-Placed to ff (suc m) le next =
      let split : part m + (part (suc m) - part m) ≡ part (suc m) =
        omega (arith, parted m (omega arith)) in
      let bound = part_mono (suc m) number (omega arith) (omega arith) in
      let rest = permute_parts-Placed to ff m (omega arith) next in
      subst
        (λ z.
          Placed (digits_of digit key_from) n z key_from
            (permute digit key_from (part m) (permute_parts digit part key_from ff to m) (ff m)
              (part (suc m) - part m)).0)
        split
        (permute-Placed digit key_from n (part m) (part (suc m) - part m) _ (ff m)
          (omega (arith, bound, split, last)) rest (next m (omega arith))).0

-- The keys after a pass of any digits.
pub counting_pass_places :
    (k : ℕ) (digit key_from key_to part : ℕ → ℕ) (n : ℕ) (t : PrefixTree)
    → ((m : ℕ) → m < 2 ^ k → part m ≤ part (suc m))
    → part 0 ≡ 0
    → part (2 ^ k) ≡ n
    → Placed
        (digits_of digit key_from)
        n
        n
        key_from
        (counting_pass (2 ^ k) digit part key_from key_to t).1
unfolding counting_pass
counting_pass_places k digit key_from key_to part n t parted first last =
    let rank_me = rank_parts digit key_from part in
    let ff = (down_sweep (2 ^ k) (up_sweep (2 ^ k) rank_me t (2 ^ k)) (2 ^ k)).1 in
    let next : (m : ℕ) → m < 2 ^ k → Next (digits_of digit key_from) n (part m) (ff m) = λ m lt d.
      down_sweep-add_densities k m d t rank_me lt
      ∙ add_densities-Next digit key_from part n (2 ^ k) parted first last m lt d in
    subst
      (λ z.
        Placed (digits_of digit key_from) n z key_from
          (permute_parts digit part key_from ff key_to (2 ^ k)))
      last
      (permute_parts-Placed digit key_from part n (2 ^ k) parted first last key_to ff (2 ^ k)
        (omega arith) next)

-- For 2^k processes, parts of the keys that follow each other from 0 to n, and keys whose digits
-- are below MAX_RADIX, one pass puts each key at the number of keys with a smaller digit and of
-- the keys before it with the same digit, whatever the former array and the former tree are.
pub counting_pass-Placed :
    (k : ℕ) (digit key_from key_to part : ℕ → ℕ) (n : ℕ) (t : PrefixTree)
    → ((m : ℕ) → m < 2 ^ k → part m ≤ part (suc m))
    → part 0 ≡ 0
    → part (2 ^ k) ≡ n
    → ((i : ℕ) → i < n → digit (key_from i) < max_radix)
    → Placed
        (digits_of digit key_from)
        n
        n
        key_from
        (counting_pass (2 ^ k) digit part key_from key_to t).1
counting_pass-Placed k digit key_from key_to part n t parted first last inside =
    counting_pass_places k digit key_from key_to part n t parted first last
