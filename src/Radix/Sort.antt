-- ===== src/Radix/Sort.antt =====
-- The whole sort: `main` from the options on.
use computer_architect.Common.{
  ℕ, suc, ◌*◌, ◌/◌, ◌%◌, ◌^◌, ◌<◌, ◌≤◌, ◌≡◌, refl, ap, arith, leb, true, Bool-cases, inl, inr, sym,
  subst, ◌∙◌, some,
}
use computer_architect.Common.Masks.{pow_pos}
use computer_architect.Common.Bits.{pow_mono}
use computer_architect.Common.Runs.{done}
use computer_architect.Radix.{
  max_radix, slave_sort, Options, PrefixTree, Sorting, flip, sort_digits, sort_keys, start_sorting,
  final_keys, test_sort, log_2,
}
use computer_architect.Radix.Digits.{get_max_digits_lem, log_2_lem, pow_product}
use computer_architect.Radix.Accepted.{options_pass}
use computer_architect.Radix.Parts.{cut_lem, share-suc}
use computer_architect.Radix.Sorted.{Ordered, Permuted, Permuted-refl, test_sort_iff}
use native.Mathlib.Nat.{mod-eq_of_lt, mod-one, zero-mul, mul-div_right}
use computer_architect.Radix.Passes.{Reached, sort_digits-final}

first-Reached : (n : ℕ) (key : ℕ → ℕ) → Reached 0 n key key
unfolding Ordered
first-Reached n key =
    (Permuted-refl n key, λ a b lt bound. omega (arith, mod-one (key a), mod-one (key b)))

-- Keys that are no more than the bits count are in order.
OrderedLow-Ordered :
    (low n : ℕ) (first key : ℕ → ℕ)
    → Reached low n first key
    → ((i : ℕ) → i < n → first i < 2 ^ low)
    → Ordered n key
unfolding Ordered Permuted
OrderedLow-Ordered low n first key ((f, f_lt, f_inj, f_taken, f_key), ordered) small a b lt bound =
    let low_key : (c : ℕ) → c < n → key c % 2 ^ low ≡ key c = λ c c_lt.
      let (i, i_lt, e) = f_taken c c_lt in
      mod-eq_of_lt
        (subst (λ z. z < 2 ^ low) (sym (ap key (sym e) ∙ f_key i i_lt)) (small i i_lt)) in
    omega (arith, ordered a b lt bound, low_key a (omega arith), low_key b bound)

module _ (o : Options) (k : ℕ) (part : ℕ → ℕ) (processors : o.number_of_processors ≡ 2 ^ k)
    (shares : (j : ℕ)
      → j ≤ o.number_of_processors
      → part j ≡ j * o.num_keys / o.number_of_processors) where
  parts_follow : (m : ℕ) → m < 2 ^ k → part m ≤ part (suc m)
  parts_follow m lt =
      rw (shares m (omega arith), shares (suc m) (omega arith))
        (share-suc o.num_keys o.number_of_processors m (omega (arith, pow_pos k)))

  part_first : part 0 ≡ 0
  part_first = shares 0 (omega arith) ∙ (rw (zero-mul o.num_keys) (omega arith))

  part_last : part (2 ^ k) ≡ o.num_keys
  part_last =
      subst (λ z. part z ≡ o.num_keys) processors
        (shares o.number_of_processors (omega arith)
          ∙ mul-div_right o.num_keys (omega (arith, pow_pos k)))

-- A radix that the arrays of a node hold has a small exponent.
radix_exponent : (r : ℕ) → 2 ^ r ≤ 4096 → r ≤ 50
radix_exponent r le = elim (Bool-cases (leb r 50)) [
  | inl small ↦ ground arith
  | inr large ↦ absurd (omega (arith, pow_mono 13 r (ground arith)))
]

-- For a number of processes 2^k up to 64, a radix 2^r of at least 2 and at most MAX_RADIX, at
-- least one key, a greatest key of at least 1 with every key at most that, and more rounds than
-- the greatest key and than processes, the radix sort ends, `test_sort` finds no mistake in the
-- final array, and this array is the input in another order, each key at a place of its own and
-- every place taken.
pub sort_keys_lem :
    (fuel k r : ℕ) (o : Options) (key : ℕ → ℕ → ℕ) (t : PrefixTree)
    → o.number_of_processors ≡ 2 ^ k
    → o.radix ≡ 2 ^ r
    → k ≤ 6
    → 1 ≤ r
    → o.radix ≤ max_radix
    → 0 < o.num_keys
    → 0 < o.max_key
    → o.max_key < fuel
    → o.number_of_processors < fuel
    → ((i : ℕ) → i < o.num_keys → key 0 i ≤ o.max_key)
    → (s : Sorting) × (sort_keys fuel o key t ≡ done s)
      × (test_sort (final_keys s) o.num_keys ≡ 0)
      × Permuted o.num_keys (key 0) (final_keys s)
unfolding sort_keys slave_sort start_sorting flip
sort_keys_lem fuel k r o key t processors power few big inside keys top rounds rounds' bound =
    let short : r ≤ 50 = radix_exponent r (omega (arith, power)) in
    let rows : leb o.radix 4096 ≡ true = ground arith in
    let passes = options_pass o k r processors power few short keys top in
    let some_process : 0 < o.number_of_processors = omega (arith, processors, pow_pos k) in
    let exponent : log_2 o.radix ≡ some r = (log_2_lem o.radix r).1 (power, short) in
    let (e, digits, low, high) =
      get_max_digits_lem fuel o.radix o.max_key (omega (arith, power, pow_mono 1 r big)) top
        rounds in
    let (part, parts, shares) =
      cut_lem fuel o.num_keys o.number_of_processors keys some_process rounds' in
    let start = start_sorting key t in
    let s = sort_digits o r (suc e) part start (suc e) in
    let reached =
      sort_digits-final k r (suc e) o part (key 0) processors power
        (parts_follow o k part processors shares) (part_first o k part processors shares)
        (part_last o k part processors shares) start e refl (refl, refl)
        (first-Reached o.num_keys (key 0)) in
    let small : o.max_key < 2 ^ (suc e * r) =
      subst (λ z. o.max_key < z) (ap (λ z. z ^ suc e) power ∙ pow_product 2 r (suc e)) high in
    let ordered =
      OrderedLow-Ordered (suc e * r) o.num_keys (key 0) (final_keys s) reached
        (λ i lt. omega (arith, bound i lt, small)) in
    (
      s,
      rw (passes, digits, parts, exponent, rows) refl,
      (test_sort_iff (final_keys s) o.num_keys).1 ordered,
      reached.0,
    )
