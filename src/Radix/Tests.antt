-- ===== src/Radix/Tests.antt =====
-- Runs of the radix sort on a few keys, and the theorems about it at concrete inputs.
use computer_architect.Common.{
  ℕ, zero, suc, ◌+◌, ◌*◌, ◌/◌, ◌<◌, ◌≤◌, List, [], ◌∷◌, refl, ◌≡◌, arith,
}
use computer_architect.Common.Runs.{Run, done, spent, ◌>>=◌}
use computer_architect.Radix.{
  Options, PrefixTree, Sorting, sort_keys, final_keys, test_sort, up_sweep, down_sweep, max_radix,
  counting_pass, digit_of, cut,
}
use computer_architect.Radix.Accepted.{sort_keys_one, options_pass}
use computer_architect.Radix.Parts.{cut_lem}
use computer_architect.Radix.Pass.{Placed, digits_of, counting_pass-Placed}
use computer_architect.Radix.Sort.{sort_keys_lem}
use computer_architect.Radix.Sorted.{Permuted}
use computer_architect.Radix.Tree.Down.{down_sweep-up_sweep}
use computer_architect.Radix.Sums.{sum}
use computer_architect.Radix.Digits.{digit_of-lt}

abbrev empty_tree : PrefixTree
empty_tree = record { densities = λ node i. 0; ranks = λ node i. 0 }

abbrev few : Options
few = record { number_of_processors = 2; radix = 4; num_keys = 5; max_key = 30 }

abbrev item : List ℕ → ℕ → ℕ
item [] i = 0
item (x ∷ xs) zero = x
item (x ∷ xs) (suc i) = item xs i

abbrev few_keys : ℕ → ℕ → ℕ
few_keys side = item (27 ∷ 3 ∷ 14 ∷ 3 ∷ 30 ∷ [])

abbrev first : ℕ → (ℕ → ℕ) → List ℕ
first zero f = []
first (suc n) f = f 0 ∷ first n (λ i. f (suc i))

abbrev sorted_few : Run (List ℕ)
sorted_few = sort_keys 40 few few_keys empty_tree >>= λ s. done (first 5 (final_keys s))

abbrev four : Options
four = record { number_of_processors = 4; radix = 2; num_keys = 9; max_key = 30 }

abbrev four_keys : ℕ → ℕ → ℕ
four_keys side = item (27 ∷ 3 ∷ 14 ∷ 3 ∷ 30 ∷ 0 ∷ 29 ∷ 7 ∷ 2 ∷ [])

abbrev sorted_four : Run (List ℕ)
sorted_four = sort_keys 40 four four_keys empty_tree >>= λ s. done (first 9 (final_keys s))

few_bound : (i : ℕ) → i < 5 → few_keys 0 i ≤ 30
few_bound zero lt = omega arith
few_bound (suc zero) lt = omega arith
few_bound (suc (suc zero)) lt = omega arith
few_bound (suc (suc (suc zero))) lt = omega arith
few_bound (suc (suc (suc (suc zero)))) lt = omega arith
few_bound (suc (suc (suc (suc (suc i))))) lt = absurd (omega arith)

sort_keys_lem_example :
    (s : Sorting) × (sort_keys 40 few few_keys empty_tree ≡ done s)
    × (test_sort (final_keys s) 5 ≡ 0)
    × Permuted 5 (few_keys 0) (final_keys s)
sort_keys_lem_example =
    sort_keys_lem 40 1 2 few few_keys empty_tree refl refl (omega arith) (omega arith) (omega arith)
      (omega arith) (omega arith) (omega arith) (omega arith) few_bound

down_sweep-up_sweep_example :
    (down_sweep 4 (up_sweep 4 four_keys empty_tree 4) 4).1 3 2
    ≡ sum 3 (λ p. four_keys p 2) + sum 2 (λ e. sum 4 (λ p. four_keys p e))
down_sweep-up_sweep_example =
    down_sweep-up_sweep 2 3 2 empty_tree four_keys (omega arith) (omega arith)

abbrev halves : ℕ → ℕ
halves = item (0 ∷ 2 ∷ 5 ∷ [])

halves_order : (m : ℕ) → m < 2 → halves m ≤ halves (suc m)
halves_order zero lt = omega arith
halves_order (suc zero) lt = omega arith
halves_order (suc (suc m)) lt = absurd (omega arith)

few_digits : (i : ℕ) → i < 5 → digit_of 4 2 (few_keys 0 i) < max_radix
few_digits i lt = omega (arith, digit_of-lt 2 2 (few_keys 0 i))

counting_pass-Placed_example :
    Placed
      (digits_of (digit_of 4 2) (few_keys 0))
      5
      5
      (few_keys 0)
      (counting_pass 2 (digit_of 4 2) halves (few_keys 0) (few_keys 1) empty_tree).1
counting_pass-Placed_example =
    counting_pass-Placed 1 (digit_of 4 2) (few_keys 0) (few_keys 1) halves 5 empty_tree halves_order
      refl refl few_digits

cut_lem_example :
    (part : ℕ → ℕ) × (cut 9 5 2 (λ p. 0) 0 0 0 ≡ done part) × ((j : ℕ) → j ≤ 2 → part j ≡ j * 5 / 2)
cut_lem_example = cut_lem 9 5 2 (omega arith) (omega arith) (omega arith)

abbrev ones : Options
ones = record { number_of_processors = 2; radix = 1; num_keys = 5; max_key = 30 }

sort_keys_one_example : sort_keys 1000 ones few_keys empty_tree ≡ spent
sort_keys_one_example =
    sort_keys_one 1000 ones few_keys empty_tree
      (options_pass ones 1 0 refl refl (omega arith) (omega arith) (omega arith) (omega arith)) refl
