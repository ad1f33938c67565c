-- ===== src/Radix.antt =====
-- src/splash2/codes/kernels/radix/radix.C: the parallel radix sort. Keys and counts are natural
-- numbers. An array is a function of its index; what lies past its end is never read. Processes run
-- one after the other between two barriers, up the prefix tree from the first process and down from
-- the last one, an order that every pause of the source allows.
pub mod Sums
pub mod Places
pub mod Pass
pub mod Digits
pub mod Parts
pub mod Sorted
pub mod Passes
pub mod Sort
pub mod Accepted
pub mod Tree
mod Tests
use computer_architect.Common.{
  ℕ, zero, suc, ◌+◌, ◌-◌, ◌*◌, ◌/◌, ◌%◌, ◌^◌, Bool, bit_and, Option, none, some, ◌==◌, ltb,
  if◌then◌else◌, leb, true, false,
}
use computer_architect.Common.Runs.{
  Run, done, spent, ◌>>=◌, ◌>>◌, unless, too_few_processors, too_many_processors, bad_radix,
  too_few_keys, bad_max_key, past_end,
}

abbrev pub is_some {ℓ} : {A : Type ℓ} → Option A → Bool
is_some none = false
is_some (some a) = true

-- `a[k] = v`
abbrev pub store {ℓ} : {A : Type ℓ} → (ℕ → A) → ℕ → A → ℕ → A
store f k v i = if i == k then v else f i

-- `a[k][i] = row[i]` for all i.
abbrev pub store_row : (ℕ → ℕ → ℕ) → ℕ → (ℕ → ℕ) → ℕ → ℕ → ℕ
store_row f k row node i = if node == k then row i else f node i

-- The options of `main`.
pub record Options : Type 0 where
  pub number_of_processors : ℕ
  pub radix : ℕ
  pub num_keys : ℕ
  pub max_key : ℕ

abbrev pub max_radix : ℕ
max_radix = 4096

-- `prefix_tree`: the arrays of each node, which have max_radix entries.
pub record PrefixTree : Type 0 where
  pub densities : ℕ → ℕ → ℕ
  pub ranks : ℕ → ℕ → ℕ

pub record Sorting : Type 0 where
  pub key : ℕ → ℕ → ℕ
  pub from : ℕ
  pub to : ℕ
  pub prefix_tree : PrefixTree

-- The loop of `log_2`, which ends after 50 rounds.
unfoldable pub double_up : ℕ → ℕ → ℕ → ℕ → ℕ × ℕ
double_up zero number cumulative out = (cumulative, out)
double_up (suc left) number cumulative out =
    let rest = double_up left number (cumulative * 2) (out + 1) in
    if ltb cumulative number then rest else (cumulative, out)

-- `none` is the result -1.
unfoldable pub log_2 : ℕ → Option ℕ
log_2 number =
    let (cumulative, out) = double_up 50 number 1 0 in
    if cumulative == number then some out else none

unfoldable pub count_digits : ℕ → ℕ → ℕ → ℕ → Run ℕ
count_digits zero radix key_val temp = spent
count_digits (suc left) radix key_val temp =
    let rest = count_digits left radix (key_val / radix) (temp + 1) in
    if key_val / radix == 0 then done temp else rest

unfoldable pub get_max_digits : ℕ → ℕ → ℕ → Run ℕ
get_max_digits fuel radix max_key = count_digits fuel radix max_key 1

-- The loop that cuts `total` things into one part per process.
unfoldable pub cut :
    (fuel total number_of_processors : ℕ) → (partition : ℕ → ℕ) → (p sum_i sum_f : ℕ) → Run (ℕ → ℕ)
cut zero total number partition p sum_i sum_f = spent
cut (suc left) total number partition p sum_i sum_f =
    let f = sum_f + total % number in
    let rest =
      cut left total number (store partition p sum_i) (p + 1) (sum_i + total / number + f / number)
        (f % number) in
    if ltb sum_i total then rest else done (store partition p total)

-- `(key & bb) >> shiftnum`, `bb = (radix - 1) << shiftnum`.
unfoldable pub digit_of : ℕ → ℕ → ℕ → ℕ
digit_of radix shiftnum key = bit_and key ((radix - 1) * 2 ^ shiftnum) / 2 ^ shiftnum

-- The histogram of the digits of `n` keys from key_start on.
unfoldable pub rank_keys : (digit : ℕ → ℕ) → (key_from : ℕ → ℕ) → (key_start n : ℕ) → ℕ → ℕ
rank_keys digit key_from start zero = λ i. 0
rank_keys digit key_from start (suc n) =
    let rank_me = rank_keys digit key_from start n in
    let my_key = digit (key_from (start + n)) in store rank_me my_key (rank_me my_key + 1)

-- The histograms of all processes.
unfoldable pub rank_parts :
    (digit : ℕ → ℕ) → (key_from : ℕ → ℕ) → (key_partition : ℕ → ℕ) → ℕ → ℕ → ℕ
rank_parts digit key_from part m = rank_keys digit key_from (part m) (part (suc m) - part m)

unfoldable pub key_density : (ℕ → ℕ) → ℕ → ℕ
key_density rank_me zero = rank_me 0
key_density rank_me (suc i) = key_density rank_me i + rank_me (suc i)

unfoldable pub put_leaf : PrefixTree → ℕ → (ℕ → ℕ) → PrefixTree
put_leaf t my_num rank_me = record t {
  densities = store_row t.densities my_num (key_density rank_me);
  ranks = store_row t.ranks my_num rank_me;
}

-- The sums of a node and of its left neighbour go to node `index`; the last node of a level keeps no
-- ranks.
unfoldable pub add_up : PrefixTree → (n index : ℕ) → (last : Bool) → PrefixTree
add_up t n index last = record t {
  densities = store_row t.densities index (λ i. t.densities n i + t.densities (n - 1) i);
  ranks =
      (if last then t.ranks else store_row t.ranks index (λ i. t.ranks n i + t.ranks (n - 1) i));
}

-- `while ((offset & 0x1) != 0)` up the tree. The rounds that are left are no fewer than the offset,
-- so none are left only when the offset is 0.
unfoldable pub climb : ℕ → PrefixTree → (n offset level base : ℕ) → PrefixTree
climb zero t n offset level base = t
climb (suc left) t n offset level base =
    let index = base + offset / 2 in
    let rest =
      climb left (add_up t n index (offset / 2 == level - 1)) index (offset / 2) (level / 2)
        (base + level) in
    if offset % 2 == 1 then rest else t

-- The first `n` processes store their leaf and climb.
unfoldable pub up_sweep : (number_of_processors : ℕ) → (ℕ → ℕ → ℕ) → PrefixTree → ℕ → PrefixTree
up_sweep number rank_me t zero = t
up_sweep number rank_me t (suc my_num) =
    let u = put_leaf (up_sweep number rank_me t my_num) my_num (rank_me my_num) in
    climb my_num u my_num my_num (number / 2) number

-- `while ((offset & 0x1) != 0)` that only moves up: the offset, the level and the base.
unfoldable pub skip : ℕ → (offset level base : ℕ) → ℕ × ℕ × ℕ
skip zero offset level base = (offset, level, base)
skip (suc left) offset level base =
    let rest = skip left (offset / 2) (level / 2) (base + level) in
    if offset % 2 == 1 then rest else (offset, level, base)

unfoldable pub my_node : (number_of_processors my_num : ℕ) → ℕ
my_node number my_num =
    let (offset, level, base) = skip my_num my_num number 0 in
    if my_num == number - 1 then 2 * number - 2 else base + offset

unfoldable pub their_node : (number_of_processors my_num : ℕ) → ℕ
their_node number my_num =
    let (offset, level, base) = skip my_num my_num number 0 in
    let (offset', level', base') = skip my_num (offset / 2) (level / 2) (base + level) in
    base' + offset'

unfoldable pub copy_down : (number_of_processors : ℕ) → PrefixTree → (my_num : ℕ) → PrefixTree
copy_down number t my_num = if my_num == number - 1 then t else record t {
  densities =
      store_row t.densities (my_node number my_num) (t.densities (their_node number my_num));
}

-- `while (offset != 0)`: the ranks of the nodes to the left.
unfoldable pub add_ranks : ℕ → PrefixTree → (rank_ff : ℕ → ℕ) → (offset level base : ℕ) → ℕ → ℕ
add_ranks zero t rank_ff offset level base = rank_ff
add_ranks (suc left) t rank_ff offset level base =
    let added =
      if offset % 2 == 1 then (λ i. rank_ff i + t.ranks (base + offset - 1) i) else rank_ff in
    let rest = add_ranks left t added (offset / 2) (level / 2) (base + level) in
    if offset == 0 then rank_ff else rest

-- `for (i = 1; i < radix; i++) rank_ff_mynum[i] += my_node->densities[i - 1];`
unfoldable pub add_densities : (rank_ff densities : ℕ → ℕ) → ℕ → ℕ
add_densities rank_ff densities zero = rank_ff 0
add_densities rank_ff densities (suc i) = rank_ff (suc i) + densities i

unfoldable pub rank_first : (number_of_processors : ℕ) → PrefixTree → (my_num : ℕ) → ℕ → ℕ
rank_first number t my_num =
    add_densities (add_ranks my_num t (λ i. 0) my_num number 0)
      (t.densities (my_node number my_num))

-- The last `n` processes go down the tree and work out their ranks.
unfoldable pub down_sweep : (number_of_processors : ℕ) → PrefixTree → ℕ → PrefixTree × (ℕ → ℕ → ℕ)
down_sweep number t zero = (t, λ m i. 0)
down_sweep number t (suc n) =
    let (u, rank_ff) = down_sweep number t n in
    let my_num = number - suc n in
    let v = copy_down number u my_num in (v, store_row rank_ff my_num (rank_first number v my_num))

-- A process puts its first `n` keys in order.
unfoldable pub permute :
    (digit : ℕ → ℕ)
    → (key_from : ℕ → ℕ) → (key_start : ℕ) → (key_to rank_ff : ℕ → ℕ) → (n : ℕ) → (ℕ → ℕ) × (ℕ → ℕ)
permute digit key_from start key_to rank_ff zero = (key_to, rank_ff)
permute digit key_from start key_to rank_ff (suc n) =
    let (to, ff) = permute digit key_from start key_to rank_ff n in
    let this_key = digit (key_from (start + n)) in
    (store to (ff this_key) (key_from (start + n)), store ff this_key (ff this_key + 1))

-- The first `n` processes put their keys in order.
unfoldable pub permute_parts :
    (digit : ℕ → ℕ)
    → (key_partition : ℕ → ℕ) → (key_from : ℕ → ℕ) → (rank_ff : ℕ → ℕ → ℕ) → (key_to : ℕ → ℕ)
    → (n : ℕ) → ℕ
    → ℕ
permute_parts digit part key_from rank_ff key_to zero = key_to
permute_parts digit part key_from rank_ff key_to (suc m) =
    let to = permute_parts digit part key_from rank_ff key_to m in
    (permute digit key_from (part m) to (rank_ff m) (part (suc m) - part m)).0

-- One counting pass: the tree and the keys in their new order.
unfoldable pub counting_pass :
    (number_of_processors : ℕ)
    → (digit : ℕ → ℕ) → (key_partition : ℕ → ℕ) → (key_from key_to : ℕ → ℕ) → PrefixTree
    → PrefixTree × (ℕ → ℕ)
counting_pass number digit part key_from key_to t =
    let rank_me = rank_parts digit key_from part in
    let (u, rank_ff) = down_sweep number (up_sweep number rank_me t number) number in
    (u, permute_parts digit part key_from rank_ff key_to number)

-- `x ^ 0x1`
unfoldable pub flip : ℕ → ℕ
flip x = if x % 2 == 1 then x - 1 else x + 1

-- One iteration of the loop on the digits.
unfoldable pub sort_digit :
    Options → (log2_radix max_num_digits : ℕ) → (key_partition : ℕ → ℕ) → Sorting → ℕ → Sorting
sort_digit o log2_radix max_num_digits part s loopnum =
    let digit = digit_of o.radix (loopnum * log2_radix) in
    let (t, key_to) =
      counting_pass o.number_of_processors digit part (s.key s.from) (s.key s.to) s.prefix_tree in
    let key = store_row s.key s.to key_to in
    if loopnum == max_num_digits - 1
    then record s { key = key; prefix_tree = t }
    else record s { key = key; prefix_tree = t; from = flip s.from; to = flip s.to }

-- The first `n` iterations.
unfoldable pub sort_digits :
    Options → (log2_radix max_num_digits : ℕ) → (key_partition : ℕ → ℕ) → Sorting → ℕ → Sorting
sort_digits o log2_radix digits part s zero = s
sort_digits o log2_radix digits part s (suc loopnum) =
    sort_digit o log2_radix digits part (sort_digits o log2_radix digits part s loopnum) loopnum

abbrev pub max_processors : ℕ
max_processors = 64

-- What `main` refuses of its options.
unfoldable pub check_options : Options → Run (Unit {0})
check_options o =
    unless (ltb 0 o.number_of_processors) too_few_processors
    >> unless (leb o.number_of_processors max_processors) too_many_processors
    >> unless (ltb 0 o.radix) bad_radix
    >> unless (is_some (log_2 o.radix)) bad_radix
    >> unless (ltb 0 o.num_keys) too_few_keys
    >> unless (ltb 0 o.max_key) bad_max_key

-- The loops on all digits below the radix access every node at these places, from the first iteration
-- on: past the end of its arrays when the radix is above max_radix.
unfoldable pub slave_sort :
    Options → (log2_radix max_num_digits : ℕ) → (key_partition : ℕ → ℕ) → Sorting → Run Sorting
slave_sort o log2_radix digits part s =
    unless (leb o.radix max_radix) past_end >> done (sort_digits o log2_radix digits part s digits)

unfoldable pub start_sorting : (ℕ → ℕ → ℕ) → PrefixTree → Sorting
start_sorting key t = record { key = key; from = 0; to = 1; prefix_tree = t }

-- `main` from the options on: the digits, the parts of the keys, and the sort of all processes. The
-- keys that `init` makes are those at key[0].
unfoldable pub sort_keys : (fuel : ℕ) → Options → (key : ℕ → ℕ → ℕ) → PrefixTree → Run Sorting
sort_keys fuel o key t = check_options o >> get_max_digits fuel o.radix o.max_key >>= λ digits.
    cut fuel o.num_keys o.number_of_processors (λ p. 0) 0 0 0 >>= λ part.
    slave_sort o (elim (log_2 o.radix) [ none ↦ 0 | some log2_radix ↦ log2_radix ]) digits part
      (start_sorting key t)

-- `global->final` is the array the last iteration wrote.
unfoldable pub final_keys : Sorting → ℕ → ℕ
final_keys s = s.key s.to

-- The mistakes that `test_sort` finds among the first `n` neighbours.
unfoldable pub mistakes : (ℕ → ℕ) → ℕ → ℕ
mistakes key_final zero = 0
mistakes key_final (suc i) =
    if ltb (key_final (suc i)) (key_final i) then mistakes key_final i + 1 else mistakes key_final i

unfoldable pub test_sort : (ℕ → ℕ) → (num_keys : ℕ) → ℕ
test_sort key_final num_keys = mistakes key_final (num_keys - 1)
