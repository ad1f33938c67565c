-- ===== src/Radix/Tree/Down.antt =====
-- The way down the prefix tree: every process finds the sums of all leaves at its node, and works
-- out where its keys go.
use computer_architect.Common.{
  ℕ, zero, suc, ◌+◌, ◌-◌, ◌*◌, ◌/◌, ◌^◌, ◌<◌, ◌≤◌, ◌≡◌, refl, ap, arith, sym, subst, ◌∙◌, true,
  false, ◌==◌, Bool-cases, inl, inr,
}
use native.Mathlib.Nat.{pow-suc, zero-add}
use computer_architect.Radix.{
  max_radix, PrefixTree, my_node, their_node, copy_down, add_ranks, add_densities, rank_first,
  down_sweep, up_sweep, key_density,
}
use computer_architect.Radix.Sums.{sum, pair, sum-pair, sum-key_density, key_density-sum}
use computer_architect.Radix.Tree.{Row, Above}
use computer_architect.Radix.Tree.Up.{up_sweep_lem}
use computer_architect.Radix.Tree.Left.{add_ranks_lem, add_ranks_cong}
use computer_architect.Radix.Tree.Nodes.{root, my_node-root, their_node-my_node}

root_total :
    (d k : ℕ) (t : PrefixTree) (base : ℕ) (x y : ℕ → ℕ)
    → Row d k t base (2 ^ k) x y
    → Above d k t base (2 ^ k) x y
    → t.densities (root k base) d ≡ sum (2 ^ k) y
unfolding root sum Row Above
root_total d zero t base x y row above =
    let e : base + 0 ≡ base = omega arith in
    subst (λ z. t.densities z d ≡ y 0) e (row 0 (omega arith)).0 ∙ sym (zero-add (y 0))
root_total d (suc k) t base x y row above =
    let half : 2 ^ suc k / 2 ≡ 2 ^ k = omega (arith, pow-suc 2 k) in
    let twice : 2 * 2 ^ k ≡ 2 ^ suc k = omega (arith, pow-suc 2 k) in
    let base' = base + 2 ^ suc k in
    root_total d k t base' (pair x) (pair y)
      (subst (λ z. Row d k t base' z (pair x) (pair y)) half above.0)
      (subst (λ z. Above d k t base' z (pair x) (pair y)) half above.1)
    ∙ sum-pair (2 ^ k) y
    ∙ ap (λ z. sum z y) twice

-- A node that holds the sums of all leaves.
abbrev Total : PrefixTree → (ℕ → ℕ) → ℕ → Type 0
Total t total node = (d : ℕ) → t.densities node d ≡ total d

copy_down-ranks : (number : ℕ) (t : PrefixTree) (m : ℕ) → (copy_down number t m).ranks ≡ t.ranks
unfolding copy_down
copy_down-ranks number t m = elim (Bool-cases (m == number - 1)) [
  | inl last ↦ rw last refl
  | inr other ↦ rw other refl
]

copy_down-other :
    (number : ℕ) (t : PrefixTree) (m node : ℕ) (total : ℕ → ℕ)
    → ((m == number - 1) ≡ false → Total t total (their_node number m))
    → Total t total node
    → Total (copy_down number t m) total node
unfolding copy_down
copy_down-other number t m node total theirs here d = elim (Bool-cases (m == number - 1)) [
  | inl last ↦ rw last (here d)
  | inr other ↦ elim (Bool-cases (node == my_node number m)) [
    | inl mine ↦ rw (other, mine) (theirs other d)
    | inr off ↦ rw (other, off) (here d)
  ]
]

copy_down-own :
    (number : ℕ) (t : PrefixTree) (m : ℕ) (total : ℕ → ℕ)
    → ((m == number - 1) ≡ false → Total t total (their_node number m))
    → Total t total (my_node number (number - 1))
    → Total (copy_down number t m) total (my_node number m)
unfolding copy_down
copy_down-own number t m total theirs here d = elim (Bool-cases (m == number - 1)) [
  | inl last ↦ let e : m ≡ number - 1 = ground arith in rw last (rw e (here d))
  | inr other ↦
      let same : (my_node number m == my_node number m) ≡ true = ground arith in
      rw (other, same) (theirs other d)
]

-- What the last `n` processes have found: `ranks_of m` are the ranks of the processes before `m`.
unfoldable Found :
    (k n : ℕ)
    → (t u : PrefixTree) → (ff : ℕ → ℕ → ℕ) → (total : ℕ → ℕ) → (ranks_of : ℕ → ℕ → ℕ) → Type 0
Found k n t u ff total ranks_of =
    (u.ranks ≡ t.ranks)
    × Total u total (my_node (2 ^ k) (2 ^ k - 1))
    × ((m : ℕ)
        → 2 ^ k ≤ m + n
        → m < 2 ^ k
        → (Total u total (my_node (2 ^ k) m))
          × ((d : ℕ) → ff m d ≡ add_densities (ranks_of m) total d))

add_densities_ext :
    (f g v w : ℕ → ℕ)
    → ((d : ℕ) → f d ≡ g d)
    → ((d : ℕ) → v d ≡ w d)
    → (d : ℕ) → add_densities f v d ≡ add_densities g w d
unfolding add_densities
add_densities_ext f g v w e e' zero = e 0
add_densities_ext f g v w e e' (suc d) = rw (e (suc d), e' d) refl

module _ (k : ℕ) (t : PrefixTree) (total : ℕ → ℕ) (ranks_of : ℕ → ℕ → ℕ)
    (ranked : (d m : ℕ) → m < 2 ^ k → add_ranks m t (λ i. 0) m (2 ^ k) 0 d ≡ ranks_of m d) where
  rank_first-Total :
      (u : PrefixTree) (m : ℕ)
      → m < 2 ^ k
      → u.ranks ≡ t.ranks
      → Total u total (my_node (2 ^ k) m)
      → (d : ℕ) → rank_first (2 ^ k) u m d ≡ add_densities (ranks_of m) total d
  unfolding rank_first
  rank_first-Total u m lt same here =
      add_densities_ext _ _ _ _
        (λ d. ap (λ z. z d) (add_ranks_cong t u m m (2 ^ k) 0 (λ i. 0) same) ∙ ranked d m lt) here

  down_sweep-Found :
      (n : ℕ)
      → n ≤ 2 ^ k
      → Total t total (my_node (2 ^ k) (2 ^ k - 1))
      → Found k n t (down_sweep (2 ^ k) t n).0 (down_sweep (2 ^ k) t n).1 total ranks_of
  unfolding Found down_sweep
  down_sweep-Found zero le top = (refl, top, λ m ge lt. absurd (omega arith))
  down_sweep-Found (suc n) le top =
      let u = (down_sweep (2 ^ k) t n).0 in
      let m = 2 ^ k - suc n in
      let v = copy_down (2 ^ k) u m in
      let (same, first, known) = down_sweep-Found n (omega arith) top in
      let theirs : (m == 2 ^ k - 1) ≡ false → Total u total (their_node (2 ^ k) m) = λ other.
        let (later, after, bound, e) = their_node-my_node k m (ground arith) in
        subst (λ z. Total u total z) (sym e) (known later (omega arith) bound).0 in
      let own = copy_down-own (2 ^ k) u m total theirs first in
      let same' : v.ranks ≡ t.ranks = copy_down-ranks (2 ^ k) u m ∙ same in
      (
        same',
        copy_down-other (2 ^ k) u m _ total theirs first,
        λ m' ge lt. elim (Bool-cases (m' == m)) [
          | inl now ↦
              let e : m' ≡ m = ground arith in
              (rw e own, λ d. rw (now, e) (rank_first-Total v m (omega arith) same' own d))
          | inr before ↦
              let (node, ff) = known m' (ground arith) lt in
              (copy_down-other (2 ^ k) u m _ total theirs node, λ d. rw before (ff d))
        ],
      )

-- The sums of all leaves.
abbrev pub totals : ℕ → (ℕ → ℕ → ℕ) → ℕ → ℕ
totals number rank_me d = sum number (λ p. rank_me p d)

-- By the densities of the code.
pub down_sweep-add_densities :
    (k m d : ℕ) (t : PrefixTree) (rank_me : ℕ → ℕ → ℕ)
    → m < 2 ^ k
    → (down_sweep (2 ^ k) (up_sweep (2 ^ k) rank_me t (2 ^ k)) (2 ^ k)).1 m d
      ≡ add_densities (totals m rank_me) (key_density (totals (2 ^ k) rank_me)) d
unfolding Found
down_sweep-add_densities k m d t rank_me lt =
    let u = up_sweep (2 ^ k) rank_me t (2 ^ k) in
    let swept = λ (d : ℕ). up_sweep_lem d k (2 ^ k) t rank_me (omega arith) in
    let ranked : (d m : ℕ) → m < 2 ^ k → add_ranks m u (λ i. 0) m (2 ^ k) 0 d ≡ totals m rank_me d =
      λ d m lt.
        add_ranks_lem d k m u 0 m (λ p. rank_me p d) (λ p. key_density (rank_me p) d) (λ i. 0)
          (omega arith) lt (swept d).0 (swept d).1
        ∙ zero-add (totals m rank_me d) in
    let total : (d : ℕ)
        → u.densities (my_node (2 ^ k) (2 ^ k - 1)) d ≡ key_density (totals (2 ^ k) rank_me) d =
      λ d.
        rw (my_node-root k)
          (root_total d k u 0 _ _ (swept d).0 (swept d).1 ∙ sum-key_density (2 ^ k) d rank_me) in
    let found =
      down_sweep-Found k u (key_density (totals (2 ^ k) rank_me)) (λ m d. totals m rank_me d) ranked
        (2 ^ k) (omega arith) total in
    (found.2 m (omega arith) lt).1 d

add_densities-sum :
    (m number d : ℕ) (rank_me : ℕ → ℕ → ℕ)
    → add_densities (totals m rank_me) (key_density (totals number rank_me)) d
      ≡ sum m (λ p. rank_me p d) + sum d (λ e. sum number (λ p. rank_me p e))
unfolding add_densities sum
add_densities-sum m number zero rank_me = omega arith
add_densities-sum m number (suc d) rank_me =
    ap (λ z. totals m rank_me (suc d) + z) (key_density-sum (totals number rank_me) d)

-- For 2^k processes, any histograms and any former contents of the prefix tree, what process m
-- below 2^k has for a digit d below MAX_RADIX after the way up and the way down is the number of d
-- in the histograms of the processes before it, and the numbers of all digits below d in the
-- histograms of all processes in addition.
pub down_sweep-up_sweep :
    (k m d : ℕ) (t : PrefixTree) (rank_me : ℕ → ℕ → ℕ)
    → m < 2 ^ k
    → d < max_radix
    → (down_sweep (2 ^ k) (up_sweep (2 ^ k) rank_me t (2 ^ k)) (2 ^ k)).1 m d
      ≡ sum m (λ p. rank_me p d) + sum d (λ e. sum (2 ^ k) (λ p. rank_me p e))
down_sweep-up_sweep k m d t rank_me lt inside =
    down_sweep-add_densities k m d t rank_me lt ∙ add_densities-sum m (2 ^ k) d rank_me
