-- ===== src/Radix/Tree/Left.antt =====
-- The ranks of the processes before one, in the nodes to its left on its way through the tree.
use computer_architect.Common.{
  ℕ, zero, suc, ◌+◌, ◌-◌, ◌*◌, ◌/◌, ◌%◌, ◌^◌, ◌<◌, ◌≤◌, ◌≡◌, refl, ap, arith, subst, ◌∙◌, ◌==◌,
  Bool-cases, inl, inr, if◌then◌else◌,
}
use native.Mathlib.Nat.{pow-suc}
use computer_architect.Radix.{PrefixTree, add_ranks}
use computer_architect.Radix.Sums.{sum, pair, sum-pair}
use computer_architect.Radix.Tree.{Row, Above, Row-at}

pub add_ranks_cong :
    (t u : PrefixTree) (left o level base : ℕ) (ff : ℕ → ℕ)
    → u.ranks ≡ t.ranks
    → add_ranks left u ff o level base ≡ add_ranks left t ff o level base
unfolding add_ranks
add_ranks_cong t u zero o level base ff same = refl
add_ranks_cong t u (suc left) o level base ff same =
    ap
      (λ r.
        if o == 0
        then ff
        else add_ranks left u (if o % 2 == 1 then (λ i. ff i + r (base + o - 1) i) else ff) (o / 2)
            (level / 2) (base + level))
      same
    ∙ ap (λ z. if o == 0 then ff else z)
        (add_ranks_cong t u left (o / 2) (level / 2) (base + level)
          (if o % 2 == 1 then (λ i. ff i + t.ranks (base + o - 1) i) else ff) same)

sum_odd : (x : ℕ → ℕ) (o q v : ℕ) → o ≡ suc (2 * q) → v + x (2 * q) + sum (2 * q) x ≡ v + sum o x
unfolding sum
sum_odd x o q v e = rw e (omega arith)

-- The ranks of the nodes to the left are those of all leaves before.
pub add_ranks_lem :
    (d k left : ℕ) (t : PrefixTree) (base o : ℕ) (x y ff : ℕ → ℕ)
    → o ≤ left
    → o < 2 ^ k
    → Row d k t base (2 ^ k) x y
    → Above d k t base (2 ^ k) x y
    → add_ranks left t ff o (2 ^ k) base d ≡ ff d + sum o x
unfolding add_ranks sum Above
add_ranks_lem d k zero t base o x y ff le lt row above =
    let e : o ≡ 0 = omega arith in rw e (omega arith)
add_ranks_lem d zero (suc left) t base o x y ff le lt row above =
    let e : o ≡ 0 = omega arith in rw e (omega arith)
add_ranks_lem d (suc k) (suc left) t base o x y ff le lt row above =
    let q = o / 2 in
    let half : 2 ^ suc k / 2 ≡ 2 ^ k = omega (arith, pow-suc 2 k) in
    let up =
      λ (added : ℕ → ℕ). add_ranks_lem d k left t (base + 2 ^ suc k) q (pair x) (pair y) added in
    let bound : q < 2 ^ k = omega (arith, pow-suc 2 k) in
    let row' = subst (λ z. Row d k t (base + 2 ^ suc k) z (pair x) (pair y)) half above.0 in
    let above' = subst (λ z. Above d k t (base + 2 ^ suc k) z (pair x) (pair y)) half above.1 in
    elim (Bool-cases (o == 0)) [
      | inl none ↦ let e : o ≡ 0 = ground arith in rw e (omega arith)
      | inr some ↦
          let fuel : q ≤ left = ground arith in
          elim (Bool-cases (o % 2 == 1)) [
            | inl odd ↦
                let e : o ≡ suc (2 * q) = ground arith in
                let left_rank : t.ranks (base + o - 1) d ≡ x (2 * q) =
                  subst (λ z. t.ranks z d ≡ x (2 * q)) (omega arith)
                    ((Row-at d (suc k) t base (2 ^ suc k) x y row (2 * q) (omega arith)).1
                      (omega arith)) in
                rw (some, odd, half)
                  (up (λ i. ff i + t.ranks (base + o - 1) i) fuel bound row' above'
                    ∙ rw (left_rank, sum-pair q x) (sum_odd x o q (ff d) e))
            | inr even ↦
                let e : 2 * q ≡ o = ground arith in
                rw (some, even, half)
                  (up ff fuel bound row' above'
                    ∙ ap (λ z. ff d + z) (sum-pair q x ∙ ap (λ z. sum z x) e))
          ]
    ]
