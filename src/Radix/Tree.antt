-- ===== src/Radix/Tree.antt =====
-- What the prefix tree holds for one digit: each node of a level the sums of the leaves below it,
-- but for the ranks of the last node.
pub mod Up
pub mod Nodes
pub mod Left
pub mod Down
use computer_architect.Common.{ℕ, zero, suc, ◌+◌, ◌/◌, ◌%◌, ◌^◌, ◌<◌, ◌≤◌, ◌≡◌, arith, ◌∙◌}
use computer_architect.Radix.{PrefixTree}
use computer_architect.Radix.Sums.{pair}

-- The first `c` nodes of the level of 2 ^ k nodes at `base`.
unfoldable pub Row :
    (d : ℕ) (k : ℕ) (t : PrefixTree) (base c : ℕ) (ranks densities : ℕ → ℕ) → Type 0
Row d k t base c x y =
    (o : ℕ)
    → o < c
    → (t.densities (base + o) d ≡ y o) × (suc o < 2 ^ k → t.ranks (base + o) d ≡ x o)

-- The levels above it, where the first `c` nodes of this level are below.
unfoldable pub Above :
    (d : ℕ) (k : ℕ) (t : PrefixTree) (base c : ℕ) (ranks densities : ℕ → ℕ) → Type 0
Above d zero t base c x y = Unit {0}
Above d (suc k) t base c x y =
    Row d k t (base + 2 ^ suc k) (c / 2) (pair x) (pair y)
    × Above d k t (base + 2 ^ suc k) (c / 2) (pair x) (pair y)

abbrev pub Agree : (d : ℕ) (t u : PrefixTree) (node : ℕ) → Type 0
Agree d t u node = (u.densities node d ≡ t.densities node d) × (u.ranks node d ≡ t.ranks node d)

pub Row-at :
    (d k : ℕ) (t : PrefixTree) (base c : ℕ) (x y : ℕ → ℕ)
    → Row d k t base c x y
    → (o : ℕ) → o < c
    → (t.densities (base + o) d ≡ y o) × (suc o < 2 ^ k → t.ranks (base + o) d ≡ x o)
unfolding Row
Row-at d k t base c x y row = row

pub Row-frame :
    (d k : ℕ) (t u : PrefixTree) (base c : ℕ) (x y : ℕ → ℕ)
    → ((node : ℕ) → base ≤ node → node < base + c → Agree d t u node)
    → Row d k t base c x y
    → Row d k u base c x y
unfolding Row
Row-frame d k t u base c x y same r o lt =
    let (e, f) = same (base + o) (omega arith) (omega arith) in
    (e ∙ (r o lt).0, λ h. f ∙ (r o lt).1 h)

pub Above-frame :
    (d k : ℕ) (t u : PrefixTree) (base c : ℕ) (x y : ℕ → ℕ)
    → ((node : ℕ) → base + 2 ^ k ≤ node → Agree d t u node)
    → Above d k t base c x y
    → Above d k u base c x y
unfolding Above
Above-frame d zero t u base c x y same a = tt
Above-frame d (suc k) t u base c x y same a = (
  Row-frame d k t u _ _ _ _ (λ node le lt. same node le) a.0,
  Above-frame d k t u _ _ _ _ (λ node le. same node (omega arith)) a.1,
)

-- An even number of nodes and the next one have the same full pairs.
pub Above-even :
    (d k : ℕ) (t : PrefixTree) (base c : ℕ) (x y : ℕ → ℕ)
    → c % 2 ≡ 0
    → Above d k t base c x y
    → Above d k t base (suc c) x y
unfolding Above
Above-even d zero t base c x y even a = tt
Above-even d (suc k) t base c x y even a = let e : suc c / 2 ≡ c / 2 = omega arith in rw e a

pub Row-none : (d k : ℕ) (t : PrefixTree) (base : ℕ) (x y : ℕ → ℕ) → Row d k t base 0 x y
unfolding Row
Row-none d k t base x y o lt = absurd (omega arith)

pub Above-none : (d k : ℕ) (t : PrefixTree) (base : ℕ) (x y : ℕ → ℕ) → Above d k t base 0 x y
unfolding Above
Above-none d zero t base x y = tt
Above-none d (suc k) t base x y = (Row-none d k t _ _ _, Above-none d k t _ _ _)
