-- ===== src/Radix/Tree/Nodes.antt =====
-- The nodes of the prefix tree that a process and the one it waits for read on the way down.
use computer_architect.Common.{
  ℕ, zero, suc, ◌+◌, ◌-◌, ◌*◌, ◌/◌, ◌%◌, ◌^◌, ◌<◌, ◌≤◌, ◌≡◌, refl, ap, arith, sym, subst, ◌∙◌, true,
  false, ◌==◌, Bool-cases, inl, inr,
}
use native.Mathlib.Nat.{pow-suc}
use computer_architect.Common.Masks.{pow_pos}
use computer_architect.Radix.{skip, my_node, their_node}

-- Where `skip` stops.
abbrev stop : (left offset level base : ℕ) → ℕ
stop left o level base = (skip left o level base).2 + (skip left o level base).0

-- The root of the levels from one of 2 ^ k nodes on.
unfoldable pub root : ℕ → ℕ → ℕ
root zero base = base
root (suc k) base = root k (base + 2 ^ suc k)

root_place : (k base : ℕ) → root k base ≡ base + 2 * 2 ^ k - 2
unfolding root
root_place zero base = omega arith
root_place (suc k) base = omega (arith, root_place k (base + 2 ^ suc k), pow-suc 2 k, pow_pos k)

-- The last node of a level stops at the root.
stop-root : (k left base : ℕ) → 2 ^ k ≤ suc left → stop left (2 ^ k - 1) (2 ^ k) base ≡ root k base
unfolding skip root
stop-root zero zero base le = omega arith
stop-root zero (suc left) base le = omega arith
stop-root (suc k) zero base le = absurd (omega (arith, pow-suc 2 k, pow_pos k))
stop-root (suc k) (suc left) base le =
    let odd : ((2 ^ suc k - 1) % 2 == 1) ≡ true = ground (arith, pow-suc 2 k, pow_pos k) in
    let half : (2 ^ suc k - 1) / 2 ≡ 2 ^ k - 1 = omega (arith, pow-suc 2 k, pow_pos k) in
    let level : 2 ^ suc k / 2 ≡ 2 ^ k = omega (arith, pow-suc 2 k) in
    rw (odd, half, level)
      (stop-root k left (base + 2 ^ suc k) (omega (arith, pow-suc 2 k, pow_pos k)))

-- Where the second loop stops.
abbrev second : (left : ℕ) → ℕ × ℕ × ℕ → ℕ
second left (o, level, base) = stop left (o / 2) (level / 2) (base + level)

skip_fuel : (f g o level base : ℕ) → o ≤ f → o ≤ g → skip f o level base ≡ skip g o level base
unfolding skip
skip_fuel zero zero o level base le le' = refl
skip_fuel zero (suc g) o level base le le' =
    let even : (o % 2 == 1) ≡ false = ground arith in rw even refl
skip_fuel (suc f) zero o level base le le' =
    let even : (o % 2 == 1) ≡ false = ground arith in rw even refl
skip_fuel (suc f) (suc g) o level base le le' = elim (Bool-cases (o % 2 == 1)) [
  | inl odd ↦ rw odd (skip_fuel f g (o / 2) (level / 2) (base + level) (omega arith) (omega arith))
  | inr even ↦ rw even refl
]

-- The node after an even one has the same parent.
second-even :
    (left more o level base : ℕ)
    → (o % 2 == 1) ≡ false
    → o ≤ more
    → suc o ≤ left
    → second more (o, level, base) ≡ stop left (suc o) level base
unfolding skip
second-even zero more o level base even le le' = absurd (omega arith)
second-even (suc left) more o level base even le le' =
    let odd : (suc o % 2 == 1) ≡ true = ground arith in
    let half : suc o / 2 ≡ o / 2 = ground arith in
    rw (odd, half)
      (ap (λ z. z.2 + z.0)
        (skip_fuel more left (o / 2) (level / 2) (base + level) (omega arith) (omega arith)))

-- An odd node stops where its parent does.
stop_odd :
    (k q base : ℕ) (P : ℕ → Type 0)
    → ((left : ℕ) → q ≤ left → P (stop left q (2 ^ k) (base + 2 ^ suc k)))
    → (left : ℕ) → suc (2 * q) ≤ left
    → P (stop left (suc (2 * q)) (2 ^ suc k) base)
unfolding skip
stop_odd k q base P same zero le = absurd (omega arith)
stop_odd k q base P same (suc left) le =
    let odd : (suc (2 * q) % 2 == 1) ≡ true = ground arith in
    let half : suc (2 * q) / 2 ≡ q = omega arith in
    let level : 2 ^ suc k / 2 ≡ 2 ^ k = omega (arith, pow-suc 2 k) in
    rw (odd, half, level) (same left (omega arith))

-- A process that is not the last one waits for the node of a later one.
their-later :
    (k left more o base : ℕ)
    → o ≤ left
    → o ≤ more
    → suc o < 2 ^ k
    → (o' : ℕ) × (o < o')
      × (o' < 2 ^ k)
      × ((left' : ℕ)
          → o' ≤ left'
          → second more (skip left o (2 ^ k) base) ≡ stop left' o' (2 ^ k) base)
unfolding skip
their-later zero left more o base le le' lt = absurd (omega arith)
their-later (suc k) zero more o base le le' lt =
    (suc o, omega arith, lt, λ left'. second-even left' more o (2 ^ suc k) base (ground arith) le')
their-later (suc k) (suc left) more o base le le' lt = elim (Bool-cases (o % 2 == 1)) [
  | inr even ↦
      rw even (suc o, omega arith, lt, λ left'. second-even left' more o (2 ^ suc k) base even le')
  | inl odd ↦
      let level : 2 ^ suc k / 2 ≡ 2 ^ k = omega (arith, pow-suc 2 k) in
      let (q, later, bound, same) =
        their-later k left more (o / 2) (base + 2 ^ suc k) (omega arith) (omega arith)
          (ground (arith, pow-suc 2 k)) in
      rw (odd, level)
        (
          suc (2 * q),
          ground arith,
          omega (arith, pow-suc 2 k),
          stop_odd k q base (λ z. second more (skip left (o / 2) (2 ^ k) (base + 2 ^ suc k)) ≡ z)
              same,
        )
]

pub my_node-root : (k : ℕ) → my_node (2 ^ k) (2 ^ k - 1) ≡ root k 0
unfolding my_node
my_node-root k =
    let last : (2 ^ k - 1 == 2 ^ k - 1) ≡ true = ground arith in
    rw last (omega (arith, root_place k 0))

-- The node of a process is the root for the last one, and else where it stops.
pub my_node_lem : (k m : ℕ) → m < 2 ^ k → my_node (2 ^ k) m ≡ stop m m (2 ^ k) 0
unfolding my_node
my_node_lem k m lt = elim (Bool-cases (m == 2 ^ k - 1)) [
  | inl last ↦
      let e : 2 ^ k - 1 ≡ m = ground arith in
      rw last (
        sym (
          subst (λ z. stop m z (2 ^ k) 0 ≡ root k 0) e (stop-root k m 0 (omega arith))
          ∙ root_place k 0
          ∙ zero-sub))
  | inr other ↦ rw other refl
]
  where
    zero-sub : 0 + 2 * 2 ^ k - 2 ≡ 2 * 2 ^ k - 2
    zero-sub = omega arith

-- A process that is not the last one waits for the node of a later one.
pub their_node-my_node :
    (k m : ℕ)
    → suc m < 2 ^ k
    → (later : ℕ) × (m < later) × (later < 2 ^ k) × (their_node (2 ^ k) m ≡ my_node (2 ^ k) later)
unfolding their_node
their_node-my_node k m lt =
    let (o, after, bound, same) = their-later k m m m 0 (omega arith) (omega arith) lt in
    (o, after, bound, same o (omega arith) ∙ sym (my_node_lem k o bound))
