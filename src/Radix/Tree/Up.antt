-- ===== src/Radix/Tree/Up.antt =====
-- The way up the prefix tree: what each process leaves in it.
use computer_architect.Common.{
  ℕ, zero, suc, ◌+◌, ◌-◌, ◌*◌, ◌/◌, ◌%◌, ◌^◌, ◌<◌, ◌≤◌, ◌≡◌, refl, arith, sym, subst, ◌∙◌, Bool,
  true, false, ◌==◌, Bool-cases, inl, inr,
}
use native.Mathlib.Nat.{pow-suc, zero-add}
use computer_architect.Radix.{PrefixTree, add_up, climb, put_leaf, up_sweep, key_density}
use computer_architect.Radix.Sums.{pair}
use computer_architect.Radix.Tree.{
  Row, Above, Agree, Row-frame, Above-frame, Above-even, Row-none, Above-none,
}

pub add_up_frame :
    (d : ℕ) (t : PrefixTree) (n index node : ℕ) (last : Bool)
    → (node == index) ≡ false
    → Agree d t (add_up t n index last) node
unfolding add_up
add_up_frame d t n index node true off = rw off (refl, refl)
add_up_frame d t n index node false off = rw off (refl, refl)

add_up-densities :
    (d : ℕ) (t : PrefixTree) (n index : ℕ) (last : Bool)
    → (add_up t n index last).densities index d ≡ t.densities n d + t.densities (n - 1) d
unfolding add_up
add_up-densities d t n index last =
    let same : (index == index) ≡ true = ground arith in rw same refl

add_up-ranks :
    (d : ℕ) (t : PrefixTree) (n index : ℕ)
    → (add_up t n index false).ranks index d ≡ t.ranks n d + t.ranks (n - 1) d
unfolding add_up
add_up-ranks d t n index = let same : (index == index) ≡ true = ground arith in rw same refl

-- The nodes below the base of the next level stay.
climb_frame :
    (d left : ℕ) (t : PrefixTree) (n o level base node : ℕ)
    → node < base
    → Agree d t (climb left t n o level base) node
unfolding climb
climb_frame d zero t n o level base node lt = (refl, refl)
climb_frame d (suc left) t n o level base node lt = elim (Bool-cases (o % 2 == 1)) [
  | inl odd ↦
      let index = base + o / 2 in
      let last = o / 2 == level - 1 in
      let off : (node == index) ≡ false = ground arith in
      let (e, f) = add_up_frame d t n index node last off in
      let (e', f') =
        climb_frame d left (add_up t n index last) index (o / 2) (level / 2) (base + level) node
          (omega arith) in
      rw odd (e' ∙ e, f' ∙ f)
  | inr even ↦ rw even (refl, refl)
]

-- A node that has just been added to its left neighbour.
add_up-Row :
    (d k q : ℕ) (t : PrefixTree) (b b' : ℕ) (x y : ℕ → ℕ)
    → suc (2 * q) < 2 ^ suc k
    → Row d (suc k) t b (suc (suc (2 * q))) x y
    → Row d k t b' q (pair x) (pair y)
    → Row d k (add_up t (b + suc (2 * q)) (b' + q) (q == 2 ^ k - 1)) b' (suc q) (pair x) (pair y)
unfolding Row
add_up-Row d k q t b b' x y bound row below o lt =
    let n = b + suc (2 * q) in
    let left : n - 1 ≡ b + 2 * q = omega arith in
    elim (Bool-cases (o == q)) [
      | inl at ↦
          let e : o ≡ q = ground arith in
          let (r, r') = row (suc (2 * q)) (omega arith) in
          let (l, l') = row (2 * q) (omega arith) in
          rw e (
            add_up-densities d t n (b' + q) (q == 2 ^ k - 1) ∙ (rw (left, r, l) (omega arith)),
            λ more.
                let inner : (q == 2 ^ k - 1) ≡ false = ground arith in
                rw inner (
                  add_up-ranks d t n (b' + q)
                  ∙ (rw (left, r' (omega (arith, pow-suc 2 k)), l' (omega (arith, pow-suc 2 k)))
                      (omega arith))),
          )
      | inr off ↦
          let away : (b' + o == b' + q) ≡ false = ground arith in
          let (e, f) = add_up_frame d t n (b' + q) (b' + o) (q == 2 ^ k - 1) away in
          let (g, h) = below o (ground arith) in (e ∙ g, λ more. f ∙ h more)
    ]

pub climb-Above :
    (d left k : ℕ) (t : PrefixTree) (b o : ℕ) (x y : ℕ → ℕ)
    → o ≤ left
    → o < 2 ^ k
    → Row d k t b (suc o) x y
    → Above d k t b o x y
    → Above d k (climb left t (b + o) o (2 ^ k / 2) (b + 2 ^ k)) b (suc o) x y
unfolding climb Above
climb-Above d zero k t b o x y le lt row above = Above-even d k t b o x y (omega arith) above
climb-Above d (suc left) zero t b o x y le lt row above = tt
climb-Above d (suc left) (suc k) t b o x y le lt row above = elim (Bool-cases (o % 2 == 1)) [
  | inr even ↦ rw even (Above-even d (suc k) t b o x y (ground arith) above)
  | inl odd ↦
      let q = o / 2 in
      let b' = b + 2 ^ suc k in
      let e : suc (2 * q) ≡ o = ground arith in
      let half : 2 ^ suc k / 2 ≡ 2 ^ k = omega (arith, pow-suc 2 k) in
      let next : suc o / 2 ≡ suc q = omega arith in
      let u = add_up t (b + o) (b' + q) (q == 2 ^ k - 1) in
      let row' : Row d k u b' (suc q) (pair x) (pair y) =
        subst
          (λ z. Row d k (add_up t (b + z) (b' + q) (q == 2 ^ k - 1)) b' (suc q) (pair x) (pair y)) e
          (add_up-Row d k q t b b' x y (omega arith)
            (subst (λ z. Row d (suc k) t b (suc z) x y) (sym e) row) above.0) in
      let above' : Above d k u b' q (pair x) (pair y) =
        Above-frame d k t u b' q (pair x) (pair y)
          (λ node ge.
            add_up_frame d t (b + o) (b' + q) node (q == 2 ^ k - 1) (ground (arith, pow-suc 2 k)))
          above.1 in
      let up =
        climb-Above d left k u b' q (pair x) (pair y) (omega arith) (omega (arith, pow-suc 2 k))
          row' above' in
      rw (odd, half, next)
        (
          Row-frame d k u (climb left u (b' + q) q (2 ^ k / 2) (b' + 2 ^ k)) b' (suc q) (pair x)
              (pair y)
              (λ node ge lt'.
                climb_frame d left u (b' + q) q (2 ^ k / 2) (b' + 2 ^ k) node
                  (omega (arith, pow-suc 2 k)))
              row',
          up,
        )
]

put_leaf_frame :
    (d : ℕ) (t : PrefixTree) (m : ℕ) (h : ℕ → ℕ) (node : ℕ)
    → (node == m) ≡ false
    → Agree d t (put_leaf t m h) node
unfolding put_leaf
put_leaf_frame d t m h node off = rw off (refl, refl)

put_leaf-Row :
    (d k : ℕ) (t : PrefixTree) (m : ℕ) (h : ℕ → ℕ → ℕ)
    → Row d k t 0 m (λ p. h p d) (λ p. key_density (h p) d)
    → Row d k (put_leaf t m (h m)) 0 (suc m) (λ p. h p d) (λ p. key_density (h p) d)
unfolding Row put_leaf
put_leaf-Row d k t m h row o lt = elim (Bool-cases (o == m)) [
  | inl at ↦
      let e : o ≡ m = ground arith in
      let here : (m == m) ≡ true = ground arith in
      let zero_m : 0 + m ≡ m = omega arith in rw (e, zero_m, here) (refl, λ more. refl)
  | inr off ↦ let away : (0 + o == m) ≡ false = ground arith in rw away (row o (ground arith))
]

-- After the first `m` processes the tree holds the sums of their leaves.
pub up_sweep_lem :
    (d k m : ℕ) (t : PrefixTree) (h : ℕ → ℕ → ℕ)
    → m ≤ 2 ^ k
    → (Row d k (up_sweep (2 ^ k) h t m) 0 m (λ p. h p d) (λ p. key_density (h p) d))
      × Above d k (up_sweep (2 ^ k) h t m) 0 m (λ p. h p d) (λ p. key_density (h p) d)
unfolding up_sweep
up_sweep_lem d k zero t h le = (Row-none d k t 0 _ _, Above-none d k t 0 _ _)
up_sweep_lem d k (suc m) t h le =
    let s = up_sweep (2 ^ k) h t m in
    let u = put_leaf s m (h m) in
    let (row, above) = up_sweep_lem d k m t h (omega arith) in
    let start : ◌≡◌ {A = ℕ × ℕ} (0 + m, 0 + 2 ^ k) (m, 2 ^ k) =
      rw (zero-add m, zero-add (2 ^ k)) refl in
    let row' = put_leaf-Row d k s m h row in
    let above' =
      Above-frame d k s u 0 m (λ p. h p d) (λ p. key_density (h p) d)
        (λ node ge. put_leaf_frame d s m (h m) node (ground arith)) above in
    (
      Row-frame d k u (climb m u m m (2 ^ k / 2) (2 ^ k)) 0 (suc m) _ _
          (λ node ge lt. climb_frame d m u m m (2 ^ k / 2) (2 ^ k) node (omega arith)) row',
      subst
          (λ z.
            Above d k (climb m u z.0 m (2 ^ k / 2) z.1) 0 (suc m) (λ p. h p d)
              (λ p. key_density (h p) d))
          start (climb-Above d m k u 0 m _ _ (omega arith) (omega arith) row' above'),
    )
