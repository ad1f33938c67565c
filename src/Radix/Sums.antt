-- ===== src/Radix/Sums.antt =====
-- Finite sums of arrays: of neighbours, of sums, and of a density.
use computer_architect.Common.{ℕ, zero, suc, ◌+◌, ◌*◌, ◌<◌, ◌≤◌, ◌≡◌, refl, ap, arith, ◌∙◌}
use computer_architect.Radix.{key_density}

unfoldable pub sum : ℕ → (ℕ → ℕ) → ℕ
sum zero f = 0
sum (suc n) f = sum n f + f n

-- The sums of neighbours.
abbrev pub pair : (ℕ → ℕ) → ℕ → ℕ
pair f q = f (2 * q) + f (suc (2 * q))

pub sum-pair : (n : ℕ) (f : ℕ → ℕ) → sum n (pair f) ≡ sum (2 * n) f
unfolding sum
sum-pair zero f = refl
sum-pair (suc n) f =
    let e : 2 * suc n ≡ suc (suc (2 * n)) = omega arith in rw (e, sum-pair n f) (omega arith)

pub sum_ext : (n : ℕ) (f g : ℕ → ℕ) → ((p : ℕ) → p < n → f p ≡ g p) → sum n f ≡ sum n g
unfolding sum
sum_ext zero f g h = refl
sum_ext (suc n) f g h = omega (arith, sum_ext n f g (λ p lt. h p (omega arith)), h n (omega arith))

pub sum_add : (n : ℕ) (f g : ℕ → ℕ) → sum n (λ p. f p + g p) ≡ sum n f + sum n g
unfolding sum
sum_add zero f g = refl
sum_add (suc n) f g = omega (arith, sum_add n f g)

pub sum-key_density :
    (n d : ℕ) (h : ℕ → ℕ → ℕ)
    → sum n (λ p. key_density (h p) d) ≡ key_density (λ i. sum n (λ p. h p i)) d
unfolding key_density
sum-key_density n zero h = refl
sum-key_density n (suc d) h =
    sum_add n (λ p. key_density (h p) d) (λ p. h p (suc d))
    ∙ ap (λ z. z + sum n (λ p. h p (suc d))) (sum-key_density n d h)

pub key_density_ext :
    (f g : ℕ → ℕ) (d : ℕ) → ((i : ℕ) → i ≤ d → f i ≡ g i) → key_density f d ≡ key_density g d
unfolding key_density
key_density_ext f g zero h = h 0 (omega arith)
key_density_ext f g (suc d) h =
    omega (arith, key_density_ext f g d (λ i le. h i (omega arith)), h (suc d) (omega arith))

pub key_density-sum : (f : ℕ → ℕ) (d : ℕ) → key_density f d ≡ sum (suc d) f
unfolding key_density sum
key_density-sum f zero = omega arith
key_density-sum f (suc d) = ap (λ z. z + f (suc d)) (key_density-sum f d)
