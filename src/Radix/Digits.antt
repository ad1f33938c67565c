-- ===== src/Radix/Digits.antt =====
-- The digits of a key, and how many the greatest key has.
use computer_architect.Common.{
  ℕ, zero, suc, ◌+◌, ◌-◌, ◌*◌, ◌/◌, ◌%◌, ◌^◌, ◌<◌, ◌≤◌, ◌≡◌, refl, ap, arith, sym, subst, ◌∙◌, ◌↔◌,
  ltb, Option, some, none, true, false, Bool-cases, inl, inr, bit_and, ◌==◌,
}
use computer_architect.Common.Bits.{pow_mono_lt}
use computer_architect.Common.Bits.Step.{bit_and_step}
use computer_architect.Common.Masks.{bit_and-low, pow_pos, mod-div}
use computer_architect.Common.Runs.{done}
use computer_architect.Radix.{digit_of, double_up, log_2, count_digits, get_max_digits}
use native.Mathlib.Nat.{
  pow-suc, pow-zero, pow-succ', div-div-eq-div-mul, mul_assoc, mod-lt, div-add-mod',
  mul-add-mod_self_right, div-lt_iff_lt-mul, le-div_iff_mul-le, mul-le-mul_left, add-mul,
}

mask_half : (m s : ℕ) → m * 2 ^ suc s / 2 ≡ m * 2 ^ s
mask_half m s =
    let e : m * 2 ^ suc s ≡ m * 2 ^ s * 2 =
      ap (λ z. m * z) (pow-suc 2 s) ∙ sym (mul_assoc m (2 ^ s) 2) in
    omega (arith, e)

-- The digit of a key is that of its quotient.
pub digit_of_lem : (r s key : ℕ) → digit_of (2 ^ r) s key ≡ key / 2 ^ s % 2 ^ r
unfolding digit_of
digit_of_lem r zero key =
    let one : (2 ^ r - 1) * 2 ^ 0 ≡ 2 ^ r - 1 = omega arith in
    let whole : (v : ℕ) → v / 2 ^ 0 ≡ v = λ v. omega arith in
    rw (one, whole, whole) (bit_and-low r key)
digit_of_lem r (suc s) key =
    let mask = (2 ^ r - 1) * 2 ^ suc s in
    let half : bit_and key mask / 2 ≡ bit_and (key / 2) ((2 ^ r - 1) * 2 ^ s) =
      omega
        (arith, bit_and_step key mask, ap (λ z. bit_and (key / 2) z) (mask_half (2 ^ r - 1) s)) in
    let down : (v : ℕ) → v / 2 ^ suc s ≡ v / 2 / 2 ^ s =
      λ v. ap (λ z. v / z) (pow-succ' 2 s) ∙ sym (div-div-eq-div-mul v 2 (2 ^ s)) in
    down (bit_and key mask)
    ∙ ap (λ z. z / 2 ^ s) half
    ∙ digit_of_lem r s (key / 2)
    ∙ ap (λ z. z % 2 ^ r) (sym (down key))

pub digit_of-lt : (r s key : ℕ) → digit_of (2 ^ r) s key < 2 ^ r
digit_of-lt r s key = rw (digit_of_lem r s key) (mod-lt _ (pow_pos r))

pub pow_sum : (b o s : ℕ) → b ^ (o + s) ≡ b ^ s * b ^ o
pow_sum b o zero = let e : o + 0 ≡ o = omega arith in rw (e, pow-zero b) (omega arith)
pow_sum b o (suc s) =
    let e : o + suc s ≡ suc (o + s) = omega arith in
    rw e (
      pow-succ' b (o + s)
      ∙ ap (λ z. b * z) (pow_sum b o s)
      ∙ sym (mul_assoc b (b ^ s) (b ^ o))
      ∙ ap (λ z. z * b ^ o) (sym (pow-succ' b s)))

pub pow_product : (b r l : ℕ) → (b ^ r) ^ l ≡ b ^ (l * r)
pow_product b r zero = let e : 0 * r ≡ 0 = omega arith in rw (e, pow-zero (b ^ r), pow-zero b) refl
pow_product b r (suc l) =
    let e : suc l * r ≡ l * r + r = omega (arith, add-mul l 1 r) in
    rw e (pow-succ' (b ^ r) l ∙ ap (λ z. b ^ r * z) (pow_product b r l) ∙ sym (pow_sum b (l * r) r))

-- The low `o + s` bits are a digit of `s` bits and the low `o` bits.
pub mod_split : (o s v : ℕ) → v % 2 ^ (o + s) ≡ (v / 2 ^ o % 2 ^ s) * 2 ^ o + v % 2 ^ o
mod_split o s v =
    let w = v % 2 ^ (o + s) in
    let q = v / 2 ^ (o + s) in
    let whole : q * 2 ^ s * 2 ^ o + w ≡ v =
      ap (λ z. z + w) (mul_assoc q (2 ^ s) (2 ^ o) ∙ ap (λ z. q * z) (sym (pow_sum 2 o s)))
      ∙ div-add-mod' v (2 ^ (o + s)) in
    let low : w % 2 ^ o ≡ v % 2 ^ o =
      sym (mul-add-mod_self_right (q * 2 ^ s) (2 ^ o) w) ∙ ap (λ z. z % 2 ^ o) whole in
    sym (div-add-mod' w (2 ^ o)) ∙ rw (mod-div o s v, low) refl

count_digits_lem :
    (fuel radix key_val temp : ℕ)
    → 1 < radix
    → 0 < key_val
    → key_val < fuel
    → (e : ℕ) × (count_digits fuel radix key_val temp ≡ done (temp + e))
      × (radix ^ e ≤ key_val)
      × (key_val < radix ^ suc e)
unfolding count_digits
count_digits_lem zero radix v temp big pos lt = absurd (omega arith)
count_digits_lem (suc left) radix v temp big pos lt = elim (Bool-cases (v / radix == 0)) [
  | inl last ↦
      let zero_e : temp + 0 ≡ temp = omega arith in
      let small = (div-lt_iff_lt-mul {k = radix} {x = v} {y = 1} (omega arith)).0 (ground arith) in
      (
        0,
        rw (last, zero_e) refl,
        rw (pow-zero radix) (omega arith),
        rw (pow-suc radix 0, pow-zero radix) (omega (arith, small)),
      )
  | inr more ↦
      let less =
        (div-lt_iff_lt-mul {k = radix} {x = v} {y = v} (omega arith)).1
          (omega (arith, mul-le-mul_left {m = 2} {n = radix} v (omega arith))) in
      let (e, runs, low, high) =
        count_digits_lem left radix (v / radix) (temp + 1) big (ground arith)
          (omega (arith, less)) in
      let next : temp + 1 + e ≡ temp + suc e = omega arith in
      (
        suc e,
        rw (more, runs, next) refl,
        omega (
          arith,
          pow-suc radix e,
          (le-div_iff_mul-le {k = radix} {x = radix ^ e} {y = v} (omega arith)).0 low,
        ),
        omega (
          arith,
          pow-suc radix (suc e),
          (div-lt_iff_lt-mul {k = radix} {x = v} {y = radix ^ suc e} (omega arith)).0 high,
        ),
      )
]

-- With a radix of at least 2 the loop of get_max_digits ends, and the greatest key has that many
-- digits and no fewer.
pub get_max_digits_lem :
    (fuel radix max_key : ℕ)
    → 1 < radix
    → 0 < max_key
    → max_key < fuel
    → (e : ℕ) × (get_max_digits fuel radix max_key ≡ done (suc e))
      × (radix ^ e ≤ max_key)
      × (max_key < radix ^ suc e)
unfolding get_max_digits
get_max_digits_lem fuel radix max_key big pos lt =
    let (e, runs, low, high) = count_digits_lem fuel radix max_key 1 big pos lt in
    let next : 1 + e ≡ suc e = omega arith in (e, runs ∙ ap done next, low, high)

double_up-reaches :
    (left o j : ℕ) → j ≤ left → double_up left (2 ^ (o + j)) (2 ^ o) o ≡ (2 ^ (o + j), o + j)
unfolding double_up
double_up-reaches left o zero le = stays left o
  where
    stays : (left o : ℕ) → double_up left (2 ^ (o + 0)) (2 ^ o) o ≡ (2 ^ (o + 0), o + 0)
    stays zero o = let e : o + 0 ≡ o = omega arith in rw e refl
    stays (suc left) o =
        let e : o + 0 ≡ o = omega arith in
        let stop : ltb (2 ^ o) (2 ^ o) ≡ false = ground arith in rw (e, stop) refl
double_up-reaches zero o (suc j) le = absurd (omega arith)
double_up-reaches (suc left) o (suc j) le =
    let e : o + suc j ≡ o + 1 + j = omega arith in
    let double : 2 ^ o * 2 ≡ 2 ^ (o + 1) = sym (pow-suc 2 o) ∙ ap (λ z. 2 ^ z) (omega arith) in
    let less : ltb (2 ^ o) (2 ^ (o + suc j)) ≡ true =
      ground (arith, pow_mono_lt o (o + suc j) (omega arith)) in
    rw (less, double, e) (double_up-reaches left (o + 1) j (omega arith))

double_up-power :
    (left number o : ℕ) → (e : ℕ) × (double_up left number (2 ^ o) o ≡ (2 ^ e, e)) × (e ≤ o + left)
unfolding double_up
double_up-power zero number o = (o, refl, omega arith)
double_up-power (suc left) number o = elim (Bool-cases (ltb (2 ^ o) number)) [
  | inl less ↦
      let double : 2 ^ o * 2 ≡ 2 ^ (o + 1) = sym (pow-suc 2 o) ∙ ap (λ z. 2 ^ z) (omega arith) in
      let (e, same, le) = double_up-power left number (o + 1) in
      (e, rw (less, double) same, omega arith)
  | inr enough ↦ (o, rw enough refl, omega arith)
]

-- log_2 has a result exactly for the powers of two up to 2 ^ 50, the exponent.
pub log_2_lem : (number r : ℕ) → (log_2 number ≡ some r) ↔ ((number ≡ 2 ^ r) × (r ≤ 50))
unfolding log_2
log_2_lem number r = (
  λ h.
      let (e, same, le) = double_up-power 50 number 0 in
      let found = rw same at h in
      elim (Bool-cases (2 ^ e == number)) [
        | inl at ↦
            let r_e : ◌≡◌ {A = Option ℕ} (some e) (some r) = rw at at found in
            let e_r : e ≡ r = cc in (rw⁻¹ e_r (ground arith), omega (arith, e_r))
        | inr off ↦ let clash : ◌≡◌ {A = Option ℕ} none (some r) = rw off at found in cc
      ],
  λ h.
      let start : 0 + r ≡ r = omega arith in
      let runs : double_up 50 (2 ^ r) 1 0 ≡ (2 ^ r, r) =
        subst (λ z. double_up 50 (2 ^ z) 1 0 ≡ (2 ^ z, z)) start (double_up-reaches 50 0 r h.1) in
      let same : (2 ^ r == 2 ^ r) ≡ true = ground arith in rw h.0 (rw (runs, same) refl),
)
