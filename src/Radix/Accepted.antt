-- ===== src/Radix/Accepted.antt =====
-- The options that `main` accepts, and the radix 1 among them.
use computer_architect.Common.{
  ℕ, zero, suc, ◌+◌, ◌/◌, ◌^◌, ◌<◌, ◌≤◌, ◌≡◌, refl, arith, sym, subst, ◌==◌, ◌↔◌, ltb, leb, Bool,
  true, false, some, Option-cases, inl, inr,
}
use computer_architect.Common.Bits.{pow_mono}
use computer_architect.Common.Masks.{pow_pos}
use computer_architect.Common.Runs.{Run, Exit, done, exit, spent, ◌>>◌, unless}
use computer_architect.Radix.{
  Options, PrefixTree, check_options, count_digits, get_max_digits, log_2, sort_keys, is_some,
}
use computer_architect.Radix.Digits.{log_2_lem}

unless-done :
    (m : Run (Unit {0})) (b : Bool) (e : Exit)
    → (m >> unless b e) ≡ done tt
    → (m ≡ done tt) × (b ≡ true)
unless-done (done tt) true e h = (refl, refl)
unless-done (done tt) false e h = absurd cc
unless-done (exit message) b e h = absurd cc
unless-done spent b e h = absurd cc

unless-true : (b : Bool) (e : Exit) → unless b e ≡ done tt → b ≡ true
unless-true true e h = refl
unless-true false e h = absurd cc

is_some-log_2 : (number : ℕ) → is_some (log_2 number) ≡ true → (r : ℕ) × (number ≡ 2 ^ r) × (r ≤ 50)
is_some-log_2 number h = elim (Option-cases (log_2 number)) [
  | inl none_e ↦ let clash : ◌≡◌ {A = Bool} false true = rw none_e at h in absurd cc
  | inr (r, e) ↦ let (power, short) = (log_2_lem number r).0 e in (r, power, short)
]

-- `main` accepts the options exactly when there are 1 to MAX_PROCESSORS processes, a radix that is a
-- power of two up to 2 ^ 50, at least one key and a greatest key of at least 1.
pub check_options_iff :
    (o : Options)
    → (check_options o ≡ done tt) ↔ (
        (0 < o.number_of_processors)
        × (o.number_of_processors ≤ 64)
        × ((r : ℕ) × (o.radix ≡ 2 ^ r) × (r ≤ 50))
        × (0 < o.num_keys)
        × (0 < o.max_key))
unfolding check_options
check_options_iff o = (
  λ h.
      let (h1, key) = unless-done _ _ _ h in
      let (h2, keys) = unless-done _ _ _ h1 in
      let (h3, power) = unless-done _ _ _ h2 in
      let (h4, pos) = unless-done _ _ _ h3 in
      let (h5, most) = unless-done (unless (ltb 0 o.number_of_processors) _) _ _ h4 in
      let some = unless-true _ _ h5 in
      (ground arith, ground arith, is_some-log_2 o.radix power, ground arith, ground arith),
  λ (some_p, most, (r, power, short), keys, key).
      let e1 : ltb 0 o.number_of_processors ≡ true = ground arith in
      let e2 : leb o.number_of_processors 64 ≡ true = ground arith in
      let e3 : ltb 0 o.radix ≡ true = ground (arith, pow_pos r) in
      let e4 : log_2 o.radix ≡ some r = (log_2_lem o.radix r).1 (power, short) in
      let e5 : ltb 0 o.num_keys ≡ true = ground arith in
      let e6 : ltb 0 o.max_key ≡ true = ground arith in rw (e1, e2, e3, e4, e5, e6) refl,
)

-- A number of processes that is a power of two up to MAX_PROCESSORS.
pub options_pass :
    (o : Options) (k r : ℕ)
    → o.number_of_processors ≡ 2 ^ k
    → o.radix ≡ 2 ^ r
    → k ≤ 6
    → r ≤ 50
    → 0 < o.num_keys
    → 0 < o.max_key
    → check_options o ≡ done tt
options_pass o k r processors power few short keys key =
    (check_options_iff o).1
      (omega (arith, pow_pos k), omega (arith, pow_mono k 6 few), (r, power, short), keys, key)

count_digits_one : (fuel key_val temp : ℕ) → 0 < key_val → count_digits fuel 1 key_val temp ≡ spent
unfolding count_digits
count_digits_one zero v temp pos = refl
count_digits_one (suc left) v temp pos =
    let e : v / 1 ≡ v = omega arith in
    let more : (v == 0) ≡ false = ground arith in
    rw (e, more) (count_digits_one left v (temp + 1) pos)

-- With options that `main` accepts and radix 1, the sort has no result in any number of rounds.
pub sort_keys_one :
    (fuel : ℕ) (o : Options) (key : ℕ → ℕ → ℕ) (t : PrefixTree)
    → check_options o ≡ done tt
    → o.radix ≡ 1
    → sort_keys fuel o key t ≡ spent
unfolding sort_keys get_max_digits
sort_keys_one fuel o key t accepted one =
    let (_, _, _, _, top) = (check_options_iff o).0 accepted in
    rw
      (
        accepted,
        subst (λ z. count_digits fuel z o.max_key 1 ≡ spent) (sym one)
            (count_digits_one fuel o.max_key 1 top),
      )
      refl
