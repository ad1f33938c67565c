-- ===== src/Radix/Passes.antt =====
-- The passes over all digits, from one array to the other.
use computer_architect.Common.{
  ℕ, zero, suc, ◌+◌, ◌-◌, ◌*◌, ◌^◌, ◌<◌, ◌≤◌, ◌≡◌, refl, ap, arith, sym, subst, ◌==◌, true, false,
}
use std.Path.{fun_ext}
use computer_architect.Radix.{
  Options, PrefixTree, Sorting, digit_of, counting_pass, flip, sort_digit, sort_digits, final_keys,
  store_row,
}
use computer_architect.Radix.Pass.{Placed, digits_of, counting_pass_places}
use computer_architect.Radix.Sorted.{
  OrderedLow, Permuted, Permuted-trans, Placed-Permuted, Placed-OrderedLow,
}
use native.Mathlib.Nat.{add-mul, zero-mul}

-- The keys of an array, after the digits of `low` bits: the first keys in another order, in order by
-- these bits.
abbrev pub Reached : (low n : ℕ) → (first key : ℕ → ℕ) → Type 0
Reached low n first key = Permuted n first key × OrderedLow low n key

-- `from` and `to` are the two arrays.
abbrev pub Sides : Sorting → Type 0
Sides s = (s.to ≡ flip s.from) × (s.from ≡ flip s.to)

-- One pass.
pass-Reached :
    (k r l n : ℕ) (first key_from key_to part : ℕ → ℕ) (t : PrefixTree)
    → ((m : ℕ) → m < 2 ^ k → part m ≤ part (suc m))
    → part 0 ≡ 0
    → part (2 ^ k) ≡ n
    → Reached (l * r) n first key_from
    → Reached
        (suc l * r)
        n
        first
        (counting_pass (2 ^ k) (digit_of (2 ^ r) (l * r)) part key_from key_to t).1
pass-Reached k r l n first key_from key_to part t parted start end (permuted, ordered) =
    let to = (counting_pass (2 ^ k) (digit_of (2 ^ r) (l * r)) part key_from key_to t).1 in
    let placed : Placed (digits_of (digit_of (2 ^ r) (l * r)) key_from) n n key_from to =
      counting_pass_places k (digit_of (2 ^ r) (l * r)) key_from key_to part n t parted start end in
    let next : l * r + r ≡ suc l * r = omega (arith, add-mul l 1 r) in
    (
      Permuted-trans n first key_from to permuted (Placed-Permuted r (l * r) n key_from to placed),
      subst (λ z. OrderedLow z n to) next
          (Placed-OrderedLow r (l * r) n key_from to placed ordered),
    )

store_row-at :
    (key : ℕ → ℕ → ℕ) (side place : ℕ) (row : ℕ → ℕ)
    → (place == side) ≡ true
    → store_row key side row place ≡ row
store_row-at key side place row at = fun_ext (λ i. rw at refl)

module _ (k r digits : ℕ) (o : Options) (part : ℕ → ℕ) (first : ℕ → ℕ)
    (processors : o.number_of_processors ≡ 2 ^ k) (power : o.radix ≡ 2 ^ r)
    (parted : (m : ℕ) → m < 2 ^ k → part m ≤ part (suc m)) (start : part 0 ≡ 0)
    (end : part (2 ^ k) ≡ o.num_keys) where
  pass_keys :
      (s : Sorting) (l : ℕ)
      → Reached (l * r) o.num_keys first (s.key s.from)
      → Reached
          (suc l * r)
          o.num_keys
          first
          (counting_pass o.number_of_processors
            (digit_of o.radix (l * r))
            part
            (s.key s.from)
            (s.key s.to)
            s.prefix_tree).1
  pass_keys s l reached =
      subst
        (λ z.
          Reached (suc l * r) o.num_keys first
            (counting_pass z (digit_of o.radix (l * r)) part (s.key s.from) (s.key s.to)
              s.prefix_tree).1)
        (sym processors)
        (subst
          (λ z.
            Reached (suc l * r) o.num_keys first
              (counting_pass (2 ^ k) (digit_of z (l * r)) part (s.key s.from) (s.key s.to)
                s.prefix_tree).1)
          (sym power)
          (pass-Reached k r l o.num_keys first (s.key s.from) (s.key s.to) part s.prefix_tree parted
            start end reached))

  -- An iteration that is not the last one leaves the keys in the next `from`.
  sort_digit-from :
      (s : Sorting) (l : ℕ)
      → (l == digits - 1) ≡ false
      → Sides s
      → Reached (l * r) o.num_keys first (s.key s.from)
      → (Sides (sort_digit o r digits part s l))
        × Reached
            (suc l * r)
            o.num_keys
            first
            ((sort_digit o r digits part s l).key (sort_digit o r digits part s l).from)
  unfolding sort_digit
  sort_digit-from s l more (to, from) reached =
      let here : (flip s.from == s.to) ≡ true = ground (arith, to) in
      rw more (
        (ap flip to, ap flip from),
        subst (λ z. Reached (suc l * r) o.num_keys first z)
            (sym (store_row-at s.key s.to (flip s.from) _ here)) (pass_keys s l reached),
      )

  -- The last one leaves them in `to`.
  sort_digit-to :
      (s : Sorting) (l : ℕ)
      → (l == digits - 1) ≡ true
      → Reached (l * r) o.num_keys first (s.key s.from)
      → Reached (suc l * r) o.num_keys first (final_keys (sort_digit o r digits part s l))
  unfolding sort_digit final_keys
  sort_digit-to s l last reached =
      let here : (s.to == s.to) ≡ true = ground arith in
      rw last (
        subst (λ z. Reached (suc l * r) o.num_keys first z)
          (sym (store_row-at s.key s.to s.to _ here)) (pass_keys s l reached))

  sort_digits-from :
      (s : Sorting) (l : ℕ)
      → l ≤ digits - 1
      → Sides s
      → Reached 0 o.num_keys first (s.key s.from)
      → (Sides (sort_digits o r digits part s l))
        × Reached
            (l * r)
            o.num_keys
            first
            ((sort_digits o r digits part s l).key (sort_digits o r digits part s l).from)
  unfolding sort_digits
  sort_digits-from s zero le sides reached = (sides, rw (zero-mul r) reached)
  sort_digits-from s (suc l) le sides reached =
      let (sides', reached') = sort_digits-from s l (omega arith) sides reached in
      sort_digit-from (sort_digits o r digits part s l) l (ground arith) sides' reached'

  pub sort_digits-final :
      (s : Sorting) (l : ℕ)
      → digits ≡ suc l
      → Sides s
      → Reached 0 o.num_keys first (s.key s.from)
      → Reached (suc l * r) o.num_keys first (final_keys (sort_digits o r digits part s (suc l)))
  unfolding sort_digits
  sort_digits-final s l e sides reached =
      sort_digit-to (sort_digits o r digits part s l) l (ground arith)
        (sort_digits-from s l (omega arith) sides reached).1
