-- ===== src/Common/Assoc.antt =====
-- `std::unordered_map<uint64_t, V>` as an association list; the order of the entries is that of
-- their insertion, and is not part of what the program relies on.
use computer_architect.Common.Tests.{◌==◌, if◌then◌else◌, Bool-cases}
use computer_architect.Common.Lists.{All}
use Prim.Native.Nat.{ℕ}
use mathlib.Core.Bool.{false}
use mathlib.Core.Path.{◌≡◌, refl, subst}
use mathlib.Core.Logic.{inl, inr}
use mathlib.Core.List.{List, [], ◌∷◌}
use mathlib.Core.Option.{Option, none, some, some-injective}
use native.Mathlib.Omega.{arith}

module _ {ℓ} {V : Type ℓ} where
  -- `find`
  unfoldable pub lookup : ℕ → List (ℕ × V) → Option V
  lookup k [] = none
  lookup k (first ∷ rest) = if first.0 == k then some first.1 else lookup k rest

  -- `m[k] = v`
  unfoldable pub insert : ℕ → V → List (ℕ × V) → List (ℕ × V)
  insert k v [] = (k, v) ∷ []
  insert k v (first ∷ rest) = if first.0 == k then (k, v) ∷ rest else first ∷ insert k v rest

  -- `erase(find(k))`
  unfoldable pub erase : ℕ → List (ℕ × V) → List (ℕ × V)
  erase k [] = []
  erase k ((j, w) ∷ m) = if j == k then m else (j, w) ∷ erase k m

  pub lookup-insert :
      (k j : ℕ) (v : V) (entries : List (ℕ × V))
      → lookup j (insert k v entries) ≡ (if k == j then some v else lookup j entries)
  unfolding lookup insert
  lookup-insert k j v [] = refl
  lookup-insert k j v (first ∷ rest) = ground (arith, lookup-insert k j v rest)

  -- The value under a key, or `d` where the key is absent: what `m[k]` reads when it default
  -- constructs `d`.
  unfoldable pub find_or : V → ℕ → List (ℕ × V) → V
  find_or d k m = elim (lookup k m) [ none ↦ d | some v ↦ v ]

  pub find_or-insert :
      (d : V) (k j : ℕ) (v : V) (m : List (ℕ × V))
      → find_or d j (insert k v m) ≡ (if k == j then v else find_or d j m)
  unfolding find_or
  find_or-insert d k j v m = ground (arith, lookup-insert k j v m)

  pub lookup-erase_ne :
      (k j : ℕ) (m : List (ℕ × V)) → (k == j) ≡ false → lookup j (erase k m) ≡ lookup j m
  unfolding lookup erase
  lookup-erase_ne k j [] h = refl
  lookup-erase_ne k j ((i, w) ∷ m) h = ground (arith, lookup-erase_ne k j m)

-- A property of the stored values.
module _ {ℓ κ} {V : Type ℓ} (P : V → Type κ) where
  abbrev pub Values : List (ℕ × V) → Type κ
  Values m = All (λ e. P e.1) m

  pub Values-insert : (k : ℕ) (v : V) (m : List (ℕ × V)) → P v → Values m → Values (insert k v m)
  unfolding insert
  Values-insert k v [] p h = (p, tt)
  Values-insert k v ((j, w) ∷ m) p h = elim (Bool-cases (j == k)) [
    | inl same ↦ rw same (p, h.1)
    | inr other ↦ rw other (h.0, Values-insert k v m p h.1)
  ]

  pub Values-erase : (k : ℕ) (m : List (ℕ × V)) → Values m → Values (erase k m)
  unfolding erase
  Values-erase k [] h = tt
  Values-erase k ((j, w) ∷ m) h = elim (Bool-cases (j == k)) [
    | inl same ↦ rw same h.1
    | inr other ↦ rw other (h.0, Values-erase k m h.1)
  ]

  pub Values-lookup : (k : ℕ) (m : List (ℕ × V)) (v : V) → lookup k m ≡ some v → Values m → P v
  unfolding lookup
  Values-lookup k [] v e h = cc
  Values-lookup k ((j, w) ∷ m) v e h = elim (Bool-cases (j == k)) [
    | inl same ↦ subst P (some-injective w v (rw same at e)) h.0
    | inr other ↦ Values-lookup k m v (rw other at e) h.1
  ]
