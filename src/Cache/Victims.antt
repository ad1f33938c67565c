-- ===== src/Cache/Victims.antt =====
-- `Cache_Set::evict` of cache.H: which line of the set its loop chooses.
use computer_architect.Common.{
  ℕ, zero, suc, ◌+◌, ◌≤◌, ◌<◌, List, [], ◌∷◌, ◌==◌, ltb, if◌then◌else◌, ◌≡◌, refl, some, subst, inl,
  inr, Bool-cases, ok, arith, length, get_elem?,
}
use native.Mathlib.Nat.{add-zero}
use computer_architect.Cache.{CacheLine, Victim, scan, choose_victim}

-- Among the first `i` lines of a set, `v` names the first with the least counter. The address is
-- that line's, but for line 0, where it is 0.
pub record IsVictim (all : List CacheLine) (i : ℕ) (v : Victim) : Type 0 where
  pub line : CacheLine
  pub inside : v.index < i
  pub found : get_elem? all v.index ≡ some line
  pub counter : line.lru ≡ v.least
  pub address : v.addr ≡ (if v.index == 0 then 0 else line.addr)
  pub least : (j : ℕ) (m : CacheLine) → j < i → get_elem? all j ≡ some m → v.least ≤ m.lru
  pub first : (j : ℕ) (m : CacheLine) → j < v.index → get_elem? all j ≡ some m → v.least < m.lru

module _ (all : List CacheLine) where
  -- One round of the loop, at line `l` with the index `i`.
  abbrev better : ℕ → CacheLine → Victim → Victim
  better i l v = if ltb l.lru v.least then record { least = l.lru; index = i; addr = l.addr } else v

  round-IsVictim :
      (i : ℕ) (l : CacheLine) (v : Victim)
      → 0 < i
      → get_elem? all i ≡ some l
      → IsVictim all i v
      → IsVictim all (i + 1) (better i l v)
  round-IsVictim i l v pos here b = elim (Bool-cases (ltb l.lru v.least)) [
    | inl less ↦ rw less (record {
      line = l;
      inside = omega arith;
      found = here;
      counter = refl;
      address = ground arith;
      least = λ j m h e. ground (arith, b.least j m);
      first = λ j m h e. ground (arith, b.least j m);
    })
    | inr more ↦ rw more (record {
      line = b.line;
      inside = omega (arith, b.inside);
      found = b.found;
      counter = b.counter;
      address = b.address;
      least = λ j m h e. ground (arith, b.least j m);
      first = b.first;
    })
  ]

  scan-IsVictim :
      (i : ℕ) (ls : List CacheLine) (v : Victim) (n : ℕ)
      → 0 < i
      → i + length ls ≡ n
      → ((j : ℕ) → get_elem? all (i + j) ≡ get_elem? ls j)
      → IsVictim all i v
      → IsVictim all n (scan i ls v)
  unfolding scan
  scan-IsVictim i [] v n pos e rest b = subst (λ k. IsVictim all k v) (omega arith) b
  scan-IsVictim i (l ∷ ls) v n pos e rest b =
      scan-IsVictim (i + 1) ls (better i l v) n (omega arith) (omega arith)
        (λ j. let e' : i + 1 + j ≡ i + suc j = omega arith in rw e' (rest (suc j)))
        (round-IsVictim i l v pos (subst (λ k. get_elem? all k ≡ some l) (add-zero i) (rest 0)) b)

first-IsVictim :
    (l : CacheLine) (ls : List CacheLine)
    → IsVictim (l ∷ ls) 1 (record { least = l.lru; index = 0; addr = 0 })
first-IsVictim l ls = record {
  line = l;
  inside = omega arith;
  found = refl;
  counter = refl;
  address = refl;
  least = first_line;
  first = λ j m h e. absurd (omega arith);
}
  where
    first_line : (j : ℕ) (m : CacheLine) → j < 1 → get_elem? (l ∷ ls) j ≡ some m → l.lru ≤ m.lru
    first_line zero m h e = ground arith
    first_line (suc j) m h e = absurd (omega arith)

-- On a set that has a line, the victim is the first of the lines with the least counter. The
-- address to invalidate is that line's address when the index is above 0, and the address 0 when
-- the index is 0, whatever line 0 holds.
pub choose_victim_lem :
    (l : CacheLine) (ls : List CacheLine)
    → (v : Victim) × (choose_victim (l ∷ ls) ≡ ok v) × IsVictim (l ∷ ls) (length (l ∷ ls)) v
unfolding choose_victim
choose_victim_lem l ls =
    let v0 : Victim = record { least = l.lru; index = 0; addr = 0 } in
    (
      scan 1 ls v0,
      refl,
      scan-IsVictim (l ∷ ls) 1 ls v0 (suc (length ls)) (omega arith) (omega arith)
          (λ j. let e : 1 + j ≡ suc j = omega arith in rw e refl) (first-IsVictim l ls),
    )
