-- ===== src/Cache/Sets.antt =====
-- Cache sets: the search for a tag, the victim, and the replacement never fail on a set with a
-- line, as long as the counters stay below their last value.
use computer_architect.Common.{
  ℕ, suc, ◌+◌, ◌≤◌, ◌<◌, List, [], ◌∷◌, Bool, true, false, ◌==◌, ◌≡◌, ◌⊎◌, refl, ◌∙◌, inl, inr,
  Bool-cases, ok, arith, length, set, All, All-set, All-get_elem?, All-imp, get_elem?_in_range,
  length-set, all_ones, u64,
}
use computer_architect.Profile.{Profile}
use computer_architect.Coherence.{DirMsi, line_at, invalidate}
use computer_architect.Coherence.Lines.{Writes}
use computer_architect.Coherence.Valid.{DirValid, Writes-DirValid}
use computer_architect.Coherence.Evicts.{
  after_evict, invalidate-Writes, after_evict-LineValid, KeepsDemand, KeepsDemand-refl,
}
use computer_architect.Cache.Victims.{choose_victim_lem}
use computer_architect.Cache.{
  LocalStatus, uncached, is_cached, CacheLine, touch_line, fetch_tag, evict, fill, replace_line,
  CacheSet, fetch_single_line,
}

-- The counter of a line is at most `k`.
abbrev pub Below : ℕ → CacheLine → Type 0
Below k l = l.lru ≤ k

Below-suc : (k : ℕ) (ls : List CacheLine) → All (Below k) ls → All (Below (suc k)) ls
Below-suc k ls h = All-imp (Below k) (Below (suc k)) ls (λ l p. omega arith) h

touch_line_lem :
    (k : ℕ) (replace : Bool) (l : CacheLine)
    → l.lru ≤ k
    → suc k < all_ones
    → (l' : CacheLine) × (touch_line replace l ≡ ok l') × (l'.lru ≤ suc k)
unfolding touch_line
touch_line_lem k false l h b = (l, refl, omega arith)
touch_line_lem k true l h b = (record l { lru = u64 (l.lru + 1) }, ground arith, omega arith)

-- The search for a tag returns, and keeps the number of lines.
pub fetch_tag_lem :
    (k tag : ℕ) (replace : Bool) (ls : List CacheLine)
    → All (Below k) ls
    → suc k < all_ones
    → (x : LocalStatus × List CacheLine) × (fetch_tag tag replace ls ≡ ok x)
      × (length x.1 ≡ length ls)
      × All (Below (suc k)) x.1
unfolding fetch_tag
fetch_tag_lem k tag replace [] h b = ((uncached, []), refl, refl, tt)
fetch_tag_lem k tag replace (l ∷ ls) h b = elim (Bool-cases (l.tag == tag)) [
  | inl found ↦
      let (l', touched, low) = touch_line_lem k replace l h.0 b in
      ((l'.status, l' ∷ ls), rw (found, touched) refl, refl, (low, Below-suc k ls h.1))
  | inr other ↦
      let ((status, ls'), rest, size, low) = fetch_tag_lem k tag replace ls h.1 b in
      ((status, l ∷ ls'), rw (other, rest) refl, omega (arith, size), (omega (arith, h.0), low))
]

-- What the lines of the directory are after calls that evict lines of processor `p`: each line is
-- as it was, or as an eviction by `p` leaves it. Loads and stores keep their statistics.
pub record Evicts (det : Bool) (p : ℕ) (c c' : DirMsi) : Type 0 where
  pub lines :
      (b : ℕ) → (line_at c' b ≡ line_at c b) ⊎ (line_at c' b ≡ after_evict det (line_at c b) p)
  pub keeps : KeepsDemand c.profiles c'.profiles

pub Evicts-refl : (det : Bool) (p : ℕ) (c : DirMsi) → Evicts det p c c
Evicts-refl det p c = record { lines = λ b. inl refl; keeps = KeepsDemand-refl c.profiles }

one_line :
    (det : Bool) (p : ℕ) (c : DirMsi) (addr : ℕ) {q : Profile} (c' : DirMsi)
    → Writes c addr (after_evict det (line_at c addr) p) q c'
    → (b : ℕ) → (line_at c' b ≡ line_at c b) ⊎ (line_at c' b ≡ after_evict det (line_at c b) p)
one_line det p c addr c' w b = elim (Bool-cases (addr == b)) [
  | inl here ↦ inr (ground (arith, w.lines b))
  | inr other ↦ inl (ground (arith, w.lines b))
]

fill_lem :
    (k : ℕ) (replace : Bool) (tag addr : ℕ) (l : CacheLine)
    → l.lru ≤ k
    → suc k < all_ones
    → (fill replace tag addr l).lru ≤ suc k
unfolding fill
fill_lem k true tag addr l h b = omega arith
fill_lem k false tag addr l h b = omega arith

module _ {det : Bool} (n : ℕ) (le : n ≤ 16) (p : ℕ) (h : p < n) where
  -- An eviction returns, keeps the directory valid, and changes one line at most.
  pub invalidate_valid :
      (c : DirMsi) (addr : ℕ)
      → DirValid det n c
      → (c' : DirMsi) × (invalidate c p addr ≡ ok c') × DirValid det n c' × Evicts det p c c'
  invalidate_valid c addr v =
      let (c', done, w, kept) = invalidate-Writes det c p addr v.mode (rw v.profile_size h) in
      (
        c',
        done,
        Writes-DirValid c addr c' v w
            (after_evict-LineValid n (line_at c addr) p h (omega arith) (v.lines addr))
            (kept.same_size ∙ v.profile_size),
        record { lines = λ b. one_line det p c addr c' w b; keeps = kept },
      )

  evict_lem :
      (l : CacheLine) (ls : List CacheLine) (c : DirMsi)
      → DirValid det n c
      → (x : ℕ × DirMsi) × (evict (l ∷ ls) p c ≡ ok x)
        × (x.0 < length (l ∷ ls))
        × DirValid det n x.1
        × Evicts det p c x.1
  unfolding evict
  evict_lem l ls c v =
      let (victim, chosen, best) = choose_victim_lem l ls in
      elim (Bool-cases (is_cached best.line.status)) [
        | inl held ↦
            let (c', done, valid, evicts) = invalidate_valid c victim.addr v in
            (
              (victim.index, c'),
              rw (chosen, best.found, held, done) refl,
              best.inside,
              valid,
              evicts,
            )
        | inr free ↦ (
          (victim.index, c),
          rw (chosen, best.found, free) refl,
          best.inside,
          v,
          Evicts-refl det p c,
        )
      ]

  replace_line_lem :
      (k tag addr : ℕ) (replace : Bool) (ls : List CacheLine) (c : DirMsi)
      → 0 < length ls
      → All (Below k) ls
      → suc k < all_ones
      → DirValid det n c
      → (x : List CacheLine × DirMsi) × (replace_line p tag addr replace ls c ≡ ok x)
        × (length x.0 ≡ length ls)
        × All (Below (suc k)) x.0
        × DirValid det n x.1
        × Evicts det p c x.1
  unfolding replace_line
  replace_line_lem k tag addr replace [] c pos low b v = absurd (omega arith)
  replace_line_lem k tag addr replace (l ∷ ls) c pos low b v =
      let ((index, c'), done, inside, valid, evicts) = evict_lem l ls c v in
      let (old, found) = get_elem?_in_range (l ∷ ls) index inside in
      let filled = fill replace tag addr old in
      (
        (set (l ∷ ls) index filled, c'),
        rw (done, found) refl,
        length-set (l ∷ ls) index filled,
        All-set (Below (suc k)) (l ∷ ls) index filled (Below-suc k (l ∷ ls) low) (
            fill_lem k replace tag addr old (All-get_elem? (Below k) (l ∷ ls) index old low found)
              b),
        valid,
        evicts,
      )

  -- A fetch keeps the size of the set, the counters and the directory in bounds.
  pub fetch_single_line-Evicts :
      (k tag addr : ℕ) (replace : Bool) (s : CacheSet) (c : DirMsi)
      → 0 < length s.lines
      → All (Below k) s.lines
      → suc (suc k) < all_ones
      → DirValid det n c
      → (x : CacheSet × DirMsi) × (fetch_single_line s p tag addr c replace ≡ ok x)
        × (length x.0.lines ≡ length s.lines)
        × All (Below (suc (suc k))) x.0.lines
        × DirValid det n x.1
        × Evicts det p c x.1
  unfolding fetch_single_line
  fetch_single_line-Evicts k tag addr replace s c pos low b v =
      let ((status, ls), searched, size, low') =
        fetch_tag_lem k tag replace s.lines low (omega arith) in
      elim (Bool-cases (is_cached status)) [
        | inl hit ↦ (
          (record s { lines = ls }, c),
          rw (searched, hit) refl,
          size,
          Below-suc (suc k) ls low',
          v,
          Evicts-refl det p c,
        )
        | inr other ↦
            let ((ls', c'), replaced, size', low'', valid, evicts) =
              replace_line_lem (suc k) tag addr replace ls c (rw size pos) low' b v in
            (
              (record s { lines = ls' }, c'),
              rw (searched, other, replaced) refl,
              size' ∙ size,
              low'',
              valid,
              evicts,
            )
      ]
