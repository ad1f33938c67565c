-- ===== src/Cache/Fetches.antt =====
-- What a fetch leaves in a cache set and in the directory.
use computer_architect.Common.{
  ℕ, suc, ◌+◌, ◌≤◌, ◌<◌, List, [], ◌∷◌, Bool, true, false, ◌==◌, ◌≡◌, refl, sym, subst, ◌∙◌, inl,
  inr, Bool-cases, ok, arith, length, set, All, All-get_elem?, ◌⊎◌, all_ones, u64, if◌then◌else◌,
}
use computer_architect.Coherence.{DirMsi, invalidate}
use computer_architect.Coherence.Valid.{DirValid}
use computer_architect.Cache.Sets.{
  Below, Evicts, fetch_tag_lem, fetch_single_line-Evicts, invalidate_valid,
}
use computer_architect.Cache.Victims.{IsVictim, choose_victim_lem}
use computer_architect.Cache.{
  LocalStatus, cached, uncached, is_cached, CacheLine, Victim, touch_line, fetch_tag, evict, fill,
  replace_line, CacheSet, fetch_single_line,
}

-- A counter moves up when the fetch counts.
abbrev pub counted : Bool → ℕ → ℕ
counted replace k = if replace then k + 1 else k

-- The search for a tag: the status found, `uncached` when no line has the tag, and the lines after it,
-- of which the first one with the tag is counted.
pub data Searched (tag : ℕ) (replace : Bool)
    : List CacheLine → LocalStatus → List CacheLine → Type 0 where
  absent : Searched tag replace [] uncached []
  found :
      {l : CacheLine} {ls : List CacheLine}
      → l.tag ≡ tag
      → Searched tag replace (l ∷ ls) l.status (record l { lru = counted replace l.lru } ∷ ls)
  later :
      {l : CacheLine} {ls ls' : List CacheLine} {status : LocalStatus}
      → (l.tag == tag) ≡ false
      → Searched tag replace ls status ls'
      → Searched tag replace (l ∷ ls) status (l ∷ ls')

-- The line of a victim after its replacement.
abbrev pub refilled : (tag addr : ℕ) → Bool → CacheLine → CacheLine
refilled tag addr replace l = record {
  lru = counted replace l.lru;
  tag = tag;
  addr = addr;
  lock = l.lock;
  status = cached;
}

-- A fetch by processor `p`: a hit changes the counter of the line alone. A miss replaces the victim,
-- after an invalidation of its address when it holds a line.
pub data Fetched (p tag addr : ℕ) (replace : Bool)
    : List CacheLine → DirMsi → List CacheLine → DirMsi → Type 0 where
  hit :
      {ls ls' : List CacheLine} {c : DirMsi}
      → Searched tag replace ls cached ls'
      → Fetched p tag addr replace ls c ls' c
  free :
      {ls ls' : List CacheLine} {c : DirMsi}
      → Searched tag replace ls uncached ls'
      → (v : Victim) (victim : IsVictim ls' (length ls') v) → victim.line.status ≡ uncached
      → Fetched p tag addr replace ls c (set ls' v.index (refilled tag addr replace victim.line)) c
  evicted :
      {ls ls' : List CacheLine} {c c' : DirMsi}
      → Searched tag replace ls uncached ls'
      → (v : Victim) (victim : IsVictim ls' (length ls') v) → victim.line.status ≡ cached
      → invalidate c p v.addr ≡ ok c'
      → Fetched p tag addr replace ls c (set ls' v.index (refilled tag addr replace victim.line)) c'

touch_line_counted :
    (k : ℕ) (replace : Bool) (l : CacheLine)
    → l.lru ≤ k
    → suc k < all_ones
    → touch_line replace l ≡ ok (record l { lru = counted replace l.lru })
unfolding touch_line
touch_line_counted k false l h b = refl
touch_line_counted k true l h b =
    let small : u64 (l.lru + 1) ≡ l.lru + 1 = omega arith in
    let below : (l.lru + 1 == all_ones) ≡ false = ground arith in rw (small, below) refl

fetch_tag-Searched :
    (k tag : ℕ) (replace : Bool) (ls : List CacheLine)
    → All (Below k) ls
    → suc k < all_ones
    → (x : LocalStatus × List CacheLine) × (fetch_tag tag replace ls ≡ ok x)
      × Searched tag replace ls x.0 x.1
unfolding fetch_tag
fetch_tag-Searched k tag replace [] low b = ((uncached, []), refl, absent)
fetch_tag-Searched k tag replace (l ∷ ls) low b = elim (Bool-cases (l.tag == tag)) [
  | inl same ↦ (
    (l.status, record l { lru = counted replace l.lru } ∷ ls),
    rw (same, touch_line_counted k replace l low.0 b) refl,
    found (ground arith),
  )
  | inr other ↦
      let ((status, ls'), rest, searched) = fetch_tag-Searched k tag replace ls low.1 b in
      ((status, l ∷ ls'), rw (other, rest) refl, later other searched)
]

ok-inj : {A : Type 0} {a b : A} → ok a ≡ ok b → a ≡ b
ok-inj e = cc

status-cases : (s : LocalStatus) → (s ≡ cached) ⊎ (s ≡ uncached)
status-cases cached = inl refl
status-cases uncached = inr refl

fill_lem :
    (k tag addr : ℕ) (replace : Bool) (l : CacheLine)
    → l.lru ≤ k
    → suc k < all_ones
    → fill replace tag addr l ≡ refilled tag addr replace l
unfolding fill
fill_lem k tag addr true l h b =
    let small : u64 (l.lru + 1) ≡ l.lru + 1 = omega arith in rw small refl
fill_lem k tag addr false l h b = refl

module _ {det : Bool} (n : ℕ) (le : n ≤ 16) (p : ℕ) (h : p < n) (k tag addr : ℕ) (replace : Bool)
    (b : suc (suc k) < all_ones) (c : DirMsi) (v : DirValid det n c) where
  replace_line-Fetched :
      (old ls : List CacheLine)
      → 0 < length ls
      → All (Below (suc k)) ls
      → Searched tag replace old uncached ls
      → (x : List CacheLine × DirMsi) × (replace_line p tag addr replace ls c ≡ ok x)
        × Fetched p tag addr replace old c x.0 x.1
  unfolding replace_line evict is_cached
  replace_line-Fetched old [] pos low searched = absurd (omega arith)
  replace_line-Fetched old (l ∷ ls) pos low searched =
      let (w, chosen, victim) = choose_victim_lem l ls in
      let bound = All-get_elem? (Below (suc k)) (l ∷ ls) w.index victim.line low victim.found in
      let filled = fill_lem (suc k) tag addr replace victim.line bound b in
      elim (status-cases victim.line.status) [
        | inl held ↦
            let (c', done, _, _) = invalidate_valid n le p h c w.addr v in
            (
              (set (l ∷ ls) w.index (refilled tag addr replace victim.line), c'),
              rw (chosen, victim.found, held, done, victim.found, filled) refl,
              evicted searched w victim held done,
            )
        | inr clear ↦ (
          (set (l ∷ ls) w.index (refilled tag addr replace victim.line), c),
          rw (chosen, victim.found, clear, victim.found, filled) refl,
          free searched w victim clear,
        )
      ]

  fetch-Fetched :
      (s : CacheSet)
      → 0 < length s.lines
      → All (Below k) s.lines
      → (x : CacheSet × DirMsi) × (fetch_single_line s p tag addr c replace ≡ ok x)
        × Fetched p tag addr replace s.lines c x.0.lines x.1
  unfolding fetch_single_line is_cached
  fetch-Fetched s pos low =
      let ((status, ls), ran, searched) =
        fetch_tag-Searched k tag replace s.lines low (omega arith) in
      let ((status', ls'), ran', size, low') =
        fetch_tag_lem k tag replace s.lines low (omega arith) in
      let same : ◌≡◌ {A = LocalStatus × List CacheLine} (status', ls') (status, ls) =
        ok-inj (sym ran' ∙ ran) in
      let size' : length ls ≡ length s.lines = subst (λ z. length z.1 ≡ length s.lines) same size in
      let low'' : All (Below (suc k)) ls = subst (λ z. All (Below (suc k)) z.1) same low' in
      elim (status-cases status) [
        | inl cached_e ↦ (
          (record s { lines = ls }, c),
          rw (ran, cached_e) refl,
          hit (subst (λ z. Searched tag replace s.lines z ls) cached_e searched),
        )
        | inr clear ↦
            let ((ls2, c2), replaced, fetched) =
              replace_line-Fetched s.lines ls (rw size' pos) low''
                (subst (λ z. Searched tag replace s.lines z ls) clear searched) in
            ((record s { lines = ls2 }, c2), rw (ran, clear, replaced) refl, fetched)
      ]

-- On a set that has a line, with counters at most k and k + 2 < ALL_ONES, over a valid directory
-- of n <= 16 processors, a fetch by p < n returns. The first line with the tag, if there is one,
-- has its counter moved up when the fetch counts. When that line is cached nothing else changes;
-- when it is not cached or no line has the tag, the victim gets the tag and the address, becomes
-- cached and has its counter moved up when the fetch counts, and the directory is invalidated for
-- p at the victim's address exactly when the victim was cached. The number of lines stays,
-- counters are at most k + 2, and the directory stays valid and changes by evictions of p alone.
pub fetch_single_line_lem :
    {det : Bool} (n : ℕ)
    → n ≤ 16
    → (p : ℕ) → p < n
    → (k tag addr : ℕ) (replace : Bool) (s : CacheSet) (c : DirMsi) → 0 < length s.lines
    → All (Below k) s.lines
    → suc (suc k) < all_ones
    → DirValid det n c
    → (x : CacheSet × DirMsi) × (fetch_single_line s p tag addr c replace ≡ ok x)
      × Fetched p tag addr replace s.lines c x.0.lines x.1
      × (length x.0.lines ≡ length s.lines)
      × All (Below (suc (suc k))) x.0.lines
      × DirValid det n x.1
      × Evicts det p c x.1
fetch_single_line_lem n le p h k tag addr replace s c pos low b v =
    let (x, done, size, low', valid, evicts) =
      fetch_single_line-Evicts n le p h k tag addr replace s c pos low b v in
    let (y, done', fetched) = fetch-Fetched n le p h k tag addr replace b c v s pos low in
    let same : y ≡ x = ok-inj (sym done' ∙ done) in
    (
      x,
      done,
      subst (λ z. Fetched p tag addr replace s.lines c z.0.lines z.1) same fetched,
      size,
      low',
      valid,
      evicts,
    )
