-- ===== src/Controller/Push.antt =====
-- The pushing loop of `push_and_invalidate` in coherence.cpp: the last writer's copy, and the
-- update of the qualified readers.
use computer_architect.Common.{
  ℕ, suc, ◌+◌, ◌*◌, ◌^◌, ◌≤◌, ◌<◌, Bool, true, false, ◌==◌, leb, ◌≡◌, refl, sym, ap, subst, ◌∙◌,
  inl, inr, Bool-cases, ok, arith, if◌then◌else◌, all_ones, u64,
}
use computer_architect.Common.Bits.{pow_mono}
use computer_architect.Directory.{
  is_invalid, DirectoryLine, set_sharer, clear_sharer, qualified_reader,
}
use computer_architect.Directory.Sharers.{
  shares, is_set_lem, shares-set_sharer, shares-clear_sharer, set_sharer_width, clear_sharer_width,
  pos_of_shares, set_sharer_pos,
}
use computer_architect.Directory.Counts.{reads, qualified_reader_lem}
use computer_architect.Coherence.{DirMsi, line_at, cache_to_cache, get_directory_cost}
use computer_architect.Coherence.Lines.{Writes, line_at-Writes}
use computer_architect.Coherence.Valid.{LineValid}
use computer_architect.Coherence.Evicts.{
  evicted_fields, shares-after_evict, KeepsDemand, KeepsDemand-refl,
}
use computer_architect.Cache.Sets.{Evicts}
use computer_architect.Controller.{Controller, update_line, push_to}
use computer_architect.Controller.Caches.{
  CtlValid, CtlValid-mono, fetch_cache_line_lem, update_line_lem,
}

-- A processor other than the evicting one keeps its bit, and the counters stay.
pub evicted_line :
    {det : Bool} (n : ℕ) (p : ℕ) (c c' : DirMsi) (b q : ℕ)
    → p < 32
    → (line_at c b).sharer_vector < 2 ^ 32
    → Evicts det p c c'
    → ((p == q) ≡ false → shares (line_at c' b) q ≡ shares (line_at c b) q)
      × ((line_at c' b).read_count_vector ≡ (line_at c b).read_count_vector)
evicted_line {det} n p c c' b q h w e = elim (e.lines b) [
  | inl same ↦ (λ _. ap (λ d. shares d q) same, ap (λ d. d.read_count_vector) same)
  | inr gone ↦ (
    λ other.
        ap (λ d. shares d q) gone ∙ ground (arith, shares-after_evict det (line_at c b) p q h w),
    ap (λ d. d.read_count_vector) gone ∙ (evicted_fields det (line_at c b) p).1,
  )
]

-- A line with a sharer is not INVALID.
pub live_of_shares :
    {det : Bool} (n : ℕ) (d : DirectoryLine) (p : ℕ)
    → LineValid det n d
    → shares d p ≡ true
    → is_invalid d.state ≡ false
live_of_shares n d p v on = elim (Bool-cases (is_invalid d.state)) [
  | inl dead ↦ absurd (omega (arith, v.empty dead, pos_of_shares d p on))
  | inr live ↦ live
]

-- With the detector a line that is held may have any sharers but none.
pub held-LineValid :
    (n : ℕ) (d d' : DirectoryLine)
    → d'.sharer_vector < 2 ^ n
    → d'.read_count_vector < 2 ^ (n * 2)
    → is_invalid d'.state ≡ false
    → 0 < d'.sharer_vector
    → LineValid true n d'
held-LineValid n d d' w c live pos = record {
  width = w;
  count_width = c;
  empty = λ dead. cc;
  held = λ _. pos;
  exclusive = λ off _ _ _ _ _. cc;
}

-- What one round does to the line `d`: processor `i` shares it exactly if it is qualified.
pub record Round (n m k : ℕ) (addr i : ℕ) (t t' : Controller) : Type 0 where
  pub valid : CtlValid true n m k t'
  pub same_counts :
      (line_at t'.coherence addr).read_count_vector ≡ (line_at t.coherence addr).read_count_vector
  pub sharers :
      (q : ℕ)
      → shares (line_at t'.coherence addr) q ≡ (
          if i == q
          then leb 2 (reads (line_at t.coherence addr) i)
          else shares (line_at t.coherence addr) q)
  pub keeps : KeepsDemand t.coherence.profiles t'.coherence.profiles

module _ (n : ℕ) (le : n ≤ 16) (m : ℕ) (i addr : ℕ) (h : i < n) where
  -- The line is held after a processor is added to it.
  pub add_sharer_lem :
      (k : ℕ) (t : Controller)
      → CtlValid true n m k t
      → is_invalid (line_at t.coherence addr).state ≡ false
      → CtlValid true n m k (update_line t addr (λ d. set_sharer d i))
        × Writes t.coherence addr
            (set_sharer (line_at t.coherence addr) i)
            t.coherence.profiles
            (update_line t addr (λ d. set_sharer d i)).coherence
  add_sharer_lem k t v live =
      let d = line_at t.coherence addr in
      let l = v.directory.lines addr in
      update_line_lem n m k t addr (λ d. set_sharer d i) v
        (held-LineValid n d (set_sharer d i) (set_sharer_width n d i h (omega arith) l.width)
          (unfold set_sharer in l.count_width) (unfold set_sharer in live)
          (set_sharer_pos d i (omega arith)))

  -- A processor is taken out of a line that another one shares.
  clear_sharer_lem :
      (k : ℕ) (t : Controller) (pid : ℕ)
      → CtlValid true n m k t
      → shares (line_at t.coherence addr) pid ≡ true
      → (i == pid) ≡ false
      → CtlValid true n m k (update_line t addr (λ d. clear_sharer d i))
        × Writes t.coherence addr
            (clear_sharer (line_at t.coherence addr) i)
            t.coherence.profiles
            (update_line t addr (λ d. clear_sharer d i)).coherence
  clear_sharer_lem k t pid v on other =
      let d = line_at t.coherence addr in
      let l = v.directory.lines addr in
      let wide : d.sharer_vector < 2 ^ 32 = omega (arith, l.width, pow_mono n 32 (omega arith)) in
      let kept : shares (clear_sharer d i) pid ≡ true =
        ground (arith, shares-clear_sharer d i pid (omega arith) wide) in
      update_line_lem n m k t addr (λ d. clear_sharer d i) v
        (held-LineValid n d (clear_sharer d i) (clear_sharer_width n d i l.width)
          (unfold clear_sharer in l.count_width)
          (unfold clear_sharer in live_of_shares n d pid l on)
          (pos_of_shares (clear_sharer d i) pid kept))

  -- The branch of a qualified reader: its copy is fetched, and it shares the line.
  push_qualified :
      (k : ℕ) (t : Controller) (pid home cost hops : ℕ)
      → CtlValid true n m k t
      → suc (suc k) < all_ones
      → shares (line_at t.coherence addr) pid ≡ true
      → (i == pid) ≡ false
      → qualified_reader (line_at t.coherence addr) i ≡ true
      → leb 2 (reads (line_at t.coherence addr) i) ≡ true
      → (x : ℕ × ℕ × Controller) × (push_to t i home addr cost hops ≡ ok x)
        × Round n m (suc (suc k)) addr i t x.2
  unfolding push_to
  push_qualified k t pid home cost hops v b on other qualified high =
      let d = line_at t.coherence addr in
      let wide : d.sharer_vector < 2 ^ 32 =
        omega (arith, (v.directory.lines addr).width, pow_mono n 32 (omega arith)) in
      let (t', done, v', e) = fetch_cache_line_lem n le m k t i addr false h b v in
      let d' = line_at t'.coherence addr in
      let line = λ (q : ℕ). evicted_line n i t.coherence t'.coherence addr q (omega arith) wide e in
      let live = live_of_shares n d' pid (v'.directory.lines addr) ((line pid).0 other ∙ on) in
      elim (Bool-cases (shares d' i)) [
        | inl there ↦ (
          (u64 (cost + cache_to_cache), hops, t'),
          rw (qualified, done, is_set_lem d' i (omega arith), there) refl,
          record {
            valid = v';
            same_counts = (line 0).1;
            sharers = λ q. ground (arith, line q);
            keeps = e.keeps;
          },
        )
        | inr absent ↦
            let (v'', w) = add_sharer_lem (suc (suc k)) t' v' live in
            let now = line_at-Writes t'.coherence addr w in
            (
              (
                u64 (cost + cache_to_cache),
                (get_directory_cost i home hops).1,
                update_line t' addr (λ d. set_sharer d i),
              ),
              rw (qualified, done, is_set_lem d' i (omega arith), absent) refl,
              record {
                valid = v'';
                same_counts = ap (λ d. d.read_count_vector) now ∙ (unfold set_sharer in (line 0).1);
                sharers = λ q.
                    ap (λ d. shares d q) now
                    ∙ ground (arith, shares-set_sharer d' i q (omega arith), line q);
                keeps = subst (KeepsDemand t.coherence.profiles) (sym w.profiled) e.keeps;
              },
            )
      ]

  -- The branch of any other processor: it is taken out of the sharers.
  push_unqualified :
      (k : ℕ) (t : Controller) (pid home cost hops : ℕ)
      → CtlValid true n m k t
      → shares (line_at t.coherence addr) pid ≡ true
      → (i == pid) ≡ false
      → qualified_reader (line_at t.coherence addr) i ≡ false
      → leb 2 (reads (line_at t.coherence addr) i) ≡ false
      → (x : ℕ × ℕ × Controller) × (push_to t i home addr cost hops ≡ ok x)
        × Round n m (suc (suc k)) addr i t x.2
  unfolding push_to
  push_unqualified k t pid home cost hops v on other plain low =
      let d = line_at t.coherence addr in
      let wide : d.sharer_vector < 2 ^ 32 =
        omega (arith, (v.directory.lines addr).width, pow_mono n 32 (omega arith)) in
      let v2 : (t' : Controller) → CtlValid true n m k t' → CtlValid true n m (suc (suc k)) t' =
        λ t'. CtlValid-mono n m k (suc (suc k)) t' (omega arith) in
      elim (Bool-cases (shares d i)) [
        | inl there ↦
            let t' = update_line t addr (λ d. clear_sharer d i) in
            let (v', w) = clear_sharer_lem k t pid v on other in
            let now = line_at-Writes t.coherence addr w in
            (
              (cost, hops, t'),
              rw (plain, is_set_lem d i (omega arith), there) refl,
              record {
                valid = v2 t' v';
                same_counts = ap (λ d. d.read_count_vector) now ∙ (unfold clear_sharer in refl);
                sharers = λ q.
                    ap (λ d. shares d q) now
                    ∙ ground (arith, shares-clear_sharer d i q (omega arith) wide);
                keeps =
                    subst (KeepsDemand t.coherence.profiles) (sym w.profiled)
                      (KeepsDemand-refl t.coherence.profiles);
              },
            )
        | inr absent ↦ (
          (cost, hops, t),
          rw (plain, is_set_lem d i (omega arith), absent) refl,
          record {
            valid = v2 t v;
            same_counts = refl;
            sharers = λ q. ground arith;
            keeps = KeepsDemand-refl t.coherence.profiles;
          },
        )
      ]

  -- One round returns, in both branches.
  pub push_to_lem :
      (k : ℕ) (t : Controller) (pid home cost hops : ℕ)
      → CtlValid true n m k t
      → suc (suc k) < all_ones
      → shares (line_at t.coherence addr) pid ≡ true
      → (i == pid) ≡ false
      → (x : ℕ × ℕ × Controller) × (push_to t i home addr cost hops ≡ ok x)
        × Round n m (suc (suc k)) addr i t x.2
  push_to_lem k t pid home cost hops v b on other =
      let d = line_at t.coherence addr in
      let l = v.directory.lines addr in
      let test =
        qualified_reader_lem d i (omega arith)
          (omega (arith, l.count_width, pow_mono (n * 2) 32 (omega arith))) in
      elim (Bool-cases (qualified_reader d i)) [
        | inl high ↦ push_qualified k t pid home cost hops v b on other high (ground (arith, test))
        | inr low ↦ push_unqualified k t pid home cost hops v on other low (ground (arith, test))
      ]
