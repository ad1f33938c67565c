-- ===== src/Controller/Accesses.antt =====
-- The two entry points of the controller, `load_single_line` and `store_single_line`.
use computer_architect.Common.{
  ℕ, suc, ◌+◌, ◌*◌, ◌≤◌, ◌<◌, Bool, true, false, ◌==◌, ◌≡◌, refl, sym, ap, subst, ◌∙◌, Option, some,
  ok, arith, if◌then◌else◌, all_ones, length, get_elem?, get_elem?_in_range,
}
use computer_architect.Profile.{AccessType, AccessStat, account}
use computer_architect.Profile.Counts.{profile_cache_store_lem}
use computer_architect.Directory.{modified}
use computer_architect.Directory.Sharers.{shares}
use computer_architect.Coherence.{line_at, get_home_node, get_directory_line}
use computer_architect.Coherence.Lines.{get_directory_line-Writes, line_at-get_directory_line}
use computer_architect.Coherence.Valid.{LineValid, Writes-DirValid}
use computer_architect.Coherence.Reads.{ReadDone, process_read_lem, after_read-LineValid}
use computer_architect.Coherence.Evicts.{demand}
use computer_architect.Cache.Sets.{Evicts}
use computer_architect.Controller.{Controller, process_write, store_single_line, load_single_line}
use computer_architect.Controller.Caches.{
  CtlValid, CtlValid-mono, with_directory, fetch_cache_line_lem,
}
use computer_architect.Controller.Stores.{write_reply_lem}

-- What a store leaves. The line is MODIFIED and the writer shares it; without the detector it is
-- the one sharer, and no other line changes. The store is counted once for the writer.
pub record StoreDone (det : Bool) (n m k : ℕ) (pid addr : ℕ) (t t' : Controller) : Type 0 where
  pub valid : CtlValid det n m k t'
  pub owned : (line_at t'.coherence addr).state ≡ modified
  pub writer : shares (line_at t'.coherence addr) pid ≡ true
  pub alone : det ≡ false → (q : ℕ) → shares (line_at t'.coherence addr) q ≡ (pid == q)
  pub elsewhere :
      det ≡ false → (b : ℕ) → (addr == b) ≡ false → line_at t'.coherence b ≡ line_at t.coherence b
  pub type : AccessType
  pub cost : ℕ
  pub hops : ℕ
  pub own : AccessStat
  pub own_was : demand (get_elem? t.coherence.profiles.profiles pid) ≡ demand (some own)
  pub stats :
      (q : ℕ)
      → demand (get_elem? t'.coherence.profiles.profiles q) ≡ (
          if pid == q
          then demand (some (record own { store = account type cost hops own.store }))
          else demand (get_elem? t.coherence.profiles.profiles q))

demand_if :
    (b : Bool) (x y : Option AccessStat)
    → demand (if b then x else y) ≡ (if b then demand x else demand y)
demand_if true x y = refl
demand_if false x y = refl

module _ {det : Bool} (n : ℕ) (le : n ≤ 16) (m pid addr : ℕ) (h : pid < n) where
  pub process_write_lem :
      (k j : ℕ) (t : Controller)
      → CtlValid det n m k t
      → suc (suc k) + n * 2 ≡ j
      → j < all_ones
      → (t' : Controller) × (process_write t pid addr ≡ ok t') × StoreDone det n m j pid addr t t'
  unfolding process_write
  process_write_lem k j t v e b =
      let c = t.coherence in
      let c1 = get_directory_line c addr in
      let w = get_directory_line-Writes c addr in
      let v1 = with_directory t c1 v (
        Writes-DirValid c addr c1 v.directory w (v.directory.lines addr)
          v.directory.profile_size) in
      let t1 = record t { coherence = c1 } in
      let home = get_home_node c addr in
      let (r, replied, x) =
        write_reply_lem n le m pid addr h det (line_at c1 addr).state k j t1 home v1 e b refl in
      let t2 = r.controller in
      let size = x.valid.directory.profile_size in
      let fits : pid < length t2.coherence.profiles.profiles = rw size h in
      let (own, own_was) = get_elem?_in_range t2.coherence.profiles.profiles pid fits in
      let (p', profiled, recorded) =
        profile_cache_store_lem pid addr r.cost r.hops t2.coherence.profiles fits own_was
          r.response in
      let same : (b : ℕ)
          → line_at (record t2.coherence { profiles = p' }) b ≡ line_at t2.coherence b =
        λ b. unfold line_at in refl in
      let kept : (q : ℕ)
          → demand (get_elem? t2.coherence.profiles.profiles q)
            ≡ demand (get_elem? c.profiles.profiles q) =
        λ q. x.keeps.stats q ∙ ap (λ p. demand (get_elem? p.profiles q)) w.profiled in
      let stored : Option AccessStat =
        some (record own { store = account r.response r.cost r.hops own.store }) in
      (
        record t2 { coherence = record t2.coherence { profiles = p' } },
        rw (replied, profiled) refl,
        record {
          valid =
              with_directory t2 (record t2.coherence { profiles = p' }) x.valid
                (record {
                  processors = x.valid.directory.processors;
                  mode = x.valid.directory.mode;
                  profile_size = recorded.same_size ∙ size;
                  lines = λ b. subst (LineValid det n) (sym (same b)) (x.valid.directory.lines b);
                });
          owned = ap (λ d. d.state) (same addr) ∙ x.owned;
          writer = ap (λ d. shares d pid) (same addr) ∙ x.writer;
          alone = λ off q. ap (λ d. shares d q) (same addr) ∙ x.alone off q;
          elsewhere =
              λ off b other. same b ∙ x.elsewhere off b other ∙ line_at-get_directory_line c addr b;
          type = r.response;
          cost = r.cost;
          hops = r.hops;
          own = own;
          own_was = sym (kept pid) ∙ ap demand own_was;
          stats = λ q.
              ap demand (recorded.stats q)
              ∙ demand_if (pid == q) stored (get_elem? t2.coherence.profiles.profiles q)
              ∙ ap (λ z. if pid == q then demand stored else z) (kept q);
        },
      )

  -- A store by a processor p < n, n <= 16, to a valid controller with room in the counters
  -- returns. It first changes directory lines by evictions of p alone; then the line is MODIFIED,
  -- p shares it, the controller stays valid, and one store is counted for p and no load or store
  -- for another processor. Without the detector p is the one sharer, and no other line changes in
  -- that second part.
  pub store_single_line_lem :
      (k j : ℕ) (t : Controller)
      → CtlValid det n m k t
      → k + 4 + n * 2 ≡ j
      → j < all_ones
      → (t1 : Controller) × (t' : Controller) × (store_single_line t addr pid ≡ ok t')
        × Evicts det pid t.coherence t1.coherence
        × StoreDone det n m j pid addr t1 t'
  unfolding store_single_line
  store_single_line_lem k j t v e b =
      let (t1, fetched, v1, evicts) =
        fetch_cache_line_lem n le m k t pid addr true h (omega arith) v in
      let (t', done, x) = process_write_lem (suc (suc k)) j t1 v1 (omega arith) b in
      (t1, t', rw fetched done, evicts, x)

  -- A load by a processor p < n, n <= 16, from a valid controller with room in the counters
  -- returns. It first changes directory lines by evictions of p alone; then the line is changed as
  -- by one read, the load is counted for p, and the controller stays valid.
  pub load_single_line_lem :
      (k j : ℕ) (t : Controller)
      → CtlValid det n m k t
      → k + 2 ≡ j
      → j < all_ones
      → (t1 : Controller) × (t' : Controller) × (load_single_line t addr pid ≡ ok t')
        × CtlValid det n m j t'
        × Evicts det pid t.coherence t1.coherence
        × ReadDone t1.coherence pid addr t'.coherence
  unfolding load_single_line
  load_single_line_lem k j t v e b =
      let (t1, fetched, v1, evicts) =
        fetch_cache_line_lem n le m k t pid addr true h (omega arith) v in
      let (c, done, x) = process_read_lem n le t1.coherence v1.directory pid addr h in
      let line =
        after_read-LineValid n (line_at t1.coherence addr) pid h (omega arith)
          (v1.directory.lines addr) in
      let v2 = with_directory t1 c v1 (
        Writes-DirValid t1.coherence addr c v1.directory x.written line
          (x.recorded.same_size ∙ v1.directory.profile_size)) in
      (
        t1,
        record t1 { coherence = c },
        rw (fetched, done) refl,
        CtlValid-mono n m (suc (suc k)) j (record t1 { coherence = c }) (omega arith) v2,
        evicts,
        x,
      )
