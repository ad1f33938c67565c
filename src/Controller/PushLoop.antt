-- ===== src/Controller/PushLoop.antt =====
-- The loop of `push_and_invalidate` in coherence.cpp and the branch of the last writer as a whole.
use computer_architect.Common.{
  ℕ, zero, suc, ◌+◌, ◌*◌, ◌^◌, ◌≤◌, ◌<◌, true, false, ◌||◌, ◌==◌, leb, ◌≡◌, refl, sym, ap, subst,
  ◌∙◌, inl, inr, Bool-cases, ok, arith, all_ones, u64,
}
use computer_architect.Common.Bits.{pow_mono}
use computer_architect.Common.Fields.{field}
use computer_architect.Profile.{AccessType, cache_hit, cache_miss}
use computer_architect.Directory.{is_invalid, modified, set_sharer}
use computer_architect.Directory.Sharers.{
  shares, is_set_lem, shares-set_sharer, pos_of_shares, sharer_exists,
}
use computer_architect.Directory.Counts.{reads}
use computer_architect.Coherence.{line_at, local_cache_access, memory_access}
use computer_architect.Coherence.Lines.{line_at-Writes}
use computer_architect.Coherence.Reads.{fetch_response}
use computer_architect.Coherence.Evicts.{KeepsDemand, KeepsDemand-refl, KeepsDemand-trans}
use computer_architect.Controller.{
  Controller, Pushed, update_line, push_loop, writer_copy, push_update,
}
use computer_architect.Controller.Caches.{
  CtlValid, CtlValid-mono, fetch_cache_line_lem, update_line_lem,
}
use computer_architect.Controller.Push.{
  Round, push_to_lem, evicted_line, add_sharer_lem, held-LineValid, live_of_shares,
}

-- What holds of the line of `addr` before the pushing loop comes to processor `i`: the writer
-- `pid` shares it, the counters are `counts`, and of the processors before `i` the writer and the
-- qualified readers share it.
pub record Pushing (n m k : ℕ) (pid addr counts i : ℕ) (before t : Controller) : Type 0 where
  pub valid : CtlValid true n m k t
  pub writer : shares (line_at t.coherence addr) pid ≡ true
  pub counted : (line_at t.coherence addr).read_count_vector ≡ counts
  pub pushed :
      (q : ℕ) → q < i → shares (line_at t.coherence addr) q ≡ pid == q || leb 2 (field counts q)
  pub keeps : KeepsDemand before.coherence.profiles t.coherence.profiles

module _ (n : ℕ) (le : n ≤ 16) (m pid addr counts : ℕ) (before : Controller) where
  Round-Pushing :
      (k i : ℕ) (t t' : Controller)
      → (i == pid) ≡ false
      → Pushing n m k pid addr counts i before t
      → Round n m (suc (suc k)) addr i t t'
      → Pushing n m (suc (suc k)) pid addr counts (i + 1) before t'
  unfolding reads
  Round-Pushing k i t t' other p r = record {
    valid = r.valid;
    writer = ground (arith, r.sharers pid, p.writer);
    counted = r.same_counts ∙ p.counted;
    pushed = λ q h. ground (arith, r.sharers q, p.pushed q, p.counted);
    keeps =
        KeepsDemand-trans before.coherence.profiles t.coherence.profiles t'.coherence.profiles
          p.keeps r.keeps;
  }

  skip_Pushing :
      (k i : ℕ) (t : Controller)
      → (i == pid) ≡ true
      → Pushing n m k pid addr counts i before t
      → Pushing n m (suc (suc k)) pid addr counts (i + 1) before t
  skip_Pushing k i t own p = record {
    valid = CtlValid-mono n m k (suc (suc k)) t (omega arith) p.valid;
    writer = p.writer;
    counted = p.counted;
    pushed = λ q h. ground (arith, p.pushed q, p.writer);
    keeps = p.keeps;
  }

  -- The loop returns, and has treated every processor.
  push_loop_lem :
      (left i k j : ℕ) (t : Controller) (home cost hops : ℕ)
      → i + left ≡ n
      → k + left * 2 ≡ j
      → j < all_ones
      → Pushing n m k pid addr counts i before t
      → (x : ℕ × ℕ × Controller) × (push_loop left i t pid home addr cost hops ≡ ok x)
        × Pushing n m j pid addr counts n before x.2
  unfolding push_loop
  push_loop_lem zero i k j t home cost hops e f b p = (
    (cost, hops, t),
    refl,
    subst (λ a. Pushing n m a pid addr counts n before t) (omega arith)
        (subst (λ a. Pushing n m k pid addr counts a before t) (omega arith) p),
  )
  push_loop_lem (suc left) i k j t home cost hops e f b p = elim (Bool-cases (i == pid)) [
    | inl own ↦
        let (x, done, q) =
          push_loop_lem left (i + 1) (suc (suc k)) j t home cost hops (omega arith) (omega arith) b
            (skip_Pushing k i t own p) in
        (x, rw own done, q)
    | inr other ↦
        let ((cost', hops', t'), pushed, r) =
          push_to_lem n le m i addr (omega arith) k t pid home cost hops p.valid (omega arith)
            p.writer other in
        let (x, done, q) =
          push_loop_lem left (i + 1) (suc (suc k)) j t' home cost' hops' (omega arith) (omega arith)
            b (Round-Pushing k i t t' other p r) in
        (x, rw (other, pushed) done, q)
  ]

-- What a push by the last writer leaves: a MODIFIED line, shared by the writer and the qualified
-- readers and by nobody else.
pub record Updated (n m k : ℕ) (pid addr : ℕ) (t : Controller) (r : Pushed) : Type 0 where
  pub valid : CtlValid true n m k r.controller
  pub response : r.response ≡ fetch_response (line_at t.coherence addr) pid
  pub owned : (line_at r.controller.coherence addr).state ≡ modified
  pub sharers :
      (q : ℕ)
      → q < n
      → shares (line_at r.controller.coherence addr) q
        ≡ pid == q || leb 2 (reads (line_at t.coherence addr) q)
  pub same_counts :
      (line_at r.controller.coherence addr).read_count_vector
      ≡ (line_at t.coherence addr).read_count_vector
  pub keeps : KeepsDemand t.coherence.profiles r.controller.coherence.profiles

module _ (n : ℕ) (le : n ≤ 16) (m pid addr : ℕ) (h : pid < n) where
  abbrev Started : ℕ → Controller → Controller → Type 0
  Started k t t' = Pushing n m k pid addr (line_at t.coherence addr).read_count_vector 0 t t'

  writer_copy_lem :
      (k : ℕ) (t : Controller) (cost : ℕ)
      → CtlValid true n m k t
      → suc (suc k) < all_ones
      → is_invalid (line_at t.coherence addr).state ≡ false
      → (x : ℕ × AccessType × Controller) × (writer_copy t pid addr cost ≡ ok x)
        × (x.1 ≡ fetch_response (line_at t.coherence addr) pid)
        × Started (suc (suc k)) t x.2
  unfolding writer_copy fetch_response
  writer_copy_lem k t cost v b live =
      let d = line_at t.coherence addr in
      let l = v.directory.lines addr in
      let wide : d.sharer_vector < 2 ^ 32 = omega (arith, l.width, pow_mono n 32 (omega arith)) in
      elim (Bool-cases (shares d pid)) [
        | inl there ↦ (
          (u64 (cost + local_cache_access), cache_hit, t),
          rw (is_set_lem d pid (omega arith), there) refl,
          rw there refl,
          record {
            valid = CtlValid-mono n m k (suc (suc k)) t (omega arith) v;
            writer = there;
            counted = refl;
            pushed = λ q z. absurd (omega arith);
            keeps = KeepsDemand-refl t.coherence.profiles;
          },
        )
        | inr absent ↦
            let (t', done, v', e) = fetch_cache_line_lem n le m k t pid addr true h b v in
            let d' = line_at t'.coherence addr in
            let (q, inside, on) = sharer_exists n d l.width (l.held live) in
            let other : (pid == q) ≡ false = ground arith in
            let line = evicted_line n pid t.coherence t'.coherence addr q (omega arith) wide e in
            let live' = live_of_shares n d' q (v'.directory.lines addr) (line.0 other ∙ on) in
            let (v'', w) = add_sharer_lem n le m pid addr h (suc (suc k)) t' v' live' in
            let now = line_at-Writes t'.coherence addr w in
            (
              (u64 (cost + memory_access), cache_miss, update_line t' addr (λ d. set_sharer d pid)),
              rw (is_set_lem d pid (omega arith), absent, done) refl,
              rw absent refl,
              record {
                valid = v'';
                writer =
                    ap (λ d. shares d pid) now
                    ∙ ground (arith, shares-set_sharer d' pid pid (omega arith));
                counted = ap (λ d. d.read_count_vector) now ∙ (unfold set_sharer in line.1);
                pushed = λ q z. absurd (omega arith);
                keeps = subst (KeepsDemand t.coherence.profiles) (sym w.profiled) e.keeps;
              },
            )
      ]

  -- On a valid controller of at most 16 processors with the detector, with room in the counters of
  -- its sets and a line that is not INVALID, the branch of the last writer returns: the line is
  -- MODIFIED, its sharers are the writer and exactly the processors whose read counter is 2 or
  -- more, the read counters stay, and the response is a hit when the writer shared the line before
  -- and a miss otherwise. The demand statistics stay, and the controller stays valid.
  pub push_update_lem :
      (k j : ℕ) (t : Controller) (home cost hops : ℕ)
      → CtlValid true n m k t
      → suc (suc k) + n * 2 ≡ j
      → j < all_ones
      → is_invalid (line_at t.coherence addr).state ≡ false
      → (r : Pushed) × (push_update t pid home addr cost hops ≡ ok r) × Updated n m j pid addr t r
  unfolding push_update
  push_update_lem k j t home cost hops v e b live =
      let d = line_at t.coherence addr in
      let counts = d.read_count_vector in
      let ((cost', response, t'), copied, answer, start) =
        writer_copy_lem k t cost v (omega arith) live in
      let ((cost'', hops', t''), looped, p) =
        push_loop_lem n le m pid addr counts t n 0 (suc (suc k)) j t' home cost' hops (omega arith)
          e b start in
      let d'' = line_at t''.coherence addr in
      let l = p.valid.directory.lines addr in
      let (v', w) =
        update_line_lem n m j t'' addr (λ d. record d { state = modified }) p.valid
          (held-LineValid n d'' (record d'' { state = modified }) l.width l.count_width
            (unfold is_invalid in refl) (pos_of_shares d'' pid p.writer)) in
      let now = line_at-Writes t''.coherence addr w in
      (
        record {
          cost = cost'';
          hops = hops';
          response = response;
          controller = update_line t'' addr (λ d. record d { state = modified });
        },
        rw (copied, start.valid.directory.processors, looped) refl,
        record {
          valid = v';
          response = answer;
          owned = ap (λ d. d.state) now;
          sharers = λ q z. ap (λ d. shares d q) now ∙ (unfold shares reads in p.pushed q z);
          same_counts = ap (λ d. d.read_count_vector) now ∙ p.counted;
          keeps = subst (KeepsDemand t.coherence.profiles) (sym w.profiled) p.keeps;
        },
      )
