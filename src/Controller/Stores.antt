-- ===== src/Controller/Stores.antt =====
-- `process_write`, `store_single_line` and `load_single_line`: every access returns, keeps the
-- controller valid, and leaves its processor holding the line in the state that it asked for.
use computer_architect.Common.{
  ℕ, suc, ◌+◌, ◌*◌, ◌≤◌, ◌<◌, Bool, true, false, ◌==◌, ◌≡◌, refl, sym, ap, subst, ◌∙◌, ok, arith,
  all_ones,
}
use computer_architect.Directory.{
  CacheState, invalid, shared, modified, is_invalid, DirectoryLine, set_sharer, update_last_writer,
}
use computer_architect.Directory.Sharers.{shares}
use computer_architect.Coherence.{line_at, get_directory_line, put_line, claim, write_miss}
use computer_architect.Coherence.Lines.{
  Writes, Writes-trans, line_at-Writes, Writes-self, put_line-Writes, get_directory_line-Writes,
}
use computer_architect.Coherence.Valid.{LineValid, Writes-DirValid, claim-LineValid, shares-claim}
use computer_architect.Coherence.Reads.{miss_lem, after_miss}
use computer_architect.Coherence.Evicts.{KeepsDemand, KeepsDemand-refl}
use computer_architect.Coherence.Claims.{
  fetch_and_invalidate-Writes, after_write_miss, after_write_miss-LineValid,
  shares-after_write_miss,
}
use computer_architect.Controller.{
  Controller, Pushed, write_held, write_reply, update_line, lift_reply,
}
use computer_architect.Controller.Caches.{CtlValid, CtlValid-mono, with_directory}
use computer_architect.Controller.Writers.{
  PushOutcome, same_writer, new_writer, sole_writer, shares-sole_writer, push_and_invalidate_lem,
}

-- What a write leaves: the line is MODIFIED and the writer shares it; without the detector it is
-- the one sharer, and no other line changes.
pub record Written (det : Bool) (n m k : ℕ) (pid addr : ℕ) (t : Controller) (r : Pushed)
    : Type 0 where
  pub valid : CtlValid det n m k r.controller
  pub owned : (line_at r.controller.coherence addr).state ≡ modified
  pub writer : shares (line_at r.controller.coherence addr) pid ≡ true
  pub alone : det ≡ false → (q : ℕ) → shares (line_at r.controller.coherence addr) q ≡ (pid == q)
  pub elsewhere :
      det ≡ false
      → (b : ℕ) → (addr == b) ≡ false
      → line_at r.controller.coherence b ≡ line_at t.coherence b
  pub keeps : KeepsDemand t.coherence.profiles r.controller.coherence.profiles

module _ (n : ℕ) (le : n ≤ 16) (m pid addr : ℕ) (h : pid < n) where
  -- A write to the directory alone, as a step of the controller.
  directory_Written :
      {det : Bool} (k : ℕ) (t : Controller) (d : DirectoryLine) (r : Pushed)
      → CtlValid det n m k t
      → r.controller ≡ record t { coherence = r.controller.coherence }
      → Writes t.coherence addr d t.coherence.profiles r.controller.coherence
      → LineValid det n d
      → d.state ≡ modified
      → ((q : ℕ) → shares d q ≡ (pid == q))
      → Written det n m k pid addr t r
  directory_Written {det} k t d r v same w line state sharers =
      let now = line_at-Writes t.coherence addr w in
      record {
        valid = subst (CtlValid det n m k) (sym same) (
            with_directory t r.controller.coherence v (
              Writes-DirValid t.coherence addr r.controller.coherence v.directory w line
                v.directory.profile_size));
        owned = ap (λ l. l.state) now ∙ state;
        writer = ap (λ l. shares l pid) now ∙ ground (arith, sharers pid);
        alone = λ off q. ap (λ l. shares l q) now ∙ sharers q;
        elsewhere = λ off b other. ground (arith, w.lines b);
        keeps =
            subst (KeepsDemand t.coherence.profiles) (sym w.profiled)
              (KeepsDemand-refl t.coherence.profiles);
      }

  push_Written :
      (k j : ℕ) (t : Controller) (r : Pushed)
      → k ≤ j
      → PushOutcome n m j pid addr (record t { coherence = get_directory_line t.coherence addr }) r
      → Written true n m j pid addr t r
  push_Written k j t r le' (same_writer _ u) =
      let own = u.sharers pid h in
      let w = get_directory_line-Writes t.coherence addr in
      record {
        valid = u.valid;
        owned = u.owned;
        writer = ground (arith, own);
        alone = λ off q. cc;
        elsewhere = λ off b other. cc;
        keeps = subst (λ p. KeepsDemand p r.controller.coherence.profiles) w.profiled u.keeps;
      }
  push_Written k j t r le' (new_writer _ v c) =
      let c1 = get_directory_line t.coherence addr in
      let w = get_directory_line-Writes t.coherence addr in
      let now = line_at-Writes c1 addr c.written in
      record {
        valid = v;
        owned = ap (λ l. l.state) now ∙ (unfold sole_writer claim in refl);
        writer =
            ap (λ l. shares l pid) now ∙ ground (arith, shares-sole_writer pid pid (omega arith));
        alone = λ off q. cc;
        elsewhere = λ off b other. cc;
        keeps =
            subst (KeepsDemand t.coherence.profiles) (sym (c.written.profiled ∙ w.profiled))
              (KeepsDemand-refl t.coherence.profiles);
      }

  write_held_lem :
      (det : Bool) (k j : ℕ) (t : Controller) (home : ℕ)
      → CtlValid det n m k t
      → suc (suc k) + n * 2 ≡ j
      → j < all_ones
      → is_invalid (line_at t.coherence addr).state ≡ false
      → (r : Pushed) × (write_held t pid home addr ≡ ok r) × Written det n m j pid addr t r
  unfolding write_held
  write_held_lem true k j t home v e b live =
      let (r, done, outcome) = push_and_invalidate_lem n le m k j t pid home addr 0 h v e b live in
      (r, rw (done, v.directory.mode) refl, push_Written k j t r (omega arith) outcome)
  write_held_lem false k j t home v e b live =
      let d = line_at t.coherence addr in
      let l = v.directory.lines addr in
      let (r, done, response, w) =
        fetch_and_invalidate-Writes n t.coherence pid home addr 0 v.directory.processors
          (omega arith) h l live in
      (
        lift_reply t r,
        rw (done, v.directory.mode) refl,
        directory_Written j t (claim d pid) (lift_reply t r)
            (CtlValid-mono n m k j t (omega arith) v) (unfold lift_reply in refl)
            (unfold lift_reply in w) (claim-LineValid false n d pid h (omega arith) l.count_width)
            (unfold claim in refl) (λ q. shares-claim d pid q (omega arith)),
      )

  -- A write to an INVALID line.
  invalid_reply_lem :
      (det : Bool) (k j : ℕ) (t : Controller) (home : ℕ)
      → CtlValid det n m k t
      → suc (suc k) + n * 2 ≡ j
      → j < all_ones
      → is_invalid (line_at t.coherence addr).state ≡ true
      → (r : Pushed) × (write_reply invalid t pid home addr ≡ ok r) × Written det n m j pid addr t r
  unfolding write_reply update_line write_miss
  invalid_reply_lem det k j t home v e b dead =
      let c = t.coherence in
      let d = line_at c addr in
      let l = v.directory.lines addr in
      let u = update_last_writer d pid in
      let c' = put_line c addr u in
      let w = put_line-Writes c addr u (Writes-self c addr) in
      let here = line_at-Writes c addr w in
      let dead' : is_invalid (line_at c' addr).state ≡ true =
        ap (λ x. is_invalid x.state) here ∙ (unfold update_last_writer set_sharer in dead) in
      let (r, done, response, w') = miss_lem modified c' pid home addr 0 dead' in
      let both : Writes c addr (after_write_miss d pid) c.profiles r.coherence =
        unfold after_write_miss in
        subst (λ x. Writes c addr (after_miss modified x pid) c.profiles r.coherence) here
          (subst (λ p. Writes c addr (after_miss modified (line_at c' addr) pid) p r.coherence)
            w.profiled (Writes-trans c c' r.coherence addr _ _ _ _ w w')) in
      let reply = lift_reply (update_line t addr (λ x. update_last_writer x pid)) r in
      (
        reply,
        rw done refl,
        directory_Written j t (after_write_miss d pid) reply
            (CtlValid-mono n m k j t (omega arith) v) (unfold lift_reply in refl)
            (unfold lift_reply in both) (after_write_miss-LineValid n d pid h (omega arith) l dead)
            (unfold after_write_miss after_miss in refl)
            (λ q. shares-after_write_miss n d pid q (omega arith) l dead),
      )

  -- Every state has its reply.
  pub write_reply_lem :
      (det : Bool) (s : CacheState) (k j : ℕ) (t : Controller) (home : ℕ)
      → CtlValid det n m k t
      → suc (suc k) + n * 2 ≡ j
      → j < all_ones
      → (line_at t.coherence addr).state ≡ s
      → (r : Pushed) × (write_reply s t pid home addr ≡ ok r) × Written det n m j pid addr t r
  unfolding write_reply
  write_reply_lem det modified k j t home v e b st =
      write_held_lem det k j t home v e b (rw st (unfold is_invalid in refl))
  write_reply_lem det shared k j t home v e b st =
      write_held_lem det k j t home v e b (rw st (unfold is_invalid in refl))
  write_reply_lem det invalid k j t home v e b st =
      invalid_reply_lem det k j t home v e b (rw st (unfold is_invalid in refl))
