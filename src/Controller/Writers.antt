-- ===== src/Controller/Writers.antt =====
-- `push_and_invalidate` of coherence.cpp when the writer changes, and as a whole.
use computer_architect.Common.{
  ℕ, zero, suc, ◌+◌, ◌*◌, ◌^◌, ◌≤◌, ◌<◌, true, false, not, ◌&&◌, ◌==◌, ◌≡◌, refl, sym, ap, subst,
  ◌∙◌, inl, inr, Bool-cases, ok, arith, all_ones,
}
use computer_architect.Common.Bits.{pow_mono}
use computer_architect.Profile.{cache_hit}
use computer_architect.Directory.{
  is_invalid, DirectoryLine, new_line, set_sharer, qualified_reader, is_last_writer,
  update_last_writer,
}
use computer_architect.Directory.Sharers.{
  shares, shares-set_sharer, set_sharer_width, set_sharer_pos,
}
use computer_architect.Directory.Counts.{counted_down, counted_down_width, decrease_read_count_lem}
use computer_architect.Coherence.{line_at, put_line, claim, get_directory_line, get_directory_cost}
use computer_architect.Coherence.Lines.{
  Writes, Writes-self, Writes-trans, put_line-Writes, line_at-Writes, get_directory_line-Writes,
  line_at-get_directory_line,
}
use computer_architect.Coherence.Valid.{LineValid, Writes-DirValid, claim-LineValid, shares-claim}
use computer_architect.Coherence.Reads.{fetch_response}
use computer_architect.Coherence.Claims.{fetch_and_invalidate-Writes}
use computer_architect.Controller.{
  Controller, Pushed, decrease_loop, change_writer, push_and_invalidate,
}
use computer_architect.Controller.Caches.{CtlValid, CtlValid-mono, with_directory}
use computer_architect.Controller.Push.{held-LineValid}
use computer_architect.Controller.PushLoop.{Updated, push_update_lem}

-- `d'` differs from `d` in the read counters alone.
pub record Recounted (n : ℕ) (d d' : DirectoryLine) : Type 0 where
  pub same_sharers : d'.sharer_vector ≡ d.sharer_vector
  pub same_state : d'.state ≡ d.state
  pub same_writer : d'.last_writer ≡ d.last_writer
  pub count_width : d'.read_count_vector < 2 ^ (n * 2)

counted_down-Recounted :
    (n : ℕ) (d : DirectoryLine) (i : ℕ)
    → d.read_count_vector < 2 ^ (n * 2)
    → Recounted n d (counted_down d i)
counted_down-Recounted n d i w = record {
  same_sharers = unfold counted_down in ground arith;
  same_state = unfold counted_down in ground arith;
  same_writer = unfold counted_down in ground arith;
  count_width = counted_down_width n d i w;
}

-- The loop over the qualified readers returns.
decrease_loop_lem :
    (n left i pid : ℕ) (d : DirectoryLine)
    → n ≤ 16
    → i + left ≡ n
    → d.read_count_vector < 2 ^ (n * 2)
    → (d' : DirectoryLine) × (decrease_loop left i pid d ≡ ok d') × Recounted n d d'
unfolding decrease_loop
decrease_loop_lem n zero i pid d le e w = (
  d,
  refl,
  record { same_sharers = refl; same_state = refl; same_writer = refl; count_width = w },
)
decrease_loop_lem n (suc left) i pid d le e w =
    elim (Bool-cases (not (i == pid) && qualified_reader d i)) [
      | inl reader ↦
          let r = counted_down-Recounted n d i w in
          let (d', done, r') =
            decrease_loop_lem n left (i + 1) pid (counted_down d i) le (omega arith)
              r.count_width in
          (
            d',
            rw (reader, decrease_read_count_lem n d i (omega arith) le w) done,
            record {
              same_sharers = r'.same_sharers ∙ r.same_sharers;
              same_state = r'.same_state ∙ r.same_state;
              same_writer = r'.same_writer ∙ r.same_writer;
              count_width = r'.count_width;
            },
          )
      | inr other ↦
          let (d', done, r') = decrease_loop_lem n left (i + 1) pid d le (omega arith) w in
          (d', rw other done, r')
    ]

-- The line of a new writer: it shares it alone, and no reader qualifies.
unfoldable pub sole_writer : ℕ → DirectoryLine
sole_writer pid = claim (record new_line { last_writer = pid }) pid

claim-update_last_writer :
    (d : DirectoryLine) (pid : ℕ) → claim (update_last_writer d pid) pid ≡ sole_writer pid
unfolding claim update_last_writer sole_writer set_sharer
claim-update_last_writer d pid = refl

-- The line between the update of the last writer and the claim.
updated_writer :
    (n : ℕ) (d d' : DirectoryLine) (pid : ℕ)
    → n ≤ 16
    → pid < n
    → Recounted n d d'
    → LineValid true n d
    → is_invalid d.state ≡ false
    → LineValid true n (update_last_writer d' pid)
      × (is_invalid (update_last_writer d' pid).state ≡ false)
      × (fetch_response (update_last_writer d' pid) pid ≡ cache_hit)
unfolding update_last_writer
updated_writer n d d' pid le h q v live =
    let base = record d' { last_writer = pid } in
    let alive : is_invalid d'.state ≡ false = rw q.same_state live in
    let narrow : d'.sharer_vector < 2 ^ n = rw q.same_sharers v.width in
    let on = shares-set_sharer base pid pid (omega arith) in
    (
      held-LineValid n d (update_last_writer d' pid)
          (set_sharer_width n base pid h (omega arith) narrow) (omega (arith, pow_mono 0 (n * 2)))
          (unfold set_sharer in alive) (set_sharer_pos base pid (omega arith)),
      unfold set_sharer in alive,
      unfold fetch_response shares in ground (arith, on),
    )

-- What a change of the writer leaves.
pub record Changed (pid addr : ℕ) (t : Controller) (r : Pushed) : Type 0 where
  pub response : r.response ≡ cache_hit
  pub same_caches : r.controller ≡ record t { coherence = r.controller.coherence }
  pub written :
      Writes t.coherence addr (sole_writer pid) t.coherence.profiles r.controller.coherence

pub change_writer_lem :
    (n : ℕ) (t : Controller) (pid home addr hops : ℕ)
    → n ≤ 16
    → pid < n
    → t.coherence.num_processors ≡ n
    → LineValid true n (line_at t.coherence addr)
    → is_invalid (line_at t.coherence addr).state ≡ false
    → (r : Pushed) × (change_writer t pid home addr hops ≡ ok r) × Changed pid addr t r
unfolding change_writer
change_writer_lem n t pid home addr hops le h e v live =
    let c = t.coherence in
    let d = line_at c addr in
    let (d', counted, q) = decrease_loop_lem n n 0 pid d le (omega arith) v.count_width in
    let u = update_last_writer d' pid in
    let c' = put_line c addr u in
    let w = put_line-Writes c addr u (Writes-self c addr) in
    let here = line_at-Writes c addr w in
    let (u_valid, u_live, hit) = updated_writer n d d' pid le h q v live in
    let (r, done, response, w') =
      fetch_and_invalidate-Writes {det = true} n c' pid home addr hops (w.same_processors ∙ e)
        (omega arith) h (subst (LineValid true n) (sym here) u_valid)
        (ap (λ l. is_invalid l.state) here ∙ u_live) in
    let becomes : claim (line_at c' addr) pid ≡ sole_writer pid =
      ap (λ l. claim l pid) here ∙ claim-update_last_writer d' pid in
    (
      record {
        cost = r.cost;
        hops = r.hops;
        response = r.response;
        controller = record t { coherence = r.coherence };
      },
      rw (subst (λ x. decrease_loop x 0 pid d ≡ ok d') (sym e) counted, done) refl,
      record {
        response = response ∙ ap (λ l. fetch_response l pid) here ∙ hit;
        same_caches = refl;
        written =
            subst (λ p. Writes c addr (sole_writer pid) p r.coherence) w.profiled
              (subst (λ l. Writes c addr l c'.profiles r.coherence) becomes
                (Writes-trans c c' r.coherence addr _ _ _ _ w w'));
      },
    )

sole_writer-LineValid : (n pid : ℕ) → n ≤ 16 → pid < n → LineValid true n (sole_writer pid)
unfolding sole_writer
sole_writer-LineValid n pid le h =
    claim-LineValid true n (record new_line { last_writer = pid }) pid h (omega arith)
      (omega (arith, pow_mono 0 (n * 2)))

pub shares-sole_writer : (pid q : ℕ) → pid < 32 → shares (sole_writer pid) q ≡ (pid == q)
unfolding sole_writer
shares-sole_writer pid q h = shares-claim (record new_line { last_writer = pid }) pid q h

-- The two outcomes of a write with the detector to a line that is held.
pub data PushOutcome (n m k : ℕ) (pid addr : ℕ) (t : Controller) (r : Pushed) : Type 0 where
  same_writer :
      is_last_writer (line_at t.coherence addr) pid ≡ true
      → Updated n m k pid addr t r
      → PushOutcome n m k pid addr t r
  new_writer :
      is_last_writer (line_at t.coherence addr) pid ≡ false
      → CtlValid true n m k r.controller
      → Changed pid addr t r
      → PushOutcome n m k pid addr t r

pub push_and_invalidate_lem :
    (n : ℕ) (le : n ≤ 16) (m k j : ℕ) (t : Controller) (pid home addr hops : ℕ)
    → pid < n
    → CtlValid true n m k t
    → suc (suc k) + n * 2 ≡ j
    → j < all_ones
    → is_invalid (line_at t.coherence addr).state ≡ false
    → (r : Pushed) × (push_and_invalidate t pid home addr hops ≡ ok r)
      × PushOutcome n m j pid addr (record t { coherence = get_directory_line t.coherence addr }) r
unfolding push_and_invalidate
push_and_invalidate_lem n le m k j t pid home addr hops h v e b live =
    let c = t.coherence in
    let c1 = get_directory_line c addr in
    let w = get_directory_line-Writes c addr in
    let t1 = record t { coherence = c1 } in
    let same = line_at-get_directory_line c addr addr in
    let (cost, hops') = get_directory_cost pid home hops in
    let v1 =
      with_directory t c1 v (
        Writes-DirValid c addr c1 v.directory w (v.directory.lines addr)
          v.directory.profile_size) in
    let live1 : is_invalid (line_at c1 addr).state ≡ false =
      ap (λ l. is_invalid l.state) same ∙ live in
    elim (Bool-cases (is_last_writer (line_at c1 addr) pid)) [
      | inl last ↦
          let (r, done, up) =
            push_update_lem n le m pid addr h k j t1 home cost hops' v1 e b live1 in
          (r, rw (live1, last) done, same_writer last up)
      | inr other ↦
          let (r, done, ch) =
            change_writer_lem n t1 pid home addr hops' le h v1.directory.processors
              (v1.directory.lines addr) live1 in
          (
            r,
            rw (live1, other) done,
            new_writer other
                (subst (CtlValid true n m j) (sym ch.same_caches) (
                  with_directory t1 r.controller.coherence
                    (CtlValid-mono n m k j t1 (omega arith) v1)
                    (Writes-DirValid c1 addr r.controller.coherence v1.directory ch.written
                      (sole_writer-LineValid n pid le h) v1.directory.profile_size)))
                ch,
          )
    ]
