-- ===== src/Coherence/Claims.antt =====
-- `fetch_and_invalidate` of coherence.cpp, and the lines that writes leave.
use computer_architect.Common.{
  ℕ, ◌*◌, ◌^◌, ◌≤◌, ◌<◌, Bool, true, false, ◌==◌, ◌≡◌, refl, subst, ◌∙◌, arith, ok,
}
use computer_architect.Common.Bits.{pow_mono}
use computer_architect.Directory.{
  modified, is_invalid, DirectoryLine, set_sharer, update_last_writer,
}
use computer_architect.Directory.Sharers.{
  shares, shares-set_sharer, shares_none, set_sharer_width, set_sharer_pos,
}
use computer_architect.Coherence.{
  DirMsi, Reply, fetch_and_invalidate, claim, invalidation_hops, line_at, put_line,
  get_directory_line,
}
use computer_architect.Coherence.Lines.{
  Writes, line_at-get_directory_line, get_directory_line-Writes, put_line-Writes, Writes-trans,
  line_at-Writes,
}
use computer_architect.Coherence.Valid.{LineValid, shares-claim}
use computer_architect.Coherence.Reads.{after_fetch, fetch_response, fetch_lem, after_miss}

after_fetch_state :
    (d : DirectoryLine) (p : ℕ)
    → is_invalid d.state ≡ false
    → is_invalid (after_fetch d p).state ≡ false
unfolding after_fetch is_invalid
after_fetch_state d p h = ground arith

claim-after_fetch : (d : DirectoryLine) (p : ℕ) → claim (after_fetch d p) p ≡ claim d p
unfolding claim after_fetch set_sharer
claim-after_fetch d p = ground arith

-- The line is claimed, and nothing else changes.
pub fetch_and_invalidate-Writes :
    {det : Bool} (n : ℕ) (c : DirMsi) (p home addr hops : ℕ)
    → c.num_processors ≡ n
    → n ≤ 32
    → p < n
    → LineValid det n (line_at c addr)
    → is_invalid (line_at c addr).state ≡ false
    → (r : Reply) × (fetch_and_invalidate c p home addr hops ≡ ok r)
      × (r.response ≡ fetch_response (line_at c addr) p)
      × Writes c addr (claim (line_at c addr) p) c.profiles r.coherence
unfolding fetch_and_invalidate
fetch_and_invalidate-Writes n c p home addr hops e le h v live =
    let d = line_at c addr in
    let (r, fetched, response, w) = fetch_lem n c p home addr hops e le h v live in
    let c' = get_directory_line r.coherence addr in
    let w' = get_directory_line-Writes r.coherence addr in
    let line : line_at c' addr ≡ after_fetch d p =
      line_at-get_directory_line r.coherence addr addr ∙ line_at-Writes c addr w in
    let alive = after_fetch_state d p live in
    (
      record r {
        hops = invalidation_hops c'.num_processors 0 (after_fetch d p) p home r.hops;
        coherence = put_line c' addr (claim d p);
      },
      rw (fetched, line, alive, claim-after_fetch) refl,
      response,
      subst (λ x. Writes c addr (claim d p) x (put_line c' addr (claim d p))) w.profiled
          (put_line-Writes c addr (claim d p) (Writes-trans c r.coherence c' addr _ _ _ _ w w')),
    )

claim_fields :
    (d : DirectoryLine) (p : ℕ)
    → ((claim d p).state ≡ modified)
      × ((claim d p).last_writer ≡ d.last_writer)
      × ((claim d p).read_count_vector ≡ d.read_count_vector)
unfolding claim set_sharer
claim_fields d p = (refl, refl, refl)

-- With at most 32 processors, for a processor below their number and a well-formed line that is
-- not INVALID, `fetch_and_invalidate` returns: the response is a hit exactly as for the fetch on
-- the line before, the line is MODIFIED with the processor as its one sharer, its last writer and
-- read counters stay, and no other line and no statistic changes.
pub fetch_and_invalidate_lem :
    {det : Bool} (n : ℕ) (c : DirMsi) (p home addr hops : ℕ)
    → c.num_processors ≡ n
    → n ≤ 32
    → p < n
    → LineValid det n (line_at c addr)
    → is_invalid (line_at c addr).state ≡ false
    → (r : Reply) × (fetch_and_invalidate c p home addr hops ≡ ok r)
      × (r.response ≡ fetch_response (line_at c addr) p)
      × ((line_at r.coherence addr).state ≡ modified)
      × ((q : ℕ) → shares (line_at r.coherence addr) q ≡ (p == q))
      × ((line_at r.coherence addr).last_writer ≡ (line_at c addr).last_writer)
      × ((line_at r.coherence addr).read_count_vector ≡ (line_at c addr).read_count_vector)
      × ((b : ℕ) → (addr == b) ≡ false → line_at r.coherence b ≡ line_at c b)
      × (r.coherence.profiles ≡ c.profiles)
fetch_and_invalidate_lem n c p home addr hops e le h v live =
    let (r, done, response, w) = fetch_and_invalidate-Writes n c p home addr hops e le h v live in
    let now : line_at r.coherence addr ≡ claim (line_at c addr) p = line_at-Writes c addr w in
    let (state, writer, counts) = claim_fields (line_at c addr) p in
    (
      r,
      done,
      response,
      rw now state,
      λ q. rw now (shares-claim (line_at c addr) p q (omega arith)),
      rw now writer,
      rw now counts,
      λ b other. w.lines b ∙ (rw other refl),
      w.profiled,
    )

-- The line that a write to an INVALID line leaves.
unfoldable pub after_write_miss : DirectoryLine → ℕ → DirectoryLine
after_write_miss d p = after_miss modified (update_last_writer d p) p

pub shares-after_write_miss :
    {det : Bool} (n : ℕ) (d : DirectoryLine) (p q : ℕ)
    → p < 32
    → LineValid det n d
    → is_invalid d.state ≡ true
    → shares (after_write_miss d p) q ≡ (p == q)
unfolding after_write_miss after_miss update_last_writer shares
shares-after_write_miss n d p q h v dead = ground (
  arith,
  shares-set_sharer (update_last_writer d p) p q h,
  shares-set_sharer (record d { last_writer = p }) p q h,
  shares_none d q (v.empty dead),
)

-- The update of the last writer keeps the width of the sharers.
update_last_writer_width :
    (n : ℕ) (d : DirectoryLine) (p : ℕ)
    → p < n
    → n ≤ 32
    → d.sharer_vector < 2 ^ n
    → (update_last_writer d p).sharer_vector < 2 ^ n
unfolding update_last_writer
update_last_writer_width n d p h le w = set_sharer_width n (record d { last_writer = p }) p h le w

pub after_write_miss-LineValid :
    {det : Bool} (n : ℕ) (d : DirectoryLine) (p : ℕ)
    → p < n
    → n ≤ 32
    → LineValid det n d
    → is_invalid d.state ≡ true
    → LineValid det n (after_write_miss d p)
after_write_miss-LineValid n d p h le v dead =
    unfold after_write_miss after_miss in
    record {
      width =
          set_sharer_width n (update_last_writer d p) p h le
            (update_last_writer_width n d p h le v.width);
      count_width = unfold update_last_writer set_sharer in omega (arith, pow_mono 0 (n * 2));
      empty = unfold is_invalid in λ e. cc;
      held = λ _. set_sharer_pos (update_last_writer d p) p (omega arith);
      exclusive = λ _ _ q r hq hr. ground (
        arith,
        shares-after_write_miss n d p q (omega arith) v dead,
        shares-after_write_miss n d p r (omega arith) v dead,
      );
    }
