-- ===== src/Coherence/Evictions.antt =====
-- The directory after an eviction, by the sharers and the state of the line.
use computer_architect.Common.{
  ℕ, ◌^◌, ◌<◌, Bool, true, false, not, ◌&&◌, ◌==◌, ◌≡◌, refl, ◌∙◌, arith, if◌then◌else◌, ok, length,
}
use computer_architect.Directory.{
  invalid, shared, is_modified, DirectoryLine, is_owner, is_last_writer,
}
use computer_architect.Directory.Sharers.{shares, is_set_lem}
use computer_architect.Coherence.{DirMsi, line_at, invalidate}
use computer_architect.Coherence.Lines.{line_at-Writes}
use computer_architect.Coherence.Evicts.{
  after_evict, owns, evicted_fields, shares-after_evict, KeepsDemand, invalidate-Writes,
}

owns-shares :
    (det : Bool) (d : DirectoryLine) (p : ℕ)
    → p < 32
    → owns det d p ≡ (if det then p == d.last_writer else true) && shares d p && is_modified d.state
unfolding owns is_owner is_last_writer
owns-shares det d p h = ground (arith, is_set_lem d p h)

evicted_state :
    (det : Bool) (d : DirectoryLine) (p : ℕ)
    → p < 32
    → (after_evict det d p).state ≡ (
        if (after_evict det d p).sharer_vector == 0
        then invalid
        else if (if det then p == d.last_writer else true) && shares d p && is_modified d.state
        then (if det then shared else invalid)
        else d.state)
evicted_state det d p h =
    let (vector, counts, writer, state) = evicted_fields det d p in
    rw (vector) (rw⁻¹ (owns-shares det d p h) state)

-- An eviction by a processor below 32 that has statistics, of a line whose sharer vector is within
-- 32 bits, returns in both modes. The processor is no sharer of the line any more, and all other
-- sharers stay. The line is INVALID when no sharer is left; otherwise, when the processor shared a
-- MODIFIED line (with the detector, as its last writer), it is SHARED with the detector and
-- INVALID without; otherwise its state stays. The last writer, the read counters, all other lines
-- and the load and store statistics of all processors stay.
pub invalidate_lem :
    (det : Bool) (c : DirMsi) (p addr : ℕ)
    → c.detector ≡ det
    → p < length c.profiles.profiles
    → p < 32
    → (line_at c addr).sharer_vector < 2 ^ 32
    → (c' : DirMsi) × (invalidate c p addr ≡ ok c')
      × ((q : ℕ) → shares (line_at c' addr) q ≡ shares (line_at c addr) q && not (p == q))
      × ((line_at c' addr).state ≡ (
          if (line_at c' addr).sharer_vector == 0
          then invalid
          else if (if det then p == (line_at c addr).last_writer else true)
              && shares (line_at c addr) p
              && is_modified (line_at c addr).state
          then (if det then shared else invalid)
          else (line_at c addr).state))
      × ((line_at c' addr).last_writer ≡ (line_at c addr).last_writer)
      × ((line_at c' addr).read_count_vector ≡ (line_at c addr).read_count_vector)
      × ((b : ℕ) → (addr == b) ≡ false → line_at c' b ≡ line_at c b)
      × KeepsDemand c.profiles c'.profiles
invalidate_lem det c p addr e h small wide =
    let d = line_at c addr in
    let (c', done, w, kept) = invalidate-Writes det c p addr e h in
    let now : line_at c' addr ≡ after_evict det d p = line_at-Writes c addr w in
    let (vector, counts, writer, state) = evicted_fields det d p in
    (
      c',
      done,
      λ q. rw now (shares-after_evict det d p q small wide),
      rw now (evicted_state det d p small),
      rw now writer,
      rw now counts,
      λ b other. w.lines b ∙ (rw other refl),
      kept,
    )
