-- ===== src/Callbacks/Sessions.antt =====
-- Whole sessions: a process attaches, and its threads make a run of callbacks.
use computer_architect.Directory.{DirectoryLine, is_invalid, is_modified}
use computer_architect.Directory.Sharers.{shares}
use computer_architect.Coherence.{line_at}
use computer_architect.Coherence.Valid.{LineValid}
use computer_architect.Common.{
  Bool, refl, not, ◌&&◌, ◌==◌, inl, inr, Bool-cases, ℕ, ◌*◌, ◌^◌, ◌≤◌, ◌<◌, List, false, ◌≡◌, ok,
  arith, length, all_ones, u32,
}
use computer_architect.Common.Bits.{pow_mono}
use computer_architect.Controller.Addresses.{new_controller-CtlValid}
use computer_architect.Callbacks.{CacheConfig, Session, process_attach, Event, run}
use computer_architect.Callbacks.Runs.{SessionValid, Tracks-none, AllAllowed, run_lem}
use native.Mathlib.Nat.{mod-eq_of_lt}

-- A configuration of `n` processors with caches of 2^s sets of `ways` lines of 2^o bytes.
abbrev pub power_config : ℕ → ℕ → ℕ → ℕ → CacheConfig
power_config n s o ways = record {
  num_sets = 2 ^ s;
  set_size = ways;
  line_size = 2 ^ o;
  total_processors = n;
}

-- The lines of a valid directory without the detector.
exclusive_lem :
    (n : ℕ) (d : DirectoryLine) (q r : ℕ)
    → LineValid false n d
    → (is_modified d.state && shares d q && shares d r && not (q == r)) ≡ false
exclusive_lem n d q r v = elim (Bool-cases (is_modified d.state && shares d q && shares d r)) [
  | inl both ↦ ground (arith, v.exclusive refl (ground arith) q r (ground arith) (ground arith))
  | inr not_both ↦ ground arith
]

empty_lem :
    {det : Bool} (n : ℕ) (d : DirectoryLine)
    → LineValid det n d
    → is_invalid d.state ≡ (d.sharer_vector == 0)
empty_lem n d v = elim (Bool-cases (is_invalid d.state)) [
  | inl dead ↦ rw (dead, v.empty dead) refl
  | inr live ↦ ground (arith, v.held live)
]

module _ (n s o ways : ℕ) (le : n ≤ 16) (le_s : s < 32) (le_o : o < 32) (pos_ways : 0 < ways)
    (le_ways : ways < 2 ^ 31) where
  pub process_attach-SessionValid :
      SessionValid false n (2 ^ s) 0 (process_attach (power_config n s o ways))
  unfolding process_attach
  process_attach-SessionValid =
      let sets : u32 (2 ^ s) ≡ 2 ^ s = omega (arith, pow_mono s 31 (omega arith)) in
      let line : u32 (2 ^ o) ≡ 2 ^ o = omega (arith, pow_mono o 31 (omega arith)) in
      let count : u32 n ≡ n = omega arith in
      let width : u32 ways ≡ ways = mod-eq_of_lt (omega arith) in
      record {
        controller =
            rw (sets, line, count, width) (new_controller-CtlValid n s o ways le_s le_o pos_ways);
        processors = count;
        next = omega arith;
        pids = tt;
      }

  -- On a machine of 1 to 16 processors, with 1 to 2^31 - 1 ways, 2^s sets and lines of 2^o bytes
  -- for s and o below 32, every sequence of fewer than ALL_ONES / 36 callbacks in which threads
  -- detach, load and store only while they are attached returns from `process_attach`: no
  -- assertion fails, no vector is read out of range, and the session that results is valid.
  pub session_lem :
      (es : List Event)
      → 0 < n
      → 36 * length es < all_ones
      → AllAllowed (λ tid. false) es
      → (t : Session) × (run es (process_attach (power_config n s o ways)) ≡ ok t)
        × SessionValid false n (2 ^ s) (36 * length es) t
  session_lem es pos b h =
      run_lem n pos le (2 ^ s) es 0 (36 * length es) (process_attach (power_config n s o ways))
        (λ tid. false) (omega arith) b process_attach-SessionValid (Tracks-none _) h

  -- On a machine of 1 to 16 processors, with 1 to 2^31 - 1 ways, 2^s sets and lines of 2^o bytes
  -- for s and o below 32, every sequence of fewer than ALL_ONES / 36 callbacks in which threads
  -- detach, load and store only while they are attached returns, and leaves a directory in which
  -- no MODIFIED line has two different sharers, and a line is INVALID exactly when its sharer
  -- vector is 0.
  pub single_writer_lem :
      (es : List Event)
      → 0 < n
      → 36 * length es < all_ones
      → AllAllowed (λ tid. false) es
      → (t : Session) × (run es (process_attach (power_config n s o ways)) ≡ ok t)
        × ((a q r : ℕ)
            → (is_modified (line_at t.controller.coherence a).state
                && shares (line_at t.controller.coherence a) q
                && shares (line_at t.controller.coherence a) r
                && not (q == r))
              ≡ false)
        × ((a : ℕ)
            → is_invalid (line_at t.controller.coherence a).state
              ≡ ((line_at t.controller.coherence a).sharer_vector == 0))
  single_writer_lem es pos b h =
      let (t, done, v) = session_lem es pos b h in
      (
        t,
        done,
        λ a q r.
            exclusive_lem n (line_at t.controller.coherence a) q r (v.controller.directory.lines a),
        λ a. empty_lem n (line_at t.controller.coherence a) (v.controller.directory.lines a),
      )
