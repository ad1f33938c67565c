-- ===== src/Coherence/Valid.antt =====
-- Well-formed directory lines, and the operations of a line that keep them so.
use computer_architect.Common.{
  ℕ, ◌*◌, ◌^◌, ◌≤◌, ◌<◌, Bool, true, false, ◌==◌, ◌≡◌, refl, sym, ◌∙◌, arith, length, inl, inr,
  Bool-cases, subst,
}
use computer_architect.Common.Bits.{pow_mono}
use computer_architect.Directory.{
  shared, is_invalid, is_modified, DirectoryLine, new_line, set_sharer,
}
use computer_architect.Directory.Sharers.{
  shares, shares-set_sharer, shares_none, set_sharer_width, set_sharer_pos,
}
use computer_architect.Directory.Counts.{counted_up, counted_up_width}
use computer_architect.Profile.{Profile}
use computer_architect.Coherence.{DirMsi, line_at, claim}
use computer_architect.Coherence.Lines.{Writes}

-- For `n` processors: the vectors fit, a line is INVALID exactly when it has no sharer, and
-- without the detector (`det` is false) a MODIFIED line has one sharer alone.
pub record LineValid (det : Bool) (n : ℕ) (d : DirectoryLine) : Type 0 where
  pub width : d.sharer_vector < 2 ^ n
  pub count_width : d.read_count_vector < 2 ^ (n * 2)
  pub empty : is_invalid d.state ≡ true → d.sharer_vector ≡ 0
  pub held : is_invalid d.state ≡ false → 0 < d.sharer_vector
  pub exclusive :
      det ≡ false
      → is_modified d.state ≡ true
      → (q r : ℕ) → shares d q ≡ true
      → shares d r ≡ true
      → q ≡ r

pub new_line-LineValid : (det : Bool) (n : ℕ) → LineValid det n new_line
unfolding is_invalid is_modified
new_line-LineValid det n = record {
  width = omega (arith, pow_mono 0 n);
  count_width = omega (arith, pow_mono 0 (n * 2));
  empty = λ h. refl;
  held = λ h. ground arith;
  exclusive = λ _ m _ _ _ _. ground arith;
}

-- A processor is added, and the line is SHARED.
pub share-LineValid :
    {det : Bool} (n : ℕ) (d : DirectoryLine) (p : ℕ)
    → p < n
    → n ≤ 32
    → LineValid det n d
    → LineValid det n (record (set_sharer d p) { state = shared })
unfolding is_invalid is_modified
share-LineValid n d p h le v = record {
  width = set_sharer_width n d p h le v.width;
  count_width = unfold set_sharer in v.count_width;
  empty = λ e. cc;
  held = λ _. set_sharer_pos d p (omega arith);
  exclusive = λ _ m _ _ _ _. cc;
}

pub counted_up-LineValid :
    {det : Bool} (n : ℕ) (d : DirectoryLine) (p : ℕ)
    → p < n
    → LineValid det n d
    → LineValid det n (counted_up d p)
counted_up-LineValid n d p h v = record {
  width = unfold counted_up in ground arith;
  count_width = counted_up_width n d p h v.count_width;
  empty = unfold counted_up in ground (arith, v.empty);
  held = unfold counted_up in ground (arith, v.held);
  exclusive = λ off m q r hq hr.
      v.exclusive off (unfold counted_up in ground arith) q r
        (unfold counted_up shares in ground arith) (unfold counted_up shares in ground arith);
}

-- After a claim by p < 32, processor q shares the line exactly when q is p.
pub shares-claim : (d : DirectoryLine) (p q : ℕ) → p < 32 → shares (claim d p) q ≡ (p == q)
unfolding claim shares
shares-claim d p q h =
    let blank = record d { sharer_vector = 0 } in
    ground (arith, shares-set_sharer blank p q h, shares_none blank q refl)

-- The line of one sharer: a write without the detector.
pub claim-LineValid :
    (det : Bool) (n : ℕ) (d : DirectoryLine) (p : ℕ)
    → p < n
    → n ≤ 32
    → d.read_count_vector < 2 ^ (n * 2)
    → LineValid det n (claim d p)
unfolding claim
claim-LineValid det n d p h le w = record {
  width = set_sharer_width n (record d { sharer_vector = 0 }) p h le (omega (arith, pow_mono 0 n));
  count_width = unfold set_sharer in w;
  empty = unfold is_invalid in λ e. cc;
  held = λ _. set_sharer_pos (record d { sharer_vector = 0 }) p (omega arith);
  exclusive = λ _ _ q r hq hr.
      ground (arith, shares-claim d p q (omega arith), shares-claim d p r (omega arith));
}

-- A directory over `n` processors, in the mode `det`: its lines are well-formed, and its profile
-- has an entry for each processor.
pub record DirValid (det : Bool) (n : ℕ) (c : DirMsi) : Type 0 where
  pub processors : c.num_processors ≡ n
  pub mode : c.detector ≡ det
  pub profile_size : length c.profiles.profiles ≡ n
  pub lines : (a : ℕ) → LineValid det n (line_at c a)

pub Writes-DirValid :
    {det : Bool} {n : ℕ} (c : DirMsi) (addr : ℕ) {d : DirectoryLine} {p : Profile} (c' : DirMsi)
    → DirValid det n c
    → Writes c addr d p c'
    → LineValid det n d
    → length p.profiles ≡ n
    → DirValid det n c'
Writes-DirValid {det} {n} c addr {d} c' v w line size = record {
  processors = w.same_processors ∙ v.processors;
  mode = w.same_detector ∙ v.mode;
  profile_size = rw w.profiled size;
  lines = λ a. elim (Bool-cases (addr == a)) [
    | inl here ↦ subst (LineValid det n) (sym (ground (arith, w.lines a))) line
    | inr other ↦ subst (LineValid det n) (sym (ground (arith, w.lines a))) (v.lines a)
  ];
}
