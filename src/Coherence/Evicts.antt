-- ===== src/Coherence/Evicts.antt =====
-- `invalidate` of coherence.cpp: the eviction of a line by a processor.
use computer_architect.Common.{
  ℕ, ◌^◌, ◌≤◌, ◌<◌, Bool, true, false, not, ◌&&◌, ◌==◌, ◌≡◌, refl, ap, subst, ◌∙◌, arith,
  if◌then◌else◌, Option, none, ok, some, length, get_elem?, get_elem?_in_range, inl, inr,
  Bool-cases,
}
use computer_architect.Common.Bits.{test_bit, bit_exists, pow_mono}
use computer_architect.Profile.{Profile, AccessStat, Stat}
use computer_architect.Profile.Counts.{profile_cache_evict_lem}
use computer_architect.Directory.{
  invalid, shared, is_invalid, is_modified, DirectoryLine, is_owner, is_last_writer, clear_sharer,
}
use computer_architect.Directory.Sharers.{
  shares, is_set_lem, shares-clear_sharer, clear_sharer_width, pos_of_shares,
}
use computer_architect.Coherence.{
  DirMsi, line_at, put_line, get_directory_line, get_home_node, data_write_back, has_ownership,
  evict_write_back, drop_sharer, invalidate,
}
use computer_architect.Coherence.Lines.{
  Writes, line_at-get_directory_line, get_directory_line-Writes, put_line-Writes, profile-Writes,
}
use computer_architect.Coherence.Valid.{LineValid}

-- Whether `has_ownership` holds of a line, in the mode `det`.
unfoldable pub owns : Bool → DirectoryLine → ℕ → Bool
owns det d p = let claimed = is_owner d p in if det then is_last_writer d p && claimed else claimed

-- The line after the write back of its owner.
unfoldable pub after_write_back : Bool → DirectoryLine → ℕ → DirectoryLine
after_write_back det d p =
    if owns det d p then record d { state = if det then shared else invalid } else d

-- The line that an eviction leaves.
unfoldable pub after_evict : Bool → DirectoryLine → ℕ → DirectoryLine
after_evict det d p = drop_sharer (after_write_back det d p) p

-- The statistics of loads and stores, which an eviction leaves alone.
abbrev pub demand : Option AccessStat → Option (Stat × Stat)
demand none = none
demand (some s) = some (s.load, s.store)

pub record KeepsDemand (p p' : Profile) : Type 0 where
  pub same_size : length p'.profiles ≡ length p.profiles
  pub stats : (q : ℕ) → demand (get_elem? p'.profiles q) ≡ demand (get_elem? p.profiles q)

pub KeepsDemand-refl : (p : Profile) → KeepsDemand p p
KeepsDemand-refl p = record { same_size = refl; stats = λ q. refl }

pub KeepsDemand-trans :
    (p p' p'' : Profile) → KeepsDemand p p' → KeepsDemand p' p'' → KeepsDemand p p''
KeepsDemand-trans p p' p'' k l = record {
  same_size = l.same_size ∙ k.same_size;
  stats = λ q. l.stats q ∙ k.stats q;
}

evict_write_back_lem :
    (det : Bool) (c : DirMsi) (d : DirectoryLine) (p addr : ℕ)
    → c.detector ≡ det
    → p < length c.profiles.profiles
    → (x : Profile × DirectoryLine) × (evict_write_back c d p addr ≡ ok x)
      × (x.1 ≡ after_write_back det d p)
      × KeepsDemand c.profiles x.0
unfolding evict_write_back after_write_back has_ownership owns
evict_write_back_lem det c d p addr e h = elim (Bool-cases (owns det d p)) [
  | inl mine ↦
      let (own, own_was) = get_elem?_in_range c.profiles.profiles p h in
      let back = data_write_back p (get_home_node c addr) 0 in
      let (p', done, recorded) =
        profile_cache_evict_lem p addr back.0 back.1 c.profiles h own_was in
      (
        (p', record d { state = if det then shared else invalid }),
        ground (arith, done),
        rw mine refl,
        record {
          same_size = recorded.same_size;
          stats = λ q. ground (arith, recorded.stats q, own_was);
        },
      )
  | inr other ↦ ((c.profiles, d), ground arith, rw other refl, KeepsDemand-refl c.profiles)
]

-- The line of the address changes, and the statistics of loads and stores stay.
pub invalidate-Writes :
    (det : Bool) (c : DirMsi) (p addr : ℕ)
    → c.detector ≡ det
    → p < length c.profiles.profiles
    → (c' : DirMsi) × (invalidate c p addr ≡ ok c')
      × Writes c addr (after_evict det (line_at c addr) p) c'.profiles c'
      × KeepsDemand c.profiles c'.profiles
unfolding invalidate after_evict put_line
invalidate-Writes det c p addr e h =
    let c1 = get_directory_line c addr in
    let w = get_directory_line-Writes c addr in
    let same = line_at-get_directory_line c addr addr in
    let ((p', d'), done, left, kept) =
      evict_write_back_lem det c1 (line_at c1 addr) p addr (w.same_detector ∙ e)
        (rw w.profiled h) in
    let c2 = put_line (record c1 { profiles = p' }) addr (drop_sharer d' p) in
    let becomes : d' ≡ after_write_back det (line_at c addr) p =
      left ∙ ap (λ l. after_write_back det l p) same in
    (
      c2,
      rw done refl,
      subst (λ x. Writes c addr (drop_sharer x p) p' c2) becomes
          (put_line-Writes c addr (drop_sharer d' p) (profile-Writes c addr p' w)),
      subst (λ x. KeepsDemand x p') w.profiled kept,
    )

-- The fields of the line that an eviction leaves.
pub evicted_fields :
    (det : Bool) (d : DirectoryLine) (p : ℕ)
    → ((after_evict det d p).sharer_vector ≡ (clear_sharer d p).sharer_vector)
      × ((after_evict det d p).read_count_vector ≡ d.read_count_vector)
      × ((after_evict det d p).last_writer ≡ d.last_writer)
      × ((after_evict det d p).state ≡ (
          if (clear_sharer d p).sharer_vector == 0
          then invalid
          else if owns det d p
          then (if det then shared else invalid)
          else d.state))
unfolding after_evict after_write_back drop_sharer clear_sharer
evicted_fields det d p = (ground arith, ground arith, ground arith, ground arith)

-- The evicted processor leaves the sharers, and no other does.
pub shares-after_evict :
    (det : Bool) (d : DirectoryLine) (p q : ℕ)
    → p < 32
    → d.sharer_vector < 2 ^ 32
    → shares (after_evict det d p) q ≡ shares d q && not (p == q)
unfolding shares
shares-after_evict det d p q h w =
    ap (λ v. test_bit v q) (evicted_fields det d p).0 ∙ shares-clear_sharer d p q h w

-- A sharer that is left is another than the evicted processor.
pub sharer_left :
    (n : ℕ) (d : DirectoryLine) (p : ℕ)
    → p < n
    → n ≤ 32
    → d.sharer_vector < 2 ^ n
    → 0 < (clear_sharer d p).sharer_vector
    → (q : ℕ) × (shares d q ≡ true) × ((p == q) ≡ false)
unfolding shares
sharer_left n d p h le w pos =
    let (q, lt, on) =
      bit_exists n (clear_sharer d p).sharer_vector (clear_sharer_width n d p w) pos in
    let kept = shares-clear_sharer d p q (omega arith) (omega (arith, pow_mono n 32 le)) in
    (q, ground arith, ground arith)

pub owns_lem :
    (d : DirectoryLine) (p : ℕ) → p < 32 → owns false d p ≡ shares d p && is_modified d.state
unfolding owns is_owner
owns_lem d p h = ground (arith, is_set_lem d p h)

module _ {det : Bool} (n : ℕ) (d : DirectoryLine) (p : ℕ) (h : p < n) (le : n ≤ 32)
    (v : LineValid det n d) where
  after_evict_empty :
      is_invalid (after_evict det d p).state ≡ true → (after_evict det d p).sharer_vector ≡ 0
  after_evict_empty dead = elim (Bool-cases ((clear_sharer d p).sharer_vector == 0)) [
    | inl gone ↦ ground (arith, evicted_fields det d p)
    | inr some_left ↦
        let (q, on, other) = sharer_left n d p h le v.width (ground arith) in
        let alone : det ≡ false → is_modified d.state ≡ true → shares d p ≡ true → p ≡ q =
          λ off m mine. v.exclusive off m p q mine on in
        let counted = pos_of_shares d q on in
        unfold is_invalid is_modified in
        ground (arith, evicted_fields det d p, owns_lem d p (omega arith), v.empty)
  ]

  pub after_evict-LineValid : LineValid det n (after_evict det d p)
  after_evict-LineValid = record {
    width = rw (evicted_fields det d p).0 (clear_sharer_width n d p v.width);
    count_width = rw (evicted_fields det d p).1 v.count_width;
    empty = after_evict_empty;
    held = unfold is_invalid in ground (arith, evicted_fields det d p);
    exclusive = λ off m q r hq hr.
        let was : is_modified d.state ≡ true =
          unfold is_modified in ground (arith, evicted_fields det d p) in
        let wide : d.sharer_vector < 2 ^ 32 = omega (arith, v.width, pow_mono n 32 le) in
        v.exclusive off was q r (ground (arith, shares-after_evict det d p q (omega arith) wide))
          (ground (arith, shares-after_evict det d p r (omega arith) wide));
  }
