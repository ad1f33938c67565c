-- ===== src/Coherence/Reads.antt =====
-- `fetch`, `read_miss` and `process_read` of coherence.cpp: what they do to the directory line.
use computer_architect.Common.{
  ℕ, ◌+◌, ◌≤◌, ◌<◌, Bool, true, false, ◌≡◌, refl, sym, ◌∙◌, arith, if◌then◌else◌, ok, inl, inr,
  Bool-cases, u64, length, get_elem?, get_elem?_in_range, some,
}
use computer_architect.Profile.{AccessType, cache_hit, cache_miss, AccessStat, account}
use computer_architect.Profile.Counts.{Records, profile_cache_load_lem}
use computer_architect.Directory.{
  CacheState, invalid, shared, modified, is_invalid, is_modified, DirectoryLine, set_sharer,
}
use computer_architect.Directory.Sharers.{shares, is_set_lem, owner_lem, shares_none}
use computer_architect.Directory.Counts.{counted_up, increase_read_count_lem}
use computer_architect.Coherence.{
  DirMsi, Reply, get_home_node, fetch, owner_write_back, read_miss, miss, read_reply, count_read,
  process_read, line_at, put_line, get_directory_line, data_write_back, get_directory_cost,
  local_cache_access, memory_access,
}
use computer_architect.Coherence.Lines.{
  Writes, line_at-get_directory_line, get_directory_line-Writes, put_line-Writes, Writes-self,
  Writes-trans, line_at-Writes, profile-Writes,
}
use computer_architect.Coherence.Valid.{LineValid, DirValid, share-LineValid, counted_up-LineValid}

-- The line that a fetch leaves.
unfoldable pub after_fetch : DirectoryLine → ℕ → DirectoryLine
after_fetch d p = if shares d p then d else record (set_sharer d p) { state = shared }

-- A fetch hits exactly where the line is shared already.
unfoldable pub fetch_response : DirectoryLine → ℕ → AccessType
fetch_response d p = if shares d p then cache_hit else cache_miss

owner_write_back_lem :
    {det : Bool} (n : ℕ) (c : DirMsi) (d : DirectoryLine) (home hops : ℕ)
    → c.num_processors ≡ n
    → n ≤ 32
    → LineValid det n d
    → is_invalid d.state ≡ false
    → (x : ℕ × ℕ) × (owner_write_back c d home hops ≡ ok x)
unfolding owner_write_back
owner_write_back_lem n c d home hops e le v live = elim (Bool-cases (is_modified d.state)) [
  | inl m ↦
      let (p, found, lt, on) = owner_lem n d le v.width (v.held live) m in
      (data_write_back p home hops, rw (m, e, found))
  | inr m ↦ ((0, hops), rw m)
]

-- A fetch of a line that some cache holds returns, and writes the line alone.
pub fetch_lem :
    {det : Bool} (n : ℕ) (c : DirMsi) (p home addr hops : ℕ)
    → c.num_processors ≡ n
    → n ≤ 32
    → p < n
    → LineValid det n (line_at c addr)
    → is_invalid (line_at c addr).state ≡ false
    → (r : Reply) × (fetch c p home addr hops ≡ ok r)
      × (r.response ≡ fetch_response (line_at c addr) p)
      × Writes c addr (after_fetch (line_at c addr) p) c.profiles r.coherence
unfolding fetch fetch_response after_fetch
fetch_lem n c p home addr hops e le h v live = elim (Bool-cases (shares d p)) [
  | inl hit ↦ (
    record {
      cost = u64 (c1.0 + local_cache_access);
      hops = c1.1;
      response = cache_hit;
      coherence = c';
    },
    ground (arith, is_set_lem d p, same),
    ground arith,
    rw hit (get_directory_line-Writes c addr),
  )
  | inr other ↦
      let ((wb, hops''), done) =
        owner_write_back_lem n c' d home c1.1 (w.same_processors ∙ e) le v live in
      (
        record {
          cost = u64 (u64 (c1.0 + memory_access) + wb);
          hops = hops'';
          response = cache_miss;
          coherence = put_line c' addr (record (set_sharer d p) { state = shared });
        },
        ground (arith, is_set_lem d p, same),
        ground arith,
        rw other (put_line-Writes c addr _ w),
      )
]
  where
    d : DirectoryLine
    d = line_at c addr

    c1 : ℕ × ℕ
    c1 = get_directory_cost p home hops

    c' : DirMsi
    c' = get_directory_line c addr

    same : line_at c' addr ≡ d
    same = line_at-get_directory_line c addr addr

    w : Writes c addr d c.profiles c'
    w = get_directory_line-Writes c addr

-- The line that a miss leaves.
unfoldable pub after_miss : CacheState → DirectoryLine → ℕ → DirectoryLine
after_miss s d p = record (set_sharer d p) { state = s }

-- A miss on an INVALID line returns, and writes the line alone.
pub miss_lem :
    (s : CacheState) (c : DirMsi) (p home addr hops : ℕ)
    → is_invalid (line_at c addr).state ≡ true
    → (r : Reply) × (miss s c p home addr hops ≡ ok r)
      × (r.response ≡ cache_miss)
      × Writes c addr (after_miss s (line_at c addr) p) c.profiles r.coherence
unfolding miss after_miss set_sharer
miss_lem s c p home addr hops dead = (
  record {
    cost = u64 (c1.0 + memory_access);
    hops = c1.1;
    response = cache_miss;
    coherence = put_line c' addr (set_sharer (record (line_at c' addr) { state = s }) p);
  },
  ground (arith, same),
  refl,
  rw same (put_line-Writes c addr _ w),
)
  where
    c1 : ℕ × ℕ
    c1 = get_directory_cost p home hops

    c' : DirMsi
    c' = get_directory_line c addr

    same : line_at c' addr ≡ line_at c addr
    same = line_at-get_directory_line c addr addr

    w : Writes c addr (line_at c addr) c.profiles c'
    w = get_directory_line-Writes c addr

after_fetch_miss :
    (d : DirectoryLine) (p : ℕ)
    → shares d p ≡ false
    → (fetch_response d p ≡ cache_miss) × (after_fetch d p ≡ after_miss shared d p)
unfolding fetch_response after_fetch after_miss
after_fetch_miss d p out = (ground arith, rw out refl)

not_shared :
    {det : Bool} (n : ℕ) (d : DirectoryLine) (p : ℕ)
    → LineValid det n d
    → is_invalid d.state ≡ true
    → shares d p ≡ false
not_shared n d p v dead = ground (arith, v.empty dead, shares_none d p)

-- The reply to a read: the line as a fetch leaves it, whatever the state was.
read_reply_lem :
    {det : Bool} (n : ℕ) (c : DirMsi) (p home addr : ℕ) (s : CacheState)
    → c.num_processors ≡ n
    → n ≤ 32
    → p < n
    → LineValid det n (line_at c addr)
    → (line_at c addr).state ≡ s
    → (r : Reply) × (read_reply s c p home addr ≡ ok r)
      × (r.response ≡ fetch_response (line_at c addr) p)
      × Writes c addr (after_fetch (line_at c addr) p) c.profiles r.coherence
unfolding read_reply
read_reply_lem n c p home addr invalid e le h v st =
    let dead : is_invalid (line_at c addr).state ≡ true = rw st (unfold is_invalid in refl) in
    let (missed, left) =
      after_fetch_miss (line_at c addr) p (not_shared n (line_at c addr) p v dead) in
    let (r, done, response, w) = miss_lem shared c p home addr 0 dead in
    (r, unfold read_miss in done, response ∙ sym missed, rw left w)
read_reply_lem n c p home addr shared e le h v st =
    fetch_lem n c p home addr 0 e le h v (rw st (unfold is_invalid in refl))
read_reply_lem n c p home addr modified e le h v st =
    fetch_lem n c p home addr 0 e le h v (rw st (unfold is_invalid in refl))

-- The line that a read leaves: the reader is a sharer, a line held elsewhere becomes SHARED, and
-- the reader's counter moves on a miss.
unfoldable pub after_read : DirectoryLine → ℕ → DirectoryLine
after_read d p = if shares d p then d else counted_up (record (set_sharer d p) { state = shared }) p

count_read_lem :
    {det : Bool} (n : ℕ) (c : DirMsi) (d : DirectoryLine) (p addr : ℕ)
    → n ≤ 16
    → p < n
    → LineValid det n d
    → line_at c addr ≡ after_fetch d p
    → (c' : DirMsi) × (count_read (fetch_response d p) c p addr ≡ ok c')
      × Writes c addr (after_read d p) c.profiles c'
unfolding count_read fetch_response after_fetch after_read
count_read_lem n c d p addr le h v e = elim (Bool-cases (shares d p)) [
  | inl hit ↦
      (c, rw hit, (let e' : d ≡ line_at c addr = ground arith in rw (hit, e') (Writes-self c addr)))
  | inr other ↦
      let d' = record (set_sharer d p) { state = shared } in
      let counted = increase_read_count_lem n d' p h le (unfold set_sharer in v.count_width) in
      (
        put_line c addr (counted_up d' p),
        ground (arith, counted),
        rw other (put_line-Writes c addr _ (Writes-self c addr)),
      )
]

-- What a read does: it returns; the line of the address becomes `after_read`, and no other line
-- changes; the access is counted as a hit exactly where the reader shared the line.
pub record ReadDone (c : DirMsi) (p addr : ℕ) (c' : DirMsi) : Type 0 where
  pub cost : ℕ
  pub hops : ℕ
  pub own : AccessStat
  pub own_was : get_elem? c.profiles.profiles p ≡ some own
  pub written : Writes c addr (after_read (line_at c addr) p) c'.profiles c'
  pub recorded :
      Records c.profiles p
        (record own { load = account (fetch_response (line_at c addr) p) cost hops own.load })
        c'.profiles

module _ {det : Bool} (n : ℕ) (le : n ≤ 16) (c : DirMsi) (valid : DirValid det n c) (p addr : ℕ)
    (h : p < n) where
  pub process_read_lem : (c' : DirMsi) × (process_read c p addr ≡ ok c') × ReadDone c p addr c'
  unfolding process_read
  process_read_lem =
      let c1 = get_directory_line c addr in
      let home = get_home_node c addr in
      let w1 = get_directory_line-Writes c addr in
      let same = line_at-get_directory_line c addr addr in
      let v1 : LineValid det n (line_at c1 addr) = rw same (valid.lines addr) in
      let (r, replied, response, w2) =
        read_reply_lem n c1 p home addr (line_at c1 addr).state
          (w1.same_processors ∙ valid.processors) (omega arith) h v1 refl in
      let (counted, counts, w3) =
        count_read_lem n r.coherence (line_at c1 addr) p addr le h v1 (line_at-Writes c1 addr w2) in
      let profiles : counted.profiles ≡ c.profiles = w3.profiled ∙ w2.profiled ∙ w1.profiled in
      let fits : p < length c.profiles.profiles = rw valid.profile_size h in
      let (own, own_was) = get_elem?_in_range c.profiles.profiles p fits in
      let (p', profiled, recorded) =
        profile_cache_load_lem p addr r.cost r.hops c.profiles fits own_was r.response in
      (
        record counted { profiles = p' },
        rw (replied, response, counts, profiles, ← response, profiled) refl,
        record {
          cost = r.cost;
          hops = r.hops;
          own = own;
          own_was = own_was;
          written = rw (← same) (
              profile-Writes c addr p' (
                Writes-trans c r.coherence counted addr _ _ _ _
                  (Writes-trans c c1 r.coherence addr _ _ _ _ w1 w2) w3));
          recorded = rw (← same, ← response) recorded;
        },
      )

pub after_read-LineValid :
    {det : Bool} (n : ℕ) (d : DirectoryLine) (p : ℕ)
    → p < n
    → n ≤ 32
    → LineValid det n d
    → LineValid det n (after_read d p)
unfolding after_read
after_read-LineValid {det} n d p h le v = elim (Bool-cases (shares d p)) [
  | inl hit ↦ rw hit v
  | inr other ↦ rw other (
      counted_up-LineValid n (record (set_sharer d p) { state = shared }) p h
        (share-LineValid n d p h le v))
]
