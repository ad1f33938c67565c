-- ===== src/Controller/Caches.antt =====
-- The caches of a controller: a line can be fetched for every processor and every address.
use computer_architect.Common.{
  ℕ, suc, ◌≤◌, ◌<◌, List, Bool, ◌≡◌, refl, ◌∙◌, ok, arith, length, set, All, All-set, All-get_elem?,
  All-imp, get_elem?_in_range, length-set, all_ones, u32,
}
use computer_architect.Directory.{DirectoryLine}
use computer_architect.Coherence.{DirMsi, line_at, put_line}
use computer_architect.Coherence.Lines.{Writes, Writes-self, put_line-Writes}
use computer_architect.Coherence.Valid.{LineValid, DirValid, Writes-DirValid}
use computer_architect.Cache.{CacheSet, Cache}
use computer_architect.Cache.Sets.{Below, Evicts, fetch_single_line-Evicts}
use computer_architect.Controller.{
  Controller, get_tag, get_set_index, update_line, fetch_cache_line,
}

-- A set has a line, and its counters are at most `k`.
pub record SetValid (k : ℕ) (s : CacheSet) : Type 0 where
  pub has_line : 0 < length s.lines
  pub low : All (Below k) s.lines

-- A cache has `m` sets.
pub record CacheValid (k m : ℕ) (c : Cache) : Type 0 where
  pub size : length c.sets ≡ m
  pub sets : All (SetValid k) c.sets

-- A controller of `n` processors in the mode `det`: a cache of `m` sets for each, in which every
-- address has its set, with counters at most `k`, over a valid directory.
pub record CtlValid (det : Bool) (n m k : ℕ) (t : Controller) : Type 0 where
  pub directory : DirValid det n t.coherence
  pub size : length t.cache ≡ n
  pub caches : All (CacheValid k m) t.cache
  pub indexed : (addr : ℕ) → u32 (get_set_index t addr) < m

CacheValid-mono : (k j m : ℕ) (c : Cache) → k ≤ j → CacheValid k m c → CacheValid j m c
CacheValid-mono k j m c h v = record {
  size = v.size;
  sets =
      All-imp (SetValid k) (SetValid j) c.sets
        (λ s w. record {
          has_line = w.has_line;
          low = All-imp (Below k) (Below j) s.lines (λ l p. omega arith) w.low;
        })
        v.sets;
}

module _ (m : ℕ) where
  replace_cache :
      (k : ℕ) (caches : List Cache) (p : ℕ) (own : Cache) (i : ℕ) (s' : CacheSet)
      → All (CacheValid k m) caches
      → CacheValid k m own
      → 0 < length s'.lines
      → All (Below (suc (suc k))) s'.lines
      → All (CacheValid (suc (suc k)) m) (set caches p (record own { sets = set own.sets i s' }))
  replace_cache k caches p own i s' all v pos low =
      let own' : Cache = record own { sets = set own.sets i s' } in
      let j = suc (suc k) in
      let later : (c : Cache) → CacheValid k m c → CacheValid j m c =
        λ c. CacheValid-mono k j m c (omega arith) in
      All-set (CacheValid j m) caches p own'
        (All-imp (CacheValid k m) (CacheValid j m) caches later all)
        (record {
          size = length-set own.sets i s' ∙ v.size;
          sets =
              All-set (SetValid j) own.sets i s' (later own v).sets
                (record { has_line = pos; low = low });
        })

module _ {det : Bool} (n : ℕ) (le : n ≤ 16) (m : ℕ) where
  -- A fetch returns: two counters move at most, the directory stays valid, and its lines change
  -- by evictions of the processor alone.
  pub fetch_cache_line_lem :
      (k : ℕ) (t : Controller) (p addr : ℕ) (replace : Bool)
      → p < n
      → suc (suc k) < all_ones
      → CtlValid det n m k t
      → (t' : Controller) × (fetch_cache_line t p addr replace ≡ ok t')
        × CtlValid det n m (suc (suc k)) t'
        × Evicts det p t.coherence t'.coherence
  unfolding fetch_cache_line
  fetch_cache_line_lem k t p addr replace h b v =
      let i = u32 (get_set_index t addr) in
      let (own, mine) = get_elem?_in_range t.cache p (rw v.size h) in
      let own_valid = All-get_elem? (CacheValid k m) t.cache p own v.caches mine in
      let (s, here) = get_elem?_in_range own.sets i (rw own_valid.size (v.indexed addr)) in
      let s_valid = All-get_elem? (SetValid k) own.sets i s own_valid.sets here in
      let ((s', c'), done, size, low, valid, evicts) =
        fetch_single_line-Evicts n le p h k (get_tag t addr) addr replace s t.coherence
          s_valid.has_line s_valid.low b v.directory in
      let own' : Cache = record own { sets = set own.sets i s' } in
      (
        record t { cache = set t.cache p own'; coherence = c' },
        rw (mine, here, done) refl,
        record {
          directory = valid;
          size = length-set t.cache p own' ∙ v.size;
          caches =
              replace_cache m k t.cache p own i s' v.caches own_valid (rw size s_valid.has_line)
                low;
          indexed = unfold get_set_index in v.indexed;
        },
        evicts,
      )

-- The same caches over another valid directory.
pub with_directory :
    {det : Bool} {n m k : ℕ} (t : Controller) (c : DirMsi)
    → CtlValid det n m k t
    → DirValid det n c
    → CtlValid det n m k (record t { coherence = c })
with_directory t c v d = record {
  directory = d;
  size = v.size;
  caches = v.caches;
  indexed = unfold get_set_index in v.indexed;
}

pub CtlValid-mono :
    {det : Bool} (n m k j : ℕ) (t : Controller)
    → k ≤ j
    → CtlValid det n m k t
    → CtlValid det n m j t
CtlValid-mono n m k j t h v = record {
  directory = v.directory;
  size = v.size;
  caches =
      All-imp (CacheValid k m) (CacheValid j m) t.cache (λ c. CacheValid-mono k j m c h) v.caches;
  indexed = v.indexed;
}

-- A write to the directory line of an address.
pub update_line_lem :
    {det : Bool} (n m k : ℕ) (t : Controller) (addr : ℕ) (f : DirectoryLine → DirectoryLine)
    → CtlValid det n m k t
    → LineValid det n (f (line_at t.coherence addr))
    → CtlValid det n m k (update_line t addr f)
      × Writes t.coherence addr
          (f (line_at t.coherence addr))
          t.coherence.profiles
          (update_line t addr f).coherence
unfolding update_line
update_line_lem n m k t addr f v line =
    let w =
      put_line-Writes t.coherence addr (f (line_at t.coherence addr))
        (Writes-self t.coherence addr) in
    (
      with_directory t (put_line t.coherence addr (f (line_at t.coherence addr))) v (
          Writes-DirValid t.coherence addr
            (put_line t.coherence addr (f (line_at t.coherence addr))) v.directory w line
            v.directory.profile_size),
      w,
    )
