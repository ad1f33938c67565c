-- ===== src/Profile/Counts.antt =====
-- What the three profiling functions do to the statistics of the processors.
use computer_architect.Common.{
  ℕ, ◌+◌, ◌<◌, ◌==◌, if◌then◌else◌, ◌≡◌, refl, some, ok, length, get_elem?, u64, get_elem?-set,
  length-set,
}
use computer_architect.Profile.{
  AccessType, cache_miss, AccessStat, Profile, account, profile_cache_load, profile_cache_store,
  profile_cache_evict, put_stats, line_stat_at, tally,
}

-- `p'` is `p` with the statistics of `pid` replaced by `s`.
pub record Records (p : Profile) (pid : ℕ) (s : AccessStat) (p' : Profile) : Type 0 where
  pub same_size : length p'.profiles ≡ length p.profiles
  pub stats :
      (q : ℕ) → get_elem? p'.profiles q ≡ (if pid == q then some s else get_elem? p.profiles q)

put_stats-Records :
    (p : Profile) (addr : ℕ) (line : AccessStat) (pid : ℕ) (own : AccessStat)
    → pid < length p.profiles
    → Records p pid own (put_stats p addr line pid own)
unfolding put_stats
put_stats-Records p addr line pid own h = record {
  same_size = length-set p.profiles pid own;
  stats = λ q. get_elem?-set p.profiles pid q own h;
}

module _ (pid addr cost hops : ℕ) (p : Profile) {own : AccessStat} (h : pid < length p.profiles)
    (e : get_elem? p.profiles pid ≡ some own) where
  pub profile_cache_load_lem :
      (type : AccessType)
      → (p' : Profile) × (profile_cache_load type pid addr cost hops p ≡ ok p')
        × Records p pid (record own { load = account type cost hops own.load }) p'
  unfolding profile_cache_load
  profile_cache_load_lem type =
      let old = line_stat_at p addr in
      let line = record old { load = tally type old.load; count = u64 (old.count + 1) } in
      let own' = record own { load = account type cost hops own.load } in
      (put_stats p addr line pid own', rw e refl, put_stats-Records p addr line pid own' h)

  pub profile_cache_store_lem :
      (type : AccessType)
      → (p' : Profile) × (profile_cache_store type pid addr cost hops p ≡ ok p')
        × Records p pid (record own { store = account type cost hops own.store }) p'
  unfolding profile_cache_store
  profile_cache_store_lem type =
      let old = line_stat_at p addr in
      let line = record old { store = tally type old.store; count = u64 (old.count + 1) } in
      let own' = record own { store = account type cost hops own.store } in
      (put_stats p addr line pid own', rw e refl, put_stats-Records p addr line pid own' h)

  pub profile_cache_evict_lem :
      (p' : Profile) × (profile_cache_evict pid addr cost hops p ≡ ok p')
      × Records p pid (record own { evict = account cache_miss cost hops own.evict }) p'
  unfolding profile_cache_evict
  profile_cache_evict_lem =
      let old = line_stat_at p addr in
      let line = record old { evict = tally cache_miss old.evict } in
      let own' = record own { evict = account cache_miss cost hops own.evict } in
      (put_stats p addr line pid own', rw e refl, put_stats-Records p addr line pid own' h)
