-- ===== src/Raytrace/WorkPool/Steal.antt =====
-- `GetJobs`: a process finds a bundle wherever there is one, and otherwise has asked every pool.
use computer_architect.Common.{
  ℕ, zero, suc, ◌+◌, ◌-◌, ◌%◌, ◌≤◌, ◌<◌, ◌≡◌, refl, sym, ap, ◌∙◌, Bool, true, false, not, ◌||◌,
  ◌==◌, leb, if◌then◌else◌, Option, none, some, arith, Bool-cases, inl, inr,
}
use native.Mathlib.Nat.{mod-eq_of_lt, mod_self}
use computer_architect.Common.Runs.{Run, done, ◌>>=◌}
use computer_architect.Raytrace.WorkPool.{
  Allocator, Pools, RayJob, WpJob, set_at, get_job, try_job, steal, get_jobs,
}
use computer_architect.Raytrace.WorkPool.Bundles.{bind_assoc}

-- There is no bundle to be had from the pool.
abbrev pub idle : {S : Type 0} → Pools S → ℕ → Bool
idle s q = not (s.wpstat q == 1) || s.workpool q == 0

abbrev pub job_of : WpJob → RayJob
job_of e = record {
  x = e.xpix;
  y = e.ypix;
  xlen = e.xdim;
  ylen = e.ydim;
  xcurr = e.xpix;
  ycurr = e.ypix;
}

-- How far `i` is from `pid`, around the ring of `n` pools.
abbrev ahead : ℕ → ℕ → ℕ → ℕ
ahead n pid i = if leb i pid then pid - i else pid + n - i

ring_next : (n i : ℕ) → i < n → (i + 1) % n ≡ (if i + 1 == n then 0 else i + 1)
ring_next n i lt = elim (Bool-cases (i + 1 == n)) [
  | inl last ↦ let e : i + 1 ≡ n = ground arith in rw last (ap (λ z. z % n) e ∙ mod_self n)
  | inr more ↦ rw more (mod-eq_of_lt (ground arith))
]

busy_differs :
    {S : Type 0} (s : Pools S) (i q : ℕ) → idle s i ≡ true → idle s q ≡ false → (q == i) ≡ false
busy_differs s i q nothing busy = elim (Bool-cases (q == i)) [
  | inl same ↦
      let e : q ≡ i = ground arith in
      let clash : true ≡ false = sym nothing ∙ ap (idle s) (sym e) ∙ busy in cc
  | inr apart ↦ apart
]

module _ {S : Type 0} (A : Allocator S) where
  -- The top entry of the pool of `r` is taken, and freed.
  abbrev pub taken : Pools S → ℕ → Run (Option RayJob × Pools S)
  taken s r = A.free s.alloc (s.workpool r) >>= λ a. done (
    some (job_of (s.entry (s.workpool r))),
    record s { workpool = set_at s.workpool r (s.entry (s.workpool r)).next; alloc = a },
  )

  -- What an attempt that finds no job leaves: the hints may change, and no pool becomes idle or busy.
  abbrev pub Nothing : Pools S → Run (Option RayJob × Pools S) → Type 0
  Nothing s r =
      (f : ℕ → ℕ) × (r ≡ done (none, record s { wpstat = f }))
      × ((q : ℕ) → idle (record s { wpstat = f }) q ≡ idle s q)

  -- What an attempt that finds one leaves.
  abbrev pub Found : ℕ → Pools S → Run (Option RayJob × Pools S) → Type 0
  Found n s r =
      (q : ℕ) × (f : ℕ → ℕ) × (q < n) × (idle s q ≡ false) × (r ≡ taken (record s { wpstat = f }) q)

  try_idle : (s : Pools S) (i : ℕ) → idle s i ≡ true → Nothing s (try_job A s i)
  unfolding try_job get_job
  try_idle s i h = elim (Bool-cases (s.wpstat i == 1)) [
    | inl valid ↦
        let empty : (s.workpool i == 0) ≡ true = ground arith in
        (set_at s.wpstat i 0, rw (valid, empty) refl, λ q. ground arith)
    | inr hint ↦ (s.wpstat, rw hint refl, λ q. refl)
  ]

  try_busy : (s : Pools S) (i : ℕ) → idle s i ≡ false → try_job A s i ≡ taken s i
  unfolding try_job get_job
  try_busy s i h =
      let valid : (s.wpstat i == 1) ≡ true = ground arith in
      let some_entry : (s.workpool i == 0) ≡ false = ground arith in rw (valid, some_entry) refl

  steal_none :
      (left n : ℕ) (s : Pools S) (pid i : ℕ)
      → pid < n
      → i < n
      → ahead n pid i < left
      → ((q : ℕ) → q < n → idle s q ≡ true)
      → Nothing s (steal A left n s pid i)
  unfolding steal
  steal_none zero n s pid i lp li enough all = ground arith
  steal_none (suc left) n s pid i lp li enough all = elim (Bool-cases (i == pid)) [
    | inl back ↦ (s.wpstat, rw back refl, λ q. refl)
    | inr other ↦
        let (f, run, kept) = try_idle s i (all i li) in
        let s' = record s { wpstat = f } in
        let next = ring_next n i li in
        let (g, rest, kept') =
          steal_none left n s' pid ((i + 1) % n) lp (rw next (ground arith))
            (rw next (ground arith)) (λ q lt. kept q ∙ all q lt) in
        (g, rw (other, run) rest, λ q. kept' q ∙ kept q)
  ]

  steal-Found :
      (left n : ℕ) (s : Pools S) (pid i q : ℕ)
      → pid < n
      → i < n
      → ahead n pid i < left
      → q < n
      → (q == pid) ≡ false
      → ahead n pid q ≤ ahead n pid i
      → idle s q ≡ false
      → Found n s (steal A left n s pid i)
  unfolding steal
  steal-Found zero n s pid i q lp li enough lq other near busy = ground arith
  steal-Found (suc left) n s pid i q lp li enough lq other near busy =
      let here : (i == pid) ≡ false = ground arith in
      elim (Bool-cases (idle s i)) [
        | inl nothing ↦
            let (f, run, kept) = try_idle s i nothing in
            let s' = record s { wpstat = f } in
            let next = ring_next n i li in
            let differ = busy_differs s i q nothing busy in
            let (r, g, lr, busy', rest) =
              steal-Found left n s' pid ((i + 1) % n) q lp (rw next (ground arith))
                (rw next (ground arith)) lq other (rw next (ground arith)) (kept q ∙ busy) in
            (r, g, lr, sym (kept r) ∙ busy', rw (here, run) rest)
        | inr work ↦ (
          i,
          s.wpstat,
          li,
          work,
          rw (here, try_busy s i work) (bind_assoc (A.free s.alloc (s.workpool i)) _ _),
        )
      ]

  -- When the pid is below the number of processes and each pool is empty or marked so, GetJobs
  -- ends without a job, with no pool changed, only status hints.
  pub get_jobs_none :
      (n : ℕ) (s : Pools S) (pid : ℕ)
      → pid < n
      → ((q : ℕ) → q < n → idle s q ≡ true)
      → Nothing s (get_jobs A n s pid)
  unfolding get_jobs
  get_jobs_none n s pid lp all =
      let (f, run, kept) = try_idle s pid (all pid lp) in
      let next = ring_next n pid lp in
      let (g, rest, kept') =
        steal_none (suc n) n (record s { wpstat = f }) pid ((pid + 1) % n) lp
          (rw next (ground arith)) (rw next (ground arith)) (λ q lt. kept q ∙ all q lt) in
      (g, rw run rest, λ q. kept' q ∙ kept q)

  -- When the pid is below the number of processes and some pool is marked valid and has an entry,
  -- GetJobs takes the top entry of such a pool and frees it; before that, only status hints
  -- change.
  pub get_jobs-Found :
      (n : ℕ) (s : Pools S) (pid q : ℕ)
      → pid < n
      → q < n
      → idle s q ≡ false
      → Found n s (get_jobs A n s pid)
  unfolding get_jobs
  get_jobs-Found n s pid q lp lq busy = elim (Bool-cases (idle s pid)) [
    | inl nothing ↦
        let (f, run, kept) = try_idle s pid nothing in
        let next = ring_next n pid lp in
        let differ = busy_differs s pid q nothing busy in
        let (r, g, lr, busy', rest) =
          steal-Found (suc n) n (record s { wpstat = f }) pid ((pid + 1) % n) q lp
            (rw next (ground arith)) (rw next (ground arith)) lq differ (rw next (ground arith))
            (kept q ∙ busy) in
        (r, g, lr, sym (kept r) ∙ busy', rw run rest)
    | inr work ↦ (
      pid,
      s.wpstat,
      lp,
      work,
      rw (try_busy s pid work) (bind_assoc (A.free s.alloc (s.workpool pid)) _ _),
    )
  ]
