-- ===== src/Raytrace/WorkPool.antt =====
-- src/splash2/codes/apps/raytrace/workpool.C: the stacks of pixel bundles, one for each process, and
-- the stealing of bundles. The allocator of the entries is a parameter. The coordinates are natural
-- numbers; the locks are held for the whole of each access of a pool.
pub mod Bundles
pub mod Steal
use computer_architect.Common.{
  ℕ, zero, suc, ◌+◌, ◌-◌, ◌*◌, ◌/◌, ◌%◌, Bool, true, false, not, ◌&&◌, ◌==◌, ltb, leb,
  if◌then◌else◌, Option, none, some,
}
use computer_architect.Common.Runs.{Run, done, spent, ◌>>=◌}

-- `GlobalMalloc` and `GlobalFree` on a state.
pub record Allocator (S : Type 0) : Type 0 where
  pub malloc : S → ℕ → Run (ℕ × S)
  pub free : S → ℕ → Run S

pub record WpJob : Type 0 where
  pub xpix : ℕ
  pub ypix : ℕ
  pub xdim : ℕ
  pub ydim : ℕ
  pub next : ℕ

pub record RayJob : Type 0 where
  pub x : ℕ
  pub y : ℕ
  pub xlen : ℕ
  pub ylen : ℕ
  pub xcurr : ℕ
  pub ycurr : ℕ

abbrev pub wps_empty : ℕ
wps_empty = 0

abbrev pub wps_valid : ℕ
wps_valid = 1

-- `sizeof(WPJOB)`
abbrev pub job_bytes : ℕ
job_bytes = 40

-- `gm->workpool`, `gm->wpstat`, the entries in memory and the allocator's state.
pub record Pools (S : Type 0) : Type 0 where
  pub workpool : ℕ → ℕ
  pub wpstat : ℕ → ℕ
  pub entry : ℕ → WpJob
  pub alloc : S

abbrev pub set_at : {A : Type 0} → (ℕ → A) → ℕ → A → ℕ → A
set_at f k v a = if a == k then v else f a

-- The bundles of `PutJob` and `InitWorkPool`: a step of `b`, cut off at the end.
unfoldable pub bundle_size : ℕ → ℕ → ℕ → ℕ
bundle_size addr end b = if leb (addr + b - 1) end then b else end - addr + 1

module _ {S : Type 0} (A : Allocator S) where
  -- One entry on the top of the stack of `pid`.
  unfoldable pub push_entry : Pools S → ℕ → ℕ → ℕ → ℕ → ℕ → Run (Pools S)
  push_entry s pid x y xsize ysize = (do
    (p, a) ← A.malloc s.alloc job_bytes
    let job : WpJob = record {
      xpix = x;
      ypix = y;
      xdim = xsize;
      ydim = ysize;
      next = s.workpool pid;
    }
    done (record {
      workpool = set_at s.workpool pid p;
      wpstat = s.wpstat;
      entry = set_at s.entry p job;
      alloc = a;
    }))

  -- The inner loop of `PutJob`, from column `j`.
  unfoldable pub put_row : ℕ → Pools S → ℕ → ℕ → ℕ → ℕ → ℕ → ℕ → ℕ → ℕ → Run (Pools S)
  unfolding push_entry bundle_size
  put_row zero s pid xe xbe xb_end yb_addr yb_size j xb_addr = spent
  put_row (suc left) s pid xe xbe xb_end yb_addr yb_size j xb_addr =
      if ltb j xe
      then (push_entry s pid xb_addr yb_addr (bundle_size xb_addr xb_end xbe) yb_size >>= λ s'.
          put_row left s' pid xe xbe xb_end yb_addr yb_size (j + xbe) (xb_addr + xbe))
      else done s

  -- The outer loop, from row `i`.
  unfoldable pub put_rows : ℕ → Pools S → ℕ → ℕ → ℕ → ℕ → ℕ → ℕ → ℕ → ℕ → ℕ → ℕ → Run (Pools S)
  unfolding put_row bundle_size
  put_rows zero s pid xs xe ye xbe ybe xb_end yb_end i yb_addr = spent
  put_rows (suc left) s pid xs xe ye xbe ybe xb_end yb_end i yb_addr =
      if ltb i ye
      then (put_row (suc xe) s pid xe xbe xb_end yb_addr (bundle_size yb_addr yb_end ybe) 0 xs
          >>= λ s'. put_rows left s' pid xs xe ye xbe ybe xb_end yb_end (i + ybe) (yb_addr + ybe))
      else done s

  unfoldable pub put_job : Pools S → ℕ → ℕ → ℕ → ℕ → ℕ → ℕ → ℕ → Run (Pools S)
  unfolding put_rows
  put_job s xs ys xe ye xbe ybe pid =
      put_rows (suc ye) s pid xs xe ye xbe ybe (xs + xe - 1) (ys + ye - 1) 0 ys

  -- The status and the job, if there is one.
  unfoldable pub get_job : Pools S → ℕ → Run (Option RayJob × Pools S)
  get_job s pid =
      let p = s.workpool pid in
      if p == 0
      then done (none, record s { wpstat = set_at s.wpstat pid wps_empty })
      else (let e = s.entry p in
          let job : RayJob = record {
            x = e.xpix;
            y = e.ypix;
            xlen = e.xdim;
            ylen = e.ydim;
            xcurr = e.xpix;
            ycurr = e.ypix;
          } in
          A.free s.alloc p >>= λ a.
          done (some job, record s { workpool = set_at s.workpool pid e.next; alloc = a }))

  -- The job of pool `i`, if its status says that there is one.
  unfoldable pub try_job : Pools S → ℕ → Run (Option RayJob × Pools S)
  try_job s i = if s.wpstat i == wps_valid then get_job s i else done (none, s)

  -- The other pools, from `i` on.
  unfoldable pub steal : ℕ → ℕ → Pools S → ℕ → ℕ → Run (Option RayJob × Pools S)
  unfolding try_job
  steal zero nprocs s pid i = spent
  steal (suc left) nprocs s pid i =
      if i == pid
      then done (none, s)
      else (try_job s i >>= λ r. elim r.0 [
        | none ↦ steal left nprocs r.1 pid ((i + 1) % nprocs)
        | some job ↦ done (some job, r.1)
      ])

  unfoldable pub get_jobs : ℕ → Pools S → ℕ → Run (Option RayJob × Pools S)
  unfolding try_job steal
  get_jobs nprocs s pid = try_job s pid >>= λ r. elim r.0 [
    | none ↦ steal (suc nprocs) nprocs r.1 pid ((pid + 1) % nprocs)
    | some job ↦ done (some job, r.1)
  ]

  -- `InitWorkPool`: the blocks of a row of the image, from `x`, and the rows, from `y`. Every
  -- `nprocs`-th block is put into the pool of `pid`.
  unfoldable pub init_row : ℕ → Pools S → ℕ → ℕ → ℕ → ℕ → ℕ → ℕ → ℕ → ℕ → ℕ → ℕ → Run (ℕ × Pools S)
  unfolding put_job
  init_row zero s nprocs pid xres xsize bundlex bundley y ye x i = spent
  init_row (suc left) s nprocs pid xres xsize bundlex bundley y ye x i =
      if ltb x xres
      then (let xe = if ltb xres (x + xsize) then xres - x else xsize in
          (if i == pid then put_job s x y xe ye bundlex bundley pid else done s) >>= λ s'.
          init_row left s' nprocs pid xres xsize bundlex bundley y ye (x + xsize)
            ((i + 1) % nprocs))
      else done (i, s)

  unfoldable pub init_rows : ℕ → Pools S → ℕ → ℕ → ℕ → ℕ → ℕ → ℕ → ℕ → ℕ → ℕ → ℕ → Run (Pools S)
  unfolding init_row
  init_rows zero s nprocs pid xres yres xsize ysize bundlex bundley y i = spent
  init_rows (suc left) s nprocs pid xres yres xsize ysize bundlex bundley y i =
      if ltb y yres
      then (let ye = if ltb yres (y + ysize) then yres - y else ysize in
          init_row (suc xres) s nprocs pid xres xsize bundlex bundley y ye 0 i >>= λ r.
          init_rows left r.1 nprocs pid xres yres xsize ysize bundlex bundley (y + ysize) r.0)
      else done s

  unfoldable pub init_work_pool : Pools S → ℕ → ℕ → ℕ → ℕ → ℕ → ℕ → ℕ → ℕ → Run (Pools S)
  unfolding init_rows
  init_work_pool s nprocs pid xres yres blockx blocky bundlex bundley =
      init_rows (suc yres)
        (record s { wpstat = set_at s.wpstat pid wps_valid; workpool = set_at s.workpool pid 0 })
        nprocs pid xres yres (xres / blockx) (yres / blocky) bundlex bundley 0 0
