-- ===== src/Callbacks.antt =====
-- src/simulator/callbacks.cpp: the callbacks that the instrumented program makes, as steps of a
-- session. Each one runs under `mapLock`, so a run is a sequence of them. Pin, which makes the
-- calls and gives the thread ids, is not part of the sources: its choices are the events.
pub mod Runs
pub mod Protocol
pub mod Sessions
use computer_architect.Common.{
  ℕ, ◌+◌, List, [], ◌∷◌, Option, none, some, ◌==◌, if◌then◌else◌, Result, ok, err, assertion,
  out_of_range, at, ◌>>=◌, u32,
}
use computer_architect.Common.Assoc.{lookup, insert, erase}
use computer_architect.Controller.{Controller, new_controller, load_single_line, store_single_line}

-- `CACHE_CONFIG`; its INT32 fields are taken to be positive.
pub record CacheConfig : Type 0 where
  pub num_sets : ℕ
  pub set_size : ℕ
  pub line_size : ℕ
  pub total_processors : ℕ

-- The globals of the file.
pub record Session : Type 0 where
  pub lock_id : ℕ
  pub next_pid : ℕ
  pub num_processors : ℕ
  pub controller : Controller
  pub t_map : List (ℕ × ℕ)

-- `PIN_GetLock(&mapLock, lock_id++)`
unfoldable pub take_lock : Session → Session
take_lock s = record s { lock_id = u32 (s.lock_id + 1) }

-- The assertion of `get_pid`, and its read.
unfoldable pub get_pid : Session → ℕ → Result ℕ
get_pid s tid = elim (lookup tid s.t_map) [ none ↦ err assertion | some pid ↦ ok pid ]

-- The pid, and `next_pid` after it.
unfoldable pub get_next_pid : Session → ℕ × ℕ
get_next_pid s =
    if s.next_pid == s.num_processors then (0, s.next_pid) else (s.next_pid, u32 (s.next_pid + 1))

unfoldable pub cache_load : Session → ℕ → ℕ → Result Session
cache_load s tid addr = do
  let s' = take_lock s
  pid ← get_pid s' tid
  t ← load_single_line s'.controller addr pid
  ok (record s' { controller = t })

unfoldable pub cache_store : Session → ℕ → ℕ → Result Session
cache_store s tid addr = do
  let s' = take_lock s
  pid ← get_pid s' tid
  t ← store_single_line s'.controller addr pid
  ok (record s' { controller = t })

-- The session before any thread; `process_attach` takes the lock once, when `lock_id` is 1.
unfoldable pub process_attach : CacheConfig → Session
process_attach f = record {
  lock_id = 2;
  next_pid = 0;
  num_processors = u32 f.total_processors;
  controller =
      new_controller (u32 f.total_processors) (u32 f.num_sets) (u32 f.line_size) (u32 f.set_size);
  t_map = [];
}

unfoldable pub thread_attach : Session → ℕ → Session
thread_attach s tid =
    let s' = take_lock s in
    let (pid, next) = get_next_pid s' in
    record s' { next_pid = next; t_map = insert tid pid s'.t_map }

unfoldable pub thread_detach : Session → ℕ → Result Session
thread_detach s tid =
    let s' = take_lock s in
    elim (lookup tid s'.t_map) [
      | none ↦ err assertion
      | some _ ↦ ok (record s' { t_map = erase tid s'.t_map })
    ]

-- A callback, with the thread that makes it.
pub data Event : Type 0 where
  attach detach : ℕ → Event
  load store : ℕ → ℕ → Event

unfoldable pub step : Session → Event → Result Session
step s (attach tid) = ok (thread_attach s tid)
step s (detach tid) = thread_detach s tid
step s (load tid addr) = cache_load s tid addr
step s (store tid addr) = cache_store s tid addr

-- The callbacks of a run, in the order in which they hold the lock.
unfoldable pub run : List Event → Session → Result Session
run [] s = ok s
run (e ∷ es) s = step s e >>= run es
