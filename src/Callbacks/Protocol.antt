-- ===== src/Callbacks/Protocol.antt =====
-- Runs without the detector as runs of the MSI protocol, callback by callback.
use std.Path.{fun_ext}
use computer_architect.Common.{
  ℕ, ◌+◌, ◌*◌, ◌^◌, ◌≤◌, ◌<◌, List, [], ◌∷◌, Bool, true, false, ◌==◌, ◌≡◌, refl, sym, ap, subst,
  ◌∙◌, Result, ok, err, arith, length, all_ones, Option, none, some,
}
use computer_architect.Common.Assoc.{
  lookup, erase, find_or, lookup-insert, lookup-erase_ne, Values-lookup,
}
use computer_architect.Common.Bits.{test_bit-zero}
use computer_architect.Directory.{invalid}
use computer_architect.Directory.Sharers.{shares}
use computer_architect.Coherence.{line_at, new_dir_msi}
use computer_architect.Coherence.Protocol.{View, LoadStep, StoreStep}
use computer_architect.Controller.{Controller, new_controller, load_single_line, store_single_line}
use computer_architect.Controller.Protocol.{views, load-LoadStep, store-StoreStep}
use computer_architect.Callbacks.{
  CacheConfig, Session, take_lock, get_pid, get_next_pid, cache_load, cache_store, thread_attach,
  process_attach, Event, attach, detach, load, store, step, run,
}
use computer_architect.Callbacks.Sessions.{power_config, process_attach-SessionValid}
use computer_architect.Callbacks.Runs.{
  SessionValid, Tracks, Allowed, AllAllowed, Tracks-none, attached, step_lem, thread_detach_lem,
  get_next_pid_bounds,
}

tracks_lem :
    (on : ℕ → Bool) (s : Session) (tid : ℕ)
    → Tracks on s
    → on tid ≡ true
    → (pid : ℕ) × (lookup tid s.t_map ≡ some pid)
unfolding Tracks
tracks_lem on s tid tracks h = tracks tid h

-- The abstract machine: the processor of each thread, and the view of each line.
pub record Machine : Type 0 where
  pub pid_of : ℕ → Option ℕ
  pub lines : ℕ → View

abbrev pub machine_of : Session → Machine
machine_of s = record { pid_of = λ tid. lookup tid s.t_map; lines = views s.controller }

-- The machine before any callback: no thread, and all lines INVALID without sharers.
abbrev pub initial : Machine
initial = record {
  pid_of = λ tid. none;
  lines = λ a. record { state = invalid; sharers = λ q. false };
}

-- A callback on a machine of `n` processors. A thread that attaches gets one of them, and loads and
-- stores as this one until it detaches.
pub data EventStep (n : ℕ) : Event → Machine → Machine → Type 0 where
  attaches :
      {tid p : ℕ} {u w : Machine}
      → p < n
      → w.pid_of tid ≡ some p
      → ((other : ℕ) → (tid == other) ≡ false → w.pid_of other ≡ u.pid_of other)
      → w.lines ≡ u.lines
      → EventStep n (attach tid) u w
  detaches :
      {tid : ℕ} {u w : Machine}
      → ((other : ℕ) → (tid == other) ≡ false → w.pid_of other ≡ u.pid_of other)
      → w.lines ≡ u.lines
      → EventStep n (detach tid) u w
  loads :
      {tid addr p : ℕ} {u w : Machine}
      → u.pid_of tid ≡ some p
      → w.pid_of ≡ u.pid_of
      → LoadStep p addr u.lines w.lines
      → EventStep n (load tid addr) u w
  stores :
      {tid addr p : ℕ} {u w : Machine}
      → u.pid_of tid ≡ some p
      → w.pid_of ≡ u.pid_of
      → StoreStep p addr u.lines w.lines
      → EventStep n (store tid addr) u w

-- The callbacks one after the other.
pub data EventSteps (n : ℕ) : List Event → Machine → Machine → Type 0 where
  stop : {u : Machine} → EventSteps n [] u u
  next :
      {e : Event} {es : List Event} {u v w : Machine}
      → EventStep n e u v
      → EventSteps n es v w
      → EventSteps n (e ∷ es) u w

module _ (n : ℕ) (pos : 0 < n) (le : n ≤ 16) (m : ℕ) where
  get_pid_found :
      (s : Session) (tid pid : ℕ)
      → lookup tid s.t_map ≡ some pid
      → get_pid (take_lock s) tid ≡ ok pid
  unfolding get_pid take_lock
  get_pid_found s tid pid found = rw (found, get_pid) refl

  load_done :
      (s : Session) (tid addr pid : ℕ) (t : Controller)
      → get_pid (take_lock s) tid ≡ ok pid
      → load_single_line s.controller addr pid ≡ ok t
      → cache_load s tid addr ≡ ok (record (take_lock s) { controller = t })
  unfolding cache_load
  load_done s tid addr pid t found done = rw found (unfold take_lock in rw done refl)

  store_done :
      (s : Session) (tid addr pid : ℕ) (t : Controller)
      → get_pid (take_lock s) tid ≡ ok pid
      → store_single_line s.controller addr pid ≡ ok t
      → cache_store s tid addr ≡ ok (record (take_lock s) { controller = t })
  unfolding cache_store
  store_done s tid addr pid t found done = rw found (unfold take_lock in rw done refl)

  attach-EventStep :
      (k : ℕ) (s : Session) (tid : ℕ)
      → SessionValid false n m k s
      → EventStep n (attach tid) (machine_of s) (machine_of (thread_attach s tid))
  unfolding thread_attach take_lock
  attach-EventStep k s tid v =
      let p = (get_next_pid (take_lock s)).0 in
      let same : (tid == tid) ≡ true = ground arith in
      attaches {u = machine_of s} {w = machine_of (thread_attach s tid)}
        (get_next_pid_bounds n (take_lock s) pos le v.processors v.next).0
        (lookup-insert tid tid p s.t_map ∙ (rw same refl))
        (λ other off. lookup-insert tid other p s.t_map ∙ (rw off refl)) refl

  step-EventStep :
      (k j : ℕ) (s : Session) (on : ℕ → Bool) (e : Event)
      → k + 36 ≡ j
      → j < all_ones
      → SessionValid false n m k s
      → Tracks on s
      → Allowed on e
      → (s' : Session) × (step s e ≡ ok s') × EventStep n e (machine_of s) (machine_of s')
  unfolding step take_lock
  step-EventStep k j s on (attach tid) e b v tracks h =
      (thread_attach s tid, refl, attach-EventStep k s tid v)
  step-EventStep k j s on (detach tid) e b v tracks h =
      let (pid, found) = tracks_lem on s tid tracks h in
      let s' = record (take_lock s) { t_map = erase tid s.t_map } in
      (
        s',
        thread_detach_lem s tid pid found,
        detaches {u = machine_of s} {w = machine_of s'}
            (λ other off. lookup-erase_ne tid other s.t_map off) refl,
      )
  step-EventStep k j s on (load tid addr) e b v tracks h =
      let (pid, found) = tracks_lem on s tid tracks h in
      let inside = Values-lookup (λ p. p < n) tid s.t_map pid found v.pids in
      let (t, done, loaded) =
        load-LoadStep n le m pid addr inside k s.controller v.controller (k + 2) refl
          (omega arith) in
      let s' = record (take_lock s) { controller = t } in
      (
        s',
        load_done s tid addr pid t (get_pid_found s tid pid found) done,
        loads {u = machine_of s} {w = machine_of s'} found refl loaded,
      )
  step-EventStep k j s on (store tid addr) e b v tracks h =
      let (pid, found) = tracks_lem on s tid tracks h in
      let inside = Values-lookup (λ p. p < n) tid s.t_map pid found v.pids in
      let (t, done, stored) =
        store-StoreStep n le m pid addr inside k s.controller v.controller (k + 4 + n * 2) refl
          (omega arith) in
      let s' = record (take_lock s) { controller = t } in
      (
        s',
        store_done s tid addr pid t (get_pid_found s tid pid found) done,
        stores {u = machine_of s} {w = machine_of s'} found refl stored,
      )

  result_or : Session → Result Session → Session
  result_or s (ok t) = t
  result_or s (err e) = s

  pub run-EventSteps :
      (es : List Event) (k j : ℕ) (s : Session) (on : ℕ → Bool)
      → k + 36 * length es ≡ j
      → j < all_ones
      → SessionValid false n m k s
      → Tracks on s
      → AllAllowed on es
      → (s' : Session) × (run es s ≡ ok s') × EventSteps n es (machine_of s) (machine_of s')
  unfolding run result_or
  run-EventSteps [] k j s on e b v tracks h = (s, refl, stop)
  run-EventSteps (x ∷ es) k j s on e b v tracks h =
      let (s1, stepped, v1, tracks1) =
        step_lem n pos le m k (k + 36) s on x refl (omega arith) v tracks h.0 in
      let (t1, same_step, taken) =
        step-EventStep k (k + 36) s on x refl (omega arith) v tracks h.0 in
      let same : t1 ≡ s1 = ap (result_or s) (sym same_step ∙ stepped) in
      let (s2, done, rest) =
        run-EventSteps es (k + 36) j s1 (attached on x) (omega arith) b v1 tracks1 h.1 in
      (
        s2,
        rw stepped done,
        next (subst (λ z. EventStep n x (machine_of s) (machine_of z)) same taken) rest,
      )

first_machine : (f : CacheConfig) → machine_of (process_attach f) ≡ initial
unfolding process_attach new_controller new_dir_msi line_at find_or lookup shares
first_machine f =
    ap {A = ℕ → Bool} {B = Machine}
      (λ sharers. record {
        pid_of = λ tid. none;
        lines = λ a. record { state = invalid; sharers = sharers };
      })
      (fun_ext (λ q. test_bit-zero q))

module _ (n s o ways : ℕ) (le : n ≤ 16) (le_s : s < 32) (le_o : o < 32) (pos_ways : 0 < ways)
    (le_ways : ways < 2 ^ 31) where
  -- On a machine of 1 to 16 processors, with 1 to 2^31 - 1 ways, 2^s sets and lines of 2^o bytes
  -- for s and o below 32, every sequence of fewer than ALL_ONES / 36 callbacks in which threads
  -- detach, load and store only while they are attached returns, and the callbacks are, one by
  -- one, steps of an abstract machine from no threads and all lines INVALID without sharers to the
  -- machine of the session that results. There a thread that attaches gets a processor of the
  -- machine, which no other callback than its own attach and detach changes; a load or a store of
  -- an address is first some evictions by the processor of the thread and then its MSI read or
  -- write of the line of exactly that address, and attach and detach change no line.
  pub session-EventSteps :
      (es : List Event)
      → 0 < n
      → 36 * length es < all_ones
      → AllAllowed (λ tid. false) es
      → (t : Session) × (run es (process_attach (power_config n s o ways)) ≡ ok t)
        × EventSteps n es initial (machine_of t)
  session-EventSteps es pos b h =
      let start = process_attach (power_config n s o ways) in
      let (t, done, steps) =
        run-EventSteps n pos le (2 ^ s) es 0 (36 * length es) start (λ tid. false) (omega arith) b
          (process_attach-SessionValid n s o ways le le_s le_o pos_ways le_ways) (Tracks-none _)
          h in
      (
        t,
        done,
        subst (λ u. EventSteps n es u (machine_of t)) (first_machine (power_config n s o ways))
            steps,
      )
