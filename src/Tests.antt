-- ===== src/Tests.antt =====
-- Runs of the model on concrete inputs, and the theorems at concrete inputs: a machine of four
-- processors, with caches of two sets of two lines of four bytes.
use computer_architect.Common.{
  ℕ, ◌*◌, ◌/◌, ◌^◌, ◌<◌, List, [], ◌∷◌, true, false, not, ◌&&◌, if◌then◌else◌, ◌==◌, leb, ◌≡◌, ◌↔◌,
  refl, ok, arith, length, All,
}
use computer_architect.Common.Assoc.{find_or, lookup, insert}
use computer_architect.Directory.{
  invalid, shared, modified, is_invalid, is_modified, DirectoryLine, owner, qualified_reader,
  increase_read_count,
}
use computer_architect.Directory.Sharers.{shares, owner_lem}
use computer_architect.Directory.Counts.{
  reads, counted_up, increase_read_count_lem, qualified_reader_lem,
}
use computer_architect.Coherence.{
  DirMsi, new_dir_msi, Reply, line_at, put_line, fetch_and_invalidate, invalidate,
}
use computer_architect.Coherence.Valid.{LineValid, DirValid, new_line-LineValid}
use computer_architect.Coherence.Reads.{ReadDone, fetch_response}
use computer_architect.Coherence.Claims.{fetch_and_invalidate_lem}
use computer_architect.Coherence.Evicts.{KeepsDemand}
use computer_architect.Coherence.Evictions.{invalidate_lem}
use computer_architect.Cache.{
  CacheSet, new_cache_line, cached, Victim, choose_victim, fetch_single_line,
}
use computer_architect.Cache.Victims.{IsVictim, choose_victim_lem}
use computer_architect.Cache.Sets.{Below, Evicts}
use computer_architect.Cache.Fetches.{Fetched, fetch_single_line_lem}
use computer_architect.Controller.{
  Controller, new_controller, get_set_index, get_tag, Pushed, update_line, push_update,
  store_single_line, load_single_line,
}
use computer_architect.Controller.Addresses.{
  power_controller, same_line_iff, new_controller-CtlValid,
}
use computer_architect.Controller.Caches.{CtlValid, update_line_lem}
use computer_architect.Controller.PushLoop.{Updated, push_update_lem}
use computer_architect.Controller.Accesses.{StoreDone, store_single_line_lem, load_single_line_lem}
use computer_architect.Callbacks.{
  CacheConfig, Session, process_attach, Event, attach, detach, load, store, run,
}
use computer_architect.Callbacks.Runs.{SessionValid, run_lem, Tracks-none, AllAllowed}
use computer_architect.Callbacks.Protocol.{EventSteps, initial, machine_of, session-EventSteps}
use computer_architect.Callbacks.Sessions.{
  power_config, process_attach-SessionValid, session_lem, single_writer_lem,
}

abbrev machine : CacheConfig
machine = power_config 4 1 2 2

-- Two threads share an address, and one leaves.
abbrev events : List Event
events =
    attach 7
    ∷ attach 9
    ∷ store 7 64
    ∷ load 9 64
    ∷ store 9 64
    ∷ load 7 128
    ∷ load 7 192
    ∷ detach 7
    ∷ []

events_allowed : AllAllowed (λ tid. false) events
events_allowed = (tt, (tt, (refl, (refl, (refl, (refl, (refl, (refl, tt))))))))

session_lem_example :
    (t : Session) × (run events (process_attach machine) ≡ ok t)
    × SessionValid false 4 (2 ^ 1) (36 * length events) t
session_lem_example =
    session_lem 4 1 2 2 (omega arith) (omega arith) (omega arith) (omega arith) (omega arith) events
      (omega arith) (omega arith) events_allowed

run_lem_example :
    (t : Session) × (run events (process_attach machine) ≡ ok t)
    × SessionValid false 4 2 (36 * length events) t
run_lem_example =
    run_lem 4 (omega arith) (omega arith) 2 events 0 (36 * length events) (process_attach machine)
      (λ tid. false) refl (omega arith)
      (process_attach-SessionValid 4 1 2 2 (omega arith) (omega arith) (omega arith) (omega arith)
        (omega arith))
      (Tracks-none _) events_allowed

abbrev ready : Controller
ready = power_controller 4 1 2 2

ready-CtlValid : CtlValid false 4 2 0 ready
ready-CtlValid = new_controller-CtlValid 4 1 2 2 (omega arith) (omega arith) (omega arith)

store_single_line_lem_example :
    (t1 : Controller) × (t' : Controller) × (store_single_line ready 64 1 ≡ ok t')
    × Evicts false 1 ready.coherence t1.coherence
    × StoreDone false 4 2 12 1 64 t1 t'
store_single_line_lem_example =
    store_single_line_lem 4 (omega arith) 2 1 64 (omega arith) 0 12 ready ready-CtlValid refl
      (omega arith)

load_single_line_lem_example :
    (t1 : Controller) × (t' : Controller) × (load_single_line ready 64 1 ≡ ok t')
    × CtlValid false 4 2 2 t'
    × Evicts false 1 ready.coherence t1.coherence
    × ReadDone t1.coherence 1 64 t'.coherence
load_single_line_lem_example =
    load_single_line_lem 4 (omega arith) 2 1 64 (omega arith) 0 2 ready ready-CtlValid refl
      (omega arith)

same_line_iff_example :
    ((get_set_index ready 65 ≡ get_set_index ready 66) × (get_tag ready 65 ≡ get_tag ready 66))
    ↔ (65 / 2 ^ 2 ≡ 66 / 2 ^ 2)
same_line_iff_example =
    same_line_iff 4 1 2 2 (omega arith) (omega arith) 65 66 (omega arith) (omega arith)

-- A line that processor 1 owns, and that processors 2 and 3 have read twice.
abbrev owned_line : DirectoryLine
owned_line = record {
  sharer_vector = 2;
  state = modified;
  last_writer = 1;
  read_count_vector = 160;
}

owned_line-LineValid : LineValid true 4 owned_line
unfolding is_invalid is_modified
owned_line-LineValid = record {
  width = omega arith;
  count_width = omega arith;
  empty = λ e. absurd (cc);
  held = λ _. omega arith;
  exclusive = λ off. absurd (cc);
}

-- The machine with the detector, before and after the line at 64 is owned.
abbrev detecting : Controller
detecting = record ready { coherence = record ready.coherence { detector = true } }

abbrev owned : Controller
owned = update_line detecting 64 (λ d. owned_line)

detecting-CtlValid : CtlValid true 4 2 0 detecting
unfolding new_controller new_dir_msi
detecting-CtlValid = record {
  directory = record {
    processors = ready-CtlValid.directory.processors;
    mode = refl;
    profile_size = ready-CtlValid.directory.profile_size;
    lines = λ a. unfold line_at find_or lookup in new_line-LineValid true 4;
  };
  size = ready-CtlValid.size;
  caches = ready-CtlValid.caches;
  indexed = unfold get_set_index in ready-CtlValid.indexed;
}

owned-CtlValid : CtlValid true 4 2 0 owned
owned-CtlValid =
    (update_line_lem 4 2 0 detecting 64 (λ d. owned_line) detecting-CtlValid owned_line-LineValid).0

owned_live : is_invalid (line_at owned.coherence 64).state ≡ false
unfolding update_line line_at put_line find_or lookup insert is_invalid new_controller new_dir_msi
owned_live = refl

push_update_lem_example :
    (r : Pushed) × (push_update owned 1 0 64 1 0 ≡ ok r) × Updated 4 2 10 1 64 owned r
push_update_lem_example =
    push_update_lem 4 (omega arith) 2 1 64 (omega arith) 0 10 owned 0 1 0 owned-CtlValid refl
      (omega arith) owned_live

fetch_and_invalidate_lem_example :
    (r : Reply) × (fetch_and_invalidate owned.coherence 2 0 64 0 ≡ ok r)
    × (r.response ≡ fetch_response (line_at owned.coherence 64) 2)
    × ((line_at r.coherence 64).state ≡ modified)
    × ((q : ℕ) → shares (line_at r.coherence 64) q ≡ (2 == q))
    × ((line_at r.coherence 64).last_writer ≡ (line_at owned.coherence 64).last_writer)
    × ((line_at r.coherence 64).read_count_vector ≡ (line_at owned.coherence 64).read_count_vector)
    × ((b : ℕ) → (64 == b) ≡ false → line_at r.coherence b ≡ line_at owned.coherence b)
    × (r.coherence.profiles ≡ owned.coherence.profiles)
fetch_and_invalidate_lem_example =
    fetch_and_invalidate_lem 4 owned.coherence 2 0 64 0 owned-CtlValid.directory.processors
      (omega arith) (omega arith) (owned-CtlValid.directory.lines 64) owned_live

invalidate_lem_example :
    (c' : DirMsi) × (invalidate owned.coherence 1 64 ≡ ok c')
    × ((q : ℕ) → shares (line_at c' 64) q ≡ shares (line_at owned.coherence 64) q && not (1 == q))
    × ((line_at c' 64).state ≡ (
        if (line_at c' 64).sharer_vector == 0
        then invalid
        else if (1 == (line_at owned.coherence 64).last_writer)
            && shares (line_at owned.coherence 64) 1
            && is_modified (line_at owned.coherence 64).state
        then shared
        else (line_at owned.coherence 64).state))
    × ((line_at c' 64).last_writer ≡ (line_at owned.coherence 64).last_writer)
    × ((line_at c' 64).read_count_vector ≡ (line_at owned.coherence 64).read_count_vector)
    × ((b : ℕ) → (64 == b) ≡ false → line_at c' b ≡ line_at owned.coherence b)
    × KeepsDemand owned.coherence.profiles c'.profiles
invalidate_lem_example =
    invalidate_lem true owned.coherence 1 64 owned-CtlValid.directory.mode
      (rw owned-CtlValid.directory.profile_size (omega arith)) (omega arith)
      (omega (arith, (owned-CtlValid.directory.lines 64).width))

-- A full set, in which the second line is the least used.
abbrev full_set : CacheSet
full_set = record {
  associativity = 2;
  lines =
      record new_cache_line { lru = 3; tag = 64; addr = 64; status = cached }
      ∷ record new_cache_line { lru = 1; tag = 128; addr = 128; status = cached }
      ∷ [];
}

fetch_single_line_lem_example :
    (x : CacheSet × DirMsi) × (fetch_single_line full_set 1 192 192 owned.coherence true ≡ ok x)
    × Fetched 1 192 192 true full_set.lines owned.coherence x.0.lines x.1
    × (length x.0.lines ≡ length full_set.lines)
    × All (Below 5) x.0.lines
    × DirValid true 4 x.1
    × Evicts true 1 owned.coherence x.1
fetch_single_line_lem_example =
    fetch_single_line_lem 4 (omega arith) 1 (omega arith) 3 192 192 true full_set owned.coherence
      (omega arith) (omega arith, (omega arith, tt)) (omega arith) owned-CtlValid.directory

choose_victim_lem_example :
    (v : Victim) × (choose_victim full_set.lines ≡ ok v)
    × IsVictim full_set.lines (length full_set.lines) v
choose_victim_lem_example =
    choose_victim_lem (record new_cache_line { lru = 3; tag = 64; addr = 64; status = cached })
      (record new_cache_line { lru = 1; tag = 128; addr = 128; status = cached } ∷ [])

owner_lem_example : (p : ℕ) × (owner owned_line 4 ≡ ok p) × (p < 4) × (shares owned_line p ≡ true)
unfolding is_modified
owner_lem_example = owner_lem 4 owned_line (omega arith) (omega arith) (omega arith) refl

qualified_reader_lem_example : qualified_reader owned_line 2 ≡ leb 2 (reads owned_line 2)
qualified_reader_lem_example = qualified_reader_lem owned_line 2 (omega arith) (omega arith)

increase_read_count_lem_example : increase_read_count owned_line 2 ≡ ok (counted_up owned_line 2)
increase_read_count_lem_example =
    increase_read_count_lem 4 owned_line 2 (omega arith) (omega arith) (omega arith)

single_writer_lem_example :
    (t : Session) × (run events (process_attach machine) ≡ ok t)
    × ((a q r : ℕ)
        → (is_modified (line_at t.controller.coherence a).state
            && shares (line_at t.controller.coherence a) q
            && shares (line_at t.controller.coherence a) r
            && not (q == r))
          ≡ false)
    × ((a : ℕ)
        → is_invalid (line_at t.controller.coherence a).state
          ≡ ((line_at t.controller.coherence a).sharer_vector == 0))
single_writer_lem_example =
    single_writer_lem 4 1 2 2 (omega arith) (omega arith) (omega arith) (omega arith) (omega arith)
      events (omega arith) (omega arith) events_allowed

session-EventSteps_example :
    (t : Session) × (run events (process_attach machine) ≡ ok t)
    × EventSteps 4 events initial (machine_of t)
session-EventSteps_example =
    session-EventSteps 4 1 2 2 (omega arith) (omega arith) (omega arith) (omega arith) (omega arith)
      events (omega arith) (omega arith) events_allowed
