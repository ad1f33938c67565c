-- ===== src/Callbacks/Runs.antt =====
-- Runs of the callbacks: every run in which a thread accesses memory and detaches only while it is
-- attached goes through, and keeps the session valid.
use computer_architect.Common.{
  ℕ, ◌+◌, ◌*◌, ◌≤◌, ◌<◌, List, [], ◌∷◌, Bool, true, false, ◌==◌, ◌≡◌, refl, ◌∙◌, some, inl, inr,
  not, ◌&&◌, ◌||◌, Bool-cases, ok, arith, length, all_ones,
}
use computer_architect.Common.Assoc.{
  lookup, insert, erase, lookup-insert, Values, Values-insert, Values-erase, Values-lookup,
  lookup-erase_ne,
}
use computer_architect.Controller.{Controller}
use computer_architect.Controller.Caches.{CtlValid, CtlValid-mono}
use computer_architect.Controller.Accesses.{load_single_line_lem, store_single_line_lem}
use computer_architect.Callbacks.{
  Session, take_lock, get_pid, get_next_pid, cache_load, cache_store, thread_attach, thread_detach,
  Event, attach, detach, load, store, step, run,
}

-- A session of `n` processors whose controller is valid, and whose threads have processors. The
-- pids that are handed out are in range.
pub record SessionValid (det : Bool) (n m k : ℕ) (s : Session) : Type 0 where
  pub controller : CtlValid det n m k s.controller
  pub processors : s.num_processors ≡ n
  pub next : s.next_pid ≤ n
  pub pids : Values (λ pid. pid < n) s.t_map

-- The threads that are attached after an event, from those before it.
abbrev pub attached : (ℕ → Bool) → Event → ℕ → Bool
attached on (attach tid) u = tid == u || on u
attached on (detach tid) u = not (tid == u) && on u
attached on (load tid addr) u = on u
attached on (store tid addr) u = on u

-- A thread detaches and accesses memory only while it is attached.
abbrev pub Allowed : (ℕ → Bool) → Event → Type 0
Allowed on (attach tid) = Unit
Allowed on (detach tid) = on tid ≡ true
Allowed on (load tid addr) = on tid ≡ true
Allowed on (store tid addr) = on tid ≡ true

abbrev pub AllAllowed : (ℕ → Bool) → List Event → Type 0
AllAllowed on [] = Unit
AllAllowed on (e ∷ es) = Allowed on e × AllAllowed (attached on e) es

-- The thread map holds the threads that are attached.
unfoldable pub Tracks : (ℕ → Bool) → Session → Type 0
Tracks on s = (u : ℕ) → on u ≡ true → (pid : ℕ) × (lookup u s.t_map ≡ some pid)

pub Tracks-none : (s : Session) → Tracks (λ tid. false) s
unfolding Tracks
Tracks-none s u h = absurd (cc)

pub thread_detach_lem :
    (s : Session) (tid pid : ℕ)
    → lookup tid s.t_map ≡ some pid
    → thread_detach s tid ≡ ok (record (take_lock s) { t_map = erase tid s.t_map })
unfolding thread_detach take_lock erase
thread_detach_lem s tid pid h = rw (thread_detach, take_lock, h) refl

-- With 1 to 16 processors and a next pid of at most their number, `get_next_pid` gives a processor
-- below their number, and the next pid stays at most their number.
pub get_next_pid_bounds :
    (n : ℕ) (s : Session)
    → 0 < n
    → n ≤ 16
    → s.num_processors ≡ n
    → s.next_pid ≤ n
    → ((get_next_pid s).0 < n) × ((get_next_pid s).1 ≤ n)
unfolding get_next_pid
get_next_pid_bounds n s pos le e h = ground arith

-- The callback returns, and keeps the session valid and the threads tracked.
abbrev StepDone : Bool → ℕ → ℕ → ℕ → (ℕ → Bool) → Session → Event → Type 0
StepDone det n m j on s e =
    (s' : Session) × (step s e ≡ ok s') × SessionValid det n m j s' × Tracks (attached on e) s'

tracks_insert :
    (on : ℕ → Bool) (tid pid : ℕ) (threads : List (ℕ × ℕ))
    → ((u : ℕ) → on u ≡ true → (p : ℕ) × (lookup u threads ≡ some p))
    → (u : ℕ) → (tid == u || on u) ≡ true
    → (p : ℕ) × (lookup u (insert tid pid threads) ≡ some p)
tracks_insert on tid pid threads tracks u h = elim (Bool-cases (tid == u)) [
  | inl same ↦ (pid, lookup-insert tid u pid threads ∙ (rw same refl))
  | inr other ↦
      let (p, found) = tracks u (rw other at h) in
      (p, lookup-insert tid u pid threads ∙ (rw other found))
]

tracks_erase :
    (on : ℕ → Bool) (tid : ℕ) (threads : List (ℕ × ℕ))
    → ((u : ℕ) → on u ≡ true → (p : ℕ) × (lookup u threads ≡ some p))
    → (u : ℕ) → (not (tid == u) && on u) ≡ true
    → (p : ℕ) × (lookup u (erase tid threads) ≡ some p)
tracks_erase on tid threads tracks u h = elim (Bool-cases (tid == u)) [
  | inl same ↦ ground arith
  | inr other ↦
      let (p, found) = tracks u (rw other at h) in (p, lookup-erase_ne tid u threads other ∙ found)
]

module _ {det : Bool} (n : ℕ) (pos : 0 < n) (le : n ≤ 16) (m : ℕ) where
  later : (k j : ℕ) (s : Session) → k ≤ j → SessionValid det n m k s → SessionValid det n m j s
  later k j s h v = record {
    controller = CtlValid-mono n m k j s.controller h v.controller;
    processors = v.processors;
    next = v.next;
    pids = v.pids;
  }

  thread_attach_lem :
      (k : ℕ) (s : Session) (tid : ℕ)
      → SessionValid det n m k s
      → SessionValid det n m k (thread_attach s tid)
  unfolding thread_attach take_lock
  thread_attach_lem k s tid v =
      let bounds = get_next_pid_bounds n (take_lock s) pos le v.processors v.next in
      record {
        controller = v.controller;
        processors = v.processors;
        next = bounds.1;
        pids =
            Values-insert (λ pid. pid < n) tid (get_next_pid (take_lock s)).0 s.t_map bounds.0
              v.pids;
      }

  pub attached_pid :
      (k : ℕ) (s : Session) (tid : ℕ) (on : ℕ → Bool)
      → SessionValid det n m k s
      → Tracks on s
      → on tid ≡ true
      → (pid : ℕ) × (get_pid (take_lock s) tid ≡ ok pid) × (pid < n)
  unfolding get_pid take_lock Tracks
  attached_pid k s tid on v tracks h =
      let (pid, found) = tracks tid h in
      (pid, rw (found, get_pid) refl, Values-lookup (λ p. p < n) tid s.t_map pid found v.pids)

  -- The same threads over another controller.
  with_controller :
      (k j : ℕ) (s : Session) (t : Controller)
      → SessionValid det n m k s
      → CtlValid det n m j t
      → SessionValid det n m j (record (take_lock s) { controller = t })
  unfolding take_lock
  with_controller k j s t v c = record {
    controller = c;
    processors = v.processors;
    next = v.next;
    pids = v.pids;
  }

  attach_lem :
      (k j tid : ℕ) (s : Session) (on : ℕ → Bool)
      → k ≤ j
      → SessionValid det n m k s
      → Tracks on s
      → StepDone det n m j on s (attach tid)
  unfolding step thread_attach Tracks
  attach_lem k j tid s on b v tracks = (
    thread_attach s tid,
    refl,
    later k j (thread_attach s tid) b (thread_attach_lem k s tid v),
    unfold take_lock in tracks_insert on tid (get_next_pid (take_lock s)).0 s.t_map tracks,
  )

  detach_lem :
      (k j tid : ℕ) (s : Session) (on : ℕ → Bool)
      → k ≤ j
      → SessionValid det n m k s
      → Tracks on s
      → on tid ≡ true
      → StepDone det n m j on s (detach tid)
  unfolding step take_lock Tracks
  detach_lem k j tid s on b v tracks h =
      let (pid, found) = tracks tid h in
      (
        record (take_lock s) { t_map = erase tid s.t_map },
        thread_detach_lem s tid pid found,
        record {
          controller = CtlValid-mono n m k j s.controller b v.controller;
          processors = v.processors;
          next = v.next;
          pids = Values-erase (λ p. p < n) tid s.t_map v.pids;
        },
        tracks_erase on tid s.t_map tracks,
      )

  load_lem :
      (k j tid addr : ℕ) (s : Session) (on : ℕ → Bool)
      → k + 36 ≡ j
      → j < all_ones
      → SessionValid det n m k s
      → Tracks on s
      → on tid ≡ true
      → StepDone det n m j on s (load tid addr)
  unfolding step cache_load Tracks
  load_lem k j tid addr s on e b v tracks h =
      let (pid, found, inside) = attached_pid k s tid on v tracks h in
      let (t1, t', done, valid, evicts, x) =
        load_single_line_lem n le m pid addr inside k (k + 2) s.controller v.controller refl
          (omega arith) in
      (
        record (take_lock s) { controller = t' },
        rw found (unfold take_lock in rw done refl),
        with_controller k j s t' v (CtlValid-mono n m (k + 2) j t' (omega arith) valid),
        unfold take_lock in tracks,
      )

  store_lem :
      (k j tid addr : ℕ) (s : Session) (on : ℕ → Bool)
      → k + 36 ≡ j
      → j < all_ones
      → SessionValid det n m k s
      → Tracks on s
      → on tid ≡ true
      → StepDone det n m j on s (store tid addr)
  unfolding step cache_store Tracks
  store_lem k j tid addr s on e b v tracks h =
      let (pid, found, inside) = attached_pid k s tid on v tracks h in
      let (t1, t', done, evicts, x) =
        store_single_line_lem n le m pid addr inside k (k + 4 + n * 2) s.controller v.controller
          refl (omega arith) in
      (
        record (take_lock s) { controller = t' },
        rw found (unfold take_lock in rw done refl),
        with_controller k j s t' v (CtlValid-mono n m (k + 4 + n * 2) j t' (omega arith) x.valid),
        unfold take_lock in tracks,
      )

  -- One callback returns. A counter of a set moves by 36 at most.
  pub step_lem :
      (k j : ℕ) (s : Session) (on : ℕ → Bool) (e : Event)
      → k + 36 ≡ j
      → j < all_ones
      → SessionValid det n m k s
      → Tracks on s
      → Allowed on e
      → StepDone det n m j on s e
  step_lem k j s on (attach tid) e b v tracks h = attach_lem k j tid s on (omega arith) v tracks
  step_lem k j s on (detach tid) e b v tracks h = detach_lem k j tid s on (omega arith) v tracks h
  step_lem k j s on (load tid addr) e b v tracks h = load_lem k j tid addr s on e b v tracks h
  step_lem k j s on (store tid addr) e b v tracks h = store_lem k j tid addr s on e b v tracks h

  -- From any valid session of 1 to 16 processors, with or without the detector, whose attached
  -- threads are tracked and whose line counters are at most k, a sequence of callbacks allowed by
  -- the attached threads returns, and keeps the session valid with counters that grow by at most
  -- 36 for each callback, as long as that bound stays below ALL_ONES.
  pub run_lem :
      (es : List Event) (k j : ℕ) (s : Session) (on : ℕ → Bool)
      → k + 36 * length es ≡ j
      → j < all_ones
      → SessionValid det n m k s
      → Tracks on s
      → AllAllowed on es
      → (s' : Session) × (run es s ≡ ok s') × SessionValid det n m j s'
  unfolding run
  run_lem [] k j s on e b v tracks h = (s, refl, later k j s (omega arith) v)
  run_lem (x ∷ es) k j s on e b v tracks h =
      let (s1, stepped, v1, tracks1) = step_lem k (k + 36) s on x refl (omega arith) v tracks h.0 in
      let (s2, done, v2) =
        run_lem es (k + 36) j s1 (attached on x) (omega arith) b v1 tracks1 h.1 in
      (s2, rw stepped done, v2)
