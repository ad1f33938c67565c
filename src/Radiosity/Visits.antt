-- ===== src/Radiosity/Visits.antt =====
-- `dequeue_task` visits the queues in turns before and after the first one, and misses none.
use computer_architect.Common.{
  ℕ, zero, suc, ◌+◌, ◌-◌, ◌*◌, min, ◌≤◌, ◌<◌, ◌≡◌, refl, sym, ap, subst, ◌∙◌, Bool, true, false,
  not, ◌==◌, ltb, leb, if◌then◌else◌, List, [], ◌∷◌, arith, Bool-cases, inl, inr,
}
use computer_architect.Common.Runs.{Run, done}
use computer_architect.Radiosity.{TaskQueue, Tasks, next_queue, take_task, visits, dequeue_task}
use computer_architect.Radiosity.Queue.{QueueOf}
use computer_architect.Radiosity.Dequeue.{taken_of, left_of, take_task-QueueOf}

-- How far `r` is after `q`, around the ring of `n` queues.
abbrev after : ℕ → ℕ → ℕ → ℕ
after n q r = if leb q r then r - q else r + n - q

-- The queue `h` after `q`, and the one `h` before it.
abbrev forth : ℕ → ℕ → ℕ → ℕ
forth n q h = if leb n (q + h) then q + h - n else q + h

abbrev back : ℕ → ℕ → ℕ → ℕ
back n q h = if ltb q h then q + n - h else q - h

abbrev pub Busy : Tasks → ℕ → Type 0
Busy s r = 0 < (s.task_queue r).n_tasks

next_back :
    (n q h : ℕ)
    → q < n
    → 2 * h + 1 < n
    → next_queue n (forth n q h) (2 * h + 1) false ≡ back n q (h + 1)
unfolding next_queue
next_back n q h lt more = ground arith

next_forth :
    (n q h : ℕ)
    → q < n
    → 2 * h + 2 < n
    → next_queue n (back n q (h + 1)) (2 * h + 2) true ≡ forth n q (h + 1)
unfolding next_queue
next_forth n q h lt more = ground arith

-- The visits find a queue with tasks when there is one that is not visited yet.
abbrev pub Finds : Tasks → ℕ → ℕ → Run (ℕ × Tasks) → Type 0
Finds s own n run = (k : ℕ) × (k < n) × Busy s k × (run ≡ take_task s own k)

idle_visit :
    (left : ℕ) (s : Tasks) (own n v : ℕ) (forward : Bool) (qid : ℕ)
    → ltb 0 (s.task_queue qid).n_tasks ≡ false
    → visits (suc left) s own n v forward qid
      ≡ visits left s own n (v + 1) (not forward) (next_queue n qid (v + 1) forward)
unfolding visits
idle_visit left s own n v forward qid idle = rw idle refl

busy_visit :
    (left : ℕ) (s : Tasks) (own n v : ℕ) (forward : Bool) (qid : ℕ)
    → ltb 0 (s.task_queue qid).n_tasks ≡ true
    → visits (suc left) s own n v forward qid ≡ take_task s own qid
unfolding visits
busy_visit left s own n v forward qid busy = rw busy refl

differs :
    (s : Tasks) (r k : ℕ) → Busy s r → ltb 0 (s.task_queue k).n_tasks ≡ false → (r == k) ≡ false
differs s r k busy idle = elim (Bool-cases (r == k)) [
  | inl same ↦
      let e : r ≡ k = ground arith in
      let at : 0 < (s.task_queue k).n_tasks = subst (Busy s) e busy in ground arith
  | inr apart ↦ apart
]

seen : (s : Tasks) (k : ℕ) → Busy s k → ltb 0 (s.task_queue k).n_tasks ≡ true
seen s k busy = ground arith

visits-forth :
    (left : ℕ) (s : Tasks) (own n h q r : ℕ)
    → q < n
    → r < n
    → left + 2 * h ≡ n
    → h ≤ after n q r
    → after n q r + h < n
    → Busy s r
    → Finds s own n (visits left s own n (2 * h) false (forth n q h))
visits-forth zero s own n h q r lq lr total low high busy = ground arith
visits-forth (suc zero) s own n h q r lq lr total low high busy =
    let at : r ≡ forth n q h = ground arith in
    (
      r,
      lr,
      busy,
      busy_visit zero s own n (2 * h) false (forth n q h)
            (seen s (forth n q h) (subst (Busy s) at busy))
          ∙ ap (take_task s own) (sym at),
    )
visits-forth (suc (suc left)) s own n h q r lq lr total low high busy =
    let k = forth n q h in
    let j = back n q (h + 1) in
    elim (Bool-cases (ltb 0 (s.task_queue k).n_tasks)) [
      | inl on ↦ (k, ground arith, ground arith, busy_visit (suc left) s own n (2 * h) false k on)
      | inr idle ↦
          let apart = differs s r k busy idle in
          let first : visits (suc (suc left)) s own n (2 * h) false k
              ≡ visits (suc left) s own n (2 * h + 1) true j =
            idle_visit (suc left) s own n (2 * h) false k idle
            ∙ ap (visits (suc left) s own n (2 * h + 1) true) (next_back n q h lq (omega arith)) in
          elim (Bool-cases (ltb 0 (s.task_queue j).n_tasks)) [
            | inl on ↦ (
              j,
              ground arith,
              ground arith,
              first ∙ busy_visit left s own n (2 * h + 1) true j on,
            )
            | inr idle' ↦
                let apart' = differs s r j busy idle' in
                let low' : h + 1 ≤ after n q r = ground arith in
                let high' : after n q r + (h + 1) < n = ground arith in
                let two : 2 * h + 1 + 1 ≡ 2 * (h + 1) = omega arith in
                let turn : 2 * h + 1 + 1 ≡ 2 * h + 2 = omega arith in
                let next =
                  ap (λ z. next_queue n j z true) turn
                  ∙ next_forth n q h lq (omega (arith, low', high')) in
                let (x, lt, found, run) =
                  visits-forth left s own n (h + 1) q r lq lr (omega arith) low' high' busy in
                (
                  x,
                  lt,
                  found,
                  first
                      ∙ idle_visit left s own n (2 * h + 1) true j idle'
                      ∙ ap (visits left s own n (2 * h + 1 + 1) false) next
                      ∙ ap (λ z. visits left s own n z false (forth n q (h + 1))) two
                      ∙ run,
                )
          ]
    ]

dequeue_task-Finds :
    (s : Tasks) (own n_taskqueues qid max_visit r : ℕ)
    → n_taskqueues ≤ max_visit
    → qid < n_taskqueues
    → r < n_taskqueues
    → Busy s r
    → Finds s own n_taskqueues (dequeue_task s own n_taskqueues qid max_visit)
unfolding dequeue_task
dequeue_task-Finds s own n qid max_visit r all lq lr busy =
    let fuel : min max_visit n ≡ n = ground arith in
    let start : forth n qid 0 ≡ qid = ground arith in
    let none : 2 * 0 ≡ 0 = omega arith in
    let same : visits n s own n (2 * 0) false (forth n qid 0) ≡ dequeue_task s own n qid max_visit =
      ap (visits n s own n (2 * 0) false) start
      ∙ ap (λ z. visits n s own n z false qid) none
      ∙ ap (λ z. visits z s own n 0 false qid) (sym fuel) in
    subst (Finds s own n) same
      (visits-forth n s own n 0 qid r lq lr (omega arith) (omega arith) (ground arith) busy)

some_task :
    (next : ℕ → ℕ) (tq : TaskQueue) (ts : List ℕ)
    → QueueOf next tq ts
    → 0 < tq.n_tasks
    → (t : ℕ) × (us : List ℕ) × (ts ≡ t ∷ us)
some_task next tq [] q pos = ground (arith, q.count)
some_task next tq (t ∷ us) q pos = (t, us, refl)

-- When every queue holds a list of tasks, by its links, top, tail and number, one of the n queues
-- has a task, and dequeue_task may visit n queues from one of them, it returns a task of one of
-- these queues: the first one to the process of that queue and the last one to another process,
-- and the queue holds the others.
pub dequeue_task_lem :
    (s : Tasks) (own n_taskqueues qid max_visit r : ℕ) (held : ℕ → List ℕ)
    → ((k : ℕ) → QueueOf s.link_of (s.task_queue k) (held k))
    → n_taskqueues ≤ max_visit
    → qid < n_taskqueues
    → r < n_taskqueues
    → 0 < (s.task_queue r).n_tasks
    → (k : ℕ) × (t : ℕ) × (ts : List ℕ) × (s' : Tasks) × (k < n_taskqueues)
      × (held k ≡ t ∷ ts)
      × (dequeue_task s own n_taskqueues qid max_visit ≡ done (taken_of (k == own) t ts, s'))
      × QueueOf s'.link_of (s'.task_queue k) (left_of (k == own) t ts)
dequeue_task_lem s own n qid max_visit r held queues all lq lr busy =
    let (k, lt, found, run) = dequeue_task-Finds s own n qid max_visit r all lq lr busy in
    let (t, ts, e) = some_task s.link_of (s.task_queue k) (held k) (queues k) found in
    let (s', took, left) =
      take_task-QueueOf s own k t ts (subst (QueueOf s.link_of (s.task_queue k)) e (queues k)) in
    (k, t, ts, s', lt, e, run ∙ took, left)
