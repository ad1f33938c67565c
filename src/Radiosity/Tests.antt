-- ===== src/Radiosity/Tests.antt =====
-- The theorems on the task queues at a concrete queue of two tasks.
use computer_architect.Common.{
  ℕ, ◌<◌, ◌≡◌, refl, ◌==◌, if◌then◌else◌, List, [], ◌∷◌, arith, Bool-cases, inl, inr,
}
use computer_architect.Common.Runs.{done}
use computer_architect.Radiosity.{Tasks, enqueue_task, dequeue_task}
use computer_architect.Radiosity.Queue.{QueueOf}
use computer_architect.Radiosity.Dequeue.{enqueue_task-QueueOf, taken_of, left_of}
use computer_architect.Radiosity.Visits.{dequeue_task_lem}

-- Task 8 leads to task 5, and task 2 is free.
abbrev tasks : Tasks
tasks = record {
  link_of = λ t. if t == 8 then 5 else 0;
  task_queue = λ q. record { top = 8; tail = 5; n_tasks = 2; n_free = 0; free_list = 0 };
  task_struct = λ p. record { local_free_task = 0; n_local_free_task = 0; crnt_taskq_id = 0 };
}

tasks-QueueOf : QueueOf tasks.link_of (tasks.task_queue 1) (8 ∷ 5 ∷ [])
tasks-QueueOf = record {
  chain = (refl, omega arith, (refl, omega arith, refl));
  tail = refl;
  count = omega arith;
  distinct = ((refl, tt), (tt, tt));
}

enqueue_task-QueueOf_example :
    QueueOf
      (enqueue_task tasks 1 2 0).link_of
      ((enqueue_task tasks 1 2 0).task_queue 1)
      (8 ∷ 5 ∷ 2 ∷ [])
enqueue_task-QueueOf_example =
    enqueue_task-QueueOf tasks 1 2 0 (8 ∷ 5 ∷ []) tasks-QueueOf (omega arith) refl
      (refl, (refl, tt))

-- The second of four queues has the tasks.
abbrev held : ℕ → List ℕ
held k = if k == 1 then 8 ∷ 5 ∷ [] else []

abbrev four_queues : Tasks
four_queues = record tasks {
  task_queue = λ q.
      if q == 1
      then record { top = 8; tail = 5; n_tasks = 2; n_free = 0; free_list = 0 }
      else record { top = 0; tail = 0; n_tasks = 0; n_free = 0; free_list = 0 };
}

held-QueueOf : (k : ℕ) → QueueOf four_queues.link_of (four_queues.task_queue k) (held k)
held-QueueOf k = elim (Bool-cases (k == 1)) [
  | inl second ↦ rw second tasks-QueueOf
  | inr other ↦ rw other (record { chain = refl; tail = refl; count = refl; distinct = tt })
]

dequeue_task_lem_example :
    (k : ℕ) × (t : ℕ) × (ts : List ℕ) × (s' : Tasks) × (k < 4)
    × (held k ≡ t ∷ ts)
    × (dequeue_task four_queues 0 4 3 4 ≡ done (taken_of (k == 0) t ts, s'))
    × QueueOf s'.link_of (s'.task_queue k) (left_of (k == 0) t ts)
dequeue_task_lem_example =
    dequeue_task_lem four_queues 0 4 3 4 1 held held-QueueOf (omega arith) (omega arith)
      (omega arith) (omega arith)
