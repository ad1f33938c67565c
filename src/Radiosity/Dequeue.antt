-- ===== src/Radiosity/Dequeue.antt =====
-- The operations on all queues: what a process enters and takes, and the lists of free tasks.
use computer_architect.Common.{
  ℕ, ◌+◌, ◌-◌, ◌<◌, ◌≡◌, refl, ap, Bool, true, false, ◌==◌, leb, if◌then◌else◌, List, ◌∷◌, All,
  arith, Bool-cases, inl, inr,
}
use std.Path.{fun_ext}
use computer_architect.Common.Runs.{done}
use computer_architect.Radiosity.{
  Tasks, put, enqueue_task, take_top, take_task, get_task, free_task,
}
use computer_architect.Radiosity.Queue.{
  QueueOf, Other, last_of, init_of, entered, enqueue-QueueOf, take_top-QueueOf, take_tail-QueueOf,
}

-- A queue that holds a list of tasks, by its links, top, tail and number, holds after enqueue_task
-- of a new task without a link that list with the task at its end for TASK_APPEND and in front for
-- another mode.
pub enqueue_task-QueueOf :
    (s : Tasks) (qid task mode : ℕ) (ts : List ℕ)
    → QueueOf s.link_of (s.task_queue qid) ts
    → 0 < task
    → s.link_of task ≡ 0
    → All (Other task) ts
    → QueueOf
        (enqueue_task s qid task mode).link_of
        ((enqueue_task s qid task mode).task_queue qid)
        (entered task mode ts)
unfolding enqueue_task
enqueue_task-QueueOf s qid task mode ts q pos end fresh =
    let same : (qid == qid) ≡ true = ground arith in
    rw same (enqueue-QueueOf s.link_of (s.task_queue qid) task mode ts q pos end fresh)

-- What a process takes from a queue with tasks, and what is left.
abbrev pub taken_of : Bool → ℕ → List ℕ → ℕ
taken_of mine t ts = if mine then t else last_of t ts

abbrev pub left_of : Bool → ℕ → List ℕ → List ℕ
left_of mine t ts = if mine then ts else init_of (t ∷ ts)

pub take_task-QueueOf :
    (s : Tasks) (own qid t : ℕ) (ts : List ℕ)
    → QueueOf s.link_of (s.task_queue qid) (t ∷ ts)
    → (s' : Tasks) × (take_task s own qid ≡ done (taken_of (qid == own) t ts, s'))
      × QueueOf s'.link_of (s'.task_queue qid) (left_of (qid == own) t ts)
unfolding take_task
take_task-QueueOf s own qid t ts q =
    let tq = s.task_queue qid in
    let some : (tq.top == 0) ≡ false = ground (arith, q.chain.0, q.chain.1) in
    let same : (qid == qid) ≡ true = ground arith in
    elim (Bool-cases (qid == own)) [
      | inl mine ↦
          let (first, left) = take_top-QueueOf s.link_of tq t ts q in
          let r = take_top s.link_of tq in
          (
            record s { link_of = r.1; task_queue = put s.task_queue qid r.2 },
            rw (some, mine)
                (ap
                  (λ z. done (z, record s { link_of = r.1; task_queue = put s.task_queue qid r.2 }))
                  first),
            rw (same, mine) left,
          )
      | inr other ↦
          let (next, rest, run, left) = take_tail-QueueOf s.link_of tq t ts q in
          (
            record s { link_of = next; task_queue = put s.task_queue qid rest },
            rw (some, other, run) refl,
            rw (same, other) left,
          )
    ]

put-put : {A : Type 0} (f : ℕ → A) (k : ℕ) (v w : A) → put (put f k v) k w ≡ put f k w
put-put f k v w =
    fun_ext (λ x. elim (Bool-cases (x == k)) [ inl at ↦ rw at refl | inr off ↦ rw off refl ])

put_back : {A : Type 0} (f : ℕ → A) (k : ℕ) (v : A) → put (put f k v) k (f k) ≡ f
put_back f k v = fun_ext (λ x. elim (Bool-cases (x == k)) [
  | inl at ↦ let e : k ≡ x = ground arith in rw at (ap f e)
  | inr off ↦ rw off refl
])

-- A task that is freed is the next one a process gets.
pub get_task-free_task :
    (s : Tasks) (task process own n_taskqueues : ℕ)
    → 0 < task
    → (s.task_struct process).n_local_free_task < 15
    → (s' : Tasks) × (get_task (free_task s task process own) n_taskqueues process own
        ≡ done (task, s'))
      × (s'.link_of ≡ put s.link_of task 0)
      × (s'.task_struct ≡ s.task_struct)
      × (s'.task_queue ≡ s.task_queue)
unfolding get_task free_task
get_task-free_task s task process own n pos short =
    let few : leb 16 ((s.task_struct process).n_local_free_task + 1) ≡ false = ground arith in
    let same : (process == process) ≡ true = ground arith in
    let here : (task == task) ≡ true = ground arith in
    let some : (task == 0) ≡ false = ground arith in
    let local = s.task_struct process in
    let back : local.n_local_free_task + 1 - 1 ≡ local.n_local_free_task = omega arith in
    (
      record s {
        link_of = put (put s.link_of task local.local_free_task) task 0;
        task_struct =
            put
              (put s.task_struct process (record local {
                local_free_task = task;
                n_local_free_task = local.n_local_free_task + 1;
              }))
              process local;
      },
      rw (few, same, some, same, here, back) refl,
      put-put s.link_of task local.local_free_task 0,
      put_back s.task_struct process _,
      refl,
    )
