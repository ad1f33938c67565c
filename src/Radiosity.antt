-- ===== src/Radiosity.antt =====
-- src/splash2/codes/apps/radiosity/taskman.C: the task queues and the lists of free tasks. A task is
-- its address; the queues keep the links of tasks only. Each access of a queue under its lock is one
-- step, and a count is a natural number.
pub mod Queue
pub mod Dequeue
pub mod Visits
mod Tests
use computer_architect.Common.{
  ℕ, zero, suc, ◌+◌, ◌-◌, ◌*◌, ◌/◌, min, Bool, true, false, not, ◌&&◌, ◌==◌, ltb, leb,
  if◌then◌else◌,
}
use computer_architect.Common.Runs.{Run, done, exit, spent, ◌>>=◌, no_free_task}

pub record TaskQueue : Type 0 where
  pub top : ℕ
  pub tail : ℕ
  pub n_tasks : ℕ
  pub n_free : ℕ
  pub free_list : ℕ

-- `task_struct` of a process: its own list of free tasks, and the next queue to assign.
pub record TaskStruct : Type 0 where
  pub local_free_task : ℕ
  pub n_local_free_task : ℕ
  pub crnt_taskq_id : ℕ

pub record Tasks : Type 0 where
  pub link_of : ℕ → ℕ
  pub task_queue : ℕ → TaskQueue
  pub task_struct : ℕ → TaskStruct

abbrev pub task_append : ℕ
task_append = 0

abbrev pub task_insert : ℕ
task_insert = 1

abbrev pub n_allocate_local_task : ℕ
n_allocate_local_task = 8

abbrev pub max_taskget_retry : ℕ
max_taskget_retry = 32

abbrev pub put : {A : Type 0} → (ℕ → A) → ℕ → A → ℕ → A
put f k v a = if a == k then v else f a

-- The links and the queue after `enqueue_task`.
unfoldable pub enqueue : (ℕ → ℕ) → TaskQueue → ℕ → ℕ → (ℕ → ℕ) × TaskQueue
enqueue next tq task mode =
    if tq.tail == 0
    then (next, record tq { top = task; tail = task; n_tasks = 1 })
    else if mode == task_append
    then (put next tq.tail task, record tq { tail = task; n_tasks = tq.n_tasks + 1 })
    else (put next task tq.top, record tq { top = task; n_tasks = tq.n_tasks + 1 })

unfoldable pub enqueue_task : Tasks → ℕ → ℕ → ℕ → Tasks
unfolding enqueue
enqueue_task s qid task mode =
    let (next, tq) = enqueue s.link_of (s.task_queue qid) task mode in
    record s { link_of = next; task_queue = put s.task_queue qid tq }

-- The task at the top, by the process that owns the queue.
unfoldable pub take_top : (ℕ → ℕ) → TaskQueue → ℕ × (ℕ → ℕ) × TaskQueue
take_top next tq =
    let t = tq.top in
    (
      t,
      next,
      record tq {
        top = next t;
        tail = (if next t == 0 then 0 else tq.tail);
        n_tasks = tq.n_tasks - 1;
      },
    )

-- `for (prev = 0, t = tq->top; t->next; prev = t, t = t->next);`
unfoldable pub find_tail : ℕ → (ℕ → ℕ) → ℕ → ℕ → Run (ℕ × ℕ)
find_tail zero next prev t = spent
find_tail (suc left) next prev t =
    let rest = find_tail left next t (next t) in if next t == 0 then done (prev, t) else rest

-- The task at the tail, by another process.
unfoldable pub take_tail : (ℕ → ℕ) → TaskQueue → Run (ℕ × (ℕ → ℕ) × TaskQueue)
unfolding find_tail
take_tail next tq = elim (find_tail (suc tq.n_tasks) next 0 tq.top) [
  | spent ↦ spent
  | exit message ↦ exit message
  | done found ↦
      let (prev, t) = found in
      done (
        t,
        (if prev == 0 then next else put next prev 0),
        record tq {
          top = (if prev == 0 then 0 else tq.top);
          tail = prev;
          n_tasks = tq.n_tasks - 1;
        },
      )
]

-- The queue that is visited after `qid`: `offset` queues after it, or before it.
unfoldable pub next_queue : ℕ → ℕ → ℕ → Bool → ℕ
next_queue n qid offset forward =
    let wrap : ℕ → ℕ = λ q. if leb n q then q - n else q in
    if forward
    then wrap (qid + offset)
    else if ltb qid offset
    then qid + n - offset
    else wrap (qid - offset)

-- One access of a queue that has tasks, by a process whose own queue is `own`. 0 is no task.
unfoldable pub take_task : Tasks → ℕ → ℕ → Run (ℕ × Tasks)
unfolding take_top take_tail
take_task s own qid =
    let tq = s.task_queue qid in
    if tq.top == 0
    then done (0, s)
    else ((if qid == own then done (take_top s.link_of tq) else take_tail s.link_of tq) >>= λ r.
        done (r.0, record s { link_of = r.1; task_queue = put s.task_queue qid r.2 }))

-- The visits that are left, and how many there were.
unfoldable pub visits : ℕ → Tasks → ℕ → ℕ → ℕ → Bool → ℕ → Run (ℕ × Tasks)
unfolding take_task next_queue
visits zero s own n visit_count forward qid = done (0, s)
visits (suc left) s own n visit_count forward qid =
    let rest =
      visits left s own n (visit_count + 1) (not forward)
        (next_queue n qid (visit_count + 1) forward) in
    if ltb 0 (s.task_queue qid).n_tasks then take_task s own qid else rest

unfoldable pub dequeue_task : Tasks → ℕ → ℕ → ℕ → ℕ → Run (ℕ × Tasks)
unfolding visits
dequeue_task s own n_taskqueues qid max_visit =
    visits (min max_visit n_taskqueues) s own n_taskqueues 0 false qid

-- The last of at most `left + 1` free tasks from `p` on, and its number.
unfoldable pub scan_free : ℕ → (ℕ → ℕ) → ℕ → ℕ → ℕ × ℕ
scan_free zero next i p = (i, p)
scan_free (suc left) next i p =
    let rest = scan_free left next (i + 1) (next p) in if next p == 0 then (i, p) else rest

-- The free tasks of a queue, up to eight, become those of the process.
unfoldable pub import_free : Tasks → ℕ → ℕ → Tasks
unfolding scan_free
import_free s process q_id =
    let tq = s.task_queue q_id in
    let (i, p) = scan_free (n_allocate_local_task - 1) s.link_of 1 tq.free_list in
    record {
      link_of = put s.link_of p 0;
      task_queue =
          put s.task_queue q_id (record tq { free_list = s.link_of p; n_free = tq.n_free - i });
      task_struct = put s.task_struct process (record (s.task_struct process) {
        local_free_task = tq.free_list;
        n_local_free_task = i;
      });
    }

-- The retries that are left, from queue `q_id` on.
unfoldable pub refill : ℕ → Tasks → ℕ → ℕ → ℕ → Run Tasks
unfolding import_free
refill zero s n process q_id =
    let tq = s.task_queue q_id in
    if ltb 0 tq.n_free && not (tq.free_list == 0)
    then done (import_free s process q_id)
    else exit no_free_task
refill (suc left) s n process q_id =
    let tq = s.task_queue q_id in
    let rest = refill left s n process (if leb n (q_id + 1) then 0 else q_id + 1) in
    if ltb 0 tq.n_free && not (tq.free_list == 0) then done (import_free s process q_id) else rest

-- `own` is the queue of the process.
unfoldable pub get_task : Tasks → ℕ → ℕ → ℕ → Run (ℕ × Tasks)
unfolding refill
get_task s n_taskqueues process own =
    (if (s.task_struct process).local_free_task == 0
      then refill max_taskget_retry s n_taskqueues process own
      else done s)
    >>= λ s'.
        (let local = s'.task_struct process in
          let p = local.local_free_task in
          done (
            p,
            record s' {
              link_of = put s'.link_of p 0;
              task_struct = put s'.task_struct process (record local {
                local_free_task = s'.link_of p;
                n_local_free_task = local.n_local_free_task - 1;
              });
            },
          ))

-- `for (i = 1, p = local_free_task; i < N_ALLOCATE_LOCAL_TASK; i++, p = p->next);`
unfoldable pub nth_link : ℕ → (ℕ → ℕ) → ℕ → ℕ
nth_link zero next p = p
nth_link (suc left) next p = nth_link left next (next p)

-- Eight free tasks of the process go to its queue.
unfoldable pub export_free : Tasks → ℕ → ℕ → Tasks
unfolding nth_link
export_free s process own =
    let tq = s.task_queue own in
    let local = s.task_struct process in
    let top = local.local_free_task in
    let p = nth_link (n_allocate_local_task - 1) s.link_of top in
    record {
      link_of = put s.link_of p tq.free_list;
      task_queue =
          put s.task_queue own
            (record tq { free_list = top; n_free = tq.n_free + n_allocate_local_task });
      task_struct = put s.task_struct process (record local {
        local_free_task = s.link_of p;
        n_local_free_task = local.n_local_free_task - n_allocate_local_task;
      });
    }

unfoldable pub free_task : Tasks → ℕ → ℕ → ℕ → Tasks
unfolding export_free
free_task s task process own =
    let local = s.task_struct process in
    let count = local.n_local_free_task + 1 in
    let s' = record s {
      link_of = put s.link_of task local.local_free_task;
      task_struct =
          put s.task_struct process
            (record local { local_free_task = task; n_local_free_task = count });
    } in
    if leb (n_allocate_local_task * 2) count then export_free s' process own else s'

-- The counter after a call, and whether it was the first.
unfoldable pub check_task_counter : ℕ → ℕ → Bool × ℕ
check_task_counter n_processors task_counter =
    (task_counter == 0, (if leb n_processors (task_counter + 1) then 0 else task_counter + 1))

-- The task with index `i` of `task_buf` is at `i + 1`: each of `left` tasks from `i` on leads to the next.
unfoldable pub link_range : ℕ → (ℕ → ℕ) → ℕ → ℕ → ℕ
link_range zero next i = next
link_range (suc left) next i = link_range left (put next (suc i) (suc (i + 1))) (i + 1)

-- The queues that are left, from `qid` on; the tasks from `task_index` on are theirs.
unfoldable pub init_queues : ℕ → Tasks → ℕ → ℕ → ℕ → ℕ → Tasks
unfolding link_range
init_queues zero s max_tasks task_per_queue qid task_index = s
init_queues (suc left) s max_tasks task_per_queue qid task_index =
    let n_tasks =
      if ltb max_tasks (task_index + task_per_queue)
      then max_tasks - task_index
      else task_per_queue in
    let linked = link_range (n_tasks - 1) s.link_of task_index in
    let tq : TaskQueue = record {
      top = 0;
      tail = 0;
      n_tasks = 0;
      n_free = n_tasks;
      free_list = suc task_index;
    } in
    init_queues left
      (record s {
        link_of = put linked (suc (task_index + (n_tasks - 1))) 0;
        task_queue = put s.task_queue qid tq;
      })
      max_tasks task_per_queue (qid + 1) (task_index + n_tasks)

unfoldable pub init_taskq : Tasks → ℕ → ℕ → ℕ → Tasks
unfolding init_queues
init_taskq s max_tasks n_taskqueues process =
    let s' =
      init_queues n_taskqueues s max_tasks ((max_tasks + n_taskqueues - 1) / n_taskqueues) 0 0 in
    record s' {
      task_struct =
          put s'.task_struct process
            (record { local_free_task = 0; n_local_free_task = 0; crnt_taskq_id = 0 });
    }

unfoldable pub assign_taskq : Tasks → ℕ → ℕ → ℕ × Tasks
assign_taskq s n_taskqueues process =
    let local = s.task_struct process in
    let id = local.crnt_taskq_id + 1 in
    (
      local.crnt_taskq_id,
      record s {
        task_struct =
            put s.task_struct process
              (record local { crnt_taskq_id = (if leb n_taskqueues id then 0 else id) });
      },
    )
