-- ===== src/Radiosity/Queue.antt =====
-- A task queue as a list of tasks: a task enters at the tail or at the top, and leaves at the top for
-- its own process and at the tail for another.
use computer_architect.Common.{
  ℕ, zero, suc, ◌+◌, ◌-◌, ◌≤◌, ◌<◌, ◌≡◌, refl, sym, ap, subst, ◌∙◌, true, false, ◌==◌,
  if◌then◌else◌, List, [], ◌∷◌, ◌++◌, length, All, arith, Bool-cases, inl, inr,
}
use computer_architect.Common.Runs.{done}
use computer_architect.Radiosity.{
  TaskQueue, put, enqueue, take_top, find_tail, take_tail, task_append,
}

-- The tasks that are linked from `head` on.
abbrev pub Chain : (ℕ → ℕ) → ℕ → List ℕ → Type 0
Chain next head [] = head ≡ 0
Chain next head (t ∷ ts) = (head ≡ t) × (0 < t) × Chain next (next t) ts

abbrev pub last_of : ℕ → List ℕ → ℕ
last_of d [] = d
last_of d (t ∷ ts) = last_of t ts

abbrev pub Other : ℕ → ℕ → Type 0
Other t u = (u == t) ≡ false

abbrev pub Distinct : List ℕ → Type 0
Distinct [] = Unit {0}
Distinct (t ∷ ts) = All (Other t) ts × Distinct ts

pub record QueueOf (next : ℕ → ℕ) (tq : TaskQueue) (ts : List ℕ) : Type 0 where
  pub chain : Chain next tq.top ts
  pub tail : tq.tail ≡ last_of 0 ts
  pub count : tq.n_tasks ≡ length ts
  pub distinct : Distinct ts

-- A link that is changed outside the tasks.
Chain-put :
    (next : ℕ → ℕ) (head t v : ℕ) (ts : List ℕ)
    → All (Other t) ts
    → Chain next head ts
    → Chain (put next t v) head ts
Chain-put next head t v [] off c = c
Chain-put next head t v (u ∷ us) off c =
    let e : next u ≡ put next t v u = rw off.0 refl in
    (c.0, c.1, subst (λ z. Chain (put next t v) z us) e (Chain-put next (next u) t v us off.1 c.2))

last-pos :
    (next : ℕ → ℕ) (head : ℕ) (d : ℕ) (ts : List ℕ) → Chain next head ts → 0 < d → 0 < last_of d ts
last-pos next head d [] c pos = pos
last-pos next head d (t ∷ ts) c pos = last-pos next (next t) t ts c.2 c.1

flipped : (a b : ℕ) → (a == b) ≡ false → (b == a) ≡ false
flipped a b h = ground arith

last-Other : (t v : ℕ) (ts : List ℕ) → All (Other t) (v ∷ ts) → (last_of v ts == t) ≡ false
last-Other t v [] off = off.0
last-Other t v (u ∷ us) off = last-Other t u us off.1

-- A task that is appended behind the last one.
Chain-append :
    (next : ℕ → ℕ) (head t u : ℕ) (ts : List ℕ)
    → Chain next head (t ∷ ts)
    → Distinct (t ∷ ts)
    → 0 < u
    → next u ≡ 0
    → All (Other u) (t ∷ ts)
    → Chain (put next (last_of t ts) u) head ((t ∷ ts) ++ (u ∷ []))
Chain-append next head t u [] c d pos end fresh =
    let same : (t == t) ≡ true = ground arith in
    (c.0, c.1, (rw same refl, pos, rw (flipped t u fresh.0) end))
Chain-append next head t u (v ∷ ts) c d pos end fresh =
    let last = last_of v ts in
    let apart : (t == last) ≡ false = flipped last t (last-Other t v ts d.0) in
    let e : next t ≡ put next last u t = rw apart refl in
    let ih = Chain-append next (next t) v u ts c.2 d.1 pos end fresh.1 in
    (c.0, c.1, subst (λ z. Chain (put next last u) z ((v ∷ ts) ++ (u ∷ []))) e ih)

-- The last but one task, or `d`, and the tasks before the last.
abbrev pub before_last : ℕ → List ℕ → ℕ
before_last d [] = d
before_last d (t ∷ []) = d
before_last d (t ∷ u ∷ us) = before_last t (u ∷ us)

abbrev pub init_of : List ℕ → List ℕ
init_of [] = []
init_of (t ∷ []) = []
init_of (t ∷ u ∷ us) = t ∷ init_of (u ∷ us)

before_last-Other :
    (t u v : ℕ) (us : List ℕ) → All (Other t) (u ∷ v ∷ us) → (before_last u (v ∷ us) == t) ≡ false
before_last-Other t u v [] off = off.0
before_last-Other t u v (w ∷ us) off = before_last-Other t v w us off.1

Chain-init :
    (next : ℕ → ℕ) (head t u : ℕ) (us : List ℕ)
    → Chain next head (t ∷ u ∷ us)
    → Distinct (t ∷ u ∷ us)
    → Chain (put next (before_last t (u ∷ us)) 0) head (t ∷ init_of (u ∷ us))
Chain-init next head t u [] c d =
    let same : (t == t) ≡ true = ground arith in (c.0, c.1, rw same refl)
Chain-init next head t u (v ∷ us) c d =
    let p = before_last u (v ∷ us) in
    let apart : (t == p) ≡ false = flipped p t (before_last-Other t u v us d.0) in
    let e : next t ≡ put next p 0 t = rw apart refl in
    (
      c.0,
      c.1,
      subst (λ z. Chain (put next p 0) z (u ∷ init_of (v ∷ us))) e
          (Chain-init next (next t) u v us c.2 d.1),
    )

find_tail_lem :
    (next : ℕ → ℕ) (k prev head t : ℕ) (ts : List ℕ)
    → Chain next head (t ∷ ts)
    → length ts ≤ k
    → find_tail (suc k) next prev head ≡ done (before_last prev (t ∷ ts), last_of t ts)
unfolding find_tail
find_tail_lem next k prev head t [] c le =
    let end : next head ≡ 0 = ap next c.0 ∙ c.2 in
    let stop : (next head == 0) ≡ true = ground arith in rw stop (ap (λ z. done (prev, z)) c.0)
find_tail_lem next zero prev head t (u ∷ us) c le = ground arith
find_tail_lem next (suc k) prev head t (u ∷ us) c le =
    let at : next head ≡ u = ap next c.0 ∙ c.2.0 in
    let more : (next head == 0) ≡ false = ground (arith, c.2.1) in
    let rest : Chain next (next head) (u ∷ us) =
      subst (λ z. Chain next (next z) (u ∷ us)) (sym c.0) c.2 in
    let step : find_tail (suc (suc k)) next prev head ≡ find_tail (suc k) next head (next head) =
      rw more refl in
    step
    ∙ find_tail_lem next k head (next head) u us rest (omega arith)
    ∙ ap (λ z. done (before_last z (u ∷ us), last_of u us)) c.0

last-append : (d u : ℕ) (ts : List ℕ) → last_of d (ts ++ (u ∷ [])) ≡ u
last-append d u [] = refl
last-append d u (t ∷ ts) = last-append t u ts

length-append : (u : ℕ) (ts : List ℕ) → length (ts ++ (u ∷ [])) ≡ length ts + 1
length-append u [] = omega arith
length-append u (t ∷ ts) = omega (arith, length-append u ts)

Other-append :
    (t u : ℕ) (ts : List ℕ) → All (Other t) ts → Other t u → All (Other t) (ts ++ (u ∷ []))
Other-append t u [] off o = (o, tt)
Other-append t u (v ∷ ts) off o = (off.0, Other-append t u ts off.1 o)

Distinct-append : (u : ℕ) (ts : List ℕ) → Distinct ts → All (Other u) ts → Distinct (ts ++ (u ∷ []))
Distinct-append u [] d fresh = (tt, tt)
Distinct-append u (t ∷ ts) d fresh =
    (Other-append t u ts d.0 (flipped t u fresh.0), Distinct-append u ts d.1 fresh.1)

-- The list after a task enters.
abbrev pub entered : ℕ → ℕ → List ℕ → List ℕ
entered task mode ts = if mode == task_append then ts ++ (task ∷ []) else task ∷ ts

pub enqueue-QueueOf :
    (next : ℕ → ℕ) (tq : TaskQueue) (task mode : ℕ) (ts : List ℕ)
    → QueueOf next tq ts
    → 0 < task
    → next task ≡ 0
    → All (Other task) ts
    → QueueOf (enqueue next tq task mode).0 (enqueue next tq task mode).1 (entered task mode ts)
unfolding enqueue
enqueue-QueueOf next tq task mode [] q pos end fresh =
    let empty : (tq.tail == 0) ≡ true = ground (arith, q.tail) in
    let alone : entered task mode [] ≡ task ∷ [] = elim (Bool-cases (mode == task_append)) [
      | inl append ↦ rw append refl
      | inr insert ↦ rw insert refl
    ] in
    rw (empty, alone)
      (record { chain = (refl, pos, end); tail = refl; count = omega arith; distinct = (tt, tt) })
enqueue-QueueOf next tq task mode (t ∷ ts) q pos end fresh =
    let some : (tq.tail == 0) ≡ false =
      ground (arith, q.tail, last-pos next (next t) t ts q.chain.2 q.chain.1) in
    let last = q.tail in
    elim (Bool-cases (mode == task_append)) [
      | inl append ↦
          let chain = Chain-append next tq.top t task ts q.chain q.distinct pos end fresh in
          rw (some, append)
            (record {
              chain =
                  subst (λ z. Chain (put next z task) tq.top ((t ∷ ts) ++ (task ∷ []))) (sym last)
                    chain;
              tail = sym (last-append 0 task (t ∷ ts));
              count = omega (arith, q.count, length-append task (t ∷ ts));
              distinct = Distinct-append task (t ∷ ts) q.distinct fresh;
            })
      | inr insert ↦
          let same : (task == task) ≡ true = ground arith in
          rw (some, insert)
            (record {
              chain = (
                refl,
                pos,
                subst (λ z. Chain (put next task tq.top) z (t ∷ ts)) (rw same refl)
                    (Chain-put next tq.top task tq.top (t ∷ ts) fresh q.chain),
              );
              tail = last;
              count = omega (arith, q.count);
              distinct = (fresh, q.distinct);
            })
    ]

-- A queue gives its first task to its own process.
pub take_top-QueueOf :
    (next : ℕ → ℕ) (tq : TaskQueue) (t : ℕ) (ts : List ℕ)
    → QueueOf next tq (t ∷ ts)
    → ((take_top next tq).0 ≡ t) × QueueOf (take_top next tq).1 (take_top next tq).2 ts
unfolding take_top
take_top-QueueOf next tq t [] q =
    let end : next tq.top ≡ 0 = ap next q.chain.0 ∙ q.chain.2 in
    let stop : (next tq.top == 0) ≡ true = ground arith in
    (
      q.chain.0,
      rw stop (record { chain = end; tail = refl; count = omega (arith, q.count); distinct = tt }),
    )
take_top-QueueOf next tq t (u ∷ us) q =
    let at : next tq.top ≡ next t = ap next q.chain.0 in
    let more : (next tq.top == 0) ≡ false = ground (arith, q.chain.2.0, q.chain.2.1) in
    (
      q.chain.0,
      rw more (record {
        chain = subst (λ z. Chain next z (u ∷ us)) (sym at) q.chain.2;
        tail = q.tail;
        count = omega (arith, q.count);
        distinct = q.distinct.1;
      }),
    )

length-init : (t : ℕ) (ts : List ℕ) → length (init_of (t ∷ ts)) ≡ length ts
length-init t [] = refl
length-init t (u ∷ us) = omega (arith, length-init u us)

last-init : (d t : ℕ) (ts : List ℕ) → last_of d (init_of (t ∷ ts)) ≡ before_last d (t ∷ ts)
last-init d t [] = refl
last-init d t (u ∷ us) = last-init t u us

Other-init : (t u : ℕ) (us : List ℕ) → All (Other t) (u ∷ us) → All (Other t) (init_of (u ∷ us))
Other-init t u [] off = tt
Other-init t u (v ∷ us) off = (off.0, Other-init t v us off.1)

Distinct-init : (t : ℕ) (ts : List ℕ) → Distinct (t ∷ ts) → Distinct (init_of (t ∷ ts))
Distinct-init t [] d = tt
Distinct-init t (u ∷ us) d = (Other-init t u us d.0, Distinct-init u us d.1)

-- And its last one to another process.
pub take_tail-QueueOf :
    (next : ℕ → ℕ) (tq : TaskQueue) (t : ℕ) (ts : List ℕ)
    → QueueOf next tq (t ∷ ts)
    → (next' : ℕ → ℕ) × (tq' : TaskQueue) × (take_tail next tq ≡ done (last_of t ts, next', tq'))
      × QueueOf next' tq' (init_of (t ∷ ts))
unfolding take_tail
take_tail-QueueOf next tq t [] q =
    let walk = find_tail_lem next tq.n_tasks 0 tq.top t [] q.chain (omega arith) in
    (
      next,
      record tq { top = 0; tail = 0; n_tasks = tq.n_tasks - 1 },
      rw (take_tail, walk) refl,
      record { chain = refl; tail = refl; count = omega (arith, q.count); distinct = tt },
    )
take_tail-QueueOf next tq t (u ∷ us) q =
    let p = before_last t (u ∷ us) in
    let walk = find_tail_lem next tq.n_tasks 0 tq.top t (u ∷ us) q.chain (omega (arith, q.count)) in
    let chain = Chain-init next tq.top t u us q.chain q.distinct in
    let same = last-init t u us in
    let pos : 0 < p =
      subst (λ z. 0 < z) same (last-pos (put next p 0) _ t (init_of (u ∷ us)) chain.2 q.chain.1) in
    let some : (p == 0) ≡ false = ground arith in
    (
      put next p 0,
      record tq { tail = p; n_tasks = tq.n_tasks - 1 },
      rw (take_tail, walk, some) refl,
      record {
        chain = chain;
        tail = sym same;
        count = omega (arith, q.count, length-init u us);
        distinct = Distinct-init t (u ∷ us) q.distinct;
      },
    )
