-- ===== src/Raytrace/RayStack/Contents.antt =====
-- The stack of ray messages as a list: pushing adds in front, and popping takes from there.
use computer_architect.Common.{
  ℕ, zero, suc, ◌+◌, ◌-◌, ◌*◌, ◌/◌, ◌^◌, ◌%◌, ◌≤◌, ◌<◌, ◌≡◌, refl, sym, ap, ◌∙◌, true, false, ◌==◌,
  if◌then◌else◌, arith, u64, List, [], ◌∷◌,
}
use native.Mathlib.Nat.{
  mod-eq_of_lt, div-add-mod', add-mul, mul_right_comm, mul-add-mod_self_right, pow-zero, mul-one,
  one-mul, mul_assoc, pow-succ',
}
use computer_architect.Common.Runs.{done, exit, stack_overflow}
use computer_architect.Raytrace.RayStack.{
  Ray, RayTreeStack, copy_ray_msg, push_ray, pop_ray, powint, powint_from,
}

-- What is copied of a ray.
pub record Message (R : Type 0) : Type 0 where
  pub id : ℕ
  pub pixel : ℕ × ℕ
  pub line : (R × R × R) × (R × R × R)
  pub level : ℕ
  pub weight : R

abbrev pub message : {R X : Type 0} → Ray R X → Message R
message r = record {
  id = r.id;
  pixel = (r.x, r.y);
  line = (r.position, r.direction);
  level = r.level;
  weight = r.weight;
}

abbrev pub below : {R X : Type 0} → (ℕ → Ray R X) → ℕ → List (Message R)
below stack zero = []
below stack (suc k) = message (stack k) ∷ below stack k

abbrev pub contents : {R X : Type 0} → RayTreeStack R X → List (Message R)
contents s = below s.stack s.count

below_store :
    {R X : Type 0} (stack : ℕ → Ray R X) (k top : ℕ) (r : Ray R X)
    → k ≤ top
    → below (λ z. if z == top then r else stack z) k ≡ below stack k
below_store stack zero top r le = refl
below_store stack (suc k) top r le =
    let e : (k == top) ≡ false = ground arith in
    rw e (ap (message (stack k) ∷◌) (below_store stack k top r (omega arith)))

-- What pushing a message comes to, on a stack that is full or not.
abbrev pub Pushes : {R X : Type 0} → RayTreeStack R X → Ray R X → Type 0
Pushes {R} {X} s msg =
    (t : RayTreeStack R X) × (push_ray s msg ≡ done t)
    × (contents t ≡ message msg ∷ contents s)
    × (t.stack_size ≡ s.stack_size)
    × (t.count ≤ t.stack_size)

pub push_ray_lem :
    {R X : Type 0} (s : RayTreeStack R X) (msg : Ray R X) → s.count < s.stack_size → Pushes s msg
unfolding push_ray copy_ray_msg
push_ray_lem {R} {X} s msg room =
    let open_slot : (s.count == s.stack_size) ≡ false = ground arith in
    let t : RayTreeStack R X = record s {
      count = suc s.count;
      stack = λ k. if k == s.count then copy_ray_msg (s.stack s.count) msg else s.stack k;
    } in
    let top : (s.count == s.count) ≡ true = ground arith in
    (
      t,
      rw open_slot refl,
      ap (◌∷ below t.stack s.count) (rw top refl)
          ∙ ap (message msg ∷◌) (
              below_store s.stack s.count s.count (copy_ray_msg (s.stack s.count) msg)
                (omega arith)),
      refl,
      room,
    )

pub push_ray_full :
    {R X : Type 0} (s : RayTreeStack R X) (msg : Ray R X)
    → s.count ≡ s.stack_size
    → push_ray s msg ≡ exit stack_overflow
unfolding push_ray
push_ray_full s msg full = let e : (s.count == s.stack_size) ≡ true = ground arith in rw e refl

head_or : {A : Type 0} → A → List A → A
head_or d [] = d
head_or d (x ∷ xs) = x

tail_of : {A : Type 0} → List A → List A
tail_of [] = []
tail_of (x ∷ xs) = xs

below_some :
    {R X : Type 0} (stack : ℕ → Ray R X) (k : ℕ) (m : Message R) (ms : List (Message R))
    → below stack k ≡ m ∷ ms
    → (0 < k) × (message (stack (k - 1)) ≡ m) × (below stack (k - 1) ≡ ms)
unfolding head_or tail_of
below_some {R} {X} stack zero m ms e = let clash : ◌≡◌ {A = List (Message R)} [] (m ∷ ms) = e in cc
below_some stack (suc k) m ms e =
    let back : suc k - 1 ≡ k = omega arith in
    (omega arith, rw back (ap (head_or m) e), rw back (ap tail_of e))

-- Popping takes the first message and leaves the others.
pub pop_ray_lem :
    {R X : Type 0} (s : RayTreeStack R X) (receiver : Ray R X) (m : Message R)
    (ms : List (Message R))
    → contents s ≡ m ∷ ms
    → ((pop_ray s receiver).0 ≡ true)
      × (message (pop_ray s receiver).1 ≡ m)
      × (contents (pop_ray s receiver).2 ≡ ms)
unfolding pop_ray copy_ray_msg
pop_ray_lem s receiver m ms e =
    let (pos, first, others) = below_some s.stack s.count m ms e in
    let held : (s.count == 0) ≡ false = ground arith in
    (rw held refl, rw held first, rw held others)

-- On a stack that is not full, PushRayTreeStack returns; PopRayTreeStack after it is valid and
-- gives the message that was pushed, and the stack holds the messages it held before.
pub pop-push_ray :
    {R X : Type 0} (s : RayTreeStack R X) (msg receiver : Ray R X)
    → s.count < s.stack_size
    → (t : RayTreeStack R X) × (push_ray s msg ≡ done t)
      × ((pop_ray t receiver).0 ≡ true)
      × (message (pop_ray t receiver).1 ≡ message msg)
      × (contents (pop_ray t receiver).2 ≡ contents s)
pop-push_ray s msg receiver room =
    let (t, run, held, size, bound) = push_ray_lem s msg room in
    let (valid, first, others) = pop_ray_lem t receiver (message msg) (contents s) held in
    (t, run, valid, first, others)

mod-mul_left : (a b w : ℕ) → a % w * b % w ≡ a * b % w
mod-mul_left a b w = sym (
    ap (λ z. z * b % w) (sym (div-add-mod' a w))
    ∙ ap (λ z. z % w) (add-mul (a / w * w) (a % w) b)
    ∙ ap (λ z. (z + a % w * b) % w) (mul_right_comm (a / w) w b)
    ∙ mul-add-mod_self_right (a / w * b) w (a % w * b))

powint_from_lem : (i j temp : ℕ) → temp < 2 ^ 64 → powint_from i j temp ≡ u64 (temp * i ^ j)
unfolding powint_from
powint_from_lem i zero temp fits =
    sym (ap (λ z. u64 (temp * z)) (pow-zero i) ∙ ap u64 (mul-one temp) ∙ mod-eq_of_lt fits)
powint_from_lem i (suc j) temp fits =
    powint_from_lem i j (u64 (temp * i)) (omega arith)
    ∙ mod-mul_left (temp * i) (i ^ j) (2 ^ 64)
    ∙ ap u64 (mul_assoc temp i (i ^ j) ∙ ap (λ z. temp * z) (sym (pow-succ' i j)))

-- The power, modulo 2 to the 64.
pub powint_lem : (i j : ℕ) → powint i j ≡ u64 (i ^ j)
unfolding powint
powint_lem i j = powint_from_lem i j 1 (omega arith) ∙ ap u64 (one-mul (i ^ j))
