-- ===== src/Raytrace/RayStack.antt =====
-- src/splash2/codes/apps/raytrace/raystack.C: the stack of ray messages of one process. `count` is
-- `StackTop + 1`, so that the empty stack has 0. The reals are a parameter `R`, and `X` is the part
-- of a ray that is not copied.
pub mod Contents
use computer_architect.Common.{
  ℕ, zero, suc, ◌+◌, ◌-◌, ◌*◌, ◌^◌, Bool, true, false, not, ◌==◌, if◌then◌else◌, Option, none, some,
  u64,
}
use computer_architect.Common.Runs.{Run, done, ◌>>◌, unless, stack_overflow}

pub record Ray (R X : Type 0) : Type 0 where
  pub id : ℕ
  pub x : ℕ
  pub y : ℕ
  pub position : R × R × R
  pub direction : R × R × R
  pub level : ℕ
  pub weight : R
  pub other : X

pub record RayTreeStack (R X : Type 0) : Type 0 where
  pub stack : ℕ → Ray R X
  pub count : ℕ
  pub stack_size : ℕ

-- The destination, and the source.
unfoldable pub copy_ray_msg : {R X : Type 0} → Ray R X → Ray R X → Ray R X
copy_ray_msg dst src = record dst {
  id = src.id;
  x = src.x;
  y = src.y;
  position = src.position;
  direction = src.direction;
  level = src.level;
  weight = src.weight;
}

unfoldable pub powint_from : ℕ → ℕ → ℕ → ℕ
powint_from i zero temp = temp
powint_from i (suc left) temp = powint_from i left (u64 (temp * i))

unfoldable pub powint : ℕ → ℕ → ℕ
unfolding powint_from
powint i j = powint_from i j 1

-- `LocalMalloc` gives the stack with any contents.
unfoldable pub init_ray_tree_stack : {R X : Type 0} → (ℕ → Ray R X) → ℕ → ℕ → RayTreeStack R X
unfolding powint
init_ray_tree_stack memory depth num_sub_rays = record {
  stack = memory;
  count = 0;
  stack_size = u64 (powint 2 depth + (2 ^ 64 - 1) + num_sub_rays);
}

unfoldable pub push_ray : {R X : Type 0} → RayTreeStack R X → Ray R X → Run (RayTreeStack R X)
unfolding copy_ray_msg
push_ray s msg =
    let top = s.count in
    unless (not (top == s.stack_size)) stack_overflow
    >> done (record s {
      count = suc s.count;
      stack = λ k. if k == top then copy_ray_msg (s.stack top) msg else s.stack k;
    })

-- `RTS_VALID` and the message, or `RTS_EMPTY` and the receiver as it was.
unfoldable pub pop_ray :
    {R X : Type 0} → RayTreeStack R X → Ray R X → Bool × Ray R X × RayTreeStack R X
unfolding copy_ray_msg
pop_ray s receiver =
    if s.count == 0
    then (false, receiver, s)
    else (true, copy_ray_msg receiver (s.stack (s.count - 1)), record s { count = s.count - 1 })
