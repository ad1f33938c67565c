-- ===== src/Raytrace/WorkPool/Bundles.antt =====
-- `PutJob`: the bundles it puts on the stack, and that they cover the block.
use computer_architect.Common.{
  ℕ, zero, suc, ◌+◌, ◌-◌, min, ◌≡◌, refl, Bool, ◌&&◌, ◌==◌, ltb, leb, if◌then◌else◌, List, [], ◌∷◌,
}
use computer_architect.Common.Runs.{Run, done, exit, spent, ◌>>=◌}
use computer_architect.Raytrace.WorkPool.{Allocator, Pools, push_entry}

-- A run of `len` from `a` on, cut into pieces of `b` at most: where each starts, and its length.
abbrev pub cuts : ℕ → ℕ → ℕ → ℕ → List (ℕ × ℕ)
cuts zero a len b = []
cuts (suc left) a len b =
    let rest = cuts left (a + b) (len - b) b in if len == 0 then [] else (a, min len b) ∷ rest

abbrev pub within : ℕ → ℕ → ℕ → Bool
within x a n = leb a x && ltb x (a + n)

abbrev pub times : ℕ → List (ℕ × ℕ) → ℕ
times x [] = 0
times x ((a, n) ∷ cs) = (if within x a n then 1 else 0) + times x cs

-- A bundle: its first pixel, and its size in both directions.
abbrev pub Bundle : Type 0
Bundle = ℕ × ℕ × ℕ × ℕ

abbrev pub across : ℕ → ℕ → List (ℕ × ℕ) → List Bundle → List Bundle
across y m [] rest = rest
across y m ((x, n) ∷ cs) rest = (x, y, n, m) ∷ across y m cs rest

abbrev pub grid : List (ℕ × ℕ) → List (ℕ × ℕ) → List Bundle
grid cols [] = []
grid cols ((y, m) ∷ rows) = across y m cols (grid cols rows)

-- How many bundles have the pixel.
abbrev pub covering : ℕ → ℕ → List Bundle → ℕ
covering px py [] = 0
covering px py ((x, y, n, m) ∷ bs) =
    (if within px x n && within py y m then 1 else 0) + covering px py bs

-- The bundles of a block.
abbrev pub bundles : ℕ → ℕ → ℕ → ℕ → ℕ → ℕ → List Bundle
bundles xs ys xe ye xbe ybe = grid (cuts (suc xe) xs xe xbe) (cuts (suc ye) ys ye ybe)

pub bind_assoc :
    {A B C : Type 0} (m : Run A) (f : A → Run B) (g : B → Run C)
    → ((m >>= f) >>= g) ≡ (m >>= λ x. f x >>= g)
bind_assoc spent f g = refl
bind_assoc (exit message) f g = refl
bind_assoc (done value) f g = refl

module _ {S : Type 0} (A : Allocator S) where
  -- The bundles are pushed in their order.
  abbrev pub push_bundles : Pools S → ℕ → List Bundle → Run (Pools S)
  push_bundles s pid [] = done s
  push_bundles s pid ((x, y, n, m) ∷ bs) =
      push_entry A s pid x y n m >>= λ s'. push_bundles s' pid bs
