-- ===== src/Raytrace/Realloc/Clear.antt =====
-- The words that `GlobalCalloc` sets to zero.
use computer_architect.Common.{
  ℕ, zero, suc, ◌+◌, ◌*◌, ◌/◌, ◌%◌, ◌≤◌, ◌<◌, ◌≡◌, refl, ◌∙◌, ◌==◌, arith, Bool-cases, inl, inr,
  ◌⊎◌, u64,
}
use computer_architect.Common.Runs.{done}
use computer_architect.Raytrace.Heap.{Heap, write_word, round_up, global_malloc}
use computer_architect.Raytrace.Realloc.{zero_words, global_calloc}

zero_words_outside :
    (k : ℕ) (h : Heap) (p x : ℕ) → (x < p) ⊎ (p + 8 * k ≤ x) → (zero_words k h p).mem x ≡ h.mem x
unfolding zero_words write_word
zero_words_outside zero h p x out = refl
zero_words_outside (suc k) h p x out =
    zero_words_outside k (write_word h p 0) (p + 8) x
      (elim out [ inl below ↦ inl (omega arith) | inr above ↦ inr (omega arith) ])
    ∙ ground arith

zero_words_inside :
    (k : ℕ) (h : Heap) (p x : ℕ)
    → x % 8 ≡ p % 8
    → p ≤ x
    → x < p + 8 * k
    → (zero_words k h p).mem x ≡ 0
unfolding zero_words write_word
zero_words_inside zero h p x al lo hi = ground arith
zero_words_inside (suc k) h p x al lo hi = elim (Bool-cases (x == p)) [
  | inl here ↦
      zero_words_outside k (write_word h p 0) (p + 8) x (inl (ground arith)) ∙ (rw here refl)
  | inr later ↦
      zero_words_inside k (write_word h p 0) (p + 8) x (omega arith) (ground arith) (omega arith)
]

round_up_words : (x : ℕ) → 8 * (round_up x / 4) ≡ 2 * round_up x
unfolding round_up
round_up_words x = omega arith

-- When the GlobalMalloc in it returns p, GlobalCalloc returns p. It clears the words from p on up
-- to twice the rounded size, and no other word.
pub global_calloc_lem :
    (h : Heap) (n size p : ℕ) (h' : Heap)
    → global_malloc h (round_up (u64 (n * size))) ≡ done (p, h')
    → (h2 : Heap) × (global_calloc h n size ≡ done (p, h2))
      × ((x : ℕ) → x % 8 ≡ p % 8 → p ≤ x → x < p + 2 * round_up (u64 (n * size)) → h2.mem x ≡ 0)
      × ((x : ℕ) → (x < p) ⊎ (p + 2 * round_up (u64 (n * size)) ≤ x) → h2.mem x ≡ h'.mem x)
unfolding global_calloc
global_calloc_lem h n size p h' run =
    let nbytes = round_up (u64 (n * size)) in
    let twice = round_up_words (u64 (n * size)) in
    (
      zero_words (nbytes / 4) h' p,
      rw run refl,
      λ x al lo hi. zero_words_inside (nbytes / 4) h' p x al lo (omega (arith, twice)),
      λ x out.
          zero_words_outside (nbytes / 4) h' p x
            (elim out [ inl below ↦ inl below | inr above ↦ inr (omega (arith, twice)) ]),
    )
