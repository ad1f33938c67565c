-- ===== src/Raytrace/Heap/Release.antt =====
-- `GlobalFree` on a valid heap: the searches find the neighbours, and the block is merged with them.
use computer_architect.Common.{
  ℕ, suc, ◌+◌, ◌-◌, ◌≤◌, ◌<◌, ◌≡◌, refl, sym, ap, ◌∙◌, true, false, ltb, ◌==◌, if◌then◌else◌, List,
  ◌∷◌, ◌++◌, length, arith, Bool-cases, inl, inr,
}
use std.Path.{fun_ext}
use computer_architect.Common.Runs.{done}
use computer_architect.Raytrace.Heap.{
  Heap, rounds, link, set_next, set_size, set_free, write_word, combine, search_prev, search_next,
  find_prev, global_free,
}
use computer_architect.Raytrace.Heap.Blocks.{
  Block, span, end_of, last_free, le-end_of, last_free_bounds, first_free_none,
}
use computer_architect.Raytrace.Heap.Arena.{HeapValid, rounds_lem}
use computer_architect.Raytrace.Heap.Carve.{length_parts}
use computer_architect.Raytrace.Heap.Walks.{
  last_is_free, head_is_free, prev_found, prev_stop, next_walk,
}
use computer_architect.Raytrace.Heap.Free.{
  merged_size, combine_both, combine_prev, combine_next, combine_none, first_free_bounds,
  first_free_pos, last_not_free,
}
use computer_architect.Raytrace.Heap.Merge.{
  linked_in, joined, behind, beyond, used_parts, used_freelist, used_end, used-Next,
}

module _ (h : Heap) (pre : List Block) (b : Block) (post : List Block)
    (v : HeapValid h (pre ++ (b ∷ post))) (used : b.free ≡ false) where
  abbrev here : ℕ
  here = end_of h.begmem pre

  -- The rounds are more than the blocks on either side.
  pub before_rounds : length pre + suc (rounds h - length pre - 1) ≡ rounds h
  before_rounds = omega (arith, rounds_lem h (pre ++ (b ∷ post)) v, length_parts pre b post)

  pub after_rounds : length post + suc (rounds h - length post - 1) ≡ rounds h
  after_rounds = omega (
    arith,
    v.end,
    le-end_of h.begmem pre,
    le-end_of (here + span b) post,
    used_end h pre b post v used,
  )

  pub here_inside : here < h.endmem
  here_inside = omega (arith, used_end h pre b post v used, le-end_of (here + span b) post)

  pub prev_lem : find_prev h here ≡ done (last_free h.begmem pre, last_is_free false pre)
  unfolding find_prev
  prev_lem =
      let f = behind h pre b post v used in
      let k = rounds h - length pre - 1 in
      elim (Bool-cases (last_free h.begmem pre == 0)) [
        | inl none ↦
            let start : h.freelist ≡ f =
              used_freelist h pre b post v used ∙ first_free_none h.begmem pre f v.pos none in
            let flag : last_is_free false pre ≡ false = last_not_free h.begmem pre v.pos none in
            let last : last_free h.begmem pre ≡ 0 = ground arith in
            elim (Bool-cases (f == 0)) [
              | inl empty ↦
                  let none_at_all : (h.freelist == 0) ≡ true = ap (λ z. z == 0) start ∙ empty in
                  rw (none_at_all, flag, last) refl
              | inr later ↦
                  let bounds = first_free_bounds (here + span b) post later in
                  let fuel : rounds h ≡ suc (h.endmem - h.begmem) = omega arith in
                  let inside : ltb f h.endmem ≡ true =
                    ground (arith, bounds, used_end h pre b post v used) in
                  let some : (h.freelist == 0) ≡ false = ap (λ z. z == 0) start ∙ later in
                  let stop : search_prev (rounds h) h here 0 false h.freelist ≡ done (0, false, f) =
                    ap (λ z. search_prev z h here 0 false h.freelist) fuel
                    ∙ ap (search_prev (suc (h.endmem - h.begmem)) h here 0 false) start
                    ∙ prev_stop h here 0 f _ false (omega (arith, bounds)) in
                  rw (some, stop, inside, flag, last) refl
            ]
        | inr found ↦
            let start : (h.freelist == 0) ≡ false = ground (
              arith,
              used_freelist h pre b post v used,
              first_free_pos h.begmem pre f v.pos found,
            ) in
            let inside : ltb here h.endmem ≡ true = ground (arith, here_inside) in
            let walk : search_prev (rounds h) h here 0 false h.freelist
                ≡ done (last_free h.begmem pre, last_is_free false pre, here) =
              ap (λ z. search_prev z h here 0 false h.freelist) (sym before_rounds)
              ∙ ap (search_prev (length pre + suc k) h here 0 false)
                  (used_freelist h pre b post v used)
              ∙ prev_found h h.begmem pre f f k v.pos (used_parts h pre b post v used).0 here_inside
                  found in
            rw (start, walk, inside) refl
      ]

  pub run_lem :
      global_free h (here + 32)
      ≡ done (
          combine
            (set_free h here 1)
            (last_free h.begmem pre)
            here
            (behind h pre b post v used)
            (last_is_free false pre)
            (head_is_free post))
  unfolding global_free
  run_lem =
      let hd = (used_parts h pre b post v used).1 in
      let at : here + 32 - 32 ≡ here = omega arith in
      let set_up : (h.begmem == 0) ≡ false = ground (arith, v.pos) in
      let taken : h.mem (here + 16) ≡ 0 = hd.free ∙ (rw used refl) in
      let walk : search_next (rounds h) h true (here + (b.size + 32))
          ≡ done (behind h pre b post v used, head_is_free post) =
        ap (λ z. search_next z h true (here + (b.size + 32))) (sym after_rounds)
        ∙ next_walk h (here + span b) post _ true (used_parts h pre b post v used).2
            (used_end h pre b post v used) in
      rw (at, set_up, hd.cksm, taken, prev_lem, hd.size, walk) refl

-- A size that is written again.
rewrite_size : (h : Heap) (a n : ℕ) → h.mem (a + 8) ≡ n → set_size h a n ≡ h
unfolding set_size write_word
rewrite_size h a n e =
    ap (λ m. record h { mem = m })
      (fun_ext (λ x. elim (Bool-cases (x == a + 8)) [
        | inl at ↦ let x_is : x ≡ a + 8 = ground arith in ground (arith, e)
        | inr off ↦ rw off refl
      ]))

link_in :
    (h : Heap) (pre : List Block) (nx n : ℕ)
    → set_size
        (set_next
          (link (set_free h (end_of h.begmem pre) 1) (last_free h.begmem pre) (end_of h.begmem pre))
          (end_of h.begmem pre)
          nx)
        (end_of h.begmem pre)
        n
      ≡ record h {
        mem = linked_in h.begmem pre h.mem nx n;
        freelist = if last_free h.begmem pre == 0 then end_of h.begmem pre else h.freelist;
      }
unfolding set_size set_next set_free link write_word
link_in h pre nx n = elim (Bool-cases (last_free h.begmem pre == 0)) [
  | inl none ↦ rw none refl
  | inr found ↦ rw found refl
]

marked_lem : (h : Heap) (a x : ℕ) → (x == a + 16) ≡ false → (set_free h a 1).mem x ≡ h.mem x
unfolding set_free write_word
marked_lem h a x off = rw off refl

linked_lem :
    (h : Heap) (p a n x : ℕ)
    → (x == p) ≡ false
    → (x == a) ≡ false
    → (set_next (link h p a) a n).mem x ≡ h.mem x
unfolding set_next link write_word
linked_lem h p a n x e f = elim (Bool-cases (p == 0)) [
  | inl none ↦ rw (none, f) refl
  | inr found ↦ rw (found, f, e) refl
]

join_up :
    (h : Heap) (p a nx n : ℕ)
    → set_size (set_next (set_free h a 1) p nx) p n ≡ record h { mem = joined p a h.mem nx n }
unfolding set_size set_next set_free write_word
join_up h p a nx n = refl

module _ (h : Heap) (pre : List Block) (b : Block) (post : List Block)
    (v : HeapValid h (pre ++ (b ∷ post))) (used : b.free ≡ false) where
  abbrev a : ℕ
  a = end_of h.begmem pre

  abbrev prev : ℕ
  prev = last_free h.begmem pre

  abbrev next : ℕ
  next = behind h pre b post v used

  abbrev after : ℕ
  after = beyond h pre b post v used

  abbrev total : ℕ
  total = merged_size b.size post

  joint_size :
      next ≡ a + (b.size + 32)
      → b.size + (h.mem (next + 8) + 32) ≡ total
      → (set_free h a 1).mem (a + 8) + ((set_free h a 1).mem (next + 8) + 32) ≡ total
  joint_size e f =
      rw
        (
          marked_lem h a (a + 8) (ground arith),
          marked_lem h a (next + 8) (ground arith),
          (used_parts h pre b post v used).1.size,
        )
        f

  -- The block before it is not free.
  pub apart_lem : combine (set_free h a 1) prev a next false (head_is_free post) ≡ record h {
    mem = linked_in h.begmem pre h.mem after total;
    freelist = if prev == 0 then a else h.freelist;
  }
  apart_lem = elim (Bool-cases (head_is_free post)) [
    | inl on ↦
        let nx = (used-Next h pre b post v used).joins on in
        let some : (next == 0) ≡ false = ground (arith, nx) in
        let far : (set_free h a 1).mem next ≡ after =
          marked_lem h a next (ground (arith, nx)) ∙ nx.1 in
        rw (on, combine_next (set_free h a 1) prev a next some, far, joint_size nx.0 nx.2)
          (link_in h pre after total)
    | inr off ↦
        let nx = (used-Next h pre b post v used).apart off in
        let alone : (set_next (link (set_free h a 1) prev a) a next).mem (a + 8) ≡ total =
          linked_lem (set_free h a 1) prev a next (a + 8)
            (ground (arith, last_free_bounds h.begmem pre)) (ground arith)
          ∙ marked_lem h a (a + 8) (ground arith)
          ∙ (used_parts h pre b post v used).1.size
          ∙ nx.1 in
        rw (off, combine_none (set_free h a 1) prev a next)
          (sym (rewrite_size _ a total alone)
            ∙ ap (λ z. set_size (set_next (link (set_free h a 1) prev a) a z) a total) nx.0
            ∙ link_in h pre after total)
  ]

  -- The block before it, of `n` bytes, is free.
  pub joined_run :
      (p n : ℕ)
      → 0 < p
      → p + 32 ≤ a
      → h.mem (p + 8) ≡ n
      → combine (set_free h a 1) p a next true (head_is_free post)
        ≡ record h { mem = joined p a h.mem after (n + (total + 32)) }
  joined_run p n pos le e =
      let p0 : (p == 0) ≡ false = ground arith in
      let size_p : (set_free h a 1).mem (p + 8) ≡ n = marked_lem h a (p + 8) (ground arith) ∙ e in
      elim (Bool-cases (head_is_free post)) [
        | inl on ↦
            let nx = (used-Next h pre b post v used).joins on in
            let some : (next == 0) ≡ false = ground (arith, nx) in
            let far : (set_free h a 1).mem next ≡ after =
              marked_lem h a next (ground (arith, nx)) ∙ nx.1 in
            let sum : n + ((set_free h a 1).mem (a + 8) + (set_free h a 1).mem (next + 8) + 64)
                ≡ n + (total + 32) =
              omega (arith, joint_size nx.0 nx.2) in
            rw (on, combine_both (set_free h a 1) p a next p0 some, far, size_p, sum)
              (join_up h p a after (n + (total + 32)))
        | inr off ↦
            let nx = (used-Next h pre b post v used).apart off in
            let size : (set_free h a 1).mem (a + 8) ≡ total =
              marked_lem h a (a + 8) (ground arith)
              ∙ (used_parts h pre b post v used).1.size
              ∙ nx.1 in
            rw (off, combine_prev (set_free h a 1) p a next, size_p, size, nx.0)
              (join_up h p a after (n + (total + 32)))
      ]
