-- ===== src/Coherence/Protocol.antt =====
-- The MSI protocol apart from vectors and messages: each line is a state and a set of sharers, and
-- loads and stores of a processor are steps on all lines.
use computer_architect.Common.{
  ℕ, ◌^◌, ◌<◌, ◌≤◌, Bool, true, false, not, ◌&&◌, ◌||◌, ◌==◌, ◌≡◌, refl, arith, inl, inr,
  Bool-cases,
}
use computer_architect.Common.Bits.{pow_mono}
use computer_architect.Directory.{
  CacheState, invalid, shared, modified, DirectoryLine, is_modified, set_sharer, clear_sharer,
}
use computer_architect.Directory.Sharers.{shares, shares-set_sharer, shares_none}
use computer_architect.Directory.Counts.{counted_up}
use computer_architect.Coherence.Valid.{LineValid}
use computer_architect.Coherence.Reads.{after_read}
use computer_architect.Coherence.Evicts.{
  after_evict, evicted_fields, owns, owns_lem, sharer_left, shares-after_evict,
}

pub record View : Type 0 where
  pub state : CacheState
  pub sharers : ℕ → Bool

abbrev pub view : DirectoryLine → View
view d = record { state = d.state; sharers = shares d }

-- What an access by processor `p` may do to a line when its cache makes room: nothing, or take `p`
-- from the sharers. The line is INVALID after the last one, and else as it was.
pub data Eviction (p : ℕ) : View → View → Type 0 where
  kept : {v : View} → Eviction p v v
  left :
      {v w : View} (other : ℕ)
      → w.sharers other ≡ true
      → w.state ≡ v.state
      → ((q : ℕ) → w.sharers q ≡ v.sharers q && not (p == q))
      → Eviction p v w
  gone :
      {v w : View}
      → w.state ≡ invalid
      → ((q : ℕ) → w.sharers q ≡ v.sharers q && not (p == q))
      → ((q : ℕ) → w.sharers q ≡ false)
      → Eviction p v w

-- A read by `p`.
pub data Read (p : ℕ) : View → View → Type 0 where
  read_hit : {v : View} → v.sharers p ≡ true → Read p v v
  read_miss :
      {v w : View}
      → v.sharers p ≡ false
      → w.state ≡ shared
      → ((q : ℕ) → w.sharers q ≡ v.sharers q || p == q)
      → Read p v w

-- A write by `p`.
pub data Written (p : ℕ) : View → Type 0 where
  written : {w : View} → w.state ≡ modified → ((q : ℕ) → w.sharers q ≡ (p == q)) → Written p w

-- A load and a store by `p` at an address: evictions by `p`, and then a read or a write of the line
-- of this address alone.
pub data LoadStep (p addr : ℕ) : (ℕ → View) → (ℕ → View) → Type 0 where
  loads :
      {u m w : ℕ → View}
      → ((b : ℕ) → Eviction p (u b) (m b))
      → Read p (m addr) (w addr)
      → ((b : ℕ) → (addr == b) ≡ false → w b ≡ m b)
      → LoadStep p addr u w

pub data StoreStep (p addr : ℕ) : (ℕ → View) → (ℕ → View) → Type 0 where
  stores :
      {u m w : ℕ → View}
      → ((b : ℕ) → Eviction p (u b) (m b))
      → Written p (w addr)
      → ((b : ℕ) → (addr == b) ≡ false → w b ≡ m b)
      → StoreStep p addr u w

pub after_read-Read : (d : DirectoryLine) (p : ℕ) → p < 32 → Read p (view d) (view (after_read d p))
unfolding after_read counted_up shares
after_read-Read d p h = elim (Bool-cases (shares d p)) [
  | inl held ↦ rw held (read_hit held)
  | inr out ↦ rw out (
      read_miss {v = view d} {w = view (counted_up (record (set_sharer d p) { state = shared }) p)}
        out (ground arith) (λ q. ground (arith, shares-set_sharer d p q h)))
]

pub after_evict-Eviction :
    (n : ℕ) (d : DirectoryLine) (p : ℕ)
    → p < n
    → n ≤ 16
    → LineValid false n d
    → Eviction p (view d) (view (after_evict false d p))
after_evict-Eviction n d p h le v =
    let (vector, counts, writer, state) = evicted_fields false d p in
    let wide : d.sharer_vector < 2 ^ 32 = omega (arith, v.width, pow_mono n 32 (omega arith)) in
    let rest : (q : ℕ) → shares (after_evict false d p) q ≡ shares d q && not (p == q) =
      λ q. shares-after_evict false d p q (omega arith) wide in
    elim (Bool-cases ((clear_sharer d p).sharer_vector == 0)) [
      | inl no_more ↦
          gone {v = view d} {w = view (after_evict false d p)} (ground arith) rest
            (λ q. shares_none (after_evict false d p) q (ground arith))
      | inr some_left ↦
          let (q, on, other) = sharer_left n d p h (omega arith) v.width (ground arith) in
          let keeps : owns false d p ≡ false = elim (Bool-cases (owns false d p)) [
            | inl mine ↦
                let alone : shares d p ≡ true = ground (arith, owns_lem d p (omega arith)) in
                let dirty : is_modified d.state ≡ true =
                  ground (arith, owns_lem d p (omega arith)) in
                ground (arith, v.exclusive refl dirty p q alone on)
            | inr not_mine ↦ not_mine
          ] in
          left {v = view d} {w = view (after_evict false d p)} q (ground (arith, rest q))
            (ground arith) rest
    ]
