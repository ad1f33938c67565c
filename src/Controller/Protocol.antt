-- ===== src/Controller/Protocol.antt =====
-- The loads and stores of a controller without the detector, as steps of the MSI protocol.
use computer_architect.Common.{
  ℕ, ◌+◌, ◌*◌, ◌<◌, ◌≤◌, true, false, ◌==◌, ◌≡◌, refl, sym, ap, subst, arith, inl, inr, ok,
  all_ones, ◌∙◌,
}
use computer_architect.Coherence.{DirMsi, line_at}
use computer_architect.Coherence.Valid.{DirValid}
use computer_architect.Coherence.Protocol.{
  View, view, Eviction, kept, Read, written, LoadStep, loads, StoreStep, stores, after_read-Read,
  after_evict-Eviction,
}
use computer_architect.Cache.Sets.{Evicts}
use computer_architect.Controller.{Controller, load_single_line, store_single_line}
use computer_architect.Controller.Caches.{CtlValid}
use computer_architect.Controller.Accesses.{load_single_line_lem, store_single_line_lem}

-- The lines of a controller's directory.
abbrev pub views : Controller → ℕ → View
views t a = view (line_at t.coherence a)

Evicts-Eviction :
    (n p : ℕ) (c c' : DirMsi) (a : ℕ)
    → p < n
    → n ≤ 16
    → DirValid false n c
    → Evicts false p c c'
    → Eviction p (view (line_at c a)) (view (line_at c' a))
Evicts-Eviction n p c c' a h le v e = elim (e.lines a) [
  | inl same ↦ subst (λ d. Eviction p (view (line_at c a)) (view d)) (sym same) kept
  | inr evicted ↦
      subst (λ d. Eviction p (view (line_at c a)) (view d)) (sym evicted)
        (after_evict-Eviction n (line_at c a) p h le (v.lines a))
]

module _ (n : ℕ) (le : n ≤ 16) (m pid addr : ℕ) (h : pid < n) (k : ℕ) (t : Controller)
    (valid : CtlValid false n m k t) where
  pub load-LoadStep :
      (j : ℕ)
      → k + 2 ≡ j
      → j < all_ones
      → (t' : Controller) × (load_single_line t addr pid ≡ ok t')
        × LoadStep pid addr (views t) (views t')
  load-LoadStep j e b =
      let (t1, t', done, v', evicts, read) =
        load_single_line_lem n le m pid addr h k j t valid e b in
      let same : (addr == addr) ≡ true = ground arith in
      (
        t',
        done,
        loads {u = views t} {m = views t1} {w = views t'}
            (λ a. Evicts-Eviction n pid t.coherence t1.coherence a h le valid.directory evicts)
            (subst (λ d. Read pid (views t1 addr) (view d))
              (sym (read.written.lines addr ∙ (rw same refl)))
              (after_read-Read (line_at t1.coherence addr) pid (omega arith)))
            (λ a other. ap view (read.written.lines a ∙ (rw other refl))),
      )

  pub store-StoreStep :
      (j : ℕ)
      → k + 4 + n * 2 ≡ j
      → j < all_ones
      → (t' : Controller) × (store_single_line t addr pid ≡ ok t')
        × StoreStep pid addr (views t) (views t')
  store-StoreStep j e b =
      let (t1, t', done, evicts, x) = store_single_line_lem n le m pid addr h k j t valid e b in
      (
        t',
        done,
        stores {u = views t} {m = views t1} {w = views t'}
            (λ a. Evicts-Eviction n pid t.coherence t1.coherence a h le valid.directory evicts)
            (written {w = views t' addr} x.owned (x.alone refl))
            (λ a other. ap view (x.elsewhere refl a other)),
      )
