-- ===== src/Kern/Pmap/Insert.antt =====
-- `page_insert`, `page_lookup` and `page_remove` on a path without huge pages.
use mos_riscv.Prelude.{
  ℕ, ◌+◌, ◌*◌, ◌/◌, ◌^◌, ◌≡◌, ◌<◌, refl, true, false, none, some, arith, bit_or,
}
use mos_riscv.Prelude.Bits.{bit_or-disjoint, bit_or-one}
use mos_riscv.Prelude.Run.{done}
use mos_riscv.Kern.Error.{success}
use mos_riscv.Kern.Mmu.{npage, low_ppn, page2ppn, ppn2page, pte_ppn, is_valid, make_pte}
use mos_riscv.Kern.Pmap.Mem.{Mem, Entry, load, store, incref, tlb_log, Flush, flush_page}
use mos_riscv.Kern.Pmap.Map.{page_lookup, page_remove, insert_at, insert_new}
use mos_riscv.Kern.Pmap.Cells.{load-store_self}
use mos_riscv.Kern.Pmap.Supply.{released, page_decref-released}
use mos_riscv.Kern.Pmap.Path.{Mapped, Mapped-same, store-Mapped, pgdir_walk-Mapped}

-- What a stored entry says when it is read back.
pub make_pte_lem :
    (pp perm : ℕ)
    → pp < npage
    → perm < 2 ^ 10
    → (is_valid (make_pte pp perm) ≡ true)
      × (ppn2page (pte_ppn (make_pte pp perm)) ≡ some pp)
      × (pte_ppn (make_pte pp perm) ≡ page2ppn pp)
unfolding make_pte is_valid pte_ppn ppn2page
make_pte_lem pp perm h k =
    let x : bit_or ((pp + low_ppn) * 2 ^ 10) perm ≡ (pp + low_ppn) * 2 ^ 10 + perm =
      bit_or-disjoint 10 (pp + low_ppn) perm k in
    let y : bit_or ((pp + low_ppn) * 2 ^ 10 + perm) 1
        ≡ ((pp + low_ppn) * 2 ^ 10 + perm) / 2 * 2 + 1 =
      bit_or-one ((pp + low_ppn) * 2 ^ 10 + perm) in
    rw (x, y) (ground arith, ground arith, omega arith)

pub invalid_zero : is_valid 0 ≡ false
unfolding is_valid
invalid_zero = refl

module _ (pgdir va : ℕ) where
  pub tlb_log-Mapped :
      (f : Flush) (e : Entry) (m : Mem) → Mapped pgdir va e m → Mapped pgdir va e (tlb_log f m)
  unfolding tlb_log load
  tlb_log-Mapped f e m = Mapped-same pgdir va e m (tlb_log f m) refl refl

  pub incref-Mapped :
      (i : ℕ) (e : Entry) (m : Mem) → Mapped pgdir va e m → Mapped pgdir va e (incref i m)
  unfolding incref load
  incref-Mapped i e m = Mapped-same pgdir va e m (incref i m) refl refl

  released-Mapped :
      (i : ℕ) (e : Entry) (m : Mem) → Mapped pgdir va e m → Mapped pgdir va e (released i m)
  unfolding released load
  released-Mapped i e m = Mapped-same pgdir va e m (released i m) refl refl

  -- A valid entry at the end of a complete path is what `page_lookup` returns.
  pub page_lookup-Mapped :
      (m : Mem) (e : Entry) (pp : ℕ)
      → Mapped pgdir va e m
      → is_valid (load m e) ≡ true
      → ppn2page (pte_ppn (load m e)) ≡ some pp
      → page_lookup pgdir va m ≡ done (some (pp, e)) m
  unfolding page_lookup
  page_lookup-Mapped m e pp p v q = rw (pgdir_walk-Mapped pgdir va false e m p) (rw (v, q))

  -- What `page_remove` leaves.
  unfoldable pub removed : ℕ → ℕ → Entry → Mem → Mem
  removed asid pp e m = tlb_log (flush_page asid va) (store e 0 (released pp m))

  pub page_remove-removed :
      (m : Mem) (e : Entry) (asid pp : ℕ)
      → Mapped pgdir va e m
      → is_valid (load m e) ≡ true
      → ppn2page (pte_ppn (load m e)) ≡ some pp
      → 0 < m.ref pp
      → page_remove pgdir asid va m ≡ done tt (removed asid pp e m)
  unfolding page_remove removed
  page_remove-removed m e asid pp p v q h =
      rw (page_lookup-Mapped m e pp p v q) (rw (page_decref-released m pp h))

  load-removed : (m : Mem) (e : Entry) (asid pp : ℕ) → load (removed asid pp e m) e ≡ 0
  unfolding removed tlb_log load
  load-removed m e asid pp = unfold load in load-store_self (released pp m) e 0

  pub removed-Mapped :
      (m : Mem) (e : Entry) (asid pp : ℕ)
      → Mapped pgdir va e m
      → Mapped pgdir va e (removed asid pp e m)
  unfolding removed
  removed-Mapped m e asid pp p =
      tlb_log-Mapped (flush_page asid va) e (store e 0 (released pp m))
        (store-Mapped pgdir va e 0 (released pp m) (released-Mapped pp e m p))

  -- What `insert_new` leaves when the entry is there.
  unfoldable pub inserted : ℕ → ℕ → ℕ → Entry → Mem → Mem
  inserted asid pp perm e m = incref pp (store e (make_pte pp perm) m)

  pub insert_new-inserted :
      (m : Mem) (e : Entry) (asid pp perm : ℕ)
      → Mapped pgdir va e m
      → insert_new pgdir asid pp va perm m
        ≡ done success (inserted asid pp perm e (tlb_log (flush_page asid va) m))
  unfolding insert_new insert_at inserted
  insert_new-inserted m e asid pp perm p = rw (
      pgdir_walk-Mapped pgdir va true e (tlb_log (flush_page asid va) m)
        (tlb_log-Mapped (flush_page asid va) e m p))

  page_lookup-invalid :
      (m : Mem) (e : Entry)
      → Mapped pgdir va e m
      → is_valid (load m e) ≡ false
      → page_lookup pgdir va m ≡ done none m
  unfolding page_lookup
  page_lookup-invalid m e p v = rw (pgdir_walk-Mapped pgdir va false e m p) (rw v)

  pub page_lookup-removed :
      (m : Mem) (e : Entry) (asid pp : ℕ)
      → Mapped pgdir va e m
      → page_lookup pgdir va (removed asid pp e m) ≡ done none (removed asid pp e m)
  page_lookup-removed m e asid pp p =
      page_lookup-invalid (removed asid pp e m) e (removed-Mapped m e asid pp p)
        (rw (load-removed m e asid pp) invalid_zero)
