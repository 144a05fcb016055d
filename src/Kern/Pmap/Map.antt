-- ===== src/Kern/Pmap/Map.antt =====
-- Mappings with counted pages: `page_lookup`, `page_remove` and `page_insert` of kern/pmap.c.
use mos_riscv.Prelude.{ℕ, true, false, Option, none, some, ◌==◌, if◌then◌else◌}
use mos_riscv.Prelude.Run.{Cmd, done, pure, panic, undefined, ◌>>=◌, ◌>>◌, modify}
use mos_riscv.Kern.Error.{Ret, success}
use mos_riscv.Kern.Mmu.{pte_ppn, is_valid, ppn2page, make_pte}
use mos_riscv.Kern.Pmap.Mem.{Mem, Entry, load, store, incref, page_decref, tlb_log, flush_page}
use mos_riscv.Kern.Pmap.Walk.{Walk, pgdir_walk}

-- `none` is NULL; the entry goes out through `ppte`.
unfoldable pub page_lookup : ℕ → ℕ → Cmd Mem (Option (ℕ × Entry))
page_lookup pgdir va = do
  (_, pte) ← pgdir_walk pgdir va false
  elim pte [
    | none ↦ pure none
    | some e ↦ λ m.
        if is_valid (load m e)
        then elim (ppn2page (pte_ppn (load m e))) [
          | none ↦ panic m
          | some pp ↦ done (some (pp, e)) m
        ]
        else done none m
  ]

unfoldable pub page_remove : ℕ → ℕ → ℕ → Cmd Mem (Unit {0})
page_remove pgdir asid va = do
  found ← page_lookup pgdir va
  elim found [
    | none ↦ pure tt
    | some (pp, e) ↦ (do page_decref pp; modify (store e 0); modify (tlb_log (flush_page asid va)))
  ]

-- What follows the second walk: its error is passed on, or the entry is written.
unfoldable pub insert_at : ℕ → ℕ → Walk → Cmd Mem Ret
insert_at pp perm (some err, pte) = pure (some err)
insert_at pp perm (none, none) = undefined
insert_at pp perm (none, some e) = do
  modify (store e (make_pte pp perm))
  modify (incref pp)
  pure success

-- Steps 2 to 4 of `page_insert`: the entry is fetched again, and made if need be.
unfoldable pub insert_new : ℕ → ℕ → ℕ → ℕ → ℕ → Cmd Mem Ret
insert_new pgdir asid pp va perm = do
  modify (tlb_log (flush_page asid va))
  w ← pgdir_walk pgdir va true
  insert_at pp perm w

-- What follows the first walk: an entry that maps `pp` gets new flags, one that maps another page
-- is removed first.
unfoldable pub insert_found : ℕ → ℕ → ℕ → ℕ → ℕ → Walk → Cmd Mem Ret
insert_found pgdir asid pp va perm (_, none) = insert_new pgdir asid pp va perm
insert_found pgdir asid pp va perm (_, some e) = λ m.
    if is_valid (load m e)
    then elim (ppn2page (pte_ppn (load m e))) [
      | none ↦ panic m
      | some old ↦
          if old == pp
          then done success (store e (make_pte pp perm) (tlb_log (flush_page asid va) m))
          else (do page_remove pgdir asid va; insert_new pgdir asid pp va perm) m
    ]
    else insert_new pgdir asid pp va perm m

unfoldable pub page_insert : ℕ → ℕ → ℕ → ℕ → ℕ → Cmd Mem Ret
page_insert pgdir asid pp va perm = do
  w ← pgdir_walk pgdir va false
  insert_found pgdir asid pp va perm w
