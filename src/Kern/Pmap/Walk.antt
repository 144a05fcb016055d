-- ===== src/Kern/Pmap/Walk.antt =====
-- `pgdir_walk` of kern/pmap.c, and `va2pa` of include/pmap.h.
use mos_riscv.Prelude.{ℕ, ◌*◌, ◌%◌, ◌^◌, Bool, not, Option, none, some, if◌then◌else◌, bit_or}
use mos_riscv.Prelude.Run.{Cmd, done, pure, ◌>>=◌, ◌>>◌, modify}
use mos_riscv.Kern.Error.{Ret, success, e_no_mem}
use mos_riscv.Kern.Mmu.{p1x, p2x, p3x, pte_addr, pte_ppn, is_valid, is_non_leaf, page2ppn}
use mos_riscv.Kern.Pmap.Mem.{Mem, Entry, entry, load, store, incref, page_alloc, page_free}

-- What `pgdir_walk` returns, and what it leaves in `*ppte`.
abbrev pub Walk : Type 0
Walk = Ret × Option Entry

-- `(page2ppn(pp) << FLAG_SHIFT) | PTE_V`, the entry that points at a table.
unfoldable pub table_pte : ℕ → ℕ
table_pte i = bit_or (page2ppn i * 2 ^ 10) 1

-- The branch for a first-level entry that is not valid, with `create`: two tables are made.
unfoldable pub walk_create : ℕ → ℕ → Cmd Mem Walk
unfolding page_alloc page_free incref store table_pte
walk_create pgdir va = do
  p2 ← page_alloc
  elim p2 [
    | none ↦ pure (some e_no_mem, none)
    | some p2_page ↦ (do
      p3 ← page_alloc
      elim p3 [
        | none ↦ (do page_free p2_page; pure (some e_no_mem, none))
        | some p3_page ↦ (do
          modify (incref p2_page)
          modify (incref p3_page)
          modify (store (entry pgdir (p1x va)) (table_pte p2_page))
          modify (store (entry (page2ppn p2_page) (p2x va)) (table_pte p3_page))
          pure (success, some (entry (page2ppn p3_page) (p3x va))))
      ])
  ]

-- A third-level table is made and hung under the second-level entry.
unfoldable pub make_third : Entry → ℕ → Cmd Mem Walk
unfolding page_alloc incref store table_pte
make_third p2_entry va = do
  p ← page_alloc
  elim p [
    | none ↦ pure (some e_no_mem, none)
    | some new ↦ (do
      modify (incref new)
      modify (store p2_entry (table_pte new))
      pure (success, some (entry (page2ppn new) (p3x va))))
  ]

-- The branch below a first-level entry that points at the second-level table in frame `t2`. A
-- third-level table that is missing is made whether or not `create` is set.
unfoldable pub walk_second : ℕ → ℕ → Cmd Mem Walk
unfolding make_third load
walk_second t2 va m =
    let e2 = load m (entry t2 (p2x va)) in
    if is_valid e2
    then (if is_non_leaf e2
        then done (success, some (entry (pte_ppn e2) (p3x va))) m
        else done (success, some (entry t2 (p2x va))) m)
    else make_third (entry t2 (p2x va)) va m

unfoldable pub pgdir_walk : ℕ → ℕ → Bool → Cmd Mem Walk
unfolding walk_create walk_second load
pgdir_walk pgdir va create m =
    let p1_entry = entry pgdir (p1x va) in
    let e1 = load m p1_entry in
    if is_valid e1
    then (if is_non_leaf e1 then walk_second (pte_ppn e1) va m else done (success, some p1_entry) m)
    else (if create then walk_create pgdir va m else done (success, none) m)

-- `va2pa`; `none` is the value `~0ULL`.
unfoldable pub va2pa : Mem → ℕ → ℕ → Option ℕ
unfolding load pte_addr
va2pa m pgdir va =
    let e1 = load m (entry pgdir (p1x va)) in
    let e2 = load m (entry (pte_ppn e1) (p2x va)) in
    let e3 = load m (entry (pte_ppn e2) (p3x va)) in
    if not (is_valid e1)
    then none
    else if not (is_non_leaf e1)
    then some (bit_or (pte_addr e1) (va % 2 ^ 30))
    else if not (is_valid e2)
    then none
    else if not (is_non_leaf e2)
    then some (bit_or (pte_addr e1) (va % 2 ^ 21))
    else if not (is_valid e3)
    then none
    else some (bit_or (pte_addr e3) (va % 2 ^ 12))
