-- ===== src/Kern/Fault/Alloc.antt =====
-- `passive_alloc` and `kernel_passive_alloc` of kern/tlbex.c.
use mos_riscv.Prelude.{ℕ, ◌+◌, Bool, ◌&&◌, ◌||◌, Option, none, some, ltb, leb, if◌then◌else◌}
use mos_riscv.Prelude.Run.{Cmd, pure, panic, ◌>>=◌}
use mos_riscv.Kern.Error.{Ret}
use mos_riscv.Kern.Mmu.{page_size, utemp, ustacktop, uenvs, upages, uvpt, ulim, utop}
use mos_riscv.Kern.Pmap.Mem.{Mem, page_alloc}
use mos_riscv.Kern.Pmap.Map.{page_insert}
use mos_riscv.Kern.Env.Table.{boot_frame}
use mos_riscv.Kern.Kmalloc.Defs.{kmalloc_begin_va, kmalloc_end_va}

-- `panic_on` of a result.
unfoldable pub panic_on : Ret → Cmd Mem (Unit {0})
panic_on none = pure tt
panic_on (some err) = panic

-- A fresh page at `va`; `none` is a failed `page_alloc`.
unfoldable pub map_fresh : ℕ → ℕ → ℕ → ℕ → Option ℕ → Cmd Mem (Unit {0})
map_fresh pgdir asid va perm none = panic
map_fresh pgdir asid va perm (some pp) = do r ← page_insert pgdir asid pp va perm; panic_on r

-- The addresses that `passive_alloc` refuses.
unfoldable pub is_refused : ℕ → Bool
is_refused va =
    ltb va utemp
    || (leb ustacktop va && ltb va (ustacktop + page_size))
    || (leb uenvs va && ltb va upages)
    || (leb upages va && ltb va uvpt)
    || (leb uvpt va && ltb va ulim)
    || leb ulim va

-- `PTE_RO | PTE_USER` and `PTE_RW | PTE_USER`
unfoldable pub user_flags : ℕ → ℕ
user_flags va = if leb utop va then 0x12 else 0x16

unfoldable pub passive_alloc : ℕ → ℕ → ℕ → Cmd Mem (Unit {0})
passive_alloc va pgdir asid m =
    if is_refused va
    then panic m
    else (do p ← page_alloc; map_fresh pgdir asid va (user_flags va) p) m

-- With `PTE_RW | PTE_GLOBAL`.
unfoldable pub kernel_passive_alloc : ℕ → Cmd Mem (Unit {0})
kernel_passive_alloc va m =
    if ltb va kmalloc_begin_va || leb kmalloc_end_va va
    then panic m
    else (do p ← page_alloc; map_fresh boot_frame 0 va 0x26 p) m
