-- ===== src/Kern/Fault/Cow.antt =====
-- Page faults: `do_page_fault` and `do_cow` of kern/traps.c.
use mos_riscv.Prelude.{
  ℕ, ◌-◌, ◌/◌, ◌%◌, ◌^◌, Bool, ◌&&◌, Option, none, some, ◌==◌, ltb, leb, if◌then◌else◌, update,
  bit_or,
}
use mos_riscv.Prelude.Run.{Cmd, pure, panic, modify, ◌>>=◌, ◌>>◌}
use mos_riscv.Kern.Mmu.{page2ppn, pte_ppn, pte_flags}
use mos_riscv.Kern.Pmap.Mem.{Mem, Entry, load, page_alloc}
use mos_riscv.Kern.Pmap.Map.{page_lookup, page_insert}
use mos_riscv.Kern.Env.State.{Trapframe, Kernel, on_mem}
use mos_riscv.Kern.Kmalloc.Defs.{kmalloc_begin_va, kmalloc_end_va}
use mos_riscv.Kern.Fault.Alloc.{passive_alloc, kernel_passive_alloc}

-- `*pte & PTE_COW`
abbrev pub has_cow : ℕ → Bool
has_cow e = e / 2 ^ 9 % 2 == 1

-- `(perm & ~PTE_COW) | PTE_W`
unfoldable pub own_perm : ℕ → ℕ
own_perm perm = bit_or (if has_cow perm then perm - 2 ^ 9 else perm) (2 ^ 2)

-- `memcpy` of a page through the linear mapping, from frame to frame.
unfoldable pub copy_page : ℕ → ℕ → Mem → Mem
copy_page dst src m = record m { word = update m.word dst (m.word src) }

-- The copy of the page that `e` points at, mapped at `va`. The result of `page_insert` is ignored.
unfoldable pub cow_with : ℕ → ℕ → ℕ → ℕ → Entry → Option ℕ → Cmd Mem (Unit {0})
cow_with pgdir asid va perm e none = panic
cow_with pgdir asid va perm e (some new) = do
  modify (λ m. copy_page (page2ppn new) (pte_ppn (load m e)) m)
  page_insert pgdir asid new va perm
  pure tt

unfoldable pub cow_found : ℕ → ℕ → ℕ → Option (ℕ × Entry) → Cmd Mem (Unit {0})
cow_found pgdir asid va none = panic
cow_found pgdir asid va (some (pp, e)) =
    λ m. (do new ← page_alloc; cow_with pgdir asid va (own_perm (pte_flags (load m e))) e new) m

unfoldable pub do_cow : ℕ → ℕ → ℕ → Cmd Mem (Unit {0})
do_cow pgdir asid va = do found ← page_lookup pgdir va; cow_found pgdir asid va found

-- What follows the lookup for a process. `passive_alloc` gets the number of the process, cut to 16 bits.
unfoldable pub fault_found : ℕ → ℕ → ℕ → ℕ → Option (ℕ × Entry) → Cmd Mem (Unit {0})
fault_found pgdir asid id va none = passive_alloc va pgdir (id % 2 ^ 16)
fault_found pgdir asid id va (some (pp, e)) =
    λ m. if has_cow (load m e) then do_cow pgdir asid va m else panic m

unfoldable pub user_fault : ℕ → Option ℕ → Cmd Kernel (Unit {0})
user_fault va none = panic
user_fault va (some c) = λ k.
    on_mem
      (do
        found ← page_lookup (k.envs c).env_pgdir va
        fault_found (k.envs c).env_pgdir (k.envs c).env_asid (k.envs c).env_id va found)
      k

abbrev pub base_addr : ℕ
base_addr = 0xFFFFFFC000200000

-- `kernel_end` is the address of `_kernel_end`, which the linker gives. `do_kernel_exception` panics.
unfoldable pub do_page_fault : ℕ → Trapframe → Cmd Kernel (Unit {0})
do_page_fault kernel_end tf k =
    if leb base_addr tf.sepc && ltb tf.sepc kernel_end
    then (if leb kmalloc_begin_va tf.badvaddr && ltb tf.badvaddr kmalloc_end_va
        then on_mem (kernel_passive_alloc tf.badvaddr) k
        else panic k)
    else user_fault tf.badvaddr k.curenv k
