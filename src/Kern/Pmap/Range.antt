-- ===== src/Kern/Pmap/Range.antt =====
-- Mappings of ranges that the free list does not manage: `map_mem` and `unmap_mem` of kern/pmap.c.
use mos_riscv.Prelude.{
  ℕ, zero, suc, ◌+◌, ◌-◌, ◌*◌, ◌/◌, ◌%◌, ◌^◌, true, false, not, ◌||◌, none, some, ◌==◌,
  if◌then◌else◌, bit_or,
}
use mos_riscv.Prelude.Run.{Cmd, pure, panic, ◌>>=◌, ◌>>◌, modify}
use mos_riscv.Kern.Mmu.{page_size}
use mos_riscv.Kern.Pmap.Mem.{Mem, store, tlb_log, flush_all}
use mos_riscv.Kern.Pmap.Walk.{pgdir_walk}

-- `ROUND(a, PAGE_SIZE)` on 64-bit words
unfoldable pub round_page : ℕ → ℕ
round_page a = (a + page_size - 1) % 2 ^ 64 / page_size * page_size

-- The rounds of the loop of `map_mem` that are left, from `offset` on.
unfoldable pub map_loop : ℕ → ℕ → ℕ → ℕ → ℕ → ℕ → Cmd Mem (Unit {0})
unfolding pgdir_walk store
map_loop zero pgdir va pa perm offset = pure tt
map_loop (suc rounds) pgdir va pa perm offset = do
  (_, pte) ← pgdir_walk pgdir ((va + offset) % 2 ^ 64) true
  elim pte [
    | none ↦ panic
    | some e ↦ (do
      modify (store e (bit_or ((pa + offset) % 2 ^ 64 / 2 ^ 12 * 2 ^ 10) perm))
      map_loop rounds pgdir va pa perm (offset + page_size))
  ]

unfoldable pub map_mem : ℕ → ℕ → ℕ → ℕ → ℕ → Cmd Mem (Unit {0})
unfolding map_loop tlb_log round_page
map_mem pgdir va pa len perm =
    if not (va % page_size == 0) || not (pa % page_size == 0)
    then panic
    else (do map_loop (round_page len / page_size) pgdir va pa perm 0; modify (tlb_log flush_all))

unfoldable pub unmap_loop : ℕ → ℕ → ℕ → ℕ → Cmd Mem (Unit {0})
unfolding pgdir_walk store
unmap_loop zero pgdir va offset = pure tt
unmap_loop (suc rounds) pgdir va offset = do
  (_, pte) ← pgdir_walk pgdir ((va + offset) % 2 ^ 64) false
  elim pte [
    | none ↦ unmap_loop rounds pgdir va (offset + page_size)
    | some e ↦ (do modify (store e 0); unmap_loop rounds pgdir va (offset + page_size))
  ]

unfoldable pub unmap_mem : ℕ → ℕ → ℕ → Cmd Mem (Unit {0})
unfolding unmap_loop tlb_log round_page
unmap_mem pgdir va len =
    if not (va % page_size == 0)
    then panic
    else (do unmap_loop (round_page len / page_size) pgdir va 0; modify (tlb_log flush_all))
