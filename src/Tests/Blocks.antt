-- ===== src/Tests/Blocks.antt =====
-- The heap as `kmalloc_init` leaves it.
use mos_riscv.Prelude.{◌+◌, ◌≡◌, ◌≤◌, refl, some, [], ◌∷◌, arith}
use mos_riscv.Kern.Kmalloc.Defs.{
  Heap, freed, heap_begin, kmalloc, kfree, round8, alloc_in, kmalloc_begin_va, mblock_size,
}
use mos_riscv.Kern.Kmalloc.Service.{
  IsSound, initial, allocate, Allocated, Reachable-IsSound, kmalloc-Allocated, kfree-kmalloc,
}

abbrev heap : Heap
heap = record { blocks = heap_begin ∷ []; total_requested_bytes = 0; total_free_bytes = 0 }

abbrev heap_used : Heap
heap_used = (kmalloc 100 heap).1

Reachable-IsSound_example : IsSound heap_used
Reachable-IsSound_example = Reachable-IsSound (allocate heap 100 (initial 0 0))

kmalloc-Allocated_example : (100 ≤ round8 100) × Allocated (round8 100) heap (kmalloc 100 heap)
kmalloc-Allocated_example = kmalloc-Allocated 100 heap (omega arith)

heap-some : (kmalloc 100 heap).0 ≡ some (kmalloc_begin_va + mblock_size)
unfolding kmalloc alloc_in
heap-some = refl

kfree-kmalloc_example :
    (h' : Heap) × (kfree (kmalloc_begin_va + mblock_size) (kmalloc 100 heap).1 ≡ freed h')
    × (h'.blocks ≡ heap.blocks)
kfree-kmalloc_example =
    kfree-kmalloc 100 (kmalloc_begin_va + mblock_size) heap (Reachable-IsSound (initial 0 0))
      heap-some
