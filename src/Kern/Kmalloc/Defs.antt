-- ===== src/Kern/Kmalloc/Defs.antt =====
-- The kernel heap: kern/kmalloc.c and include/kmalloc.h. `mblock_list` is the list of the block
-- headers in its order; a header is known by its address. The pages behind the heap are mapped on
-- the first access by the page fault handler and are not part of this state.
use mos_riscv.Prelude.{
  ℕ, ◌+◌, ◌-◌, ◌*◌, ◌/◌, ◌%◌, ◌^◌, Bool, true, false, ◌&&◌, ◌||◌, Option, none, some, List, [], ◌∷◌,
  ◌==◌, ltb, leb, if◌then◌else◌, bit_or,
}
use mos_riscv.Prelude.Run.{Cmd, pure, panic, ◌>>=◌, ◌>>◌, modify}
use mos_riscv.Kern.Mmu.{page2ppn, p1x}
use mos_riscv.Kern.Pmap.Mem.{Mem, entry, store, incref, page_alloc}

-- `struct MBlock` without its links. `free` is only ever 0 or 1.
pub record Block : Type 0 where
  pub addr : ℕ
  pub size : ℕ
  pub ptr : ℕ
  pub free : Bool

pub record Heap : Type 0 where
  pub blocks : List Block
  pub total_requested_bytes : ℕ
  pub total_free_bytes : ℕ

-- `MBLOCK_SIZE`, which is also the offset of `data`
abbrev pub mblock_size : ℕ
mblock_size = 40

abbrev pub kmalloc_begin_va : ℕ
kmalloc_begin_va = 0xFFFFFFC0A0000000

abbrev pub kmalloc_end_va : ℕ
kmalloc_end_va = 0xFFFFFFC0E0000000

abbrev pub kmalloc_heap_size : ℕ
kmalloc_heap_size = kmalloc_end_va - kmalloc_begin_va

-- `kernel_boot_pgdir` is at physical address 0x81000000.
abbrev pub kernel_boot_pgdir : ℕ
kernel_boot_pgdir = 0x81000

-- Addition of `size_t`.
abbrev pub add64 : ℕ → ℕ → ℕ
add64 a b = (a + b) % 2 ^ 64

abbrev pub heap_begin : Block
heap_begin = record {
  addr = kmalloc_begin_va;
  size = kmalloc_heap_size - mblock_size;
  ptr = kmalloc_begin_va + mblock_size;
  free = true;
}

unfoldable pub kmalloc_init : ℕ → ℕ → Cmd Mem Heap
kmalloc_init requested freed = do
  p2page ← page_alloc
  elim p2page [
    | none ↦ panic
    | some p ↦ (do
      modify (incref p)
      modify
          (store (entry kernel_boot_pgdir (p1x kmalloc_begin_va)) (bit_or (page2ppn p * 2 ^ 10) 1))
      pure (record {
        blocks = heap_begin ∷ [];
        total_requested_bytes = requested;
        total_free_bytes = freed;
      }))
  ]

-- `ROUND(size, 8)`
abbrev pub round8 : ℕ → ℕ
round8 size = (size + 7) % 2 ^ 64 / 8 * 8

-- The block that is taken, and the header that is split off it.
unfoldable pub take_block : ℕ → Block → List Block → List Block
take_block size b bs =
    let remain_size = b.size - size in
    let next_node_addr = add64 (add64 b.addr mblock_size) size in
    if ltb remain_size (mblock_size + 8)
    then record b { size = size + remain_size; free = false } ∷ bs
    else record b { size = size; free = false }
      ∷ record {
        addr = next_node_addr;
        size = remain_size - mblock_size;
        ptr = add64 next_node_addr mblock_size;
        free = true;
      }
      ∷ bs

-- The loop over the list: the pointer that is returned and the list that is left.
unfoldable pub alloc_in : ℕ → List Block → Option (ℕ × List Block)
alloc_in size [] = none
alloc_in size (b ∷ bs) =
    let rest = alloc_in size bs in
    if b.free && leb size b.size
    then some (b.ptr, take_block size b bs)
    else elim rest [ none ↦ none | some (p, bs') ↦ some (p, b ∷ bs') ]

-- `none` is NULL.
unfoldable pub kmalloc : ℕ → Heap → Option ℕ × Heap
kmalloc size h =
    let h' : Heap = record h { total_requested_bytes = add64 h.total_requested_bytes size } in
    elim (alloc_in (round8 size) h.blocks) [
      | none ↦ (none, h')
      | some (p, bs) ↦ (some p, record h' { blocks = bs })
    ]

-- The block that is freed takes in the next one if that is free.
unfoldable pub join_next : Block → List Block → List Block
join_next cur [] = record cur { free = true } ∷ []
join_next cur (next ∷ rest) =
    if next.free
    then record cur { size = add64 cur.size (add64 next.size mblock_size); free = true } ∷ rest
    else record cur { free = true } ∷ next ∷ rest

-- The previous block takes in the one that is freed if it is free itself.
unfoldable pub join_prev : Block → List Block → List Block
join_prev prev [] = prev ∷ []
join_prev prev (cur ∷ rest) =
    if prev.free
    then record prev { size = add64 prev.size (add64 cur.size mblock_size) } ∷ rest
    else prev ∷ cur ∷ rest

-- The list from `prev` on, with the block at address `a` freed.
unfoldable pub free_after : ℕ → Block → List Block → Option (List Block)
free_after a prev [] = none
free_after a prev (b ∷ bs) =
    let rest = free_after a b bs in
    if b.addr == a
    then some (join_prev prev (join_next b bs))
    else elim rest [ none ↦ none | some bs' ↦ some (prev ∷ bs') ]

unfoldable pub free_in : ℕ → List Block → Option (List Block)
free_in a [] = none
free_in a (b ∷ bs) = if b.addr == a then some (join_next b bs) else free_after a b bs

-- The header of the list at address `a`.
unfoldable pub find_header : ℕ → List Block → Option Block
find_header a [] = none
find_header a (b ∷ bs) = if b.addr == a then some b else find_header a bs

-- How `kfree` ends. `wild`: no header of the list stands before the pointer, and what the code
-- then reads and writes is the contents of the heap, which the model does not hold.
pub data Freed : Type 0 where
  freed : Heap → Freed
  panicked : Freed
  wild : Freed

unfoldable pub kfree : ℕ → Heap → Freed
kfree p h =
    if ltb p (kmalloc_begin_va + mblock_size) || ltb kmalloc_end_va p
    then panicked
    else elim (find_header (p - mblock_size) h.blocks) [
      | none ↦ wild
      | some b ↦
          if b.ptr == add64 b.addr mblock_size
          then elim (free_in (p - mblock_size) h.blocks) [
            | none ↦ wild
            | some bs ↦
                freed (record h { blocks = bs; total_free_bytes = add64 h.total_free_bytes b.size })
          ]
          else panicked
    ]

-- The sums that `allocation_summarize` prints: blocks, bytes allocated, bytes left.
unfoldable pub summarize : List Block → ℕ → ℕ → ℕ → ℕ × ℕ × ℕ
summarize [] count allocated left = (count, allocated, left)
summarize (b ∷ bs) count allocated left =
    if b.free
    then summarize bs (count + 1) (allocated + mblock_size) (left + b.size)
    else summarize bs (count + 1) (allocated + mblock_size + b.size) left
