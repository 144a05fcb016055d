-- ===== src/Kern/Kmalloc/Service.antt =====
-- What the callers of `kmalloc` and `kfree` may rely on.
use mos_riscv.Prelude.{
  ℕ, ◌+◌, ◌-◌, ◌^◌, ◌≡◌, ◌<◌, ◌≤◌, refl, false, ◌&&◌, ◌||◌, Option, none, some, List, [], ◌∷◌, ◌++◌,
  arith, Bool-cases, Option-cases, inl, inr, ap, All, leb, ltb, if◌then◌else◌,
}
use mos_riscv.Kern.Kmalloc.Defs.{
  Block, Heap, take_block, alloc_in, kmalloc, free_in, kfree, freed, mblock_size, kmalloc_begin_va,
  kmalloc_end_va, round8, add64, heap_begin,
}
use mos_riscv.Kern.Kmalloc.Tiling.{IsHeap, Carved, here, there, alloc_in-Carved, Carved-IsHeap}
use mos_riscv.Kern.Kmalloc.Joining.{free_in-IsHeap}
use mos_riscv.Kern.Kmalloc.Undo.{Carved-le, free_in-Carved, find_header-Carved}

-- The blocks tile the heap's address range, and no two free blocks are neighbours.
abbrev pub IsSound : Heap → Type 0
IsSound h = IsHeap kmalloc_begin_va kmalloc_end_va h.blocks

-- The blocks in use, as pointer and size.
unfoldable pub in_use : List Block → List (ℕ × ℕ)
in_use [] = []
in_use (b ∷ bs) = if b.free then in_use bs else (b.ptr, b.size) ∷ in_use bs

-- A heap on which calls follow one another, from what `kmalloc_init` makes.
pub data Reachable : Heap → Type 0 where
  initial :
      (r f : ℕ)
      → Reachable
          (record { blocks = heap_begin ∷ []; total_requested_bytes = r; total_free_bytes = f })
  allocate : (h : Heap) (size : ℕ) → Reachable h → Reachable (kmalloc size h).1
  release : (h h' : Heap) (p : ℕ) → Reachable h → kfree p h ≡ freed h' → Reachable h'

-- The state after a call that finds a block, and after one that does not.
after : ℕ → List Block → Heap → Heap
after size bs h = record h {
  blocks = bs;
  total_requested_bytes = add64 h.total_requested_bytes size;
}

kmalloc-some :
    (size : ℕ) (h : Heap) (p : ℕ) (bs : List Block)
    → alloc_in (round8 size) h.blocks ≡ some (p, bs)
    → kmalloc size h ≡ (some p, after size bs h)
unfolding kmalloc after
kmalloc-some size h p bs e = rw (e, kmalloc)

kmalloc-none :
    (size : ℕ) (h : Heap)
    → alloc_in (round8 size) h.blocks ≡ none
    → kmalloc size h ≡ (none, after size h.blocks h)
unfolding kmalloc after
kmalloc-none size h e = rw (e, kmalloc)

kmalloc-IsSound : (size : ℕ) (h : Heap) → IsSound h → IsSound (kmalloc size h).1
unfolding after
kmalloc-IsSound size h s = elim (Option-cases (alloc_in (round8 size) h.blocks)) [
  | inl n ↦ rw (kmalloc-none size h n) s
  | inr ((p, bs), q) ↦
      rw (kmalloc-some size h p bs q)
        (Carved-IsHeap (round8 size) kmalloc_begin_va kmalloc_end_va
          (alloc_in-Carved (round8 size) h.blocks p bs q) (omega arith) (omega arith) s).0
]

kfree-IsSound : (p : ℕ) (h h' : Heap) → IsSound h → kfree p h ≡ freed h' → IsSound h'
unfolding kfree
kfree-IsSound p h h' s q = elim (Option-cases (free_in (p - mblock_size) h.blocks)) [
  | inl n ↦ absurd (ground arith)
  | inr (bs, f) ↦
      let same : h'.blocks ≡ bs = ground arith in
      rw same (
        free_in-IsHeap (p - mblock_size) kmalloc_begin_va kmalloc_end_va h.blocks bs (omega arith) s
          f)
]

-- Whatever calls were made since `kmalloc_init`, as long as none of them went outside the list,
-- the headers tile the heap with sound pointers and sizes that are multiples of 8, and free
-- neighbours have been joined.
pub Reachable-IsSound : {h : Heap} → Reachable h → IsSound h
Reachable-IsSound (initial r f) = record {
  tiles = (refl, refl, refl, refl);
  coalesced = (refl, tt);
}
Reachable-IsSound (allocate h size r) = kmalloc-IsSound size h (Reachable-IsSound r)
Reachable-IsSound (release h h' p r q) = kfree-IsSound p h h' (Reachable-IsSound r) q

-- What `kmalloc` promises: the block that is returned is new to the blocks in use, which are
-- otherwise the same, and is large enough; NULL is returned only if no free block is.
abbrev pub Allocated : ℕ → Heap → Option ℕ × Heap → Type 0
Allocated n h (none, h') =
    (h'.blocks ≡ h.blocks) × All (λ b. (b.free && leb n b.size) ≡ false) h.blocks
Allocated n h (some p, h') =
    (xs ys : List (ℕ × ℕ)) × (k : ℕ) × (in_use h.blocks ≡ xs ++ ys)
    × (in_use h'.blocks ≡ xs ++ (p, k) ∷ ys)
    × (n ≤ k)

in_use-take_block :
    (size : ℕ) (b : Block) (bs : List Block)
    → size ≤ b.size
    → (k : ℕ) × (in_use (take_block size b bs) ≡ (b.ptr, k) ∷ in_use bs) × (size ≤ k)
unfolding take_block in_use
in_use-take_block size b bs le = elim (Bool-cases (ltb (b.size - size) (mblock_size + 8))) [
  | inl x ↦ (size + (b.size - size), rw x refl, omega arith)
  | inr x ↦ (size, rw x refl, omega arith)
]

Carved-in_use :
    (size : ℕ) {bs : List Block} {p : ℕ} {bs' : List Block}
    → Carved size bs p bs'
    → (xs ys : List (ℕ × ℕ)) × (k : ℕ) × (in_use bs ≡ xs ++ ys)
      × (in_use bs' ≡ xs ++ (p, k) ∷ ys)
      × (size ≤ k)
unfolding in_use
Carved-in_use size {p} (here b bs f le q r) =
    let (k, e, ge) = in_use-take_block size b bs le in
    ([], in_use bs, k, rw f refl, rw (r, e, q), ge)
Carved-in_use size {p} (there b {bs} {bs1} x c r) =
    let (xs, ys, k, e, e', ge) = Carved-in_use size c in
    elim (Bool-cases b.free) [
      | inl f ↦ (xs, ys, k, rw f e, rw (r, f) e', ge)
      | inr f ↦ ((b.ptr, b.size) ∷ xs, ys, k, rw (f, e), rw (r, f, e'), ge)
    ]

alloc_in-none :
    (size : ℕ) (bs : List Block)
    → alloc_in size bs ≡ none
    → All (λ b. (b.free && leb size b.size) ≡ false) bs
unfolding alloc_in
alloc_in-none size [] q = tt
alloc_in-none size (b ∷ bs) q = elim (Bool-cases (b.free && leb size b.size)) [
  | inl x ↦ absurd (ground arith)
  | inr x ↦ elim (Option-cases (alloc_in size bs)) [
    | inl n ↦ (x, alloc_in-none size bs n)
    | inr (found, e) ↦ absurd (ground arith)
  ]
]

-- For a size that does not overflow the rounding: `kmalloc` returns a block that is large enough
-- and was not in use, and leaves every block that was in use alone; it returns NULL only if no
-- free block is large enough, and then changes no block.
pub kmalloc-Allocated :
    (size : ℕ) (h : Heap)
    → size + 7 < 2 ^ 64
    → (size ≤ round8 size) × Allocated (round8 size) h (kmalloc size h)
unfolding after
kmalloc-Allocated size h small = (
  omega arith,
  elim (Option-cases (alloc_in (round8 size) h.blocks)) [
    | inl n ↦ rw (kmalloc-none size h n) (refl, alloc_in-none (round8 size) h.blocks n)
    | inr ((p, bs), q) ↦
        rw (kmalloc-some size h p bs q)
          (Carved-in_use (round8 size) (alloc_in-Carved (round8 size) h.blocks p bs q))
  ],
)

kfree-Carved :
    (size p : ℕ) (h : Heap) (bs : List Block)
    → Carved size bs p h.blocks
    → IsHeap kmalloc_begin_va kmalloc_end_va bs
    → (h' : Heap) × (kfree p h ≡ freed h') × (h'.blocks ≡ bs)
unfolding kfree
kfree-Carved size p h bs c s =
    let range = Carved-le size kmalloc_begin_va kmalloc_end_va c s.tiles in
    let inside : (ltb p (kmalloc_begin_va + mblock_size) || ltb kmalloc_end_va p) ≡ false =
      ground arith in
    let (b, found, sound) =
      find_header-Carved size kmalloc_begin_va kmalloc_end_va c (omega arith) s in
    let back = free_in-Carved size kmalloc_begin_va kmalloc_end_va c (omega arith) s in
    (
      record h { blocks = bs; total_free_bytes = add64 h.total_free_bytes b.size },
      rw (inside, found, sound, back),
      refl,
    )

-- On a sound heap, `kfree` of the pointer that `kmalloc` has just returned ends normally and gives
-- back the very list of blocks from before the allocation.
pub kfree-kmalloc :
    (size p : ℕ) (h : Heap)
    → IsSound h
    → (kmalloc size h).0 ≡ some p
    → (h' : Heap) × (kfree p (kmalloc size h).1 ≡ freed h') × (h'.blocks ≡ h.blocks)
unfolding after
kfree-kmalloc size p h s q = elim (Option-cases (alloc_in (round8 size) h.blocks)) [
  | inl n ↦ absurd (cc (ap (λ x. x.0) (kmalloc-none size h n)))
  | inr ((p1, bs), e) ↦
      let c = alloc_in-Carved (round8 size) h.blocks p1 bs e in
      let same : p ≡ p1 = cc (ap (λ x. x.0) (kmalloc-some size h p1 bs e)) in
      rw (same, kmalloc-some size h p1 bs e)
        (kfree-Carved (round8 size) p1 (after size bs h) h.blocks c s)
]

-- A request of 2^64 - 7 bytes or more overflows the rounding and is served as one of 0 bytes.
kmalloc-overflow :
    (size : ℕ) (h : Heap)
    → size < 2 ^ 64
    → 2 ^ 64 ≤ size + 7
    → ((kmalloc size h).0 ≡ (kmalloc 0 h).0) × ((kmalloc size h).1.blocks ≡ (kmalloc 0 h).1.blocks)
unfolding after
kmalloc-overflow size h lt ge =
    let wraps : round8 size ≡ round8 0 = omega arith in
    elim (Option-cases (alloc_in (round8 0) h.blocks)) [
      | inl n ↦ rw (kmalloc-none 0 h n, kmalloc-none size h (rw wraps n)) (refl, refl)
      | inr ((p, bs), e) ↦
          rw (kmalloc-some 0 h p bs e, kmalloc-some size h p bs (rw wraps e)) (refl, refl)
    ]
