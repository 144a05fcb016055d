-- ===== src/Kern/Kmalloc/Tiling.antt =====
-- The blocks tile the heap, and no two free blocks are neighbours: `kmalloc` and `kfree` keep both.
use mos_riscv.Prelude.{
  ℕ, ◌+◌, ◌-◌, ◌%◌, ◌^◌, ◌≡◌, ◌<◌, ◌≤◌, refl, true, false, Bool, ◌&&◌, some, List, [], ◌∷◌, arith,
  Bool-cases, inl, inr, ltb, leb, Option-cases,
}
use mathlib.Core.Path.{subst}
use mos_riscv.Kern.Kmalloc.Defs.{Block, take_block, alloc_in, mblock_size}

-- The blocks stand one behind the other from `a` up to `e`, each with a sound header and a size
-- that is a multiple of 8.
abbrev pub Tiles : ℕ → ℕ → List Block → Type 0
Tiles a e [] = a ≡ e
Tiles a e (b ∷ bs) =
    (b.addr ≡ a)
    × (b.ptr ≡ a + mblock_size)
    × (b.size % 8 ≡ 0)
    × Tiles (a + mblock_size + b.size) e bs

pub Tiles-le : (a e : ℕ) (bs : List Block) → Tiles a e bs → a ≤ e
Tiles-le a e [] t = omega arith
Tiles-le a e (b ∷ bs) t = omega (arith, Tiles-le (a + mblock_size + b.size) e bs t.3)

-- Whether the first block is free.
abbrev pub starts_free : List Block → Bool
starts_free [] = false
starts_free (b ∷ bs) = b.free

-- No two free blocks are neighbours.
abbrev pub IsCoalesced : List Block → Type 0
IsCoalesced [] = Unit
IsCoalesced (b ∷ bs) = ((b.free && starts_free bs) ≡ false) × IsCoalesced bs

pub Tiles-at : (a a' e : ℕ) (bs : List Block) → Tiles a e bs → a ≡ a' → Tiles a' e bs
Tiles-at a a' e bs t q = subst (λ x. Tiles x e bs) q t

take_block-Tiles :
    (size a e : ℕ) (b : Block) (bs : List Block)
    → e < 2 ^ 64
    → size % 8 ≡ 0
    → size ≤ b.size
    → Tiles a e (b ∷ bs)
    → Tiles a e (take_block size b bs)
unfolding take_block
take_block-Tiles size a e b bs small m le t =
    let top = Tiles-le (a + mblock_size + b.size) e bs t.3 in
    elim (Bool-cases (ltb (b.size - size) (mblock_size + 8))) [
      | inl x ↦
          rw x (t.0, t.1, omega arith, Tiles-at (a + mblock_size + b.size) _ e bs t.3 (omega arith))
      | inr x ↦
          let over : mblock_size + 8 ≤ b.size - size = ground arith in
          rw x (
            t.0,
            t.1,
            m,
            (
              omega arith,
              omega arith,
              omega arith,
              Tiles-at (a + mblock_size + b.size) _ e bs t.3 (omega arith),
            ),
          )
    ]

take_block-IsCoalesced :
    (size : ℕ) (b : Block) (bs : List Block)
    → b.free ≡ true
    → IsCoalesced (b ∷ bs)
    → IsCoalesced (take_block size b bs)
unfolding take_block
take_block-IsCoalesced size b bs f c = ground arith

starts-take_block :
    (size : ℕ) (b : Block) (bs : List Block) → starts_free (take_block size b bs) ≡ false
unfolding take_block
starts-take_block size b bs = ground arith

-- Both together.
pub record IsHeap (a e : ℕ) (bs : List Block) : Type 0 where
  pub tiles : Tiles a e bs
  pub coalesced : IsCoalesced bs

-- The view of a successful search: the first free block that is large enough is taken.
pub data Carved (size : ℕ) : List Block → ℕ → List Block → Type 0 where
  here :
      (b : Block) (bs : List Block) {p : ℕ} {bs' : List Block}
      → b.free ≡ true
      → size ≤ b.size
      → p ≡ b.ptr
      → bs' ≡ take_block size b bs
      → Carved size (b ∷ bs) p bs'
  there :
      (b : Block) {bs bs1 bs' : List Block} {p : ℕ}
      → (b.free && leb size b.size) ≡ false
      → Carved size bs p bs1
      → bs' ≡ b ∷ bs1
      → Carved size (b ∷ bs) p bs'

pub alloc_in-Carved :
    (size : ℕ) (bs : List Block) (p : ℕ) (bs' : List Block)
    → alloc_in size bs ≡ some (p, bs')
    → Carved size bs p bs'
unfolding alloc_in
alloc_in-Carved size [] p bs' q = absurd (ground arith)
alloc_in-Carved size (b ∷ bs) p bs' q = elim (Bool-cases (b.free && leb size b.size)) [
  | inl x ↦ here b bs (ground arith) (ground arith) (ground arith) (ground arith)
  | inr x ↦ elim (Option-cases (alloc_in size bs)) [
    | inl n ↦ absurd (ground arith)
    | inr ((p1, bs1), s) ↦
        there b x (alloc_in-Carved size bs p bs1 (rw s (ground arith))) (ground arith)
  ]
]

and_weaken :
    (x : Bool) {y y' : Bool} → (x && y) ≡ false → (y ≡ false → y' ≡ false) → (x && y') ≡ false
and_weaken true h k = k h
and_weaken false h k = refl

-- A successful search keeps the heap, and starts no free block at its head.
pub Carved-IsHeap :
    (size a e : ℕ) {bs : List Block} {p : ℕ} {bs' : List Block}
    → Carved size bs p bs'
    → e < 2 ^ 64
    → size % 8 ≡ 0
    → IsHeap a e bs
    → IsHeap a e bs' × (starts_free bs ≡ false → starts_free bs' ≡ false)
Carved-IsHeap size a e (here b bs f le q r) small m h = rw r (
  record {
    tiles = take_block-Tiles size a e b bs small m le h.tiles;
    coalesced = take_block-IsCoalesced size b bs f h.coalesced;
  },
  λ _. starts-take_block size b bs,
)
Carved-IsHeap size a e (there b {bs1} x c r) small m h =
    let t = h.tiles in
    let (h1, still) =
      Carved-IsHeap size (a + mblock_size + b.size) e c small m
        (record { tiles = t.3; coalesced = h.coalesced.1 }) in
    rw r (
      record {
        tiles = (t.0, t.1, t.2, h1.tiles);
        coalesced = (and_weaken b.free h.coalesced.0 still, h1.coalesced);
      },
      λ f. f,
    )
