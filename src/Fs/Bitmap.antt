-- ===== src/Fs/Bitmap.antt =====
-- The bitmap of free blocks: what `alloc_block_num` and `free_block` of fs/fs.c do to it.
use mos_riscv.Prelude.{
  ℕ, zero, suc, ◌+◌, ◌-◌, ◌/◌, ◌%◌, ◌^◌, ◌<◌, ◌≤◌, ◌≡◌, refl, sym, ◌∙◌, true, false, not, ◌==◌, leb,
  if◌then◌else◌, update, Bool-cases, inl, inr, arith,
}
use mathlib.Core.Path.{subst}
use native.Mathlib.Decide.{ℕ_discrete}
use mos_riscv.Prelude.Bits.{
  bit, bit-le, bit_and-pow_test, bit-bit_and, bit-pow, bit-complement, pow-lt,
}
use mos_riscv.Kern.Error.{Error, e_no_disk}
use mos_riscv.Fs.Server.{Server, done, Ends, Ends-weaken, load, store, s_nblocks}
use mos_riscv.Fs.Block.{
  bitmap_cell, bitmap_bit, block_is_mapped, write_block, set_free, set_used, free_block, alloc_from,
  alloc_block_num,
}

-- The bit of a block, 1 if the block is free.
mark : ℕ → Server → ℕ
mark b s = bit (load s (bitmap_cell b)) (b % 32)

mark-le : (b : ℕ) (s : Server) → mark b s ≤ 1
unfolding mark
mark-le b s = bit-le (load s (bitmap_cell b)) (b % 32)

bitmap_bit-mark : (b : ℕ) (s : Server) → bitmap_bit b s ≡ not (mark b s == 0)
unfolding bitmap_bit mark
bitmap_bit-mark b s = rw (bit_and-pow_test (load s (bitmap_cell b)) (b % 32)) refl

mark-set_used : (b j : ℕ) (s : Server) → mark j (set_used b s) ≡ (if j == b then 0 else mark j s)
unfolding mark set_used load store bitmap_cell
mark-set_used b j s = ground (
  arith,
  bit-bit_and (s.word (2 + b / 32 / 1024) (b / 32 % 1024)) (2 ^ 32 - 1 - 2 ^ (b % 32)) (j % 32),
  bit-complement 32 (2 ^ (b % 32)) (j % 32) (pow-lt (b % 32) 32 (omega arith)) (omega arith),
  bit-pow (b % 32) (j % 32),
  bit-le (s.word (2 + j / 32 / 1024) (j / 32 % 1024)) (j % 32),
)

bitmap_bit-set_used :
    (b j : ℕ) (s : Server)
    → bitmap_bit j (set_used b s) ≡ (if j == b then false else bitmap_bit j s)
bitmap_bit-set_used b j s =
    rw (bitmap_bit-mark j (set_used b s), bitmap_bit-mark j s, mark-set_used b j s) (ground arith)

-- What a call that allocates among the blocks from `b` up to `n` gives: the first free one, which is
-- taken in the cache and on the disk and no other changes, or -E_NO_DISK if none is free.
pub record Taken (b n : ℕ) (s : Server) (a : ℕ) (s' : Server) : Type 0 where
  pub in_range : (b ≤ a) × (a < n)
  pub was_free : bitmap_bit a s ≡ true
  pub first : (j : ℕ) → b ≤ j → j < a → bitmap_bit j s ≡ false
  pub changed : (j : ℕ) → bitmap_bit j s' ≡ (if j == a then false else bitmap_bit j s)
  pub written : s'.disk (a / 32768 + 2) ≡ s'.word (a / 32768 + 2)

pub record IsFull (b n : ℕ) (s : Server) (e : Error) (s' : Server) : Type 0 where
  pub error : e ≡ e_no_disk
  pub same : s' ≡ s
  pub none_free : (j : ℕ) → b ≤ j → j < n → bitmap_bit j s ≡ false

bitmap_bit-disk :
    (j : ℕ) (s : Server) (d : ℕ → ℕ → ℕ) → bitmap_bit j (record s { disk = d }) ≡ bitmap_bit j s
unfolding bitmap_bit load
bitmap_bit-disk j s d = refl

-- The block is marked and its bitmap block written.
taken_now : ℕ → Server → Server
taken_now b s =
    let s' = set_used b s in
    record s' { disk = update s'.disk (b / 32768 + 2) (s'.word (b / 32768 + 2)) }

write_taken :
    (b : ℕ) (s : Server)
    → s.mapped (b / 32768 + 2) ≡ true
    → write_block (b / 32768 + 2) (set_used b s) ≡ done tt (taken_now b s)
unfolding write_block block_is_mapped set_used store taken_now
write_taken b s h = rw h refl

taken_now-Taken :
    (b n : ℕ) (s : Server) → b < n → bitmap_bit b s ≡ true → Taken b n s b (taken_now b s)
unfolding taken_now
taken_now-Taken b n s lt free = record {
  in_range = (omega arith, lt);
  was_free = free;
  first = λ j ge less. absurd (omega arith);
  changed = λ j. bitmap_bit-disk j (set_used b s) _ ∙ bitmap_bit-set_used b j s;
  written = ground arith;
}

skip-Taken :
    (b n : ℕ) (s : Server)
    → bitmap_bit b s ≡ false
    → (a : ℕ) (s' : Server) → Taken (b + 1) n s a s'
    → Taken b n s a s'
skip-Taken b n s used a s' t = record {
  in_range = (omega arith, t.in_range.1);
  was_free = t.was_free;
  first =
      λ j ge lt. elim (ℕ_discrete j b) [ yes e ↦ rw e used | no ne ↦ t.first j (omega arith) lt ];
  changed = t.changed;
  written = t.written;
}

skip-IsFull :
    (b n : ℕ) (s : Server)
    → bitmap_bit b s ≡ false
    → (e : Error) (s' : Server) → IsFull (b + 1) n s e s'
    → IsFull b n s e s'
skip-IsFull b n s used e s' t = record {
  error = t.error;
  same = t.same;
  none_free = λ j ge lt. elim (ℕ_discrete j b) [
    | yes q ↦ rw q used
    | no ne ↦ t.none_free j (omega arith) lt
  ];
}

alloc_from-Ends :
    (left b n : ℕ) (s : Server)
    → b + left ≡ n
    → ((j : ℕ) → j < n → s.mapped (j / 32768 + 2) ≡ true)
    → Ends (Taken b n s) (IsFull b n s) (alloc_from left b s)
unfolding alloc_from
alloc_from-Ends zero b n s e m = record {
  error = refl;
  same = refl;
  none_free = λ j ge lt. absurd (omega arith);
}
alloc_from-Ends (suc left) b n s e m = elim (Bool-cases (bitmap_bit b s)) [
  | inl free ↦
      rw (free, write_taken b s (m b (omega arith))) (taken_now-Taken b n s (omega arith) free)
  | inr used ↦ rw used (
      Ends-weaken (Taken (b + 1) n s) (Taken b n s) (IsFull (b + 1) n s) (IsFull b n s)
        (alloc_from left (b + 1) s) (alloc_from-Ends left (b + 1) n s (omega arith) m)
        (skip-Taken b n s used) (skip-IsFull b n s used))
]

none_left : (n : ℕ) (s : Server) → n ≤ 3 → Ends (Taken 3 n s) (IsFull 3 n s) (alloc_from zero 3 s)
unfolding alloc_from
none_left n s h = record { error = refl; same = refl; none_free = λ j ge lt. absurd (omega arith) }

alloc_from_reserved :
    (s : Server)
    → ((j : ℕ) → j < s_nblocks s → s.mapped (j / 32768 + 2) ≡ true)
    → Ends (Taken 3 (s_nblocks s) s) (IsFull 3 (s_nblocks s) s) (alloc_from (s_nblocks s - 3) 3 s)
alloc_from_reserved s m = elim (Bool-cases (leb 3 (s_nblocks s))) [
  | inl h ↦ alloc_from-Ends (s_nblocks s - 3) 3 (s_nblocks s) s (ground arith) m
  | inr h ↦
      let z : s_nblocks s - 3 ≡ 0 = ground arith in
      subst (λ l. Ends (Taken 3 (s_nblocks s) s) (IsFull 3 (s_nblocks s) s) (alloc_from l 3 s))
        (sym z) (none_left (s_nblocks s) s (ground arith))
]

alloc_block_num_lem :
    (s : Server)
    → s.super ≡ true
    → s.bitmap ≡ true
    → alloc_block_num s ≡ alloc_from (s_nblocks s - 3) 3 s
unfolding alloc_block_num
alloc_block_num_lem s up map = simp (up, map) refl

-- With the super block and the bitmap in the cache, `alloc_block_num` takes the first free block behind
-- the reserved ones, in the cache and on the disk, and changes the state of no other block; or it
-- reports -E_NO_DISK, changes nothing, and no block behind the reserved ones is free.
pub alloc_block_num-Ends :
    (s : Server)
    → s.super ≡ true
    → s.bitmap ≡ true
    → ((j : ℕ) → j < s_nblocks s → s.mapped (j / 32768 + 2) ≡ true)
    → Ends (Taken 3 (s_nblocks s) s) (IsFull 3 (s_nblocks s) s) (alloc_block_num s)
alloc_block_num-Ends s up map m = rw (alloc_block_num_lem s up map) (alloc_from_reserved s m)

pub nblocks-set_free : (b : ℕ) (s : Server) → s_nblocks (set_free b s) ≡ s_nblocks s
unfolding s_nblocks set_free store load bitmap_cell
nblocks-set_free b s = ground arith

pub free_block_lem :
    (b : ℕ) (s : Server)
    → s.super ≡ true
    → s.bitmap ≡ true
    → 0 < b
    → b < s_nblocks s
    → free_block b s ≡ done tt (set_free b s)
unfolding free_block
free_block_lem b s h map pos lt = ground arith
