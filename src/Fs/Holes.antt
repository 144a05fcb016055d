-- ===== src/Fs/Holes.antt =====
-- Files with holes: blocks below the size of a file of fs/fs.c that were never allocated.
use mos_riscv.Prelude.{
  ℕ, zero, suc, ◌+◌, ◌-◌, ◌<◌, ◌≤◌, ◌≡◌, ◌≢◌, ◌||◌, refl, true, false, ◌==◌, ltb, leb, Bool-cases,
  inl, inr, arith,
}
use mathlib.Core.Path.{subst}
use mos_riscv.Kern.Error.{e_not_found}
use mos_riscv.Fs.Server.{
  Server, s_nblocks, Ends, Ends-and_then, modify, Io, Cmd, done, failed, stopped, catch, and_then,
  load, store, ndirect, nindirect,
}
use mos_riscv.Fs.Block.{free_block, set_free, bitmap_cell}
use mos_riscv.Fs.Bitmap.{nblocks-set_free, free_block_lem}
use mos_riscv.Fs.File.{
  File, f_size, f_indirect, f_direct, blocks_of, file_block_walk, indirect_block, file_clear_block,
  clear_cell, clear_blocks, file_truncate,
}

-- A block behind the direct ones cannot be cleared in a file that has no indirect block.
clear_hole :
    (f : File) (bno : ℕ) (s : Server)
    → 10 ≤ bno
    → bno < 1024
    → load s (f_indirect f) ≡ 0
    → file_clear_block f bno s ≡ failed e_not_found s
unfolding file_clear_block file_block_walk indirect_block
clear_hole f bno s ge lt z =
    let a : ltb bno ndirect ≡ false = ground arith in
    let b : ltb bno nindirect ≡ true = ground arith in rw (a, b, z) refl

-- A descriptor without an indirect block, outside the bitmap, with the super block and the bitmap read.
pub record IsSparse (f : File) (s : Server) : Type 0 where
  pub super_set : s.super ≡ true
  pub bitmap_set : s.bitmap ≡ true
  pub no_indirect : load s (f_indirect f) ≡ 0
  pub apart : (b : ℕ) → b < s_nblocks s → (bitmap_cell b).block ≢ f.block

set_free-IsSparse :
    (f : File) (b : ℕ) (s : Server) → b < s_nblocks s → IsSparse f s → IsSparse f (set_free b s)
set_free-IsSparse f b s lt h = record {
  super_set = unfold set_free store in h.super_set;
  bitmap_set = unfold set_free store in h.bitmap_set;
  no_indirect =
      unfold set_free store load in
      let ne : (bitmap_cell b).block ≢ f.block = h.apart b lt in
      let z : s.word f.block (f.index + 44) ≡ 0 = h.no_indirect in ground arith;
  apart = λ j less. h.apart j (subst (λ n. j < n) (nblocks-set_free b s) less);
}

nblocks-store_direct :
    (f : File) (i v : ℕ) (s : Server) → s_nblocks (store (f_direct f i) v s) ≡ s_nblocks s
unfolding s_nblocks store
nblocks-store_direct f i v s = ground arith

store_direct-IsSparse :
    (f : File) (i v : ℕ) (s : Server)
    → i < 10
    → IsSparse f s
    → IsSparse f (store (f_direct f i) v s)
store_direct-IsSparse f i v s lt h = record {
  super_set = unfold store in h.super_set;
  bitmap_set = unfold store in h.bitmap_set;
  no_indirect =
      unfold store load in
      let z : s.word f.block (f.index + 44) ≡ 0 = h.no_indirect in ground arith;
  apart = λ j less. h.apart j (subst (λ n. j < n) (nblocks-store_direct f i v s) less);
}

free_block-skips :
    (v : ℕ) (s : Server)
    → s.super ≡ true
    → ((v == 0) || leb (s_nblocks s) v) ≡ true
    → free_block v s ≡ done tt s
unfolding free_block
free_block-skips v s up h = ground arith

free_block-IsSparse :
    (f : File) (v : ℕ) (s : Server)
    → IsSparse f s
    → Ends (λ _ s'. IsSparse f s') (λ _ _. ⊥) (free_block v s)
free_block-IsSparse f v s h = elim (Bool-cases ((v == 0) || leb (s_nblocks s) v)) [
  | inl t ↦ rw (free_block-skips v s h.super_set t) h
  | inr t ↦
      rw (free_block_lem v s h.super_set h.bitmap_set (ground arith) (ground arith))
        (set_free-IsSparse f v s (ground arith) h)
]

-- Clearing a direct block succeeds.
clear_direct :
    (f : File) (i : ℕ) (s : Server)
    → i < 10
    → IsSparse f s
    → Ends (λ _ s'. IsSparse f s') (λ _ _. ⊥) (file_clear_block f i s)
unfolding file_clear_block file_block_walk clear_cell
clear_direct f i s lt h =
    let a : ltb i ndirect ≡ true = ground arith in
    rw a (elim (Bool-cases (load s (f_direct f i) == 0)) [
      | inl z ↦ rw z h
      | inr nz ↦ rw nz (
          Ends-and_then (λ _ s'. IsSparse f s') (λ _ s'. IsSparse f s') (λ _ _. ⊥)
            (free_block (load s (f_direct f i)) s) (λ _. modify (store (f_direct f i) 0))
            (free_block-IsSparse f (load s (f_direct f i)) s h)
            (λ _ s' h'. store_direct-IsSparse f i 0 s' lt h'))
    ])

round_stopped :
    (f : File) (r : Io (Unit {0})) (k : Cmd (Unit {0}))
    → Ends (λ _ s'. IsSparse f s') (λ _ _. ⊥) r
    → ((s' : Server) → IsSparse f s' → k s' ≡ stopped)
    → and_then (catch r (λ _ s'. done tt s') (λ _ _. stopped)) (λ _. k) ≡ stopped
round_stopped f (done a s) k p next = next s p
round_stopped f (failed e s) k p next = absurd p
round_stopped f stopped k p next = refl

-- The loop stops at the first block behind the direct ones.
clear_blocks-stopped :
    (left : ℕ) (f : File) (bno : ℕ) (s : Server)
    → bno ≤ 10
    → 10 < bno + left
    → IsSparse f s
    → clear_blocks left f bno s ≡ stopped
unfolding clear_blocks
clear_blocks-stopped zero f bno s le gt h = absurd (omega arith)
clear_blocks-stopped (suc left) f bno s le gt h = elim (Bool-cases (bno == 10)) [
  | inl e ↦ rw (clear_hole f bno s (ground arith) (ground arith) h.no_indirect) refl
  | inr e ↦
      round_stopped f (file_clear_block f bno s) (clear_blocks left f (bno + 1))
        (clear_direct f bno s (ground arith) h)
        (λ s' h'. clear_blocks-stopped left f (bno + 1) s' (ground arith) (omega arith) h')
]

-- Truncating a file to at most 10 blocks stops the server if the file is larger but has no indirect
-- block, as after `file_set_size` has made it grow.
pub file_truncate-hole :
    (f : File) (newsize : ℕ) (s : Server)
    → IsSparse f s
    → blocks_of newsize ≤ 10
    → 10 < blocks_of (load s (f_size f))
    → file_truncate f newsize s ≡ stopped
unfolding file_truncate
file_truncate-hole f newsize s h small large =
    rw
      (clear_blocks-stopped (blocks_of (load s (f_size f)) - blocks_of newsize) f
        (blocks_of newsize) s small (omega arith) h)
      refl
