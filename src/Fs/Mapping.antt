-- ===== src/Fs/Mapping.antt =====
-- `file_map_block` of fs/fs.c: what it allocates it finds again.
use mos_riscv.Prelude.{
  ℕ, zero, suc, ◌+◌, ◌-◌, ◌/◌, ◌<◌, ◌≤◌, ◌≡◌, ◌≢◌, ◌&&◌, refl, sym, ◌∙◌, true, false, ◌==◌, ltb,
  Bool-cases, inl, inr, arith,
}
use mathlib.Core.Path.{subst, ap}
use mos_riscv.Kern.Error.{Error}
use mos_riscv.Fs.Server.{
  Server, Io, done, failed, stopped, Holds, Holds-and_then, Cell, load, store, ndirect, catch,
  and_then, s_nblocks,
}
use mos_riscv.Fs.Block.{
  alloc_from, alloc_block_num, alloc_block, map_block, free_block, write_block, bitmap_bit,
  set_used,
}
use mos_riscv.Fs.File.{File, f_direct, file_block_walk, map_cell, file_map_block}

write_pure :
    (b a n : ℕ) (r : Io (Unit {0})) → n ≤ a → Holds (λ c _. n ≤ c) (and_then r (λ _ s'. done a s'))
write_pure b a n (done x s) h = h
write_pure b a n (failed e s) h = tt
write_pure b a n stopped h = tt

alloc_from-le : (left b n : ℕ) (s : Server) → n ≤ b → Holds (λ a _. n ≤ a) (alloc_from left b s)
unfolding alloc_from
alloc_from-le zero b n s h = tt
alloc_from-le (suc left) b n s h = elim (Bool-cases (bitmap_bit b s)) [
  | inl f ↦ rw f (write_pure b b n (write_block (b / 32768 + 2) (set_used b s)) h)
  | inr f ↦ rw f (alloc_from-le left (b + 1) n s (omega arith))
]

fails :
    (a : ℕ) (e : Error) (r : Io (Unit {0}))
    → Holds (λ c _. 3 ≤ c) (and_then {B = ℕ} r (λ _ s2. failed e s2))
fails a e (done x s) = tt
fails a e (failed e' s) = tt
fails a e stopped = tt

map_or_free :
    (a : ℕ) (r : Io (Unit {0}))
    → 3 ≤ a
    → Holds
        (λ c _. 3 ≤ c)
        (catch r (λ _ s'. done a s') (λ e s'. and_then (free_block a s') (λ _ s2. failed e s2)))
map_or_free a (done x s) h = h
map_or_free a (failed e s) h = fails a e (free_block a s)
map_or_free a stopped h = tt

alloc_block_num-le : (s : Server) → Holds (λ a _. 3 ≤ a) (alloc_block_num s)
unfolding alloc_block_num
alloc_block_num-le s = elim (Bool-cases (s.super && s.bitmap)) [
  | inl h ↦ rw h (alloc_from-le (s_nblocks s - 3) 3 3 s (omega arith))
  | inr h ↦ rw h tt
]

-- A block that is allocated is none of the reserved ones.
alloc_block-le : (s : Server) → Holds (λ a _. 3 ≤ a) (alloc_block s)
unfolding alloc_block
alloc_block-le s =
    Holds-and_then (λ a _. 3 ≤ a) (λ a _. 3 ≤ a) (alloc_block_num s) _ (alloc_block_num-le s)
      (λ a s' h. map_or_free a (map_block a s') h)

load-store : (c : Cell) (v : ℕ) (s : Server) → load (store c v s) c ≡ v
unfolding load store
load-store c v s = ground arith

-- The pointer is set, and a lookup finds it and changes nothing.
abbrev pub IsMapped : File → ℕ → ℕ → Server → Type 0
IsMapped f n b s = (b ≢ 0) × (file_map_block f n false s ≡ done b s)

found_again :
    (f : File) (n : ℕ) (s : Server)
    → n < 10
    → load s (f_direct f n) ≢ 0
    → file_map_block f n false s ≡ done (load s (f_direct f n)) s
unfolding file_map_block file_block_walk map_cell
found_again f n s lt nz =
    let d : ltb n ndirect ≡ true = ground arith in
    let z : (load s (f_direct f n) == 0) ≡ false = ground arith in rw (d, z) refl

stored :
    (f : File) (n a : ℕ) (s : Server) → n < 10 → a ≢ 0 → IsMapped f n a (store (f_direct f n) a s)
stored f n a s lt nz =
    let e : load (store (f_direct f n) a s) (f_direct f n) ≡ a = load-store (f_direct f n) a s in
    (
      nz,
      found_again f n (store (f_direct f n) a s) lt (subst (λ x. x ≢ 0) (sym e) nz)
          ∙ ap (λ (x : ℕ). done x (store (f_direct f n) a s)) e,
    )

map_cell-IsMapped :
    (f : File) (n : ℕ) (s : Server) → n < 10 → Holds (IsMapped f n) (map_cell true (f_direct f n) s)
unfolding map_cell
map_cell-IsMapped f n s lt = elim (Bool-cases (load s (f_direct f n) == 0)) [
  | inl z ↦ rw z (
      Holds-and_then (λ a _. 3 ≤ a) (IsMapped f n) (alloc_block s) _ (alloc_block-le s)
        (λ a s' h. stored f n a s' lt (omega arith)))
  | inr nz ↦
      let some_block : load s (f_direct f n) ≢ 0 = ground arith in
      rw nz (some_block, found_again f n s lt some_block)
]

-- For a direct block of a file: the block that `file_map_block` returns, allocated if need be, is not
-- 0, and a call without `alloc` afterwards returns the same and changes nothing.
pub file_map_block-IsMapped :
    (f : File) (n : ℕ) (s : Server) → n < 10 → Holds (IsMapped f n) (file_map_block f n true s)
unfolding file_map_block file_block_walk
file_map_block-IsMapped f n s lt =
    let d : ltb n ndirect ≡ true = ground arith in rw d (map_cell-IsMapped f n s lt)
