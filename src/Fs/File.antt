-- ===== src/Fs/File.antt =====
-- Files: their descriptors, and the blocks that they are made of.
use mos_riscv.Prelude.{
  ℕ, zero, suc, ◌+◌, ◌-◌, ◌*◌, ◌/◌, ◌%◌, ◌^◌, Bool, true, false, Option, none, some, ◌==◌, ltb, leb,
  if◌then◌else◌,
}
use mos_riscv.Kern.Error.{e_not_found, e_inval}
use mos_riscv.Fs.Server.{
  Server, Cmd, done, failed, pure, fail, modify, catch, panic_on, ◌>>=◌, ◌>>◌, Cell, cell, load,
  store, ndirect, nindirect, block_size, diskmap,
}
use mos_riscv.Fs.Block.{
  read_block, alloc_block, free_block, write_block, dirty_block, block_is_dirty,
}

-- A `struct File *`: a cached block, and the index of the descriptor's first word in it.
pub record File : Type 0 where
  pub block : ℕ
  pub index : ℕ

-- The fields of `struct File` behind the 128 bytes of its name.
abbrev pub f_size : File → Cell
f_size f = cell f.block (f.index + 32)

abbrev pub f_type : File → Cell
f_type f = cell f.block (f.index + 33)

abbrev pub f_direct : File → ℕ → Cell
f_direct f i = cell f.block (f.index + 34 + i)

abbrev pub f_indirect : File → Cell
f_indirect f = cell f.block (f.index + 44)

-- `f_dir` is a pointer of two words.
abbrev pub address : File → ℕ
address f = diskmap + f.block * block_size + f.index * 4

unfoldable pub f_dir : File → Server → Option File
f_dir f s =
    let p = load s (cell f.block (f.index + 45)) + load s (cell f.block (f.index + 46)) * 2 ^ 32 in
    if p == 0
    then none
    else some
        (record { block = (p - diskmap) / block_size; index = (p - diskmap) % block_size / 4 })

unfoldable pub set_f_dir : File → File → Server → Server
set_f_dir f dir s =
    store (cell f.block (f.index + 46)) (address dir / 2 ^ 32)
      (store (cell f.block (f.index + 45)) (address dir % 2 ^ 32) s)

-- The block of indirect pointers, which is made if `alloc` is set.
unfoldable pub indirect_block : File → Bool → Cmd (Unit {0})
indirect_block f alloc s =
    if load s (f_indirect f) == 0
    then if alloc
      then (do r ← alloc_block; modify (store (f_indirect f) r)) s
      else failed e_not_found s
    else done tt s

unfoldable pub file_block_walk : File → ℕ → Bool → Cmd Cell
file_block_walk f filebno alloc =
    if ltb filebno ndirect
    then pure (f_direct f filebno)
    else if ltb filebno nindirect
    then (do
      indirect_block f alloc
      λ s. (do read_block (load s (f_indirect f)); pure (cell (load s (f_indirect f)) filebno)) s)
    else fail e_inval

-- What `file_map_block` does with the pointer found.
unfoldable pub map_cell : Bool → Cell → Cmd ℕ
map_cell alloc ptr s =
    if load s ptr == 0
    then if alloc
      then (do r ← alloc_block; modify (store ptr r); pure r) s
      else failed e_not_found s
    else done (load s ptr) s

unfoldable pub file_map_block : File → ℕ → Bool → Cmd ℕ
file_map_block f filebno alloc = do ptr ← file_block_walk f filebno alloc; map_cell alloc ptr

unfoldable pub clear_cell : Cell → Cmd (Unit {0})
clear_cell ptr s =
    if load s ptr == 0 then done tt s else (do free_block (load s ptr); modify (store ptr 0)) s

unfoldable pub file_clear_block : File → ℕ → Cmd (Unit {0})
file_clear_block f filebno = do ptr ← file_block_walk f filebno false; clear_cell ptr

-- The block is in the cache afterwards.
unfoldable pub file_get_block : File → ℕ → Cmd ℕ
file_get_block f filebno = do
  diskbno ← file_map_block f filebno true
  read_block diskbno
  pure diskbno

unfoldable pub file_dirty : File → ℕ → Cmd (Unit {0})
file_dirty f offset = do diskbno ← file_map_block f (offset / block_size) false; dirty_block diskbno

-- `ROUND(size, BLOCK_SIZE) / BLOCK_SIZE`
abbrev pub blocks_of : ℕ → ℕ
blocks_of size = (size + 4095) / 4096

-- The loop of `file_truncate`, with the rounds that are left.
unfoldable pub clear_blocks : ℕ → File → ℕ → Cmd (Unit {0})
clear_blocks zero f bno = pure tt
clear_blocks (suc left) f bno = do panic_on (file_clear_block f bno); clear_blocks left f (bno + 1)

unfoldable pub free_indirect : File → Cmd (Unit {0})
free_indirect f s =
    if load s (f_indirect f) == 0
    then done tt s
    else (do free_block (load s (f_indirect f)); modify (store (f_indirect f) 0)) s

unfoldable pub file_truncate : File → ℕ → Cmd (Unit {0})
file_truncate f newsize s =
    let old_nblocks = blocks_of (load s (f_size f)) in
    let new_nblocks = blocks_of newsize in
    (do
      clear_blocks (old_nblocks - new_nblocks) f new_nblocks
      if leb new_nblocks ndirect then free_indirect f else pure tt
      modify (store (f_size f) newsize))
      s

unfoldable pub flush_block : ℕ → Cmd (Unit {0})
flush_block diskbno s = if block_is_dirty diskbno s then write_block diskbno s else done tt s

-- The loop of `file_flush`: a block that is not mapped is skipped.
unfoldable pub flush_blocks : ℕ → File → ℕ → Cmd (Unit {0})
flush_blocks zero f bno = pure tt
flush_blocks (suc left) f bno = do
  λ s. catch (file_map_block f bno false s) flush_block (λ _. pure tt)
  flush_blocks left f (bno + 1)

unfoldable pub file_flush : File → Cmd (Unit {0})
file_flush f s = flush_blocks (blocks_of (load s (f_size f))) f 0 s

-- The directory of a file is written, if the file has one.
unfoldable pub flush_dir : Option File → Cmd (Unit {0})
flush_dir none = pure tt
flush_dir (some dir) = file_flush dir

unfoldable pub file_set_size : File → ℕ → Cmd (Unit {0})
file_set_size f newsize = do
  λ s. if ltb newsize (load s (f_size f)) then file_truncate f newsize s else done tt s
  modify (store (f_size f) newsize)
  λ s. flush_dir (f_dir f s) s
