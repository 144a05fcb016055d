-- ===== src/Fs/Block.antt =====
-- Blocks: the cache, the bitmap of free blocks, and their allocation.
use mos_riscv.Prelude.{
  ℕ, zero, suc, ◌+◌, ◌-◌, ◌/◌, ◌%◌, ◌^◌, Bool, true, false, not, ◌&&◌, ◌||◌, ◌==◌, ltb, leb,
  if◌then◌else◌, update, bit_and, bit_or,
}
use mos_riscv.Kern.Error.{e_no_mem, e_not_found, e_no_disk}
use mos_riscv.Fs.Server.{
  Server, Cmd, done, failed, stopped, pure, fail, modify, catch, ◌>>=◌, ◌>>◌, Cell, cell, load,
  store, s_nblocks, fs_magic,
}

unfoldable pub block_is_mapped : ℕ → Server → Bool
block_is_mapped b s = s.mapped b

-- `syscall_is_dirty` is 0 for a page that is not mapped.
unfoldable pub block_is_dirty : ℕ → Server → Bool
block_is_dirty b s = s.mapped b && s.dirty b

unfoldable pub dirty_block : ℕ → Cmd (Unit {0})
dirty_block b s =
    if not (block_is_mapped b s)
    then fail e_not_found s
    else if block_is_dirty b s
    then done tt s
    else done tt (record s { dirty = update s.dirty b true })

unfoldable pub write_block : ℕ → Cmd (Unit {0})
write_block b s =
    if block_is_mapped b s
    then done tt (record s { disk = update s.disk b (s.word b) })
    else stopped

-- `syscall_mem_alloc` at the address of a block: a clean page of zeros, or -E_NO_MEM.
unfoldable pub mem_alloc : ℕ → Cmd (Unit {0})
mem_alloc b s =
    if s.grants s.asked
    then done tt (record s {
      mapped = update s.mapped b true;
      dirty = update s.dirty b false;
      word = update s.word b (λ _. 0);
      asked = s.asked + 1;
    })
    else failed e_no_mem (record s { asked = s.asked + 1 })

-- `bitmap[blockno / 32]`
unfoldable pub bitmap_cell : ℕ → Cell
bitmap_cell b = cell (2 + b / 32 / 1024) (b / 32 % 1024)

-- The test `bitmap[blockno / 32] & (1 << (blockno % 32))`
unfoldable pub bitmap_bit : ℕ → Server → Bool
bitmap_bit b s = not (bit_and (load s (bitmap_cell b)) (2 ^ (b % 32)) == 0)

unfoldable pub block_is_free : ℕ → Server → Bool
block_is_free b s = if not s.super || leb (s_nblocks s) b then false else bitmap_bit b s

-- `sector_read` copies into the page, which makes it dirty.
unfoldable pub sector_read : ℕ → Server → Server
sector_read b s = record s { word = update s.word b (s.disk b); dirty = update s.dirty b true }

-- The result says whether the block is new in the cache.
unfoldable pub read_block : ℕ → Cmd Bool
read_block b s =
    if s.super && leb (s_nblocks s) b
    then stopped
    else if s.bitmap && block_is_free b s
    then stopped
    else if block_is_mapped b s
    then done false s
    else (do mem_alloc b; modify (sector_read b); pure true) s

unfoldable pub map_block : ℕ → Cmd (Unit {0})
map_block b s = if block_is_mapped b s then done tt s else mem_alloc b s

unfoldable pub unmap_block : ℕ → Cmd (Unit {0})
unmap_block b s =
    (do
      λ s'. if not (block_is_free b s') && block_is_dirty b s' then write_block b s' else done tt s'
      modify
          (λ s'. record s' { mapped = update s'.mapped b false; dirty = update s'.dirty b false }))
      s

unfoldable pub set_free : ℕ → Server → Server
set_free b s = store (bitmap_cell b) (bit_or (load s (bitmap_cell b)) (2 ^ (b % 32))) s

unfoldable pub free_block : ℕ → Cmd (Unit {0})
free_block b s =
    if not s.super
    then stopped
    else if (b == 0) || leb (s_nblocks s) b
    then done tt s
    else if s.bitmap
    then done tt (set_free b s)
    else stopped

unfoldable pub set_used : ℕ → Server → Server
set_used b s =
    store (bitmap_cell b) (bit_and (load s (bitmap_cell b)) (2 ^ 32 - 1 - 2 ^ (b % 32))) s

-- The loop of `alloc_block_num` from `b` on, with the rounds that are left.
unfoldable pub alloc_from : ℕ → ℕ → Cmd ℕ
alloc_from zero b = fail e_no_disk
alloc_from (suc left) b =
    let rest = alloc_from left (b + 1) in
    λ s.
      if bitmap_bit b s
      then (do modify (set_used b); write_block (b / 32768 + 2); pure b) s
      else rest s

unfoldable pub alloc_block_num : Cmd ℕ
alloc_block_num s = if s.super && s.bitmap then alloc_from (s_nblocks s - 3) 3 s else stopped

unfoldable pub alloc_block : Cmd ℕ
alloc_block = do
  bno ← alloc_block_num
  λ s. catch (map_block bno s) (λ _. pure bno) (λ e. do free_block bno; fail e)

unfoldable pub read_super : Cmd (Unit {0})
read_super = do
  read_block 1
  modify (λ s. record s { super = true })
  λ s. if not (s.word 1 0 == fs_magic) || ltb 0x40000 (s_nblocks s) then stopped else done tt s

-- The rounds of the first loop of `read_bitmap`, which ignores what `read_block` returns.
unfoldable pub read_bitmap_blocks : ℕ → ℕ → Cmd (Unit {0})
read_bitmap_blocks zero i = pure tt
read_bitmap_blocks (suc left) i = do
  λ s. catch (read_block (i + 2) s) (λ _. pure tt) (λ _. pure tt)
  read_bitmap_blocks left (i + 1)

-- The assertions of `read_bitmap` on the first `n` blocks.
unfoldable pub all_used : ℕ → Server → Bool
all_used zero s = true
all_used (suc n) s = not (block_is_free n s) && all_used n s

unfoldable pub read_bitmap : Cmd (Unit {0})
read_bitmap s =
    let nbitmap = s_nblocks s / 32768 + 1 in
    (do
      read_bitmap_blocks nbitmap 0
      modify (λ s'. record s' { bitmap = true })
      λ s'. if all_used (nbitmap + 2) s' then done tt s' else stopped)
      s

-- The loop of `fs_sync`.
unfoldable pub sync_from : ℕ → ℕ → Cmd (Unit {0})
sync_from zero b = pure tt
sync_from (suc left) b = do
  λ s. if block_is_dirty b s then write_block b s else done tt s
  sync_from left (b + 1)

unfoldable pub fs_sync : Cmd (Unit {0})
fs_sync s = sync_from (s_nblocks s) 0 s
