-- ===== src/Fs/Dir.antt =====
-- Directories: names, lookup, and room for a new file.
use mos_riscv.Prelude.{
  ℕ, zero, suc, ◌+◌, ◌-◌, ◌*◌, ◌/◌, ◌%◌, ◌^◌, Bool, not, ◌&&◌, Option, none, some, List, [], ◌∷◌,
  ◌==◌, if◌then◌else◌,
}
use mos_riscv.Kern.Error.{e_not_found}
use mos_riscv.Fs.Server.{
  Server, Cmd, done, pure, fail, modify, ◌>>=◌, ◌>>◌, cell, load, store, block_size,
}
use mos_riscv.Fs.File.{File, f_size, set_f_dir, file_get_block}

-- The byte of a name, in the words of the descriptor, lowest byte first.
unfoldable pub name_byte : File → ℕ → Server → ℕ
name_byte f i s = load s (cell f.block (f.index + i / 4)) / 256 ^ (i % 4) % 256

unfoldable pub set_name_byte : File → ℕ → ℕ → Server → Server
set_name_byte f i c s =
    let w = load s (cell f.block (f.index + i / 4)) in
    store (cell f.block (f.index + i / 4)) (w - name_byte f i s * 256 ^ (i % 4) + c * 256 ^ (i % 4))
      s

-- `strcmp(f->f_name + i, name) == 0` for a name of bytes that are not 0.
unfoldable pub name_is : File → ℕ → List ℕ → Server → Bool
name_is f i [] s = name_byte f i s == 0
name_is f i (c ∷ cs) s = (name_byte f i s == c) && name_is f (i + 1) cs s

-- `strcpy(f->f_name + i, name)`
unfoldable pub set_name : File → ℕ → List ℕ → Server → Server
set_name f i [] s = set_name_byte f i 0 s
set_name f i (c ∷ cs) s = set_name f (i + 1) cs (set_name_byte f i c s)

-- `(struct File *)blk + j`, of FILE2BLK = 16 descriptors
abbrev pub slot : ℕ → ℕ → File
slot blk j = record { block = blk; index = j * 64 }

-- `f->f_name[0] != '\0' && strcmp(f->f_name, name) == 0`
unfoldable pub is_named : List ℕ → Server → File → Bool
is_named name s f = not (name_byte f 0 s == 0) && name_is f 0 name s

-- `f->f_name[0] == '\0'`
unfoldable pub is_unnamed : Server → File → Bool
is_unnamed s f = name_byte f 0 s == 0

-- The first descriptor of a block from `j` on that passes a test.
unfoldable pub find_slot : (File → Bool) → ℕ → ℕ → ℕ → Option File
find_slot test zero blk j = none
find_slot test (suc left) blk j =
    let rest = find_slot test left blk (j + 1) in
    if test (slot blk j) then some (slot blk j) else rest

-- The blocks of a directory from `i` on, with the rounds that are left.
unfoldable pub find_in_dir : (Server → File → Bool) → ℕ → File → ℕ → Cmd (Option File)
find_in_dir test zero dir i = pure none
find_in_dir test (suc left) dir i =
    let rest = find_in_dir test left dir (i + 1) in
    (do
      blk ← file_get_block dir i
      λ s. elim (find_slot (test s) 16 blk 0) [ none ↦ rest s | some f ↦ done (some f) s ])

-- `dir->f_size / BLOCK_SIZE`
unfoldable pub dir_blocks : File → Server → ℕ
dir_blocks dir s = load s (f_size dir) / block_size

unfoldable pub enter_found : File → Option File → Cmd File
enter_found dir none = fail e_not_found
enter_found dir (some f) = do modify (set_f_dir f dir); pure f

unfoldable pub dir_lookup : File → List ℕ → Cmd File
dir_lookup dir name s =
    (do found ← find_in_dir (is_named name) (dir_blocks dir s) dir 0; enter_found dir found) s

-- No descriptor is unused: the directory grows by a block, `i`.
unfoldable pub grow_dir : File → ℕ → Option File → Cmd File
grow_dir dir i (some f) = pure f
grow_dir dir i none = do
  modify (λ s. store (f_size dir) ((load s (f_size dir) + block_size) % 2 ^ 32) s)
  blk ← file_get_block dir i
  pure (slot blk 0)

unfoldable pub dir_alloc_file : File → Cmd File
dir_alloc_file dir s =
    (do
      found ← find_in_dir is_unnamed (dir_blocks dir s) dir 0
      grow_dir dir (dir_blocks dir s) found)
      s
