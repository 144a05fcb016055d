-- ===== src/Tests/Files.antt =====
-- The file system server on a small disk: the root directory holds the file `a`, which has grown to
-- 16 blocks without any.
use mos_riscv.Prelude.{
  ℕ, ap, ◌∙◌, ◌<◌, ◌==◌, if◌then◌else◌, ◌≡◌, refl, true, false, none, List, [], ◌∷◌, arith,
}
use mos_riscv.Fs.Server.{Server, done, stopped, Ends, Holds, s_nblocks, load}
use mos_riscv.Fs.Block.{
  read_block, bitmap_bit, block_is_mapped, block_is_free, alloc_block_num, bitmap_cell,
}
use mos_riscv.Fs.File.{
  File, file_get_block, file_block_walk, map_cell, file_truncate, file_map_block, f_size, blocks_of,
}
use mos_riscv.Fs.Path.{walk_path, s_root}
use mos_riscv.Fs.Dir.{dir_blocks, dir_lookup}
use mos_riscv.Fs.Bitmap.{Taken, IsFull, alloc_block_num-Ends}
use mos_riscv.Fs.Names.{components, walk_names, walk_path-walk_names}
use mos_riscv.Fs.Holes.{IsSparse, file_truncate-hole}
use mos_riscv.Fs.Lookup.{IsCached, IsEntry, IsMissing, dir_lookup-IsEntry}
use mos_riscv.Fs.Mapping.{IsMapped, file_map_block-IsMapped}
use mos_riscv.Fs.Serve.{Serving, serve_request, fsreq_open}
use mos_riscv.Fs.Answers.{IsAnswered, serve_request-IsAnswered}

-- The words of the super block with the descriptor of the root, of the bitmap, and of the block of the
-- root directory.
abbrev words : ℕ → ℕ → ℕ
words b i =
    if b == 1
    then (if i == 1
        then 1024
        else if i == 34
        then 4096
        else if i == 35
        then 1
        else if i == 36
        then 5
        else 0)
    else if b == 2
    then (if i == 0 then 0xffffffd8 else 0xffffffff)
    else if b == 5
    then (if i == 0 then 0x61 else if i == 32 then 65536 else 0)
    else 0

abbrev server : Server
server = record {
  super = true;
  bitmap = true;
  mapped = λ _. true;
  dirty = λ _. false;
  word = words;
  disk = words;
  grants = λ _. true;
  asked = 0;
}

abbrev file_a : File
file_a = record { block = 5; index = 0 }

abbrev name_a : List ℕ
name_a = 0x61 ∷ []

blocks : s_nblocks server ≡ 1024
unfolding s_nblocks
blocks = refl

alloc_block_num-Ends_example :
    Ends
      (Taken 3 (s_nblocks server) server)
      (IsFull 3 (s_nblocks server) server)
      (alloc_block_num server)
alloc_block_num-Ends_example = alloc_block_num-Ends server refl refl (λ j h. refl)

walk_path-walk_names_example :
    walk_path (0x2f ∷ 0x2f ∷ 0x61 ∷ 0x2f ∷ []) server
    ≡ walk_names (components (0x2f ∷ 0x2f ∷ 0x61 ∷ 0x2f ∷ [])) none s_root server
walk_path-walk_names_example = walk_path-walk_names (0x2f ∷ 0x2f ∷ 0x61 ∷ 0x2f ∷ []) server

file_a-IsSparse : IsSparse file_a server
file_a-IsSparse = record {
  super_set = refl;
  bitmap_set = refl;
  no_indirect = unfold load in refl;
  apart = λ b h. unfold bitmap_cell in ground (arith, blocks);
}

file_a-large : 10 < blocks_of (load server (f_size file_a))
file_a-large = unfold load in ground arith

file_truncate-hole_example : file_truncate file_a 0 server ≡ stopped
file_truncate-hole_example =
    file_truncate-hole file_a 0 server file_a-IsSparse (omega arith) file_a-large

-- The only block of the root directory is block 5.
first_block : file_get_block s_root 0 server ≡ done 5 server
unfolding file_get_block file_map_block file_block_walk map_cell read_block load s_nblocks
    block_is_mapped block_is_free bitmap_bit bitmap_cell
first_block = refl

root_blocks : dir_blocks s_root server ≡ 1
unfolding dir_blocks load
root_blocks = refl

root-IsCached : IsCached s_root (λ _. 5) (dir_blocks s_root server) server
root-IsCached i lt =
    let e : i ≡ 0 = omega (arith, root_blocks) in
    ap (λ (x : ℕ). file_get_block s_root x server) e ∙ first_block

dir_lookup-IsEntry_example :
    Ends
      (IsEntry s_root (λ _. 5) (dir_blocks s_root server) name_a)
      (IsMissing (λ _. 5) (dir_blocks s_root server) name_a server)
      (dir_lookup s_root name_a server)
dir_lookup-IsEntry_example =
    dir_lookup-IsEntry s_root (λ _. 5) name_a server (ground arith) (omega arith) root-IsCached

file_map_block-IsMapped_example : Holds (IsMapped file_a 3) (file_map_block file_a 3 true server)
file_map_block-IsMapped_example = file_map_block-IsMapped file_a 3 server (omega arith)

-- No file is open, and a client opens `/a`.
abbrev serving : Serving
serving = record {
  fs = server;
  opentab = λ i. record { o_file = none; o_fileid = i; o_mode = 0 };
  pageref = λ i. 0;
  o_ff = λ i. record { f_file = λ j. 0; f_fileid = 0; fd_omode = 0; fd_dev_id = 0 };
  sent = [];
}

serve_request-IsAnswered_example :
    IsAnswered 2049 serving.sent (serve_request (fsreq_open (0x2f ∷ name_a) 0) 2049 serving)
serve_request-IsAnswered_example =
    serve_request-IsAnswered (fsreq_open (0x2f ∷ name_a) 0) 2049 serving
