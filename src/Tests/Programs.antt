-- ===== src/Tests/Programs.antt =====
-- A segment of a program, and the pages that are made for it.
use mos_riscv.Prelude.{ℕ, ◌+◌, ◌%◌, ◌≡◌, refl, Option, none, some}
use mos_riscv.Prelude.Run.{Run}
use mos_riscv.Kern.Error.{Ret}
use mos_riscv.Kern.Load.Segment.{Phdr, elf_load_seg, load_from, load_pages, clear_pages, go_on_with}
use mos_riscv.Kern.Load.Image.{Image, map_image}

-- A segment that starts 0x123 bytes into a page, with a short part in the file and a page of zeros behind it.
abbrev data_segment : Phdr
data_segment = record {
  p_type = 1;
  p_flags = 6;
  p_offset = 0x1000;
  p_vaddr = 0x410123;
  p_filesz = 300;
  p_memsz = 6000;
}

-- The low byte of the offset, as the contents of the file.
abbrev bytes : ℕ → ℕ
bytes k = k % 256

abbrev nothing : Image
nothing _ = none

abbrev byte_at : ℕ → Run Image Ret → Option ℕ
byte_at a (Run.done _ img) = img a
byte_at a _ = none

loaded : Run Image Ret
loaded = elf_load_seg (map_image bytes) data_segment nothing

last_of_file : byte_at (0x410123 + 299) loaded ≡ some 43
unfolding loaded elf_load_seg load_from load_pages clear_pages go_on_with
last_of_file = refl
