-- ===== src/Kern/Load/Image.antt =====
-- What a segment looks like once `elf_load_seg` of lib/elfloader.c has mapped it.
use mos_riscv.Prelude.{
  ℕ, ◌+◌, ◌-◌, ◌/◌, ◌%◌, ◌^◌, ◌≤◌, ◌<◌, ◌≡◌, Option, none, some, ◌==◌, ltb, leb, ◌&&◌,
  if◌then◌else◌, min,
}
use mos_riscv.Prelude.Run.{Cmd, done}
use mos_riscv.Kern.Error.{Ret, success}
use mos_riscv.Kern.Mmu.{page_size}
use mos_riscv.Kern.Load.Segment.{Chunk, Phdr, segment_perm}

-- The bytes of an address space; `none` where nothing is mapped.
abbrev pub Image : Type 0
Image = ℕ → Option ℕ

-- Byte `j` of the page that is made for a chunk: an empty page, with the bytes of the file copied in.
abbrev pub page_byte : (ℕ → ℕ) → Chunk → ℕ → ℕ
page_byte byte c j = elim c.src [
  | none ↦ 0
  | some at ↦ if leb c.offset j && ltb j (c.offset + c.len) then byte (at + (j - c.offset)) else 0
]

-- The page of a chunk takes the place of what was mapped there.
abbrev pub place : (ℕ → ℕ) → Chunk → Image → Image
place byte c img a =
    if a / page_size == c.va / page_size then some (page_byte byte c (a % page_size)) else img a

-- A way to map pages that always succeeds.
abbrev pub map_image : (ℕ → ℕ) → Chunk → Cmd Image Ret
map_image byte c img = done success (place byte c img)

module _ (byte : ℕ → ℕ) (ph : Phdr) where
  -- Byte `k` of the segment: the file as far as it goes, and zeros behind it.
  abbrev pub segment_byte : ℕ → ℕ
  segment_byte k = if ltb k ph.p_filesz then byte (ph.p_offset + k) else 0

  -- The first `i` bytes of the segment are in place.
  abbrev pub Holds : ℕ → Image → Type 0
  Holds i img = (k : ℕ) → k < i → img (ph.p_vaddr + k) ≡ some (segment_byte k)

  -- What the loops need: the segment fits below 2 ^ 64, and `i` is the start of a page.
  record At (i : ℕ) : Type 0 where
    file_fits : ph.p_vaddr + ph.p_filesz ≤ 2 ^ 64
    memory_fits : ph.p_vaddr + ph.p_memsz ≤ 2 ^ 64
    aligned : (ph.p_vaddr + i) % page_size ≡ 0

  -- A whole page at `i`.
  abbrev page_at : ℕ → Option ℕ → ℕ → Chunk
  page_at i src len = record {
    va = (ph.p_vaddr + i) % 2 ^ 64;
    offset = 0;
    perm = segment_perm ph.p_flags;
    src = src;
    len = len;
  }

  -- All went well, and all bytes of the segment are in place.
  abbrev pub IsLoaded : Ret → Image → Type 0
  IsLoaded r img = (r ≡ success) × Holds ph.p_memsz img

  -- The page in which a segment starts that does not start at a page.
  first_page : Chunk
  first_page = record {
    va = ph.p_vaddr;
    offset = ph.p_vaddr % page_size;
    perm = segment_perm ph.p_flags;
    src = some ph.p_offset;
    len = min ph.p_filesz (page_size - ph.p_vaddr % page_size);
  }
