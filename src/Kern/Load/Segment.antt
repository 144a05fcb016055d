-- ===== src/Kern/Load/Segment.antt =====
-- `elf_load_seg` of lib/elfloader.c, for any way to map a page. The binary is a function from the offset of a
-- byte, and a pointer into it is an offset.
use mos_riscv.Prelude.{
  ℕ, zero, suc, ◌+◌, ◌-◌, ◌*◌, ◌/◌, ◌%◌, ◌^◌, Option, none, some, ◌==◌, if◌then◌else◌, min,
}
use mos_riscv.Prelude.Run.{Cmd, pure, ◌>>=◌}
use mos_riscv.Kern.Error.{Ret, success}
use mos_riscv.Kern.Mmu.{page_size}

-- The arguments of one call of `map_page`: `src` is NULL for a page that stays empty.
pub record Chunk : Type 0 where
  pub va : ℕ
  pub offset : ℕ
  pub perm : ℕ
  pub src : Option ℕ
  pub len : ℕ

-- The fields of `Elf64_Phdr` that the loader reads.
pub record Phdr : Type 0 where
  pub p_type : ℕ
  pub p_flags : ℕ
  pub p_offset : ℕ
  pub p_vaddr : ℕ
  pub p_filesz : ℕ
  pub p_memsz : ℕ

-- `PTE_V | PTE_R | PTE_USER`, with `PTE_W` for `PF_W` and `PTE_X` for `PF_X`
unfoldable pub segment_perm : ℕ → ℕ
segment_perm flags =
    0x13 + (if flags / 2 % 2 == 1 then 4 else 0) + (if flags % 2 == 1 then 8 else 0)

-- The rounds of a loop that goes from `i` to `end` by pages.
abbrev pub page_rounds : ℕ → ℕ → ℕ
page_rounds i end = (end - i + 4095) / page_size

module _ {S : Type 0} (map_page : Chunk → Cmd S Ret) where
  -- An error ends the call.
  unfoldable pub go_on_with : Cmd S Ret → Ret → Cmd S Ret
  go_on_with rest (some err) = pure (some err)
  go_on_with rest none = rest

  -- The rounds of the first loop that are left, from `i` on; `bin` is where the segment begins.
  unfoldable pub load_pages : ℕ → Phdr → ℕ → Cmd S Ret → Cmd S Ret
  load_pages zero ph i next = next
  load_pages (suc left) ph i next =
      let rest = load_pages left ph (i + page_size) next in
      map_page (record {
        va = (ph.p_vaddr + i) % 2 ^ 64;
        offset = 0;
        perm = segment_perm ph.p_flags;
        src = some (ph.p_offset + i);
        len = min (ph.p_filesz - i) page_size;
      })
      >>= go_on_with rest

  -- Those of the second loop.
  unfoldable pub clear_pages : ℕ → Phdr → ℕ → Cmd S Ret
  clear_pages zero ph i = pure success
  clear_pages (suc left) ph i =
      let rest = clear_pages left ph (i + page_size) in
      map_page (record {
        va = (ph.p_vaddr + i) % 2 ^ 64;
        offset = 0;
        perm = segment_perm ph.p_flags;
        src = none;
        len = min (ph.p_memsz - i) page_size;
      })
      >>= go_on_with rest

  -- Both loops, from `i` on.
  unfoldable pub load_from : Phdr → ℕ → Cmd S Ret
  load_from ph i =
      let n = page_rounds i ph.p_filesz in
      let j = i + n * page_size in load_pages n ph i (clear_pages (page_rounds j ph.p_memsz) ph j)

  unfoldable pub elf_load_seg : Phdr → Cmd S Ret
  elf_load_seg ph =
      let offset = ph.p_vaddr % page_size in
      if offset == 0
      then load_from ph 0
      else map_page (record {
        va = ph.p_vaddr;
        offset = offset;
        perm = segment_perm ph.p_flags;
        src = some ph.p_offset;
        len = min ph.p_filesz (page_size - offset);
      })
        >>= go_on_with (load_from ph (page_size - offset))
