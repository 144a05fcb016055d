-- ===== src/Kern/Load/Create.antt =====
-- `env_init`, `load_icode` and `env_create` of kern/env.c.
use mos_riscv.Prelude.{
  ℕ, zero, suc, ◌+◌, ◌-◌, ◌*◌, ◌/◌, ◌%◌, ◌^◌, Bool, ◌&&◌, Option, none, some, [], ◌∷◌, ◌==◌, leb,
  if◌then◌else◌, update,
}
use mos_riscv.Prelude.Run.{Cmd, pure, panic, undefined, modify, ◌>>=◌, ◌>>◌}
use mos_riscv.Kern.Error.{Ret, e_no_mem}
use mos_riscv.Kern.Mmu.{page_size, page2ppn, ppn2page, upages, uenvs}
use mos_riscv.Kern.Pmap.Mem.{Mem, page_alloc, incref}
use mos_riscv.Kern.Pmap.Map.{page_insert}
use mos_riscv.Kern.Env.State.{env_free, env_runnable, Kernel, nenv, set_env, on_mem}
use mos_riscv.Kern.Env.Table.{boot_frame, copy_entries, env_alloc}
use mos_riscv.Kern.Load.Segment.{Chunk, Phdr, elf_load_seg}

-- The bytes of a program, and their number.
pub record Binary : Type 0 where
  pub byte : ℕ → ℕ
  pub size : ℕ

-- A number of `n` bytes at an offset, lowest byte first.
unfoldable pub little : ℕ → ℕ → Binary → ℕ
little zero at bin = 0
little (suc n) at bin = bin.byte at + 256 * little n (at + 1) bin

-- `elf_from`: the magic number, and an executable file.
unfoldable pub is_elf : Binary → Bool
is_elf bin =
    leb 64 bin.size
    && (bin.byte 0 == 0x7f)
    && (bin.byte 1 == 0x45)
    && (bin.byte 2 == 0x4c)
    && (bin.byte 3 == 0x46)
    && (little 2 16 bin == 2)

abbrev pub e_entry : Binary → ℕ
e_entry bin = little 8 24 bin

abbrev pub e_phoff : Binary → ℕ
e_phoff bin = little 8 32 bin

abbrev pub e_phentsize : Binary → ℕ
e_phentsize bin = little 2 54 bin

abbrev pub e_phnum : Binary → ℕ
e_phnum bin = little 2 56 bin

unfoldable pub phdr_at : ℕ → Binary → Phdr
phdr_at at bin = record {
  p_type = little 4 at bin;
  p_flags = little 4 (at + 4) bin;
  p_offset = little 8 (at + 8) bin;
  p_vaddr = little 8 (at + 16) bin;
  p_filesz = little 8 (at + 32) bin;
  p_memsz = little 8 (at + 40) bin;
}

-- Byte `i` of a frame of 64-bit words.
unfoldable pub set_byte : ℕ → ℕ → ℕ → Mem → Mem
set_byte f i c m =
    let w = m.word f (i / 8) in
    let unit = 256 ^ (i % 8) in
    record m {
      word = update m.word f (update (m.word f) (i / 8) (w - w / unit % 256 * unit + c * unit));
    }

-- `memcpy` of `n` bytes of the binary into a frame.
unfoldable pub copy_in : ℕ → ℕ → ℕ → ℕ → Binary → Mem → Mem
copy_in zero f i at bin m = m
copy_in (suc n) f i at bin m = copy_in n f (i + 1) (at + 1) bin (set_byte f i (bin.byte at) m)

unfoldable pub copy_src : ℕ → Chunk → Option ℕ → Binary → Mem → Mem
copy_src f c none bin m = m
copy_src f c (some at) bin m = copy_in c.len f c.offset at bin m

-- The page of a chunk is filled and mapped.
unfoldable pub map_chunk : ℕ → Binary → Chunk → Option ℕ → Cmd Kernel Ret
map_chunk e bin c none = pure (some e_no_mem)
map_chunk e bin c (some p) = do
  on_mem (modify (copy_src (page2ppn p) c c.src bin))
  λ k. on_mem (page_insert (k.envs e).env_pgdir (k.envs e).env_asid p c.va c.perm) k

unfoldable pub load_icode_mapper : ℕ → Binary → Chunk → Cmd Kernel Ret
load_icode_mapper e bin c = do p ← on_mem page_alloc; map_chunk e bin c p

unfoldable pub panic_on_ret : Ret → Cmd Kernel (Unit {0})
panic_on_ret none = pure tt
panic_on_ret (some err) = panic

unfoldable pub load_phdr : ℕ → Binary → Phdr → Cmd Kernel (Unit {0})
load_phdr e bin ph =
    if ph.p_type == 1
    then (do r ← elf_load_seg (load_icode_mapper e bin) ph; panic_on_ret r)
    else pure tt

-- The program headers that are left, from offset `at` on.
unfoldable pub load_phdrs : ℕ → ℕ → Binary → ℕ → Cmd Kernel (Unit {0})
load_phdrs zero e bin at = pure tt
load_phdrs (suc left) e bin at = do
  load_phdr e bin (phdr_at at bin)
  load_phdrs left e bin (at + e_phentsize bin)

unfoldable pub set_entry : ℕ → ℕ → Kernel → Kernel
set_entry e entry k =
    set_env e (record (k.envs e) { env_tf = record ((k.envs e).env_tf) { sepc = entry } }) k

unfoldable pub load_icode : ℕ → Binary → Cmd Kernel (Unit {0})
load_icode e bin =
    if is_elf bin
    then (do load_phdrs (e_phnum bin) e bin (e_phoff bin); modify (set_entry e (e_entry bin)))
    else panic

unfoldable pub set_priority : ℕ → ℕ → Kernel → Kernel
set_priority e priority k =
    set_env e (record (k.envs e) { env_pri = priority; env_status = env_runnable }) k

unfoldable pub create_in : Binary → ℕ → Ret × Option ℕ → Cmd Kernel (Option ℕ)
create_in bin priority (some err, _) = pure none
create_in bin priority (none, none) = undefined
create_in bin priority (none, some e) = do
  modify (set_priority e priority)
  load_icode e bin
  modify (λ k. record k { env_sched_list = e ∷ k.env_sched_list })
  pure (some e)

-- `none` is NULL.
unfoldable pub env_create : Binary → ℕ → Cmd Kernel (Option ℕ)
env_create bin priority = do r ← env_alloc 0; create_in bin priority r

-- The rounds of `map_segment` that are left, from `i` on. The result of `page_insert` is ignored.
unfoldable pub segment_pages : ℕ → ℕ → ℕ → ℕ → ℕ → ℕ → ℕ → Cmd Mem (Unit {0})
segment_pages zero pgdir asid pa va perm i = pure tt
segment_pages (suc left) pgdir asid pa va perm i =
    let rest = segment_pages left pgdir asid pa va perm (i + page_size) in
    elim (ppn2page ((pa + i) / page_size)) [
      | none ↦ panic
      | some pp ↦ (do page_insert pgdir asid pp (va + i) perm; rest)
    ]

unfoldable pub map_segment : ℕ → ℕ → ℕ → ℕ → ℕ → ℕ → Cmd Mem (Unit {0})
map_segment pgdir asid pa va size perm =
    if (pa % page_size == 0) && (va % page_size == 0) && (size % page_size == 0)
    then segment_pages (size / page_size) pgdir asid pa va perm 0
    else panic

-- The environments from `idx` down, each put in front of the list.
unfoldable pub free_envs : ℕ → Kernel → Kernel
free_envs zero k = k
free_envs (suc idx) k =
    free_envs idx (record (set_env idx (record (k.envs idx) { env_status = env_free }) k) {
      env_free_list = idx ∷ k.env_free_list;
    })

unfoldable pub empty_lists : Kernel → Kernel
empty_lists k = record k { env_free_list = []; env_sched_list = [] }

-- The directory that every process starts from. `pages` and `envs` are at the physical addresses `pages_pa` and
-- `envs_pa`, and take `pages_size` and `envs_size` bytes of whole pages. `PTE_USER | PTE_RO | PTE_GLOBAL`
unfoldable pub init_pgdir : ℕ → ℕ → ℕ → ℕ → Option ℕ → Cmd Kernel (Unit {0})
init_pgdir pages_pa pages_size envs_pa envs_size none = panic
init_pgdir pages_pa pages_size envs_pa envs_size (some p) = do
  on_mem (modify (incref p))
  modify (λ k. record k {
    base_pgdir = page2ppn p;
    mem = copy_entries (page2ppn p) boot_frame 256 32 k.mem;
  })
  on_mem (map_segment (page2ppn p) 0 pages_pa upages pages_size 0x32)
  on_mem (map_segment (page2ppn p) 0 envs_pa uenvs envs_size 0x32)

unfoldable pub env_init : ℕ → ℕ → ℕ → ℕ → Cmd Kernel (Unit {0})
env_init pages_pa pages_size envs_pa envs_size = do
  modify (λ k. free_envs nenv (empty_lists k))
  p ← on_mem page_alloc
  init_pgdir pages_pa pages_size envs_pa envs_size p
