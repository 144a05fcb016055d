-- ===== src/Kern/Userspace.antt =====
-- Access to the memory of processes: kern/userspace.c. What `memcpy` moves through the page tables in use is
-- the work of the machine: the caller gives it as the command that runs while the access is open.
pub mod Safe
use mos_riscv.Prelude.{
  ℕ, zero, suc, ◌+◌, ◌*◌, ◌/◌, ◌%◌, ◌^◌, Bool, true, false, not, ◌&&◌, ◌||◌, Option, none, some,
  ◌==◌, ltb, leb, if◌then◌else◌, bit_or,
}
use mos_riscv.Prelude.Run.{Cmd, done, pure, panic, modify, ◌>>=◌, ◌>>◌}
use mos_riscv.Kern.Mmu.{page_size, ulim, uvpt, ustacktop, p1x, pte_ppn, is_valid, ppn2page}
use mos_riscv.Kern.Pmap.Mem.{Mem, Entry, entry, load, tlb_log, flush_all}
use mos_riscv.Kern.Pmap.Map.{page_lookup, page_insert, page_remove}
use mos_riscv.Kern.Fault.Alloc.{passive_alloc}
use mos_riscv.Kern.Env.State.{Kernel, on_mem}

-- What follows the two lookups: the entries that were found in an address space.
unfoldable pub reach : ℕ → ℕ → ℕ → Option (ℕ × Entry) → Option (ℕ × Entry) → Cmd Mem (Unit {0})
reach dst pgdir asid none to = panic
reach dst pgdir asid (some _) (some _) = pure tt
reach dst pgdir asid (some _) none = if leb ulim dst then panic else passive_alloc dst pgdir asid

-- The lookups and what they lead to, in the address space of `pgdir`.
unfoldable pub prepare : ℕ → ℕ → ℕ → ℕ → Cmd Mem (Unit {0})
prepare src dst pgdir asid = do
  from ← page_lookup pgdir src
  to ← page_lookup pgdir dst
  reach dst pgdir asid from to

unfoldable pub copy_for : {A : Type 0} → ℕ → ℕ → Cmd Kernel A → Option ℕ → Cmd Kernel A
copy_for src dst memcpy none = panic
copy_for src dst memcpy (some c) =
    λ k. (do on_mem (prepare src dst (k.envs c).env_pgdir (k.envs c).env_asid); memcpy) k

unfoldable pub copy_user_space : {A : Type 0} → ℕ → ℕ → Cmd Kernel A → Cmd Kernel A
copy_user_space src dst memcpy k = copy_for src dst memcpy k.curenv k

-- `set_page_table`: the register that it sets is the machine's, and `memcpy` runs with it.
unfoldable pub set_page_table : Kernel → Kernel
set_page_table k = record k { mem = tlb_log flush_all k.mem }

unfoldable pub copy_user_space_to_env : {A : Type 0} → ℕ → ℕ → ℕ → Cmd Kernel A → Cmd Kernel A
copy_user_space_to_env e src dst memcpy = do
  modify set_page_table
  λ k. on_mem (prepare src dst (k.envs e).env_pgdir (k.envs e).env_asid) k
  a ← memcpy
  modify set_page_table
  pure a

-- The addresses at which a process sees its directory, its second-level tables and its third-level tables.
abbrev pub uvpt_p2_begin_va : ℕ
uvpt_p2_begin_va = uvpt + uvpt / 2 ^ 9

abbrev pub uvpt_p1_begin_va : ℕ
uvpt_p1_begin_va = uvpt + uvpt / 2 ^ 9 + uvpt / 2 ^ 18

-- `page_insert` of the page at a frame with `PTE_RO | PTE_USER`; its result is ignored.
unfoldable pub show_page : ℕ → ℕ → ℕ → ℕ → Cmd Mem (Unit {0})
show_page pgdir asid ppn va = elim (ppn2page ppn) [
  | none ↦ panic
  | some pp ↦ (do page_insert pgdir asid pp va 0x12; pure tt)
]

-- The rounds of the first loop that are left.
unfoldable pub show_second : ℕ → ℕ → ℕ → ℕ → Cmd Mem (Unit {0})
show_second zero pgdir asid i = pure tt
show_second (suc left) pgdir asid i =
    let rest = show_second left pgdir asid (i + 1) in
    let va = uvpt_p2_begin_va + i * page_size in
    λ m.
      let e1 = load m (entry pgdir i) in
      if is_valid e1 && not (va == uvpt_p1_begin_va)
      then (do show_page pgdir asid (pte_ppn e1) va; rest) m
      else rest m

-- The entries of the second-level table in frame `t2` that are left; `i` is its index.
unfoldable pub show_entries : ℕ → ℕ → ℕ → ℕ → ℕ → ℕ → Cmd Mem (Unit {0})
show_entries zero pgdir asid t2 i j = pure tt
show_entries (suc left) pgdir asid t2 i j =
    let rest = show_entries left pgdir asid t2 i (j + 1) in
    let va = (i * 512 + j) * page_size + uvpt in
    λ m.
      let e2 = load m (entry t2 j) in
      if is_valid e2 && not (leb uvpt_p2_begin_va va && ltb va (uvpt_p2_begin_va + 2 * 1024 * 1024))
      then (do show_page pgdir asid (pte_ppn e2) va; rest) m
      else rest m

-- The rounds of the second loop that are left.
unfoldable pub show_third : ℕ → ℕ → ℕ → ℕ → Cmd Mem (Unit {0})
show_third zero pgdir asid i = pure tt
show_third (suc left) pgdir asid i =
    let rest = show_third left pgdir asid (i + 1) in
    λ m.
      let e1 = load m (entry pgdir i) in
      if is_valid e1 then (do show_entries 512 pgdir asid (pte_ppn e1) i 0; rest) m else rest m

unfoldable pub map_vpt : ℕ → ℕ → Cmd Mem (Unit {0})
map_vpt pgdir asid = do
  show_page pgdir asid pgdir uvpt_p1_begin_va
  show_second (p1x ustacktop + 1) pgdir asid 0
  show_third (p1x ustacktop + 1) pgdir asid 0

unfoldable pub map_user_vpt : ℕ → Cmd Kernel (Unit {0})
map_user_vpt e k = on_mem (map_vpt (k.envs e).env_pgdir (k.envs e).env_asid) k

-- The entries of a third-level table that are left; `vpn` is the number without its last part.
unfoldable pub hide_third : ℕ → ℕ → ℕ → ℕ → ℕ → ℕ → Cmd Mem (Unit {0})
hide_third zero pgdir asid t3 vpn j = pure tt
hide_third (suc left) pgdir asid t3 vpn j =
    let rest = hide_third left pgdir asid t3 vpn (j + 1) in
    λ m.
      if is_valid (load m (entry t3 j))
      then (do page_remove pgdir asid (bit_or vpn j * 2 ^ 12); rest) m
      else rest m

-- The entries of the second-level table that are left.
unfoldable pub hide_second : ℕ → ℕ → ℕ → ℕ → ℕ → Cmd Mem (Unit {0})
hide_second zero pgdir asid t2 j = pure tt
hide_second (suc left) pgdir asid t2 j =
    let rest = hide_second left pgdir asid t2 (j + 1) in
    λ m.
      let e2 = load m (entry t2 j) in
      if is_valid e2
      then (do
        hide_third 512 pgdir asid (pte_ppn e2) (bit_or (p1x uvpt * 2 ^ 18) (j * 2 ^ 9)) 0
        rest)
          m
      else rest m

unfoldable pub unmap_vpt : ℕ → ℕ → Cmd Mem (Unit {0})
unmap_vpt pgdir asid m = hide_second 512 pgdir asid (pte_ppn (load m (entry pgdir (p1x uvpt)))) 0 m

unfoldable pub unmap_user_vpt : ℕ → Cmd Kernel (Unit {0})
unmap_user_vpt e k = on_mem (unmap_vpt (k.envs e).env_pgdir (k.envs e).env_asid) k
