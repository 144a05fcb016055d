-- ===== src/Kern/Syscall/Memory.antt =====
-- System calls on address spaces.
use mos_riscv.Prelude.{
  ℕ, ◌*◌, ◌/◌, ◌%◌, ◌^◌, Bool, true, false, ◌||◌, none, some, ◌==◌, if◌then◌else◌, bit_or,
}
use mos_riscv.Prelude.Run.{Cmd, done, pure, ◌>>=◌, ◌>>◌}
use mos_riscv.Kern.Error.{Error, Ret, success, e_inval, e_bad_env, e_no_mem}
use mos_riscv.Kern.Pmap.Mem.{load, page_alloc}
use mos_riscv.Kern.Pmap.Walk.{va2pa}
use mos_riscv.Kern.Pmap.Map.{page_insert, page_lookup, page_remove}
use mos_riscv.Kern.Env.State.{Kernel, Leave, back, on_mem}
use mos_riscv.Kern.Syscall.Guard.{is_illegal_va, on_env, need_cur}

-- `perm &= GENMASK(9, 0)`, `perm & ~PTE_V` and `perm | PTE_USER`
unfoldable pub user_perm : ℕ → ℕ
user_perm perm = bit_or (perm % 2 ^ 10 / 2 * 2) 0x10

-- Any failure of `envid2env` is passed on as `-E_BAD_ENV`.
abbrev pub bad_env : Error → Ret
bad_env _ = some e_bad_env

unfoldable pub sys_mem_alloc : ℕ → ℕ → ℕ → Cmd Kernel (Leave Ret)
sys_mem_alloc envid va perm =
    if is_illegal_va va
    then pure (back (some e_inval))
    else on_env bad_env envid true (λ e. do
      p ← on_mem page_alloc
      elim p [
        | none ↦ pure (back (some e_no_mem))
        | some pp ↦ λ k.
            (do
              r ←
                  on_mem
                    (page_insert (k.envs e).env_pgdir (k.envs e).env_asid pp va (user_perm perm))
              pure (back r))
              k
      ])

unfoldable pub map_found : ℕ → ℕ → ℕ → ℕ → Cmd Kernel (Leave Ret)
map_found dst pp dstva perm k =
    (do
      r ←
          on_mem
            (page_insert (k.envs dst).env_pgdir (k.envs dst).env_asid pp dstva (user_perm perm))
      pure (back r))
      k

unfoldable pub sys_mem_map : ℕ → ℕ → ℕ → ℕ → ℕ → Cmd Kernel (Leave Ret)
sys_mem_map srcid srcva dstid dstva perm =
    if is_illegal_va srcva || is_illegal_va dstva
    then pure (back (some e_inval))
    else on_env bad_env srcid true (λ src. on_env bad_env dstid true (λ dst k.
      (do
        found ← on_mem (page_lookup (k.envs src).env_pgdir srcva)
        elim found [
          | none ↦ pure (back (some e_inval))
          | some (pp, _) ↦ map_found dst pp dstva perm
        ])
        k))

unfoldable pub sys_mem_unmap : ℕ → ℕ → Cmd Kernel (Leave Ret)
sys_mem_unmap envid va =
    if is_illegal_va va
    then pure (back (some e_inval))
    else on_env bad_env envid true (λ e k.
      (do on_mem (page_remove (k.envs e).env_pgdir (k.envs e).env_asid va); pure (back success)) k)

-- `~0` stands for no mapping, and is returned as 0.
unfoldable pub sys_get_physical_address : ℕ → Cmd Kernel ℕ
sys_get_physical_address va =
    need_cur
      (λ c k. elim (va2pa k.mem (k.envs c).env_pgdir va) [ none ↦ done 0 k | some pa ↦ done pa k ])

-- `(*pte & PTE_DIRTY) != 0`
unfoldable pub sys_is_dirty : ℕ → Cmd Kernel Bool
sys_is_dirty va = need_cur (λ c k.
    (do
      found ← on_mem (page_lookup (k.envs c).env_pgdir va)
      elim found [
        | none ↦ pure false
        | some (_, e) ↦ λ k'. done (load k'.mem e / 2 ^ 7 % 2 == 1) k'
      ])
      k)

unfoldable pub sys_pageref : ℕ → Cmd Kernel ℕ
sys_pageref va = need_cur (λ c k.
    (do
      found ← on_mem (page_lookup (k.envs c).env_pgdir va)
      elim found [ none ↦ pure 0 | some (pp, _) ↦ λ k'. done (k'.mem.ref pp) k' ])
      k)
