-- ===== src/Kern/Env/Maps.antt =====
-- Mappings in every address space: `kmap` and `kunmap` of kern/pmap.c.
use mos_riscv.Prelude.{ℕ, zero, suc, ◌+◌, if◌then◌else◌}
use mos_riscv.Prelude.Run.{Cmd, done, pure, ◌>>◌}
use mos_riscv.Kern.Pmap.Mem.{Mem}
use mos_riscv.Kern.Pmap.Range.{map_mem, unmap_mem}
use mos_riscv.Kern.Env.State.{Kernel, is_free, nenv, on_mem}
use mos_riscv.Kern.Env.Table.{boot_frame}

-- One round: the operation on the tables of environment `i`, unless that is free.
unfoldable pub map_env : (ℕ → Cmd Mem (Unit {0})) → ℕ → Cmd Kernel (Unit {0})
map_env op i k =
    if is_free (k.envs i).env_status then done tt k else on_mem (op (k.envs i).env_pgdir) k

-- The rounds that are left, from `i` on.
unfoldable pub map_envs : (ℕ → Cmd Mem (Unit {0})) → ℕ → ℕ → Cmd Kernel (Unit {0})
map_envs op zero i = pure tt
map_envs op (suc left) i = do map_env op i; map_envs op left (i + 1)

unfoldable pub kmap : ℕ → ℕ → ℕ → ℕ → Cmd Kernel (Unit {0})
kmap va pa len perm = do
  on_mem (map_mem boot_frame va pa len perm)
  map_envs (λ pgdir. map_mem pgdir va pa len perm) nenv 0

unfoldable pub kunmap : ℕ → ℕ → Cmd Kernel (Unit {0})
kunmap va len = do
  on_mem (unmap_mem boot_frame va len)
  map_envs (λ pgdir. unmap_mem pgdir va len) nenv 0
