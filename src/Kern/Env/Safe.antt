-- ===== src/Kern/Env/Safe.antt =====
-- Operations of kern/env.c and kern/pmap.c on the kernel without undefined behaviour.
use mos_riscv.Prelude.{ℕ, zero, suc, ◌+◌}
use mos_riscv.Prelude.Run.{Run, Cmd, done, stopped, wild, Keeps-and_then, Keeps-if, IsSafe}
use mos_riscv.Kern.Pmap.Mem.{Mem}
use mos_riscv.Kern.Pmap.Range.{map_mem, unmap_mem}
use mos_riscv.Kern.Pmap.Safe.{map_mem-IsSafe, unmap_mem-IsSafe}
use mos_riscv.Kern.Env.State.{Kernel, is_free, nenv, on_mem}
use mos_riscv.Kern.Env.Table.{boot_frame}
use mos_riscv.Kern.Env.Maps.{map_env, map_envs, kmap, kunmap}

lifted :
    {A : Type 0} (r : Run Mem A) (k : Kernel)
    → IsSafe r
    → IsSafe (elim r as (λ _. Run Kernel A) [
      | done a m ↦ done a (record k { mem = m })
      | stopped ↦ stopped
      | wild ↦ wild
    ])
lifted (done a m) k h = tt
lifted stopped k h = tt
lifted wild k h = h

-- An operation on the memory of the kernel, from one on memory.
on_mem-IsSafe : {A : Type 0} (c : Cmd Mem A) (k : Kernel) → IsSafe (c k.mem) → IsSafe (on_mem c k)
unfolding on_mem
on_mem-IsSafe c k h = lifted (c k.mem) k h

map_envs-IsSafe :
    (op : ℕ → Cmd Mem (Unit {0})) (left i : ℕ) (k : Kernel)
    → ((pgdir : ℕ) (m : Mem) → IsSafe (op pgdir m))
    → IsSafe (map_envs op left i k)
unfolding map_envs map_env
map_envs-IsSafe op zero i k h = tt
map_envs-IsSafe op (suc left) i k h =
    Keeps-and_then (λ _ _. Unit {0}) (λ _ _. Unit {0}) (map_env op i k)
      (λ _. map_envs op left (i + 1))
      (Keeps-if (λ _ _. Unit {0}) (is_free (k.envs i).env_status) _ _ tt
        (on_mem-IsSafe (op (k.envs i).env_pgdir) k (h (k.envs i).env_pgdir k.mem)))
      (λ _ k' _. map_envs-IsSafe op left (i + 1) k' h)

pub kmap-IsSafe : (va pa len perm : ℕ) (k : Kernel) → IsSafe (kmap va pa len perm k)
unfolding kmap
kmap-IsSafe va pa len perm k =
    Keeps-and_then (λ _ _. Unit {0}) (λ _ _. Unit {0})
      (on_mem (map_mem boot_frame va pa len perm) k) _
      (on_mem-IsSafe _ k (map_mem-IsSafe boot_frame va pa len perm k.mem))
      (λ _ k' _. map_envs-IsSafe _ nenv 0 k' (λ pgdir m. map_mem-IsSafe pgdir va pa len perm m))

pub kunmap-IsSafe : (va len : ℕ) (k : Kernel) → IsSafe (kunmap va len k)
unfolding kunmap
kunmap-IsSafe va len k =
    Keeps-and_then (λ _ _. Unit {0}) (λ _ _. Unit {0}) (on_mem (unmap_mem boot_frame va len) k) _
      (on_mem-IsSafe _ k (unmap_mem-IsSafe boot_frame va len k.mem))
      (λ _ k' _. map_envs-IsSafe _ nenv 0 k' (λ pgdir m. unmap_mem-IsSafe pgdir va len m))
