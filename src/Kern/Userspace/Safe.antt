-- ===== src/Kern/Userspace/Safe.antt =====
-- Access to the memory of processes has no undefined behaviour of its own, and leaves the processes alone.
use mos_riscv.Prelude.{ℕ, ◌≡◌, refl, Option, none, some, leb}
use mos_riscv.Prelude.Run.{
  Run, Cmd, done, stopped, wild, Keeps, Keeps-and_then, Keeps-if, Keeps-choose, IsSafe,
}
use mos_riscv.Kern.Error.{Ret}
use mos_riscv.Kern.Mmu.{ulim}
use mos_riscv.Kern.Pmap.Mem.{Mem, Entry, page_alloc}
use mos_riscv.Kern.Pmap.Map.{page_lookup, page_insert}
use mos_riscv.Kern.Pmap.Safe.{page_alloc-IsSafe, page_lookup-IsSafe, page_insert-IsSafe}
use mos_riscv.Kern.Fault.Alloc.{panic_on, map_fresh, is_refused, user_flags, passive_alloc}
use mos_riscv.Kern.Env.State.{Kernel, on_mem}
use mos_riscv.Kern.Userspace.{reach, prepare, copy_for, copy_user_space}

panic_on-IsSafe : (r : Ret) (m : Mem) → IsSafe (panic_on r m)
unfolding panic_on
panic_on-IsSafe none m = tt
panic_on-IsSafe (some err) m = tt

map_fresh-IsSafe :
    (pgdir asid va perm : ℕ) (o : Option ℕ) (m : Mem) → IsSafe (map_fresh pgdir asid va perm o m)
unfolding map_fresh
map_fresh-IsSafe pgdir asid va perm none m = tt
map_fresh-IsSafe pgdir asid va perm (some pp) m =
    Keeps-and_then (λ _ _. Unit {0}) (λ _ _. Unit {0}) (page_insert pgdir asid pp va perm m)
      panic_on (page_insert-IsSafe pgdir asid pp va perm m) (λ r m' _. panic_on-IsSafe r m')

passive_alloc-IsSafe : (va pgdir asid : ℕ) (m : Mem) → IsSafe (passive_alloc va pgdir asid m)
unfolding passive_alloc
passive_alloc-IsSafe va pgdir asid m =
    Keeps-if (λ _ _. Unit {0}) (is_refused va) _ _ tt
      (Keeps-and_then (λ _ _. Unit {0}) (λ _ _. Unit {0}) (page_alloc m)
        (map_fresh pgdir asid va (user_flags va)) (page_alloc-IsSafe m)
        (λ o m' _. map_fresh-IsSafe pgdir asid va (user_flags va) o m'))

reach-IsSafe :
    (dst pgdir asid : ℕ) (from to : Option (ℕ × Entry)) (m : Mem)
    → IsSafe (reach dst pgdir asid from to m)
unfolding reach
reach-IsSafe dst pgdir asid none to m = tt
reach-IsSafe dst pgdir asid (some x) (some y) m = tt
reach-IsSafe dst pgdir asid (some x) none m =
    Keeps-choose (λ _ _. Unit {0}) (leb ulim dst) _ _ m tt (passive_alloc-IsSafe dst pgdir asid m)

pub prepare-IsSafe : (src dst pgdir asid : ℕ) (m : Mem) → IsSafe (prepare src dst pgdir asid m)
unfolding prepare
prepare-IsSafe src dst pgdir asid m =
    Keeps-and_then (λ _ _. Unit {0}) (λ _ _. Unit {0}) (page_lookup pgdir src m) _
      (page_lookup-IsSafe pgdir src m)
      (λ from m1 _.
        Keeps-and_then (λ _ _. Unit {0}) (λ _ _. Unit {0}) (page_lookup pgdir dst m1) _
          (page_lookup-IsSafe pgdir dst m1) (λ to m2 _. reach-IsSafe dst pgdir asid from to m2))

-- The kernel with other memory.
abbrev pub with_mem : Mem → Kernel → Kernel
with_mem m k = record k { mem = m }

lifted_mem :
    {A : Type 0} (r : Run Mem A) (k : Kernel)
    → IsSafe r
    → Keeps
        (λ _ k'. (m : Mem) × (k' ≡ with_mem m k))
        (elim r as (λ _. Run Kernel A) [
          | done a m ↦ done a (record k { mem = m })
          | stopped ↦ stopped
          | wild ↦ wild
        ])
lifted_mem (done a m) k h = (m, refl)
lifted_mem stopped k h = tt
lifted_mem wild k h = h

-- An operation on memory changes only the memory of the kernel.
pub on_mem-with_mem :
    {A : Type 0} (c : Cmd Mem A) (k : Kernel)
    → IsSafe (c k.mem)
    → Keeps (λ _ k'. (m : Mem) × (k' ≡ with_mem m k)) (on_mem c k)
unfolding on_mem
on_mem-with_mem c k h = lifted_mem (c k.mem) k h

module _ {A : Type 0} (P : A → Kernel → Type 0) (src dst : ℕ) (memcpy : Cmd Kernel A) (k : Kernel)
    (next : (k' : Kernel) → (m : Mem) × (k' ≡ with_mem m k) → Keeps P (memcpy k')) where
  copy_for-Keeps : (o : Option ℕ) → Keeps P (copy_for src dst memcpy o k)
  unfolding copy_for
  copy_for-Keeps none = tt
  copy_for-Keeps (some c) =
      Keeps-and_then (λ _ k'. (m : Mem) × (k' ≡ with_mem m k)) P
        (on_mem (prepare src dst (k.envs c).env_pgdir (k.envs c).env_asid) k) _
        (on_mem-with_mem _ k
          (prepare-IsSafe src dst (k.envs c).env_pgdir (k.envs c).env_asid k.mem))
        (λ _ k' e. next k' e)

  -- What holds after `memcpy` on a kernel with other memory holds after `copy_user_space`.
  pub copy_user_space-Keeps : Keeps P (copy_user_space src dst memcpy k)
  unfolding copy_user_space
  copy_user_space-Keeps = copy_for-Keeps k.curenv
