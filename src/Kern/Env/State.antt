-- ===== src/Kern/Env/State.antt =====
-- The state of kern/env.c and kern/sched.c. A `struct Env *` is its index in `envs`. The links of
-- `env_free_list` and `env_sched_list` are the two lists of indices, in their order.
use mos_riscv.Prelude.{ℕ, Bool, true, false, Option, List, has, erase, update, if◌then◌else◌}
use mos_riscv.Prelude.Run.{Cmd, done, stopped, wild}
use mos_riscv.Kern.Pmap.Mem.{Mem}

abbrev pub nenv : ℕ
nenv = 1024

pub data Status : Type 0 where
  env_free env_runnable env_not_runnable : Status

abbrev pub is_free : Status → Bool
is_free env_free = true
is_free _ = false

abbrev pub is_runnable : Status → Bool
is_runnable env_runnable = true
is_runnable _ = false

-- The registers of a trap frame that the code touches.
pub record Trapframe : Type 0 where
  pub regs : ℕ → ℕ
  pub sepc : ℕ
  pub sstatus : ℕ
  pub sie : ℕ
  pub sip : ℕ
  pub badvaddr : ℕ
  pub scause : ℕ

-- `struct Env` without its links and its name. `env_pgdir` is the frame of the page directory.
pub record Env : Type 0 where
  pub env_tf : Trapframe
  pub env_id : ℕ
  pub env_asid : ℕ
  pub env_parent_id : ℕ
  pub env_status : Status
  pub env_pgdir : ℕ
  pub env_pri : ℕ
  pub env_in_syscall : ℕ
  pub handler_function_va : ℕ
  pub env_ipc_value : ℕ
  pub env_ipc_from : ℕ
  pub env_ipc_recving : ℕ
  pub env_ipc_dstva : ℕ
  pub env_ipc_perm : ℕ
  pub env_ipc_recv_from : ℕ
  pub env_user_tlb_mod_entry : ℕ
  pub env_runs : ℕ

pub record Kernel : Type 0 where
  pub mem : Mem
  pub envs : ℕ → Env
  pub curenv : Option ℕ
  pub env_free_list : List ℕ
  pub env_sched_list : List ℕ
  pub asid_bitmap : ℕ → ℕ
  -- the static counter of `mkenvid`
  pub next_id : ℕ
  -- the static `count` of `schedule`, as the bits of an `int`
  pub count : ℕ
  pub base_pgdir : ℕ
  -- the trap frame below KSTACKTOP, and the page directory in use
  pub stack_tf : Trapframe
  pub cur_pgdir : ℕ

-- How a call ends that may switch to user mode: it comes back with a value, or the machine runs
-- `curenv` and the call does not come back.
pub data Leave (A : Type 0) : Type 0 where
  back : A → Leave A
  left : Leave A

-- `TAILQ_REMOVE` on the scheduling queue. For an element that is not queued the macro writes through the links
-- that the element kept, and what it leaves is no queue that a list of indices can describe: `wild`.
unfoldable pub sched_remove : ℕ → Cmd Kernel (Unit {0})
sched_remove e k =
    if has e k.env_sched_list
    then done tt (record k { env_sched_list = erase e k.env_sched_list })
    else wild

unfoldable pub set_env : ℕ → Env → Kernel → Kernel
set_env e v k = record k { envs = update k.envs e v }

-- An operation of the page tables, on the memory of the kernel.
unfoldable pub on_mem : {A : Type 0} → Cmd Mem A → Cmd Kernel A
on_mem c k = elim (c k.mem) [
  | done a m ↦ done a (record k { mem = m })
  | stopped ↦ stopped
  | wild ↦ wild
]
