-- ===== src/Kern/Syscall/Create.antt =====
-- System calls that make a process, set its registers, and show it its page tables.
use mos_riscv.Prelude.{ℕ, ◌%◌, ◌^◌, true, Option, none, some, ◌∷◌, if◌then◌else◌, update}
use mos_riscv.Prelude.Run.{Cmd, done, pure, undefined, modify, ◌>>=◌, ◌>>◌}
use mos_riscv.Kern.Error.{Error, Ret, e_inval}
use mos_riscv.Kern.Env.State.{env_runnable, Kernel, Trapframe, Leave, back, set_env, on_mem}
use mos_riscv.Kern.Env.Table.{env_alloc, is_cur}
use mos_riscv.Kern.Fork.Share.{dup_userspace}
use mos_riscv.Kern.Userspace.{copy_user_space, map_user_vpt, unmap_user_vpt}
use mos_riscv.Kern.Board.{Machine, trapframe_size}
use mos_riscv.Kern.Syscall.Guard.{is_illegal_va_range, on_env, need_cur}

-- An `int` that is a number or the negative of an error.
pub data IntRet : Type 0 where
  value : ℕ → IntRet
  failure : Error → IntRet

-- The frame of the child is that of the parent, in which the call returns 0.
unfoldable pub copy_parent : ℕ → Kernel → Kernel
copy_parent e k =
    set_env e
      (record (k.envs e) {
        env_tf = record (k.stack_tf) { regs = update k.stack_tf.regs 10 0 };
        env_in_syscall = 0;
      })
      k

-- The child can run, with the priority of the parent, at the head of the queue.
unfoldable pub start_child : ℕ → ℕ → Kernel → Kernel
start_child c e k =
    record (set_env e
      (record (k.envs e) { env_status = env_runnable; env_pri = (k.envs c).env_pri }) k) {
        env_sched_list = e ∷ k.env_sched_list;
      }

unfoldable pub fork_to : ℕ → Ret × Option ℕ → Cmd Kernel (Leave IntRet)
fork_to c (some err, _) = pure (back (failure err))
fork_to c (none, none) = undefined
fork_to c (none, some e) = do
  modify (copy_parent e)
  λ k. on_mem (dup_userspace (k.envs c).env_pgdir (k.envs e).env_pgdir (k.envs e).env_asid) k
  modify (start_child c e)
  λ k. done (back (value (k.envs e).env_id)) k

unfoldable pub exofork_from : ℕ → Cmd Kernel (Leave IntRet)
exofork_from c k = (do r ← env_alloc (k.envs c).env_id; fork_to c r) k

unfoldable pub sys_exofork : Cmd Kernel (Leave IntRet)
sys_exofork = need_cur exofork_from

-- The frame goes to the stack of the kernel for the process that runs, and a0 of it is returned as an `int`.
unfoldable pub store_frame : Trapframe → ℕ → Cmd Kernel (Leave IntRet)
store_frame ktf e k =
    if is_cur k.curenv e
    then done (back (value (ktf.regs 10 % 2 ^ 32))) (record k { stack_tf = ktf })
    else done (back (value 0)) (set_env e (record (k.envs e) { env_tf = ktf }) k)

-- `copy_user_space` of the frame to a local variable.
unfoldable pub read_frame : Machine → ℕ → Cmd Kernel Trapframe
read_frame hw tf =
    need_cur
      (λ c. copy_user_space tf hw.local (λ k. done (hw.get_frame k.mem (k.envs c).env_pgdir tf) k))

unfoldable pub sys_set_trapframe : Machine → ℕ → ℕ → Cmd Kernel (Leave IntRet)
sys_set_trapframe hw envid tf =
    if is_illegal_va_range tf trapframe_size
    then pure (back (failure e_inval))
    else (do ktf ← read_frame hw tf; on_env failure envid true (store_frame ktf))

unfoldable pub sys_map_user_vpt : Cmd Kernel (Unit {0})
sys_map_user_vpt = need_cur map_user_vpt

unfoldable pub sys_unmap_user_vpt : Cmd Kernel (Unit {0})
sys_unmap_user_vpt = need_cur unmap_user_vpt
