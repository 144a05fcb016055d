-- ===== src/Kern/Syscall/Ipc.antt =====
-- Messages between environments: `sys_ipc_recv` and `sys_ipc_try_send`.
use mos_riscv.Prelude.{
  ℕ, ◌%◌, ◌^◌, Bool, true, false, not, ◌&&◌, none, some, [], ◌∷◌, ◌++◌, ◌==◌, if◌then◌else◌, update,
  bit_or,
}
use mos_riscv.Prelude.Run.{Cmd, done, pure, ◌>>=◌, ◌>>◌, modify}
use mos_riscv.Kern.Error.{Ret, success, e_inval, e_ipc_not_recv}
use mos_riscv.Kern.Pmap.Map.{page_insert, page_lookup}
use mos_riscv.Kern.Env.State.{env_runnable, Kernel, Leave, back, set_env, on_mem}
use mos_riscv.Kern.Env.Sched.{schedule}
use mos_riscv.Kern.Syscall.Guard.{is_illegal_va, on_env, on_cur}
use mos_riscv.Kern.Syscall.Process.{block}
use mos_riscv.Kern.Syscall.Memory.{bad_env}

-- The fields that announce the receiver.
unfoldable pub announce : ℕ → ℕ → ℕ → Kernel → Kernel
announce c dstva from k =
    set_env c
      (record (k.envs c) { env_ipc_recving = 1; env_ipc_dstva = dstva; env_ipc_recv_from = from }) k

-- `((struct Trapframe *)KSTACKTOP - 1)->regs[10] = 0`
unfoldable pub clear_stack_a0 : Kernel → Kernel
clear_stack_a0 k = record k {
  stack_tf = record (k.stack_tf) { regs = update k.stack_tf.regs 10 0 };
}

unfoldable pub recv_from : ℕ → ℕ → ℕ → Cmd Kernel (Leave Ret)
recv_from dstva from c = do
  modify (announce c dstva from)
  block c
  modify clear_stack_a0
  schedule true

unfoldable pub sys_ipc_recv : ℕ → ℕ → Cmd Kernel (Leave Ret)
sys_ipc_recv dstva from =
    if not (dstva == 0) && is_illegal_va dstva
    then pure (back (some e_inval))
    else on_cur (recv_from dstva from)

-- The message is stored, and the receiver is queued.
unfoldable pub deliver : ℕ → ℕ → ℕ → ℕ → Kernel → Kernel
deliver c e value perm k =
    record (set_env e
      (record (k.envs e) {
        env_ipc_value = value;
        env_ipc_from = (k.envs c).env_id;
        env_ipc_perm = perm;
        env_ipc_recving = 0;
        env_status = env_runnable;
        env_in_syscall = 0;
      })
      k) { env_sched_list = k.env_sched_list ++ (e ∷ []) }

-- The page, if one is sent.
unfoldable pub share : ℕ → ℕ → ℕ → ℕ → Cmd Kernel (Leave Ret)
share c e srcva perm = if srcva == 0 then pure (back success) else λ k.
    (do
      found ← on_mem (page_lookup (k.envs c).env_pgdir srcva)
      elim found [
        | none ↦ pure (back (some e_inval))
        | some (pp, _) ↦ λ k'.
            (do
              r ← on_mem (
                  page_insert (k'.envs e).env_pgdir (k'.envs e).env_asid pp
                    (k'.envs e).env_ipc_dstva perm)
              pure (back r))
              k'
      ])
      k

-- `perm &= GENMASK(9, 0)` and `perm |= PTE_USER`
unfoldable pub ipc_perm : ℕ → ℕ
ipc_perm perm = bit_or (perm % 2 ^ 10) 0x10

-- Whether `e` takes messages from `c`.
unfoldable pub accepts : ℕ → ℕ → Kernel → Bool
accepts c e k =
    if (k.envs e).env_ipc_recv_from == 0
    then true
    else (k.envs e).env_ipc_recv_from == (k.envs c).env_id

-- The rest of the call once the receiver waits.
unfoldable pub send_to : ℕ → ℕ → ℕ → ℕ → ℕ → Cmd Kernel (Leave Ret)
send_to value srcva perm e c k =
    if accepts c e k
    then (do modify (deliver c e value (ipc_perm perm)); share c e srcva (ipc_perm perm)) k
    else done (back (some e_ipc_not_recv)) k

unfoldable pub sys_ipc_try_send : ℕ → ℕ → ℕ → ℕ → Cmd Kernel (Leave Ret)
sys_ipc_try_send envid value srcva perm =
    if not (srcva == 0) && is_illegal_va srcva
    then pure (back (some e_inval))
    else on_env bad_env envid false (λ e k.
      if (k.envs e).env_ipc_recving == 0
      then done (back (some e_ipc_not_recv)) k
      else on_cur (send_to value srcva perm e) k)
