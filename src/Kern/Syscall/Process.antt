-- ===== src/Kern/Syscall/Process.antt =====
-- System calls on environments: identity, yielding, status and destruction.
use mos_riscv.Prelude.{ℕ, true, Option, none, some, [], ◌∷◌, ◌++◌, ◌==◌, if◌then◌else◌, update}
use mos_riscv.Prelude.Run.{Cmd, done, pure, ◌>>◌, modify}
use mos_riscv.Kern.Error.{Ret, success, e_inval}
use mos_riscv.Kern.Env.State.{
  Status, env_runnable, env_not_runnable, Kernel, Leave, back, set_env, sched_remove,
}
use mos_riscv.Kern.Env.Table.{is_cur}
use mos_riscv.Kern.Env.Sched.{schedule, env_destroy}
use mos_riscv.Kern.Syscall.Guard.{on_env, on_cur, need_cur}

unfoldable pub sys_getenvid : Cmd Kernel ℕ
sys_getenvid = on_cur (λ c k. done (k.envs c).env_id k)

unfoldable pub sys_yield : Cmd Kernel (Leave Ret)
sys_yield =
    on_cur
      (λ c. do modify (λ k. set_env c (record (k.envs c) { env_in_syscall = 0 }) k); schedule true)

unfoldable pub sys_env_destroy : ℕ → Cmd Kernel (Leave Ret)
sys_env_destroy envid = on_env some envid true (λ e. on_cur (λ _. env_destroy e success))

unfoldable pub sys_set_tlb_mod_entry : ℕ → ℕ → Cmd Kernel (Leave Ret)
sys_set_tlb_mod_entry envid func = on_env some envid true (λ e. do
  modify (λ k. set_env e (record (k.envs e) { env_user_tlb_mod_entry = func }) k)
  pure (back success))

-- `env_sched_list` before the new status is stored, by the old status and the new one.
unfoldable pub change_queue : Status → Status → ℕ → Cmd Kernel (Unit {0})
change_queue env_not_runnable env_runnable e =
    modify (λ k. record k { env_sched_list = k.env_sched_list ++ (e ∷ []) })
change_queue env_runnable env_not_runnable e = sched_remove e
change_queue _ _ e = pure tt

unfoldable pub set_status : ℕ → Status → Kernel → Kernel
set_status e status k = set_env e (record (k.envs e) { env_status = status }) k

-- The status of an argument, which the call takes as a number.
unfoldable pub status_of : ℕ → Option Status
status_of n = if n == 1 then some env_runnable else if n == 2 then some env_not_runnable else none

unfoldable pub store_status : ℕ → Status → Cmd Kernel (Leave Ret)
store_status e status k =
    (do
      change_queue (k.envs e).env_status status e
      modify (set_status e status)
      λ k'. if is_cur k'.curenv e then schedule true k' else done (back success) k')
      k

-- After the check of the argument, which failed for `none`.
unfoldable pub status_to : ℕ → Option Status → Cmd Kernel (Leave Ret)
status_to envid none = pure (back (some e_inval))
status_to envid (some st) = on_env some envid true (λ e. store_status e st)

unfoldable pub sys_set_env_status : ℕ → ℕ → Cmd Kernel (Leave Ret)
sys_set_env_status envid status = status_to envid (status_of status)

-- `curenv` leaves the queue and stops.
unfoldable pub block : ℕ → Cmd Kernel (Unit {0})
block c = do modify (set_status c env_not_runnable); sched_remove c

unfoldable pub clear_a0 : ℕ → Kernel → Kernel
clear_a0 c k =
    set_env c
      (record (k.envs c) {
        env_tf = record ((k.envs c).env_tf) { regs = update (k.envs c).env_tf.regs 10 0 };
      })
      k

unfoldable pub sleep_from : ℕ → Cmd Kernel (Leave Ret)
sleep_from c = do block c; modify (clear_a0 c); schedule true

unfoldable pub sys_sleep : Cmd Kernel (Leave Ret)
sys_sleep = need_cur sleep_from
