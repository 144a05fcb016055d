-- ===== src/Kern/Syscall/Table.antt =====
-- The table of the system calls, and `do_syscall`.
use mos_riscv.Prelude.{
  ℕ, ◌+◌, ◌-◌, ◌%◌, ◌^◌, Bool, true, false, Option, none, some, ◌==◌, leb, if◌then◌else◌, update,
}
use mos_riscv.Prelude.Run.{Cmd, done, pure, panic, undefined, modify, ◌>>=◌, ◌>>◌}
use mos_riscv.Kern.Error.{Ret, e_no_sys, negative}
use mos_riscv.Kern.Env.State.{Kernel, Leave, back, left, set_env}
use mos_riscv.Kern.Board.{Machine, Board, kernel_of, in_kernel}
use mos_riscv.Kern.Syscall.Process.{
  sys_getenvid, sys_yield, sys_env_destroy, sys_set_env_status, sys_sleep,
}
use mos_riscv.Kern.Syscall.Memory.{
  sys_mem_alloc, sys_mem_map, sys_mem_unmap, sys_get_physical_address, sys_is_dirty, sys_pageref,
}
use mos_riscv.Kern.Syscall.Ipc.{sys_ipc_recv, sys_ipc_try_send}
use mos_riscv.Kern.Syscall.Create.{
  IntRet, value, failure, sys_exofork, sys_set_trapframe, sys_map_user_vpt, sys_unmap_user_vpt,
}
use mos_riscv.Kern.Syscall.Device.{
  for_cur, sys_write_dev, sys_read_dev, sys_set_interrupt_handler, sys_interrupt_return,
  sys_print_cons, sys_putchar, sys_get_device_count, sys_get_device, sys_get_process_list,
}

-- A return value in the register a0: an `int` is extended by its sign.
unfoldable pub ret_word : Ret → ℕ
ret_word none = 0
ret_word (some err) = negative err

unfoldable pub sign_extend : ℕ → ℕ
sign_extend n = if leb (2 ^ 31) n then n + 2 ^ 64 - 2 ^ 32 else n

unfoldable pub int_word : IntRet → ℕ
int_word (value n) = sign_extend n
int_word (failure err) = negative err

abbrev pub Call : Type 0
Call = Cmd Board (Leave ℕ)

unfoldable pub leave_map : {A : Type 0} → (A → ℕ) → Leave A → Leave ℕ
leave_map f (back a) = back (f a)
leave_map f left = left

-- A call of the table, by the form of its result.
unfoldable pub returns : {A : Type 0} → (A → ℕ) → Cmd Board (Leave A) → Call
returns f c = do a ← c; pure (leave_map f a)

unfoldable pub gives : {A : Type 0} → (A → ℕ) → Cmd Board A → Call
gives f c = do a ← c; pure (back (f a))

abbrev pub flag : Bool → ℕ
flag true = 1
flag false = 0

-- `sys_cgetc` reads until the console gives a byte; the rest of its `int` is not written.
unfoldable pub sys_cgetc : Machine → Cmd Board ℕ
sys_cgetc hw b = done (hw.console_read b.console % 256) b

-- The calls by their numbers in the enumeration of include/syscall.h.
unfoldable pub syscall_table : Machine → ℕ → ℕ → ℕ → ℕ → ℕ → ℕ → Call
syscall_table hw n a1 a2 a3 a4 a5 =
    if n == 0
    then gives (λ _. hw.no_result) (sys_putchar a1)
    else if n == 1
    then gives ret_word (sys_print_cons hw a1 a2)
    else if n == 2
    then gives sign_extend (in_kernel sys_getenvid)
    else if n == 3
    then returns ret_word (in_kernel sys_yield)
    else if n == 4
    then returns ret_word (in_kernel (sys_env_destroy (a1 % 2 ^ 32)))
    else if n == 5
    then returns ret_word (in_kernel (sys_mem_alloc (a1 % 2 ^ 32) a2 (a3 % 2 ^ 32)))
    else if n == 6
    then returns ret_word (in_kernel (sys_mem_map (a1 % 2 ^ 32) a2 (a3 % 2 ^ 32) a4 (a5 % 2 ^ 32)))
    else if n == 7
    then returns ret_word (in_kernel (sys_mem_unmap (a1 % 2 ^ 32) a2))
    else if n == 8
    then returns int_word (in_kernel sys_exofork)
    else if n == 9
    then returns ret_word (in_kernel (sys_set_env_status (a1 % 2 ^ 32) (a2 % 2 ^ 32)))
    else if n == 10
    then returns int_word (in_kernel (sys_set_trapframe hw (a1 % 2 ^ 32) a2))
    else if n == 11
    then panic
    else if n == 12
    then returns ret_word (in_kernel (sys_ipc_try_send (a1 % 2 ^ 32) a2 a3 (a4 % 2 ^ 32)))
    else if n == 13
    then returns ret_word (in_kernel (sys_ipc_recv (a1 % 2 ^ 32) (a2 % 2 ^ 32)))
    else if n == 14
    then gives (λ c. c) (sys_cgetc hw)
    else if n == 15
    then gives ret_word (sys_write_dev hw a1 a2 a3)
    else if n == 16
    then gives ret_word (sys_read_dev hw a1 a2 a3)
    else if n == 17
    then gives (λ _. hw.no_result) (in_kernel sys_map_user_vpt)
    else if n == 18
    then gives (λ _. hw.no_result) (in_kernel sys_unmap_user_vpt)
    else if n == 19
    then returns ret_word (in_kernel sys_sleep)
    else if n == 20
    then gives ret_word (sys_set_interrupt_handler hw (a1 % 2 ^ 32) a2)
    else if n == 21
    then gives (λ a0. a0) (sys_interrupt_return hw)
    else if n == 22
    then gives sign_extend (sys_get_device_count hw a1)
    else if n == 23
    then gives ret_word (sys_get_device hw a1 a2 a3 a4 a5)
    else if n == 24
    then gives int_word (sys_get_process_list hw (a1 % 2 ^ 32) a2)
    else if n == 25
    then gives (λ pa. pa) (in_kernel (sys_get_physical_address a1))
    else if n == 26
    then gives flag (in_kernel (sys_is_dirty a1))
    else gives (λ count. count) (in_kernel (sys_pageref a1))

abbrev pub max_sysno : ℕ
max_sysno = 28

-- Register a0 of the frame below the top of the stack.
unfoldable pub set_a0 : ℕ → Kernel → Kernel
set_a0 v k = record k { stack_tf = record (k.stack_tf) { regs = update k.stack_tf.regs 10 v } }

unfoldable pub set_in_syscall : ℕ → ℕ → Kernel → Kernel
set_in_syscall c v k = set_env c (record (k.envs c) { env_in_syscall = v }) k

-- `tf->sepc += 4`
unfoldable pub next_sepc : Kernel → Kernel
next_sepc k = record k { stack_tf = record (k.stack_tf) { sepc = (k.stack_tf.sepc + 4) % 2 ^ 64 } }

-- What follows a call that came back. A NULL `curenv` would be dereferenced.
unfoldable pub finish_for : ℕ → Option ℕ → Cmd Kernel (Unit {0})
finish_for ret none = undefined
finish_for ret (some c) = do modify (set_in_syscall c 0); modify (set_a0 ret)

unfoldable pub finish : Leave ℕ → Cmd Board (Leave (Unit {0}))
finish left = pure left
finish (back ret) = do in_kernel (λ k. finish_for ret k.curenv k); pure (back tt)

unfoldable pub call_for : Machine → ℕ → ℕ → Cmd Board (Leave (Unit {0}))
call_for hw sysno c = do
  in_kernel (do modify (set_in_syscall c 1); modify next_sepc)
  λ b.
      let regs = (kernel_of b).stack_tf.regs in
      (do
        ret ← syscall_table hw sysno (regs 11) (regs 12) (regs 13) (regs 14) (regs 15)
        finish ret)
        b

unfoldable pub do_syscall : Machine → Cmd Board (Leave (Unit {0}))
do_syscall hw b =
    let sysno = (kernel_of b).stack_tf.regs 10 % 2 ^ 32 in
    if leb max_sysno sysno
    then (do in_kernel (modify (set_a0 (negative e_no_sys))); pure (back tt)) b
    else for_cur (call_for hw sysno) (kernel_of b).curenv b
