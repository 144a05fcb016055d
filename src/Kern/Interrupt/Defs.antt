-- ===== src/Kern/Interrupt/Defs.antt =====
-- Registration, delivery and return. The trap frame that the functions get is the one below KSTACKTOP.
use mos_riscv.Prelude.{
  ℕ, zero, suc, ◌+◌, ◌-◌, ◌%◌, ◌^◌, Bool, true, false, ◌&&◌, ◌||◌, Option, none, some, ◌∷◌, ◌==◌,
  ltb, leb, if◌then◌else◌, update,
}
use mos_riscv.Prelude.Run.{Cmd, done, stopped, pure, panic, undefined, modify, ◌>>=◌, ◌>>◌}
use mos_riscv.Kern.Error.{Ret, success, e_inval, e_intr, negative}
use mos_riscv.Kern.Mmu.{utemp, ustacktop}
use mos_riscv.Kern.Env.State.{
  env_runnable, env_not_runnable, Status, Kernel, Trapframe, Env, Leave, back, set_env,
}
use mos_riscv.Kern.Env.Table.{envid2env, is_cur}
use mos_riscv.Kern.Env.Sched.{env_run, schedule}
use mos_riscv.Kern.Userspace.{copy_user_space, copy_user_space_to_env}
use mos_riscv.Kern.Board.{
  Machine, Board, kernel_of, in_kernel, in_plic, stack_tf_address, trapframe_size, uxstacktop,
}
use mos_riscv.Driver.Plic.{Plic, plic_set_prority, plic_mark_finish, plic_get_interrupt_code}

abbrev pub max_interrupt : ℕ
max_interrupt = 1024

-- An address that a handler cannot stand at.
unfoldable pub is_illegal_handler : ℕ → Bool
is_illegal_handler va = ltb va utemp || leb ustacktop va

unfoldable pub register_env_interrupt : ℕ → ℕ → ℕ → Cmd Board (Unit {0})
register_env_interrupt code e va b =
    if leb max_interrupt code || is_illegal_handler va
    then stopped
    else (do
      in_kernel (modify (λ k. set_env e (record (k.envs e) { handler_function_va = va }) k))
      λ b'. done tt (record b' {
        interrupt_code_to_envid =
            update b'.interrupt_code_to_envid code ((kernel_of b').envs e).env_id;
      }))
        b

-- Where the frame is saved: below the stack pointer on the stack of the handler, or at its top.
unfoldable pub handler_sp : ℕ → ℕ
handler_sp sp =
    if leb ustacktop sp && ltb sp uxstacktop
    then sp - trapframe_size
    else uxstacktop - trapframe_size

-- The frame from which the handler starts.
unfoldable pub handler_frame : ℕ → ℕ → Trapframe → Trapframe
handler_frame sp va tf = record tf { regs = update tf.regs 2 sp; sepc = va }

unfoldable pub enter_handler : ℕ → ℕ → Kernel → Kernel
enter_handler sp e k = record k {
  stack_tf = handler_frame sp (k.envs e).handler_function_va k.stack_tf;
}

-- The process that runs is interrupted.
unfoldable pub interrupt_current : Machine → ℕ → Cmd Kernel (Unit {0})
interrupt_current hw e k =
    let sp = handler_sp (k.stack_tf.regs 2) in
    (do
      copy_user_space stack_tf_address sp (λ k'.
          done tt (record k' { mem = hw.put_frame (k'.envs e).env_pgdir sp k'.stack_tf k'.mem }))
      modify (enter_handler sp e))
      k

-- A system call of the process is broken off.
unfoldable pub break_off : Env → Env
break_off v =
    if v.env_in_syscall == 1
    then record v {
      env_in_syscall = 0;
      env_ipc_recving = 0;
      env_tf = record (v.env_tf) { regs = update v.env_tf.regs 10 (negative e_intr) };
    }
    else v

-- A process that waits can run again, at the head of the queue.
unfoldable pub wake : Status → ℕ → Kernel → Kernel
wake env_not_runnable e k =
    record (set_env e (record (break_off (k.envs e)) { env_status = env_runnable }) k) {
      env_sched_list = e ∷ k.env_sched_list;
    }
wake _ e k = k

unfoldable pub share_sie : ℕ → Kernel → Kernel
share_sie e k =
    set_env e
      (record (k.envs e) {
        env_tf = record ((k.envs e).env_tf) { sie = k.stack_tf.sie; sip = k.stack_tf.sip };
      })
      k

unfoldable pub set_handler_frame : ℕ → ℕ → Kernel → Kernel
set_handler_frame sp e k =
    set_env e
      (record (k.envs e) {
        env_tf = handler_frame sp (k.envs e).handler_function_va (k.envs e).env_tf;
      })
      k

-- Another process is interrupted.
unfoldable pub interrupt_other : Machine → ℕ → Cmd Kernel (Unit {0})
interrupt_other hw e = do
  modify (λ k. wake (k.envs e).env_status e k)
  λ k.
      let sp = handler_sp ((k.envs e).env_tf.regs 2) in
      (do
        modify (share_sie e)
        copy_user_space_to_env e (hw.env_tf_address e) sp (λ k'.
            done tt
              (record k' { mem = hw.put_frame (k'.envs e).env_pgdir sp (k'.envs e).env_tf k'.mem }))
        modify (set_handler_frame sp e))
        k

unfoldable pub deliver_to : Machine → ℕ → ℕ → Bool → Cmd Board (Leave (Unit {0}))
deliver_to hw code e true = do
  in_kernel (interrupt_current hw e)
  in_plic (plic_mark_finish code)
  pure (back tt)
deliver_to hw code e false = do
  in_kernel (interrupt_other hw e)
  in_plic (plic_mark_finish code)
  in_kernel (env_run e)

-- What follows `envid2env`, whose error ends the call.
unfoldable pub deliver_found : Machine → ℕ → Ret × Option ℕ → Cmd Board (Leave (Unit {0}))
deliver_found hw code (some err, _) = pure (back tt)
deliver_found hw code (none, none) = undefined
deliver_found hw code (none, some e) = do
  in_plic (plic_set_prority code 0)
  λ b. deliver_to hw code e (is_cur (kernel_of b).curenv e) b

unfoldable pub handle_env_interrupt : Machine → ℕ → Cmd Board (Leave (Unit {0}))
handle_env_interrupt hw code b =
    if leb max_interrupt code
    then stopped
    else if b.interrupt_code_to_envid code == 0
    then done (back tt) b
    else (do
      found ← in_kernel (envid2env (b.interrupt_code_to_envid code) false)
      deliver_found hw code found)
        b

-- The first code from `code` on that belongs to an identifier, or 0.
unfoldable pub find_code : ℕ → ℕ → ℕ → (ℕ → ℕ) → ℕ
find_code zero code id m = 0
find_code (suc left) code id m =
    let rest = find_code left (code + 1) id m in if m code == id then code else rest

unfoldable pub reset_prority : ℕ → Cmd Plic (Unit {0})
reset_prority code = if code == 0 then pure tt else plic_set_prority code 1

unfoldable pub restore_frame : Machine → ℕ → ℕ → Cmd Kernel (Unit {0})
restore_frame hw sp c =
    copy_user_space sp stack_tf_address
      (λ k. done tt (record k { stack_tf = hw.get_frame k.mem (k.envs c).env_pgdir sp }))

unfoldable pub ret_from : Machine → Option ℕ → Cmd Board Ret
ret_from hw none = panic
ret_from hw (some c) = λ b.
    let sp = (kernel_of b).stack_tf.regs 2 in
    if leb uxstacktop sp || ltb sp ustacktop
    then done (some e_inval) b
    else (do
      in_kernel (restore_frame hw sp c)
      λ b'.
          in_plic
            (reset_prority
              (find_code max_interrupt 0 ((kernel_of b').envs c).env_id b'.interrupt_code_to_envid))
            b'
      pure success)
        b

unfoldable pub ret_env_interrupt : Machine → Cmd Board Ret
ret_env_interrupt hw b = ret_from hw (kernel_of b).curenv b

-- A code without a handler is passed over.
unfoldable pub handle_claimed : Machine → ℕ → Cmd Board (Leave (Unit {0}))
handle_claimed hw code b =
    if leb b.plic.plic_interrupt_count code
    then stopped
    else if b.plic.interrupt_handler code
    then handle_env_interrupt hw code b
    else done (back tt) b

unfoldable pub handle_plic_interrupt : Machine → Cmd Board (Leave (Unit {0}))
handle_plic_interrupt hw = do
  code ← in_plic (plic_get_interrupt_code hw.answers)
  handle_claimed hw code

unfoldable pub do_clock : Cmd Kernel (Leave (Unit {0}))
do_clock = schedule false

-- `do_reserved` panics.
unfoldable pub do_interrupt : Machine → Cmd Board (Leave (Unit {0}))
do_interrupt hw b =
    let code = (kernel_of b).stack_tf.scause % 2 ^ 63 in
    if leb 64 code
    then stopped
    else if b.plic.interrupt_handler_map code
    then handle_plic_interrupt hw b
    else stopped
