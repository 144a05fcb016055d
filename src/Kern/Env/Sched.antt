-- ===== src/Kern/Env/Sched.antt =====
-- The scheduler: `env_run` and `env_destroy` of kern/env.c, `schedule` of kern/sched.c.
use mos_riscv.Prelude.{
  ℕ, ◌+◌, ◌-◌, ◌%◌, ◌^◌, Bool, true, false, not, ◌||◌, Option, none, some, List, [], ◌∷◌, ◌++◌,
  ◌==◌, if◌then◌else◌,
}
use mos_riscv.Prelude.Run.{Cmd, done, panic, ◌>>◌, modify}
use mos_riscv.Kern.Env.State.{Kernel, Leave, back, left, is_runnable, set_env, sched_remove}
use mos_riscv.Kern.Env.Table.{is_cur}
use mos_riscv.Kern.Env.Release.{env_free}

-- The trap frame of the environment that was running is saved.
unfoldable pub save_frame_of : Option ℕ → Kernel → Kernel
save_frame_of none k = k
save_frame_of (some c) k = set_env c (record (k.envs c) { env_tf = k.stack_tf }) k

unfoldable pub save_frame : Kernel → Kernel
save_frame k = save_frame_of k.curenv k

-- `curenv = e`, and what follows up to `env_pop_tf`, which loads the frame and does not come back.
unfoldable pub enter : ℕ → Kernel → Kernel
enter e k =
    record (set_env e (record (k.envs e) { env_runs = ((k.envs e).env_runs + 1) % 2 ^ 64 }) k) {
      curenv = some e;
      cur_pgdir = (k.envs e).env_pgdir;
    }

unfoldable pub env_run : {A : Type 0} → ℕ → Cmd Kernel (Leave A)
env_run e k =
    if is_runnable (k.envs e).env_status then done left (enter e (save_frame k)) else panic k

-- `count--` on the bits of an `int`
abbrev pub decrement : ℕ → ℕ
decrement n = (n + 2 ^ 32 - 1) % 2 ^ 32

-- Whether an environment pointer is there and RUNNABLE.
unfoldable pub is_ready : Option ℕ → Kernel → Bool
is_ready none k = false
is_ready (some e) k = is_runnable (k.envs e).env_status

-- The head of the queue is run, with the time slices of its priority.
unfoldable pub run_head : {A : Type 0} → List ℕ → Cmd Kernel (Leave A)
run_head [] k = panic k
run_head (next ∷ rest) k =
    env_run next (record k { count = decrement ((k.envs next).env_pri % 2 ^ 32) })

unfoldable pub run_first : {A : Type 0} → Cmd Kernel (Leave A)
run_first k = run_head k.env_sched_list k

-- The environment that gives way goes to the tail of the queue if it can still run.
unfoldable pub requeue_of : Option ℕ → Cmd Kernel (Unit {0})
requeue_of none k = done tt k
requeue_of (some e) k =
    if is_ready (some e) k
    then (do
      sched_remove e
      modify (λ k'. record k' { env_sched_list = k'.env_sched_list ++ (e ∷ []) }))
        k
    else done tt k

-- The environment that runs goes on, with one slice less.
unfoldable pub go_on : {A : Type 0} → Option ℕ → Cmd Kernel (Leave A)
go_on none k = panic k
go_on (some e) k = env_run e (record k { count = decrement k.count })

unfoldable pub schedule : {A : Type 0} → Bool → Cmd Kernel (Leave A)
schedule yield k =
    if yield || (k.count == 0) || not (is_ready k.curenv k)
    then (do requeue_of k.curenv; run_first) k
    else go_on k.curenv k

-- `schedule(1)` for an environment that destroyed itself.
unfoldable pub env_destroy : {A : Type 0} → ℕ → A → Cmd Kernel (Leave A)
env_destroy e a = do
  env_free e
  λ k. if is_cur k.curenv e then schedule true (record k { curenv = none }) else done (back a) k
