-- ===== src/Tests/Processes.antt =====
-- Four environments, of which three take turns and one waits.
use mos_riscv.Prelude.{
  ℕ, none, ◌+◌, ◌≤◌, ◌≡◌, ◌≢◌, ◌↔◌, ◌⊎◌, inl, inr, refl, true, false, some, List, [], ◌∷◌, has,
  Bool-cases, if◌then◌else◌, arith,
}
use mos_riscv.Prelude.Run.{KeepsUnless, Returns}
use mos_riscv.Kern.Error.{Ret, e_inval}
use mos_riscv.Kern.Mmu.{utemp, utop}
use mos_riscv.Kern.Pmap.Mem.{Mem}
use mos_riscv.Kern.Env.State.{env_runnable, env_not_runnable, Env, Kernel, Trapframe, Leave, back}
use mos_riscv.Kern.Env.Asid.{Granted, asid_alloc, asid_alloc-Granted}
use mos_riscv.Kern.Env.Table.{envid2env, envx, mkenvid}
use mos_riscv.Kern.Env.Sched.{schedule, is_ready}
use mos_riscv.Kern.Env.Queue.{IsQueue}
use mos_riscv.Kern.Env.Turns.{rotated}
use mos_riscv.Kern.Env.Fairness.{Scheduled, schedule-Scheduled}
use mos_riscv.Kern.Env.RoundRobin.{Turn, calls, calls-Turn, calls-slices}
use mos_riscv.Kern.Env.Permission.{Answer, envid2env-Answer}
use mos_riscv.Kern.Env.Ids.{envx-mkenvid}
use mos_riscv.Kern.Syscall.Guard.{is_illegal_va_range, is_illegal_va_range_iff}
use mos_riscv.Kern.Syscall.Process.{sys_set_env_status}
use mos_riscv.Kern.Syscall.Ipc.{sys_ipc_recv}
use mos_riscv.Kern.Syscall.StatusLaws.{NoOther}
use mos_riscv.Kern.Syscall.QueueLaws.{IsRejected, IsChanged, sys_set_env_status-IsQueue}
use mos_riscv.Kern.Syscall.Blocking.{IsAccepted, IsRefused, Waits, sys_ipc_recv-Stopped}

abbrev pub frame : Trapframe
frame = record { regs = λ _. 0; sepc = 0; sstatus = 0; sie = 0; sip = 0; badvaddr = 0; scause = 0 }

abbrev queue : List ℕ
queue = 1 ∷ 2 ∷ 3 ∷ []

-- Environment `i`, a child of the first one with priority 5.
abbrev process : ℕ → Env
process i = record {
  env_tf = frame;
  env_id = 2048 + i;
  env_asid = i;
  env_parent_id = 2049;
  env_status = if has i queue then env_runnable else env_not_runnable;
  env_pgdir = 0;
  env_pri = 5;
  env_in_syscall = 0;
  handler_function_va = 0;
  env_ipc_value = 0;
  env_ipc_from = 0;
  env_ipc_recving = 0;
  env_ipc_dstva = 0;
  env_ipc_perm = 0;
  env_ipc_recv_from = 0;
  env_user_tlb_mod_entry = 0;
  env_runs = 0;
}

abbrev memory : Mem
memory = record { free = []; ref = λ _. 1; word = λ _ _. 0; flushed = [] }

-- The first environment runs, with three slices left.
abbrev pub kernel : Kernel
kernel = record {
  mem = memory;
  envs = process;
  curenv = some 1;
  env_free_list = [];
  env_sched_list = queue;
  asid_bitmap = λ _. 0;
  next_id = 7;
  count = 3;
  base_pgdir = 0;
  stack_tf = frame;
  cur_pgdir = 0;
}

pub kernel-IsQueue : IsQueue kernel
kernel-IsQueue = record {
  queued = λ i. elim (Bool-cases (has i queue)) [ inl h ↦ rw h refl | inr h ↦ rw h refl ];
  distinct = (refl, (refl, (refl, tt)));
}

kernel-Turn : Turn 1 queue kernel
kernel-Turn = record { order = kernel-IsQueue; running = refl; queue = refl }

asid_alloc-Granted_example : Granted 0 256 (λ _. 1) (asid_alloc (λ _. 1))
asid_alloc-Granted_example = asid_alloc-Granted (λ _. 1)

schedule-Scheduled_example : Returns {A = Leave Ret} (Scheduled kernel) (schedule true kernel)
schedule-Scheduled_example = schedule-Scheduled Ret true kernel 2 kernel-IsQueue refl

kernel-rotated : rotated kernel.curenv kernel ≡ 2 ∷ 3 ∷ 1 ∷ []
unfolding rotated is_ready
kernel-rotated = refl

calls-Turn_example : Returns (λ _ k'. Turn 3 (3 ∷ 1 ∷ 2 ∷ []) k') (calls true 2 kernel)
calls-Turn_example = calls-Turn (2 ∷ []) [] kernel 1 3 kernel-Turn

calls-slices_example : Returns (λ _ k'. Turn 1 queue k' × (k'.count ≡ 1)) (calls false 2 kernel)
calls-slices_example = calls-slices 2 1 1 queue kernel kernel-Turn refl refl (omega arith)

envid2env-Answer_example :
    Returns (λ a k'. (k' ≡ kernel) × Answer 1 2050 kernel a) (envid2env 2050 true kernel)
envid2env-Answer_example = envid2env-Answer 1 2050 kernel refl

envx-mkenvid_example : (envx (mkenvid 3 kernel).0 ≡ 3) × ((mkenvid 3 kernel).0 ≢ 0)
envx-mkenvid_example = envx-mkenvid 3 kernel (omega arith) (omega arith)

is_illegal_va_range_iff_example :
    (is_illegal_va_range 0x400000 8192 ≡ false) ↔ ((utemp ≤ 0x400000) × (0x400000 + 8192 ≤ utop))
is_illegal_va_range_iff_example =
    is_illegal_va_range_iff 0x400000 8192 (omega arith) (omega arith) (omega arith)

sys_set_env_status-IsQueue_example :
    KeepsUnless
      ((◌≡◌ {A = ℕ} 2 2) × Answer 1 2050 kernel (none, some 1) × NoOther 1 kernel)
      (λ l k'. IsQueue k' × (IsRejected 1 2050 2 kernel l k' ⊎ IsChanged 1 2050 2 kernel l k'))
      (sys_set_env_status 2050 2 kernel)
sys_set_env_status-IsQueue_example =
    sys_set_env_status-IsQueue kernel 1 2050 2 kernel-IsQueue refl refl

sys_ipc_recv-Stopped_example :
    KeepsUnless
      (IsAccepted 0x500000 × NoOther 1 kernel)
      (λ l k'.
        (IsRefused 0x500000 × (l ≡ back (some e_inval)) × (k' ≡ kernel))
        ⊎ (IsAccepted 0x500000 × Waits 1 0x500000 0 l k'))
      (sys_ipc_recv 0x500000 0 kernel)
sys_ipc_recv-Stopped_example = sys_ipc_recv-Stopped kernel 1 0x500000 0 kernel-IsQueue refl refl
