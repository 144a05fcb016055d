-- ===== src/Kern/Syscall/Blocking.antt =====
-- The system calls of kern/syscall_all.c that stop their caller.
use mathlib.Core.Path.{subst}
use mos_riscv.Prelude.{
  ℕ, ◌≡◌, ◌≢◌, ◌<◌, ◌≤◌, [], refl, sym, ap, ◌∙◌, true, false, not, ◌&&◌, some, ◌==◌, has, erase,
  Bool-cases, arith, inl, inr, ◌⊎◌,
}
use mos_riscv.Prelude.Run.{done, KeepsUnless, KeepsUnless-weaken}
use mos_riscv.Kern.Error.{Ret, e_inval}
use mos_riscv.Kern.Mmu.{utemp, utop}
use mos_riscv.Kern.Env.State.{
  env_not_runnable, Env, Kernel, Leave, back, left, is_runnable, set_env, sched_remove,
}
use mos_riscv.Kern.Env.Sched.{schedule}
use mos_riscv.Kern.Env.Queue.{IsQueue, ipc_of, has-erase, Distinct-erase, set_env-status}
use mos_riscv.Kern.Env.Fairness.{Scheduled, schedule-KeepsUnless}
use mos_riscv.Kern.Syscall.Guard.{is_illegal_va, on_cur, on_cur_of, need_cur, need_cur_of}
use mos_riscv.Kern.Syscall.Process.{clear_a0, sleep_from, set_status, block, sys_sleep}
use mos_riscv.Kern.Syscall.StatusLaws.{set_status-IsQueue, NoOther, empty-NoOther}
use mos_riscv.Kern.Syscall.Ipc.{announce, clear_stack_a0, recv_from, sys_ipc_recv}

-- The environment is stopped and off the queue.
unfoldable pub blocked : ℕ → Kernel → Kernel
blocked c k = set_status c env_not_runnable (record k { env_sched_list = erase c k.env_sched_list })

block_lem : (c : ℕ) (k : Kernel) → has c k.env_sched_list ≡ true → block c k ≡ done tt (blocked c k)
unfolding block blocked set_status set_env sched_remove
block_lem c k h = rw h refl

blocked-IsQueue : (c : ℕ) (k : Kernel) → IsQueue k → IsQueue (blocked c k)
unfolding blocked
blocked-IsQueue c k q =
    set_status-IsQueue k c env_not_runnable (erase c k.env_sched_list) q
      (Distinct-erase c k.env_sched_list q.distinct)
      (λ i. has-erase i c k.env_sched_list q.distinct)

blocked-status : (c : ℕ) (k : Kernel) → is_runnable ((blocked c k).envs c).env_status ≡ false
unfolding blocked set_status set_env
blocked-status c k = ground arith

-- The environment is off the queue, and another environment runs.
abbrev pub Stopped : ℕ → Leave Ret → Kernel → Type 0
Stopped c l k =
    (l ≡ left)
    × IsQueue k
    × (has c k.env_sched_list ≡ false)
    × (e : ℕ) × (k.curenv ≡ some e)
    × (has e k.env_sched_list ≡ true)

-- An empty queue once `c` has stopped.
alone : (c : ℕ) (k : Kernel) → IsQueue k → (blocked c k).env_sched_list ≡ [] → NoOther c k
unfolding blocked
alone c k q e =
    (empty-NoOther c env_not_runnable k (erase c k.env_sched_list)
      (unfold blocked in blocked-IsQueue c k q) (unfold set_status set_env in e)).0

-- `schedule(1)` once the caller has stopped.
gave_way :
    (X : Type 0) (c : ℕ) (k : Kernel)
    → IsQueue k
    → is_runnable (k.envs c).env_status ≡ false
    → (k.env_sched_list ≡ [] → X)
    → KeepsUnless X
        (λ l k'. Stopped c l k' × (ipc_of (k'.envs c) ≡ ipc_of (k.envs c)))
        (schedule true k)
gave_way X c k q r why =
    KeepsUnless-weaken (k.env_sched_list ≡ []) X (Scheduled k)
      (λ l k'. Stopped c l k' × (ipc_of (k'.envs c) ≡ ipc_of (k.envs c))) (schedule true k)
      (schedule-KeepsUnless Ret true k q) why
      (λ l k' s. (
        (
          s.0,
          s.1,
          s.1.queued c ∙ ap is_runnable (s.2 c) ∙ r,
          s.3,
          s.4,
          s.1.queued s.3 ∙ ap is_runnable (s.2 s.3) ∙ s.5,
        ),
        s.6 c,
      ))

-- An environment that changes in other fields than its status keeps the queue.
pub set_env-IsQueue :
    (c : ℕ) (v : Env) (k : Kernel)
    → v.env_status ≡ (k.envs c).env_status
    → IsQueue k
    → IsQueue (set_env c v k)
unfolding set_env
set_env-IsQueue c v k h q = record {
  queued = λ i. q.queued i ∙ ap is_runnable (sym (set_env-status c v k i h));
  distinct = q.distinct;
}

-- On a queue in order, `sys_sleep` takes its caller, which is RUNNABLE, off the queue and runs another environment, or
-- the kernel panics because no other can run.
sys_sleep-Stopped :
    (k : Kernel) (c : ℕ)
    → IsQueue k
    → k.curenv ≡ some c
    → is_runnable (k.envs c).env_status ≡ true
    → KeepsUnless (NoOther c k) (Stopped c) (sys_sleep k)
unfolding sys_sleep need_cur need_cur_of sleep_from clear_a0
sys_sleep-Stopped k c q o r =
    subst (λ x. KeepsUnless (NoOther c k) (Stopped c) (need_cur_of sleep_from x k)) (sym o)
      (rw (block_lem c k (q.queued c ∙ r)) (
        KeepsUnless-weaken (NoOther c k) (NoOther c k) _ (Stopped c)
          (schedule true (clear_a0 c (blocked c k)))
          (gave_way (NoOther c k) c (clear_a0 c (blocked c k))
            (set_env-IsQueue c _ (blocked c k) refl (blocked-IsQueue c k q))
            (ap is_runnable (set_env-status c _ (blocked c k) c refl) ∙ blocked-status c k)
            (λ e. alone c k q (unfold set_env in e)))
          (λ x. x) (λ l k' s. s.0)))

-- The caller waits for a message from `from`, for the address `dstva`: it is off the queue, its fields say so, and
-- another environment runs.
abbrev pub Waits : ℕ → ℕ → ℕ → Leave Ret → Kernel → Type 0
Waits c dstva from l k = Stopped c l k × (ipc_of (k.envs c) ≡ (1, dstva, from))

announced :
    (c dstva from : ℕ) (k : Kernel)
    → ipc_of ((clear_stack_a0 (blocked c (announce c dstva from k))).envs c) ≡ (1, dstva, from)
unfolding clear_stack_a0 blocked announce set_status set_env
announced c dstva from k = let self : (c == c) ≡ true = ground arith in rw self refl

others_kept : (c dstva from : ℕ) (k : Kernel) → NoOther c (announce c dstva from k) → NoOther c k
unfolding announce
others_kept c dstva from k none_else i ne =
    ap is_runnable (sym (set_env-status c _ k i refl)) ∙ none_else i ne

recv_from-Waits :
    (k : Kernel) (c dstva from : ℕ)
    → IsQueue k
    → is_runnable (k.envs c).env_status ≡ true
    → KeepsUnless (NoOther c k) (Waits c dstva from) (recv_from dstva from c k)
unfolding recv_from
recv_from-Waits k c dstva from q r =
    let k1 = announce c dstva from k in
    let qa : IsQueue k1 = unfold announce in set_env-IsQueue c _ k refl q in
    let ra : is_runnable (k1.envs c).env_status ≡ true =
      unfold announce in ap is_runnable (set_env-status c _ k c refl) ∙ r in
    let k2 = clear_stack_a0 (blocked c k1) in
    let b = blocked-IsQueue c k1 qa in
    let q2 : IsQueue k2 =
      unfold clear_stack_a0 in record { queued = b.queued; distinct = b.distinct } in
    rw (block_lem c k1 (qa.queued c ∙ ra)) (
      KeepsUnless-weaken (NoOther c k) (NoOther c k) _ (Waits c dstva from) (schedule true k2)
        (gave_way (NoOther c k) c k2 q2 (unfold clear_stack_a0 in blocked-status c k1)
          (λ e. others_kept c dstva from k (alone c k1 qa (unfold clear_stack_a0 in e))))
        (λ x. x) (λ l k' s. (s.0, s.1 ∙ announced c dstva from k)))

-- An address that may be given for a page: 0, which asks for none, or one from UTEMP on and below UTOP; and any other.
abbrev pub IsAccepted : ℕ → Type 0
IsAccepted va = (va ≡ 0) ⊎ ((utemp ≤ va) × (va < utop))

abbrev pub IsRefused : ℕ → Type 0
IsRefused va = (va ≢ 0) × ((va < utemp) ⊎ (utop ≤ va))

refused : (va : ℕ) → (not (va == 0) && is_illegal_va va) ≡ true → IsRefused va
unfolding is_illegal_va
refused va h = ground arith

accepted : (va : ℕ) → (not (va == 0) && is_illegal_va va) ≡ false → IsAccepted va
unfolding is_illegal_va
accepted va h = ground arith

-- On a queue in order, with a RUNNABLE caller: `sys_ipc_recv` refuses exactly an address that is neither 0 nor between
-- UTEMP and UTOP, and then changes nothing; for any other, its caller is off the queue and waits for a message from
-- `from` for that address, and another environment runs, or the kernel panics because no other can run.
pub sys_ipc_recv-Stopped :
    (k : Kernel) (c dstva from : ℕ)
    → IsQueue k
    → k.curenv ≡ some c
    → is_runnable (k.envs c).env_status ≡ true
    → KeepsUnless
        (IsAccepted dstva × NoOther c k)
        (λ l k'.
          (IsRefused dstva × (l ≡ back (some e_inval)) × (k' ≡ k))
          ⊎ (IsAccepted dstva × Waits c dstva from l k'))
        (sys_ipc_recv dstva from k)
unfolding sys_ipc_recv on_cur on_cur_of
sys_ipc_recv-Stopped k c dstva from q o r =
    let X = IsAccepted dstva × NoOther c k in
    let P : Leave Ret → Kernel → Type 0 = λ l k'.
      (IsRefused dstva × (l ≡ back (some e_inval)) × (k' ≡ k))
      ⊎ (IsAccepted dstva × Waits c dstva from l k') in
    elim (Bool-cases (not (dstva == 0) && is_illegal_va dstva)) [
      | inl h ↦ rw h (inl (refused dstva h, refl, refl))
      | inr h ↦ rw h (
          subst (λ x. KeepsUnless X P (on_cur_of (recv_from dstva from) x k)) (sym o)
            (KeepsUnless-weaken (NoOther c k) X (Waits c dstva from) P (recv_from dstva from c k)
              (recv_from-Waits k c dstva from q r) (λ none_else. (accepted dstva h, none_else))
              (λ l k' w. inr (accepted dstva h, w))))
    ]
