-- ===== src/Kern/Interrupt/Queue.antt =====
-- Interrupts that processes handle keep the scheduling queue in order.
use mathlib.Core.Path.{subst}
use mos_riscv.Prelude.{
  ℕ, ◌%◌, ◌^◌, ◌+◌, ◌*◌, ◌≡◌, refl, sym, ap, ◌∙◌, Bool, true, false, not, ◌||◌, Option, none, some,
  ◌∷◌, ◌==◌, leb, Bool-cases, inl, inr,
}
use mos_riscv.Prelude.Run.{
  Run, Cmd, done, stopped, wild, Keeps, Keeps-and_then, Keeps-if, Keeps-option_run,
}
use mos_riscv.Kern.Error.{Ret, e_bad_env}
use mos_riscv.Kern.Pmap.Mem.{Mem}
use mos_riscv.Kern.Env.State.{
  Status, env_free, env_runnable, env_not_runnable, Env, Kernel, Leave, is_runnable, is_free,
  set_env,
}
use mos_riscv.Kern.Env.Table.{envid2env, envx, is_cur}
use mos_riscv.Kern.Env.Sched.{save_frame_of, save_frame, enter, env_run}
use mos_riscv.Kern.Env.Queue.{IsQueue}
use mos_riscv.Kern.Syscall.Blocking.{set_env-IsQueue}
use mos_riscv.Kern.Userspace.{copy_user_space_to_env, set_page_table, prepare}
use mos_riscv.Kern.Userspace.Safe.{with_mem, on_mem-with_mem, copy_user_space-Keeps, prepare-IsSafe}
use mos_riscv.Kern.Board.{
  Machine, Board, kernel_of, lift_kernel, in_kernel, lift_plic, in_plic, stack_tf_address,
}
use mos_riscv.Kern.Interrupt.Defs.{
  handler_sp, enter_handler, interrupt_current, break_off, wake, share_sie, set_handler_frame,
  interrupt_other, deliver_to, deliver_found, handle_env_interrupt, max_interrupt,
}
use mos_riscv.Driver.Device.Defs.{Devices, Device, iowrite, write_at, get_mapped_pa}
use mos_riscv.Driver.Plic.{
  Plic, lift_plic_devices, on_devices, with_plic, with_code, plic_set_prority, plic_mark_finish,
  register, claim_offset,
}

-- An environment that could not run joins the queue at its head.
at_head-IsQueue :
    (e : ℕ) (v : Env) (k : Kernel)
    → IsQueue k
    → is_runnable (k.envs e).env_status ≡ false
    → v.env_status ≡ env_runnable
    → IsQueue (record (set_env e v k) { env_sched_list = e ∷ k.env_sched_list })
unfolding set_env
at_head-IsQueue e v k q idle runs = record {
  queued =
      λ i. elim (Bool-cases (i == e)) [ inl s ↦ rw (s, runs) refl | inr s ↦ rw s (q.queued i) ];
  distinct = (q.queued e ∙ idle, q.distinct);
}

-- The queue does not depend on the memory, nor on the frame of the process that runs.
with_mem-IsQueue : (k k' : Kernel) → IsQueue k → (m : Mem) × (k' ≡ with_mem m k) → IsQueue k'
with_mem-IsQueue k k' q (m, e) =
    subst IsQueue (sym e) (record { queued = q.queued; distinct = q.distinct })

enter_handler-IsQueue : (sp e : ℕ) (k : Kernel) → IsQueue k → IsQueue (enter_handler sp e k)
unfolding enter_handler
enter_handler-IsQueue sp e k q = record { queued = q.queued; distinct = q.distinct }

-- What is kept: the queue.
abbrev InOrder : {A : Type 0} → A → Kernel → Type 0
InOrder a k = IsQueue k

interrupt_current-IsQueue :
    (hw : Machine) (e : ℕ) (k : Kernel) → IsQueue k → Keeps InOrder (interrupt_current hw e k)
unfolding interrupt_current
interrupt_current-IsQueue hw e k q =
    let sp = handler_sp (k.stack_tf.regs 2) in
    Keeps-and_then InOrder InOrder _ _
      (copy_user_space-Keeps InOrder stack_tf_address sp _ k (λ k' same.
        with_mem-IsQueue k' _ (with_mem-IsQueue k k' q same)
          (hw.put_frame (k'.envs e).env_pgdir sp k'.stack_tf k'.mem, refl)))
      (λ _ k' q'. enter_handler-IsQueue sp e k' q')

break_off-status : (v : Env) → (break_off v).env_status ≡ v.env_status
unfolding break_off
break_off-status v = elim (Bool-cases (v.env_in_syscall == 1)) [
  | inl t ↦ rw t refl
  | inr t ↦ rw t refl
]

wake-IsQueue :
    (st : Status) (e : ℕ) (k : Kernel)
    → (k.envs e).env_status ≡ st
    → IsQueue k
    → IsQueue (wake st e k)
unfolding wake
wake-IsQueue env_free e k s q = q
wake-IsQueue env_runnable e k s q = q
wake-IsQueue env_not_runnable e k s q =
    at_head-IsQueue e (record (break_off (k.envs e)) { env_status = env_runnable }) k q
      (ap is_runnable s) refl

set_page_table-IsQueue : (k : Kernel) → IsQueue k → IsQueue (set_page_table k)
unfolding set_page_table
set_page_table-IsQueue k q = record { queued = q.queued; distinct = q.distinct }

copy_to_env-IsQueue :
    (e src dst : ℕ) (memcpy : Cmd Kernel (Unit {0})) (k : Kernel)
    → IsQueue k
    → ((k' : Kernel) → IsQueue k' → Keeps InOrder (memcpy k'))
    → Keeps InOrder (copy_user_space_to_env e src dst memcpy k)
unfolding copy_user_space_to_env
copy_to_env-IsQueue e src dst memcpy k q next =
    let k1 = set_page_table k in
    let p = (k1.envs e).env_pgdir in
    Keeps-and_then (λ _ k'. (m : Mem) × (k' ≡ with_mem m k1)) InOrder _ _
      (on_mem-with_mem (prepare src dst p (k1.envs e).env_asid) k1
        (prepare-IsSafe src dst p (k1.envs e).env_asid k1.mem))
      (λ _ k2 same.
        Keeps-and_then InOrder InOrder (memcpy k2) _
          (next k2 (with_mem-IsQueue k1 k2 (set_page_table-IsQueue k q) same))
          (λ _ k3 q3. set_page_table-IsQueue k3 q3))

interrupt_other-IsQueue :
    (hw : Machine) (e : ℕ) (k : Kernel) → IsQueue k → Keeps InOrder (interrupt_other hw e k)
unfolding interrupt_other share_sie set_handler_frame
interrupt_other-IsQueue hw e k q =
    let k1 = wake (k.envs e).env_status e k in
    let sp = handler_sp ((k1.envs e).env_tf.regs 2) in
    Keeps-and_then InOrder InOrder _ _
      (copy_to_env-IsQueue e (hw.env_tf_address e) sp _ _
        (set_env-IsQueue e _ k1 refl (wake-IsQueue (k.envs e).env_status e k refl q))
        (λ k' q'.
          with_mem-IsQueue k' _ q'
            (hw.put_frame (k'.envs e).env_pgdir sp (k'.envs e).env_tf k'.mem, refl)))
      (λ _ k' q'. set_env-IsQueue e _ k' refl q')

save_frame-IsQueue : (o : Option ℕ) (k : Kernel) → IsQueue k → IsQueue (save_frame_of o k)
unfolding save_frame_of
save_frame-IsQueue none k q = q
save_frame-IsQueue (some c) k q = set_env-IsQueue c _ k refl q

enter-IsQueue : (e : ℕ) (k : Kernel) → IsQueue k → IsQueue (enter e k)
unfolding enter
enter-IsQueue e k q =
    let q1 =
      set_env-IsQueue e (record (k.envs e) { env_runs = ((k.envs e).env_runs + 1) % 2 ^ 64 }) k refl
        q in
    record { queued = q1.queued; distinct = q1.distinct }

env_run-IsQueue :
    (A : Type 0) (e : ℕ) (k : Kernel) → IsQueue k → Keeps {A = Leave A} InOrder (env_run e k)
unfolding env_run save_frame
env_run-IsQueue A e k q =
    Keeps-if InOrder (is_runnable (k.envs e).env_status) _ _
      (enter-IsQueue e (save_frame_of k.curenv k) (save_frame-IsQueue k.curenv k q)) tt

-- The pointer that is found for an identifier other than 0 is not NULL.
abbrev IsFound : Ret × Option ℕ → Type 0
IsFound (none, none) = ⊥
IsFound a = Unit

envid2env-IsFound :
    (envid : ℕ) (k : Kernel)
    → (envid == 0) ≡ false
    → Keeps (λ a k'. (k' ≡ k) × IsFound a) (envid2env envid false k)
unfolding envid2env
envid2env-IsFound envid k nz = rw nz (
    Keeps-if (λ a k'. (k' ≡ k) × IsFound a)
      (is_free (k.envs (envx envid)).env_status || not ((k.envs (envx envid)).env_id == envid))
      (done (some e_bad_env, none) k) (done (none, some (envx envid)) k) (refl, tt) (refl, tt))

-- What is kept on the whole: the queue of its kernel.
abbrev pub QueueKept : {A : Type 0} → A → Board → Type 0
QueueKept a b = IsQueue (kernel_of b)

lift_kernel-Keeps :
    {A : Type 0} (P : A → Kernel → Type 0) (r : Run Kernel A) (b : Board)
    → Keeps P r
    → Keeps (λ a b'. P a (kernel_of b')) (lift_kernel r b)
unfolding lift_kernel
lift_kernel-Keeps P (done a k) b h = h
lift_kernel-Keeps P stopped b h = tt
lift_kernel-Keeps P wild b h = h

in_kernel-Keeps :
    {A : Type 0} (P : A → Kernel → Type 0) (c : Cmd Kernel A) (b : Board)
    → Keeps P (c (kernel_of b))
    → Keeps (λ a b'. P a (kernel_of b')) (in_kernel c b)
unfolding in_kernel
in_kernel-Keeps P c b h = lift_kernel-Keeps P (c (kernel_of b)) b h

-- A write to a register leaves the kernel alone.
abbrev SameMaps : Devices → Unit {0} → Devices → Type 0
SameMaps d a d' = d'.kmmap ≡ d.kmmap

write_at-SameMaps :
    (width v : ℕ) (o : Option ℕ) (d : Devices) → Keeps (SameMaps d) (write_at width v o d)
unfolding write_at
write_at-SameMaps width v none d = tt
write_at-SameMaps width v (some va) d = refl

abbrev SamePlic : Plic → Unit {0} → Plic → Type 0
SamePlic p a p' = p'.devices.kmmap ≡ p.devices.kmmap

lift_plic_devices-SamePlic :
    (r : Run Devices (Unit {0})) (p : Plic)
    → Keeps (SameMaps p.devices) r
    → Keeps (SamePlic p) (lift_plic_devices r p)
unfolding lift_plic_devices
lift_plic_devices-SamePlic (done a d) p h = h
lift_plic_devices-SamePlic stopped p h = tt
lift_plic_devices-SamePlic wild p h = h

with_code-SamePlic :
    (code : ℕ) (rest : Device → Cmd Plic (Unit {0})) (p : Plic)
    → ((v : Device) → Keeps (SamePlic p) (rest v p))
    → Keeps (SamePlic p) (with_code code rest p)
unfolding with_code with_plic
with_code-SamePlic code rest p h =
    Keeps-option_run (SamePlic p) p.plic_device _ _ tt
      (λ v. Keeps-if (SamePlic p) (leb p.plic_interrupt_count code) _ _ tt (h v))

iowrite-SamePlic :
    (width v : ℕ) (dev : Device) (pa : ℕ) (p : Plic)
    → Keeps (SamePlic p) (on_devices (iowrite width dev v pa) p)
unfolding on_devices iowrite
iowrite-SamePlic width v dev pa p =
    lift_plic_devices-SamePlic _ p (write_at-SameMaps width _ (get_mapped_pa dev pa) p.devices)

plic_set_prority-SamePlic :
    (code prority : ℕ) (p : Plic) → Keeps (SamePlic p) (plic_set_prority code prority p)
unfolding plic_set_prority
plic_set_prority-SamePlic code prority p =
    with_code-SamePlic code _ p
      (λ v. iowrite-SamePlic 4 prority v (register (code * 4 % 2 ^ 32) p) p)

plic_mark_finish-SamePlic : (code : ℕ) (p : Plic) → Keeps (SamePlic p) (plic_mark_finish code p)
unfolding plic_mark_finish
plic_mark_finish-SamePlic code p =
    with_code-SamePlic code _ p (λ v. iowrite-SamePlic 4 code v (register claim_offset p) p)

lift_plic-QueueKept :
    (r : Run Plic (Unit {0})) (b : Board)
    → IsQueue (kernel_of b)
    → Keeps (SamePlic b.plic) r
    → Keeps QueueKept (lift_plic r b)
unfolding lift_plic
lift_plic-QueueKept (done a p) b q h = subst (λ m. IsQueue m.kernel) (sym h) q
lift_plic-QueueKept stopped b q h = tt
lift_plic-QueueKept wild b q h = h

in_plic-QueueKept :
    (c : Cmd Plic (Unit {0})) (b : Board)
    → IsQueue (kernel_of b)
    → Keeps (SamePlic b.plic) (c b.plic)
    → Keeps QueueKept (in_plic c b)
unfolding in_plic
in_plic-QueueKept c b q h = lift_plic-QueueKept (c b.plic) b q h

deliver_to-QueueKept :
    (hw : Machine) (code e : ℕ) (cur : Bool) (b : Board)
    → IsQueue (kernel_of b)
    → Keeps QueueKept (deliver_to hw code e cur b)
unfolding deliver_to
deliver_to-QueueKept hw code e true b q =
    Keeps-and_then QueueKept QueueKept (in_kernel (interrupt_current hw e) b) _
      (in_kernel-Keeps InOrder _ b (interrupt_current-IsQueue hw e (kernel_of b) q))
      (λ _ b1 q1.
        Keeps-and_then QueueKept QueueKept (in_plic (plic_mark_finish code) b1) _
          (in_plic-QueueKept _ b1 q1 (plic_mark_finish-SamePlic code b1.plic)) (λ _ b2 q2. q2))
deliver_to-QueueKept hw code e false b q =
    Keeps-and_then QueueKept QueueKept (in_kernel (interrupt_other hw e) b) _
      (in_kernel-Keeps InOrder _ b (interrupt_other-IsQueue hw e (kernel_of b) q))
      (λ _ b1 q1.
        Keeps-and_then QueueKept QueueKept (in_plic (plic_mark_finish code) b1) _
          (in_plic-QueueKept _ b1 q1 (plic_mark_finish-SamePlic code b1.plic))
          (λ _ b2 q2.
            in_kernel-Keeps InOrder (env_run e) b2
              (env_run-IsQueue (Unit {0}) e (kernel_of b2) q2)))

deliver_found-QueueKept :
    (hw : Machine) (code : ℕ) (a : Ret × Option ℕ) (b : Board)
    → IsFound a
    → IsQueue (kernel_of b)
    → Keeps QueueKept (deliver_found hw code a b)
unfolding deliver_found
deliver_found-QueueKept hw code (some err, o) b f q = q
deliver_found-QueueKept hw code (none, none) b f q = absurd f
deliver_found-QueueKept hw code (none, some e) b f q =
    Keeps-and_then QueueKept QueueKept (in_plic (plic_set_prority code 0) b) _
      (in_plic-QueueKept _ b q (plic_set_prority-SamePlic code 0 b.plic))
      (λ _ b' q'. deliver_to-QueueKept hw code e (is_cur (kernel_of b').curenv e) b' q')

-- Whoever runs and whoever handles the interrupt: on a queue in order, `handle_env_interrupt` has no undefined
-- behaviour and leaves the queue in order, unless the kernel panics.
pub handle_env_interrupt-IsQueue :
    (hw : Machine) (code : ℕ) (b : Board)
    → IsQueue (kernel_of b)
    → Keeps QueueKept (handle_env_interrupt hw code b)
unfolding handle_env_interrupt
handle_env_interrupt-IsQueue hw code b q =
    Keeps-if QueueKept (leb max_interrupt code) _ _ tt
      (elim (Bool-cases (b.interrupt_code_to_envid code == 0)) [
        | inl z ↦ rw z q
        | inr nz ↦ rw nz (
            Keeps-and_then (λ a b'. (kernel_of b' ≡ kernel_of b) × IsFound a) QueueKept
              (in_kernel (envid2env (b.interrupt_code_to_envid code) false) b) _
              (in_kernel-Keeps (λ a k'. (k' ≡ kernel_of b) × IsFound a) _ b
                (envid2env-IsFound (b.interrupt_code_to_envid code) (kernel_of b) nz))
              (λ a b' h. deliver_found-QueueKept hw code a b' h.1 (subst IsQueue (sym h.0) q)))
      ])
