-- ===== src/Kern/Env/Turns.antt =====
-- What one call of `schedule` in kern/sched.c does with the queue and the running environment.
use mos_riscv.Prelude.{
  ℕ, ◌+◌, ◌%◌, ◌^◌, ◌≡◌, refl, ◌∙◌, true, Option, none, some, List, [], ◌∷◌, ◌++◌, ◌==◌,
  if◌then◌else◌, has, erase, Distinct, Bool-cases, inl, inr, ==_iff, ==_self,
}
use mos_riscv.Prelude.Run.{done, Returns}
use mos_riscv.Kern.Env.State.{Kernel, Leave, left, is_runnable, sched_remove, set_env}
use mos_riscv.Kern.Env.Sched.{save_frame_of, save_frame, enter, env_run, is_ready, requeue_of}
use mos_riscv.Kern.Env.Queue.{
  IsQueue, ipc_of, set_env-ipc, set_env-status, has-snoc, has-erase, Distinct-snoc, Distinct-erase,
}

-- `e` runs with `n` slices left and the given queue; the environments are otherwise those of `k`.
pub record Runs (e : ℕ) (sched : List ℕ) (n : ℕ) (k k' : Kernel) : Type 0 where
  pub running : k'.curenv ≡ some e
  pub queue : k'.env_sched_list ≡ sched
  pub slices : k'.count ≡ n
  pub status : (i : ℕ) → (k'.envs i).env_status ≡ (k.envs i).env_status
  pub ipc : (i : ℕ) → ipc_of (k'.envs i) ≡ ipc_of (k.envs i)

save_frame_of-status :
    (o : Option ℕ) (k : Kernel) (i : ℕ)
    → ((save_frame_of o k).envs i).env_status ≡ (k.envs i).env_status
unfolding save_frame_of
save_frame_of-status none k i = refl
save_frame_of-status (some c) k i =
    set_env-status c (record (k.envs c) { env_tf = k.stack_tf }) k i refl

save_frame_of-ipc :
    (o : Option ℕ) (k : Kernel) (i : ℕ) → ipc_of ((save_frame_of o k).envs i) ≡ ipc_of (k.envs i)
unfolding save_frame_of
save_frame_of-ipc none k i = refl
save_frame_of-ipc (some c) k i = set_env-ipc c (record (k.envs c) { env_tf = k.stack_tf }) k i refl

save_frame_of-queue :
    (o : Option ℕ) (k : Kernel) → (save_frame_of o k).env_sched_list ≡ k.env_sched_list
unfolding save_frame_of set_env
save_frame_of-queue none k = refl
save_frame_of-queue (some c) k = refl

save_frame_of-count : (o : Option ℕ) (k : Kernel) → (save_frame_of o k).count ≡ k.count
unfolding save_frame_of set_env
save_frame_of-count none k = refl
save_frame_of-count (some c) k = refl

enter-status :
    (e : ℕ) (k : Kernel) (i : ℕ) → ((enter e k).envs i).env_status ≡ (k.envs i).env_status
unfolding enter
enter-status e k i =
    set_env-status e (record (k.envs e) { env_runs = ((k.envs e).env_runs + 1) % 2 ^ 64 }) k i refl

enter-ipc : (e : ℕ) (k : Kernel) (i : ℕ) → ipc_of ((enter e k).envs i) ≡ ipc_of (k.envs i)
unfolding enter
enter-ipc e k i =
    set_env-ipc e (record (k.envs e) { env_runs = ((k.envs e).env_runs + 1) % 2 ^ 64 }) k i refl

enter-Runs :
    (e : ℕ) (base k : Kernel)
    → ((i : ℕ) → (k.envs i).env_status ≡ (base.envs i).env_status)
    → ((i : ℕ) → ipc_of (k.envs i) ≡ ipc_of (base.envs i))
    → Runs e k.env_sched_list k.count base (enter e (save_frame k))
unfolding enter set_env save_frame
enter-Runs e base k same agreed = record {
  running = refl;
  queue = save_frame_of-queue k.curenv k;
  slices = save_frame_of-count k.curenv k;
  status = λ i. enter-status e (save_frame k) i ∙ save_frame_of-status k.curenv k i ∙ same i;
  ipc = λ i. enter-ipc e (save_frame k) i ∙ save_frame_of-ipc k.curenv k i ∙ agreed i;
}

pub env_run-Runs :
    (A : Type 0) (e : ℕ) (base k : Kernel)
    → ((i : ℕ) → (k.envs i).env_status ≡ (base.envs i).env_status)
    → ((i : ℕ) → ipc_of (k.envs i) ≡ ipc_of (base.envs i))
    → is_runnable (base.envs e).env_status ≡ true
    → Returns {A = Leave A}
        (λ l k'. (l ≡ left) × Runs e k.env_sched_list k.count base k')
        (env_run e k)
unfolding env_run
env_run-Runs A e base k same agreed h = rw (same e, h) (refl, enter-Runs e base k same agreed)

pub remove_lem :
    (c : ℕ) (k : Kernel)
    → has c k.env_sched_list ≡ true
    → sched_remove c k ≡ done tt (record k { env_sched_list = erase c k.env_sched_list })
unfolding sched_remove
remove_lem c k h = rw h refl

-- The queue once the environment that gives way has gone to its tail.
unfoldable pub rotated : Option ℕ → Kernel → List ℕ
rotated none k = k.env_sched_list
rotated (some c) k =
    if is_ready (some c) k then erase c k.env_sched_list ++ (c ∷ []) else k.env_sched_list

pub requeue_lem :
    (o : Option ℕ) (k : Kernel)
    → IsQueue k
    → requeue_of o k ≡ done tt (record k { env_sched_list = rotated o k })
unfolding requeue_of rotated is_ready
requeue_lem none k q = refl
requeue_lem (some c) k q = elim (Bool-cases (is_runnable (k.envs c).env_status)) [
  | inl r ↦ rw (r, remove_lem c k (q.queued c ∙ r)) refl
  | inr r ↦ rw r refl
]

pub rotated-has :
    (o : Option ℕ) (k : Kernel) (i : ℕ) → IsQueue k → has i (rotated o k) ≡ has i k.env_sched_list
unfolding rotated is_ready
rotated-has none k i q = refl
rotated-has (some c) k i q = elim (Bool-cases (is_runnable (k.envs c).env_status)) [
  | inl r ↦
      rw (r, has-snoc i c (erase c k.env_sched_list), has-erase i c k.env_sched_list q.distinct)
        (elim (Bool-cases (i == c)) [
          | inl h ↦ rw (h, (==_iff i c).0 h, q.queued c, r) refl
          | inr h ↦ rw h refl
        ])
  | inr r ↦ rw r refl
]

pub rotated-Distinct : (o : Option ℕ) (k : Kernel) → IsQueue k → Distinct (rotated o k)
unfolding rotated is_ready
rotated-Distinct none k q = q.distinct
rotated-Distinct (some c) k q = elim (Bool-cases (is_runnable (k.envs c).env_status)) [
  | inl r ↦ rw r (
      Distinct-snoc c (erase c k.env_sched_list) (Distinct-erase c k.env_sched_list q.distinct)
        (rw (has-erase c c k.env_sched_list q.distinct, ==_self c) refl))
  | inr r ↦ rw r q.distinct
]
