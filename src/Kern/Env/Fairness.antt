-- ===== src/Kern/Env/Fairness.antt =====
-- `schedule` of kern/sched.c over many calls: no environment is lost, each has its turn and its
-- slices.
use mos_riscv.Prelude.{
  ℕ, ◌%◌, ◌^◌, ◌≡◌, refl, sym, ap, ◌∙◌, Bool, true, false, not, ◌||◌, Option, none, some, List, [],
  ◌∷◌, ◌==◌, if◌then◌else◌, has, Distinct, Bool-cases, arith, inl, inr, ==_self,
}
use mathlib.Core.Path.{subst}
use mos_riscv.Prelude.Run.{KeepsUnless, Returns-KeepsUnless, Returns, Returns-weaken, and_then}
use mos_riscv.Kern.Env.State.{Kernel, Leave, left, is_runnable}
use mos_riscv.Kern.Env.Sched.{decrement, is_ready, run_head, run_first, requeue_of, go_on, schedule}
use mos_riscv.Kern.Env.Queue.{IsQueue, ipc_of}
use mos_riscv.Kern.Env.Turns.{
  Runs, env_run-Runs, requeue_lem, rotated, rotated-has, rotated-Distinct,
}

-- The head of the queue is runnable.
head_lem :
    (k : Kernel) (e : ℕ) (rest : List ℕ)
    → IsQueue k
    → rotated k.curenv k ≡ e ∷ rest
    → is_runnable (k.envs e).env_status ≡ true
head_lem k e rest q h =
    sym (q.queued e) ∙ sym (rotated-has k.curenv k e q) ∙ rw h (rw (==_self e) refl)

-- When `schedule` switches: it was asked to yield, the slices are used up, or the environment that
-- ran cannot go on.
abbrev pub switches : Bool → Kernel → Bool
switches yield k = yield || (k.count == 0) || not (is_ready k.curenv k)

-- On a queue in order, a call that switches, with something to run, runs the head of the queue, once the environment that gives way has gone to
-- the tail, with the slices of its priority; statuses stay.
pub schedule-switch :
    (A : Type 0) (yield : Bool) (k : Kernel) (e : ℕ) (rest : List ℕ)
    → IsQueue k
    → switches yield k ≡ true
    → rotated k.curenv k ≡ e ∷ rest
    → Returns {A = Leave A}
        (λ l k'. (l ≡ left) × Runs e (e ∷ rest) (decrement ((k.envs e).env_pri % 2 ^ 32)) k k')
        (schedule yield k)
unfolding schedule run_first run_head
schedule-switch A yield k e rest q t h =
    rw (t, requeue_lem k.curenv k q, h)
      (env_run-Runs A e k _ (λ i. refl) (λ i. refl) (head_lem k e rest q h))

-- A call that does not switch leaves the same environment running, with one slice less.
pub schedule-stay :
    (A : Type 0) (k : Kernel) (e : ℕ)
    → k.curenv ≡ some e
    → is_runnable (k.envs e).env_status ≡ true
    → (k.count == 0) ≡ false
    → Returns {A = Leave A}
        (λ l k'. (l ≡ left) × Runs e k.env_sched_list (decrement k.count) k k')
        (schedule false k)
unfolding schedule go_on is_ready
schedule-stay A k e c r n =
    subst
      (λ o.
        Returns {A = Leave A}
          (λ l k'. (l ≡ left) × Runs e k.env_sched_list (decrement k.count) k k')
          (if false || (k.count == 0) || not (is_ready o k)
            then and_then (requeue_of o k) (λ _. run_first {A = A})
            else go_on o k))
      (sym c)
      (rw (n, r)
        (env_run-Runs A e k (record k { count = decrement k.count }) (λ i. refl) (λ i. refl) r))

-- A queue with the same elements stays in order.
pub Runs-IsQueue :
    (e n : ℕ) (xs : List ℕ) (k k' : Kernel)
    → IsQueue k
    → Runs e xs n k k'
    → ((i : ℕ) → has i xs ≡ has i k.env_sched_list)
    → Distinct xs
    → IsQueue k'
Runs-IsQueue e n xs k k' q r same d = record {
  queued = λ i. ap (has i) r.queue ∙ same i ∙ q.queued i ∙ ap is_runnable (sym (r.status i));
  distinct = subst Distinct (sym r.queue) d;
}

-- An environment that is ready is there.
is_ready-some :
    (o : Option ℕ) (k : Kernel)
    → is_ready o k ≡ true
    → (e : ℕ) × (o ≡ some e) × (is_runnable (k.envs e).env_status ≡ true)
unfolding is_ready
is_ready-some none k h = absurd (ground arith)
is_ready-some (some e) k h = (e, refl, h)

-- What `schedule` leaves: a queue in order, and a RUNNABLE environment that runs; what environments wait for stays.
abbrev pub Scheduled : {A : Type 0} → Kernel → Leave A → Kernel → Type 0
Scheduled k l k' =
    (l ≡ left)
    × IsQueue k'
    × ((i : ℕ) → (k'.envs i).env_status ≡ (k.envs i).env_status)
    × (e : ℕ) × (k'.curenv ≡ some e)
    × (is_runnable (k.envs e).env_status ≡ true)
    × ((i : ℕ) → ipc_of (k'.envs i) ≡ ipc_of (k.envs i))

false_ne_true : ¬ (false ≡ true)
false_ne_true h = absurd (ground arith)

switched-Scheduled :
    (A : Type 0) (yield : Bool) (k : Kernel) (e : ℕ) (xs : List ℕ)
    → rotated k.curenv k ≡ xs
    → IsQueue k
    → has e k.env_sched_list ≡ true
    → switches yield k ≡ true
    → Returns {A = Leave A} (Scheduled k) (schedule yield k)
switched-Scheduled A yield k e [] p q h t =
    absurd (false_ne_true (ap (has e) (sym p) ∙ rotated-has k.curenv k e q ∙ h))
switched-Scheduled A yield k e (x ∷ xs) p q h t =
    Returns-weaken _ (Scheduled k) (schedule yield k) (schedule-switch A yield k x xs q t p)
      (λ l k' r. (
        r.0,
        Runs-IsQueue x _ (x ∷ xs) k k' q r.1 (λ i. ap (has i) (sym p) ∙ rotated-has k.curenv k i q)
            (subst Distinct p (rotated-Distinct k.curenv k q)),
        r.1.status,
        x,
        r.1.running,
        head_lem k x xs q p,
        r.1.ipc,
      ))

stayed-Scheduled :
    (A : Type 0) (yield : Bool) (k : Kernel)
    → IsQueue k
    → switches yield k ≡ false
    → Returns {A = Leave A} (Scheduled k) (schedule yield k)
stayed-Scheduled A true k q t = absurd (ground arith)
stayed-Scheduled A false k q t =
    let (c, o, r) = is_ready-some k.curenv k (ground arith) in
    Returns-weaken _ (Scheduled k) (schedule false k) (schedule-stay A k c o r (ground arith))
      (λ l k' s. (
        s.0,
        Runs-IsQueue c _ k.env_sched_list k k' q s.1 (λ i. refl) q.distinct,
        s.1.status,
        c,
        s.1.running,
        r,
        s.1.ipc,
      ))

-- If the queue holds the RUNNABLE environments, each once, and is not empty, `schedule` does not panic: it runs a RUNNABLE environment, changes
-- no status, and the queue still holds the RUNNABLE environments, each once.
pub schedule-Scheduled :
    (A : Type 0) (yield : Bool) (k : Kernel) (e : ℕ)
    → IsQueue k
    → has e k.env_sched_list ≡ true
    → Returns {A = Leave A} (Scheduled k) (schedule yield k)
schedule-Scheduled A yield k e q h = elim (Bool-cases (switches yield k)) [
  | inl t ↦ switched-Scheduled A yield k e (rotated k.curenv k) refl q h t
  | inr t ↦ stayed-Scheduled A yield k q t
]

rotated_idle : (o : Option ℕ) (k : Kernel) → is_ready o k ≡ false → rotated o k ≡ k.env_sched_list
unfolding rotated
rotated_idle none k h = refl
rotated_idle (some c) k h = rw h refl

-- Nothing to run, or a call that ends as above.
kept :
    (A : Type 0) (yield : Bool) (k : Kernel) (xs : List ℕ)
    → k.env_sched_list ≡ xs
    → IsQueue k
    → KeepsUnless {A = Leave A} (k.env_sched_list ≡ []) (Scheduled k) (schedule yield k)
unfolding schedule run_first run_head
kept A yield k [] p q = elim (Bool-cases (is_ready k.curenv k)) [
  | inl r ↦
      let (c, o, h) = is_ready-some k.curenv k r in
      absurd (false_ne_true (ap (has c) (sym p) ∙ q.queued c ∙ h))
  | inr r ↦
      let e : rotated k.curenv k ≡ [] = rotated_idle k.curenv k r ∙ p in
      elim (Bool-cases (switches yield k)) [
        | inl t ↦ rw (t, requeue_lem k.curenv k q, e) p
        | inr t ↦ absurd (ground arith)
      ]
]
kept A yield k (x ∷ xs) p q =
    Returns-KeepsUnless (k.env_sched_list ≡ []) (Scheduled k) (schedule yield k)
      (schedule-Scheduled A yield k x q (rw (p, ==_self x) refl))

-- `schedule` ends so, or panics because the queue is empty.
pub schedule-KeepsUnless :
    (A : Type 0) (yield : Bool) (k : Kernel)
    → IsQueue k
    → KeepsUnless {A = Leave A} (k.env_sched_list ≡ []) (Scheduled k) (schedule yield k)
schedule-KeepsUnless A yield k q = kept A yield k k.env_sched_list refl q
