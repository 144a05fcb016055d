-- ===== src/Kern/Syscall/QueueLaws.antt =====
-- What the system calls of kern/syscall_all.c that change a status leave in the scheduling queue.
use mathlib.Core.Path.{subst}
use mos_riscv.Prelude.{
  ℕ, Bool, Option, List, ◌≢◌, ◌≡◌, refl, sym, ap, ◌∙◌, true, false, none, some, [], ◌==◌, arith,
  if◌then◌else◌, Bool-cases, inl, inr, ◌⊎◌,
}
use mos_riscv.Prelude.Run.{
  Cmd, done, KeepsUnless, KeepsUnless-and_then, KeepsUnless-weaken, Returns-KeepsUnless,
}
use mos_riscv.Kern.Error.{Error, Ret, success, e_inval}
use mos_riscv.Kern.Env.State.{
  Status, env_runnable, env_not_runnable, Kernel, Leave, back, left, is_free, is_runnable, set_env,
}
use mos_riscv.Kern.Env.Table.{is_cur, envid2env, Envid}
use mos_riscv.Kern.Env.Sched.{schedule}
use mos_riscv.Kern.Env.Queue.{IsQueue}
use mos_riscv.Kern.Env.Fairness.{schedule-KeepsUnless}
use mos_riscv.Kern.Env.Permission.{Answer, envid2env-Answer}
use mos_riscv.Kern.Syscall.Guard.{on_env, on_found}
use mos_riscv.Kern.Syscall.Process.{
  status_of, status_to, set_status, store_status, sys_set_env_status,
}
use mos_riscv.Kern.Syscall.StatusLaws.{
  changed, NoOther, empty-NoOther, changed-IsQueue, change_queue_lem,
}

-- The call comes back with 0 if `own` is false, and else another environment runs.
abbrev pub IsLeft : Bool → Leave Ret → Type 0
IsLeft true l = l ≡ left
IsLeft false l = l ≡ back success

-- The queue is in order, and the statuses are those of `k`.
abbrev HasStatuses : ℕ → Kernel → Leave Ret → Kernel → Type 0
HasStatuses e k l k' =
    IsLeft (is_cur k.curenv e) l
    × IsQueue k'
    × ((i : ℕ) → (k'.envs i).env_status ≡ (k.envs i).env_status)

-- After the status is stored.
ended :
    (X : Type 0) (k : Kernel) (e : ℕ)
    → IsQueue k
    → (is_cur k.curenv e ≡ true → k.env_sched_list ≡ [] → X)
    → KeepsUnless X
        (HasStatuses e k)
        (if is_cur k.curenv e then schedule {A = Ret} true k else done (back success) k)
ended X k e q none_left = elim (Bool-cases (is_cur k.curenv e)) [
  | inl c ↦ rw c (
      KeepsUnless-weaken (k.env_sched_list ≡ []) X _ (HasStatuses e k) (schedule {A = Ret} true k)
        (schedule-KeepsUnless Ret true k q) (none_left c) (λ l k' h. (rw c h.0, h.1, h.2)))
  | inr c ↦ rw c (rw c refl, q, λ i. refl)
]

-- The environment `e` has the status `st`, and the others have theirs.
abbrev pub IsStored : ℕ → Status → Kernel → Kernel → Type 0
IsStored e st k k' =
    ((k'.envs e).env_status ≡ st)
    × ((i : ℕ) → i ≢ e → (k'.envs i).env_status ≡ (k.envs i).env_status)

set_status-IsStored :
    (e : ℕ) (st : Status) (k : Kernel) (xs : List ℕ) (k' : Kernel)
    → ((i : ℕ)
        → (k'.envs i).env_status
          ≡ ((set_status e st (record k { env_sched_list = xs })).envs i).env_status)
    → IsStored e st k k'
unfolding set_status set_env
set_status-IsStored e st k xs k' h = (
  let self : (e == e) ≡ true = ground arith in h e ∙ rw self refl,
  λ i ne. let other : (i == e) ≡ false = ground arith in h i ∙ rw other refl,
)

store_status-IsQueue :
    (k : Kernel) (c e : ℕ) (st : Status)
    → IsQueue k
    → k.curenv ≡ some c
    → is_free (k.envs e).env_status ≡ false
    → is_free st ≡ false
    → KeepsUnless
        ((e ≡ c) × NoOther c k × (is_runnable st ≡ false))
        (λ l k'. IsLeft (c == e) l × IsQueue k' × IsStored e st k k')
        (store_status e st k)
unfolding store_status
store_status-IsQueue k c e st q o f g =
    let xs = changed (k.envs e).env_status st e k.env_sched_list in
    let q' = changed-IsQueue k (k.envs e).env_status st e q refl f g in
    let k1 = set_status e st (record k { env_sched_list = xs }) in
    let X = (e ≡ c) × NoOther c k × (is_runnable st ≡ false) in
    rw (change_queue_lem k (k.envs e).env_status st e q refl) (
      KeepsUnless-weaken X X (HasStatuses e k1)
        (λ l k'. IsLeft (c == e) l × IsQueue k' × IsStored e st k k') _
        (ended X k1 e q' (λ cur none_left.
          let cur' : is_cur (some c) e ≡ true =
            subst (λ x. is_cur x e ≡ true) o (unfold set_status set_env in cur) in
          let same : e ≡ c = ground arith in
          let none_else = empty-NoOther e st k xs q' (unfold set_status set_env in none_left) in
          (same, subst (λ x. NoOther x k) same none_else.0, none_else.1)))
        (λ x. x)
        (λ l k' (how, order, same). (
          subst (λ x. IsLeft (is_cur x e) l) o (unfold set_status set_env in how),
          order,
          set_status-IsStored e st k xs k' same,
        )))

-- A call that looks its environment up keeps what the rest keeps on an environment in use.
module _ (A X : Type 0) (P : Leave A → Kernel → Type 0) (fail : Error → A)
    (rest : ℕ → Cmd Kernel (Leave A)) (c envid : ℕ) (k : Kernel) (o : k.curenv ≡ some c)
    (f : is_free (k.envs c).env_status ≡ false)
    (p : (err : Error) (x : Option ℕ) → Answer c envid k (some err, x) → P (back (fail err)) k)
    (next : (e : ℕ)
      → Answer c envid k (none, some e)
      → is_free (k.envs e).env_status ≡ false
      → KeepsUnless X P (rest e k)) where
  answered :
      (k' : Kernel) (a : Envid)
      → k' ≡ k
      → Answer c envid k a
      → KeepsUnless X P (on_found fail rest a k')
  unfolding on_found
  answered k' (none, none) s a = absurd a
  answered k' (some err, x) s a = subst (P (back (fail err))) (sym s) (p err x a)
  answered k' (none, some e) s (inl u) =
      subst (λ x. KeepsUnless X P (rest e x)) (sym s)
        (next e (inl u) (ap (λ x. is_free (k.envs x).env_status) u.1 ∙ f))
  answered k' (none, some e) s (inr u) =
      subst (λ x. KeepsUnless X P (rest e x)) (sym s) (next e (inr u) u.1.in_use)

  on_env-KeepsUnless : KeepsUnless X P (on_env fail envid true rest k)
  unfolding on_env
  on_env-KeepsUnless =
      KeepsUnless-and_then X (λ a k'. (k' ≡ k) × Answer c envid k a) P (envid2env envid true k)
        (on_found fail rest)
        (Returns-KeepsUnless X (λ a k'. (k' ≡ k) × Answer c envid k a) (envid2env envid true k)
          (envid2env-Answer c envid k o))
        (λ a k' h. answered k' a h.0 h.1)

-- The number of a status that may be set: 1 for RUNNABLE, 2 for NOT_RUNNABLE.
abbrev pub IsNumber : ℕ → Status → Type 0
IsNumber n st = ((n ≡ 1) × (st ≡ env_runnable)) ⊎ ((n ≡ 2) × (st ≡ env_not_runnable))

status_of-IsNumber :
    (n : ℕ)
    → ((status_of n ≡ none) × (n ≢ 1) × (n ≢ 2))
      ⊎ ((st : Status) × (status_of n ≡ some st) × IsNumber n st)
unfolding status_of
status_of-IsNumber n = elim (Bool-cases (n == 1)) [
  | inl a ↦ rw a (inr (env_runnable, refl, inl (ground arith, refl)))
  | inr a ↦ elim (Bool-cases (n == 2)) [
    | inl b ↦ rw (a, b) (inr (env_not_runnable, refl, inr (ground arith, refl)))
    | inr b ↦ rw (a, b) (inl (refl, ground arith, ground arith))
  ]
]

live : (n : ℕ) (st : Status) → IsNumber n st → is_free st ≡ false
live n st (inl (e, s)) = ap is_free s
live n st (inr (e, s)) = ap is_free s

stops : (n : ℕ) (st : Status) → IsNumber n st → is_runnable st ≡ false → n ≡ 2
stops n st (inl (e, s)) h = absurd (cc (sym (ap is_runnable s) ∙ h))
stops n st (inr (e, s)) h = e

-- The call has failed and changed nothing: the number is no status, or `envid` names no environment that `c` may
-- manipulate.
abbrev pub IsRejected : ℕ → ℕ → ℕ → Kernel → Leave Ret → Kernel → Type 0
IsRejected c envid n k l k' =
    (err : Error) × (l ≡ back (some err))
    × (k' ≡ k)
    × (((err ≡ e_inval) × (n ≢ 1) × (n ≢ 2)) ⊎ ((x : Option ℕ) × Answer c envid k (some err, x)))

-- The environment that `envid` names for `c` has the status of that number, and the others have theirs. The call
-- returns 0, or another environment runs if it was the caller's own status.
abbrev pub IsChanged : ℕ → ℕ → ℕ → Kernel → Leave Ret → Kernel → Type 0
IsChanged c envid n k l k' =
    (e : ℕ) × (st : Status) × IsLeft (c == e) l
    × Answer c envid k (none, some e)
    × IsNumber n st
    × IsStored e st k k'

-- `sys_set_env_status`, called by an environment that is not FREE, on a queue in order: it sets the status of the
-- environment that `envid` names and of no other, and returns 0 or, for the caller's own, gives way; or it fails and changes nothing, where the number is no status that
-- may be set or `envid` names no environment that the caller may manipulate; the queue is in order afterwards. It
-- panics only if the caller sets its own status to 2 (NOT_RUNNABLE) and no other environment can run.
pub sys_set_env_status-IsQueue :
    (k : Kernel) (c envid status : ℕ)
    → IsQueue k
    → k.curenv ≡ some c
    → is_free (k.envs c).env_status ≡ false
    → KeepsUnless
        ((status ≡ 2) × Answer c envid k (none, some c) × NoOther c k)
        (λ l k'. IsQueue k' × (IsRejected c envid status k l k' ⊎ IsChanged c envid status k l k'))
        (sys_set_env_status envid status k)
unfolding sys_set_env_status status_to
sys_set_env_status-IsQueue k c envid status q o f =
    let X = (status ≡ 2) × Answer c envid k (none, some c) × NoOther c k in
    let P : Leave Ret → Kernel → Type 0 =
      λ l k'. IsQueue k' × (IsRejected c envid status k l k' ⊎ IsChanged c envid status k l k') in
    elim (status_of-IsNumber status) [
      | inl (n, not_1, not_2) ↦
          subst (λ x. KeepsUnless X P (status_to envid x k)) (sym n)
            (q, inl (e_inval, refl, refl, inl (refl, not_1, not_2)))
      | inr (st, s, number) ↦
          subst (λ x. KeepsUnless X P (status_to envid x k)) (sym s)
            (on_env-KeepsUnless Ret X P some (λ e. store_status e st) c envid k o f
              (λ err x a. (q, inl (err, refl, refl, inr (x, a))))
              (λ e a h.
                KeepsUnless-weaken ((e ≡ c) × NoOther c k × (is_runnable st ≡ false)) X
                  (λ l k'. IsLeft (c == e) l × IsQueue k' × IsStored e st k k') P
                  (store_status e st k)
                  (store_status-IsQueue k c e st q o h (live status st number))
                  (λ (same, none_else, off). (
                    stops status st number off,
                    subst (λ x. Answer c envid k (none, some x)) same a,
                    none_else,
                  ))
                  (λ l k' (how, order, stored). (order, inr (e, st, how, a, number, stored)))))
    ]
