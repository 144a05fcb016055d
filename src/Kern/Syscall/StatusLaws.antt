-- ===== src/Kern/Syscall/StatusLaws.antt =====
-- The system calls of kern/syscall_all.c that change a status keep the scheduling queue in order.
use mos_riscv.Prelude.{
  ℕ, ◌≡◌, ◌≢◌, refl, sym, ap, ◌∙◌, true, false, List, [], ◌∷◌, ◌++◌, ◌==◌, if◌then◌else◌, has,
  erase, Distinct, Bool-cases, arith, inl, inr, ==_iff,
}
use mos_riscv.Prelude.Run.{done}
use mos_riscv.Kern.Env.State.{
  Status, env_free, env_runnable, env_not_runnable, Kernel, is_runnable, is_free, set_env,
}
use mos_riscv.Kern.Env.Queue.{IsQueue, has-snoc, has-erase, Distinct-snoc, Distinct-erase}
use mos_riscv.Kern.Env.Turns.{remove_lem}
use mos_riscv.Kern.Syscall.Process.{change_queue, set_status}

-- A queue that follows the change of one status.
pub set_status-IsQueue :
    (k : Kernel) (e : ℕ) (st : Status) (xs : List ℕ)
    → IsQueue k
    → Distinct xs
    → ((i : ℕ) → has i xs ≡ (if i == e then is_runnable st else has i k.env_sched_list))
    → IsQueue (set_status e st (record k { env_sched_list = xs }))
unfolding set_status set_env
set_status-IsQueue k e st xs q d h = record {
  queued = λ i. elim (Bool-cases (i == e)) [
    | inl s ↦ rw (h i, s) refl
    | inr s ↦ rw (h i, s) (q.queued i)
  ];
  distinct = d;
}

-- The queue after `change_queue`, which does not fail on a queue in order.
unfoldable pub changed : Status → Status → ℕ → List ℕ → List ℕ
changed env_not_runnable env_runnable e xs = xs ++ (e ∷ [])
changed env_runnable env_not_runnable e xs = erase e xs
changed _ _ e xs = xs

pub change_queue_lem :
    (k : Kernel) (old st : Status) (e : ℕ)
    → IsQueue k
    → (k.envs e).env_status ≡ old
    → change_queue old st e k
      ≡ done tt (record k { env_sched_list = changed old st e k.env_sched_list })
unfolding change_queue changed
change_queue_lem k env_runnable env_not_runnable e q h =
    remove_lem e k (q.queued e ∙ ap is_runnable h)
change_queue_lem k env_runnable env_runnable e q h = refl
change_queue_lem k env_runnable env_free e q h = refl
change_queue_lem k env_not_runnable env_runnable e q h = refl
change_queue_lem k env_not_runnable env_not_runnable e q h = refl
change_queue_lem k env_not_runnable env_free e q h = refl
change_queue_lem k env_free env_runnable e q h = refl
change_queue_lem k env_free env_not_runnable e q h = refl
change_queue_lem k env_free env_free e q h = refl

same_has :
    (k : Kernel) (old : Status) (e i : ℕ)
    → IsQueue k
    → (k.envs e).env_status ≡ old
    → has i k.env_sched_list ≡ (if i == e then is_runnable old else has i k.env_sched_list)
same_has k old e i q h = elim (Bool-cases (i == e)) [
  | inl s ↦ rw (s, (==_iff i e).0 s, q.queued e, h) refl
  | inr s ↦ rw s refl
]

-- No environment other than `c` can run.
abbrev pub NoOther : ℕ → Kernel → Type 0
NoOther c k = (i : ℕ) → i ≢ c → is_runnable (k.envs i).env_status ≡ false

-- What an empty queue says once the status of `c` has been stored.
pub empty-NoOther :
    (c : ℕ) (st : Status) (k : Kernel) (xs : List ℕ)
    → IsQueue (set_status c st (record k { env_sched_list = xs }))
    → xs ≡ []
    → NoOther c k × (is_runnable st ≡ false)
unfolding set_status set_env
empty-NoOther c st k xs q e = (
  λ i ne.
      let other : (i == c) ≡ false = ground arith in
      let b : (if i == c then is_runnable st else is_runnable (k.envs i).env_status) ≡ false =
        sym (status_if i) ∙ none_queued i in
      rw other at b,
  let self : (c == c) ≡ true = ground arith in
      let b : (if c == c then is_runnable st else is_runnable (k.envs c).env_status) ≡ false =
        sym (status_if c) ∙ none_queued c in
      rw self at b,
)
  where
    none_queued :
        (i : ℕ)
        → is_runnable ((set_status c st (record k { env_sched_list = xs })).envs i).env_status
          ≡ false
    none_queued i = unfold set_status set_env in sym (q.queued i) ∙ ap (has i) e

    status_if :
        (i : ℕ)
        → is_runnable ((set_status c st (record k { env_sched_list = xs })).envs i).env_status
          ≡ (if i == c then is_runnable st else is_runnable (k.envs i).env_status)
    status_if i = unfold set_status set_env in ground arith

-- Statuses other than FREE change with the queue.
pub changed-IsQueue :
    (k : Kernel) (old st : Status) (e : ℕ)
    → IsQueue k
    → (k.envs e).env_status ≡ old
    → is_free old ≡ false
    → is_free st ≡ false
    → IsQueue (set_status e st (record k { env_sched_list = changed old st e k.env_sched_list }))
unfolding changed
changed-IsQueue k env_free st e q h f g = absurd (ground arith)
changed-IsQueue k env_runnable env_free e q h f g = absurd (ground arith)
changed-IsQueue k env_not_runnable env_free e q h f g = absurd (ground arith)
changed-IsQueue k env_runnable env_runnable e q h f g =
    set_status-IsQueue k e env_runnable k.env_sched_list q q.distinct
      (λ i. same_has k env_runnable e i q h)
changed-IsQueue k env_not_runnable env_not_runnable e q h f g =
    set_status-IsQueue k e env_not_runnable k.env_sched_list q q.distinct
      (λ i. same_has k env_not_runnable e i q h)
changed-IsQueue k env_runnable env_not_runnable e q h f g =
    set_status-IsQueue k e env_not_runnable (erase e k.env_sched_list) q
      (Distinct-erase e k.env_sched_list q.distinct)
      (λ i. has-erase i e k.env_sched_list q.distinct)
changed-IsQueue k env_not_runnable env_runnable e q h f g =
    set_status-IsQueue k e env_runnable (k.env_sched_list ++ (e ∷ [])) q
      (Distinct-snoc e k.env_sched_list q.distinct (q.queued e ∙ ap is_runnable h))
      (λ i. has-snoc i e k.env_sched_list)
