-- ===== src/Kern/Env/RoundRobin.antt =====
-- Many calls of `schedule` of kern/sched.c in a row.
use mos_riscv.Prelude.{
  ℕ, zero, suc, ◌+◌, ◌^◌, ◌<◌, ◌≡◌, refl, sym, ap, ◌∙◌, Bool, true, false, some, List, [], ◌∷◌,
  ◌++◌, has, Distinct, length, arith, ==_self,
}
use mathlib.Core.Path.{subst}
use mathlib.Core.List.{append_assoc}
use mos_riscv.Prelude.Run.{Cmd, pure, Returns, Returns-weaken, Returns-and_then, ◌>>◌}
use mos_riscv.Kern.Env.State.{Kernel, Leave, left}
use mos_riscv.Kern.Env.Sched.{decrement, is_ready, schedule}
use mos_riscv.Kern.Env.Queue.{IsQueue}
use mos_riscv.Kern.Env.Turns.{rotated, rotated-has, rotated-Distinct}
use mos_riscv.Kern.Env.Fairness.{schedule-switch, schedule-stay, Runs-IsQueue}

-- `n` calls: yields of the environments that run, or ticks of the timer.
unfoldable pub calls : Bool → ℕ → Cmd Kernel (Leave (Unit {0}))
calls yield zero = pure left
calls yield (suc n) = do schedule {A = Unit {0}} yield; calls yield n

-- The environment `c` runs, and the queue is `xs`.
pub record Turn (c : ℕ) (xs : List ℕ) (k : Kernel) : Type 0 where
  pub order : IsQueue k
  pub running : k.curenv ≡ some c
  pub queue : k.env_sched_list ≡ xs

rotated-Turn :
    (k : Kernel) (c : ℕ) (xs : List ℕ) → Turn c (c ∷ xs) k → rotated k.curenv k ≡ xs ++ (c ∷ [])
unfolding rotated is_ready
rotated-Turn k c xs t =
    ap (λ o. rotated o k) t.running
    ∙ rw (sym (t.order.queued c) ∙ ap (has c) t.queue, ==_self c, t.queue, ==_self c) refl

-- One yield gives the turn to the environment behind.
yield-Turn :
    (k : Kernel) (c e : ℕ) (xs ys : List ℕ)
    → Turn c (c ∷ xs) k
    → xs ++ (c ∷ []) ≡ e ∷ ys
    → Returns (λ _ k'. Turn e (e ∷ ys) k') (schedule {A = Unit {0}} true k)
yield-Turn k c e xs ys t p =
    let r : rotated k.curenv k ≡ e ∷ ys = rotated-Turn k c xs t ∙ p in
    Returns-weaken _ (λ _ k'. Turn e (e ∷ ys) k') (schedule {A = Unit {0}} true k)
      (schedule-switch (Unit {0}) true k e ys t.order refl r)
      (λ l k' s. record {
        order =
            Runs-IsQueue e _ (e ∷ ys) k k' t.order s.1
              (λ i. ap (has i) (sym r) ∙ rotated-has k.curenv k i t.order)
              (subst Distinct r (rotated-Distinct k.curenv k t.order));
        running = s.1.running;
        queue = s.1.queue;
      })

-- On a queue in order whose head runs, every queued environment has its turn: the one that stands behind `xs` runs after one yield for
-- each environment in front of it, and those have gone to the tail in their order.
pub calls-Turn :
    (xs ys : List ℕ) (k : Kernel) (c e : ℕ)
    → Turn c ((c ∷ xs) ++ (e ∷ ys)) k
    → Returns (λ _ k'. Turn e ((e ∷ ys) ++ (c ∷ xs)) k') (calls true (suc (length xs)) k)
unfolding calls
calls-Turn [] ys k c e t =
    Returns-and_then (λ _ k'. Turn e (e ∷ (ys ++ (c ∷ []))) k')
      (λ _ k'. Turn e (e ∷ (ys ++ (c ∷ []))) k') (schedule true k) (λ _. calls true 0)
      (yield-Turn k c e (e ∷ ys) (ys ++ (c ∷ [])) t refl) (λ _ k' u. u)
calls-Turn (x ∷ xs) ys k c e t =
    Returns-and_then (λ _ k'. Turn x ((x ∷ xs) ++ (e ∷ (ys ++ (c ∷ [])))) k')
      (λ _ k'. Turn e ((e ∷ ys) ++ (c ∷ x ∷ xs)) k') (schedule true k)
      (λ _. calls true (suc (length xs)))
      (yield-Turn k c x (x ∷ (xs ++ (e ∷ ys))) (xs ++ (e ∷ (ys ++ (c ∷ [])))) t
        (ap (λ l. x ∷ l) (append_assoc xs (e ∷ ys) (c ∷ []))))
      (λ _ k' u.
        subst (λ l. Returns (λ _ k2. Turn e (e ∷ l) k2) (calls true (suc (length xs)) k'))
          (append_assoc ys (c ∷ []) (x ∷ xs)) (calls-Turn xs (ys ++ (c ∷ [])) k' x e u))

-- On a queue in order, a queued environment that runs keeps the processor while it has slices: after `n` ticks, no more than its slices,
-- it still runs, the queue is as before and it has `n` slices less.
pub calls-slices :
    (n c s : ℕ) (xs : List ℕ) (k : Kernel)
    → Turn c xs k
    → has c xs ≡ true
    → k.count ≡ s + n
    → s + n < 2 ^ 32
    → Returns (λ _ k'. Turn c xs k' × (k'.count ≡ s)) (calls false n k)
unfolding calls
calls-slices zero c s xs k t h e b = (t, omega (arith, e))
calls-slices (suc n) c s xs k t h e b =
    Returns-and_then (λ _ k'. Turn c xs k' × (k'.count ≡ s + n))
      (λ _ k'. Turn c xs k' × (k'.count ≡ s)) (schedule false k) (λ _. calls false n)
      (Returns-weaken _ (λ _ k'. Turn c xs k' × (k'.count ≡ s + n)) (schedule false k)
        (schedule-stay (Unit {0}) k c t.running (sym (t.order.queued c) ∙ ap (has c) t.queue ∙ h)
          ground arith)
        (λ l k' r. (
          record {
            order = Runs-IsQueue c _ k.env_sched_list k k' t.order r.1 (λ i. refl) t.order.distinct;
            running = r.1.running;
            queue = r.1.queue ∙ t.queue;
          },
          r.1.slices ∙ ap decrement e ∙ omega arith,
        )))
      (λ _ k' u. calls-slices n c s xs k' u.0 h u.1 (omega arith))
