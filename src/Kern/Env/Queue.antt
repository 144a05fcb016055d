-- ===== src/Kern/Env/Queue.antt =====
-- The scheduling queue as a list: what the operations of kern/env.c and kern/sched.c keep of it.
use mos_riscv.Prelude.{
  ℕ, ◌≡◌, refl, sym, true, false, List, [], ◌∷◌, ◌++◌, ◌==◌, if◌then◌else◌, has, erase, Distinct,
  Bool-cases, arith, inl, inr, ap,
}
use mos_riscv.Kern.Env.State.{Kernel, Env, is_runnable, set_env}

-- The queue holds the RUNNABLE environments, each once.
pub record IsQueue (k : Kernel) : Type 0 where
  pub queued : (i : ℕ) → has i k.env_sched_list ≡ is_runnable (k.envs i).env_status
  pub distinct : Distinct k.env_sched_list

pub has-snoc :
    (a e : ℕ) (xs : List ℕ) → has a (xs ++ (e ∷ [])) ≡ (if a == e then true else has a xs)
has-snoc a e [] = elim (Bool-cases (a == e)) [ inl h ↦ rw h | inr h ↦ rw h ]
has-snoc a e (x ∷ xs) = elim (Bool-cases (a == x)) [
  | inl h ↦ elim (Bool-cases (a == e)) [ inl q ↦ rw (h, q) | inr q ↦ rw (h, q) ]
  | inr h ↦ rw (h, has-snoc a e xs)
]

pub Distinct-snoc :
    (e : ℕ) (xs : List ℕ) → Distinct xs → has e xs ≡ false → Distinct (xs ++ (e ∷ []))
Distinct-snoc e [] d h = (refl, tt)
Distinct-snoc e (x ∷ xs) d h =
    (ground (arith, has-snoc x e xs, d.0), Distinct-snoc e xs d.1 (ground arith))

pub has-erase :
    (a e : ℕ) (xs : List ℕ)
    → Distinct xs
    → has a (erase e xs) ≡ (if a == e then false else has a xs)
has-erase a e [] d = ground arith
has-erase a e (x ∷ xs) d = elim (Bool-cases (e == x)) [
  | inl h ↦
      let p : e ≡ x = ground arith in
      elim (Bool-cases (a == x)) [
        | inl q ↦ let r : a ≡ x = ground arith in rw (p, r) (ground (arith, d.0))
        | inr q ↦ rw h (ground arith)
      ]
  | inr h ↦ rw h (ground (arith, has-erase a e xs d.1))
]

pub Distinct-erase : (e : ℕ) (xs : List ℕ) → Distinct xs → Distinct (erase e xs)
Distinct-erase e [] d = tt
Distinct-erase e (x ∷ xs) d = elim (Bool-cases (e == x)) [
  | inl h ↦ rw h d.1
  | inr h ↦ rw h (ground (arith, has-erase x e xs d.1, d.0), Distinct-erase e xs d.1)
]

-- A change that keeps the status of every environment.
-- What an environment has agreed to receive.
abbrev pub ipc_of : Env → ℕ × ℕ × ℕ
ipc_of v = (v.env_ipc_recving, v.env_ipc_dstva, v.env_ipc_recv_from)

pub set_env-ipc :
    (c : ℕ) (v : Env) (k : Kernel) (i : ℕ)
    → ipc_of v ≡ ipc_of (k.envs c)
    → ipc_of ((set_env c v k).envs i) ≡ ipc_of (k.envs i)
unfolding set_env
set_env-ipc c v k i h = elim (Bool-cases (i == c)) [
  | inl q ↦ rw (q, h) (ap (λ j. ipc_of (k.envs j)) (sym (ground arith)))
  | inr q ↦ rw q refl
]

pub set_env-status :
    (c : ℕ) (v : Env) (k : Kernel) (i : ℕ)
    → v.env_status ≡ (k.envs c).env_status
    → ((set_env c v k).envs i).env_status ≡ (k.envs i).env_status
unfolding set_env
set_env-status c v k i h = elim (Bool-cases (i == c)) [
  | inl q ↦ rw (q, h) (ap (λ j. (k.envs j).env_status) (sym (ground arith)))
  | inr q ↦ rw q
]
