-- ===== src/Kern/Env/Permission.antt =====
-- Which environments `envid2env` of kern/env.c lets the running one manipulate.
use mos_riscv.Prelude.{
  ℕ, ◌%◌, ◌≡◌, ◌≢◌, refl, sym, ap, ◌∙◌, true, false, none, some, ◌==◌, Bool-cases, arith, inl, inr,
  ==_iff, ◌⊎◌,
}
use mathlib.Core.Path.{subst}
use mos_riscv.Prelude.Run.{Returns}
use mos_riscv.Kern.Error.{e_bad_env}
use mos_riscv.Kern.Env.State.{Kernel, is_free}
use mos_riscv.Kern.Env.Table.{envid2env, check_perm, Envid}

-- `e` is in use under the identifier `envid`, and is `c` or a child of it.
pub record IsPermitted (c e envid : ℕ) (k : Kernel) : Type 0 where
  pub in_use : is_free (k.envs e).env_status ≡ false
  pub same_id : (k.envs e).env_id ≡ envid
  pub related : (c ≡ e) ⊎ ((k.envs e).env_parent_id ≡ (k.envs c).env_id)

-- The outcome for the environment `c`.
abbrev pub Answer : ℕ → ℕ → Kernel → Envid → Type 0
Answer c envid k (none, none) = ⊥
Answer c envid k (none, some e) =
    ((envid ≡ 0) × (e ≡ c)) ⊎ ((e ≡ envid % 1024) × IsPermitted c e envid k)
Answer c envid k (some err, o) =
    (err ≡ e_bad_env) × (o ≡ none) × (envid ≢ 0) × ¬ IsPermitted c (envid % 1024) envid k

false_lem : ¬ (false ≡ true)
false_lem h = absurd (ground arith)

checked :
    (c e envid : ℕ) (k : Kernel)
    → e ≡ envid % 1024
    → envid ≢ 0
    → is_free (k.envs e).env_status ≡ false
    → (k.envs e).env_id ≡ envid
    → Returns (λ a k'. (k' ≡ k) × Answer c envid k a) (check_perm (some c) e k)
unfolding check_perm
checked c e envid k r nz f i = elim (Bool-cases (c == e)) [
  | inl s ↦
      rw s (refl, inr (r, record { in_use = f; same_id = i; related = inl ((==_iff c e).0 s) }))
  | inr s ↦ elim (Bool-cases ((k.envs e).env_parent_id == (k.envs c).env_id)) [
    | inl p ↦
        rw (s, p)
          (refl, inr (r, record { in_use = f; same_id = i; related = inr ((==_iff _ _).0 p) }))
    | inr p ↦
        rw (s, p)
          (
            refl,
            (
              refl,
              refl,
              nz,
              λ h. elim h.related [
                | inl u ↦ absurd (ground arith)
                | inr u ↦ absurd (ground (arith, ap (λ j. (k.envs j).env_parent_id) r))
              ],
            ),
          )
  ]
]

-- Called by a running environment, `envid2env` with `checkperm` gives the running environment for 0, and otherwise the environment in
-- use under that identifier if it is the running one or a child of it; else it fails with
-- -E_BAD_ENV. It changes nothing.
pub envid2env-Answer :
    (c envid : ℕ) (k : Kernel)
    → k.curenv ≡ some c
    → Returns (λ a k'. (k' ≡ k) × Answer c envid k a) (envid2env envid true k)
unfolding envid2env
envid2env-Answer c envid k o = elim (Bool-cases (envid == 0)) [
  | inl z ↦
      rw z
        (refl, subst (λ x. Answer c envid k (none, x)) (sym o) (inl ((==_iff envid 0).0 z, refl)))
  | inr z ↦ elim (Bool-cases (is_free (k.envs (envid % 1024)).env_status)) [
    | inl f ↦
        rw (z, f)
          (refl, (refl, refl, (λ q. absurd (ground arith)), λ h. false_lem (sym h.in_use ∙ f)))
    | inr f ↦ elim (Bool-cases ((k.envs (envid % 1024)).env_id == envid)) [
      | inl i ↦
          rw (z, f, i)
            (subst
              (λ x. Returns (λ a k'. (k' ≡ k) × Answer c envid k a) (check_perm x (envid % 1024) k))
              (sym o)
              (checked c (envid % 1024) envid k refl (λ q. absurd (ground arith)) f
                ((==_iff _ _).0 i)))
      | inr i ↦
          rw (z, f, i)
            (
              refl,
              (refl, refl, (λ q. absurd (ground arith)), λ h. absurd (ground (arith, h.same_id))),
            )
    ]
  ]
]
