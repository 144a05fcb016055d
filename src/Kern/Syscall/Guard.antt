-- ===== src/Kern/Syscall/Guard.antt =====
-- The checks that the system calls of kern/syscall_all.c share.
use mos_riscv.Prelude.{
  ℕ, ◌+◌, ◌%◌, ◌^◌, ◌<◌, ◌≤◌, ◌≡◌, ◌↔◌, Bool, true, false, ◌||◌, Option, none, some, ◌==◌, ltb, leb,
  if◌then◌else◌, arith,
}
use mos_riscv.Prelude.Run.{Cmd, pure, undefined, panic, ◌>>=◌}
use mos_riscv.Kern.Error.{Error}
use mos_riscv.Kern.Mmu.{utemp, utop}
use mos_riscv.Kern.Env.State.{Kernel, Leave, back}
use mos_riscv.Kern.Env.Table.{Envid, envid2env}

unfoldable pub is_illegal_va : ℕ → Bool
is_illegal_va va = ltb va utemp || leb utop va

unfoldable pub is_illegal_va_range : ℕ → ℕ → Bool
is_illegal_va_range va len =
    let end = (va + len) % 2 ^ 64 in
    if len == 0 then false else ltb end va || ltb va utemp || ltb utop end

-- The address is not a multiple of the length; `none` where the code panics.
unfoldable pub is_illegal_align : ℕ → ℕ → Option Bool
is_illegal_align va len =
    if len == 1
    then some false
    else if len == 2
    then some (if va % 2 == 0 then false else true)
    else if len == 4
    then some (if va % 4 == 0 then false else true)
    else if len == 8
    then some (if va % 8 == 0 then false else true)
    else none

-- The rest of a call, on what `envid2env` gives. A NULL environment would be dereferenced.
unfoldable pub on_found :
    {A : Type 0} → (Error → A) → (ℕ → Cmd Kernel (Leave A)) → Envid → Cmd Kernel (Leave A)
on_found fail rest (some err, _) = pure (back (fail err))
on_found fail rest (none, none) = undefined
on_found fail rest (none, some e) = rest e

-- `try(envid2env(envid, &e, checkperm))`, and the rest of the call on the environment found.
unfoldable pub on_env :
    {A : Type 0} → (Error → A) → ℕ → Bool → (ℕ → Cmd Kernel (Leave A)) → Cmd Kernel (Leave A)
on_env fail envid checkperm rest = envid2env envid checkperm >>= on_found fail rest

-- The rest of a call that dereferences `curenv`.
unfoldable pub on_cur_of : {A : Type 0} → (ℕ → Cmd Kernel A) → Option ℕ → Cmd Kernel A
on_cur_of rest none = undefined
on_cur_of rest (some c) = rest c

unfoldable pub on_cur : {A : Type 0} → (ℕ → Cmd Kernel A) → Cmd Kernel A
on_cur rest k = on_cur_of rest k.curenv k

-- The rest of a call that panics where `curenv` is NULL.
unfoldable pub need_cur_of : {A : Type 0} → (ℕ → Cmd Kernel A) → Option ℕ → Cmd Kernel A
need_cur_of rest none = panic
need_cur_of rest (some c) = rest c

unfoldable pub need_cur : {A : Type 0} → (ℕ → Cmd Kernel A) → Cmd Kernel A
need_cur rest k = need_cur_of rest k.curenv k

-- A range of 64-bit words that is not empty passes the check exactly if it lies between UTEMP and UTOP,
-- and so does not wrap.
pub is_illegal_va_range_iff :
    (va len : ℕ)
    → va < 2 ^ 64
    → len < 2 ^ 64
    → 0 < len
    → (is_illegal_va_range va len ≡ false) ↔ ((utemp ≤ va) × (va + len ≤ utop))
unfolding is_illegal_va_range
is_illegal_va_range_iff va len hv hl pos = (λ h. (ground arith, ground arith), λ h. ground arith)
