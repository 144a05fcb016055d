-- ===== src/Kern/Fork/Share.antt =====
-- `duppage` and `dup_userspace` of kern/fork.c.
use mos_riscv.Prelude.{
  ℕ, zero, suc, ◌+◌, ◌-◌, ◌*◌, ◌/◌, ◌%◌, ◌^◌, Bool, ◌&&◌, Option, none, some, ◌==◌, leb,
  if◌then◌else◌, bit_or,
}
use mos_riscv.Prelude.Run.{Cmd, done, pure, panic, modify, ◌>>=◌, ◌>>◌}
use mos_riscv.Kern.Error.{Ret}
use mos_riscv.Kern.Mmu.{pte_ppn, pte_flags, is_valid, ppn2page, p1x, ustacktop}
use mos_riscv.Kern.Pmap.Mem.{Mem, Entry, entry, load, store}
use mos_riscv.Kern.Pmap.Map.{page_insert}

-- `perm & PTE_LIBRARY` and `perm & PTE_W`
abbrev pub is_library : ℕ → Bool
is_library perm = perm / 2 ^ 8 % 2 == 1

abbrev pub is_writable : ℕ → Bool
is_writable perm = perm / 2 ^ 2 % 2 == 1

-- `new_perm`; the flags are below 2^10, so that clearing PTE_W is a subtraction.
unfoldable pub new_perm : ℕ → ℕ
new_perm perm =
    if is_library perm
    then perm
    else if is_writable perm
    then bit_or (perm - 2 ^ 2) (2 ^ 9)
    else perm

-- `*entry &= ~GENMASK(9, 0); *entry |= new_perm;`
unfoldable pub set_flags : Entry → ℕ → Mem → Mem
set_flags e perm m = store e (bit_or (load m e / 2 ^ 10 * 2 ^ 10) perm) m

-- What follows the insertion.
unfoldable pub dup_inserted : Entry → ℕ → Ret → Cmd Mem (Unit {0})
dup_inserted e perm (some err) = panic
dup_inserted e perm none = modify (set_flags e perm)

unfoldable pub dup_found : Entry → ℕ → ℕ → ℕ → ℕ → Option ℕ → Cmd Mem (Unit {0})
dup_found e child_pgdir child_asid vpn perm none = panic
dup_found e child_pgdir child_asid vpn perm (some pp) = do
  r ← page_insert child_pgdir child_asid pp (vpn * 2 ^ 12) perm
  dup_inserted e perm r

unfoldable pub duppage : Entry → ℕ → ℕ → ℕ → Cmd Mem (Unit {0})
duppage e child_pgdir child_asid vpn m =
    dup_found e child_pgdir child_asid vpn (new_perm (pte_flags (load m e)))
      (ppn2page (pte_ppn (load m e))) m

-- `VPN(USTACKTOP)`
abbrev pub top_vpn : ℕ
top_vpn = ustacktop / 2 ^ 12

-- The entries of a third-level table that are left, from `p3x` on; `vpn` is the number of the first.
unfoldable pub dup_third : ℕ → ℕ → ℕ → ℕ → ℕ → ℕ → Cmd Mem (Unit {0})
dup_third zero child_pgdir child_asid t3 vpn p3x = pure tt
dup_third (suc left) child_pgdir child_asid t3 vpn p3x =
    let rest = dup_third left child_pgdir child_asid t3 vpn (p3x + 1) in
    let e = entry t3 p3x in
    let current_vpn = bit_or vpn p3x in
    λ m.
      if leb top_vpn current_vpn
      then done tt m
      else if is_valid (load m e)
      then (do duppage e child_pgdir child_asid current_vpn; rest) m
      else rest m

-- `(p1x << 18) || (p2x << 9)`, as it stands there: a logical or, which is 0 or 1.
unfoldable pub logical_or : ℕ → ℕ → ℕ
logical_or a b = if (a == 0) && (b == 0) then 0 else 1

-- The entries of a second-level table that are left.
unfoldable pub dup_second : ℕ → ℕ → ℕ → ℕ → ℕ → ℕ → Cmd Mem (Unit {0})
dup_second zero child_pgdir child_asid t2 p1 p2x = pure tt
dup_second (suc left) child_pgdir child_asid t2 p1 p2x =
    let rest = dup_second left child_pgdir child_asid t2 p1 (p2x + 1) in
    let vpn = bit_or (p1 * 2 ^ 18) (p2x * 2 ^ 9) in
    λ m.
      let e2 = load m (entry t2 p2x) in
      if leb top_vpn (logical_or (p1 * 2 ^ 18) (p2x * 2 ^ 9))
      then done tt m
      else if is_valid e2
      then (do dup_third 512 child_pgdir child_asid (pte_ppn e2) vpn 0; rest) m
      else rest m

-- The entries of the directory that are left.
unfoldable pub dup_first : ℕ → ℕ → ℕ → ℕ → ℕ → Cmd Mem (Unit {0})
dup_first zero parent_pgdir child_pgdir child_asid p1 = pure tt
dup_first (suc left) parent_pgdir child_pgdir child_asid p1 =
    let rest = dup_first left parent_pgdir child_pgdir child_asid (p1 + 1) in
    λ m.
      let e1 = load m (entry parent_pgdir p1) in
      if is_valid e1
      then (do dup_second 512 child_pgdir child_asid (pte_ppn e1) p1 0; rest) m
      else rest m

unfoldable pub dup_userspace : ℕ → ℕ → ℕ → Cmd Mem (Unit {0})
dup_userspace parent_pgdir child_pgdir child_asid =
    dup_first (p1x ustacktop + 1) parent_pgdir child_pgdir child_asid 0
