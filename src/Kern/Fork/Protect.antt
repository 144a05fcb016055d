-- ===== src/Kern/Fork/Protect.antt =====
-- After `duppage` of kern/fork.c, neither the parent nor the child writes to the page.
use mos_riscv.Prelude.{
  ℕ, ◌+◌, ◌-◌, ◌*◌, ◌/◌, ◌%◌, ◌^◌, ◌≡◌, ◌<◌, refl, sym, ap, ◌∙◌, Bool, true, false, none, some, has,
  arith, ◌==◌, Bool-cases, inl, inr, bit_or,
}
use mathlib.Core.Path.{subst}
use mos_riscv.Prelude.Bits.{bit_or-high, bit_or-one, bit_or-disjoint}
use mos_riscv.Prelude.Run.{done, Keeps, Keeps-and_then, Keeps-weaken, Returns-Keeps}
use mos_riscv.Kern.Error.{Ret}
use mos_riscv.Kern.Mmu.{npage, low_ppn, pte_ppn, pte_flags, is_valid, ppn2page, make_pte}
use mos_riscv.Kern.Pmap.Mem.{Mem, Entry, load, store}
use mos_riscv.Kern.Pmap.Map.{page_insert, page_lookup}
use mos_riscv.Kern.Pmap.Cells.{load-store_self}
use mos_riscv.Kern.Pmap.Supply.{IsSupply}
use mos_riscv.Kern.Pmap.Path.{IsPath}
use mos_riscv.Kern.Pmap.InsertLaws.{IsCounted}
use mos_riscv.Kern.Pmap.RoundTrip.{Found, page_insert-page_lookup}
use mos_riscv.Kern.Fork.Share.{
  is_library, is_writable, new_perm, set_flags, dup_inserted, dup_found, duppage,
}

-- `perm & PTE_COW`
abbrev is_cow : ℕ → Bool
is_cow perm = perm / 2 ^ 9 % 2 == 1

-- The flags that replace those of a writable page.
cow_lem :
    (perm : ℕ)
    → perm < 2 ^ 10
    → perm % 2 ≡ 1
    → is_writable perm ≡ true
    → (bit_or (perm - 2 ^ 2) (2 ^ 9) < 2 ^ 10)
      × (bit_or (perm - 2 ^ 2) (2 ^ 9) % 2 ≡ 1)
      × (is_writable (bit_or (perm - 2 ^ 2) (2 ^ 9)) ≡ false)
      × (is_cow (bit_or (perm - 2 ^ 2) (2 ^ 9)) ≡ true)
cow_lem perm lt odd w =
    let e : bit_or (perm - 2 ^ 2) (2 ^ 9) ≡ (perm - 2 ^ 2) % 2 ^ 9 + 2 ^ 9 =
      bit_or-high (perm - 2 ^ 2) (omega arith) in
    rw e (omega arith, ground arith, ground arith, ground arith)

-- What the new flags are for: they are flags of a valid entry, and of one that is not writable, and
-- copied on a write if the old ones were writable, unless the page is a shared one.
abbrev pub IsProtected : ℕ → ℕ → Type 0
IsProtected perm new =
    (is_library perm ≡ false → is_writable new ≡ false)
    × (is_library perm ≡ false → is_writable perm ≡ true → is_cow new ≡ true)
    × (is_library perm ≡ true → new ≡ perm)

new_perm-IsProtected : (perm : ℕ) → perm < 2 ^ 10 → perm % 2 ≡ 1 → IsProtected perm (new_perm perm)
unfolding new_perm
new_perm-IsProtected perm lt odd = elim (Bool-cases (is_library perm)) [
  | inl l ↦ rw l ((λ h. absurd (cc h)), (λ h. absurd (cc h)), (λ h. refl))
  | inr l ↦ elim (Bool-cases (is_writable perm)) [
    | inl w ↦
        let (a, b, c, d) = cow_lem perm lt odd w in
        rw (l, w) ((λ h. c), (λ h h'. d), (λ h. absurd (cc h)))
    | inr w ↦ rw (l, w) ((λ h. w), (λ h h'. absurd (cc h')), (λ h. absurd (cc h)))
  ]
]

new_perm-valid :
    (perm : ℕ) → perm < 2 ^ 10 → perm % 2 ≡ 1 → (new_perm perm < 2 ^ 10) × (new_perm perm % 2 ≡ 1)
unfolding new_perm
new_perm-valid perm lt odd = elim (Bool-cases (is_library perm)) [
  | inl l ↦ rw l (lt, odd)
  | inr l ↦ elim (Bool-cases (is_writable perm)) [
    | inl w ↦ let (a, b, c, d) = cow_lem perm lt odd w in rw (l, w) (a, b)
    | inr w ↦ rw (l, w) (lt, odd)
  ]
]

pte_flags-make_pte :
    (pp perm : ℕ) → perm < 2 ^ 10 → perm % 2 ≡ 1 → pte_flags (make_pte pp perm) ≡ perm
unfolding pte_flags make_pte
pte_flags-make_pte pp perm lt odd =
    let x : bit_or ((pp + low_ppn) * 2 ^ 10) perm ≡ (pp + low_ppn) * 2 ^ 10 + perm =
      bit_or-disjoint 10 (pp + low_ppn) perm lt in
    let y : bit_or ((pp + low_ppn) * 2 ^ 10 + perm) 1
        ≡ ((pp + low_ppn) * 2 ^ 10 + perm) / 2 * 2 + 1 =
      bit_or-one ((pp + low_ppn) * 2 ^ 10 + perm) in
    rw (x, y) (omega arith)

pte_flags-set : (v perm : ℕ) → perm < 2 ^ 10 → pte_flags (bit_or (v / 2 ^ 10 * 2 ^ 10) perm) ≡ perm
unfolding pte_flags
pte_flags-set v perm lt = rw (bit_or-disjoint 10 (v / 2 ^ 10) perm lt) (omega arith)

-- Another entry is left alone, or it is the same one.
flags_after :
    (e x : Entry) (perm : ℕ) (m : Mem)
    → perm < 2 ^ 10
    → pte_flags (load m x) ≡ perm
    → pte_flags (load (set_flags e perm m) x) ≡ perm
unfolding set_flags load store
flags_after e x perm m lt h =
    let new = pte_flags-set (m.word e.frame e.index) perm lt in ground (arith, new, h)

-- What `duppage` leaves: `page_insert` has made the page of the parent the child's, and the entries of
-- both have the flags `perm`.
abbrev pub IsShared : Entry → ℕ → ℕ → ℕ → ℕ → Mem → Mem → Type 0
IsShared e child va pp perm m m' =
    (m1 : Mem) × (x : Entry) × (page_lookup child va m1 ≡ done (some (pp, x)) m1)
    × (m' ≡ set_flags e perm m1)
    × (pte_flags (load m' e) ≡ perm)
    × (pte_flags (load m' x) ≡ perm)

module _ (e : Entry) (child va pp perm : ℕ) (m : Mem) (lt : perm < 2 ^ 10)
    (odd : perm % 2 ≡ 1) where
  dup_inserted-IsShared :
      (r : Ret) (m1 : Mem)
      → Found child va pp perm m r m1
      → Keeps (λ _ m'. IsShared e child va pp perm m m') (dup_inserted e perm r m1)
  unfolding dup_inserted
  dup_inserted-IsShared (some err) m1 h = tt
  dup_inserted-IsShared none m1 (x, q, l, t, s) = (
    m1,
    x,
    q,
    refl,
    parent m1,
    flags_after e x perm m1 lt (ap pte_flags l ∙ pte_flags-make_pte pp perm lt odd),
  )
    where
      parent : (m1 : Mem) → pte_flags (load (set_flags e perm m1) e) ≡ perm
      parent m1 =
          unfold set_flags in
          ap pte_flags (load-store_self m1 e _) ∙ pte_flags-set (load m1 e) perm lt

pte_flags-lt : (v : ℕ) → pte_flags v < 2 ^ 10
unfolding pte_flags
pte_flags-lt v = omega arith

pte_flags-odd : (v : ℕ) → is_valid v ≡ true → pte_flags v % 2 ≡ 1
unfolding pte_flags is_valid
pte_flags-odd v h = let odd : v % 2 ≡ 1 = ground arith in omega arith

dup_found-IsShared :
    (e : Entry) (child asid vpn pp perm : ℕ) (m : Mem)
    → perm < 2 ^ 10
    → perm % 2 ≡ 1
    → pp < npage
    → has pp m.free ≡ false
    → IsPath child (vpn * 2 ^ 12) m
    → IsSupply m
    → IsCounted child (vpn * 2 ^ 12) m
    → Keeps
        (λ _ m'. IsShared e child (vpn * 2 ^ 12) pp perm m m')
        (dup_found e child asid vpn perm (some pp) m)
unfolding dup_found
dup_found-IsShared e child asid vpn pp perm m small odd lt out p s c =
    let va = vpn * 2 ^ 12 in
    let done_insert = page_insert-page_lookup child asid pp va perm m lt small p s c out in
    Keeps-and_then (Found child va pp perm m) (λ _ m'. IsShared e child va pp perm m m')
      (page_insert child asid pp va perm m) (dup_inserted e perm)
      (Returns-Keeps (Found child va pp perm m) (Found child va pp perm m)
        (page_insert child asid pp va perm m) done_insert (λ r m' h. h))
      (dup_inserted-IsShared e child va pp perm m small odd)

protected :
    (e : Entry) (child va pp old : ℕ) (m m' : Mem)
    → old < 2 ^ 10
    → old % 2 ≡ 1
    → IsShared e child va pp (new_perm old) m m'
    → IsShared e child va pp (new_perm old) m m' × IsProtected old (pte_flags (load m' e))
protected e child va pp old m m' lt odd h =
    (h, subst (IsProtected old) (sym h.4) (new_perm-IsProtected old lt odd))

-- `duppage` of a valid entry of the parent, for a page off the free list, on a path of sound tables of the
-- child, an intact free list and a count for what the child maps there: if it does not panic, the child
-- finds the page at the same address, the entries of both have the same flags, and unless the
-- page is a shared one (PTE_LIBRARY) these do not permit writing, and are marked for copying if the
-- parent could write.
pub duppage-IsProtected :
    (e : Entry) (child asid vpn pp : ℕ) (m : Mem)
    → is_valid (load m e) ≡ true
    → ppn2page (pte_ppn (load m e)) ≡ some pp
    → pp < npage
    → has pp m.free ≡ false
    → IsPath child (vpn * 2 ^ 12) m
    → IsSupply m
    → IsCounted child (vpn * 2 ^ 12) m
    → Keeps
        (λ _ m'.
          IsShared e child (vpn * 2 ^ 12) pp (new_perm (pte_flags (load m e))) m m'
          × IsProtected (pte_flags (load m e)) (pte_flags (load m' e)))
        (duppage e child asid vpn m)
duppage-IsProtected e child asid vpn pp m valid page lt out p s c =
    let old = pte_flags (load m e) in
    let valid_old = pte_flags-odd (load m e) valid in
    let (small, odd) = new_perm-valid old (pte_flags-lt (load m e)) valid_old in
    unfold duppage in
    rw page (
      Keeps-weaken (λ _ m'. IsShared e child (vpn * 2 ^ 12) pp (new_perm old) m m')
        (λ _ m'.
          IsShared e child (vpn * 2 ^ 12) pp (new_perm old) m m'
          × IsProtected old (pte_flags (load m' e)))
        (dup_found e child asid vpn (new_perm old) (some pp) m)
        (dup_found-IsShared e child asid vpn pp (new_perm old) m small odd lt out p s c)
        (λ _ m' h.
          protected e child (vpn * 2 ^ 12) pp old m m' (pte_flags-lt (load m e)) valid_old h))
