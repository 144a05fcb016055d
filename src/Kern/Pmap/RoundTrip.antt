-- ===== src/Kern/Pmap/RoundTrip.antt =====
-- What clients may rely on: insert then look up, remove then look up, and the lookup that
-- allocates.
use mos_riscv.Prelude.{
  ℕ, ◌+◌, ◌-◌, ◌*◌, ◌%◌, ◌^◌, ◌≡◌, ◌<◌, refl, true, false, none, some, List, ◌∷◌, has, length,
  arith, bit_or, ◌==◌, ◌∙◌, ap,
}
use mos_riscv.Prelude.Bits.{bit_or-disjoint}
use mathlib.Core.Path.{subst}
use mos_riscv.Prelude.Run.{done, Returns, Returns-weaken}
use mos_riscv.Kern.Error.{Ret, e_no_mem}
use mos_riscv.Kern.Mmu.{npage, low_ppn, page2pa, ppn2page, pte_ppn, is_valid, make_pte}
use mos_riscv.Kern.Pmap.Mem.{Mem, Entry, load, store, tlb_log, flush_page}
use mos_riscv.Kern.Pmap.Walk.{pgdir_walk, walk_second, va2pa}
use mos_riscv.Kern.Pmap.Map.{page_lookup, page_remove, page_insert}
use mos_riscv.Kern.Pmap.Supply.{IsSupply, released, not_free, taken-gone}
use mos_riscv.Kern.Pmap.Path.{IsPath, Mapped, first, second}
use mos_riscv.Kern.Pmap.Made
use mos_riscv.Kern.Pmap.Insert.{
  make_pte_lem, invalid_zero, page_lookup-Mapped, removed, page_lookup-removed, page_remove-removed,
}
use mos_riscv.Kern.Pmap.InsertLaws.{Outcome, IsCounted, page_insert-Outcome}

-- What `page_insert` leaves for later calls: on success the page is found at the address, at the
-- right physical address, under the flags given, and the free list is intact.
abbrev pub Found : ℕ → ℕ → ℕ → ℕ → Mem → Ret → Mem → Type 0
Found pgdir va pp perm m none m' =
    (e : Entry) × (page_lookup pgdir va m' ≡ done (some (pp, e)) m')
    × (load m' e ≡ make_pte pp perm)
    × (va2pa m' pgdir va ≡ some (page2pa pp + va % 2 ^ 12))
    × IsSupply m'
Found pgdir va pp perm m (some err) m' = (err ≡ e_no_mem) × (length m.free < 2)

va2pa-Mapped :
    (pgdir va pp perm : ℕ) (m : Mem) (e : Entry)
    → pp < npage
    → perm < 2 ^ 10
    → Mapped pgdir va e m
    → load m e ≡ make_pte pp perm
    → va2pa m pgdir va ≡ some (page2pa pp + va % 2 ^ 12)
unfolding va2pa
va2pa-Mapped pgdir va pp perm m e lt small p l =
    let l' = subst (λ x. load m x ≡ make_pte pp perm) p.third l in
    let t = make_pte_lem pp perm lt small in
    let sum : bit_or ((pp + low_ppn) * 2 ^ 12) (va % 2 ^ 12)
        ≡ (pp + low_ppn) * 2 ^ 12 + va % 2 ^ 12 =
      bit_or-disjoint 12 (pp + low_ppn) (va % 2 ^ 12) (omega arith) in
    rw (p.first_valid, p.first_table, p.second_valid, p.second_table, l', t.0)
      (ap some (ap (λ (k : ℕ). bit_or (k * 2 ^ 12) (va % 2 ^ 12)) t.2 ∙ sum))

-- `page_insert` of a page below `npage` that is off the free list, with flags of 10 bits, on a path of
-- sound tables, an intact free list and a count for what is mapped there, never panics: either the lookup
-- and the translation of the address afterwards give that page, under the flags, and the free list
-- is intact, or the error is the lack of memory and fewer than two pages were free.
pub page_insert-page_lookup :
    (pgdir asid pp va perm : ℕ) (m : Mem)
    → pp < npage
    → perm < 2 ^ 10
    → IsPath pgdir va m
    → IsSupply m
    → IsCounted pgdir va m
    → has pp m.free ≡ false
    → Returns (Found pgdir va pp perm m) (page_insert pgdir asid pp va perm m)
page_insert-page_lookup pgdir asid pp va perm m lt small p s c out =
    Returns-weaken (Outcome pgdir va pp perm m) (Found pgdir va pp perm m)
      (page_insert pgdir asid pp va perm m) (page_insert-Outcome pgdir asid pp va perm m p s c out)
      found
  where
    found :
        (ret : Ret) (m' : Mem) → Outcome pgdir va pp perm m ret m' → Found pgdir va pp perm m ret m'
    found none m' (e, q, l, s') =
        let t = make_pte_lem pp perm lt small in
        (
          e,
          page_lookup-Mapped pgdir va m' e pp q (rw l t.0) (rw l t.1),
          l,
          va2pa-Mapped pgdir va pp perm m' e lt small q l,
          s',
        )
    found (some err) m' h = h

removed_accounts :
    (pgdir va asid pp : ℕ) (e : Entry) (m : Mem)
    → IsSupply m
    → 0 < m.ref pp
    → ((removed pgdir va asid pp e m).ref pp ≡ m.ref pp - 1)
      × (has pp (removed pgdir va asid pp e m).free ≡ (m.ref pp == 1))
      × ((removed pgdir va asid pp e m).flushed ≡ flush_page asid va ∷ m.flushed)
unfolding removed released store tlb_log
removed_accounts pgdir va asid pp e m s h = (ground arith, ground (arith, not_free m pp s h), refl)

-- With an intact free list, removing the mapping of a page with a positive count leaves the address unmapped, takes one from the count,
-- puts the page on the free list exactly if that was the last reference, and drops the
-- translation from the TLB.
pub page_remove-page_lookup :
    (pgdir asid va pp : ℕ) (e : Entry) (m : Mem)
    → Mapped pgdir va e m
    → IsSupply m
    → is_valid (load m e) ≡ true
    → ppn2page (pte_ppn (load m e)) ≡ some pp
    → 0 < m.ref pp
    → Returns
        (λ _ m'.
          (page_lookup pgdir va m' ≡ done none m')
          × ((m'.ref pp ≡ m.ref pp - 1)
              × (has pp m'.free ≡ (m.ref pp == 1))
              × (m'.flushed ≡ flush_page asid va ∷ m.flushed)))
        (page_remove pgdir asid va m)
page_remove-page_lookup pgdir asid va pp e m p s v q h =
    rw (page_remove-removed pgdir va m e asid pp p v q h)
      (page_lookup-removed pgdir va m e asid pp p, removed_accounts pgdir va asid pp e m s h)

-- On a path of sound tables with a page free, a lookup of an address whose second-level table is there
-- and whose third-level table is not takes a page off the free list and
-- keeps it, although the lookup finds nothing.
page_lookup_allocates :
    (pgdir va n : ℕ) (rest : List ℕ) (m : Mem)
    → IsPath pgdir va m
    → IsSupply m
    → m.free ≡ n ∷ rest
    → is_valid (first pgdir va m) ≡ true
    → is_valid (second pgdir va m) ≡ false
    → Returns
        (λ found m'. (found ≡ none) × ((m'.free ≡ rest) × (m'.ref n ≡ 1)))
        (page_lookup pgdir va m)
unfolding page_lookup pgdir_walk walk_second
page_lookup_allocates pgdir va n rest m p s free v w =
    let mid = p.second_used v n (taken-gone m n rest free s).0 in
    rw (v, p.first_table v, w, Made.make_third-made pgdir va m n rest free s)
      (rw (Made.load-third_made pgdir va m n rest free s mid, invalid_zero)
        (refl, Made.third_made-accounts pgdir va m n rest free s))
