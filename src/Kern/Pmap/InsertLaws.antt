-- ===== src/Kern/Pmap/InsertLaws.antt =====
-- `page_insert` always returns: it maps the page, or lacks memory for the tables.
use mos_riscv.Prelude.{
  ℕ, ◌≡◌, ◌≢◌, ◌<◌, true, false, none, some, has, length, Bool-cases, ==_iff, inl, inr, arith, ◌==◌,
  ◌∙◌, ap, sym,
}
use mathlib.Core.Path.{subst}
use mos_riscv.Prelude.Run.{Returns, Returns-and_then}
use mos_riscv.Kern.Error.{Ret, success, e_no_mem}
use mos_riscv.Kern.Mmu.{npage, ppn2page, pte_ppn, is_valid, make_pte}
use mos_riscv.Kern.Pmap.Mem.{Mem, Entry, load, store, tlb_log, Flush, flush_page}
use mos_riscv.Kern.Pmap.Walk.{Walk, pgdir_walk}
use mos_riscv.Kern.Pmap.Map.{insert_at, insert_new, insert_found, page_insert}
use mos_riscv.Kern.Pmap.Cells.{load-store_self, load-incref}
use mos_riscv.Kern.Pmap.Supply.{
  IsSupply, incref-IsSupply, store-IsSupply, tlb_log-IsSupply, store-NoMore, tlb_log-NoMore,
  free-tlb_log, released, released-IsSupply, released-free,
}
use mos_riscv.Kern.Pmap.Path.{IsPath, Mapped, store-Mapped}
use mos_riscv.Kern.Pmap.WalkLaws.{Searched, Created, pgdir_walk-Searched, pgdir_walk-Created}
use mos_riscv.Kern.Pmap.Insert.{
  invalid_zero, tlb_log-Mapped, incref-Mapped, removed, page_remove-removed, removed-Mapped,
  inserted, insert_new-inserted,
}

-- What `page_insert` promises: a mapping of `pp` with the flags `perm` and an intact free list, or
-- a lack of memory.
abbrev pub Outcome : ℕ → ℕ → ℕ → ℕ → Mem → Ret → Mem → Type 0
Outcome pgdir va pp perm m none m' =
    (e : Entry) × Mapped pgdir va e m' × (load m' e ≡ make_pte pp perm) × IsSupply m'
Outcome pgdir va pp perm m (some err) m' = (err ≡ e_no_mem) × (length m.free < 2)

-- A mapping that is already there refers to a page with a count.
abbrev pub IsCounted : ℕ → ℕ → Mem → Type 0
IsCounted pgdir va m =
    (e : Entry)
    → Mapped pgdir va e m
    → is_valid (load m e) ≡ true
    → (q : ℕ) × (ppn2page (pte_ppn (load m e)) ≡ some q) × (q < npage) × (0 < m.ref q)

module _ (pgdir va : ℕ) where
  tlb_log-IsPath : (f : Flush) (m : Mem) → IsPath pgdir va m → IsPath pgdir va (tlb_log f m)
  unfolding tlb_log load
  tlb_log-IsPath f m p = record {
    root_used = p.root_used;
    first_table = p.first_table;
    second_used = p.second_used;
    second_apart = p.second_apart;
    second_table = p.second_table;
    third_apart_root = p.third_apart_root;
    third_apart_second = p.third_apart_second;
  }

  inserted-Outcome :
      (m0 m : Mem) (e : Entry) (asid pp perm : ℕ)
      → Mapped pgdir va e m
      → IsSupply m
      → has pp m.free ≡ false
      → Outcome pgdir va pp perm m0 success (inserted pgdir va asid pp perm e m)
  unfolding inserted
  inserted-Outcome m0 m e asid pp perm p s out =
      let v = make_pte pp perm in
      (
        e,
        incref-Mapped pgdir va pp e (store e v m) (store-Mapped pgdir va e v m p),
        load-incref (store e v m) pp e ∙ load-store_self m e v,
        incref-IsSupply (store e v m) pp (store-IsSupply m e v s) (store-NoMore m e v pp out),
      )

  insert_at-Outcome :
      (m m1 : Mem) (asid pp perm : ℕ)
      → m1.free ≡ m.free
      → has pp m1.free ≡ false
      → (w : Walk) (m2 : Mem) → Created pgdir va m1 w m2
      → Returns (Outcome pgdir va pp perm m) (insert_at pp perm w m2)
  unfolding insert_at
  insert_at-Outcome m m1 asid pp perm same out (some err, none) m2 h =
      (cc h.0, omega (arith, ap (λ l. length l) same))
  insert_at-Outcome m m1 asid pp perm same out (none, none) m2 h = cc h.0
  insert_at-Outcome m m1 asid pp perm same out (some err, some e) m2 h = cc h.0
  insert_at-Outcome m m1 asid pp perm same out (none, some e) m2 h =
      unfold inserted in
      inserted-Outcome m m2 e asid pp perm h.1.mapped h.1.supply (h.1.no_more pp out)

  -- From a path that may lack its tables.
  insert_new-Outcome :
      (m : Mem) (asid pp perm : ℕ)
      → IsPath pgdir va m
      → IsSupply m
      → has pp m.free ≡ false
      → Returns (Outcome pgdir va pp perm m) (insert_new pgdir asid pp va perm m)
  unfolding insert_new
  insert_new-Outcome m asid pp perm p s out =
      let f = flush_page asid va in
      let m1 = tlb_log f m in
      Returns-and_then (Created pgdir va m1) (Outcome pgdir va pp perm m)
        (pgdir_walk pgdir va true m1) _
        (pgdir_walk-Created pgdir va m1 (tlb_log-IsSupply m f s) (tlb_log-IsPath f m p))
        (insert_at-Outcome m m1 asid pp perm (free-tlb_log m f) (tlb_log-NoMore m f pp out))

  -- From a complete path.
  insert_new-Mapped :
      (m0 m : Mem) (e : Entry) (asid pp perm : ℕ)
      → Mapped pgdir va e m
      → IsSupply m
      → has pp m.free ≡ false
      → Returns (Outcome pgdir va pp perm m0) (insert_new pgdir asid pp va perm m)
  insert_new-Mapped m0 m e asid pp perm p s out =
      let f = flush_page asid va in
      rw (insert_new-inserted pgdir va m e asid pp perm p) (
        inserted-Outcome m0 (tlb_log f m) e asid pp perm (tlb_log-Mapped pgdir va f e m p)
          (tlb_log-IsSupply m f s) (tlb_log-NoMore m f pp out))

  -- The branch that first removes another page.
  replace-Outcome :
      (m0 m : Mem) (e : Entry) (asid pp q perm : ℕ)
      → Mapped pgdir va e m
      → IsSupply m
      → has pp m.free ≡ false
      → q ≢ pp
      → q < npage
      → 0 < m.ref q
      → Returns
          (Outcome pgdir va pp perm m0)
          (insert_new pgdir asid pp va perm (removed pgdir va asid q e m))
  replace-Outcome m0 m e asid pp q perm p s out ne lt h =
      let m1 = released q m in
      let m2 = store e 0 m1 in
      let f = flush_page asid va in
      unfold removed in
      insert_new-Mapped m0 (tlb_log f m2) e asid pp perm (removed-Mapped pgdir va m e asid q p)
        (tlb_log-IsSupply m2 f (store-IsSupply m1 e 0 (released-IsSupply m q s lt h)))
        (tlb_log-NoMore m2 f pp
          (store-NoMore m1 e 0 pp (released-free m q pp (λ x. ne (sym x)) out)))

  valid-Outcome :
      (m : Mem) (e : Entry) (asid pp perm : ℕ)
      → Mapped pgdir va e m
      → is_valid (load m e) ≡ true
      → IsSupply m
      → IsCounted pgdir va m
      → has pp m.free ≡ false
      → Returns
          (Outcome pgdir va pp perm m)
          (insert_found pgdir asid pp va perm (success, some e) m)
  unfolding insert_found
  valid-Outcome m e asid pp perm p v s c out =
      let (q, at_q, lt, counted) = c e p v in
      let f = flush_page asid va in
      let m1 = tlb_log f m in
      let v' = make_pte pp perm in
      elim (Bool-cases (q == pp)) [
        | inl same ↦
            rw (v, at_q, same)
              (
                e,
                store-Mapped pgdir va e v' m1 (tlb_log-Mapped pgdir va f e m p),
                load-store_self m1 e v',
                store-IsSupply m1 e v' (tlb_log-IsSupply m f s),
              )
        | inr other ↦
            rw (v, at_q, other, page_remove-removed pgdir va m e asid q p v at_q counted)
              (replace-Outcome m m e asid pp q perm p s out (λ x. cc ((==_iff q pp).1 x)) lt
                counted)
      ]

  insert_found-Outcome :
      (m : Mem) (asid pp perm : ℕ)
      → IsPath pgdir va m
      → IsSupply m
      → IsCounted pgdir va m
      → has pp m.free ≡ false
      → (w : Walk) (m1 : Mem) → Searched pgdir va m w m1
      → Returns (Outcome pgdir va pp perm m) (insert_found pgdir asid pp va perm w m1)
  unfolding insert_found
  insert_found-Outcome m asid pp perm p s c out (ret, none) m1 h =
      subst (λ x. Returns (Outcome pgdir va pp perm m) (insert_new pgdir asid pp va perm x)) (sym h)
        (insert_new-Outcome m asid pp perm p s out)
  insert_found-Outcome m asid pp perm p s c out (ret, some e) m1 h =
      elim (Bool-cases (is_valid (load m1 e))) [
        | inr v ↦
            rw v (insert_new-Mapped m m1 e asid pp perm h.1.mapped h.1.supply (h.1.no_more pp out))
        | inl v ↦ elim h.1.fresh [
          | inr z ↦ absurd (cc (ap is_valid z, invalid_zero))
          | inl same ↦
              let p' : Mapped pgdir va e m = subst (λ x. Mapped pgdir va e x) same h.1.mapped in
              let v' : is_valid (load m e) ≡ true =
                subst (λ x. is_valid (load x e) ≡ true) same v in
              subst
                (λ x.
                  Returns (Outcome pgdir va pp perm m)
                    (insert_found pgdir asid pp va perm (success, some e) x))
                (sym same) (valid-Outcome m e asid pp perm p' v' s c out)
        ]
      ]

-- `page_insert` never panics where the tables on the path are sound and the page mapped there is
-- counted: either the page is mapped with the flags, or memory for tables is lacking.
pub page_insert-Outcome :
    (pgdir asid pp va perm : ℕ) (m : Mem)
    → IsPath pgdir va m
    → IsSupply m
    → IsCounted pgdir va m
    → has pp m.free ≡ false
    → Returns (Outcome pgdir va pp perm m) (page_insert pgdir asid pp va perm m)
unfolding page_insert
page_insert-Outcome pgdir asid pp va perm m p s c out =
    Returns-and_then (Searched pgdir va m) (Outcome pgdir va pp perm m)
      (pgdir_walk pgdir va false m) (insert_found pgdir asid pp va perm)
      (pgdir_walk-Searched pgdir va m s p) (insert_found-Outcome pgdir va m asid pp perm p s c out)
