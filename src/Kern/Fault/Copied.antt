-- ===== src/Kern/Fault/Copied.antt =====
-- What a fault on a page that is shared copy-on-write leaves: a copy of its own.
use mos_riscv.Prelude.{
  ℕ, ◌+◌, ◌*◌, ◌/◌, ◌%◌, bit_or, ◌-◌, ◌^◌, ◌≡◌, ◌≢◌, ◌<◌, ◌∙◌, sym, ap, true, false, some, List,
  ◌∷◌, has, ◌==◌, arith, ==_self, Bool-cases, inl, inr,
}
use mathlib.Core.Path.{subst}
use mos_riscv.Prelude.Run.{done, Returns}
use mos_riscv.Prelude.Bits.{bit_or-lt, bit_or-four, bit_or-one, bit_or-disjoint}
use mos_riscv.Kern.Error.{success}
use mos_riscv.Kern.Mmu.{npage, page2ppn, pte_ppn, pte_flags, ppn2page, is_valid, make_pte, p1x, p2x}
use mos_riscv.Kern.Pmap.Mem.{Mem, Entry, entry, load, store, incref, tlb_log, flush_page}
use mos_riscv.Kern.Pmap.Map.{page_lookup, page_insert, insert_found}
use mos_riscv.Kern.Pmap.Cells.{load-store_self, load-store_frame, load-incref, load-taken_frame}
use mos_riscv.Kern.Pmap.Supply.{
  IsSupply, taken, page_alloc-cons, taken-IsSupply, taken-gone, released, released-IsSupply,
  released-free, store-IsSupply, tlb_log-IsSupply, incref-IsSupply,
}
use mos_riscv.Kern.Pmap.Path.{
  Mapped, Mapped-same, store-Mapped, pgdir_walk-Mapped, first, second, Used,
}
use mos_riscv.Kern.Pmap.Insert.{
  make_pte_lem, page_lookup-Mapped, removed, page_remove-removed, removed-Mapped, inserted,
  insert_new-inserted, tlb_log-Mapped, incref-Mapped,
}
use mos_riscv.Kern.Fault.Cow.{has_cow, own_perm, copy_page, cow_with, cow_found, do_cow}

-- Page `old` is mapped at `va` by entry `e`, and no page on the free list holds one of the tables.
pub record IsShared (pgdir va old : ℕ) (e : Entry) (m : Mem) : Type 0 where
  pub mapped : Mapped pgdir va e m
  pub valid : is_valid (load m e) ≡ true
  pub page : ppn2page (pte_ppn (load m e)) ≡ some old
  pub counted : 0 < m.ref old
  pub supply : IsSupply m
  pub root_used : Used m pgdir
  pub second_used : Used m (pte_ppn (first pgdir va m))
  pub third_used : Used m e.frame

-- The entry `e'` permits writing (PTE_W, bit 2) and is not marked copy-on-write (PTE_COW, bit 9); the other flags
-- are those of `e`: bits 0 and 1, and bits 3 to 8.
pub record IsOwn (e e' : ℕ) : Type 0 where
  pub writable : e' / 2 ^ 2 % 2 ≡ 1
  pub not_cow : e' / 2 ^ 9 % 2 ≡ 0
  pub low : e' % 4 ≡ e % 4
  pub high : e' / 2 ^ 3 % 2 ^ 6 ≡ e / 2 ^ 3 % 2 ^ 6

-- A page that was free is found at `va`, writable and not shared, with the words that `old` had, and
-- `old` has a reference less.
pub record IsCopied (pgdir va old new : ℕ) (e : Entry) (m m' : Mem) : Type 0 where
  pub was_free : has new m.free ≡ true
  pub found : page_lookup pgdir va m' ≡ done (some (new, e)) m'
  pub flags : IsOwn (load m e) (load m' e)
  pub words : (j : ℕ) → m'.word (page2ppn new) j ≡ m.word (page2ppn old) j
  pub count : m'.ref old ≡ m.ref old - 1
  pub supply : IsSupply m'

ppn2page-inverse : (n i : ℕ) → ppn2page n ≡ some i → (n ≡ page2ppn i) × (i < npage)
unfolding ppn2page
ppn2page-inverse n i h = (ground arith, ground arith)

load-copied_frame :
    (i : ℕ) (rest : List ℕ) (src f j : ℕ) (m : Mem)
    → page2ppn i ≢ f
    → load (copy_page (page2ppn i) src (taken i rest m)) (entry f j) ≡ load m (entry f j)
unfolding load copy_page taken
load-copied_frame i rest src f j m ne = ground arith

own_perm-lt : (perm : ℕ) → perm < 2 ^ 10 → own_perm perm < 2 ^ 10
unfolding own_perm
own_perm-lt perm h = elim (Bool-cases (has_cow perm)) [
  | inl t ↦ rw t (bit_or-lt 10 (perm - 2 ^ 9) (2 ^ 2) (omega arith) (omega arith))
  | inr t ↦ rw t (bit_or-lt 10 perm (2 ^ 2) h (omega arith))
]

module _ (pgdir asid va old : ℕ) (e : Entry) (m : Mem) (h : IsShared pgdir va old e m) (i : ℕ)
    (rest : List ℕ) (head : m.free ≡ i ∷ rest) (perm : ℕ) where
  -- The memory after the copy, and after the whole fault.
  abbrev copied : Mem
  copied = copy_page (page2ppn i) (pte_ppn (load m e)) (taken i rest m)

  abbrev left : Mem
  left =
      inserted pgdir va asid i perm e
        (tlb_log (flush_page asid va) (removed pgdir va asid old e copied))

  gone :
      (has i m.free ≡ true)
      × (has i (taken i rest m).free ≡ false)
      × (i < npage)
      × (m.ref i ≡ 0)
      × ((taken i rest m).ref ≡ m.ref)
  gone = taken-gone m i rest head h.supply

  distinct : old ≢ i
  distinct q = absurd (
      let c : 0 < m.ref old = h.counted in
      let z : m.ref i ≡ 0 = gone.3 in omega (arith, c, z, ap m.ref q))

  load-same : load copied e ≡ load m e
  load-same =
      load-copied_frame i rest (pte_ppn (load m e)) e.frame e.index m (h.third_used i gone.0)

  copied-Mapped : Mapped pgdir va e copied
  copied-Mapped =
      let one : first pgdir va copied ≡ first pgdir va m =
        load-copied_frame i rest (pte_ppn (load m e)) pgdir (p1x va) m (h.root_used i gone.0) in
      let two : second pgdir va copied ≡ second pgdir va m =
        ap (λ (x : ℕ). load copied (entry (pte_ppn x) (p2x va))) one
        ∙ load-copied_frame i rest (pte_ppn (load m e)) (pte_ppn (first pgdir va m)) (p2x va) m
            (h.second_used i gone.0) in
      Mapped-same pgdir va e m copied one two h.mapped

  counts : copied.ref ≡ m.ref
  unfolding copy_page
  counts = gone.4

  page_insert-left : page_insert pgdir asid i va perm copied ≡ done success left
  unfolding page_insert insert_found
  page_insert-left =
      let v : is_valid (load copied e) ≡ true = rw load-same h.valid in
      let q : ppn2page (pte_ppn (load copied e)) ≡ some old = rw load-same h.page in
      let ne : (old == i) ≡ false = (let d : old ≢ i = distinct in ground arith) in
      let c : 0 < copied.ref old = subst (λ (f : ℕ → ℕ). 0 < f old) (sym counts) h.counted in
      rw (pgdir_walk-Mapped pgdir va false e copied copied-Mapped, v, q, ne)
        (rw (page_remove-removed pgdir va copied e asid old copied-Mapped v q c) (
          insert_new-inserted pgdir va (removed pgdir va asid old e copied) e asid i perm
            (removed-Mapped pgdir va copied e asid old copied-Mapped)))

  left-Mapped : Mapped pgdir va e left
  unfolding inserted
  left-Mapped =
      let m1 = removed pgdir va asid old e copied in
      let m2 = tlb_log (flush_page asid va) m1 in
      incref-Mapped pgdir va i e (store e (make_pte i perm) m2) (
        store-Mapped pgdir va e (make_pte i perm) m2 (
          tlb_log-Mapped pgdir va (flush_page asid va) e m1
            (removed-Mapped pgdir va copied e asid old copied-Mapped)))

  load-left : load left e ≡ make_pte i perm
  unfolding inserted
  load-left =
      let m2 = tlb_log (flush_page asid va) (removed pgdir va asid old e copied) in
      load-incref (store e (make_pte i perm) m2) i e ∙ load-store_self m2 e (make_pte i perm)

  source : (pte_ppn (load m e) ≡ page2ppn old) × (old < npage)
  source = ppn2page-inverse (pte_ppn (load m e)) old h.page

  words-copied : (j : ℕ) → copied.word (page2ppn i) j ≡ m.word (page2ppn old) j
  unfolding copy_page taken
  words-copied j =
      let d : old ≢ i = distinct in
      let other : (pte_ppn (load m e) == page2ppn i) ≡ false = rw source.0 (ground arith) in
      let same : (page2ppn i == page2ppn i) ≡ true = ==_self (page2ppn i) in
      rw (same, other) (ap (λ (f : ℕ). m.word f j) source.0)

  words-left : (j : ℕ) → left.word (page2ppn i) j ≡ m.word (page2ppn old) j
  unfolding inserted removed tlb_log released load
  words-left j =
      let ne : page2ppn i ≢ e.frame = h.third_used i gone.0 in
      let m1 = released old copied in
      let m2 = tlb_log (flush_page asid va) (removed pgdir va asid old e copied) in
      load-incref (store e (make_pte i perm) m2) i (entry (page2ppn i) j)
      ∙ load-store_frame m2 e (make_pte i perm) (page2ppn i) j (λ q. ne (sym q))
      ∙ load-store_frame m1 e 0 (page2ppn i) j (λ q. ne (sym q))
      ∙ words-copied j

  count-left : left.ref old ≡ m.ref old - 1
  unfolding inserted incref store tlb_log removed released copy_page taken
  count-left = let d : old ≢ i = distinct in ground arith

  left-IsSupply : IsSupply left
  unfolding inserted removed
  left-IsSupply =
      let f = flush_page asid va in
      let c : 0 < copied.ref old = subst (λ (g : ℕ → ℕ). 0 < g old) (sym counts) h.counted in
      let m1 = released old copied in
      let m2 = store e 0 m1 in
      let m3 = tlb_log f (tlb_log f m2) in
      let s1 : IsSupply copied = unfold copy_page in taken-IsSupply m i rest head h.supply in
      let s3 = tlb_log-IsSupply (tlb_log f m2) f (
        tlb_log-IsSupply m2 f
          (store-IsSupply m1 e 0 (released-IsSupply copied old s1 source.1 c))) in
      let out : has i m3.free ≡ false =
        unfold tlb_log store in
        released-free copied old i (λ q. distinct (sym q)) (unfold copy_page in gone.1) in
      incref-IsSupply (store e (make_pte i perm) m3) i (store-IsSupply m3 e (make_pte i perm) s3)
        (unfold store in out)

  left-IsCopied :
      perm < 2 ^ 10 → IsOwn (load m e) (make_pte i perm) → IsCopied pgdir va old i e m left
  left-IsCopied lt own =
      let t = make_pte_lem i perm gone.2 lt in
      record {
        was_free = gone.0;
        found =
            page_lookup-Mapped pgdir va left e i left-Mapped (rw load-left t.0) (rw load-left t.1);
        flags = rw load-left own;
        words = words-left;
        count = count-left;
        supply = left-IsSupply;
      }

-- The flags without PTE_COW, and with PTE_W.
own_perm_lem : (v : ℕ) → own_perm (v % 2 ^ 10) ≡ v % 2 ^ 9 / 8 * 8 + 4 + v % 4
unfolding own_perm
own_perm_lem v = elim (Bool-cases (has_cow (v % 2 ^ 10))) [
  | inl t ↦
      let e : v % 2 ^ 10 - 2 ^ 9 ≡ v % 2 ^ 9 = ground arith in
      rw (t, e) (omega (arith, bit_or-four (v % 2 ^ 9)))
  | inr f ↦
      let e : v % 2 ^ 10 ≡ v % 2 ^ 9 = ground arith in
      rw (f, e) (omega (arith, bit_or-four (v % 2 ^ 9)))
]

make_pte_sum :
    (pp perm : ℕ) → perm < 2 ^ 10 → make_pte pp perm ≡ (page2ppn pp * 2 ^ 10 + perm) / 2 * 2 + 1
unfolding make_pte
make_pte_sum pp perm lt =
    bit_or-one (bit_or (page2ppn pp * 2 ^ 10) perm)
    ∙ ap (λ (x : ℕ). x / 2 * 2 + 1) (bit_or-disjoint 10 (page2ppn pp) perm lt)

own_perm-IsOwn : (v new : ℕ) → is_valid v ≡ true → IsOwn v (make_pte new (own_perm (pte_flags v)))
unfolding pte_flags is_valid
own_perm-IsOwn v new valid =
    let odd : v % 2 ≡ 1 = ground arith in
    let e = own_perm_lem v in
    let lt : own_perm (v % 2 ^ 10) < 2 ^ 10 = own_perm-lt (v % 2 ^ 10) (omega arith) in
    rw (make_pte_sum new (own_perm (v % 2 ^ 10)) lt) (record {
      writable = omega (arith, e);
      not_cow = omega (arith, e);
      low = omega (arith, e);
      high = omega (arith, e);
    })

-- A fault at an address that is mapped copy-on-write, with a page on an intact free list whose tables are in use:
-- `do_cow` comes back, and the head of the free list is found there, with PTE_W, without
-- PTE_COW and otherwise with the flags of the old entry, and with the words of the old page, which has a reference
-- less; the free list is intact.
pub do_cow-IsCopied :
    (pgdir asid va old : ℕ) (e : Entry) (m : Mem) (i : ℕ) (rest : List ℕ)
    → IsShared pgdir va old e m
    → m.free ≡ i ∷ rest
    → Returns (λ _ m'. IsCopied pgdir va old i e m m') (do_cow pgdir asid va m)
unfolding do_cow cow_found cow_with pte_flags
do_cow-IsCopied pgdir asid va old e m i rest h head =
    let perm = own_perm (pte_flags (load m e)) in
    rw (page_lookup-Mapped pgdir va m e old h.mapped h.valid h.page) (
      rw (page_alloc-cons m i rest head) (
        let same : load (taken i rest m) e ≡ load m e =
          load-taken_frame m i rest e.frame e.index
            (h.third_used i (taken-gone m i rest head h.supply).0) in
        rw (same, page_insert-left pgdir asid va old e m h i rest head perm)
          (left-IsCopied pgdir asid va old e m h i rest head perm
            (own_perm-lt (pte_flags (load m e)) (unfold pte_flags in omega arith))
            (own_perm-IsOwn (load m e) i h.valid))))
