-- ===== src/Kern/Pmap/Made.antt =====
-- The tables that a walk makes: a third level under a second, or both.
use mos_riscv.Prelude.{
  ℕ, ◌≡◌, ◌≢◌, ◌<◌, refl, arith, true, false, some, List, ◌∷◌, has, inr, ◌∙◌, sym,
}
use mos_riscv.Prelude.Run.{done}
use mos_riscv.Kern.Error.{success}
use mos_riscv.Kern.Mmu.{npage, page2ppn, p1x, p2x, p3x, pte_ppn, is_valid}
use mos_riscv.Kern.Pmap.Mem.{Mem, entry, load, store, incref}
use mos_riscv.Kern.Pmap.Walk.{table_pte, make_third, walk_create}
use mos_riscv.Kern.Pmap.Cells.{
  load-store_self, load-store_frame, load-taken_frame, load-taken_zero, load-incref,
}
use mos_riscv.Kern.Pmap.Supply.{
  IsSupply, NoMore, NoMore-of_cons, counts-incref, taken, page_alloc-cons, taken-IsSupply,
  taken-gone, incref-IsSupply, store-IsSupply, ne_of_has, incref-ref_ne,
}
use mos_riscv.Kern.Pmap.Path.{table_pte_lem, IsPath, Walked, first, second}

module _ (pgdir va : ℕ) where
  module _ (m : Mem) (n : ℕ) (rest : List ℕ) (free : m.free ≡ n ∷ rest) (s : IsSupply m) where
    -- The memory after `make_third`.
    pub third_made : Mem
    third_made =
        store (entry (pte_ppn (first pgdir va m)) (p2x va)) (table_pte n)
          (incref n (taken n rest m))

    pub make_third-made :
        make_third (entry (pte_ppn (first pgdir va m)) (p2x va)) va m
        ≡ done (success, some (entry (page2ppn n) (p3x va))) third_made
    unfolding make_third third_made
    make_third-made = rw (page_alloc-cons m n rest free)

    pub third_made-accounts : (third_made.free ≡ rest) × (third_made.ref n ≡ 1)
    unfolding third_made store incref taken
    third_made-accounts = let z = (taken-gone m n rest free s).3 in (refl, ground arith)

    pub load-third_made :
        page2ppn n ≢ pte_ppn (first pgdir va m) → load third_made (entry (page2ppn n) (p3x va)) ≡ 0
    unfolding third_made
    load-third_made mid =
        load-store_frame (incref n (taken n rest m)) (entry (pte_ppn (first pgdir va m)) (p2x va))
          (table_pte n) (page2ppn n) (p3x va) (λ e. mid (sym e))
        ∙ load-incref (taken n rest m) n (entry (page2ppn n) (p3x va))
        ∙ load-taken_zero m n rest (p3x va)

    third_made-NoMore : NoMore m third_made
    unfolding third_made store incref taken
    third_made-NoMore = NoMore-of_cons m third_made n free

    third_made-counts : (i : ℕ) → has i m.free ≡ false → third_made.ref i ≡ m.ref i
    unfolding third_made store
    third_made-counts =
        let g = taken-gone m n rest free s in counts-incref m (taken n rest m) n g.0 g.4

    pub third_made-Walked :
        IsPath pgdir va m
        → is_valid (first pgdir va m) ≡ true
        → is_valid (second pgdir va m) ≡ false
        → Walked pgdir va m (entry (page2ppn n) (p3x va)) third_made
    unfolding third_made
    third_made-Walked p v w =
        let g = taken-gone m n rest free s in
        let t = table_pte_lem n g.2 in
        let root : page2ppn n ≢ pgdir = p.root_used n g.0 in
        let mid : page2ppn n ≢ pte_ppn (first pgdir va m) = p.second_used v n g.0 in
        let slot = entry (pte_ppn (first pgdir va m)) (p2x va) in
        let base = incref n (taken n rest m) in
        let one : first pgdir va third_made ≡ first pgdir va m =
          load-store_frame base slot (table_pte n) pgdir (p1x va) (p.second_apart v)
          ∙ load-incref (taken n rest m) n (entry pgdir (p1x va))
          ∙ load-taken_frame m n rest pgdir (p1x va) root in
        let two : second pgdir va third_made ≡ table_pte n =
          rw one (load-store_self base slot (table_pte n)) in
        record {
          mapped = record {
            first_valid = rw one v;
            first_table = rw one (p.first_table v);
            second_valid = rw two t.0;
            second_table = rw two t.1;
            third = rw (two, t.2);
            apart_root = rw (two, t.2) root;
            apart_second = rw (two, t.2, one) mid;
          };
          supply =
              store-IsSupply base slot (table_pte n)
                (incref-IsSupply (taken n rest m) n (taken-IsSupply m n rest free s) g.1);
          no_more = third_made-NoMore;
          counts = third_made-counts;
          fresh = inr (load-third_made mid);
        }

  module _ (m : Mem) (n2 n3 : ℕ) (rest : List ℕ) (free : m.free ≡ n2 ∷ n3 ∷ rest)
      (s : IsSupply m) where
    -- The memory after both calls of `page_alloc` and the two counts.
    both_taken : Mem
    both_taken = incref n3 (incref n2 (taken n3 rest (taken n2 (n3 ∷ rest) m)))

    -- The memory after `walk_create`.
    pub both_made : Mem
    both_made =
        store (entry (page2ppn n2) (p2x va)) (table_pte n3)
          (store (entry pgdir (p1x va)) (table_pte n2) both_taken)

    pub walk_create-made :
        walk_create pgdir va m ≡ done (success, some (entry (page2ppn n3) (p3x va))) both_made
    unfolding walk_create both_made both_taken taken
    walk_create-made = rw (page_alloc-cons m n2 (n3 ∷ rest) free)

    -- What is known of the two pages.
    record TwoPages : Type 0 where
      was_second : has n2 m.free ≡ true
      was_third : has n3 m.free ≡ true
      in_second : n2 < npage
      in_third : n3 < npage
      differ : n2 ≢ n3
      supply : IsSupply both_taken
      no_more : NoMore m both_taken

    two_pages : TwoPages
    unfolding taken both_taken incref
    two_pages =
        let a2 = taken n2 (n3 ∷ rest) m in
        let g2 = taken-gone m n2 (n3 ∷ rest) free s in
        let s2 = taken-IsSupply m n2 (n3 ∷ rest) free s in
        let g3 = taken-gone a2 n3 rest refl s2 in
        let s3 = taken-IsSupply a2 n3 rest refl s2 in
        let more : NoMore a2 (taken n3 rest a2) = NoMore-of_cons a2 (taken n3 rest a2) n3 refl in
        let out2 : has n2 (taken n3 rest a2).free ≡ false = more n2 g2.1 in
        record {
          was_second = g2.0;
          was_third = rw free (ground (arith, g3.0));
          in_second = g2.2;
          in_third = g3.2;
          differ = ne_of_has a2.free n2 n3 g3.0 g2.1;
          supply =
              incref-IsSupply (incref n2 (taken n3 rest a2)) n3
                (incref-IsSupply (taken n3 rest a2) n2 s3 out2) g3.1;
          no_more = λ j h. more j (NoMore-of_cons m a2 n2 free j h);
        }

    both_made-counts : (i : ℕ) → has i m.free ≡ false → both_made.ref i ≡ m.ref i
    unfolding both_made store both_taken taken
    both_made-counts i h =
        let a3 = taken n3 rest (taken n2 (n3 ∷ rest) m) in
        incref-ref_ne (incref n2 a3) n3 i (ne_of_has m.free i n3 two_pages.was_third h)
        ∙ incref-ref_ne a3 n2 i (ne_of_has m.free i n2 two_pages.was_second h)

    both_made-NoMore : NoMore m both_made
    unfolding both_made store
    both_made-NoMore = two_pages.no_more

    load-both_taken : (i : ℕ) → load both_taken (entry (page2ppn n3) i) ≡ 0
    unfolding both_taken
    load-both_taken i =
        let a2 = taken n2 (n3 ∷ rest) m in
        load-incref (incref n2 (taken n3 rest a2)) n3 (entry (page2ppn n3) i)
        ∙ load-incref (taken n3 rest a2) n2 (entry (page2ppn n3) i)
        ∙ load-taken_zero a2 n3 rest i

    pub both_made-Walked :
        IsPath pgdir va m
        → is_valid (first pgdir va m) ≡ false
        → Walked pgdir va m (entry (page2ppn n3) (p3x va)) both_made
    unfolding both_made
    both_made-Walked p v =
        let tp = two_pages in
        let t2 = table_pte_lem n2 tp.in_second in
        let t3 = table_pte_lem n3 tp.in_third in
        let root2 : page2ppn n2 ≢ pgdir = p.root_used n2 tp.was_second in
        let root3 : page2ppn n3 ≢ pgdir = p.root_used n3 tp.was_third in
        let apart : page2ppn n2 ≢ page2ppn n3 = λ e. tp.differ (omega arith) in
        let slot1 = entry pgdir (p1x va) in
        let slot2 = entry (page2ppn n2) (p2x va) in
        let hung = store slot1 (table_pte n2) both_taken in
        let one : first pgdir va both_made ≡ table_pte n2 =
          load-store_frame hung slot2 (table_pte n3) pgdir (p1x va) root2
          ∙ load-store_self both_taken slot1 (table_pte n2) in
        let two : second pgdir va both_made ≡ table_pte n3 =
          rw (one, t2.2) (load-store_self hung slot2 (table_pte n3)) in
        record {
          mapped = record {
            first_valid = rw one t2.0;
            first_table = rw one t2.1;
            second_valid = rw two t3.0;
            second_table = rw two t3.1;
            third = rw (two, t3.2);
            apart_root = rw (two, t3.2) root3;
            apart_second = rw (two, t3.2, one, t2.2) (λ e. apart (sym e));
          };
          supply =
              store-IsSupply hung slot2 (table_pte n3)
                (store-IsSupply both_taken slot1 (table_pte n2) tp.supply);
          no_more = both_made-NoMore;
          counts = both_made-counts;
          fresh = inr (
              load-store_frame hung slot2 (table_pte n3) (page2ppn n3) (p3x va) apart
              ∙ load-store_frame both_taken slot1 (table_pte n2) (page2ppn n3) (p3x va)
                  (λ e. root3 (sym e))
              ∙ load-both_taken (p3x va));
        }
