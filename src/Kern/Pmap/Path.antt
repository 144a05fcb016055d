-- ===== src/Kern/Pmap/Path.antt =====
-- The path of one address through the tables: what `pgdir_walk` finds, makes and leaves alone.
use mos_riscv.Prelude.{
  ℕ, ◌+◌, ◌*◌, ◌^◌, ◌<◌, ◌≡◌, ◌≢◌, true, false, Bool, some, has, arith, ◌⊎◌, bit_or,
}
use mos_riscv.Prelude.Bits.{bit_or-disjoint}
use mos_riscv.Prelude.Run.{done}
use mos_riscv.Kern.Error.{success}
use mos_riscv.Kern.Mmu.{npage, low_ppn, page2ppn, p1x, p2x, p3x, pte_ppn, is_valid, is_non_leaf}
use mos_riscv.Kern.Pmap.Mem.{Mem, Entry, entry, load, store}
use mos_riscv.Kern.Pmap.Walk.{table_pte, walk_second, pgdir_walk}
use mos_riscv.Kern.Pmap.Cells.{load-store_frame}
use mos_riscv.Kern.Pmap.Supply.{IsSupply, NoMore}

-- The entry that points at a table is valid, no leaf, and holds the frame of the table.
pub table_pte_lem :
    (i : ℕ)
    → i < npage
    → (is_valid (table_pte i) ≡ true)
      × (is_non_leaf (table_pte i) ≡ true)
      × (pte_ppn (table_pte i) ≡ page2ppn i)
unfolding table_pte is_valid is_non_leaf pte_ppn
table_pte_lem i h =
    let e : bit_or ((i + low_ppn) * 2 ^ 10) 1 ≡ (i + low_ppn) * 2 ^ 10 + 1 =
      bit_or-disjoint 10 (i + low_ppn) 1 (omega arith) in
    rw e (ground arith, ground arith, omega arith)

-- No free page is frame `f`.
abbrev pub Used : Mem → ℕ → Type 0
Used m f = (i : ℕ) → has i m.free ≡ true → page2ppn i ≢ f

module _ (pgdir va : ℕ) where
  abbrev pub first : Mem → ℕ
  first m = load m (entry pgdir (p1x va))

  abbrev pub second : Mem → ℕ
  second m = load m (entry (pte_ppn (first m)) (p2x va))

  -- Two tables below the root lead to entry `e` of the third level.
  pub record Mapped (e : Entry) (m : Mem) : Type 0 where
    pub first_valid : is_valid (first m) ≡ true
    pub first_table : is_non_leaf (first m) ≡ true
    pub second_valid : is_valid (second m) ≡ true
    pub second_table : is_non_leaf (second m) ≡ true
    pub third : e ≡ entry (pte_ppn (second m)) (p3x va)
    pub apart_root : pte_ppn (second m) ≢ pgdir
    pub apart_second : pte_ppn (second m) ≢ pte_ppn (first m)

  -- The tables on the path are no huge pages, are in use, and differ.
  pub record IsPath (m : Mem) : Type 0 where
    pub root_used : Used m pgdir
    pub first_table : is_valid (first m) ≡ true → is_non_leaf (first m) ≡ true
    pub second_used : is_valid (first m) ≡ true → Used m (pte_ppn (first m))
    pub second_apart : is_valid (first m) ≡ true → pte_ppn (first m) ≢ pgdir
    pub second_table :
        is_valid (first m) ≡ true → is_valid (second m) ≡ true → is_non_leaf (second m) ≡ true
    pub third_apart_root :
        is_valid (first m) ≡ true → is_valid (second m) ≡ true → pte_ppn (second m) ≢ pgdir
    pub third_apart_second :
        is_valid (first m) ≡ true
        → is_valid (second m) ≡ true
        → pte_ppn (second m) ≢ pte_ppn (first m)

  -- On a complete path a walk changes nothing, and finds the entry.
  pub pgdir_walk-Mapped :
      (create : Bool) (e : Entry) (m : Mem)
      → Mapped e m
      → pgdir_walk pgdir va create m ≡ done (success, some e) m
  unfolding pgdir_walk walk_second
  pgdir_walk-Mapped create e m p =
      rw (p.first_valid, p.first_table, p.second_valid, p.second_table, p.third)

  -- A path depends on the two entries alone.
  pub Mapped-same :
      (e : Entry) (m m' : Mem)
      → first m' ≡ first m
      → second m' ≡ second m
      → Mapped e m
      → Mapped e m'
  Mapped-same e m m' one two p = record {
    first_valid = rw one p.first_valid;
    first_table = rw one p.first_table;
    second_valid = rw two p.second_valid;
    second_table = rw two p.second_table;
    third = rw two p.third;
    apart_root = rw two p.apart_root;
    apart_second = rw (two, one) p.apart_second;
  }

  -- A write to the entry keeps the path.
  pub store-Mapped : (e : Entry) (v : ℕ) (m : Mem) → Mapped e m → Mapped e (store e v m)
  store-Mapped e v m p =
      let root : e.frame ≢ pgdir = rw p.third p.apart_root in
      let mid : e.frame ≢ pte_ppn (first m) = rw p.third p.apart_second in
      let one : first (store e v m) ≡ first m = load-store_frame m e v pgdir (p1x va) root in
      let two : second (store e v m) ≡ second m =
        rw one (load-store_frame m e v (pte_ppn (first m)) (p2x va) mid) in
      Mapped-same e m (store e v m) one two p

  -- What a walk that finds or makes entry `e` leaves: a complete path, the invariant of the free
  -- list, the counts of all pages that were in use, and an entry that is old or empty.
  pub record Walked (m : Mem) (e : Entry) (m' : Mem) : Type 0 where
    pub mapped : Mapped e m'
    pub supply : IsSupply m'
    pub no_more : NoMore m m'
    pub counts : (i : ℕ) → has i m.free ≡ false → m'.ref i ≡ m.ref i
    pub fresh : (m' ≡ m) ⊎ (load m' e ≡ 0)
