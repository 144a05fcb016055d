-- ===== src/Tests/Pages.antt =====
-- Page tables with concrete contents.
use mos_riscv.Prelude.{
  ℕ, ◌+◌, ◌*◌, ◌≡◌, refl, true, none, some, [], ◌∷◌, has, ◌==◌, if◌then◌else◌, arith,
}
use mos_riscv.Prelude.Run.{Returns, done}
use mos_riscv.Kern.Mmu.{p3x, pte_ppn, is_valid, is_non_leaf, ppn2page, make_pte}
use mos_riscv.Kern.Pmap.Mem.{Mem, Entry, entry, load}
use mos_riscv.Kern.Pmap.Walk.{pgdir_walk}
use mos_riscv.Kern.Pmap.Map.{page_lookup, page_remove, page_insert}
use mos_riscv.Kern.Pmap.Supply.{IsSupply}
use mos_riscv.Kern.Pmap.Path.{IsPath, Mapped}
use mos_riscv.Kern.Pmap.InsertLaws.{IsCounted}
use mos_riscv.Kern.Pmap.WalkLaws.{Created, pgdir_walk-Created}
use mos_riscv.Kern.Pmap.RoundTrip.{Found, page_insert-page_lookup, page_remove-page_lookup}
use mos_riscv.Kern.Pmap.Mem.{flush_page}

-- The directory is page 0, and an address below UTOP.
abbrev root : ℕ
root = 0x80000

abbrev text : ℕ
text = 0x400000

-- An empty directory; pages 2 and 3 are free.
abbrev empty : Mem
empty = record {
  free = 2 ∷ 3 ∷ [];
  ref = λ i. if has i (2 ∷ 3 ∷ []) then 0 else 1;
  word = λ _ _. 0;
  flushed = [];
}

empty-IsSupply : IsSupply empty
empty-IsSupply = record {
  unused = λ i h. ground arith;
  in_range = λ i h. ground arith;
  once = (refl, (refl, tt));
}

empty-IsPath : IsPath root text empty
unfolding load is_valid
empty-IsPath = record {
  root_used = λ i h e. absurd (ground arith);
  first_table = λ h. absurd (ground arith);
  second_used = λ h. absurd (ground arith);
  second_apart = λ h. absurd (ground arith);
  second_table = λ h. absurd (ground arith);
  third_apart_root = λ h. absurd (ground arith);
  third_apart_second = λ h. absurd (ground arith);
}

empty-IsCounted : IsCounted root text empty
unfolding load is_valid
empty-IsCounted = λ e p v. let h = p.first_valid in absurd (ground arith)

page_insert-page_lookup_example :
    Returns (Found root text 7 0x16 empty) (page_insert root 5 7 text 0x16 empty)
page_insert-page_lookup_example =
    page_insert-page_lookup root 5 7 text 0x16 empty (omega arith) (omega arith) empty-IsPath
      empty-IsSupply empty-IsCounted refl

pgdir_walk-Created_example : Returns (Created root text empty) (pgdir_walk root text true empty)
pgdir_walk-Created_example = pgdir_walk-Created root text empty empty-IsSupply empty-IsPath

-- Page 0 is the directory, page 1 a second-level and page 2 a third-level table, whose entries all
-- refer to page 7.
abbrev full : Mem
full = record {
  free = 3 ∷ [];
  ref = λ i. if i == 3 then 0 else 1;
  word = λ f i.
      if f == 0x80000
      then 0x80001 * 1024 + 1
      else if f == 0x80001
      then 0x80002 * 1024 + 1
      else if f == 0x80002
      then make_pte 7 0x16
      else 0;
  flushed = [];
}

full-IsSupply : IsSupply full
full-IsSupply = record {
  unused = λ i h. ground arith;
  in_range = λ i h. ground arith;
  once = (refl, tt);
}

abbrev leaf : Entry
leaf = entry 0x80002 (p3x text)

full-Mapped : Mapped root text leaf full
unfolding load is_valid is_non_leaf pte_ppn
full-Mapped = record {
  first_valid = refl;
  first_table = refl;
  second_valid = refl;
  second_table = refl;
  third = refl;
  apart_root = λ e. absurd (ground arith);
  apart_second = λ e. absurd (ground arith);
}

leaf-valid : is_valid (load full leaf) ≡ true
unfolding load is_valid make_pte
leaf-valid = refl

leaf-page : ppn2page (pte_ppn (load full leaf)) ≡ some 7
unfolding load pte_ppn ppn2page make_pte
leaf-page = refl

page_remove-page_lookup_example :
    Returns
      (λ _ m'.
        (page_lookup root text m' ≡ done none m')
        × ((m'.ref 7 ≡ 0) × (has 7 m'.free ≡ true) × (m'.flushed ≡ flush_page 5 text ∷ [])))
      (page_remove root 5 text full)
page_remove-page_lookup_example =
    page_remove-page_lookup root 5 text 7 leaf full full-Mapped full-IsSupply leaf-valid leaf-page
      (omega arith)

-- A second-level table without entries.
abbrev half : Mem
half = record {
  free = 3 ∷ [];
  ref = λ i. if i == 3 then 0 else 1;
  word = λ f i. if f == 0x80000 then 0x80001 * 1024 + 1 else 0;
  flushed = [];
}

half-IsSupply : IsSupply half
half-IsSupply = record {
  unused = λ i h. ground arith;
  in_range = λ i h. ground arith;
  once = (refl, tt);
}

half-IsPath : IsPath root text half
unfolding load is_valid is_non_leaf pte_ppn
half-IsPath = record {
  root_used = λ i h e. absurd (ground arith);
  first_table = λ h. refl;
  second_used = λ h i u e. absurd (ground arith);
  second_apart = λ h e. absurd (ground arith);
  second_table = λ h v. absurd (ground arith);
  third_apart_root = λ h v. absurd (ground arith);
  third_apart_second = λ h v. absurd (ground arith);
}
