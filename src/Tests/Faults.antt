-- ===== src/Tests/Faults.antt =====
-- A page fault in an empty address space, and a page of a parent that a child gets.
use mos_riscv.Prelude.{
  ℕ, inl, ◌+◌, ◌*◌, ◌^◌, ◌≡◌, refl, true, some, [], ◌∷◌, has, ◌==◌, ◌&&◌, if◌then◌else◌, arith,
}
use mos_riscv.Prelude.Run.{Returns, Keeps}
use mos_riscv.Kern.Mmu.{pte_ppn, pte_flags, is_valid, ppn2page}
use mos_riscv.Kern.Pmap.Mem.{Mem, Entry, entry, load}
use mos_riscv.Kern.Pmap.Supply.{IsSupply}
use mos_riscv.Kern.Pmap.Path.{IsPath}
use mos_riscv.Kern.Pmap.InsertLaws.{IsCounted}
use mos_riscv.Kern.Fault.Alloc.{passive_alloc}
use mos_riscv.Kern.Fault.Fresh.{IsUserAddress, IsFreshUser, passive_alloc-IsFresh}
use mos_riscv.Kern.Fork.Share.{new_perm, duppage}
use mos_riscv.Kern.Fork.Protect.{IsShared, IsProtected, duppage-IsProtected}

abbrev child : ℕ
child = 0x80000

-- The number of a page of the program, and its address.
abbrev vpn : ℕ
vpn = 0x400

abbrev addr : ℕ
addr = vpn * 2 ^ 12

-- The directory of the child is empty; the parent has a writable page 7 under entry 0 of frame 0x80005.
abbrev memory : Mem
memory = record {
  free = 2 ∷ 3 ∷ 4 ∷ [];
  ref = λ i. if has i (2 ∷ 3 ∷ 4 ∷ []) then 0 else 1;
  word = λ f i. if (f == 0x80005) && (i == 0) then 0x80007 * 1024 + 0x17 else 0;
  flushed = [];
}

memory-IsSupply : IsSupply memory
memory-IsSupply = record {
  unused = λ i h. ground arith;
  in_range = λ i h. ground arith;
  once = (refl, (refl, (refl, tt)));
}

memory-IsPath : IsPath child addr memory
unfolding load is_valid
memory-IsPath = record {
  root_used = λ i h e. absurd (ground arith);
  first_table = λ h. absurd (ground arith);
  second_used = λ h. absurd (ground arith);
  second_apart = λ h. absurd (ground arith);
  second_table = λ h. absurd (ground arith);
  third_apart_root = λ h. absurd (ground arith);
  third_apart_second = λ h. absurd (ground arith);
}

memory-IsCounted : IsCounted child addr memory
unfolding load is_valid
memory-IsCounted = λ e p v. let h = p.first_valid in absurd (ground arith)

addr-IsUserAddress : IsUserAddress addr
addr-IsUserAddress = (omega arith, omega arith, inl (omega arith))

passive_alloc-IsFresh_example :
    Returns (λ _ m'. IsFreshUser child addr memory m') (passive_alloc addr child 5 memory)
passive_alloc-IsFresh_example =
    passive_alloc-IsFresh addr child 5 memory addr-IsUserAddress memory-IsPath memory-IsSupply
      memory-IsCounted (omega arith)

abbrev page_7 : Entry
page_7 = entry 0x80005 0

page_7-valid : is_valid (load memory page_7) ≡ true
unfolding is_valid load
page_7-valid = refl

ppn2page-page_7 : ppn2page (pte_ppn (load memory page_7)) ≡ some 7
unfolding ppn2page pte_ppn load
ppn2page-page_7 = refl

duppage-IsProtected_example :
    Keeps
      (λ _ m'.
        IsShared page_7 child addr 7 (new_perm (pte_flags (load memory page_7))) memory m'
        × IsProtected (pte_flags (load memory page_7)) (pte_flags (load m' page_7)))
      (duppage page_7 child 5 vpn memory)
duppage-IsProtected_example =
    duppage-IsProtected page_7 child 5 vpn 7 memory page_7-valid ppn2page-page_7 (omega arith) refl
      memory-IsPath memory-IsSupply memory-IsCounted
