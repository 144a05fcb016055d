-- ===== src/Kern/Mmu.antt =====
-- Address arithmetic and page table entries: include/mmu.h and the page numbering of
-- include/pmap.h. An address or an entry is a 64-bit word; `x & GENMASK(h, l)` is written as the
-- remainder and quotient by powers of two that it stands for.
use mos_riscv.Prelude.{
  ℕ, ◌+◌, ◌-◌, ◌*◌, ◌/◌, ◌%◌, ◌^◌, Bool, Option, none, some, ◌==◌, ltb, leb, ◌||◌, if◌then◌else◌,
  bit_or,
}

abbrev pub page_size : ℕ
page_size = 4096

-- `npage`: `memsize >> PAGE_SHIFT` for `memsize = 0x80000000`.
abbrev pub npage : ℕ
npage = 0x80000

-- `PPN(0x80000000)`, the frame of `pages[0]`.
abbrev pub low_ppn : ℕ
low_ppn = 0x80000

abbrev pub ulim : ℕ
ulim = 0x003F00000000

abbrev pub p1map : ℕ
p1map = 0x40000000

abbrev pub uvpt : ℕ
uvpt = ulim - p1map

abbrev pub upages : ℕ
upages = uvpt - p1map

abbrev pub uenvs : ℕ
uenvs = upages - p1map

abbrev pub utop : ℕ
utop = uenvs

abbrev pub ustacktop : ℕ
ustacktop = utop - 2 * page_size

abbrev pub utext : ℕ
utext = 2 * 0x200000

abbrev pub ucow : ℕ
ucow = utext - page_size

abbrev pub utemp : ℕ
utemp = ucow - page_size

-- `P1X`, `P2X` and `P3X`: the index of an address in each level of the page table.
unfoldable pub p1x : ℕ → ℕ
p1x va = va % 2 ^ 39 / 2 ^ 30 % 2 ^ 9

unfoldable pub p2x : ℕ → ℕ
p2x va = va % 2 ^ 39 / 2 ^ 21 % 2 ^ 9

unfoldable pub p3x : ℕ → ℕ
p3x va = va % 2 ^ 39 / 2 ^ 12 % 2 ^ 9

-- `PTE_ADDR(pte)` and the frame number in it.
unfoldable pub pte_ppn : ℕ → ℕ
pte_ppn e = e / 2 ^ 10 % 2 ^ 44

unfoldable pub pte_addr : ℕ → ℕ
unfolding pte_ppn
pte_addr e = pte_ppn e * 2 ^ 12

-- `PTE_FLAGS(pte)`
unfoldable pub pte_flags : ℕ → ℕ
pte_flags e = e % 2 ^ 10

-- `pte & PTE_V`
unfoldable pub is_valid : ℕ → Bool
is_valid e = e % 2 == 1

-- `PTE_IS_NON_LEAF(pte)`: bits 1 to 3 are clear.
unfoldable pub is_non_leaf : ℕ → Bool
is_non_leaf e = e / 2 % 8 == 0

-- `page2ppn(&pages[i])`
abbrev pub page2ppn : ℕ → ℕ
page2ppn i = i + low_ppn

abbrev pub page2pa : ℕ → ℕ
page2pa i = page2ppn i * 2 ^ 12

-- `pa2page` of the page at frame `n`: `none` where it panics.
unfoldable pub ppn2page : ℕ → Option ℕ
ppn2page n = if ltb n low_ppn || leb npage (n - low_ppn) then none else some (n - low_ppn)

-- `(page2ppn(pp) << FLAG_SHIFT) | perm | PTE_V`
unfoldable pub make_pte : ℕ → ℕ → ℕ
make_pte i perm = bit_or (bit_or (page2ppn i * 2 ^ 10) perm) 1
