-- ===== src/Kern/Kmmap/Defs.antt =====
-- `kmmap_alloc` and `kmmap_free`: the array `kmmap_bmap`, with the kernel whose tables are changed.
use mos_riscv.Prelude.{
  ℕ, zero, suc, ◌+◌, ◌-◌, ◌*◌, ◌/◌, ◌%◌, ◌^◌, ◌&&◌, ◌||◌, Option, none, some, ◌==◌, ltb, leb,
  if◌then◌else◌, update,
}
use mos_riscv.Prelude.Run.{Cmd, done, stopped, wild, pure, undefined, modify, ◌>>◌}
use mos_riscv.Kern.Mmu.{page_size}
use mos_riscv.Kern.Env.State.{Kernel}
use mos_riscv.Kern.Env.Maps.{kmap, kunmap}

abbrev pub kmmap_begin_va : ℕ
kmmap_begin_va = 0xFFFFFFC0E0000000

abbrev pub kmmap_end_va : ℕ
kmmap_end_va = 0xFFFFFFC120000000

-- `KMMAP_COUNT`, the number of pages between the two.
abbrev pub kmmap_count : ℕ
kmmap_count = 0x40000

pub record Kmmap : Type 0 where
  pub kernel : Kernel
  pub kmmap_bmap : ℕ → ℕ

-- A change of the tables, which leaves the array.
unfoldable pub on_kernel : Cmd Kernel (Unit {0}) → Cmd Kmmap (Unit {0})
on_kernel c s = elim (c s.kernel) [
  | done a k ↦ done a (record s { kernel = k })
  | stopped ↦ stopped
  | wild ↦ wild
]

-- How the inner loop ends: it reads the array up to `i + page_count`, also behind its end.
pub data Probe : Type 0 where
  available busy outside : Probe

unfoldable pub probe : ℕ → ℕ → (ℕ → ℕ) → Probe
probe zero j b = available
probe (suc left) j b =
    let rest = probe left (j + 1) b in
    if leb kmmap_count j then outside else if b j == 0 then rest else busy

-- How the outer loop ends.
pub data Search : Type 0 where
  at : ℕ → Search
  full astray : Search

unfoldable pub after_probe : ℕ → Search → Probe → Search
after_probe i rest available = at i
after_probe i rest busy = rest
after_probe i rest outside = astray

-- The rounds of the outer loop that are left, from `i` on.
unfoldable pub scan : ℕ → ℕ → ℕ → (ℕ → ℕ) → Search
scan zero i n b = full
scan (suc left) i n b =
    let rest = scan left (i + 1) n b in if b i == 0 then after_probe i rest (probe n i b) else rest

-- The loop that writes `vpn_offset + page_count - i`, which are the rounds left at `i`.
unfoldable pub mark_run : ℕ → ℕ → (ℕ → ℕ) → ℕ → ℕ
mark_run zero i b = b
mark_run (suc left) i b = mark_run left (i + 1) (update b i (suc left))

unfoldable pub set_bmap : (ℕ → ℕ) → Kmmap → Kmmap
set_bmap b s = record s { kmmap_bmap = b }

-- `none` is NULL.
unfoldable pub alloc_at : ℕ → ℕ → ℕ → Search → Cmd Kmmap (Option ℕ)
alloc_at pa size perm full = pure none
alloc_at pa size perm astray = undefined
alloc_at pa size perm (at i) = do
  modify (λ s. set_bmap (mark_run (size / page_size) i s.kmmap_bmap) s)
  on_kernel (kmap (i * 2 ^ 12 + kmmap_begin_va) pa size perm)
  pure (some (i * 2 ^ 12 + kmmap_begin_va))

unfoldable pub kmmap_alloc : ℕ → ℕ → ℕ → Cmd Kmmap (Option ℕ)
kmmap_alloc pa size perm s =
    if size % page_size == 0
    then alloc_at pa size perm (scan kmmap_count 0 (size / page_size) s.kmmap_bmap) s
    else stopped

-- `VPN(va)`
abbrev pub vpn : ℕ → ℕ
vpn va = va % 2 ^ 39 / 2 ^ 12

-- `VPN(va) - VPN(KMMAP_BEGIN_VA)` on 64-bit words
abbrev pub vpn_offset : ℕ → ℕ
vpn_offset va = (vpn va + 2 ^ 64 - vpn kmmap_begin_va) % 2 ^ 64

-- `memset` of `n` words to 0, from index `i` on.
unfoldable pub clear : ℕ → ℕ → (ℕ → ℕ) → ℕ → ℕ
clear i n b j = if leb i j && ltb j (i + n) then 0 else b j

-- `n` pages are given back.
unfoldable pub free_at : ℕ → ℕ → Cmd Kmmap (Unit {0})
free_at va n = if n == 0 then pure tt else (do
  on_kernel (kunmap va (n * page_size))
  modify (λ s. set_bmap (clear (vpn_offset va) n s.kmmap_bmap) s))

unfoldable pub kmmap_free : ℕ → Cmd Kmmap (Unit {0})
kmmap_free va s =
    if ltb va kmmap_begin_va || leb kmmap_end_va va
    then stopped
    else if va % page_size == 0
    then free_at va (s.kmmap_bmap (vpn_offset va)) s
    else stopped
