-- ===== src/Driver/Device/Mapped.antt =====
-- The registers of devices are mapped: what kern/device.c registers, and what it translates.
use mos_riscv.Prelude.{
  ℕ, zero, suc, ◌+◌, ◌-◌, ◌*◌, ◌/◌, ◌%◌, ◌^◌, ◌≤◌, ◌<◌, ◌≡◌, ◌≢◌, refl, true, false, Option, none,
  some, List, [], ◌∷◌, All, ◌==◌, ltb, Bool-cases, inl, inr, arith,
}
use mos_riscv.Prelude.Run.{Run, done, stopped, wild, Keeps, Keeps-and_then}
use mos_riscv.Kern.Pmap.Range.{round_page}
use mos_riscv.Kern.Mmu.{page_size}
use mos_riscv.Kern.Env.Maps.{kmap}
use mos_riscv.Kern.Env.Safe.{kmap-IsSafe}
use mos_riscv.Kern.Kmalloc.Defs.{kmalloc}
use mos_riscv.Kern.Kmmap.Defs.{
  Kmmap, kmmap_begin_va, kmmap_end_va, kmmap_count, Search, at, full, astray, scan, mark_run,
  set_bmap, on_kernel, alloc_at, kmmap_alloc,
}
use mos_riscv.Kern.Kmmap.FirstFit.{IsAnswer, scan-IsAnswer}
use mos_riscv.Kern.Kmmap.RoundTrip.{HasBmap, on_kernel-HasBmap}
use mos_riscv.Driver.Device.Defs.{
  Range, Device, Devices, covers, find_range, mapped_at, get_mapped_pa, holder, legal_device,
  push_range, map_range, range_at, add_mmio_range, lift_kmmap, range_size, set_heap,
}

-- A range lies in the window of `kmmap_alloc`, and its physical addresses do not wrap.
abbrev pub InWindow : Range → Type 0
InWindow r =
    (kmmap_begin_va ≤ r.mapped_va) × (r.mapped_va + r.len ≤ kmmap_end_va) × (r.pa + r.len < 2 ^ 64)

abbrev HasWindows : Device → Type 0
HasWindows v = All InWindow v.mmio_range_list

-- Every range of every device does.
abbrev pub IsMapped : Devices → Type 0
IsMapped d = All HasWindows d.array

-- A range that is found covers the address and lies in the window.
abbrev Covering : ℕ → Option Range → Type 0
Covering pa none = Unit
Covering pa (some r) = InWindow r × (covers pa r ≡ true)

find_range-Covering : (pa : ℕ) (rs : List Range) → All InWindow rs → Covering pa (find_range pa rs)
unfolding find_range
find_range-Covering pa [] h = tt
find_range-Covering pa (x ∷ rs) (w, h) = elim (Bool-cases (covers pa x)) [
  | inl t ↦ rw t (w, t)
  | inr t ↦ rw t (find_range-Covering pa rs h)
]

-- A device that holds an address translates it, to an address in the window.
abbrev pub Translates : ℕ → Option Device → Type 0
Translates pa none = Unit
Translates pa (some v) =
    (va : ℕ) × (get_mapped_pa v pa ≡ some va) × (kmmap_begin_va ≤ va) × (va < kmmap_end_va)

mapped_at-some :
    (pa : ℕ) (r : Range)
    → InWindow r
    → covers pa r ≡ true
    → (va : ℕ) × (mapped_at pa (some r) ≡ some va) × (kmmap_begin_va ≤ va) × (va < kmmap_end_va)
unfolding mapped_at covers
mapped_at-some pa r (lo, hi, wrap) c =
    let va = (r.mapped_va + (pa - r.pa)) % 2 ^ 64 in
    let bounds : (r.pa ≤ pa) × (pa < r.pa + r.len) = (ground arith, ground arith) in
    let same : va ≡ r.mapped_va + (pa - r.pa) = omega (arith, lo, hi, bounds.0, bounds.1) in
    let nz : (va == 0) ≡ false = ground (arith, lo, same) in
    (va, rw nz refl, omega (arith, lo, same), omega (arith, hi, same, bounds.0, bounds.1))

held :
    (pa : ℕ) (v : Device) (o : Option Range) (rest : Option Device)
    → find_range pa v.mmio_range_list ≡ o
    → Covering pa o
    → Translates pa rest
    → Translates pa (elim o as (λ _. Option Device) [ none ↦ rest | some r ↦ some v ])
unfolding get_mapped_pa
held pa v none rest e c t = t
held pa v (some r) rest e (w, c) t = rw e (mapped_at-some pa r w c)

holder-Translates : (pa : ℕ) (vs : List Device) → All HasWindows vs → Translates pa (holder pa vs)
unfolding holder
holder-Translates pa [] h = tt
holder-Translates pa (v ∷ vs) (w, h) =
    held pa v (find_range pa v.mmio_range_list) (holder pa vs) refl
      (find_range-Covering pa v.mmio_range_list w) (holder-Translates pa vs h)

-- What the system calls on device registers accept: if every range of the registry lies in the window of
-- `kmmap_alloc`, then an address that the check assigns to a device is translated by that device, so that
-- the access does not panic, to an address in the window.
pub legal_device-Translates :
    (pa len : ℕ) (d : Devices) → IsMapped d → Translates pa (legal_device pa len d)
unfolding legal_device
legal_device-Translates pa len d h = elim (Bool-cases (ltb ((pa + len) % 2 ^ 64) pa)) [
  | inl t ↦ rw t tt
  | inr t ↦ rw t (holder-Translates pa d.array h)
]

push_range-All :
    (i : ℕ) (r : Range) (vs : List Device)
    → InWindow r
    → All HasWindows vs
    → All HasWindows (push_range i r vs)
unfolding push_range
push_range-All i r [] w h = tt
push_range-All zero r (v ∷ vs) w (h, hs) = ((w, h), hs)
push_range-All (suc i) r (v ∷ vs) w (h, hs) = (h, push_range-All i r vs w hs)

-- The answer of `kmmap_alloc` for a number of bytes.
abbrev Allotted : ℕ → Option ℕ → Kmmap → Type 0
Allotted size none k = Unit
Allotted size (some va) k = (kmmap_begin_va ≤ va) × (va + size ≤ kmmap_end_va)

alloc_at-Allotted :
    (pa size perm : ℕ) (f : Search) (k : Kmmap)
    → size % page_size ≡ 0
    → IsAnswer (size / page_size) k.kmmap_bmap f
    → f ≢ astray
    → Keeps (Allotted size) (alloc_at pa size perm f k)
unfolding alloc_at set_bmap
alloc_at-Allotted pa size perm full k z h fits = tt
alloc_at-Allotted pa size perm astray k z h fits = absurd (fits refl)
alloc_at-Allotted pa size perm (at i) k z h fits =
    let k1 : Kmmap = record k { kmmap_bmap = mark_run (size / page_size) i k.kmmap_bmap } in
    let inside : i + size / page_size ≤ kmmap_count = h.inside in
    Keeps-and_then (λ _ k'. HasBmap k1.kmmap_bmap k') (Allotted size)
      (on_kernel (kmap (i * 2 ^ 12 + kmmap_begin_va) pa size perm) k1) _
      (on_kernel-HasBmap _ k1 (kmap-IsSafe (i * 2 ^ 12 + kmmap_begin_va) pa size perm k1.kernel))
      (λ _ k' e. (omega arith, omega arith))

kmmap_alloc-Allotted :
    (pa size perm : ℕ) (k : Kmmap)
    → scan kmmap_count 0 (size / page_size) k.kmmap_bmap ≢ astray
    → Keeps (Allotted size) (kmmap_alloc pa size perm k)
unfolding kmmap_alloc
kmmap_alloc-Allotted pa size perm k fits = elim (Bool-cases (size % page_size == 0)) [
  | inl t ↦ rw t (
      alloc_at-Allotted pa size perm _ k (ground arith)
        (scan-IsAnswer (size / page_size) k.kmmap_bmap) fits)
  | inr t ↦ rw t tt
]

lift_kmmap-Keeps :
    (size : ℕ) (r : Run Kmmap (Option ℕ)) (d : Devices)
    → Keeps (Allotted size) r
    → IsMapped d
    → Keeps (λ o d'. IsMapped d' × Allotted size o d'.kmmap) (lift_kmmap r d)
unfolding lift_kmmap
lift_kmmap-Keeps size (done o k) d h m = (m, h)
lift_kmmap-Keeps size stopped d h m = tt
lift_kmmap-Keeps size wild d h m = h

map_range-IsMapped :
    (i pa len size : ℕ) (o : Option ℕ) (d : Devices)
    → len ≤ size
    → pa + len < 2 ^ 64
    → Allotted size o d.kmmap
    → IsMapped d
    → Keeps (λ _ d'. IsMapped d') (map_range i pa len o d)
unfolding map_range
map_range-IsMapped i pa len size none d le wrap a m = tt
map_range-IsMapped i pa len size (some va) d le wrap (lo, hi) m =
    push_range-All i (record { pa = pa; len = len; mapped_va = va }) d.array
      (lo, omega (arith, hi, le), wrap) m

range_at-IsMapped :
    (i pa len : ℕ) (p : Option ℕ) (d : Devices)
    → p ≢ none
    → pa + len < 2 ^ 64
    → len + 4095 < 2 ^ 64
    → scan kmmap_count 0 (round_page len / page_size) d.kmmap.kmmap_bmap ≢ astray
    → IsMapped d
    → Keeps (λ _ d'. IsMapped d') (range_at i pa len p d)
unfolding range_at
range_at-IsMapped i pa len none d some_p wrap small fits m = absurd (some_p refl)
range_at-IsMapped i pa len (some p) d some_p wrap small fits m =
    let size = round_page len in
    Keeps-and_then (λ o d'. IsMapped d' × Allotted size o d'.kmmap) (λ _ d'. IsMapped d')
      (lift_kmmap (kmmap_alloc pa size 0x27 d.kmmap) d) _
      (lift_kmmap-Keeps size _ d (kmmap_alloc-Allotted pa size 0x27 d.kmmap fits) m)
      (λ o d' h.
        map_range-IsMapped i pa len size o d' (unfold round_page in omega arith) wrap h.1 h.0)

-- A range of addresses that do not wrap, registered where the heap has room for its header and the
-- search for its mapping does not run off the array: there is no undefined behaviour, and every range of the registry
-- lies in the window of `kmmap_alloc` if that was so before, unless the kernel panics.
pub add_mmio_range-IsMapped :
    (i pa len : ℕ) (d : Devices)
    → (kmalloc range_size d.heap).0 ≢ none
    → pa + len < 2 ^ 64
    → len + 4095 < 2 ^ 64
    → scan kmmap_count 0 (round_page len / page_size) d.kmmap.kmmap_bmap ≢ astray
    → IsMapped d
    → Keeps (λ _ d'. IsMapped d') (add_mmio_range i pa len d)
unfolding add_mmio_range set_heap
add_mmio_range-IsMapped i pa len d room wrap small fits m =
    range_at-IsMapped i pa len (kmalloc range_size d.heap).0 _ room wrap small fits m
