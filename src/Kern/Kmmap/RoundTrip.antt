-- ===== src/Kern/Kmmap/RoundTrip.antt =====
-- What `kmmap_free` does to the array after `kmmap_alloc`.
use mathlib.Core.Path.{subst}
use mos_riscv.Prelude.{
  true, false, ℕ, zero, suc, ◌+◌, ◌-◌, ◌*◌, ◌/◌, ◌%◌, ◌^◌, ◌≤◌, ◌<◌, ◌≡◌, ◌≢◌, refl, ◌||◌, ◌∙◌, ap,
  Option, none, some, ◌==◌, ltb, leb, if◌then◌else◌, update, Bool-cases, inl, inr, arith,
}
use mos_riscv.Prelude.Run.{
  Run, Cmd, done, stopped, wild, Keeps, KeepsUnless, KeepsUnless-and_then, KeepsUnless-weaken,
  KeepsUnless-Keeps, IsSafe,
}
use mos_riscv.Kern.Mmu.{page_size}
use mos_riscv.Kern.Env.State.{Kernel}
use mos_riscv.Kern.Env.Maps.{kmap, kunmap}
use mos_riscv.Kern.Env.Safe.{kmap-IsSafe, kunmap-IsSafe}
use mos_riscv.Kern.Kmmap.Defs.{
  Kmmap, on_kernel, kmmap_begin_va, kmmap_end_va, kmmap_count, Search, at, full, astray, scan,
  mark_run, set_bmap, alloc_at, kmmap_alloc, vpn_offset, clear, free_at, kmmap_free,
}
use mos_riscv.Kern.Kmmap.FirstFit.{IsBlocked, IsFirstFit, IsAnswer, scan-IsAnswer}

mark_run_lem :
    (n i : ℕ) (b : ℕ → ℕ) (j : ℕ)
    → mark_run n i b j ≡ (if leb i j then if ltb j (i + n) then i + n - j else b j else b j)
unfolding mark_run
mark_run_lem zero i b j = ground arith
mark_run_lem (suc n) i b j = ground (arith, mark_run_lem n (i + 1) (update b i (suc n)) j)

-- The array is left as it is.
abbrev pub HasBmap : (ℕ → ℕ) → Kmmap → Type 0
HasBmap b s = s.kmmap_bmap ≡ b

on_run :
    (r : Run Kernel (Unit {0})) (s : Kmmap)
    → IsSafe r
    → KeepsUnless
        (r ≡ stopped)
        (λ _ s'. HasBmap s.kmmap_bmap s')
        (elim r as (λ _. Run Kmmap (Unit {0})) [
          | done a k ↦ done a (record s { kernel = k })
          | stopped ↦ stopped
          | wild ↦ wild
        ])
on_run (done a k) s h = refl
on_run stopped s h = refl
on_run wild s h = h

on_kernel-KeepsUnless :
    (c : Cmd Kernel (Unit {0})) (s : Kmmap)
    → IsSafe (c s.kernel)
    → KeepsUnless (c s.kernel ≡ stopped) (λ _ s'. HasBmap s.kmmap_bmap s') (on_kernel c s)
unfolding on_kernel
on_kernel-KeepsUnless c s h = on_run (c s.kernel) s h

pub on_kernel-HasBmap :
    (c : Cmd Kernel (Unit {0})) (s : Kmmap)
    → IsSafe (c s.kernel)
    → Keeps (λ _ s'. HasBmap s.kmmap_bmap s') (on_kernel c s)
on_kernel-HasBmap c s h =
    KeepsUnless-Keeps (c s.kernel ≡ stopped) (λ _ s'. HasBmap s.kmmap_bmap s') (on_kernel c s)
      (on_kernel-KeepsUnless c s h)

-- The address of page `i`, and its number.
page_address : ℕ → ℕ
page_address i = i * 2 ^ 12 + kmmap_begin_va

page_address-number :
    (i : ℕ)
    → i < kmmap_count
    → (vpn_offset (page_address i) ≡ i)
      × (page_address i % page_size ≡ 0)
      × (kmmap_begin_va ≤ page_address i)
      × (page_address i < kmmap_end_va)
unfolding page_address
page_address-number i lt = (omega arith, omega arith, omega arith, omega arith)

-- The array is `b`, point by point.
abbrev pub IsBack : (ℕ → ℕ) → Kmmap → Type 0
IsBack b s = (j : ℕ) → s.kmmap_bmap j ≡ b j

module _ (b : ℕ → ℕ) (i n : ℕ) (fit : IsFirstFit n b i) where
  -- The first page of the run holds its length.
  mark_run-count : mark_run n i b i ≡ n
  mark_run-count = let z : b i ≡ 0 = fit.free_start in ground (arith, mark_run_lem n i b i)

  clear-mark_run : (j : ℕ) → clear i n (mark_run n i b) j ≡ b j
  unfolding clear
  clear-mark_run j = elim (Bool-cases (leb i j)) [
    | inl le ↦ elim (Bool-cases (ltb j (i + n))) [
      | inl lt ↦
          let z : b j ≡ 0 = fit.all_free j (ground arith) (ground arith) in rw (le, lt, z) refl
      | inr ge ↦ rw (le, ge) (rw (mark_run_lem n i b j, le, ge) refl)
    ]
    | inr lt ↦ rw lt (rw (mark_run_lem n i b j, lt) refl)
  ]

  free_at-IsBack :
      (s : Kmmap)
      → s.kmmap_bmap ≡ mark_run n i b
      → vpn_offset (page_address i) ≡ i
      → KeepsUnless
          (kunmap (page_address i) (n * page_size) s.kernel ≡ stopped)
          (λ _ s2. IsBack b s2)
          (free_at (page_address i) n s)
  unfolding free_at set_bmap
  free_at-IsBack s e num =
      let X = kunmap (page_address i) (n * page_size) s.kernel ≡ stopped in
      elim (Bool-cases (n == 0)) [
        | inl z ↦ rw z (λ j. ap (λ (f : ℕ → ℕ). f j) e ∙ ground (arith, mark_run_lem n i b j))
        | inr nz ↦ rw nz (
            KeepsUnless-and_then X (λ _ s'. HasBmap s.kmmap_bmap s') (λ _ s2. IsBack b s2)
              (on_kernel (kunmap (page_address i) (n * page_size)) s) _
              (on_kernel-KeepsUnless _ s (kunmap-IsSafe (page_address i) (n * page_size) s.kernel))
              (λ _ s' h j.
                ap (λ (v : ℕ). clear v n s'.kmmap_bmap j) num
                ∙ ap (λ (f : ℕ → ℕ). clear i n f j) (h ∙ e)
                ∙ clear-mark_run j))
      ]

  free-IsBack :
      (s : Kmmap)
      → s.kmmap_bmap ≡ mark_run n i b
      → KeepsUnless
          (kunmap (page_address i) (n * page_size) s.kernel ≡ stopped)
          (λ _ s2. IsBack b s2)
          (kmmap_free (page_address i) s)
  unfolding kmmap_free
  free-IsBack s e =
      let num = page_address-number i fit.start in
      let count : s.kmmap_bmap (vpn_offset (page_address i)) ≡ n =
        ap (λ (f : ℕ → ℕ). f (vpn_offset (page_address i))) e
        ∙ ap (mark_run n i b) num.0
        ∙ mark_run-count in
      let inside : (ltb (page_address i) kmmap_begin_va || leb kmmap_end_va (page_address i))
          ≡ false =
        (let low = num.2 in let high = num.3 in ground arith) in
      let aligned : (page_address i % page_size == 0) ≡ true = (let z = num.1 in ground arith) in
      rw (inside, aligned, count) (free_at-IsBack s e num.0)

-- NULL means that no run of free pages is long enough. Any other address is that of the first run of free pages, and
-- is given back: the array is as it was before, at every index, unless the tables panic when `size` bytes are unmapped
-- at that address.
abbrev pub Restores : ℕ → (ℕ → ℕ) → Option ℕ → Kmmap → Type 0
Restores size b none s = IsBack b s × ((j : ℕ) → j < kmmap_count → IsBlocked (size / page_size) b j)
Restores size b (some va) s =
    (i : ℕ) × IsFirstFit (size / page_size) b i
    × (va ≡ i * 2 ^ 12 + kmmap_begin_va)
    × KeepsUnless (kunmap va size s.kernel ≡ stopped) (λ _ s2. IsBack b s2) (kmmap_free va s)

-- The tables panic when `size` bytes are mapped at the first free run of that many pages.
abbrev pub MapPanics : ℕ → ℕ → ℕ → Kmmap → Type 0
MapPanics pa size perm s =
    (i : ℕ) × IsFirstFit (size / page_size) s.kmmap_bmap i
    × (kmap (i * 2 ^ 12 + kmmap_begin_va) pa size perm s.kernel ≡ stopped)

alloc_at-Restores :
    (pa size perm : ℕ) (f : Search) (s : Kmmap)
    → size % page_size ≡ 0
    → IsAnswer (size / page_size) s.kmmap_bmap f
    → f ≢ astray
    → KeepsUnless
        (MapPanics pa size perm s)
        (Restores size s.kmmap_bmap)
        (alloc_at pa size perm f s)
unfolding alloc_at set_bmap
alloc_at-Restores pa size perm full s z h fits = (λ j. refl, h)
alloc_at-Restores pa size perm astray s z h fits = absurd (fits refl)
alloc_at-Restores pa size perm (at i) s z h fits =
    let n = size / page_size in
    let va = i * 2 ^ 12 + kmmap_begin_va in
    let whole : n * page_size ≡ size = omega arith in
    let s1 : Kmmap = record s { kmmap_bmap = mark_run n i s.kmmap_bmap } in
    KeepsUnless-and_then (MapPanics pa size perm s) (λ _ s'. HasBmap s1.kmmap_bmap s')
      (Restores size s.kmmap_bmap) (on_kernel (kmap va pa size perm) s1) _
      (KeepsUnless-weaken (kmap va pa size perm s1.kernel ≡ stopped) (MapPanics pa size perm s)
        (λ _ s'. HasBmap s1.kmmap_bmap s') (λ _ s'. HasBmap s1.kmmap_bmap s')
        (on_kernel (kmap va pa size perm) s1)
        (on_kernel-KeepsUnless _ s1 (kmap-IsSafe va pa size perm s1.kernel)) (λ e. (i, h, e))
        (λ _ s' e. e))
      (λ _ s' e. (
        i,
        h,
        refl,
        subst
            (λ (x : ℕ).
              KeepsUnless (kunmap va x s'.kernel ≡ stopped) (λ _ s2. IsBack s.kmmap_bmap s2)
                (kmmap_free va s'))
            whole (unfold page_address in free-IsBack s.kmmap_bmap i n h s' e),
      ))

-- For a size of whole pages, where the search does not run off the array: `kmmap_alloc` comes back with
-- the address of the first run of free pages, unless the tables panic when the pages are mapped there, and a
-- `kmmap_free` of it comes back, unless the tables panic when those pages are unmapped, and leaves the array as it was at every index; if it returns NULL, it has changed nothing
-- in the array and no run of free pages is long enough.
pub kmmap_free-kmmap_alloc :
    (pa size perm : ℕ) (s : Kmmap)
    → size % page_size ≡ 0
    → scan kmmap_count 0 (size / page_size) s.kmmap_bmap ≢ astray
    → KeepsUnless
        (MapPanics pa size perm s)
        (Restores size s.kmmap_bmap)
        (kmmap_alloc pa size perm s)
unfolding kmmap_alloc
kmmap_free-kmmap_alloc pa size perm s z fits =
    let whole : (size % page_size == 0) ≡ true = ground arith in
    rw whole
      (alloc_at-Restores pa size perm _ s z (scan-IsAnswer (size / page_size) s.kmmap_bmap) fits)
