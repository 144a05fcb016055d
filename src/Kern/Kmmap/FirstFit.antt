-- ===== src/Kern/Kmmap/FirstFit.antt =====
-- The search of `kmmap_alloc` takes the first run of free pages.
use mos_riscv.Prelude.{
  ℕ, zero, suc, ◌+◌, ◌≤◌, ◌<◌, ◌≡◌, ◌≢◌, refl, ◌==◌, leb, Bool-cases, inl, inr, max, arith,
}
use mos_riscv.Kern.Kmmap.Defs.{
  kmmap_count, Probe, available, busy, outside, probe, Search, at, full, astray, after_probe, scan,
}

-- Page `m` is taken, so that no run of `n` pages starts at `i`.
abbrev pub IsBlocked : ℕ → (ℕ → ℕ) → ℕ → Type 0
IsBlocked n b i = (m : ℕ) × (i ≤ m) × (m < i + max n 1) × (m < kmmap_count) × (b m ≢ 0)

-- The run of `n` pages at `i` is free, and it is the first one.
pub record IsFirstFit (n : ℕ) (b : ℕ → ℕ) (i : ℕ) : Type 0 where
  pub start : i < kmmap_count
  pub inside : i + n ≤ kmmap_count
  pub free_start : b i ≡ 0
  pub all_free : (j : ℕ) → i ≤ j → j < i + n → b j ≡ 0
  pub first : (j : ℕ) → j < i → IsBlocked n b j

-- The free pages at the end of the array are fewer than `n`, and no run starts before them.
pub record IsAtEnd (n : ℕ) (b : ℕ → ℕ) (i : ℕ) : Type 0 where
  pub start : i < kmmap_count
  pub too_few : kmmap_count < i + n
  pub all_free : (j : ℕ) → i ≤ j → j < kmmap_count → b j ≡ 0
  pub first : (j : ℕ) → j < i → IsBlocked n b j

-- What the answer of the search says.
abbrev pub IsAnswer : ℕ → (ℕ → ℕ) → Search → Type 0
IsAnswer n b (at i) = IsFirstFit n b i
IsAnswer n b full = (j : ℕ) → j < kmmap_count → IsBlocked n b j
IsAnswer n b astray = (i : ℕ) × IsAtEnd n b i

-- What the inner loop says of the pages from `j` on.
abbrev Probed : ℕ → ℕ → (ℕ → ℕ) → Probe → Type 0
Probed n j b available = (j + n ≤ max j kmmap_count) × ((l : ℕ) → j ≤ l → l < j + n → b l ≡ 0)
Probed n j b busy = (m : ℕ) × (j ≤ m) × (m < j + n) × (m < kmmap_count) × (b m ≢ 0)
Probed n j b outside = (kmmap_count < j + n) × ((l : ℕ) → j ≤ l → l < kmmap_count → b l ≡ 0)

Probed-suc :
    (n j : ℕ) (b : ℕ → ℕ) (p : Probe)
    → j < kmmap_count
    → b j ≡ 0
    → Probed n (j + 1) b p
    → Probed (suc n) j b p
Probed-suc n j b available lt z (in_range, free) = (
  omega arith,
  λ l le less. elim (Bool-cases (l == j)) [
    | inl t ↦ let e : l ≡ j = ground arith in rw e z
    | inr t ↦ free l (ground arith) (omega arith)
  ],
)
Probed-suc n j b busy lt z (m, le, less, inside, taken) =
    (m, omega arith, omega arith, inside, taken)
Probed-suc n j b outside lt z (over, free) = (
  omega arith,
  λ l le less. elim (Bool-cases (l == j)) [
    | inl t ↦ let e : l ≡ j = ground arith in rw e z
    | inr t ↦ free l (ground arith) less
  ],
)

probe-Probed : (n j : ℕ) (b : ℕ → ℕ) → Probed n j b (probe n j b)
unfolding probe
probe-Probed zero j b = (omega arith, λ l le less. absurd (omega arith))
probe-Probed (suc n) j b = elim (Bool-cases (leb kmmap_count j)) [
  | inl t ↦ rw t (ground arith, λ l le less. absurd (ground arith))
  | inr t ↦ rw t (elim (Bool-cases (b j == 0)) [
    | inl z ↦ rw z (
        Probed-suc n j b (probe n (j + 1) b) (ground arith) (ground arith)
          (probe-Probed n (j + 1) b))
    | inr nz ↦ rw nz (j, omega arith, omega arith, ground arith, λ e. absurd (ground arith))
  ])
]

-- No run starts before `i`.
abbrev Blocked-below : ℕ → (ℕ → ℕ) → ℕ → Type 0
Blocked-below n b i = (j : ℕ) → j < i → IsBlocked n b j

extend :
    (n : ℕ) (b : ℕ → ℕ) (i : ℕ) → Blocked-below n b i → IsBlocked n b i → Blocked-below n b (i + 1)
extend n b i below here j lt = elim (Bool-cases (j == i)) [
  | inl t ↦ let e : j ≡ i = ground arith in rw e here
  | inr t ↦ below j (ground arith)
]

after_probe-IsAnswer :
    (n : ℕ) (b : ℕ → ℕ) (i : ℕ) (rest : Search) (p : Probe)
    → i < kmmap_count
    → b i ≡ 0
    → Blocked-below n b i
    → Probed n i b p
    → (IsBlocked n b i → IsAnswer n b rest)
    → IsAnswer n b (after_probe i rest p)
unfolding after_probe
after_probe-IsAnswer n b i rest available lt z below (in_range, free) next = record {
  start = lt;
  inside = omega arith;
  free_start = z;
  all_free = free;
  first = below;
}
after_probe-IsAnswer n b i rest busy lt z below (m, le, less, inside, taken) next =
    next (m, le, omega arith, inside, taken)
after_probe-IsAnswer n b i rest outside lt z below (over, free) next =
    (i, record { start = lt; too_few = over; all_free = free; first = below })

scan_from-IsAnswer :
    (left i n : ℕ) (b : ℕ → ℕ)
    → i + left ≡ kmmap_count
    → Blocked-below n b i
    → IsAnswer n b (scan left i n b)
unfolding scan
scan_from-IsAnswer zero i n b e below = λ j lt. below j (omega arith)
scan_from-IsAnswer (suc left) i n b e below =
    let next : IsBlocked n b i → IsAnswer n b (scan left (i + 1) n b) =
      λ here. scan_from-IsAnswer left (i + 1) n b (omega arith) (extend n b i below here) in
    elim (Bool-cases (b i == 0)) [
      | inl z ↦ rw z (
          after_probe-IsAnswer n b i (scan left (i + 1) n b) (probe n i b) (omega arith)
            (ground arith) below (probe-Probed n i b) next)
      | inr nz ↦ rw nz (next (i, omega arith, omega arith, omega arith, λ z. absurd (ground arith)))
    ]

-- The search answers with the first free run of that many pages, or that none starts anywhere, or it runs
-- off the array, where the free pages at the end are too few and no run starts before them.
pub scan-IsAnswer : (n : ℕ) (b : ℕ → ℕ) → IsAnswer n b (scan kmmap_count 0 n b)
scan-IsAnswer n b = scan_from-IsAnswer kmmap_count 0 n b refl (λ j lt. absurd (omega arith))
