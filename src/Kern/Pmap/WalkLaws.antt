-- ===== src/Kern/Pmap/WalkLaws.antt =====
-- What `pgdir_walk` does on every branch, from a path without huge pages.
use mos_riscv.Prelude.{
  ℕ, ◌≡◌, ◌<◌, refl, true, false, Option, none, some, [], ◌∷◌, List, length, Bool-cases, inl, inr,
  arith, ap, has,
}
use mathlib.Core.Path.{subst}
use mos_riscv.Prelude.Run.{Returns, Returns-weaken}
use mos_riscv.Kern.Error.{Ret, success, e_no_mem}
use mos_riscv.Kern.Mmu.{p2x, p3x, pte_ppn, is_valid}
use mos_riscv.Kern.Pmap.Mem.{Mem, Entry, entry}
use mos_riscv.Kern.Pmap.Walk.{make_third, walk_second, walk_create, pgdir_walk}
use mos_riscv.Kern.Pmap.Supply.{
  Supply, IsSupply, NoMore, page_alloc-cons, page_alloc-nil, taken, taken-gone,
}
use mos_riscv.Kern.Pmap.Path.{IsPath, Walked, Mapped, first, second}
use mos_riscv.Kern.Pmap.Made

-- The outcome of a walk with `create`: an entry at the end of a complete path, or out of memory.
abbrev pub Created : ℕ → ℕ → Mem → Ret × Option Entry → Mem → Type 0
Created pgdir va m (ret, some e) m' = (ret ≡ success) × Walked pgdir va m e m'
Created pgdir va m (ret, none) m' =
    (ret ≡ some e_no_mem) × (length m.free < 2) × IsSupply m' × NoMore m m'

-- The outcome of a walk without: an entry, or nothing done.
abbrev pub Searched : ℕ → ℕ → Mem → Ret × Option Entry → Mem → Type 0
Searched pgdir va m (ret, some e) m' = (ret ≡ success) × Walked pgdir va m e m'
Searched pgdir va m (ret, none) m' = m' ≡ m

module _ (pgdir va : ℕ) (m : Mem) (s : IsSupply m) (p : IsPath pgdir va m) where
  create_by_list :
      (l : List ℕ)
      → m.free ≡ l
      → is_valid (first pgdir va m) ≡ false
      → Returns (Created pgdir va m) (walk_create pgdir va m)
  unfolding walk_create taken
  create_by_list [] e v =
      rw (page_alloc-nil m e) (refl, omega (arith, ap (λ l. length l) e), s, λ j h. h)
  create_by_list (n ∷ []) e v =
      let z = (taken-gone m n [] e s).3 in
      rw (page_alloc-cons m n [] e) (
        rw z (
          refl,
          omega (arith, ap (λ l. length l) e),
          subst (λ l. Supply l m.ref) e s,
          λ j h. subst (λ l. has j l ≡ false) e h,
        ))
  create_by_list (n ∷ k ∷ rest) e v =
      rw (Made.walk_create-made pgdir va m n k rest e s)
        (refl, Made.both_made-Walked pgdir va m n k rest e s p v)

  -- Both outcomes at once, for the branches that do not look at `create`.
  abbrev Either : Ret × Option Entry → Mem → Type 0
  Either w m' = Created pgdir va m w m' × Searched pgdir va m w m'

  unchanged : (e : Entry) → Mapped pgdir va e m → Walked pgdir va m e m
  unchanged e q = record {
    mapped = q;
    supply = s;
    no_more = λ j h. h;
    counts = λ i h. refl;
    fresh = inl refl;
  }

  third_by_list :
      (l : List ℕ)
      → m.free ≡ l
      → is_valid (first pgdir va m) ≡ true
      → is_valid (second pgdir va m) ≡ false
      → Returns Either (make_third (entry (pte_ppn (first pgdir va m)) (p2x va)) va m)
  unfolding make_third
  third_by_list [] e v w =
      rw (page_alloc-nil m e) ((refl, omega (arith, ap (λ l. length l) e), s, λ j h. h), refl)
  third_by_list (n ∷ rest) e v w =
      let q = Made.third_made-Walked pgdir va m n rest e s p v w in
      rw (Made.make_third-made pgdir va m n rest e s) ((refl, q), (refl, q))

  second-Either :
      is_valid (first pgdir va m) ≡ true
      → Returns Either (walk_second (pte_ppn (first pgdir va m)) va m)
  unfolding walk_second
  second-Either v = elim (Bool-cases (is_valid (second pgdir va m))) [
    | inr w ↦ rw w (third_by_list m.free refl v w)
    | inl w ↦
        let q = unchanged (entry (pte_ppn (second pgdir va m)) (p3x va)) (record {
          first_valid = v;
          first_table = p.first_table v;
          second_valid = w;
          second_table = p.second_table v w;
          third = refl;
          apart_root = p.third_apart_root v w;
          apart_second = p.third_apart_second v w;
        }) in
        rw (w, p.second_table v w) ((refl, q), (refl, q))
  ]

  -- On a path of sound tables with an intact free list, `pgdir_walk` with `create` does not panic: it
  -- ends at the entry of a complete path, with the free list intact and the counts of the pages in
  -- use as before, or it returns -E_NO_MEM because fewer than two pages were free.
  pub pgdir_walk-Created : Returns (Created pgdir va m) (pgdir_walk pgdir va true m)
  unfolding pgdir_walk
  pgdir_walk-Created = elim (Bool-cases (is_valid (first pgdir va m))) [
    | inr v ↦ rw v (create_by_list m.free refl v)
    | inl v ↦
        rw (v, p.first_table v)
          (Returns-weaken Either (Created pgdir va m)
            (walk_second (pte_ppn (first pgdir va m)) va m) (second-Either v) (λ w m' h. h.0))
  ]

  -- On a path of sound tables with an intact free list, `pgdir_walk` without `create` does not panic:
  -- it ends at the entry of a complete path, as with `create`, or finds none and changes nothing.
  pub pgdir_walk-Searched : Returns (Searched pgdir va m) (pgdir_walk pgdir va false m)
  unfolding pgdir_walk
  pgdir_walk-Searched = elim (Bool-cases (is_valid (first pgdir va m))) [
    | inr v ↦ rw v refl
    | inl v ↦
        rw (v, p.first_table v)
          (Returns-weaken Either (Searched pgdir va m)
            (walk_second (pte_ppn (first pgdir va m)) va m) (second-Either v) (λ w m' h. h.1))
  ]
