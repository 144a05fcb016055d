-- ===== src/Kern/Pmap/Safe.antt =====
-- The page tables of kern/pmap.c without undefined behaviour: no NULL entry is written.
use mos_riscv.Prelude.{
  ℕ, zero, suc, ◌+◌, ◌-◌, ◌/◌, ◌%◌, ◌^◌, Bool, true, false, not, ◌||◌, Option, none, some, List, [],
  ◌∷◌, ◌==◌, ltb, if◌then◌else◌, update,
}
use mos_riscv.Prelude.Run.{
  Run, done, stopped, and_then, Keeps, Keeps-and_then, Keeps-if, Keeps-choose, Keeps-option,
  Keeps-option_run, IsSafe,
}
use mos_riscv.Kern.Error.{Ret, Error, success, e_no_mem}
use mos_riscv.Kern.Mmu.{
  page_size, is_valid, is_non_leaf, pte_ppn, ppn2page, p1x, p2x, p3x, page2ppn, make_pte,
}
use mos_riscv.Kern.Pmap.Mem.{
  Mem, Entry, entry, load, store, page_alloc, page_free, page_decref, tlb_log, flush_page,
}
use mos_riscv.Kern.Pmap.Walk.{Walk, walk_create, make_third, walk_second, pgdir_walk}
use mos_riscv.Kern.Pmap.Map.{
  page_lookup, page_remove, insert_at, insert_new, insert_found, page_insert,
}
use mos_riscv.Kern.Pmap.Range.{map_loop, map_mem, unmap_loop, unmap_mem, round_page}

-- A walk that makes entries ends with an entry or with an error.
abbrev pub HasEntry : Bool → Walk → Type 0
HasEntry true (none, none) = ⊥
HasEntry c w = Unit

-- `page_alloc`, by its free list.
alloc_by_list :
    (l : List ℕ) (m : Mem)
    → IsSafe {S = Mem} (elim l as (λ _. Run Mem (Option ℕ)) [
      | [] ↦ done none m
      | i ∷ rest ↦
          done (some i) (record m { free = rest; word = update m.word (page2ppn i) (λ _. 0) })
    ])
alloc_by_list [] m = tt
alloc_by_list (i ∷ rest) m = tt

pub page_alloc-IsSafe : (m : Mem) → IsSafe (page_alloc m)
unfolding page_alloc
page_alloc-IsSafe m = alloc_by_list m.free m

page_free-IsSafe : (i : ℕ) (m : Mem) → IsSafe (page_free i m)
unfolding page_free
page_free-IsSafe i m = Keeps-if (λ _ _. Unit {0}) (m.ref i == 0) _ _ tt tt

page_decref-IsSafe : (i : ℕ) (m : Mem) → IsSafe (page_decref i m)
unfolding page_decref
page_decref-IsSafe i m =
    let m' : Mem = record m { ref = update m.ref i (m.ref i - 1) } in
    Keeps-if (λ _ _. Unit {0}) (ltb 0 (m.ref i)) _ _
      (Keeps-if (λ _ _. Unit {0}) (m.ref i - 1 == 0) _ _ (page_free-IsSafe i m') tt) tt

-- The predicate of the walks, on their results.
abbrev pub Ends : Bool → Walk → Mem → Type 0
Ends c w m = HasEntry c w

no_memory : (c : Bool) (err : Error) (m : Mem) → HasEntry c (some err, none)
no_memory true err m = tt
no_memory false err m = tt

with_entry : (c : Bool) (e : Entry) → HasEntry c (none, some e)
with_entry true e = tt
with_entry false e = tt

make_third-Ends : (c : Bool) (e : Entry) (va : ℕ) (m : Mem) → Keeps (Ends c) (make_third e va m)
unfolding make_third
make_third-Ends c e va m =
    Keeps-and_then (λ _ _. Unit {0}) (Ends c) (page_alloc m) _ (page_alloc-IsSafe m)
      (λ o m' _.
        Keeps-option (Ends c) o _ _ m' (no_memory c e_no_mem m')
          (λ new. with_entry c (entry (page2ppn new) (p3x va))))

walk_create-Ends : (pgdir va : ℕ) (m : Mem) → Keeps (Ends true) (walk_create pgdir va m)
unfolding walk_create
walk_create-Ends pgdir va m =
    Keeps-and_then (λ _ _. Unit {0}) (Ends true) (page_alloc m) _ (page_alloc-IsSafe m)
      (λ o m' _. Keeps-option (Ends true) o _ _ m' tt (λ p2.
        Keeps-and_then (λ _ _. Unit {0}) (Ends true) (page_alloc m') _ (page_alloc-IsSafe m')
          (λ o2 m2 _.
            Keeps-option (Ends true) o2 _ _ m2
              (Keeps-and_then (λ _ _. Unit {0}) (Ends true) (page_free p2 m2) _
                (page_free-IsSafe p2 m2) (λ _ _ _. tt))
              (λ p3. tt))))

walk_second-Ends : (c : Bool) (t2 va : ℕ) (m : Mem) → Keeps (Ends c) (walk_second t2 va m)
unfolding walk_second
walk_second-Ends c t2 va m =
    let e2 = load m (entry t2 (p2x va)) in
    Keeps-if (Ends c) (is_valid e2) _ _
      (Keeps-if (Ends c) (is_non_leaf e2) _ _ (with_entry c _) (with_entry c _))
      (make_third-Ends c (entry t2 (p2x va)) va m)

missing :
    (pgdir va : ℕ) (c : Bool) (m : Mem)
    → Keeps (Ends c) ((if c then walk_create pgdir va m else done (success, none) m))
missing pgdir va true m = walk_create-Ends pgdir va m
missing pgdir va false m = tt

-- `pgdir_walk` has no undefined behaviour, and with `create` it ends with an entry or an error.
pgdir_walk-Ends : (pgdir va : ℕ) (c : Bool) (m : Mem) → Keeps (Ends c) (pgdir_walk pgdir va c m)
unfolding pgdir_walk
pgdir_walk-Ends pgdir va c m =
    let e1 = load m (entry pgdir (p1x va)) in
    Keeps-if (Ends c) (is_valid e1) _ _
      (Keeps-if (Ends c) (is_non_leaf e1) _ _ (walk_second-Ends c (pte_ppn e1) va m)
        (with_entry c _))
      (missing pgdir va c m)

-- An entry that points at a page, if the walk found one.
pub page_lookup-IsSafe : (pgdir va : ℕ) (m : Mem) → IsSafe (page_lookup pgdir va m)
unfolding page_lookup
page_lookup-IsSafe pgdir va m =
    Keeps-and_then (Ends false) (λ _ _. Unit {0}) (pgdir_walk pgdir va false m) _
      (pgdir_walk-Ends pgdir va false m)
      (λ w m' _.
        Keeps-option (λ _ _. Unit {0}) (w.1) _ _ m' tt
          (λ e.
            Keeps-if (λ _ _. Unit {0}) (is_valid (load m' e)) _ _
              (Keeps-option_run (λ _ _. Unit {0}) (ppn2page (pte_ppn (load m' e))) _ _ tt (λ _. tt))
              tt))

page_remove-IsSafe : (pgdir asid va : ℕ) (m : Mem) → IsSafe (page_remove pgdir asid va m)
unfolding page_remove
page_remove-IsSafe pgdir asid va m =
    Keeps-and_then (λ _ _. Unit {0}) (λ _ _. Unit {0}) (page_lookup pgdir va m) _
      (page_lookup-IsSafe pgdir va m)
      (λ o m' _.
        Keeps-option (λ _ _. Unit {0}) o _ _ m' tt
          (λ x.
            Keeps-and_then (λ _ _. Unit {0}) (λ _ _. Unit {0}) (page_decref x.0 m') _
              (page_decref-IsSafe x.0 m') (λ _ _ _. tt)))

insert_at-IsSafe :
    (pp perm : ℕ) (w : Walk) (m : Mem) → HasEntry true w → IsSafe (insert_at pp perm w m)
unfolding insert_at
insert_at-IsSafe pp perm (some err, pte) m h = tt
insert_at-IsSafe pp perm (none, none) m h = absurd h
insert_at-IsSafe pp perm (none, some e) m h = tt

insert_new-IsSafe :
    (pgdir asid pp va perm : ℕ) (m : Mem) → IsSafe (insert_new pgdir asid pp va perm m)
unfolding insert_new
insert_new-IsSafe pgdir asid pp va perm m =
    let m' = tlb_log (flush_page asid va) m in
    Keeps-and_then (Ends true) (λ _ _. Unit {0}) (pgdir_walk pgdir va true m') (insert_at pp perm)
      (pgdir_walk-Ends pgdir va true m') (λ w m2 h. insert_at-IsSafe pp perm w m2 h)

insert_old-IsSafe :
    (pgdir asid pp va perm : ℕ) (e : Entry) (o : Option ℕ) (m : Mem)
    → IsSafe (elim o as (λ _. Run Mem Ret) [
      | none ↦ stopped
      | some old ↦
          if old == pp
          then done success (store e (make_pte pp perm) (tlb_log (flush_page asid va) m))
          else and_then (page_remove pgdir asid va m) (λ _. insert_new pgdir asid pp va perm)
    ])
insert_old-IsSafe pgdir asid pp va perm e none m = tt
insert_old-IsSafe pgdir asid pp va perm e (some old) m =
    Keeps-if (λ _ _. Unit {0}) (old == pp) _ _ tt
      (Keeps-and_then (λ _ _. Unit {0}) (λ _ _. Unit {0}) (page_remove pgdir asid va m) _
        (page_remove-IsSafe pgdir asid va m) (λ _ m' _. insert_new-IsSafe pgdir asid pp va perm m'))

insert_found-IsSafe :
    (pgdir asid pp va perm : ℕ) (w : Walk) (m : Mem)
    → IsSafe (insert_found pgdir asid pp va perm w m)
unfolding insert_found
insert_found-IsSafe pgdir asid pp va perm (r, none) m = insert_new-IsSafe pgdir asid pp va perm m
insert_found-IsSafe pgdir asid pp va perm (r, some e) m =
    Keeps-if (λ _ _. Unit {0}) (is_valid (load m e)) _ _
      (insert_old-IsSafe pgdir asid pp va perm e (ppn2page (pte_ppn (load m e))) m)
      (insert_new-IsSafe pgdir asid pp va perm m)

-- `page_insert` writes no NULL entry, whatever the tables hold.
pub page_insert-IsSafe :
    (pgdir asid pp va perm : ℕ) (m : Mem) → IsSafe (page_insert pgdir asid pp va perm m)
unfolding page_insert
page_insert-IsSafe pgdir asid pp va perm m =
    Keeps-and_then (Ends false) (λ _ _. Unit {0}) (pgdir_walk pgdir va false m)
      (insert_found pgdir asid pp va perm) (pgdir_walk-Ends pgdir va false m)
      (λ w m' _. insert_found-IsSafe pgdir asid pp va perm w m')

map_loop-IsSafe :
    (rounds pgdir va pa perm offset : ℕ) (m : Mem)
    → IsSafe (map_loop rounds pgdir va pa perm offset m)
unfolding map_loop
map_loop-IsSafe zero pgdir va pa perm offset m = tt
map_loop-IsSafe (suc rounds) pgdir va pa perm offset m =
    Keeps-and_then (Ends true) (λ _ _. Unit {0}) (pgdir_walk pgdir ((va + offset) % 2 ^ 64) true m)
      _ (pgdir_walk-Ends pgdir ((va + offset) % 2 ^ 64) true m)
      (λ w m' _.
        Keeps-option (λ _ _. Unit {0}) (w.1) _ _ m' tt
          (λ e. map_loop-IsSafe rounds pgdir va pa perm (offset + page_size) _))

pub map_mem-IsSafe : (pgdir va pa len perm : ℕ) (m : Mem) → IsSafe (map_mem pgdir va pa len perm m)
unfolding map_mem
map_mem-IsSafe pgdir va pa len perm m =
    Keeps-choose (λ _ _. Unit {0}) (not (va % page_size == 0) || not (pa % page_size == 0)) _ _ m tt
      (Keeps-and_then (λ _ _. Unit {0}) (λ _ _. Unit {0})
        (map_loop (round_page len / page_size) pgdir va pa perm 0 m) _
        (map_loop-IsSafe (round_page len / page_size) pgdir va pa perm 0 m) (λ _ _ _. tt))

unmap_loop-IsSafe :
    (rounds pgdir va offset : ℕ) (m : Mem) → IsSafe (unmap_loop rounds pgdir va offset m)
unfolding unmap_loop
unmap_loop-IsSafe zero pgdir va offset m = tt
unmap_loop-IsSafe (suc rounds) pgdir va offset m =
    Keeps-and_then (Ends false) (λ _ _. Unit {0})
      (pgdir_walk pgdir ((va + offset) % 2 ^ 64) false m) _
      (pgdir_walk-Ends pgdir ((va + offset) % 2 ^ 64) false m)
      (λ w m' _.
        Keeps-option (λ _ _. Unit {0}) (w.1) _ _ m'
          (unmap_loop-IsSafe rounds pgdir va (offset + page_size) m')
          (λ e. unmap_loop-IsSafe rounds pgdir va (offset + page_size) _))

pub unmap_mem-IsSafe : (pgdir va len : ℕ) (m : Mem) → IsSafe (unmap_mem pgdir va len m)
unfolding unmap_mem
unmap_mem-IsSafe pgdir va len m =
    Keeps-choose (λ _ _. Unit {0}) (not (va % page_size == 0)) _ _ m tt
      (Keeps-and_then (λ _ _. Unit {0}) (λ _ _. Unit {0})
        (unmap_loop (round_page len / page_size) pgdir va 0 m) _
        (unmap_loop-IsSafe (round_page len / page_size) pgdir va 0 m) (λ _ _ _. tt))
