-- ===== src/Kern/Pmap/Cells.antt =====
-- Reads after writes in the memory of the tables.
use mos_riscv.Prelude.{ℕ, ◌≡◌, ◌≢◌, refl, List, arith}
use mos_riscv.Kern.Pmap.Mem.{Mem, Entry, entry, load, store, incref}
use mos_riscv.Kern.Mmu.{page2ppn}
use mos_riscv.Kern.Pmap.Supply.{taken}

pub load-store_self : (m : Mem) (e : Entry) (v : ℕ) → load (store e v m) e ≡ v
unfolding load store
load-store_self m e v = ground arith

pub load-store_frame :
    (m : Mem) (e : Entry) (v f i : ℕ)
    → e.frame ≢ f
    → load (store e v m) (entry f i) ≡ load m (entry f i)
unfolding load store
load-store_frame m e v f i ne = ground arith

load-store_index :
    (m : Mem) (e : Entry) (v f i : ℕ)
    → e.index ≢ i
    → load (store e v m) (entry f i) ≡ load m (entry f i)
unfolding load store
load-store_index m e v f i ne = ground arith

pub load-taken_frame :
    (m : Mem) (n : ℕ) (rest : List ℕ) (f i : ℕ)
    → page2ppn n ≢ f
    → load (taken n rest m) (entry f i) ≡ load m (entry f i)
unfolding load taken
load-taken_frame m n rest f i ne = ground arith

pub load-taken_zero :
    (m : Mem) (n : ℕ) (rest : List ℕ) (i : ℕ) → load (taken n rest m) (entry (page2ppn n) i) ≡ 0
unfolding load taken
load-taken_zero m n rest i = ground arith

pub load-incref : (m : Mem) (n : ℕ) (e : Entry) → load (incref n m) e ≡ load m e
unfolding load incref
load-incref m n e = refl
