-- ===== src/Kern/Pmap/Mem.antt =====
-- Physical pages: the free list, the counts and the memory itself (kern/pmap.c, include/pmap.h).
-- A `struct Page *` is its index in `pages`. A `Pte *` is a frame and an index into it, since every
-- table is reached through the linear mapping of physical memory. `page_free_list` is the list of
-- the page indices in its order.
use mos_riscv.Prelude.{
  ℕ, ◌+◌, ◌-◌, ◌%◌, ◌^◌, Option, none, some, List, [], ◌∷◌, ◌==◌, ltb, if◌then◌else◌, update,
}
use mos_riscv.Prelude.Run.{Cmd, done, panic}
use mos_riscv.Kern.Mmu.{page2ppn}

-- The TLB instructions, which the machine carries out: a log of them, newest first.
pub data Flush : Type 0 where
  flush_page : ℕ → ℕ → Flush
  flush_asid : ℕ → Flush
  flush_all : Flush

pub record Mem : Type 0 where
  -- `page_free_list`
  pub free : List ℕ
  -- `pages[i].pp_ref`, a `u_short`
  pub ref : ℕ → ℕ
  -- the 64-bit words of each frame
  pub word : ℕ → ℕ → ℕ
  pub flushed : List Flush

-- A `Pte *`.
pub record Entry : Type 0 where
  pub frame : ℕ
  pub index : ℕ

abbrev pub entry : ℕ → ℕ → Entry
entry f i = record { frame = f; index = i }

-- `*pte` and `*pte = v`
unfoldable pub load : Mem → Entry → ℕ
load m e = m.word e.frame e.index

unfoldable pub store : Entry → ℕ → Mem → Mem
store e v m = record m { word = update m.word e.frame (update (m.word e.frame) e.index v) }

unfoldable pub tlb_log : Flush → Mem → Mem
tlb_log f m = record m { flushed = f ∷ m.flushed }

-- `pp->pp_ref++`
unfoldable pub incref : ℕ → Mem → Mem
incref i m = record m { ref = update m.ref i ((m.ref i + 1) % 2 ^ 16) }

-- `none` is `-E_NO_MEM`; the page comes back filled with zeros, its count left alone.
unfoldable pub page_alloc : Cmd Mem (Option ℕ)
page_alloc m = elim m.free [
  | [] ↦ done none m
  | i ∷ rest ↦ done (some i) (record m { free = rest; word = update m.word (page2ppn i) (λ _. 0) })
]

unfoldable pub page_free : ℕ → Cmd Mem (Unit {0})
page_free i m = if m.ref i == 0 then done tt (record m { free = i ∷ m.free }) else panic m

unfoldable pub page_decref : ℕ → Cmd Mem (Unit {0})
unfolding page_free
page_decref i m =
    if ltb 0 (m.ref i)
    then (let m' : Mem = record m { ref = update m.ref i (m.ref i - 1) } in
        if m.ref i - 1 == 0 then page_free i m' else done tt m')
    else panic m
