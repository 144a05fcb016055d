-- ===== src/Kern/Env/Release.antt =====
-- The end of an environment: `env_free` of kern/env.c.
use mos_riscv.Prelude.{ℕ, zero, suc, ◌+◌, ◌*◌, ◌^◌, not, some, none, ◌∷◌, if◌then◌else◌, bit_or}
use mos_riscv.Prelude.Run.{Cmd, done, pure, panic, ◌>>◌, modify}
use mos_riscv.Kern.Mmu.{p1x, utop, pte_ppn, is_valid, is_non_leaf, ppn2page}
use mos_riscv.Kern.Pmap.Mem.{Mem, entry, load, store, page_decref, tlb_log, flush_asid}
use mos_riscv.Kern.Pmap.Map.{page_remove}
use mos_riscv.Kern.Env.State.{env_free as free_status, Kernel, on_mem, set_env, sched_remove}
use mos_riscv.Kern.Env.Asid

-- `page_decref(pa2page(pa))` of the page at frame `n`
unfoldable pub drop_frame : ℕ → Cmd Mem (Unit {0})
drop_frame n = elim (ppn2page n) [ none ↦ panic | some i ↦ page_decref i ]

-- One round of the innermost loop: a valid entry is unmapped.
unfoldable pub free_mapped : ℕ → ℕ → ℕ → ℕ → ℕ → Cmd Mem (Unit {0})
free_mapped pgdir asid p3 base p3no m =
    if is_valid (load m (entry p3 p3no))
    then page_remove pgdir asid (bit_or base (p3no * 2 ^ 12)) m
    else done tt m

-- The loops of `env_free`, each with the rounds that are left.
unfoldable pub free_third : ℕ → ℕ → ℕ → ℕ → ℕ → ℕ → Cmd Mem (Unit {0})
free_third zero pgdir asid p3 base p3no = pure tt
free_third (suc left) pgdir asid p3 base p3no = do
  free_mapped pgdir asid p3 base p3no
  free_third left pgdir asid p3 base (p3no + 1)

-- One round of the middle loop; `base` is `p1no << P1SHIFT`.
unfoldable pub free_table : ℕ → ℕ → ℕ → ℕ → ℕ → Cmd Mem (Unit {0})
free_table pgdir asid p2 base p2no m =
    let e2 = load m (entry p2 p2no) in
    if not (is_valid e2)
    then done tt m
    else if not (is_non_leaf e2)
    then panic m
    else (do
      free_third 512 pgdir asid (pte_ppn e2) (bit_or base (p2no * 2 ^ 21)) 0
      modify (store (entry p2 p2no) 0)
      drop_frame (pte_ppn e2))
        m

unfoldable pub free_second : ℕ → ℕ → ℕ → ℕ → ℕ → ℕ → Cmd Mem (Unit {0})
free_second zero pgdir asid p2 base p2no = pure tt
free_second (suc left) pgdir asid p2 base p2no = do
  free_table pgdir asid p2 base p2no
  free_second left pgdir asid p2 base (p2no + 1)

-- One round of the outermost loop.
unfoldable pub free_directory : ℕ → ℕ → ℕ → Cmd Mem (Unit {0})
free_directory pgdir asid p1no m =
    let e1 = load m (entry pgdir p1no) in
    if not (is_valid e1)
    then done tt m
    else if not (is_non_leaf e1)
    then panic m
    else (do
      free_second 512 pgdir asid (pte_ppn e1) (p1no * 2 ^ 30) 0
      modify (store (entry pgdir p1no) 0)
      drop_frame (pte_ppn e1))
        m

unfoldable pub free_first : ℕ → ℕ → ℕ → ℕ → Cmd Mem (Unit {0})
free_first zero pgdir asid p1no = pure tt
free_first (suc left) pgdir asid p1no = do
  free_directory pgdir asid p1no
  free_first left pgdir asid (p1no + 1)

-- What follows the loops over the tables, but for `TAILQ_REMOVE`.
unfoldable pub retire : ℕ → Kernel → Kernel
retire e k = record (set_env e (record (k.envs e) { env_status = free_status }) k) {
  mem = tlb_log (flush_asid (k.envs e).env_asid) k.mem;
  asid_bitmap = Asid.asid_free (k.envs e).env_asid k.asid_bitmap;
  env_free_list = e ∷ k.env_free_list;
}

unfoldable pub env_free : ℕ → Cmd Kernel (Unit {0})
env_free e k =
    let pgdir = (k.envs e).env_pgdir in
    let asid = (k.envs e).env_asid in
    (do
      on_mem (free_first (p1x utop) pgdir asid 0)
      on_mem (drop_frame pgdir)
      modify (retire e)
      sched_remove e)
      k
