-- ===== src/Kern/Env/Table.antt =====
-- The table of environments: identifiers, creation and destruction, in kern/env.c.
use mos_riscv.Prelude.{
  ℕ, ◌+◌, ◌-◌, ◌*◌, ◌%◌, ◌^◌, Bool, false, not, ◌&&◌, ◌||◌, Option, none, some, List, [], ◌∷◌, ◌==◌,
  ltb, leb, if◌then◌else◌, update, bit_or,
}
use mos_riscv.Prelude.Run.{Cmd, done, pure, panic, ◌>>=◌, ◌>>◌, modify}
use mos_riscv.Kern.Error.{Ret, success, e_bad_env, e_no_mem, e_no_free_env}
use mos_riscv.Kern.Mmu.{p1x, utop, uvpt, ustacktop, page2ppn}
use mos_riscv.Kern.Pmap.Mem.{Mem, incref, page_alloc}
use mos_riscv.Kern.Env.State.{Env, Kernel, is_free, nenv, on_mem, set_env}
use mos_riscv.Kern.Env.Asid

-- `mkenvid`: the counter goes up by one, and stands above the index.
unfoldable pub mkenvid : ℕ → Kernel → ℕ × Kernel
mkenvid e k =
    let i = (k.next_id + 1) % 2 ^ 32 in (bit_or (i * 2 ^ 11 % 2 ^ 32) e, record k { next_id = i })

-- `ENVX(envid)`
abbrev pub envx : ℕ → ℕ
envx envid = envid % nenv

-- What `envid2env` returns, with the environment it stores (`none` is NULL).
abbrev pub Envid : Type 0
Envid = Ret × Option ℕ

-- A pointer comparison with `curenv`.
abbrev pub is_cur : Option ℕ → ℕ → Bool
is_cur none e = false
is_cur (some c) e = c == e

-- The permission check: the environment itself or its parent may manipulate it.
unfoldable pub check_perm : Option ℕ → ℕ → Cmd Kernel Envid
check_perm none e k = panic k
check_perm (some c) e k =
    if not (c == e) && not ((k.envs e).env_parent_id == (k.envs c).env_id)
    then done (some e_bad_env, none) k
    else done (success, some e) k

unfoldable pub envid2env : ℕ → Bool → Cmd Kernel Envid
envid2env envid checkperm k =
    let e = envx envid in
    if envid == 0
    then done (success, k.curenv) k
    else if is_free (k.envs e).env_status || not ((k.envs e).env_id == envid)
    then done (some e_bad_env, none) k
    else if checkperm
    then check_perm k.curenv e k
    else done (success, some e) k

-- `memcpy` of `n` entries of a page directory, from index `i` on.
unfoldable pub copy_entries : ℕ → ℕ → ℕ → ℕ → Mem → Mem
copy_entries dst src i n m = record m {
  word = update m.word dst (λ j. if leb i j && ltb j (i + n) then m.word src j else m.word dst j);
}

-- `kernel_boot_pgdir` is at physical address 0x81000000, and `P1X(HIGH_ADDR_IMM)` is 256.
abbrev pub boot_frame : ℕ
boot_frame = 0x81000

-- The second copy asks for 0x1FF - 256 + 1 bytes, that is for 32 entries.
unfoldable pub env_setup_vm : ℕ → Cmd Kernel Ret
env_setup_vm e = do
  p ← on_mem page_alloc
  elim p [
    | none ↦ pure (some e_no_mem)
    | some page ↦ (do
      on_mem (modify (incref page))
      modify (λ k. set_env e (record (k.envs e) { env_pgdir = page2ppn page }) k)
      modify (λ k. record k {
        mem = copy_entries (page2ppn page) k.base_pgdir (p1x utop) (p1x uvpt - p1x utop) k.mem;
      })
      modify (λ k. record k { mem = copy_entries (page2ppn page) boot_frame 256 32 k.mem })
      pure success)
  ]

-- SSTATUS_SPIE and SIE_STIE | SIE_SEIE
abbrev pub sstatus_spie : ℕ
sstatus_spie = 0x20

abbrev pub sie_user : ℕ
sie_user = 0x220

-- The fields that `env_alloc` sets last.
unfoldable pub fill_env : ℕ → ℕ → Env → Env
fill_env parent_id asid v = record v {
  env_asid = asid;
  env_parent_id = parent_id;
  env_in_syscall = 0;
  handler_function_va = 0;
  env_ipc_recv_from = 0;
  env_tf = record (v.env_tf) {
    sstatus = sstatus_spie;
    sie = sie_user;
    regs = update v.env_tf.regs 2 (ustacktop - 4 - 8);
  };
}

-- After `env_setup_vm`: identifiers are given, and the environment leaves the free list.
unfoldable pub env_enter : ℕ → List ℕ → ℕ → Cmd Kernel (Ret × Option ℕ)
env_enter e rest parent_id k =
    let (id, k1) = mkenvid e k in
    let v : Env = record (k.envs e) { env_user_tlb_mod_entry = 0; env_runs = 0; env_id = id } in
    elim (Asid.asid_alloc k1.asid_bitmap) [
      | none ↦ done (some e_no_free_env, none) (set_env e v k1)
      | some (asid, bitmap) ↦
          done (success, some e)
            (record (set_env e (fill_env parent_id asid v) k1) {
              asid_bitmap = bitmap;
              env_free_list = rest;
            })
    ]

unfoldable pub env_alloc : ℕ → Cmd Kernel (Ret × Option ℕ)
env_alloc parent_id k = elim k.env_free_list [
  | [] ↦ done (some e_no_free_env, none) k
  | e ∷ rest ↦
      (do
        r ← env_setup_vm e
        elim r [ some err ↦ pure (some err, none) | none ↦ env_enter e rest parent_id ])
        k
]
