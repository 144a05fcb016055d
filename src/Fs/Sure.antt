-- ===== src/Fs/Sure.antt =====
-- Operations of fs/fs.c that return no error.
use mos_riscv.Prelude.{
  ℕ, zero, suc, ◌+◌, ◌-◌, Bool, true, false, not, ◌||◌, ◌==◌, ltb, leb, Option, none, some,
  if◌then◌else◌,
}
use mos_riscv.Fs.Server.{
  Server, Io, Cmd, done, failed, stopped, and_then, catch, load, store, s_nblocks, ndirect,
}
use mos_riscv.Fs.Block.{write_block, free_block, block_is_mapped, block_is_dirty}
use mos_riscv.Fs.File.{
  File, f_size, f_indirect, f_dir, clear_blocks, file_clear_block, free_indirect, file_truncate,
  flush_block, flush_blocks, file_flush, flush_dir, file_set_size, blocks_of, file_map_block,
}

-- There is no error.
abbrev pub IsSure : {A : Type 0} → Io A → Type 0
IsSure (done a s) = Unit
IsSure (failed e s) = ⊥
IsSure stopped = Unit

IsSure-and_then :
    (A B : Type 0) (r : Io A) (k : A → Cmd B)
    → IsSure r
    → ((a : A) (s : Server) → IsSure (k a s))
    → IsSure (and_then r k)
IsSure-and_then A B (done a s) k h next = next a s
IsSure-and_then A B (failed e s) k h next = h
IsSure-and_then A B stopped k h next = tt

IsSure-if : (A : Type 0) (b : Bool) (x y : Io A) → IsSure x → IsSure y → IsSure (if b then x else y)
IsSure-if A true x y h k = h
IsSure-if A false x y h k = k

IsSure-choose :
    (b : Bool) (m n : Cmd (Unit {0})) (s : Server)
    → IsSure (m s)
    → IsSure (n s)
    → IsSure ((if b then m else n) s)
IsSure-choose true m n s h k = h
IsSure-choose false m n s h k = k

write_block-IsSure : (b : ℕ) (s : Server) → IsSure (write_block b s)
unfolding write_block
write_block-IsSure b s = IsSure-if (Unit {0}) (block_is_mapped b s) _ _ tt tt

free_block-IsSure : (b : ℕ) (s : Server) → IsSure (free_block b s)
unfolding free_block
free_block-IsSure b s = IsSure-if (Unit {0}) (not s.super) _ _ tt (
    IsSure-if (Unit {0}) ((b == 0) || leb (s_nblocks s) b) _ _ tt
      (IsSure-if (Unit {0}) s.bitmap _ _ tt tt))

-- `panic_on` lets no error through.
panic_on-IsSure :
    (r : Io (Unit {0})) → IsSure (catch {B = Unit {0}} r (λ _ s. done tt s) (λ _ _. stopped))
panic_on-IsSure (done a s) = tt
panic_on-IsSure (failed e s) = tt
panic_on-IsSure stopped = tt

clear_blocks-IsSure :
    (left : ℕ) (f : File) (bno : ℕ) (s : Server) → IsSure (clear_blocks left f bno s)
unfolding clear_blocks
clear_blocks-IsSure zero f bno s = tt
clear_blocks-IsSure (suc left) f bno s =
    IsSure-and_then (Unit {0}) (Unit {0}) (catch (file_clear_block f bno s) _ _)
      (λ _. clear_blocks left f (bno + 1)) (panic_on-IsSure (file_clear_block f bno s))
      (λ _ s'. clear_blocks-IsSure left f (bno + 1) s')

free_indirect-IsSure : (f : File) (s : Server) → IsSure (free_indirect f s)
unfolding free_indirect
free_indirect-IsSure f s = IsSure-if (Unit {0}) (load s (f_indirect f) == 0) _ _ tt (
    IsSure-and_then (Unit {0}) (Unit {0}) (free_block (load s (f_indirect f)) s) _
      (free_block-IsSure (load s (f_indirect f)) s) (λ _ s'. tt))

file_truncate-IsSure : (f : File) (newsize : ℕ) (s : Server) → IsSure (file_truncate f newsize s)
unfolding file_truncate
file_truncate-IsSure f newsize s =
    let old = blocks_of (load s (f_size f)) in
    let new = blocks_of newsize in
    IsSure-and_then (Unit {0}) (Unit {0}) (clear_blocks (old - new) f new s) _
      (clear_blocks-IsSure (old - new) f new s)
      (λ _ s'.
        IsSure-and_then (Unit {0}) (Unit {0})
          ((if leb new ndirect then free_indirect f else λ s2. done tt s2) s') _
          (IsSure-choose (leb new ndirect) (free_indirect f) (λ s2. done tt s2) s'
            (free_indirect-IsSure f s') tt)
          (λ _ s2. tt))

flush_block-IsSure : (b : ℕ) (s : Server) → IsSure (flush_block b s)
unfolding flush_block
flush_block-IsSure b s = IsSure-if (Unit {0}) (block_is_dirty b s) _ _ (write_block-IsSure b s) tt

flush_found : (r : Io ℕ) → IsSure (catch r flush_block (λ _ s. done tt s))
flush_found (done b s) = flush_block-IsSure b s
flush_found (failed e s) = tt
flush_found stopped = tt

flush_blocks-IsSure :
    (left : ℕ) (f : File) (bno : ℕ) (s : Server) → IsSure (flush_blocks left f bno s)
unfolding flush_blocks
flush_blocks-IsSure zero f bno s = tt
flush_blocks-IsSure (suc left) f bno s =
    IsSure-and_then (Unit {0}) (Unit {0}) (catch (file_map_block f bno false s) _ _)
      (λ _. flush_blocks left f (bno + 1)) (flush_found (file_map_block f bno false s))
      (λ _ s'. flush_blocks-IsSure left f (bno + 1) s')

flush_dir-IsSure : (o : Option File) (s : Server) → IsSure (flush_dir o s)
unfolding flush_dir file_flush
flush_dir-IsSure none s = tt
flush_dir-IsSure (some dir) s = flush_blocks-IsSure (blocks_of (load s (f_size dir))) dir 0 s

-- `file_set_size` returns no error.
pub file_set_size-IsSure :
    (f : File) (newsize : ℕ) (s : Server) → IsSure (file_set_size f newsize s)
unfolding file_set_size
file_set_size-IsSure f newsize s =
    IsSure-and_then (Unit {0}) (Unit {0})
      (if ltb newsize (load s (f_size f)) then file_truncate f newsize s else done tt s) _
      (IsSure-if (Unit {0}) (ltb newsize (load s (f_size f))) _ _ (file_truncate-IsSure f newsize s)
        tt)
      (λ _ s'. let s2 = store (f_size f) newsize s' in flush_dir-IsSure (f_dir f s2) s2)
