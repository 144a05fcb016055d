-- ===== src/Fs/Ops.antt =====
-- Operations on whole files: open, create, close and remove.
use mos_riscv.Prelude.{ℕ, zero, suc, ◌+◌, false, Option, none, some, List, ◌==◌, if◌then◌else◌}
use mos_riscv.Kern.Error.{e_not_found, e_file_exists}
use mos_riscv.Fs.Server.{Cmd, done, failed, pure, fail, modify, catch, ◌>>=◌, ◌>>◌}
use mos_riscv.Fs.Block.{read_block, dirty_block}
use mos_riscv.Fs.File.{File, f_dir, file_map_block, file_truncate, file_flush, flush_dir}
use mos_riscv.Fs.Dir.{dir_blocks, dir_alloc_file, set_name, set_name_byte}
use mos_riscv.Fs.Path.{Walk, found, absent, walk_path}

unfoldable pub the_file : Walk → Cmd File
the_file (found dir f) = pure f
the_file (absent dir name) = fail e_not_found

unfoldable pub file_open : List ℕ → Cmd File
file_open path = do w ← walk_path path; the_file w

-- What `file_create` does with the outcome of the walk. A failed `dir_alloc_file` is reported by the
-- value of the walk, -E_NOT_FOUND.
unfoldable pub create_at : Walk → Cmd File
create_at (found dir f) s = failed e_file_exists s
create_at (absent dir name) s =
    catch (dir_alloc_file dir s) (λ f. do modify (set_name f 0 name); pure f)
      (λ e. fail e_not_found)

unfoldable pub file_create : List ℕ → Cmd File
file_create path = do w ← walk_path path; create_at w

-- The loop of `file_close`: the block of the directory that holds the descriptor is made dirty. It
-- ends at the first block that fails.
unfoldable pub close_in : ℕ → File → File → ℕ → Cmd (Unit {0})
close_in zero dir f i = pure tt
close_in (suc left) dir f i =
    let rest = close_in left dir f (i + 1) in
    λ s.
      catch (file_map_block dir i false s)
        (λ diskbno s1.
          catch (read_block diskbno s1)
            (λ _ s2.
              if diskbno == f.block
              then catch (dirty_block diskbno s2) (λ _. pure tt) (λ _. pure tt)
              else rest s2)
            (λ _. pure tt))
        (λ _. pure tt)

unfoldable pub close_dir : File → Option File → Cmd (Unit {0})
close_dir f none s = done tt s
close_dir f (some dir) s = (do close_in (dir_blocks dir s) dir f 0; file_flush dir) s

unfoldable pub file_close : File → Cmd (Unit {0})
file_close f = do file_flush f; λ s. close_dir f (f_dir f s) s

unfoldable pub remove_file : File → Cmd (Unit {0})
remove_file f = do
  file_truncate f 0
  modify (set_name_byte f 0 0)
  file_flush f
  λ s. flush_dir (f_dir f s) s

unfoldable pub file_remove : List ℕ → Cmd (Unit {0})
file_remove path = do f ← file_open path; remove_file f
