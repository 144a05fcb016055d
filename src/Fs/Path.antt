-- ===== src/Fs/Path.antt =====
-- Paths: `walk_path` of fs/fs.c. A path is the list of its bytes before the terminating 0.
use mos_riscv.Prelude.{
  ℕ, zero, suc, Bool, true, false, not, Option, none, some, List, [], ◌∷◌, length, ◌==◌, leb,
  if◌then◌else◌,
}
use mos_riscv.Kern.Error.{Error, e_not_found, e_bad_path}
use mos_riscv.Fs.Server.{Server, Io, Cmd, done, failed, stopped, pure, fail, load, maxnamelen}
use mos_riscv.Fs.File.{File, f_type}
use mos_riscv.Fs.Dir.{dir_lookup}

unfoldable pub skip_slash : List ℕ → List ℕ
skip_slash [] = []
skip_slash (c ∷ p) = let rest = skip_slash p in if c == 0x2f then rest else c ∷ p

-- The bytes up to a slash, and what follows from the slash on.
unfoldable pub element : List ℕ → List ℕ × List ℕ
element [] = ([], [])
element (c ∷ p) =
    let (name, rest) = element p in if c == 0x2f then ([], c ∷ p) else (c ∷ name, rest)

-- How the walk ends: at a file with the directory that it is in, or at a directory that lacks the
-- last element of the path (the return value is then -E_NOT_FOUND, with `*pdir` and `lastelem` set).
pub data Walk : Type 0 where
  found : Option File → File → Walk
  absent : File → List ℕ → Walk

-- `&super->s_root`
abbrev pub s_root : File
s_root = record { block = 1; index = 2 }

abbrev pub is_not_found : Error → Bool
is_not_found e_not_found = true
is_not_found e = false

-- What follows a failed lookup: `rest` is the path that is left.
unfoldable pub not_looked_up : File → List ℕ → List ℕ → Error → Cmd Walk
not_looked_up dir name [] e = if is_not_found e then pure (absent dir name) else fail e
not_looked_up dir name (c ∷ rest) e = fail e

-- The loop, on a path without slashes in front; `none` is a loop that lacks fuel. Each round takes at
-- least one byte of the path.
unfoldable pub walk_from : ℕ → List ℕ → Option File → File → Server → Option (Io Walk)
walk_from fuel [] dir file s = some (done (found dir file) s)
walk_from zero (c ∷ p) dir file s = none
walk_from (suc fuel) (c ∷ p) dir file s =
    let name = (element (c ∷ p)).0 in
    let rest = skip_slash (element (c ∷ p)).1 in
    if leb maxnamelen (length name)
    then some (failed e_bad_path s)
    else if not (load s (f_type file) == 1)
    then some (failed e_not_found s)
    else elim (dir_lookup file name s) [
      | done f s' ↦ walk_from fuel rest (some file) f s'
      | failed e s' ↦ some (not_looked_up file name rest e s')
      | stopped ↦ some stopped
    ]

abbrev pub or_stop : {A : Type 0} → Option (Io A) → Io A
or_stop none = stopped
or_stop (some r) = r

unfoldable pub walk_path : List ℕ → Cmd Walk
walk_path path s = or_stop (walk_from (length path) (skip_slash path) none s_root s)
