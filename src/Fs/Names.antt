-- ===== src/Fs/Names.antt =====
-- The names that a path of fs/fs.c is made of, and `walk_path` as a walk along them.
use mos_riscv.Prelude.{
  ℕ, zero, suc, ◌≤◌, ◌≡◌, refl, sym, ap, ◌∙◌, Bool, true, false, not, ◌&&◌, Option, none, some,
  List, [], ◌∷◌, length, ◌==◌, leb, if◌then◌else◌, Bool-cases, inl, inr, arith,
}
use mos_riscv.Kern.Error.{Error, e_not_found, e_bad_path}
use mos_riscv.Fs.Server.{Server, Io, done, failed, stopped, load, maxnamelen}
use mos_riscv.Fs.File.{File, f_type}
use mos_riscv.Fs.Dir.{dir_lookup}
use mos_riscv.Fs.Path.{
  skip_slash, element, Walk, found, absent, is_not_found, not_looked_up, walk_from, walk_path,
  s_root,
}

-- An empty name between two slashes counts for nothing.
abbrev keep : List ℕ → List (List ℕ) → List (List ℕ)
keep [] ns = ns
keep (c ∷ n) ns = (c ∷ n) ∷ ns

-- The first name of a path, which may be empty, and the others.
split : List ℕ → List ℕ × List (List ℕ)
split [] = ([], [])
split (c ∷ p) = let (n, ns) = split p in if c == 0x2f then ([], keep n ns) else (c ∷ n, ns)

pub components : List ℕ → List (List ℕ)
components p = keep (split p).0 (split p).1

abbrev is_empty : List (List ℕ) → Bool
is_empty [] = true
is_empty (n ∷ ns) = false

abbrev missing : File → List ℕ → List (List ℕ) → Error → Server → Io Walk
missing dir name rest e s =
    if is_empty rest && is_not_found e then done (absent dir name) s else failed e s

-- The walk along a list of names, each looked up in the directory before.
pub walk_names : List (List ℕ) → Option File → File → Server → Io Walk
walk_names [] dir file s = done (found dir file) s
walk_names (name ∷ rest) dir file s =
    if leb maxnamelen (length name)
    then failed e_bad_path s
    else if not (load s (f_type file) == 1)
    then failed e_not_found s
    else elim (dir_lookup file name s) [
      | done f s' ↦ walk_names rest (some file) f s'
      | failed e s' ↦ missing file name rest e s'
      | stopped ↦ stopped
    ]

-- The functions on paths, at a slash and at another byte.
module _ (c : ℕ) (p : List ℕ) where
  split-slash : (c == 0x2f) ≡ true → split (c ∷ p) ≡ ([], components p)
  unfolding split components
  split-slash h = rw h refl

  split-char : (c == 0x2f) ≡ false → split (c ∷ p) ≡ (c ∷ (split p).0, (split p).1)
  unfolding split
  split-char h = rw h refl

  components-slash : (c == 0x2f) ≡ true → components (c ∷ p) ≡ components p
  unfolding components
  components-slash h = rw (split-slash h) refl

  skip_slash_slash : (c == 0x2f) ≡ true → skip_slash (c ∷ p) ≡ skip_slash p
  unfolding skip_slash
  skip_slash_slash h = rw h refl

  skip_slash_char : (c == 0x2f) ≡ false → skip_slash (c ∷ p) ≡ c ∷ p
  unfolding skip_slash
  skip_slash_char h = rw h refl

  element-slash : (c == 0x2f) ≡ true → element (c ∷ p) ≡ ([], c ∷ p)
  unfolding element
  element-slash h = rw h refl

  element-char : (c == 0x2f) ≡ false → element (c ∷ p) ≡ (c ∷ (element p).0, (element p).1)
  unfolding element
  element-char h = rw h refl

-- Slashes in front change no name.
components-skip_slash : (p : List ℕ) → components (skip_slash p) ≡ components p
unfolding skip_slash
components-skip_slash [] = refl
components-skip_slash (c ∷ p) = elim (Bool-cases (c == 0x2f)) [
  | inl h ↦ rw (components-slash c p h, h) (components-skip_slash p)
  | inr h ↦ rw h refl
]

split-element :
    (p : List ℕ) → ((split p).0 ≡ (element p).0) × ((split p).1 ≡ components (element p).1)
split-element [] = unfold split element components in (refl, refl)
split-element (c ∷ p) = elim (Bool-cases (c == 0x2f)) [
  | inl h ↦ rw (split-slash c p h, element-slash c p h) (refl, sym (components-slash c p h))
  | inr h ↦
      rw (split-char c p h, element-char c p h)
        (ap (λ l. c ∷ l) (split-element p).0, (split-element p).1)
]

-- The first name of a path that does not begin with a slash.
components-element :
    (c : ℕ) (p : List ℕ)
    → (c == 0x2f) ≡ false
    → components (c ∷ p) ≡ (element (c ∷ p)).0 ∷ components (element (c ∷ p)).1
components-element c p h =
    let e : components (c ∷ p) ≡ (c ∷ (split p).0) ∷ (split p).1 =
      unfold components in rw (split-char c p h) refl in
    e ∙ rw (element-char c p h, (split-element p).0, (split-element p).1) refl

length-skip_slash : (p : List ℕ) → length (skip_slash p) ≤ length p
unfolding skip_slash
length-skip_slash [] = omega arith
length-skip_slash (c ∷ p) = elim (Bool-cases (c == 0x2f)) [
  | inl h ↦ rw h (omega (arith, length-skip_slash p))
  | inr h ↦ rw h (omega arith)
]

length-element : (p : List ℕ) → length (element p).1 ≤ length p
unfolding element
length-element [] = omega arith
length-element (c ∷ p) = elim (Bool-cases (c == 0x2f)) [
  | inl h ↦ rw h (omega arith)
  | inr h ↦ rw h (omega (arith, length-element p))
]

-- A path that does not begin with a slash.
abbrev IsSkipped : List ℕ → Type 0
IsSkipped [] = Unit
IsSkipped (c ∷ p) = (c == 0x2f) ≡ false

skip_slash-IsSkipped : (p : List ℕ) → IsSkipped (skip_slash p)
unfolding skip_slash
skip_slash-IsSkipped [] = tt
skip_slash-IsSkipped (c ∷ p) = elim (Bool-cases (c == 0x2f)) [
  | inl h ↦ rw h (skip_slash-IsSkipped p)
  | inr h ↦ rw h h
]

shorter : (c : ℕ) (p : List ℕ) → (c == 0x2f) ≡ false → length (element (c ∷ p)).1 ≤ length p
unfolding element
shorter c p h = rw h (length-element p)

not_looked_up-missing :
    (dir : File) (name q : List ℕ) (e : Error) (s : Server)
    → IsSkipped q
    → not_looked_up dir name q e s ≡ missing dir name (components q) e s
unfolding not_looked_up
not_looked_up-missing dir name [] e s k =
    unfold components split in
    elim (Bool-cases (is_not_found e)) [ inl h ↦ rw h refl | inr h ↦ rw h refl ]
not_looked_up-missing dir name (c ∷ q) e s k = rw (components-element c q k) refl

-- What follows the lookup, by the theorem for the path that is left.
looked_up :
    (fuel : ℕ) (file : File) (name rest : List ℕ)
    → ((q : List ℕ) (f : File) (s : Server)
        → IsSkipped q
        → length q ≤ fuel
        → walk_from fuel q (some file) f s ≡ some (walk_names (components q) (some file) f s))
    → length rest ≤ fuel
    → (r : Io File)
    → (elim r as (λ _. Option (Io Walk)) [
      | done f s' ↦ walk_from fuel (skip_slash rest) (some file) f s'
      | failed e s' ↦ some (not_looked_up file name (skip_slash rest) e s')
      | stopped ↦ some stopped
    ])
      ≡ some (elim r as (λ _. Io Walk) [
        | done f s' ↦ walk_names (components rest) (some file) f s'
        | failed e s' ↦ missing file name (components rest) e s'
        | stopped ↦ stopped
      ])
looked_up fuel file name rest ih le (done f s) =
    ih (skip_slash rest) f s (skip_slash-IsSkipped rest) (omega (arith, length-skip_slash rest))
    ∙ rw (components-skip_slash rest) refl
looked_up fuel file name rest ih le (failed e s) =
    ap some (not_looked_up-missing file name (skip_slash rest) e s (skip_slash-IsSkipped rest))
    ∙ rw (components-skip_slash rest) refl
looked_up fuel file name rest ih le stopped = refl

walk_from-walk_names :
    (fuel : ℕ) (q : List ℕ) (dir : Option File) (file : File) (s : Server)
    → IsSkipped q
    → length q ≤ fuel
    → walk_from fuel q dir file s ≡ some (walk_names (components q) dir file s)
unfolding walk_from walk_names
walk_from-walk_names zero [] dir file s k h = unfold components split in refl
walk_from-walk_names (suc fuel) [] dir file s k h = unfold components split in refl
walk_from-walk_names zero (c ∷ p) dir file s k h = absurd (omega arith)
walk_from-walk_names (suc fuel) (c ∷ p) dir file s k h =
    rw (components-element c p k) (elim (Bool-cases (leb maxnamelen (length (element (c ∷ p)).0))) [
      | inl long ↦ rw long refl
      | inr short ↦ elim (Bool-cases (load s (f_type file) == 1)) [
        | inr other ↦ rw (short, other) refl
        | inl dir_type ↦
            rw (short, dir_type)
              (looked_up fuel file (element (c ∷ p)).0 (element (c ∷ p)).1
                (λ q f s'. walk_from-walk_names fuel q (some file) f s')
                (omega (arith, shorter c p k)) (dir_lookup file (element (c ∷ p)).0 s))
      ]
    ])

-- `walk_path` has fuel enough for every path, and is the walk along the names that stand between
-- slashes: empty names do not count, each name is looked up in the directory before it, and only the
-- last one may be missing.
pub walk_path-walk_names :
    (path : List ℕ) (s : Server) → walk_path path s ≡ walk_names (components path) none s_root s
unfolding walk_path
walk_path-walk_names path s =
    rw
      (walk_from-walk_names (length path) (skip_slash path) none s_root s
        (skip_slash-IsSkipped path) (length-skip_slash path))
      (rw (components-skip_slash path) refl)
