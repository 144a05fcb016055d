-- ===== src/Fs/Lookup.antt =====
-- What a lookup in a directory of fs/fs.c finds.
use mathlib.Core.Path.{subst}
use native.Mathlib.Decide.{ℕ_discrete}
use mos_riscv.Prelude.{
  ℕ, zero, suc, ◌+◌, ◌-◌, ◌*◌, ◌/◌, ◌%◌, ◌^◌, ◌<◌, ◌≤◌, ◌≡◌, ◌≢◌, refl, sym, ap, ap₂, ◌∙◌, Bool,
  true, false, not, ◌&&◌, Option, none, some, List, [], ◌∷◌, length, ◌==◌, ==_iff, Bool-cases, inl,
  inr, arith,
}
use mos_riscv.Kern.Error.{Error, e_not_found}
use mos_riscv.Fs.Server.{
  Server, Cmd, Io, done, failed, stopped, and_then, Ends, Ends-weaken, cell, load, store, diskmap,
  block_size,
}
use mos_riscv.Fs.File.{File, f_dir, set_f_dir, file_get_block, address}
use mos_riscv.Fs.Dir.{
  name_byte, name_is, is_named, slot, find_slot, find_in_dir, dir_blocks, enter_found, dir_lookup,
}

-- What a search of the descriptors from `j` on of a block, `left` of them, has found.
abbrev SlotFound : (File → Bool) → ℕ → ℕ → ℕ → Option File → Type 0
SlotFound test left blk j none = (l : ℕ) → j ≤ l → l < j + left → test (slot blk l) ≡ false
SlotFound test left blk j (some f) = (test f ≡ true) × (l : ℕ) × (l < j + left) × (f ≡ slot blk l)

SlotFound-suc :
    (test : File → Bool) (left blk j : ℕ) (o : Option File)
    → test (slot blk j) ≡ false
    → SlotFound test left blk (j + 1) o
    → SlotFound test (suc left) blk j o
SlotFound-suc test left blk j none h rest =
    λ l le lt. elim (ℕ_discrete l j) [ yes e ↦ rw e h | no ne ↦ rest l (omega arith) (omega arith) ]
SlotFound-suc test left blk j (some f) h (t, l, lt, e) = (t, l, omega arith, e)

find_slot-SlotFound :
    (test : File → Bool) (left blk j : ℕ) → SlotFound test left blk j (find_slot test left blk j)
unfolding find_slot
find_slot-SlotFound test zero blk j = λ l le lt. absurd (omega arith)
find_slot-SlotFound test (suc left) blk j = elim (Bool-cases (test (slot blk j))) [
  | inl h ↦ rw h (h, j, omega arith, refl)
  | inr h ↦ rw h (
      SlotFound-suc test left blk j (find_slot test left blk (j + 1)) h
        (find_slot-SlotFound test left blk (j + 1)))
]

-- Block `i` of the directory is in the cache, and is `blk i`.
abbrev pub IsCached : File → (ℕ → ℕ) → ℕ → Server → Type 0
IsCached dir blk n s = (i : ℕ) → i < n → file_get_block dir i s ≡ done (blk i) s

-- What a search of the blocks from `i` on has found, of `n`.
abbrev BlockFound : (File → Bool) → (ℕ → ℕ) → ℕ → ℕ → Option File → Type 0
BlockFound test blk n i none = (b l : ℕ) → i ≤ b → b < n → l < 16 → test (slot (blk b) l) ≡ false
BlockFound test blk n i (some f) =
    (test f ≡ true) × (b : ℕ) × (l : ℕ) × (b < n) × (l < 16) × (f ≡ slot (blk b) l)

-- A search ends with what it has found, and leaves the state.
abbrev Searched : (File → Bool) → (ℕ → ℕ) → ℕ → ℕ → Server → Io (Option File) → Type 0
Searched test blk n i s r = Ends (λ o s'. (s' ≡ s) × BlockFound test blk n i o) (λ _ _. ⊥) r

module _ (test : Server → File → Bool) (dir : File) (blk : ℕ → ℕ) (n : ℕ) (s : Server) where
  next_block :
      (i : ℕ) (o : Option File)
      → ((l : ℕ) → 0 ≤ l → l < 0 + 16 → test s (slot (blk i) l) ≡ false)
      → BlockFound (test s) blk n (i + 1) o
      → BlockFound (test s) blk n i o
  next_block i none h rest = λ b l le lt in_block. elim (ℕ_discrete b i) [
    | yes e ↦ rw e (h l (omega arith) (omega arith))
    | no ne ↦ rest b l (omega arith) lt in_block
  ]
  next_block i (some f) h rest = rest

  chosen :
      (i : ℕ) (rest : Cmd (Option File)) (o : Option File)
      → i < n
      → SlotFound (test s) 16 (blk i) 0 o
      → Searched (test s) blk n (i + 1) s (rest s)
      → Searched (test s) blk n i s (elim o [ none ↦ rest s | some f ↦ done (some f) s ])
  chosen i rest none lt h next =
      Ends-weaken (λ o s'. (s' ≡ s) × BlockFound (test s) blk n (i + 1) o)
        (λ o s'. (s' ≡ s) × BlockFound (test s) blk n i o) (λ _ _. ⊥) (λ _ _. ⊥) (rest s) next
        (λ o s' (same, found). (same, next_block i o h found)) (λ e s' x. x)
  chosen i rest (some f) lt (t, l, in_block, e) next = (refl, (t, i, l, lt, omega arith, e))

  find_in_dir-Searched :
      (left i : ℕ)
      → i + left ≡ n
      → IsCached dir blk n s
      → Searched (test s) blk n i s (find_in_dir test left dir i s)
  unfolding find_in_dir
  find_in_dir-Searched zero i total cached = (refl, λ b l le lt in_block. absurd (omega arith))
  find_in_dir-Searched (suc left) i total cached = rw (cached i (omega arith)) (
      chosen i (find_in_dir test left dir (i + 1)) (find_slot (test s) 16 (blk i) 0) (omega arith)
        (find_slot-SlotFound (test s) 16 (blk i) 0)
        (find_in_dir-Searched left (i + 1) (omega arith) cached))

both : (a b : Bool) → a && b ≡ true → (a ≡ true) × (b ≡ true)
both true true h = (refl, refl)
both true false h = absurd (cc h)
both false b h = absurd (cc h)

-- The bytes of `f_name` from `i` on.
unfoldable pub text_at : File → ℕ → ℕ → Server → List ℕ
text_at f i zero s = []
text_at f i (suc n) s = name_byte f i s ∷ text_at f (i + 1) n s

-- The descriptor is in use, and `f_name` holds the name and a zero behind it.
pub record HasName (name : List ℕ) (f : File) (s : Server) : Type 0 where
  pub in_use : name_byte f 0 s ≢ 0
  pub text : text_at f 0 (length name) s ≡ name
  pub ends : name_byte f (length name) s ≡ 0

name_is-text :
    (f : File) (i : ℕ) (name : List ℕ) (s : Server)
    → name_is f i name s ≡ true
    → (text_at f i (length name) s ≡ name) × (name_byte f (i + length name) s ≡ 0)
unfolding name_is text_at
name_is-text f i [] s h =
    (refl, ap (λ (x : ℕ). name_byte f x s) (omega arith) ∙ (==_iff (name_byte f i s) 0).0 h)
name_is-text f i (c ∷ cs) s h =
    let (first, others) = both (name_byte f i s == c) (name_is f (i + 1) cs s) h in
    let (text, ends) = name_is-text f (i + 1) cs s others in
    (
      ap₂ (λ (x : ℕ) (xs : List ℕ). x ∷ xs) ((==_iff (name_byte f i s) c).0 first) text,
      ap (λ (x : ℕ). name_byte f x s) (omega arith) ∙ ends,
    )

first_of : List ℕ → ℕ
first_of [] = 0
first_of (c ∷ cs) = c

rest_of : List ℕ → List ℕ
rest_of [] = []
rest_of (c ∷ cs) = cs

text-name_is :
    (f : File) (i : ℕ) (name : List ℕ) (s : Server)
    → text_at f i (length name) s ≡ name
    → name_byte f (i + length name) s ≡ 0
    → name_is f i name s ≡ true
unfolding name_is text_at
text-name_is f i [] s e z =
    (==_iff (name_byte f i s) 0).1 (ap (λ (x : ℕ). name_byte f x s) (omega arith) ∙ z)
text-name_is f i (c ∷ cs) s e z =
    let here : (name_byte f i s == c) ≡ true =
      (==_iff (name_byte f i s) c).1 (unfold first_of in ap first_of e) in
    rw here (
      text-name_is f (i + 1) cs s (unfold rest_of in ap rest_of e)
        (ap (λ (x : ℕ). name_byte f x s) (omega arith) ∙ z))

is_named-HasName :
    (name : List ℕ) (f : File) (s : Server) → is_named name s f ≡ true → HasName name f s
unfolding is_named
is_named-HasName name f s h =
    let (used, same) = both (not (name_byte f 0 s == 0)) (name_is f 0 name s) h in
    let (text, ends) = name_is-text f 0 name s same in
    record {
      in_use = ground arith;
      text = text;
      ends = ap (λ (x : ℕ). name_byte f x s) (omega arith) ∙ ends;
    }

not_named : (name : List ℕ) (f : File) (s : Server) → is_named name s f ≡ false → ¬ HasName name f s
unfolding is_named
not_named name f s h n =
    let used : (name_byte f 0 s == 0) ≡ false = (let u = n.in_use in ground arith) in
    let same : name_is f 0 name s ≡ true =
      text-name_is f 0 name s n.text (ap (λ (x : ℕ). name_byte f x s) (omega arith) ∙ n.ends) in
    absurd (cc (rw (used, same) at h))

-- Setting `f_dir` leaves the words in front of it alone.
load-set_f_dir :
    (f dir : File) (j : ℕ) (s : Server)
    → j < 45
    → load (set_f_dir f dir s) (cell f.block (f.index + j)) ≡ load s (cell f.block (f.index + j))
unfolding set_f_dir load store
load-set_f_dir f dir j s h = ground arith

name_byte-set_f_dir :
    (f dir : File) (i : ℕ) (s : Server)
    → i < 180
    → name_byte f i (set_f_dir f dir s) ≡ name_byte f i s
unfolding name_byte
name_byte-set_f_dir f dir i s h = rw (load-set_f_dir f dir (i / 4) s (omega arith)) refl

name_is-set_f_dir :
    (f dir : File) (i : ℕ) (name : List ℕ) (s : Server)
    → i + length name < 180
    → name_is f i name (set_f_dir f dir s) ≡ name_is f i name s
unfolding name_is
name_is-set_f_dir f dir i [] s h = rw (name_byte-set_f_dir f dir i s (omega arith)) refl
name_is-set_f_dir f dir i (c ∷ cs) s h =
    rw
      (
        name_byte-set_f_dir f dir i s (omega arith),
        name_is-set_f_dir f dir (i + 1) cs s (omega arith),
      )
      refl

low_word :
    (f dir : File) (s : Server)
    → load (set_f_dir f dir s) (cell f.block (f.index + 45)) ≡ address dir % 2 ^ 32
unfolding set_f_dir load store
low_word f dir s = ground arith

high_word :
    (f dir : File) (s : Server)
    → load (set_f_dir f dir s) (cell f.block (f.index + 46)) ≡ address dir / 2 ^ 32
unfolding set_f_dir load store
high_word f dir s = ground arith

f_dir-set_f_dir :
    (f dir : File) (s : Server) → dir.index < 1024 → f_dir f (set_f_dir f dir s) ≡ some dir
unfolding f_dir
f_dir-set_f_dir f dir s h =
    let whole : address dir % 2 ^ 32 + address dir / 2 ^ 32 * 2 ^ 32 ≡ address dir = omega arith in
    let set : (address dir == 0) ≡ false = ground arith in
    let blk : (address dir - diskmap) / block_size ≡ dir.block = omega arith in
    let idx : (address dir - diskmap) % block_size / 4 ≡ dir.index = omega arith in
    rw (low_word f dir s, high_word f dir s, whole, set, blk, idx) refl

-- A file that was looked up is an entry of the directory, with its name, and points at the directory.
abbrev pub IsEntry : File → (ℕ → ℕ) → ℕ → List ℕ → File → Server → Type 0
IsEntry dir blk n name f s =
    HasName name f s
    × (f_dir f s ≡ some dir)
    × (b : ℕ) × (l : ℕ) × (b < n)
    × (l < 16)
    × (f ≡ slot (blk b) l)

-- The error for a missing name, in the state before: no entry of the directory has the name.
abbrev pub IsMissing : (ℕ → ℕ) → ℕ → List ℕ → Server → Error → Server → Type 0
IsMissing blk n name s e s' =
    (e ≡ e_not_found) × (s' ≡ s) × ((b l : ℕ) → b < n → l < 16 → ¬ HasName name (slot (blk b) l) s)

enter_found-IsEntry :
    (dir : File) (blk : ℕ → ℕ) (n : ℕ) (name : List ℕ) (o : Option File) (s : Server)
    → length name < 128
    → dir.index < 1024
    → BlockFound (is_named name s) blk n 0 o
    → Ends (IsEntry dir blk n name) (IsMissing blk n name s) (enter_found dir o s)
unfolding enter_found
enter_found-IsEntry dir blk n name none s short low h = (
  refl,
  refl,
  λ b l lt in_block. not_named name (slot (blk b) l) s (h b l (omega arith) lt in_block),
)
enter_found-IsEntry dir blk n name (some f) s short low (t, b, l, lt, in_block, e) = (
  is_named-HasName name f (set_f_dir f dir s) (
      unfold is_named in
      rw
        (
          name_byte-set_f_dir f dir 0 s (omega arith),
          name_is-set_f_dir f dir 0 name s (omega arith),
        )
        t),
  f_dir-set_f_dir f dir s low,
  b,
  l,
  lt,
  in_block,
  e,
)

-- For a directory whose blocks are in the cache and a name that fits: `dir_lookup` ends. The file that it returns is an
-- entry of the directory that is in use under that name, and its `f_dir` is the directory. Its error is E_NOT_FOUND, and
-- then no entry of the directory has the name, and nothing has changed.
pub dir_lookup-IsEntry :
    (dir : File) (blk : ℕ → ℕ) (name : List ℕ) (s : Server)
    → length name < 128
    → dir.index < 1024
    → IsCached dir blk (dir_blocks dir s) s
    → Ends
        (IsEntry dir blk (dir_blocks dir s) name)
        (IsMissing blk (dir_blocks dir s) name s)
        (dir_lookup dir name s)
unfolding dir_lookup
dir_lookup-IsEntry dir blk name s short low cached =
    let n = dir_blocks dir s in
    after_search (find_in_dir (is_named name) n dir 0 s)
      (find_in_dir-Searched (is_named name) dir blk n s n 0 (omega arith) cached)
  where
    after_search :
        (r : Io (Option File))
        → Searched (is_named name s) blk (dir_blocks dir s) 0 s r
        → Ends
            (IsEntry dir blk (dir_blocks dir s) name)
            (IsMissing blk (dir_blocks dir s) name s)
            (and_then r (enter_found dir))
    after_search (done o s') (same, h) =
        subst
          (λ x.
            Ends (IsEntry dir blk (dir_blocks dir s) name) (IsMissing blk (dir_blocks dir s) name s)
              (enter_found dir o x))
          (sym same) (enter_found-IsEntry dir blk (dir_blocks dir s) name o s short low h)
    after_search (failed e s') h = absurd h
    after_search stopped h = absurd h
