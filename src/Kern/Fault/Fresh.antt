-- ===== src/Kern/Fault/Fresh.antt =====
-- What a page fault leaves: a mapping of a page that was free.
use mos_riscv.Prelude.{
  ℕ, ◌^◌, ◌≡◌, ◌<◌, ◌≤◌, refl, sym, true, false, none, some, List, [], ◌∷◌, has, length, leb, ◌+◌,
  ◌⊎◌, ◌∙◌, ap, arith,
}
use mathlib.Core.Path.{subst}
use native.Mathlib.Decide.{ℕ_discrete}
use mos_riscv.Prelude.Run.{done, Returns, Returns-weaken, Returns-and_then}
use mos_riscv.Kern.Error.{Ret}
use mos_riscv.Kern.Mmu.{
  page2ppn, pte_ppn, is_valid, p1x, p2x, make_pte, page_size, utemp, ustacktop, utop,
}
use mos_riscv.Kern.Pmap.Mem.{Mem, Entry, entry, load}
use mos_riscv.Kern.Pmap.Map.{page_insert, page_lookup}
use mos_riscv.Kern.Pmap.Cells.{load-taken_frame, load-taken_zero}
use mos_riscv.Kern.Pmap.Supply.{IsSupply, taken, page_alloc-cons, taken-IsSupply, taken-gone}
use mos_riscv.Kern.Pmap.Path.{IsPath, Mapped, Mapped-same, first, second, Used}
use mos_riscv.Kern.Pmap.Insert.{invalid_zero}
use mos_riscv.Kern.Pmap.InsertLaws.{IsCounted}
use mos_riscv.Kern.Pmap.RoundTrip.{Found, page_insert-page_lookup}
use mos_riscv.Kern.Fault.Alloc.{map_fresh, panic_on, is_refused, user_flags, passive_alloc}

module _ (pgdir va : ℕ) (m : Mem) (i : ℕ) (rest : List ℕ) (e : m.free ≡ i ∷ rest)
    (p : IsPath pgdir va m) where
  head_free : has i m.free ≡ true
  head_free = rw e (ground arith)

  still-Used : (f : ℕ) → Used m f → Used (taken i rest m) f
  unfolding taken
  still-Used f u j h = u j (rw e (ground arith))

  first-taken : first pgdir va (taken i rest m) ≡ first pgdir va m
  first-taken = load-taken_frame m i rest pgdir (p1x va) (p.root_used i head_free)

  second-taken :
      is_valid (first pgdir va m) ≡ true → second pgdir va (taken i rest m) ≡ second pgdir va m
  second-taken v = rw first-taken (
      load-taken_frame m i rest (pte_ppn (first pgdir va m)) (p2x va) (p.second_used v i head_free))

  valid_before :
      is_valid (first pgdir va (taken i rest m)) ≡ true → is_valid (first pgdir va m) ≡ true
  valid_before v = subst (λ x. is_valid x ≡ true) first-taken v

  second_before :
      is_valid (first pgdir va (taken i rest m)) ≡ true
      → is_valid (second pgdir va (taken i rest m)) ≡ true
      → is_valid (second pgdir va m) ≡ true
  second_before v w = subst (λ x. is_valid x ≡ true) (second-taken (valid_before v)) w

  taken-IsPath : IsPath pgdir va (taken i rest m)
  taken-IsPath = record {
    root_used = still-Used pgdir p.root_used;
    first_table = λ v. rw first-taken (p.first_table (valid_before v));
    second_used = λ v. rw first-taken (still-Used _ (p.second_used (valid_before v)));
    second_apart = λ v. rw first-taken (p.second_apart (valid_before v));
    second_table = λ v w.
        rw (second-taken (valid_before v)) (p.second_table (valid_before v) (second_before v w));
    third_apart_root = λ v w.
        rw (second-taken (valid_before v))
          (p.third_apart_root (valid_before v) (second_before v w));
    third_apart_second = λ v w.
        rw (second-taken (valid_before v), first-taken)
          (p.third_apart_second (valid_before v) (second_before v w));
  }

  -- The page taken is no entry's that is valid.
  load-taken_valid :
      (f j : ℕ)
      → is_valid (load (taken i rest m) (entry f j)) ≡ true
      → load (taken i rest m) (entry f j) ≡ load m (entry f j)
  load-taken_valid f j v = elim (ℕ_discrete (page2ppn i) f) [
    | no ne ↦ load-taken_frame m i rest f j ne
    | yes q ↦ absurd (zero_entry f j q v)
  ]
    where
      zero_entry :
          (f j : ℕ) → page2ppn i ≡ f → is_valid (load (taken i rest m) (entry f j)) ≡ true → ⊥
      zero_entry f j q v =
          let z : load (taken i rest m) (entry f j) ≡ 0 =
            subst (λ x. load (taken i rest m) (entry x j) ≡ 0) q (load-taken_zero m i rest j) in
          cc (subst (λ x. is_valid x ≡ true) z v, invalid_zero)

  Mapped-before : (x : Entry) → Mapped pgdir va x (taken i rest m) → Mapped pgdir va x m
  Mapped-before x q =
      Mapped-same pgdir va x (taken i rest m) m (sym first-taken)
        (sym (second-taken (valid_before q.first_valid))) q

  taken-IsCounted : IsCounted pgdir va m → IsCounted pgdir va (taken i rest m)
  taken-IsCounted c x q v =
      let same : load (taken i rest m) x ≡ load m x = load-taken_valid x.frame x.index v in
      rw same (unfold taken in c x (Mapped-before x q) (subst (λ y. is_valid y ≡ true) same v))

-- What a page fault at `va` leaves: a page that was free is found there, under the flags `perm`.
abbrev pub IsFresh : ℕ → ℕ → ℕ → Mem → Mem → Type 0
IsFresh pgdir va perm m m' =
    (pp : ℕ) × (e : Entry) × (has pp m.free ≡ true)
    × (page_lookup pgdir va m' ≡ done (some (pp, e)) m')
    × (load m' e ≡ make_pte pp perm)
    × IsSupply m'

module _ (pgdir va perm pp : ℕ) (m m1 : Mem) (was_free : has pp m.free ≡ true)
    (enough : 2 ≤ length m1.free) where
  panic_on-IsFresh :
      (r : Ret) (m' : Mem)
      → Found pgdir va pp perm m1 r m'
      → Returns (λ _ m2. IsFresh pgdir va perm m m2) (panic_on r m')
  unfolding panic_on
  panic_on-IsFresh none m' (e, q, l, t, s) = (pp, e, was_free, q, l, s)
  panic_on-IsFresh (some err) m' (e, few) = absurd (omega arith)

-- A list that is long enough has a head.
cons_of_length :
    (l : List ℕ) → 2 < length l → (i : ℕ) × (rest : List ℕ) × (l ≡ i ∷ rest) × (2 ≤ length rest)
cons_of_length [] h = absurd (omega arith)
cons_of_length (i ∷ rest) h = (i, rest, refl, omega arith)

user_flags-lt : (va : ℕ) → user_flags va < 2 ^ 10
unfolding user_flags
user_flags-lt va = ground arith

alloc_then_map :
    (pgdir asid va perm : ℕ) (m : Mem)
    → perm < 2 ^ 10
    → IsPath pgdir va m
    → IsSupply m
    → IsCounted pgdir va m
    → 2 < length m.free
    → (i : ℕ) (rest : List ℕ) → m.free ≡ i ∷ rest
    → 2 ≤ length rest
    → Returns
        (λ _ m'. IsFresh pgdir va perm m m')
        (map_fresh pgdir asid va perm (some i) (taken i rest m))
unfolding map_fresh
alloc_then_map pgdir asid va perm m small p s c many i rest e two =
    let m1 = taken i rest m in
    let (here, gone, lt, zero_ref, refs) = taken-gone m i rest e s in
    Returns-and_then (Found pgdir va i perm m1) (λ _ m'. IsFresh pgdir va perm m m')
      (page_insert pgdir asid i va perm m1) panic_on
      (page_insert-page_lookup pgdir asid i va perm m1 lt small (taken-IsPath pgdir va m i rest e p)
        (taken-IsSupply m i rest e s) (taken-IsCounted pgdir va m i rest e p c) gone)
      (panic_on-IsFresh pgdir va perm i m m1 here (unfold taken in two))

-- An address of user space outside the page above the stack.
abbrev pub IsUserAddress : ℕ → Type 0
IsUserAddress va = (utemp ≤ va) × (va < utop) × ((va < ustacktop) ⊎ (ustacktop + page_size ≤ va))

allowed : (va : ℕ) → IsUserAddress va → is_refused va ≡ false
unfolding is_refused
allowed va h = ground arith

below_utop : (va : ℕ) → va < utop → user_flags va ≡ 0x16
unfolding user_flags
below_utop va h = let t : leb utop va ≡ false = ground arith in rw t refl

-- A page that was free is found at `va`, with PTE_R, PTE_W and PTE_U.
abbrev pub IsFreshUser : ℕ → ℕ → Mem → Mem → Type 0
IsFreshUser pgdir va m m' =
    (pp : ℕ) × (e : Entry) × (has pp m.free ≡ true)
    × (page_lookup pgdir va m' ≡ done (some (pp, e)) m')
    × (load m' e ≡ make_pte pp 0x16)
    × IsSupply m'

-- A page fault of a user program at an address from UTEMP on and below UTOP, outside the page above the stack, with an intact free list of at
-- least three pages, on a path of sound tables and a count for what is mapped there: `passive_alloc` comes
-- back, a lookup of the address finds a page that was free, which the user may read and write, and the free list is
-- intact.
pub passive_alloc-IsFresh :
    (va pgdir asid : ℕ) (m : Mem)
    → IsUserAddress va
    → IsPath pgdir va m
    → IsSupply m
    → IsCounted pgdir va m
    → 2 < length m.free
    → Returns (λ _ m'. IsFreshUser pgdir va m m') (passive_alloc va pgdir asid m)
unfolding passive_alloc
passive_alloc-IsFresh va pgdir asid m ok p s c many =
    let (i, rest, e, two) = cons_of_length m.free many in
    rw (allowed va ok, page_alloc-cons m i rest e)
      (Returns-weaken (λ _ m'. IsFresh pgdir va (user_flags va) m m')
        (λ _ m'. IsFreshUser pgdir va m m')
        (map_fresh pgdir asid va (user_flags va) (some i) (taken i rest m))
        (alloc_then_map pgdir asid va (user_flags va) m (user_flags-lt va) p s c many i rest e two)
        (λ _ m' (pp, x, free, found, flags, supply).
          (pp, x, free, found, flags ∙ ap (make_pte pp) (below_utop va ok.1), supply)))
