-- ===== src/Kern/Pmap/Supply.antt =====
-- The invariant of the free list, and that every operation of kern/pmap.c keeps it.
use mos_riscv.Prelude.{
  ℕ, ◌-◌, ◌<◌, ◌≡◌, ◌≢◌, refl, true, false, none, some, List, [], ◌∷◌, ◌==◌, if◌then◌else◌, has,
  Distinct, update, arith, Bool-cases, inl, inr,
}
use mathlib.Core.Path.{subst, ap}
use mos_riscv.Prelude.Run.{done, stopped, Returns}
use mos_riscv.Kern.Mmu.{npage, page2ppn}
use mos_riscv.Kern.Pmap.Mem.{
  Mem, Entry, store, incref, page_alloc, page_free, page_decref, tlb_log, Flush,
}

-- The pages of a free list are pages, stand there once, and are referred to by nobody.
pub record Supply (free : List ℕ) (ref : ℕ → ℕ) : Type 0 where
  pub unused : (i : ℕ) → has i free ≡ true → ref i ≡ 0
  pub in_range : (i : ℕ) → has i free ≡ true → i < npage
  pub once : Distinct free

abbrev pub IsSupply : Mem → Type 0
IsSupply m = Supply m.free m.ref

module _ (i : ℕ) {free : List ℕ} {ref : ℕ → ℕ} where
  Supply-tail : Supply (i ∷ free) ref → Supply free ref
  Supply-tail s = record {
    unused = λ j h. s.unused j (ground arith);
    in_range = λ j h. s.in_range j (ground arith);
    once = s.once.1;
  }

  Supply-cons : Supply free ref → ref i ≡ 0 → i < npage → has i free ≡ false → Supply (i ∷ free) ref
  Supply-cons s z lt out = record {
    unused = λ j h. ground (arith, s.unused j);
    in_range = λ j h. ground (arith, s.in_range j);
    once = (out, s.once);
  }

  Supply-update : (v : ℕ) → Supply free ref → has i free ≡ false → Supply free (update ref i v)
  Supply-update v s out = record {
    unused = λ j h. ground (arith, s.unused j);
    in_range = s.in_range;
    once = s.once;
  }

-- What `page_alloc` leaves when it takes the head of the list.
unfoldable pub taken : ℕ → List ℕ → Mem → Mem
taken i rest m = record m { free = rest; word = update m.word (page2ppn i) (λ _. 0) }

pub page_alloc-cons :
    (m : Mem) (i : ℕ) (rest : List ℕ)
    → m.free ≡ i ∷ rest
    → page_alloc m ≡ done (some i) (taken i rest m)
unfolding page_alloc taken
page_alloc-cons m i rest e = rw e

pub page_alloc-nil : (m : Mem) → m.free ≡ [] → page_alloc m ≡ done none m
unfolding page_alloc
page_alloc-nil m e = rw e

pub taken-IsSupply :
    (m : Mem) (i : ℕ) (rest : List ℕ) → m.free ≡ i ∷ rest → IsSupply m → IsSupply (taken i rest m)
unfolding taken
taken-IsSupply m i rest e s = Supply-tail i (subst (λ l. Supply l m.ref) e s)

-- The page taken is a page without references, and is off the list.
pub taken-gone :
    (m : Mem) (i : ℕ) (rest : List ℕ)
    → m.free ≡ i ∷ rest
    → IsSupply m
    → (has i m.free ≡ true)
      × (has i (taken i rest m).free ≡ false)
      × (i < npage)
      × (m.ref i ≡ 0)
      × ((taken i rest m).ref ≡ m.ref)
unfolding taken
taken-gone m i rest e s =
    let here : has i m.free ≡ true = rw e (ground arith) in
    (here, (subst (λ l. Supply l m.ref) e s).once.0, s.in_range i here, s.unused i here, refl)

-- Nothing is on the new free list that was not on the old one.
abbrev pub NoMore : Mem → Mem → Type 0
NoMore m m' = (j : ℕ) → has j m.free ≡ false → has j m'.free ≡ false

pub not_free : (m : Mem) (i : ℕ) → IsSupply m → 0 < m.ref i → has i m.free ≡ false
not_free m i s h = elim (Bool-cases (has i m.free)) [
  | inl e ↦ absurd (omega (arith, s.unused i e))
  | inr e ↦ e
]

pub incref-IsSupply : (m : Mem) (i : ℕ) → IsSupply m → has i m.free ≡ false → IsSupply (incref i m)
unfolding incref
incref-IsSupply m i s out = Supply-update i _ s out

pub store-IsSupply : (m : Mem) (e : Entry) (v : ℕ) → IsSupply m → IsSupply (store e v m)
unfolding store
store-IsSupply m e v s = s

pub tlb_log-IsSupply : (m : Mem) (f : Flush) → IsSupply m → IsSupply (tlb_log f m)
unfolding tlb_log
tlb_log-IsSupply m f s = s

-- A page with no references that is not on the list may be put on it.
page_free-IsSupply :
    (m : Mem) (i : ℕ)
    → IsSupply m
    → m.ref i ≡ 0
    → i < npage
    → has i m.free ≡ false
    → Returns (λ _ m'. IsSupply m' × (m'.free ≡ i ∷ m.free)) (page_free i m)
unfolding page_free
page_free-IsSupply m i s z lt out = rw z (Supply-cons i s z lt out, refl)

-- What `page_decref` leaves: one reference less, and the page on the list if that was the last.
unfoldable pub released : ℕ → Mem → Mem
released i m = record m {
  free = if m.ref i - 1 == 0 then i ∷ m.free else m.free;
  ref = update m.ref i (m.ref i - 1);
}

pub page_decref-released :
    (m : Mem) (i : ℕ) → 0 < m.ref i → page_decref i m ≡ done tt (released i m)
unfolding page_decref page_free released
page_decref-released m i h = ground arith

page_decref-zero : (m : Mem) (i : ℕ) → m.ref i ≡ 0 → page_decref i m ≡ stopped
unfolding page_decref
page_decref-zero m i h = ground arith

pub released-IsSupply :
    (m : Mem) (i : ℕ) → IsSupply m → i < npage → 0 < m.ref i → IsSupply (released i m)
unfolding released
released-IsSupply m i s lt h = elim (Bool-cases (m.ref i - 1 == 0)) [
  | inl e ↦
      rw e (
        Supply-cons i (Supply-update i _ s (not_free m i s h)) (ground arith) lt (not_free m i s h))
  | inr e ↦ rw e (Supply-update i _ s (not_free m i s h))
]

-- `page_decref` puts no page on the list but its own.
pub released-free :
    (m : Mem) (i j : ℕ) → j ≢ i → has j m.free ≡ false → has j (released i m).free ≡ false
unfolding released
released-free m i j ne h = ground arith

pub NoMore-of_cons : (m m' : Mem) (n : ℕ) → m.free ≡ n ∷ m'.free → NoMore m m'
NoMore-of_cons m m' n e j h =
    let h' : has j (n ∷ m'.free) ≡ false = subst (λ l. has j l ≡ false) e h in ground arith

-- Counting a page that was free leaves the counts of the pages in use.
pub counts-incref :
    (m m' : Mem) (n : ℕ)
    → has n m.free ≡ true
    → m'.ref ≡ m.ref
    → (i : ℕ) → has i m.free ≡ false
    → (incref n m').ref i ≡ m.ref i
unfolding incref
counts-incref m m' n h r i out =
    let ne : i ≢ n = λ e. cc (ap (λ k. has k m.free) e) in rw (← r) (ground arith)

pub ne_of_has : (l : List ℕ) (i n : ℕ) → has n l ≡ true → has i l ≡ false → i ≢ n
ne_of_has l i n h out e = cc (ap (λ k. has k l) e)

pub incref-ref_ne : (m : Mem) (n i : ℕ) → i ≢ n → (incref n m).ref i ≡ m.ref i
unfolding incref
incref-ref_ne m n i ne = ground arith

pub store-NoMore : (m : Mem) (e : Entry) (v : ℕ) → NoMore m (store e v m)
unfolding store
store-NoMore m e v j h = h

pub tlb_log-NoMore : (m : Mem) (f : Flush) → NoMore m (tlb_log f m)
unfolding tlb_log
tlb_log-NoMore m f j h = h

pub free-tlb_log : (m : Mem) (f : Flush) → (tlb_log f m).free ≡ m.free
unfolding tlb_log
free-tlb_log m f = refl
