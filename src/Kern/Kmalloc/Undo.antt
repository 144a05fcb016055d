-- ===== src/Kern/Kmalloc/Undo.antt =====
-- Freeing what was just allocated gives the heap back as it was.
use mos_riscv.Prelude.{
  ℕ, ◌+◌, ◌-◌, ◌^◌, ◌≡◌, ◌<◌, ◌≤◌, refl, true, false, ◌&&◌, some, List, [], ◌∷◌, arith, Bool-cases,
  inl, inr, ◌==◌, ltb, ap, ◌∙◌,
}
use mos_riscv.Kern.Kmalloc.Tiling.{Tiles, Tiles-le, starts_free, IsHeap, Carved, here, there}
use mos_riscv.Kern.Kmalloc.Defs.{
  Block, take_block, join_next, join_prev, free_after, free_in, find_header, mblock_size, add64,
}

-- The block that was carved stands at or after the start.
pub Carved-le :
    (size a e : ℕ) {bs : List Block} {p : ℕ} {bs' : List Block}
    → Carved size bs p bs'
    → Tiles a e bs
    → (a + mblock_size ≤ p) × (p ≤ e)
Carved-le size a e (here b bs f le q r) t =
    let top = Tiles-le (a + mblock_size + b.size) e bs t.3 in (omega arith, omega arith)
Carved-le size a e (there b x c r) t =
    let k = Carved-le size (a + mblock_size + b.size) e c t.3 in (omega arith, k.1)

-- A block that is not free and gets its old size back is what it was.
restored : (b : Block) (n : ℕ) → b.free ≡ true → n ≡ b.size → record b { size = n; free = true } ≡ b
restored b n f q = ground arith

join_next_whole :
    (b : Block) (n : ℕ) (bs : List Block)
    → starts_free bs ≡ false
    → join_next (record b { size = n; free = false }) bs ≡ record b { size = n; free = true } ∷ bs
unfolding join_next
join_next_whole b n [] s = refl
join_next_whole b n (c ∷ bs) s = rw s refl

-- The head of the carved list, and what joining it back gives.
take_block-joined :
    (size : ℕ) (b : Block) (bs : List Block)
    → b.free ≡ true
    → starts_free bs ≡ false
    → size ≤ b.size
    → b.size < 2 ^ 64
    → (c : Block) × (rest : List Block) × (take_block size b bs ≡ c ∷ rest)
      × (join_next c rest ≡ b ∷ bs)
      × (c.addr ≡ b.addr)
      × (c.ptr ≡ b.ptr)
unfolding take_block join_next
take_block-joined size b bs f s le small =
    elim (Bool-cases (ltb (b.size - size) (mblock_size + 8))) [
      | inl x ↦
          let n = size + (b.size - size) in
          (
            record b { size = n; free = false },
            bs,
            rw x,
            join_next_whole b n bs s ∙ ap (λ y. y ∷ bs) (restored b n f (omega arith)),
            refl,
            refl,
          )
      | inr x ↦
          let adr = add64 (add64 b.addr mblock_size) size in
          let rem : Block = record {
            addr = adr;
            size = b.size - size - mblock_size;
            ptr = add64 adr mblock_size;
            free = true;
          } in
          let over : mblock_size + 8 ≤ b.size - size = ground arith in
          (
            record b { size = size; free = false },
            rem ∷ bs,
            rw x,
            ap (λ y. y ∷ bs)
                (restored b (add64 size (add64 (b.size - size - mblock_size) mblock_size)) f
                  (omega arith)),
            refl,
            refl,
          )
    ]

-- The same at the head of a list and behind a block that is in use.
free_after-Carved :
    (size a e : ℕ) {bs : List Block} {p : ℕ} {bs' : List Block} (prev : Block)
    → Carved size bs p bs'
    → e < 2 ^ 64
    → IsHeap a e bs
    → (prev.free && starts_free bs) ≡ false
    → free_after (p - mblock_size) prev bs' ≡ some (prev ∷ bs)
unfolding free_after join_prev
free_after-Carved size a e {p} prev (here b bs f le q r) small h out =
    let t = h.tiles in
    let top = Tiles-le (a + mblock_size + b.size) e bs t.3 in
    let quiet : starts_free bs ≡ false = rw f at h.coalesced.0 in
    let (c, rest, made, back, at_c, _) = take_block-joined size b bs f quiet le (omega arith) in
    let used : prev.free ≡ false = ground arith in
    let hit : (c.addr == p - mblock_size) ≡ true = ground arith in rw (r, made, hit, back, used)
free_after-Carved size a e {p} prev (there b {bs} {bs1} x c r) small h out =
    let t = h.tiles in
    let low = Carved-le size (a + mblock_size + b.size) e c t.3 in
    let miss : (b.addr == p - mblock_size) ≡ false = ground arith in
    let below : IsHeap (a + mblock_size + b.size) e bs = record {
      tiles = t.3;
      coalesced = h.coalesced.1;
    } in
    rw (r, miss, free_after-Carved size (a + mblock_size + b.size) e b c small below h.coalesced.0)

-- `free_in` undoes a search.
pub free_in-Carved :
    (size a e : ℕ) {bs : List Block} {p : ℕ} {bs' : List Block}
    → Carved size bs p bs'
    → e < 2 ^ 64
    → IsHeap a e bs
    → free_in (p - mblock_size) bs' ≡ some bs
unfolding free_in
free_in-Carved size a e {p} (here b bs f le q r) small h =
    let t = h.tiles in
    let top = Tiles-le (a + mblock_size + b.size) e bs t.3 in
    let quiet : starts_free bs ≡ false = rw f at h.coalesced.0 in
    let (c, rest, made, back, at_c, _) = take_block-joined size b bs f quiet le (omega arith) in
    let hit : (c.addr == p - mblock_size) ≡ true = ground arith in rw (r, made, hit, back)
free_in-Carved size a e {p} (there b {bs} {bs1} x c r) small h =
    let t = h.tiles in
    let low = Carved-le size (a + mblock_size + b.size) e c t.3 in
    let miss : (b.addr == p - mblock_size) ≡ false = ground arith in
    let below : IsHeap (a + mblock_size + b.size) e bs = record {
      tiles = t.3;
      coalesced = h.coalesced.1;
    } in
    rw (r, miss, free_after-Carved size (a + mblock_size + b.size) e b c small below h.coalesced.0)

-- The header that `kfree` finds is sound.
pub find_header-Carved :
    (size a e : ℕ) {bs : List Block} {p : ℕ} {bs' : List Block}
    → Carved size bs p bs'
    → e < 2 ^ 64
    → IsHeap a e bs
    → (b : Block) × (find_header (p - mblock_size) bs' ≡ some b)
      × ((b.ptr == add64 b.addr mblock_size) ≡ true)
unfolding find_header
find_header-Carved size a e {p} (here b bs f le q r) small h =
    let t = h.tiles in
    let top = Tiles-le (a + mblock_size + b.size) e bs t.3 in
    let quiet : starts_free bs ≡ false = rw f at h.coalesced.0 in
    let (c, rest, made, back, at_c, ptr_c) = take_block-joined size b bs f quiet le (omega arith) in
    let hit : (c.addr == p - mblock_size) ≡ true = ground arith in
    (c, rw (r, made, hit), ground arith)
find_header-Carved size a e {p} (there b {bs} {bs1} x c r) small h =
    let t = h.tiles in
    let low = Carved-le size (a + mblock_size + b.size) e c t.3 in
    let miss : (b.addr == p - mblock_size) ≡ false = ground arith in
    let below : IsHeap (a + mblock_size + b.size) e bs = record {
      tiles = t.3;
      coalesced = h.coalesced.1;
    } in
    let (d, found, sound) = find_header-Carved size (a + mblock_size + b.size) e c small below in
    (d, rw (r, miss, found), sound)
