-- ===== src/Kern/Kmalloc/Joining.antt =====
-- `kfree` keeps the tiling, and joins what it frees with its neighbours.
use mos_riscv.Prelude.{
  ℕ, ◌+◌, ◌%◌, ◌^◌, ◌≡◌, ◌<◌, refl, true, some, List, [], ◌∷◌, arith, Bool-cases, Option-cases, inl,
  inr, ◌==◌,
}
use mos_riscv.Kern.Kmalloc.Tiling.{Tiles, Tiles-le, Tiles-at, starts_free, IsCoalesced, IsHeap}
use mos_riscv.Kern.Kmalloc.Defs.{
  Block, join_next, join_prev, free_after, free_in, mblock_size, add64,
}

-- Two neighbouring tiles as one.
Tiles-joined :
    (a e : ℕ) (b n : Block) (bs : List Block)
    → e < 2 ^ 64
    → Tiles a e (b ∷ n ∷ bs)
    → (add64 b.size (add64 n.size mblock_size) % 8 ≡ 0)
      × Tiles (a + mblock_size + add64 b.size (add64 n.size mblock_size)) e bs
Tiles-joined a e b n bs small t =
    let top = Tiles-le (a + mblock_size + b.size + mblock_size + n.size) e bs t.3.3 in
    (
      omega arith,
      Tiles-at (a + mblock_size + b.size + mblock_size + n.size) _ e bs t.3.3 (omega arith),
    )

join_next-IsHeap :
    (a e : ℕ) (b : Block) (bs : List Block)
    → e < 2 ^ 64
    → IsHeap a e (b ∷ bs)
    → IsHeap a e (join_next b bs) × (starts_free (join_next b bs) ≡ true)
unfolding join_next
join_next-IsHeap a e b [] small h = (record { tiles = h.tiles; coalesced = (refl, tt) }, refl)
join_next-IsHeap a e b (n ∷ bs) small h =
    let t = h.tiles in
    let c = h.coalesced in
    elim (Bool-cases n.free) [
      | inl x ↦
          let j = Tiles-joined a e b n bs small t in
          rw x (record { tiles = (t.0, t.1, j.0, j.1); coalesced = (rw x at c.1.0, c.1.1) }, refl)
      | inr x ↦ rw x (record { tiles = t; coalesced = (refl, (refl, c.1.1)) }, refl)
    ]

join_prev-IsHeap :
    (a e : ℕ) (prev : Block) (l : List Block)
    → e < 2 ^ 64
    → Tiles a e (prev ∷ l)
    → IsCoalesced l
    → starts_free l ≡ true
    → IsHeap a e (join_prev prev l) × (starts_free (join_prev prev l) ≡ prev.free)
unfolding join_prev
join_prev-IsHeap a e prev [] small t c f = cc f
join_prev-IsHeap a e prev (b ∷ bs) small t c f = elim (Bool-cases prev.free) [
  | inl x ↦
      let j = Tiles-joined a e prev b bs small t in
      rw x (record { tiles = (t.0, t.1, j.0, j.1); coalesced = (rw f at c.0, c.1) }, refl)
  | inr x ↦ rw x (record { tiles = t; coalesced = (refl, c) }, refl)
]

free_after-IsHeap :
    (adr a e : ℕ) (prev : Block) (bs bs' : List Block)
    → e < 2 ^ 64
    → IsHeap a e (prev ∷ bs)
    → free_after adr prev bs ≡ some bs'
    → IsHeap a e bs' × (starts_free bs' ≡ prev.free)
unfolding free_after
free_after-IsHeap adr a e prev [] bs' small h q = absurd (ground arith)
free_after-IsHeap adr a e prev (b ∷ bs) bs' small h q =
    let t = h.tiles in
    let below : IsHeap (a + mblock_size + prev.size) e (b ∷ bs) = record {
      tiles = t.3;
      coalesced = h.coalesced.1;
    } in
    elim (Bool-cases (b.addr == adr)) [
      | inl x ↦
          let (j, f) = join_next-IsHeap (a + mblock_size + prev.size) e b bs small below in
          let same : bs' ≡ join_prev prev (join_next b bs) = ground arith in
          rw same (
            join_prev-IsHeap a e prev (join_next b bs) small (t.0, t.1, t.2, j.tiles) j.coalesced f)
      | inr x ↦ elim (Option-cases (free_after adr b bs)) [
        | inl n ↦ absurd (ground arith)
        | inr (bs1, s) ↦
            let (k, f) =
              free_after-IsHeap adr (a + mblock_size + prev.size) e b bs bs1 small below s in
            let same : bs' ≡ prev ∷ bs1 = ground arith in
            rw same (
              record {
                tiles = (t.0, t.1, t.2, k.tiles);
                coalesced = (rw f h.coalesced.0, k.coalesced);
              },
              refl,
            )
      ]
    ]

-- Freeing keeps the tiling and leaves no two free neighbours.
pub free_in-IsHeap :
    (adr a e : ℕ) (bs bs' : List Block)
    → e < 2 ^ 64
    → IsHeap a e bs
    → free_in adr bs ≡ some bs'
    → IsHeap a e bs'
unfolding free_in
free_in-IsHeap adr a e [] bs' small h q = absurd (ground arith)
free_in-IsHeap adr a e (b ∷ bs) bs' small h q = elim (Bool-cases (b.addr == adr)) [
  | inl x ↦
      let same : bs' ≡ join_next b bs = ground arith in
      rw same (join_next-IsHeap a e b bs small h).0
  | inr x ↦ (free_after-IsHeap adr a e b bs bs' small h (rw x at q)).0
]
