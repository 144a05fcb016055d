-- ===== src/Libc/Copy.antt =====
-- `memcpy`, against a description byte by byte.
use mos_riscv.Prelude.{
  ℕ, zero, suc, ◌+◌, ◌-◌, ◌%◌, ◌<◌, ◌≤◌, ◌≡◌, ◌⊎◌, refl, ◌∙◌, ap, true, not, ◌&&◌, ◌==◌, ltb, leb,
  if◌then◌else◌, Bool-cases, inl, inr, arith,
}
use mos_riscv.Libc.Memory.{
  Memory, Copying, step, align, copy_words, aligned_words, copy_8, copy_4, copy_2, copy_bytes,
  memcpy,
}

-- What memory holds at `a` when `k` bytes have been copied.
unfoldable copied : ℕ → ℕ → ℕ → Memory → ℕ → ℕ
copied k d s m a = if leb d a && ltb a (d + k) then m (s + (a - d)) else m a

-- The objects do not overlap.
abbrev pub Apart : ℕ → ℕ → ℕ → Type 0
Apart d s n = (d + n ≤ s) ⊎ (s + n ≤ d)

-- A copy of `n` bytes from `s` to `d` on its way.
record Progress (d s n : ℕ) (m : Memory) (c : Copying) : Type 0 where
  moved : ℕ
  at_d : c.d ≡ d + moved
  at_s : c.s ≡ s + moved
  left : c.n + moved ≡ n
  bytes : (a : ℕ) → c.mem a ≡ copied moved d s m a

module _ (d s n : ℕ) (m : Memory) (apart : Apart d s n) where
  outside : (k i : ℕ) → k ≤ n → i < n → copied k d s m (s + i) ≡ m (s + i)
  unfolding copied
  outside k i h lt = elim apart [ inl x ↦ ground arith | inr x ↦ ground arith ]

  grown :
      (k w a : ℕ)
      → k + w ≤ n
      → (if leb (d + k) a && ltb a (d + k + w)
          then copied k d s m (s + k + (a - (d + k)))
          else copied k d s m a)
        ≡ copied (k + w) d s m a
  grown k w a h = elim (Bool-cases (leb (d + k) a && ltb a (d + k + w))) [
    | inl new ↦
        let shift : s + k + (a - (d + k)) ≡ s + (a - d) = ground arith in
        let inside : leb d a && ltb a (d + (k + w)) ≡ true = ground arith in
        rw (new, shift, outside k (a - d) (omega arith) (ground arith))
          (unfold copied in rw inside refl)
    | inr old ↦ rw old (unfold copied in ground arith)
  ]

  moved_on :
      (k w to from a : ℕ) (mem : Memory)
      → to ≡ d + k
      → from ≡ s + k
      → k + w ≤ n
      → ((b : ℕ) → mem b ≡ copied k d s m b)
      → (if leb to a && ltb a (to + w) then mem (from + (a - to)) else mem a)
        ≡ copied (k + w) d s m a
  moved_on k w to from a mem t f h same =
      rw (t, f, same (s + k + (a - (d + k))), same a) (grown k w a h)

  step-Progress : (w : ℕ) (c : Copying) → w ≤ c.n → Progress d s n m c → Progress d s n m (step w c)
  unfolding step
  step-Progress w c h p = record {
    moved = p.moved + w;
    at_d = omega (arith, p.at_d);
    at_s = omega (arith, p.at_s);
    left = omega (arith, p.left);
    bytes = λ a. moved_on p.moved w c.d c.s a c.mem p.at_d p.at_s (omega (arith, p.left)) p.bytes;
  }

  align-Progress :
      (w fuel : ℕ) (c : Copying) → Progress d s n m c → Progress d s n m (align w fuel c)
  unfolding align
  align-Progress w zero c p = p
  align-Progress w (suc fuel) c p = elim (Bool-cases (ltb 0 c.n && not (c.s % w == 0))) [
    | inl h ↦ rw h (align-Progress w fuel (step 1 c) (step-Progress 1 c (ground arith) p))
    | inr h ↦ rw h p
  ]

  copy_words-Progress :
      (w fuel : ℕ) (c : Copying) → Progress d s n m c → Progress d s n m (copy_words w fuel c)
  unfolding copy_words
  copy_words-Progress w zero c p = p
  copy_words-Progress w (suc fuel) c p = elim (Bool-cases (leb w c.n)) [
    | inl h ↦ rw h (copy_words-Progress w fuel (step w c) (step-Progress w c (ground arith) p))
    | inr h ↦ rw h p
  ]

  aligned_words-Progress :
      (w : ℕ) (c : Copying) → Progress d s n m c → Progress d s n m (aligned_words w c)
  aligned_words-Progress w c p =
      copy_words-Progress w (align w c.n c).n (align w c.n c) (align-Progress w c.n c p)

  copy_8-Progress : (c : Copying) → Progress d s n m c → Progress d s n m (copy_8 c)
  unfolding copy_8
  copy_8-Progress c p = elim (Bool-cases (c.s % 8 == c.d % 8)) [
    | inl h ↦ rw h (aligned_words-Progress 8 c p)
    | inr h ↦ rw h p
  ]

  copy_4-Progress : (c : Copying) → Progress d s n m c → Progress d s n m (copy_4 c)
  unfolding copy_4
  copy_4-Progress c p = elim (Bool-cases (leb 4 c.n && (c.s % 4 == c.d % 4))) [
    | inl h ↦ rw h (aligned_words-Progress 4 c p)
    | inr h ↦ rw h p
  ]

  copy_2-Progress : (c : Copying) → Progress d s n m c → Progress d s n m (copy_2 c)
  unfolding copy_2
  copy_2-Progress c p = elim (Bool-cases (leb 2 c.n && (c.s % 2 == c.d % 2))) [
    | inr h ↦ rw h p
    | inl h ↦ elim (Bool-cases (not (c.s % 2 == 0) && ltb 0 c.n)) [
      | inl o ↦
          rw (h, o)
            (copy_words-Progress 2 (step 1 c).n (step 1 c) (step-Progress 1 c (ground arith) p))
      | inr o ↦ rw (h, o) (copy_words-Progress 2 c.n c p)
    ]
  ]

  copy_bytes-Progress :
      (fuel : ℕ) (c : Copying) → Progress d s n m c → Progress d s n m (copy_bytes fuel c)
  unfolding copy_bytes
  copy_bytes-Progress zero c p = p
  copy_bytes-Progress (suc fuel) c p = elim (Bool-cases (ltb 0 c.n)) [
    | inl h ↦ rw h (copy_bytes-Progress fuel (step 1 c) (step-Progress 1 c (ground arith) p))
    | inr h ↦ rw h p
  ]

-- The last loop leaves no byte.
n-copy_bytes : (fuel : ℕ) (c : Copying) → c.n ≤ fuel → (copy_bytes fuel c).n ≡ 0
unfolding copy_bytes step
n-copy_bytes zero c h = omega arith
n-copy_bytes (suc fuel) c h = elim (Bool-cases (ltb 0 c.n)) [
  | inl t ↦ rw t (n-copy_bytes fuel (step 1 c) (omega arith))
  | inr t ↦ rw t (ground arith)
]

finished :
    (d s n : ℕ) (m : Memory) (c : Copying) (a : ℕ)
    → c.n ≡ 0
    → Progress d s n m c
    → c.mem a ≡ copied n d s m a
finished d s n m c a z p =
    let e : p.moved ≡ n = omega (arith, p.left) in p.bytes a ∙ ap (λ (k : ℕ). copied k d s m a) e

-- On objects that do not overlap, `memcpy`, which copies words of 8, 4 and 2 bytes where the alignment
-- of both allows it, leaves at the i-th byte of `dest` the i-th byte of `src`, for each i below `n`, and
-- changes no other byte.
pub memcpy-bytes :
    (dest src n : ℕ) (m : Memory)
    → Apart dest src n
    → (a : ℕ)
    → memcpy dest src n m a ≡ (if leb dest a && ltb a (dest + n) then m (src + (a - dest)) else m a)
unfolding memcpy
memcpy-bytes dest src n m apart a =
    let start : Copying = record { d = dest; s = src; n = n; mem = m } in
    let p : Progress dest src n m start = record {
      moved = 0;
      at_d = omega arith;
      at_s = omega arith;
      left = omega arith;
      bytes = λ b. unfold copied in ground arith;
    } in
    let q = copy_2-Progress dest src n m apart (copy_4 (copy_8 start)) (
      copy_4-Progress dest src n m apart (copy_8 start)
        (copy_8-Progress dest src n m apart start p)) in
    let c = copy_2 (copy_4 (copy_8 start)) in
    finished dest src n m (copy_bytes c.n c) a (n-copy_bytes c.n c (omega arith))
      (copy_bytes-Progress dest src n m apart c.n c q)
    ∙ unfold copied in refl
