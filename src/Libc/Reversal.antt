-- ===== src/Libc/Reversal.antt =====
-- The loop of `print_num` of lib/print.c that reverses its buffer.
use mos_riscv.Prelude.{
  ℕ, zero, suc, ◌+◌, ◌-◌, ◌^◌, ◌<◌, ◌≤◌, ◌≡◌, refl, ap, ap₂, ◌∙◌, true, false, ◌&&◌, List, ◌∷◌,
  ◌==◌, ltb, leb, if◌then◌else◌, update, Bool-cases, inl, inr, arith,
}
use native.Mathlib.Decide.{ℕ_discrete}
use mos_riscv.Libc.Number.{reverse, slice}
use mos_riscv.Libc.Digits.{down, update_self}

-- The reversal, element by element.
swapped_end :
    (begin end i : ℕ) (b : ℕ → ℕ)
    → begin < end
    → leb (begin + 1) i && leb i (end - 1) ≡ false
    → update (update b begin (b end)) end (b begin) i
      ≡ (if leb begin i && leb i end then b (begin + (end - i)) else b i)
swapped_end begin end i b lt out = elim (ℕ_discrete i end) [
  | yes e ↦
      let at : begin + (end - end) ≡ begin = omega arith in
      let in_range : leb begin end && leb end end ≡ true = ground arith in
      rw (e, in_range, at) (update_self (update b begin (b end)) end (b begin))
  | no ne ↦ elim (ℕ_discrete i begin) [
    | yes e ↦
        let at : begin + (end - begin) ≡ end = omega arith in
        let in_range : leb begin begin && leb begin end ≡ true = ground arith in
        let other : (begin == end) ≡ false = ground arith in
        rw (e, in_range, at, other) (update_self b begin (b end))
    | no ne' ↦ ground arith
  ]
]

-- Nothing to swap.
same_place :
    (begin end i : ℕ) (b : ℕ → ℕ)
    → end ≤ begin
    → b i ≡ (if leb begin i && leb i end then b (begin + (end - i)) else b i)
same_place begin end i b h = elim (Bool-cases (leb begin i && leb i end)) [
  | inl t ↦ let at : begin + (end - i) ≡ i = ground arith in rw (t, at) refl
  | inr t ↦ rw t refl
]

swapped :
    (begin end i : ℕ) (b : ℕ → ℕ)
    → begin < end
    → (if leb (begin + 1) i && leb i (end - 1)
        then update (update b begin (b end)) end (b begin) (begin + 1 + (end - 1 - i))
        else update (update b begin (b end)) end (b begin) i)
      ≡ (if leb begin i && leb i end then b (begin + (end - i)) else b i)
swapped begin end i b lt = elim (Bool-cases (leb (begin + 1) i && leb i (end - 1))) [
  | inl t ↦
      let shift : begin + 1 + (end - 1 - i) ≡ begin + (end - i) = ground arith in
      rw (t, shift) (ground arith)
  | inr t ↦ rw t (swapped_end begin end i b lt t)
]

reversed :
    (fuel begin end : ℕ) (b : ℕ → ℕ) (i : ℕ)
    → end ≤ begin + fuel
    → end < 2 ^ 31
    → reverse fuel begin end b i ≡ (if leb begin i && leb i end then b (begin + (end - i)) else b i)
unfolding reverse
reversed zero begin end b i h small = same_place begin end i b (omega arith)
reversed (suc fuel) begin end b i h small = elim (Bool-cases (ltb begin end && ltb end (2 ^ 31))) [
  | inl t ↦ rw t (
      reversed fuel (begin + 1) (end - 1) (update (update b begin (b end)) end (b begin)) i
        (omega arith) (omega arith)
      ∙ swapped begin end i b (ground arith))
  | inr t ↦ rw t (same_place begin end i b (ground arith))
]

slice-down :
    (n k : ℕ) (b r : ℕ → ℕ)
    → k ≤ n
    → ((i : ℕ) → i < n → r i ≡ b (n - 1 - i))
    → slice k (n - k) r ≡ down k b
unfolding slice down
slice-down n zero b r h e = refl
slice-down n (suc k) b r h e =
    let next : n - suc k + 1 ≡ n - k = omega arith in
    let last : n - 1 - (n - suc k) ≡ k = omega arith in
    ap₂ (λ (x : ℕ) (xs : List ℕ). x ∷ xs) (e (n - suc k) (omega arith) ∙ ap b last)
      (ap (λ (x : ℕ). slice k x r) next ∙ slice-down n k b r (omega arith) e)

pub slice-reverse :
    (n : ℕ) (b : ℕ → ℕ) → n < 2 ^ 31 → slice n 0 (reverse (n - 1) 0 (n - 1) b) ≡ down n b
slice-reverse n b small =
    let front : 0 ≡ n - n = omega arith in
    ap (λ (x : ℕ). slice n x (reverse (n - 1) 0 (n - 1) b)) front
    ∙ slice-down n n b (reverse (n - 1) 0 (n - 1) b) (omega arith) (λ i lt. mirrored n i b lt small)
  where
    mirrored :
        (n i : ℕ) (b : ℕ → ℕ) → i < n → n < 2 ^ 31 → reverse (n - 1) 0 (n - 1) b i ≡ b (n - 1 - i)
    mirrored n i b lt small =
        let in_range : leb 0 i && leb i (n - 1) ≡ true = ground arith in
        let at : 0 + (n - 1 - i) ≡ n - 1 - i = omega arith in
        reversed (n - 1) 0 (n - 1) b i (omega arith) (omega arith) ∙ rw (in_range, at) refl
