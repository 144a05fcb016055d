-- ===== src/Libc/RoundTrip.antt =====
-- `parse_number` of lib/string.c reads what `print_num` of lib/print.c prints.
use mos_riscv.Prelude.{
  ℕ, zero, suc, ◌/◌, ◌%◌, ◌==◌, Bool-cases, inl, inr, ◌+◌, ◌-◌, ◌*◌, ◌^◌, ◌<◌, ◌≤◌, ◌≡◌, ap, ◌∙◌,
  max, Bool, false, [], arith,
}
use native.Mathlib.Nat.{pow-zero}
use mos_riscv.Libc.Number.{
  parse_number, reverse, slice, digit_char, put_char, Buffer, put_digits, pad, pad_number,
  print_num,
}
use mos_riscv.Libc.Digits.{value, AreDigits, down, parse_from-down, put_digits-Holds, pad-value}
use mos_riscv.Libc.Reversal.{slice-reverse}

-- `print_num` of a number that is not negative, padded with zeros on the left or not at all, prints the
-- digits of a buffer downwards.
zero_padded : ℕ → Bool → ℕ → ℕ → (ℕ → ℕ) → Buffer
zero_padded base up u length buf =
    let b = put_digits 64 base up u (record { p = 0; buf = buf }) in
    record { p = max length b.p; buf = pad (max length b.p - b.p) b.p 0x30 b.buf }

-- The digits take at most a round each.
put_digits-count :
    (fuel base : ℕ) (up : Bool) (u : ℕ) (b : Buffer) → (put_digits fuel base up u b).p ≤ b.p + fuel
unfolding put_digits put_char
put_digits-count zero base up u b = omega arith
put_digits-count (suc fuel) base up u b = elim (Bool-cases (u / base == 0)) [
  | inl z ↦ rw z (omega arith)
  | inr nz ↦
      let b' = put_char (digit_char up (u % base)) b in
      rw nz (omega (arith, put_digits-count fuel base up (u / base) b'))
]

zero_padded-width :
    (u base length : ℕ) (up : Bool) (buf : ℕ → ℕ)
    → length < 2 ^ 31
    → (zero_padded base up u length buf).p < 2 ^ 31
unfolding zero_padded
zero_padded-width u base length up buf small =
    let c = put_digits-count 64 base up u (record { p = 0; buf = buf }) in ground (arith, c)

print_num-down :
    (u base length : ℕ) (up : Bool) (buf : ℕ → ℕ)
    → length < 2 ^ 31
    → let b = zero_padded base up u length buf in
      print_num u base false length false 0x30 up buf ≡ down b.p b.buf
unfolding print_num pad_number zero_padded
print_num-down u base length up buf small =
    let b = zero_padded base up u length buf in
    let lt = zero_padded-width u base length up buf small in
    let e : (b.p - 1) % 2 ^ 32 ≡ b.p - 1 = omega arith in
    ap (λ (x : ℕ). slice b.p 0 (reverse x 0 x b.buf)) e ∙ slice-reverse b.p b.buf lt

zero_padded-value :
    (u base length : ℕ) (up : Bool) (buf : ℕ → ℕ)
    → 2 ≤ base
    → base ≤ 36
    → u < 2 ^ 64
    → let b = zero_padded base up u length buf in
      AreDigits base b.p b.buf × (value base b.p b.buf ≡ u)
unfolding zero_padded
zero_padded-value u base length up buf two le small =
    let start : Buffer = record { p = 0; buf = buf } in
    let q =
      put_digits-Holds base up two le 64 u start (omega arith) small
        (λ i lt. absurd (omega arith)) in
    let b = put_digits 64 base up u start in
    pad-value base two u (max length b.p - b.p) b.p (max length b.p) b.buf (omega arith) q.digits
      (q.total ∙ whole)
  where
    whole : value base 0 buf + u * base ^ 0 ≡ u
    whole = unfold value in ap (λ (x : ℕ). 0 + u * x) (pow-zero base) ∙ omega arith

-- For a base from 2 to 36, a number below 2 ^ 31 and a width below 2 ^ 31: `parse_number` reads the text that `print_num`
-- prints for it, padded to that width with zeros in front and in letters of either case, to the end, and gives
-- back the number.
pub parse_number-print_num :
    (u base length : ℕ) (up : Bool) (buf : ℕ → ℕ)
    → 2 ≤ base
    → base ≤ 36
    → u < 2 ^ 31
    → length < 2 ^ 31
    → parse_number base (print_num u base false length false 0x30 up buf) ≡ (u, [])
unfolding parse_number
parse_number-print_num u base length up buf two le small short =
    let b = zero_padded base up u length buf in
    let (digits, total) = zero_padded-value u base length up buf two le (omega arith) in
    let sum : 0 * base ^ b.p + value base b.p b.buf ≡ u = omega arith ∙ total in
    rw (print_num-down u base length up buf short) (
      parse_from-down base b.p 0 b.buf (omega arith) digits (omega arith)
      ∙ ap (λ (x : ℕ). (x, [])) sum)
