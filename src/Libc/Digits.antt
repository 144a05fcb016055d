-- ===== src/Libc/Digits.antt =====
-- The digits that `print_num` of lib/print.c writes, and `parse_number` of lib/string.c on them.
use mos_riscv.Prelude.{
  ℕ, zero, suc, ◌+◌, ◌*◌, ◌/◌, ◌%◌, ◌^◌, ◌<◌, ◌≤◌, ◌≡◌, refl, sym, ap, ap₂, ◌∙◌, Bool, true, false,
  some, List, [], ◌∷◌, ◌==◌, update, Bool-cases, inl, inr, arith,
}
use mathlib.Core.Path.{subst}
use native.Mathlib.Decide.{ℕ_discrete}
use native.Mathlib.Nat.{pow-suc, pow-zero, mod-add-div', mod-lt, div-lt_iff_lt-mul}
use mos_riscv.Libc.Number.{
  digit_of, fits, value_of, parse_from, digit_char, Buffer, put_char, put_digits, pad,
}

digit_of-digit_char : (up : Bool) (d : ℕ) → d < 36 → digit_of (digit_char up d) ≡ some d
unfolding digit_of digit_char
digit_of-digit_char true d h = ground arith
digit_of-digit_char false d h = ground arith

pub digit_value : ℕ → ℕ
digit_value c = value_of (digit_of c)

-- A character that is a digit in `base`.
pub IsDigit : ℕ → ℕ → Type 0
IsDigit base c = (fits base (digit_of c) ≡ true) × (digit_value c < base)

-- The number whose digits are the first `k` characters, the last one first.
unfoldable pub value : ℕ → ℕ → (ℕ → ℕ) → ℕ
value base zero b = 0
value base (suc k) b = value base k b + digit_value (b k) * base ^ k

abbrev pub AreDigits : ℕ → ℕ → (ℕ → ℕ) → Type 0
AreDigits base k b = (i : ℕ) → i < k → IsDigit base (b i)

pow_pos : (base k : ℕ) → 0 < base → 0 < base ^ k
pow_pos base zero pos = omega (arith, pow-zero base)
pow_pos base (suc k) pos =
    omega (arith, pow-suc base k, mul_pos base (base ^ k) pos (pow_pos base k pos))
  where
    mul_pos : (a b : ℕ) → 0 < a → 0 < b → 0 < a * b
    mul_pos (suc a) (suc b) p q = omega arith
    mul_pos zero b p q = absurd (omega arith)
    mul_pos (suc a) zero p q = absurd (omega arith)

-- The first `k` characters, from the last one down.
unfoldable pub down : ℕ → (ℕ → ℕ) → List ℕ
down zero b = []
down (suc k) b = b k ∷ down k b

parse_digit :
    (base acc c : ℕ) (str : List ℕ)
    → IsDigit base c
    → acc * base + digit_value c < 2 ^ 32
    → parse_from base acc (c ∷ str) ≡ parse_from base (acc * base + digit_value c) str
unfolding parse_from IsDigit digit_value
parse_digit base acc c str h small =
    let same : (acc * base + value_of (digit_of c)) % 2 ^ 32 ≡ acc * base + value_of (digit_of c) =
      omega arith in
    rw (h.0, same) refl

grows : (acc base d P : ℕ) → 0 < P → acc * base + d ≤ acc * (P * base) + d * P
grows acc base d zero pos = absurd (omega arith)
grows acc base d (suc P) pos = omega arith

pub parse_from-down :
    (base k acc : ℕ) (b : ℕ → ℕ)
    → 0 < base
    → AreDigits base k b
    → acc * base ^ k + value base k b < 2 ^ 32
    → parse_from base acc (down k b) ≡ (acc * base ^ k + value base k b, [])
unfolding down value
parse_from-down base zero acc b pos h small =
    let one : acc ≡ acc * 1 + 0 = omega arith in
    let e : acc ≡ acc * base ^ 0 + 0 = one ∙ ap (λ (x : ℕ). acc * x + 0) (sym (pow-zero base)) in
    unfold parse_from in ap (λ (x : ℕ). (x, [])) e
parse_from-down base (suc k) acc b pos h small =
    let d = digit_value (b k) in
    let P : acc * base ^ suc k ≡ acc * (base ^ k * base) =
      ap (λ (x : ℕ). acc * x) (pow-suc base k) in
    let same : acc * base ^ suc k + value base (suc k) b
        ≡ (acc * base + d) * base ^ k + value base k b =
      omega (arith, P) in
    let low : acc * base + d < 2 ^ 32 =
      omega (arith, grows acc base d (base ^ k) (pow_pos base k pos), same) in
    (parse_digit base acc (b k) (down k b) (h k (omega arith)) low)
    ∙ parse_from-down base k (acc * base + d) b pos (λ i lt. h i (omega arith))
        (subst (λ x. x < 2 ^ 32) same small)
    ∙ ap (λ (x : ℕ). (x, [])) (sym same)

-- The value reads the first `k` characters only.
value-same :
    (base k : ℕ) (b b' : ℕ → ℕ) → ((i : ℕ) → i < k → b' i ≡ b i) → value base k b' ≡ value base k b
unfolding value
value-same base zero b b' h = refl
value-same base (suc k) b b' h =
    rw (h k (omega arith), value-same base k b b' (λ i lt. h i (omega arith))) refl

update_other : (b : ℕ → ℕ) (p c i : ℕ) → i < p → update b p c i ≡ b i
update_other b p c i lt = ground arith

pub update_self : (b : ℕ → ℕ) (p c : ℕ) → update b p c p ≡ c
update_self b p c = ground arith

digit_char-IsDigit :
    (base d : ℕ) (up : Bool)
    → base ≤ 36
    → d < base
    → IsDigit base (digit_char up d) × (digit_value (digit_char up d) ≡ d)
unfolding IsDigit digit_value
digit_char-IsDigit base d up le lt =
    rw (digit_of-digit_char up d (omega arith)) ((ground arith, lt), refl)

-- A buffer that holds the digits of `v`, and at least one.
pub record Holds (base v : ℕ) (b : Buffer) : Type 0 where
  pub digits : AreDigits base b.p b.buf
  pub total : value base b.p b.buf ≡ v
  some_digit : 0 < b.p

Holds-same : (base v w : ℕ) (b : Buffer) → v ≡ w → Holds base v b → Holds base w b
Holds-same base v w b e h = record {
  digits = h.digits;
  total = h.total ∙ e;
  some_digit = h.some_digit;
}

-- A number is its last digit and the others.
last_digit : (u base v P : ℕ) → v + (u % base) * P + u / base * (P * base) ≡ v + u * P
last_digit u base v P =
    let e : v + (u % base) * P + u / base * (P * base) ≡ v + (u % base + u / base * base) * P =
      omega arith in
    e ∙ ap (λ (x : ℕ). v + x * P) (mod-add-div' u base)

ended : (u base v P : ℕ) → (u / base == 0) ≡ true → v + (u % base) * P ≡ v + u * P
ended u base v P z =
    let q : u / base ≡ 0 = ground arith in
    let last : v + (u % base) * P + u / base * (P * base) ≡ v + (u % base) * P =
      rw q (omega arith) in
    sym last ∙ last_digit u base v P

times_two : (P base : ℕ) → 2 ≤ base → P * 2 ≤ P * base
times_two P zero h = absurd (omega arith)
times_two P (suc zero) h = absurd (omega arith)
times_two P (suc (suc c)) h = omega arith

fewer_digits : (u base n : ℕ) → 2 ≤ base → u < 2 ^ suc n → u / base < 2 ^ n
fewer_digits u base n two h =
    (div-lt_iff_lt-mul (omega arith)).1 (omega (arith, h, pow-suc 2 n, times_two (2 ^ n) base two))

some_fuel : (fuel x : ℕ) → x < 2 ^ fuel → (x == 0) ≡ false → 0 < fuel
some_fuel zero x h nz = absurd (ground (arith, pow-zero 2))
some_fuel (suc fuel) x h nz = omega arith

module _ (base : ℕ) (up : Bool) (two : 2 ≤ base) (le : base ≤ 36) where
  -- One more digit.
  put_AreDigits :
      (d : ℕ) (b : Buffer)
      → d < base
      → AreDigits base b.p b.buf
      → AreDigits base (suc b.p) (put_char (digit_char up d) b).buf
  unfolding put_char
  put_AreDigits d b lt h i less = elim (ℕ_discrete i b.p) [
    | yes e ↦ rw (e, update_self b.buf b.p (digit_char up d)) (digit_char-IsDigit base d up le lt).0
    | no ne ↦ rw (update_other b.buf b.p (digit_char up d) i (omega arith)) (h i (omega arith))
  ]

  put_value :
      (d : ℕ) (b : Buffer)
      → d < base
      → value base (suc b.p) (put_char (digit_char up d) b).buf
        ≡ value base b.p b.buf + d * base ^ b.p
  unfolding put_char value
  put_value d b lt =
      ap₂ (λ x y. x + y * base ^ b.p)
        (value-same base b.p b.buf (update b.buf b.p (digit_char up d))
          (update_other b.buf b.p (digit_char up d)))
        (ap digit_value (update_self b.buf b.p (digit_char up d))
          ∙ (digit_char-IsDigit base d up le lt).1)

  put_Holds :
      (d : ℕ) (b : Buffer)
      → d < base
      → AreDigits base b.p b.buf
      → Holds base (value base b.p b.buf + d * base ^ b.p) (put_char (digit_char up d) b)
  put_Holds d b lt h = record {
    digits = unfold put_char in put_AreDigits d b lt h;
    total = unfold put_char in put_value d b lt;
    some_digit = unfold put_char in omega arith;
  }

  power : (b : Buffer) (c : ℕ) → base ^ (put_char c b).p ≡ base ^ b.p * base
  unfolding put_char
  power b c = pow-suc base b.p

  -- What the loop has written when it ends: the digits of `u` behind what stood there.
  pub put_digits-Holds :
      (fuel u : ℕ) (b : Buffer)
      → 0 < fuel
      → u < 2 ^ fuel
      → AreDigits base b.p b.buf
      → Holds base (value base b.p b.buf + u * base ^ b.p) (put_digits fuel base up u b)
  unfolding put_digits
  put_digits-Holds zero u b pos small h = absurd (omega arith)
  put_digits-Holds (suc fuel) u b pos small h =
      let lt : u % base < base = mod-lt u (omega arith) in
      let b' = put_char (digit_char up (u % base)) b in
      let q = put_Holds (u % base) b lt h in
      let sum = last_digit u base (value base b.p b.buf) (base ^ b.p) in
      elim (Bool-cases (u / base == 0)) [
        | inl z ↦
            rw z (Holds-same base _ _ b' (ended u base (value base b.p b.buf) (base ^ b.p) z) q)
        | inr nz ↦ rw nz (
            Holds-same base _ _ (put_digits fuel base up (u / base) b')
              (ap₂ (λ x y. x + u / base * y) q.total (power b (digit_char up (u % base))) ∙ sum)
              (put_digits-Holds fuel (u / base) b'
                (some_fuel fuel (u / base) (fewer_digits u base fuel two small) nz)
                (fewer_digits u base fuel two small) q.digits))
      ]

-- A zero behind the digits.
module _ (base : ℕ) (two : 2 ≤ base) where
  zero-IsDigit : IsDigit base 0x30
  zero-IsDigit = unfold IsDigit digit_value digit_of in (ground arith, omega arith)

  zero_value : digit_value 0x30 ≡ 0
  zero_value = unfold digit_value digit_of in refl

  zero_AreDigits :
      (k : ℕ) (b : ℕ → ℕ) → AreDigits base k b → AreDigits base (suc k) (update b k 0x30)
  zero_AreDigits k b h i less = elim (ℕ_discrete i k) [
    | yes e ↦ rw (e, update_self b k 0x30) zero-IsDigit
    | no ne ↦ rw (update_other b k 0x30 i (omega arith)) (h i (omega arith))
  ]

  value-zero : (k : ℕ) (b : ℕ → ℕ) → value base (suc k) (update b k 0x30) ≡ value base k b
  unfolding value
  value-zero k b =
      ap₂ (λ x y. x + y * base ^ k) (value-same base k b (update b k 0x30) (update_other b k 0x30))
        (ap digit_value (update_self b k 0x30) ∙ zero_value)
      ∙ omega arith

  -- Zeros behind the digits, which come in front when the text is reversed, do not change the number.
  pub pad-value :
      (v count k n : ℕ) (b : ℕ → ℕ)
      → n ≡ k + count
      → AreDigits base k b
      → value base k b ≡ v
      → AreDigits base n (pad count k 0x30 b) × (value base n (pad count k 0x30 b) ≡ v)
  unfolding pad
  pad-value v zero k n b t h e =
      let same : n ≡ k = omega arith in
      (λ i less. h i (omega arith), ap (λ (x : ℕ). value base x b) same ∙ e)
  pad-value v (suc count) k n b t h e =
      pad-value v count (suc k) n (update b k 0x30) (omega arith) (zero_AreDigits k b h)
        (value-zero k b ∙ e)
