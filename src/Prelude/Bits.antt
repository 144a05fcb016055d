-- ===== src/Prelude/Bits.antt =====
-- Laws of `&` and `|` at variables, from the recursion on binary digits.
use Prim.Native.Nat.{
  ℕ, zero, suc, ◌+◌, ◌-◌, ◌*◌, ◌/◌, ◌%◌, ◌^◌, ◌≤◌, ◌<◌, min, max, bit_and, bit_or, digits,
  bit_and-bitwise, bit_or-bitwise,
}
use mathlib.Core.Path.{◌≡◌, refl, ap, ◌∙◌}
use native.Mathlib.Decide.{ℕ_discrete}
use native.Mathlib.Omega.{arith}
use native.Mathlib.Nat.{pow-suc}
use mos_riscv.Prelude.Tests.{◌==◌, if◌then◌else◌}

-- More rounds than `x` change nothing in the recursion over the digits of `x` and `y`.
module _ (base : ℕ → ℕ) (op : ℕ → ℕ → ℕ) where
  digits-rounds : (x y k l : ℕ) → x ≤ k → x ≤ l → digits base op k x y ≡ digits base op l x y
  digits-rounds zero y zero zero le le' = refl
  digits-rounds zero y zero (suc l) le le' = refl
  digits-rounds zero y (suc k) zero le le' = refl
  digits-rounds zero y (suc k) (suc l) le le' = refl
  digits-rounds (suc x) y zero l le le' = absurd (omega arith)
  digits-rounds (suc x) y (suc k) zero le le' = absurd (omega arith)
  digits-rounds (suc x) y (suc k) (suc l) le le' =
      ap (λ (t : ℕ). t * 2 + op (suc x % 2) (y % 2))
        (digits-rounds (suc x / 2) (y / 2) k l (omega arith) (omega arith))

-- `&` and `|` digit by digit.
bit_and_step : (x y : ℕ) → bit_and x y ≡ min (x % 2) (y % 2) + 2 * bit_and (x / 2) (y / 2)
bit_and_step zero y = omega (arith, bit_and-bitwise 0 y, bit_and-bitwise 0 (y / 2))
bit_and_step (suc x) y =
    let rounds =
      digits-rounds (λ t. zero) min (suc x / 2) (y / 2) x (suc x / 2) (omega arith) (omega arith) in
    omega (arith, rounds, bit_and-bitwise (suc x / 2) (y / 2), bit_and-bitwise (suc x) y)

bit_or_step : (x y : ℕ) → bit_or x y ≡ max (x % 2) (y % 2) + 2 * bit_or (x / 2) (y / 2)
bit_or_step zero y = omega (arith, bit_or-bitwise 0 y, bit_or-bitwise 0 (y / 2))
bit_or_step (suc x) y =
    let rounds =
      digits-rounds (λ t. t) max (suc x / 2) (y / 2) x (suc x / 2) (omega arith) (omega arith) in
    omega (arith, rounds, bit_or-bitwise (suc x / 2) (y / 2), bit_or-bitwise (suc x) y)

with_zero : (n x : ℕ) → x < n → (bit_and x 0 ≡ 0) × (bit_or x 0 ≡ x)
with_zero zero x lt = absurd (omega arith)
with_zero (suc n) zero lt = (refl, refl)
with_zero (suc n) (suc x) lt =
    let half = with_zero n (suc x / 2) (omega arith) in
    (omega (arith, half.0, bit_and_step (suc x) 0), omega (arith, half.1, bit_or_step (suc x) 0))

bit_and-zero : (x : ℕ) → bit_and x 0 ≡ 0
bit_and-zero x = (with_zero (suc x) x (omega arith)).0

bit_or-zero : (x : ℕ) → bit_or x 0 ≡ x
bit_or-zero x = (with_zero (suc x) x (omega arith)).1

and-half : (a b : ℕ) → bit_and a b / 2 ≡ bit_and (a / 2) (b / 2)
and-half a b = omega (arith, bit_and_step a b)

or-half : (a b : ℕ) → bit_or a b / 2 ≡ bit_or (a / 2) (b / 2)
or-half a b = omega (arith, bit_or_step a b)

half-pow : (k : ℕ) → 2 ^ suc k / 2 ≡ 2 ^ k
half-pow k = omega (arith, pow-suc 2 k)

half-complement : (n a : ℕ) → a < 2 ^ suc n → (2 ^ suc n - 1 - a) / 2 ≡ 2 ^ n - 1 - a / 2
half-complement n a h = omega (arith, pow-suc 2 n)

-- Setting the lowest digit.
pub bit_or-one : (a : ℕ) → bit_or a 1 ≡ a / 2 * 2 + 1
bit_or-one a = omega (arith, bit_or_step a 1, bit_or-zero (a / 2))

-- The binary digit of weight 2^k.
pub bit : ℕ → ℕ → ℕ
bit a zero = a % 2
bit a (suc k) = bit (a / 2) k

pub bit-le : (a k : ℕ) → bit a k ≤ 1
unfolding bit
bit-le a zero = omega arith
bit-le a (suc k) = bit-le (a / 2) k

bit-zero : (k : ℕ) → bit 0 k ≡ 0
unfolding bit
bit-zero zero = refl
bit-zero (suc k) = bit-zero k

-- `a & (1 << k)` is the digit in its place.
bit_and-pow : (a k : ℕ) → bit_and a (2 ^ k) ≡ bit a k * 2 ^ k
unfolding bit
bit_and-pow a zero = omega (arith, bit_and_step a 1, bit_and-zero (a / 2))
bit_and-pow a (suc k) = omega (
  arith,
  bit_and_step a (2 ^ suc k),
  pow-suc 2 k,
  ap (λ (t : ℕ). bit_and (a / 2) t) (half-pow k),
  bit_and-pow (a / 2) k,
  ap (λ (t : ℕ). bit (a / 2) k * t) (pow-suc 2 k),
)

pub bit-bit_and : (a b k : ℕ) → bit (bit_and a b) k ≡ min (bit a k) (bit b k)
unfolding bit
bit-bit_and a b zero = omega (arith, bit_and_step a b)
bit-bit_and a b (suc k) = rw (and-half a b) (bit-bit_and (a / 2) (b / 2) k)

pub bit-bit_or : (a b k : ℕ) → bit (bit_or a b) k ≡ max (bit a k) (bit b k)
unfolding bit
bit-bit_or a b zero = omega (arith, bit_or_step a b)
bit-bit_or a b (suc k) = rw (or-half a b) (bit-bit_or (a / 2) (b / 2) k)

pub bit-pow : (j k : ℕ) → bit (2 ^ j) k ≡ (if j == k then 1 else 0)
unfolding bit
bit-pow zero zero = refl
bit-pow zero (suc k) = ground (arith, bit-zero k)
bit-pow (suc j) zero = ground (arith, pow-suc 2 j)
bit-pow (suc j) (suc k) = rw (half-pow j) (ground (arith, bit-pow j k))

-- The digits of `~a` on `n` bits.
pub bit-complement : (n a k : ℕ) → a < 2 ^ n → k < n → bit (2 ^ n - 1 - a) k ≡ 1 - bit a k
unfolding bit
bit-complement zero a k h p = absurd (omega arith)
bit-complement (suc n) a zero h p = omega (arith, pow-suc 2 n)
bit-complement (suc n) a (suc k) h p =
    rw (half-complement n a h)
      (bit-complement n (a / 2) k (omega (arith, pow-suc 2 n)) (omega arith))

-- `|` of numbers with no digit in common is their sum.
pub bit_or-disjoint : (k a b : ℕ) → b < 2 ^ k → bit_or (a * 2 ^ k) b ≡ a * 2 ^ k + b
bit_or-disjoint zero a b h =
    let e : b ≡ 0 = omega arith in rw e (omega (arith, bit_or-zero (a * 1)))
bit_or-disjoint (suc k) a b h =
    let twice : a * 2 ^ suc k ≡ 2 * (a * 2 ^ k) = simp pow-suc (omega arith) in
    let half : a * 2 ^ suc k / 2 ≡ a * 2 ^ k = omega arith in
    let tail : bit_or (a * 2 ^ k) (b / 2) ≡ a * 2 ^ k + b / 2 =
      bit_or-disjoint k a (b / 2) (omega (arith, pow-suc 2 k)) in
    omega (arith, bit_or_step (a * 2 ^ suc k) b, ap (λ (t : ℕ). bit_or t (b / 2)) half, tail)

pow-pos : (n : ℕ) → 0 < 2 ^ n
pow-pos zero = omega arith
pow-pos (suc n) = omega (arith, pow-suc 2 n, pow-pos n)

pub pow-lt : (k n : ℕ) → k < n → 2 ^ k < 2 ^ n
pow-lt k zero h = absurd (omega arith)
pow-lt zero (suc n) h = omega (arith, pow-suc 2 n, pow-pos n)
pow-lt (suc k) (suc n) h = omega (arith, pow-suc 2 n, pow-suc 2 k, pow-lt k n (omega arith))

-- The test `a & (1 << k)`.
pub bit_and-pow_test : (a k : ℕ) → (bit_and a (2 ^ k) == 0) ≡ (bit a k == 0)
bit_and-pow_test a k = elim (ℕ_discrete (bit a k) 0) [
  | yes z ↦ let e : bit_and a (2 ^ k) ≡ 0 = rw (bit_and-pow a k, z) (omega arith) in rw (e, z)
  | no nz ↦
      let one : bit a k ≡ 1 = omega (arith, bit-le a k) in
      let e : bit_and a (2 ^ k) ≡ 2 ^ k = rw (bit_and-pow a k, one) (omega arith) in
      rw (e, one) (ground (arith, pow-pos k))
]

bit_or-pow : (x k : ℕ) → bit_or x (2 ^ k) ≡ x + (1 - bit x k) * 2 ^ k
unfolding bit
bit_or-pow x zero = omega (arith, bit_or-one x)
bit_or-pow x (suc k) =
    let rest = bit_or-pow (x / 2) k in
    let twice : (1 - bit (x / 2) k) * 2 ^ suc k ≡ (1 - bit (x / 2) k) * (2 ^ k * 2) =
      ap (λ (y : ℕ). (1 - bit (x / 2) k) * y) (pow-suc 2 k) in
    let half : 2 ^ suc k / 2 ≡ 2 ^ k = omega (arith, pow-suc 2 k) in
    let even : 2 ^ suc k % 2 ≡ 0 = omega (arith, pow-suc 2 k) in
    let unfolded : bit_or x (2 ^ suc k) ≡ max (x % 2) 0 + 2 * bit_or (x / 2) (2 ^ k) =
      bit_or_step x (2 ^ suc k) ∙ rw (half, even) refl in
    omega (arith, unfolded, rest, twice)

pub bit_or-high : (x : ℕ) → x < 2 ^ 10 → bit_or x (2 ^ 9) ≡ x % 2 ^ 9 + 2 ^ 9
unfolding bit
bit_or-high x h = omega (arith, bit_or-pow x 9)

pub bit_or-four : (x : ℕ) → bit_or x (2 ^ 2) ≡ x / 8 * 8 + 4 + x % 4
unfolding bit
bit_or-four x = omega (arith, bit_or-pow x 2)

-- `|` stays within a width.
pub bit_or-lt : (n x y : ℕ) → x < 2 ^ n → y < 2 ^ n → bit_or x y < 2 ^ n
bit_or-lt zero x y hx hy =
    let ex : x ≡ 0 = omega arith in
    let ey : y ≡ 0 = omega arith in rw (ex, ey) (omega (arith, bit_or-zero 0))
bit_or-lt (suc n) x y hx hy =
    let half =
      bit_or-lt n (x / 2) (y / 2) (omega (arith, pow-suc 2 n)) (omega (arith, pow-suc 2 n)) in
    omega (arith, bit_or_step x y, pow-suc 2 n, half)
