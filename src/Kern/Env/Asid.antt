-- ===== src/Kern/Env/Asid.antt =====
-- The bitmap of address space identifiers: `asid_alloc` and `asid_free` of kern/env.c.
use mos_riscv.Prelude.{
  ℕ, zero, suc, ◌+◌, ◌-◌, ◌/◌, ◌%◌, ◌^◌, ◌≡◌, ◌<◌, ◌≤◌, Option, none, some, ◌==◌, if◌then◌else◌,
  update, bit_and, bit_or, Bool-cases, inl, inr, arith, refl,
}
use native.Mathlib.Decide.{ℕ_discrete}
use mos_riscv.Prelude.Bits.{
  bit, bit-le, bit-bit_and, bit-bit_or, bit-pow, bit-complement, bit_and-pow_test, pow-lt,
}

abbrev pub nasid : ℕ
nasid = 256

-- The loop of `asid_alloc` from `i` on, with `left` rounds left.
unfoldable pub asid_loop : ℕ → ℕ → (ℕ → ℕ) → Option (ℕ × (ℕ → ℕ))
asid_loop zero i bitmap = none
asid_loop (suc left) i bitmap =
    let index = i / 32 in
    let inner = i % 32 in
    let rest = asid_loop left (i + 1) bitmap in
    if bit_and (bitmap index) (2 ^ inner) == 0
    then some (i, update bitmap index (bit_or (bitmap index) (2 ^ inner)))
    else rest

-- `none` is `-E_NO_FREE_ENV`.
unfoldable pub asid_alloc : (ℕ → ℕ) → Option (ℕ × (ℕ → ℕ))
asid_alloc bitmap = asid_loop nasid 0 bitmap

unfoldable pub asid_free : ℕ → (ℕ → ℕ) → ℕ → ℕ
asid_free asid bitmap =
    update bitmap (asid / 32) (bit_and (bitmap (asid / 32)) (2 ^ 32 - 1 - 2 ^ (asid % 32)))

-- The bit of an identifier, 1 if it is taken.
unfoldable pub taken : (ℕ → ℕ) → ℕ → ℕ
taken bitmap i = bit (bitmap (i / 32)) (i % 32)

test-taken :
    (bitmap : ℕ → ℕ) (i : ℕ)
    → (bit_and (bitmap (i / 32)) (2 ^ (i % 32)) == 0) ≡ (taken bitmap i == 0)
unfolding taken
test-taken bitmap i = bit_and-pow_test (bitmap (i / 32)) (i % 32)

-- Setting and clearing one bit of the map.
taken-set :
    (bitmap : ℕ → ℕ) (i j : ℕ)
    → taken (update bitmap (i / 32) (bit_or (bitmap (i / 32)) (2 ^ (i % 32)))) j
      ≡ (if j == i then 1 else taken bitmap j)
unfolding taken
taken-set bitmap i j = ground (
  arith,
  bit-bit_or (bitmap (i / 32)) (2 ^ (i % 32)) (j % 32),
  bit-pow (i % 32) (j % 32),
  bit-le (bitmap (j / 32)) (j % 32),
)

-- `asid_free` makes its identifier available, and changes no other.
taken-asid_free :
    (bitmap : ℕ → ℕ) (i j : ℕ)
    → taken (asid_free i bitmap) j ≡ (if j == i then 0 else taken bitmap j)
unfolding taken asid_free
taken-asid_free bitmap i j = ground (
  arith,
  bit-bit_and (bitmap (i / 32)) (2 ^ 32 - 1 - 2 ^ (i % 32)) (j % 32),
  bit-complement 32 (2 ^ (i % 32)) (j % 32) (pow-lt (i % 32) 32 (omega arith)) (omega arith),
  bit-pow (i % 32) (j % 32),
  bit-le (bitmap (j / 32)) (j % 32),
)

-- What the loop finds: the first identifier from `i` on that is not taken.
abbrev pub Granted : ℕ → ℕ → (ℕ → ℕ) → Option (ℕ × (ℕ → ℕ)) → Type 0
Granted i n bitmap none = (j : ℕ) → i ≤ j → j < n → taken bitmap j ≡ 1
Granted i n bitmap (some (a, bitmap')) =
    (i ≤ a)
    × (a < n)
    × (taken bitmap a ≡ 0)
    × ((j : ℕ) → i ≤ j → j < a → taken bitmap j ≡ 1)
    × ((j : ℕ) → taken bitmap' j ≡ (if j == a then 1 else taken bitmap j))

-- One more identifier that is taken in front.
skip :
    (i n : ℕ) (bitmap : ℕ → ℕ) (r : Option (ℕ × (ℕ → ℕ)))
    → taken bitmap i ≡ 1
    → Granted (i + 1) n bitmap r
    → Granted i n bitmap r
skip i n bitmap none one g =
    λ j ge lt. elim (ℕ_discrete j i) [ yes e ↦ rw e one | no ne ↦ g j (omega arith) lt ]
skip i n bitmap (some (a, b)) one g = (
  omega arith,
  g.1,
  g.2,
  (λ j ge lt. elim (ℕ_discrete j i) [ yes e ↦ rw e one | no ne ↦ g.3 j (omega arith) lt ]),
  g.4,
)

taken-le : (bitmap : ℕ → ℕ) (i : ℕ) → taken bitmap i ≤ 1
unfolding taken
taken-le bitmap i = bit-le (bitmap (i / 32)) (i % 32)

asid_loop-Granted :
    (left i n : ℕ) (bitmap : ℕ → ℕ) → i + left ≡ n → Granted i n bitmap (asid_loop left i bitmap)
unfolding asid_loop
asid_loop-Granted zero i n bitmap e = λ j ge lt. absurd (omega arith)
asid_loop-Granted (suc left) i n bitmap e = elim (Bool-cases (taken bitmap i == 0)) [
  | inl z ↦
      rw (test-taken bitmap i, z)
        (
          omega arith,
          omega arith,
          ground arith,
          (λ j ge lt. absurd (omega arith)),
          taken-set bitmap i,
        )
  | inr z ↦
      rw (test-taken bitmap i, z)
        (skip i n bitmap (asid_loop left (i + 1) bitmap) (ground (arith, taken-le bitmap i))
          (asid_loop-Granted left (i + 1) n bitmap (omega arith)))
]

-- `asid_alloc` grants the first identifier below 256 that is not taken and marks it and no other;
-- it refuses only when all of them are taken.
pub asid_alloc-Granted : (bitmap : ℕ → ℕ) → Granted 0 256 bitmap (asid_alloc bitmap)
unfolding asid_alloc
asid_alloc-Granted bitmap = asid_loop-Granted 256 0 256 bitmap refl
