-- ===== src/Tests/Texts.antt =====
-- Memory and numbers as text.
use mos_riscv.Prelude.{
  ℕ, ◌<◌, ◌⊎◌, some, ◌+◌, ◌-◌, ◌%◌, ◌≡◌, refl, inl, true, false, ◌&&◌, [], ◌∷◌, ltb, leb,
  if◌then◌else◌, arith,
}
use mos_riscv.Libc.Memory.{Memory, memcpy}
use mos_riscv.Libc.Copy.{memcpy-bytes}
use mos_riscv.Libc.Number.{
  print_num, parse_number, parse_from, digit_of, digit_char, put_char, put_digits, pad, pad_number,
  reverse, slice,
}
use mos_riscv.Libc.Text.{
  strlen, strcpy, strchr, minus_one, nought, sign, strcmp, IsText, strcpy-strcmp,
}
use mos_riscv.Libc.RoundTrip.{parse_number-print_num}

abbrev memory : Memory
memory = λ a. a % 256

memcpy-bytes_example :
    memcpy 13 101 21 memory 20
    ≡ (if leb 13 20 && ltb 20 (13 + 21) then memory (101 + (20 - 13)) else memory 20)
memcpy-bytes_example = memcpy-bytes 13 101 21 memory (inl (omega arith)) 20

parse_number-print_num_example :
    parse_number 16 (print_num 2748 16 false 6 false 0x30 true memory) ≡ (2748, [])
parse_number-print_num_example =
    parse_number-print_num 2748 16 6 true memory (omega arith) (omega arith) (omega arith)
      (omega arith)

-- A negative number with a width of 6, and one that is adjusted to the left.
print_negative :
    print_num 12 10 true 6 false 0x30 false memory ≡ 0x2d ∷ 0x30 ∷ 0x30 ∷ 0x30 ∷ 0x31 ∷ 0x32 ∷ []
unfolding print_num digit_char put_char put_digits pad pad_number reverse slice
print_negative = refl

print_left : print_num 255 16 false 4 true 0x20 false memory ≡ 0x66 ∷ 0x66 ∷ 0x20 ∷ 0x20 ∷ []
unfolding print_num digit_char put_char put_digits pad pad_number reverse slice
print_left = refl

parse_stops : parse_number 10 (0x31 ∷ 0x39 ∷ 0x61 ∷ []) ≡ (19, 0x61 ∷ [])
unfolding parse_number parse_from digit_of
parse_stops = refl

-- Three characters at 100, copied to 20.
abbrev text : Memory
text a = if leb 100 a && ltb a 103 then a else 0

text-IsText : IsText 3 100 text
text-IsText = record { ends = refl; goes_on = λ i lt. ground arith }

strcpy-strcmp_example :
    (mem' : Memory) × (strcpy 4 20 100 text ≡ some mem')
    × ((a : ℕ) → (a < 20) ⊎ (20 + 3 < a) → mem' a ≡ text a)
    × (strlen 4 0 20 mem' ≡ some 3)
    × (strlen 4 0 100 mem' ≡ some 3)
    × (strcmp 4 20 100 mem' ≡ some nought)
strcpy-strcmp_example = strcpy-strcmp 3 20 100 text text-IsText (inl (omega arith))

strcmp_before : strcmp 4 100 101 text ≡ some minus_one
unfolding strcmp sign
strcmp_before = refl

strchr_third : strchr 4 100 102 text ≡ some (some 102)
unfolding strchr
strchr_third = refl
