-- ===== src/Libc/Number.antt =====
-- Numbers as text: `print_num` of lib/print.c and `parse_number` of lib/string.c. A string is the list of
-- its characters in front of the NUL, and what is printed is the list of the characters that are
-- handed to `out`. An `int` is its 32 bits.
use mos_riscv.Prelude.{
  ℕ, zero, suc, ◌+◌, ◌-◌, ◌*◌, ◌/◌, ◌%◌, ◌^◌, max, Bool, false, not, ◌&&◌, Option, none, some, List,
  [], ◌∷◌, ◌==◌, ltb, leb, if◌then◌else◌, update,
}

-- The value of a character as a digit.
unfoldable pub digit_of : ℕ → Option ℕ
digit_of c =
    if leb 0x30 c && leb c 0x39
    then some (c - 0x30)
    else if leb 0x61 c && leb c 0x7a
    then some (c - 0x61 + 10)
    else if leb 0x41 c && leb c 0x5a
    then some (c - 0x41 + 10)
    else none

-- Whether the loop goes on: the character is a digit, and it is one of `base`.
abbrev pub fits : ℕ → Option ℕ → Bool
fits base none = false
fits base (some digit) = ltb digit base

-- `current_digit`
abbrev pub value_of : Option ℕ → ℕ
value_of none = 0
value_of (some digit) = digit

-- The loop of `parse_number`, with `result` and the rest of the text.
unfoldable pub parse_from : ℕ → ℕ → List ℕ → ℕ × List ℕ
parse_from base result [] = (result, [])
parse_from base result (c ∷ str) =
    let rest = parse_from base ((result * base + value_of (digit_of c)) % 2 ^ 32) str in
    if fits base (digit_of c) then rest else (result, c ∷ str)

-- The result and `*next_token`.
unfoldable pub parse_number : ℕ → List ℕ → ℕ × List ℕ
parse_number base str = parse_from base 0 str

unfoldable pub digit_char : Bool → ℕ → ℕ
digit_char upcase tmp =
    if leb tmp 9 then 0x30 + tmp else if upcase then 0x41 + tmp - 10 else 0x61 + tmp - 10

-- `buf` and the number of characters in front of `p`.
pub record Buffer : Type 0 where
  pub p : ℕ
  pub buf : ℕ → ℕ

unfoldable pub put_char : ℕ → Buffer → Buffer
put_char c b = record { p = suc b.p; buf = update b.buf b.p c }

-- The loop that writes the digits, the last one first. A 64-bit number has at most 64 of them.
unfoldable pub put_digits : ℕ → ℕ → Bool → ℕ → Buffer → Buffer
put_digits zero base upcase u b = b
put_digits (suc fuel) base upcase u b =
    let b' = put_char (digit_char upcase (u % base)) b in
    let rest = put_digits fuel base upcase (u / base) b' in if u / base == 0 then b' else rest

-- `for (i = begin; i < begin + count; i++) { buf[i] = c; }`
unfoldable pub pad : ℕ → ℕ → ℕ → (ℕ → ℕ) → ℕ → ℕ
pad zero begin c buf = buf
pad (suc count) begin c buf = pad count (suc begin) c (update buf begin c)

-- The loop that reverses the characters from `begin` to `end`, with a bound on the rounds. `begin` is not negative;
-- `end` is the 32 bits of an `int`, which is negative from 2 ^ 31 on.
unfoldable pub reverse : ℕ → ℕ → ℕ → (ℕ → ℕ) → ℕ → ℕ
reverse zero begin end buf = buf
reverse (suc fuel) begin end buf =
    let rest =
      reverse fuel (begin + 1) (end - 1) (update (update buf begin (buf end)) end (buf begin)) in
    if ltb begin end && ltb end (2 ^ 31) then rest else buf

-- The `count` characters from `i` on.
unfoldable pub slice : ℕ → ℕ → (ℕ → ℕ) → List ℕ
slice zero i buf = []
slice (suc count) i buf = buf i ∷ slice count (i + 1) buf

-- The padding of `actual` characters to `length`.
unfoldable pub pad_number : Bool → Bool → ℕ → ℕ → ℕ → (ℕ → ℕ) → ℕ → ℕ
pad_number neg_flag ladjust padc actual length buf =
    if neg_flag && not ladjust && (padc == 0x30)
    then update (pad (length - actual) (actual - 1) padc buf) (length - 1) 0x2d
    else pad (length - actual) actual (if ladjust then 0x20 else padc) buf

-- `buf` is what the array holds at first.
unfoldable pub print_num : ℕ → ℕ → Bool → ℕ → Bool → ℕ → Bool → (ℕ → ℕ) → List ℕ
print_num u base neg_flag length ladjust padc upcase buf =
    let b = put_digits 64 base upcase u (record { p = 0; buf = buf }) in
    let b' = if neg_flag then put_char 0x2d b else b in
    let width = max length b'.p in
    let padded = pad_number neg_flag ladjust padc b'.p width b'.buf in
    let end = (if ladjust then b'.p - 1 else width - 1) % 2 ^ 32 in
    slice width 0 (reverse end 0 end padded)
