-- ===== src/Libc/Memory.antt =====
-- `memcpy` and `memset` of lib/string.c. Memory is a function from addresses to bytes. The objects
-- that are copied or filled do not reach past the last address, so pointers do not wrap, and `n`
-- bounds the rounds of each loop.
use mos_riscv.Prelude.{
  ℕ, zero, suc, ◌+◌, ◌-◌, ◌*◌, ◌/◌, ◌%◌, ◌^◌, not, ◌&&◌, ◌==◌, ltb, leb, if◌then◌else◌, bit_or,
  update,
}

abbrev pub Memory : Type 0
Memory = ℕ → ℕ

-- The pointers `d` and `s` with the bytes that are left.
pub record Copying : Type 0 where
  pub d : ℕ
  pub s : ℕ
  pub n : ℕ
  pub mem : Memory

-- `*d++ = *s++` for pointers to words of `w` bytes: the word is read and then written.
unfoldable pub step : ℕ → Copying → Copying
step w c = record {
  d = c.d + w;
  s = c.s + w;
  n = c.n - w;
  mem = λ a. if leb c.d a && ltb a (c.d + w) then c.mem (c.s + (a - c.d)) else c.mem a;
}

-- `while (n > 0 && (s & (w - 1)))`
unfoldable pub align : ℕ → ℕ → Copying → Copying
align w zero c = c
align w (suc fuel) c =
    let rest = align w fuel (step 1 c) in if ltb 0 c.n && not (c.s % w == 0) then rest else c

-- `for (; n >= w; n -= w)`
unfoldable pub copy_words : ℕ → ℕ → Copying → Copying
copy_words w zero c = c
copy_words w (suc fuel) c = let rest = copy_words w fuel (step w c) in if leb w c.n then rest else c

abbrev pub aligned_words : ℕ → Copying → Copying
aligned_words w c = let c' = align w c.n c in copy_words w c'.n c'

unfoldable pub copy_8 : Copying → Copying
copy_8 c = if c.s % 8 == c.d % 8 then aligned_words 8 c else c

unfoldable pub copy_4 : Copying → Copying
copy_4 c = if leb 4 c.n && (c.s % 4 == c.d % 4) then aligned_words 4 c else c

unfoldable pub copy_2 : Copying → Copying
copy_2 c =
    if leb 2 c.n && (c.s % 2 == c.d % 2)
    then (let c' = if not (c.s % 2 == 0) && ltb 0 c.n then step 1 c else c in copy_words 2 c'.n c')
    else c

-- `while (n-- > 0)`
unfoldable pub copy_bytes : ℕ → Copying → Copying
copy_bytes zero c = c
copy_bytes (suc fuel) c = let rest = copy_bytes fuel (step 1 c) in if ltb 0 c.n then rest else c

unfoldable pub memcpy : ℕ → ℕ → ℕ → Memory → Memory
memcpy dest src n m =
    let c = copy_2 (copy_4 (copy_8 (record { d = dest; s = src; n = n; mem = m }))) in
    (copy_bytes c.n c).mem

-- The pointer `dst` of `memset`.
pub record Filling : Type 0 where
  pub dst : ℕ
  pub mem : Memory

-- `word`, the byte eight times
unfoldable pub repeated : ℕ → ℕ
repeated byte =
    bit_or
      (bit_or
        (bit_or
          (bit_or
            (bit_or (bit_or (bit_or (byte * 2 ^ 56) (byte * 2 ^ 48)) (byte * 2 ^ 40))
              (byte * 2 ^ 32))
            (byte * 2 ^ 24))
          (byte * 2 ^ 16))
        (byte * 2 ^ 8))
      byte

-- A store of 8 bytes, the lowest first.
unfoldable pub store_64 : ℕ → ℕ → Memory → Memory
store_64 p v m a = if leb p a && ltb a (p + 8) then v / 256 ^ (a - p) % 256 else m a

unfoldable pub fill_byte : ℕ → Filling → Filling
fill_byte byte f = record { dst = f.dst + 1; mem = update f.mem f.dst byte }

unfoldable pub fill_word : ℕ → Filling → Filling
fill_word byte f = record { dst = f.dst + 8; mem = store_64 f.dst (repeated byte) f.mem }

-- `while ((uintptr_t)dst % 8 != 0 && dst < max)`
unfoldable pub fill_align : ℕ → ℕ → ℕ → Filling → Filling
fill_align byte end zero f = f
fill_align byte end (suc fuel) f =
    let rest = fill_align byte end fuel (fill_byte byte f) in
    if not (f.dst % 8 == 0) && ltb f.dst end then rest else f

-- `while (dst + 8 <= max)`
unfoldable pub fill_words : ℕ → ℕ → ℕ → Filling → Filling
fill_words byte end zero f = f
fill_words byte end (suc fuel) f =
    let rest = fill_words byte end fuel (fill_word byte f) in
    if leb (f.dst + 8) end then rest else f

-- `while (dst < max)`
unfoldable pub fill_bytes : ℕ → ℕ → ℕ → Filling → Filling
fill_bytes byte end zero f = f
fill_bytes byte end (suc fuel) f =
    let rest = fill_bytes byte end fuel (fill_byte byte f) in if ltb f.dst end then rest else f

-- `c` is an `int`, as its 32 bits.
unfoldable pub memset : ℕ → ℕ → ℕ → Memory → Memory
memset dst c n m =
    let byte = c % 256 in
    let f = fill_align byte (dst + n) n (record { dst = dst; mem = m }) in
    let f' = fill_words byte (dst + n) n f in (fill_bytes byte (dst + n) n f').mem
