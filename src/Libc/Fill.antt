-- ===== src/Libc/Fill.antt =====
-- `memset`, against a description byte by byte.
use mos_riscv.Prelude.{ℕ, ◌≤◌, ◌≡◌, ◌&&◌, ltb, leb, if◌then◌else◌}
use mos_riscv.Libc.Memory.{Memory, Filling}

-- What memory holds at `a` when it is filled from `d` up to `e`.
unfoldable filled : ℕ → ℕ → ℕ → Memory → ℕ → ℕ
filled byte d e m a = if leb d a && ltb a e then byte else m a

-- The filling of the bytes from `d` up to `e` on its way.
record Progress (byte d e : ℕ) (m : Memory) (f : Filling) : Type 0 where
  started : d ≤ f.dst
  inside : f.dst ≤ e
  bytes : (a : ℕ) → f.mem a ≡ filled byte d f.dst m a
