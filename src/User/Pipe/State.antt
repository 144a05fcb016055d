-- ===== src/User/Pipe/State.antt =====
-- What holds of the reader, the writer and the pipe between two steps of user/lib/pipe.c.
use mos_riscv.Prelude.{ℕ, ◌+◌, ◌%◌, ◌<◌, ◌≤◌, ◌≡◌, ◌⊎◌, arith}
use mos_riscv.User.Pipe.Steps.{
  At, outer, inner, copy, advance, behind, waiting, returned, overflowed, System,
}

-- What holds where the reader stands that has copied `r` bytes, of `w` that the writer has put in.
abbrev pub ReaderAt : ℕ → (ℕ → ℕ) → At → ℕ → ℕ → (ℕ → ℕ) → Type 0
ReaderAt n src outer r w buf = (r < n) ⊎ (r ≡ 0)
ReaderAt n src inner r w buf = Unit
ReaderAt n src copy r w buf = (r < n) × (r < w)
ReaderAt n src advance r w buf = (r < n) × (r < w) × (buf r ≡ src r)
ReaderAt n src behind r w buf = Unit
ReaderAt n src waiting r w buf = r < n
ReaderAt n src (returned v) r w buf = v ≡ r
ReaderAt n src overflowed r w buf = ⊥

-- What holds where the writer stands.
abbrev pub WriterAt : ℕ → (ℕ → ℕ) → ℕ → At → ℕ → ℕ → (ℕ → ℕ) → Type 0
WriterAt m src p outer r w b = (w < m) ⊎ (w ≡ 0)
WriterAt m src p inner r w b = Unit
WriterAt m src p copy r w b = (w < m) × (w < r + 32)
WriterAt m src p advance r w b = (w < m) × (w < r + 32) × (b ((p + w) % 32) ≡ src w)
WriterAt m src p behind r w b = Unit
WriterAt m src p waiting r w b = w < m
WriterAt m src p (returned v) r w b = v ≡ w
WriterAt m src p overflowed r w b = ⊥

-- The state of a reader of `n` bytes at `ra` and a writer of the `m` bytes of `src` at `wa`.
pub record IsOrdered (n m p : ℕ) (src : ℕ → ℕ) (ra wa : At) (s : System) : Type 0 where
  pub read_pos : s.pipe.p_rpos ≡ p + s.r_i
  pub write_pos : s.pipe.p_wpos ≡ p + s.w_i
  pub order : s.r_i ≤ s.w_i
  pub room : s.w_i ≤ s.r_i + 32
  pub r_within : s.r_i ≤ n
  pub w_within : s.w_i ≤ m
  pub got : (k : ℕ) → k < s.r_i → s.r_buf k ≡ src k
  pub held : (k : ℕ) → s.r_i ≤ k → k < s.w_i → s.pipe.p_buf ((p + k) % 32) ≡ src k
  pub reader : ReaderAt n src ra s.r_i s.w_i s.r_buf
  pub writer : WriterAt m src p wa s.r_i s.w_i s.pipe.p_buf

-- Progress of the one does not harm the other.
pub reader_later :
    (n : ℕ) (src : ℕ → ℕ) (a : At) (r w : ℕ) (buf : ℕ → ℕ)
    → ReaderAt n src a r w buf
    → ReaderAt n src a r (w + 1) buf
reader_later n src outer r w buf h = h
reader_later n src inner r w buf h = h
reader_later n src copy r w buf h = (h.0, omega (arith, h.1))
reader_later n src advance r w buf h = (h.0, omega (arith, h.1), h.2)
reader_later n src behind r w buf h = h
reader_later n src waiting r w buf h = h
reader_later n src (returned v) r w buf h = h
reader_later n src overflowed r w buf h = h

pub writer_later :
    (m : ℕ) (src : ℕ → ℕ) (p : ℕ) (a : At) (r w : ℕ) (b : ℕ → ℕ)
    → WriterAt m src p a r w b
    → WriterAt m src p a (r + 1) w b
writer_later m src p outer r w b h = h
writer_later m src p inner r w b h = h
writer_later m src p copy r w b h = (h.0, omega (arith, h.1))
writer_later m src p advance r w b h = (h.0, omega (arith, h.1), h.2)
writer_later m src p behind r w b h = h
writer_later m src p waiting r w b h = h
writer_later m src p (returned v) r w b h = h
writer_later m src p overflowed r w b h = h
