-- ===== src/User/Pipe/Order.antt =====
-- What a reader gets through a pipe is what the writer has put in, in its order.
use mos_riscv.Prelude.{ℕ, ◌+◌, ◌%◌, ◌^◌, ◌<◌, ◌≤◌, ◌≡◌, ◌≢◌, inr, refl, arith}
use mathlib.Core.Path.{subst}
use mos_riscv.User.Pipe.Steps.{
  returned, overflowed, System, Reachable, start, reads, writes, pipe_size,
}
use mos_riscv.User.Pipe.State.{ReaderAt, WriterAt, IsOrdered}
use mos_riscv.User.Pipe.Reader.{read_step-IsOrdered}
use mos_riscv.User.Pipe.Writer.{write_step-IsOrdered}

module _ (n m p : ℕ) (src : ℕ → ℕ) (bound : p + m < 2 ^ 32) (r_int : n < 2 ^ 31)
    (w_int : m < 2 ^ 31) where
  Reachable-IsOrdered : (s : System) → Reachable n m p src s → IsOrdered n m p src s.r_at s.w_at s
  Reachable-IsOrdered _ (start b buf) = record {
    read_pos = omega arith;
    write_pos = omega arith;
    order = omega arith;
    room = omega arith;
    r_within = omega arith;
    w_within = omega arith;
    got = λ k lt. absurd (omega arith);
    held = λ k ge lt. absurd (omega arith);
    reader = inr refl;
    writer = inr refl;
  }
  Reachable-IsOrdered _ (reads closed s h) =
      read_step-IsOrdered n m p src bound r_int closed s (Reachable-IsOrdered s h)
  Reachable-IsOrdered _ (writes closed s h) =
      write_step-IsOrdered n m p src bound w_int closed s (Reachable-IsOrdered s h)

-- The bytes in the reader's buffer are the first ones of the writer's, those in the pipe are the ones that
-- follow, there are no more than PIPE_SIZE of them, and a call that has returned says how many bytes it
-- has moved. No `int` has overflowed.
pub record InOrder (n m p : ℕ) (src : ℕ → ℕ) (s : System) : Type 0 where
  pub within : (s.r_i ≤ n) × (s.w_i ≤ m)
  pub order : (s.r_i ≤ s.w_i) × (s.w_i ≤ s.r_i + pipe_size)
  pub got : (k : ℕ) → k < s.r_i → s.r_buf k ≡ src k
  pub held : (k : ℕ) → s.r_i ≤ k → k < s.w_i → s.pipe.p_buf ((p + k) % pipe_size) ≡ src k
  pub read : (v : ℕ) → s.r_at ≡ returned v → v ≡ s.r_i
  pub written : (v : ℕ) → s.w_at ≡ returned v → v ≡ s.w_i
  pub in_range : s.w_at ≢ overflowed

-- In every interleaving of a `pipe_read` of `n` bytes and a `pipe_write` of the `m` bytes of `src`, both numbers below
-- 2 ^ 31, from an empty pipe and without a position that wraps: the `int` of the writer does not overflow, the reader has got the first bytes of `src` in their
-- order, the pipe holds the next ones, at most 32, and a call that has returned gives the number of
-- bytes that it has moved.
pub Reachable-InOrder :
    (n m p : ℕ) (src : ℕ → ℕ) (s : System)
    → p + m < 2 ^ 32
    → n < 2 ^ 31
    → m < 2 ^ 31
    → Reachable n m p src s
    → InOrder n m p src s
Reachable-InOrder n m p src s bound r_int w_int r =
    let h = Reachable-IsOrdered n m p src bound r_int w_int s r in
    record {
      within = (h.r_within, h.w_within);
      order = (h.order, h.room);
      got = h.got;
      held = h.held;
      read = λ v e. subst (λ a. ReaderAt n src a s.r_i s.w_i s.r_buf) e h.reader;
      written = λ v e. subst (λ a. WriterAt m src p a s.r_i s.w_i s.pipe.p_buf) e h.writer;
      in_range = λ e. subst (λ a. WriterAt m src p a s.r_i s.w_i s.pipe.p_buf) e h.writer;
    }
