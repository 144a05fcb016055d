-- ===== src/Tests/Pipes.antt =====
-- A pipe that is empty, and one with three bytes.
use mos_riscv.Prelude.{ℕ, ◌+◌, ◌*◌, ◌≡◌, ◌≢◌, refl, true, false, arith}
use mos_riscv.User.Pipe.Steps.{
  Pipe, System, outer, returned, read_step, write_step, Reachable, start, reads, writes,
}
use mos_riscv.User.Pipe.Order.{InOrder, Reachable-InOrder}
use mos_riscv.User.Pipe.Calls.{read_steps, pipe_read-returned, pipe_read-wrapped}

abbrev source : ℕ → ℕ
source k = 65 + k

-- Both calls at their start.
abbrev calls : Pipe → System
calls p = record { pipe = p; r_at = outer; r_i = 0; r_buf = λ _. 0; w_at = outer; w_i = 0 }

abbrev empty : System
empty = calls (record { p_rpos = 10; p_wpos = 10; p_buf = λ _. 0 })

abbrev two_steps : System
two_steps = write_step source 3 false (read_step 2 true empty)

two_steps-Reachable : Reachable 2 3 10 source two_steps
two_steps-Reachable =
    writes false (read_step 2 true empty) (reads true empty (start (λ _. 0) (λ _. 0)))

Reachable-InOrder_example : InOrder 2 3 10 source two_steps
Reachable-InOrder_example =
    Reachable-InOrder 2 3 10 source two_steps (omega arith) (omega arith) (omega arith)
      two_steps-Reachable

abbrev filled : System
filled = calls (record { p_rpos = 10; p_wpos = 13; p_buf = source })

pipe_read-returned_example : (read_steps (λ _. false) 2 (3 * 2 + 3) filled).r_at ≡ returned 2
pipe_read-returned_example =
    pipe_read-returned (λ _. false) 2 filled (omega arith) refl refl (omega arith) (omega arith)

-- The writer's position has wrapped, and the reader's has not.
abbrev wrapped : System
wrapped = calls (record { p_rpos = 0xffffffff; p_wpos = 2; p_buf = source })

pipe_read-wrapped_example : (read_steps (λ _. true) 3 100 wrapped).r_at ≢ returned 3
pipe_read-wrapped_example =
    pipe_read-wrapped (λ _. true) 3 100 3 wrapped (omega arith) refl refl (omega arith)
