-- ===== src/User/Pipe/Steps.antt =====
-- `pipe_read` in one process and `pipe_write` in another, statement by statement, since the kernel may
-- switch between the two at any point. Only the reader writes `p_rpos`, only the writer writes `p_wpos`
-- and `p_buf`. The answers of `_pipe_is_closed` come from the kernel and are arguments of the steps.
use mos_riscv.Prelude.{
  ℕ, ◌+◌, ◌-◌, ◌%◌, ◌^◌, Bool, ◌&&◌, ◌||◌, ◌==◌, ltb, leb, if◌then◌else◌, update,
}

abbrev pub pipe_size : ℕ
pipe_size = 32

-- `struct Pipe`
pub record Pipe : Type 0 where
  pub p_rpos : ℕ
  pub p_wpos : ℕ
  pub p_buf : ℕ → ℕ

-- Where a call stands: at the test of the outer loop, at that of the inner one, at its two statements, at
-- the `if` behind it, at the test of the loop that waits; or it has returned a value, the 32 bits of an `int`;
-- or it has done `i++` on the largest `int`, which is undefined.
pub data At : Type 0 where
  outer : At
  inner : At
  copy : At
  advance : At
  behind : At
  waiting : At
  returned : ℕ → At
  overflowed : At

-- The locals `i` and `buf` of a call of `pipe_read`, those of one of `pipe_write`, and what they share. In the one,
-- `i` is a `uint32_t`; in the other it is an `int`, which starts at 0 and only grows, so that it is not negative and
-- its comparisons with `n` are those of its 32 bits.
pub record System : Type 0 where
  pub pipe : Pipe
  pub r_at : At
  pub r_i : ℕ
  pub r_buf : ℕ → ℕ
  pub w_at : At
  pub w_i : ℕ

-- A step of `pipe_read` for `n` bytes.
unfoldable pub read_from : At → ℕ → Bool → System → System
read_from outer n closed s = record s { r_at = if ltb s.r_i n then inner else returned 0 }
read_from inner n closed s = record s {
  r_at = if ltb s.pipe.p_rpos s.pipe.p_wpos && ltb s.r_i n then copy else behind;
}
read_from copy n closed s = record s {
  r_at = advance;
  r_buf = update s.r_buf s.r_i (s.pipe.p_buf (s.pipe.p_rpos % pipe_size));
}
read_from advance n closed s = record s {
  r_at = inner;
  r_i = (s.r_i + 1) % 2 ^ 32;
  pipe = record {
    p_rpos = (s.pipe.p_rpos + 1) % 2 ^ 32;
    p_wpos = s.pipe.p_wpos;
    p_buf = s.pipe.p_buf;
  };
}
read_from behind n closed s = record s { r_at = if s.r_i == n then returned s.r_i else waiting }
read_from waiting n closed s = record s {
  r_at =
      if s.pipe.p_rpos == s.pipe.p_wpos
      then (if leb 1 s.r_i || closed then returned s.r_i else waiting)
      else outer;
}
read_from (returned v) n closed s = s
read_from overflowed n closed s = s

unfoldable pub read_step : ℕ → Bool → System → System
read_step n closed s = read_from s.r_at n closed s

-- `p->p_wpos - p->p_rpos`
abbrev pub used : Pipe → ℕ
used p = (p.p_wpos + 2 ^ 32 - p.p_rpos) % 2 ^ 32

-- A step of `pipe_write` of the `n` bytes of `src`.
unfoldable pub write_from : At → (ℕ → ℕ) → ℕ → Bool → System → System
write_from outer src n closed s = record s { w_at = if ltb s.w_i n then inner else returned n }
write_from inner src n closed s = record s {
  w_at = if ltb (used s.pipe) pipe_size && ltb s.w_i n then copy else behind;
}
write_from copy src n closed s = record s {
  w_at = advance;
  pipe = record {
    p_rpos = s.pipe.p_rpos;
    p_wpos = s.pipe.p_wpos;
    p_buf = update s.pipe.p_buf (s.pipe.p_wpos % pipe_size) (src s.w_i);
  };
}
write_from advance src n closed s = record s {
  w_at = if s.w_i + 1 == 2 ^ 31 then overflowed else inner;
  w_i = s.w_i + 1;
  pipe = record {
    p_rpos = s.pipe.p_rpos;
    p_wpos = (s.pipe.p_wpos + 1) % 2 ^ 32;
    p_buf = s.pipe.p_buf;
  };
}
write_from behind src n closed s = record s {
  w_at = if s.w_i == n then returned s.w_i else waiting;
}
write_from waiting src n closed s = record s {
  w_at = if used s.pipe == pipe_size then (if closed then returned s.w_i else waiting) else outer;
}
write_from (returned v) src n closed s = s
write_from overflowed src n closed s = s

unfoldable pub write_step : (ℕ → ℕ) → ℕ → Bool → System → System
write_step src n closed s = write_from s.w_at src n closed s

-- The states that a call of each can reach, in any interleaving, from a pipe that is empty with both
-- positions at `p`.
pub data Reachable (n m p : ℕ) (src : ℕ → ℕ) : System → Type 0 where
  start :
      (b buf : ℕ → ℕ)
      → Reachable n m p src (record {
        pipe = record { p_rpos = p; p_wpos = p; p_buf = b };
        r_at = outer;
        r_i = 0;
        r_buf = buf;
        w_at = outer;
        w_i = 0;
      })
  reads :
      (closed : Bool) (s : System)
      → Reachable n m p src s
      → Reachable n m p src (read_step n closed s)
  writes :
      (closed : Bool) (s : System)
      → Reachable n m p src s
      → Reachable n m p src (write_step src m closed s)
