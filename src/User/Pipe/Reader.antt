-- ===== src/User/Pipe/Reader.antt =====
-- The steps of `pipe_read` of user/lib/pipe.c keep the bytes in order.
use mos_riscv.Prelude.{
  ℕ, ◌+◌, ◌%◌, ◌^◌, ◌<◌, ◌≡◌, inl, inr, refl, sym, ap, ◌∙◌, Bool, ◌&&◌, ◌||◌, ◌==◌, ltb, leb,
  Bool-cases, arith,
}
use mathlib.Core.Path.{subst}
use native.Mathlib.Decide.{ℕ_discrete}
use mos_riscv.User.Pipe.Steps.{
  At, outer, inner, copy, advance, behind, waiting, returned, overflowed, System, read_from,
  read_step,
}
use mos_riscv.User.Pipe.State.{ReaderAt, IsOrdered, writer_later}

w_at-read_from :
    (n : ℕ) (a : At) (closed : Bool) (s : System) → (read_from a n closed s).w_at ≡ s.w_at
unfolding read_from
w_at-read_from n outer closed s = refl
w_at-read_from n inner closed s = refl
w_at-read_from n copy closed s = refl
w_at-read_from n advance closed s = refl
w_at-read_from n behind closed s = refl
w_at-read_from n waiting closed s = refl
w_at-read_from n (returned v) closed s = refl
w_at-read_from n overflowed closed s = refl

module _ (n m p : ℕ) (src : ℕ → ℕ) (bound : p + m < 2 ^ 32) (r_int : n < 2 ^ 31) where
  -- A step that only moves the reader, or only the writer.
  reader_at :
      (a b wa : At) (s : System)
      → IsOrdered n m p src a wa s
      → ReaderAt n src b s.r_i s.w_i s.r_buf
      → IsOrdered n m p src b wa (record s { r_at = b })
  reader_at a b wa s h r = record {
    read_pos = h.read_pos;
    write_pos = h.write_pos;
    order = h.order;
    room = h.room;
    r_within = h.r_within;
    w_within = h.w_within;
    got = h.got;
    held = h.held;
    reader = r;
    writer = h.writer;
  }

  -- The byte that the reader finds is the next one.
  next_byte :
      (wa : At) (s : System)
      → IsOrdered n m p src copy wa s
      → s.pipe.p_buf (s.pipe.p_rpos % 32) ≡ src s.r_i
  next_byte wa s h =
      ap (λ (x : ℕ). s.pipe.p_buf (x % 32)) h.read_pos
      ∙ h.held s.r_i (omega arith) (omega (arith, h.reader.1))

  read_copy :
      (wa : At) (closed : Bool) (s : System)
      → IsOrdered n m p src copy wa s
      → IsOrdered n m p src advance wa (read_from copy n closed s)
  unfolding read_from
  read_copy wa closed s h = record {
    read_pos = h.read_pos;
    write_pos = h.write_pos;
    order = h.order;
    room = h.room;
    r_within = h.r_within;
    w_within = h.w_within;
    got = λ k lt. ground (arith, h.got k lt);
    held = h.held;
    reader = (h.reader.0, h.reader.1, ground (arith, next_byte wa s h));
    writer = h.writer;
  }

  got_next :
      (r : ℕ) (buf : ℕ → ℕ)
      → ((k : ℕ) → k < r → buf k ≡ src k)
      → buf r ≡ src r
      → (k : ℕ) → k < r + 1
      → buf k ≡ src k
  got_next r buf g e k lt = elim (ℕ_discrete k r) [ yes q ↦ rw q e | no ne ↦ g k (omega arith) ]

  advanced :
      (wa : At) (s : System)
      → IsOrdered n m p src advance wa s
      → IsOrdered n m p src inner wa (record s {
        r_at = inner;
        r_i = s.r_i + 1;
        pipe = record {
          p_rpos = (s.pipe.p_rpos + 1) % 2 ^ 32;
          p_wpos = s.pipe.p_wpos;
          p_buf = s.pipe.p_buf;
        };
      })
  advanced wa s h = record {
    read_pos = omega (arith, h.read_pos, h.order, h.w_within, h.reader.1);
    write_pos = h.write_pos;
    order = omega (arith, h.reader.1);
    room = omega (arith, h.room);
    r_within = omega (arith, h.reader.0);
    w_within = h.w_within;
    got = got_next s.r_i s.r_buf h.got h.reader.2;
    held = λ k ge lt. h.held k (omega arith) lt;
    reader = tt;
    writer = writer_later m src p wa s.r_i s.w_i s.pipe.p_buf h.writer;
  }

  read_advance :
      (wa : At) (closed : Bool) (s : System)
      → IsOrdered n m p src advance wa s
      → IsOrdered n m p src inner wa (read_from advance n closed s)
  unfolding read_from
  read_advance wa closed s h =
      let e : (s.r_i + 1) % 2 ^ 32 ≡ s.r_i + 1 = omega (arith, h.reader.0) in rw e (advanced wa s h)

  read_from-IsOrdered :
      (a wa : At) (closed : Bool) (s : System)
      → s.r_at ≡ a
      → IsOrdered n m p src a wa s
      → IsOrdered n m p src (read_from a n closed s).r_at wa (read_from a n closed s)
  unfolding read_from
  read_from-IsOrdered outer wa closed s e h = elim (Bool-cases (ltb s.r_i n)) [
    | inl t ↦ rw t (reader_at outer inner wa s h tt)
    | inr t ↦ rw t (reader_at outer (returned 0) wa s h (ground (arith, h.reader)))
  ]
  read_from-IsOrdered inner wa closed s e h =
      elim (Bool-cases (ltb s.pipe.p_rpos s.pipe.p_wpos && ltb s.r_i n)) [
        | inl t ↦
            rw t
              (reader_at inner copy wa s h (ground arith, ground (arith, h.read_pos, h.write_pos)))
        | inr t ↦ rw t (reader_at inner behind wa s h tt)
      ]
  read_from-IsOrdered copy wa closed s e h = read_copy wa closed s h
  read_from-IsOrdered advance wa closed s e h = read_advance wa closed s h
  read_from-IsOrdered behind wa closed s e h = elim (Bool-cases (s.r_i == n)) [
    | inl t ↦ rw t (reader_at behind (returned s.r_i) wa s h refl)
    | inr t ↦ rw t (reader_at behind waiting wa s h (ground (arith, h.r_within)))
  ]
  read_from-IsOrdered waiting wa closed s e h = elim (Bool-cases (s.pipe.p_rpos == s.pipe.p_wpos)) [
    | inr t ↦ rw t (reader_at waiting outer wa s h (inl h.reader))
    | inl t ↦ elim (Bool-cases (leb 1 s.r_i || closed)) [
      | inl u ↦ rw (t, u) (reader_at waiting (returned s.r_i) wa s h refl)
      | inr u ↦ rw (t, u) (reader_at waiting waiting wa s h h.reader)
    ]
  ]
  read_from-IsOrdered (returned v) wa closed s e h =
      subst (λ x. IsOrdered n m p src x wa s) (sym e) h
  read_from-IsOrdered overflowed wa closed s e h = absurd h.reader

  pub read_step-IsOrdered :
      (closed : Bool) (s : System)
      → IsOrdered n m p src s.r_at s.w_at s
      → IsOrdered n m p src
          (read_step n closed s).r_at
          (read_step n closed s).w_at
          (read_step n closed s)
  unfolding read_step
  read_step-IsOrdered closed s h =
      let s' = read_from s.r_at n closed s in
      subst (λ x. IsOrdered n m p src s'.r_at x s') (sym (w_at-read_from n s.r_at closed s))
        (read_from-IsOrdered s.r_at s.w_at closed s refl h)
