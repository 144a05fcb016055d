-- ===== src/User/Pipe/Writer.antt =====
-- The steps of `pipe_write` of user/lib/pipe.c keep the bytes in order.
use mos_riscv.Prelude.{
  ℕ, ◌+◌, ◌-◌, ◌%◌, ◌^◌, ◌<◌, ◌≤◌, ◌≡◌, inl, inr, refl, sym, Bool, false, ◌&&◌, ◌==◌, ltb, update,
  Bool-cases, arith,
}
use mathlib.Core.Path.{subst}
use native.Mathlib.Decide.{ℕ_discrete}
use mos_riscv.User.Pipe.Steps.{
  Pipe, At, outer, inner, copy, advance, behind, waiting, returned, overflowed, System, used,
  write_from, write_step, pipe_size,
}
use mos_riscv.User.Pipe.State.{WriterAt, IsOrdered, reader_later}

r_at-write_from :
    (src : ℕ → ℕ) (m : ℕ) (a : At) (closed : Bool) (s : System)
    → (write_from a src m closed s).r_at ≡ s.r_at
unfolding write_from
r_at-write_from src m outer closed s = refl
r_at-write_from src m inner closed s = refl
r_at-write_from src m copy closed s = refl
r_at-write_from src m advance closed s = refl
r_at-write_from src m behind closed s = refl
r_at-write_from src m waiting closed s = refl
r_at-write_from src m (returned v) closed s = refl
r_at-write_from src m overflowed closed s = refl

module _ (n m p : ℕ) (src : ℕ → ℕ) (bound : p + m < 2 ^ 32) (w_int : m < 2 ^ 31) where
  writer_at :
      (a ra b : At) (s : System)
      → IsOrdered n m p src ra a s
      → WriterAt m src p b s.r_i s.w_i s.pipe.p_buf
      → IsOrdered n m p src ra b (record s { w_at = b })
  writer_at a ra b s h w = record {
    read_pos = h.read_pos;
    write_pos = h.write_pos;
    order = h.order;
    room = h.room;
    r_within = h.r_within;
    w_within = h.w_within;
    got = h.got;
    held = h.held;
    reader = h.reader;
    writer = w;
  }

  used_lem :
      (q : Pipe) (r w : ℕ)
      → q.p_rpos ≡ p + r
      → q.p_wpos ≡ p + w
      → r ≤ w
      → w ≤ m
      → w ≤ r + 32
      → used q ≡ w - r
  used_lem q r w e f le within room = rw (e, f) (omega arith)

  held_before :
      (r w : ℕ) (b : ℕ → ℕ) (v : ℕ)
      → w < r + 32
      → ((k : ℕ) → r ≤ k → k < w → b ((p + k) % 32) ≡ src k)
      → (k : ℕ) → r ≤ k
      → k < w
      → update b ((p + w) % 32) v ((p + k) % 32) ≡ src k
  held_before r w b v lt h k ge less =
      let other : ((p + k) % 32 == (p + w) % 32) ≡ false = ground arith in rw other (h k ge less)

  held_next :
      (r w : ℕ) (b : ℕ → ℕ)
      → ((k : ℕ) → r ≤ k → k < w → b ((p + k) % 32) ≡ src k)
      → b ((p + w) % 32) ≡ src w
      → (k : ℕ) → r ≤ k
      → k < w + 1
      → b ((p + k) % 32) ≡ src k
  held_next r w b h e k ge lt = elim (ℕ_discrete k w) [
    | yes q ↦ rw q e
    | no ne ↦ h k ge (omega arith)
  ]

  write_copy :
      (ra : At) (closed : Bool) (s : System)
      → IsOrdered n m p src ra copy s
      → IsOrdered n m p src ra advance (write_from copy src m closed s)
  unfolding write_from
  write_copy ra closed s h = rw h.write_pos (record {
    read_pos = h.read_pos;
    write_pos = refl;
    order = h.order;
    room = h.room;
    r_within = h.r_within;
    w_within = h.w_within;
    got = h.got;
    held = held_before s.r_i s.w_i s.pipe.p_buf (src s.w_i) h.writer.1 h.held;
    reader = h.reader;
    writer = (h.writer.0, h.writer.1, ground arith);
  })

  write_advance :
      (ra : At) (closed : Bool) (s : System)
      → IsOrdered n m p src ra advance s
      → IsOrdered n m p src ra
          (write_from advance src m closed s).w_at
          (write_from advance src m closed s)
  unfolding write_from
  write_advance ra closed s h =
      let t : (s.w_i + 1 == 2 ^ 31) ≡ false = ground (arith, h.writer.0) in
      rw t (record {
        read_pos = h.read_pos;
        write_pos = omega (arith, h.write_pos, h.writer.0);
        order = omega (arith, h.order);
        room = omega (arith, h.writer.1);
        r_within = h.r_within;
        w_within = omega (arith, h.writer.0);
        got = h.got;
        held = held_next s.r_i s.w_i s.pipe.p_buf h.held h.writer.2;
        reader = reader_later n src ra s.r_i s.w_i s.r_buf h.reader;
        writer = tt;
      })

  write_from-IsOrdered :
      (a ra : At) (closed : Bool) (s : System)
      → s.w_at ≡ a
      → IsOrdered n m p src ra a s
      → IsOrdered n m p src ra (write_from a src m closed s).w_at (write_from a src m closed s)
  unfolding write_from
  write_from-IsOrdered outer ra closed s e h = elim (Bool-cases (ltb s.w_i m)) [
    | inl t ↦ rw t (writer_at outer ra inner s h tt)
    | inr t ↦ rw t (writer_at outer ra (returned m) s h (ground (arith, h.writer, h.w_within)))
  ]
  write_from-IsOrdered inner ra closed s e h =
      let u = used_lem s.pipe s.r_i s.w_i h.read_pos h.write_pos h.order h.w_within h.room in
      elim (Bool-cases (ltb (used s.pipe) pipe_size && ltb s.w_i m)) [
        | inl t ↦ rw t (writer_at inner ra copy s h (ground arith, ground (arith, u)))
        | inr t ↦ rw t (writer_at inner ra behind s h tt)
      ]
  write_from-IsOrdered copy ra closed s e h = write_copy ra closed s h
  write_from-IsOrdered advance ra closed s e h = write_advance ra closed s h
  write_from-IsOrdered behind ra closed s e h = elim (Bool-cases (s.w_i == m)) [
    | inl t ↦ rw t (writer_at behind ra (returned s.w_i) s h refl)
    | inr t ↦ rw t (writer_at behind ra waiting s h (ground (arith, h.w_within)))
  ]
  write_from-IsOrdered waiting ra closed s e h = elim (Bool-cases (used s.pipe == pipe_size)) [
    | inr t ↦ rw t (writer_at waiting ra outer s h (inl h.writer))
    | inl t ↦ elim (Bool-cases closed) [
      | inl u ↦ rw (t, u) (writer_at waiting ra (returned s.w_i) s h refl)
      | inr u ↦ rw (t, u) (writer_at waiting ra waiting s h h.writer)
    ]
  ]
  write_from-IsOrdered (returned v) ra closed s e h =
      subst (λ x. IsOrdered n m p src ra x s) (sym e) h
  write_from-IsOrdered overflowed ra closed s e h = absurd h.writer

  pub write_step-IsOrdered :
      (closed : Bool) (s : System)
      → IsOrdered n m p src s.r_at s.w_at s
      → IsOrdered n m p src
          (write_step src m closed s).r_at
          (write_step src m closed s).w_at
          (write_step src m closed s)
  unfolding write_step
  write_step-IsOrdered closed s h =
      let s' = write_from s.w_at src m closed s in
      subst (λ x. IsOrdered n m p src x s'.w_at s') (sym (r_at-write_from src m s.w_at closed s))
        (write_from-IsOrdered s.w_at s.r_at closed s refl h)
