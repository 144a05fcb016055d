-- ===== src/User/Pipe/Calls.antt =====
-- When `pipe_read` of user/lib/pipe.c returns, and when it does not.
use mos_riscv.Prelude.{
  ℕ, zero, suc, ◌+◌, ◌*◌, ◌%◌, ◌^◌, ◌<◌, ◌≤◌, ◌≡◌, ◌≢◌, refl, sym, ap, ◌∙◌, Bool, true, false, ◌&&◌,
  ◌==◌, ltb, arith, update,
}
use mathlib.Core.Path.{subst}
use mos_riscv.User.Pipe.Steps.{
  At, outer, inner, copy, advance, behind, waiting, returned, overflowed, System, read_from,
  read_step, pipe_size,
}

-- The reader alone, for as many steps; `answers` are those of `_pipe_is_closed`, the last one first.
unfoldable pub read_steps : (ℕ → Bool) → ℕ → ℕ → System → System
read_steps answers n zero s = s
read_steps answers n (suc k) s = read_steps answers n k (read_step n (answers k) s)

module _ (answers : ℕ → Bool) (n : ℕ) where
  step_at :
      (a : At) (k : ℕ) (s : System)
      → s.r_at ≡ a
      → read_steps answers n (suc k) s ≡ read_steps answers n k (read_from a n (answers k) s)
  unfolding read_steps read_step
  step_at a k s e = ap (λ (x : At). read_steps answers n k (read_from x n (answers k) s)) e

  -- The rounds of the inner loop, with the bytes that are left.
  rounds : ℕ → ℕ
  rounds zero = 2
  rounds (suc l) = suc (suc (suc (rounds l)))

  rounds_lem : (l : ℕ) → rounds l ≡ 3 * l + 2
  unfolding rounds
  rounds_lem zero = refl
  rounds_lem (suc l) = omega (arith, rounds_lem l)

  inner-copy :
      (c : Bool) (s : System)
      → s.r_i < n
      → s.pipe.p_rpos < s.pipe.p_wpos
      → read_from inner n c s ≡ record s { r_at = copy }
  unfolding read_from
  inner-copy c s lt there =
      let t : ltb s.pipe.p_rpos s.pipe.p_wpos && ltb s.r_i n ≡ true = ground arith in rw t refl

  inner-behind :
      (c : Bool) (s : System) → s.r_i ≡ n → read_from inner n c s ≡ record s { r_at = behind }
  unfolding read_from
  inner-behind c s e =
      let t : ltb s.pipe.p_rpos s.pipe.p_wpos && ltb s.r_i n ≡ false = ground arith in rw t refl

  behind-returned : (c : Bool) (s : System) → s.r_i ≡ n → (read_from behind n c s).r_at ≡ returned n
  unfolding read_from
  behind-returned c s e = let t : (s.r_i == n) ≡ true = ground arith in rw t (ap returned e)

  -- One round of the inner loop.
  round : System → System
  round s = record s {
    pipe = record {
      p_rpos = (s.pipe.p_rpos + 1) % 2 ^ 32;
      p_wpos = s.pipe.p_wpos;
      p_buf = s.pipe.p_buf;
    };
    r_at = inner;
    r_i = (s.r_i + 1) % 2 ^ 32;
    r_buf = update s.r_buf s.r_i (s.pipe.p_buf (s.pipe.p_rpos % pipe_size));
  }

  one_round :
      (k : ℕ) (s : System)
      → s.r_at ≡ inner
      → s.r_i < n
      → s.pipe.p_rpos < s.pipe.p_wpos
      → read_steps answers n (suc (suc (suc k))) s ≡ read_steps answers n k (round s)
  unfolding round
  one_round k s at lt there =
      step_at inner (suc (suc k)) s at
      ∙ ap (read_steps answers n (suc (suc k))) (inner-copy (answers (suc (suc k))) s lt there)
      ∙ step_at copy (suc k) (record s { r_at = copy }) refl
      ∙ unfold read_from in
        step_at advance k (read_from copy n (answers (suc k)) (record s { r_at = copy })) refl

  last_round :
      (s : System) → s.r_at ≡ inner → s.r_i ≡ n → (read_steps answers n 2 s).r_at ≡ returned n
  last_round s at e =
      ap (λ (x : System). x.r_at)
        (step_at inner 1 s at
          ∙ ap (read_steps answers n 1) (inner-behind (answers 1) s e)
          ∙ step_at behind 0 (record s { r_at = behind }) refl)
      ∙ unfold read_steps in behind-returned (answers 0) (record s { r_at = behind }) e

  inner-returned :
      (l : ℕ) (s : System)
      → s.r_at ≡ inner
      → s.r_i + l ≡ n
      → s.pipe.p_rpos + l ≤ s.pipe.p_wpos
      → s.pipe.p_wpos < 2 ^ 32
      → n < 2 ^ 32
      → (read_steps answers n (rounds l) s).r_at ≡ returned n
  unfolding rounds
  inner-returned zero s at total there bound word = last_round s at (omega arith)
  inner-returned (suc l) s at total there bound word =
      ap (λ (x : System). x.r_at) (one_round (rounds l) s at (omega arith) (omega arith))
      ∙ inner-returned l (round s) (unfold round in refl) (unfold round in omega arith)
          (unfold round in omega arith) (unfold round in bound) word

  outer-inner :
      (c : Bool) (s : System) → s.r_i < n → read_from outer n c s ≡ record s { r_at = inner }
  unfolding read_from
  outer-inner c s lt = let t : ltb s.r_i n ≡ true = ground arith in rw t refl

-- With `n` bytes in the pipe and positions that do not wrap, a call of `pipe_read` for them returns `n`
-- after 3 * n + 3 steps of its own, whatever the answers of `_pipe_is_closed`.
pub pipe_read-returned :
    (answers : ℕ → Bool) (n : ℕ) (s : System)
    → 0 < n
    → s.r_at ≡ outer
    → s.r_i ≡ 0
    → s.pipe.p_rpos + n ≤ s.pipe.p_wpos
    → s.pipe.p_wpos < 2 ^ 32
    → (read_steps answers n (3 * n + 3) s).r_at ≡ returned n
pipe_read-returned answers n s pos at z there bound =
    let count : 3 * n + 3 ≡ suc (rounds answers n n) = omega (arith, rounds_lem answers n n) in
    let first =
      step_at answers n outer (rounds answers n n) s at
      ∙ ap (read_steps answers n (rounds answers n n))
          (outer-inner answers n (answers (rounds answers n n)) s (omega arith)) in
    ap (λ (x : ℕ). (read_steps answers n x s).r_at) count
    ∙ ap (λ (x : System). x.r_at) first
    ∙ inner-returned answers n n (record s { r_at = inner }) refl (omega arith) there bound
        (omega arith)

-- The places that a reader passes that finds nothing.
abbrev Waits : At → Type 0
Waits outer = Unit
Waits inner = Unit
Waits behind = Unit
Waits waiting = Unit
Waits copy = ⊥
Waits advance = ⊥
Waits (returned v) = ⊥
Waits overflowed = ⊥

record IsStuck (n : ℕ) (a : At) (s : System) : Type 0 where
  wrapped : s.pipe.p_wpos < s.pipe.p_rpos
  unfinished : s.r_i < n
  waits : Waits a

IsStuck-at :
    (n : ℕ) (a b : At) (s : System) → IsStuck n a s → Waits b → IsStuck n b (record s { r_at = b })
IsStuck-at n a b s h w = record { wrapped = h.wrapped; unfinished = h.unfinished; waits = w }

read_from-IsStuck :
    (n : ℕ) (a : At) (c : Bool) (s : System)
    → IsStuck n a s
    → IsStuck n (read_from a n c s).r_at (read_from a n c s)
unfolding read_from
read_from-IsStuck n outer c s h =
    let t : ltb s.r_i n ≡ true = ground (arith, h.unfinished) in
    rw t (IsStuck-at n outer inner s h tt)
read_from-IsStuck n inner c s h =
    let t : ltb s.pipe.p_rpos s.pipe.p_wpos && ltb s.r_i n ≡ false = ground (arith, h.wrapped) in
    rw t (IsStuck-at n inner behind s h tt)
read_from-IsStuck n behind c s h =
    let t : (s.r_i == n) ≡ false = ground (arith, h.unfinished) in
    rw t (IsStuck-at n behind waiting s h tt)
read_from-IsStuck n waiting c s h =
    let t : (s.pipe.p_rpos == s.pipe.p_wpos) ≡ false = ground (arith, h.wrapped) in
    rw t (IsStuck-at n waiting outer s h tt)
read_from-IsStuck n copy c s h = absurd h.waits
read_from-IsStuck n advance c s h = absurd h.waits
read_from-IsStuck n (returned v) c s h = absurd h.waits
read_from-IsStuck n overflowed c s h = absurd h.waits

read_steps-IsStuck :
    (answers : ℕ → Bool) (n k : ℕ) (s : System)
    → IsStuck n s.r_at s
    → IsStuck n (read_steps answers n k s).r_at (read_steps answers n k s)
unfolding read_steps read_step
read_steps-IsStuck answers n zero s h = h
read_steps-IsStuck answers n (suc k) s h =
    read_steps-IsStuck answers n k (read_from s.r_at n (answers k) s)
      (read_from-IsStuck n s.r_at (answers k) s h)

-- Once `p_wpos` has wrapped and is below `p_rpos`, and the writer does not run, a call of `pipe_read` for at least one byte does not
-- return, however long it runs and whatever the answers of `_pipe_is_closed`, although there are bytes in
-- the pipe.
pub pipe_read-wrapped :
    (answers : ℕ → Bool) (n k v : ℕ) (s : System)
    → 0 < n
    → s.r_at ≡ outer
    → s.r_i ≡ 0
    → s.pipe.p_wpos < s.pipe.p_rpos
    → (read_steps answers n k s).r_at ≢ returned v
pipe_read-wrapped answers n k v s pos at z wrapped e =
    let start : IsStuck n s.r_at s = record {
      wrapped = wrapped;
      unfinished = omega arith;
      waits = subst Waits (sym at) tt;
    } in
    subst Waits e (read_steps-IsStuck answers n k s start).waits
