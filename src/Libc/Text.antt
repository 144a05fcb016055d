-- ===== src/Libc/Text.antt =====
-- `strlen`, `strcpy`, `strchr` and `strcmp` of lib/string.c. A pointer is an address; the fuel bounds the rounds
-- of a loop, and `none` is a loop that goes on. A `char` is a byte, which is unsigned on RISC-V.
use mos_riscv.Prelude.{
  ℕ, zero, suc, ◌+◌, ◌<◌, ◌≤◌, ◌⊎◌, ◌≡◌, ◌≢◌, refl, sym, ap, ◌∙◌, not, ◌&&◌, true, false, Option,
  none, some, ◌==◌, ==_self, ltb, if◌then◌else◌, update, inl, arith,
}
use mos_riscv.Libc.Memory.{Memory}

-- `n` counts the characters that were seen.
unfoldable pub strlen : ℕ → ℕ → ℕ → Memory → Option ℕ
strlen zero n s mem = none
strlen (suc fuel) n s mem =
    let rest = strlen fuel (n + 1) (s + 1) mem in if mem s == 0 then some n else rest

-- The memory that is left.
unfoldable pub strcpy : ℕ → ℕ → ℕ → Memory → Option Memory
strcpy zero dst src mem = none
strcpy (suc fuel) dst src mem =
    let mem' = update mem dst (mem src) in
    let rest = strcpy fuel (dst + 1) (src + 1) mem' in if mem src == 0 then some mem' else rest

-- `some none` is the null pointer.
unfoldable pub strchr : ℕ → ℕ → ℕ → Memory → Option (Option ℕ)
strchr zero s c mem = none
strchr (suc fuel) s c mem =
    let rest = strchr fuel (s + 1) c mem in
    if mem s == 0 then some none else if mem s == c then some (some s) else rest

-- The results -1, 0 and 1.
pub data Sign : Type 0 where
  minus_one : Sign
  nought : Sign
  one : Sign

unfoldable pub sign : ℕ → ℕ → Sign
sign a b = if ltb a b then minus_one else if ltb b a then one else nought

unfoldable pub strcmp : ℕ → ℕ → ℕ → Memory → Option Sign
strcmp zero p q mem = none
strcmp (suc fuel) p q mem =
    let rest = strcmp fuel (p + 1) (q + 1) mem in
    if not (mem p == 0) && (mem p == mem q) then rest else some (sign (mem p) (mem q))

-- A text of `n` characters, with the zero that ends it.
pub record IsText (n s : ℕ) (mem : Memory) : Type 0 where
  pub ends : mem (s + n) ≡ 0
  pub goes_on : (i : ℕ) → i < n → mem (s + i) ≢ 0

IsText-rest : (n s : ℕ) (mem : Memory) → IsText (suc n) s mem → IsText n (s + 1) mem
IsText-rest n s mem t = record {
  ends = ap mem (omega arith) ∙ t.ends;
  goes_on = λ i lt z. t.goes_on (i + 1) (omega arith) (ap mem (omega arith) ∙ z);
}

not_ended : (n s : ℕ) (mem : Memory) → IsText (suc n) s mem → (mem s == 0) ≡ false
not_ended n s mem t =
    let more : mem s ≢ 0 = λ z. t.goes_on 0 (omega arith) (ap mem (omega arith) ∙ z) in ground arith

strlen-IsText : (n m s : ℕ) (mem : Memory) → IsText n s mem → strlen (suc n) m s mem ≡ some (m + n)
unfolding strlen
strlen-IsText zero m s mem t =
    let z : mem s ≡ 0 = ap mem (omega arith) ∙ t.ends in rw z (ap (λ (x : ℕ). some x) (omega arith))
strlen-IsText (suc n) m s mem t = rw (not_ended n s mem t) (
    strlen-IsText n (m + 1) (s + 1) mem (IsText-rest n s mem t)
    ∙ ap (λ (x : ℕ). some x) (omega arith))

-- The texts at `p` and `q` are the same.
strcmp-IsText :
    (n p q : ℕ) (mem : Memory)
    → IsText n p mem
    → ((i : ℕ) → i ≤ n → mem (q + i) ≡ mem (p + i))
    → strcmp (suc n) p q mem ≡ some nought
unfolding strcmp sign
strcmp-IsText zero p q mem t same =
    let z : mem p ≡ 0 = ap mem (omega arith) ∙ t.ends in
    let e : mem q ≡ 0 = ap mem (omega arith) ∙ same 0 (omega arith) ∙ t.ends in rw (z, e) refl
strcmp-IsText (suc n) p q mem t same =
    let e : mem q ≡ mem p = ap mem (omega arith) ∙ same 0 (omega arith) ∙ ap mem (omega arith) in
    rw (e, not_ended n p mem t, ==_self (mem p))
      (strcmp-IsText n (p + 1) (q + 1) mem (IsText-rest n p mem t)
        (λ i lt. ap mem (omega arith) ∙ same (i + 1) (omega arith) ∙ ap mem (omega arith)))

-- `n` characters and the zero behind them were copied from `src` to `dst`, and nothing else changed.
pub record IsCopy (n dst src : ℕ) (mem mem' : Memory) : Type 0 where
  pub copied : (i : ℕ) → i ≤ n → mem' (dst + i) ≡ mem (src + i)
  pub outside : (a : ℕ) → (a < dst) ⊎ (dst + n < a) → mem' a ≡ mem a

-- Bytes that do not overlap.
abbrev pub Apart : ℕ → ℕ → ℕ → Type 0
Apart n dst src = (dst + n < src) ⊎ (src + n < dst)

update_self : (mem : Memory) (d v : ℕ) → update mem d v d ≡ v
update_self mem d v = rw (==_self d) refl

update_other : (mem : Memory) (d v a : ℕ) → (a < d) ⊎ (d < a) → update mem d v a ≡ mem a
update_other mem d v a apart = let e : (a == d) ≡ false = ground arith in rw e refl

IsText-update :
    (n s d v : ℕ) (mem : Memory)
    → (d < s) ⊎ (s + n < d)
    → IsText n s mem
    → IsText n s (update mem d v)
IsText-update n s d v mem apart t = record {
  ends = update_other mem d v (s + n) (ground arith) ∙ t.ends;
  goes_on = λ i lt z. t.goes_on i lt (sym (update_other mem d v (s + i) (ground arith)) ∙ z);
}

first_and_rest :
    (n dst src : ℕ) (mem mem' : Memory)
    → Apart (suc n) dst src
    → IsCopy n (dst + 1) (src + 1) (update mem dst (mem src)) mem'
    → (i : ℕ) → i ≤ suc n
    → mem' (dst + i) ≡ mem (src + i)
first_and_rest n dst src mem mem' apart c zero le =
    ap mem' (omega arith)
    ∙ c.outside dst (inl (omega arith))
    ∙ update_self mem dst (mem src)
    ∙ ap mem (omega arith)
first_and_rest n dst src mem mem' apart c (suc i) le =
    ap mem' (omega arith)
    ∙ c.copied i (omega arith)
    ∙ update_other mem dst (mem src) (src + 1 + i) (ground arith)
    ∙ ap mem (omega arith)

IsCopy-suc :
    (n dst src : ℕ) (mem mem' : Memory)
    → Apart (suc n) dst src
    → IsCopy n (dst + 1) (src + 1) (update mem dst (mem src)) mem'
    → IsCopy (suc n) dst src mem mem'
IsCopy-suc n dst src mem mem' apart c = record {
  copied = first_and_rest n dst src mem mem' apart c;
  outside = λ a far. c.outside a (ground arith) ∙ update_other mem dst (mem src) a (ground arith);
}

strcpy-IsCopy :
    (n dst src : ℕ) (mem : Memory)
    → IsText n src mem
    → Apart n dst src
    → (mem' : Memory) × (strcpy (suc n) dst src mem ≡ some mem') × IsCopy n dst src mem mem'
unfolding strcpy
strcpy-IsCopy zero dst src mem t apart =
    let z : (mem src == 0) ≡ true =
      (let e : mem src ≡ 0 = ap mem (omega arith) ∙ t.ends in ground arith) in
    (
      update mem dst (mem src),
      rw z refl,
      record {
        copied = λ i le.
            let o : i ≡ 0 = omega arith in
            let e : dst + i ≡ dst = omega arith in
            let f : src + i ≡ src = omega arith in rw (e, f, ==_self dst) refl;
        outside = λ a far. update_other mem dst (mem src) a (ground arith);
      },
    )
strcpy-IsCopy (suc n) dst src mem t apart =
    let mem' = update mem dst (mem src) in
    let rest =
      strcpy-IsCopy n (dst + 1) (src + 1) mem'
        (IsText-update n (src + 1) dst (mem src) mem (ground arith) (IsText-rest n src mem t))
        (ground arith) in
    (rest.0, rw (not_ended n src mem t) rest.1, IsCopy-suc n dst src mem rest.0 apart rest.2)

-- What `strcpy` leaves is what `strlen` and `strcmp` say it is: for a text of `n` characters and a destination whose
-- `n + 1` bytes do not overlap with it, `n + 1` rounds are enough for `strcpy`; it changes no byte outside the
-- destination, the copy has the length `n`, the text is still there, and the two compare equal.
pub strcpy-strcmp :
    (n dst src : ℕ) (mem : Memory)
    → IsText n src mem
    → Apart n dst src
    → (mem' : Memory) × (strcpy (suc n) dst src mem ≡ some mem')
      × ((a : ℕ) → (a < dst) ⊎ (dst + n < a) → mem' a ≡ mem a)
      × (strlen (suc n) 0 dst mem' ≡ some n)
      × (strlen (suc n) 0 src mem' ≡ some n)
      × (strcmp (suc n) dst src mem' ≡ some nought)
strcpy-strcmp n dst src mem t apart =
    let all = strcpy-IsCopy n dst src mem t apart in
    let c = all.2 in
    let kept : (i : ℕ) → i ≤ n → all.0 (src + i) ≡ mem (src + i) =
      λ i le. c.outside (src + i) (ground arith) in
    let there : IsText n dst all.0 = record {
      ends = c.copied n (omega arith) ∙ t.ends;
      goes_on = λ i lt z. t.goes_on i lt (sym (c.copied i (omega arith)) ∙ z);
    } in
    let still : IsText n src all.0 = record {
      ends = kept n (omega arith) ∙ t.ends;
      goes_on = λ i lt z. t.goes_on i lt (sym (kept i (omega arith)) ∙ z);
    } in
    (
      all.0,
      all.1,
      c.outside,
      strlen-IsText n 0 dst all.0 there ∙ ap (λ (x : ℕ). some x) (omega arith),
      strlen-IsText n 0 src all.0 still ∙ ap (λ (x : ℕ). some x) (omega arith),
      strcmp-IsText n dst src all.0 there (λ i le. kept i le ∙ sym (c.copied i le)),
    )
