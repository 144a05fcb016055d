-- ===== src/Prelude/Run.antt =====
-- Commands on a state `S`: a command ends with a value and a new state, or in a panic.
use mathlib.Core.Bool.{Bool, true, false}
use mathlib.Core.Option.{Option, none, some}
use mos_riscv.Prelude.Tests.{if◌then◌else◌}

-- `stopped` is a call of `panic` or a failed `assert`, after which the machine halts. `wild` is
-- anything that leaves the states described here: undefined behaviour, such as a write through NULL, and a list
-- macro on an element that is not on the list, which may come back, but with links that are those of no list.
pub data Run (S A : Type 0) : Type 0 where
  done : A → S → Run S A
  stopped : Run S A
  wild : Run S A

abbrev pub Cmd : Type 0 → Type 0 → Type 0
Cmd S A = S → Run S A

abbrev pub pure : {S A : Type 0} → A → Cmd S A
pure a s = done a s

abbrev pub panic : {S A : Type 0} → Cmd S A
panic s = stopped

module _ {S A B : Type 0} where
  abbrev pub and_then : Run S A → (A → Cmd S B) → Run S B
  and_then (done a s) k = k a s
  and_then stopped k = stopped
  and_then wild k = wild

  infixl 5 ◌>>=◌ ◌>>◌
  abbrev pub ◌>>=◌ : Cmd S A → (A → Cmd S B) → Cmd S B
  m >>= k = λ s. and_then (m s) k

  abbrev pub ◌>>◌ : Cmd S A → Cmd S B → Cmd S B
  m >> n = m >>= λ _. n

-- Undefined behaviour.
abbrev pub undefined : {S A : Type 0} → Cmd S A
undefined s = wild

-- `assert(x)`
abbrev pub assert : {S : Type 0} → Bool → Cmd S (Unit {0})
assert true = pure tt
assert false = panic

-- A change of the state that cannot fail.
abbrev pub modify : {S : Type 0} → (S → S) → Cmd S (Unit {0})
modify f s = done tt (f s)

-- The command ends, and `P` holds of what it returns and of the state that it leaves.
abbrev pub Returns : {S A : Type 0} → (A → S → Type 0) → Run S A → Type 0
Returns P (done a s) = P a s
Returns P stopped = ⊥
Returns P wild = ⊥

-- The command has no undefined behaviour, and `P` holds if it does not panic.
abbrev pub Keeps : {S A : Type 0} → (A → S → Type 0) → Run S A → Type 0
Keeps P (done a s) = P a s
Keeps P stopped = Unit
Keeps P wild = ⊥

-- The command has no undefined behaviour, panics only where `X` is the case, and `P` holds if it does not panic.
abbrev pub KeepsUnless : {S A : Type 0} → Type 0 → (A → S → Type 0) → Run S A → Type 0
KeepsUnless X P (done a s) = P a s
KeepsUnless X P stopped = X
KeepsUnless X P wild = ⊥

pub KeepsUnless-and_then :
    {S A B : Type 0} (X : Type 0) (P : A → S → Type 0) (Q : B → S → Type 0) (r : Run S A)
    (k : A → Cmd S B)
    → KeepsUnless X P r
    → ((a : A) (s : S) → P a s → KeepsUnless X Q (k a s))
    → KeepsUnless X Q (and_then r k)
KeepsUnless-and_then X P Q (done a s) k p next = next a s p
KeepsUnless-and_then X P Q stopped k p next = p
KeepsUnless-and_then X P Q wild k p next = absurd p

pub KeepsUnless-weaken :
    {S A : Type 0} (X Y : Type 0) (P Q : A → S → Type 0) (r : Run S A)
    → KeepsUnless X P r
    → (X → Y)
    → ((a : A) (s : S) → P a s → Q a s)
    → KeepsUnless Y Q r
KeepsUnless-weaken X Y P Q (done a s) p why weaken = weaken a s p
KeepsUnless-weaken X Y P Q stopped p why weaken = why p
KeepsUnless-weaken X Y P Q wild p why weaken = absurd p

pub KeepsUnless-Keeps :
    {S A : Type 0} (X : Type 0) (P : A → S → Type 0) (r : Run S A) → KeepsUnless X P r → Keeps P r
KeepsUnless-Keeps X P (done a s) p = p
KeepsUnless-Keeps X P stopped p = tt
KeepsUnless-Keeps X P wild p = absurd p

pub Returns-KeepsUnless :
    {S A : Type 0} (X : Type 0) (P : A → S → Type 0) (r : Run S A) → Returns P r → KeepsUnless X P r
Returns-KeepsUnless X P (done a s) p = p
Returns-KeepsUnless X P stopped p = absurd p
Returns-KeepsUnless X P wild p = absurd p

module _ {S A B : Type 0} (P : A → S → Type 0) (Q : B → S → Type 0) where
  pub Returns-and_then :
      (r : Run S A) (k : A → Cmd S B)
      → Returns P r
      → ((a : A) (s : S) → P a s → Returns Q (k a s))
      → Returns Q (and_then r k)
  Returns-and_then (done a s) k p next = next a s p
  Returns-and_then stopped k p next = p
  Returns-and_then wild k p next = p

  pub Keeps-and_then :
      (r : Run S A) (k : A → Cmd S B)
      → Keeps P r
      → ((a : A) (s : S) → P a s → Keeps Q (k a s))
      → Keeps Q (and_then r k)
  Keeps-and_then (done a s) k p next = next a s p
  Keeps-and_then stopped k p next = tt
  Keeps-and_then wild k p next = p

pub Returns-weaken :
    {S A : Type 0} (P Q : A → S → Type 0) (r : Run S A)
    → Returns P r
    → ((a : A) (s : S) → P a s → Q a s)
    → Returns Q r
Returns-weaken P Q (done a s) p weaken = weaken a s p
Returns-weaken P Q stopped p weaken = p
Returns-weaken P Q wild p weaken = p

pub Returns-Keeps :
    {S A : Type 0} (P Q : A → S → Type 0) (r : Run S A)
    → Returns P r
    → ((a : A) (s : S) → P a s → Q a s)
    → Keeps Q r
Returns-Keeps P Q (done a s) p weaken = weaken a s p
Returns-Keeps P Q stopped p weaken = tt
Returns-Keeps P Q wild p weaken = absurd p

pub Keeps-weaken :
    {S A : Type 0} (P Q : A → S → Type 0) (r : Run S A)
    → Keeps P r
    → ((a : A) (s : S) → P a s → Q a s)
    → Keeps Q r
Keeps-weaken P Q (done a s) p weaken = weaken a s p
Keeps-weaken P Q stopped p weaken = tt
Keeps-weaken P Q wild p weaken = p

-- The command has no undefined behaviour.
abbrev pub IsSafe : {S A : Type 0} → Run S A → Type 0
IsSafe r = Keeps (λ _ _. Unit {0}) r

pub Keeps-if :
    {S A : Type 0} (P : A → S → Type 0) (b : Bool) (x y : Run S A)
    → Keeps P x
    → Keeps P y
    → Keeps P (if b then x else y)
Keeps-if P true x y h k = h
Keeps-if P false x y h k = k

module _ {S B : Type 0} (P : B → S → Type 0) where
  -- A command that is chosen by a test.
  pub Keeps-choose :
      (b : Bool) (m n : Cmd S B) (s : S)
      → Keeps P (m s)
      → Keeps P (n s)
      → Keeps P ((if b then m else n) s)
  Keeps-choose true m n s h k = h
  Keeps-choose false m n s h k = k

  -- A command that is chosen by an option.
  pub Keeps-option :
      {A : Type 0} (o : Option A) (n : Cmd S B) (f : A → Cmd S B) (s : S)
      → Keeps P (n s)
      → ((a : A) → Keeps P (f a s))
      → Keeps P ((elim o as (λ _. Cmd S B) [ none ↦ n | some a ↦ f a ]) s)
  Keeps-option none n f s h k = h
  Keeps-option (some a) n f s h k = k a

  -- The same where the branches have the state.
  pub Keeps-option_run :
      {A : Type 0} (o : Option A) (n : Run S B) (f : A → Run S B)
      → Keeps P n
      → ((a : A) → Keeps P (f a))
      → Keeps P (elim o as (λ _. Run S B) [ none ↦ n | some a ↦ f a ])
  Keeps-option_run none n f h k = h
  Keeps-option_run (some a) n f h k = k a
