-- ===== src/Fs/Server.antt =====
-- The state of the server and its commands. A block that is cached at `disk_addr(n)` is known by its
-- number `n`, and its 4096 bytes are 1024 words of 32 bits. Block numbers are below
-- DISKMAX / BLOCK_SIZE, which `read_super` checks, so that `disk_addr` does not wrap.
use mos_riscv.Prelude.{ℕ, Bool, true, update}
use mos_riscv.Kern.Error.{Error}

abbrev pub block_size : ℕ
block_size = 4096

abbrev pub ndirect : ℕ
ndirect = 10

abbrev pub nindirect : ℕ
nindirect = 1024

abbrev pub maxnamelen : ℕ
maxnamelen = 128

abbrev pub diskmap : ℕ
diskmap = 0x10000000

abbrev pub fs_magic : ℕ
fs_magic = 0x68286097

pub record Server : Type 0 where
  -- whether the pointers `super` and `bitmap` are set, to blocks 1 and 2
  pub super : Bool
  pub bitmap : Bool
  -- which blocks are in the cache, with the dirty bit that the hardware sets on a write
  pub mapped : ℕ → Bool
  pub dirty : ℕ → Bool
  -- the words of the cache and those of the disk
  pub word : ℕ → ℕ → ℕ
  pub disk : ℕ → ℕ → ℕ
  -- whether the kernel grants the page that is asked for, by the number of the request
  pub grants : ℕ → Bool
  pub asked : ℕ

-- A call ends with a result, with a negative return value, or in a panic. A NULL pointer that is
-- dereferenced ends in a panic of the kernel.
pub data Io (A : Type 0) : Type 0 where
  done : A → Server → Io A
  failed : Error → Server → Io A
  stopped : Io A

abbrev pub Cmd : Type 0 → Type 0
Cmd A = Server → Io A

abbrev pub pure : {A : Type 0} → A → Cmd A
pure a s = done a s

abbrev pub fail : {A : Type 0} → Error → Cmd A
fail e s = failed e s

abbrev pub user_panic : {A : Type 0} → Cmd A
user_panic s = stopped

abbrev pub modify : (Server → Server) → Cmd (Unit {0})
modify f s = done tt (f s)

module _ {A B : Type 0} where
  -- The caller returns a negative value that it gets.
  abbrev pub and_then : Io A → (A → Cmd B) → Io B
  and_then (done a s) k = k a s
  and_then (failed e s) k = failed e s
  and_then stopped k = stopped

  -- The caller looks at it.
  abbrev pub catch : Io A → (A → Cmd B) → (Error → Cmd B) → Io B
  catch (done a s) k h = k a s
  catch (failed e s) k h = h e s
  catch stopped k h = stopped

  infixl 5 ◌>>=◌ ◌>>◌
  abbrev pub ◌>>=◌ : Cmd A → (A → Cmd B) → Cmd B
  m >>= k = λ s. and_then (m s) k

  abbrev pub ◌>>◌ : Cmd A → Cmd B → Cmd B
  m >> n = m >>= λ _. n

-- `panic_on`
abbrev pub panic_on : {A : Type 0} → Cmd A → Cmd (Unit {0})
panic_on m s = catch (m s) (λ _. pure tt) (λ _. user_panic)

-- A pointer to a word of a cached block.
pub record Cell : Type 0 where
  pub block : ℕ
  pub index : ℕ

abbrev pub cell : ℕ → ℕ → Cell
cell b i = record { block = b; index = i }

unfoldable pub load : Server → Cell → ℕ
load s c = s.word c.block c.index

unfoldable pub store : Cell → ℕ → Server → Server
store c v s = record s {
  word = update s.word c.block (update (s.word c.block) c.index v);
  dirty = update s.dirty c.block true;
}

-- `super->s_nblocks`
unfoldable pub s_nblocks : Server → ℕ
s_nblocks s = s.word 1 1

-- The call comes back with a result or a negative value, and `P` or `Q` holds of it.
abbrev pub Ends : {A : Type 0} → (A → Server → Type 0) → (Error → Server → Type 0) → Io A → Type 0
Ends P Q (done a s) = P a s
Ends P Q (failed e s) = Q e s
Ends P Q stopped = ⊥

pub Ends-and_then :
    {A B : Type 0} (P : A → Server → Type 0) (R : B → Server → Type 0) (Q : Error → Server → Type 0)
    (r : Io A) (k : A → Cmd B)
    → Ends P Q r
    → ((a : A) (s : Server) → P a s → Ends R Q (k a s))
    → Ends R Q (and_then r k)
Ends-and_then P R Q (done a s) k p next = next a s p
Ends-and_then P R Q (failed e s) k p next = p
Ends-and_then P R Q stopped k p next = absurd p

pub Ends-weaken :
    {A : Type 0} (P P' : A → Server → Type 0) (Q Q' : Error → Server → Type 0) (r : Io A)
    → Ends P Q r
    → ((a : A) (s : Server) → P a s → P' a s)
    → ((e : Error) (s : Server) → Q e s → Q' e s)
    → Ends P' Q' r
Ends-weaken P P' Q Q' (done a s) p f g = f a s p
Ends-weaken P P' Q Q' (failed e s) p f g = g e s p
Ends-weaken P P' Q Q' stopped p f g = p

-- `P` holds of a result, if there is one.
abbrev pub Holds : {A : Type 0} → (A → Server → Type 0) → Io A → Type 0
Holds P (done a s) = P a s
Holds P (failed e s) = Unit
Holds P stopped = Unit

module _ {A B : Type 0} (P : A → Server → Type 0) (R : B → Server → Type 0) where
  pub Holds-and_then :
      (r : Io A) (k : A → Cmd B)
      → Holds P r
      → ((a : A) (s : Server) → P a s → Holds R (k a s))
      → Holds R (and_then r k)
  Holds-and_then (done a s) k p next = next a s p
  Holds-and_then (failed e s) k p next = tt
  Holds-and_then stopped k p next = tt
