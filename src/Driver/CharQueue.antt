-- ===== src/Driver/CharQueue.antt =====
-- The ring buffer of driver/serial/char_queue.c and its header.
use mos_riscv.Prelude.{
  ℕ, zero, suc, ◌+◌, ◌-◌, ◌%◌, ◌^◌, ◌<◌, ◌≤◌, ◌≡◌, ◌≢◌, refl, ap, ◌∙◌, Bool, List, [], ◌∷◌, ◌++◌,
  ◌==◌, false, update, arith,
}

abbrev pub buffer_size : ℕ
buffer_size = 4096

pub record CharQueue : Type 0 where
  pub buffer : ℕ → ℕ
  pub front : ℕ
  pub rear : ℕ
  pub count : ℕ

unfoldable pub queue_init : CharQueue → CharQueue
queue_init q = record q { count = 0; front = 0; rear = buffer_size - 1 }

unfoldable pub is_full : CharQueue → Bool
is_full q = q.count == buffer_size

unfoldable pub is_empty : CharQueue → Bool
is_empty q = q.count == 0

unfoldable pub enqueue : ℕ → CharQueue → CharQueue
enqueue data_in q =
    let r = (q.rear + 1) % 2 ^ 64 % buffer_size in
    record q { rear = r; buffer = update q.buffer r data_in; count = (q.count + 1) % 2 ^ 64 }

unfoldable pub dequeue : CharQueue → ℕ × CharQueue
dequeue q = (
  q.buffer q.front,
  record q {
    front = (q.front + 1) % 2 ^ 64 % buffer_size;
    count = (q.count + 2 ^ 64 - 1) % 2 ^ 64;
  },
)

-- `n` characters of the ring from index `i` on.
unfoldable pub read : ℕ → ℕ → (ℕ → ℕ) → List ℕ
read zero i b = []
read (suc n) i b = b i ∷ read n ((i + 1) % 4096) b

-- The queue as its users see it.
unfoldable pub contents : CharQueue → List ℕ
contents q = read q.count q.front q.buffer

-- `rear` is the last index that is in use.
pub record IsRing (q : CharQueue) : Type 0 where
  pub front_lt : q.front < 4096
  pub rear_lt : q.rear < 4096
  pub count_le : q.count ≤ 4096
  pub last : (q.rear + 1) % 4096 ≡ (q.front + q.count) % 4096

read-snoc :
    (n i : ℕ) (b : ℕ → ℕ) → i < 4096 → read (suc n) i b ≡ read n i b ++ (b ((i + n) % 4096) ∷ [])
unfolding read
read-snoc zero i b h = ap (λ (j : ℕ). b j ∷ []) (omega arith)
read-snoc (suc n) i b h =
    let j = (i + 1) % 4096 in
    let e : (j + n) % 4096 ≡ (i + suc n) % 4096 = omega arith in
    ap (λ l. b i ∷ l) (read-snoc n j b (omega arith) ∙ ap (λ (k : ℕ). read n j b ++ (b k ∷ [])) e)

-- A write outside the part that is read.
read-update :
    (n i j v : ℕ) (b : ℕ → ℕ)
    → i < 4096
    → ((m : ℕ) → m < n → (i + m) % 4096 ≢ j)
    → read n i (update b j v) ≡ read n i b
unfolding read
read-update zero i j v b h out = refl
read-update (suc n) i j v b h out =
    let k = (i + 1) % 4096 in
    let apart : i ≢ j = λ e. out 0 (omega arith) (omega arith) in
    let tail : read n k (update b j v) ≡ read n k b =
      read-update n k j v b (omega arith) (λ m lt e. out (suc m) (omega arith) (omega arith)) in
    let head : update b j v i ≡ b i = ground arith in rw (tail, head) refl

-- The slot behind the part that is read takes a character.
filled :
    (n i d : ℕ) (b : ℕ → ℕ)
    → i < 4096
    → n < 4096
    → read n i (update b ((i + n) % 4096) d) ++ (update b ((i + n) % 4096) d ((i + n) % 4096) ∷ [])
      ≡ read n i b ++ (d ∷ [])
filled n i d b h lt =
    let j = (i + n) % 4096 in
    let new : update b j d j ≡ d = ground arith in
    rw (read-update n i j d b h (λ m le e. absurd (omega arith)), new) refl

taken_first :
    (n i : ℕ) (b : ℕ → ℕ)
    → 0 < n
    → n ≤ 4096
    → read n i b ≡ b i ∷ read ((n + 2 ^ 64 - 1) % 2 ^ 64) ((i + 1) % 2 ^ 64 % 4096) b
unfolding read
taken_first zero i b pos le = absurd (omega arith)
taken_first (suc n) i b pos le =
    let less : (suc n + 2 ^ 64 - 1) % 2 ^ 64 ≡ n = omega arith in
    let next : (i + 1) % 2 ^ 64 % 4096 ≡ (i + 1) % 4096 = omega arith in rw (less, next) refl

-- `queue_init` makes an empty queue in order.
pub queue_init-IsRing : (q : CharQueue) → IsRing (queue_init q) × (contents (queue_init q) ≡ [])
unfolding queue_init contents read
queue_init-IsRing q = (
  record { front_lt = omega arith; rear_lt = omega arith; count_le = omega arith; last = refl },
  refl,
)

-- `enqueue` on a queue in order that is not full puts the character behind the others, and leaves
-- the queue in order.
pub enqueue-contents :
    (d : ℕ) (q : CharQueue)
    → IsRing q
    → is_full q ≡ false
    → IsRing (enqueue d q) × (contents (enqueue d q) ≡ contents q ++ (d ∷ []))
unfolding enqueue contents is_full
enqueue-contents d q s f =
    let lt : q.count < 4096 = ground (arith, s.count_le) in
    let f_lt = s.front_lt in
    let r_lt = s.rear_lt in
    let e = s.last in
    let slot : (q.rear + 1) % 2 ^ 64 % 4096 ≡ (q.front + q.count) % 4096 = omega arith in
    let more : (q.count + 1) % 2 ^ 64 ≡ suc q.count = omega arith in
    (
      record { front_lt = f_lt; rear_lt = omega arith; count_le = omega arith; last = omega arith },
      rw (more, slot)
          (read-snoc q.count q.front _ f_lt ∙ filled q.count q.front d q.buffer f_lt lt),
    )

-- `dequeue` on a queue in order that is not empty takes off the oldest character, and leaves the
-- queue in order.
pub dequeue-contents :
    (q : CharQueue)
    → IsRing q
    → is_empty q ≡ false
    → IsRing (dequeue q).1 × (contents q ≡ (dequeue q).0 ∷ contents (dequeue q).1)
unfolding dequeue contents is_empty
dequeue-contents q s f =
    let pos : 0 < q.count = ground arith in
    let f_lt = s.front_lt in
    let r_lt = s.rear_lt in
    let c_le = s.count_le in
    let e = s.last in
    (
      record { front_lt = omega arith; rear_lt = r_lt; count_le = omega arith; last = omega arith },
      taken_first q.count q.front q.buffer pos s.count_le,
    )
