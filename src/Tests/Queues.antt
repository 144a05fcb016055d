-- ===== src/Tests/Queues.antt =====
-- A character queue after a few calls.
use mos_riscv.Prelude.{◌≡◌, ◌++◌, refl, false, [], ◌∷◌}
use mos_riscv.Driver.CharQueue.{
  CharQueue, IsRing, queue_init, enqueue, dequeue, contents, is_full, is_empty, queue_init-IsRing,
  enqueue-contents, dequeue-contents,
}

abbrev start : CharQueue
start = record { buffer = λ _. 0; front = 5; rear = 9; count = 7 }

abbrev fresh : CharQueue
fresh = queue_init start

fresh-IsRing : IsRing fresh × (contents fresh ≡ [])
fresh-IsRing = queue_init-IsRing start

fresh-open : is_full fresh ≡ false
unfolding is_full queue_init
fresh-open = refl

enqueue-contents_example :
    IsRing (enqueue 65 fresh) × (contents (enqueue 65 fresh) ≡ contents fresh ++ (65 ∷ []))
enqueue-contents_example = enqueue-contents 65 fresh (queue_init-IsRing start).0 fresh-open

abbrev one : CharQueue
one = enqueue 65 fresh

one-used : is_empty one ≡ false
unfolding is_empty enqueue queue_init
one-used = refl

dequeue-contents_example :
    IsRing (dequeue one).1 × (contents one ≡ (dequeue one).0 ∷ contents (dequeue one).1)
dequeue-contents_example =
    dequeue-contents one (enqueue-contents 65 fresh (queue_init-IsRing start).0 fresh-open).0
      one-used
