-- ===== src/Ring/Tests.antt =====
-- A small ring, run through its operations, and the theorems at it.
use iocpnet_module_mono_repo.Prelude.{◌+◌, ◌≡◌, refl, [], ◌∷◌, ◌++◌, arith, length, min}
use iocpnet_module_mono_repo.Prelude.Memory.{Memory, copy_in, read}
use iocpnet_module_mono_repo.Ring.{
  RingBuffer, use_size, free_size, direct_enqueue_size, direct_dequeue_size, enqueue, dequeue,
  move_rear,
}
use iocpnet_module_mono_repo.Ring.Contents.{IsValid, contents, span}
use iocpnet_module_mono_repo.Ring.Dequeue.{dequeue_lem}
use iocpnet_module_mono_repo.Ring.Enqueue.{enqueue_lem}
use iocpnet_module_mono_repo.Ring.Posted.{IsFilled, move_rear-IsFilled}

-- Eight bytes, of which the offsets 5, 6, 7 and 0 are held.
abbrev wrapped : RingBuffer
wrapped = record { memory = λ i. i + 10; buffer_size = 8; front = 5; rear = 1 }

-- The offsets 5 and 6 are held: four more bytes go round the end.
abbrev late : RingBuffer
late = record { memory = λ i. i + 10; buffer_size = 8; front = 5; rear = 7 }

contents-wrapped : contents wrapped ≡ 15 ∷ 16 ∷ 17 ∷ 10 ∷ []
unfolding span read
contents-wrapped = refl

enqueue-late : contents (enqueue (1 ∷ 2 ∷ 3 ∷ []) late).1 ≡ 15 ∷ 16 ∷ 1 ∷ 2 ∷ 3 ∷ []
unfolding span read enqueue free_size use_size direct_enqueue_size copy_in
enqueue-late = refl

dequeue-wrapped : (dequeue 9 wrapped).1 ≡ 15 ∷ 16 ∷ 17 ∷ 10 ∷ []
unfolding read dequeue use_size direct_dequeue_size
dequeue-wrapped = refl

wrapped-IsValid : IsValid wrapped
wrapped-IsValid = omega arith

late-IsValid : IsValid late
late-IsValid = omega arith

dequeue_example :
    let (n, out, r') = dequeue 3 wrapped in
    (n ≡ min 3 (use_size wrapped))
    × (length out ≡ n)
    × (contents wrapped ≡ out ++ contents r')
    × IsValid r'
dequeue_example = dequeue_lem 3 wrapped wrapped-IsValid

enqueue_example :
    let (n, r') = enqueue (1 ∷ 2 ∷ 3 ∷ []) late in
    (n ≡ 3)
    × (contents r' ≡ contents late ++ 1 ∷ 2 ∷ 3 ∷ [])
    × IsValid r'
    × (read r'.memory 8 4 ≡ read late.memory 8 4)
unfolding free_size use_size
enqueue_example = enqueue_lem (1 ∷ 2 ∷ 3 ∷ []) late 4 late-IsValid (omega arith)

-- The memory of `late` after two bytes arrived.
abbrev arrived : Memory
arrived i = copy_in (copy_in late.memory 7 (1 ∷ [])) 0 (2 ∷ []) i

late-IsFilled : IsFilled late.memory arrived 7 1 (1 ∷ 2 ∷ [])
unfolding read copy_in
late-IsFilled = record { bytes = refl; kept = λ i away high. ground arith }

move_rear-IsFilled_example :
    let (n, r') = move_rear 2 (record late { memory = arrived }) in
    (n ≡ 2)
    × (contents r' ≡ contents late ++ 1 ∷ 2 ∷ [])
    × IsValid r'
    × (r'.front ≡ 5)
    × (r'.memory ≡ arrived)
    × (r'.buffer_size ≡ 8)
unfolding free_size use_size direct_enqueue_size
move_rear-IsFilled_example =
    move_rear-IsFilled late arrived (1 ∷ 2 ∷ []) late-IsValid (omega arith) late-IsFilled
