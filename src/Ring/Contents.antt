-- ===== src/Ring/Contents.antt =====
-- What a ring holds, oldest byte first, and the invariant of its two offsets.
use iocpnet_module_mono_repo.Prelude.{
  ℕ, ◌+◌, ◌-◌, ◌≤◌, ◌<◌, ◌≡◌, List, ◌++◌, [], arith, ltb, lt→ltb, le→ltb, if◌then◌else◌, length,
  length-append, refl,
}
use iocpnet_module_mono_repo.Prelude.Memory.{Memory, read, length-read}
use iocpnet_module_mono_repo.Ring.{
  RingBuffer, make, use_size, free_size, direct_enqueue_size, direct_dequeue_size, clear_buffer,
}

pub record IsValid (r : RingBuffer) : Type 0 where
  pub front_in : r.front < r.buffer_size
  pub rear_in : r.rear < r.buffer_size

-- The bytes from one offset to another, going round at the end of the allocation.
unfoldable pub span : Memory → ℕ → ℕ → ℕ → List ℕ
span m size front rear =
    if ltb rear front
    then read m front (size - front) ++ read m 0 rear
    else read m front (rear - front)

abbrev pub contents : RingBuffer → List ℕ
contents r = span r.memory r.buffer_size r.front r.rear

pub span_straight :
    (m : Memory) (size front rear : ℕ)
    → front ≤ rear
    → span m size front rear ≡ read m front (rear - front)
unfolding span
span_straight m size front rear h = rw (le→ltb rear front h)

pub span_wrapped :
    (m : Memory) (size front rear : ℕ)
    → rear < front
    → span m size front rear ≡ read m front (size - front) ++ read m 0 rear
unfolding span
span_wrapped m size front rear h = rw (lt→ltb rear front h)

-- The counted size is the number of bytes held.
pub length-contents : (r : RingBuffer) → length (contents r) ≡ use_size r
unfolding span use_size
length-contents r = ground (
  arith,
  length-read r.memory r.front (r.rear - r.front),
  length-read r.memory r.front (r.buffer_size - r.front),
  length-read r.memory 0 r.rear,
  length-append (read r.memory r.front (r.buffer_size - r.front)) (read r.memory 0 r.rear),
)

-- The bytes held and the room left make up the allocation but one byte, and each of the two
-- direct sizes, a run of one block, is within them.
pub sizes_lem :
    (r : RingBuffer)
    → IsValid r
    → (use_size r + free_size r + 1 ≡ r.buffer_size)
      × (direct_enqueue_size r ≤ free_size r)
      × (direct_dequeue_size r ≤ use_size r)
      × (r.rear + direct_enqueue_size r ≤ r.buffer_size)
      × (r.front + direct_dequeue_size r ≤ r.buffer_size)
unfolding use_size free_size direct_enqueue_size direct_dequeue_size
sizes_lem r v = ground arith

-- A new ring and a cleared one are valid and empty.
pub clear_buffer-empty :
    (r : RingBuffer)
    → 0 < r.buffer_size
    → IsValid (clear_buffer r) × (contents (clear_buffer r) ≡ [])
unfolding clear_buffer span read
clear_buffer-empty r h = (record { front_in = h; rear_in = h }, refl)

pub make-empty :
    (m : Memory) (size : ℕ) → 0 < size → IsValid (make m size) × (contents (make m size) ≡ [])
unfolding make span read
make-empty m size h = (record { front_in = h; rear_in = h }, refl)
