-- ===== src/Ring.antt =====
-- Utils/RingBuffer.h and Utils/RingBuffer.cpp: the byte ring of each session. `memory` is the
-- allocation `mBuffer`; `front` and `rear` are the offsets of `mFront` and `mRear` from it, so a
-- comparison of pointers is one of offsets. Sizes are non-negative, as at every call.
pub mod Contents
pub mod Dequeue
pub mod Enqueue
pub mod Posted
mod Tests
use iocpnet_module_mono_repo.Prelude.{
  ℕ, ◌+◌, ◌-◌, ◌%◌, List, ◌++◌, ltb, leb, ◌==◌, if◌then◌else◌, take, drop, length,
}
use iocpnet_module_mono_repo.Prelude.Memory.{Memory, copy_in, read}

pub record RingBuffer : Type 0 where
  pub memory : Memory
  pub buffer_size : ℕ
  pub front : ℕ
  pub rear : ℕ

-- `RingBuffer::RingBuffer(int size)`, over whatever the allocation holds
unfoldable pub make : Memory → ℕ → RingBuffer
make m size = record { memory = m; buffer_size = size; front = 0; rear = 0 }

-- `GetUseSize(front, rear)`
unfoldable pub use_size : RingBuffer → ℕ
use_size r = if ltb r.rear r.front then r.buffer_size - r.front + r.rear else r.rear - r.front

-- `GetFreeSize(front, rear)`
unfoldable pub free_size : RingBuffer → ℕ
free_size r = r.buffer_size - use_size r - 1

-- `DirectEnqueueSize(front, rear)`
unfoldable pub direct_enqueue_size : RingBuffer → ℕ
direct_enqueue_size r =
    if leb r.front r.rear
    then (if r.front == 0 then r.buffer_size - r.rear - 1 else r.buffer_size - r.rear)
    else r.front - r.rear - 1

-- `DirectDequeueSize(front, rear)`
unfoldable pub direct_dequeue_size : RingBuffer → ℕ
direct_dequeue_size r = if ltb r.rear r.front then r.buffer_size - r.front else r.rear - r.front

-- `Enqueue(pData, size)`, with the `size` bytes of `pData` as a list
unfoldable pub enqueue : List ℕ → RingBuffer → ℕ × RingBuffer
enqueue src r =
    let size = length src in
    let direct = direct_enqueue_size r in
    if ltb (free_size r) size
    then (0, r)
    else if leb size direct
    then (
      size,
      record r { memory = copy_in r.memory r.rear src; rear = (r.rear + size) % r.buffer_size },
    )
    else (
      size,
      record r {
        memory = copy_in (copy_in r.memory r.rear (take direct src)) 0 (drop direct src);
        rear = (size - direct) % r.buffer_size;
      },
    )

-- how many bytes `Dequeue`, `Peek` and `MoveFront` serve of the `size` asked for
abbrev pub served : ℕ → RingBuffer → ℕ
served size r = if ltb (use_size r) size then use_size r else size

-- `Peek(pDest, size)`, with what it puts in `pDest`
unfoldable pub peek : ℕ → RingBuffer → ℕ × List ℕ
peek size r =
    let n = served size r in
    let direct = direct_dequeue_size r in
    if leb n direct
    then (n, read r.memory r.front n)
    else (n, read r.memory r.front direct ++ read r.memory 0 (n - direct))

-- `MoveFront(size)`
unfoldable pub move_front : ℕ → RingBuffer → ℕ × RingBuffer
move_front size r =
    let n = served size r in
    let direct = direct_dequeue_size r in
    if leb n direct
    then (n, record r { front = (r.front + n) % r.buffer_size })
    else (n, record r { front = (n - direct) % r.buffer_size })

-- `Dequeue(pDest, size)`, with what it puts in `pDest`
unfoldable pub dequeue : ℕ → RingBuffer → ℕ × List ℕ × RingBuffer
dequeue size r =
    let n = served size r in
    let direct = direct_dequeue_size r in
    if leb n direct
    then (n, read r.memory r.front n, record r { front = (r.front + n) % r.buffer_size })
    else (
      n,
      read r.memory r.front direct ++ read r.memory 0 (n - direct),
      record r { front = (n - direct) % r.buffer_size },
    )

-- `MoveRear(size)`: the bytes were put down by someone else
unfoldable pub move_rear : ℕ → RingBuffer → ℕ × RingBuffer
move_rear size r =
    let direct = direct_enqueue_size r in
    if ltb (free_size r) size
    then (0, r)
    else if leb size direct
    then (size, record r { rear = (r.rear + size) % r.buffer_size })
    else (size, record r { rear = (size - direct) % r.buffer_size })

-- `ClearBuffer()`
unfoldable pub clear_buffer : RingBuffer → RingBuffer
clear_buffer r = record r { front = 0; rear = 0 }
