-- ===== src/Queue.antt =====
-- Utils/LockFreeQueue.h: the queue that threads share without a lock. Each operation is run by one
-- thread without another between, on whatever the others have left, so that the tail may lie
-- behind the last node. Words are addresses with a count, as in Utils/LockFreeStack.h.
pub mod Chains
pub mod Refined
pub mod Calls
pub mod Taking
mod Tests
use iocpnet_module_mono_repo.Prelude.{
  ℕ, zero, suc, ◌+◌, ◌-◌, ◌%◌, ◌^◌, List, [], ◌∷◌, ◌++◌, Bool, not, ◌==◌, leb, if◌then◌else◌,
  Option, none, some,
}
use iocpnet_module_mono_repo.Stack.{adr, set_count, assign}

-- The members of a queue with the nodes that the pool and it hold: `size`, `alloc_cnt` and
-- `identifier` are of 32 bits, and `freed` is what went back to the pool, in order.
pub record LockFreeQueue : Type 0 where
  pub head : ℕ
  pub tail : ℕ
  pub next : ℕ → ℕ
  pub data_of : ℕ → ℕ
  pub size : ℕ
  pub alloc_cnt : ℕ
  pub identifier : ℕ
  pub freed : List ℕ

-- `InterlockedCompareExchangePointer`: what the word holds afterwards
unfoldable pub exchange : (current value expected : ℕ) → ℕ
exchange current value expected = if current == expected then value else current

-- `ClearBuffer()`, on a node of the pool; the nodes that the queue had are not given back
unfoldable pub clear_buffer : ℕ → LockFreeQueue → LockFreeQueue
clear_buffer node q = record q {
  size = 0;
  head = node;
  tail = node;
  next = assign node 0 q.next;
  alloc_cnt = 0;
}

-- the constructor, on a node of the pool and the next number of `IdentifierPool`; what the members
-- held before is of no account, but for the memory of the nodes
unfoldable pub make : ℕ → ℕ → LockFreeQueue → LockFreeQueue
make node number q = record q {
  size = 0;
  head = node;
  tail = node;
  next = assign node 0 q.next;
  alloc_cnt = 0;
  identifier = number;
}

-- `Enqueue` before its loop, on a node of the pool
unfoldable pub prepare : ℕ → ℕ → LockFreeQueue → LockFreeQueue
prepare node value q = record q {
  data_of = assign node value q.data_of;
  next = assign node (set_count 0 q.identifier) q.next;
  alloc_cnt = (q.alloc_cnt + 1) % 2 ^ 32;
}

-- one round of the loop of `Enqueue` that finds the tail behind: it helps
unfoldable pub help_tail : ℕ → LockFreeQueue → LockFreeQueue
help_tail next_cap q = record q { tail = exchange q.tail next_cap q.tail }

-- the end of `Enqueue`: the exchanges on the last node and on the tail
unfoldable pub link : ℕ → LockFreeQueue → LockFreeQueue
link new_node q =
    let at = adr q.tail in
    record q {
      next = assign at (exchange (q.next at) new_node (q.next at)) q.next;
      tail = exchange q.tail new_node q.tail;
      size = (q.size + 1) % 2 ^ 32;
    }

-- the loop of `Enqueue`, on fuel
unfoldable pub enqueue_loop : ℕ → ℕ → LockFreeQueue → Option LockFreeQueue
enqueue_loop zero new_node q = none
enqueue_loop (suc fuel) new_node q =
    let next_cap = q.next (adr q.tail) in
    let again = enqueue_loop fuel new_node (help_tail next_cap q) in
    if not (adr next_cap == 0) then again else some (link new_node q)

-- `Enqueue(t)`
unfoldable pub enqueue : ℕ → ℕ → ℕ → LockFreeQueue → Option LockFreeQueue
enqueue fuel node value q =
    let ready = prepare node value q in enqueue_loop fuel (set_count node ready.alloc_cnt) ready

-- How `Dequeue` ends.
pub data Dequeued : Type 0 where
  failed : LockFreeQueue → Dequeued
  took : ℕ → LockFreeQueue → Dequeued
  out_of_fuel : Dequeued

-- the end of `Dequeue`: the value, the exchange on the head, and the old node to the pool
unfoldable pub unlink : ℕ → LockFreeQueue → Dequeued
unlink next_cap q =
    took (q.data_of (adr next_cap))
      (record q { head = exchange q.head next_cap q.head; freed = q.freed ++ (adr q.head ∷ []) })

-- the loop of `Dequeue`, on fuel
unfoldable pub dequeue_loop : ℕ → LockFreeQueue → Dequeued
dequeue_loop zero q = out_of_fuel
dequeue_loop (suc fuel) q =
    let next_cap = q.next (adr q.head) in
    let waits = dequeue_loop fuel q in
    let helps = dequeue_loop fuel (help_tail next_cap q) in
    if adr next_cap == 0 then waits else if q.head == q.tail then helps else unlink next_cap q

-- `Dequeue(t)`; the size is negative from 2^31 on
unfoldable pub dequeue : ℕ → LockFreeQueue → Dequeued
dequeue fuel q =
    let less = (q.size + (2 ^ 32 - 1)) % 2 ^ 32 in
    let taken = dequeue_loop fuel (record q { size = less }) in
    if leb (2 ^ 31) less then failed (record q { size = (less + 1) % 2 ^ 32 }) else taken
