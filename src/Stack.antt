-- ===== src/Stack.antt =====
-- Utils/LockFreeStack.h: the stack that threads share without a lock, one atomic access to the
-- shared memory at a time. The member m_size is left out: nothing reads it.
pub mod Words
pub mod Invariant
pub mod Threads
pub mod Steps
pub mod Ends
pub mod Moves
mod Tests
use iocpnet_module_mono_repo.Prelude.{
  ℕ, zero, suc, ◌+◌, ◌*◌, ◌%◌, ◌/◌, ◌^◌, List, [], ◌∷◌, Bool, ◌==◌, if◌then◌else◌, Option, none,
  some,
}

-- `ADR_MASK` keeps the low 47 bits.
abbrev pub adr_range : ℕ
adr_range = 140737488355328

-- the bits of a word above the address
abbrev pub count_range : ℕ
count_range = 131072

-- `(unsigned long long)ptr & ADR_MASK`
unfoldable pub adr : ℕ → ℕ
adr word = word % adr_range

-- `GetCount(ptr)`
unfoldable pub get_count : ℕ → ℕ
get_count word = word / adr_range

-- `SetCount(target, count)`; the high bits of the count are shifted out of the word
unfoldable pub set_count : ℕ → ℕ → ℕ
set_count target count = target % adr_range + count % count_range * adr_range

-- Who holds a node: the pool, the stack, or the thread that runs `Push` or `Pop`.
pub data Owner : Type 0 where
  in_pool : Owner
  in_stack : Owner
  by_thread : ℕ → Owner

-- Where a thread is between two accesses to the shared memory; nodes are addresses, words are
-- addresses with a count, as in the variables of `Push` and `Pop`.
pub data Phase : Type 0 where
  idle : Phase
  push_start : (new_top_adr new_top : ℕ) → Phase
  push_read : (new_top_adr new_top old_top : ℕ) → Phase
  push_linked : (new_top_adr new_top old_top : ℕ) → Phase
  pop_start : Phase
  pop_read : (old_top : ℕ) → Phase
  pop_next : (old_top new_top : ℕ) → Phase
  popped : (old_top_adr : ℕ) → Phase
  returned : Option ℕ → Phase

-- The shared memory, the threads, and who holds each node.
pub record Machine : Type 0 where
  pub top : ℕ
  pub next : ℕ → ℕ
  pub data_of : ℕ → ℕ
  pub alloc_cnt : ℕ
  pub phase : ℕ → Phase
  pub owner : ℕ → Owner

unfoldable pub assign {ℓ} : {A : Type ℓ} → ℕ → A → (ℕ → A) → ℕ → A
assign k v f i = if i == k then v else f i

-- What a thread does next: it starts `Push(data)` on a node of the pool, it starts `Pop`, or it
-- goes on with what it runs.
pub data Move : Type 0 where
  push : ℕ → ℕ → Move
  pop : Move
  go : Move

-- one access to the shared memory by thread `t`, from its phase
unfoldable pub step : ℕ → Phase → Machine → Machine
step t idle m = m
step t (push_start node word) m = record m { phase = assign t (push_read node word m.top) m.phase }
step t (push_read node word old) m = record m {
  next = assign node old m.next;
  phase = assign t (push_linked node word old) m.phase;
}
step t (push_linked node word old) m =
    if m.top == old
    then record m {
      top = word;
      phase = assign t idle m.phase;
      owner = assign node in_stack m.owner;
    }
    else record m { phase = assign t (push_start node word) m.phase }
step t pop_start m = record m {
  phase = assign t (if adr m.top == 0 then returned none else pop_read m.top) m.phase;
}
step t (pop_read old) m = record m { phase = assign t (pop_next old (m.next (adr old))) m.phase }
step t (pop_next old new) m =
    if m.top == old
    then record m {
      top = new;
      phase = assign t (popped (adr old)) m.phase;
      owner = assign (adr old) (by_thread t) m.owner;
    }
    else record m { phase = assign t pop_start m.phase }
step t (popped node) m = record m {
  phase = assign t (returned (some (m.data_of node))) m.phase;
  owner = assign node in_pool m.owner;
}
step t (returned o) m = record m { phase = assign t idle m.phase }

-- `Push` up to its loop, or `Pop` up to its loop, or one access
unfoldable pub move : ℕ → Move → Machine → Machine
move t (push value node) m = record m {
  data_of = assign node value m.data_of;
  alloc_cnt = m.alloc_cnt + 1;
  phase = assign t (push_start node (set_count node (m.alloc_cnt + 1))) m.phase;
  owner = assign node (by_thread t) m.owner;
}
move t pop m = record m { phase = assign t pop_start m.phase }
move t go m = step t (m.phase t) m
