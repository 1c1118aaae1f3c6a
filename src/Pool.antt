-- ===== src/Pool.antt =====
-- Utils/TLSObjectPool.h: the pool of objects that every thread takes from a list of its own. An
-- object is its address; a chain of nodes is the list of their addresses, first node first. That
-- holds as long as only objects are freed that no chain holds: a second `Free` would tie its chain
-- into a ring.
pub mod Places
pub mod Sound
mod Tests
use iocpnet_module_mono_repo.Prelude.{
  ℕ, suc, ◌+◌, ◌-◌, List, [], ◌∷◌, Bool, leb, ◌==◌, if◌then◌else◌,
}

-- `ObjectPool_TLSPoolComponent` and the `LocalSlot` around it
pub record LocalSlot : Type 0 where
  pub top : List ℕ
  pub rtop : List ℕ
  pub current_size : ℕ
  pub free_cnt : ℕ
  pub use_size : ℕ

-- `slots` are the threads' slots; `fresh` is the address that the next `new Node` gives.
pub record TlsObjectPool : Type 0 where
  pub slots : ℕ → LocalSlot
  pub free_sets : List (List ℕ × ℕ)
  pub chunk_size : ℕ
  pub use_size : ℕ
  pub fresh : ℕ

-- `LocalSlot()`
unfoldable pub new_slot : LocalSlot
new_slot = record { top = []; rtop = []; current_size = 0; free_cnt = 0; use_size = 0 }

-- `TLSObjectPool(chunkSize)`, before any thread has a slot
unfoldable pub make : ℕ → TlsObjectPool
unfolding new_slot
make chunk_size = record {
  slots = λ t. new_slot;
  free_sets = [];
  chunk_size = chunk_size;
  use_size = 0;
  fresh = 1;
}

unfoldable pub put_slot : ℕ → LocalSlot → (ℕ → LocalSlot) → ℕ → LocalSlot
put_slot t s slots u = if u == t then s else slots u

-- the branch of `Alloc` for an empty chain: a set of the shared stack, or a new object counted
unfoldable pub refill : ℕ → TlsObjectPool → TlsObjectPool
refill t p = elim p.free_sets [
  | set ∷ sets ↦ record p {
    free_sets = sets;
    slots = put_slot t (record (p.slots t) { top = set.0; current_size = set.1 }) p.slots;
  }
  | [] ↦
      let used = (p.slots t).use_size + 1 in
      if leb p.chunk_size used
      then record p {
        use_size = p.use_size + used;
        slots = put_slot t (record (p.slots t) { use_size = 0 }) p.slots;
      }
      else record p { slots = put_slot t (record (p.slots t) { use_size = used }) p.slots }
]

-- `ObjectPool_TLSPoolComponent::Alloc`
unfoldable pub take_node : ℕ → TlsObjectPool → ℕ × TlsObjectPool
take_node t p = elim (p.slots t).top [
  | [] ↦ (p.fresh, record p { fresh = p.fresh + 1 })
  | node ∷ nodes ↦ (
    node,
    record p {
      slots =
          put_slot t
            (record (p.slots t) { top = nodes; current_size = (p.slots t).current_size - 1 })
            p.slots;
    },
  )
]

-- `TLSObjectPool::Alloc` of thread `t`
unfoldable pub alloc : ℕ → TlsObjectPool → ℕ × TlsObjectPool
alloc t p = take_node t (elim (p.slots t).top [ [] ↦ refill t p | node ∷ nodes ↦ p ])

-- `TLSObjectPool::Free` of thread `t`, of an object that is in no chain
unfoldable pub free : ℕ → ℕ → TlsObjectPool → TlsObjectPool
free t ptr p =
    let s = p.slots t in
    let cnt = s.free_cnt + 1 in
    if leb p.chunk_size cnt
    then record p {
      free_sets = (ptr ∷ s.rtop, cnt) ∷ p.free_sets;
      slots = put_slot t (record s { rtop = []; free_cnt = 0 }) p.slots;
    }
    else record p { slots = put_slot t (record s { rtop = ptr ∷ s.rtop; free_cnt = cnt }) p.slots }
