-- ===== src/Queue/Calls.antt =====
-- `Enqueue` of Utils/LockFreeQueue.h, whole, against the list of values.
use iocpnet_module_mono_repo.Prelude.{
  ℕ, ◌+◌, ◌^◌, ◌<◌, ◌≡◌, ◌≢◌, refl, sym, subst, ap, ap₂, ◌∙◌, arith, List, [], ◌∷◌, ◌++◌, some, All,
  length, append-nil,
}
use iocpnet_module_mono_repo.Stack.{adr, adr_range, set_count, assign}
use iocpnet_module_mono_repo.Stack.Words.{adr-set_count}
use iocpnet_module_mono_repo.Stack.Invariant.{All-at, assign_same, assign_other}
use iocpnet_module_mono_repo.Queue.{LockFreeQueue, clear_buffer, make, prepare, enqueue}
use iocpnet_module_mono_repo.Queue.Chains.{
  last, last-Among, Follows-frame, values, values-append, values-frame,
}
use iocpnet_module_mono_repo.Queue.Refined.{Holds, held, IsReady, enqueue_loop_lem}

adr_small : (a : ℕ) → a < adr_range → adr a ≡ a
unfolding adr
adr_small a h = omega arith

-- an emptied queue and a new one hold nothing
pub clear_buffer-Holds :
    (node : ℕ) (q : LockFreeQueue) → node < adr_range → Holds (clear_buffer node q) [] []
unfolding clear_buffer
clear_buffer-Holds node q small =
    let null : assign node 0 q.next (adr node) ≡ 0 =
      ap (assign node 0 q.next) (adr_small node small) ∙ assign_same node 0 q.next in
    record {
      chain = tt;
      ends = ap adr null ∙ adr_small 0 (omega arith);
      apart = (tt, tt);
      at_tail = refl;
      sized = refl;
      bounded = omega arith;
    }

pub make-Holds :
    (node number : ℕ) (q : LockFreeQueue) → node < adr_range → Holds (make node number q) [] []
unfolding make clear_buffer
make-Holds node number q small =
    let k : Holds (clear_buffer node q) [] [] = clear_buffer-Holds node q small in
    record {
      chain = k.chain;
      ends = k.ends;
      apart = k.apart;
      at_tail = k.at_tail;
      sized = k.sized;
      bounded = k.bounded;
    }

-- the node of an `Enqueue` that is under way is not in the queue
prepare-Holds :
    (node value : ℕ) (q : LockFreeQueue) (front behind : List ℕ)
    → Holds q front behind
    → All (λ v. adr v ≢ node) (q.head ∷ (front ++ behind))
    → Holds (prepare node value q) front behind
unfolding prepare
prepare-Holds node value q front behind k fresh =
    let ws : List ℕ = front ++ behind in
    let end : ℕ = last q.head ws in
    let away : adr end ≢ node =
      All-at (λ v. adr v ≢ node) end (q.head ∷ ws) (last-Among q.head ws) fresh in
    record {
      chain = Follows-frame q.next node (set_count 0 q.identifier) q.head ws fresh k.chain;
      ends = ap adr (assign_other node (set_count 0 q.identifier) q.next (adr end) away) ∙ k.ends;
      apart = k.apart;
      at_tail = k.at_tail;
      sized = k.sized;
      bounded = k.bounded;
    }

prepare-IsReady :
    (node value : ℕ) (q : LockFreeQueue) (ws : List ℕ) (word : ℕ)
    → adr word ≡ node
    → node ≢ 0
    → All (λ v. adr v ≢ node) (q.head ∷ ws)
    → q.size + 1 < 2 ^ 31
    → IsReady (prepare node value q) ws word
unfolding prepare
prepare-IsReady node value q ws word e real fresh room =
    let null : ℕ = set_count 0 q.identifier in
    let next_node : adr (assign node null q.next (adr word)) ≡ 0 =
      ap (λ n. adr (assign node null q.next n)) e
      ∙ ap adr (assign_same node null q.next)
      ∙ adr-set_count 0 q.identifier (omega arith) in
    record {
      real = λ z. real (sym e ∙ z);
      fresh = subst (λ n. All (λ v. adr v ≢ n) (q.head ∷ ws)) (sym e) fresh;
      alone = next_node;
      room = room;
    }

prepare_data :
    (node value : ℕ) (q : LockFreeQueue)
    → (prepare node value q).data_of ≡ assign node value q.data_of
unfolding prepare
prepare_data node value q = refl

-- the values with that of the new node
values-snoc :
    (node value word : ℕ) (data_of : ℕ → ℕ) (ws : List ℕ)
    → adr word ≡ node
    → All (λ v. adr v ≢ node) ws
    → values (assign node value data_of) ((ws ++ (word ∷ [])) ++ [])
      ≡ values data_of ws ++ (value ∷ [])
values-snoc node value word data_of ws here fresh =
    let data' : ℕ → ℕ = assign node value data_of in
    ap (values data') (append-nil (ws ++ (word ∷ [])))
    ∙ values-append data' ws (word ∷ [])
    ∙ ap₂ (λ us v. us ++ (v ∷ [])) (values-frame data_of node value ws fresh)
        (ap data' here ∙ assign_same node value data_of)

-- `Enqueue` on a node of the pool puts the value behind those that the queue holds, in a number of
-- rounds that is one more than the nodes that the tail lies behind.
pub enqueue-held :
    (fuel node value : ℕ) (q : LockFreeQueue) (front behind : List ℕ)
    → Holds q front behind
    → node ≢ 0
    → node < adr_range
    → All (λ v. adr v ≢ node) (q.head ∷ (front ++ behind))
    → q.size + 1 < 2 ^ 31
    → length behind < fuel
    → (q' : LockFreeQueue) × (front' : List ℕ) × (enqueue fuel node value q ≡ some q')
      × Holds q' front' []
      × (held q' front' [] ≡ held q front behind ++ (value ∷ []))
unfolding enqueue
enqueue-held fuel node value q front behind k real small fresh room enough =
    let ready : LockFreeQueue = prepare node value q in
    let ws : List ℕ = front ++ behind in
    let word : ℕ = set_count node ready.alloc_cnt in
    let here : adr word ≡ node = adr-set_count node ready.alloc_cnt small in
    let (q', eq, holds, same) =
      enqueue_loop_lem fuel word ready front behind
        (prepare-Holds node value q front behind k fresh)
        (prepare-IsReady node value q ws word here real fresh room) enough in
    (
      q',
      ws ++ (word ∷ []),
      eq,
      holds,
      ap (λ d. values d ((ws ++ (word ∷ [])) ++ [])) (same ∙ prepare_data node value q)
          ∙ values-snoc node value word q.data_of ws here fresh.1,
    )
