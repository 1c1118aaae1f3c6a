-- ===== src/Queue/Tests.antt =====
-- A queue with one node on which the tail has not been moved yet, and calls on it.
use iocpnet_module_mono_repo.Prelude.{ℕ, ◌≡◌, refl, arith, List, [], ◌∷◌, ◌==◌, if◌then◌else◌, some}
use iocpnet_module_mono_repo.Stack.{adr}
use iocpnet_module_mono_repo.Queue.{LockFreeQueue, enqueue, dequeue}
use iocpnet_module_mono_repo.Queue.Refined.{Holds, held}
use iocpnet_module_mono_repo.Queue.Calls.{enqueue-held}
use iocpnet_module_mono_repo.Queue.Taking.{Answer, dequeue-Answer}

-- the node 128 with the count 1
abbrev word : ℕ
word = 140737488355456

-- the thread that enqueued 9 has linked its node to the one at 64, and not yet moved the tail
abbrev lagging : LockFreeQueue
lagging = record {
  head = 64;
  tail = 64;
  next = λ a. if a == 64 then word else 0;
  data_of = λ a. if a == 128 then 9 else 0;
  size = 1;
  alloc_cnt = 1;
  identifier = 3;
  freed = [];
}

lagging-Holds : Holds lagging [] (word ∷ [])
unfolding adr
lagging-Holds = record {
  chain = (refl, (λ e. omega (arith, e)), tt);
  ends = refl;
  apart = (((λ e. omega (arith, e)), tt), (tt, tt));
  at_tail = refl;
  sized = refl;
  bounded = omega arith;
}

-- a second value, on the node at 192
enqueue-held_example :
    (q' : LockFreeQueue) × (front' : List ℕ) × (enqueue 2 192 7 lagging ≡ some q')
    × Holds q' front' []
    × (held q' front' [] ≡ 9 ∷ 7 ∷ [])
unfolding adr
enqueue-held_example =
    enqueue-held 2 192 7 lagging [] (word ∷ []) lagging-Holds (λ e. omega (arith, e)) (omega arith)
      ((λ e. omega (arith, e)), ((λ e. omega (arith, e)), tt)) (omega arith) (omega arith)

dequeue-Answer_example : Answer lagging (dequeue 2 lagging) (9 ∷ [])
unfolding adr
dequeue-Answer_example = dequeue-Answer 0 lagging [] (word ∷ []) lagging-Holds
