-- ===== src/Queue/Taking.antt =====
-- `Dequeue` of Utils/LockFreeQueue.h, whole, against the list of values.
use iocpnet_module_mono_repo.Prelude.{
  ℕ, suc, ◌+◌, ◌-◌, ◌%◌, ◌^◌, ◌<◌, ◌≡◌, ◌≢◌, refl, sym, subst, ap, ◌∙◌, arith, List, [], ◌∷◌, ◌++◌,
  false, leb, All, length, eq→==, ne→==,
}
use iocpnet_module_mono_repo.Stack.{adr}
use iocpnet_module_mono_repo.Stack.Invariant.{Among, All-at}
use iocpnet_module_mono_repo.Queue.{
  LockFreeQueue, help_tail, Dequeued, failed, took, unlink, dequeue_loop, dequeue,
}
use iocpnet_module_mono_repo.Queue.Chains.{last, last-append-Among}
use iocpnet_module_mono_repo.Queue.Refined.{Holds, held, exchange_same, help_tail-Holds}

-- `Dequeue` on a nonempty queue whose tail is not at the head
abbrev taken : ℕ → ℕ → LockFreeQueue → LockFreeQueue
taken size w q = record q { size = size; head = w; freed = q.freed ++ (adr q.head ∷ []) }

take_front :
    (fuel size : ℕ) (q : LockFreeQueue) (w : ℕ) (front behind : List ℕ)
    → Holds q (w ∷ front) behind
    → (dequeue_loop (suc fuel) (record q { size = size })
        ≡ took (q.data_of (adr w)) (taken size w q))
unfolding dequeue_loop unlink
take_front fuel size q w front behind k =
    let there : Among (last w front) (w ∷ (front ++ behind)) = last-append-Among w front behind in
    let apart : adr q.tail ≢ adr q.head = λ e.
      All-at (λ v. adr v ≢ adr q.head) (last w front) (w ∷ (front ++ behind)) there k.apart.0
        (ap adr (sym k.at_tail) ∙ e) in
    rw
      (
        k.chain.0,
        ne→== (adr w) 0 k.chain.1,
        ne→== q.head q.tail (λ e. apart (ap adr (sym e))),
        exchange_same q.head w,
      )
      refl

taken-Holds :
    (size : ℕ) (q : LockFreeQueue) (w : ℕ) (front behind : List ℕ)
    → Holds q (w ∷ front) behind
    → q.size ≡ size + 1
    → Holds (taken size w q) front behind
taken-Holds size q w front behind k e = record {
  chain = k.chain.2;
  ends = k.ends;
  apart = k.apart.1;
  at_tail = k.at_tail;
  sized = omega (arith, k.sized, e);
  bounded = omega (arith, k.bounded, e);
}

-- What `Dequeue` is to answer on the values `vs`: it fails on none and changes nothing; else it takes
-- the first, keeps the others, and gives the old head back to the pool, which the queue then holds
-- no more.
abbrev pub Answer : LockFreeQueue → Dequeued → List ℕ → Type 0
Answer q d [] = d ≡ failed q
Answer q d (v ∷ vs) =
    (q' : LockFreeQueue) × (front' : List ℕ) × (behind' : List ℕ) × (d ≡ took v q')
    × Holds q' front' behind'
    × (held q' front' behind' ≡ vs)
    × (q'.freed ≡ q.freed ++ (adr q.head ∷ []))
    × All (λ w. adr w ≢ adr q.head) (q'.head ∷ (front' ++ behind'))

dequeue_loop-front-Answer :
    (fuel size : ℕ) (q : LockFreeQueue) (w : ℕ) (front behind : List ℕ)
    → Holds q (w ∷ front) behind
    → q.size ≡ size + 1
    → Answer q (dequeue_loop (suc fuel) (record q { size = size })) (held q (w ∷ front) behind)
dequeue_loop-front-Answer fuel size q w front behind k e = (
  taken size w q,
  front,
  behind,
  take_front fuel size q w front behind k,
  taken-Holds size q w front behind k e,
  refl,
  refl,
  k.apart.0,
)

-- the tail stands at the head although a node follows: a round helps
help_round :
    (fuel size : ℕ) (q : LockFreeQueue) (w : ℕ) (behind : List ℕ)
    → Holds q [] (w ∷ behind)
    → dequeue_loop (suc fuel) (record q { size = size })
      ≡ dequeue_loop fuel (record (help_tail (q.next (adr q.tail)) q) { size = size })
unfolding dequeue_loop help_tail
help_round fuel size q w behind k =
    rw (k.at_tail, k.chain.0, ne→== (adr w) 0 k.chain.1, eq→== q.head q.head refl) refl

dequeue_loop-help-Answer :
    (fuel size : ℕ) (q : LockFreeQueue) (w : ℕ) (behind : List ℕ)
    → Holds q [] (w ∷ behind)
    → q.size ≡ size + 1
    → Answer q (dequeue_loop (suc (suc fuel)) (record q { size = size })) (held q [] (w ∷ behind))
unfolding help_tail
dequeue_loop-help-Answer fuel size q w behind k e =
    subst (λ d. Answer q d (held q [] (w ∷ behind))) (sym (help_round (suc fuel) size q w behind k))
      (dequeue_loop-front-Answer fuel size (help_tail (q.next (adr q.tail)) q) w [] behind
        ((help_tail-Holds q [] w behind k).1) e)

-- the decrement finds no value, or it counts one off
dequeue_none : (fuel : ℕ) (q : LockFreeQueue) → q.size ≡ 0 → dequeue fuel q ≡ failed q
unfolding dequeue
dequeue_none fuel q e = rw (e) refl ∙ ap (λ s. failed (record q { size = s })) (sym e)

dequeue_some :
    (fuel size : ℕ) (q : LockFreeQueue)
    → q.size ≡ size + 1
    → q.size < 2 ^ 31
    → dequeue fuel q ≡ dequeue_loop fuel (record q { size = size })
unfolding dequeue
dequeue_some fuel size q e bounded =
    let less : (q.size + (2 ^ 32 - 1)) % 2 ^ 32 ≡ size = omega (arith, e, bounded) in
    let enough : leb (2 ^ 31) size ≡ false = ground arith in rw (less, enough) refl

-- `Dequeue` on a queue that no other thread changes answers as the list of values does, in at most
-- two rounds of its loop.
pub dequeue-Answer :
    (fuel : ℕ) (q : LockFreeQueue) (front behind : List ℕ)
    → Holds q front behind
    → Answer q (dequeue (suc (suc fuel)) q) (held q front behind)
dequeue-Answer fuel q [] [] k = dequeue_none (suc (suc fuel)) q k.sized
dequeue-Answer fuel q [] (w ∷ behind) k =
    let size : ℕ = length behind in
    let e : q.size ≡ size + 1 = omega (arith, k.sized) in
    subst (λ d. Answer q d (held q [] (w ∷ behind)))
      (sym (dequeue_some (suc (suc fuel)) size q e k.bounded))
      (dequeue_loop-help-Answer fuel size q w behind k e)
dequeue-Answer fuel q (w ∷ front) behind k =
    let size : ℕ = length (front ++ behind) in
    let e : q.size ≡ size + 1 = omega (arith, k.sized) in
    subst (λ d. Answer q d (held q (w ∷ front) behind))
      (sym (dequeue_some (suc (suc fuel)) size q e k.bounded))
      (dequeue_loop-front-Answer (suc fuel) size q w front behind k e)
