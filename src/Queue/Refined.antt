-- ===== src/Queue/Refined.antt =====
-- The operations of Utils/LockFreeQueue.h on the list of the values that the queue holds.
use iocpnet_module_mono_repo.Prelude.{
  ℕ, zero, suc, ◌+◌, ◌%◌, ◌^◌, ◌<◌, ◌≡◌, ◌≢◌, refl, sym, subst, ap, ap₂, ◌∙◌, arith, List, [], ◌∷◌,
  ◌++◌, some, All, length, eq→==, ne→==, append_assoc, append-nil, length-append,
}
use iocpnet_module_mono_repo.Stack.{adr, assign}
use iocpnet_module_mono_repo.Stack.Invariant.{AreApart, All-at, assign_other}
use iocpnet_module_mono_repo.Queue.{LockFreeQueue, exchange, help_tail, link, enqueue_loop}
use iocpnet_module_mono_repo.Queue.Chains.{
  Follows, last, last-Among, last-append, Follows-snoc, Follows-split, AreApart-snoc, values,
}

-- The words `front ++ behind` follow the head, and the tail stands at the end of `front`: behind it
-- are nodes whose enqueuers have not moved it yet.
pub record Holds (q : LockFreeQueue) (front behind : List ℕ) : Type 0 where
  pub chain : Follows q.next q.head (front ++ behind)
  pub ends : adr (q.next (adr (last q.head (front ++ behind)))) ≡ 0
  pub apart : AreApart (q.head ∷ (front ++ behind))
  pub at_tail : q.tail ≡ last q.head front
  pub sized : q.size ≡ length (front ++ behind)
  pub bounded : q.size < 2 ^ 31

-- the values of the queue, first to last
abbrev pub held : LockFreeQueue → List ℕ → List ℕ → List ℕ
held q front behind = values q.data_of (front ++ behind)

pub exchange_same : (current value : ℕ) → exchange current value current ≡ value
unfolding exchange
exchange_same current value = rw (eq→== current current refl) refl

pub help_tail-Holds :
    (q : LockFreeQueue) (front : List ℕ) (w : ℕ) (behind : List ℕ)
    → Holds q front (w ∷ behind)
    → let next_cap = q.next (adr q.tail) in
      (adr next_cap ≢ 0) × Holds (help_tail next_cap q) (front ++ (w ∷ [])) behind
unfolding help_tail
help_tail-Holds q front w behind k =
    let (here, real, _) = Follows-split q.next q.head front (w ∷ behind) k.chain in
    let next_cap : q.next (adr q.tail) ≡ w = ap (λ t. q.next (adr t)) k.at_tail ∙ here in
    let regroup : front ++ (w ∷ behind) ≡ (front ++ (w ∷ [])) ++ behind =
      sym (append_assoc front (w ∷ []) behind) in
    (
      (λ e. real (ap adr (sym next_cap) ∙ e)),
      record {
        chain = subst (Follows q.next q.head) regroup k.chain;
        ends = subst (λ ws. adr (q.next (adr (last q.head ws))) ≡ 0) regroup k.ends;
        apart = subst (λ ws. AreApart (q.head ∷ ws)) regroup k.apart;
        at_tail =
            exchange_same q.tail (q.next (adr q.tail))
            ∙ next_cap
            ∙ sym (last-append q.head front (w ∷ []));
        sized = k.sized ∙ ap length regroup;
        bounded = k.bounded;
      },
    )

-- A word whose node is none of the queue's, and which leads nowhere itself.
pub record IsReady (q : LockFreeQueue) (ws : List ℕ) (word : ℕ) : Type 0 where
  pub real : adr word ≢ 0
  pub fresh : All (λ v. adr v ≢ adr word) (q.head ∷ ws)
  pub alone : adr (q.next (adr word)) ≡ 0
  pub room : q.size + 1 < 2 ^ 31

link-Holds :
    (q : LockFreeQueue) (front : List ℕ) (word : ℕ)
    → Holds q front []
    → IsReady q front word
    → Holds (link word q) (front ++ (word ∷ [])) []
unfolding link
link-Holds q front word k r =
    let l : ℕ = last q.head front in
    let all : front ++ [] ≡ front = append-nil front in
    let more : (front ++ (word ∷ [])) ++ [] ≡ front ++ (word ∷ []) =
      append-nil (front ++ (word ∷ [])) in
    let next' : ℕ → ℕ =
      assign (adr q.tail) (exchange (q.next (adr q.tail)) word (q.next (adr q.tail))) q.next in
    let linked : next' ≡ assign (adr l) word q.next =
      ap₂ (λ t w. assign (adr t) w q.next) k.at_tail (exchange_same (q.next (adr q.tail)) word) in
    let apart : AreApart (q.head ∷ front) = subst (λ ws. AreApart (q.head ∷ ws)) all k.apart in
    let chain : Follows (assign (adr l) word q.next) q.head (front ++ (word ∷ [])) =
      Follows-snoc q.next word q.head front r.real apart
        (subst (Follows q.next q.head) all k.chain) in
    let other : adr word ≢ adr l = λ e.
      All-at (λ v. adr v ≢ adr word) l (q.head ∷ front) (last-Among q.head front) r.fresh (sym e) in
    let at_end : last q.head (front ++ (word ∷ [])) ≡ word = last-append q.head front (word ∷ []) in
    let leads : adr (next' (adr word)) ≡ 0 =
      ap (λ f. adr (f (adr word))) linked
      ∙ ap adr (assign_other (adr l) word q.next (adr word) other)
      ∙ r.alone in
    let sized : (q.size + 1) % 2 ^ 32 ≡ length (front ++ (word ∷ [])) =
      let n : length front ≡ q.size = ap length (sym all) ∙ sym k.sized in
      omega (arith, length-append front (word ∷ []), n, r.room) in
    record {
      chain =
          subst (Follows next' q.head) (sym more)
            (subst (λ f. Follows f q.head (front ++ (word ∷ []))) (sym linked) chain);
      ends = ap (λ w. adr (next' (adr w))) (ap (last q.head) more ∙ at_end) ∙ leads;
      apart =
          subst (λ ws. AreApart (q.head ∷ ws)) (sym more)
            (AreApart-snoc word (q.head ∷ front) r.fresh apart);
      at_tail = exchange_same q.tail word ∙ sym at_end;
      sized = sized ∙ ap length (sym more);
      bounded = omega (arith, r.room);
    }

refl_data : (word : ℕ) (q : LockFreeQueue) → (link word q).data_of ≡ q.data_of
unfolding link
refl_data word q = refl

help_data : (next_cap : ℕ) (q : LockFreeQueue) → (help_tail next_cap q).data_of ≡ q.data_of
unfolding help_tail
help_data next_cap q = refl

help_tail-IsReady :
    (next_cap : ℕ) (q : LockFreeQueue) {ws : List ℕ} {word : ℕ}
    → IsReady q ws word
    → IsReady (help_tail next_cap q) ws word
unfolding help_tail
help_tail-IsReady next_cap q r = record {
  real = r.real;
  fresh = r.fresh;
  alone = r.alone;
  room = r.room;
}

-- the loop of `Enqueue` brings the tail to the last node and links the word behind it
pub enqueue_loop_lem :
    (fuel word : ℕ) (q : LockFreeQueue) (front behind : List ℕ)
    → Holds q front behind
    → IsReady q (front ++ behind) word
    → length behind < fuel
    → (q' : LockFreeQueue) × (enqueue_loop fuel word q ≡ some q')
      × Holds q' ((front ++ behind) ++ (word ∷ [])) []
      × (q'.data_of ≡ q.data_of)
unfolding enqueue_loop
enqueue_loop_lem zero word q front behind k r enough = absurd (omega (arith, enough))
enqueue_loop_lem (suc fuel) word q front [] k r enough =
    let all : front ++ [] ≡ front = append-nil front in
    let at_end : adr (q.next (adr q.tail)) ≡ 0 =
      ap (λ t. adr (q.next (adr t))) (k.at_tail ∙ ap (last q.head) (sym all)) ∙ k.ends in
    (
      link word q,
      rw (eq→== (adr (q.next (adr q.tail))) 0 at_end) refl,
      subst (λ ws. Holds (link word q) (ws ++ (word ∷ [])) []) (sym all)
          (link-Holds q front word k (subst (λ ws. IsReady q ws word) all r)),
      refl_data word q,
    )
enqueue_loop_lem (suc fuel) word q front (w ∷ behind) k r enough =
    let next_cap : ℕ = q.next (adr q.tail) in
    let (real, k') = help_tail-Holds q front w behind k in
    let regroup : (front ++ (w ∷ [])) ++ behind ≡ front ++ (w ∷ behind) =
      append_assoc front (w ∷ []) behind in
    let (q', eq, holds, same) =
      enqueue_loop_lem fuel word (help_tail next_cap q) (front ++ (w ∷ [])) behind k'
        (help_tail-IsReady next_cap q (subst (λ ws. IsReady q ws word) (sym regroup) r))
        (omega (arith, enough)) in
    (
      q',
      rw (ne→== (adr next_cap) 0 real) eq,
      subst (λ ws. Holds q' (ws ++ (word ∷ [])) []) regroup holds,
      same ∙ help_data next_cap q,
    )
