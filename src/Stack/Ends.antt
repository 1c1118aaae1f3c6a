-- ===== src/Stack/Ends.antt =====
-- The start of `Push` and the exchange of `Pop` in Utils/LockFreeStack.h.
use iocpnet_module_mono_repo.Prelude.{
  ℕ, ◌+◌, ◌<◌, ◌≤◌, ◌≡◌, ◌≢◌, ◌⊎◌, inl, inr, refl, sym, subst, ap, ◌∙◌, List, [], ◌∷◌, arith, All,
}
use iocpnet_module_mono_repo.Stack.{
  Machine, Owner, in_pool, in_stack, by_thread, Phase, push_start, pop_read, pop_next, popped, adr,
  get_count, set_count, assign, move, push, adr_range, count_range,
}
use iocpnet_module_mono_repo.Stack.Words.{adr-set_count, get_count-set_count}
use iocpnet_module_mono_repo.Stack.Invariant.{
  IsChain, IsStacked, Local, seen, Holds, All-map, stack-thread, pool-thread, pool-stack,
  assign_same, assign_other, Local-frame,
}
use iocpnet_module_mono_repo.Stack.Threads.{all-Local, all-Unseen}
use iocpnet_module_mono_repo.Stack.Steps.{own}

All-zip :
    (P Q R : ℕ → Type 0) (ws : List ℕ)
    → ((w : ℕ) → P w → Q w → R w)
    → All P ws
    → All Q ws
    → All R ws
All-zip P Q R [] f p q = tt
All-zip P Q R (w ∷ ws) f p q = (f w p.0 q.0, All-zip P Q R ws f p.1 q.1)

-- the exchange of `Pop` succeeds
pub take_top :
    (t : ℕ) (m : Machine) (w : ℕ) (ws : List ℕ) (old new : ℕ)
    → Holds m (w ∷ ws)
    → m.phase t ≡ pop_next old new
    → m.top ≡ old
    → Holds
        (record m {
          top = new;
          phase = assign t (popped (adr old)) m.phase;
          owner = assign (adr old) (by_thread t) m.owner;
        })
        ws
take_top t m w ws old new h e at =
    let l = own t m (w ∷ ws) h (pop_next old new) e in
    let is_first : old ≡ w = sym at ∙ h.chain.0 in
    let owner' = assign (adr old) (by_thread t) m.owner in
    let stacked : m.owner (adr old) ≡ in_stack =
      subst (λ k. m.owner (adr k) ≡ in_stack) (sym is_first) h.words.0.1 in
    let away : (a u : ℕ) → m.owner a ≡ by_thread u → a ≢ adr old =
      λ a u ea x. stack-thread (m.owner (adr old)) u stacked (ap m.owner (sym x) ∙ ea) in
    record {
      chain =
          subst (λ k. IsChain m.next k ws)
            (ap (λ k. m.next (adr k)) (sym is_first) ∙ l.1 (inl is_first)) h.chain.1;
      words =
          All-zip (λ v. adr v ≢ adr w) (IsStacked m.owner m.alloc_cnt)
            (IsStacked owner' m.alloc_cnt) ws
            (λ v other s. (
              s.0,
              assign_other (adr old) (by_thread t) m.owner (adr v)
                    (λ x. other (x ∙ ap adr is_first))
                  ∙ s.1,
              s.2,
            ))
            h.apart.0 h.words.1;
      apart = h.apart.1;
      local =
          all-Local t (popped (adr old)) m.phase owner' m.next m.alloc_cnt ws
            (assign_same (adr old) (by_thread t) m.owner)
            (λ u other.
              Local-frame m.owner owner' m.next m.next m.alloc_cnt m.alloc_cnt (w ∷ ws) ws u
                (m.phase u)
                (λ a ea. (assign_other (adr old) (by_thread t) m.owner a (away a u ea) ∙ ea, refl))
                (omega arith) (λ among. (inr among, refl)) (h.local u));
      unseen =
          all-Unseen t (popped (adr old)) m.phase h.unseen (λ x. refl) (λ u other x. refl)
            (λ u other x. x);
    }

-- a word that a thread has seen has a count that was given out
seen-count :
    (owner : ℕ → Owner) (next : ℕ → ℕ) (cnt : ℕ) (ws : List ℕ) (u : ℕ) (f : Phase)
    → Local owner next cnt ws u f
    → (seen f ≡ 0) ⊎ (get_count (seen f) ≤ cnt)
seen-count owner next cnt ws u (pop_read old) l = inr l.1
seen-count owner next cnt ws u (pop_next old new) l = inr l.0.1
seen-count owner next cnt ws u _ l = inl refl

-- `Push` takes a node of the pool and a count
pub start_push :
    (t : ℕ) (m : Machine) (ws : List ℕ) (value node : ℕ)
    → Holds m ws
    → m.owner node ≡ in_pool
    → node ≢ 0
    → node < adr_range
    → m.alloc_cnt + 1 < count_range
    → Holds (move t (push value node) m) ws
unfolding move
start_push t m ws value node h pooled not_null fits room =
    let cnt = m.alloc_cnt + 1 in
    let word = set_count node cnt in
    let at_word : adr word ≡ node = adr-set_count node cnt fits in
    let counted : get_count word ≡ cnt = get_count-set_count node cnt room in
    let owner' = assign node (by_thread t) m.owner in
    record {
      chain = h.chain;
      words =
          All-map (IsStacked m.owner m.alloc_cnt) (IsStacked owner' cnt) ws
            (λ v s. (
              s.0,
              assign_other node (by_thread t) m.owner (adr v)
                    (λ x. pool-stack (m.owner node) pooled (ap m.owner (sym x) ∙ s.1))
                  ∙ s.1,
              (let given = s.2 in omega (arith, given)),
            ))
            h.words;
      apart = h.apart;
      local =
          all-Local t (push_start node word) m.phase owner' m.next cnt ws
            (at_word, not_null, assign_same node (by_thread t) m.owner, omega (arith, counted))
            (λ u other.
              Local-frame m.owner owner' m.next m.next m.alloc_cnt cnt ws ws u (m.phase u)
                (λ a ea. (
                  assign_other node (by_thread t) m.owner a
                        (λ x. pool-thread (m.owner node) u pooled (ap m.owner (sym x) ∙ ea))
                      ∙ ea,
                  refl,
                ))
                (omega arith) (λ among. (among, refl)) (h.local u));
      unseen =
          all-Unseen t (push_start node word) m.phase h.unseen (λ x. x)
            (λ u other x.
              elim (seen-count m.owner m.next m.alloc_cnt ws u (m.phase u) (h.local u)) [
                | inl zero_seen ↦ x ∙ zero_seen
                | inr given ↦
                    let same : get_count word ≡ get_count (seen (m.phase u)) = ap get_count x in
                    absurd (omega (arith, given, same, counted))
              ])
            (λ u other x. x);
    }
