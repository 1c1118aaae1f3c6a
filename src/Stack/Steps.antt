-- ===== src/Stack/Steps.antt =====
-- Every access of Utils/LockFreeStack.h, and what it does to the stack.
use iocpnet_module_mono_repo.Prelude.{
  ℕ, ◌≡◌, ◌≢◌, ◌⊎◌, inl, inr, refl, sym, subst, ap, ◌∙◌, List, [], ◌∷◌, some, arith, All,
}
use iocpnet_module_mono_repo.Stack.{
  Machine, Owner, in_pool, in_stack, by_thread, Phase, idle, push_start, push_read, push_linked,
  pop_start, pop_read, pop_next, popped, returned, adr, assign, step,
}
use iocpnet_module_mono_repo.Stack.Invariant.{
  IsChain, Among, IsStacked, Local, pending, seen, Holds, All-map, All-at, IsChain-frame,
  stack-thread, thread-thread, assign_same, assign_other, Local-frame,
}
use iocpnet_module_mono_repo.Stack.Threads.{all-Local, all-Unseen, quiet}

-- the node of a pending word is its thread's
pub pending-owner :
    (owner : ℕ → Owner) (next : ℕ → ℕ) (cnt : ℕ) (ws : List ℕ) (u : ℕ) (f : Phase)
    → Local owner next cnt ws u f
    → (pending f ≡ 0) ⊎ (owner (adr (pending f)) ≡ by_thread u)
pending-owner owner next cnt ws u idle l = inl refl
pending-owner owner next cnt ws u (push_start node word) l =
    inr (subst (λ k. owner k ≡ by_thread u) (sym l.0) l.2)
pending-owner owner next cnt ws u (push_read node word old) l =
    inr (subst (λ k. owner k ≡ by_thread u) (sym l.0) l.2)
pending-owner owner next cnt ws u (push_linked node word old) l =
    inr (subst (λ k. owner k ≡ by_thread u) (sym l.0.0) l.0.2)
pending-owner owner next cnt ws u pop_start l = inl refl
pending-owner owner next cnt ws u (pop_read old) l = inl refl
pending-owner owner next cnt ws u (pop_next old new) l = inl refl
pending-owner owner next cnt ws u (popped node) l = inl refl
pending-owner owner next cnt ws u (returned o) l = inl refl

pub adr_zero : adr 0 ≡ 0
unfolding adr
adr_zero = refl

top-Among : (next : ℕ → ℕ) (top : ℕ) (ws : List ℕ) → IsChain next top ws → top ≢ 0 → Among top ws
top-Among next top [] c some_top = absurd (some_top c)
top-Among next top (w ∷ ws) c some_top = inl c.0

module _ (t : ℕ) (m : Machine) (ws : List ℕ) (h : Holds m ws) where
  -- what holds of the thread in the phase that it is in
  pub own : (f : Phase) → m.phase t ≡ f → Local m.owner m.next m.alloc_cnt ws t f
  own f e = subst (Local m.owner m.next m.alloc_cnt ws t) e (h.local t)

  pub own_unseen :
      (f : Phase) → m.phase t ≡ f → (u : ℕ) → pending f ≡ seen (m.phase u) → pending f ≡ 0
  own_unseen f e u = subst (λ k. pending k ≡ seen (m.phase u) → pending k ≡ 0) e (h.unseen t u)

  pub seen_by :
      (f : Phase) → m.phase t ≡ f → (u : ℕ) → pending (m.phase u) ≡ seen f → pending (m.phase u) ≡ 0
  seen_by f e u =
      subst (λ k. pending (m.phase u) ≡ seen k → pending (m.phase u) ≡ 0) e (h.unseen u t)

  pub read_top :
      (node word : ℕ)
      → m.phase t ≡ push_start node word
      → Holds (step t (push_start node word) m) ws
  unfolding step
  read_top node word e =
      quiet t (push_read node word m.top) m ws h (own (push_start node word) e) (λ x. x)
        (λ u other. own_unseen (push_start node word) e u) (λ u other x. x)

  pub retry_push :
      (node word old : ℕ)
      → m.phase t ≡ push_linked node word old
      → Holds (record m { phase = assign t (push_start node word) m.phase }) ws
  retry_push node word old e =
      quiet t (push_start node word) m ws h (own (push_linked node word old) e).0 (λ x. x)
        (λ u other. own_unseen (push_linked node word old) e u) (λ u other x. x)

  pub to_plain :
      (f : Phase)
      → Local m.owner m.next m.alloc_cnt ws t f
      → pending f ≡ 0
      → seen f ≡ 0
      → Holds (record m { phase = assign t f m.phase }) ws
  to_plain f l no_word nothing_seen =
      quiet t f m ws h l (λ x. no_word) (λ u other x. no_word) (λ u other x. x ∙ nothing_seen)

  top-IsStacked : m.top ≢ 0 → IsStacked m.owner m.alloc_cnt m.top
  top-IsStacked some_top =
      All-at (IsStacked m.owner m.alloc_cnt) m.top ws (top-Among m.next m.top ws h.chain some_top)
        h.words

  -- a word on top of the stack is no thread's pending word
  top-unseen : m.top ≢ 0 → (u : ℕ) → pending (m.phase u) ≡ m.top → pending (m.phase u) ≡ 0
  top-unseen some_top u e =
      let stacked = top-IsStacked some_top in
      elim (pending-owner m.owner m.next m.alloc_cnt ws u (m.phase u) (h.local u)) [
        | inl no_word ↦ no_word
        | inr held ↦ absurd (
            stack-thread (m.owner (adr m.top)) u stacked.1
              (subst (λ k. m.owner (adr k) ≡ by_thread u) e held))
      ]

  pub see_top : adr m.top ≢ 0 → Holds (record m { phase = assign t (pop_read m.top) m.phase }) ws
  see_top some_top =
      let not_zero : m.top ≢ 0 = λ z. some_top (ap adr z ∙ adr_zero) in
      quiet t (pop_read m.top) m ws h (some_top, (top-IsStacked not_zero).2) (λ x. refl)
        (λ u other x. refl) (λ u other. top-unseen not_zero u)

  pub read_next : (old : ℕ) → m.phase t ≡ pop_read old → Holds (step t (pop_read old) m) ws
  unfolding step
  read_next old e =
      quiet t (pop_next old (m.next (adr old))) m ws h (own (pop_read old) e, λ among. refl)
        (λ x. refl) (λ u other x. refl) (λ u other. seen_by (pop_read old) e u)

  -- a node of the thread is no node of the stack, and no node of another thread
  pub stack-node :
      (node : ℕ)
      → m.owner node ≡ by_thread t
      → (v : ℕ) → IsStacked m.owner m.alloc_cnt v
      → adr v ≢ node
  stack-node node mine v s x = stack-thread (m.owner (adr v)) t s.1 (ap m.owner x ∙ mine)

  pub thread-node :
      (node : ℕ)
      → m.owner node ≡ by_thread t
      → (u : ℕ) → u ≢ t
      → (a : ℕ) → m.owner a ≡ by_thread u
      → a ≢ node
  thread-node node mine u other a ea x =
      other (thread-thread (m.owner a) u t ea (ap m.owner x ∙ mine))

  -- the words of the stack after a node of the thread has gone to another owner
  words-assign :
      (node : ℕ) (o : Owner)
      → m.owner node ≡ by_thread t
      → All (IsStacked (assign node o m.owner) m.alloc_cnt) ws
  words-assign node o mine =
      All-map (IsStacked m.owner m.alloc_cnt) (IsStacked (assign node o m.owner) m.alloc_cnt) ws
        (λ v s. (s.0, assign_other node o m.owner (adr v) (stack-node node mine v s) ∙ s.1, s.2))
        h.words

  -- `newTopAdr->Next = oldTop`
  pub link :
      (node word old : ℕ)
      → m.phase t ≡ push_read node word old
      → Holds (step t (push_read node word old) m) ws
  unfolding step
  link node word old e =
      let l = own (push_read node word old) e in
      let next' = assign node old m.next in
      let kept : (v : ℕ) → IsStacked m.owner m.alloc_cnt v → next' (adr v) ≡ m.next (adr v) =
        λ v s. assign_other node old m.next (adr v) (stack-node node l.2 v s) in
      record {
        chain =
            IsChain-frame m.next next' m.top ws
              (All-map (IsStacked m.owner m.alloc_cnt) (λ v. next' (adr v) ≡ m.next (adr v)) ws kept
                h.words)
              h.chain;
        words = h.words;
        apart = h.apart;
        local =
            all-Local t (push_linked node word old) m.phase m.owner next' m.alloc_cnt ws
              (l, assign_same node old m.next)
              (λ u other.
                Local-frame m.owner m.owner m.next next' m.alloc_cnt m.alloc_cnt ws ws u (m.phase u)
                  (λ a ea. (ea, assign_other node old m.next a (thread-node node l.2 u other a ea)))
                  (omega arith)
                  (λ among. (
                    among,
                    kept (seen (m.phase u)) (
                        All-at (IsStacked m.owner m.alloc_cnt) (seen (m.phase u)) ws among h.words),
                  ))
                  (h.local u));
        unseen =
            all-Unseen t (push_linked node word old) m.phase h.unseen (λ x. x)
              (λ u other. own_unseen (push_read node word old) e u) (λ u other x. x);
      }

  -- the exchange of `Push` succeeds
  pub put_top :
      (node word old : ℕ)
      → m.phase t ≡ push_linked node word old
      → m.top ≡ old
      → Holds
          (record m {
            top = word;
            phase = assign t idle m.phase;
            owner = assign node in_stack m.owner;
          })
          (word ∷ ws)
  put_top node word old e at =
      let l = own (push_linked node word old) e in
      let mine : m.owner node ≡ by_thread t = l.0.2 in
      let at_word : adr word ≡ node = l.0.0 in
      let owner' = assign node in_stack m.owner in
      let not_null : adr word ≢ 0 = λ x. l.0.1 (sym at_word ∙ x) in
      record {
        chain = (
          refl,
          subst (λ k. IsChain m.next k ws) (at ∙ sym l.1 ∙ ap m.next (sym at_word)) h.chain,
        );
        words = (
          (
            not_null,
            subst (λ k. owner' k ≡ in_stack) (sym at_word) (assign_same node in_stack m.owner),
            l.0.3,
          ),
          words-assign node in_stack mine,
        );
        apart = (
          All-map (IsStacked m.owner m.alloc_cnt) (λ v. adr v ≢ adr word) ws
              (λ v s x. stack-node node mine v s (x ∙ at_word)) h.words,
          h.apart,
        );
        local = all-Local t idle m.phase owner' m.next m.alloc_cnt (word ∷ ws) tt (λ u other.
            Local-frame m.owner owner' m.next m.next m.alloc_cnt m.alloc_cnt ws (word ∷ ws) u
              (m.phase u)
              (λ a ea. (
                assign_other node in_stack m.owner a (thread-node node mine u other a ea) ∙ ea,
                refl,
              ))
              (omega arith)
              (λ among. elim among [
                | inl is ↦ absurd (
                    not_null
                      (ap adr (own_unseen (push_linked node word old) e u (sym is)) ∙ adr_zero))
                | inr before ↦ (before, refl)
              ])
              (h.local u));
        unseen =
            all-Unseen t idle m.phase h.unseen (λ x. refl) (λ u other x. refl) (λ u other x. x);
      }

  -- the node is given back to the pool
  pub give_back : (node : ℕ) → m.phase t ≡ popped node → Holds (step t (popped node) m) ws
  unfolding step
  give_back node e =
      let mine : m.owner node ≡ by_thread t = own (popped node) e in
      let owner' = assign node in_pool m.owner in
      record {
        chain = h.chain;
        words = words-assign node in_pool mine;
        apart = h.apart;
        local =
            all-Local t (returned (some (m.data_of node))) m.phase owner' m.next m.alloc_cnt ws tt
              (λ u other.
                Local-frame m.owner owner' m.next m.next m.alloc_cnt m.alloc_cnt ws ws u (m.phase u)
                  (λ a ea. (
                    assign_other node in_pool m.owner a (thread-node node mine u other a ea) ∙ ea,
                    refl,
                  ))
                  (omega arith) (λ among. (among, refl)) (h.local u));
        unseen =
            all-Unseen t (returned (some (m.data_of node))) m.phase h.unseen (λ x. refl)
              (λ u other x. refl) (λ u other x. x);
      }
