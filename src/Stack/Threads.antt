-- ===== src/Stack/Threads.antt =====
-- A thread of Utils/LockFreeStack.h goes to another phase: what holds of all threads then.
use iocpnet_module_mono_repo.Prelude.{ℕ, ◌≡◌, ◌≢◌, inl, inr, sym, subst, List, eq-or-ne}
use iocpnet_module_mono_repo.Stack.{Machine, Owner, Phase, assign}
use iocpnet_module_mono_repo.Stack.Invariant.{
  Local, pending, seen, Holds, assign_same, assign_other,
}

-- Thread `t` goes to another phase, while the memory may change; what holds of every thread.
module _ (t : ℕ) (f : Phase) (phase : ℕ → Phase) (owner : ℕ → Owner) (next : ℕ → ℕ) (cnt : ℕ)
    (ws : List ℕ) where
  pub all-Local :
      Local owner next cnt ws t f
      → ((u : ℕ) → u ≢ t → Local owner next cnt ws u (phase u))
      → (u : ℕ) → Local owner next cnt ws u (assign t f phase u)
  all-Local mine others u = elim (eq-or-ne u t) [
    | inl same ↦
        subst (Local owner next cnt ws u)
          (subst (λ k. f ≡ assign t f phase k) (sym same) (sym (assign_same t f phase)))
          (subst (λ k. Local owner next cnt ws k f) (sym same) mine)
    | inr other ↦
        subst (Local owner next cnt ws u) (sym (assign_other t f phase u other)) (others u other)
  ]

abbrev pub Unseen : (ℕ → Phase) → Type 0
Unseen phase = (t u : ℕ) → pending (phase t) ≡ seen (phase u) → pending (phase t) ≡ 0

-- the words of the phase are told apart from those of all others
pub all-Unseen :
    (t : ℕ) (f : Phase) (phase : ℕ → Phase)
    → Unseen phase
    → (pending f ≡ seen f → pending f ≡ 0)
    → ((u : ℕ) → u ≢ t → pending f ≡ seen (phase u) → pending f ≡ 0)
    → ((u : ℕ) → u ≢ t → pending (phase u) ≡ seen f → pending (phase u) ≡ 0)
    → Unseen (assign t f phase)
all-Unseen t f phase before mine mine_seen theirs a b = elim (eq-or-ne a t) [
  | inl x ↦
      let here : assign t f phase a ≡ f =
        subst (λ k. assign t f phase k ≡ f) (sym x) (assign_same t f phase) in
      elim (eq-or-ne b t) [
        | inl y ↦
            let there : assign t f phase b ≡ f =
              subst (λ k. assign t f phase k ≡ f) (sym y) (assign_same t f phase) in
            rw (here, there) mine
        | inr y ↦ rw (here, assign_other t f phase b y) (mine_seen b y)
      ]
  | inr x ↦ elim (eq-or-ne b t) [
    | inl y ↦
        let there : assign t f phase b ≡ f =
          subst (λ k. assign t f phase k ≡ f) (sym y) (assign_same t f phase) in
        rw (assign_other t f phase a x, there) (theirs a x)
    | inr y ↦ rw (assign_other t f phase a x, assign_other t f phase b y) (before a b)
  ]
]

-- A thread changes its phase and nothing else.
pub quiet :
    (t : ℕ) (f : Phase) (m : Machine) (ws : List ℕ)
    → Holds m ws
    → Local m.owner m.next m.alloc_cnt ws t f
    → (pending f ≡ seen f → pending f ≡ 0)
    → ((u : ℕ) → u ≢ t → pending f ≡ seen (m.phase u) → pending f ≡ 0)
    → ((u : ℕ) → u ≢ t → pending (m.phase u) ≡ seen f → pending (m.phase u) ≡ 0)
    → Holds (record m { phase = assign t f m.phase }) ws
quiet t f m ws h mine a b c = record {
  chain = h.chain;
  words = h.words;
  apart = h.apart;
  local = all-Local t f m.phase m.owner m.next m.alloc_cnt ws mine (λ u other. h.local u);
  unseen = all-Unseen t f m.phase h.unseen a b c;
}
