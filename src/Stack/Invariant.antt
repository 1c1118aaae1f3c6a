-- ===== src/Stack/Invariant.antt =====
-- What holds of the shared stack of Utils/LockFreeStack.h between any two accesses.
use iocpnet_module_mono_repo.Prelude.{
  ℕ, ◌+◌, ◌≤◌, ◌≡◌, ◌≢◌, ◌⊎◌, inl, inr, refl, sym, subst, ap, ◌∙◌, List, [], ◌∷◌, arith, All, eq→==,
  ne→==,
}
use iocpnet_module_mono_repo.Stack.{
  Machine, Owner, in_pool, in_stack, by_thread, Phase, idle, push_start, push_read, push_linked,
  pop_start, pop_read, pop_next, popped, returned, adr, get_count, assign,
}

-- The words from the top on, each in the `Next` of the one before; 0 ends the list.
abbrev pub IsChain : (ℕ → ℕ) → ℕ → List ℕ → Type 0
IsChain next top [] = top ≡ 0
IsChain next top (w ∷ ws) = (top ≡ w) × IsChain next (next (adr w)) ws

abbrev pub Among : ℕ → List ℕ → Type 0
Among w [] = ⊥
Among w (v ∷ ws) = (w ≡ v) ⊎ Among w ws

-- A word of the stack: it leads to a node that the stack holds, with a count that was given out.
abbrev pub IsStacked : (ℕ → Owner) → ℕ → ℕ → Type 0
IsStacked owner cnt w = (adr w ≢ 0) × (owner (adr w) ≡ in_stack) × (get_count w ≤ cnt)

-- no node stands in the stack twice
abbrev pub AreApart : List ℕ → Type 0
AreApart [] = Unit
AreApart (w ∷ ws) = All (λ v. adr v ≢ adr w) ws × AreApart ws

-- the node that a thread is about to push
abbrev pub IsPending : (ℕ → Owner) → ℕ → ℕ → ℕ → ℕ → Type 0
IsPending owner cnt t node word =
    (adr word ≡ node) × (node ≢ 0) × (owner node ≡ by_thread t) × (get_count word ≤ cnt)

-- What holds of a thread in its phase.
abbrev pub Local : (ℕ → Owner) → (ℕ → ℕ) → ℕ → List ℕ → ℕ → Phase → Type 0
Local owner next cnt ws t idle = Unit
Local owner next cnt ws t (push_start node word) = IsPending owner cnt t node word
Local owner next cnt ws t (push_read node word old) = IsPending owner cnt t node word
Local owner next cnt ws t (push_linked node word old) =
    IsPending owner cnt t node word × (next node ≡ old)
Local owner next cnt ws t pop_start = Unit
Local owner next cnt ws t (pop_read old) = (adr old ≢ 0) × (get_count old ≤ cnt)
Local owner next cnt ws t (pop_next old new) =
    ((adr old ≢ 0) × (get_count old ≤ cnt)) × (Among old ws → next (adr old) ≡ new)
Local owner next cnt ws t (popped node) = owner node ≡ by_thread t
Local owner next cnt ws t (returned o) = Unit

-- the word that a thread is about to put on top, and the one it has seen there in `Pop`; 0 is none
abbrev pub pending : Phase → ℕ
pending (push_start node word) = word
pending (push_read node word old) = word
pending (push_linked node word old) = word
pending _ = 0

abbrev pub seen : Phase → ℕ
seen (pop_read old) = old
seen (pop_next old new) = old
seen _ = 0

-- The words `ws` are on the stack, from the top on.
pub record Holds (m : Machine) (ws : List ℕ) : Type 0 where
  pub chain : IsChain m.next m.top ws
  pub words : All (IsStacked m.owner m.alloc_cnt) ws
  pub apart : AreApart ws
  pub local : (t : ℕ) → Local m.owner m.next m.alloc_cnt ws t (m.phase t)
  pub unseen : (t u : ℕ) → pending (m.phase t) ≡ seen (m.phase u) → pending (m.phase t) ≡ 0

pub All-map : (P Q : ℕ → Type 0) (ws : List ℕ) → ((w : ℕ) → P w → Q w) → All P ws → All Q ws
All-map P Q [] f h = tt
All-map P Q (w ∷ ws) f h = (f w h.0, All-map P Q ws f h.1)

pub All-at : (P : ℕ → Type 0) (o : ℕ) (ws : List ℕ) → Among o ws → All P ws → P o
All-at P o [] e h = absurd e
All-at P o (w ∷ ws) (inl e) h = subst P (sym e) h.0
All-at P o (w ∷ ws) (inr there) h = All-at P o ws there h.1

pub IsChain-frame :
    (next next' : ℕ → ℕ) (top : ℕ) (ws : List ℕ)
    → All (λ w. next' (adr w) ≡ next (adr w)) ws
    → IsChain next top ws
    → IsChain next' top ws
IsChain-frame next next' top [] same c = c
IsChain-frame next next' top (w ∷ ws) same c = (
  c.0,
  IsChain-frame next next' (next' (adr w)) ws same.1
      (subst (λ k. IsChain next k ws) (sym same.0) c.1),
)

-- Owners are told apart by numbers.
owner_code : Owner → ℕ
owner_code in_pool = 0
owner_code in_stack = 1
owner_code (by_thread t) = t + 2

pub stack-thread : (o : Owner) (t : ℕ) → o ≡ in_stack → o ≢ by_thread t
unfolding owner_code
stack-thread o t e f = let codes : 1 ≡ t + 2 = ap owner_code (sym e ∙ f) in omega (arith, codes)

pub pool-thread : (o : Owner) (t : ℕ) → o ≡ in_pool → o ≢ by_thread t
unfolding owner_code
pool-thread o t e f = let codes : 0 ≡ t + 2 = ap owner_code (sym e ∙ f) in omega (arith, codes)

pub pool-stack : (o : Owner) → o ≡ in_pool → o ≢ in_stack
unfolding owner_code
pool-stack o e f = let codes : ◌≡◌ {A = ℕ} 0 1 = ap owner_code (sym e ∙ f) in omega (arith, codes)

pub thread-thread : (o : Owner) (t u : ℕ) → o ≡ by_thread t → o ≡ by_thread u → t ≡ u
unfolding owner_code
thread-thread o t u e f =
    let codes : t + 2 ≡ u + 2 = ap owner_code (sym e ∙ f) in omega (arith, codes)

module _ {ℓ} {A : Type ℓ} where
  pub assign_same : (k : ℕ) (v : A) (f : ℕ → A) → assign k v f k ≡ v
  unfolding assign
  assign_same k v f = rw (eq→== k k refl) refl

  pub assign_other : (k : ℕ) (v : A) (f : ℕ → A) (i : ℕ) → i ≢ k → assign k v f i ≡ f i
  unfolding assign
  assign_other k v f i h = rw (ne→== i k h) refl

-- What another thread does leaves what holds of a thread in its phase: the thread keeps its nodes
-- with their links, and a word that it has seen on top is on the stack only if it was before.
pub Local-frame :
    (owner owner' : ℕ → Owner) (next next' : ℕ → ℕ) (cnt cnt' : ℕ) (ws ws' : List ℕ) (u : ℕ)
    (f : Phase)
    → ((a : ℕ) → owner a ≡ by_thread u → (owner' a ≡ by_thread u) × (next' a ≡ next a))
    → cnt ≤ cnt'
    → (Among (seen f) ws' → Among (seen f) ws × (next' (adr (seen f)) ≡ next (adr (seen f))))
    → Local owner next cnt ws u f
    → Local owner' next' cnt' ws' u f
Local-frame owner owner' next next' cnt cnt' ws ws' u idle keep more stays l = tt
Local-frame owner owner' next next' cnt cnt' ws ws' u (push_start node word) keep more stays l =
    (l.0, l.1, (keep node l.2).0, omega (arith, more, l.3))
Local-frame owner owner' next next' cnt cnt' ws ws' u (push_read node word old) keep more stays l =
    (l.0, l.1, (keep node l.2).0, omega (arith, more, l.3))
Local-frame owner owner' next next' cnt cnt' ws ws' u (push_linked node word old) keep more stays
      l =
    let (p, q, r, s) = l.0 in
    ((p, q, (keep node r).0, omega (arith, more, s)), (keep node r).1 ∙ l.1)
Local-frame owner owner' next next' cnt cnt' ws ws' u pop_start keep more stays l = tt
Local-frame owner owner' next next' cnt cnt' ws ws' u (pop_read old) keep more stays l =
    (l.0, omega (arith, more, l.1))
Local-frame owner owner' next next' cnt cnt' ws ws' u (pop_next old new) keep more stays l = (
  (l.0.0, omega (arith, more, l.0.1)),
  λ among. let (before, same) = stays among in same ∙ l.1 before,
)
Local-frame owner owner' next next' cnt cnt' ws ws' u (popped node) keep more stays l =
    (keep node l).0
Local-frame owner owner' next next' cnt cnt' ws ws' u (returned o) keep more stays l = tt
