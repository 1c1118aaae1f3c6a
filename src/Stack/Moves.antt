-- ===== src/Stack/Moves.antt =====
-- The threads of Utils/LockFreeStack.h together work on one stack of values.
use iocpnet_module_mono_repo.Prelude.{
  ℕ, ◌+◌, ◌<◌, ◌≡◌, ◌≢◌, inl, inr, refl, sym, ap, ap₂, ◌∙◌, List, [], ◌∷◌, Bool, true, false, ◌==◌,
  none, some, All, Bool-cases, map, ==→eq, ==→ne,
}
use iocpnet_module_mono_repo.Stack.{
  Machine, in_pool, by_thread, Phase, idle, push_start, push_read, push_linked, pop_start, pop_read,
  pop_next, popped, returned, adr, set_count, assign, step, move, Move, push, pop, go, adr_range,
  count_range,
}
use iocpnet_module_mono_repo.Stack.Invariant.{
  IsStacked, Holds, All-map, pool-stack, assign_same, assign_other,
}
use iocpnet_module_mono_repo.Stack.Steps.{
  own, read_top, retry_push, to_plain, see_top, read_next, link, put_top, give_back, adr_zero,
}
use iocpnet_module_mono_repo.Stack.Ends.{take_top, start_push}

-- The values of the nodes on the stack, from the top on.
abbrev pub values : Machine → List ℕ → List ℕ
values m ws = map (λ w. m.data_of (adr w)) ws

-- `Pop` has found the stack empty.
abbrev pub is_refused : Phase → Bool
is_refused (returned none) = true
is_refused _ = false

-- What a move does to the stack of values: nothing; or the exchange of a `Push` puts the value of
-- its node on top; or that of a `Pop` takes the top off, whose node it holds from then on; or a
-- `Pop` finds it empty.
pub data Effect (t : ℕ) (m m' : Machine) (before after : List ℕ) : Type 0 where
  unchanged : after ≡ before → is_refused (m'.phase t) ≡ false → Effect t m m' before after
  pushed :
      (node word old : ℕ)
      → m.phase t ≡ push_linked node word old
      → after ≡ m.data_of node ∷ before
      → Effect t m m' before after
  taken :
      (node value : ℕ)
      → m'.phase t ≡ popped node
      → m'.data_of node ≡ value
      → before ≡ value ∷ after
      → Effect t m m' before after
  found_empty : before ≡ [] → after ≡ [] → m'.phase t ≡ returned none → Effect t m m' before after

-- `Push` and `Pop` start in an idle thread; `Push` gets a node that no one holds, and no more than
-- 2 ^ 17 - 1 nodes are pushed in all, so that no count comes up again.
abbrev pub IsAllowed : ℕ → Move → Machine → Type 0
IsAllowed t (push value node) m =
    (m.phase t ≡ idle)
    × (m.owner node ≡ in_pool)
    × (node ≢ 0)
    × (node < adr_range)
    × (m.alloc_cnt + 1 < count_range)
IsAllowed t pop m = m.phase t ≡ idle
IsAllowed t go m = Unit

-- a move leaves a stack, with this effect
abbrev pub Result : ℕ → Machine → Machine → List ℕ → Type 0
Result t m m' ws = (ws' : List ℕ) × Holds m' ws' × Effect t m m' (values m ws) (values m' ws')

map-frame : (f g : ℕ → ℕ) (ws : List ℕ) → All (λ w. f w ≡ g w) ws → map f ws ≡ map g ws
map-frame f g [] h = refl
map-frame f g (w ∷ ws) h = ap₂ ◌∷◌ h.0 (map-frame f g ws h.1)

module _ (t : ℕ) (m : Machine) where
  -- the thread is in a phase that is no refused `Pop`
  goes_on : (f : Phase) → is_refused f ≡ false → is_refused (assign t f m.phase t) ≡ false
  goes_on f e = ap is_refused (assign_same t f m.phase) ∙ e

  exchange_push :
      (ws : List ℕ) (node word old : ℕ)
      → Holds m ws
      → m.phase t ≡ push_linked node word old
      → Result t m (step t (push_linked node word old) m) ws
  unfolding step
  exchange_push ws node word old h e = elim (Bool-cases (m.top == old)) [
    | inl yes_top ↦
        let at_word : adr word ≡ node = (own t m ws h (push_linked node word old) e).0.0 in
        rw (step, yes_top)
          (
            word ∷ ws,
            put_top t m ws h node word old e (==→eq m.top old yes_top),
            pushed node word old e (ap (λ k. m.data_of k ∷ values m ws) at_word),
          )
    | inr other_top ↦
        rw (step, other_top)
          (
            ws,
            retry_push t m ws h node word old e,
            unchanged refl (goes_on (push_start node word) refl),
          )
  ]

  look_empty :
      (ws : List ℕ)
      → Holds m ws
      → m.phase t ≡ pop_start
      → adr m.top ≡ 0
      → Result t m (record m { phase = assign t (returned none) m.phase }) ws
  look_empty [] h e z = (
    [],
    to_plain t m [] h (returned none) tt refl refl,
    found_empty refl refl (assign_same t (returned none) m.phase),
  )
  look_empty (w ∷ ws) h e z = absurd (h.words.0.0 (ap adr (sym h.chain.0) ∙ z))

  look : (ws : List ℕ) → Holds m ws → m.phase t ≡ pop_start → Result t m (step t pop_start m) ws
  unfolding step
  look ws h e = elim (Bool-cases (adr m.top == 0)) [
    | inl no_top ↦ rw (step, no_top) (look_empty ws h e (==→eq (adr m.top) 0 no_top))
    | inr some_top ↦
        rw (step, some_top)
          (
            ws,
            see_top t m ws h (==→ne (adr m.top) 0 some_top),
            unchanged refl (goes_on (pop_read m.top) refl),
          )
  ]

  exchange_pop_top :
      (ws : List ℕ) (old new : ℕ)
      → Holds m ws
      → m.phase t ≡ pop_next old new
      → m.top ≡ old
      → Result t m
          (record m {
            top = new;
            phase = assign t (popped (adr old)) m.phase;
            owner = assign (adr old) (by_thread t) m.owner;
          })
          ws
  exchange_pop_top [] old new h e at =
      absurd ((own t m [] h (pop_next old new) e).0.0 (ap adr (sym at ∙ h.chain) ∙ adr_zero))
  exchange_pop_top (w ∷ ws) old new h e at = (
    ws,
    take_top t m w ws old new h e at,
    taken (adr old) (m.data_of (adr old)) (assign_same t (popped (adr old)) m.phase) refl
        (ap (λ k. m.data_of (adr k) ∷ values m ws) (sym h.chain.0 ∙ at)),
  )

  exchange_pop :
      (ws : List ℕ) (old new : ℕ)
      → Holds m ws
      → m.phase t ≡ pop_next old new
      → Result t m (step t (pop_next old new) m) ws
  unfolding step
  exchange_pop ws old new h e = elim (Bool-cases (m.top == old)) [
    | inl on_top ↦ rw (step, on_top) (exchange_pop_top ws old new h e (==→eq m.top old on_top))
    | inr other_top ↦
        rw (step, other_top)
          (ws, to_plain t m ws h pop_start tt refl refl, unchanged refl (goes_on pop_start refl))
  ]

  step_lem : (ws : List ℕ) (f : Phase) → Holds m ws → m.phase t ≡ f → Result t m (step t f m) ws
  unfolding step
  step_lem ws idle h e = (ws, h, unchanged refl (ap is_refused e))
  step_lem ws (push_start node word) h e =
      (ws, read_top t m ws h node word e, unchanged refl (goes_on (push_read node word m.top) refl))
  step_lem ws (push_read node word old) h e =
      (ws, link t m ws h node word old e, unchanged refl (goes_on (push_linked node word old) refl))
  step_lem ws (push_linked node word old) h e = exchange_push ws node word old h e
  step_lem ws pop_start h e = look ws h e
  step_lem ws (pop_read old) h e = (
    ws,
    read_next t m ws h old e,
    unchanged refl (goes_on (pop_next old (m.next (adr old))) refl),
  )
  step_lem ws (pop_next old new) h e = exchange_pop ws old new h e
  step_lem ws (popped node) h e = (
    ws,
    give_back t m ws h node e,
    unchanged refl (goes_on (returned (some (m.data_of node))) refl),
  )
  step_lem ws (returned o) h e =
      (ws, to_plain t m ws h idle tt refl refl, unchanged refl (goes_on idle refl))

-- Threads that push and pop in any interleaving of their accesses to the shared memory work on one
-- stack of values, as long as no more than 131071 nodes have been pushed: every access leaves it,
-- puts the pushed value on top, takes the top value off, or finds it empty and makes `Pop` fail.
pub move_lem :
    (t : ℕ) (mv : Move) (m : Machine) (ws : List ℕ)
    → IsAllowed t mv m
    → Holds m ws
    → Result t m (move t mv m) ws
unfolding move
move_lem t (push value node) m ws allowed h =
    let word = set_count node (m.alloc_cnt + 1) in
    (
      ws,
      start_push t m ws value node h allowed.1 allowed.2 allowed.3 allowed.4,
      unchanged
          (map-frame (λ w. assign node value m.data_of (adr w)) (λ w. m.data_of (adr w)) ws
            (All-map (IsStacked m.owner m.alloc_cnt)
              (λ w. assign node value m.data_of (adr w) ≡ m.data_of (adr w)) ws
              (λ w s.
                assign_other node value m.data_of (adr w)
                  (λ x. pool-stack (m.owner node) allowed.1 (ap m.owner (sym x) ∙ s.1)))
              h.words))
          (goes_on t m (push_start node word) refl),
    )
move_lem t pop m ws allowed h =
    (ws, to_plain t m ws h pop_start tt refl refl, unchanged refl (goes_on t m pop_start refl))
move_lem t go m ws allowed h = step_lem t m ws (m.phase t) h refl
