-- ===== src/Pool/Places.antt =====
-- How often an object stands in the chains and sets of the pool of Utils/TLSObjectPool.h.
use iocpnet_module_mono_repo.Prelude.{
  ℕ, zero, suc, ◌+◌, ◌-◌, ◌<◌, ◌≤◌, ◌≡◌, ◌⊎◌, inl, inr, refl, sym, ap, List, [], ◌∷◌, false, leb,
  ◌==◌, if◌then◌else◌, arith, Bool-cases, eq-or-ne, eq→==, ne→==,
}
use iocpnet_module_mono_repo.Sector.Order.{count}
use iocpnet_module_mono_repo.Pool.{LocalSlot, TlsObjectPool, put_slot, refill, take_node, free}

abbrev pub in_slot : ℕ → LocalSlot → ℕ
in_slot y s = count y s.top + count y s.rtop

-- over the slots of the threads below `n`
unfoldable pub in_slots : ℕ → ℕ → (ℕ → LocalSlot) → ℕ
in_slots y zero slots = 0
in_slots y (suc n) slots = in_slot y (slots n) + in_slots y n slots

unfoldable pub in_sets : ℕ → List (List ℕ × ℕ) → ℕ
in_sets y [] = 0
in_sets y (set ∷ sets) = count y set.0 + in_sets y sets

-- how often the pool holds an object ready for `Alloc`
unfoldable pub places : ℕ → ℕ → TlsObjectPool → ℕ
places n y p = in_slots y n p.slots + in_sets y p.free_sets

in_slots-above :
    (y n t : ℕ) (s : LocalSlot) (slots : ℕ → LocalSlot)
    → n ≤ t
    → in_slots y n (put_slot t s slots) ≡ in_slots y n slots
unfolding in_slots put_slot
in_slots-above y zero t s slots h = refl
in_slots-above y (suc n) t s slots h =
    let ih = in_slots-above y n t s slots (omega arith) in
    let other : (n == t) ≡ false = ground arith in rw other (ap (λ k. in_slot y (slots n) + k) ih)

-- a slot is exchanged
pub in_slots-put :
    (y n t : ℕ) (s : LocalSlot) (slots : ℕ → LocalSlot)
    → t < n
    → in_slots y n (put_slot t s slots) + in_slot y (slots t) ≡ in_slots y n slots + in_slot y s
unfolding in_slots put_slot
in_slots-put y zero t s slots h = absurd (omega arith)
in_slots-put y (suc n) t s slots h = elim (eq-or-ne n t) [
  | inl same ↦
      let above = in_slots-above y n t s slots (omega arith) in
      let here : in_slot y (slots t) ≡ in_slot y (slots n) =
        ap (λ k. in_slot y (slots k)) (sym same) in
      rw (eq→== n t same) (omega (arith, above, here))
  | inr other ↦
      let ih = in_slots-put y n t s slots (omega arith) in rw (ne→== n t other) (omega (arith, ih))
]

pub List-cases : (xs : List ℕ) → (xs ≡ []) ⊎ ((x : ℕ) × (rest : List ℕ) × (xs ≡ x ∷ rest))
List-cases [] = inl refl
List-cases (x ∷ xs) = inr (x, xs, refl)

pub Sets-cases :
    (sets : List (List ℕ × ℕ))
    → (sets ≡ []) ⊎ ((set : List ℕ × ℕ) × (rest : List (List ℕ × ℕ)) × (sets ≡ set ∷ rest))
Sets-cases [] = inl refl
Sets-cases (set ∷ sets) = inr (set, sets, refl)

module _ (n t y : ℕ) (p : TlsObjectPool) (below : t < n) where
  -- a slot is exchanged for one that holds as much
  places-put :
      (s : LocalSlot)
      → in_slot y s ≡ in_slot y (p.slots t)
      → in_slots y n (put_slot t s p.slots) ≡ in_slots y n p.slots
  places-put s e = let put = in_slots-put y n t s p.slots below in omega (arith, put, e)

  pub refill-places : (p.slots t).top ≡ [] → places n y (refill t p) ≡ places n y p
  unfolding places refill in_sets
  refill-places empty = elim (Sets-cases p.free_sets) [
    | inl e ↦
        let nothing : in_sets y p.free_sets ≡ 0 = ap (in_sets y) e in
        elim (Bool-cases (leb p.chunk_size ((p.slots t).use_size + 1))) [
          | inl full ↦
              let same = places-put (record (p.slots t) { use_size = 0 }) refl in
              rw (refill, e, full) (omega (arith, nothing, same))
          | inr room ↦
              let same =
                places-put (record (p.slots t) { use_size = (p.slots t).use_size + 1 }) refl in
              rw (refill, e, room) (omega (arith, nothing, same))
        ]
    | inr (set, sets, e) ↦
        let s = record (p.slots t) { top = set.0; current_size = set.1 } in
        let put = in_slots-put y n t s p.slots below in
        let none : count y (p.slots t).top ≡ 0 = ap (count y) empty in
        rw (refill, e) (omega (arith, put, none))
  ]

  -- a node is taken off a chain, or a new one is made
  pub take_node-places :
      (((take_node t p).0 ≡ p.fresh)
        × ((take_node t p).1.fresh ≡ p.fresh + 1)
        × (places n y (take_node t p).1 ≡ places n y p))
      ⊎ (((take_node t p).1.fresh ≡ p.fresh)
          × (places n y (take_node t p).1 + (if y == (take_node t p).0 then 1 else 0)
              ≡ places n y p))
  unfolding places take_node
  take_node-places = elim (List-cases (p.slots t).top) [
    | inl e ↦ inl (rw (take_node, e) refl, rw (take_node, e) refl, rw (take_node, e) refl)
    | inr (x, xs, e) ↦
        let s = record (p.slots t) { top = xs; current_size = (p.slots t).current_size - 1 } in
        let put = in_slots-put y n t s p.slots below in
        let had : count y (p.slots t).top ≡ (if y == x then 1 else 0) + count y xs =
          ap (count y) e in
        inr (rw (take_node, e) refl, rw (take_node, e) (omega (arith, put, had)))
  ]

  -- a node is put back
  pub free-places : (x : ℕ) → places n y (free t x p) ≡ places n y p + (if y == x then 1 else 0)
  unfolding places free in_sets
  free-places x = elim (Bool-cases (leb p.chunk_size ((p.slots t).free_cnt + 1))) [
    | inl full ↦
        let s = record (p.slots t) { rtop = []; free_cnt = 0 } in
        let put = in_slots-put y n t s p.slots below in rw (free, full) (omega (arith, put))
    | inr room ↦
        let s = record (p.slots t) {
          rtop = x ∷ (p.slots t).rtop;
          free_cnt = (p.slots t).free_cnt + 1;
        } in
        let put = in_slots-put y n t s p.slots below in rw (free, room) (omega (arith, put))
  ]
