-- ===== src/Sector/Order.antt =====
-- The order in which the locks of the sectors around one are taken.
use iocpnet_module_mono_repo.Prelude.{
  ℕ, zero, suc, ◌+◌, ◌≤◌, ◌≡◌, refl, ap, List, [], ◌∷◌, ltb, ◌==◌, if◌then◌else◌, arith, length,
  All, inl, inr, Bool-cases,
}
use iocpnet_module_mono_repo.Sector.{sink, bubble, bubble_sort_by_id}

-- Every element is at most the ones behind it.
abbrev pub IsSorted : List ℕ → Type 0
IsSorted [] = Unit
IsSorted (a ∷ ids) = All (λ b. a ≤ b) ids × IsSorted ids

-- how often a number stands in a list
abbrev pub count : ℕ → List ℕ → ℕ
count v [] = 0
count v (a ∷ ids) = (if v == a then 1 else 0) + count v ids

-- a pass keeps the elements and the bounds that all of them have
sink-count :
    (v a : ℕ) (ids : List ℕ) → count v ((sink a ids).0 ∷ (sink a ids).1) ≡ count v (a ∷ ids)
unfolding sink
sink-count v a [] = refl
sink-count v a (b ∷ bs) = elim (Bool-cases (ltb b a)) [
  | inl less ↦ let ih = sink-count v b bs in rw less (omega (arith, ih))
  | inr more ↦ let ih = sink-count v a bs in rw more (omega (arith, ih))
]

length-sink : (a : ℕ) (ids : List ℕ) → length (sink a ids).1 ≡ length ids
unfolding sink
length-sink a [] = refl
length-sink a (b ∷ bs) = ap suc (length-sink (if ltb b a then b else a) bs)

sink-All :
    (P : ℕ → Type 0) (a : ℕ) (ids : List ℕ)
    → P a
    → All P ids
    → P (sink a ids).0 × All P (sink a ids).1
unfolding sink
sink-All P a [] p ps = (p, ps)
sink-All P a (b ∷ bs) p ps = elim (Bool-cases (ltb b a)) [
  | inl less ↦ let ih = sink-All P b bs ps.0 ps.1 in rw less (ih.0, (p, ih.1))
  | inr more ↦ let ih = sink-All P a bs p ps.1 in rw more (ih.0, (ps.0, ih.1))
]

least_of :
    (a b : ℕ)
    → ((if ltb b a then b else a) ≤ a) × ((if ltb b a then b else a) ≤ (if ltb b a then a else b))
least_of a b = ground arith

-- what stands first after a pass is at most all that it met
sink-least :
    (a : ℕ) (ids : List ℕ) → ((sink a ids).0 ≤ a) × All (λ b. (sink a ids).0 ≤ b) (sink a ids).1
unfolding sink
sink-least a [] = (omega arith, tt)
sink-least a (b ∷ bs) =
    let less : ℕ = if ltb b a then b else a in
    let (low, all) = sink-least less bs in
    let (under_a, under_other) = least_of a b in (omega arith, (omega arith, all))

bubble-count : (v n : ℕ) (ids : List ℕ) → count v (bubble n ids) ≡ count v ids
unfolding bubble
bubble-count v zero ids = refl
bubble-count v (suc n) [] = refl
bubble-count v (suc n) (a ∷ ids) =
    omega (arith, sink-count v a ids, bubble-count v n (sink a ids).1)

bubble-All : (P : ℕ → Type 0) (n : ℕ) (ids : List ℕ) → All P ids → All P (bubble n ids)
unfolding bubble
bubble-All P zero ids ps = ps
bubble-All P (suc n) [] ps = ps
bubble-All P (suc n) (a ∷ ids) ps =
    let (first, others) = sink-All P a ids ps.0 ps.1 in
    (first, bubble-All P n (sink a ids).1 others)

bubble-IsSorted : (n : ℕ) (ids : List ℕ) → length ids ≤ n → IsSorted (bubble n ids)
unfolding bubble
bubble-IsSorted zero [] h = tt
bubble-IsSorted zero (a ∷ ids) h = absurd (omega arith)
bubble-IsSorted (suc n) [] h = tt
bubble-IsSorted (suc n) (a ∷ ids) h = (
  bubble-All (λ b. (sink a ids).0 ≤ b) n (sink a ids).1 (sink-least a ids).1,
  bubble-IsSorted n (sink a ids).1 (omega (arith, length-sink a ids)),
)

-- `BubbleSortByID` puts identifiers into ascending order and keeps every one as often as it was
-- there.
pub bubble_sort_by_id-IsSorted :
    (ids : List ℕ) (v : ℕ)
    → IsSorted (bubble_sort_by_id ids) × (count v (bubble_sort_by_id ids) ≡ count v ids)
unfolding bubble_sort_by_id
bubble_sort_by_id-IsSorted ids v =
    (bubble-IsSorted (length ids) ids (omega arith), bubble-count v (length ids) ids)
