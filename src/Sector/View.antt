-- ===== src/Sector/View.antt =====
-- The sectors that a move brings into view and takes out of it.
use iocpnet_module_mono_repo.Prelude.{
  ℕ, ◌-◌, ◌<◌, ◌≡◌, refl, sym, ap, ap₂, ◌∙◌, List, [], ◌∷◌, Bool, true, false, ◌==◌, ◌&&◌, not,
  if◌then◌else◌, arith, inl, inr, Bool-cases,
}
use iocpnet_module_mono_repo.Sector.{
  Coord, cell, void, sector_max, position_up, distance, out_of_view, changes, around, around_of,
  get_player_sector_changes,
}
use iocpnet_module_mono_repo.Sector.Around.{same, near, occurrences, occurrences-around}

same-eq : (s t : ℕ × ℕ) → same s t ≡ true → s ≡ t
same-eq s t h = ap₂ (λ p q. (p, q)) (ground arith) (ground arith)

empty_if : (o : Bool) → ◌≡◌ {A = ℕ} 0 (if o then 0 else 0)
empty_if true = refl
empty_if false = refl

flip : (p : Bool) (n : ℕ) → (if not p then n else 0) ≡ (if p then 0 else n)
flip true n = refl
flip false n = refl

occurrences-changes :
    (x y : Coord) (s : ℕ × ℕ) (ss : List (ℕ × ℕ))
    → occurrences s (changes x y ss) ≡ (if out_of_view x y s then occurrences s ss else 0)
unfolding changes
occurrences-changes x y s [] = empty_if (out_of_view x y s)
occurrences-changes x y s (t ∷ ts) =
    let ih : occurrences s (changes x y ts) ≡ (if out_of_view x y s then occurrences s ts else 0) =
      occurrences-changes x y s ts in
    elim (Bool-cases (same s t)) [
      | inl e ↦
          let alike : out_of_view x y t ≡ out_of_view x y s =
            ap (out_of_view x y) (sym (same-eq s t e)) in
          rw alike (ground (arith, ih))
      | inr apart ↦ ground (arith, ih)
    ]

seen : (x y a b : ℕ) → out_of_view (cell x) (cell y) (a, b) ≡ not (near a x && near b y)
unfolding out_of_view distance position_up
seen x y a b = ground arith

-- For a move between two sectors of the grid, and at every place of the grid: the removed sectors
-- are those around the old one that are not around the new one, and the added ones those around
-- the new one that are not around the old one, each of them once.
pub sector_changes_lem :
    (x y x' y' a b : ℕ)
    → a < sector_max
    → b < sector_max
    → let (removed, added) = get_player_sector_changes (cell x, cell y) (cell x', cell y') in
      (occurrences (a, b) removed
        ≡ occurrences (a, b) (around x y) - occurrences (a, b) (around x' y'))
      × (occurrences (a, b) added
          ≡ occurrences (a, b) (around x' y') - occurrences (a, b) (around x y))
unfolding get_player_sector_changes around_of
sector_changes_lem x y x' y' a b ha hb = (
  occurrences-changes (cell x') (cell y') (a, b) (around x y)
      ∙ rw (seen x' y' a b, occurrences-around x y a b ha hb, occurrences-around x' y' a b ha hb)
          (differ (near a x && near b y) (near a x' && near b y')),
  occurrences-changes (cell x) (cell y) (a, b) (around x' y')
      ∙ rw (seen x y a b, occurrences-around x y a b ha hb, occurrences-around x' y' a b ha hb)
          (differ (near a x' && near b y') (near a x && near b y)),
)
  where
    differ :
        (p q : Bool)
        → (if not q then (if p then 1 else 0) else 0) ≡ (if p then 1 else 0) - (if q then 1 else 0)
    differ true true = refl
    differ true false = refl
    differ false true = refl
    differ false false = refl

unseen : (a b : ℕ) → out_of_view void void (a, b) ≡ not ((a == 0) && (b == 0))
unfolding out_of_view distance position_up
unseen a b = ground arith

-- A player who comes from the void sector, which lies at -1 and -1, leaves nothing behind and is
-- told of every sector around the new one but the one at 0 and 0.
pub sector_changes_entering :
    (x y a b : ℕ)
    → let (removed, added) = get_player_sector_changes (void, void) (cell x, cell y) in
      (removed ≡ [])
      × (occurrences (a, b) added
          ≡ (if (a == 0) && (b == 0) then 0 else occurrences (a, b) (around x y)))
unfolding get_player_sector_changes around_of changes
sector_changes_entering x y a b = (refl, occurrences-changes void void (a, b) (around x y) ∙ hidden)
  where
    hidden :
        (if out_of_view void void (a, b) then occurrences (a, b) (around x y) else 0)
        ≡ (if (a == 0) && (b == 0) then 0 else occurrences (a, b) (around x y))
    hidden = rw (unseen a b) (flip ((a == 0) && (b == 0)) (occurrences (a, b) (around x y)))
