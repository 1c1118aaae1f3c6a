-- ===== src/Sector/Players.antt =====
-- `SectorMap::PlayerSectorUpdate(player, x, y)`: a player goes from the list of one sector to
-- that of another.
use iocpnet_module_mono_repo.Prelude.{
  ℕ, ◌+◌, ◌-◌, ◌<◌, ◌≡◌, ◌≢◌, refl, List, [], ◌∷◌, ◌++◌, Bool, true, false, ltb, ◌==◌,
  if◌then◌else◌, arith, inl, inr, ◌⊎◌, Bool-cases, lt-or-ge, lt→ltb, le→ltb, sym, ap, ◌∙◌,
}
use iocpnet_module_mono_repo.Sector.Order.{count}

-- A player among the sectors of the grid, which are given by their identifiers; `players` are their lists.
pub record Standing : Type 0 where
  pub players : ℕ → List ℕ
  pub old_sector : ℕ
  pub cur_sector : ℕ

-- `std::find` and `erase`
unfoldable pub erase_first : ℕ → List ℕ → List ℕ
erase_first p [] = []
erase_first p (q ∷ qs) = if p == q then qs else q ∷ erase_first p qs

abbrev pub put_list : ℕ → List ℕ → (ℕ → List ℕ) → ℕ → List ℕ
put_list s ps lists t = if t == s then ps else lists t

-- `PlayerSectorUpdate(player, sectorCoordX, sectorCoordY)` for the sector `to`, with the locks in
-- the order in which they are taken
unfoldable pub player_sector_update : ℕ → ℕ → Standing → Bool × List ℕ × Standing
player_sector_update player to s = if s.cur_sector == to then (false, [], s) else (
  true,
  if ltb s.cur_sector to then s.cur_sector ∷ to ∷ [] else to ∷ s.cur_sector ∷ [],
  (let left = put_list s.cur_sector (erase_first player (s.players s.cur_sector)) s.players in
      record s {
        players = put_list to (left to ++ (player ∷ [])) left;
        old_sector = s.cur_sector;
        cur_sector = to;
      }),
)

count-erase_first :
    (p q : ℕ) (qs : List ℕ)
    → count q (erase_first p qs) ≡ (if q == p then count q qs - 1 else count q qs)
unfolding erase_first
count-erase_first p q [] = ground arith
count-erase_first p q (r ∷ rs) = elim (Bool-cases (p == r)) [
  | inl e ↦ let here : p ≡ r = ground arith in rw e (ground arith)
  | inr e ↦
      let ih : count q (erase_first p rs) ≡ (if q == p then count q rs - 1 else count q rs) =
        count-erase_first p q rs in
      let there : p ≢ r = ground arith in rw e (ground (arith, ih))
]

count-snoc :
    (q p : ℕ) (qs : List ℕ) → count q (qs ++ (p ∷ [])) ≡ count q qs + (if q == p then 1 else 0)
count-snoc q p [] = ground arith
count-snoc q p (r ∷ rs) = let ih = count-snoc q p rs in omega (arith, ih)

module _ (player to q t : ℕ) (s : Standing) (other : (s.cur_sector == to) ≡ false) where
  lists : ℕ → List ℕ
  lists =
      let left = put_list s.cur_sector (erase_first player (s.players s.cur_sector)) s.players in
      put_list to (left to ++ (player ∷ [])) left

  lists_lem :
      ((t ≡ to) × (count q (lists t) ≡ count q (s.players t) + (if q == player then 1 else 0)))
      ⊎ (((t ≡ s.cur_sector)
            × (count q (lists t)
                ≡ (if q == player then count q (s.players t) - 1 else count q (s.players t))))
          ⊎ ((t ≢ to) × (t ≢ s.cur_sector) × (lists t ≡ s.players t)))
  unfolding lists
  lists_lem =
      let apart : (to == s.cur_sector) ≡ false = ground arith in
      elim (Bool-cases (t == to)) [
        | inl e ↦
            let here : t ≡ to = ground arith in
            inl (
              here,
              rw (e, apart)
                  (count-snoc q player (s.players to)
                    ∙ ap (λ k. count q (s.players k) + (if q == player then 1 else 0)) (sym here)),
            )
        | inr e ↦ inr (elim (Bool-cases (t == s.cur_sector)) [
          | inl f ↦
              let here : t ≡ s.cur_sector = ground arith in
              inl (
                here,
                rw (e, f)
                    (count-erase_first player q (s.players s.cur_sector)
                      ∙ ap
                          (λ k.
                            if q == player
                            then count q (s.players k) - 1
                            else count q (s.players k))
                          (sym here)),
              )
          | inr f ↦ inr (ground arith, ground arith, rw (e, f) refl)
        ])
      ]

  locks_lem :
      (a : ℕ) × (b : ℕ) × ((if ltb s.cur_sector to
          then s.cur_sector ∷ to ∷ []
          else to ∷ s.cur_sector ∷ [])
        ≡ a ∷ b ∷ [])
      × (a < b)
      × (((a ≡ s.cur_sector) × (b ≡ to)) ⊎ ((a ≡ to) × (b ≡ s.cur_sector)))
  locks_lem = elim (lt-or-ge s.cur_sector to) [
    | inl less ↦ (s.cur_sector, to, rw (lt→ltb s.cur_sector to less) refl, less, inl (refl, refl))
    | inr more ↦
        let apart : s.cur_sector ≢ to = ground arith in
        (to, s.cur_sector, rw (le→ltb s.cur_sector to more) refl, omega arith, inr (refl, refl))
  ]

-- A move to another sector takes the player once off the list of the sector it stood in and adds
-- it once to that of the new one, leaves every other player and every other sector alone,
-- remembers the old sector, and takes the two locks in the order of the identifiers. A move to
-- the same sector changes nothing and takes no lock.
pub player_sector_update_lem :
    (player to q t : ℕ) (s : Standing)
    → let (moved, locks, s') = player_sector_update player to s in
      ((s.cur_sector ≡ to) × (moved ≡ false) × (locks ≡ []) × (s' ≡ s))
      ⊎ ((s.cur_sector ≢ to)
          × (moved ≡ true)
          × ((a : ℕ) × (b : ℕ) × (locks ≡ a ∷ b ∷ [])
              × (a < b)
              × (((a ≡ s.cur_sector) × (b ≡ to)) ⊎ ((a ≡ to) × (b ≡ s.cur_sector))))
          × (s'.old_sector ≡ s.cur_sector)
          × (s'.cur_sector ≡ to)
          × (((t ≡ to)
                × (count q (s'.players t) ≡ count q (s.players t) + (if q == player then 1 else 0)))
              ⊎ (((t ≡ s.cur_sector)
                    × (count q (s'.players t) ≡ (
                        if q == player then count q (s.players t) - 1 else count q (s.players t))))
                  ⊎ ((t ≢ to) × (t ≢ s.cur_sector) × (s'.players t ≡ s.players t)))))
unfolding player_sector_update lists
player_sector_update_lem player to q t s = elim (Bool-cases (s.cur_sector == to)) [
  | inl e ↦ inl (ground arith, rw e refl, rw e refl, rw e refl)
  | inr e ↦ inr (
    ground arith,
    rw e refl,
    rw e (locks_lem player to q t s e),
    rw e refl,
    rw e refl,
    rw e (lists_lem player to q t s e),
  )
]
