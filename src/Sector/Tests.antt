-- ===== src/Sector/Tests.antt =====
-- Sectors at the corner of the grid, and the theorems at them.
use iocpnet_module_mono_repo.Prelude.{◌-◌, ◌≡◌, refl, [], ◌∷◌, ◌==◌, ◌&&◌, if◌then◌else◌, arith}
use iocpnet_module_mono_repo.Sector.{
  cell, void, around, connect, changes, around_of, out_of_view, distance, position_up,
  get_player_sector_changes, bubble_sort_by_id, bubble, sink,
}
use iocpnet_module_mono_repo.Sector.Around.{occurrences}
use iocpnet_module_mono_repo.Sector.View.{sector_changes_lem, sector_changes_entering}
use iocpnet_module_mono_repo.Sector.Players.{Standing}

around-corner : around 0 0 ≡ (0, 0) ∷ (1, 0) ∷ (0, 1) ∷ (1, 1) ∷ []
unfolding around connect
around-corner = refl

changes-right :
    get_player_sector_changes (cell 0, cell 0) (cell 1, cell 0) ≡ ([], (2, 0) ∷ (2, 1) ∷ [])
unfolding get_player_sector_changes around_of around connect changes out_of_view distance
    position_up
changes-right = refl

bubble_sort-three : bubble_sort_by_id (30 ∷ 10 ∷ 20 ∷ []) ≡ 10 ∷ 20 ∷ 30 ∷ []
unfolding bubble_sort_by_id bubble sink
bubble_sort-three = refl

sector_changes_example :
    let (removed, added) = get_player_sector_changes (cell 0, cell 0) (cell 1, cell 0) in
    (occurrences (2, 0) removed ≡ occurrences (2, 0) (around 0 0) - occurrences (2, 0) (around 1 0))
    × (occurrences (2, 0) added ≡ occurrences (2, 0) (around 1 0) - occurrences (2, 0) (around 0 0))
sector_changes_example = sector_changes_lem 0 0 1 0 2 0 (omega arith) (omega arith)

sector_changes_entering_example :
    let (removed, added) = get_player_sector_changes (void, void) (cell 1, cell 0) in
    (removed ≡ [])
    × (occurrences (0, 0) added
        ≡ (if (0 == 0) && (0 == 0) then 0 else occurrences (0, 0) (around 1 0)))
sector_changes_entering_example = sector_changes_entering 1 0 0 0

-- player 7 among two others in sector 3, and what a move to sector 5 does to the list of 3
abbrev standing : Standing
standing = record {
  players = λ s. if s == 3 then 6 ∷ 7 ∷ 8 ∷ [] else [];
  old_sector = 2;
  cur_sector = 3;
}
