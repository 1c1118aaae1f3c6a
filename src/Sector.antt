-- ===== src/Sector.antt =====
-- ChatServer/SectorMap.h and ChatServer/SectorMap.cpp: the grid of sectors of the chat server. A
-- sector is its place in the array, or the one outside it.
pub mod Around
pub mod View
pub mod Order
pub mod Players
mod Tests
use iocpnet_module_mono_repo.Prelude.{
  ℕ, zero, suc, ◌+◌, ◌-◌, ◌*◌, List, [], ◌∷◌, ◌++◌, Bool, true, false, not, ◌&&◌, ◌||◌, ltb, leb,
  ◌==◌, if◌then◌else◌, length,
}

-- `SECTOR_MAX_X` and `SECTOR_MAX_Y`
abbrev pub sector_max : ℕ
sector_max = 50

-- `SECTOR_SIZE_X` and `SECTOR_SIZE_Y`
abbrev pub sector_size : ℕ
sector_size = 128

-- a coordinate of a sector of the array, or of `voidSector`
pub data Coord : Type 0 where
  cell : ℕ → Coord
  void : Coord

-- a position plus one: `CoordX * SECTOR_SIZE_X`, or -1
unfoldable pub position_up : Coord → ℕ
position_up (cell n) = n * sector_size + 1
position_up void = 0

-- `abs(a - b)` of two positions
unfoldable pub distance : Coord → Coord → ℕ
unfolding position_up
distance a b = (position_up a - position_up b) + (position_up b - position_up a)

-- `dir`: y and x of a step, each plus one
abbrev pub dir : List (ℕ × ℕ)
dir = (0, 0) ∷ (0, 1) ∷ (0, 2) ∷ (1, 0) ∷ (1, 2) ∷ (2, 0) ∷ (2, 1) ∷ (2, 2) ∷ []

-- the loop of `ConnectArounds` over `dir` for the sector at x and y; `aroundX` and `aroundY` are
-- again kept plus one
unfoldable pub connect : ℕ → ℕ → List (ℕ × ℕ) → List (ℕ × ℕ)
connect x y [] = []
connect x y (d ∷ ds) =
    let around_y = y + d.0 in
    let around_x = x + d.1 in
    let rest = connect x y ds in
    if leb 1 around_x && leb around_x sector_max && leb 1 around_y && leb around_y sector_max
    then (around_x - 1, around_y - 1) ∷ rest
    else rest

-- `aroundSectors` after `ConnectArounds`
unfoldable pub around : ℕ → ℕ → List (ℕ × ℕ)
around x y = (x, y) ∷ connect x y dir

-- the test of `GetPlayerSectorChanges`
unfoldable pub out_of_view : Coord → Coord → ℕ × ℕ → Bool
out_of_view x y s =
    ltb sector_size (distance x (cell s.0)) || ltb sector_size (distance y (cell s.1))

-- one loop of `GetPlayerSectorChanges`: of the sectors around one, those not seen from x and y
unfoldable pub changes : Coord → Coord → List (ℕ × ℕ) → List (ℕ × ℕ)
changes x y [] = []
changes x y (s ∷ ss) = if out_of_view x y s then s ∷ changes x y ss else changes x y ss

-- `aroundSectors` of any sector; nothing is connected to `voidSector`
unfoldable pub around_of : Coord × Coord → List (ℕ × ℕ)
around_of (cell x, cell y) = around x y
around_of (cell x, void) = []
around_of (void, y) = []

-- `GetPlayerSectorChanges`: the sectors removed and those added, for the old and the new sector
unfoldable pub get_player_sector_changes :
    Coord × Coord → Coord × Coord → List (ℕ × ℕ) × List (ℕ × ℕ)
get_player_sector_changes old cur =
    (changes cur.0 cur.1 (around_of old), changes old.0 old.1 (around_of cur))

-- the inner loop of `BubbleSortByID`: `a` is `arr[i]`, and the list what follows it
unfoldable pub sink : ℕ → List ℕ → ℕ × List ℕ
sink a [] = (a, [])
sink a (b ∷ bs) =
    let (least, rest) = sink (if ltb b a then b else a) bs in
    (least, (if ltb b a then a else b) ∷ rest)

-- the outer loop, over as many elements as are left
unfoldable pub bubble : ℕ → List ℕ → List ℕ
bubble zero ids = ids
bubble (suc n) [] = []
bubble (suc n) (a ∷ ids) = let (least, rest) = sink a ids in least ∷ bubble n rest

unfoldable pub bubble_sort_by_id : List ℕ → List ℕ
bubble_sort_by_id ids = bubble (length ids) ids
