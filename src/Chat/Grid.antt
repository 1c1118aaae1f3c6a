-- ===== src/Chat/Grid.antt =====
-- The sectors of ChatServer/SectorMap.h by their identifiers and by their places.
use iocpnet_module_mono_repo.Prelude.{
  ℕ, ◌+◌, ◌/◌, ◌%◌, ◌<◌, ◌≡◌, ◌≢◌, inl, inr, ap, ap₂, List, [], ◌∷◌, false, ◌&&◌, ◌==◌, leb, ltb,
  arith, Bool-cases, map, All,
}
use iocpnet_module_mono_repo.Sector.{sector_max, around, connect, dir, around_of, cell}
use iocpnet_module_mono_repo.Sector.Around.{same}
use iocpnet_module_mono_repo.Chat.{Player, void_sector}
use iocpnet_module_mono_repo.Chat.Requests.{sector_id, coord_of, sectors_around}

abbrev pub InGrid : ℕ × ℕ → Type 0
InGrid s = (s.0 < sector_max) × (s.1 < sector_max)

pub connect-InGrid : (x y : ℕ) (ds : List (ℕ × ℕ)) → All InGrid (connect x y ds)
unfolding connect
connect-InGrid x y [] = tt
connect-InGrid x y (d ∷ ds) =
    let ih = connect-InGrid x y ds in
    elim (Bool-cases (
      leb 1 (x + d.1) && leb (x + d.1) sector_max && leb 1 (y + d.0) && leb (y + d.0) sector_max)) [
        | inl e ↦ rw e ((ground arith, ground arith), ih)
        | inr e ↦ rw e ih
      ]

pub around-InGrid : (x y : ℕ) → x < sector_max → y < sector_max → All InGrid (around x y)
unfolding around
around-InGrid x y hx hy = ((hx, hy), connect-InGrid x y dir)

-- two sectors of the grid with one identifier are the same
pub same_id :
    (a b : ℕ) (t : ℕ × ℕ)
    → a < sector_max
    → b < sector_max
    → InGrid t
    → (sector_id (a, b) == sector_id t) ≡ same (a, b) t
unfolding sector_id
same_id a b t ha hb ht = ground arith

pub in_array : (t : ℕ × ℕ) → InGrid t → (sector_id t == void_sector) ≡ false
unfolding sector_id
in_array t g = ground arith

pub from_id : (s : ℕ) → s < void_sector → sector_id (s % sector_max, s / sector_max) ≡ s
unfolding sector_id
from_id s h = omega arith

pub column_lem : (x y : ℕ) → x < sector_max → sector_id (x, y) % sector_max ≡ x
unfolding sector_id
column_lem x y h = omega arith

pub row_lem : (x y : ℕ) → x < sector_max → sector_id (x, y) / sector_max ≡ y
unfolding sector_id
row_lem x y h = omega arith

pub coord_of-sector_id :
    (x y : ℕ) → x < sector_max → y < sector_max → coord_of (sector_id (x, y)) ≡ (cell x, cell y)
unfolding coord_of
coord_of-sector_id x y hx hy =
    let column : sector_id (x, y) % sector_max ≡ x = column_lem x y hx in
    let row : sector_id (x, y) / sector_max ≡ y = row_lem x y hx in
    rw (coord_of, in_array (x, y) (hx, hy)) (ap₂ (λ a b. (cell a, cell b)) column row)

pub sectors_around_lem :
    (x y : ℕ)
    → x < sector_max
    → y < sector_max
    → sectors_around (sector_id (x, y)) ≡ map sector_id (around x y)
unfolding sectors_around around_of
sectors_around_lem x y hx hy = ap (λ s. map sector_id (around_of s)) (coord_of-sector_id x y hx hy)

pub outside :
    (q : Player) (t : ℕ × ℕ)
    → ltb q.cur_sector void_sector ≡ false
    → InGrid t
    → q.cur_sector ≢ sector_id t
unfolding sector_id
outside q t out g = ground arith

pub id_inside : (x y : ℕ) → x < sector_max → y < sector_max → sector_id (x, y) < void_sector
unfolding sector_id
id_inside x y hx hy = ground arith
