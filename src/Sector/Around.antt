-- ===== src/Sector/Around.antt =====
-- The sectors around one: the square of nine, cut at the edge of the grid.
use iocpnet_module_mono_repo.Prelude.{
  ℕ, ◌+◌, ◌-◌, ◌<◌, ◌≡◌, refl, List, [], ◌∷◌, Bool, true, false, leb, ◌==◌, ◌&&◌, if◌then◌else◌,
  arith, inl, inr, ◌⊎◌,
}
use iocpnet_module_mono_repo.Sector.{sector_max, dir, connect, around}

abbrev pub same : ℕ × ℕ → ℕ × ℕ → Bool
same s t = (s.0 == t.0) && (s.1 == t.1)

-- how often a sector stands in a list
abbrev pub occurrences : ℕ × ℕ → List (ℕ × ℕ) → ℕ
occurrences s [] = 0
occurrences s (t ∷ ts) = (if same s t then 1 else 0) + occurrences s ts

-- two coordinates that differ by at most one
abbrev pub near : ℕ → ℕ → Bool
near a x = leb a (x + 1) && leb x (a + 1)

-- how many of the steps lead from x and y to a and b
abbrev hits : ℕ → ℕ → ℕ → ℕ → List (ℕ × ℕ) → ℕ
hits x y a b [] = 0
hits x y a b (d ∷ ds) =
    (if (x + d.1 == a + 1) && (y + d.0 == b + 1) then 1 else 0) + hits x y a b ds

one_step :
    (x y a b dx dy n : ℕ) (rest : List (ℕ × ℕ))
    → a < sector_max
    → b < sector_max
    → occurrences (a, b) rest ≡ n
    → occurrences
        (a, b)
        (if leb 1 (x + dx) && leb (x + dx) sector_max && leb 1 (y + dy) && leb (y + dy) sector_max
          then (x + dx - 1, y + dy - 1) ∷ rest
          else rest)
      ≡ (if (x + dx == a + 1) && (y + dy == b + 1) then 1 else 0) + n
one_step x y a b dx dy n rest ha hb e = ground arith

occurrences-connect :
    (x y a b : ℕ) (ds : List (ℕ × ℕ))
    → a < sector_max
    → b < sector_max
    → occurrences (a, b) (connect x y ds) ≡ hits x y a b ds
unfolding connect
occurrences-connect x y a b [] ha hb = refl
occurrences-connect x y a b (d ∷ ds) ha hb =
    one_step x y a b d.1 d.0 _ (connect x y ds) ha hb (occurrences-connect x y a b ds ha hb)

-- Which of the three steps along one axis leads to the goal, and whether one does.
data OneHot : Bool → Bool → Bool → Bool → Type 0 where
  back : OneHot true false false true
  stay : OneHot false true false true
  forth : OneHot false false true true
  away : OneHot false false false false

OneHot-cast :
    {r0 r1 r2 n : Bool} (s0 s1 s2 m : Bool)
    → s0 ≡ r0
    → s1 ≡ r1
    → s2 ≡ r2
    → m ≡ n
    → OneHot r0 r1 r2 n
    → OneHot s0 s1 s2 m
OneHot-cast s0 s1 s2 m e0 e1 e2 e h = rw (e0, e1, e2, e) h

gaps : (x a : ℕ) → (a + 1 ≡ x) ⊎ ((a ≡ x) ⊎ ((a ≡ x + 1) ⊎ ((a + 1 < x) ⊎ (x + 1 < a))))
gaps x a = grind arith

axis : (x a : ℕ) → OneHot (x + 0 == a + 1) (x + 1 == a + 1) (x + 2 == a + 1) (near a x)
axis x a = elim (gaps x a) [
  | inl e ↦ OneHot-cast _ _ _ _ (ground arith) (ground arith) (ground arith) (ground arith) back
  | inr (inl e) ↦
      OneHot-cast _ _ _ _ (ground arith) (ground arith) (ground arith) (ground arith) stay
  | inr (inr (inl e)) ↦
      OneHot-cast _ _ _ _ (ground arith) (ground arith) (ground arith) (ground arith) forth
  | inr (inr (inr e)) ↦
      OneHot-cast _ _ _ _ (ground arith) (ground arith) (ground arith) (ground arith) away
]

-- the square of nine is the product of the two axes
table :
    {r0 r1 r2 n c0 c1 c2 m : Bool}
    → OneHot r0 r1 r2 n
    → OneHot c0 c1 c2 m
    → (if r1 && c1 then 1 else 0)
        + ((if r0 && c0 then 1 else 0)
            + ((if r1 && c0 then 1 else 0)
                + ((if r2 && c0 then 1 else 0)
                    + ((if r0 && c1 then 1 else 0)
                        + ((if r2 && c1 then 1 else 0)
                            + ((if r0 && c2 then 1 else 0)
                                + ((if r1 && c2 then 1 else 0)
                                    + ((if r2 && c2 then 1 else 0) + 0))))))))
      ≡ (if n && m then 1 else 0)
table back back = refl
table back stay = refl
table back forth = refl
table back away = refl
table stay back = refl
table stay stay = refl
table stay forth = refl
table stay away = refl
table forth back = refl
table forth stay = refl
table forth forth = refl
table forth away = refl
table away back = refl
table away stay = refl
table away forth = refl
table away away = refl

center : (x y a b : ℕ) → same (a, b) (x, y) ≡ ((x + 1 == a + 1) && (y + 1 == b + 1))
center x y a b = ground arith

-- `ConnectArounds` connects a sector of the grid to itself and to each of its neighbours in the
-- grid once, and to no other: at every place of the grid stands just one of them if both
-- coordinates differ by at most one, else none.
pub occurrences-around :
    (x y a b : ℕ)
    → a < sector_max
    → b < sector_max
    → occurrences (a, b) (around x y) ≡ (if near a x && near b y then 1 else 0)
unfolding around
occurrences-around x y a b ha hb =
    rw (center x y a b, occurrences-connect x y a b dir ha hb) (table (axis x a) (axis y b))
