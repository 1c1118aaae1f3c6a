-- ===== src/Chat/Multicast.antt =====
-- `SendAroundSector` of ChatServer/main.cpp: who receives a message.
use iocpnet_module_mono_repo.Prelude.{
  ℕ, ◌+◌, ◌/◌, ◌%◌, ◌<◌, ◌≤◌, ◌≡◌, inl, inr, refl, sym, subst, ap, ap₂, ◌∙◌, List, [], ◌∷◌, ◌++◌,
  Bool, true, false, ◌&&◌, ◌==◌, leb, ltb, if◌then◌else◌, Option, none, some, arith, Option-cases,
  Bool-cases, map, All, length, lt→ltb, ltb→lt, le→ltb, ne→==,
}
use iocpnet_module_mono_repo.Prelude.Assoc.{find}
use iocpnet_module_mono_repo.Sector.{sector_max, around}
use iocpnet_module_mono_repo.Sector.Around.{near, same, occurrences, occurrences-around}
use iocpnet_module_mono_repo.Sector.Order.{count}
use iocpnet_module_mono_repo.Chat.{Chat, Player, send_packet_multicast, void_sector}
use iocpnet_module_mono_repo.Chat.Requests.{
  sector_id, sectors_around, copy_players, handles_for_multicast, handles_size, send_around_sector,
}
use iocpnet_module_mono_repo.Chat.Invariant.{IsConsistent, standing, standing_away, standing-none}
use iocpnet_module_mono_repo.Chat.Grid.{
  InGrid, around-InGrid, same_id, in_array, from_id, column_lem, row_lem, sectors_around_lem,
  outside, id_inside,
}

-- What a session hears of a message from the sector at x and y: one copy if its player stands in
-- the array, in that sector or in one next to it, else nothing.
unfoldable pub hears : ℕ → ℕ → Option Player → ℕ
hears x y none = 0
hears x y (some q) =
    if ltb q.cur_sector void_sector
    then (if near (q.cur_sector % sector_max) x && near (q.cur_sector / sector_max) y then 1 else 0)
    else 0

count-append : (v : ℕ) (xs ys : List ℕ) → count v (xs ++ ys) ≡ count v xs + count v ys
count-append v [] ys = omega arith
count-append v (x ∷ xs) ys = omega (arith, count-append v xs ys)

copy_all : (me : ℕ) (ps : List ℕ) → copy_players true me ps ≡ ps
unfolding copy_players
copy_all me [] = refl
copy_all me (p ∷ ps) = ap (λ t. p ∷ t) (copy_all me ps)

module _ (h me : ℕ) (lists : ℕ → List ℕ) (o : Option Player)
    (at : (s : ℕ) → count h (lists s) ≡ standing s o) where
  count-round :
      (s : ℕ) (ss : List ℕ)
      → count h (handles_for_multicast true me lists (s ∷ ss))
        ≡ standing s o + count h (handles_for_multicast true me lists ss)
  unfolding handles_for_multicast
  count-round s ss =
      let rest = handles_for_multicast true me lists ss in
      ap (λ t. count h (t ++ rest)) (copy_all me (lists s))
      ∙ count-append h (lists s) rest
      ∙ ap (λ k. k + count h rest) (at s)

  -- a session without a player in the array stands in no list
  count-unplaced :
      (ts : List (ℕ × ℕ))
      → All InGrid ts
      → ((t : ℕ × ℕ) → InGrid t → standing (sector_id t) o ≡ 0)
      → count h (handles_for_multicast true me lists (map sector_id ts)) ≡ 0
  unfolding handles_for_multicast
  count-unplaced [] grid nowhere = refl
  count-unplaced (t ∷ ts) grid nowhere =
      let ih = count-unplaced ts grid.1 nowhere in
      let one = count-round (sector_id t) (map sector_id ts) in
      let none_here = nowhere t grid.0 in omega (arith, ih, one, none_here)

  -- a player at a and b stands once in the lists of its own sector
  count-placed :
      (a b : ℕ) (ts : List (ℕ × ℕ))
      → All InGrid ts
      → ((t : ℕ × ℕ) → InGrid t → standing (sector_id t) o ≡ (if same (a, b) t then 1 else 0))
      → count h (handles_for_multicast true me lists (map sector_id ts)) ≡ occurrences (a, b) ts
  unfolding handles_for_multicast
  count-placed a b [] grid there = refl
  count-placed a b (t ∷ ts) grid there =
      let ih = count-placed a b ts grid.1 there in
      let one = count-round (sector_id t) (map sector_id ts) in one ∙ ap₂ ◌+◌ (there t grid.0) ih

and_true : (b : Bool) → (b && true) ≡ b
and_true true = refl
and_true false = refl

standing-same :
    (q : Player) (t : ℕ × ℕ)
    → q.cur_sector < void_sector
    → InGrid t
    → standing (sector_id t) (some q)
      ≡ (if same (q.cur_sector % sector_max, q.cur_sector / sector_max) t then 1 else 0)
unfolding standing
standing-same q t inside g =
    let cur = q.cur_sector in
    let back = from_id cur inside in
    let is_same : (cur == sector_id t) ≡ same (cur % sector_max, cur / sector_max) t =
      subst (λ k. (k == sector_id t) ≡ same (cur % sector_max, cur / sector_max) t) back
        (same_id (cur % sector_max) (cur / sector_max) t (omega arith) (omega arith) g) in
    rw (in_array t g) (ap (λ b. if b then 1 else 0) (and_true (cur == sector_id t) ∙ is_same))

-- the handles that a message of this player goes to
abbrev pub audience : Player → Chat → List ℕ
audience p c =
    handles_for_multicast true p.session_handle c.sector_players (sectors_around p.cur_sector)

count-audience :
    (p : Player) (x y h : ℕ) (c : Chat)
    → IsConsistent c
    → p.cur_sector ≡ sector_id (x, y)
    → x < sector_max
    → y < sector_max
    → count h (audience p c) ≡ hears x y (find h c.players)
unfolding hears
count-audience p x y h c v at hx hy =
    let grid = around-InGrid x y hx hy in
    let sectors : sectors_around p.cur_sector ≡ map sector_id (around x y) =
      ap sectors_around at ∙ sectors_around_lem x y hx hy in
    let standings = v.placed h in
    let me = p.session_handle in
    let lists = c.sector_players in
    ap (λ ss. count h (handles_for_multicast true me lists ss)) sectors
    ∙ elim (Option-cases (find h c.players)) [
      | inl e ↦ rw e (
          count-unplaced h me lists none (λ s. v.placed h s ∙ ap (standing s) e) (around x y) grid
            (λ t g. standing-none (sector_id t)))
      | inr (q, e) ↦
          let placed : (s : ℕ) → count h (lists s) ≡ standing s (some q) =
            λ s. v.placed h s ∙ ap (standing s) e in
          rw e (elim (Bool-cases (ltb q.cur_sector void_sector)) [
            | inl in_grid ↦
                let inside : q.cur_sector < void_sector = ltb→lt q.cur_sector void_sector in_grid in
                let a = q.cur_sector % sector_max in
                let b = q.cur_sector / sector_max in
                rw in_grid (
                  count-placed h me lists (some q) placed a b (around x y) grid
                    (λ t g. standing-same q t inside g)
                  ∙ occurrences-around x y a b (omega arith) (omega arith))
            | inr out ↦ rw out (
                count-unplaced h me lists (some q) placed (around x y) grid
                  (λ t g. standing_away (sector_id t) q (outside q t out g)))
          ])
    ]

near_self : (a x : ℕ) → a ≡ x → near a x ≡ true
near_self a x e = ground arith

-- the sender hears its own message
hears_self :
    (p : Player) (x y : ℕ)
    → p.cur_sector ≡ sector_id (x, y)
    → x < sector_max
    → y < sector_max
    → hears x y (some p) ≡ 1
unfolding hears
hears_self p x y at hx hy =
    let inside : ltb p.cur_sector void_sector ≡ true =
      lt→ltb p.cur_sector void_sector
        (subst (λ k. k < void_sector) (sym at) (id_inside x y hx hy)) in
    let column =
      near_self (p.cur_sector % sector_max) x (ap (λ k. k % sector_max) at ∙ column_lem x y hx) in
    let row =
      near_self (p.cur_sector / sector_max) y (ap (λ k. k / sector_max) at ∙ row_lem x y hx) in
    rw (inside, column, row) refl

below_leb : (a b : ℕ) → b < a → leb a b ≡ false
below_leb a b h = ground arith

counted_length : (v : ℕ) (xs : List ℕ) → count v xs ≤ length xs
counted_length v [] = omega arith
counted_length v (x ∷ xs) = let ih = counted_length v xs in ground (arith, ih)

-- A message of a player that stands in the array goes, as long as the array of handles has room,
-- in one multicast: one copy to each session whose player stands in the same sector or in one
-- next to it, its own included, and none to any other session.
pub send_around_sector_lem :
    (p : Player) (x y : ℕ) (packet : List ℕ) (c : Chat)
    → IsConsistent c
    → find p.session_handle c.players ≡ some p
    → p.cur_sector ≡ sector_id (x, y)
    → x < sector_max
    → y < sector_max
    → length (audience p c) < handles_size
    → (send_around_sector p packet true c ≡ send_packet_multicast (audience p c) packet ∷ [])
      × ((h : ℕ) → count h (audience p c) ≡ hears x y (find h c.players))
unfolding send_around_sector
send_around_sector_lem p x y packet c v here at hx hy room =
    let n = length (audience p c) in
    let self : count p.session_handle (audience p c) ≡ 1 =
      count-audience p x y p.session_handle c v at hx hy
      ∙ ap (hears x y) here
      ∙ hears_self p x y at hx hy in
    let counted = counted_length p.session_handle (audience p c) in
    let some_one : (n == 0) ≡ false = ne→== n 0 (λ e. omega (arith, counted, e, self)) in
    (
      rw (le→ltb handles_size n (omega arith), below_leb handles_size n room, some_one) refl,
      λ h. count-audience p x y h c v at hx hy,
    )
