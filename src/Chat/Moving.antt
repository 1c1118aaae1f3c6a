-- ===== src/Chat/Moving.antt =====
-- The sector move of ChatServer/main.cpp: the player goes to the sector that was asked for.
use iocpnet_module_mono_repo.Prelude.{
  ℕ, ◌+◌, ◌-◌, ◌≡◌, ◌≢◌, inl, inr, sym, subst, ap, ◌∙◌, List, true, false, not, ◌&&◌, ◌==◌,
  if◌then◌else◌, some, eq-or-ne, arith, eq→==, ne→==,
}
use iocpnet_module_mono_repo.Prelude.Assoc.{
  find, put, put-cases, find-put_self, find-put_other, some_inj, none-some,
}
use iocpnet_module_mono_repo.Sector.Order.{count}
use iocpnet_module_mono_repo.Sector.Players.{Standing, player_sector_update_lem}
use iocpnet_module_mono_repo.Chat.{Chat, Player, WaitingSession, void_sector}
use iocpnet_module_mono_repo.Chat.Requests.{move_player}
use iocpnet_module_mono_repo.Chat.Invariant.{
  Agree, standing, standing_here, standing_at_most_one, standing_away,
}

add_zero : (n : ℕ) → n + 0 ≡ n
add_zero n = omega arith

module _ (h to : ℕ) (w : List (ℕ × WaitingSession)) (m : List (ℕ × Player)) (a : List (ℕ × ℕ))
    (p q : Player) (c : Chat) (v : Agree w m a c.sector_players) (here : find h m ≡ some p)
    (inside : to ≢ void_sector) (same_handle : q.session_handle ≡ p.session_handle)
    (same_acc : q.acc_no ≡ p.acc_no)
    (moved : q.cur_sector ≡ (move_player p to c).0.cur_sector) where
  abbrev spot : Standing
  spot = record { players = c.sector_players; old_sector = p.old_sector; cur_sector = p.cur_sector }

  cur_lem : (move_player p to c).0.cur_sector ≡ to
  unfolding move_player
  cur_lem = elim (player_sector_update_lem p.session_handle to h to spot) [
    | inl (e, f, g, kept) ↦ ap (λ t. t.cur_sector) kept ∙ e
    | inr (e, f, g, old, cur, lists) ↦ cur
  ]

  filed : p.session_handle ≡ h
  filed = v.own h p here

  -- the player itself, in its list
  move-placed_self : (s : ℕ) → count h ((move_player p to c).1 s) ≡ standing s (some q)
  unfolding move_player standing
  move-placed_self s =
      let before : count h (c.sector_players s) ≡ standing s (some p) =
        v.placed h s ∙ ap (standing s) here in
      let arrived : q.cur_sector ≡ to = moved ∙ cur_lem in
      let self : (h == p.session_handle) ≡ true = eq→== h p.session_handle (sym filed) in
      elim (player_sector_update_lem p.session_handle to h s spot) [
        | inl (e, f, g, kept) ↦
            ap (λ t. count h (t.players s)) kept
            ∙ before
            ∙ ap (λ k. if (k == s) && not (s == void_sector) then 1 else 0) (e ∙ sym arrived)
        | inr (e, f, g, old, cur, lists) ↦ elim lists [
          | inl (at, more) ↦
              let none_before = before ∙ standing_away s p (λ k. e (k ∙ at)) in
              let one : standing s (some q) ≡ 1 =
                standing_here s q (arrived ∙ sym at) (λ k. inside (sym at ∙ k)) in
              rw self at more ∙ ap (λ k. k + 1) none_before ∙ sym one
          | inr (inl (at, less)) ↦
              let none : standing s (some q) ≡ 0 =
                standing_away s q (λ k. e (sym at ∙ sym k ∙ arrived)) in
              rw self at less ∙ ap (λ k. k - 1) before ∙ standing_at_most_one s (some p) ∙ sym none
          | inr (inr (away, off, same)) ↦
              let none : standing s (some q) ≡ 0 =
                standing_away s q (λ k. away (sym k ∙ arrived)) in
              ap (count h) same ∙ before ∙ standing_away s p (λ k. off (sym k)) ∙ sym none
        ]
      ]

  -- every other player, in its list
  move-placed_other :
      (j s : ℕ) → j ≢ h → count j ((move_player p to c).1 s) ≡ count j (c.sector_players s)
  unfolding move_player
  move-placed_other j s other =
      let apart : (j == p.session_handle) ≡ false =
        ne→== j p.session_handle (λ e. other (e ∙ filed)) in
      elim (player_sector_update_lem p.session_handle to j s spot) [
        | inl (e, f, g, kept) ↦ ap (λ t. count j (t.players s)) kept
        | inr (e, f, g, old, cur, lists) ↦ elim lists [
          | inl (at, more) ↦ rw apart at more ∙ add_zero (count j (c.sector_players s))
          | inr (inl (at, less)) ↦ rw apart at less
          | inr (inr (away, off, same)) ↦ ap (count j) same
        ]
      ]

  move-placed : (j s : ℕ) → count j ((move_player p to c).1 s) ≡ standing s (find j (put h q m))
  move-placed j s = elim (eq-or-ne j h) [
    | inl same ↦
        subst (λ i. count i ((move_player p to c).1 s) ≡ standing s (find i (put h q m))) (sym same)
          (move-placed_self s ∙ ap (standing s) (sym (find-put_self h q m)))
    | inr other ↦
        move-placed_other j s other
        ∙ v.placed j s
        ∙ ap (standing s) (sym (find-put_other j h q m other))
  ]

  pub move-Agree : Agree w (put h q m) a (move_player p to c).1
  move-Agree = record {
    apart = λ j x e. elim (eq-or-ne j h) [
      | inl same ↦
          absurd (none-some p (sym (v.apart h x (subst (λ i. find i w ≡ some x) same e)) ∙ here))
      | inr other ↦ find-put_other j h q m other ∙ v.apart j x e
    ];
    own = λ j r e. elim (put-cases j h q r m e) [
      | inl (same, is) ↦
          ap (λ t. t.session_handle) (sym is) ∙ same_handle ∙ v.own h p here ∙ sym same
      | inr (other, before) ↦ v.own j r before
    ];
    account = λ b j e.
        let (r, at_r, has) = v.account b j e in
        elim (eq-or-ne j h) [
          | inl same ↦
              let at_h : find h m ≡ some r = subst (λ i. find i m ≡ some r) same at_r in
              (
                q,
                subst (λ i. find i (put h q m) ≡ some q) (sym same) (find-put_self h q m),
                same_acc ∙ ap (λ t. t.acc_no) (some_inj p r (sym here ∙ at_h)) ∙ has,
              )
          | inr other ↦ (r, find-put_other j h q m other ∙ at_r, has)
        ];
    placed = move-placed;
  }
