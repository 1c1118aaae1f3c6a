-- ===== src/Chat/Entering.antt =====
-- The login of ChatServer/main.cpp, with all its outcomes.
use iocpnet_module_mono_repo.Prelude.{
  ℕ, ◌≡◌, ◌≢◌, ◌⊎◌, inl, inr, refl, sym, subst, ap, ◌∙◌, List, [], ◌∷◌, ◌++◌, true, false, Option,
  none, some, eq-or-ne, Option-cases, Bool-cases, eq→==,
}
use iocpnet_module_mono_repo.Prelude.Assoc.{
  find, erase, put, put-cases, erase-cases, find-put_self, find-put_other, find-erase_self,
  none-some, some_inj,
}
use iocpnet_module_mono_repo.Packet.{SerializeBuffer}
use iocpnet_module_mono_repo.Chat.{
  Chat, Player, WaitingSession, Output, disconnect, send_packet, crash, is_down, void_sector,
  create_player, id_length,
}
use iocpnet_module_mono_repo.Chat.Login.{
  Outside, LoginRequest, plain, duplicate, read_login, key_matches, login_player, login_response,
  enter_player, req_login,
}
use iocpnet_module_mono_repo.Chat.Invariant.{
  Agree, IsConsistent, standing, standing_away, standing-none, erase-Agree,
}

-- a player that has just logged in stands in no list
standing_void : (s : ℕ) (q : Player) → q.cur_sector ≡ void_sector → standing s (some q) ≡ 0
unfolding standing
standing_void s q e = elim (eq-or-ne s void_sector) [
  | inl at ↦ rw (eq→== q.cur_sector s (e ∙ sym at), eq→== s void_sector at) refl
  | inr away ↦ standing_away s q (λ k. away (sym k ∙ e))
]

module _ (h acc : ℕ) (q : Player) (x : WaitingSession) (w : List (ℕ × WaitingSession))
    (m : List (ℕ × Player)) (a : List (ℕ × ℕ)) (lists : ℕ → List ℕ) (v : Agree w m a lists)
    (waits : find h w ≡ some x) (own_handle : q.session_handle ≡ h) (own_acc : q.acc_no ≡ acc)
    (outside : q.cur_sector ≡ void_sector) where
  -- every account that led to a session leads to another one than the new player's
  owner_differs : (b j : ℕ) → find b a ≡ some j → j ≢ h
  owner_differs b j e same =
      let (p, at_p, has) = v.account b j e in
      none-some p (sym (v.apart h x waits) ∙ subst (λ i. find i m ≡ some p) same at_p)

  enter-Agree : Agree (erase h w) (put h q m) (put acc h a) lists
  enter-Agree = record {
    apart = λ j y e.
        let (other, before) = erase-cases j h y w e in
        find-put_other j h q m other ∙ v.apart j y before;
    own = λ j r e. elim (put-cases j h q r m e) [
      | inl (same, is) ↦ ap (λ t. t.session_handle) (sym is) ∙ own_handle ∙ sym same
      | inr (other, before) ↦ v.own j r before
    ];
    account = λ b j e. elim (put-cases b acc h j a e) [
      | inl (same, to) ↦
          (q, subst (λ i. find i (put h q m) ≡ some q) to (find-put_self h q m), own_acc ∙ sym same)
      | inr (other, before) ↦
          let (p, at_p, has) = v.account b j before in
          (p, find-put_other j h q m (owner_differs b j before) ∙ at_p, has)
    ];
    placed = λ j s. elim (eq-or-ne j h) [
      | inl same ↦
          v.placed j s
          ∙ ap (standing s) (subst (λ i. find i m ≡ none) (sym same) (v.apart h x waits))
          ∙ standing-none s
          ∙ sym (standing_void s q outside)
          ∙ ap (standing s)
              (subst (λ i. some q ≡ find i (put h q m)) (sym same) (sym (find-put_self h q m)))
      | inr other ↦ v.placed j s ∙ ap (standing s) (sym (find-put_other j h q m other))
    ];
  }

-- a player that the login fills
login_player-filled :
    (o : Outside) (h : ℕ) (x : WaitingSession) (r : LoginRequest) (p : Player)
    → login_player o h x r ≡ some p
    → (p.session_handle ≡ h) × (p.acc_no ≡ r.acc_no) × (p.cur_sector ≡ void_sector)
unfolding login_player create_player
login_player-filled o h x r p e =
    elim (Option-cases (o.wcscpy_s o.pooled_player.id id_length r.id)) [
      | inl f ↦ absurd (none-some p (rw (login_player, f) at e))
      | inr (id, f) ↦
          elim (Option-cases (o.wcscpy_s o.pooled_player.nickname id_length r.nickname)) [
            | inl g ↦ absurd (none-some p (rw (login_player, f, g) at e))
            | inr (nickname, g) ↦
                subst
                  (λ (t : Player).
                    (t.session_handle ≡ h) × (t.acc_no ≡ r.acc_no) × (t.cur_sector ≡ void_sector))
                  (some_inj _ p (rw (login_player, f, g) at e)) (refl, refl, refl)
          ]
    ]

is_down-duplicate :
    (old : Option ℕ) (out : List Output) → is_down (duplicate old ++ out) ≡ is_down out
unfolding is_down duplicate
is_down-duplicate none out = refl
is_down-duplicate (some old) out = refl

-- How a login ends: the session did not wait, or its key is not the one that Redis holds; or its
-- account leads to it, the session that had the account before, if any, is disconnected, and
-- either it has a player now and is answered, or a name did not end and the process is down, with
-- no player for the account.
pub data LoginEnd (o : Outside) (h : ℕ) (q : LoginRequest) (c d : Chat) (out : List Output)
    : Type 0 where
  refused : find h c.waiting ≡ none → d ≡ c → out ≡ disconnect h ∷ [] → LoginEnd o h q c d out
  wrong_key :
      key_matches (o.redis_get (plain q.acc_no)) q.session_key ≡ false
      → find h d.waiting ≡ none
      → d.players ≡ c.players
      → d.sessions_acc_no ≡ c.sessions_acc_no
      → out ≡ disconnect h ∷ []
      → LoginEnd o h q c d out
  entered :
      (w : WaitingSession) (p : Player)
      → find h c.waiting ≡ some w
      → key_matches (o.redis_get (plain q.acc_no)) q.session_key ≡ true
      → login_player o h w q ≡ some p
      → find h d.waiting ≡ none
      → find h d.players ≡ some p
      → find q.acc_no d.sessions_acc_no ≡ some h
      → find q.acc_no c.sessions_acc_no ≢ some h
      → out
        ≡ duplicate (find q.acc_no c.sessions_acc_no)
          ++ send_packet h (login_response o.pooled_packet 1 q.acc_no) ∷ []
      → LoginEnd o h q c d out
  crashed :
      (w : WaitingSession)
      → find h c.waiting ≡ some w
      → key_matches (o.redis_get (plain q.acc_no)) q.session_key ≡ true
      → login_player o h w q ≡ none
      → find h d.players ≡ none
      → find q.acc_no d.sessions_acc_no ≡ some h
      → out ≡ duplicate (find q.acc_no c.sessions_acc_no) ++ crash ∷ []
      → LoginEnd o h q c d out

-- A login in a consistent state ends in one of four ways: it is refused, has a wrong key, enters,
-- or brings the process down; and unless the process is down it leaves a consistent state.
pub req_login_lem :
    (o : Outside) (h : ℕ) (packet : SerializeBuffer) (c : Chat)
    → IsConsistent c
    → let (out, d) = req_login o h packet c in
      LoginEnd o h (read_login o packet) c d out × ((is_down out ≡ true) ⊎ IsConsistent d)
unfolding req_login enter_player is_down
req_login_lem o h packet c v =
    let q = read_login o packet in
    elim (Option-cases (find h c.waiting)) [
      | inl e ↦ rw (req_login, e) (refused e refl refl, inr v)
      | inr (w, e) ↦ elim (Bool-cases (key_matches (o.redis_get (plain q.acc_no)) q.session_key)) [
        | inl good ↦ elim (Option-cases (login_player o h w q)) [
          | inl bad_name ↦
              rw (req_login, e, good, enter_player, bad_name)
                (
                  crashed w e good bad_name (v.apart h w e)
                      (find-put_self q.acc_no h c.sessions_acc_no) refl,
                  inl (is_down-duplicate (find q.acc_no c.sessions_acc_no) (crash ∷ [])),
                )
          | inr (p, named) ↦
              let (own_handle, own_acc, outside) = login_player-filled o h w q p named in
              rw (req_login, e, good, enter_player, named)
                (
                  entered w p e good named (find-erase_self h c.waiting)
                      (find-put_self h p c.players) (find-put_self q.acc_no h c.sessions_acc_no)
                      (λ taken.
                        owner_differs h q.acc_no p w c.waiting c.players c.sessions_acc_no
                          c.sector_players v e own_handle own_acc outside q.acc_no h taken refl)
                      refl,
                  inr (
                      enter-Agree h q.acc_no p w c.waiting c.players c.sessions_acc_no
                        c.sector_players v e own_handle own_acc outside),
                )
        ]
        | inr bad ↦
            rw (req_login, e, bad)
              (
                wrong_key bad (find-erase_self h c.waiting) refl refl refl,
                inr (erase-Agree c.waiting c.players c.sessions_acc_no c.sector_players v h),
              )
      ]
    ]
