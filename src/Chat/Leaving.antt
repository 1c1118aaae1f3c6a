-- ===== src/Chat/Leaving.antt =====
-- `OnClientLeave` of ChatServer/main.cpp: what is left of a session in the tables.
use iocpnet_module_mono_repo.Prelude.{
  ℕ, ◌≡◌, ◌≢◌, ◌↔◌, inl, inr, refl, sym, subst, ap, ◌∙◌, List, [], ◌∷◌, ◌==◌, if◌then◌else◌, none,
  some, eq-or-ne, Option-cases, Bool-cases, arith, eq→==, ==→eq, ==→ne, ne→==,
}
use iocpnet_module_mono_repo.Prelude.Assoc.{
  find, erase, erase-cases, find-erase_self, find-erase_other, some_inj, none-some,
}
use iocpnet_module_mono_repo.Sector.Order.{count}
use iocpnet_module_mono_repo.Chat.{
  Chat, Player, WaitingSession, remove, remove_from, forget_account, leave_player, leave_for,
  insert_blacklist, on_client_leave,
}
use iocpnet_module_mono_repo.Frame.Receive.{
  LeaveCode, none_set, wrong_header_code, wrong_header_len, wrong_header_checksum,
  wrong_recvpost_count, send_full,
}
use iocpnet_module_mono_repo.Chat.Invariant.{
  Agree, IsConsistent, standing, standing_away, erase-Agree,
}

count-remove : (j p : ℕ) (qs : List ℕ) → count j (remove p qs) ≡ (if j == p then 0 else count j qs)
unfolding remove
count-remove j p [] = ground arith
count-remove j p (q ∷ qs) =
    let ih : count j (remove p qs) ≡ (if j == p then 0 else count j qs) = count-remove j p qs in
    elim (Bool-cases (p == q)) [
      | inl e ↦ let same : p ≡ q = ground arith in rw e (ground (arith, ih))
      | inr e ↦ let other : p ≢ q = ground arith in rw e (ground (arith, ih))
    ]

count-remove_from :
    (j h cur s : ℕ) (lists : ℕ → List ℕ)
    → count j (remove_from cur h lists s)
      ≡ (if s == cur then (if j == h then 0 else count j (lists s)) else count j (lists s))
unfolding remove_from
count-remove_from j h cur s lists = elim (Bool-cases (s == cur)) [
  | inl e ↦ rw e (count-remove j h (lists s))
  | inr e ↦ rw e refl
]

-- An account that is still there was there before, and leads to another session if it is the one
-- of the player that left.
forget_account-cases :
    (h acc b j : ℕ) (a : List (ℕ × ℕ))
    → find b (forget_account h acc a) ≡ some j
    → (find b a ≡ some j) × (b ≡ acc → j ≢ h)
unfolding forget_account
forget_account-cases h acc b j a e = elim (Option-cases (find acc a)) [
  | inl f ↦
      let kept : find b a ≡ some j = rw (forget_account, f) at e in
      (kept, λ same. absurd (none-some j (sym f ∙ subst (λ i. find i a ≡ some j) same kept)))
  | inr (owner, f) ↦ elim (Bool-cases (owner == h)) [
    | inl o ↦
        let kept = erase-cases b acc j a (rw (forget_account, f, o) at e) in
        (kept.1, λ same. absurd (kept.0 same))
    | inr o ↦
        let kept : find b a ≡ some j = rw (forget_account, f, o) at e in
        let to_owner : (b ≡ acc) → owner ≡ j =
          λ same. some_inj owner j (sym f ∙ subst (λ i. find i a ≡ some j) same kept) in
        (kept, λ same here. ==→ne owner h o (to_owner same ∙ here))
  ]
]

-- An account of another session stays.
forget_account-keeps :
    (h acc b j : ℕ) (a : List (ℕ × ℕ))
    → j ≢ h
    → find b a ≡ some j
    → find b (forget_account h acc a) ≡ some j
unfolding forget_account
forget_account-keeps h acc b j a other e = elim (Option-cases (find acc a)) [
  | inl f ↦ rw (forget_account, f) e
  | inr (owner, f) ↦ elim (Bool-cases (owner == h)) [
    | inl o ↦
        let apart : b ≢ acc = λ same. other (
          some_inj j owner (sym e ∙ subst (λ i. find i a ≡ some owner) (sym same) f)
          ∙ ==→eq owner h o) in
        rw (forget_account, f, o) (find-erase_other b acc a apart ∙ e)
    | inr o ↦ rw (forget_account, f, o) e
  ]
]

module _ (h : ℕ) (w : List (ℕ × WaitingSession)) (m : List (ℕ × Player)) (a : List (ℕ × ℕ))
    (lists : ℕ → List ℕ) (v : Agree w m a lists) where
  count-gone :
      (p : Player) (s : ℕ) → find h m ≡ some p → count h (remove_from p.cur_sector h lists s) ≡ 0
  count-gone p s here =
      let before : count h (lists s) ≡ standing s (some p) = v.placed h s ∙ ap (standing s) here in
      let after = count-remove_from h h p.cur_sector s lists in
      elim (Bool-cases (s == p.cur_sector)) [
        | inl e ↦ after ∙ rw (e, eq→== h h refl) refl
        | inr e ↦ after ∙ rw e (before ∙ standing_away s p (λ f. ==→ne s p.cur_sector e (sym f)))
      ]

  count-kept :
      (p : Player) (j s : ℕ)
      → j ≢ h
      → count j (remove_from p.cur_sector h lists s) ≡ count j (lists s)
  count-kept p j s other =
      let after = count-remove_from j h p.cur_sector s lists in
      elim (Bool-cases (s == p.cur_sector)) [
        | inl e ↦ after ∙ rw (e, ne→== j h other) refl
        | inr e ↦ after ∙ rw e refl
      ]

  leave-placed :
      (p : Player) (j s : ℕ)
      → find h m ≡ some p
      → count j (remove_from p.cur_sector h lists s) ≡ standing s (find j (erase h m))
  unfolding standing
  leave-placed p j s here = elim (eq-or-ne j h) [
    | inl same ↦
        subst (λ i. count i (remove_from p.cur_sector h lists s) ≡ standing s (find i (erase h m)))
          (sym same) (count-gone p s here ∙ ap (standing s) (sym (find-erase_self h m)))
    | inr other ↦
        count-kept p j s other ∙ v.placed j s ∙ ap (standing s) (sym (find-erase_other j h m other))
  ]

  leave-Agree :
      (p : Player)
      → find h m ≡ some p
      → Agree
          (erase h w)
          (erase h m)
          (forget_account h p.acc_no a)
          (remove_from p.cur_sector h lists)
  leave-Agree p here = record {
    apart = λ j x e.
        let (other, before) = erase-cases j h x w e in
        find-erase_other j h m other ∙ v.apart j x before;
    own = λ j r e. v.own j r (erase-cases j h r m e).1;
    account = λ b j e.
        let (before, other) = forget_account-cases h p.acc_no b j a e in
        let (q, at_q, has) = v.account b j before in
        elim (eq-or-ne j h) [
          | inl same ↦
              let q_is : q ≡ p =
                some_inj q p (sym at_q ∙ subst (λ i. find i m ≡ some p) (sym same) here) in
              absurd (other (sym has ∙ ap (λ t. t.acc_no) q_is) same)
          | inr apart ↦ (q, find-erase_other j h m apart ∙ at_q, has)
        ];
    placed = λ j s. leave-placed p j s here;
  }

-- What is said of the four tables holds as well after the blacklist and the total are changed.
abbrev pub Tables : Type 1
Tables = List (ℕ × WaitingSession) → List (ℕ × Player) → List (ℕ × ℕ) → (ℕ → List ℕ) → Type 0

pub insert_blacklist-keeps :
    (Q : Tables) (ip port : ℕ) (c : Chat)
    → Q c.waiting c.players c.sessions_acc_no c.sector_players
    → let d = insert_blacklist ip port c in Q d.waiting d.players d.sessions_acc_no d.sector_players
unfolding insert_blacklist
insert_blacklist-keeps Q ip port c q = elim (Bool-cases c.use_blacklist) [
  | inl e ↦ rw e q
  | inr e ↦ rw e q
]

leave_for-keeps :
    (Q : Tables) (code : LeaveCode) (ip port : ℕ) (c : Chat)
    → Q c.waiting c.players c.sessions_acc_no c.sector_players
    → let d = leave_for code ip port c in Q d.waiting d.players d.sessions_acc_no d.sector_players
unfolding leave_for
leave_for-keeps Q none_set ip port c q = q
leave_for-keeps Q send_full ip port c q = q
leave_for-keeps Q wrong_header_code ip port c q = insert_blacklist-keeps Q ip port c q
leave_for-keeps Q wrong_header_len ip port c q = insert_blacklist-keeps Q ip port c q
leave_for-keeps Q wrong_header_checksum ip port c q = insert_blacklist-keeps Q ip port c q
leave_for-keeps Q wrong_recvpost_count ip port c q = insert_blacklist-keeps Q ip port c q

-- Nothing leads to session `h` any more, and what the tables hold of others is as it was in `c`.
pub record IsGone (h : ℕ) (c : Chat) (waiting : List (ℕ × WaitingSession))
    (players : List (ℕ × Player)) (accounts : List (ℕ × ℕ)) (lists : ℕ → List ℕ) : Type 0 where
  pub agree : Agree waiting players accounts lists
  pub not_waiting : find h waiting ≡ none
  pub no_player : find h players ≡ none
  pub no_account : (a : ℕ) → find a accounts ≢ some h
  pub in_no_sector : (s : ℕ) → count h (lists s) ≡ 0
  pub others_waiting : (j : ℕ) → j ≢ h → find j waiting ≡ find j c.waiting
  pub others_accounts :
      (a j : ℕ) → j ≢ h → (find a accounts ≡ some j) ↔ (find a c.sessions_acc_no ≡ some j)
  pub others_playing : (j : ℕ) → j ≢ h → find j players ≡ find j c.players
  pub others_standing : (j s : ℕ) → j ≢ h → count j (lists s) ≡ count j (c.sector_players s)

gone_lem :
    (h : ℕ) (c : Chat) (m : List (ℕ × Player)) (a : List (ℕ × ℕ)) (lists : ℕ → List ℕ)
    → Agree (erase h c.waiting) m a lists
    → find h m ≡ none
    → ((b j : ℕ) → j ≢ h → (find b a ≡ some j) ↔ (find b c.sessions_acc_no ≡ some j))
    → ((j : ℕ) → j ≢ h → find j m ≡ find j c.players)
    → ((j s : ℕ) → j ≢ h → count j (lists s) ≡ count j (c.sector_players s))
    → IsGone h c (erase h c.waiting) m a lists
unfolding standing
gone_lem h c m a lists v none_left owners others stand = record {
  agree = v;
  not_waiting = find-erase_self h c.waiting;
  no_player = none_left;
  no_account = λ b e. let (p, at_p, has) = v.account b h e in none-some p (sym none_left ∙ at_p);
  in_no_sector = λ s. v.placed h s ∙ ap (standing s) none_left;
  others_waiting = λ j other. find-erase_other j h c.waiting other;
  others_accounts = owners;
  others_playing = others;
  others_standing = stand;
}

-- `OnClientLeave`, in a consistent state, leaves a consistent one and no trace of the session: it
-- does not wait, has no player, no account leads to it and it stands in no sector; every other
-- session waits, plays and stands in the sectors as it did, and the accounts that lead to it are
-- the same.
pub on_client_leave_lem :
    (h : ℕ) (code : LeaveCode) (ip port : ℕ) (c : Chat)
    → IsConsistent c
    → let d = on_client_leave h code ip port c in
      IsGone h c d.waiting d.players d.sessions_acc_no d.sector_players
unfolding on_client_leave leave_player
on_client_leave_lem h code ip port c v =
    let left = record c { waiting = erase h c.waiting } in
    elim (Option-cases (find h c.players)) [
      | inl e ↦ rw e (
          leave_for-keeps (IsGone h c) code ip port left (
            gone_lem h c c.players c.sessions_acc_no c.sector_players
              (erase-Agree c.waiting c.players c.sessions_acc_no c.sector_players v h) e
              (λ b j other. (λ x. x, λ x. x)) (λ j other. refl) (λ j s other. refl)))
      | inr (p, e) ↦
          let lists = remove_from p.cur_sector h c.sector_players in
          rw e (
            leave_for-keeps (IsGone h c) code ip port (leave_player h p left) (
              gone_lem h c (erase h c.players) (forget_account h p.acc_no c.sessions_acc_no) lists
                (leave-Agree h c.waiting c.players c.sessions_acc_no c.sector_players v p e)
                (find-erase_self h c.players)
                (λ b j other. (
                  (λ x. (forget_account-cases h p.acc_no b j c.sessions_acc_no x).0),
                  λ x. forget_account-keeps h p.acc_no b j c.sessions_acc_no other x,
                ))
                (λ j other. find-erase_other j h c.players other)
                (λ j s other.
                  count-kept h c.waiting c.players c.sessions_acc_no c.sector_players v p j s
                    other)))
    ]
