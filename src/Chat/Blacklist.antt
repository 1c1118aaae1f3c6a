-- ===== src/Chat/Blacklist.antt =====
-- The blacklist of ChatServer/main.cpp: who is refused by `OnConnectionRequest`.
use iocpnet_module_mono_repo.Prelude.{
  ℕ, ◌≡◌, refl, List, Bool, true, false, ◌&&◌, ◌==◌, if◌then◌else◌, none, some, Bool-cases,
  Option-cases, inl, inr,
}
use iocpnet_module_mono_repo.Prelude.Assoc.{find, put, erase, find-put}
use iocpnet_module_mono_repo.Chat.{
  Chat, insert_blacklist, leave_for, leave_player, on_client_leave, on_connection_request,
}
use iocpnet_module_mono_repo.Frame.Receive.{
  LeaveCode, none_set, wrong_header_code, wrong_header_len, wrong_header_checksum,
  wrong_recvpost_count, send_full,
}

-- the codes that `OnClientLeave` answers with the blacklist
unfoldable pub is_wrong : LeaveCode → Bool
is_wrong none_set = false
is_wrong send_full = false
is_wrong wrong_header_code = true
is_wrong wrong_header_len = true
is_wrong wrong_header_checksum = true
is_wrong wrong_recvpost_count = true

-- the blacklist answers for one address more
refused_put :
    (ip port other : ℕ) (m : List (ℕ × ℕ))
    → Path Bool
        (elim (find other (put ip port m)) [ some p ↦ false | none ↦ true ])
        (if other == ip then false else elim (find other m) [ some p ↦ false | none ↦ true ])
refused_put ip port other m =
    let at_other : find other (put ip port m) ≡ (if other == ip then some port else find other m) =
      find-put other ip port m in
    elim (Bool-cases (other == ip)) [
      | inl same ↦
          let there : find other (put ip port m) ≡ some port = rw same at at_other in
          rw (there, same) refl
      | inr away ↦
          let there : find other (put ip port m) ≡ find other m = rw away at at_other in
          rw (there, away) refl
    ]

insert_refuses :
    (ip port other : ℕ) (c : Chat)
    → on_connection_request other (insert_blacklist ip port c)
      ≡ (if c.use_blacklist && (other == ip) then false else on_connection_request other c)
unfolding on_connection_request insert_blacklist
insert_refuses ip port other c = elim (Bool-cases c.use_blacklist) [
  | inl on ↦
      rw (on_connection_request, insert_blacklist, on) (refused_put ip port other c.blacklist)
  | inr off ↦ rw (insert_blacklist, off) refl
]

leave_for-refuses :
    (code : LeaveCode) (ip port other : ℕ) (c : Chat)
    → on_connection_request other (leave_for code ip port c) ≡ (
        if is_wrong code && c.use_blacklist && (other == ip)
        then false
        else on_connection_request other c)
unfolding leave_for is_wrong on_connection_request
leave_for-refuses none_set ip port other c = refl
leave_for-refuses send_full ip port other c = refl
leave_for-refuses wrong_header_code ip port other c = insert_refuses ip port other c
leave_for-refuses wrong_header_len ip port other c = insert_refuses ip port other c
leave_for-refuses wrong_header_checksum ip port other c = insert_refuses ip port other c
leave_for-refuses wrong_recvpost_count ip port other c = insert_refuses ip port other c

-- Whether an address may connect after a session has left: not if the session had this address,
-- left for a wrong header, checksum or number of posts, and the blacklist is in use; otherwise as
-- it was before.
pub on_client_leave-refuses :
    (h : ℕ) (code : LeaveCode) (ip port other : ℕ) (c : Chat)
    → on_connection_request other (on_client_leave h code ip port c) ≡ (
        if is_wrong code && c.use_blacklist && (other == ip)
        then false
        else on_connection_request other c)
unfolding on_client_leave on_connection_request leave_player
on_client_leave-refuses h code ip port other c =
    let left = record c { waiting = erase h c.waiting } in
    elim (Option-cases (find h c.players)) [
      | inl e ↦ rw (on_client_leave, e) (leave_for-refuses code ip port other left)
      | inr (p, e) ↦
          rw (on_client_leave, e) (leave_for-refuses code ip port other (leave_player h p left))
    ]
