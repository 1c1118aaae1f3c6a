-- ===== src/Chat/Handling.antt =====
-- The requests and the timers of ChatServer/main.cpp, and the agreement of the tables.
use iocpnet_module_mono_repo.Prelude.{
  ℕ, ◌+◌, ◌≡◌, ◌≢◌, ◌⊎◌, true, inl, inr, refl, List, [], ◌∷◌, false, some, Option-cases, Bool-cases,
  ◌||◌, leb, ltb, ◌==◌, if◌then◌else◌, arith,
}
use iocpnet_module_mono_repo.Prelude.Assoc.{find, put}
use iocpnet_module_mono_repo.Packet.{SerializeBuffer, shr_word, shr_unsigned_long_long}
use iocpnet_module_mono_repo.Sector.{sector_max}
use iocpnet_module_mono_repo.Chat.{Chat, Player, is_down, void_sector, msg_length, insert_blacklist}
use iocpnet_module_mono_repo.Chat.Login.{Outside}
use iocpnet_module_mono_repo.Chat.Requests.{
  on_recv, req_heartbeat, req_message, message, req_sector_move, sector_move, sector_id,
  move_player, content_proc, ContentType, login, move, chat, heartbeat, unknown, content_type_of,
}
use iocpnet_module_mono_repo.Chat.Timers.{
  content_round, sweep, sweep_player, swept_player, timeout, collect, collect_accept_tps,
  insert_all,
}
use iocpnet_module_mono_repo.Chat.Invariant.{Agree, IsConsistent, Alike, put-Alike, Alike-Agree}
use iocpnet_module_mono_repo.Chat.Leaving.{Tables, insert_blacklist-keeps}
use iocpnet_module_mono_repo.Chat.Entering.{req_login_lem}
use iocpnet_module_mono_repo.Chat.Moving.{move-Agree}

-- a player is changed, but not its handle, its account or its sector
put-IsConsistent :
    (h : ℕ) (p q : Player) (c : Chat)
    → IsConsistent c
    → find h c.players ≡ some p
    → q.session_handle ≡ p.session_handle
    → q.acc_no ≡ p.acc_no
    → q.cur_sector ≡ p.cur_sector
    → IsConsistent (record c { players = put h q c.players })
put-IsConsistent h p q c v here same same_acc there =
    Alike-Agree c.waiting c.players c.sessions_acc_no c.sector_players v (put h q c.players)
      (put-Alike h p q c.players here same same_acc there)

req_heartbeat-IsConsistent :
    (o : Outside) (h : ℕ) (c : Chat) → IsConsistent c → IsConsistent (req_heartbeat o h c).1
unfolding req_heartbeat
req_heartbeat-IsConsistent o h c v = elim (Option-cases (find h c.players)) [
  | inl e ↦ rw (req_heartbeat, e) v
  | inr (p, e) ↦
      let heard = record p { last_recv = o.current_time } in
      rw (req_heartbeat, e) (put-IsConsistent h p heard c v e refl refl refl)
]

message-IsConsistent :
    (o : Outside) (h acc_no : ℕ) (packet : SerializeBuffer) (p : Player) (c : Chat)
    → IsConsistent c
    → find h c.players ≡ some p
    → IsConsistent (message o h p packet acc_no c).1
unfolding message
message-IsConsistent o h acc_no packet p c v here = elim (Bool-cases (acc_no == p.acc_no)) [
  | inl e ↦
      let len = (shr_word o.message_len packet).0 in
      elim (Bool-cases (ltb msg_length len)) [
        | inl long ↦ rw (message, e, long) v
        | inr fits ↦
            let heard = record p {
              last_recv = o.current_time;
              tps_req_chat = p.tps_req_chat + 1;
            } in
            rw (message, e, fits) (put-IsConsistent h p heard c v here refl refl refl)
      ]
  | inr e ↦ rw (message, e) v
]

req_message-IsConsistent :
    (o : Outside) (h : ℕ) (packet : SerializeBuffer) (c : Chat)
    → IsConsistent c
    → IsConsistent (req_message o h packet c).1
unfolding req_message
req_message-IsConsistent o h packet c v = elim (Option-cases (find h c.players)) [
  | inl e ↦ rw (req_message, e) v
  | inr (p, e) ↦
      let (acc_no, rest) = shr_unsigned_long_long o.acc_no packet in
      rw (req_message, e) (message-IsConsistent o h acc_no rest p c v e)
]

-- a sector of the array is not the void sector
inside : (x y : ℕ) → (leb sector_max x || leb sector_max y) ≡ false → sector_id (x, y) ≢ void_sector
unfolding sector_id
inside x y h = ground arith

move_player_keeps :
    (p : Player) (to : ℕ) (c : Chat)
    → ((move_player p to c).0.session_handle ≡ p.session_handle)
      × ((move_player p to c).0.acc_no ≡ p.acc_no)
unfolding move_player
move_player_keeps p to c = (refl, refl)

sector_move-IsConsistent :
    (o : Outside) (h acc_no : ℕ) (packet : SerializeBuffer) (p : Player) (c : Chat)
    → IsConsistent c
    → find h c.players ≡ some p
    → IsConsistent (sector_move o h p packet acc_no c).1
unfolding sector_move
sector_move-IsConsistent o h acc_no packet p c v here = elim (Bool-cases (acc_no == p.acc_no)) [
  | inl e ↦
      let (x, rest) = shr_word o.sector_x packet in
      let y = (shr_word o.sector_y rest).0 in
      elim (Bool-cases (leb sector_max x || leb sector_max y)) [
        | inl out ↦ rw (sector_move, e, out) v
        | inr within ↦
            let to = sector_id (x, y) in
            let q = record (move_player p to c).0 {
              last_recv = o.current_time;
              tps_req_sector_move = p.tps_req_sector_move + 1;
            } in
            rw (sector_move, e, within)
              (move-Agree h to c.waiting c.players c.sessions_acc_no p q c v here
                (inside x y within) (move_player_keeps p to c).0 (move_player_keeps p to c).1 refl)
      ]
  | inr e ↦ rw (sector_move, e) v
]

req_sector_move-IsConsistent :
    (o : Outside) (h : ℕ) (packet : SerializeBuffer) (c : Chat)
    → IsConsistent c
    → IsConsistent (req_sector_move o h packet c).1
unfolding req_sector_move
req_sector_move-IsConsistent o h packet c v = elim (Option-cases (find h c.players)) [
  | inl e ↦ rw (req_sector_move, e) v
  | inr (p, e) ↦
      let (acc_no, rest) = shr_unsigned_long_long o.acc_no packet in
      rw (req_sector_move, e) (sector_move-IsConsistent o h acc_no rest p c v e)
]

content_proc-IsConsistent :
    (o : Outside) (h : ℕ) (t : ContentType) (packet : SerializeBuffer) (c : Chat)
    → IsConsistent c
    → let (out, d) = content_proc o h t packet c in (is_down out ≡ true) ⊎ IsConsistent d
unfolding content_proc
content_proc-IsConsistent o h login packet c v = (req_login_lem o h packet c v).1
content_proc-IsConsistent o h move packet c v = inr (req_sector_move-IsConsistent o h packet c v)
content_proc-IsConsistent o h chat packet c v = inr (req_message-IsConsistent o h packet c v)
content_proc-IsConsistent o h heartbeat packet c v = inr (req_heartbeat-IsConsistent o h c v)
content_proc-IsConsistent o h unknown packet c v = inr v

pub on_recv-IsConsistent :
    (o : Outside) (h : ℕ) (packet : SerializeBuffer) (c : Chat)
    → IsConsistent c
    → let (out, d) = on_recv o h packet c in (is_down out ≡ true) ⊎ IsConsistent d
unfolding on_recv
on_recv-IsConsistent o h packet c v =
    let (content_type, rest) = shr_word o.content_type packet in
    content_proc-IsConsistent o h (content_type_of content_type) rest c v

swept_player_keeps :
    (now : ℕ) (p : Player)
    → ((swept_player now p).session_handle ≡ p.session_handle)
      × ((swept_player now p).acc_no ≡ p.acc_no)
      × ((swept_player now p).cur_sector ≡ p.cur_sector)
unfolding swept_player
swept_player_keeps now p = elim (Bool-cases (ltb now p.last_recv)) [
  | inl e ↦ rw (swept_player, e) (refl, refl, refl)
  | inr e ↦ rw (swept_player, e) (refl, refl, refl)
]

sweep-Alike : (now a b : ℕ) (m : List (ℕ × Player)) → Alike m (sweep now a b m).swept
unfolding find sweep
sweep-Alike now a b [] h = inl (refl, refl)
sweep-Alike now a b (e ∷ m) h =
    let maxima = if ltb now e.1.last_recv then (false, a, b) else sweep_player now e.0 e.1 a b in
    let ih = sweep-Alike now maxima.1 maxima.2 m h in
    elim (Bool-cases (h == e.0)) [
      | inl same ↦
          let (same_handle, same_acc, there) = swept_player_keeps now e.1 in
          rw same (inr (e.1, swept_player now e.1, refl, refl, same_handle, same_acc, there))
      | inr other ↦ rw other ih
    ]

insert_all-keeps :
    (Q : Tables) (ips : List ℕ) (c : Chat)
    → Q c.waiting c.players c.sessions_acc_no c.sector_players
    → let d = insert_all ips c in Q d.waiting d.players d.sessions_acc_no d.sector_players
unfolding insert_all
insert_all-keeps Q [] c q = q
insert_all-keeps Q (ip ∷ ips) c q =
    insert_all-keeps Q ips (insert_blacklist ip 0 c) (insert_blacklist-keeps Q ip 0 c q)

pub content_round-IsConsistent :
    (now : ℕ) (c : Chat) → IsConsistent c → IsConsistent (content_round now c).1
unfolding content_round timeout collect_accept_tps
content_round-IsConsistent now c v =
    let swept = (timeout now c).1 in
    let (kept, listed) = collect swept.tps_accept_list in
    insert_all-keeps Agree listed (record swept { tps_accept_list = kept })
      (Alike-Agree c.waiting c.players c.sessions_acc_no c.sector_players v swept.players
        (sweep-Alike now c.tps_msg_req_max c.tps_mov_req_max c.players))
