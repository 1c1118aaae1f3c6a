-- ===== src/Chat/Requests.antt =====
-- ChatServer/main.cpp: `OnRecv`, the other cases of `Content_Proc`, and `SendAroundSector`.
use iocpnet_module_mono_repo.Prelude.{
  ℕ, ◌+◌, ◌*◌, ◌/◌, ◌%◌, ◌^◌, List, [], ◌∷◌, ◌++◌, Bool, true, not, ◌&&◌, ◌||◌, ltb, leb, ◌==◌,
  if◌then◌else◌, none, some, length, map, take,
}
use iocpnet_module_mono_repo.Prelude.Assoc.{find, put}
use iocpnet_module_mono_repo.Packet.{
  SerializeBuffer, put_data, shr_unsigned_long_long, shr_word, shl_unsigned_short,
  shl_unsigned_long_long,
}
use iocpnet_module_mono_repo.Packet.Contents.{contents}
use iocpnet_module_mono_repo.Sector.{Coord, cell, void, around_of, sector_max}
use iocpnet_module_mono_repo.Sector.Players.{player_sector_update}
use iocpnet_module_mono_repo.Chat.{
  Chat, Player, Output, disconnect, send_packet, send_packet_multicast, debug_break, array_overrun,
  void_sector, msg_length,
}
use iocpnet_module_mono_repo.Chat.Login.{Outside, get_into, alloc, req_login}

-- the sector in column x and row y: `sectorIDPool` counts row by row
unfoldable pub sector_id : ℕ × ℕ → ℕ
sector_id s = s.1 * sector_max + s.0

-- the place of a sector in the array
unfoldable pub coord_of : ℕ → Coord × Coord
coord_of s =
    if s == void_sector then (void, void) else (cell (s % sector_max), cell (s / sector_max))

-- `aroundSectors`
unfoldable pub sectors_around : ℕ → List ℕ
sectors_around s = map sector_id (around_of (coord_of s))

-- `sectorMap.PlayerSectorUpdate(player, x, y)` on the player and the lists of the sectors
unfoldable pub move_player : Player → ℕ → Chat → Player × (ℕ → List ℕ)
move_player player to c =
    let (moved, locks, s) = player_sector_update player.session_handle to (record {
      players = c.sector_players;
      old_sector = player.old_sector;
      cur_sector = player.cur_sector;
    }) in
    (record player { old_sector = s.old_sector; cur_sector = s.cur_sector }, s.players)

-- `resPacket` of `en_PACKET_CS_CHAT_RES_SECTOR_MOVE`
unfoldable pub move_response : SerializeBuffer → ℕ → ℕ → ℕ → List ℕ
move_response pooled acc_no x y = contents (
    shl_unsigned_short y
      (shl_unsigned_short x (shl_unsigned_long_long acc_no (shl_unsigned_short 4 (alloc pooled)))))

-- the case for a sector move, once the player is found
unfoldable pub sector_move : Outside → ℕ → Player → SerializeBuffer → ℕ → Chat → List Output × Chat
sector_move o session_handle player packet acc_no c =
    if not (acc_no == player.acc_no)
    then (disconnect session_handle ∷ [], c)
    else let (x, p1) = shr_word o.sector_x packet in
      let (y, p2) = shr_word o.sector_y p1 in
      if leb sector_max x || leb sector_max y
      then (disconnect session_handle ∷ [], c)
      else let (moved, lists) = move_player player (sector_id (x, y)) c in
        (
          send_packet session_handle (move_response o.pooled_packet acc_no x y) ∷ [],
          record c {
            sector_players = lists;
            players =
                put session_handle
                  (record moved {
                    last_recv = o.current_time;
                    tps_req_sector_move = player.tps_req_sector_move + 1;
                  })
                  c.players;
          },
        )

unfoldable pub req_sector_move : Outside → ℕ → SerializeBuffer → Chat → List Output × Chat
req_sector_move o session_handle packet c =
    let (acc_no, rest) = shr_unsigned_long_long o.acc_no packet in
    elim (find session_handle c.players) [
      | some player ↦ sector_move o session_handle player rest acc_no c
      | none ↦ (disconnect session_handle ∷ [], c)
    ]

-- the handles that the two loops of `SendAroundSector` put into `handlesForMulticast`
unfoldable pub copy_players : Bool → ℕ → List ℕ → List ℕ
copy_players send_me me [] = []
copy_players send_me me (p ∷ ps) =
    let rest = copy_players send_me me ps in if not send_me && (p == me) then rest else p ∷ rest

unfoldable pub handles_for_multicast : Bool → ℕ → (ℕ → List ℕ) → List ℕ → List ℕ
handles_for_multicast send_me me lists [] = []
handles_for_multicast send_me me lists (s ∷ ss) =
    copy_players send_me me (lists s) ++ handles_for_multicast send_me me lists ss

-- the length of the array `handlesForMulticast`
abbrev pub handles_size : ℕ
handles_size = 500

-- `SendAroundSector(player, packet, sendMe)`; the array is written before its length is tested
unfoldable pub send_around_sector : Player → List ℕ → Bool → Chat → List Output
send_around_sector player packet send_me c =
    let handles =
      handles_for_multicast send_me player.session_handle c.sector_players
        (sectors_around player.cur_sector) in
    let cnt = length handles in
    if ltb handles_size cnt
    then array_overrun ∷ []
    else (if leb handles_size cnt then debug_break ∷ [] else [])
      ++ (if cnt == 0 then [] else send_packet_multicast handles packet ∷ [])

-- `resPacket` of `en_PACKET_CS_CHAT_RES_MESSAGE`
unfoldable pub message_response : SerializeBuffer → Player → ℕ → List ℕ → List ℕ
message_response pooled player message_len bytes =
    let numbered = shl_unsigned_long_long player.acc_no (shl_unsigned_short 6 (alloc pooled)) in
    let named = (put_data player.nickname (put_data player.id numbered).1).1 in
    contents (put_data bytes (shl_unsigned_short message_len named)).1

-- the case for a message, once the player is found; `bytes` are those of `message` that are sent
unfoldable pub message : Outside → ℕ → Player → SerializeBuffer → ℕ → Chat → List Output × Chat
message o session_handle player packet acc_no c =
    if not (acc_no == player.acc_no)
    then (disconnect session_handle ∷ [], c)
    else let (message_len, p1) = shr_word o.message_len packet in
      if ltb msg_length message_len
      then (disconnect session_handle ∷ [], c)
      else let (array, p2) = get_into o.message (2 * message_len) p1 in
        (
          send_around_sector player
              (message_response o.pooled_packet player message_len (take (2 * message_len) array))
              true c,
          record c {
            players =
                put session_handle
                  (record player {
                    last_recv = o.current_time;
                    tps_req_chat = player.tps_req_chat + 1;
                  })
                  c.players;
          },
        )

unfoldable pub req_message : Outside → ℕ → SerializeBuffer → Chat → List Output × Chat
req_message o session_handle packet c =
    let (acc_no, rest) = shr_unsigned_long_long o.acc_no packet in
    elim (find session_handle c.players) [
      | some player ↦ message o session_handle player rest acc_no c
      | none ↦ (disconnect session_handle ∷ [], c)
    ]

unfoldable pub req_heartbeat : Outside → ℕ → Chat → List Output × Chat
req_heartbeat o session_handle c = elim (find session_handle c.players) [
  | some player ↦ (
    [],
    record c {
      players = put session_handle (record player { last_recv = o.current_time }) c.players;
    },
  )
  | none ↦ (disconnect session_handle ∷ [], c)
]

-- the cases of `Content_Proc` by their number in `en_PACKET_TYPE`
pub data ContentType : Type 0 where
  login : ContentType
  move : ContentType
  chat : ContentType
  heartbeat : ContentType
  unknown : ContentType

unfoldable pub content_type_of : ℕ → ContentType
content_type_of n =
    if n == 1
    then login
    else if n == 3
    then move
    else if n == 5
    then chat
    else if n == 7
    then heartbeat
    else unknown

-- `Content_Proc`
unfoldable pub content_proc :
    Outside → ℕ → ContentType → SerializeBuffer → Chat → List Output × Chat
content_proc o session_handle login packet c = req_login o session_handle packet c
content_proc o session_handle move packet c = req_sector_move o session_handle packet c
content_proc o session_handle chat packet c = req_message o session_handle packet c
content_proc o session_handle heartbeat packet c = req_heartbeat o session_handle c
content_proc o session_handle unknown packet c = (disconnect session_handle ∷ [], c)

-- `OnRecv`
unfoldable pub on_recv : Outside → ℕ → SerializeBuffer → Chat → List Output × Chat
on_recv o session_handle packet c =
    let (content_type, rest) = shr_word o.content_type packet in
    let (outputs, after) = content_proc o session_handle (content_type_of content_type) rest c in
    (outputs, record after { update_msg = (after.update_msg + 1) % 2 ^ 32 })
