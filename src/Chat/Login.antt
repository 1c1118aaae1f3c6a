-- ===== src/Chat/Login.antt =====
-- ChatServer/main.cpp: the case of `Content_Proc` for `en_PACKET_CS_CHAT_REQ_LOGIN`.
use iocpnet_module_mono_repo.Prelude.{
  ℕ, zero, suc, ◌*◌, List, [], ◌∷◌, ◌++◌, Bool, true, false, ◌&&◌, ◌==◌, if◌then◌else◌, Option,
  none, some, length, drop,
}
use iocpnet_module_mono_repo.Prelude.Assoc.{find, erase, put}
use iocpnet_module_mono_repo.Packet.{
  SerializeBuffer, clear, get_data, shr_unsigned_long_long, shl_unsigned_short, shl_unsigned_char,
  shl_unsigned_long_long,
}
use iocpnet_module_mono_repo.Packet.Contents.{contents}
use iocpnet_module_mono_repo.Chat.{
  Chat, Player, WaitingSession, Output, disconnect, send_packet, crash, create_player, void_sector,
  id_length, sessionkey_length,
}

-- what `std::to_string` makes of a number
pub data KeyString : Type 0 where
  plain minus : ℕ → KeyString

-- What a handler finds in its uninitialised local variables, in the objects of the pools and in
-- the world outside: the answer of Redis, the results of `rand()`, the time, and what
-- `wcscpy_s(dest, size, src)` leaves in `dest`: `none` where it calls the handler for invalid
-- parameters, which Utils/CrashDump.h sets to a crash.
-- A key of Redis is the decimal string of a number, with its sign.
pub record Outside : Type 0 where
  pub acc_no : ℕ
  pub id : List ℕ
  pub nickname : List ℕ
  pub session_key : List ℕ
  pub sector_x : ℕ
  pub sector_y : ℕ
  pub message_len : ℕ
  pub message : List ℕ
  pub content_type : ℕ
  pub pooled_player : Player
  pub pooled_packet : SerializeBuffer
  pub rand_x : ℕ
  pub rand_y : ℕ
  pub current_time : ℕ
  pub redis_get : KeyString → Option (List ℕ)
  pub wcscpy_s : List ℕ → ℕ → List ℕ → Option (List ℕ)

-- `packet->GetData(local, size)` into a local array that holds `old`
unfoldable pub get_into : List ℕ → ℕ → SerializeBuffer → List ℕ × SerializeBuffer
get_into old size packet =
    let (n, bytes, rest) = get_data size packet in (bytes ++ drop n old, rest)

-- `Packet::Alloc()`, on what the pool gives
unfoldable pub alloc : SerializeBuffer → SerializeBuffer
alloc pooled = clear pooled

-- `memcmp(a, b, n) == 0`
unfoldable pub memcmp_equal : List ℕ → List ℕ → ℕ → Bool
memcmp_equal a b zero = true
memcmp_equal [] b (suc n) = false
memcmp_equal (x ∷ a) [] (suc n) = false
memcmp_equal (x ∷ a) (y ∷ b) (suc n) = let rest = memcmp_equal a b n in (x == y) && rest

-- what the request holds: `accNo`, `id`, `nickname` and `sessionKey`
pub record LoginRequest : Type 0 where
  pub acc_no : ℕ
  pub id : List ℕ
  pub nickname : List ℕ
  pub session_key : List ℕ

-- the four reads at the start of the case
unfoldable pub read_login : Outside → SerializeBuffer → LoginRequest
read_login o packet =
    let (acc_no, p1) = shr_unsigned_long_long o.acc_no packet in
    let (id, p2) = get_into o.id (2 * id_length) p1 in
    let (nickname, p3) = get_into o.nickname (2 * id_length) p2 in
    let (session_key, p4) = get_into o.session_key sessionkey_length p3 in
    record { acc_no = acc_no; id = id; nickname = nickname; session_key = session_key }

-- the test on the answer of Redis
unfoldable pub key_matches : Option (List ℕ) → List ℕ → Bool
key_matches none session_key = false
key_matches (some redis_data) session_key =
    (length redis_data == 64) && memcmp_equal redis_data session_key sessionkey_length

-- the player that both branches create and fill; `none` where a name does not end
unfoldable pub login_player : Outside → ℕ → WaitingSession → LoginRequest → Option Player
login_player o session_handle w q =
    let player = create_player session_handle q.acc_no o.rand_x o.rand_y o.pooled_player in
    elim (o.wcscpy_s player.id id_length q.id) [
      | none ↦ none
      | some id ↦ elim (o.wcscpy_s player.nickname id_length q.nickname) [
        | none ↦ none
        | some nickname ↦ some (record player {
          id = id;
          nickname = nickname;
          session_key = q.session_key;
          acc_no = q.acc_no;
          old_sector = void_sector;
          cur_sector = void_sector;
          last_recv = o.current_time;
          ip = w.ip;
          port = w.port;
        })
      ]
    ]

-- `resPacket` of `en_PACKET_CS_CHAT_RES_LOGIN`
unfoldable pub login_response : SerializeBuffer → ℕ → ℕ → List ℕ
login_response pooled status acc_no =
    contents (
      shl_unsigned_long_long acc_no
        (shl_unsigned_char status (shl_unsigned_short 2 (alloc pooled))))

-- the session that the account led to before is disconnected
unfoldable pub duplicate : Option ℕ → List Output
duplicate none = []
duplicate (some player_session_handle) = disconnect player_session_handle ∷ []

-- from the check for a duplicate login to the end of the case
unfoldable pub enter_player :
    Outside → ℕ → WaitingSession → LoginRequest → Chat → List Output × Chat
enter_player o session_handle w q c =
    let cut = duplicate (find q.acc_no c.sessions_acc_no) in
    let owned = record c { sessions_acc_no = put q.acc_no session_handle c.sessions_acc_no } in
    elim (login_player o session_handle w q) [
      | none ↦ (cut ++ (crash ∷ []), owned)
      | some player ↦ (
        cut ++ (send_packet session_handle (login_response o.pooled_packet 1 q.acc_no) ∷ []),
        record owned { players = put session_handle player c.players },
      )
    ]

-- the case for a login
unfoldable pub req_login : Outside → ℕ → SerializeBuffer → Chat → List Output × Chat
req_login o session_handle packet c =
    let q = read_login o packet in
    elim (find session_handle c.waiting) [
      | none ↦ (disconnect session_handle ∷ [], c)
      | some w ↦
          let left = record c { waiting = erase session_handle c.waiting } in
          if key_matches (o.redis_get (plain q.acc_no)) q.session_key
          then enter_player o session_handle w q left
          else (disconnect session_handle ∷ [], left)
    ]
