-- ===== src/Login.antt =====
-- LoginServer/main.cpp and LoginServer/Define.h: the tables of the login server, its handlers and
-- its timers. The handlers run one after another.
pub mod Logins
pub mod Handoff
mod Tests
use iocpnet_module_mono_repo.Prelude.{
  ℕ, ◌+◌, ◌*◌, ◌-◌, ◌%◌, ◌^◌, ltb, List, [], ◌∷◌, Bool, true, false, ◌==◌, if◌then◌else◌, Option,
  none, some, map,
}
use iocpnet_module_mono_repo.Prelude.Assoc.{find, erase, put}
use iocpnet_module_mono_repo.Packet.{
  SerializeBuffer, put_data, shr_int64, shr_word, shl_unsigned_short, shl_int64, shl_unsigned_char,
}
use iocpnet_module_mono_repo.Packet.Contents.{contents}
use iocpnet_module_mono_repo.Frame.Receive.{
  LeaveCode, none_set, wrong_header_code, wrong_header_len, wrong_header_checksum,
  wrong_recvpost_count, send_full,
}
use iocpnet_module_mono_repo.Chat.{WaitingSession, StatAcceptTps, count_accept}
use iocpnet_module_mono_repo.Chat.Login.{KeyString, plain, minus, get_into, alloc}
use iocpnet_module_mono_repo.Chat.Timers.{is_over}

-- `SUCC_TIME_OUT_MS`
abbrev pub succ_time_out_ms : ℕ
succ_time_out_ms = 3000

-- `LOGIN_TIME_OUT_MS`
abbrev pub login_time_out_ms : ℕ
login_time_out_ms = 20000

-- `SESSIONKEY_LENGTH`
abbrev pub sessionkey_length : ℕ
sessionkey_length = 64

-- The addresses that a client is sent on to, as the 32 bytes of their strings.
pub record Addresses : Type 0 where
  pub game_server_ip : List ℕ
  pub game_server_port : ℕ
  pub chat_server_ip : List ℕ
  pub chat_server_port : ℕ
  pub chat_server_ip_dummy_1 : List ℕ
  pub chat_server_ip_dummy_2 : List ℕ
  pub chat_server_ip_dummy_3 : List ℕ
  pub dummy_ip_1 : ℕ
  pub dummy_ip_2 : ℕ
  pub dummy_ip_3 : ℕ

-- The globals of main.cpp and the members of `LoginServer`; `tps_auth` as its 32 bits.
pub record LoginServer : Type 0 where
  pub waiting : List (ℕ × WaitingSession)
  pub succ : List (ℕ × WaitingSession)
  pub blacklist : List (ℕ × ℕ)
  pub tps_accept_list : List (ℕ × StatAcceptTps)
  pub use_blacklist : Bool
  pub tps_auth : ℕ
  pub addresses : Addresses

-- What the handlers ask of the network library and of Redis.
pub data Output : Type 0 where
  disconnect : ℕ → Output
  send_packet : ℕ → List ℕ → Output
  redis_set : (account : KeyString) → (key : List ℕ) → (seconds : ℕ) → Output

-- What a handler finds in its uninitialised local variables and in the pooled packet, and the time.
pub record Locals : Type 0 where
  pub account_no : ℕ
  pub session_key : List ℕ
  pub id : List ℕ
  pub nickname : List ℕ
  pub content_type : ℕ
  pub pooled_packet : SerializeBuffer
  pub now : ℕ

-- `OnClientJoin`
unfoldable pub on_client_join : ℕ → ℕ → ℕ → ℕ → LoginServer → LoginServer
on_client_join now session_handle ip port s = record s {
  tps_accept_list = count_accept ip s.tps_accept_list;
  waiting = put session_handle (record { accept_time = now; ip = ip; port = port }) s.waiting;
}

-- `InsertBlacklist`
unfoldable pub insert_blacklist : ℕ → ℕ → LoginServer → LoginServer
insert_blacklist ip port s =
    if s.use_blacklist then record s { blacklist = put ip port s.blacklist } else s

-- `ClearBlacklist`
unfoldable pub clear_blacklist : LoginServer → LoginServer
clear_blacklist s = record s { blacklist = [] }

-- `OnConnectionRequest`
unfoldable pub on_connection_request : ℕ → LoginServer → Bool
on_connection_request ip s =
    if s.use_blacklist then elim (find ip s.blacklist) [ some port ↦ false | none ↦ true ] else true

-- what `OnClientLeave` does about the reason for leaving
unfoldable pub leave_for : LeaveCode → ℕ → ℕ → LoginServer → LoginServer
leave_for none_set ip port s = s
leave_for send_full ip port s = s
leave_for wrong_header_code ip port s = insert_blacklist ip port s
leave_for wrong_header_len ip port s = insert_blacklist ip port s
leave_for wrong_header_checksum ip port s = insert_blacklist ip port s
leave_for wrong_recvpost_count ip port s = insert_blacklist ip port s

-- `OnClientLeave`
unfoldable pub on_client_leave : ℕ → LeaveCode → ℕ → ℕ → LoginServer → LoginServer
on_client_leave session_handle code ip port s =
    leave_for code ip port
      (record s { waiting = erase session_handle s.waiting; succ = erase session_handle s.succ })

-- the chat server that a client is sent on to
unfoldable pub chat_server_for : ℕ → Addresses → List ℕ
chat_server_for ip a =
    if ip == a.dummy_ip_1
    then a.chat_server_ip_dummy_1
    else if ip == a.dummy_ip_2
    then a.chat_server_ip_dummy_2
    else if ip == a.dummy_ip_3
    then a.chat_server_ip_dummy_3
    else a.chat_server_ip

-- `sendpacket`; `status` is `dfLOGIN_STATUS_OK`
unfoldable pub login_response : Locals → ℕ → ℕ → Addresses → List ℕ
login_response l account_no ip a =
    let numbered =
      shl_unsigned_char 1 (shl_int64 account_no (shl_unsigned_short 102 (alloc l.pooled_packet))) in
    let named = (put_data l.nickname (put_data l.id numbered).1).1 in
    let game = shl_unsigned_short a.game_server_port (put_data a.game_server_ip named).1 in
    contents (shl_unsigned_short a.chat_server_port (put_data (chat_server_for ip a) game).1)

-- what the request holds: the account and the key
unfoldable pub read_login : Locals → SerializeBuffer → ℕ × List ℕ
read_login l packet =
    let (account_no, rest) = shr_int64 l.account_no packet in
    (account_no, (get_into l.session_key sessionkey_length rest).0)

-- `std::to_string` of an `int64_t`, from its 64 bits
unfoldable pub to_string : ℕ → KeyString
to_string n = if ltb n (2 ^ 63) then plain n else minus (2 ^ 64 - n)

-- the case of `Content_Proc` for `en_PACKET_CS_LOGIN_REQ_LOGIN`
unfoldable pub req_login : Locals → ℕ → SerializeBuffer → LoginServer → List Output × LoginServer
req_login l session_handle packet s = elim (find session_handle s.waiting) [
  | none ↦ (disconnect session_handle ∷ [], s)
  | some w ↦
      let (account_no, session_key) = read_login l packet in
      (
        redis_set (to_string account_no) session_key 30
            ∷ send_packet session_handle (login_response l account_no w.ip s.addresses)
            ∷ [],
        record s {
          waiting = erase session_handle s.waiting;
          succ = put session_handle (record { accept_time = l.now; ip = 0; port = 0 }) s.succ;
          tps_auth = (s.tps_auth + 1) % 2 ^ 32;
        },
      )
]

-- `OnRecv` and `Content_Proc`; a packet of another type is passed over
unfoldable pub on_recv : Locals → ℕ → SerializeBuffer → LoginServer → List Output × LoginServer
on_recv l session_handle packet s =
    let (content_type, rest) = shr_word l.content_type packet in
    if content_type == 101 then req_login l session_handle rest s else ([], s)

-- the loops of `Login_Timeout` and `Succ_Timeout`
unfoldable pub expired : ℕ → ℕ → List (ℕ × WaitingSession) → List ℕ
expired limit now [] = []
expired limit now (e ∷ m) =
    let rest = expired limit now m in if is_over limit now e.1.accept_time then e.0 ∷ rest else rest

-- one round of `ContentThread`
unfoldable pub content_round : ℕ → LoginServer → List ℕ × List ℕ
content_round now s = (expired login_time_out_ms now s.waiting, expired succ_time_out_ms now s.succ)
