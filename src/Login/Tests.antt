-- ===== src/Login/Tests.antt =====
-- A client that logs in with the login server and then with the chat server.
use iocpnet_module_mono_repo.Prelude.{
  ℕ, zero, suc, ◌<◌, ◌^◌, arith, ◌≡◌, ◌≢◌, ◌⊎◌, refl, List, [], ◌∷◌, ◌++◌, true, false, none, some,
  length,
}
use iocpnet_module_mono_repo.Prelude.Assoc.{find}
use iocpnet_module_mono_repo.Prelude.Memory.{read, copy_in}
use iocpnet_module_mono_repo.Packet.{
  SerializeBuffer, make, put_data, bytes_of, value_of, read_scalar, get_data, shr_int64,
  shr_unsigned_long_long,
}
use iocpnet_module_mono_repo.Chat.{Chat, Player, WaitingSession}
use iocpnet_module_mono_repo.Chat.Login.{Outside, LoginRequest, login_player, get_into}
use iocpnet_module_mono_repo.Chat
use iocpnet_module_mono_repo.Chat.Login
use iocpnet_module_mono_repo.Login.{
  LoginServer, Locals, disconnect, send_packet, redis_set, to_string, req_login, read_login,
  login_response,
}
use iocpnet_module_mono_repo.Login.Logins.{req_login-once}
use iocpnet_module_mono_repo.Login.Handoff.{stored_by, req_login-handoff}

abbrev zeros : ℕ → List ℕ
zeros zero = []
zeros (suc n) = 0 ∷ zeros n

abbrev blank : Player
blank = record {
  session_handle = 0;
  acc_no = 0;
  x = 0;
  y = 0;
  front = 0;
  hp = 0;
  cur_sector = 0;
  old_sector = 0;
  nickname = [];
  id = [];
  session_key = [];
  ip = 0;
  port = 0;
  need_sync = false;
  tps_req_chat = 0;
  tps_req_sector_move = 0;
  req_login = 0;
  last_recv = 0;
}

abbrev fresh : SerializeBuffer
unfolding make
fresh = make (λ i. 0)

abbrev packet_of : List ℕ → SerializeBuffer
unfolding put_data
packet_of bytes = (put_data bytes fresh).1

-- account 7 with a key of 64 zeros, for the login server
abbrev first_bytes : List ℕ
unfolding bytes_of
first_bytes = bytes_of 8 7 ++ zeros 64

abbrev locals : Locals
locals = record {
  account_no = 0;
  session_key = [];
  id = [];
  nickname = [];
  content_type = 0;
  pooled_packet = fresh;
  now = 500;
}

abbrev one_waits : WaitingSession
one_waits = record { accept_time = 100; ip = 16777343; port = 80 }

abbrev server : LoginServer
server = record {
  waiting = (5, one_waits) ∷ [];
  succ = [];
  blacklist = [];
  tps_accept_list = [];
  use_blacklist = true;
  tps_auth = 0;
  addresses = record {
    game_server_ip = zeros 32;
    game_server_port = 0;
    chat_server_ip = zeros 32;
    chat_server_port = 6000;
    chat_server_ip_dummy_1 = zeros 32;
    chat_server_ip_dummy_2 = zeros 32;
    chat_server_ip_dummy_3 = zeros 32;
    dummy_ip_1 = 1;
    dummy_ip_2 = 2;
    dummy_ip_3 = 3;
  };
}

req_login-once_example :
    let (out, s') = req_login locals 5 (packet_of first_bytes) server in
    let (account_no, session_key) = read_login locals (packet_of first_bytes) in
    (req_login locals 5 fresh s' ≡ (disconnect 5 ∷ [], s'))
    × (((find 5 server.waiting ≡ none) × (out ≡ disconnect 5 ∷ []))
        ⊎ ((w : WaitingSession) × (find 5 server.waiting ≡ some w)
            × (out
                ≡ redis_set (to_string account_no) session_key 30
                  ∷ send_packet 5 (login_response locals account_no w.ip server.addresses)
                  ∷ [])
            × (find 5 s'.succ ≡ some (record { accept_time = locals.now; ip = 0; port = 0 }))))
req_login-once_example = req_login-once locals locals 5 (packet_of first_bytes) fresh server

-- Redis answers account 7 with the key that was stored.
abbrev outside : Outside
outside = record {
  acc_no = 0;
  id = [];
  nickname = [];
  session_key = [];
  sector_x = 0;
  sector_y = 0;
  message_len = 0;
  message = [];
  content_type = 0;
  pooled_player = blank;
  pooled_packet = fresh;
  rand_x = 4;
  rand_y = 2;
  current_time = 1000;
  redis_get = stored_by (req_login locals 5 (packet_of first_bytes) server).0 (λ key. none);
  wcscpy_s = λ old size src. some src;
}

abbrev second_bytes : List ℕ
unfolding bytes_of
second_bytes = bytes_of 8 7 ++ zeros 144

abbrev chat : Chat
chat = record {
  waiting = (9, one_waits) ∷ [];
  players = [];
  sessions_acc_no = [];
  blacklist = [];
  tps_accept_list = [];
  sector_players = λ s. [];
  use_blacklist = true;
  update_msg = 0;
  sendfull_total = 0;
  tps_msg_req_max = 0;
  tps_mov_req_max = 0;
}

one_account :
    (Chat.Login.read_login outside (packet_of second_bytes)).acc_no
    ≡ (read_login locals (packet_of first_bytes)).0
unfolding Chat.Login.read_login read_login shr_unsigned_long_long shr_int64 read_scalar value_of
    get_data read copy_in get_into bytes_of put_data make
one_account = refl

account_narrow : (read_login locals (packet_of first_bytes)).0 < 2 ^ 63
unfolding read_login shr_int64 read_scalar value_of get_data read copy_in get_into bytes_of put_data
    make
account_narrow = omega arith

waits_at_login : find 5 server.waiting ≡ some one_waits
unfolding find
waits_at_login = refl

stored_full : length (read_login locals (packet_of first_bytes)).1 ≡ 64
unfolding read_login shr_int64 read_scalar value_of get_data read copy_in get_into bytes_of put_data
    make
stored_full = refl

key_full : length (Chat.Login.read_login outside (packet_of second_bytes)).session_key ≡ 64
unfolding Chat.Login.read_login shr_unsigned_long_long read_scalar value_of get_data read copy_in
    get_into bytes_of put_data make
key_full = refl

waits_at_chat : find 9 chat.waiting ≡ some one_waits
unfolding find
waits_at_chat = refl

abbrev request : LoginRequest
request = Chat.Login.read_login outside (packet_of second_bytes)

abbrev entrant : Player
entrant = record (Chat.create_player 9 request.acc_no 4 2 blank) {
  id = request.id;
  nickname = request.nickname;
  session_key = request.session_key;
  acc_no = request.acc_no;
  old_sector = Chat.void_sector;
  cur_sector = Chat.void_sector;
  last_recv = 1000;
  ip = one_waits.ip;
  port = one_waits.port;
}

entrant_named : login_player outside 9 one_waits request ≡ some entrant
unfolding login_player Chat.create_player
entrant_named = refl

req_login-handoff_example :
    let (account_no, stored) = read_login locals (packet_of first_bytes) in
    let (out, d) = Chat.Login.req_login outside 9 (packet_of second_bytes) chat in
    ((stored ≡ request.session_key)
      × (find 9 d.players ≡ some entrant)
      × (find account_no d.sessions_acc_no ≡ some 9))
    ⊎ ((stored ≢ request.session_key) × (out ≡ Chat.disconnect 9 ∷ []) × (d.players ≡ chat.players))
req_login-handoff_example =
    req_login-handoff locals outside 5 9 (packet_of first_bytes) (packet_of second_bytes) one_waits
      one_waits entrant server chat (λ key. none) waits_at_login account_narrow (λ key. refl)
      one_account stored_full key_full waits_at_chat entrant_named
