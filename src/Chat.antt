-- ===== src/Chat.antt =====
-- ChatServer/main.cpp, ChatServer/Player.h and ChatServer/Define.h: the state of the chat server
-- and the handlers that the network library calls when a session comes and goes. A `Player*` is
-- the handle of the player's session, which stays the same from `CreatePlayer` to
-- `DeletePlayer`; the handlers run one after another.
pub mod Login
pub mod Requests
pub mod Blacklist
pub mod Timers
pub mod Expiry
pub mod Invariant
pub mod Leaving
pub mod Entering
pub mod Handling
pub mod Runs
pub mod Moving
pub mod Grid
pub mod Multicast
mod Tests
use iocpnet_module_mono_repo.Prelude.{
  ℕ, suc, ◌+◌, ◌*◌, ◌%◌, ◌^◌, ◌||◌, List, [], ◌∷◌, Bool, true, false, ltb, ◌==◌, if◌then◌else◌,
  Option, none, some,
}
use iocpnet_module_mono_repo.Prelude.Assoc.{find, erase, put}
use iocpnet_module_mono_repo.Sector.{sector_max}
use iocpnet_module_mono_repo.Frame.Receive.{
  LeaveCode, none_set, wrong_header_code, wrong_header_len, wrong_header_checksum,
  wrong_recvpost_count, send_full,
}

-- `LOGIN_TIME_OUT_MS`
abbrev pub login_time_out_ms : ℕ
login_time_out_ms = 20000

-- `HEARTBEAT_TIME_OUT_MS`
abbrev pub heartbeat_time_out_ms : ℕ
heartbeat_time_out_ms = 60000

-- `ID_LENGTH` and `NICKNAME_LENGTH`
abbrev pub id_length : ℕ
id_length = 20

-- `MSG_LENGTH`
abbrev pub msg_length : ℕ
msg_length = 128

-- `SESSIONKEY_LENGTH`
abbrev pub sessionkey_length : ℕ
sessionkey_length = 64

-- `MAX_ACCEPT_TPS`
abbrev pub max_accept_tps : ℕ
max_accept_tps = 5001

-- `MAX_CONTENT_MSG` and `MAX_CONTENT_MOV`
abbrev pub max_content : ℕ
max_content = 30

pub record WaitingSession : Type 0 where
  pub accept_time : ℕ
  pub ip : ℕ
  pub port : ℕ

-- `max_tps` is kept plus 2 ^ 31, so that `INT_MIN` is 0.
pub record StatAcceptTps : Type 0 where
  pub curr_tps : ℕ
  pub max_tps_up : ℕ

-- A sector is its identifier; arrays of characters are their bytes.
pub record Player : Type 0 where
  pub session_handle : ℕ
  pub acc_no : ℕ
  pub x : ℕ
  pub y : ℕ
  pub front : ℕ
  pub hp : ℕ
  pub cur_sector : ℕ
  pub old_sector : ℕ
  pub nickname : List ℕ
  pub id : List ℕ
  pub session_key : List ℕ
  pub ip : ℕ
  pub port : ℕ
  pub need_sync : Bool
  pub tps_req_chat : ℕ
  pub tps_req_sector_move : ℕ
  pub req_login : ℕ
  pub last_recv : ℕ

-- `&sectorMap.voidSector`: a place behind those of the array
abbrev pub void_sector : ℕ
void_sector = sector_max * sector_max

-- `Player::CreatePlayer`, on the object `pooled` that the pool gives and two results of `rand()`
unfoldable pub create_player : ℕ → ℕ → ℕ → ℕ → Player → Player
create_player session_handle acc_no rand_x rand_y pooled = record pooled {
  session_handle = session_handle;
  acc_no = acc_no;
  need_sync = false;
  hp = 100;
  x = 1 + rand_x % 6398;
  y = 1 + rand_y % 6398;
  tps_req_sector_move = 0;
  tps_req_chat = 0;
  req_login = 0;
  last_recv = 0;
}

-- The globals of main.cpp and the members of `ChatServer`.
pub record Chat : Type 0 where
  pub waiting : List (ℕ × WaitingSession)
  pub players : List (ℕ × Player)
  pub sessions_acc_no : List (ℕ × ℕ)
  pub blacklist : List (ℕ × ℕ)
  pub tps_accept_list : List (ℕ × StatAcceptTps)
  pub sector_players : ℕ → List ℕ
  pub use_blacklist : Bool
  pub update_msg : ℕ
  pub sendfull_total : ℕ
  pub tps_msg_req_max : ℕ
  pub tps_mov_req_max : ℕ

-- What the handlers ask of the network library, and where they go wrong.
pub data Output : Type 0 where
  disconnect : ℕ → Output
  send_packet : ℕ → List ℕ → Output
  send_packet_multicast : List ℕ → List ℕ → Output
  debug_break : Output
  array_overrun : Output
  crash : Output

-- The process is down, or its stack is overwritten.
unfoldable pub is_down : List Output → Bool
is_down [] = false
is_down (array_overrun ∷ out) = true
is_down (crash ∷ out) = true
is_down (debug_break ∷ out) = true
is_down (_ ∷ out) = is_down out

-- the count of accepted connections of an address
unfoldable pub count_accept : ℕ → List (ℕ × StatAcceptTps) → List (ℕ × StatAcceptTps)
count_accept ip m = elim (find ip m) [
  | some stat ↦ put ip (record stat { curr_tps = stat.curr_tps + 1 }) m
  | none ↦ put ip (record { curr_tps = 1; max_tps_up = 0 }) m
]

-- `OnClientJoin`, at the time `now`
unfoldable pub on_client_join : ℕ → ℕ → ℕ → ℕ → Chat → Chat
on_client_join now session_handle ip port c = record c {
  tps_accept_list = count_accept ip c.tps_accept_list;
  waiting = put session_handle (record { accept_time = now; ip = ip; port = port }) c.waiting;
}

-- `OnConnectionRequest`
unfoldable pub on_connection_request : ℕ → Chat → Bool
on_connection_request ip c =
    if c.use_blacklist then elim (find ip c.blacklist) [ some port ↦ false | none ↦ true ] else true

-- `InsertBlacklist`
unfoldable pub insert_blacklist : ℕ → ℕ → Chat → Chat
insert_blacklist ip port c =
    if c.use_blacklist then record c { blacklist = put ip port c.blacklist } else c

-- `ClearBlacklist`
unfoldable pub clear_blacklist : Chat → Chat
clear_blacklist c = record c { blacklist = [] }

-- `std::list::remove` on the players of a sector
unfoldable pub remove : ℕ → List ℕ → List ℕ
remove p [] = []
remove p (q ∷ qs) = let rest = remove p qs in if p == q then rest else q ∷ rest

-- the player is taken off the list of one sector
unfoldable pub remove_from : ℕ → ℕ → (ℕ → List ℕ) → ℕ → List ℕ
remove_from sector p lists s = if s == sector then remove p (lists s) else lists s

-- the account is forgotten if it leads to the session that leaves
unfoldable pub forget_account : ℕ → ℕ → List (ℕ × ℕ) → List (ℕ × ℕ)
forget_account session_handle acc_no accounts = elim (find acc_no accounts) [
  | some owner ↦ if owner == session_handle then erase acc_no accounts else accounts
  | none ↦ accounts
]

-- the part of `OnClientLeave` on a session that has logged in
unfoldable pub leave_player : ℕ → Player → Chat → Chat
leave_player session_handle player c = record c {
  players = erase session_handle c.players;
  sector_players = remove_from player.cur_sector session_handle c.sector_players;
  sessions_acc_no = forget_account session_handle player.acc_no c.sessions_acc_no;
}

-- what `OnClientLeave` does about the reason for leaving
unfoldable pub leave_for : LeaveCode → ℕ → ℕ → Chat → Chat
leave_for none_set ip port c = c
leave_for send_full ip port c = record c { sendfull_total = (c.sendfull_total + 1) % 2 ^ 32 }
leave_for wrong_header_code ip port c = insert_blacklist ip port c
leave_for wrong_header_len ip port c = insert_blacklist ip port c
leave_for wrong_header_checksum ip port c = insert_blacklist ip port c
leave_for wrong_recvpost_count ip port c = insert_blacklist ip port c

-- `OnClientLeave`
unfoldable pub on_client_leave : ℕ → LeaveCode → ℕ → ℕ → Chat → Chat
on_client_leave session_handle code ip port c =
    let waiting_left = record c { waiting = erase session_handle c.waiting } in
    leave_for code ip port (elim (find session_handle waiting_left.players) [
      | some player ↦ leave_player session_handle player waiting_left
      | none ↦ waiting_left
    ])
