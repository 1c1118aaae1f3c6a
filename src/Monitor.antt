-- ===== src/Monitor.antt =====
-- MonitorServer/main.cpp with Client.h, MonitorTool.h, MonitorData.h and Define.h: the tables of
-- the monitor server, its handlers and the messages of its content thread. The handlers run one
-- after another.
pub mod Requests
pub mod Samples
pub mod Owners
pub mod Runs
mod Tests
pub mod Steps
use iocpnet_module_mono_repo.Prelude.{
  ℕ, ◌+◌, ◌%◌, ◌^◌, List, [], ◌∷◌, ◌++◌, Bool, true, false, ◌==◌, ◌||◌, ltb, if◌then◌else◌, Option,
  none, some, map, length,
}
use iocpnet_module_mono_repo.Prelude.Assoc.{find, erase, put}
use iocpnet_module_mono_repo.Packet.{
  SerializeBuffer, shr_word, shr_byte, shr_int, shl_unsigned_short, shl_unsigned_char, shl_int,
}
use iocpnet_module_mono_repo.Packet.Contents.{contents}
use iocpnet_module_mono_repo.Frame.Receive.{
  LeaveCode, none_set, wrong_header_code, wrong_header_len, wrong_header_checksum,
  wrong_recvpost_count, send_full,
}
use iocpnet_module_mono_repo.Chat.{WaitingSession, StatAcceptTps, count_accept}
use iocpnet_module_mono_repo.Chat.Login.{get_into, alloc, memcmp_equal}

-- `MonitorData`; the value as its 32 bits
pub record MonitorData : Type 0 where
  pub data_type : ℕ
  pub value : ℕ

-- `Client`, with its queue from the front
pub record Client : Type 0 where
  pub session_handle : ℕ
  pub server_no : ℕ
  pub sample_queue : List MonitorData

-- `MonitorTool`
pub record MonitorTool : Type 0 where
  pub connect : Bool
  pub session_handle : ℕ

-- The members of `MonitorServer`; a message of the content thread is its type and its session,
-- `update_tps` stands for its 32 bits.
pub record MonitorServer : Type 0 where
  pub waiting : List (ℕ × WaitingSession)
  pub blacklist : List (ℕ × ℕ)
  pub clients : List (ℕ × Client)
  pub client_content_queue : List (ℕ × ℕ)
  pub monitors : List (ℕ × MonitorTool)
  pub sessions_server_no : List (ℕ × ℕ)
  pub tps_accept_list : List (ℕ × StatAcceptTps)
  pub use_blacklist : Bool
  pub update_tps : ℕ

-- What the handlers ask of the network library.
pub data Output : Type 0 where
  disconnect : ℕ → Output
  send_packet : ℕ → List ℕ → Output

-- What a handler finds in its uninitialised local variables and in the pooled packet, and the
-- bytes of `MONITOR_KEY`.
pub record Locals : Type 0 where
  pub content_type : ℕ
  pub server_no : ℕ
  pub data_type : ℕ
  pub data_value : ℕ
  pub timestamp : ℕ
  pub sessionkey : List ℕ
  pub pooled_packet : SerializeBuffer
  pub monitor_key : List ℕ

-- `OnClientJoin`
unfoldable pub on_client_join : ℕ → ℕ → ℕ → ℕ → MonitorServer → MonitorServer
on_client_join now session_handle ip port s = record s {
  tps_accept_list = count_accept ip s.tps_accept_list;
  waiting = put session_handle (record { accept_time = now; ip = ip; port = port }) s.waiting;
}

-- `InsertBlacklist`
unfoldable pub insert_blacklist : ℕ → ℕ → MonitorServer → MonitorServer
insert_blacklist ip port s =
    let entered = put ip port s.blacklist in
    record s { blacklist = if s.use_blacklist then entered else s.blacklist }

-- the end of `OnClientLeave`
unfoldable pub leave_for : LeaveCode → ℕ → ℕ → MonitorServer → MonitorServer
leave_for none_set ip port s = s
leave_for send_full ip port s = s
leave_for wrong_header_code ip port s = insert_blacklist ip port s
leave_for wrong_header_len ip port s = insert_blacklist ip port s
leave_for wrong_header_checksum ip port s = insert_blacklist ip port s
leave_for wrong_recvpost_count ip port s = insert_blacklist ip port s

-- the middle of `OnClientLeave`: a tool is removed, anything else is left to the content thread
unfoldable pub leave_monitor : ℕ → MonitorServer → MonitorServer
leave_monitor session_handle s = elim (find session_handle s.monitors) [
  | some monitor ↦ record s { monitors = erase session_handle s.monitors }
  | none ↦ record s { client_content_queue = s.client_content_queue ++ ((1, session_handle) ∷ []) }
]

-- `OnClientLeave`
unfoldable pub on_client_leave : ℕ → LeaveCode → ℕ → ℕ → MonitorServer → MonitorServer
on_client_leave session_handle code ip port s =
    leave_for code ip port
      (leave_monitor session_handle (record s { waiting = erase session_handle s.waiting }))

-- the message `LEAVE` of the content thread
unfoldable pub leave_client : ℕ → MonitorServer → MonitorServer
leave_client session_handle s = elim (find session_handle s.clients) [
  | none ↦ s
  | some client ↦ record s {
    clients = erase session_handle s.clients;
    sessions_server_no = erase client.server_no s.sessions_server_no;
  }
]

-- one message of the content thread: `ENTER` is 0 and `LEAVE` is 1
unfoldable pub take_message : ℕ × ℕ → MonitorServer → List Output × MonitorServer
take_message (type, session_handle) s =
    if type == 0
    then ([], s)
    else if type == 1
    then ([], leave_client session_handle s)
    else (disconnect session_handle ∷ [], s)

-- the loop of the content thread over the queue, which holds these messages
unfoldable pub take_messages : List (ℕ × ℕ) → MonitorServer → List Output × MonitorServer
take_messages [] s = ([], record s { client_content_queue = [] })
take_messages (m ∷ ms) s =
    let (out, t) = take_message m s in let (outs, u) = take_messages ms t in (out ++ outs, u)
