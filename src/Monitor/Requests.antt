-- ===== src/Monitor/Requests.antt =====
-- `OnRecv` and `Content_Proc` of MonitorServer/main.cpp: the logins of servers and of tools, and the
-- updates.
use iocpnet_module_mono_repo.Prelude.{
  ℕ, ◌+◌, ◌%◌, ◌^◌, List, [], ◌∷◌, ◌++◌, Bool, true, ◌==◌, ◌||◌, ltb, if◌then◌else◌, none, some,
  map, length,
}
use iocpnet_module_mono_repo.Prelude.Assoc.{find, erase, put}
use iocpnet_module_mono_repo.Packet.{
  SerializeBuffer, shr_word, shr_byte, shr_int, shl_unsigned_short, shl_unsigned_char, shl_int,
}
use iocpnet_module_mono_repo.Packet.Contents.{contents}
use iocpnet_module_mono_repo.Chat.Login.{get_into, alloc, memcmp_equal}
use iocpnet_module_mono_repo.Monitor.{
  MonitorServer, MonitorData, Client, MonitorTool, Locals, Output, disconnect, send_packet,
}

-- is this the number of a server that reports?
unfoldable pub is_server_no : ℕ → Bool
is_server_no n = n == 10 || n == 20 || n == 30

-- the case for the login of a server, once the session has been taken off those that wait
unfoldable pub enter_client : ℕ → ℕ → MonitorServer → List Output × MonitorServer
enter_client session_handle server_no s = elim (find server_no s.sessions_server_no) [
  | some owner ↦ (disconnect session_handle ∷ [], s)
  | none ↦
      let client : Client = record {
        session_handle = session_handle;
        server_no = server_no;
        sample_queue = [];
      } in
      (
        [],
        record s {
          sessions_server_no = put server_no session_handle s.sessions_server_no;
          clients = put session_handle client s.clients;
        },
      )
]

-- the case for the login of a server
unfoldable pub monitor_login :
    Locals → ℕ → SerializeBuffer → MonitorServer → List Output × MonitorServer
monitor_login l session_handle packet s = elim (find session_handle s.waiting) [
  | none ↦ (disconnect session_handle ∷ [], s)
  | some w ↦
      let left = record s { waiting = erase session_handle s.waiting } in
      let (server_no, rest) = shr_int l.server_no packet in
      if is_server_no server_no
      then enter_client session_handle server_no left
      else (disconnect session_handle ∷ [], left)
]

-- what goes out to one tool
unfoldable pub update_for : Locals → ℕ → ℕ → ℕ → ℕ → (ℕ × MonitorTool) → Output
update_for l server_no data_type data_value timestamp entry =
    let numbered =
      shl_unsigned_char (server_no % 2 ^ 8) (shl_unsigned_short 25003 (alloc l.pooled_packet)) in
    send_packet entry.1.session_handle
      (contents (shl_int timestamp (shl_int data_value (shl_unsigned_char data_type numbered))))

-- the update of a client that owns its number
unfoldable pub accept_update :
    Locals → ℕ → ℕ → ℕ → ℕ → Client → MonitorServer → List Output × MonitorServer
accept_update l session_handle data_type data_value timestamp client s =
    let sample : MonitorData = record { data_type = data_type; value = data_value } in
    let queued = record client { sample_queue = client.sample_queue ++ (sample ∷ []) } in
    (
      map (update_for l client.server_no data_type data_value timestamp) s.monitors,
      record s { clients = put session_handle queued s.clients },
    )

-- the update of a client, whose number some session must own
unfoldable pub check_owner :
    Locals → ℕ → ℕ → ℕ → ℕ → Client → MonitorServer → List Output × MonitorServer
check_owner l session_handle data_type data_value timestamp client s =
    elim (find client.server_no s.sessions_server_no) [
      | none ↦ (disconnect session_handle ∷ [], s)
      | some owner ↦
          if owner == session_handle
          then accept_update l session_handle data_type data_value timestamp client s
          else (disconnect session_handle ∷ [], s)
    ]

-- the case for an update
unfoldable pub data_update :
    Locals → ℕ → SerializeBuffer → MonitorServer → List Output × MonitorServer
data_update l session_handle packet s =
    let (data_type, p1) = shr_byte l.data_type packet in
    let (data_value, p2) = shr_int l.data_value p1 in
    let (timestamp, p3) = shr_int l.timestamp p2 in
    if ltb data_type 1 || ltb 44 data_type
    then (disconnect session_handle ∷ [], s)
    else elim (find session_handle s.clients) [
      | none ↦ (disconnect session_handle ∷ [], s)
      | some client ↦ check_owner l session_handle data_type data_value timestamp client s
    ]

-- the answer to the login of a tool
unfoldable pub tool_response : Locals → List ℕ
tool_response l = contents (shl_unsigned_char 1 (shl_unsigned_short 25002 (alloc l.pooled_packet)))

-- the login of a tool, once the session has been taken off those that wait
unfoldable pub enter_tool : Locals → ℕ → List ℕ → MonitorServer → List Output × MonitorServer
enter_tool l session_handle sessionkey s =
    if memcmp_equal sessionkey l.monitor_key 32
    then (if ltb 3 (length s.monitors) then (disconnect session_handle ∷ [], s) else (
      send_packet session_handle (tool_response l) ∷ [],
      record s {
        monitors =
            put session_handle (record { connect = true; session_handle = session_handle })
              s.monitors;
      },
    ))
    else (disconnect session_handle ∷ [], s)

-- the case for the login of a tool
unfoldable pub tool_login :
    Locals → ℕ → SerializeBuffer → MonitorServer → List Output × MonitorServer
tool_login l session_handle packet s = elim (find session_handle s.waiting) [
  | none ↦ (disconnect session_handle ∷ [], s)
  | some w ↦
      enter_tool l session_handle (get_into l.sessionkey 32 packet).0
        (record s { waiting = erase session_handle s.waiting })
]

-- `Content_Proc`
unfoldable pub content_proc :
    Locals → ℕ → ℕ → SerializeBuffer → MonitorServer → List Output × MonitorServer
content_proc l session_handle content_type packet s =
    if content_type == 20001
    then monitor_login l session_handle packet s
    else if content_type == 20002
    then data_update l session_handle packet s
    else if content_type == 25001
    then tool_login l session_handle packet s
    else (disconnect session_handle ∷ [], s)

-- `OnRecv`
unfoldable pub on_recv : Locals → ℕ → SerializeBuffer → MonitorServer → List Output × MonitorServer
on_recv l session_handle packet s =
    let (content_type, rest) = shr_word l.content_type packet in
    let (out, t) = content_proc l session_handle content_type rest s in
    (out, record t { update_tps = (t.update_tps + 1) % 2 ^ 32 })
