-- ===== src/Monitor/Steps.antt =====
-- Each handler of MonitorServer/main.cpp keeps the agreement of its tables.
use iocpnet_module_mono_repo.Prelude.{
  ℕ, ◌≡◌, inl, inr, refl, List, [], ◌∷◌, ◌++◌, none, some, ◌==◌, ◌||◌, ltb, Option-cases,
  Bool-cases, length,
}
use iocpnet_module_mono_repo.Prelude.Assoc.{find, erase, find-erase_self}
use iocpnet_module_mono_repo.Packet.{SerializeBuffer, shr_int, shr_byte, shr_word}
use iocpnet_module_mono_repo.Frame.Receive.{
  LeaveCode, none_set, wrong_header_code, wrong_header_len, wrong_header_checksum,
  wrong_recvpost_count, send_full,
}
use iocpnet_module_mono_repo.Chat.Login.{get_into, memcmp_equal}
use iocpnet_module_mono_repo.Monitor.{
  MonitorServer, Client, MonitorData, Locals, on_client_join, insert_blacklist, leave_for,
  leave_monitor, on_client_leave, leave_client, take_message, take_messages,
}
use iocpnet_module_mono_repo.Monitor.Requests.{
  content_proc, is_server_no, enter_client, monitor_login, accept_update, check_owner, data_update,
  enter_tool, tool_login, on_recv,
}
use iocpnet_module_mono_repo.Monitor.Owners.{
  IsOwned, erase_waiting, put_waiting, put_client, new_owner, drop_client,
}

pub on_client_join-IsOwned :
    (now h ip port : ℕ) (s : MonitorServer)
    → find h s.clients ≡ none
    → IsOwned s
    → IsOwned (on_client_join now h ip port s)
unfolding on_client_join
on_client_join-IsOwned now h ip port s new i =
    put_waiting h (record { accept_time = now; ip = ip; port = port }) new i

leave_for-IsOwned :
    (code : LeaveCode) (ip port : ℕ) (s : MonitorServer)
    → IsOwned s
    → IsOwned (leave_for code ip port s)
unfolding leave_for insert_blacklist
leave_for-IsOwned none_set ip port s i = i
leave_for-IsOwned send_full ip port s i = i
leave_for-IsOwned wrong_header_code ip port s i = i
leave_for-IsOwned wrong_header_len ip port s i = i
leave_for-IsOwned wrong_header_checksum ip port s i = i
leave_for-IsOwned wrong_recvpost_count ip port s i = i

leave_monitor-IsOwned : (h : ℕ) (s : MonitorServer) → IsOwned s → IsOwned (leave_monitor h s)
unfolding leave_monitor
leave_monitor-IsOwned h s i = elim (Option-cases (find h s.monitors)) [
  | inl e ↦ rw (leave_monitor, e) i
  | inr (m, e) ↦ rw (leave_monitor, e) i
]

pub on_client_leave-IsOwned :
    (h : ℕ) (code : LeaveCode) (ip port : ℕ) (s : MonitorServer)
    → IsOwned s
    → IsOwned (on_client_leave h code ip port s)
unfolding on_client_leave
on_client_leave-IsOwned h code ip port s i =
    let left = record s { waiting = erase h s.waiting } in
    leave_for-IsOwned code ip port (leave_monitor h left)
      (leave_monitor-IsOwned h left (erase_waiting h i))

enter_client-IsOwned :
    (h n : ℕ) (s : MonitorServer)
    → find h s.waiting ≡ none
    → find h s.clients ≡ none
    → IsOwned s
    → IsOwned (enter_client h n s).1
unfolding enter_client
enter_client-IsOwned h n s waits_not new i = elim (Option-cases (find n s.sessions_server_no)) [
  | inr (o, e) ↦ rw (enter_client, e) i
  | inl e ↦
      let c : Client = record { session_handle = h; server_no = n; sample_queue = [] } in
      rw (enter_client, e) (new_owner h n c waits_not new refl i)
]

monitor_login-IsOwned :
    (l : Locals) (h : ℕ) (packet : SerializeBuffer) (s : MonitorServer)
    → IsOwned s
    → IsOwned (monitor_login l h packet s).1
unfolding monitor_login
monitor_login-IsOwned l h packet s i = elim (Option-cases (find h s.waiting)) [
  | inl e ↦ rw (monitor_login, e) i
  | inr (w, e) ↦
      let n : ℕ = (shr_int l.server_no packet).0 in
      let left = record s { waiting = erase h s.waiting } in
      elim (Bool-cases (is_server_no n)) [
        | inl good ↦
            rw (monitor_login, e, good)
              (enter_client-IsOwned h n left (find-erase_self h s.waiting) (i.apart h w e)
                (erase_waiting h i))
        | inr bad ↦ rw (monitor_login, e, bad) (erase_waiting h i)
      ]
]

check_owner-IsOwned :
    (l : Locals) (h t v stamp : ℕ) (c : Client) (s : MonitorServer)
    → find h s.clients ≡ some c
    → IsOwned s
    → IsOwned (check_owner l h t v stamp c s).1
unfolding check_owner accept_update
check_owner-IsOwned l h t v stamp c s here i =
    elim (Option-cases (find c.server_no s.sessions_server_no)) [
      | inl e ↦ rw (check_owner, e) i
      | inr (o, e) ↦ elim (Bool-cases (o == h)) [
        | inl good ↦
            let sample : MonitorData = record { data_type = t; value = v } in
            rw (check_owner, e, good)
              (put_client h c (record c { sample_queue = c.sample_queue ++ (sample ∷ []) }) here
                refl i)
        | inr bad ↦ rw (check_owner, e, bad) i
      ]
    ]

data_update-IsOwned :
    (l : Locals) (h : ℕ) (packet : SerializeBuffer) (s : MonitorServer)
    → IsOwned s
    → IsOwned (data_update l h packet s).1
unfolding data_update
data_update-IsOwned l h packet s i =
    let (t, p1) = shr_byte l.data_type packet in
    let (v, p2) = shr_int l.data_value p1 in
    let (stamp, p3) = shr_int l.timestamp p2 in
    elim (Bool-cases (ltb t 1 || ltb 44 t)) [
      | inl out ↦ rw (data_update, out) i
      | inr within ↦ elim (Option-cases (find h s.clients)) [
        | inl e ↦ rw (data_update, within, e) i
        | inr (c, e) ↦ rw (data_update, within, e) (check_owner-IsOwned l h t v stamp c s e i)
      ]
    ]

enter_tool-IsOwned :
    (l : Locals) (h : ℕ) (key : List ℕ) (s : MonitorServer)
    → IsOwned s
    → IsOwned (enter_tool l h key s).1
unfolding enter_tool
enter_tool-IsOwned l h key s i = elim (Bool-cases (memcmp_equal key l.monitor_key 32)) [
  | inr bad ↦ rw (enter_tool, bad) i
  | inl good ↦ elim (Bool-cases (ltb 3 (length s.monitors))) [
    | inl full ↦ rw (enter_tool, good, full) i
    | inr room ↦ rw (enter_tool, good, room) i
  ]
]

tool_login-IsOwned :
    (l : Locals) (h : ℕ) (packet : SerializeBuffer) (s : MonitorServer)
    → IsOwned s
    → IsOwned (tool_login l h packet s).1
unfolding tool_login
tool_login-IsOwned l h packet s i = elim (Option-cases (find h s.waiting)) [
  | inl e ↦ rw (tool_login, e) i
  | inr (w, e) ↦
      rw (tool_login, e)
        (enter_tool-IsOwned l h (get_into l.sessionkey 32 packet).0
          (record s { waiting = erase h s.waiting }) (erase_waiting h i))
]

content_proc-IsOwned :
    (l : Locals) (h t : ℕ) (packet : SerializeBuffer) (s : MonitorServer)
    → IsOwned s
    → IsOwned (content_proc l h t packet s).1
unfolding content_proc
content_proc-IsOwned l h t packet s i = elim (Bool-cases (t == 20001)) [
  | inl a ↦ rw (content_proc, a) (monitor_login-IsOwned l h packet s i)
  | inr na ↦ elim (Bool-cases (t == 20002)) [
    | inl b ↦ rw (content_proc, na, b) (data_update-IsOwned l h packet s i)
    | inr nb ↦ elim (Bool-cases (t == 25001)) [
      | inl c ↦ rw (content_proc, na, nb, c) (tool_login-IsOwned l h packet s i)
      | inr nc ↦ rw (content_proc, na, nb, nc) i
    ]
  ]
]

pub on_recv-IsOwned :
    (l : Locals) (h : ℕ) (packet : SerializeBuffer) (s : MonitorServer)
    → IsOwned s
    → IsOwned (on_recv l h packet s).1
unfolding on_recv
on_recv-IsOwned l h packet s i =
    let (t, rest) = shr_word l.content_type packet in content_proc-IsOwned l h t rest s i

leave_client-IsOwned : (h : ℕ) (s : MonitorServer) → IsOwned s → IsOwned (leave_client h s)
unfolding leave_client
leave_client-IsOwned h s i = elim (Option-cases (find h s.clients)) [
  | inl e ↦ rw (leave_client, e) i
  | inr (c, e) ↦ rw (leave_client, e) (drop_client h c e i)
]

take_message-IsOwned : (m : ℕ × ℕ) (s : MonitorServer) → IsOwned s → IsOwned (take_message m s).1
unfolding take_message
take_message-IsOwned (t, h) s i = elim (Bool-cases (t == 0)) [
  | inl a ↦ rw (take_message, a) i
  | inr na ↦ elim (Bool-cases (t == 1)) [
    | inl b ↦ rw (take_message, na, b) (leave_client-IsOwned h s i)
    | inr nb ↦ rw (take_message, na, nb) i
  ]
]

pub take_messages-IsOwned :
    (ms : List (ℕ × ℕ)) (s : MonitorServer) → IsOwned s → IsOwned (take_messages ms s).1
unfolding take_messages
take_messages-IsOwned [] s i = i
take_messages-IsOwned (m ∷ ms) s i =
    take_messages-IsOwned ms (take_message m s).1 (take_message-IsOwned m s i)
