-- ===== src/Session/Tests.antt =====
-- A server with two places for sessions, and the theorems at it.
use iocpnet_module_mono_repo.Prelude.{
  ℕ, ◌+◌, ◌<◌, ◌≡◌, ◌≢◌, refl, arith, [], ◌∷◌, ◌++◌, ◌-◌, ◌%◌, ◌^◌, true, false, some, none, ◌==◌,
  if◌then◌else◌, ◌⊎◌,
}
use iocpnet_module_mono_repo.Ring.{RingBuffer}
use iocpnet_module_mono_repo.Ring.Contents.{IsValid}
use iocpnet_module_mono_repo.Frame.Receive.{none_set}
use iocpnet_module_mono_repo.Session.Released.{IsClosed, release_session-on_leave}
use iocpnet_module_mono_repo.Session.Worker.{on_leave}
use iocpnet_module_mono_repo.Session.{release_session, close_socket, post_leave, client_leave}
use iocpnet_module_mono_repo.Session.Server.{put_session}
use iocpnet_module_mono_repo.Session.{
  Session, Shared, release_io_count, create_session_handle, decode_session_handle, decode_io_count,
}
use iocpnet_module_mono_repo.Session.Server.{Server, find_session, return_session}
use iocpnet_module_mono_repo.Session.Finding.{find-return, users}
use iocpnet_module_mono_repo.Session.Counting.{
  Counter, connected, step, enters, leaves, enter, leave, try_release, IsCounted,
  Reachable-IsCounted, enter-released, Reachable-released,
}
use iocpnet_module_mono_repo.Frame.{NetConfig}
use iocpnet_module_mono_repo.Session.Server.{disconnect}
use iocpnet_module_mono_repo.Session.Life.{Place, entered, called, enters}
use iocpnet_module_mono_repo.Session.Packets.{occurrences}
use iocpnet_module_mono_repo.Session.Multicast.{send_packet_multicast}
use iocpnet_module_mono_repo.Session.Referenced.{total}
use iocpnet_module_mono_repo.Session.Balance.{send_packet_multicast_lem}

-- a ring of eight bytes that holds two
abbrev ring : RingBuffer
ring = record { memory = λ i. i; buffer_size = 8; front = 3; rear = 5 }

ring-IsValid : IsValid ring
ring-IsValid = omega arith

-- the third connection at place 1
abbrev handle : ℕ
handle = 281474976710659

abbrev place : ℕ
place = 1

abbrev connection : ℕ
connection = 3

create-handle : create_session_handle 1 3 ≡ handle
unfolding create_session_handle
create-handle = refl

abbrev session : Session
session = record {
  handle = handle;
  socket = 40;
  ip = 16777343;
  port = 80;
  io_count = 1;
  content = none;
  is_moving = false;
  is_sending = false;
  is_connecting = true;
  request_disconnect = false;
  recv_buffer = ring;
  content_buffer = ring;
  send_buffer = 7 ∷ 8 ∷ [];
  send_packets = [];
  cumulative_send = 0;
  cumulative_recv = 0;
  tps_send = 0;
  tps_recv = 0;
  recv_post_cnt = 0;
  leave_code = none_set;
}

-- Packet 7 is queued for two sessions, packet 8 for one.
abbrev shared : Shared
shared = record { ref_count = λ p. if p == 7 then 2 else 1; freed = []; tps_sets = []; events = [] }

abbrev server : Server
server = record {
  sessions = λ i. session;
  max_of_session = 2;
  max_of_send_packets = 100;
  session_index_pool = [];
  session_count = 2;
  id_pool = 3;
  cumulate_accept = 0;
  tps_accept = 0;
  total_accept = 2;
  tps_recv_last = 0;
  tps_send_last = 0;
  shared = shared;
}

decode-handle : (decode_session_handle handle).0 ≡ 1
unfolding decode_session_handle
decode-handle = refl

find-return_example :
    let at : ℕ = (decode_session_handle handle).0 in
    let (found, v1) = find_session handle server in
    (((server.sessions at).handle ≡ handle)
      × (found ≡ some at)
      × (users v1 at ≡ users server at + 1)
      × ((return_session at v1).0 ≡ false)
      × ((return_session at v1).1.sessions 0 ≡ server.sessions 0)
      × ((return_session at v1).1.shared ≡ server.shared))
    ⊎ (((server.sessions at).handle ≢ handle)
        × (found ≡ none)
        × (v1.sessions 0 ≡ server.sessions 0)
        × (v1.shared ≡ server.shared))
find-return_example = find-return handle server 0 (omega (arith, decode-handle)) (omega arith)

-- A second thread enters, and both leave.
abbrev fresh : Counter
fresh = record { io = 1; inside = 1; releasing = 0; refused = 0; releases = 0 }

second_inside : 0 < (enter fresh).inside
unfolding enter decode_io_count
second_inside = ground arith

Reachable-IsCounted_example : IsCounted (leave (enter fresh))
Reachable-IsCounted_example =
    Reachable-IsCounted (leave (enter fresh))
      (step (step connected (enters fresh)) (leaves (enter fresh) second_inside)) (omega arith)

-- released, and refused as often as the count can bear
abbrev worn : Counter
worn = record { io = 65535; inside = 0; releasing = 0; refused = 4607; releases = 1 }

enter-released_example :
    ((worn.refused < 4607) × ((enter worn).inside ≡ 0) × ((enter worn).io ≡ 65535 + 1))
    ⊎ ((worn.refused ≡ 4607) × ((enter worn).inside ≡ 0 + 1) × ((enter worn).io ≡ 0))
enter-released_example = enter-released worn refl (omega arith)

fresh_inside : 0 < fresh.inside
fresh_inside = omega arith

Reachable-released_example :
    (0 < (leave fresh).releasing)
    × ((try_release (leave fresh)).releases ≡ 1)
    × ((try_release (leave fresh)).io ≡ release_io_count)
unfolding leave
Reachable-released_example =
    Reachable-released (leave fresh) (step connected (leaves fresh fresh_inside)) tt refl refl

-- the last user of the session has gone
abbrev deserted : Server
deserted = record server { sessions = λ i. record session { io_count = 0 } }

release_session-on_leave_example :
    let s = deserted.sessions 1 in
    let (t, w) = release_session s shared in
    let left = on_leave 1 (put_session 1 t (record deserted { shared = w })) in
    IsClosed s t
    × (w.events ≡ ([] ++ (close_socket 40 ∷ [])) ++ (post_leave handle ∷ []))
    × (w.tps_sets ≡ [] ++ ((0, 0) ∷ []))
    × (release_session t w ≡ (t, w))
    × (left.session_index_pool ≡ 1 ∷ [])
    × (left.session_count ≡ (2 + (2 ^ 16 - 1)) % 2 ^ 16)
    × (left.shared.events ≡ w.events ++ (client_leave handle t.leave_code t.ip t.port ∷ []))
release_session-on_leave_example = release_session-on_leave 1 deserted refl refl decode-handle

-- A client comes to place 1 and is cut before its entry completes.
abbrev config : NetConfig
config = record { encryption = false; header_code = 119; fixed_key = 50; max_recv_post_cnt = 10 }

abbrev open_place : Place
open_place = record { server = server; entering = 1; receiving = 0; sending = 0 }

abbrev cut_place : Place
cut_place = called config (λ i. 0) 1 (disconnect handle server).1 open_place

abbrev entered_place : Place
entered_place = entered config (λ i. 0) 1 true cut_place

-- Packet 9 goes out to the session at place 1, once by its handle and once by an old one.
abbrev sending_server : Server
sending_server = record server { shared = record shared { ref_count = λ q. 0 } }

send_packet_multicast_example :
    let w = send_packet_multicast (handle ∷ 281474976710658 ∷ []) 9 sending_server in
    (w.shared.ref_count 9 ≡ total 9 w w.max_of_session)
    × (((0 < total 9 w w.max_of_session) × (occurrences 9 w.shared.freed ≡ 0))
        ⊎ ((total 9 w w.max_of_session ≡ 0) × (occurrences 9 w.shared.freed ≡ 0 + 1)))
send_packet_multicast_example =
    send_packet_multicast_lem handle (281474976710658 ∷ []) 9 sending_server
      (λ k inside. (omega arith, omega arith)) (omega arith) refl refl
