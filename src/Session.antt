-- ===== src/Session.antt =====
-- IOCPNetLib/Session.h and the session handling of IOCPNetLib/NetLib_Server.cpp: handles, the
-- count of a session's users, its release, and what is posted for it. What the operating system
-- does is a list of `Event`s; a packet is the number of its place in the pool, whose reference
-- counts and returned places are kept in `Shared`, with the queue `m_tpsSets` as pairs of the sent
-- and the received.
pub mod Server
pub mod Worker
pub mod Accept
pub mod AtPlace
pub mod Elsewhere
pub mod Multicast
pub mod Referenced
pub mod Balance
pub mod Received
pub mod Life
pub mod Living
pub mod Places
pub mod Kept
pub mod Released
pub mod Handles
pub mod Counting
pub mod Finding
pub mod Packets
pub mod Posting
mod Tests
use iocpnet_module_mono_repo.Prelude.{
  ℕ, zero, suc, ◌+◌, ◌-◌, ◌*◌, ◌/◌, ◌%◌, ◌^◌, bit_and, bit_or, List, [], ◌∷◌, ◌++◌, Bool, true,
  false, not, ◌&&◌, Option, none, some, ltb, leb, ◌==◌, if◌then◌else◌, take, drop, length,
}
use iocpnet_module_mono_repo.Ring.{RingBuffer, clear_buffer, direct_enqueue_size, free_size}
use iocpnet_module_mono_repo.Frame.Receive.{LeaveCode, none_set, send_full}

-- `Session::RELEASE_IOCOUNT`
abbrev pub release_io_count : ℕ
release_io_count = 60928

-- `SEND_PACKET_COUNT`
abbrev pub send_packet_count : ℕ
send_packet_count = 100

-- the members of a session that its life cycle works on; a content is the number of its object
pub record Session : Type 0 where
  pub handle : ℕ
  pub socket : ℕ
  pub ip : ℕ
  pub port : ℕ
  pub io_count : ℕ
  pub content : Option ℕ
  pub is_moving : Bool
  pub is_sending : Bool
  pub is_connecting : Bool
  pub request_disconnect : Bool
  pub recv_buffer : RingBuffer
  pub content_buffer : RingBuffer
  pub send_buffer : List ℕ
  pub send_packets : List ℕ
  pub cumulative_send : ℕ
  pub cumulative_recv : ℕ
  pub tps_send : ℕ
  pub tps_recv : ℕ
  pub recv_post_cnt : ℕ
  pub leave_code : LeaveCode

-- What is asked of the operating system and of the other threads.
pub data Event : Type 0 where
  close_socket cancel_io : ℕ → Event
  post_leave post_send_post post_sending_check : ℕ → Event
  content_leave : ℕ → ℕ → Event
  wsa_send : ℕ → List ℕ → Event
  wsa_recv : ℕ → List (ℕ × ℕ) → Event
  bind_port : ℕ → Event
  client_join : ℕ → ℕ → ℕ → Event
  client_leave : ℕ → LeaveCode → ℕ → ℕ → Event
  on_recv : ℕ → List ℕ → Event
  post_enter : ℕ → Event

pub record Shared : Type 0 where
  pub ref_count : ℕ → ℕ
  pub freed : List ℕ
  pub tps_sets : List (ℕ × ℕ)
  pub events : List Event

abbrev pub emit : Event → Shared → Shared
emit e w = record w { events = w.events ++ (e ∷ []) }

-- `CreateSessionHandle(index, sessionID, ...)`
unfoldable pub create_session_handle : ℕ → ℕ → ℕ
create_session_handle index id = bit_or (index * 2 ^ 48) (id % 2 ^ 48)

-- `DecodeSessionHandle(sessionHandle, ...)`
unfoldable pub decode_session_handle : ℕ → ℕ × ℕ
decode_session_handle handle = (handle / 2 ^ 48, handle % 2 ^ 48)

-- `DecodeIOCount(inputIOCount, ...)`, the release flag and the count
unfoldable pub decode_io_count : ℕ → ℕ × ℕ
decode_io_count io = (io / 256 % 256, bit_and io 255)

-- `InterlockedIncrement16` and `InterlockedDecrement16`
abbrev pub up : ℕ → ℕ
up io = (io + 1) % 65536

abbrev pub down : ℕ → ℕ
down io = (io + 65535) % 65536

-- `Increment_IOCount(session)`: whether the session is released
unfoldable pub increment_io_count : Session → Bool × Session
increment_io_count s =
    (not ((decode_io_count (up s.io_count)).0 == 0), record s { io_count = up s.io_count })

-- `InterlockedDecrement(&packet->refCount)` of a `long`, and `Packet::Free` at 0
unfoldable pub drop_packet : ℕ → Shared → Shared
drop_packet p w =
    let n = (w.ref_count p + (2 ^ 32 - 1)) % 2 ^ 32 in
    let counted = record w { ref_count = λ q. if q == p then n else w.ref_count q } in
    if n == 0 then record counted { freed = w.freed ++ (p ∷ []) } else counted

unfoldable pub drop_packets : List ℕ → Shared → Shared
drop_packets [] w = w
drop_packets (p ∷ ps) w = drop_packets ps (drop_packet p w)

-- `ClearSendPackets()`
unfoldable pub clear_send_packets : Session → Shared → Session × Shared
clear_send_packets s w = (record s { send_packets = [] }, drop_packets s.send_packets w)

-- `ClearSendBuffer()`: the queue is emptied by `Dequeue`
unfoldable pub clear_send_buffer : Session → Shared → Session × Shared
clear_send_buffer s w = (record s { send_buffer = [] }, drop_packets s.send_buffer w)

-- `Connect(...)`
unfoldable pub connect : ℕ → ℕ → ℕ → ℕ → Session → Shared → Session × Shared
connect handle socket ip port s w =
    let fresh = record s {
      handle = handle;
      socket = socket;
      ip = ip;
      port = port;
      leave_code = none_set;
      is_moving = false;
      is_sending = false;
      is_connecting = true;
      io_count = 1;
      request_disconnect = false;
      cumulative_recv = 0;
      cumulative_send = 0;
      tps_send = 0;
      tps_recv = 0;
      recv_post_cnt = 0;
      recv_buffer = clear_buffer s.recv_buffer;
    } in
    let (s1, w1) = clear_send_packets fresh w in
    let (s2, w2) = clear_send_buffer s1 w1 in
    (record s2 { content_buffer = clear_buffer s2.content_buffer; content = none }, w2)

-- `INVALID_SOCKET`
abbrev pub invalid_socket : ℕ
invalid_socket = 2 ^ 64 - 1

-- `ReleaseSession(session)`
unfoldable pub release_session : Session → Shared → Session × Shared
release_session s w =
    if not (s.io_count == 0)
    then (s, w)
    else let taken = record s { io_count = release_io_count } in
      elim s.content [
        | none ↦
            let closed = record taken {
              is_connecting = false;
              socket = invalid_socket;
              recv_buffer = clear_buffer s.recv_buffer;
            } in
            let (s1, w1) = clear_send_packets closed (emit (close_socket s.socket) w) in
            let (s2, w2) = clear_send_buffer s1 w1 in
            (
              record s2 {
                content_buffer = clear_buffer s2.content_buffer;
                is_sending = false;
                is_moving = false;
                content = none;
              },
              emit (post_leave s2.handle) (record w2 {
                tps_sets = w2.tps_sets ++ ((s2.cumulative_send, s2.cumulative_recv) ∷ []);
              }),
            )
        | some c ↦ (taken, emit (content_leave c s.handle) w)
      ]

-- `Decrement_IOCount(session)`: whether `ReleaseSession` was called
unfoldable pub decrement_io_count : Session → Shared → Bool × Session × Shared
decrement_io_count s w =
    let lower = record s { io_count = down s.io_count } in
    if lower.io_count == 0
    then (let (s', w') = release_session lower w in (true, s', w'))
    else (false, lower, w)
