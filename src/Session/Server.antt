-- ===== src/Session/Server.antt =====
-- The parts of NetLib_Server.cpp that find a session by its handle, and the posts of Session.h.
-- `sessions` is the array `m_sessions`, and `session_index_pool` holds the free places of it, the
-- top first; the counts are of 16 bits (sessions), 64 bits (`id_pool`) and 32 bits.
use iocpnet_module_mono_repo.Prelude.{
  ℕ, ◌+◌, ◌-◌, ◌%◌, ◌^◌, List, [], ◌∷◌, ◌++◌, Bool, true, false, not, ◌&&◌, Option, none, some, ltb,
  leb, ◌==◌, if◌then◌else◌, take, drop, length,
}
use iocpnet_module_mono_repo.Ring.{RingBuffer, direct_enqueue_size, free_size}
use iocpnet_module_mono_repo.Frame.Receive.{send_full}
use iocpnet_module_mono_repo.Session.{
  Session, Shared, cancel_io, post_send_post, post_sending_check, wsa_send, wsa_recv, emit,
  send_packet_count, decode_session_handle, increment_io_count, decrement_io_count,
}

pub record Server : Type 0 where
  pub sessions : ℕ → Session
  pub max_of_session : ℕ
  pub max_of_send_packets : ℕ
  pub session_index_pool : List ℕ
  pub session_count : ℕ
  pub id_pool : ℕ
  pub cumulate_accept : ℕ
  pub tps_accept : ℕ
  pub total_accept : ℕ
  pub tps_recv_last : ℕ
  pub tps_send_last : ℕ
  pub shared : Shared

-- the server after `session` at `index` changed
abbrev pub put_session : ℕ → Session → Server → Server
put_session index s v = record v { sessions = λ i. if i == index then s else v.sessions i }

-- `ReturnSession(session)`, which is `Decrement_IOCount(session)`
unfoldable pub return_session : ℕ → Server → Bool × Server
return_session index v =
    let (released, s, w) = decrement_io_count (v.sessions index) v.shared in
    (released, put_session index s (record v { shared = w }))

-- `FindSession(sessionHandle)`: the index of the session
unfoldable pub find_session : ℕ → Server → Option ℕ × Server
find_session handle v =
    let index = (decode_session_handle handle).0 in
    if leb v.max_of_session index
    then (none, v)
    else let (released, s) = increment_io_count (v.sessions index) in
      let v' = put_session index s v in
      if released
      then (none, v')
      else if not (s.handle == handle)
      then (none, (return_session index v').1)
      else (some index, v')

-- `Disconnect(sessionHandle)`
unfoldable pub disconnect : ℕ → Server → Bool × Server
disconnect handle v =
    let (found, v1) = find_session handle v in
    elim found [
      | none ↦ (false, v1)
      | some index ↦
          let s = record (v1.sessions index) { request_disconnect = true } in
          let v2 =
            put_session index s (record v1 { shared = emit (cancel_io s.socket) v1.shared }) in
          (true, (return_session index v2).1)
    ]

-- `TrySendPost()`
unfoldable pub try_send_post : Session → Shared → Bool × Session × Shared
try_send_post s w =
    if s.is_sending
    then (false, s, w)
    else (true, record s { is_sending = true }, emit (post_send_post s.handle) w)

-- `SendPost()`; `accepted` tells whether `WSASend` succeeds or stays pending
unfoldable pub send_post : Bool → Session → Shared → Bool × Session × Shared
send_post accepted s w =
    let packets = take send_packet_count s.send_buffer in
    let rest = record s { send_buffer = drop send_packet_count s.send_buffer } in
    if length packets == 0 then (true, rest, emit (post_sending_check s.handle) w) else (
      accepted,
      record rest { send_packets = packets; cumulative_send = s.cumulative_send + length packets },
      emit (wsa_send s.socket packets) w,
    )

-- The two buffers that `RecvPost()` gives to `WSARecv`, as offsets and lengths; `none` where it
-- returns before.
unfoldable pub recv_buffers : RingBuffer → Option (List (ℕ × ℕ))
recv_buffers r =
    let direct = direct_enqueue_size r in
    let free = free_size r - direct in
    if (direct == 0) && (free == 0) then none else some ((r.rear, direct) ∷ (0, free) ∷ [])

-- `RecvPost()`; `accepted` tells whether `WSARecv` succeeds or stays pending
unfoldable pub recv_post : Bool → Session → Shared → Bool × Shared
recv_post accepted s w = elim (recv_buffers s.recv_buffer) [
  | none ↦ (false, w)
  | some buffers ↦ (accepted, emit (wsa_recv s.socket buffers) w)
]

-- the end of `SendPacket`: the session is returned
unfoldable pub end_send : ℕ → Server → Bool × Server
end_send index v = let (gone, v') = return_session index v in (not gone, v')

-- `SendPacket` once the packet is queued: a post is made where none is under way
unfoldable pub post_queued : ℕ → Server → Bool × Server
post_queued index v =
    let (released, s1) = increment_io_count (v.sessions index) in
    let v2 = put_session index s1 v in
    if released
    then end_send index v2
    else let (posted, s2, w2) = try_send_post s1 v.shared in
      let v3 = put_session index s2 (record v2 { shared = w2 }) in
      if posted
      then end_send index v3
      else let (gone, v4) = return_session index v3 in
        if gone then (false, v4) else end_send index v4

-- `m_sendBuffer.Enqueue(sendpacket)`
abbrev pub queue_packet : ℕ → ℕ → Server → Server
queue_packet p index v =
    let s = v.sessions index in
    put_session index (record s { send_buffer = s.send_buffer ++ (p ∷ []) }) v

-- a session whose queue is full is returned and cut
unfoldable pub refuse_full : ℕ → ℕ → Server → Server
refuse_full handle index v =
    let full = put_session index (record (v.sessions index) { leave_code = send_full }) v in
    (disconnect handle (return_session index full).1).1

-- a `long` count of references of one packet
abbrev pub put_count : ℕ → ℕ → Shared → Shared
put_count p n w = record w { ref_count = λ q. if q == p then n % 2 ^ 32 else w.ref_count q }

-- `SendPacket(sessionHandle, packet)` for the packet `p` that it framed (`Frame.frame_packet`);
-- `p` comes from the pool with no references.
unfoldable pub send_packet : ℕ → ℕ → Server → Bool × Server
send_packet handle p v =
    let (found, v1) = find_session handle v in
    elim found [
      | none ↦ (false, v1)
      | some index ↦
          if ltb v.max_of_send_packets (length (v1.sessions index).send_buffer)
          then (false, refuse_full handle index v1)
          else let counted = put_count p (v1.shared.ref_count p + 1) v1.shared in
            post_queued index (queue_packet p index (record v1 { shared = counted }))
    ]
