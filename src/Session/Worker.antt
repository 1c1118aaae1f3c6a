-- ===== src/Session/Worker.antt =====
-- The branches of NetLib_Server::WorkerThread for a session's completions. Each tells first whether
-- it leaves an operation behind whose completion is still to come. `accepted` tells whether the
-- call of `WSASend` or `WSARecv` succeeds or stays pending. What the application does in `OnRecv`
-- and in its other callbacks, such as sending, comes as steps of its own.
use iocpnet_module_mono_repo.Prelude.{
  ℕ, suc, ◌+◌, ◌-◌, ◌%◌, ◌^◌, List, [], ◌∷◌, Bool, true, false, Option, none, some, ltb, ◌==◌,
  if◌then◌else◌, length,
}
use iocpnet_module_mono_repo.Prelude.Memory.{Memory}
use iocpnet_module_mono_repo.Ring.{move_rear, use_size}
use iocpnet_module_mono_repo.Frame.{NetConfig}
use iocpnet_module_mono_repo.Frame.Receive.{
  Receiver, Ended, receive, waiting, disconnecting, faulted, out_of_fuel,
}
use iocpnet_module_mono_repo.Session.{
  Session, Shared, emit, bind_port, client_join, client_leave, on_recv, cancel_io,
  increment_io_count, decrement_io_count, clear_send_packets, decode_session_handle,
}
use iocpnet_module_mono_repo.Session.Server.{Server, put_session, disconnect, send_post, recv_post}

-- `Session::REQUEST_SENDING_CHECK`
abbrev pub request_sending_check : ℕ
request_sending_check = 10027312

-- the end of a branch that gives the reference of its completion back
abbrev pub give_back : Bool → Session → Shared → Bool × Session × Shared
give_back due s w = let (_, s', w') = decrement_io_count s w in (due, s', w')

-- the branch of `overlapped_enter`
unfoldable pub on_enter : Bool → Session → Shared → Bool × Session × Shared
on_enter accepted s w =
    let joined = emit (client_join s.handle s.ip s.port) (emit (bind_port s.socket) w) in
    let (posted, w1) = recv_post accepted s joined in
    if posted then (true, s, w1) else give_back false s w1

-- the branch of `overlapped_sendpost`
unfoldable pub on_send_post : Bool → Session → Shared → Bool × Session × Shared
on_send_post accepted s w =
    let (posted, s1, w1) = send_post accepted s w in
    if posted then (true, s1, w1) else give_back false s1 w1

-- `TrySendPostInCompletion()`
unfoldable pub try_send_post_in_completion : Bool → Session → Shared → Bool × Session × Shared
try_send_post_in_completion accepted s w =
    if s.is_sending then (false, s, w) else send_post accepted (record s { is_sending = true }) w

-- what the branch of `overlapped_send` does where packets are queued
unfoldable pub send_more : Bool → Session → Shared → Bool × Session × Shared
send_more accepted s w =
    let (released, s1) = increment_io_count s in
    if released
    then (false, s1, w)
    else let (posted, s2, w2) = try_send_post_in_completion accepted s1 w in
      if posted then (true, s2, w2) else give_back false s2 w2

-- the packets of a send are given back, but not after a check for new ones
unfoldable pub cleared : ℕ → Session → Shared → Session × Shared
cleared transferred s w =
    if transferred == request_sending_check then (s, w) else clear_send_packets s w

-- the branch of `overlapped_send`
unfoldable pub on_sent : Bool → ℕ → Session → Shared → Bool × Session × Shared
on_sent accepted transferred s w =
    if transferred == 0
    then give_back false s w
    else let (s2, w2) = cleared transferred s w in
      let idle = record s2 { is_sending = false } in
      if ltb 0 (length idle.send_buffer)
      then (let (due, s3, w3) = send_more accepted idle w2 in give_back due s3 w3)
      else give_back false idle w2

-- the members of the session that the receive loop works on, and the session after it
unfoldable pub receiver_of : Session → Receiver
receiver_of s = record {
  recv_buffer = s.recv_buffer;
  content_buffer = s.content_buffer;
  in_content = elim s.content [ none ↦ false | some c ↦ true ];
  recv_post_cnt = s.recv_post_cnt;
  cumulative_recv = s.cumulative_recv;
  leave_code = s.leave_code;
}

unfoldable pub with_receiver : Receiver → Session → Session
with_receiver r s = record s {
  recv_buffer = r.recv_buffer;
  content_buffer = r.content_buffer;
  recv_post_cnt = r.recv_post_cnt;
  cumulative_recv = r.cumulative_recv;
  leave_code = r.leave_code;
}

-- the calls of `OnRecv`
unfoldable pub hand_all : ℕ → List (List ℕ) → Shared → Shared
hand_all handle [] w = w
hand_all handle (p ∷ ps) w = hand_all handle ps (emit (on_recv handle p) w)

-- the end of the branch of `overlapped_recv`: the next receive is posted
unfoldable pub receive_more : Bool → Session → Shared → Bool × Session × Shared
receive_more accepted s w =
    let (released, s1) = increment_io_count s in
    if released
    then (false, s1, w)
    else let (posted, w1) = recv_post accepted s1 w in
      let cancelled = if s1.request_disconnect then emit (cancel_io s1.socket) w1 else w1 in
      if posted
      then give_back true s1 cancelled
      else let (_, s2, w2) = decrement_io_count s1 w1 in give_back false s2 w2

abbrev pub keep : ℕ → Server → Bool × Session × Shared → Bool × Server
keep index v (due, s, w) = (due, put_session index s (record v { shared = w }))

-- the session and the server after the receive loop took `transferred` bytes over
unfoldable pub after_loop : ℕ → Receiver → List (List ℕ) → Session → Server → Server
after_loop index r ps s v =
    put_session index (with_receiver r s) (record v { shared = hand_all s.handle ps v.shared })

-- what follows the receive loop, on the session and server before it; `none` where the loop writes
-- past a local array
unfoldable pub after_receive : Bool → ℕ → Session → Server → Ended → Option (Bool × Server)
after_receive accepted index s v (waiting ps r) =
    let v1 = after_loop index r ps s v in
    some (keep index v1 (receive_more accepted (v1.sessions index) v1.shared))
after_receive accepted index s v (disconnecting ps r) =
    let v1 = (disconnect s.handle (after_loop index r ps s v)).1 in
    some (keep index v1 (receive_more accepted (v1.sessions index) v1.shared))
after_receive accepted index s v (faulted ps) = none
after_receive accepted index s v out_of_fuel = none

-- the branch of `overlapped_recv`; the fuel is enough by `Frame.Ending.receive_ends`
unfoldable pub on_received : NetConfig → Memory → Bool → ℕ → ℕ → Server → Option (Bool × Server)
on_received c junk accepted transferred index v =
    let s = v.sessions index in
    let arrived = record s { recv_buffer = (move_rear transferred s.recv_buffer).1 } in
    let ended = receive c junk (suc (use_size arrived.recv_buffer)) (receiver_of arrived) in
    if transferred == 0
    then some (keep index v (give_back false s v.shared))
    else after_receive accepted index arrived v ended

-- the branch of `overlapped_leave`
unfoldable pub on_leave : ℕ → Server → Server
on_leave index v =
    let s = v.sessions index in
    record v {
      shared = emit (client_leave s.handle s.leave_code s.ip s.port) v.shared;
      session_index_pool = (decode_session_handle s.handle).0 ∷ v.session_index_pool;
      session_count = (v.session_count + (2 ^ 16 - 1)) % 2 ^ 16;
    }
