-- ===== src/Session/Accept.antt =====
-- AcceptThread, MonitorThread and the constructor of IOCPNetLib/NetLib_Server.cpp, as far as they
-- work on the sessions, and the counts that the application asks for.
use iocpnet_module_mono_repo.Prelude.{
  ℕ, zero, suc, ◌+◌, ◌%◌, ◌^◌, List, [], ◌∷◌, Bool, none, some, leb, if◌then◌else◌,
}
use iocpnet_module_mono_repo.Session.{
  Session, emit, close_socket, post_enter, create_session_handle, connect,
}
use iocpnet_module_mono_repo.Session.Server.{Server, put_session, find_session, return_session}

-- the places in the order in which the constructor's loop leaves them on the stack
unfoldable pub places_from : ℕ → ℕ → List ℕ
places_from i zero = []
places_from i (suc n) = i ∷ places_from (suc i) n

-- `m_sessionIndexPool.Pop(&index)`, which leaves `index` as it is where the stack is empty
unfoldable pub pop_index : ℕ → List ℕ → ℕ × List ℕ
pop_index index [] = (index, [])
pop_index index (i ∷ pool) = (i, pool)

-- `AcceptThread` from the new session on: a place, a handle and `Connect`
unfoldable pub place_session : ℕ → ℕ → ℕ → ℕ → Server → Server
place_session uninitialized newsock ip port v =
    let (index, pool) = pop_index uninitialized v.session_index_pool in
    let id = (v.id_pool + 1) % 2 ^ 64 in
    let handle = create_session_handle index id in
    let (s, w) = connect handle newsock ip port (v.sessions index) v.shared in
    put_session index s (record v {
      session_count = (v.session_count + 1) % 2 ^ 16;
      session_index_pool = pool;
      id_pool = id;
      shared = emit (post_enter handle) w;
    })

-- `AcceptThread` after an `accept` that gave a socket; `requested` is what `OnConnectionRequest`
-- answers
unfoldable pub accept : Bool → ℕ → ℕ → ℕ → ℕ → Server → Server
accept requested uninitialized newsock ip port v =
    let counted = record v { cumulate_accept = (v.cumulate_accept + 1) % 2 ^ 32 } in
    let closed = record counted { shared = emit (close_socket newsock) v.shared } in
    if leb v.max_of_session v.session_count
    then closed
    else if requested
    then place_session uninitialized newsock ip port counted
    else closed

-- the loop of `MonitorThread` over the sessions from `i` on: the sums of the received and the sent
unfoldable pub collect_sessions : ℕ → ℕ → ℕ × ℕ → Server → (ℕ × ℕ) × Server
collect_sessions i zero sums v = (sums, v)
collect_sessions i (suc n) (recv, send) v =
    let s = v.sessions i in
    let read = record s {
      tps_recv = s.cumulative_recv;
      tps_send = s.cumulative_send;
      cumulative_recv = 0;
      cumulative_send = 0;
    } in
    collect_sessions (suc i) n
      (if s.is_connecting
        then ((recv + s.cumulative_recv) % 2 ^ 32, (send + s.cumulative_send) % 2 ^ 32)
        else (recv, send))
      (if s.is_connecting then put_session i read v else v)

-- the loop of `MonitorThread` over the queue `m_tpsSets`
unfoldable pub collect_sets : List (ℕ × ℕ) → ℕ × ℕ → ℕ × ℕ
collect_sets [] sums = sums
collect_sets ((sent, received) ∷ sets) (recv, send) =
    collect_sets sets ((recv + received) % 2 ^ 32, (send + sent) % 2 ^ 32)

-- one round of `MonitorThread`
unfoldable pub monitor_round : Server → Server
monitor_round v =
    let counted = record v {
      tps_accept = v.cumulate_accept;
      cumulate_accept = 0;
      total_accept = (v.total_accept + v.cumulate_accept) % 2 ^ 32;
    } in
    let (sums, v1) = collect_sessions 0 v.max_of_session (0, 0) counted in
    let (recv, send) = collect_sets v1.shared.tps_sets sums in
    record v1 {
      shared = record v1.shared { tps_sets = [] };
      tps_recv_last = recv;
      tps_send_last = send;
    }

-- `GetSessionTPS_Send(sessionHandle)` and `GetSessionTPS_Recv(sessionHandle)`
unfoldable pub get_session_tps : (Session → ℕ) → ℕ → Server → ℕ × Server
get_session_tps tps handle v =
    let (found, v1) = find_session handle v in
    elim found [
      | none ↦ (0, v1)
      | some index ↦ (tps (v1.sessions index), (return_session index v1).1)
    ]
