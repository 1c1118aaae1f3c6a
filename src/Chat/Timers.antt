-- ===== src/Chat/Timers.antt =====
-- ChatServer/main.cpp: what `ContentThread` does every second: `Login_Timeout`, `Timeout` and
-- `Collect_AcceptTPS`. Times are those of `timeGetTime()`.
use iocpnet_module_mono_repo.Prelude.{
  ℕ, ◌+◌, ◌-◌, List, [], ◌∷◌, ◌++◌, Bool, true, false, ◌&&◌, ltb, if◌then◌else◌, map,
}
use iocpnet_module_mono_repo.Chat.{
  Chat, Player, WaitingSession, StatAcceptTps, Output, disconnect, login_time_out_ms,
  heartbeat_time_out_ms, max_accept_tps, max_content, insert_blacklist,
}

-- the tests of both timeouts: a time in the future is passed over
unfoldable pub is_over : ℕ → ℕ → ℕ → Bool
is_over limit now since = if ltb now since then false else ltb limit (now - since)

-- the loop of `Login_Timeout`
unfoldable pub login_timeout_sessions : ℕ → List (ℕ × WaitingSession) → List ℕ
login_timeout_sessions now [] = []
login_timeout_sessions now (e ∷ m) =
    let rest = login_timeout_sessions now m in
    if is_over login_time_out_ms now e.1.accept_time then e.0 ∷ rest else rest

-- `Login_Timeout`
unfoldable pub login_timeout : ℕ → Chat → List Output
login_timeout now c = map disconnect (login_timeout_sessions now c.waiting)

-- What the loop of `Timeout` changes: the players with their counters, the maxima, the sessions
-- that it disconnects on the way, and `timeoutSessions`.
pub record Sweep : Type 0 where
  pub swept : List (ℕ × Player)
  pub msg_max : ℕ
  pub mov_max : ℕ
  pub cut_off : List ℕ
  pub timed_out : List ℕ

-- one round for a player that was heard from in the past
unfoldable pub sweep_player : ℕ → ℕ → Player → ℕ → ℕ → Bool × ℕ × ℕ
sweep_player now session_handle player msg_max mov_max =
    let msg_max' = if ltb msg_max player.tps_req_chat then player.tps_req_chat else msg_max in
    if ltb msg_max player.tps_req_chat && ltb max_content player.tps_req_chat
    then (true, msg_max', mov_max)
    else (
      ltb mov_max player.tps_req_sector_move && ltb max_content player.tps_req_sector_move,
      msg_max',
      if ltb mov_max player.tps_req_sector_move then player.tps_req_sector_move else mov_max,
    )

-- the counters of a player after the round
unfoldable pub swept_player : ℕ → Player → Player
swept_player now player =
    if ltb now player.last_recv
    then player
    else record player { tps_req_chat = 0; tps_req_sector_move = 0 }

-- the loop of `Timeout`
unfoldable pub sweep : ℕ → ℕ → ℕ → List (ℕ × Player) → Sweep
sweep now msg_max mov_max [] = record {
  swept = [];
  msg_max = msg_max;
  mov_max = mov_max;
  cut_off = [];
  timed_out = [];
}
sweep now msg_max mov_max (e ∷ m) =
    let passed = ltb now e.1.last_recv in
    let (cut, msg_max', mov_max') =
      if passed then (false, msg_max, mov_max) else sweep_player now e.0 e.1 msg_max mov_max in
    let rest = sweep now msg_max' mov_max' m in
    record rest {
      swept = (e.0, swept_player now e.1) ∷ rest.swept;
      cut_off = if cut then e.0 ∷ rest.cut_off else rest.cut_off;
      timed_out =
          if is_over heartbeat_time_out_ms now e.1.last_recv
          then e.0 ∷ rest.timed_out
          else rest.timed_out;
    }

-- `Timeout`
unfoldable pub timeout : ℕ → Chat → List Output × Chat
timeout now c =
    let s = sweep now c.tps_msg_req_max c.tps_mov_req_max c.players in
    (
      map disconnect s.cut_off ++ map disconnect s.timed_out,
      record c { players = s.swept; tps_msg_req_max = s.msg_max; tps_mov_req_max = s.mov_max },
    )

-- 2 ^ 31, which the maxima of accepted connections are kept above
abbrev pub int_min : ℕ
int_min = 2147483648

-- the loop of `Collect_AcceptTPS`: the list that is left and the addresses for the blacklist
unfoldable pub collect : List (ℕ × StatAcceptTps) → List (ℕ × StatAcceptTps) × List ℕ
collect [] = ([], [])
collect (e ∷ m) =
    let (kept, listed) = collect m in
    let curr = e.1.curr_tps in
    if ltb e.1.max_tps_up (curr + int_min)
    then (if ltb max_accept_tps curr
        then (kept, e.0 ∷ listed)
        else ((e.0, record { curr_tps = 0; max_tps_up = curr + int_min }) ∷ kept, listed))
    else ((e.0, record e.1 { curr_tps = 0 }) ∷ kept, listed)

unfoldable pub insert_all : List ℕ → Chat → Chat
insert_all [] c = c
insert_all (ip ∷ ips) c = insert_all ips (insert_blacklist ip 0 c)

-- `Collect_AcceptTPS`
unfoldable pub collect_accept_tps : Chat → Chat
collect_accept_tps c =
    let (kept, listed) = collect c.tps_accept_list in
    insert_all listed (record c { tps_accept_list = kept })

-- one round of `ContentThread`
unfoldable pub content_round : ℕ → Chat → List Output × Chat
content_round now c =
    let (outputs, swept) = timeout now c in
    (login_timeout now c ++ outputs, collect_accept_tps swept)
