-- ===== src/Chat/Expiry.antt =====
-- `Login_Timeout` and `Timeout` of ChatServer/main.cpp: who is disconnected.
use iocpnet_module_mono_repo.Prelude.{
  ℕ, ◌+◌, ◌≤◌, ◌≡◌, inl, inr, refl, sym, subst, ap, ap₂, ◌∙◌, List, [], map, ◌++◌, ◌∷◌, Bool, false,
  ◌==◌, ltb, if◌then◌else◌, Option, none, some, arith, Bool-cases, All, le→ltb, ==→eq,
}
use iocpnet_module_mono_repo.Prelude.Assoc.{find}
use iocpnet_module_mono_repo.Sector.Order.{count}
use iocpnet_module_mono_repo.Chat.{
  Chat, Player, disconnect, WaitingSession, login_time_out_ms, heartbeat_time_out_ms,
}
use iocpnet_module_mono_repo.Chat.Timers.{
  is_over, login_timeout_sessions, sweep, sweep_player, swept_player, timeout,
}

-- A hash map has every key once.
unfoldable pub HasKeysOnce {ℓ} : {V : Type ℓ} → List (ℕ × V) → Type ℓ
HasKeysOnce [] = Unit
HasKeysOnce (e ∷ m) = (find e.0 m ≡ none) × HasKeysOnce m

-- whether a session that was silent since then is to be cut, 1 or 0
unfoldable pub waited_out : ℕ → Option WaitingSession → ℕ
waited_out now none = 0
waited_out now (some w) = if is_over login_time_out_ms now w.accept_time then 1 else 0

unfoldable pub silent : ℕ → Option Player → ℕ
silent now none = 0
silent now (some p) = if is_over heartbeat_time_out_ms now p.last_recv then 1 else 0

zero_add : (n : ℕ) → 0 + n ≡ n
zero_add n = omega arith

-- The two loops put the key of an entry in front of the rest or leave it out.
module _ {V : Type 0} (h : ℕ) (tell : Option V → ℕ) (nothing_told : tell none ≡ 0) where
  count-pick :
      (k : ℕ) (v : V) (b : Bool) (m : List (ℕ × V)) (rest : List ℕ)
      → find k m ≡ none
      → tell (some v) ≡ (if b then 1 else 0)
      → count h rest ≡ tell (find h m)
      → count h (if b then k ∷ rest else rest) ≡ tell (find h ((k, v) ∷ m))
  unfolding find
  count-pick k v b m rest once told ih = elim (Bool-cases (h == k)) [
    | inl same ↦
        let gone : find h m ≡ none = subst (λ i. find i m ≡ none) (sym (==→eq h k same)) once in
        let none_there : count h rest ≡ 0 = ih ∙ ap tell gone ∙ nothing_told in
        elim (Bool-cases b) [
          | inl e ↦ rw (e, same) (ap (λ n. 1 + n) none_there ∙ sym (rw e at told))
          | inr e ↦ rw (e, same) (none_there ∙ sym (rw e at told))
        ]
    | inr other ↦ elim (Bool-cases b) [
      | inl e ↦ rw (e, other) (zero_add (count h rest) ∙ ih)
      | inr e ↦ rw (e, other) ih
    ]
  ]

-- The sessions that `Login_Timeout` disconnects are, each once, those that wait and whose accept
-- time lies more than `LOGIN_TIME_OUT_MS` in the past.
pub login_timeout_lem :
    (now h : ℕ) (m : List (ℕ × WaitingSession))
    → HasKeysOnce m
    → count h (login_timeout_sessions now m) ≡ waited_out now (find h m)
unfolding HasKeysOnce login_timeout_sessions waited_out find
login_timeout_lem now h [] k = refl
login_timeout_lem now h (e ∷ m) k =
    count-pick h (waited_out now) refl e.0 e.1 (is_over login_time_out_ms now e.1.accept_time) m
      (login_timeout_sessions now m) k.0 refl (login_timeout_lem now h m k.1)

-- the player after the round, if there is one
unfoldable pub after_sweep : ℕ → Option Player → Option Player
after_sweep now none = none
after_sweep now (some p) = some (swept_player now p)

find-sweep :
    (now a b h : ℕ) (m : List (ℕ × Player))
    → find h (sweep now a b m).swept ≡ after_sweep now (find h m)
unfolding find sweep after_sweep
find-sweep now a b h [] = refl
find-sweep now a b h (e ∷ m) =
    let maxima = if ltb now e.1.last_recv then (false, a, b) else sweep_player now e.0 e.1 a b in
    let ih = find-sweep now maxima.1 maxima.2 h m in
    elim (Bool-cases (h == e.0)) [ inl same ↦ rw same refl | inr other ↦ rw other ih ]

count-timed_out :
    (now a b h : ℕ) (m : List (ℕ × Player))
    → HasKeysOnce m
    → count h (sweep now a b m).timed_out ≡ silent now (find h m)
unfolding HasKeysOnce sweep silent find
count-timed_out now a b h [] k = refl
count-timed_out now a b h (e ∷ m) k =
    let maxima = if ltb now e.1.last_recv then (false, a, b) else sweep_player now e.0 e.1 a b in
    count-pick h (silent now) refl e.0 e.1 (is_over heartbeat_time_out_ms now e.1.last_recv) m
      (sweep now maxima.1 maxima.2 m).timed_out k.0 refl
      (count-timed_out now maxima.1 maxima.2 h m k.1)

-- `Timeout` disconnects for their silence, each once, the players last heard from more than
-- `HEARTBEAT_TIME_OUT_MS` ago, and sets the counters of every player to 0 except where its last
-- packet lies in the future.
pub sweep_lem :
    (now a b h : ℕ) (m : List (ℕ × Player))
    → HasKeysOnce m
    → (count h (sweep now a b m).timed_out ≡ silent now (find h m))
      × (find h (sweep now a b m).swept ≡ after_sweep now (find h m))
sweep_lem now a b h m k = (count-timed_out now a b h m k, find-sweep now a b h m)

-- No counter of the player is above the maxima.
abbrev pub IsBelow : ℕ → ℕ → ℕ × Player → Type 0
IsBelow a b e = (e.1.tps_req_chat ≤ a) × (e.1.tps_req_sector_move ≤ b)

-- one round that finds no counter above the maxima
sweep_player_below :
    (now h a b : ℕ) (p : Player)
    → p.tps_req_chat ≤ a
    → p.tps_req_sector_move ≤ b
    → sweep_player now h p a b ≡ (false, a, b)
unfolding sweep_player
sweep_player_below now h a b p below_a below_b =
    rw (le→ltb a p.tps_req_chat below_a, le→ltb b p.tps_req_sector_move below_b) refl

-- the sessions whose player was last heard from too long ago
abbrev pub silent_sessions : ℕ → List (ℕ × Player) → List ℕ
silent_sessions now [] = []
silent_sessions now (e ∷ m) =
    let rest = silent_sessions now m in
    if is_over heartbeat_time_out_ms now e.1.last_recv then e.0 ∷ rest else rest

timed_out-sweep :
    (now a b : ℕ) (m : List (ℕ × Player)) → (sweep now a b m).timed_out ≡ silent_sessions now m
unfolding sweep
timed_out-sweep now a b [] = refl
timed_out-sweep now a b (e ∷ m) =
    let maxima = if ltb now e.1.last_recv then (false, a, b) else sweep_player now e.0 e.1 a b in
    let ih = timed_out-sweep now maxima.1 maxima.2 m in
    ap (λ r. if is_over heartbeat_time_out_ms now e.1.last_recv then e.0 ∷ r else r) ih

-- no limit is looked at, and the maxima stay
sweep-IsBelow :
    (now a b : ℕ) (m : List (ℕ × Player))
    → All (IsBelow a b) m
    → ((sweep now a b m).cut_off ≡ [])
      × ((sweep now a b m).msg_max ≡ a)
      × ((sweep now a b m).mov_max ≡ b)
unfolding sweep
sweep-IsBelow now a b [] h = (refl, refl, refl)
sweep-IsBelow now a b (e ∷ m) h =
    let ih = sweep-IsBelow now a b m h.1 in
    let round = sweep_player_below now e.0 a b e.1 h.0.0 h.0.1 in
    elim (Bool-cases (ltb now e.1.last_recv)) [
      | inl passed ↦ rw (sweep, passed) ih
      | inr heard ↦ rw (sweep, heard, round) ih
    ]

-- The limits on messages and moves are only looked at when a counter is above all that were seen
-- before: as long as no player's counters are above the maxima, `Timeout` disconnects for their
-- silence those last heard from more than `HEARTBEAT_TIME_OUT_MS` ago and nobody else, however far
-- above `MAX_CONTENT_MSG` and `MAX_CONTENT_MOV` the counters are, and the maxima stay.
pub timeout_spares :
    (now : ℕ) (c : Chat)
    → All (IsBelow c.tps_msg_req_max c.tps_mov_req_max) c.players
    → let (out, d) = timeout now c in
      (out ≡ map disconnect (silent_sessions now c.players))
      × (d.tps_msg_req_max ≡ c.tps_msg_req_max)
      × (d.tps_mov_req_max ≡ c.tps_mov_req_max)
unfolding timeout
timeout_spares now c below =
    let a = c.tps_msg_req_max in
    let b = c.tps_mov_req_max in
    let (nobody, msg, mov) = sweep-IsBelow now a b c.players below in
    (
      ap₂ (λ cut silent. map disconnect cut ++ map disconnect silent) nobody
          (timed_out-sweep now a b c.players),
      msg,
      mov,
    )
