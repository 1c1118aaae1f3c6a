-- ===== src/Chat/Tests.antt =====
-- Runs of the chat server on two sessions that log in with one account.
use iocpnet_module_mono_repo.Prelude.{
  ℕ, map, zero, suc, ◌<◌, ◌≡◌, refl, List, [], ◌∷◌, ◌++◌, true, false, none, some, arith, ◌==◌,
  if◌then◌else◌, length, sym, ap, ◌∙◌, ==→eq, Bool-cases, inl, inr, ◌⊎◌,
}
use iocpnet_module_mono_repo.Prelude.Assoc.{find, erase, put, none-some, some_inj}
use iocpnet_module_mono_repo.Prelude.Memory.{read, copy_in}
use iocpnet_module_mono_repo.Packet.{
  SerializeBuffer, make, put_data, bytes_of, value_of, read_scalar, get_data, shr_word,
  shr_unsigned_long_long,
}
use iocpnet_module_mono_repo.Frame.Receive.{none_set}
use iocpnet_module_mono_repo.Sector.Order.{count}
use iocpnet_module_mono_repo.Chat.{
  create_player, is_down, Chat, Player, WaitingSession, send_packet_multicast, on_client_join,
  on_client_leave, disconnect,
}
use iocpnet_module_mono_repo.Chat.Login.{
  Outside, duplicate, read_login, req_login, key_matches, memcmp_equal, enter_player, login_player,
  get_into,
}
use iocpnet_module_mono_repo.Chat.Requests.{
  on_recv, content_proc, content_type_of, sector_id, send_around_sector, sectors_around,
  handles_for_multicast, copy_players, handles_size, coord_of,
}
use iocpnet_module_mono_repo.Sector.{around_of, around, connect}
use iocpnet_module_mono_repo.Chat.Timers.{timeout}
use iocpnet_module_mono_repo.Chat.Expiry.{HasKeysOnce, silent_sessions, timeout_spares}
use iocpnet_module_mono_repo.Chat.Invariant.{IsConsistent, standing}
use iocpnet_module_mono_repo.Chat.Leaving.{IsGone, on_client_leave_lem}
use iocpnet_module_mono_repo.Chat.Entering.{LoginEnd, req_login_lem}
use iocpnet_module_mono_repo.Chat.Multicast.{audience, hears, send_around_sector_lem}
use iocpnet_module_mono_repo.Chat.Runs.{
  Event, join, leave, recv, tick, run, handle, AreNew, IsSound, run-IsConsistent,
}

abbrev zeros : ℕ → List ℕ
zeros zero = []
zeros (suc n) = 0 ∷ zeros n

abbrev blank : Player
blank = record {
  session_handle = 0;
  acc_no = 0;
  x = 0;
  y = 0;
  front = 0;
  hp = 0;
  cur_sector = 0;
  old_sector = 0;
  nickname = [];
  id = [];
  session_key = [];
  ip = 0;
  port = 0;
  need_sync = false;
  tps_req_chat = 0;
  tps_req_sector_move = 0;
  req_login = 0;
  last_recv = 0;
}

abbrev fresh : SerializeBuffer
unfolding make
fresh = make (λ i. 0)

-- Redis holds a key of 64 zeros for every account.
abbrev outside : Outside
outside = record {
  acc_no = 0;
  id = [];
  nickname = [];
  session_key = [];
  sector_x = 0;
  sector_y = 0;
  message_len = 0;
  message = [];
  content_type = 0;
  pooled_player = blank;
  pooled_packet = fresh;
  rand_x = 4;
  rand_y = 2;
  current_time = 1000;
  redis_get = λ acc. some (zeros 64);
  wcscpy_s = λ old size src. some src;
}

abbrev packet_of : List ℕ → SerializeBuffer
unfolding put_data
packet_of bytes = (put_data bytes fresh).1

-- the payload of a login of account 7
abbrev login_bytes : List ℕ
unfolding bytes_of
login_bytes = bytes_of 8 7 ++ zeros 144

abbrev start : Chat
start = record {
  waiting = [];
  players = [];
  sessions_acc_no = [];
  blacklist = [];
  tps_accept_list = [];
  sector_players = λ s. [];
  use_blacklist = true;
  update_msg = 0;
  sendfull_total = 0;
  tps_msg_req_max = 0;
  tps_mov_req_max = 0;
}

start-IsConsistent : IsConsistent start
unfolding find standing
start-IsConsistent = record {
  apart = λ h w e. refl;
  own = λ h p e. absurd (none-some p e);
  account = λ a h e. absurd (none-some h e);
  placed = λ h s. refl;
}

-- Two sessions join and log in with account 7, the first leaves, and a minute passes.
abbrev evening : List Event
unfolding bytes_of
evening =
    join 1000 5 100 80
    ∷ recv outside 5 (packet_of (bytes_of 2 1 ++ login_bytes))
    ∷ join 1100 9 101 80
    ∷ recv outside 9 (packet_of (bytes_of 2 1 ++ login_bytes))
    ∷ leave 5 none_set 100 80
    ∷ tick 62000
    ∷ []

first_new : find 5 start.players ≡ none
unfolding find
first_new = refl

second_new :
    find 9
      (handle
        (recv outside 5 (packet_of (bytes_of 2 1 ++ login_bytes)))
        (handle (join 1000 5 100 80) start).1).1.players
    ≡ none
unfolding handle duplicate on_client_join on_recv content_proc content_type_of req_login read_login
    key_matches memcmp_equal enter_player login_player create_player get_into get_data read_scalar
    shr_word shr_unsigned_long_long value_of bytes_of find erase put packet_of fresh read copy_in
second_new = refl

evening-AreNew : AreNew evening start
unfolding AreNew evening handle run
evening-AreNew = (first_new, (tt, (second_new, (tt, (tt, (tt, tt))))))

run-IsConsistent_example : IsSound (run evening start)
run-IsConsistent_example = run-IsConsistent evening start evening-AreNew start-IsConsistent

-- the server once the first session waits
abbrev waiting_one : Chat
unfolding handle
waiting_one = (handle (join 1000 5 100 80) start).1

waiting_one-IsConsistent : IsConsistent waiting_one
unfolding waiting_one AreNew run handle is_down
waiting_one-IsConsistent =
    run-IsConsistent (join 1000 5 100 80 ∷ []) start (first_new, tt) start-IsConsistent

on_client_leave_example :
    let d = on_client_leave 5 none_set 100 80 waiting_one in
    IsGone 5 waiting_one d.waiting d.players d.sessions_acc_no d.sector_players
on_client_leave_example = on_client_leave_lem 5 none_set 100 80 waiting_one waiting_one-IsConsistent

req_login_example :
    let (out, d) = req_login outside 5 (packet_of login_bytes) waiting_one in
    LoginEnd outside 5 (read_login outside (packet_of login_bytes)) waiting_one d out
    × ((is_down out ≡ true) ⊎ IsConsistent d)
req_login_example =
    req_login_lem outside 5 (packet_of login_bytes) waiting_one waiting_one-IsConsistent

-- A player of session 5 in the sector at (0, 0).
abbrev placed_player : Player
placed_player = record blank { session_handle = 5; acc_no = 7; last_recv = 1000; tps_req_chat = 40 }

abbrev one_placed : Chat
one_placed = record start {
  players = (5, placed_player) ∷ [];
  sector_players = λ s. if s == 0 then 5 ∷ [] else [];
}

placed_counts :
    (h s : ℕ)
    → count h (if s == 0 then 5 ∷ [] else []) ≡ standing s (find h ((5, placed_player) ∷ []))
unfolding standing find
placed_counts h s = elim (Bool-cases (h == 5)) [
  | inl a ↦ elim (Bool-cases (s == 0)) [
    | inl b ↦ rw (b, a) (ground arith)
    | inr b ↦ rw (b, a) (ground arith)
  ]
  | inr a ↦ elim (Bool-cases (s == 0)) [ inl b ↦ rw (b, a) refl | inr b ↦ rw (b, a) refl ]
]

placed_own : (h : ℕ) (p : Player) → find h ((5, placed_player) ∷ []) ≡ some p → p.session_handle ≡ h
unfolding find
placed_own h p e = elim (Bool-cases (h == 5)) [
  | inl a ↦
      let found : some placed_player ≡ some p = rw a at e in
      ap (λ t. t.session_handle) (sym (some_inj placed_player p found)) ∙ sym (==→eq h 5 a)
  | inr a ↦ let gone : none ≡ some p = rw a at e in absurd (none-some p gone)
]

one_placed-IsConsistent : IsConsistent one_placed
unfolding find
one_placed-IsConsistent = record {
  apart = λ h w e. absurd (none-some w e);
  own = placed_own;
  account = λ a h e. absurd (none-some h e);
  placed = placed_counts;
}

placed_found : find 5 one_placed.players ≡ some placed_player
unfolding find
placed_found = refl

placed_at : placed_player.cur_sector ≡ sector_id (0, 0)
unfolding sector_id
placed_at = refl

placed_room : length (audience placed_player one_placed) < handles_size
unfolding handles_for_multicast copy_players sectors_around coord_of around_of around connect
    sector_id
placed_room = omega arith

players_once : HasKeysOnce one_placed.players
unfolding HasKeysOnce find
players_once = (refl, tt)

abbrev one_waits : List (ℕ × WaitingSession)
one_waits = (5, record { accept_time = 1000; ip = 0; port = 0 }) ∷ []

waits_once : HasKeysOnce one_waits
unfolding HasKeysOnce find
waits_once = (refl, tt)

send_around_sector_example :
    (send_around_sector placed_player (1 ∷ 2 ∷ []) true one_placed
      ≡ send_packet_multicast (audience placed_player one_placed) (1 ∷ 2 ∷ []) ∷ [])
    × ((h : ℕ)
        → count h (audience placed_player one_placed) ≡ hears 0 0 (find h one_placed.players))
send_around_sector_example =
    send_around_sector_lem placed_player 0 0 (1 ∷ 2 ∷ []) one_placed one_placed-IsConsistent
      placed_found placed_at (omega arith) (omega arith) placed_room

timeout_spares_example :
    let c = record one_placed { tps_msg_req_max = 40; tps_mov_req_max = 0 } in
    let (out, d) = timeout 62000 c in
    (out ≡ map disconnect (silent_sessions 62000 c.players))
    × (d.tps_msg_req_max ≡ 40)
    × (d.tps_mov_req_max ≡ 0)
timeout_spares_example =
    timeout_spares 62000 (record one_placed { tps_msg_req_max = 40; tps_mov_req_max = 0 })
      ((omega arith, omega arith), tt)
