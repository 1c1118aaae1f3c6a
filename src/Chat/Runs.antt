-- ===== src/Chat/Runs.antt =====
-- The handlers of ChatServer/main.cpp one after another, as the network library and
-- `ContentThread` call them.
use iocpnet_module_mono_repo.Prelude.{
  ℕ, ◌≡◌, ◌≢◌, ◌⊎◌, inl, inr, sym, ◌∙◌, List, [], ◌∷◌, Option, none, some, true, false, Bool-cases,
  if◌then◌else◌, arith,
}
use iocpnet_module_mono_repo.Prelude.Assoc.{find}
use iocpnet_module_mono_repo.Packet.{SerializeBuffer}
use iocpnet_module_mono_repo.Frame.Receive.{LeaveCode}
use iocpnet_module_mono_repo.Chat.{Chat, Output, is_down, on_client_join, on_client_leave}
use iocpnet_module_mono_repo.Chat.Login.{Outside}
use iocpnet_module_mono_repo.Chat.Requests.{on_recv}
use iocpnet_module_mono_repo.Chat.Timers.{content_round}
use iocpnet_module_mono_repo.Chat.Invariant.{IsConsistent, join-Agree}
use iocpnet_module_mono_repo.Chat.Leaving.{on_client_leave_lem}
use iocpnet_module_mono_repo.Chat.Handling.{on_recv-IsConsistent, content_round-IsConsistent}

-- What calls the chat server: the network library, or `ContentThread` once a second.
pub data Event : Type 0 where
  join : ℕ → ℕ → ℕ → ℕ → Event
  leave : ℕ → LeaveCode → ℕ → ℕ → Event
  recv : Outside → ℕ → SerializeBuffer → Event
  tick : ℕ → Event

unfoldable pub handle : Event → Chat → List Output × Chat
handle (join now h ip port) c = ([], on_client_join now h ip port c)
handle (leave h code ip port) c = ([], on_client_leave h code ip port c)
handle (recv o h packet) c = on_recv o h packet c
handle (tick now) c = content_round now c

-- one call after another, until one brings the process down or overwrites its stack
unfoldable pub run : List Event → Chat → Option Chat
run [] c = some c
run (e ∷ es) c =
    let (out, d) = handle e c in let rest = run es d in if is_down out then none else rest

-- No session joins that has a player already: the network library gives every handle once.
abbrev pub IsNew : Event → Chat → Type 0
IsNew (join now h ip port) c = find h c.players ≡ none
IsNew (leave h code ip port) c = Unit
IsNew (recv o h packet) c = Unit
IsNew (tick now) c = Unit

unfoldable pub AreNew : List Event → Chat → Type 0
AreNew [] c = Unit
AreNew (e ∷ es) c = IsNew e c × AreNew es (handle e c).1

true-false : true ≢ false
true-false e = ground arith

pub handle-IsConsistent :
    (e : Event) (c : Chat)
    → IsNew e c
    → IsConsistent c
    → let (out, d) = handle e c in (is_down out ≡ true) ⊎ IsConsistent d
unfolding handle on_client_join
handle-IsConsistent (join now h ip port) c new v = inr (
    join-Agree c.waiting c.players c.sessions_acc_no c.sector_players v h
      (record { accept_time = now; ip = ip; port = port }) new)
handle-IsConsistent (leave h code ip port) c new v =
    inr (on_client_leave_lem h code ip port c v).agree
handle-IsConsistent (recv o h packet) c new v = on_recv-IsConsistent o h packet c v
handle-IsConsistent (tick now) c new v = inr (content_round-IsConsistent now c v)

-- The state is consistent, unless the process is down.
abbrev pub IsSound : Option Chat → Type 0
IsSound none = Unit
IsSound (some d) = IsConsistent d

-- Any run of joins, leaves, packets and ticks, in which every session that joins is new, keeps the
-- tables consistent as long as no call brings the process down or overruns an array on its stack:
-- no session both waits and has a player, every account leads to a session with a player of that
-- account, and every player that is in a sector of the map stands once in the list of that sector
-- and in no other, while one in the void sector, as after a login, stands in none.
pub run-IsConsistent :
    (es : List Event) (c : Chat) → AreNew es c → IsConsistent c → IsSound (run es c)
unfolding run AreNew
run-IsConsistent [] c new v = v
run-IsConsistent (e ∷ es) c new v = elim (Bool-cases (is_down (handle e c).0)) [
  | inl down ↦ rw (run, down) tt
  | inr up ↦ elim (handle-IsConsistent e c new.0 v) [
    | inl down ↦ absurd (true-false (sym down ∙ up))
    | inr kept ↦ rw (run, up) (run-IsConsistent es (handle e c).1 new.1 kept)
  ]
]
