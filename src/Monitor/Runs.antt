-- ===== src/Monitor/Runs.antt =====
-- The handlers of MonitorServer/main.cpp one after another, as the network library and
-- `ClientContentThread` call them.
use iocpnet_module_mono_repo.Prelude.{ℕ, ◌≡◌, List, [], ◌∷◌, none}
use iocpnet_module_mono_repo.Prelude.Assoc.{find}
use iocpnet_module_mono_repo.Packet.{SerializeBuffer}
use iocpnet_module_mono_repo.Frame.Receive.{LeaveCode}
use iocpnet_module_mono_repo.Monitor.{
  MonitorServer, Locals, Output, on_client_join, on_client_leave, take_messages,
}
use iocpnet_module_mono_repo.Monitor.Requests.{on_recv}
use iocpnet_module_mono_repo.Monitor.Owners.{IsOwned}
use iocpnet_module_mono_repo.Monitor.Steps.{
  on_client_join-IsOwned, on_client_leave-IsOwned, on_recv-IsOwned, take_messages-IsOwned,
}

-- What calls the monitor server: the network library, or the content thread, which empties its queue.
pub data Event : Type 0 where
  join : ℕ → ℕ → ℕ → ℕ → Event
  leave : ℕ → LeaveCode → ℕ → ℕ → Event
  recv : Locals → ℕ → SerializeBuffer → Event
  tick : Event

unfoldable pub handle : Event → MonitorServer → List Output × MonitorServer
handle (join now h ip port) s = ([], on_client_join now h ip port s)
handle (leave h code ip port) s = ([], on_client_leave h code ip port s)
handle (recv l h packet) s = on_recv l h packet s
handle tick s = take_messages s.client_content_queue s

unfoldable pub run : List Event → MonitorServer → MonitorServer
run [] s = s
run (e ∷ es) s = run es (handle e s).1

-- No session joins that is a client already: the network library gives every handle once.
abbrev pub IsNew : Event → MonitorServer → Type 0
IsNew (join now h ip port) s = find h s.clients ≡ none
IsNew (leave h code ip port) s = Unit
IsNew (recv l h packet) s = Unit
IsNew tick s = Unit

unfoldable pub AreNew : List Event → MonitorServer → Type 0
AreNew [] s = Unit
AreNew (e ∷ es) s = IsNew e s × AreNew es (handle e s).1

handle-IsOwned : (e : Event) (s : MonitorServer) → IsNew e s → IsOwned s → IsOwned (handle e s).1
unfolding handle
handle-IsOwned (join now h ip port) s new i = on_client_join-IsOwned now h ip port s new i
handle-IsOwned (leave h code ip port) s new i = on_client_leave-IsOwned h code ip port s i
handle-IsOwned (recv l h packet) s new i = on_recv-IsOwned l h packet s i
handle-IsOwned tick s new i = take_messages-IsOwned s.client_content_queue s i

-- Any run of joins, leaves, packets and rounds of the content thread, in which every session that
-- joins is new, keeps the tables of the monitor server in agreement: no session that waits is a
-- client, and the session on record for a server is a client with that server's number.
pub run-IsOwned :
    (es : List Event) (s : MonitorServer) → AreNew es s → IsOwned s → IsOwned (run es s)
unfolding run AreNew
run-IsOwned [] s new i = i
run-IsOwned (e ∷ es) s new i = run-IsOwned es (handle e s).1 new.1 (handle-IsOwned e s new.0 i)
