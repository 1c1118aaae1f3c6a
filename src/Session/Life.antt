-- ===== src/Session/Life.antt =====
-- The life of one place of `m_sessions`: the steps that the threads of IOCPNetLib/NetLib_Server.cpp
-- take on it, one completion, one call or one accepted connection at a time, in any order. (The
-- single accesses to the count between them are in Session.Counting.)
use iocpnet_module_mono_repo.Prelude.{
  ℕ, ◌+◌, ◌-◌, ◌<◌, ◌≤◌, ◌≡◌, List, ◌∷◌, Bool, true, false, some, leb, ◌&&◌, not, if◌then◌else◌,
  ◌⊎◌,
}
use iocpnet_module_mono_repo.Prelude.Memory.{Memory}
use iocpnet_module_mono_repo.Frame.{NetConfig}
use iocpnet_module_mono_repo.Session.{Session, release_io_count, decode_session_handle}
use iocpnet_module_mono_repo.Session.Server.{Server, send_packet, disconnect}
use iocpnet_module_mono_repo.Session.Worker.{keep, on_enter, on_send_post, on_sent, on_received}
use iocpnet_module_mono_repo.Session.Accept.{accept}
use iocpnet_module_mono_repo.Session.Kept.{Held}

-- The server with what is under way at the place: the connections that are to be entered, the
-- receives, and the sends and posts for sending.
pub record Place : Type 0 where
  pub server : Server
  pub entering : ℕ
  pub receiving : ℕ
  pub sending : ℕ

abbrev pub one : Bool → ℕ
one b = if b then 1 else 0

-- the exchange on `IsSending` succeeded, and a post for sending is under way
abbrev pub posts_now : Session → Session → Bool
posts_now s t = not s.is_sending && t.is_sending

module _ (c : NetConfig) (junk : Memory) (k : ℕ) where
  abbrev pub moved : Place → Server → ℕ → ℕ → ℕ → Place
  moved p v entering receiving sending = record p {
    server = v;
    entering = entering;
    receiving = receiving;
    sending = sending;
  }

  abbrev pub entered : Bool → Place → Place
  entered accepted p =
      let (due, v) = keep k p.server (on_enter accepted (p.server.sessions k) p.server.shared) in
      moved p v (p.entering - 1) (p.receiving + one due) p.sending

  abbrev pub send_posted : Bool → Place → Place
  send_posted accepted p =
      let (due, v) =
        keep k p.server (on_send_post accepted (p.server.sessions k) p.server.shared) in
      moved p v p.entering p.receiving (p.sending - 1 + one due)

  abbrev pub sent : Bool → ℕ → Place → Place
  sent accepted transferred p =
      let (due, v) =
        keep k p.server (on_sent accepted transferred (p.server.sessions k) p.server.shared) in
      moved p v p.entering p.receiving (p.sending - 1 + one due)

  abbrev pub called : Server → Place → Place
  called v p =
      moved p v p.entering p.receiving
        (p.sending + one (posts_now (p.server.sessions k) (v.sessions k)))

  -- One step. A call is made with any handle of this place, old or new, as long as the calls for
  -- released sessions have not used the count up. A connection comes to a place whose session is
  -- released. What leaves the session as it is, such as the handling of its leave, which gives the
  -- place back to the pool, is a step of others.
  pub data Step : Place → Place → Type 0 where
    enters : (p : Place) → 0 < p.entering → (accepted : Bool) → Step p (entered accepted p)
    receives :
        (p : Place)
        → 0 < p.receiving
        → (accepted : Bool) (transferred : ℕ) (due : Bool) (v : Server)
        → on_received c junk accepted transferred k p.server ≡ some (due, v)
        → Step p (moved p v p.entering (p.receiving - 1 + one due) p.sending)
    posts : (p : Place) → 0 < p.sending → (accepted : Bool) → Step p (send_posted accepted p)
    sends :
        (p : Place)
        → 0 < p.sending
        → (accepted : Bool) (transferred : ℕ) → Step p (sent accepted transferred p)
    calls_send :
        (p : Place) (handle packet : ℕ)
        → (decode_session_handle handle).0 ≡ k
        → (p.server.sessions k).io_count < 65535
        → Step p (called (send_packet handle packet p.server).1 p)
    calls_disconnect :
        (p : Place) (handle : ℕ)
        → (decode_session_handle handle).0 ≡ k
        → (p.server.sessions k).io_count < 65535
        → Step p (called (disconnect handle p.server).1 p)
    accepts :
        (p : Place) (pool : List ℕ)
        → release_io_count ≤ (p.server.sessions k).io_count
        → p.server.session_index_pool ≡ k ∷ pool
        → leb p.server.max_of_session p.server.session_count ≡ false
        → (uninitialized socket ip port : ℕ)
        → Step p (record p {
          server = accept true uninitialized socket ip port p.server;
          entering = p.entering + 1;
        })
    others :
        (p : Place) (v : Server)
        → v.sessions k ≡ p.server.sessions k
        → Step p (record p { server = v })

  pub data Run : Place → Place → Type 0 where
    start : (p : Place) → Run p p
    later : {p q r : Place} → Run p q → Step q r → Run p r

  -- While a session is open, its count is the number of operations under way, of which at most
  -- one is to receive and at most one to send; after its release nothing is under way.
  pub record Open (p : Place) (h n : ℕ) : Type 0 where
    pub some_left : 0 < n
    pub sum : p.entering + p.receiving + p.sending ≡ n
    pub one_receive : p.entering + p.receiving ≤ 1
    pub one_send : p.sending ≤ 1
    pub held : Held h n false (p.server.sessions k)
    pub flagged : 0 < p.sending → (p.server.sessions k).is_sending ≡ true

  pub record Closed (p : Place) (h : ℕ) : Type 0 where
    pub nothing_left : p.entering + p.receiving + p.sending ≡ 0
    pub named : (p.server.sessions k).handle ≡ h
    pub marked : release_io_count ≤ (p.server.sessions k).io_count

  abbrev pub IsLive : Place → Type 0
  IsLive p = (h : ℕ) × ((decode_session_handle h).0 ≡ k) × (((n : ℕ) × Open p h n) ⊎ Closed p h)
