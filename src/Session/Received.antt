-- ===== src/Session/Received.antt =====
-- What the branch of Session.Worker for a receive does to a session's count.
use iocpnet_module_mono_repo.Prelude.{
  ℕ, suc, ◌+◌, ◌<◌, ◌≡◌, refl, sym, subst, ap, arith, List, Bool, true, false, Option, none, some,
  ◌==◌, Bool-cases, inl, inr,
}
use iocpnet_module_mono_repo.Prelude.Memory.{Memory}
use iocpnet_module_mono_repo.Ring.{move_rear, use_size}
use iocpnet_module_mono_repo.Frame.{NetConfig}
use iocpnet_module_mono_repo.Frame.Receive.{
  Receiver, Ended, receive, waiting, disconnecting, faulted, out_of_fuel,
}
use iocpnet_module_mono_repo.Session.{Session, Shared, decode_session_handle}
use iocpnet_module_mono_repo.Session.Server.{Server, disconnect}
use iocpnet_module_mono_repo.Session.Worker.{
  keep, give_back, receiver_of, with_receiver, hand_all, receive_more, after_loop, after_receive,
  on_received,
}
use iocpnet_module_mono_repo.Session.AtPlace.{put_here, disconnect_at}
use iocpnet_module_mono_repo.Session.Kept.{Held, Kept, plus, lower_Kept, receive_more-Kept}

due_of : Option (Bool × Server) → Bool
due_of none = false
due_of (some (due, v)) = due

server_of : Server → Option (Bool × Server) → Server
server_of v none = v
server_of v (some (due, w)) = w

nothing_some : (due : Bool) (v : Server) → ¬ (Path (Option (Bool × Server)) none (some (due, v)))
nothing_some due v e = ground arith

module _ (k h : ℕ) (at : (decode_session_handle h).0 ≡ k) where
  -- the end of the branch, on a server whose session is held
  more_Kept :
      (accepted : Bool) (m : ℕ) (t : Bool) (v : Server)
      → m < 252
      → (t ≡ true → 0 < m)
      → Held h (m + 1) t (v.sessions k)
      → let (due, v') = keep k v (receive_more accepted (v.sessions k) v.shared) in
        Kept h (plus m due) t (v'.sessions k)
  more_Kept accepted m t v few flagged held =
      let (due, s, w) = receive_more accepted (v.sessions k) v.shared in
      subst (Kept h (plus m due) t) (sym (put_here k s (record v { shared = w })))
        (receive_more-Kept accepted h m t (v.sessions k) v.shared (omega arith) flagged held)

  result_Kept :
      (m : ℕ) (t due : Bool) (v : Server) (result : Bool × Server)
      → Path (Option (Bool × Server)) (some result) (some (due, v))
      → Kept h (plus m result.0) t (result.1.sessions k)
      → Kept h (plus m due) t (v.sessions k)
  unfolding due_of server_of
  result_Kept m t due v result run kept =
      subst (λ a. Kept h (plus m a) t (v.sessions k)) (ap due_of run)
        (subst (λ (a : Server). Kept h (plus m result.0) t (a.sessions k)) (ap (server_of v) run)
          kept)

  loop_Held :
      (m : ℕ) (t : Bool) (r : Receiver) (ps : List (List ℕ)) (s : Session) (v : Server)
      → Held h m t s
      → (after_loop k r ps s v).sessions k ≡ with_receiver r s
  unfolding after_loop
  loop_Held m t r ps s v held =
      put_here k (with_receiver r s) (record v { shared = hand_all s.handle ps v.shared })

  with_receiver-Held :
      (m : ℕ) (t : Bool) (r : Receiver) (s : Session)
      → Held h m t s
      → Held h m t (with_receiver r s)
  unfolding with_receiver
  with_receiver-Held m t r s held = record {
    named = held.named;
    no_content = held.no_content;
    sending = held.sending;
    counted = held.counted;
  }

  cut_Held :
      (m : ℕ) (t : Bool) (s : Session) (v : Server)
      → 0 < m
      → m < 254
      → v.sessions k ≡ s
      → Held h m t s
      → Held h m t ((disconnect h v).1.sessions k)
  cut_Held m t s v some_left few here held =
      let (asked, end_at) = disconnect_at h k at m s v here held.counted some_left few in
      subst (Held h m t) (sym end_at) (record {
        named = held.named;
        no_content = held.no_content;
        sending = held.sending;
        counted = refl;
      })

  after_receive-Kept :
      (accepted : Bool) (m : ℕ) (t due : Bool) (s : Session) (v v' : Server) (ended : Ended)
      → m < 252
      → (t ≡ true → 0 < m)
      → Held h (m + 1) t s
      → after_receive accepted k s v ended ≡ some (due, v')
      → Kept h (plus m due) t (v'.sessions k)
  unfolding after_receive
  after_receive-Kept accepted m t due s v v' (waiting ps r) few flagged held run =
      let v1 : Server = after_loop k r ps s v in
      let here : Held h (m + 1) t (v1.sessions k) =
        subst (Held h (m + 1) t) (sym (loop_Held (m + 1) t r ps s v held))
          (with_receiver-Held (m + 1) t r s held) in
      result_Kept m t due v' (keep k v1 (receive_more accepted (v1.sessions k) v1.shared)) run
        (more_Kept accepted m t v1 few flagged here)
  after_receive-Kept accepted m t due s v v' (disconnecting ps r) few flagged held run =
      let v0 : Server = after_loop k r ps s v in
      let v1 : Server = (disconnect s.handle v0).1 in
      let before : Held h (m + 1) t ((disconnect h v0).1.sessions k) =
        cut_Held (m + 1) t (with_receiver r s) v0 (omega arith) (omega arith)
          (loop_Held (m + 1) t r ps s v held) (with_receiver-Held (m + 1) t r s held) in
      let here : Held h (m + 1) t (v1.sessions k) =
        subst (λ a. Held h (m + 1) t ((disconnect a v0).1.sessions k)) (sym held.named) before in
      result_Kept m t due v' (keep k v1 (receive_more accepted (v1.sessions k) v1.shared)) run
        (more_Kept accepted m t v1 few flagged here)
  after_receive-Kept accepted m t due s v v' (faulted ps) few flagged held run =
      absurd (nothing_some due v' run)
  after_receive-Kept accepted m t due s v v' out_of_fuel few flagged held run =
      absurd (nothing_some due v' run)

-- on a receive of the session, the count of it afterwards
pub on_received-Kept :
    (c : NetConfig) (junk : Memory) (k h : ℕ)
    → (decode_session_handle h).0 ≡ k
    → (accepted : Bool) (transferred m : ℕ) (t due : Bool) (v v' : Server) → m < 252
    → (t ≡ true → 0 < m)
    → Held h (m + 1) t (v.sessions k)
    → on_received c junk accepted transferred k v ≡ some (due, v')
    → Kept h (plus m due) t (v'.sessions k)
unfolding on_received
on_received-Kept c junk k h at accepted transferred m t due v v' few flagged held run =
    let s : Session = v.sessions k in
    let arrived : Session = record s { recv_buffer = (move_rear transferred s.recv_buffer).1 } in
    let ended : Ended = receive c junk (suc (use_size arrived.recv_buffer)) (receiver_of arrived) in
    elim (Bool-cases (transferred == 0)) [
      | inl closed ↦
          let last : Session = (give_back false s v.shared).1 in
          let w : Shared = (give_back false s v.shared).2 in
          result_Kept k h at m t due v' (keep k v (give_back false s v.shared)) (rw closed at run) (
            subst (Kept h m t) (sym (put_here k last (record v { shared = w })))
              (lower_Kept h m t s v.shared (omega arith) flagged held))
      | inr some_bytes ↦
          after_receive-Kept k h at accepted m t due arrived v v' ended few flagged
            (record {
              named = held.named;
              no_content = held.no_content;
              sending = held.sending;
              counted = held.counted;
            })
            (rw some_bytes at run)
    ]
