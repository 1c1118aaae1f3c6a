-- ===== src/Session/Released.antt =====
-- The release of a session without a content in IOCPNetLib/NetLib_Server.cpp, from `ReleaseSession`
-- to the leave that it posts.
use iocpnet_module_mono_repo.Prelude.{
  ℕ, ◌+◌, ◌-◌, ◌%◌, ◌^◌, ◌≡◌, refl, ap, ◌∙◌, List, [], ◌∷◌, ◌++◌, ◌==◌, none, false, Bool-cases,
  inl, inr,
}
use iocpnet_module_mono_repo.Session.{
  Session, Shared, close_socket, post_leave, client_leave, emit, drop_packet, drop_packets,
  clear_send_packets, clear_send_buffer, release_session, release_io_count, decode_session_handle,
}
use iocpnet_module_mono_repo.Session.Server.{Server, put_session}
use iocpnet_module_mono_repo.Session.Worker.{on_leave}
use iocpnet_module_mono_repo.Session.AtPlace.{put_here}

-- packets that are given back ask for nothing
drop_packet-events :
    (p : ℕ) (w : Shared)
    → ((drop_packet p w).events ≡ w.events) × ((drop_packet p w).tps_sets ≡ w.tps_sets)
unfolding drop_packet
drop_packet-events p w = elim (Bool-cases ((w.ref_count p + (2 ^ 32 - 1)) % 2 ^ 32 == 0)) [
  | inl last ↦ rw (drop_packet, last) (refl, refl)
  | inr more ↦ rw (drop_packet, more) (refl, refl)
]

drop_packets-events :
    (ps : List ℕ) (w : Shared)
    → ((drop_packets ps w).events ≡ w.events) × ((drop_packets ps w).tps_sets ≡ w.tps_sets)
unfolding drop_packets
drop_packets-events [] w = (refl, refl)
drop_packets-events (p ∷ ps) w =
    let (first, sets) = drop_packet-events p w in
    let (rest, more) = drop_packets-events ps (drop_packet p w) in (rest ∙ first, more ∙ sets)

-- what a release leaves of a session
abbrev pub IsClosed : Session → Session → Type 0
IsClosed s t =
    (t.io_count ≡ release_io_count)
    × (t.handle ≡ s.handle)
    × (t.is_connecting ≡ false)
    × (t.send_buffer ≡ [])
    × (t.send_packets ≡ [])

release_session-once :
    (s : Session) (w : Shared) → s.io_count ≡ release_io_count → release_session s w ≡ (s, w)
unfolding release_session
release_session-once s w e = rw (release_session, e) refl

release_session-posts :
    (s : Session) (w : Shared)
    → s.io_count ≡ 0
    → s.content ≡ none
    → let (t, w') = release_session s w in
      IsClosed s t
      × (w'.events ≡ (w.events ++ (close_socket s.socket ∷ [])) ++ (post_leave s.handle ∷ []))
      × (w'.tps_sets ≡ w.tps_sets ++ ((s.cumulative_send, s.cumulative_recv) ∷ []))
unfolding release_session clear_send_packets clear_send_buffer
release_session-posts s w zero alone =
    let asked : Shared = emit (close_socket s.socket) w in
    let (sent, sets) = drop_packets-events s.send_packets asked in
    let (left, more) = drop_packets-events s.send_buffer (drop_packets s.send_packets asked) in
    rw (release_session, zero, alone)
      (
        (refl, refl, refl, refl, refl),
        ap (λ es. es ++ (post_leave s.handle ∷ [])) (left ∙ sent),
        ap (λ ts. ts ++ ((s.cumulative_send, s.cumulative_recv) ∷ [])) (more ∙ sets),
      )

-- A session without a content whose count has come to 0 is released: it is closed with nothing left
-- to send, its socket is closed and one leave is posted, and its counts go to the queue of the
-- monitor; a second release does nothing. The completion of the leave tells the application and puts
-- the place of the session, and nothing else, back into the pool, and the sessions are one fewer.
pub release_session-on_leave :
    (k : ℕ) (v : Server)
    → (v.sessions k).io_count ≡ 0
    → (v.sessions k).content ≡ none
    → (decode_session_handle (v.sessions k).handle).0 ≡ k
    → let s = v.sessions k in
      let (t, w) = release_session s v.shared in
      let left = on_leave k (put_session k t (record v { shared = w })) in
      IsClosed s t
      × (w.events ≡ (v.shared.events ++ (close_socket s.socket ∷ [])) ++ (post_leave s.handle ∷ []))
      × (w.tps_sets ≡ v.shared.tps_sets ++ ((s.cumulative_send, s.cumulative_recv) ∷ []))
      × (release_session t w ≡ (t, w))
      × (left.session_index_pool ≡ k ∷ v.session_index_pool)
      × (left.session_count ≡ (v.session_count + (2 ^ 16 - 1)) % 2 ^ 16)
      × (left.shared.events ≡ w.events ++ (client_leave s.handle t.leave_code t.ip t.port ∷ []))
unfolding on_leave
release_session-on_leave k v zero alone at =
    let s : Session = v.sessions k in
    let (t, w) = release_session s v.shared in
    let u : Server = put_session k t (record v { shared = w }) in
    let (closed, events, sets) = release_session-posts s v.shared zero alone in
    let same : u.sessions k ≡ t = put_here k t (record v { shared = w }) in
    let handle : (u.sessions k).handle ≡ s.handle = ap (λ r. r.handle) same ∙ closed.1 in
    (
      closed,
      events,
      sets,
      release_session-once t w closed.0,
      ap (λ h. (decode_session_handle h).0 ∷ v.session_index_pool) handle
          ∙ ap (λ i. i ∷ v.session_index_pool) at,
      refl,
      ap (λ r. w.events ++ (client_leave r.handle r.leave_code r.ip r.port ∷ [])) same
          ∙ ap (λ h. w.events ++ (client_leave h t.leave_code t.ip t.port ∷ [])) closed.1,
    )
