-- ===== src/Session/AtPlace.antt =====
-- What FindSession, ReturnSession, Disconnect and SendPacket leave of the session at one place.
use iocpnet_module_mono_repo.Prelude.{
  ℕ, ◌+◌, ◌/◌, ◌%◌, ◌<◌, ◌≤◌, ◌≡◌, ◌≢◌, refl, sym, subst, ap, ◌∙◌, arith, List, [], ◌∷◌, ◌++◌, Bool,
  true, false, none, some, ltb, leb, ◌==◌, not, if◌then◌else◌, length, inl, inr, ◌⊎◌, Bool-cases,
}
use iocpnet_module_mono_repo.Frame.Receive.{LeaveCode, send_full}
use iocpnet_module_mono_repo.Session.{
  Session, Shared, release_io_count, up, emit, post_send_post, cancel_io, decode_session_handle,
  decode_io_count, increment_io_count,
}
use iocpnet_module_mono_repo.Session.Server.{
  Server, put_session, find_session, return_session, disconnect, try_send_post, end_send,
  send_packet, post_queued, refuse_full, queue_packet, put_count,
}
use iocpnet_module_mono_repo.Session.Finding.{increment_in_use, decrement_in_use}

==-refl : (i : ℕ) → (i == i) ≡ true
==-refl i = ground arith

==→eq : (a b : ℕ) → (a == b) ≡ true → a ≡ b
==→eq a b h = ground arith

==-apart : (a b : ℕ) → (a == b) ≡ false → a ≢ b
==-apart a b h = ground arith

pub put_here : (k : ℕ) (s : Session) (v : Server) → (put_session k s v).sessions k ≡ s
put_here k s v = ap (λ b. if b then s else v.sessions k) (==-refl k)

-- the session with another count
abbrev pub with_count : ℕ → Session → Session
with_count n s = record s { io_count = n }

abbrev pub asked_with : ℕ → Session → Session
asked_with n s = record s { request_disconnect = true; io_count = n }

abbrev pub refused_with : Session → Session
refused_with s = record s { leave_code = send_full }

abbrev pub queued_with : ℕ → Session → Session
queued_with p s = record s { send_buffer = s.send_buffer ++ (p ∷ []) }

-- What a call of `SendPacket` leaves of a session in use: the packet may be queued, the reason
-- for leaving may be set, and where the session was not sending it may now be, with one more
-- reference.
abbrev pub Sent : ℕ → Session → Session → Type 0
Sent n s t =
    (queue : List ℕ) × (code : LeaveCode) × (asked posts : Bool) × (posts ≡ true
      → s.is_sending ≡ false)
    × (t ≡ record s {
      send_buffer = queue;
      leave_code = code;
      request_disconnect = asked;
      is_sending = if posts then true else s.is_sending;
      io_count = if posts then n + 1 else n;
    })

-- The calls on a released session find nothing; its mark stays, raised by one at most.
abbrev pub Marked : Session → Session → Type 0
Marked s t = (m : ℕ) × (s.io_count ≤ m) × (t ≡ with_count m s)

pub return_at :
    (k n : ℕ) (s : Session) (v : Server)
    → v.sessions k ≡ s
    → s.io_count ≡ n + 1
    → 0 < n
    → n < 255
    → ((return_session k v).0 ≡ false) × ((return_session k v).1.sessions k ≡ with_count n s)
unfolding return_session
return_at k n s v here count more few =
    let low = decrement_in_use s v.shared n count more few in rw (here, low, ==-refl k) (refl, refl)

pub return_put :
    (k n : ℕ) (s : Session) (v : Server)
    → s.io_count ≡ n + 1
    → 0 < n
    → n < 255
    → ((return_session k (put_session k s v)).0 ≡ false)
      × ((return_session k (put_session k s v)).1.sessions k ≡ with_count n s)
return_put k n s v count more few =
    return_at k n s (put_session k s v) (put_here k s v) count more few

increment_closed :
    (s : Session)
    → release_io_count ≤ s.io_count
    → s.io_count < 65535
    → increment_io_count s ≡ (true, with_count (s.io_count + 1) s)
unfolding increment_io_count decode_io_count
increment_closed s marked few =
    let count : up s.io_count ≡ s.io_count + 1 = omega arith in
    let flag : ((s.io_count + 1) / 256 % 256 == 0) ≡ false = ground arith in rw (count, flag) refl

pub try_busy : (s : Session) (w : Shared) → s.is_sending ≡ true → try_send_post s w ≡ (false, s, w)
unfolding try_send_post
try_busy s w busy =
    ap
      (λ b.
        if b
        then (false, s, w)
        else (true, record s { is_sending = true }, emit (post_send_post s.handle) w))
      busy

pub try_idle :
    (s : Session) (w : Shared)
    → s.is_sending ≡ false
    → try_send_post s w ≡ (true, record s { is_sending = true }, emit (post_send_post s.handle) w)
unfolding try_send_post
try_idle s w idle =
    ap
      (λ b.
        if b
        then (false, s, w)
        else (true, record s { is_sending = true }, emit (post_send_post s.handle) w))
      idle

module _ (handle k : ℕ) (at : (decode_session_handle handle).0 ≡ k) where
  pub find_at :
      (n : ℕ) (s : Session) (v : Server)
      → v.sessions k ≡ s
      → s.io_count ≡ n
      → 0 < n
      → n < 254
      → (((find_session handle v).0 ≡ some k)
          × ((find_session handle v).1.sessions k ≡ with_count (n + 1) s))
        ⊎ (((find_session handle v).0 ≡ none)
            × ((find_session handle v).1.sessions k ≡ with_count n s))
  unfolding find_session
  find_at n s v here count more few = elim (Bool-cases (leb v.max_of_session k)) [
    | inl outside ↦ inr (rw (at, outside) (refl, here ∙ ap (λ c. with_count c s) count))
    | inr inside ↦
        let enter = increment_in_use s (omega (arith, count)) in
        elim (Bool-cases (s.handle == handle)) [
          | inl same ↦ inl (
              rw (at, inside, here, enter, same, ==-refl k)
                (refl, ap (λ c. with_count (c + 1) s) count))
          | inr other ↦
              let raised : Session = with_count (s.io_count + 1) s in
              let back = return_put k n raised v (omega (arith, count)) more (omega arith) in
              inr (rw (at, inside, here, enter, other) (refl, back.1))
        ]
  ]

  pub disconnect_at :
      (n : ℕ) (s : Session) (v : Server)
      → v.sessions k ≡ s
      → s.io_count ≡ n
      → 0 < n
      → n < 254
      → (b : Bool) × ((disconnect handle v).1.sessions k
          ≡ record s { request_disconnect = b; io_count = n })
  unfolding disconnect
  disconnect_at n s v here count more few = elim (find_at n s v here count more few) [
    | inr (nothing, at_k) ↦ (s.request_disconnect, rw (disconnect, nothing) at_k)
    | inl (found, at_k) ↦
        let v1 : Server = (find_session handle v).1 in
        let asked : Session = record (v1.sessions k) { request_disconnect = true } in
        let w : Server = record v1 { shared = emit (cancel_io asked.socket) v1.shared } in
        let back = return_put k n asked w (ap (λ t. t.io_count) at_k) more (omega arith) in
        (true, rw (disconnect, found) (back.1 ∙ ap (asked_with n) at_k))
  ]

  pub post_queued_at :
      (n : ℕ) (s : Session) (v : Server)
      → v.sessions k ≡ s
      → s.io_count ≡ n + 1
      → 0 < n
      → n < 253
      → (posts : Bool) × (posts ≡ true → s.is_sending ≡ false)
        × ((post_queued k v).1.sessions k ≡ record s {
          is_sending = if posts then true else s.is_sending;
          io_count = if posts then n + 1 else n;
        })
  unfolding post_queued end_send
  post_queued_at n s v here count more few =
      let enter = increment_in_use s (omega (arith, count)) in
      let raised : Session = with_count (s.io_count + 1) s in
      let v2 : Server = put_session k raised v in
      elim (Bool-cases s.is_sending) [
        | inl busy ↦
            let w2 : Server = record v2 { shared = v.shared } in
            let v3 : Server = put_session k raised w2 in
            let (kept, at_k) =
              return_put k (n + 1) raised w2 (omega (arith, count)) (omega arith) (omega arith) in
            let last =
              return_at k n (with_count (n + 1) raised) (return_session k v3).1 at_k refl more
                (omega arith) in
            (
              false,
              (λ e. absurd (ground arith)),
              rw (here, enter, try_busy raised v.shared busy, kept) last.1,
            )
        | inr idle ↦
            let sending : Session = record raised { is_sending = true } in
            let w2 : Shared = emit (post_send_post s.handle) v.shared in
            let last =
              return_put k (n + 1) sending (record v2 { shared = w2 }) (omega (arith, count))
                (omega arith) (omega arith) in
            (true, (λ e. idle), rw (here, enter, try_idle raised v.shared idle) last.1)
      ]

  pub refuse_full_at :
      (n : ℕ) (s : Session) (v : Server)
      → v.sessions k ≡ s
      → s.io_count ≡ n + 1
      → 0 < n
      → n < 253
      → (b : Bool) × ((refuse_full handle k v).sessions k
          ≡ record s { leave_code = send_full; request_disconnect = b; io_count = n })
  unfolding refuse_full
  refuse_full_at n s v here count more few =
      let full : Session = refused_with (v.sessions k) in
      let (_, back) =
        return_put k n full v (ap (λ t. t.io_count) here ∙ count) more (omega arith) in
      disconnect_at n (with_count n (refused_with s)) (return_session k (put_session k full v)).1
        (back ∙ ap (λ t. with_count n (refused_with t)) here) refl more (omega arith)

  send_packet-cases :
      (p : ℕ) (v : Server)
      → let (found, v1) = find_session handle v in
        let counted : Shared = put_count p (v1.shared.ref_count p + 1) v1.shared in
        ((found ≡ none) → (send_packet handle p v).1 ≡ v1)
        × (found ≡ some k
            → (((send_packet handle p v).1 ≡ refuse_full handle k v1)
                ⊎ ((send_packet handle p v).1
                    ≡ (post_queued k (queue_packet p k (record v1 { shared = counted }))).1)))
  unfolding send_packet
  send_packet-cases p v =
      let v1 : Server = (find_session handle v).1 in
      let full : Bool = ltb v.max_of_send_packets (length (v1.sessions k).send_buffer) in
      (
        (λ e. rw (send_packet, e) refl),
        λ e. elim (Bool-cases full) [
          | inl is ↦ inl (rw (send_packet, e, is) refl)
          | inr not ↦ inr (rw (send_packet, e, not) refl)
        ],
      )

  pub send_packet_at :
      (p n : ℕ) (s : Session) (v : Server)
      → v.sessions k ≡ s
      → s.io_count ≡ n
      → 0 < n
      → n < 253
      → Sent n s ((send_packet handle p v).1.sessions k)
  send_packet_at p n s v here count more few =
      let (unknown, known) = send_packet-cases p v in
      elim (find_at n s v here count more (omega arith)) [
        | inr (nothing, at_k) ↦ (
          s.send_buffer,
          s.leave_code,
          s.request_disconnect,
          false,
          (λ e. absurd (ground arith)),
          ap (λ t. t.sessions k) (unknown nothing) ∙ at_k,
        )
        | inl (found, at_k) ↦
            let v1 : Server = (find_session handle v).1 in
            elim (known found) [
              | inl full ↦
                  let (asked, end_at) =
                    refuse_full_at n (with_count (n + 1) s) v1 at_k refl more few in
                  (
                    s.send_buffer,
                    send_full,
                    asked,
                    false,
                    (λ e. absurd (ground arith)),
                    ap (λ t. t.sessions k) full ∙ end_at,
                  )
              | inr room ↦
                  let counted : Shared = put_count p (v1.shared.ref_count p + 1) v1.shared in
                  let w : Server = queue_packet p k (record v1 { shared = counted }) in
                  let queued : Session = queued_with p (with_count (n + 1) s) in
                  let (posts, was_idle, end_at) =
                    post_queued_at n queued w
                      (put_here k (queued_with p (v1.sessions k)) (record v1 { shared = counted })
                        ∙ ap (queued_with p) at_k)
                      refl more few in
                  (
                    queued.send_buffer,
                    s.leave_code,
                    s.request_disconnect,
                    posts,
                    was_idle,
                    ap (λ t. t.sessions k) room ∙ end_at,
                  )
            ]
      ]

  find_closed :
      (s : Session) (v : Server)
      → v.sessions k ≡ s
      → release_io_count ≤ s.io_count
      → s.io_count < 65535
      → ((find_session handle v).0 ≡ none) × Marked s ((find_session handle v).1.sessions k)
  unfolding find_session
  find_closed s v here marked few = elim (Bool-cases (leb v.max_of_session k)) [
    | inl outside ↦ (rw (at, outside) refl, (s.io_count, omega arith, rw (at, outside) here))
    | inr inside ↦
        let enter = increment_closed s marked few in
        (
          rw (at, inside, here, enter) refl,
          (s.io_count + 1, omega arith, rw (at, inside, here, enter, ==-refl k) refl),
        )
  ]

  pub disconnect_closed :
      (s : Session) (v : Server)
      → v.sessions k ≡ s
      → release_io_count ≤ s.io_count
      → s.io_count < 65535
      → Marked s ((disconnect handle v).1.sessions k)
  unfolding disconnect
  disconnect_closed s v here marked few =
      let (nothing, found) = find_closed s v here marked few in rw (disconnect, nothing) found

  pub send_packet_closed :
      (p : ℕ) (s : Session) (v : Server)
      → v.sessions k ≡ s
      → release_io_count ≤ s.io_count
      → s.io_count < 65535
      → Marked s ((send_packet handle p v).1.sessions k)
  send_packet_closed p s v here marked few =
      let (nothing, found) = find_closed s v here marked few in
      subst (λ (t : Server). Marked s (t.sessions k)) (sym ((send_packet-cases p v).0 nothing))
        found
