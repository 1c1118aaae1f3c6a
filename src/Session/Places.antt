-- ===== src/Session/Places.antt =====
-- Every step of Session.Life keeps what is said of a place there.
use iocpnet_module_mono_repo.Prelude.{
  ℕ, ◌+◌, ◌%◌, ◌^◌, ◌<◌, ◌≤◌, ◌≡◌, refl, sym, subst, ap, ◌∙◌, arith, List, ◌∷◌, true, false, leb,
  inl, inr,
}
use iocpnet_module_mono_repo.Prelude.Memory.{Memory}
use iocpnet_module_mono_repo.Frame.{NetConfig}
use iocpnet_module_mono_repo.Session.{
  Session, Shared, release_io_count, create_session_handle, decode_session_handle, connect,
  clear_send_packets, clear_send_buffer,
}
use iocpnet_module_mono_repo.Session.Server.{Server, send_packet, disconnect}
use iocpnet_module_mono_repo.Session.Accept.{accept, place_session, pop_index}
use iocpnet_module_mono_repo.Session.Handles.{decode-create}
use iocpnet_module_mono_repo.Session.AtPlace.{
  put_here, send_packet_at, disconnect_at, send_packet_closed, disconnect_closed, Sent, Marked,
}
use iocpnet_module_mono_repo.Session.Kept.{Held}
use iocpnet_module_mono_repo.Session.Life.{
  Place, one, posts_now, called, Step, enters, receives, posts, sends, calls_send, calls_disconnect,
  accepts, others, IsLive, Open, Closed,
}
use iocpnet_module_mono_repo.Session.Living.{
  entered-IsLive, send_posted-IsLive, sent-IsLive, received-IsLive, called-IsLive,
}

no_post : (s t : Session) → t.is_sending ≡ s.is_sending → one (posts_now s t) ≡ 0
no_post s t same = rw same (ground arith)

module _ (c : NetConfig) (junk : Memory) (k : ℕ) where
  called-Closed :
      (p : Place) (h : ℕ) (v : Server)
      → (decode_session_handle h).0 ≡ k
      → Closed c junk k p h
      → Marked (p.server.sessions k) (v.sessions k)
      → IsLive c junk k (called c junk k v p)
  called-Closed p h v at o (m, above, end_at) =
      let s : Session = p.server.sessions k in
      let count : (v.sessions k).io_count ≡ m = ap (λ t. t.io_count) end_at in
      let quiet : one (posts_now s (v.sessions k)) ≡ 0 =
        no_post s (v.sessions k) (ap (λ t. t.is_sending) end_at) in
      (
        h,
        at,
        inr (record {
          nothing_left = omega (arith, o.nothing_left, quiet);
          named = ap (λ t. t.handle) end_at ∙ o.named;
          marked = omega (arith, o.marked, count);
        }),
      )

  -- a call of `Disconnect` leaves as much as one of `SendPacket` that posts nothing
  disconnect_Sent :
      (handle n : ℕ) (s : Session) (v : Server)
      → (decode_session_handle handle).0 ≡ k
      → v.sessions k ≡ s
      → s.io_count ≡ n
      → 0 < n
      → n < 253
      → Sent n s ((disconnect handle v).1.sessions k)
  disconnect_Sent handle n s v at here count more few =
      let (asked, end_at) = disconnect_at handle k at n s v here count more (omega arith) in
      (s.send_buffer, s.leave_code, asked, false, (λ e. absurd (ground arith)), end_at)

  Held_small : (p : Place) (h n : ℕ) → Open c junk k p h n → n < 4
  Held_small p h n o = omega (arith, o.sum, o.one_receive, o.one_send)

  connect_Held :
      (handle socket ip port : ℕ) (s : Session) (w : Shared)
      → Held handle 1 false (connect handle socket ip port s w).0
  unfolding connect clear_send_packets clear_send_buffer
  connect_Held handle socket ip port s w = record {
    named = refl;
    no_content = refl;
    sending = λ e. absurd (ground arith);
    counted = refl;
  }

  accept_at :
      (v : Server) (pool : List ℕ)
      → v.session_index_pool ≡ k ∷ pool
      → leb v.max_of_session v.session_count ≡ false
      → (uninitialized socket ip port : ℕ)
      → let handle : ℕ = create_session_handle k ((v.id_pool + 1) % 2 ^ 64) in
        (accept true uninitialized socket ip port v).sessions k
        ≡ (connect handle socket ip port (v.sessions k) v.shared).0
  unfolding accept place_session pop_index
  accept_at v pool top room uninitialized socket ip port =
      let handle : ℕ = create_session_handle k ((v.id_pool + 1) % 2 ^ 64) in
      rw (room, top) (put_here k (connect handle socket ip port (v.sessions k) v.shared).0 v)

  accepted-IsLive :
      (p : Place) (h : ℕ) (pool : List ℕ)
      → k < 2 ^ 16
      → Closed c junk k p h
      → release_io_count ≤ (p.server.sessions k).io_count
      → p.server.session_index_pool ≡ k ∷ pool
      → leb p.server.max_of_session p.server.session_count ≡ false
      → (uninitialized socket ip port : ℕ)
      → IsLive c junk k (record p {
        server = accept true uninitialized socket ip port p.server;
        entering = p.entering + 1;
      })
  accepted-IsLive p h pool narrow o is_free top room uninitialized socket ip port =
      let id : ℕ = (p.server.id_pool + 1) % 2 ^ 64 in
      let handle : ℕ = create_session_handle k id in
      (
        handle,
        ap (λ t. t.0) (decode-create k id narrow).0,
        inl (
          1,
          record {
            some_left = omega arith;
            sum = omega (arith, o.nothing_left);
            one_receive = omega (arith, o.nothing_left);
            one_send = omega (arith, o.nothing_left);
            held =
                subst (Held handle 1 false)
                  (sym (accept_at p.server pool top room uninitialized socket ip port))
                  (connect_Held handle socket ip port (p.server.sessions k) p.server.shared);
            flagged = λ busy. absurd (omega (arith, o.nothing_left));
          },
        ),
      )

  -- a closed session has no completion to come
  none_due :
      (p : Place) (h : ℕ)
      → Closed c junk k p h
      → ((p.entering ≡ 0) × (p.receiving ≡ 0) × (p.sending ≡ 0))
  none_due p h o =
      (omega (arith, o.nothing_left), omega (arith, o.nothing_left), omega (arith, o.nothing_left))

  others-IsLive :
      (p : Place) (v : Server)
      → v.sessions k ≡ p.server.sessions k
      → IsLive c junk k p
      → IsLive c junk k (record p { server = v })
  others-IsLive p v same (h, at, inl (n, o)) = (
    h,
    at,
    inl (
      n,
      record {
        some_left = o.some_left;
        sum = o.sum;
        one_receive = o.one_receive;
        one_send = o.one_send;
        held = subst (Held h n false) (sym same) o.held;
        flagged = λ busy. ap (λ t. t.is_sending) same ∙ o.flagged busy;
      },
    ),
  )
  others-IsLive p v same (h, at, inr o) = (
    h,
    at,
    inr (record {
      nothing_left = o.nothing_left;
      named = ap (λ t. t.handle) same ∙ o.named;
      marked = subst (λ (t : Session). release_io_count ≤ t.io_count) (sym same) o.marked;
    }),
  )

  pub Step-IsLive :
      (p q : Place) → k < 2 ^ 16 → Step c junk k p q → IsLive c junk k p → IsLive c junk k q
  Step-IsLive p _ narrow (enters _ due accepted) (h, at, inl (n, o)) =
      entered-IsLive c junk k p h n at o due accepted
  Step-IsLive p _ narrow (enters _ due accepted) (h, at, inr o) =
      absurd (omega (arith, (none_due p h o).0))
  Step-IsLive p _ narrow (receives _ due accepted transferred again v run) (h, at, inl (n, o)) =
      received-IsLive c junk k p h n at o due accepted transferred again v run
  Step-IsLive p _ narrow (receives _ due accepted transferred again v run) (h, at, inr o) =
      absurd (omega (arith, (none_due p h o).1))
  Step-IsLive p _ narrow (posts _ due accepted) (h, at, inl (n, o)) =
      send_posted-IsLive c junk k p h n at o due accepted
  Step-IsLive p _ narrow (posts _ due accepted) (h, at, inr o) =
      absurd (omega (arith, (none_due p h o).2))
  Step-IsLive p _ narrow (sends _ due accepted transferred) (h, at, inl (n, o)) =
      sent-IsLive c junk k p h n at o due accepted transferred
  Step-IsLive p _ narrow (sends _ due accepted transferred) (h, at, inr o) =
      absurd (omega (arith, (none_due p h o).2))
  Step-IsLive p _ narrow (calls_send _ handle packet at' few) (h, at, inl (n, o)) =
      called-IsLive c junk k p h n at o (send_packet handle packet p.server).1 (
        send_packet_at handle k at' packet n (p.server.sessions k) p.server refl o.held.counted
          o.some_left (omega (arith, Held_small p h n o)))
  Step-IsLive p _ narrow (calls_send _ handle packet at' few) (h, at, inr o) =
      called-Closed p h (send_packet handle packet p.server).1 at o
        (send_packet_closed handle k at' packet (p.server.sessions k) p.server refl o.marked few)
  Step-IsLive p _ narrow (calls_disconnect _ handle at' few) (h, at, inl (n, o)) =
      called-IsLive c junk k p h n at o (disconnect handle p.server).1 (
        disconnect_Sent handle n (p.server.sessions k) p.server at' refl o.held.counted o.some_left
          (omega (arith, Held_small p h n o)))
  Step-IsLive p _ narrow (calls_disconnect _ handle at' few) (h, at, inr o) =
      called-Closed p h (disconnect handle p.server).1 at o
        (disconnect_closed handle k at' (p.server.sessions k) p.server refl o.marked few)
  Step-IsLive p _ narrow (accepts _ pool due top room u socket ip port) (h, at, inl (n, o)) =
      absurd (omega (arith, due, o.held.counted, Held_small p h n o))
  Step-IsLive p _ narrow (accepts _ pool due top room u socket ip port) (h, at, inr o) =
      accepted-IsLive p h pool narrow o due top room u socket ip port
  Step-IsLive p _ narrow (others _ v same) live = others-IsLive p v same live
