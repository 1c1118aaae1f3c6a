-- ===== src/Session/Elsewhere.antt =====
-- What the calls on a session in use leave as it is: the other sessions, and the references.
use iocpnet_module_mono_repo.Prelude.{
  ℕ, ◌+◌, ◌<◌, ◌≡◌, refl, ap, ◌∙◌, arith, true, false, leb, ◌==◌, if◌then◌else◌, inl, inr,
  Bool-cases,
}
use iocpnet_module_mono_repo.Session.{
  Session, Shared, emit, post_send_post, cancel_io, decode_session_handle,
}
use iocpnet_module_mono_repo.Session.Server.{
  Server, put_session, find_session, return_session, disconnect, end_send, post_queued, refuse_full,
}
use iocpnet_module_mono_repo.Session.Finding.{increment_in_use, decrement_in_use}
use iocpnet_module_mono_repo.Session.AtPlace.{
  with_count, put_here, return_put, find_at, try_busy, try_idle, refused_with,
}

pub record Only (k : ℕ) (v w : Server) : Type 0 where
  pub elsewhere : (j : ℕ) → (j == k) ≡ false → w.sessions j ≡ v.sessions j
  pub places : w.max_of_session ≡ v.max_of_session
  pub limit : w.max_of_send_packets ≡ v.max_of_send_packets
  pub counts : w.shared.ref_count ≡ v.shared.ref_count
  pub freed : w.shared.freed ≡ v.shared.freed

module _ (k : ℕ) where
  pub Only-same : (v : Server) → Only k v v
  Only-same v = record {
    elsewhere = λ j e. refl;
    places = refl;
    limit = refl;
    counts = refl;
    freed = refl;
  }

  pub Only-then : (u v w : Server) → Only k u v → Only k v w → Only k u w
  Only-then u v w a b = record {
    elsewhere = λ j e. b.elsewhere j e ∙ a.elsewhere j e;
    places = b.places ∙ a.places;
    limit = b.limit ∙ a.limit;
    counts = b.counts ∙ a.counts;
    freed = b.freed ∙ a.freed;
  }

  pub put_Only :
      (s : Session) (v : Server) (w : Shared)
      → w.ref_count ≡ v.shared.ref_count
      → w.freed ≡ v.shared.freed
      → Only k v (put_session k s (record v { shared = w }))
  put_Only s v w counts freed = record {
    elsewhere = λ j e. ap (λ b. if b then s else v.sessions j) e;
    places = refl;
    limit = refl;
    counts = counts;
    freed = freed;
  }

  pub return_Only :
      (n : ℕ) (v : Server)
      → (v.sessions k).io_count ≡ n + 1
      → 0 < n
      → n < 255
      → Only k v (return_session k v).1
  unfolding return_session
  return_Only n v count more few =
      let low = decrement_in_use (v.sessions k) v.shared n count more few in
      rw low (put_Only (with_count n (v.sessions k)) v v.shared refl refl)

  module _ (handle : ℕ) (at : (decode_session_handle handle).0 ≡ k) where
    pub find_Only :
        (n : ℕ) (v : Server)
        → (v.sessions k).io_count ≡ n
        → 0 < n
        → n < 254
        → Only k v (find_session handle v).1
    unfolding find_session
    find_Only n v count more few = elim (Bool-cases (leb v.max_of_session k)) [
      | inl outside ↦ rw (at, outside) (Only-same v)
      | inr inside ↦
          let s : Session = v.sessions k in
          let raised : Session = with_count (s.io_count + 1) s in
          let enter = increment_in_use s (omega (arith, count)) in
          let entered : Only k v (put_session k raised v) = put_Only raised v v.shared refl refl in
          elim (Bool-cases (s.handle == handle)) [
            | inl same ↦ rw (at, inside, enter, same) entered
            | inr other ↦
                rw (at, inside, enter, other)
                  (Only-then v (put_session k raised v)
                    (return_session k (put_session k raised v)).1 entered
                    (return_Only n (put_session k raised v)
                      (ap (λ t. t.io_count) (put_here k raised v) ∙ omega (arith, count)) more
                      (omega arith)))
          ]
    ]

    pub disconnect-Only :
        (n : ℕ) (v : Server)
        → (v.sessions k).io_count ≡ n
        → 0 < n
        → n < 254
        → Only k v (disconnect handle v).1
    unfolding disconnect
    disconnect-Only n v count more few =
        let found_Only = find_Only n v count more few in
        elim (find_at handle k at n (v.sessions k) v refl count more few) [
          | inr (nothing, _) ↦ rw (disconnect, nothing) found_Only
          | inl (found, at_k) ↦
              let v1 : Server = (find_session handle v).1 in
              let asked : Session = record (v1.sessions k) { request_disconnect = true } in
              let w : Server = record v1 { shared = emit (cancel_io asked.socket) v1.shared } in
              let v2 : Server = put_session k asked w in
              let users : (v2.sessions k).io_count ≡ n + 1 =
                ap (λ t. t.io_count) (put_here k asked w) ∙ ap (λ t. t.io_count) at_k in
              let marked : Only k v1 v2 = put_Only asked v1 w.shared refl refl in
              let back : Only k v2 (return_session k v2).1 =
                return_Only n v2 users more (omega arith) in
              rw (disconnect, found)
                (Only-then v v1 (return_session k v2).1 found_Only
                  (Only-then v1 v2 (return_session k v2).1 marked back))
        ]

    pub refuse_full-Only :
        (n : ℕ) (v : Server)
        → (v.sessions k).io_count ≡ n + 1
        → 0 < n
        → n < 254
        → Only k v (refuse_full handle k v)
    unfolding refuse_full
    refuse_full-Only n v count more few =
        let full : Session = refused_with (v.sessions k) in
        let v1 : Server = put_session k full v in
        let v2 : Server = (return_session k v1).1 in
        let users : (v1.sessions k).io_count ≡ n + 1 =
          ap (λ t. t.io_count) (put_here k full v) ∙ count in
        let after : (v2.sessions k).io_count ≡ n =
          ap (λ t. t.io_count) (return_put k n full v count more (omega arith)).1 in
        Only-then v v1 (disconnect handle v2).1 (put_Only full v v.shared refl refl) (
          Only-then v1 v2 (disconnect handle v2).1 (return_Only n v1 users more (omega arith))
            (disconnect-Only n v2 after more few))

  pub post_queued-Only :
      (n : ℕ) (v : Server)
      → (v.sessions k).io_count ≡ n + 1
      → 0 < n
      → n < 253
      → Only k v (post_queued k v).1
  unfolding post_queued end_send
  post_queued-Only n v count more few =
      let s : Session = v.sessions k in
      let enter = increment_in_use s (omega (arith, count)) in
      let raised : Session = with_count (s.io_count + 1) s in
      let v2 : Server = put_session k raised v in
      let entered : Only k v v2 = put_Only raised v v.shared refl refl in
      elim (Bool-cases s.is_sending) [
        | inl busy ↦
            let w2 : Server = record v2 { shared = v.shared } in
            let v3 : Server = put_session k raised w2 in
            let v4 : Server = (return_session k v3).1 in
            let (kept, at_k) =
              return_put k (n + 1) raised w2 (omega (arith, count)) (omega arith) (omega arith) in
            let users : (v3.sessions k).io_count ≡ n + 1 + 1 =
              ap (λ t. t.io_count) (put_here k raised w2) ∙ omega (arith, count) in
            let same : Only k v2 v3 = put_Only raised v2 v.shared refl refl in
            let once : Only k v3 v4 = return_Only (n + 1) v3 users (omega arith) (omega arith) in
            let twice : Only k v4 (return_session k v4).1 =
              return_Only n v4 (ap (λ t. t.io_count) at_k) more (omega arith) in
            rw (enter, try_busy raised v.shared busy, kept)
              (Only-then v v2 (return_session k v4).1 entered (
                Only-then v2 v3 (return_session k v4).1 same
                  (Only-then v3 v4 (return_session k v4).1 once twice)))
        | inr idle ↦
            let sending : Session = record raised { is_sending = true } in
            let w2 : Server = record v2 { shared = emit (post_send_post s.handle) v.shared } in
            let v3 : Server = put_session k sending w2 in
            let users : (v3.sessions k).io_count ≡ n + 1 + 1 =
              ap (λ t. t.io_count) (put_here k sending w2) ∙ omega (arith, count) in
            let posted : Only k v2 v3 = put_Only sending v2 w2.shared refl refl in
            let once : Only k v3 (return_session k v3).1 =
              return_Only (n + 1) v3 users (omega arith) (omega arith) in
            rw (enter, try_idle raised v.shared idle)
              (Only-then v v2 (return_session k v3).1 entered
                (Only-then v2 v3 (return_session k v3).1 posted once))
      ]
