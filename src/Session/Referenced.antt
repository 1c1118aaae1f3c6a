-- ===== src/Session/Referenced.antt =====
-- The references of a packet that SendPacketMulticast queues.
use iocpnet_module_mono_repo.Prelude.{
  ℕ, zero, suc, ◌+◌, ◌<◌, ◌≤◌, ◌≡◌, refl, sym, subst, ap, ◌∙◌, arith, [], ◌∷◌, ◌++◌, true, false,
  none, some, ltb, leb, ◌==◌, if◌then◌else◌, length, inl, inr, ◌⊎◌, Bool-cases, lt-or-ge,
}
use iocpnet_module_mono_repo.Session.{Session, Shared, decode_session_handle, drop_packet}
use iocpnet_module_mono_repo.Session.Server.{
  Server, find_session, refuse_full, queue_packet, post_queued,
}
use iocpnet_module_mono_repo.Session.Packets.{occurrences}
use iocpnet_module_mono_repo.Session.AtPlace.{
  with_count, queued_with, put_here, find_at, refuse_full_at, post_queued_at,
}
use iocpnet_module_mono_repo.Session.Elsewhere.{
  Only, Only-same, Only-then, put_Only, find_Only, refuse_full-Only, post_queued-Only,
}
use iocpnet_module_mono_repo.Session.Multicast.{drop_at, multicast_one}

-- how often the packet `p` stands in the queues of the places below `n`
abbrev pub total : ℕ → Server → ℕ → ℕ
total p v zero = 0
total p v (suc n) = total p v n + occurrences p (v.sessions n).send_buffer

-- Every session is in use, with room for `m` users more.
abbrev pub AllInUse : ℕ → Server → Type 0
AllInUse m v =
    (k : ℕ)
    → k < v.max_of_session
    → (0 < (v.sessions k).io_count) × ((v.sessions k).io_count + m < 253)

-- What a round does to the place `k`: the packet is queued there, or its reference is given back.
pub record Round (p k : ℕ) (v w : Server) : Type 0 where
  pub elsewhere : (j : ℕ) → (j == k) ≡ false → w.sessions j ≡ v.sessions j
  pub places : w.max_of_session ≡ v.max_of_session
  pub users :
      ((v.sessions k).io_count ≤ (w.sessions k).io_count)
      × ((w.sessions k).io_count ≤ (v.sessions k).io_count + 1)
  pub outcome :
      (((w.sessions k).send_buffer ≡ (v.sessions k).send_buffer ++ (p ∷ []))
        × (k < v.max_of_session)
        × (w.shared.ref_count ≡ v.shared.ref_count)
        × (w.shared.freed ≡ v.shared.freed))
      ⊎ (((w.sessions k).send_buffer ≡ (v.sessions k).send_buffer)
          × (u : Shared) × (u.ref_count ≡ v.shared.ref_count)
          × (u.freed ≡ v.shared.freed)
          × (w.shared ≡ drop_packet p u))

missed :
    (p k : ℕ) (v w : Server)
    → Only k v w
    → (w.sessions k).send_buffer ≡ (v.sessions k).send_buffer
    → ((v.sessions k).io_count ≤ (w.sessions k).io_count)
      × ((w.sessions k).io_count ≤ (v.sessions k).io_count + 1)
    → Round p k v (drop_at p w)
missed p k v w only same users = record {
  elsewhere = only.elsewhere;
  places = only.places;
  users = users;
  outcome = inr (same, w.shared, only.counts, only.freed, refl);
}

outside_none :
    (handle k : ℕ) (v : Server)
    → (decode_session_handle handle).0 ≡ k
    → leb v.max_of_session k ≡ true
    → find_session handle v ≡ (none, v)
unfolding find_session
outside_none handle k v at outside = rw (at, outside) refl

lt→leb : (a b : ℕ) → a < b → leb b a ≡ false
lt→leb a b h = ground arith

multicast_one-cases :
    (p handle : ℕ) (v : Server)
    → let (found, v1) = find_session handle v in
      ((found ≡ none) → multicast_one handle p v ≡ drop_at p v1)
      × ((k : ℕ)
          → found ≡ some k
          → (multicast_one handle p v ≡ drop_at p (refuse_full handle k v1))
            ⊎ (multicast_one handle p v ≡ (post_queued k (queue_packet p k v1)).1))
unfolding multicast_one
multicast_one-cases p handle v =
    let v1 : Server = (find_session handle v).1 in
    (
      (λ e. rw (multicast_one, e) refl),
      λ k e. elim (Bool-cases (ltb v.max_of_send_packets (length (v1.sessions k).send_buffer))) [
        | inl is ↦ inl (rw (multicast_one, e, is) refl)
        | inr not ↦ inr (rw (multicast_one, e, not) refl)
      ],
    )

module _ (p handle k : ℕ) (at : (decode_session_handle handle).0 ≡ k) (v : Server) where
  inside_Round :
      (n : ℕ)
      → k < v.max_of_session
      → (v.sessions k).io_count ≡ n
      → 0 < n
      → n < 253
      → Round p k v (multicast_one handle p v)
  inside_Round n inside count more few =
      let s : Session = v.sessions k in
      let v1 : Server = (find_session handle v).1 in
      let (unknown, known) = multicast_one-cases p handle v in
      let entered : Only k v v1 = find_Only k handle at n v count more (omega arith) in
      elim (find_at handle k at n s v refl count more (omega arith)) [
        | inr (nothing, at_k) ↦ subst (Round p k v) (sym (unknown nothing)) (
            missed p k v v1 entered (ap (λ t. t.send_buffer) at_k)
              (let e = ap (λ t. t.io_count) at_k in (omega arith, omega arith)))
        | inl (found, at_k) ↦
            let users : (v1.sessions k).io_count ≡ n + 1 = ap (λ t. t.io_count) at_k in
            elim (known k found) [
              | inl full ↦
                  let w : Server = refuse_full handle k v1 in
                  let (asked, end_at) =
                    refuse_full_at handle k at n (with_count (n + 1) s) v1 at_k refl more few in
                  let e : (w.sessions k).io_count ≡ n = ap (λ t. t.io_count) end_at in
                  subst (Round p k v) (sym full) (
                    missed p k v w
                      (Only-then k v v1 w entered
                        (refuse_full-Only k handle at n v1 users more (omega arith)))
                      (ap (λ t. t.send_buffer) end_at) (omega arith, omega arith))
              | inr room ↦
                  let q : Server = queue_packet p k v1 in
                  let w : Server = (post_queued k q).1 in
                  let queued : Session = queued_with p (with_count (n + 1) s) in
                  let here : q.sessions k ≡ queued =
                    put_here k (queued_with p (v1.sessions k)) v1 ∙ ap (queued_with p) at_k in
                  let (posts, _, end_at) =
                    post_queued_at handle k at n queued q here refl more few in
                  let put : Only k v1 q =
                    put_Only k (queued_with p (v1.sessions k)) v1 v1.shared refl refl in
                  let only : Only k v w = Only-then k v v1 w entered (
                    Only-then k v1 q w put
                      (post_queued-Only k n q (ap (λ t. t.io_count) here) more few)) in
                  let e : (w.sessions k).io_count ≡ (if posts then n + 1 else n) =
                    ap (λ t. t.io_count) end_at in
                  subst (Round p k v) (sym room) (record {
                    elsewhere = only.elsewhere;
                    places = only.places;
                    users = (ground arith, ground arith);
                    outcome = inl (ap (λ t. t.send_buffer) end_at, inside, only.counts, only.freed);
                  })
            ]
      ]

  pub multicast_one_lem : AllInUse 1 v → Round p k v (multicast_one handle p v)
  multicast_one_lem in_use = elim (lt-or-ge k v.max_of_session) [
    | inl inside ↦
        inside_Round (v.sessions k).io_count inside refl (in_use k inside).0
          (omega (arith, (in_use k inside).1))
    | inr outside ↦
        let nothing = outside_none handle k v at (ground arith) in
        subst (Round p k v) (sym ((multicast_one-cases p handle v).0 (ap (λ t. t.0) nothing))) (
          missed p k v (find_session handle v).1
            (subst (Only k v) (sym (ap (λ t. t.1) nothing)) (Only-same k v))
            (ap (λ t. (t.1.sessions k).send_buffer) nothing)
            (let e = ap (λ t. (t.1.sessions k).io_count) nothing in (omega arith, omega arith)))
  ]
