-- ===== src/Session/Balance.antt =====
-- The references of a packet over all rounds of SendPacketMulticast.
use iocpnet_module_mono_repo.Prelude.{
  ℕ, zero, suc, ◌+◌, ◌-◌, ◌%◌, ◌^◌, ◌<◌, ◌≤◌, ◌≡◌, refl, sym, subst, ap, ◌∙◌, arith, List, [], ◌∷◌,
  false, ◌==◌, length, inl, inr, ◌⊎◌, Bool-cases, lt-or-ge, ==→eq,
}
use iocpnet_module_mono_repo.Session.{Shared, decode_session_handle, drop_packet}
use iocpnet_module_mono_repo.Session.Server.{Server, put_count}
use iocpnet_module_mono_repo.Session.Packets.{occurrences, occurrences-snoc, drop_packet_lem}
use iocpnet_module_mono_repo.Session.Multicast.{multicast_one, multicast_all, send_packet_multicast}
use iocpnet_module_mono_repo.Session.Referenced.{total, AllInUse, Round, multicast_one_lem}

one_more : (p n : ℕ) → n + occurrences p (p ∷ []) ≡ n + 1
one_more p n = ground arith

own_count : (p n : ℕ) (w : Shared) → (put_count p n w).ref_count p ≡ n % 2 ^ 32
own_count p n w = ground arith

total_below :
    (p k : ℕ) (v w : Server) (n : ℕ)
    → ((j : ℕ) → (j == k) ≡ false → w.sessions j ≡ v.sessions j)
    → n ≤ k
    → total p w n ≡ total p v n
total_below p k v w zero same below = refl
total_below p k v w (suc n) same below =
    let ih = total_below p k v w n same (omega arith) in
    let here = ap (λ t. occurrences p t.send_buffer) (same n (ground arith)) in
    omega (arith, ih, here)

total_above :
    (p k d : ℕ) (v w : Server) (n : ℕ)
    → ((j : ℕ) → (j == k) ≡ false → w.sessions j ≡ v.sessions j)
    → occurrences p (w.sessions k).send_buffer ≡ occurrences p (v.sessions k).send_buffer + d
    → k < n
    → total p w n ≡ total p v n + d
total_above p k d v w zero same at above = absurd (omega arith)
total_above p k d v w (suc n) same at above = elim (Bool-cases (n == k)) [
  | inl e ↦
      let equal : n ≡ k = ==→eq n k e in
      let below = total_below p k v w n same (omega arith) in
      let here : occurrences p (w.sessions n).send_buffer
          ≡ occurrences p (v.sessions n).send_buffer + d =
        subst
          (λ i.
            occurrences p (w.sessions i).send_buffer ≡ occurrences p (v.sessions i).send_buffer + d)
          (sym equal) at in
      omega (arith, below, here)
  | inr e ↦
      let ih = total_above p k d v w n same at (ground arith) in
      let here = ap (λ t. occurrences p t.send_buffer) (same n e) in omega (arith, ih, here)
]

-- nothing changes for the total where the queue at `k` stays
total_same :
    (p k : ℕ) (v w : Server) (n : ℕ)
    → ((j : ℕ) → (j == k) ≡ false → w.sessions j ≡ v.sessions j)
    → (w.sessions k).send_buffer ≡ (v.sessions k).send_buffer
    → total p w n ≡ total p v n
total_same p k v w n same at = elim (lt-or-ge k n) [
  | inl above ↦
      let e = ap (occurrences p) at in
      let t = total_above p k 0 v w n same (omega (arith, e)) above in omega (arith, t)
  | inr below ↦ total_below p k v w n same below
]

-- The references of `p` are its places in the queues and the rounds to come, `m`.
abbrev Balanced : ℕ → ℕ → Server → Type 0
Balanced p m v =
    (v.shared.ref_count p ≡ total p v v.max_of_session + m) × (v.shared.ref_count p < 2 ^ 32)

-- how the count of `p` and its returns to the pool stand after some rounds
abbrev pub Settled : ℕ → Server → Server → Type 0
Settled p v w =
    ((0 < w.shared.ref_count p) × (occurrences p w.shared.freed ≡ occurrences p v.shared.freed))
    ⊎ ((w.shared.ref_count p ≡ 0)
        × (occurrences p w.shared.freed ≡ occurrences p v.shared.freed + 1))

drop_same :
    (p m : ℕ) (u : Shared)
    → u.ref_count p ≡ m
    → 0 < m
    → m < 2 ^ 32
    → ((drop_packet p u).ref_count p ≡ m - 1)
      × (((m ≡ 1) × (occurrences p (drop_packet p u).freed ≡ occurrences p u.freed + 1))
          ⊎ ((1 < m) × (occurrences p (drop_packet p u).freed ≡ occurrences p u.freed)))
drop_same p m u e more word = elim (drop_packet_lem p p u (omega arith) (omega arith)) [
  | inl (_, count, freed) ↦ (omega (arith, count), ground (arith, freed))
  | inr (never, _, _) ↦ absurd (never refl)
]

round_Balanced :
    (p k m : ℕ) (v w : Server)
    → Round p k v w
    → Balanced p (m + 1) v
    → Balanced p m w × Settled p v w
round_Balanced p k m v w r (balance, word) = elim r.outcome [
  | inl (queue, inside, counts, freed) ↦
      let more =
        total_above p k 1 v w v.max_of_session r.elsewhere
          (ap (occurrences p) queue
            ∙ occurrences-snoc p p (v.sessions k).send_buffer
            ∙ one_more p (occurrences p (v.sessions k).send_buffer))
          inside in
      let count : w.shared.ref_count p ≡ v.shared.ref_count p = ap (λ f. f p) counts in
      let places = ap (total p w) r.places in
      (
        (omega (arith, more, count, places), omega (arith, count)),
        inl (omega (arith, count), ap (occurrences p) freed),
      )
  | inr (queue, u, counts, freed, shared) ↦
      let same = total_same p k v w v.max_of_session r.elsewhere queue in
      let places = ap (total p w) r.places in
      let before : u.ref_count p ≡ v.shared.ref_count p = ap (λ f. f p) counts in
      let (count, ends) = drop_same p (v.shared.ref_count p) u before (omega arith) word in
      let after : w.shared.ref_count p ≡ v.shared.ref_count p - 1 =
        ap (λ t. t.ref_count p) shared ∙ count in
      let pool : occurrences p w.shared.freed ≡ occurrences p (drop_packet p u).freed =
        ap (λ t. occurrences p t.freed) shared in
      let old : occurrences p u.freed ≡ occurrences p v.shared.freed = ap (occurrences p) freed in
      (
        (omega (arith, same, after, places), omega (arith, after)),
        elim ends [
          | inl (last, back) ↦ inr (omega (arith, after), omega (arith, pool, old, back))
          | inr (others, kept) ↦ inl (omega (arith, after), omega (arith, pool, old, kept))
        ],
      )
]

round_AllInUse : (p k m : ℕ) (v w : Server) → Round p k v w → AllInUse (m + 1) v → AllInUse m w
round_AllInUse p k m v w r in_use j inside =
    let (some_users, few) = in_use j (omega (arith, r.places)) in
    elim (Bool-cases (j == k)) [
      | inr other ↦
          let same = ap (λ t. t.io_count) (r.elsewhere j other) in
          (omega (arith, same), omega (arith, same))
      | inl here ↦
          let e : (w.sessions j).io_count ≡ (w.sessions k).io_count =
            ap (λ i. (w.sessions i).io_count) (==→eq j k here) in
          let f : (v.sessions j).io_count ≡ (v.sessions k).io_count =
            ap (λ i. (v.sessions i).io_count) (==→eq j k here) in
          (omega (arith, e, f, r.users), omega (arith, e, f, r.users))
    ]

fewer : (m : ℕ) (v : Server) → AllInUse (m + 1) v → AllInUse 1 v
fewer m v in_use j inside = let (more, few) = in_use j inside in (more, omega arith)

-- where the count is 0 after a round, no round is left
none_left :
    (p : ℕ) (handles : List ℕ) (u v : Server)
    → Balanced p (length handles) v
    → v.shared.ref_count p ≡ 0
    → occurrences p v.shared.freed ≡ occurrences p u.shared.freed + 1
    → let w = multicast_all handles p v in Balanced p 0 w × Settled p u w
unfolding multicast_all
none_left p [] u v balance gone once = (balance, inr (gone, once))
none_left p (h ∷ hs) u v (balance, word) gone once = absurd (omega arith)

Settled-then :
    (p : ℕ) (u v w : Server)
    → occurrences p v.shared.freed ≡ occurrences p u.shared.freed
    → Settled p v w
    → Settled p u w
Settled-then p u v w same (inl (more, kept)) = inl (more, kept ∙ same)
Settled-then p u v w same (inr (gone, once)) = inr (gone, omega arith)

multicast_all_lem :
    (handles : List ℕ) (p : ℕ) (v : Server)
    → AllInUse (length handles) v
    → Balanced p (length handles) v
    → 0 < v.shared.ref_count p
    → let w = multicast_all handles p v in Balanced p 0 w × Settled p v w
unfolding multicast_all
multicast_all_lem [] p v in_use balance more = (balance, inl (more, refl))
multicast_all_lem (h ∷ hs) p v in_use (balance, word) more =
    let k : ℕ = (decode_session_handle h).0 in
    let v1 : Server = multicast_one h p v in
    let in_use' : AllInUse (length hs + 1) v = subst (λ m. AllInUse m v) (omega arith) in_use in
    let r : Round p k v v1 = multicast_one_lem p h k refl v (fewer (length hs) v in_use') in
    let (balance1, settled) = round_Balanced p k (length hs) v v1 r (omega arith, word) in
    elim settled [
      | inr (gone, once) ↦ none_left p hs v v1 balance1 gone once
      | inl (left, kept) ↦
          let (balanced, ends) =
            multicast_all_lem hs p v1 (round_AllInUse p k (length hs) v v1 r in_use') balance1
              left in
          (balanced, Settled-then p v v1 (multicast_all hs p v1) kept ends)
    ]

-- A packet with no references, in no queue, goes out to some sessions; every session is in use,
-- with room for as many users more as there are handles, fewer than 253. Afterwards the packet has
-- as many references as it stands in queues; and it went back to the pool once if it stands in
-- none, else not at all. The handles may be old ones, or name one session several times.
pub send_packet_multicast_lem :
    (h : ℕ) (hs : List ℕ) (p : ℕ) (v : Server)
    → AllInUse (length (h ∷ hs)) v
    → length (h ∷ hs) < 253
    → v.shared.ref_count p ≡ 0
    → total p v v.max_of_session ≡ 0
    → let w = send_packet_multicast (h ∷ hs) p v in
      (w.shared.ref_count p ≡ total p w w.max_of_session)
      × (((0 < total p w w.max_of_session)
            × (occurrences p w.shared.freed ≡ occurrences p v.shared.freed))
          ⊎ ((total p w w.max_of_session ≡ 0)
              × (occurrences p w.shared.freed ≡ occurrences p v.shared.freed + 1)))
unfolding send_packet_multicast
send_packet_multicast_lem h hs p v in_use few no_count no_place =
    let n : ℕ = length (h ∷ hs) in
    let u : Server = record v { shared = put_count p (v.shared.ref_count p + n) v.shared } in
    let count : u.shared.ref_count p ≡ n =
      own_count p (v.shared.ref_count p + n) v.shared ∙ omega (arith, no_count) in
    let queues : total p u v.max_of_session ≡ total p v v.max_of_session =
      total_below p v.max_of_session v u v.max_of_session (λ j e. refl) (omega arith) in
    let (balanced, ends) =
      multicast_all_lem (h ∷ hs) p u in_use
        (omega (arith, count, queues, no_place), omega (arith, count)) (omega (arith, count)) in
    (
      omega (arith, balanced.0),
      elim ends [
        | inl (more, kept) ↦ inl (omega (arith, balanced.0), kept)
        | inr (gone, once) ↦ inr (omega (arith, balanced.0), once)
      ],
    )
