-- ===== src/Content/Handing.antt =====
-- How the receive loop queues a payload for the content of its session.
use iocpnet_module_mono_repo.Prelude.{
  ℕ, ◌+◌, ◌≤◌, ◌<◌, ◌≡◌, refl, sym, ap, ◌∙◌, List, ◌++◌, arith, length, length-append, append_assoc,
  true, false, none, ◌==◌, eq→==, lt-or-ge, inl, inr, ◌⊎◌, Bool-cases, ltb, leb,
}
use iocpnet_module_mono_repo.Packet.{bytes_of}
use iocpnet_module_mono_repo.Packet.Contents.{length-bytes_of}
use iocpnet_module_mono_repo.Ring.{RingBuffer, use_size, free_size, direct_enqueue_size, enqueue}
use iocpnet_module_mono_repo.Ring.Contents.{IsValid, contents, length-contents, sizes_lem}
use iocpnet_module_mono_repo.Ring.Enqueue.{enqueue_lem}
use iocpnet_module_mono_repo.Frame.Receive.{Receiver, next, cut, hand_over}

positive-== : (n : ℕ) → 0 < n → (n == 0) ≡ false
positive-== n h = ground arith

enqueue-buffer_size :
    (src : List ℕ) (r : RingBuffer) → (enqueue src r).1.buffer_size ≡ r.buffer_size
unfolding enqueue
enqueue-buffer_size src r = elim (Bool-cases (ltb (free_size r) (length src))) [
  | inl full ↦ rw (enqueue, full) refl
  | inr fits ↦ elim (Bool-cases (leb (length src) (direct_enqueue_size r))) [
    | inl one ↦ rw (enqueue, fits, one) refl
    | inr two ↦ rw (enqueue, fits, two) refl
  ]
]

module _ (src : List ℕ) (r : RingBuffer) (v : IsValid r) (fits : length src ≤ free_size r) where
  enqueued_facts :
      ((enqueue src r).0 ≡ length src)
      × (contents (enqueue src r).1 ≡ contents r ++ src)
      × IsValid (enqueue src r).1
  enqueued_facts = let (n, c, w, _) = enqueue_lem src r 0 v fits in (n, c, w)

-- A payload of at least one byte, for which the content's ring has room with its header, is
-- queued behind what the ring holds, header first; the packet is counted, the count of posts
-- reset, and the ring stays valid. With the same room, a payload without bytes
-- disconnects the session, since `Enqueue` then returns 0, and its header stays in the ring.
pub hand_over-queued :
    (p : List ℕ) (r : Receiver)
    → r.in_content ≡ true
    → IsValid r.content_buffer
    → 2 + length p ≤ free_size r.content_buffer
    → (ring : RingBuffer) × IsValid ring
      × (contents ring ≡ contents r.content_buffer ++ (bytes_of 2 (length p) ++ p))
      × (((0 < length p)
            × (hand_over p (length p) r
                ≡ next none (record r {
                  content_buffer = ring;
                  cumulative_recv = r.cumulative_recv + 1;
                  recv_post_cnt = 0;
                })))
          ⊎ ((length p ≡ 0)
              × (hand_over p (length p) r
                  ≡ cut (record r {
                    content_buffer = (enqueue (bytes_of 2 (length p)) r.content_buffer).1;
                    cumulative_recv = r.cumulative_recv + 1;
                    recv_post_cnt = 0;
                  }))))
unfolding hand_over
hand_over-queued p r inside v fits =
    let header : List ℕ = bytes_of 2 (length p) in
    let size : length header ≡ 2 = length-bytes_of 2 (length p) in
    let (n, c, w) = enqueued_facts header r.content_buffer v (omega arith) in
    let mid : RingBuffer = (enqueue header r.content_buffer).1 in
    let room_before = (sizes_lem r.content_buffer v).0 in
    let room_after = (sizes_lem mid w).0 in
    let held : use_size mid ≡ use_size r.content_buffer + 2 =
      sym (length-contents mid)
      ∙ ap length c
      ∙ length-append (contents r.content_buffer) header
      ∙ (omega (arith, length-contents r.content_buffer)) in
    let room : length p ≤ free_size mid =
      omega (arith, enqueue-buffer_size header r.content_buffer) in
    let (n', c', w') = enqueued_facts p mid w room in
    let header_in : ((enqueue header r.content_buffer).0 == 0) ≡ false =
      positive-== (enqueue header r.content_buffer).0 (omega arith) in
    (
      (enqueue p mid).1,
      w',
      c' ∙ ap (λ t. t ++ p) c ∙ append_assoc (contents r.content_buffer) header p,
      elim (lt-or-ge 0 (length p)) [
        | inl some_bytes ↦
            let payload_in : ((enqueue p mid).0 == 0) ≡ false =
              positive-== (enqueue p mid).0 (omega arith) in
            inl (some_bytes, rw (hand_over, inside, header_in, payload_in) refl)
        | inr no_bytes ↦
            let payload_in : ((enqueue p mid).0 == 0) ≡ true =
              eq→== (enqueue p mid).0 0 (omega arith) in
            inr (omega arith, rw (hand_over, inside, header_in, payload_in) refl)
      ],
    )
