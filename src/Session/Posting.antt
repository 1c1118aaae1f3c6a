-- ===== src/Session/Posting.antt =====
-- The buffers that RecvPost gives to WSARecv, and the packets that SendPost gives to WSASend.
use iocpnet_module_mono_repo.Prelude.{
  ℕ, ◌+◌, ◌-◌, ◌≤◌, ◌<◌, ◌≡◌, refl, sym, ap₂, ◌∙◌, arith, List, [], ◌∷◌, ◌++◌, Bool, true, false,
  ◌&&◌, some, none, ◌==◌, inl, inr, ◌⊎◌, lt-or-ge, take, length, take-append-drop, min, length-take,
}
use iocpnet_module_mono_repo.Prelude.Memory.{Memory, read_ext}
use iocpnet_module_mono_repo.Ring.{RingBuffer, use_size, free_size, direct_enqueue_size}
use iocpnet_module_mono_repo.Ring.Contents.{IsValid, contents, span_straight, span_wrapped}
use iocpnet_module_mono_repo.Session.{Session, Shared, emit, wsa_send, post_sending_check}
use iocpnet_module_mono_repo.Session.Server.{recv_buffers, send_post}

empty_list {ℓ} : {A : Type ℓ} (xs : List A) → length xs ≤ 0 → xs ≡ []
empty_list [] h = refl
empty_list (x ∷ xs) h = absurd (omega arith)

positive-== : (n : ℕ) → 0 < n → (n == 0) ≡ false
positive-== n h = ground arith

module _ (r : RingBuffer) (v : IsValid r) where
  sizes :
      (direct_enqueue_size r + (free_size r - direct_enqueue_size r) ≡ free_size r)
      × (r.rear + direct_enqueue_size r ≤ r.buffer_size)
      × (free_size r - direct_enqueue_size r ≤ r.buffer_size)
  unfolding direct_enqueue_size free_size use_size
  sizes = ground arith

  -- the runs of held bytes do not meet the buffers
  straight_apart : r.front ≤ r.rear → free_size r - direct_enqueue_size r ≤ r.front
  unfolding direct_enqueue_size free_size use_size
  straight_apart h = ground arith

  wrapped_apart :
      r.rear < r.front
      → (free_size r - direct_enqueue_size r ≡ 0) × (r.rear + direct_enqueue_size r < r.front)
  unfolding direct_enqueue_size free_size use_size
  wrapped_apart h = ground arith

  posted_keeps :
      (w : Memory)
      → ((i : ℕ)
          → (i < r.rear) ⊎ (r.rear + direct_enqueue_size r ≤ i)
          → free_size r - direct_enqueue_size r ≤ i
          → w i ≡ r.memory i)
      → contents (record r { memory = w }) ≡ contents r
  posted_keeps w same = elim (lt-or-ge r.rear r.front) [
    | inl wraps ↦
        let (none_left, before_front) = wrapped_apart wraps in
        span_wrapped w r.buffer_size r.front r.rear wraps
        ∙ ap₂ ◌++◌
            (read_ext w r.memory r.front (r.buffer_size - r.front)
              (λ i lo hi. same i (inr (omega arith)) (omega arith)))
            (read_ext w r.memory 0 r.rear (λ i lo hi. same i (inl (omega arith)) (omega arith)))
        ∙ sym (span_wrapped r.memory r.buffer_size r.front r.rear wraps)
    | inr straight ↦
        let apart = straight_apart straight in
        span_straight w r.buffer_size r.front r.rear straight
        ∙ read_ext w r.memory r.front (r.rear - r.front)
            (λ i lo hi. same i (inl (omega arith)) (omega arith))
        ∙ sym (span_straight r.memory r.buffer_size r.front r.rear straight)
  ]

  nothing_posted :
      (direct_enqueue_size r ≡ 0) × (free_size r - direct_enqueue_size r ≡ 0)
      → recv_buffers r ≡ none
  unfolding recv_buffers
  nothing_posted (a, b) = rw (b, a) refl

  something_posted :
      0 < direct_enqueue_size r + (free_size r - direct_enqueue_size r)
      → recv_buffers r
        ≡ some ((r.rear, direct_enqueue_size r) ∷ (0, free_size r - direct_enqueue_size r) ∷ [])
  unfolding recv_buffers
  something_posted h =
      let some_room : ((direct_enqueue_size r == 0) && (free_size r - direct_enqueue_size r == 0))
          ≡ false =
        ground arith in
      rw some_room refl

-- On a valid ring: either it is full and nothing is posted, or two buffers are posted, one from
-- the rear and one from the start, inside the allocation and as long together as the ring has
-- room; a memory that differs from the ring's only inside them holds the same bytes.
pub recv_buffers_lem :
    (r : RingBuffer) (w : Memory)
    → IsValid r
    → let d : ℕ = direct_enqueue_size r in
      let n : ℕ = free_size r - d in
      ((i : ℕ) → (i < r.rear) ⊎ (r.rear + d ≤ i) → n ≤ i → w i ≡ r.memory i)
      → ((recv_buffers r ≡ none) × (free_size r ≡ 0))
        ⊎ ((recv_buffers r ≡ some ((r.rear, d) ∷ (0, n) ∷ []))
            × (0 < d + n)
            × (d + n ≡ free_size r)
            × (r.rear + d ≤ r.buffer_size)
            × (n ≤ r.buffer_size)
            × (contents (record r { memory = w }) ≡ contents r))
recv_buffers_lem r w v same =
    let (sum, rear_in, front_in) = sizes r v in
    elim (lt-or-ge 0 (direct_enqueue_size r + (free_size r - direct_enqueue_size r))) [
      | inl room ↦
          inr (something_posted r v room, room, sum, rear_in, front_in, posted_keeps r v w same)
      | inr full ↦ inl (nothing_posted r v (omega arith, omega arith), omega arith)
    ]

-- The packets of one post are the oldest of the queue, in order, at most 100 and all that there
-- are below; they are kept until the completion and counted, and the others stay queued. Without
-- any, the check for new ones is posted in place of a send, and the post counts as made.
pub send_post_lem :
    (accepted : Bool) (s : Session) (w : Shared)
    → let (made, s', w') = send_post accepted s w in
      ((s.send_buffer ≡ [])
        × (made ≡ true)
        × (w' ≡ emit (post_sending_check s.handle) w)
        × (s'.send_buffer ≡ []))
      ⊎ ((made ≡ accepted)
          × (s'.send_packets ++ s'.send_buffer ≡ s.send_buffer)
          × (length s'.send_packets ≡ min 100 (length s.send_buffer))
          × (0 < length s'.send_packets)
          × (s'.cumulative_send ≡ s.cumulative_send + length s'.send_packets)
          × (w' ≡ emit (wsa_send s.socket s'.send_packets) w))
unfolding send_post
send_post_lem accepted s w = elim (lt-or-ge 0 (length s.send_buffer)) [
  | inl more ↦
      let count : length (take 100 s.send_buffer) ≡ min 100 (length s.send_buffer) =
        length-take 100 s.send_buffer in
      let positive : 0 < length (take 100 s.send_buffer) = omega (arith, count) in
      let some_sent : (length (take 100 s.send_buffer) == 0) ≡ false =
        positive-== (length (take 100 s.send_buffer)) positive in
      inr (rw some_sent (refl, take-append-drop 100 s.send_buffer, count, positive, refl, refl))
  | inr empty ↦
      let e : s.send_buffer ≡ [] = empty_list s.send_buffer empty in
      inl (e, rw e refl, rw e refl, rw e refl)
]
