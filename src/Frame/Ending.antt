-- ===== src/Frame/Ending.antt =====
-- The receive loop of NetLib_Server::WorkerThread (IOCPNetLib/NetLib_Server.cpp) comes to its end.
use iocpnet_module_mono_repo.Prelude.{
  ℕ, zero, suc, ◌+◌, ◌<◌, ◌≤◌, ◌≡◌, ◌⊎◌, refl, subst, ap, ◌∙◌, List, ◌++◌, Bool, true, false, ltb,
  ◌==◌, Option, arith, length, length-append, inl, inr, Bool-cases, Option-cases, ltb→ge, ltb→lt,
  ◌≢◌, none, some, sym,
}
use iocpnet_module_mono_repo.Prelude.Memory.{Memory, copy_in, read}
use iocpnet_module_mono_repo.Packet.{bytes_of, value_of, payload_len_default}
use iocpnet_module_mono_repo.Encoder.{
  calculate_checksum, decode, set_keys, set_buffers, max_packet_size,
}
use iocpnet_module_mono_repo.Ring.{RingBuffer, use_size, peek, move_front, dequeue, enqueue}
use iocpnet_module_mono_repo.Ring.Contents.{IsValid, contents, length-contents}
use iocpnet_module_mono_repo.Ring.Dequeue.{dequeue_lem, dequeue-peek-move_front}
use iocpnet_module_mono_repo.Frame.{NetConfig, header_size, code_at, len_at}
use iocpnet_module_mono_repo.Frame.Receive.{
  Receiver, Round, next, wait, cut, fault, round, take_frame, hand_over, unseal, io_buffer,
  same_code, Ended, waiting, disconnecting, faulted, out_of_fuel, before, receive,
}

-- A ring is valid, and `n` bytes shorter than one of `total` bytes.
pub record IsShorter (n total : ℕ) (r : RingBuffer) : Type 0 where
  pub valid : IsValid r
  pub shorter : use_size r + n ≤ total

-- A block that is taken off a ring that holds it shortens the ring by its length.
pub use_size-dequeue :
    (size : ℕ) (r : RingBuffer)
    → IsValid r
    → size ≤ use_size r
    → IsValid (dequeue size r).2 × (use_size (dequeue size r).2 + size ≡ use_size r)
use_size-dequeue size r v enough =
    let (n, len, split, valid) = dequeue_lem size r v in
    let held = length-contents r in
    let left = length-contents (dequeue size r).2 in
    let parts = length-append (dequeue size r).1 (contents (dequeue size r).2) in
    let total : length (contents r) ≡ length ((dequeue size r).1 ++ contents (dequeue size r).2) =
      ap length split in
    (valid, omega (arith, held, left, parts, total, n, len))

pub use_size-move_front :
    (size : ℕ) (r : RingBuffer)
    → IsValid r
    → size ≤ use_size r
    → IsValid (move_front size r).1 × (use_size (move_front size r).1 + size ≡ use_size r)
use_size-move_front size r v enough =
    subst (λ t. IsValid t × (use_size t + size ≡ use_size r))
      (ap (λ t. t.2) (dequeue-peek-move_front size r).0) (use_size-dequeue size r v enough)

-- A round that goes on leaves a ring that is shorter by `header_size` at least; one that writes past
-- `iobuf` found more bytes than that array has.
abbrev pub Shortens : ℕ → Round → Type 0
Shortens total (next o r) = IsShorter header_size total r.recv_buffer
Shortens total (wait r) = Unit
Shortens total (cut r) = Unit
Shortens total fault = payload_len_default < total

hand_over-Shortens :
    (payload : List ℕ) (len total : ℕ) (r : Receiver)
    → IsShorter header_size total r.recv_buffer
    → Shortens total (hand_over payload len r)
unfolding hand_over
hand_over-Shortens payload len total r s = elim (Bool-cases r.in_content) [
  | inl on ↦
      let (put_header, with_header) = enqueue (bytes_of 2 len) r.content_buffer in
      elim (Bool-cases (put_header == 0)) [
        | inl full ↦ rw (hand_over, on, full) tt
        | inr written ↦ elim (Bool-cases ((enqueue payload with_header).0 == 0)) [
          | inl full ↦ rw (hand_over, on, written, full) tt
          | inr put ↦ rw (hand_over, on, written, put) s
        ]
      ]
  | inr off ↦ rw (hand_over, off) s
]

-- a header and a payload are taken off
taken_frame :
    (len : ℕ) (r : RingBuffer)
    → IsValid r
    → header_size + len ≤ use_size r
    → IsShorter header_size (use_size r) (dequeue len (move_front header_size r).1).2
taken_frame len r v enough =
    let (valid, headed) = use_size-move_front header_size r v (omega arith) in
    let moved = (move_front header_size r).1 in
    let (valid', left) = use_size-dequeue len moved valid (omega (arith, headed)) in
    record { valid = valid'; shorter = omega (arith, headed, left) }

abbrev has_value : Option (ℕ × List ℕ) → Bool
has_value none = false
has_value (some x) = true

-- `Decode` has room for a payload that fits `iobuf` with its header
unseal-fits :
    (c : NetConfig) (buffer : Memory) (len : ℕ)
    → len + 1 ≤ payload_len_default
    → has_value (unseal c buffer len) ≡ true
unfolding unseal decode set_keys set_buffers
unseal-fits c buffer len small =
    let room : ltb max_packet_size (len + 1) ≡ false = ground arith in
    rw (unseal, decode, room) refl

false-true : false ≢ true
false-true e = ground arith

take_frame-Shortens :
    (c : NetConfig) (junk : Memory) (header : List ℕ) (len : ℕ) (r : Receiver)
    → IsValid r.recv_buffer
    → header_size + len ≤ use_size r.recv_buffer
    → Shortens (use_size r.recv_buffer) (take_frame c junk header len r)
unfolding take_frame unseal
take_frame-Shortens c junk header len r v enough =
    let moved = (move_front header_size r.recv_buffer).1 in
    let out = (dequeue len moved).1 in
    let rest = (dequeue len moved).2 in
    let taken : IsShorter header_size (use_size r.recv_buffer) rest =
      taken_frame len r.recv_buffer v enough in
    let r' = record r { recv_buffer = rest } in
    elim (Bool-cases (ltb payload_len_default (header_size + len))) [
      | inl long ↦
          rw (take_frame, long)
            (omega (arith, enough, ltb→lt payload_len_default (header_size + len) long))
      | inr fits ↦ elim (Bool-cases c.encryption) [
        | inl on ↦ elim (Option-cases (unseal c (io_buffer junk header out) len)) [
          | inl e ↦ absurd (
              false-true (
                ap has_value (sym e)
                ∙ unseal-fits c (io_buffer junk header out) len
                    (omega (arith, ltb→ge payload_len_default (header_size + len) fits))))
          | inr (opened, e) ↦ elim (Bool-cases (calculate_checksum opened.1 == opened.0)) [
            | inl good ↦
                rw (take_frame, fits, on, e, good)
                  (hand_over-Shortens opened.1 len (use_size r.recv_buffer) r' taken)
            | inr bad ↦ rw (take_frame, fits, on, e, bad) tt
          ]
        ]
        | inr off ↦
            rw (take_frame, fits, off)
              (hand_over-Shortens out len (use_size r.recv_buffer) r' taken)
      ]
    ]

round-Shortens :
    (c : NetConfig) (junk : Memory) (r : Receiver)
    → IsValid r.recv_buffer
    → Shortens (use_size r.recv_buffer) (round c junk r)
unfolding round
round-Shortens c junk r v =
    let r' = record r { recv_post_cnt = r.recv_post_cnt + 1 } in
    let header = (peek header_size r.recv_buffer).1 in
    let buffer = copy_in junk 0 header in
    let len = value_of (read buffer len_at 2) in
    elim (Bool-cases (ltb c.max_recv_post_cnt (r.recv_post_cnt + 1))) [
      | inl many ↦ rw (round, many) tt
      | inr few ↦ elim (Bool-cases (ltb (use_size r.recv_buffer) header_size)) [
        | inl short ↦ rw (round, few, short) tt
        | inr headed ↦ elim (Bool-cases (same_code (buffer code_at) c.header_code)) [
          | inl code ↦ elim (Bool-cases (ltb payload_len_default len)) [
            | inl long ↦ rw (round, few, headed, code, long) tt
            | inr fits ↦ elim (Bool-cases (ltb (use_size r.recv_buffer) (header_size + len))) [
              | inl part ↦ rw (round, few, headed, code, fits, part) tt
              | inr whole ↦
                  rw (round, few, headed, code, fits, whole)
                    (take_frame-Shortens c junk header len r' v
                      (ltb→ge (use_size r.recv_buffer) (header_size + len) whole))
            ]
          ]
          | inr other ↦ rw (round, few, headed, other) tt
        ]
      ]
    ]

Round-cases :
    (t : Round)
    → ((o : Option (List ℕ)) × (r : Receiver) × (t ≡ next o r))
      ⊎ (((r : Receiver) × (t ≡ wait r)) ⊎ (((r : Receiver) × (t ≡ cut r)) ⊎ (t ≡ fault)))
Round-cases (next o r) = inl (o, r, refl)
Round-cases (wait r) = inr (inl (r, refl))
Round-cases (cut r) = inr (inr (inl (r, refl)))
Round-cases fault = inr (inr (inr refl))

-- The loop came to one of its `break`s.
abbrev pub has_ended : Ended → Bool
has_ended (waiting ps r) = true
has_ended (disconnecting ps r) = true
has_ended (faulted ps) = false
has_ended out_of_fuel = false

has_ended-before : (o : Option (List ℕ)) (e : Ended) → has_ended (before o e) ≡ has_ended e
has_ended-before o (waiting ps r) = refl
has_ended-before o (disconnecting ps r) = refl
has_ended-before o (faulted ps) = refl
has_ended-before o out_of_fuel = refl

-- The loop wrote past `iobuf`.
abbrev pub has_faulted : Ended → Bool
has_faulted (waiting ps r) = false
has_faulted (disconnecting ps r) = false
has_faulted (faulted ps) = true
has_faulted out_of_fuel = false

has_faulted-before : (o : Option (List ℕ)) (e : Ended) → has_faulted (before o e) ≡ has_faulted e
has_faulted-before o (waiting ps r) = refl
has_faulted-before o (disconnecting ps r) = refl
has_faulted-before o (faulted ps) = refl
has_faulted-before o out_of_fuel = refl

-- With more fuel than the ring has bytes, the receive loop, on a valid ring with any bytes in it,
-- comes to one of its `break`s, or it writes past `iobuf` before, which takes a ring with more than
-- 1400 bytes.
pub receive_ends :
    (c : NetConfig) (junk : Memory) (fuel : ℕ) (r : Receiver)
    → IsValid r.recv_buffer
    → use_size r.recv_buffer < fuel
    → (has_ended (receive c junk fuel r) ≡ true)
      ⊎ ((payload_len_default < use_size r.recv_buffer)
          × (has_faulted (receive c junk fuel r) ≡ true))
unfolding receive
receive_ends c junk zero r v more = absurd (omega arith)
receive_ends c junk (suc fuel) r v more = elim (Round-cases (round c junk r)) [
  | inl (o, r', e) ↦
      let s : IsShorter header_size (use_size r.recv_buffer) r'.recv_buffer =
        subst (Shortens (use_size r.recv_buffer)) e (round-Shortens c junk r v) in
      let shorter = s.shorter in
      let ih = receive_ends c junk fuel r' s.valid (omega (arith, shorter)) in
      rw (receive, e)
        (elim ih [
          | inl ended ↦ inl (has_ended-before o (receive c junk fuel r') ∙ ended)
          | inr (long, broken) ↦
              inr (
                omega (arith, shorter, long),
                has_faulted-before o (receive c junk fuel r') ∙ broken,
              )
        ])
  | inr (inl (r', e)) ↦ rw (receive, e) (inl refl)
  | inr (inr (inl (r', e))) ↦ rw (receive, e) (inl refl)
  | inr (inr (inr e)) ↦
      rw (receive, e)
        (inr (subst (Shortens (use_size r.recv_buffer)) e (round-Shortens c junk r v), refl))
]
