-- ===== src/Content/Queued.antt =====
-- What the server queued for a content comes out as it went in.
use iocpnet_module_mono_repo.Prelude.{
  ℕ, zero, suc, ◌+◌, ◌≤◌, ◌<◌, ◌≡◌, refl, sym, ap, ◌∙◌, List, [], ◌∷◌, ◌++◌, arith, length,
  length-append, false, le→ltb, lt→ltb, All,
}
use iocpnet_module_mono_repo.Packet.{payload_len_default, bytes_of, value_of}
use iocpnet_module_mono_repo.Packet.Contents.{value_of-bytes_of}
use iocpnet_module_mono_repo.Ring.{RingBuffer, use_size, move_front, dequeue}
use iocpnet_module_mono_repo.Ring.Contents.{IsValid, contents, length-contents}
use iocpnet_module_mono_repo.Frame.Wire.{peek_split, dequeue_split, use_size_split}
use iocpnet_module_mono_repo.Content.{
  queue_header_size, take_payload, payload, nothing, drain, drained,
}

-- the bytes of payloads in the content's ring
abbrev pub queued : List (List ℕ) → List ℕ
queued [] = []
queued (p ∷ ps) = bytes_of 2 (length p) ++ (p ++ queued ps)

-- A payload that a content's buffer has room for.
abbrev pub IsQueueable : List ℕ → Type 0
IsQueueable p = queue_header_size + length p ≤ payload_len_default

take_payload_lem :
    (p rest : List ℕ) (r : RingBuffer)
    → IsQueueable p
    → IsValid r
    → contents r ≡ bytes_of 2 (length p) ++ (p ++ rest)
    → (ring : RingBuffer) × IsValid ring
      × (contents ring ≡ rest)
      × (take_payload false r ≡ payload p ring)
unfolding take_payload bytes_of
take_payload_lem p rest r fits v e =
    let header : List ℕ = bytes_of 2 (length p) in
    let (seen, behind, valid) = peek_split r header (p ++ rest) v e in
    let moved : RingBuffer = (move_front 2 r).1 in
    let (out, left, valid') = dequeue_split moved p rest valid behind in
    let used : use_size r ≡ 2 + length (p ++ rest) = use_size_split r header (p ++ rest) v e in
    let total : length (p ++ rest) ≡ length p + length rest = length-append p rest in
    let len : value_of header ≡ length p = value_of-bytes_of 2 (length p) (omega arith) in
    (
      (dequeue (length p) moved).2,
      valid',
      left,
      rw
          (
            le→ltb (use_size r) queue_header_size (omega arith),
            seen,
            len,
            le→ltb (use_size r) (queue_header_size + length p) (omega arith),
            le→ltb payload_len_default (queue_header_size + length p) fits,
            out,
          )
          refl,
    )

nothing_left : (r : RingBuffer) → use_size r ≡ 0 → take_payload false r ≡ nothing
unfolding take_payload
nothing_left r e = rw (lt→ltb (use_size r) queue_header_size (omega arith)) refl

-- For a session that is not moving, and with more fuel than there are payloads: the loop hands
-- the queued payloads of at most 1398 bytes to `OnRecv`, each as it was and in order, and leaves
-- the ring valid and empty.
pub drain-queued :
    (ps : List (List ℕ)) (fuel : ℕ) (r : RingBuffer)
    → All IsQueueable ps
    → length ps < fuel
    → IsValid r
    → contents r ≡ queued ps
    → (ring : RingBuffer) × (drain fuel false r ≡ drained ps ring)
      × IsValid ring
      × (contents ring ≡ [])
unfolding drain
drain-queued ps zero r good more v e = absurd (omega arith)
drain-queued [] (suc fuel) r good more v e =
    let empty : use_size r ≡ 0 = sym (length-contents r) ∙ ap length e in
    (r, rw (drain, nothing_left r empty) refl, v, e)
drain-queued (p ∷ ps) (suc fuel) r good more v e =
    let (ring, valid, left, took) = take_payload_lem p (queued ps) r good.0 v e in
    let (ring', runs, valid', empty) = drain-queued ps fuel ring good.1 (omega arith) valid left in
    (ring', rw (drain, took, runs) refl, valid', empty)
