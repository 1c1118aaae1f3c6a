-- ===== src/Content/Ending.antt =====
-- The loop of NetLib_Content::Update (IOCPNetLib/NetLib_Content.cpp) comes to its end.
use iocpnet_module_mono_repo.Prelude.{
  ℕ, zero, suc, ◌+◌, ◌<◌, ◌≤◌, ◌≡◌, ◌⊎◌, refl, subst, ◌∙◌, List, Bool, true, false, ltb, arith, inl,
  inr, Bool-cases, ltb→ge,
}
use iocpnet_module_mono_repo.Packet.{value_of, payload_len_default}
use iocpnet_module_mono_repo.Ring.{RingBuffer, use_size, peek, move_front, dequeue}
use iocpnet_module_mono_repo.Ring.Contents.{IsValid}
use iocpnet_module_mono_repo.Frame.Ending.{IsShorter, use_size-dequeue, use_size-move_front}
use iocpnet_module_mono_repo.Content.{
  queue_header_size, Taken, nothing, payload, overrun, take_payload, Drained, drained, overran,
  out_of_fuel, also, drain,
}

-- A payload is taken off with its header.
abbrev pub Shortens : ℕ → Taken → Type 0
Shortens total nothing = Unit
Shortens total (payload bytes rest) = IsShorter queue_header_size total rest
Shortens total overrun = Unit

taken_off :
    (len : ℕ) (r : RingBuffer)
    → IsValid r
    → queue_header_size + len ≤ use_size r
    → IsShorter queue_header_size (use_size r) (dequeue len (move_front queue_header_size r).1).2
taken_off len r v enough =
    let (valid, headed) = use_size-move_front queue_header_size r v (omega arith) in
    let moved = (move_front queue_header_size r).1 in
    let (valid', left) = use_size-dequeue len moved valid (omega (arith, headed)) in
    record { valid = valid'; shorter = omega (arith, headed, left) }

take_payload-Shortens :
    (moving : Bool) (r : RingBuffer) → IsValid r → Shortens (use_size r) (take_payload moving r)
unfolding take_payload
take_payload-Shortens true r v = tt
take_payload-Shortens false r v =
    let len = value_of (peek queue_header_size r).1 in
    elim (Bool-cases (ltb (use_size r) queue_header_size)) [
      | inl short ↦ rw (take_payload, short) tt
      | inr headed ↦ elim (Bool-cases (ltb (use_size r) (queue_header_size + len))) [
        | inl part ↦ rw (take_payload, headed, part) tt
        | inr whole ↦ elim (Bool-cases (ltb payload_len_default (queue_header_size + len))) [
          | inl long ↦ rw (take_payload, headed, whole, long) tt
          | inr fits ↦
              rw (take_payload, headed, whole, fits)
                (taken_off len r v (ltb→ge (use_size r) (queue_header_size + len) whole))
        ]
      ]
    ]

-- The loop came to one of its `break`s, or overran its buffer.
abbrev pub has_ended : Drained → Bool
has_ended (drained ps r) = true
has_ended (overran ps) = true
has_ended out_of_fuel = false

has_ended-also : (p : List ℕ) (d : Drained) → has_ended (also p d) ≡ has_ended d
has_ended-also p (drained ps r) = refl
has_ended-also p (overran ps) = refl
has_ended-also p out_of_fuel = refl

Taken-cases :
    (t : Taken)
    → (t ≡ nothing)
      ⊎ (((bytes : List ℕ) × (rest : RingBuffer) × (t ≡ payload bytes rest)) ⊎ (t ≡ overrun))
Taken-cases nothing = inl refl
Taken-cases (payload bytes rest) = inr (inl (bytes, rest, refl))
Taken-cases overrun = inr (inr refl)

-- The loop over a content's ring ends on every valid ring, whatever it holds: with more fuel than
-- the ring has bytes it does not run out.
pub drain_ends :
    (fuel : ℕ) (moving : Bool) (r : RingBuffer)
    → IsValid r
    → use_size r < fuel
    → has_ended (drain fuel moving r) ≡ true
unfolding drain
drain_ends zero moving r v more = absurd (omega arith)
drain_ends (suc fuel) moving r v more = elim (Taken-cases (take_payload moving r)) [
  | inl e ↦ rw (drain, e) refl
  | inr (inl (bytes, rest, e)) ↦
      let s : IsShorter queue_header_size (use_size r) rest =
        subst (Shortens (use_size r)) e (take_payload-Shortens moving r v) in
      let shorter = s.shorter in
      let ih = drain_ends fuel moving rest s.valid (omega (arith, shorter)) in
      rw (drain, e) (has_ended-also bytes (drain fuel moving rest) ∙ ih)
  | inr (inr e) ↦ rw (drain, e) refl
]
