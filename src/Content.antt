-- ===== src/Content.antt =====
-- IOCPNetLib/NetLib_Content.cpp: the loop of NetLib_Content::Update over one session's ring of
-- payloads, each behind a ContentQueueHeader of two bytes with its length. The receive loop of
-- the server fills that ring (`hand_over` in Frame.Receive).
pub mod Queued
pub mod Handing
pub mod Ending
pub mod Messages
pub mod Handoff
pub mod Moved
mod Tests
use iocpnet_module_mono_repo.Prelude.{
  ℕ, zero, suc, ◌+◌, List, [], ◌∷◌, Bool, true, false, ltb, if◌then◌else◌,
}
use iocpnet_module_mono_repo.Packet.{payload_len_default, value_of}
use iocpnet_module_mono_repo.Ring.{RingBuffer, use_size, peek, move_front, dequeue}

-- `sizeof(ContentQueueHeader)`
abbrev pub queue_header_size : ℕ
queue_header_size = 2

-- How one round ends: a `break`, a payload for `OnRecv`, or a write past `serializeBuf`.
pub data Taken : Type 0 where
  nothing : Taken
  payload : List ℕ → RingBuffer → Taken
  overrun : Taken

-- one round of `while (1)`; `moving` is `session->IsMoving`, which `OnRecv` is taken to leave as it is
unfoldable pub take_payload : Bool → RingBuffer → Taken
take_payload moving r =
    if moving
    then nothing
    else if ltb (use_size r) queue_header_size
    then nothing
    else let len = value_of (peek queue_header_size r).1 in
      if ltb (use_size r) (queue_header_size + len)
      then nothing
      else if ltb payload_len_default (queue_header_size + len)
      then overrun
      else let (_, bytes, rest) = dequeue len (move_front queue_header_size r).1 in
        payload bytes rest

-- How the loop ends, with the payloads that `OnRecv` was given and the ring that is left.
pub data Drained : Type 0 where
  drained : List (List ℕ) → RingBuffer → Drained
  overran : List (List ℕ) → Drained
  out_of_fuel : Drained

abbrev pub also : List ℕ → Drained → Drained
also p (drained ps r) = drained (p ∷ ps) r
also p (overran ps) = overran (p ∷ ps)
also p out_of_fuel = out_of_fuel

-- the loop, on fuel
unfoldable pub drain : ℕ → Bool → RingBuffer → Drained
drain zero moving r = out_of_fuel
drain (suc fuel) moving r = elim (take_payload moving r) [
  | nothing ↦ drained [] r
  | payload bytes rest ↦ also bytes (drain fuel moving rest)
  | overrun ↦ overran []
]
