-- ===== src/Frame/Receive.antt =====
-- The receive loop of NetLib_Server::WorkerThread: frames are cut from the session's ring, checked
-- and handed over. What `Disconnect` then does is in Session.
use iocpnet_module_mono_repo.Prelude.{
  ℕ, zero, suc, ◌+◌, List, [], ◌∷◌, Bool, ◌&&◌, not, Option, none, some, ltb, ◌==◌, if◌then◌else◌,
}
use iocpnet_module_mono_repo.Prelude.Memory.{Memory, copy_in, read}
use iocpnet_module_mono_repo.Encoder.{
  SimpleEncoder, set_buffers, set_keys, decode, calculate_checksum,
}
use iocpnet_module_mono_repo.Packet.{payload_len_default, value_of, bytes_of}
use iocpnet_module_mono_repo.Ring.{RingBuffer, use_size, peek, move_front, dequeue, enqueue}
use iocpnet_module_mono_repo.Frame.{
  NetConfig, header_size, len_at, rand_key_at, check_sum_at, code_at,
}

-- `SESSION_LEAVE_CODE`, as far as the receive loop sets it
pub data LeaveCode : Type 0 where
  none_set wrong_header_code wrong_header_len wrong_header_checksum wrong_recvpost_count send_full :
      LeaveCode

-- The members of a session that the loop works on. `in_content` says that `m_content` is set.
pub record Receiver : Type 0 where
  pub recv_buffer : RingBuffer
  pub content_buffer : RingBuffer
  pub in_content : Bool
  pub recv_post_cnt : ℕ
  pub cumulative_recv : ℕ
  pub leave_code : LeaveCode

-- How one round of the loop ends: `continue` with what was handed to `OnRecv`, if anything, a
-- `break`, a `break` after `Disconnect`, or a write past a local array.
pub data Round : Type 0 where
  next : Option (List ℕ) → Receiver → Round
  wait : Receiver → Round
  cut : Receiver → Round
  fault : Round

-- `header->Code != server->m_header_code` compares an `unsigned char` with a `char` as `int`s: a
-- pattern from 128 on stands for a negative number, which no code equals.
unfoldable pub same_code : ℕ → ℕ → Bool
same_code code pattern = ltb pattern 128 && (code == pattern)

-- the local array `iobuf`, with a header and a payload in it
unfoldable pub io_buffer : Memory → List ℕ → List ℕ → Memory
io_buffer junk header payload = copy_in (copy_in junk 0 header) header_size payload

-- `if (server->m_opt_encryption)`: the checksum and the payload after `Decode`
unfoldable pub unseal : NetConfig → Memory → ℕ → Option (ℕ × List ℕ)
unseal c buffer len =
    let decoder : SimpleEncoder = record {
      original = 0;
      encoded = 0;
      buffer_size = 0;
      k = 0;
      rk = 0;
    } in
    let ready =
      set_keys c.fixed_key (buffer rand_key_at)
        (set_buffers check_sum_at check_sum_at (len + 1) decoder) in
    elim (decode ready buffer) [
      | none ↦ none
      | some m ↦ some (m check_sum_at, read m header_size len)
    ]

-- `m_content == nullptr`: a packet for `OnRecv`; else the payload goes to the content's ring
unfoldable pub hand_over : List ℕ → ℕ → Receiver → Round
hand_over payload len r =
    let counted = record r { cumulative_recv = r.cumulative_recv + 1; recv_post_cnt = 0 } in
    if not r.in_content
    then next (some payload) counted
    else let (put_header, with_header) = enqueue (bytes_of 2 len) r.content_buffer in
      if put_header == 0
      then cut counted
      else let (put_payload, with_payload) = enqueue payload with_header in
        if put_payload == 0
        then cut (record counted { content_buffer = with_header })
        else next none (record counted { content_buffer = with_payload })

-- the part of a round after both length checks: the frame is taken off the ring
unfoldable pub take_frame : NetConfig → Memory → List ℕ → ℕ → Receiver → Round
take_frame c junk header len r =
    let (_, payload, rest) = dequeue len (move_front header_size r.recv_buffer).1 in
    let r' = record r { recv_buffer = rest } in
    if ltb payload_len_default (header_size + len)
    then fault
    else if c.encryption
    then elim (unseal c (io_buffer junk header payload) len) [
      | none ↦ fault
      | some (check_sum, plain) ↦
          if calculate_checksum plain == check_sum
          then hand_over plain len r'
          else cut (record r' { leave_code = wrong_header_checksum })
    ]
    else hand_over payload len r'

-- one round of `while (1)`; `junk` is what `iobuf` holds before
unfoldable pub round : NetConfig → Memory → Receiver → Round
round c junk r =
    let r' = record r { recv_post_cnt = r.recv_post_cnt + 1 } in
    if ltb c.max_recv_post_cnt r'.recv_post_cnt
    then cut (record r' { leave_code = wrong_recvpost_count })
    else if ltb (use_size r'.recv_buffer) header_size
    then wait r'
    else let header = (peek header_size r'.recv_buffer).1 in
      let buffer = copy_in junk 0 header in
      let len = value_of (read buffer len_at 2) in
      if not (same_code (buffer code_at) c.header_code)
      then cut (record r' { leave_code = wrong_header_len })
      else if ltb payload_len_default len
      then cut (record r' { leave_code = wrong_header_len })
      else if ltb (use_size r'.recv_buffer) (header_size + len)
      then wait r'
      else take_frame c junk header len r'

-- How the loop ends, with the payloads that `OnRecv` was given.
pub data Ended : Type 0 where
  waiting : List (List ℕ) → Receiver → Ended
  disconnecting : List (List ℕ) → Receiver → Ended
  faulted : List (List ℕ) → Ended
  out_of_fuel : Ended

abbrev pub handed : Option (List ℕ) → List (List ℕ) → List (List ℕ)
handed none ps = ps
handed (some p) ps = p ∷ ps

abbrev pub before : Option (List ℕ) → Ended → Ended
before o (waiting ps r) = waiting (handed o ps) r
before o (disconnecting ps r) = disconnecting (handed o ps) r
before o (faulted ps) = faulted (handed o ps)
before o out_of_fuel = out_of_fuel

-- the loop, on fuel
unfoldable pub receive : NetConfig → Memory → ℕ → Receiver → Ended
receive c junk zero r = out_of_fuel
receive c junk (suc fuel) r = elim (round c junk r) [
  | next o r' ↦ before o (receive c junk fuel r')
  | wait r' ↦ waiting [] r'
  | cut r' ↦ disconnecting [] r'
  | fault ↦ faulted []
]
