-- ===== src/Frame.antt =====
-- IOCPNetLib/NetLibraryProtocol.h and the framing of NetLib_Server::SendPacket: a packet on the
-- wire is Code (1 byte), Len (2), RandKey (1), CheckSum (1) and Len bytes of payload. The header
-- lies at the start of the packet's buffer, and checksum and payload are obfuscated in place.
pub mod Receive
pub mod Wire
pub mod Send
pub mod Delivery
pub mod Stream
pub mod Refusals
pub mod Ending
mod Tests
use iocpnet_module_mono_repo.Prelude.{
  ℕ, ◌+◌, ◌-◌, ◌%◌, List, [], ◌∷◌, Bool, Option, none, some, if◌then◌else◌,
}
use iocpnet_module_mono_repo.Prelude.Memory.{Memory, copy_in, read}
use iocpnet_module_mono_repo.Encoder.{
  SimpleEncoder, set_buffers, set_keys, encode, calculate_checksum,
}
use iocpnet_module_mono_repo.Packet.{SerializeBuffer, clear, put_data, bytes_of, value_of}

-- `sizeof(NetHeader)` and the offsets of its fields, which are packed
abbrev pub header_size : ℕ
header_size = 5

abbrev pub code_at : ℕ
code_at = 0

abbrev pub len_at : ℕ
len_at = 1

abbrev pub rand_key_at : ℕ
rand_key_at = 3

abbrev pub check_sum_at : ℕ
check_sum_at = 4

-- What the server's constructor fixes for the framing. `header_code` and `fixed_key` are the bit
-- patterns of the `char` members `m_header_code` and `m_fixed_key`.
pub record NetConfig : Type 0 where
  pub header_code : ℕ
  pub fixed_key : ℕ
  pub encryption : Bool
  pub max_recv_post_cnt : ℕ

-- `GetPayloadSize()`
unfoldable pub payload_size : SerializeBuffer → ℕ
payload_size s = s.data_size - header_size

-- `Packet::NetAlloc()`: a pooled buffer, cleared, with room for a header; `empty_header` is what
-- the uninitialised header on the stack holds
unfoldable pub net_alloc : List ℕ → SerializeBuffer → SerializeBuffer
net_alloc empty_header pooled = (put_data empty_header (clear pooled)).1

-- an assignment to a header field of one byte
abbrev pub set_byte : ℕ → ℕ → SerializeBuffer → SerializeBuffer
set_byte at v s = record s { memory = copy_in s.memory at (v % 256 ∷ []) }

-- `if (m_opt_encryption == 1)`: the random key, the checksum and the obfuscation of both parts
unfoldable pub seal : NetConfig → ℕ → SerializeBuffer → Option SerializeBuffer
seal c random s =
    let len = value_of (read s.memory len_at 2) in
    let keyed = set_byte rand_key_at random s in
    let check_sum = calculate_checksum (read keyed.memory header_size len) in
    let summed = set_byte check_sum_at check_sum keyed in
    let encoder : SimpleEncoder = record {
      original = 0;
      encoded = 0;
      buffer_size = 0;
      k = 0;
      rk = 0;
    } in
    let ready =
      set_keys c.fixed_key (summed.memory rand_key_at)
        (set_buffers check_sum_at check_sum_at (len + 1) encoder) in
    elim (encode ready summed.memory) [ none ↦ none | some m ↦ some (record summed { memory = m }) ]

-- the pool's packet with the header's code, the payload and its length, as `SendPacket` fills it
unfoldable pub fill_packet :
    NetConfig → List ℕ → SerializeBuffer → SerializeBuffer → SerializeBuffer
fill_packet c empty_header pooled packet =
    let coded = set_byte code_at c.header_code (net_alloc empty_header pooled) in
    let filled = (put_data (read packet.memory 0 packet.data_size) coded).1 in
    record filled { memory = copy_in filled.memory len_at (bytes_of 2 (payload_size filled)) }

-- What `SendPacket` puts into the send queue for `packet`: a packet of the pool, framed. `random`
-- is what `rand()` returns.
unfoldable pub frame_packet :
    NetConfig → List ℕ → ℕ → SerializeBuffer → SerializeBuffer → Option SerializeBuffer
frame_packet c empty_header random pooled packet =
    let sized = fill_packet c empty_header pooled packet in
    if c.encryption then seal c random sized else some sized

-- The bytes that `WSASend` is given for a queued packet.
abbrev pub sent_bytes : SerializeBuffer → List ℕ
sent_bytes s = read s.memory 0 s.data_size
