-- ===== src/Frame/Send.antt =====
-- What SendPacket makes of a packet: the bytes that go out.
use iocpnet_module_mono_repo.Prelude.{
  ℕ, suc, ◌+◌, ◌-◌, ◌*◌, ◌/◌, ◌%◌, ◌≤◌, ◌<◌, ◌≡◌, refl, sym, ap, ap₂, ◌∙◌, List, [], ◌∷◌, arith,
  length, some, if◌then◌else◌, Bool, true, false, le→ltb, lt→ltb, inl, inr, Bool-cases,
}
use iocpnet_module_mono_repo.Prelude.Memory.{
  Memory, copy_in, read, read-copy_in, length-read, read-copy_in_disjoint,
}
use iocpnet_module_mono_repo.Encoder.{
  SimpleEncoder, encode, encode_from, set_buffers, set_keys, calculate_checksum, max_packet_size,
}
use iocpnet_module_mono_repo.Encoder.Checksum.{checksum_is_byte}
use iocpnet_module_mono_repo.Encoder.RoundTrip.{length-encode_from}
use iocpnet_module_mono_repo.Packet.{
  SerializeBuffer, clear, put_data, bytes_of, value_of, payload_len_default,
}
use iocpnet_module_mono_repo.Frame.{
  NetConfig, header_size, net_alloc, payload_size, fill_packet, seal, frame_packet, sent_bytes,
}
use iocpnet_module_mono_repo.Frame.Wire.{wire}

if_true {ℓ} : {A : Type ℓ} (x y : A) (b : Bool) → b ≡ true → (if b then x else y) ≡ x
if_true x y b e = rw e refl

if_false {ℓ} : {A : Type ℓ} (x y : A) (b : Bool) → b ≡ false → (if b then x else y) ≡ y
if_false x y b e = rw e refl

-- A buffer that holds a header and a payload.
record IsFramed (s : SerializeBuffer) (b0 b1 b2 b3 b4 : ℕ) (payload : List ℕ) : Type 0 where
  byte_0 : s.memory 0 ≡ b0
  byte_1 : s.memory 1 ≡ b1
  byte_2 : s.memory 2 ≡ b2
  byte_3 : s.memory 3 ≡ b3
  byte_4 : s.memory 4 ≡ b4
  size : s.data_size ≡ header_size + length payload
  behind : read s.memory header_size (length payload) ≡ payload

read_five : (m : Memory) (n : ℕ) → read m 0 (5 + n) ≡ m 0 ∷ m 1 ∷ m 2 ∷ m 3 ∷ m 4 ∷ read m 5 n
unfolding read
read_five m n = let e : 5 + n ≡ suc (suc (suc (suc (suc n)))) = omega arith in rw (e, read) refl

sent_framed :
    (s : SerializeBuffer) (b0 b1 b2 b3 b4 : ℕ) (payload : List ℕ)
    → IsFramed s b0 b1 b2 b3 b4 payload
    → sent_bytes s ≡ b0 ∷ b1 ∷ b2 ∷ b3 ∷ b4 ∷ payload
sent_framed s b0 b1 b2 b3 b4 payload f =
    ap (read s.memory 0) f.size
    ∙ read_five s.memory (length payload)
    ∙ rw (f.byte_0, f.byte_1, f.byte_2, f.byte_3, f.byte_4, f.behind) refl

put_data_fits :
    (src : List ℕ) (s : SerializeBuffer)
    → s.data_size + length src ≤ s.buffer_size
    → put_data src s ≡ (
      length src,
      record s {
        memory = copy_in s.memory s.rear src;
        rear = s.rear + length src;
        data_size = s.data_size + length src;
      },
    )
unfolding put_data
put_data_fits src s fits = rw (le→ltb s.buffer_size (s.data_size + length src) fits) refl

module _ (c : NetConfig) (e0 e1 e2 e3 e4 : ℕ) (pooled : SerializeBuffer) (payload : List ℕ) where
  header : Memory
  header = copy_in pooled.memory 0 (e0 ∷ e1 ∷ e2 ∷ e3 ∷ e4 ∷ [])

  coded : Memory
  unfolding header
  coded = copy_in header 0 (c.header_code % 256 ∷ [])

  filled : Memory
  unfolding coded
  filled = copy_in (copy_in coded 5 payload) 1 (bytes_of 2 (length payload))

  framed : SerializeBuffer
  framed = record pooled {
    memory = filled;
    front = 0;
    rear = 5 + length payload;
    data_size = 5 + length payload;
  }

  framed-IsFramed :
      header_size + length payload ≤ payload_len_default
      → IsFramed framed
          (c.header_code % 256)
          (length payload % 256)
          (length payload / 256)
          e3
          e4
          payload
  unfolding framed filled coded header copy_in bytes_of
  framed-IsFramed fits = record {
    byte_0 = refl;
    byte_1 = refl;
    byte_2 = omega arith;
    byte_3 = refl;
    byte_4 = refl;
    size = refl;
    behind =
        read-copy_in_disjoint (copy_in coded 5 payload) 1 (bytes_of 2 (length payload)) 5
          (length payload) (inr (omega arith))
        ∙ read-copy_in coded 5 payload;
  }

  net_alloc_lem :
      pooled.buffer_size ≡ payload_len_default
      → net_alloc (e0 ∷ e1 ∷ e2 ∷ e3 ∷ e4 ∷ []) pooled
        ≡ record pooled { memory = header; front = 0; rear = 5; data_size = 5 }
  unfolding net_alloc clear header
  net_alloc_lem pool =
      ap (λ t. t.1)
        (put_data_fits (e0 ∷ e1 ∷ e2 ∷ e3 ∷ e4 ∷ [])
          (record pooled { front = 0; rear = 0; data_size = 0 }) (omega arith))

  fill_packet_lem :
      (packet : SerializeBuffer)
      → read packet.memory 0 packet.data_size ≡ payload
      → pooled.buffer_size ≡ payload_len_default
      → header_size + length payload ≤ payload_len_default
      → fill_packet c (e0 ∷ e1 ∷ e2 ∷ e3 ∷ e4 ∷ []) pooled packet ≡ framed
  unfolding payload_size framed filled coded fill_packet copy_in
  fill_packet_lem packet is_payload pool fits =
      let alloc : SerializeBuffer = record pooled {
        memory = coded;
        front = 0;
        rear = 5;
        data_size = 5;
      } in
      let less : 5 + length payload - 5 ≡ length payload = omega arith in
      rw (net_alloc_lem pool, is_payload, put_data_fits payload alloc (omega arith), less) refl

  emptied : SerializeBuffer
  unfolding coded
  emptied = record pooled {
    memory = copy_in coded 1 (bytes_of 2 0);
    front = 0;
    rear = 5;
    data_size = 5;
  }

  emptied-IsFramed : IsFramed emptied (c.header_code % 256) 0 0 e3 e4 []
  unfolding emptied coded header copy_in bytes_of read
  emptied-IsFramed = record {
    byte_0 = refl;
    byte_1 = refl;
    byte_2 = refl;
    byte_3 = refl;
    byte_4 = refl;
    size = refl;
    behind = refl;
  }

  fill_packet_oversize :
      (packet : SerializeBuffer)
      → read packet.memory 0 packet.data_size ≡ payload
      → pooled.buffer_size ≡ payload_len_default
      → payload_len_default < header_size + length payload
      → fill_packet c (e0 ∷ e1 ∷ e2 ∷ e3 ∷ e4 ∷ []) pooled packet ≡ emptied
  unfolding payload_size emptied coded fill_packet copy_in put_data
  fill_packet_oversize packet is_payload pool over =
      rw
        (
          net_alloc_lem pool,
          is_payload,
          lt→ltb pooled.buffer_size (5 + length payload) (omega arith),
        )
        refl

encode_lem :
    (e : SimpleEncoder) (m : Memory) (p : List ℕ)
    → e.buffer_size ≤ max_packet_size
    → read m e.original e.buffer_size ≡ p
    → encode e m ≡ some (copy_in m e.encoded (encode_from e.k e.rk 0 0 0 p))
unfolding encode
encode_lem e m p fits seen = rw (le→ltb max_packet_size e.buffer_size fits, seen) refl

read_four : (m : Memory) (n : ℕ) → read m 0 (5 + n) ≡ m 0 ∷ m 1 ∷ m 2 ∷ m 3 ∷ read m 4 (n + 1)
unfolding read
read_four m n = let e : 5 + n ≡ suc (suc (suc (suc (n + 1)))) = omega arith in rw (e, read) refl

module _ (c : NetConfig) (random b0 b1 b2 b3 b4 : ℕ) (s : SerializeBuffer) (payload : List ℕ)
    (f : IsFramed s b0 b1 b2 b3 b4 payload) (len : b1 + 256 * b2 ≡ length payload)
    (fits : header_size + length payload ≤ payload_len_default) where
  rk : ℕ
  rk = random % 256

  check_sum : ℕ
  check_sum = calculate_checksum payload

  keyed : Memory
  unfolding rk
  keyed = copy_in s.memory 3 (rk ∷ [])

  summed : Memory
  unfolding keyed check_sum
  summed = copy_in keyed 4 (check_sum % 256 ∷ [])

  code : List ℕ
  unfolding rk check_sum
  code = encode_from c.fixed_key rk 0 0 0 (check_sum ∷ payload)

  code-length : length payload + 1 ≡ length code
  unfolding code
  code-length =
      let e : length code ≡ length (check_sum ∷ payload) =
        length-encode_from c.fixed_key rk 0 0 0 (check_sum ∷ payload) in
      omega arith

  header_length : value_of (read s.memory 1 2) ≡ length payload
  unfolding value_of read
  header_length = rw (f.byte_1, f.byte_2) (omega arith)

  keyed_payload : read keyed 5 (length payload) ≡ payload
  unfolding keyed
  keyed_payload =
      read-copy_in_disjoint s.memory 3 (rk ∷ []) 5 (length payload) (inr (omega arith)) ∙ f.behind

  summed_head : summed 4 ≡ check_sum
  unfolding summed check_sum calculate_checksum copy_in
  summed_head =
      let small : calculate_checksum payload < 256 = checksum_is_byte 0 payload in omega arith

  summed_payload : read summed 4 (length payload + 1) ≡ check_sum ∷ payload
  unfolding summed read check_sum
  summed_payload =
      let e : length payload + 1 ≡ suc (length payload) = omega arith in
      rw (e, read)
        (ap₂ ◌∷◌ summed_head (
          read-copy_in_disjoint keyed 4 (check_sum % 256 ∷ []) 5 (length payload)
            (inr (omega arith))
          ∙ keyed_payload))

  sealed_bytes :
      copy_in summed 4 code 0
        ∷ copy_in summed 4 code 1
        ∷ copy_in summed 4 code 2
        ∷ copy_in summed 4 code 3
        ∷ read (copy_in summed 4 code) 4 (length payload + 1)
      ≡ b0 ∷ b1 ∷ b2 ∷ rk ∷ code
  unfolding summed keyed copy_in
  sealed_bytes =
      let count : length payload + 1 ≡ length code = code-length in
      rw (f.byte_0, f.byte_1, f.byte_2, count)
        (ap (λ t. b0 ∷ b1 ∷ b2 ∷ rk ∷ t) (read-copy_in summed 4 code))

  seal_lem :
      (s' : SerializeBuffer) × (seal c random s ≡ some s')
      × (sent_bytes s' ≡ b0 ∷ b1 ∷ b2 ∷ rk ∷ code)
  unfolding seal summed keyed set_buffers set_keys code encode_from copy_in
  seal_lem =
      let ready : SimpleEncoder = record {
        original = 4;
        encoded = 4;
        buffer_size = length payload + 1;
        k = c.fixed_key;
        rk = summed 3;
      } in
      (
        record s { memory = copy_in summed 4 code },
        rw
            (
              seal,
              header_length,
              keyed_payload,
              encode_lem ready summed (check_sum ∷ payload) (omega arith) summed_payload,
            )
            refl,
        ap (read (copy_in summed 4 code) 0) f.size
            ∙ read_four (copy_in summed 4 code) (length payload)
            ∙ sealed_bytes,
      )

module _ (c : NetConfig) (e0 e1 e2 e3 e4 random : ℕ) (pooled packet : SerializeBuffer) where
  framed_bytes :
      (payload : List ℕ)
      → header_size + length payload ≤ payload_len_default
      → IsFramed
          (fill_packet c (e0 ∷ e1 ∷ e2 ∷ e3 ∷ e4 ∷ []) pooled packet)
          (c.header_code % 256)
          (length payload % 256)
          (length payload / 256)
          e3
          e4
          payload
      → (s : SerializeBuffer) × (frame_packet c (e0 ∷ e1 ∷ e2 ∷ e3 ∷ e4 ∷ []) random pooled packet
          ≡ some s)
        × (sent_bytes s ≡ wire c (if c.encryption then random % 256 else e3) e4 payload)
  unfolding frame_packet code rk check_sum
  framed_bytes payload fits f = elim (Bool-cases c.encryption) [
    | inl on ↦
        let (s, run, bytes) =
          seal_lem c random (c.header_code % 256) (length payload % 256) (length payload / 256) e3
            e4 (fill_packet c (e0 ∷ e1 ∷ e2 ∷ e3 ∷ e4 ∷ []) pooled packet) payload f (omega arith)
            fits in
        let key : (if c.encryption then random % 256 else e3) ≡ random % 256 =
          if_true _ _ c.encryption on in
        (
          s,
          if_true _ _ c.encryption on ∙ run,
          bytes
              ∙ sym (
                  ap₂
                    (λ k t.
                      c.header_code % 256 ∷ length payload % 256 ∷ length payload / 256 ∷ k ∷ t)
                    key
                    (if_true _ _ c.encryption on
                      ∙ ap
                          (λ k.
                            encode_from c.fixed_key k 0 0 0 (calculate_checksum payload ∷ payload))
                          key)),
        )
    | inr off ↦ (
      fill_packet c (e0 ∷ e1 ∷ e2 ∷ e3 ∷ e4 ∷ []) pooled packet,
      if_false _ _ c.encryption off,
      sent_framed (fill_packet c (e0 ∷ e1 ∷ e2 ∷ e3 ∷ e4 ∷ []) pooled packet) (c.header_code % 256)
            (length payload % 256) (length payload / 256) e3 e4 payload f
          ∙ sym (
              ap₂ (λ k t. c.header_code % 256 ∷ length payload % 256 ∷ length payload / 256 ∷ k ∷ t)
                (if_false _ _ c.encryption off) (if_false _ _ c.encryption off)),
    )
  ]

  -- For a packet of at most 1395 bytes and a buffer of the pool's size, `SendPacket` puts into the
  -- queue a packet whose bytes are the wire form of the packet's bytes; what the header held in
  -- the random key and the checksum goes out where nothing is encrypted.
  pub frame_packet_lem :
      pooled.buffer_size ≡ payload_len_default
      → header_size + packet.data_size ≤ payload_len_default
      → (s : SerializeBuffer) × (frame_packet c (e0 ∷ e1 ∷ e2 ∷ e3 ∷ e4 ∷ []) random pooled packet
          ≡ some s)
        × (sent_bytes s
            ≡ wire c
                (if c.encryption then random % 256 else e3)
                e4
                (read packet.memory 0 packet.data_size))
  frame_packet_lem pool fits =
      let payload : List ℕ = read packet.memory 0 packet.data_size in
      let len : length payload ≡ packet.data_size = length-read packet.memory 0 packet.data_size in
      framed_bytes payload (omega arith) (
        rw (fill_packet_lem c e0 e1 e2 e3 e4 pooled payload packet refl pool (omega arith))
          (framed-IsFramed c e0 e1 e2 e3 e4 pooled payload (omega arith)))

  -- For a longer packet the failure of `PutData` goes unseen: the wire form of the empty payload
  -- goes out.
  pub frame_packet_oversize :
      pooled.buffer_size ≡ payload_len_default
      → payload_len_default < header_size + packet.data_size
      → (s : SerializeBuffer) × (frame_packet c (e0 ∷ e1 ∷ e2 ∷ e3 ∷ e4 ∷ []) random pooled packet
          ≡ some s)
        × (sent_bytes s ≡ wire c (if c.encryption then random % 256 else e3) e4 [])
  frame_packet_oversize pool over =
      let payload : List ℕ = read packet.memory 0 packet.data_size in
      let len : length payload ≡ packet.data_size = length-read packet.memory 0 packet.data_size in
      framed_bytes [] (omega arith) (
        rw (fill_packet_oversize c e0 e1 e2 e3 e4 pooled payload packet refl pool (omega arith))
          (emptied-IsFramed c e0 e1 e2 e3 e4 pooled payload))
