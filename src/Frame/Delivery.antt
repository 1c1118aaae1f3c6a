-- ===== src/Frame/Delivery.antt =====
-- One round of the receive loop on a ring that begins with a whole packet.
use iocpnet_module_mono_repo.Prelude.{
  ℕ, suc, ◌+◌, ◌*◌, ◌/◌, ◌%◌, ◌≤◌, ◌<◌, ◌≡◌, refl, sym, ap, ap₂, ◌∙◌, List, [], ◌∷◌, ◌++◌, arith,
  length, length-append, true, false, ◌==◌, le→ltb, some, inl, inr, ◌⊎◌, Bool-cases, drop,
}
use iocpnet_module_mono_repo.Prelude.Memory.{Memory, copy_in, read, read-copy_in}
use iocpnet_module_mono_repo.Encoder.{
  SimpleEncoder, encode_from, decode_from, decode, set_buffers, set_keys, calculate_checksum,
  max_packet_size,
}
use iocpnet_module_mono_repo.Encoder.Checksum.{checksum_is_byte}
use iocpnet_module_mono_repo.Encoder.RoundTrip.{
  AreBytes, decode_from-encode_from, length-encode_from,
}
use iocpnet_module_mono_repo.Packet.{value_of, payload_len_default}
use iocpnet_module_mono_repo.Ring.{RingBuffer, use_size, move_front, dequeue}
use iocpnet_module_mono_repo.Ring.Contents.{IsValid, contents}
use iocpnet_module_mono_repo.Frame.{
  NetConfig, header_size, rand_key_at, check_sum_at, len_at, code_at,
}
use iocpnet_module_mono_repo.Frame.Wire.{
  wire, sealed_part, peek_split, dequeue_split, use_size_split,
}
use iocpnet_module_mono_repo.Frame.Receive.{
  Receiver, next, round, take_frame, unseal, io_buffer, hand_over, same_code,
}

decode_lem :
    (e : SimpleEncoder) (m : Memory) (p : List ℕ)
    → e.buffer_size ≤ max_packet_size
    → decode_from e.k e.rk 0 0 0 (read m e.encoded e.buffer_size) ≡ p
    → decode e m ≡ some (copy_in m e.original p)
unfolding decode
decode_lem e m p fits opened = rw (le→ltb max_packet_size e.buffer_size fits, opened)

same→== : (a : ℕ) → (a == a) ≡ true
same→== a = ground arith

first_byte : (m : Memory) (k : ℕ) (p : List ℕ) → copy_in m check_sum_at (k ∷ p) check_sum_at ≡ k
unfolding copy_in
first_byte m k p = ground arith

other_bytes :
    (m : Memory) (k : ℕ) (p : List ℕ)
    → read (copy_in m check_sum_at (k ∷ p)) header_size (length p) ≡ p
unfolding read
other_bytes m k p = ap (drop 1) (read-copy_in m check_sum_at (k ∷ p))

module _ (junk : Memory) (h0 h1 h2 rk cs : ℕ) (body : List ℕ) where
  -- what the loop reads of a header of five bytes
  pub header_len :
      value_of (read (copy_in junk 0 (h0 ∷ h1 ∷ h2 ∷ rk ∷ cs ∷ [])) len_at 2) ≡ h1 + 256 * h2
  unfolding copy_in read value_of
  header_len = omega arith

  pub header_code_byte : copy_in junk 0 (h0 ∷ h1 ∷ h2 ∷ rk ∷ cs ∷ []) code_at ≡ h0
  unfolding copy_in
  header_code_byte = refl

  buffer : Memory
  unfolding io_buffer
  buffer = io_buffer junk (h0 ∷ h1 ∷ h2 ∷ rk ∷ cs ∷ []) body

  buffer_rand_key : buffer rand_key_at ≡ rk
  unfolding copy_in io_buffer buffer
  buffer_rand_key = refl

  buffer_sealed : read buffer check_sum_at (length body + 1) ≡ cs ∷ body
  unfolding copy_in io_buffer buffer read
  buffer_sealed =
      let e : length body + 1 ≡ suc (length body) = omega arith in
      rw (e, read)
        (ap (λ t. cs ∷ t)
          (read-copy_in (copy_in junk 0 (h0 ∷ h1 ∷ h2 ∷ rk ∷ cs ∷ [])) header_size body))

  -- `unseal` opens what `Encode` made of a checksum `k` and the payload.
  unseal_lem :
      (c : NetConfig) (k : ℕ) (payload : List ℕ)
      → AreBytes (k ∷ payload)
      → encode_from c.fixed_key rk 0 0 0 (k ∷ payload) ≡ cs ∷ body
      → length body ≡ length payload
      → length body < max_packet_size
      → unseal c buffer (length body) ≡ some (k, payload)
  unfolding unseal set_buffers set_keys
  unseal_lem c k payload bytes e same fits =
      let decoder : SimpleEncoder = record {
        original = 4;
        encoded = 4;
        buffer_size = length body + 1;
        k = c.fixed_key;
        rk = buffer 3;
      } in
      let opened : decode_from c.fixed_key (buffer 3) 0 0 0 (read buffer 4 (length body + 1))
          ≡ k ∷ payload =
        ap₂ (λ a b. decode_from c.fixed_key a 0 0 0 b) buffer_rand_key (buffer_sealed ∙ sym e)
        ∙ decode_from-encode_from c.fixed_key rk 0 0 0 (k ∷ payload) bytes in
      rw (unseal, decode_lem decoder buffer (k ∷ payload) (omega arith) opened)
        (ap₂ (λ a b. some (a, b)) (first_byte buffer k payload)
          (ap (read (copy_in buffer 4 (k ∷ payload)) 5) same ∙ other_bytes buffer k payload))

  -- The rest of a round, once a packet's length is accepted.
  take_frame_lem :
      (c : NetConfig) (plain : List ℕ) (r : Receiver)
      → (dequeue (length body) (move_front header_size r.recv_buffer).1).1 ≡ body
      → header_size + length body ≤ payload_len_default
      → ((c.encryption ≡ false) × (plain ≡ body))
        ⊎ ((c.encryption ≡ true)
            × (unseal c buffer (length body) ≡ some (calculate_checksum plain, plain)))
      → take_frame c junk (h0 ∷ h1 ∷ h2 ∷ rk ∷ cs ∷ []) (length body) r
        ≡ hand_over plain (length body) (record r {
          recv_buffer = (dequeue (length body) (move_front header_size r.recv_buffer).1).2;
        })
  unfolding take_frame buffer unseal hand_over
  take_frame_lem c plain r out fits (inl (off, same)) =
      rw (le→ltb payload_len_default (header_size + length body) fits, off, out) (rw same refl)
  take_frame_lem c plain r out fits (inr (on, opened)) =
      rw (le→ltb payload_len_default (header_size + length body) fits, on, out, opened)
        (rw (same→== (calculate_checksum plain)) refl)

  -- A round on a ring that begins with a header and its payload goes on to hand over `plain`.
  round_frame :
      (c : NetConfig) (plain rest : List ℕ) (r : Receiver)
      → IsValid r.recv_buffer
      → contents r.recv_buffer ≡ (h0 ∷ h1 ∷ h2 ∷ rk ∷ cs ∷ []) ++ (body ++ rest)
      → h1 + 256 * h2 ≡ length body
      → same_code h0 c.header_code ≡ true
      → r.recv_post_cnt < c.max_recv_post_cnt
      → header_size + length body ≤ payload_len_default
      → ((c.encryption ≡ false) × (plain ≡ body))
        ⊎ ((c.encryption ≡ true)
            × (unseal c buffer (length body) ≡ some (calculate_checksum plain, plain)))
      → (ring : RingBuffer) × IsValid ring
        × (contents ring ≡ rest)
        × (round c junk r
            ≡ hand_over plain
                (length body)
                (record r { recv_buffer = ring; recv_post_cnt = r.recv_post_cnt + 1 }))
  unfolding round
  round_frame c plain rest r v e len code post fits opened =
      let header : List ℕ = h0 ∷ h1 ∷ h2 ∷ rk ∷ cs ∷ [] in
      let (seen, behind, valid) = peek_split r.recv_buffer header (body ++ rest) v e in
      let moved : RingBuffer = (move_front 5 r.recv_buffer).1 in
      let (out, left, valid') = dequeue_split moved body rest valid behind in
      let used : use_size r.recv_buffer ≡ 5 + length (body ++ rest) =
        use_size_split r.recv_buffer header (body ++ rest) v e in
      let total : length (body ++ rest) ≡ length body + length rest = length-append body rest in
      (
        (dequeue (length body) moved).2,
        valid',
        left,
        rw
            (
              le→ltb c.max_recv_post_cnt (r.recv_post_cnt + 1) (omega arith),
              le→ltb (use_size r.recv_buffer) header_size (omega arith),
              seen,
              header_len,
              header_code_byte,
              code,
              len,
              le→ltb payload_len_default (length body) (omega arith),
              le→ltb (use_size r.recv_buffer) (header_size + length body) (omega arith),
            )
            (take_frame_lem c plain (record r { recv_post_cnt = r.recv_post_cnt + 1 }) out fits
              opened),
      )

uncons {ℓ} :
    {A : Type ℓ} (xs : List A) (n : ℕ)
    → length xs ≡ suc n
    → (x : A) × (tail : List A) × (xs ≡ x ∷ tail) × (length tail ≡ n)
uncons [] n e = absurd (omega arith)
uncons (x ∷ xs) n e = (x, xs, refl, omega arith)

-- the sealed part has a first byte and, behind it, as many bytes as the payload
sealed_lem :
    (c : NetConfig) (junk : Memory) (h0 h1 h2 rk unset : ℕ) (payload : List ℕ)
    → AreBytes payload
    → header_size + length payload ≤ payload_len_default
    → (cs : ℕ) × (body : List ℕ) × (sealed_part c rk unset payload ≡ cs ∷ body)
      × (length body ≡ length payload)
      × (((c.encryption ≡ false) × (payload ≡ body))
          ⊎ ((c.encryption ≡ true)
              × (unseal c (buffer junk h0 h1 h2 rk cs body) (length body)
                  ≡ some (calculate_checksum payload, payload))))
unfolding calculate_checksum
sealed_lem c junk h0 h1 h2 rk unset payload bytes fits = elim (Bool-cases c.encryption) [
  | inl on ↦
      let plain : List ℕ = calculate_checksum payload ∷ payload in
      let (cs, body, e, same) =
        uncons (encode_from c.fixed_key rk 0 0 0 plain) (length payload)
          (length-encode_from c.fixed_key rk 0 0 0 plain) in
      (
        cs,
        body,
        rw on e,
        same,
        inr (
          on,
          unseal_lem junk h0 h1 h2 rk cs body c (calculate_checksum payload) payload
              (checksum_is_byte 0 payload, bytes) e same (omega arith),
        ),
      )
  | inr off ↦ (unset, payload, rw off refl, refl, inl (off, refl))
]

-- On a valid ring that begins with the wire bytes of a payload of at most 1395 bytes, a session
-- without content and below the limit of posts: a round hands over exactly that payload, leaves
-- just what follows it in the ring, counts the packet and resets the count of posts. `unset` is
-- the checksum's byte where nothing is encrypted; the header code is below 128.
pub round_delivers :
    (c : NetConfig) (junk : Memory) (rk unset : ℕ) (payload rest : List ℕ) (r : Receiver)
    → c.header_code < 128
    → AreBytes payload
    → header_size + length payload ≤ payload_len_default
    → r.in_content ≡ false
    → r.recv_post_cnt < c.max_recv_post_cnt
    → IsValid r.recv_buffer
    → contents r.recv_buffer ≡ wire c rk unset payload ++ rest
    → (ring : RingBuffer) × IsValid ring
      × (contents ring ≡ rest)
      × (round c junk r
          ≡ next (some payload) (record r {
            recv_buffer = ring;
            recv_post_cnt = 0;
            cumulative_recv = r.cumulative_recv + 1;
          }))
unfolding same_code hand_over
round_delivers c junk rk unset payload rest r code bytes fits alone post v e =
    let h0 : ℕ = c.header_code % 256 in
    let h1 : ℕ = length payload % 256 in
    let h2 : ℕ = length payload / 256 in
    let (cs, body, split, same, opened) = sealed_lem c junk h0 h1 h2 rk unset payload bytes fits in
    let whole : contents r.recv_buffer ≡ (h0 ∷ h1 ∷ h2 ∷ rk ∷ cs ∷ []) ++ (body ++ rest) =
      e ∙ ap (λ t. h0 ∷ h1 ∷ h2 ∷ rk ∷ t ++ rest) split in
    let low : h0 ≡ c.header_code = omega arith in
    let (ring, valid, left, run) =
      round_frame junk h0 h1 h2 rk cs body c payload rest r v whole (omega arith) (ground arith)
        post (omega arith) opened in
    (ring, valid, left, run ∙ rw alone refl)
