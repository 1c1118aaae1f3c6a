-- ===== src/Encoder.antt =====
-- Utils/SimpleEncoder.h: the obfuscation of a packet's checksum and payload. The two buffers are
-- offsets into one memory, so that the callers' use of one buffer for both is the case of equal
-- offsets. `unsigned char` results are cut to a byte, the keys of `^` are `int`s.
pub mod Checksum
pub mod RoundTrip
mod Tests
use iocpnet_module_mono_repo.Prelude.{
  ℕ, ◌+◌, ◌%◌, ◌^◌, List, [], ◌∷◌, Option, none, some, bit_xor, ltb, ◌==◌, if◌then◌else◌,
}
use iocpnet_module_mono_repo.Prelude.Memory.{Memory, copy_in, read}

-- `MAX_PACKET_SIZE`, the size of the array `temp`
abbrev pub max_packet_size : ℕ
max_packet_size = 1400

pub record SimpleEncoder : Type 0 where
  pub original : ℕ
  pub encoded : ℕ
  pub buffer_size : ℕ
  pub k : ℕ
  pub rk : ℕ

-- `SetBuffers(original, encoded, bufferSize)`
unfoldable pub set_buffers : ℕ → ℕ → ℕ → SimpleEncoder → SimpleEncoder
set_buffers original encoded size e = record e {
  original = original;
  encoded = encoded;
  buffer_size = size;
}

-- `SetKeys(fixedKey, randomKey)`
unfoldable pub set_keys : ℕ → ℕ → SimpleEncoder → SimpleEncoder
set_keys fixed random e = record e { k = fixed; rk = random }

-- `unsigned char x = b ^ key`
abbrev pub mix : ℕ → ℕ → ℕ
mix b key = bit_xor b key % 256

-- the loop of `Encode` from index `i` on, over the bytes of `m_original` from there;
-- `prev_temp` is `temp[i - 1]`
unfoldable pub encode_from : (k rk i prev_p prev_temp : ℕ) → List ℕ → List ℕ
encode_from k rk i prev_p prev_temp [] = []
encode_from k rk i prev_p prev_temp (b ∷ bs) =
    let p = mix b (if i == 0 then rk + 1 else prev_p + rk + (i + 1) % 256) in
    let t = mix p (if i == 0 then k + 1 else prev_temp + k + (i + 1) % 256) in
    t ∷ encode_from k rk (i + 1) p t bs

-- the loop of `Decode`; `prev_encoded` is `m_encoded[i - 1]`
unfoldable pub decode_from : (k rk i prev_p prev_encoded : ℕ) → List ℕ → List ℕ
decode_from k rk i prev_p prev_encoded [] = []
decode_from k rk i prev_p prev_encoded (b ∷ bs) =
    let p = mix b (if i == 0 then k + 1 else prev_encoded + k + (i + 1) % 256) in
    mix p (if i == 0 then rk + 1 else prev_p + rk + (i + 1) % 256) ∷ decode_from k rk (i + 1) p b bs

-- `Encode()`; `none` where the loop writes past `temp`
unfoldable pub encode : SimpleEncoder → Memory → Option Memory
encode e m =
    if ltb max_packet_size e.buffer_size
    then none
    else some (copy_in m e.encoded (encode_from e.k e.rk 0 0 0 (read m e.original e.buffer_size)))

-- `Decode()`; `none` where the loop writes past `temp`
unfoldable pub decode : SimpleEncoder → Memory → Option Memory
decode e m =
    if ltb max_packet_size e.buffer_size
    then none
    else some (copy_in m e.original (decode_from e.k e.rk 0 0 0 (read m e.encoded e.buffer_size)))

-- the loop of `CalculateChecksum`, with the `unsigned int` sum so far
unfoldable pub checksum_from : ℕ → List ℕ → ℕ
checksum_from sum [] = sum % 256
checksum_from sum (b ∷ bs) = checksum_from ((sum + b) % 2 ^ 32) bs

-- `CalculateChecksum(buf, len)`, with the `len` bytes of `buf` as a list
unfoldable pub calculate_checksum : List ℕ → ℕ
unfolding checksum_from
calculate_checksum buf = checksum_from 0 buf
