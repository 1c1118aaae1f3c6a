-- ===== src/Encoder/RoundTrip.antt =====
-- `Decode` undoes `Encode`, on byte strings and in place in memory.
use iocpnet_module_mono_repo.Prelude.{
  ℕ, suc, ◌+◌, ◌%◌, ◌≤◌, ◌<◌, ◌≡◌, refl, ap, ap₂, ◌∙◌, List, [], ◌∷◌, arith, length, All, some,
  none, inl, inr, le→ltb, lt→ltb, ◌==◌, if◌then◌else◌, ◌⊎◌,
}
use iocpnet_module_mono_repo.Prelude.Memory.{
  Memory, copy_in, read, length-read, read-copy_in, copy_in_outside, copy_in-read, in_run,
}
use iocpnet_module_mono_repo.Prelude.Bits.{xor_twice_word}
use iocpnet_module_mono_repo.Encoder.{
  SimpleEncoder, max_packet_size, mix, encode_from, decode_from, encode, decode,
}

abbrev pub AreBytes : List ℕ → Type 0
AreBytes bs = All (λ b. b < 256) bs

mix-mix : (b key : ℕ) → b < 256 → mix (mix b key) key ≡ b
mix-mix b key h = xor_twice_word 8 b key h

-- The loop of `Decode` undoes that of `Encode`, from any index and any bytes before it.
pub decode_from-encode_from :
    (k rk i prev_p prev_t : ℕ) (bs : List ℕ)
    → AreBytes bs
    → decode_from k rk i prev_p prev_t (encode_from k rk i prev_p prev_t bs) ≡ bs
unfolding decode_from encode_from
decode_from-encode_from k rk i p t [] h = refl
decode_from-encode_from k rk i prev_p prev_t (b ∷ bs) h =
    let key_p : ℕ = if i == 0 then rk + 1 else prev_p + rk + (i + 1) % 256 in
    let key_t : ℕ = if i == 0 then k + 1 else prev_t + k + (i + 1) % 256 in
    let p : ℕ = mix b key_p in
    let t : ℕ = mix p key_t in
    let undo : mix t key_t ≡ p = mix-mix p key_t (omega arith) in
    ap (λ q. mix q key_p ∷ decode_from k rk (i + 1) q t (encode_from k rk (i + 1) p t bs)) undo
    ∙ ap₂ ◌∷◌ (mix-mix b key_p h.0) (decode_from-encode_from k rk (i + 1) p t bs h.1)

pub length-encode_from :
    (k rk i p t : ℕ) (bs : List ℕ) → length (encode_from k rk i p t bs) ≡ length bs
unfolding encode_from
length-encode_from k rk i p t [] = refl
length-encode_from k rk i p t (b ∷ bs) = ap suc (length-encode_from k rk (i + 1) _ _ bs)

-- In one buffer of at most `MAX_PACKET_SIZE` bytes both run to their ends; at any address `i`,
-- `Encode` writes only inside the buffer, and after `Decode` the byte is as at the start.
pub decode-encode :
    (e : SimpleEncoder) (m : Memory) (i : ℕ)
    → e.encoded ≡ e.original
    → e.buffer_size ≤ max_packet_size
    → AreBytes (read m e.original e.buffer_size)
    → (sealed restored : Memory) × (encode e m ≡ some sealed)
      × (decode e sealed ≡ some restored)
      × (((e.original ≤ i) × (i < e.original + e.buffer_size)) ⊎ (sealed i ≡ m i))
      × (restored i ≡ m i)
unfolding encode decode
decode-encode e m i same fits bytes =
    let n : ℕ = e.buffer_size in
    let plain : List ℕ = read m e.original n in
    let code : List ℕ = encode_from e.k e.rk 0 0 0 plain in
    let code_length : length code ≡ n =
      length-encode_from e.k e.rk 0 0 0 plain ∙ length-read m e.original n in
    let sealed : Memory = copy_in m e.encoded code in
    let seen : read sealed e.encoded n ≡ code = rw code_length at (read-copy_in m e.encoded code) in
    let opened : decode_from e.k e.rk 0 0 0 (read sealed e.encoded n) ≡ plain =
      rw seen (decode_from-encode_from e.k e.rk 0 0 0 plain bytes) in
    let kept : (i : ℕ) → (i < e.original) ⊎ (e.original + n ≤ i) → sealed i ≡ m i =
      λ i away. copy_in_outside m e.encoded code i (omega arith) in
    (
      sealed,
      copy_in sealed e.original plain,
      rw (le→ltb max_packet_size n fits),
      rw (le→ltb max_packet_size n fits, opened),
      elim (in_run e.original n i) [ inl inside ↦ inl inside | inr away ↦ inr (kept i away) ],
      copy_in-read m sealed e.original n i kept,
    )

-- A buffer longer than `temp` is a fault of both.
pub oversized_faults :
    (e : SimpleEncoder) (m : Memory)
    → max_packet_size < e.buffer_size
    → (encode e m ≡ none) × (decode e m ≡ none)
unfolding encode decode
oversized_faults e m h =
    (rw (lt→ltb max_packet_size e.buffer_size h), rw (lt→ltb max_packet_size e.buffer_size h))
