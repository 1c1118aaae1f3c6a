-- ===== src/Frame/Stream.antt =====
-- The receive loop on a whole stream: packets one behind the other, the last one unfinished.
use iocpnet_module_mono_repo.Prelude.{
  ℕ, zero, suc, ◌+◌, ◌*◌, ◌%◌, ◌≤◌, ◌<◌, ◌≡◌, refl, sym, ap, ◌∙◌, List, [], ◌∷◌, ◌++◌, map, arith,
  length, append_assoc, true, false, le→ltb, lt→ltb, All,
}
use iocpnet_module_mono_repo.Prelude.Memory.{Memory}
use iocpnet_module_mono_repo.Encoder.RoundTrip.{AreBytes}
use iocpnet_module_mono_repo.Packet.{payload_len_default}
use iocpnet_module_mono_repo.Ring.{use_size}
use iocpnet_module_mono_repo.Ring.Contents.{IsValid, contents, length-contents}
use iocpnet_module_mono_repo.Frame.{NetConfig, header_size}
use iocpnet_module_mono_repo.Frame.Wire.{wire, peek_split}
use iocpnet_module_mono_repo.Frame.Receive.{Receiver, wait, round, same_code, receive, waiting}
use iocpnet_module_mono_repo.Frame.Delivery.{round_delivers, header_len, header_code_byte}

-- A packet of a stream: its random key, the checksum's byte where it is unset, and its payload.
pub record Sent : Type 0 where
  pub rand_key : ℕ
  pub unset : ℕ
  pub payload : List ℕ

-- What the senders of this program produce: byte payloads that fit into one buffer with a header.
abbrev pub IsSendable : Sent → Type 0
IsSendable p = AreBytes p.payload × (header_size + length p.payload ≤ payload_len_default)

abbrev pub stream : NetConfig → List Sent → List ℕ
stream c [] = []
stream c (p ∷ ps) = wire c p.rand_key p.unset p.payload ++ stream c ps

-- What may be left of a stream: less than a header, or a header and less than it announces.
pub data Unfinished (c : NetConfig) : List ℕ → Type 0 where
  no_header : (rest : List ℕ) → length rest < header_size → Unfinished c rest
  no_payload :
      (h1 h2 rk cs : ℕ) (body : List ℕ)
      → h1 + 256 * h2 ≤ payload_len_default
      → length body < h1 + 256 * h2
      → Unfinished c (c.header_code % 256 ∷ h1 ∷ h2 ∷ rk ∷ cs ∷ body)

-- A round on an unfinished packet leaves the ring alone and waits for more.
pub round_waits :
    (c : NetConfig) (junk : Memory) (rest : List ℕ) (r : Receiver)
    → Unfinished c rest
    → c.header_code < 128
    → r.recv_post_cnt < c.max_recv_post_cnt
    → IsValid r.recv_buffer
    → contents r.recv_buffer ≡ rest
    → round c junk r ≡ wait (record r { recv_post_cnt = r.recv_post_cnt + 1 })
unfolding round same_code
round_waits c junk rest r (no_header _ short) code post v e =
    let used : use_size r.recv_buffer ≡ length rest =
      sym (length-contents r.recv_buffer) ∙ ap length e in
    rw
      (
        le→ltb c.max_recv_post_cnt (r.recv_post_cnt + 1) (omega arith),
        lt→ltb (use_size r.recv_buffer) header_size (omega arith),
      )
      refl
round_waits c junk _ r (no_payload h1 h2 rk cs body fits short) code post v e =
    let h0 : ℕ = c.header_code % 256 in
    let held : use_size r.recv_buffer ≡ length (h0 ∷ h1 ∷ h2 ∷ rk ∷ cs ∷ body) =
      sym (length-contents r.recv_buffer) ∙ ap length e in
    let used : use_size r.recv_buffer ≡ 5 + length body = omega arith in
    let (seen, _, _) = peek_split r.recv_buffer (h0 ∷ h1 ∷ h2 ∷ rk ∷ cs ∷ []) body v e in
    let low : h0 ≡ c.header_code = omega arith in
    let mine : same_code h0 c.header_code ≡ true = ground arith in
    rw
      (
        le→ltb c.max_recv_post_cnt (r.recv_post_cnt + 1) (omega arith),
        le→ltb (use_size r.recv_buffer) header_size (omega arith),
        seen,
        header_len junk h0 h1 h2 rk cs body,
        header_code_byte junk h0 h1 h2 rk cs body,
        mine,
        le→ltb payload_len_default (h1 + 256 * h2) (omega arith),
        lt→ltb (use_size r.recv_buffer) (header_size + (h1 + 256 * h2)) (omega arith),
      )
      refl

-- However the stream was cut into receives: with more fuel than there are packets, the loop hands
-- over exactly the payloads, in the order of sending, keeps the unfinished rest in a valid ring
-- and counts the packets. The session has no content and is below the limit of posts; the header
-- code is below 128.
pub receive-stream :
    (c : NetConfig) (junk : Memory) (fuel : ℕ) (ps : List Sent) (rest : List ℕ) (r : Receiver)
    → c.header_code < 128
    → All IsSendable ps
    → Unfinished c rest
    → length ps < fuel
    → r.in_content ≡ false
    → r.recv_post_cnt < c.max_recv_post_cnt
    → IsValid r.recv_buffer
    → contents r.recv_buffer ≡ stream c ps ++ rest
    → (r' : Receiver) × (receive c junk fuel r ≡ waiting (map (λ p. p.payload) ps) r')
      × (contents r'.recv_buffer ≡ rest)
      × IsValid r'.recv_buffer
      × (r'.cumulative_recv ≡ r.cumulative_recv + length ps)
unfolding receive
receive-stream c junk zero ps rest r code good open_end more alone post v e = absurd (omega arith)
receive-stream c junk (suc fuel) [] rest r code good open_end more alone post v e = (
  record r { recv_post_cnt = r.recv_post_cnt + 1 },
  rw (receive, round_waits c junk rest r open_end code post v e) refl,
  e,
  v,
  omega arith,
)
receive-stream c junk (suc fuel) (p ∷ ps) rest r code good open_end more alone post v e =
    let first : List ℕ = wire c p.rand_key p.unset p.payload in
    let whole : contents r.recv_buffer ≡ first ++ (stream c ps ++ rest) =
      e ∙ append_assoc first (stream c ps) rest in
    let (ring, valid, left, run) =
      round_delivers c junk p.rand_key p.unset p.payload (stream c ps ++ rest) r code good.0.0
        good.0.1 alone post v whole in
    let after : Receiver = record r {
      recv_buffer = ring;
      recv_post_cnt = 0;
      cumulative_recv = r.cumulative_recv + 1;
    } in
    let (r', runs, rest_left, valid', count) =
      receive-stream c junk fuel ps rest after code good.1 open_end (omega arith) alone
        (omega arith) valid left in
    (r', rw (receive, run, runs) refl, rest_left, valid', omega arith)
