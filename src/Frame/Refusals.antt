-- ===== src/Frame/Refusals.antt =====
-- Rounds that end the session, and those that leave the local array.
use iocpnet_module_mono_repo.Prelude.{
  ℕ, ◌+◌, ◌*◌, ◌≤◌, ◌<◌, ◌≡◌, ◌≢◌, refl, List, [], ◌∷◌, ◌++◌, arith, length, true, false, ltb,
  le→ltb, lt→ltb, inl, inr, ◌⊎◌, Bool, not, if◌then◌else◌,
}
use iocpnet_module_mono_repo.Prelude.Memory.{Memory}
use iocpnet_module_mono_repo.Packet.{payload_len_default}
use iocpnet_module_mono_repo.Ring.{use_size}
use iocpnet_module_mono_repo.Ring.Contents.{IsValid, contents}
use iocpnet_module_mono_repo.Frame.{NetConfig, header_size}
use iocpnet_module_mono_repo.Frame.Wire.{peek_split, use_size_split}
use iocpnet_module_mono_repo.Frame.Receive.{
  Receiver, cut, fault, round, same_code, take_frame, wrong_header_len, wrong_recvpost_count,
}
use iocpnet_module_mono_repo.Frame.Delivery.{header_len, header_code_byte}

if_refused {ℓ} :
    {A : Type ℓ} (x y : A) (code long : Bool)
    → (code ≡ false) ⊎ (long ≡ true)
    → (if not code then x else (if long then x else y)) ≡ x
if_refused x y false long h = refl
if_refused x y true true h = refl
if_refused x y true false (inl h) = cc
if_refused x y true false (inr h) = cc

module _ (c : NetConfig) (junk : Memory) (h0 h1 h2 rk cs : ℕ) (rest : List ℕ) (r : Receiver)
    (v : IsValid r.recv_buffer)
    (e : contents r.recv_buffer ≡ (h0 ∷ h1 ∷ h2 ∷ rk ∷ cs ∷ []) ++ rest) where
  -- One of the two tests of a header fails.
  refused :
      (h0 ≢ c.header_code) ⊎ ((128 ≤ c.header_code) ⊎ (payload_len_default < h1 + 256 * h2))
      → (same_code h0 c.header_code ≡ false) ⊎ (ltb payload_len_default (h1 + 256 * h2) ≡ true)
  unfolding same_code
  refused bad = ground arith

  -- A round on a ring that holds a header. A session whose count of posts is at the limit is cut
  -- with the leave code for that, whatever the header says; below the limit, the header is refused
  -- if its code is not the server's, if the server's code is 128 or more, or if
  -- its length is over 1400. No byte is taken off the ring, and the leave code of the last three
  -- is the one of
  -- a wrong length.
  pub round_refuses :
      ((c.max_recv_post_cnt ≤ r.recv_post_cnt)
        ⊎ ((r.recv_post_cnt < c.max_recv_post_cnt)
            × ((h0 ≢ c.header_code)
                ⊎ ((128 ≤ c.header_code) ⊎ (payload_len_default < h1 + 256 * h2)))))
      → ((c.max_recv_post_cnt ≤ r.recv_post_cnt)
          × (round c junk r
              ≡ cut (record r {
                recv_post_cnt = r.recv_post_cnt + 1;
                leave_code = wrong_recvpost_count;
              })))
        ⊎ ((r.recv_post_cnt < c.max_recv_post_cnt)
            × (round c junk r
                ≡ cut (record r {
                  recv_post_cnt = r.recv_post_cnt + 1;
                  leave_code = wrong_header_len;
                })))
  unfolding round
  round_refuses (inl over) =
      inl (over, rw (lt→ltb c.max_recv_post_cnt (r.recv_post_cnt + 1) (omega arith)) refl)
  round_refuses (inr (post, bad)) =
      let used : use_size r.recv_buffer ≡ 5 + length rest =
        use_size_split r.recv_buffer (h0 ∷ h1 ∷ h2 ∷ rk ∷ cs ∷ []) rest v e in
      let (seen, _, _) = peek_split r.recv_buffer (h0 ∷ h1 ∷ h2 ∷ rk ∷ cs ∷ []) rest v e in
      inr (
        post,
        rw
            (
              le→ltb c.max_recv_post_cnt (r.recv_post_cnt + 1) (omega arith),
              le→ltb (use_size r.recv_buffer) header_size (omega arith),
              seen,
              header_len junk h0 h1 h2 rk cs [],
              header_code_byte junk h0 h1 h2 rk cs [],
            )
            (if_refused _ _ (same_code h0 c.header_code) (ltb payload_len_default (h1 + 256 * h2))
              (refused bad)),
      )

  -- A header that announces between 1396 and 1400 bytes passes both tests; once they are there,
  -- `Dequeue` writes them past the end of the local array.
  pub round_overflows :
      h0 ≡ c.header_code
      → c.header_code < 128
      → r.recv_post_cnt < c.max_recv_post_cnt
      → h1 + 256 * h2 ≤ payload_len_default
      → payload_len_default < header_size + (h1 + 256 * h2)
      → h1 + 256 * h2 ≤ length rest
      → round c junk r ≡ fault
  unfolding round take_frame same_code
  round_overflows code low post fits over whole =
      let used : use_size r.recv_buffer ≡ 5 + length rest =
        use_size_split r.recv_buffer (h0 ∷ h1 ∷ h2 ∷ rk ∷ cs ∷ []) rest v e in
      let (seen, _, _) = peek_split r.recv_buffer (h0 ∷ h1 ∷ h2 ∷ rk ∷ cs ∷ []) rest v e in
      let mine : same_code h0 c.header_code ≡ true = ground arith in
      rw
        (
          le→ltb c.max_recv_post_cnt (r.recv_post_cnt + 1) (omega arith),
          le→ltb (use_size r.recv_buffer) header_size (omega arith),
          seen,
          header_len junk h0 h1 h2 rk cs [],
          header_code_byte junk h0 h1 h2 rk cs [],
          mine,
          le→ltb payload_len_default (h1 + 256 * h2) fits,
          le→ltb (use_size r.recv_buffer) (header_size + (h1 + 256 * h2)) (omega arith),
          lt→ltb payload_len_default (header_size + (h1 + 256 * h2)) over,
        )
        refl
