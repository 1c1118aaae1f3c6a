-- ===== src/Session/Kept.antt =====
-- What the handlers of Session.Worker do to a session's count, as long as it has no content: the
-- count is that of the operations under way and the threads at work, or the session is released.
use iocpnet_module_mono_repo.Prelude.{
  ℕ, ◌+◌, ◌/◌, ◌%◌, ◌<◌, ◌≡◌, refl, subst, ◌∙◌, arith, Bool, true, false, none, ltb, ◌==◌,
  if◌then◌else◌, length, inl, inr, ◌⊎◌, Bool-cases, lt-or-ge, take,
}
use iocpnet_module_mono_repo.Session.{
  Session, Shared, bind_port, client_join, cancel_io, release_io_count, down, up, emit,
  decode_io_count, increment_io_count, decrement_io_count, release_session, clear_send_packets,
  clear_send_buffer,
}
use iocpnet_module_mono_repo.Session.Server.{send_post, recv_post}
use iocpnet_module_mono_repo.Session.Worker.{
  give_back, on_enter, on_send_post, try_send_post_in_completion, send_more, cleared, on_sent,
  receive_more, request_sending_check,
}

-- A session with the handle `h` and no content, with `n` references; where one of them is for
-- sending (`t`), `IsSending` is set.
pub record Held (h n : ℕ) (t : Bool) (s : Session) : Type 0 where
  pub named : s.handle ≡ h
  pub no_content : s.content ≡ none
  pub sending : t ≡ true → s.is_sending ≡ true
  pub counted : s.io_count ≡ n

-- The same, where without a reference the session is released.
abbrev pub Kept : ℕ → ℕ → Bool → Session → Type 0
Kept h n t s = ((0 < n) × Held h n t s) ⊎ ((n ≡ 0) × Held h release_io_count false s)

pub released_Held :
    (h : ℕ) (s : Session) (w : Shared)
    → Held h 0 false s
    → Held h release_io_count false (release_session s w).0
unfolding release_session clear_send_packets clear_send_buffer
released_Held h s w k =
    rw (k.counted, k.no_content)
      (record {
        named = k.named;
        no_content = refl;
        sending = λ e. absurd (ground arith);
        counted = refl;
      })

pub raise_Held :
    (h n : ℕ) (t : Bool) (s : Session)
    → n < 255
    → Held h n t s
    → ((increment_io_count s).0 ≡ false) × Held h (n + 1) t (increment_io_count s).1
unfolding increment_io_count decode_io_count
raise_Held h n t s few k =
    let count : up s.io_count ≡ n + 1 = omega (arith, k.counted) in
    let flag : (n + 1) / 256 % 256 ≡ 0 = omega arith in
    (
      rw (count, flag) refl,
      record { named = k.named; no_content = k.no_content; sending = k.sending; counted = count },
    )

-- one reference less, by `Decrement_IOCount`
pub lower_Kept :
    (h n : ℕ) (t : Bool) (s : Session) (w : Shared)
    → n < 255
    → (t ≡ true → 0 < n)
    → Held h (n + 1) t s
    → Kept h n t (decrement_io_count s w).1
unfolding decrement_io_count
lower_Kept h n t s w few flagged k =
    let count : down s.io_count ≡ n = omega (arith, k.counted) in
    elim (lt-or-ge 0 n) [
      | inl more ↦
          let nonzero : (down s.io_count == 0) ≡ false = ground (arith) in
          inl (
            more,
            rw nonzero (record {
              named = k.named;
              no_content = k.no_content;
              sending = k.sending;
              counted = count;
            }),
          )
      | inr last ↦
          let zero_now : (down s.io_count == 0) ≡ true = ground (arith) in
          inr (
            omega arith,
            rw zero_now (
                released_Held h (record s { io_count = down s.io_count }) w
                  (record {
                    named = k.named;
                    no_content = k.no_content;
                    sending = λ e. absurd (ground arith);
                    counted = omega arith;
                  })),
          )
    ]

abbrev pub plus : ℕ → Bool → ℕ
plus n due = if due then n + 1 else n

pub weaken : (h n : ℕ) (t : Bool) (s : Session) → Held h n t s → Held h n false s
weaken h n t s k = record {
  named = k.named;
  no_content = k.no_content;
  sending = λ e. absurd (ground arith);
  counted = k.counted;
}

some_Kept : (h n : ℕ) (t : Bool) (s : Session) → Held h (n + 1) t s → Kept h (n + 1) t s
some_Kept h n t s k = inl (omega arith, k)

send_post-Held :
    (accepted : Bool) (h n : ℕ) (t : Bool) (s : Session) (w : Shared)
    → Held h n t s
    → Held h n t (send_post accepted s w).1
unfolding send_post
send_post-Held accepted h n t s w k = elim (Bool-cases (length (take 100 s.send_buffer) == 0)) [
  | inl none_queued ↦ rw none_queued (record {
    named = k.named;
    no_content = k.no_content;
    sending = k.sending;
    counted = k.counted;
  })
  | inr some_queued ↦ rw some_queued (record {
    named = k.named;
    no_content = k.no_content;
    sending = k.sending;
    counted = k.counted;
  })
]

pub on_enter-Kept :
    (accepted : Bool) (h n : ℕ) (t : Bool) (s : Session) (w : Shared)
    → n < 254
    → (t ≡ true → 0 < n)
    → Held h (n + 1) t s
    → Kept h (plus n (on_enter accepted s w).0) t (on_enter accepted s w).1
unfolding on_enter
on_enter-Kept accepted h n t s w few flagged k =
    let joined : Shared = emit (client_join s.handle s.ip s.port) (emit (bind_port s.socket) w) in
    elim (Bool-cases (recv_post accepted s joined).0) [
      | inl posted ↦ rw posted (some_Kept h n t s k)
      | inr failed ↦
          rw failed (lower_Kept h n t s (recv_post accepted s joined).1 (omega arith) flagged k)
    ]

pub on_send_post-Kept :
    (accepted : Bool) (h n : ℕ) (s : Session) (w : Shared)
    → n < 254
    → Held h (n + 1) true s
    → let (due, s', w') = on_send_post accepted s w in Kept h (plus n due) due s'
unfolding on_send_post
on_send_post-Kept accepted h n s w few k =
    let (posted, s1, w1) = send_post accepted s w in
    let after : Held h (n + 1) true s1 = send_post-Held accepted h (n + 1) true s w k in
    elim (Bool-cases posted) [
      | inl made ↦ rw made (some_Kept h n true s1 after)
      | inr failed ↦ rw failed (
          lower_Kept h n false s1 w1 (omega arith) (λ e. absurd (ground arith))
            (weaken h (n + 1) true s1 after))
    ]

pub receive_more-Kept :
    (accepted : Bool) (h n : ℕ) (t : Bool) (s : Session) (w : Shared)
    → n < 253
    → (t ≡ true → 0 < n)
    → Held h (n + 1) t s
    → let (due, s', w') = receive_more accepted s w in Kept h (plus n due) t s'
unfolding receive_more
receive_more-Kept accepted h n t s w few flagged k =
    let s1 : Session = (increment_io_count s).1 in
    let (entered, up) = raise_Held h (n + 1) t s (omega arith) k in
    let w1 : Shared = (recv_post accepted s1 w).1 in
    let cancelled : Shared = if s1.request_disconnect then emit (cancel_io s1.socket) w1 else w1 in
    elim (Bool-cases (recv_post accepted s1 w).0) [
      | inl posted ↦
          rw (entered, posted)
            (lower_Kept h (n + 1) t s1 cancelled (omega arith) (λ e. omega arith) up)
      | inr failed ↦
          let (_, s2, w2) = decrement_io_count s1 w1 in
          elim (lower_Kept h (n + 1) t s1 w1 (omega arith) (λ e. omega arith) up) [
            | inl (_, below) ↦
                rw (entered, failed) (lower_Kept h n t s2 w2 (omega arith) flagged below)
            | inr (never, _) ↦ absurd (omega arith)
          ]
    ]

cleared-Held :
    (transferred : ℕ) (h n : ℕ) (t : Bool) (s : Session) (w : Shared)
    → Held h n t s
    → Held h n false (record (cleared transferred s w).0 { is_sending = false })
unfolding cleared clear_send_packets
cleared-Held transferred h n t s w k = elim (Bool-cases (transferred == request_sending_check)) [
  | inl check ↦ rw check (record {
    named = k.named;
    no_content = k.no_content;
    sending = λ e. absurd (ground arith);
    counted = k.counted;
  })
  | inr sent ↦ rw sent (record {
    named = k.named;
    no_content = k.no_content;
    sending = λ e. absurd (ground arith);
    counted = k.counted;
  })
]

raise_sending : (s : Session) → (increment_io_count s).1.is_sending ≡ s.is_sending
unfolding increment_io_count
raise_sending s = refl

Kept-some : (h n : ℕ) (t : Bool) (s : Session) → 0 < n → Kept h n t s → Held h n t s
Kept-some h n t s some_left (inl (_, k)) = k
Kept-some h n t s some_left (inr (none_left, _)) = absurd (omega arith)

-- an idle session sends on: one reference more where a send is under way, else the same as before
send_more-Held :
    (accepted : Bool) (h n : ℕ) (s : Session) (w : Shared)
    → n < 253
    → s.is_sending ≡ false
    → Held h (n + 1) false s
    → let (due, s', w') = send_more accepted s w in Held h (plus (n + 1) due) due s'
unfolding send_more try_send_post_in_completion
send_more-Held accepted h n s w few idle k =
    let s1 : Session = (increment_io_count s).1 in
    let (entered, up) = raise_Held h (n + 1) false s (omega arith) k in
    let busy : Session = record s1 { is_sending = true } in
    let ready : Held h (n + 1 + 1) true busy = record {
      named = up.named;
      no_content = up.no_content;
      sending = λ e. refl;
      counted = omega (arith, up.counted);
    } in
    let (posted, s2, w2) = send_post accepted busy w in
    let after : Held h (n + 1 + 1) true s2 =
      send_post-Held accepted h (n + 1 + 1) true busy w ready in
    let quiet : s1.is_sending ≡ false = raise_sending s ∙ idle in
    elim (Bool-cases posted) [
      | inl made ↦ rw (entered, quiet, made) after
      | inr failed ↦
          rw (entered, quiet, failed)
            (Kept-some h (n + 1) false (give_back false s2 w2).1 (omega arith) (
              lower_Kept h (n + 1) false s2 w2 (omega arith) (λ e. absurd (ground arith))
                (weaken h (n + 1 + 1) true s2 after)))
    ]

pub on_sent-Kept :
    (accepted : Bool) (transferred h n : ℕ) (s : Session) (w : Shared)
    → n < 253
    → Held h (n + 1) true s
    → let (due, s', w') = on_sent accepted transferred s w in Kept h (plus n due) due s'
unfolding on_sent
on_sent-Kept accepted transferred h n s w few k =
    let s2 : Session = (cleared transferred s w).0 in
    let w2 : Shared = (cleared transferred s w).1 in
    let idle : Session = record s2 { is_sending = false } in
    let held : Held h (n + 1) false idle = cleared-Held transferred h (n + 1) true s w k in
    let never : false ≡ true → 0 < n = λ e. absurd (ground arith) in
    elim (Bool-cases (transferred == 0)) [
      | inl gone ↦
          rw gone (lower_Kept h n false s w (omega arith) never (weaken h (n + 1) true s k))
      | inr sent ↦ elim (Bool-cases (ltb 0 (length idle.send_buffer))) [
        | inr drained ↦ rw (sent, drained) (lower_Kept h n false idle w2 (omega arith) never held)
        | inl queued ↦
            let (due, s3, w3) = send_more accepted idle w2 in
            let more : Held h (plus (n + 1) due) due s3 =
              send_more-Held accepted h n idle w2 (omega arith) refl held in
            elim (Bool-cases due) [
              | inl again ↦
                  let busy : Held h (n + 1 + 1) true s3 =
                    subst (λ b. Held h (plus (n + 1) b) b s3) again more in
                  rw (sent, queued, again)
                    (lower_Kept h (n + 1) true s3 w3 (omega arith) (λ e. omega arith) busy)
              | inr done ↦
                  let quiet : Held h (n + 1) false s3 =
                    subst (λ b. Held h (plus (n + 1) b) b s3) done more in
                  rw (sent, queued, done) (lower_Kept h n false s3 w3 (omega arith) never quiet)
            ]
      ]
    ]
