-- ===== src/Session/Living.antt =====
-- What the handlers and calls of Session.Life leave of a place whose session is open.
use iocpnet_module_mono_repo.Prelude.{
  ℕ, ◌+◌, ◌-◌, ◌<◌, ◌≤◌, ◌≡◌, ◌≢◌, refl, sym, subst, ap, ◌∙◌, arith, Bool, true, false, some, ltb,
  if◌then◌else◌, inl, inr, lt-or-ge,
}
use iocpnet_module_mono_repo.Prelude.Memory.{Memory}
use iocpnet_module_mono_repo.Frame.{NetConfig}
use iocpnet_module_mono_repo.Session.{Session, Shared, decode_session_handle}
use iocpnet_module_mono_repo.Session.Server.{Server, put_session}
use iocpnet_module_mono_repo.Session.Worker.{on_enter, on_send_post, on_sent, on_received}
use iocpnet_module_mono_repo.Session.AtPlace.{put_here, Sent}
use iocpnet_module_mono_repo.Session.Kept.{
  Held, Kept, plus, on_enter-Kept, on_send_post-Kept, on_sent-Kept, weaken,
}
use iocpnet_module_mono_repo.Session.Received.{on_received-Kept}
use iocpnet_module_mono_repo.Session.Life.{
  Place, one, posts_now, moved, entered, send_posted, sent, called, IsLive, Open,
}

not_true : false ≢ true
not_true e = ground arith

one-le : (b : Bool) → one b ≤ 1
one-le b = ground arith

ltb→lt : (a b : ℕ) → ltb a b ≡ true → a < b
ltb→lt a b h = ground arith

lt→ltb : (a b : ℕ) → a < b → ltb a b ≡ true
lt→ltb a b h = ground arith

one-true : (b : Bool) → 0 < one b → b ≡ true
one-true b h = ground arith

posts_are :
    (s t : Session) (posts : Bool)
    → (posts ≡ true → s.is_sending ≡ false)
    → t.is_sending ≡ (if posts then true else s.is_sending)
    → one (posts_now s t) ≡ one posts
posts_are s t true was_idle after = let idle = was_idle refl in rw (idle, after) refl
posts_are s t false was_idle after = rw after (ground arith)

never_both : (n : ℕ) → n ≤ 1 → ¬ (0 < n) → n ≡ 0
never_both n small no_more = elim (lt-or-ge 0 n) [
  | inl more ↦ absurd (no_more more)
  | inr none_left ↦ omega arith
]

at_most_one : (n : ℕ) (b : Bool) → n ≤ 1 → (0 < one b → n ≡ 0) → (m : ℕ) → m ≡ n + one b → m ≤ 1
at_most_one n true small alone m e = let z = alone (omega arith) in omega arith
at_most_one n false small alone m e = omega arith

sends_after :
    (b posts : Bool) (n : ℕ)
    → (0 < n → b ≡ true)
    → 0 < n + one posts
    → (if posts then true else b) ≡ true
sends_after b true n flagged more = refl
sends_after b false n flagged more = flagged (omega arith)

plus-one : (n : ℕ) (b : Bool) → plus n b ≡ n + one b
plus-one n b = ground arith

module _ (c : NetConfig) (junk : Memory) (k : ℕ) where
  -- from what a handler does to the count to what holds of the place
  settle :
      (p : Place) (v : Server) (entering receiving sending h m n : ℕ) (t : Bool)
      → (decode_session_handle h).0 ≡ k
      → (p.server.sessions k).io_count ≡ m
      → m < 255
      → entering + receiving + sending ≡ n
      → entering + receiving ≤ 1
      → sending ≤ 1
      → (0 < sending → t ≡ true)
      → Kept h n t (v.sessions k)
      → IsLive c junk k (moved c junk k p v entering receiving sending)
  settle p v entering receiving sending h m n t at count few sum rx tx flag (inl (more, held)) = (
    h,
    at,
    inl (
      n,
      record {
        some_left = more;
        sum = sum;
        one_receive = rx;
        one_send = tx;
        held = weaken h n t (v.sessions k) held;
        flagged = λ e. held.sending (flag e);
      },
    ),
  )
  settle p v entering receiving sending h m n t at count few sum rx tx flag (inr (nothing, held)) =
      (
        h,
        at,
        inr (record {
          nothing_left = omega arith;
          named = held.named;
          marked = omega (arith, held.counted);
        }),
      )

  module _ (p : Place) (h n : ℕ) (at : (decode_session_handle h).0 ≡ k)
      (o : Open c junk k p h n) where
    few : n < 4
    few = omega (arith, o.sum, o.one_receive, o.one_send)

    -- the session as its handlers take it, with `m` other references
    Held-as : (m : ℕ) → n ≡ m + 1 → Held h (m + 1) (ltb 0 p.sending) (p.server.sessions k)
    Held-as m e = record {
      named = o.held.named;
      no_content = o.held.no_content;
      sending = λ busy. o.flagged (ltb→lt 0 p.sending busy);
      counted = o.held.counted ∙ e;
    }

    Held-sending : (m : ℕ) → 0 < p.sending → n ≡ m + 1 → Held h (m + 1) true (p.server.sessions k)
    Held-sending m busy e =
        subst (λ b. Held h (m + 1) b (p.server.sessions k)) (lt→ltb 0 p.sending busy) (Held-as m e)

    -- a handler that takes a completion, and may leave another one behind
    handled :
        (v : Server) (entering receiving sending m : ℕ) (t due : Bool)
        → entering + receiving + sending ≡ m + one due
        → entering + receiving ≤ 1
        → sending ≤ 1
        → (0 < sending → t ≡ true)
        → Kept h (plus m due) t (v.sessions k)
        → IsLive c junk k (moved c junk k p v entering receiving sending)
    handled v entering receiving sending m t due sum rx tx flag kept =
        settle p v entering receiving sending h n (plus m due) t at o.held.counted (omega arith)
          (sum ∙ sym (plus-one m due)) rx tx flag kept

    pub entered-IsLive :
        0 < p.entering → (accepted : Bool) → IsLive c junk k (entered c junk k accepted p)
    entered-IsLive some_entering accepted =
        let m : ℕ = p.receiving + p.sending in
        let s : Session = p.server.sessions k in
        let w : Shared = p.server.shared in
        let (due, t, w') = on_enter accepted s w in
        handled (put_session k t (record p.server { shared = w' })) (p.entering - 1)
          (p.receiving + one due) p.sending m (ltb 0 p.sending) due (omega (arith, o.one_receive))
          (omega (arith, o.one_receive, one-le due)) o.one_send (lt→ltb 0 p.sending)
          (subst (Kept h (plus m due) (ltb 0 p.sending))
            (sym (put_here k t (record p.server { shared = w' })))
            (on_enter-Kept accepted h m (ltb 0 p.sending) s w (omega (arith, few))
              (λ busy. omega (arith, ltb→lt 0 p.sending busy)) (Held-as m (omega (arith, o.sum)))))

    pub send_posted-IsLive :
        0 < p.sending → (accepted : Bool) → IsLive c junk k (send_posted c junk k accepted p)
    send_posted-IsLive busy accepted =
        let m : ℕ = p.entering + p.receiving in
        let s : Session = p.server.sessions k in
        let w : Shared = p.server.shared in
        let (due, t, w') = on_send_post accepted s w in
        handled (put_session k t (record p.server { shared = w' })) p.entering p.receiving
          (p.sending - 1 + one due) m due due (omega (arith, o.one_send)) o.one_receive
          (omega (arith, o.one_send, one-le due)) (λ more. one-true due (omega (arith, o.one_send)))
          (subst (Kept h (plus m due) due) (sym (put_here k t (record p.server { shared = w' }))) (
            on_send_post-Kept accepted h m s w (omega (arith, few))
              (Held-sending m busy (omega (arith, o.sum, o.one_send)))))

    pub sent-IsLive :
        0 < p.sending
        → (accepted : Bool) (transferred : ℕ)
        → IsLive c junk k (sent c junk k accepted transferred p)
    sent-IsLive busy accepted transferred =
        let m : ℕ = p.entering + p.receiving in
        let s : Session = p.server.sessions k in
        let w : Shared = p.server.shared in
        let (due, t, w') = on_sent accepted transferred s w in
        handled (put_session k t (record p.server { shared = w' })) p.entering p.receiving
          (p.sending - 1 + one due) m due due (omega (arith, o.one_send)) o.one_receive
          (omega (arith, o.one_send, one-le due)) (λ more. one-true due (omega (arith, o.one_send)))
          (subst (Kept h (plus m due) due) (sym (put_here k t (record p.server { shared = w' }))) (
            on_sent-Kept accepted transferred h m s w (omega (arith, few))
              (Held-sending m busy (omega (arith, o.sum, o.one_send)))))

    pub received-IsLive :
        0 < p.receiving
        → (accepted : Bool) (transferred : ℕ) (due : Bool) (v : Server)
        → on_received c junk accepted transferred k p.server ≡ some (due, v)
        → IsLive c junk k (moved c junk k p v p.entering (p.receiving - 1 + one due) p.sending)
    received-IsLive some_receiving accepted transferred due v run =
        let m : ℕ = p.entering + p.sending in
        handled v p.entering (p.receiving - 1 + one due) p.sending m (ltb 0 p.sending) due
          (omega (arith, o.one_receive)) (omega (arith, o.one_receive, one-le due)) o.one_send
          (lt→ltb 0 p.sending)
          (on_received-Kept c junk k h at accepted transferred m (ltb 0 p.sending) due p.server v
            (omega (arith, few)) (λ busy. omega (arith, ltb→lt 0 p.sending busy))
            (Held-as m (omega (arith, o.sum))) run)

    pub called-IsLive :
        (v : Server)
        → Sent n (p.server.sessions k) (v.sessions k)
        → IsLive c junk k (called c junk k v p)
    called-IsLive v (queue, code, asked, posts, was_idle, end_at) =
        let s : Session = p.server.sessions k in
        let next : ℕ = p.sending + one (posts_now s (v.sessions k)) in
        let posted : one (posts_now s (v.sessions k)) ≡ one posts =
          posts_are s (v.sessions k) posts was_idle (ap (λ t. t.is_sending) end_at) in
        let idle : 0 < one posts → p.sending ≡ 0 = λ e.
          never_both p.sending o.one_send
            (λ busy. not_true (sym (was_idle (one-true posts e)) ∙ o.flagged busy)) in
        let single : next ≤ 1 =
          at_most_one p.sending posts o.one_send idle next (ap (λ i. p.sending + i) posted) in
        let busy_after : ltb 0 next ≡ true → (v.sessions k).is_sending ≡ true = λ busy.
          ap (λ t. t.is_sending) end_at
          ∙ sends_after s.is_sending posts p.sending o.flagged
              (omega (arith, ltb→lt 0 next busy, posted)) in
        settle p v p.entering p.receiving next h n (plus n posts) (ltb 0 next) at o.held.counted
          (omega (arith, few)) (omega (arith, o.sum, posted, plus-one n posts)) o.one_receive single
          (lt→ltb 0 next)
          (inl (
            omega (arith, plus-one n posts, o.some_left),
            record {
              named = ap (λ t. t.handle) end_at ∙ o.held.named;
              no_content = ap (λ t. t.content) end_at ∙ o.held.no_content;
              sending = busy_after;
              counted = ap (λ t. t.io_count) end_at;
            },
          ))
