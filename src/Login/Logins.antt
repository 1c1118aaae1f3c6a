-- ===== src/Login/Logins.antt =====
-- A session of LoginServer/main.cpp gets one login.
use iocpnet_module_mono_repo.Prelude.{
  ℕ, ◌≡◌, ◌⊎◌, inl, inr, refl, ap, ◌∙◌, [], ◌∷◌, none, some, Option-cases,
}
use iocpnet_module_mono_repo.Prelude.Assoc.{find, find-erase_self, find-put_self}
use iocpnet_module_mono_repo.Packet.{SerializeBuffer}
use iocpnet_module_mono_repo.Chat.{WaitingSession}
use iocpnet_module_mono_repo.Login.{
  LoginServer, Locals, disconnect, send_packet, redis_set, to_string, req_login, read_login,
  login_response,
}

not_waiting :
    (l : Locals) (h : ℕ) (packet : SerializeBuffer) (s : LoginServer)
    → find h s.waiting ≡ none
    → req_login l h packet s ≡ (disconnect h ∷ [], s)
unfolding req_login
not_waiting l h packet s e = rw (req_login, e) refl

waits_no_more :
    (l : Locals) (h : ℕ) (packet : SerializeBuffer) (s : LoginServer)
    → find h (req_login l h packet s).1.waiting ≡ none
unfolding req_login
waits_no_more l h packet s = elim (Option-cases (find h s.waiting)) [
  | inl e ↦ ap (λ t. find h t.1.waiting) (not_waiting l h packet s e) ∙ e
  | inr (w, e) ↦ rw (req_login, e) (find-erase_self h s.waiting)
]

-- Any session's second login is refused: after a first one, answered or not, the session does not
-- wait, so the next request only disconnects it, stores no key and changes nothing; and a first
-- login of a session that waits stores its key for 30 seconds, is answered, and leaves the
-- session among those that have succeeded.
pub req_login-once :
    (l k : Locals) (h : ℕ) (first second : SerializeBuffer) (s : LoginServer)
    → let (out, s') = req_login l h first s in
      let (account_no, session_key) = read_login l first in
      (req_login k h second s' ≡ (disconnect h ∷ [], s'))
      × (((find h s.waiting ≡ none) × (out ≡ disconnect h ∷ []))
          ⊎ ((w : WaitingSession) × (find h s.waiting ≡ some w)
              × (out
                  ≡ redis_set (to_string account_no) session_key 30
                    ∷ send_packet h (login_response l account_no w.ip s.addresses)
                    ∷ [])
              × (find h s'.succ ≡ some (record { accept_time = l.now; ip = 0; port = 0 }))))
unfolding req_login
req_login-once l k h first second s = (
  not_waiting k h second (req_login l h first s).1 (waits_no_more l h first s),
  elim (Option-cases (find h s.waiting)) [
    | inl e ↦ inl (e, ap (λ t. t.0) (not_waiting l h first s e))
    | inr (w, e) ↦
        let done : WaitingSession = record { accept_time = l.now; ip = 0; port = 0 } in
        inr (w, e, rw (req_login, e) refl, rw (req_login, e) (find-put_self h done s.succ))
  ],
)
