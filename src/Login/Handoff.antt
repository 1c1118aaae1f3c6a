-- ===== src/Login/Handoff.antt =====
-- From LoginServer/main.cpp to ChatServer/main.cpp: the key that the one stores in Redis lets a
-- client into the other.
use iocpnet_module_mono_repo.Prelude.{
  ℕ, zero, suc, ◌≡◌, ◌≢◌, ◌⊎◌, inl, inr, refl, sym, subst, ap, ap₂, ◌∙◌, List, [], ◌∷◌, true, false,
  ◌==◌, ◌<◌, ◌^◌, ltb, lt→ltb, if◌then◌else◌, Bool, Option, some, arith, length, Bool-cases, eq→==,
  ==→eq,
}
use iocpnet_module_mono_repo.Prelude.Assoc.{find, erase, find-put_self}
use iocpnet_module_mono_repo.Packet.{SerializeBuffer}
use iocpnet_module_mono_repo.Chat.{Chat, Player, WaitingSession, disconnect}
use iocpnet_module_mono_repo.Chat.Login.{
  Outside, KeyString, plain, minus, LoginRequest, read_login, req_login, memcmp_equal, key_matches,
  login_player, enter_player,
}
use iocpnet_module_mono_repo.Login.{Locals, LoginServer, redis_set, to_string}
use iocpnet_module_mono_repo.Login

true-false : true ≢ false
true-false e = ground arith

-- blocks of `n` bytes are equal just when `memcmp` finds no difference
memcmp_same : (n : ℕ) (a : List ℕ) → length a ≡ n → memcmp_equal a a n ≡ true
unfolding memcmp_equal
memcmp_same zero a e = refl
memcmp_same (suc n) [] e = absurd (omega arith)
memcmp_same (suc n) (x ∷ a) e =
    let ih = memcmp_same n a (omega arith) in rw (eq→== x x refl, ih) refl

memcmp_sound :
    (n : ℕ) (a b : List ℕ) → length a ≡ n → length b ≡ n → memcmp_equal a b n ≡ true → a ≡ b
unfolding memcmp_equal
memcmp_sound zero [] [] e f h = refl
memcmp_sound zero [] (y ∷ b) e f h = absurd (omega arith)
memcmp_sound zero (x ∷ a) b e f h = absurd (omega arith)
memcmp_sound (suc n) [] b e f h = absurd (omega arith)
memcmp_sound (suc n) (x ∷ a) [] e f h = absurd (omega arith)
memcmp_sound (suc n) (x ∷ a) (y ∷ b) e f h = elim (Bool-cases (x == y)) [
  | inl same ↦
      let rest : memcmp_equal a b n ≡ true = rw same at h in
      ap₂ ◌∷◌ (==→eq x y same) (memcmp_sound n a b (omega arith) (omega arith) rest)
  | inr other ↦ let wrong : false ≡ true = rw other at h in absurd (true-false (sym wrong))
]

-- the test on the answer of Redis compares the keys
key_matches-some :
    (stored key : List ℕ)
    → length stored ≡ 64
    → length key ≡ 64
    → ((stored ≡ key) × (key_matches (some stored) key ≡ true))
      ⊎ ((stored ≢ key) × (key_matches (some stored) key ≡ false))
unfolding key_matches
key_matches-some stored key e f =
    let full : (length stored == 64) ≡ true = eq→== (length stored) 64 e in
    elim (Bool-cases (memcmp_equal stored key 64)) [
      | inl same ↦ inl (memcmp_sound 64 stored key e f same, rw (full, same) refl)
      | inr other ↦ inr (
        (λ x.
            let equal : memcmp_equal stored key 64 ≡ true =
              subst (λ k. memcmp_equal stored k 64 ≡ true) x (memcmp_same 64 stored e) in
            true-false (sym equal ∙ other)),
        rw (full, other) refl,
      )
    ]

enter_player_lem :
    (o : Outside) (g : ℕ) (w : WaitingSession) (q : LoginRequest) (p : Player) (c : Chat)
    → login_player o g w q ≡ some p
    → (find g (enter_player o g w q c).1.players ≡ some p)
      × (find q.acc_no (enter_player o g w q c).1.sessions_acc_no ≡ some g)
unfolding enter_player
enter_player_lem o g w q p c e =
    rw (enter_player, e) (find-put_self g p c.players, find-put_self q.acc_no g c.sessions_acc_no)

accepted_run :
    (o : Outside) (g : ℕ) (packet : SerializeBuffer) (w : WaitingSession) (c : Chat)
    → find g c.waiting ≡ some w
    → key_matches
        (o.redis_get (plain (read_login o packet).acc_no))
        (read_login o packet).session_key
      ≡ true
    → (req_login o g packet c).1
      ≡ (enter_player o g w (read_login o packet) (record c { waiting = erase g c.waiting })).1
unfolding req_login
accepted_run o g packet w c waits good = rw (req_login, waits, good) refl

rejected_run :
    (o : Outside) (g : ℕ) (packet : SerializeBuffer) (w : WaitingSession) (c : Chat)
    → find g c.waiting ≡ some w
    → key_matches
        (o.redis_get (plain (read_login o packet).acc_no))
        (read_login o packet).session_key
      ≡ false
    → req_login o g packet c ≡ (disconnect g ∷ [], record c { waiting = erase g c.waiting })
unfolding req_login
rejected_run o g packet w c waits bad = rw (req_login, waits, bad) refl

abbrev same_key : KeyString → KeyString → Bool
same_key (plain a) (plain b) = a == b
same_key (minus a) (minus b) = a == b
same_key _ _ = false

-- What Redis answers after the calls of a handler, as long as no key expires.
unfoldable pub stored_by :
    List Login.Output → (KeyString → Option (List ℕ)) → KeyString → Option (List ℕ)
stored_by [] before key = before key
stored_by (redis_set account value seconds ∷ out) before key =
    stored_by out (λ k. if same_key k account then some value else before k) key
stored_by (_ ∷ out) before key = stored_by out before key

-- the login server stores the key of a session that waits
login-stores :
    (l : Locals) (h : ℕ) (first : SerializeBuffer) (u : WaitingSession) (s : LoginServer)
    (before : KeyString → Option (List ℕ))
    → find h s.waiting ≡ some u
    → let (account_no, stored) = Login.read_login l first in
      account_no < 2 ^ 63
      → stored_by (Login.req_login l h first s).0 before (plain account_no) ≡ some stored
unfolding Login.req_login to_string stored_by
login-stores l h first u s before waits narrow =
    let (account_no, stored) = Login.read_login l first in
    let small : ltb account_no (2 ^ 63) ≡ true = lt→ltb account_no (2 ^ 63) narrow in
    rw (waits, Login.req_login, small, stored_by, eq→== account_no account_no refl) refl

-- A client that waits at the login server logs in there, and Redis answers the chat server with what
-- was stored; the account is below 2^63, where both servers write it alike. Then, on a session that
-- waits at the chat server, a login with this account and a key of 64 bytes, as the stored one is,
-- and with names that end, gets a player if the keys are equal, and is disconnected without one if
-- they differ.
pub req_login-handoff :
    (l : Locals) (o : Outside) (h g : ℕ) (first second : SerializeBuffer) (u w : WaitingSession)
    (p : Player) (s : LoginServer) (c : Chat) (before : KeyString → Option (List ℕ))
    → let (account_no, stored) = Login.read_login l first in
      let q = read_login o second in
      find h s.waiting ≡ some u
      → account_no < 2 ^ 63
      → ((key : KeyString) → o.redis_get key ≡ stored_by (Login.req_login l h first s).0 before key)
      → q.acc_no ≡ account_no
      → length stored ≡ 64
      → length q.session_key ≡ 64
      → find g c.waiting ≡ some w
      → login_player o g w q ≡ some p
      → let (out, d) = req_login o g second c in
        ((stored ≡ q.session_key)
          × (find g d.players ≡ some p)
          × (find account_no d.sessions_acc_no ≡ some g))
        ⊎ ((stored ≢ q.session_key) × (out ≡ disconnect g ∷ []) × (d.players ≡ c.players))
req_login-handoff l o h g first second u w p s c before waits_there narrow redis same long_stored
      long_key waits named =
    let (account_no, stored) = Login.read_login l first in
    let q = read_login o second in
    let left = record c { waiting = erase g c.waiting } in
    let answer : o.redis_get (plain q.acc_no) ≡ some stored =
      ap (λ a. o.redis_get (plain a)) same
      ∙ redis (plain account_no)
      ∙ login-stores l h first u s before waits_there narrow in
    elim (key_matches-some stored q.session_key long_stored long_key) [
      | inl (equal, accepted) ↦
          let good : key_matches (o.redis_get (plain q.acc_no)) q.session_key ≡ true =
            ap (λ r. key_matches r q.session_key) answer ∙ accepted in
          let run : (req_login o g second c).1 ≡ (enter_player o g w q left).1 =
            accepted_run o g second w c waits good in
          let (players, accounts) = enter_player_lem o g w q p left named in
          inl (
            equal,
            ap (λ d. find g d.players) run ∙ players,
            ap (λ a. find a (req_login o g second c).1.sessions_acc_no) (sym same)
                ∙ ap (λ d. find q.acc_no d.sessions_acc_no) run
                ∙ accounts,
          )
      | inr (differ, rejected) ↦
          let bad : key_matches (o.redis_get (plain q.acc_no)) q.session_key ≡ false =
            ap (λ r. key_matches r q.session_key) answer ∙ rejected in
          let run = rejected_run o g second w c waits bad in
          inr (differ, ap (λ t. t.0) run, ap (λ t. t.1.players) run)
    ]
