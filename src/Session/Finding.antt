-- ===== src/Session/Finding.antt =====
-- What FindSession, ReturnSession and Disconnect do to the count of a session's users.
use iocpnet_module_mono_repo.Prelude.{
  ℕ, ◌+◌, ◌/◌, ◌%◌, ◌<◌, ◌≡◌, ◌≢◌, refl, sym, arith, none, some, true, false, leb, ◌==◌,
  if◌then◌else◌, inl, inr, ◌⊎◌, ap, ◌∙◌, Bool-cases,
}
use iocpnet_module_mono_repo.Session.{
  Session, Shared, up, down, decode_session_handle, decode_io_count, increment_io_count,
  decrement_io_count,
}
use iocpnet_module_mono_repo.Session.Server.{Server, put_session, find_session, return_session}

-- the number of users that a session of the server counts
abbrev pub users : Server → ℕ → ℕ
users v index = (v.sessions index).io_count

-- A session is in use: some users, fewer than the byte of the count can hold.
abbrev pub InUse : Server → ℕ → Type 0
InUse v index = (0 < users v index) × (users v index < 255)

pub increment_in_use :
    (s : Session)
    → s.io_count < 255
    → increment_io_count s ≡ (false, record s { io_count = s.io_count + 1 })
unfolding increment_io_count decode_io_count
increment_in_use s h =
    let count : up s.io_count ≡ s.io_count + 1 = omega arith in
    let flag : (s.io_count + 1) / 256 % 256 ≡ 0 = omega arith in rw (count, flag) refl

pub decrement_in_use :
    (s : Session) (w : Shared) (n : ℕ)
    → s.io_count ≡ n + 1
    → 0 < n
    → n < 255
    → decrement_io_count s w ≡ (false, record s { io_count = n }, w)
unfolding decrement_io_count
decrement_in_use s w n e h k =
    let count : down s.io_count ≡ n = omega arith in
    let more : (n == 0) ≡ false = ground arith in rw (count, more) refl

==-refl : (i : ℕ) → (i == i) ≡ true
==-refl i = ground arith

==→eq : (a b : ℕ) → (a == b) ≡ true → a ≡ b
==→eq a b h = ground arith

==-apart : (a b : ℕ) → (a == b) ≡ false → a ≢ b
==-apart a b h = ground arith

module _ (v : Server) (place : ℕ) (in_use : InUse v place) where
  raised : Session
  raised = record (v.sessions place) { io_count = users v place + 1 }

  put_back :
      (i : ℕ)
      → (if i == place then v.sessions place else (if i == place then raised else v.sessions i))
        ≡ v.sessions i
  put_back i = elim (Bool-cases (i == place)) [
    | inl e ↦ rw e (ap v.sessions (sym (==→eq i place e)))
    | inr e ↦ rw e refl
  ]

  users-raised : users (put_session place raised v) place ≡ users v place + 1
  unfolding raised
  users-raised = ap (λ b. (if b then raised else v.sessions place).io_count) (==-refl place)

  return_raised :
      (i : ℕ)
      → let (released, v') = return_session place (put_session place raised v) in
        (released ≡ false) × (v'.sessions i ≡ v.sessions i) × (v'.shared ≡ v.shared)
  unfolding return_session raised
  return_raised i =
      let leave = decrement_in_use raised v.shared (users v place) refl in_use.0 in_use.1 in
      (
        rw (==-refl place, leave) refl,
        rw (==-refl place, leave) (put_back i),
        rw (==-refl place, leave) refl,
      )

module _ (handle : ℕ) (v : Server) where
  place : ℕ
  place = (decode_session_handle handle).0

  find_hit :
      (in_use : InUse v place)
      → place < v.max_of_session
      → ((v.sessions place).handle == handle) ≡ true
      → find_session handle v ≡ (some place, put_session place (raised v place in_use) v)
  unfolding find_session raised place
  find_hit in_use inside same =
      let enter = increment_in_use (v.sessions place) in_use.1 in
      let known : leb v.max_of_session place ≡ false = ground arith in rw (known, enter, same) refl

  find_miss :
      (in_use : InUse v place)
      → place < v.max_of_session
      → ((v.sessions place).handle == handle) ≡ false
      → find_session handle v
        ≡ (none, (return_session place (put_session place (raised v place in_use) v)).1)
  unfolding find_session raised place
  find_miss in_use inside other =
      let enter = increment_in_use (v.sessions place) in_use.1 in
      let known : leb v.max_of_session place ≡ false = ground arith in rw (known, enter, other) refl

  -- For a place in use: a handle of its session finds it, and the `ReturnSession` that follows
  -- does not release it; a handle of another connection finds nothing. In both cases every
  -- session and all that is shared are then as before.
  pub find-return :
      (i : ℕ)
      → (decode_session_handle handle).0 < v.max_of_session
      → InUse v (decode_session_handle handle).0
      → let at : ℕ = (decode_session_handle handle).0 in
        let (found, v1) = find_session handle v in
        (((v.sessions at).handle ≡ handle)
          × (found ≡ some at)
          × (users v1 at ≡ users v at + 1)
          × ((return_session at v1).0 ≡ false)
          × ((return_session at v1).1.sessions i ≡ v.sessions i)
          × ((return_session at v1).1.shared ≡ v.shared))
        ⊎ (((v.sessions at).handle ≢ handle)
            × (found ≡ none)
            × (v1.sessions i ≡ v.sessions i)
            × (v1.shared ≡ v.shared))
  unfolding place raised
  find-return i inside in_use = elim (Bool-cases ((v.sessions place).handle == handle)) [
    | inl same ↦
        let hit = find_hit in_use inside same in
        let (kept, sessions, shared) = return_raised v place in_use i in
        inl (
          ==→eq (v.sessions place).handle handle same,
          ap (λ t. t.0) hit,
          ap (λ t. users t.1 place) hit ∙ users-raised v place in_use,
          rw hit kept,
          rw hit sessions,
          rw hit shared,
        )
    | inr other ↦
        let miss = find_miss in_use inside other in
        let (_, sessions, shared) = return_raised v place in_use i in
        inr (
          ==-apart (v.sessions place).handle handle other,
          ap (λ t. t.0) miss,
          rw miss sessions,
          rw miss shared,
        )
  ]
