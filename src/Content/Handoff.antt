-- ===== src/Content/Handoff.antt =====
-- A session that NetLib_Server::Move_Content sends from one content to another: what the contents
-- of IOCPNetLib/NetLib_Content.cpp see of it between the messages.
use iocpnet_module_mono_repo.Prelude.{
  ℕ, ◌+◌, ◌%◌, ◌^◌, ◌<◌, ◌≡◌, refl, sym, ap, subst, ◌∙◌, List, [], ◌∷◌, ◌++◌, Bool, true, false,
  not, ◌&&◌, Option, none, some, ◌==◌, leb, drop, length, eq→==,
}
use iocpnet_module_mono_repo.Prelude.Assoc.{find, erase, put}
use iocpnet_module_mono_repo.Session.{Session, decode_session_handle}
use iocpnet_module_mono_repo.Session.Server.{Server, put_session, find_session, return_session}
use iocpnet_module_mono_repo.Session.Finding.{increment_in_use, decrement_in_use}
use iocpnet_module_mono_repo.Content.Messages.{
  World, msg_enter, msg_leave, told_enter, put_content, post, post_releases, adopt, leave_content,
  set_session, move_found, move_content, handle_msg,
}

-- The session at place `k`: its handle, its count, whether it is moving, and its content.
pub record Stays (k h n : ℕ) (moving : Bool) (c : Option ℕ) (w : World) : Type 0 where
  pub here : (decode_session_handle h).0 ≡ k
  pub place : leb w.server.max_of_session k ≡ false
  pub named : (w.server.sessions k).handle ≡ h
  pub counted : (w.server.sessions k).io_count ≡ n
  pub flag : (w.server.sessions k).is_moving ≡ moving
  pub belongs : (w.server.sessions k).content ≡ c

drop-length : {A : Type 0} → (xs : List A) → drop (length xs) xs ≡ []
drop-length [] = refl
drop-length (x ∷ xs) = drop-length xs

-- a call of the server that asks for nothing changes no content
adopt-quiet :
    (v : Server) (w : World) → v.shared ≡ w.server.shared → adopt v w ≡ record w { server = v }
unfolding adopt post_releases
adopt-quiet v w e = rw (e, drop-length w.server.shared.events) refl

find-Stays :
    (k h n : ℕ) (moving : Bool) (c : Option ℕ) (w : World)
    → Stays k h n moving c w
    → n < 255
    → find_session h w.server
      ≡ (some k, put_session k (record (w.server.sessions k) { io_count = n + 1 }) w.server)
unfolding find_session return_session
find-Stays k h n moving c w st few =
    let s : Session = w.server.sessions k in
    let up = increment_in_use s (subst (λ i. i < 255) (sym st.counted) few) in
    rw (st.here, st.place, up, eq→== k k refl, eq→== s.handle h st.named, st.counted) refl

return-Stays :
    (k h n : ℕ) (moving : Bool) (c : Option ℕ) (w : World)
    → Stays k h (n + 1) moving c w
    → 0 < n
    → n < 255
    → (return_session k w.server).1
      ≡ put_session k (record (w.server.sessions k) { io_count = n }) w.server
unfolding return_session
return-Stays k h n moving c w st more few =
    rw (decrement_in_use (w.server.sessions k) w.server.shared n st.counted more few) refl

-- with `n` users
abbrev raised : ℕ → ℕ → World → World
raised k n w = set_session k (record (w.server.sessions k) { io_count = n }) w

raised-Stays :
    (k h n m : ℕ) (moving : Bool) (c : Option ℕ) (w : World)
    → Stays k h n moving c w
    → Stays k h m moving c (raised k m w)
raised-Stays k h n m moving c w st =
    let self : (k == k) ≡ true = eq→== k k refl in
    record {
      here = st.here;
      place = st.place;
      named = rw self st.named;
      counted = rw self refl;
      flag = rw self st.flag;
      belongs = rw self st.belongs;
    }

move_content-Stays :
    (a b key k h n : ℕ) (moving : Bool) (w : World)
    → Stays k h n moving (some a) w
    → n < 255
    → (a == b) ≡ false
    → move_content (some b) h key w ≡ (true, move_found (some b) key k (raised k (n + 1) w))
unfolding move_content
move_content-Stays a b key k h n moving w st few apart =
    let after : World = raised k (n + 1) w in
    let e = find-Stays k h n moving (some a) w st few in
    let found : (find_session h w.server).0 ≡ some k = ap (λ r. r.0) e in
    let world : adopt (find_session h w.server).1 w ≡ after =
      ap (λ r. adopt r.1 w) e ∙ adopt-quiet after.server w refl in
    rw (move_content, found, world, eq→== k k refl, st.belongs, apart) refl

-- the two messages of a move
move_found-Stays :
    (a b key k h n : ℕ) (moving : Bool) (w : World)
    → Stays k h n moving (some a) w
    → let w' = move_found (some b) key k w in
      Stays k h n true (some b) w'
      × (w'.contents ≡ post b (msg_enter k) (post a (msg_leave k) w.contents))
unfolding move_found leave_content
move_found-Stays a b key k h n moving w st =
    let self : (k == k) ≡ true = eq→== k k refl in
    rw (move_found, st.belongs, self)
      (
        record {
          here = st.here;
          place = st.place;
          named = rw self st.named;
          counted = rw self st.counted;
          flag = rw self refl;
          belongs = rw self refl;
        },
        refl,
      )

pub move_content-posts :
    (a b key k h n : ℕ) (moving : Bool) (w : World)
    → Stays k h n moving (some a) w
    → n < 255
    → (a == b) ≡ false
    → let (moved, w') = move_content (some b) h key w in
      (moved ≡ true)
      × Stays k h (n + 1) true (some b) w'
      × (w'.contents ≡ post b (msg_enter k) (post a (msg_leave k) w.contents))
move_content-posts a b key k h n moving w st few apart =
    let w1 : World = raised k (n + 1) w in
    let (stays, posts) =
      move_found-Stays a b key k h (n + 1) moving w1
        (raised-Stays k h n (n + 1) moving (some a) w st) in
    rw (move_content-Stays a b key k h n moving w st few apart) (refl, stays, posts)

-- a content that handles a leave lets go of the session, which stops moving
pub handle-leave :
    (c k h n : ℕ) (moving : Bool) (o : Option ℕ) (w : World)
    → Stays k h n moving o w
    → let w' = handle_msg c (msg_leave k) w in
      Stays k h n false o w'
      × ((w'.contents c).sessions ≡ erase h (w.contents c).sessions)
      × ((i : ℕ) → (i == c) ≡ false → w'.contents i ≡ w.contents i)
unfolding handle_msg
handle-leave c k h n moving o w st =
    let self : (k == k) ≡ true = eq→== k k refl in
    rw (handle_msg, eq→== c c refl)
      (
        record {
          here = st.here;
          place = st.place;
          named = rw self st.named;
          counted = rw self st.counted;
          flag = rw self refl;
          belongs = rw self st.belongs;
        },
        ap (λ g. erase g (w.contents c).sessions) st.named,
        λ i away. rw away refl,
      )

-- one that handles an enter takes the session in, and the reference of the move is given back
pub handle-enter :
    (c k h n : ℕ) (moving : Bool) (o : Option ℕ) (w : World)
    → Stays k h (n + 1) moving o w
    → 0 < n
    → n < 255
    → let w' = handle_msg c (msg_enter k) w in
      Stays k h n moving o w'
      × ((w'.contents c).sessions ≡ put h k (w.contents c).sessions)
      × ((w'.contents c).msg_queue ≡ (w.contents c).msg_queue)
      × ((i : ℕ) → (i == c) ≡ false → w'.contents i ≡ w.contents i)
unfolding handle_msg
handle-enter c k h n moving o w st more few =
    let r = w.contents c in
    let entered : World = record w {
      contents =
          put_content c
            (record r {
              sessions = put (w.server.sessions k).handle k r.sessions;
              session_count = (r.session_count + 1) % 2 ^ 32;
            })
            w.contents;
      told = w.told ++ ((c, told_enter (w.server.sessions k).handle (w.completion_key k)) ∷ []);
    } in
    let world : adopt (return_session k w.server).1 entered ≡ raised k n entered =
      ap (λ v. adopt v entered) (return-Stays k h n moving o w st more few)
      ∙ adopt-quiet (raised k n entered).server entered refl in
    let stays : Stays k h n moving o (raised k n entered) =
      let low = raised-Stays k h (n + 1) n moving o w st in
      record {
        here = low.here;
        place = low.place;
        named = low.named;
        counted = low.counted;
        flag = low.flag;
        belongs = low.belongs;
      } in
    rw (handle_msg, world, eq→== c c refl)
      (stays, ap (λ g. put g k r.sessions) st.named, refl, λ i away. rw away refl)

abbrev pub is_some : Option ℕ → Bool
is_some none = false
is_some (some k) = true

-- whether a content has the session with the handle `h` in its table
abbrev pub is_listed : ℕ → ℕ → World → Bool
is_listed h i w = is_some (find h (w.contents i).sessions)

-- whether the loop of `Update` over the sessions takes payloads of the session at `k` in the
-- content `i`; the loop over the messages comes before it and has emptied the queue
abbrev pub is_reading : ℕ → World → ℕ → Bool
is_reading k w i = is_listed (w.server.sessions k).handle i w && not (w.server.sessions k).is_moving
