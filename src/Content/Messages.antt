-- ===== src/Content/Messages.antt =====
-- IOCPNetLib/NetLib_Content.cpp: the message queue of a content, its table of sessions and
-- NetLib_Server::Move_Content. A session is the number of its place in `m_sessions`. The queue of
-- messages is a list, and each function runs without another between; what the application is
-- told (OnEnter, OnLeave, OnRelease) is a list of notices with the content's number.
use iocpnet_module_mono_repo.Prelude.{
  ℕ, ◌+◌, ◌-◌, ◌%◌, ◌^◌, List, [], ◌∷◌, ◌++◌, Bool, true, false, Option, none, some, ◌==◌,
  if◌then◌else◌, drop, length,
}
use iocpnet_module_mono_repo.Prelude.Assoc.{erase, put}
use iocpnet_module_mono_repo.Frame.Receive.{LeaveCode}
use iocpnet_module_mono_repo.Ring.{clear_buffer}
use iocpnet_module_mono_repo.Session.{
  Session, Event, content_leave, close_socket, emit, invalid_socket, clear_send_packets,
  clear_send_buffer, decode_session_handle,
}
use iocpnet_module_mono_repo.Session.Server.{Server, put_session, find_session, return_session}

-- `ContentMSG` with its types 0, 1 and 2
pub data ContentMsg : Type 0 where
  msg_enter msg_leave msg_release : ℕ → ContentMsg

pub data Notice : Type 0 where
  told_enter : ℕ → ℕ → Notice
  told_leave : ℕ → Notice
  told_release : ℕ → LeaveCode → ℕ → ℕ → Notice

-- the members of a content; the count is a `long`
pub record NetLibContent : Type 0 where
  pub sessions : List (ℕ × ℕ)
  pub msg_queue : List ContentMsg
  pub session_count : ℕ

-- The server, its contents by number, and the member `completionKey` of each session.
pub record World : Type 0 where
  pub server : Server
  pub contents : ℕ → NetLibContent
  pub completion_key : ℕ → ℕ
  pub told : List (ℕ × Notice)

abbrev pub put_content : ℕ → NetLibContent → (ℕ → NetLibContent) → ℕ → NetLibContent
put_content c n contents i = if i == c then n else contents i

-- `m_msgQueue.Enqueue(msg)`
abbrev pub post : ℕ → ContentMsg → (ℕ → NetLibContent) → ℕ → NetLibContent
post c m contents =
    put_content c (record (contents c) { msg_queue = (contents c).msg_queue ++ (m ∷ []) }) contents

-- a session with a content that `ReleaseSession` releases goes to that content
unfoldable pub post_releases : List Event → (ℕ → NetLibContent) → ℕ → NetLibContent
post_releases [] contents = contents
post_releases (content_leave c handle ∷ es) contents =
    post_releases es (post c (msg_release (decode_session_handle handle).0) contents)
post_releases (_ ∷ es) contents = post_releases es contents

-- the world after a call of the server, whose releases since then are posted
unfoldable pub adopt : Server → World → World
adopt v w = record w {
  server = v;
  contents = post_releases (drop (length w.server.shared.events) v.shared.events) w.contents;
}

-- `Leave(session)`
unfoldable pub leave_content : ℕ → ℕ → World → World
leave_content c k w = record w {
  contents = post c (msg_leave k) w.contents;
  told = w.told ++ ((c, told_leave (w.server.sessions k).handle) ∷ []);
}

abbrev pub set_session : ℕ → Session → World → World
set_session k s w = record w { server = put_session k s w.server }

abbrev pub same_content : Option ℕ → Option ℕ → Bool
same_content none none = true
same_content (some a) (some b) = a == b
same_content _ _ = false

-- `Move_Content` on a session that is in another content or in none
unfoldable pub move_found : Option ℕ → ℕ → ℕ → World → World
move_found content key k w =
    let s = w.server.sessions k in
    let left : World = elim s.content [
      | none ↦ set_session k (record s { is_moving = false }) w
      | some a ↦ leave_content a k (set_session k (record s { is_moving = true }) w)
    ] in
    let moved = set_session k (record (left.server.sessions k) { content = content }) left in
    elim content [
      | none ↦ adopt (return_session k moved.server).1 moved
      | some b ↦ record moved {
        completion_key = λ i. if i == k then key else moved.completion_key i;
        contents = post b (msg_enter k) moved.contents;
      }
    ]

-- `Move_Content(content, sessionHandle, completionKey)`
unfoldable pub move_content : Option ℕ → ℕ → ℕ → World → Bool × World
move_content content handle key w =
    let (found, v) = find_session handle w.server in
    let w1 = adopt v w in
    elim found [
      | none ↦ (false, w1)
      | some k ↦
          if same_content (w1.server.sessions k).content content
          then (false, adopt (return_session k w1.server).1 w1)
          else (true, move_found content key k w1)
    ]

-- `Release(session)`
unfoldable pub release : ℕ → ℕ → World → World
release c k w =
    let s = w.server.sessions k in
    let n = w.contents c in
    let closed = record s {
      is_connecting = false;
      socket = invalid_socket;
      recv_buffer = clear_buffer s.recv_buffer;
    } in
    let (s1, h1) = clear_send_packets closed (emit (close_socket s.socket) w.server.shared) in
    let (s2, h2) = clear_send_buffer s1 h1 in
    let s3 = record s2 {
      content_buffer = clear_buffer s2.content_buffer;
      is_sending = false;
      is_moving = false;
      content = none;
    } in
    let v = put_session k s3 w.server in
    record w {
      server = record v {
        shared = record h2 {
          tps_sets = h2.tps_sets ++ ((s3.cumulative_send, s3.cumulative_recv) ∷ []);
        };
        session_index_pool = (decode_session_handle s3.handle).0 ∷ v.session_index_pool;
        session_count = (v.session_count + 65535) % 65536;
      };
      contents =
          put_content c
            (record n {
              sessions = erase s.handle n.sessions;
              session_count = (n.session_count + (2 ^ 32 - 1)) % 2 ^ 32;
            })
            w.contents;
      told = w.told ++ ((c, told_release s3.handle s3.leave_code s3.ip s3.port) ∷ []);
    }

-- one message in `Update`
unfoldable pub handle_msg : ℕ → ContentMsg → World → World
handle_msg c (msg_enter k) w =
    let s = w.server.sessions k in
    let n = w.contents c in
    let entered = record w {
      contents =
          put_content c
            (record n {
              sessions = put s.handle k n.sessions;
              session_count = (n.session_count + 1) % 2 ^ 32;
            })
            w.contents;
      told = w.told ++ ((c, told_enter s.handle (w.completion_key k)) ∷ []);
    } in
    adopt (return_session k entered.server).1 entered
handle_msg c (msg_leave k) w =
    let s = w.server.sessions k in
    let n = w.contents c in
    record w {
      server = put_session k (record s { is_moving = false }) w.server;
      contents =
          put_content c
            (record n {
              sessions = erase s.handle n.sessions;
              session_count = (n.session_count + (2 ^ 32 - 1)) % 2 ^ 32;
            })
            w.contents;
    }
handle_msg c (msg_release k) w = release c k w

-- one round of the loop over the messages in `Update`; `none` where the queue is empty
unfoldable pub next_msg : ℕ → World → Option World
next_msg c w = elim (w.contents c).msg_queue [
  | [] ↦ none
  | m ∷ ms ↦ some (
      handle_msg c m (record w {
        contents = put_content c (record (w.contents c) { msg_queue = ms }) w.contents;
      }))
]
