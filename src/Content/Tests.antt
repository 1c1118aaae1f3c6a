-- ===== src/Content/Tests.antt =====
-- A ring with two queued payloads, and a session in content 4 of which it is the ring.
use iocpnet_module_mono_repo.Prelude.{
  ℕ, ◌+◌, ◌<◌, ◌≡◌, refl, List, [], ◌∷◌, ◌++◌, true, false, none, some, arith, length, ◌⊎◌, ◌==◌,
  if◌then◌else◌, inl, inr, Bool-cases,
}
use iocpnet_module_mono_repo.Prelude.Memory.{copy_in, read}
use iocpnet_module_mono_repo.Packet.{bytes_of}
use iocpnet_module_mono_repo.Ring.{RingBuffer, enqueue, free_size, use_size}
use iocpnet_module_mono_repo.Ring.Contents.{IsValid, contents, span}
use iocpnet_module_mono_repo.Frame.Receive.{Receiver, none_set, next, cut, hand_over}
use iocpnet_module_mono_repo.Content.{drain, drained}
use iocpnet_module_mono_repo.Content.Queued.{queued, drain-queued}
use iocpnet_module_mono_repo.Content.Handing.{hand_over-queued}
use iocpnet_module_mono_repo.Prelude.Assoc.{find}
use iocpnet_module_mono_repo.Session.{Session, decode_session_handle}
use iocpnet_module_mono_repo.Content.Messages.{
  World, msg_enter, msg_leave, post, move_content, handle_msg, next_msg,
}
use iocpnet_module_mono_repo.Content.Handoff.{Stays, is_listed, is_reading}
use iocpnet_module_mono_repo.Content.Moved.{taken_last, handoff, moved_twice}

abbrev payloads : List (List ℕ)
payloads = (1 ∷ 2 ∷ 3 ∷ []) ∷ (9 ∷ []) ∷ []

abbrev ring : RingBuffer
ring = record {
  memory = λ i. copy_in (λ j. 0) 4 (3 ∷ 0 ∷ 1 ∷ 2 ∷ 3 ∷ 1 ∷ 0 ∷ 9 ∷ []) i;
  buffer_size = 64;
  front = 4;
  rear = 12;
}

contents-ring : contents ring ≡ queued payloads
unfolding span read copy_in bytes_of
contents-ring = refl

ring-IsValid : IsValid ring
ring-IsValid = record { front_in = omega arith; rear_in = omega arith }

drain-queued_example :
    (left : RingBuffer) × (drain 3 false ring ≡ drained payloads left)
    × IsValid left
    × (contents left ≡ [])
drain-queued_example =
    drain-queued payloads 3 ring (omega arith) (omega arith) ring-IsValid contents-ring

abbrev receiver : Receiver
receiver = record {
  recv_buffer = ring;
  content_buffer = ring;
  in_content = true;
  recv_post_cnt = 1;
  cumulative_recv = 4;
  leave_code = none_set;
}

free_size-ring : free_size ring ≡ 55
unfolding free_size use_size
free_size-ring = refl

abbrev two_bytes : List ℕ
two_bytes = 5 ∷ 6 ∷ []

hand_over-queued_example :
    (left : RingBuffer) × IsValid left
    × (contents left ≡ contents ring ++ (bytes_of 2 2 ++ 5 ∷ 6 ∷ []))
    × (((0 < 2)
          × (hand_over (5 ∷ 6 ∷ []) 2 receiver
              ≡ next none (record receiver {
                content_buffer = left;
                cumulative_recv = 4 + 1;
                recv_post_cnt = 0;
              })))
        ⊎ ((length two_bytes ≡ 0)
            × (hand_over (5 ∷ 6 ∷ []) 2 receiver
                ≡ cut (record receiver {
                  content_buffer = (enqueue (bytes_of 2 2) ring).1;
                  cumulative_recv = 4 + 1;
                  recv_post_cnt = 0;
                }))))
hand_over-queued_example =
    hand_over-queued (5 ∷ 6 ∷ []) receiver refl ring-IsValid (omega (arith, free_size-ring))

-- the session at place 1 with the number 3
abbrev handle : ℕ
handle = 281474976710659

abbrev session : Session
session = record {
  handle = handle;
  socket = 9;
  ip = 1;
  port = 2;
  io_count = 1;
  content = some 4;
  is_moving = false;
  is_sending = false;
  is_connecting = true;
  request_disconnect = false;
  recv_buffer = ring;
  content_buffer = ring;
  send_buffer = [];
  send_packets = [];
  cumulative_send = 0;
  cumulative_recv = 0;
  tps_send = 0;
  tps_recv = 0;
  recv_post_cnt = 0;
  leave_code = none_set;
}

abbrev world : World
world = record {
  server = record {
    sessions = λ i. session;
    max_of_session = 8;
    max_of_send_packets = 10;
    session_index_pool = [];
    session_count = 1;
    id_pool = 3;
    cumulate_accept = 0;
    tps_accept = 0;
    total_accept = 1;
    tps_recv_last = 0;
    tps_send_last = 0;
    shared = record { ref_count = λ p. 0; freed = []; tps_sets = []; events = [] };
  };
  contents = λ i.
      if i == 4
      then record { sessions = (handle, 1) ∷ []; msg_queue = []; session_count = 1 }
      else record { sessions = []; msg_queue = []; session_count = 0 };
  completion_key = λ i. 0;
  told = [];
}

world-Stays : Stays 1 handle 1 false (some 4) world
unfolding decode_session_handle
world-Stays = record {
  here = refl;
  place = refl;
  named = refl;
  counted = refl;
  flag = refl;
  belongs = refl;
}

world-is_listed : (i : ℕ) → is_listed handle i world ≡ (i == 4)
unfolding find
world-is_listed i = elim (Bool-cases (i == 4)) [ inl e ↦ rw e refl | inr e ↦ rw e refl ]

handoff_example :
    let w1 = (move_content (some 5) handle 0 world).1 in
    let left = handle_msg 4 (msg_leave 1) w1 in
    let entered = handle_msg 5 (msg_enter 1) w1 in
    let left_first = handle_msg 5 (msg_enter 1) left in
    let entered_first = handle_msg 4 (msg_leave 1) entered in
    (w1.contents ≡ post 5 (msg_enter 1) (post 4 (msg_leave 1) world.contents))
    × ((i : ℕ) → is_reading 1 w1 i ≡ false)
    × ((i : ℕ) → is_reading 1 left i ≡ false)
    × ((i : ℕ) → is_reading 1 entered i ≡ false)
    × ((i : ℕ) → is_reading 1 left_first i ≡ (i == 5))
    × ((i : ℕ) → is_reading 1 entered_first i ≡ (i == 5))
    × ((left_first.server.sessions 1).io_count ≡ 1)
    × ((entered_first.server.sessions 1).io_count ≡ 1)
handoff_example =
    handoff 4 5 0 1 handle 1 world world-Stays (omega arith) (omega arith) refl world-is_listed

moved_twice_example :
    let w1 = (move_content (some 5) handle 0 world).1 in
    let entered = handle_msg 5 (msg_enter 1) (taken_last 5 w1) in
    let w2 = (move_content (some 6) handle 0 entered).1 in
    let last = handle_msg 6 (msg_enter 1) (handle_msg 4 (msg_leave 1) w2) in
    (w1.contents ≡ post 5 (msg_enter 1) (post 4 (msg_leave 1) world.contents))
    × (next_msg 5 w1 ≡ some entered)
    × (next_msg 5 entered ≡ none)
    × (w2.contents ≡ post 6 (msg_enter 1) (post 5 (msg_leave 1) entered.contents))
    × (is_reading 1 last 5 ≡ true)
    × (is_reading 1 last 6 ≡ true)
moved_twice_example =
    moved_twice 4 5 6 0 1 handle 1 world world-Stays (omega arith) (omega arith) refl refl refl
