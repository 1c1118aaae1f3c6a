-- ===== src/Frame/Tests.antt =====
-- A stream of two packets and a part of a third, sealed and in the clear.
use iocpnet_module_mono_repo.Prelude.{
  ℕ, ◌+◌, ◌%◌, ◌<◌, ◌≤◌, ◌≡◌, refl, List, [], ◌∷◌, ◌++◌, arith, length, true, false, some, inr, ◌⊎◌,
  ◌-◌, ap, ◌∙◌, All, if◌then◌else◌,
}
use iocpnet_module_mono_repo.Prelude.Memory.{Memory, read, copy_in, read-copy_in, length-read}
use iocpnet_module_mono_repo.Encoder.{encode_from, calculate_checksum, checksum_from}
use iocpnet_module_mono_repo.Packet.{SerializeBuffer}
use iocpnet_module_mono_repo.Ring.{RingBuffer, use_size}
use iocpnet_module_mono_repo.Ring.Contents.{IsValid, contents, length-contents, span_straight}
use iocpnet_module_mono_repo.Frame.{NetConfig, frame_packet, sent_bytes}
use iocpnet_module_mono_repo.Frame.Wire.{wire}
use iocpnet_module_mono_repo.Frame.Send.{frame_packet_lem, frame_packet_oversize}
use iocpnet_module_mono_repo.Frame.Receive.{
  Receiver, receive, round, waiting, none_set, cut, fault, wrong_header_len, wrong_recvpost_count,
}
use iocpnet_module_mono_repo.Frame.Ending.{has_ended, has_faulted, receive_ends}
use iocpnet_module_mono_repo.Frame.Stream.{Sent, IsSendable, stream, no_header, receive-stream}
use iocpnet_module_mono_repo.Frame.Refusals.{round_refuses, round_overflows}

abbrev sealing : NetConfig
sealing = record { header_code = 119; fixed_key = 50; encryption = true; max_recv_post_cnt = 10 }

abbrev first : Sent
first = record { rand_key = 7; unset = 0; payload = 1 ∷ 2 ∷ 3 ∷ [] }

abbrev second : Sent
second = record { rand_key = 9; unset = 0; payload = 255 ∷ [] }

two-IsSendable : All IsSendable (first ∷ second ∷ [])
two-IsSendable = omega arith

abbrev zeros : Memory
zeros = λ i. 0

-- A ring that holds `bytes` from offset 2 on.
abbrev holding : List ℕ → RingBuffer
holding bytes = record {
  memory = λ i. copy_in zeros 2 bytes i;
  buffer_size = 4000;
  front = 2;
  rear = 2 + length bytes;
}

abbrev session : List ℕ → Receiver
session bytes = record {
  recv_buffer = holding bytes;
  content_buffer = holding [];
  in_content = false;
  recv_post_cnt = 3;
  cumulative_recv = 0;
  leave_code = none_set;
}

abbrev arrived : List ℕ
arrived = stream sealing (first ∷ second ∷ []) ++ (119 ∷ 4 ∷ [])

contents-holding : (bytes : List ℕ) → contents (holding bytes) ≡ bytes
contents-holding bytes =
    let m : Memory = copy_in zeros 2 bytes in
    let count : 2 + length bytes - 2 ≡ length bytes = omega arith in
    span_straight m 4000 2 (2 + length bytes) (omega arith)
    ∙ ap (read m 2) count
    ∙ read-copy_in zeros 2 bytes

length-arrived : length arrived ≡ 16
unfolding encode_from calculate_checksum checksum_from
length-arrived = refl

arrived-IsValid : IsValid (holding arrived)
arrived-IsValid =
    let e : length arrived ≡ 16 = length-arrived in
    record { front_in = omega arith; rear_in = omega arith }

receive-stream_example :
    (r' : Receiver) × (receive sealing zeros 3 (session arrived)
      ≡ waiting ((1 ∷ 2 ∷ 3 ∷ []) ∷ (255 ∷ []) ∷ []) r')
    × (contents r'.recv_buffer ≡ 119 ∷ 4 ∷ [])
    × IsValid r'.recv_buffer
    × (r'.cumulative_recv ≡ 0 + 2)
receive-stream_example =
    receive-stream sealing zeros 3 (first ∷ second ∷ []) (119 ∷ 4 ∷ []) (session arrived)
      (omega arith) two-IsSendable (no_header (119 ∷ 4 ∷ []) (omega arith)) (omega arith) refl
      (omega arith) arrived-IsValid (contents-holding arrived)

receive_ends_example :
    (has_ended (receive sealing zeros 17 (session arrived)) ≡ true)
    ⊎ ((1400 < use_size (holding arrived))
        × (has_faulted (receive sealing zeros 17 (session arrived)) ≡ true))
receive_ends_example =
    let bytes = length-contents (holding arrived) in
    let size = ap length (contents-holding arrived) in
    let counted = length-arrived in
    receive_ends sealing zeros 17 (session arrived) arrived-IsValid
      (omega (arith, bytes, size, counted))

-- A header whose length is 1401, and one whose length is 1396 with as many bytes behind it.
abbrev too_long : List ℕ
too_long = 119 ∷ 121 ∷ 5 ∷ 0 ∷ 0 ∷ []

abbrev overflowing : List ℕ
overflowing = 119 ∷ 116 ∷ 5 ∷ 0 ∷ 0 ∷ read zeros 0 1396

too_long-IsValid : IsValid (holding too_long)
too_long-IsValid = record { front_in = omega arith; rear_in = omega arith }

overflowing-IsValid : IsValid (holding overflowing)
overflowing-IsValid =
    let e : length (read zeros 0 1396) ≡ 1396 = length-read zeros 0 1396 in
    record { front_in = omega arith; rear_in = omega arith }

round_refuses_example :
    ((10 ≤ 3)
      × (round sealing zeros (session too_long)
          ≡ cut (record (session too_long) {
            recv_post_cnt = 3 + 1;
            leave_code = wrong_recvpost_count;
          })))
    ⊎ ((3 < 10)
        × (round sealing zeros (session too_long)
            ≡ cut (record (session too_long) {
              recv_post_cnt = 3 + 1;
              leave_code = wrong_header_len;
            })))
round_refuses_example =
    round_refuses sealing zeros 119 121 5 0 0 [] (session too_long) too_long-IsValid
      (contents-holding too_long) (inr (omega arith, inr (inr (omega arith))))

round_overflows_example : round sealing zeros (session overflowing) ≡ fault
round_overflows_example =
    round_overflows sealing zeros 119 116 5 0 0 (read zeros 0 1396) (session overflowing)
      overflowing-IsValid (contents-holding overflowing) refl (omega arith) (omega arith)
      (omega arith) (omega arith) (omega (arith, length-read zeros 0 1396))

-- a buffer of the pool and packets of 3 and of 1396 bytes
abbrev pooled : SerializeBuffer
pooled = record {
  memory = λ i. 200;
  buffer_size = 1400;
  buffer_end = 1400;
  front = 0;
  rear = 0;
  data_size = 0;
}

abbrev packet : SerializeBuffer
packet = record pooled { memory = λ i. i + 1; rear = 3; data_size = 3 }

abbrev long_packet : SerializeBuffer
long_packet = record packet { rear = 1396; data_size = 1396 }

frame_packet_example :
    (s : SerializeBuffer) × (frame_packet sealing (0 ∷ 0 ∷ 0 ∷ 0 ∷ 0 ∷ []) 41 pooled packet
      ≡ some s)
    × (sent_bytes s
        ≡ wire sealing
            (if sealing.encryption then 41 % 256 else 0)
            0
            (read packet.memory 0 packet.data_size))
frame_packet_example = frame_packet_lem sealing 0 0 0 0 0 41 pooled packet refl (omega arith)

frame_packet_oversize_example :
    (s : SerializeBuffer) × (frame_packet sealing (0 ∷ 0 ∷ 0 ∷ 0 ∷ 0 ∷ []) 41 pooled long_packet
      ≡ some s)
    × (sent_bytes s ≡ wire sealing (if sealing.encryption then 41 % 256 else 0) 0 [])
frame_packet_oversize_example =
    frame_packet_oversize sealing 0 0 0 0 0 41 pooled long_packet refl (omega arith)
