-- ===== src/Packet/Tests.antt =====
-- Small buffers, and the theorems at them.
use iocpnet_module_mono_repo.Prelude.{◌<◌, ◌≡◌, refl, List, [], ◌∷◌, arith}
use iocpnet_module_mono_repo.Packet.{SerializeBuffer, bytes_of, put_data}
use iocpnet_module_mono_repo.Prelude.Memory.{read}
use iocpnet_module_mono_repo.Packet.Contents.{IsValid, contents}
use iocpnet_module_mono_repo.Packet.Fields.{
  Field, unsigned_short, unsigned_char, int64, shl_all, shr_all, encoding, message_round_trip,
}
use iocpnet_module_mono_repo.Packet.Cursor.{put_data_overruns}

-- Sixteen bytes, of which two are held from offset 12 on.
abbrev late : SerializeBuffer
late = record {
  memory = λ i. i;
  buffer_size = 16;
  buffer_end = 16;
  front = 12;
  rear = 14;
  data_size = 2;
}

abbrev empty : SerializeBuffer
empty = record late { front = 0; rear = 0; data_size = 0 }

-- the login answer of the chat server
abbrev answer : List Field
answer = (unsigned_short, 2) ∷ (unsigned_char, 1) ∷ (int64, 123456789) ∷ []

answer_bytes : encoding answer ≡ 2 ∷ 0 ∷ 1 ∷ 21 ∷ 205 ∷ 91 ∷ 7 ∷ 0 ∷ 0 ∷ 0 ∷ 0 ∷ []
unfolding encoding bytes_of
answer_bytes = refl

late-IsValid : IsValid late
late-IsValid = omega arith

empty-IsValid : IsValid empty
empty-IsValid = omega arith

message_example :
    let (vs, s') = shr_all (unsigned_short ∷ unsigned_char ∷ int64 ∷ []) (shl_all answer empty) in
    (vs ≡ 2 ∷ 1 ∷ 123456789 ∷ []) × (contents s' ≡ []) × IsValid s'
unfolding encoding bytes_of
message_example = message_round_trip answer empty empty-IsValid refl (omega arith) (omega arith)

put_data_overruns_example :
    ((put_data (7 ∷ 8 ∷ 9 ∷ []) late).0 ≡ 3)
    × (read (put_data (7 ∷ 8 ∷ 9 ∷ []) late).1.memory 14 3 ≡ 7 ∷ 8 ∷ 9 ∷ [])
    × (read (put_data (7 ∷ 8 ∷ 9 ∷ []) late).1.memory 16 1 ≡ 9 ∷ [])
    × (0 < 1)
    × ¬ IsValid (put_data (7 ∷ 8 ∷ 9 ∷ []) late).1
put_data_overruns_example =
    put_data_overruns (7 ∷ 8 ∷ 9 ∷ []) late late-IsValid (omega arith) (omega arith)
