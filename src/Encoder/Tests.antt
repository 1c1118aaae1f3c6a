-- ===== src/Encoder/Tests.antt =====
-- The encoder at a small packet.
use iocpnet_module_mono_repo.Prelude.{◌+◌, ◌≤◌, ◌<◌, ◌%◌, ◌≡◌, refl, [], ◌∷◌, arith, some, ◌⊎◌}
use iocpnet_module_mono_repo.Prelude.Memory.{Memory, read}
use iocpnet_module_mono_repo.Encoder.{SimpleEncoder, encode, decode, encode_from}
use iocpnet_module_mono_repo.Encoder.RoundTrip.{decode-encode}

-- the keys of `login_config.cfg` in their place, and a random key
abbrev in_place : SimpleEncoder
in_place = record { original = 4; encoded = 4; buffer_size = 3; k = 0x32; rk = 0x9f }

abbrev packet : Memory
packet i = (i + 250) % 256

encode_from_runs : encode_from 0x32 0x9f 0 0 0 (254 ∷ 255 ∷ 0 ∷ []) ≡ 109 ∷ 161 ∷ 116 ∷ []
unfolding encode_from
encode_from_runs = refl

decode-encode_example :
    (sealed restored : Memory) × (encode in_place packet ≡ some sealed)
    × (decode in_place sealed ≡ some restored)
    × (((4 ≤ 5) × (5 < 4 + 3)) ⊎ (sealed 5 ≡ packet 5))
    × (restored 5 ≡ packet 5)
unfolding read
decode-encode_example = decode-encode in_place packet 5 refl (omega arith) (omega arith)
