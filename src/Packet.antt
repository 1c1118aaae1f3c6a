-- ===== src/Packet.antt =====
-- IOCPNetLib/Packet.h and IOCPNetLib/Packet.cpp, class SerializeBuffer: the cursor pair over a
-- packet's bytes. Pointers are offsets from `mBuffer`; a stored value is its bit pattern, low
-- byte first, so that the signed and floating types are stored like the unsigned ones of their
-- size.
pub mod Contents
pub mod Fields
pub mod Cursor
mod Tests
use iocpnet_module_mono_repo.Prelude.{
  ℕ, zero, suc, ◌+◌, ◌-◌, ◌*◌, ◌/◌, ◌%◌, List, [], ◌∷◌, ltb, if◌then◌else◌, length,
}
use iocpnet_module_mono_repo.Prelude.Memory.{Memory, copy_in, read}

-- `PAYLOAD_LEN_DEFAULT`
abbrev pub payload_len_default : ℕ
payload_len_default = 1400

pub record SerializeBuffer : Type 0 where
  pub memory : Memory
  pub buffer_size : ℕ
  pub buffer_end : ℕ
  pub front : ℕ
  pub rear : ℕ
  pub data_size : ℕ

-- `SerializeBuffer(int bufferSize)`, over whatever the allocation holds
unfoldable pub make_sized : Memory → ℕ → SerializeBuffer
make_sized m size = record {
  memory = m;
  buffer_size = size;
  buffer_end = size;
  front = 0;
  rear = 0;
  data_size = 0;
}

-- `SerializeBuffer()`
unfoldable pub make : Memory → SerializeBuffer
unfolding make_sized
make m = make_sized m payload_len_default

-- `Clear()`
unfoldable pub clear : SerializeBuffer → SerializeBuffer
clear s = record s { front = 0; rear = 0; data_size = 0 }

-- the bytes of a value of `w` bytes, low byte first
unfoldable pub bytes_of : ℕ → ℕ → List ℕ
bytes_of zero v = []
bytes_of (suc w) v = v % 256 ∷ bytes_of w (v / 256)

unfoldable pub value_of : List ℕ → ℕ
value_of [] = 0
value_of (b ∷ bs) = b + 256 * value_of bs

-- what every `operator <<` does with a type of `w` bytes
unfoldable pub write_scalar : ℕ → ℕ → SerializeBuffer → SerializeBuffer
write_scalar w v s = if ltb s.buffer_end (s.rear + w) then s else record s {
  memory = copy_in s.memory s.rear (bytes_of w v);
  rear = s.rear + w;
  data_size = s.data_size + w;
}

-- what every `operator >>` does with a variable of `w` bytes that holds `old`
unfoldable pub read_scalar : ℕ → ℕ → SerializeBuffer → ℕ × SerializeBuffer
read_scalar w old s = if ltb s.data_size w then (old, s) else (
  value_of (read s.memory s.front w),
  record s { front = s.front + w; data_size = s.data_size - w },
)

-- `operator <<`, by the type of its argument
unfoldable pub shl_unsigned_char : ℕ → SerializeBuffer → SerializeBuffer
unfolding write_scalar
shl_unsigned_char v = write_scalar 1 v

unfoldable pub shl_char : ℕ → SerializeBuffer → SerializeBuffer
unfolding write_scalar
shl_char v = write_scalar 1 v

unfoldable pub shl_short : ℕ → SerializeBuffer → SerializeBuffer
unfolding write_scalar
shl_short v = write_scalar 2 v

unfoldable pub shl_unsigned_short : ℕ → SerializeBuffer → SerializeBuffer
unfolding write_scalar
shl_unsigned_short v = write_scalar 2 v

unfoldable pub shl_int : ℕ → SerializeBuffer → SerializeBuffer
unfolding write_scalar
shl_int v = write_scalar 4 v

-- `long` has 4 bytes in the program's compiler.
unfoldable pub shl_long : ℕ → SerializeBuffer → SerializeBuffer
unfolding write_scalar
shl_long v = write_scalar 4 v

unfoldable pub shl_float : ℕ → SerializeBuffer → SerializeBuffer
unfolding write_scalar
shl_float v = write_scalar 4 v

unfoldable pub shl_int64 : ℕ → SerializeBuffer → SerializeBuffer
unfolding write_scalar
shl_int64 v = write_scalar 8 v

unfoldable pub shl_double : ℕ → SerializeBuffer → SerializeBuffer
unfolding write_scalar
shl_double v = write_scalar 8 v

unfoldable pub shl_unsigned_long_long : ℕ → SerializeBuffer → SerializeBuffer
unfolding write_scalar
shl_unsigned_long_long v = write_scalar 8 v

unfoldable pub shl_dword : ℕ → SerializeBuffer → SerializeBuffer
unfolding write_scalar
shl_dword v = write_scalar 4 v

-- `operator >>`, by the type of its argument, whose value before the call comes first
unfoldable pub shr_byte : ℕ → SerializeBuffer → ℕ × SerializeBuffer
unfolding read_scalar
shr_byte old = read_scalar 1 old

unfoldable pub shr_char : ℕ → SerializeBuffer → ℕ × SerializeBuffer
unfolding read_scalar
shr_char old = read_scalar 1 old

unfoldable pub shr_short : ℕ → SerializeBuffer → ℕ × SerializeBuffer
unfolding read_scalar
shr_short old = read_scalar 2 old

unfoldable pub shr_word : ℕ → SerializeBuffer → ℕ × SerializeBuffer
unfolding read_scalar
shr_word old = read_scalar 2 old

unfoldable pub shr_int : ℕ → SerializeBuffer → ℕ × SerializeBuffer
unfolding read_scalar
shr_int old = read_scalar 4 old

unfoldable pub shr_dword : ℕ → SerializeBuffer → ℕ × SerializeBuffer
unfolding read_scalar
shr_dword old = read_scalar 4 old

unfoldable pub shr_float : ℕ → SerializeBuffer → ℕ × SerializeBuffer
unfolding read_scalar
shr_float old = read_scalar 4 old

unfoldable pub shr_int64 : ℕ → SerializeBuffer → ℕ × SerializeBuffer
unfolding read_scalar
shr_int64 old = read_scalar 8 old

unfoldable pub shr_unsigned_long_long : ℕ → SerializeBuffer → ℕ × SerializeBuffer
unfolding read_scalar
shr_unsigned_long_long old = read_scalar 8 old

unfoldable pub shr_double : ℕ → SerializeBuffer → ℕ × SerializeBuffer
unfolding read_scalar
shr_double old = read_scalar 8 old

-- `GetData(dest, size)`, with what it puts in `dest`
unfoldable pub get_data : ℕ → SerializeBuffer → ℕ × List ℕ × SerializeBuffer
get_data size s =
    let n = if ltb s.data_size size then s.data_size else size in
    (n, read s.memory s.front n, record s { front = s.front + n; data_size = s.data_size - n })

-- `PutData(src, size)`, with the `size` bytes of `src` as a list
unfoldable pub put_data : List ℕ → SerializeBuffer → ℕ × SerializeBuffer
put_data src s = if ltb s.buffer_size (s.data_size + length src) then (0, s) else (
  length src,
  record s {
    memory = copy_in s.memory s.rear src;
    rear = s.rear + length src;
    data_size = s.data_size + length src;
  },
)

-- `MoveFront(size)`
unfoldable pub move_front : ℕ → SerializeBuffer → ℕ × SerializeBuffer
move_front size s =
    let n = if ltb s.data_size size then s.data_size else size in
    (n, record s { front = s.front + n; data_size = s.data_size - n })

-- `MoveRear(size)`
unfoldable pub move_rear : ℕ → SerializeBuffer → ℕ × SerializeBuffer
move_rear size s =
    if ltb s.buffer_end (s.rear + size)
    then (0, s)
    else (size, record s { rear = s.rear + size; data_size = s.data_size + size })

-- `Expand()`, over whatever the new allocation holds
unfoldable pub expand : Memory → SerializeBuffer → ℕ × SerializeBuffer
expand fresh s =
    let size = s.buffer_size * 2 in
    (
      size,
      record s {
        memory = copy_in fresh 0 (read s.memory 0 s.buffer_size);
        buffer_size = size;
        buffer_end = size;
      },
    )
