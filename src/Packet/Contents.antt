-- ===== src/Packet/Contents.antt =====
-- What a buffer holds, its invariant, and what each write and read does to both.
use iocpnet_module_mono_repo.Prelude.{
  ℕ, zero, suc, ◌+◌, ◌-◌, ◌*◌, ◌/◌, ◌^◌, ◌≤◌, ◌<◌, ◌≡◌, refl, ap, ap₂, ◌∙◌, List, ◌++◌, arith,
  length, ◌⊎◌, inl, inr, lt→ltb, le→ltb, lt-or-ge,
}
use native.Mathlib.Nat.{pow-suc}
use iocpnet_module_mono_repo.Prelude.Memory.{
  Memory, copy_in, read, read_split, length-read, read-copy_in, read-copy_in_disjoint,
}
use iocpnet_module_mono_repo.Packet.{SerializeBuffer, bytes_of, value_of, write_scalar, read_scalar}

pub record IsValid (s : SerializeBuffer) : Type 0 where
  pub end_at : s.buffer_end ≡ s.buffer_size
  pub rear_in : s.rear ≤ s.buffer_end
  pub counted : s.front + s.data_size ≡ s.rear

-- The bytes written and not yet read.
abbrev pub contents : SerializeBuffer → List ℕ
contents s = read s.memory s.front s.data_size

-- Bytes put down behind a read extend it.
pub read_extended :
    (m : Memory) (front n rear : ℕ) (src : List ℕ)
    → front + n ≡ rear
    → read (copy_in m rear src) front (n + length src) ≡ read m front n ++ src
read_extended m front n rear src e =
    read_split (copy_in m rear src) front rear n (length src) (n + length src) refl e
    ∙ ap₂ ◌++◌ (read-copy_in_disjoint m rear src front n (inl (omega arith)))
        (read-copy_in m rear src)

pub length-bytes_of : (w v : ℕ) → length (bytes_of w v) ≡ w
unfolding bytes_of
length-bytes_of zero v = refl
length-bytes_of (suc w) v = ap suc (length-bytes_of w (v / 256))

-- A value that fits its bytes is read back from them.
pub value_of-bytes_of : (w v : ℕ) → v < 256 ^ w → value_of (bytes_of w v) ≡ v
unfolding bytes_of value_of
value_of-bytes_of zero v h = omega arith
value_of-bytes_of (suc w) v h =
    let scaled : 256 ^ suc w ≡ 256 * 256 ^ w = omega (arith, pow-suc 256 w) in
    omega (arith, value_of-bytes_of w (v / 256) (omega (arith, scaled)))

pub write_fits :
    (w v : ℕ) (s : SerializeBuffer)
    → IsValid s
    → s.rear + w ≤ s.buffer_size
    → contents (write_scalar w v s) ≡ contents s ++ bytes_of w v
unfolding write_scalar
write_fits w v s h fits =
    let held = read_extended s.memory s.front s.data_size s.rear (bytes_of w v) h.counted in
    rw (le→ltb s.buffer_end (s.rear + w) (omega arith)) (rw (length-bytes_of w v) at held)

write_over : (w v : ℕ) (s : SerializeBuffer) → s.buffer_end < s.rear + w → write_scalar w v s ≡ s
unfolding write_scalar
write_over w v s over = rw (lt→ltb s.buffer_end (s.rear + w) over)

write_scalar-IsValid : (w v : ℕ) (s : SerializeBuffer) → IsValid s → IsValid (write_scalar w v s)
unfolding write_scalar
write_scalar-IsValid w v s h = elim (lt-or-ge s.buffer_end (s.rear + w)) [
  | inl over ↦ rw (lt→ltb s.buffer_end (s.rear + w) over) h
  | inr fits ↦ rw (le→ltb s.buffer_end (s.rear + w) fits) (omega arith)
]

-- `operator <<`: the buffer stays valid; a value that fits behind the rear is appended, low byte
-- first, and any other is dropped, which leaves the buffer as it was.
pub write_scalar_lem :
    (w v : ℕ) (s : SerializeBuffer)
    → IsValid s
    → IsValid (write_scalar w v s)
      × (((s.rear + w ≤ s.buffer_size)
            × (contents (write_scalar w v s) ≡ contents s ++ bytes_of w v))
          ⊎ ((s.buffer_size < s.rear + w) × (write_scalar w v s ≡ s)))
write_scalar_lem w v s h = (
  write_scalar-IsValid w v s h,
  elim (lt-or-ge s.buffer_size (s.rear + w)) [
    | inl over ↦ inr (over, write_over w v s (omega arith))
    | inr fits ↦ inl (fits, write_fits w v s h fits)
  ],
)

pub read_enough :
    (w old : ℕ) (s : SerializeBuffer)
    → w ≤ s.data_size
    → (bs : List ℕ) × (length bs ≡ w)
      × ((read_scalar w old s).0 ≡ value_of bs)
      × (contents s ≡ bs ++ contents (read_scalar w old s).1)
unfolding read_scalar
read_enough w old s enough = rw (le→ltb s.data_size w enough) (
  read s.memory s.front w,
  length-read s.memory s.front w,
  refl,
  read_split s.memory s.front (s.front + w) w (s.data_size - w) s.data_size (omega arith) refl,
)

read_short : (w old : ℕ) (s : SerializeBuffer) → s.data_size < w → read_scalar w old s ≡ (old, s)
unfolding read_scalar
read_short w old s short = rw (lt→ltb s.data_size w short)

read_scalar-IsValid :
    (w old : ℕ) (s : SerializeBuffer) → IsValid s → IsValid (read_scalar w old s).1
unfolding read_scalar
read_scalar-IsValid w old s h = elim (lt-or-ge s.data_size w) [
  | inl short ↦ rw (lt→ltb s.data_size w short) h
  | inr enough ↦ rw (le→ltb s.data_size w enough) (omega arith)
]

-- `operator >>`: the buffer stays valid; with enough bytes held the oldest `w` are taken off and
-- give the value, and with fewer the variable keeps its value and the buffer is as it was.
pub read_scalar_lem :
    (w old : ℕ) (s : SerializeBuffer)
    → IsValid s
    → IsValid (read_scalar w old s).1
      × (((bs : List ℕ) × (length bs ≡ w)
            × ((read_scalar w old s).0 ≡ value_of bs)
            × (contents s ≡ bs ++ contents (read_scalar w old s).1))
          ⊎ ((s.data_size < w) × (read_scalar w old s ≡ (old, s))))
read_scalar_lem w old s h = (
  read_scalar-IsValid w old s h,
  elim (lt-or-ge s.data_size w) [
    | inl short ↦ inr (short, read_short w old s short)
    | inr enough ↦ inl (read_enough w old s enough)
  ],
)
