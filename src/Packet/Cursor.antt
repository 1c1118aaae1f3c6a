-- ===== src/Packet/Cursor.antt =====
-- Blocks of bytes and the bare moves of the cursors: `PutData`, `GetData`, `MoveRear`,
-- `MoveFront`, `Clear` and `Expand`.
use iocpnet_module_mono_repo.Prelude.{
  ℕ, ◌+◌, ◌-◌, ◌*◌, ◌≤◌, ◌<◌, ◌≡◌, refl, List, [], ◌++◌, sym, ap, ◌∙◌, arith, length, length-drop,
  drop, drop-append, min, ◌⊎◌, inl, inr, ltb, lt→ltb, le→ltb, lt-or-ge, if◌then◌else◌,
}
use iocpnet_module_mono_repo.Prelude.Memory.{
  Memory, read, read_split, length-read, read_ext, copy_in-read_inside, copy_in, read-copy_in,
}
use iocpnet_module_mono_repo.Packet.{
  SerializeBuffer, make, clear, get_data, put_data, move_front, move_rear, expand,
}
use iocpnet_module_mono_repo.Packet.Contents.{IsValid, contents, read_extended}

-- A cleared buffer is valid and empty, also one whose cursors had run off.
pub clear_lem :
    (s : SerializeBuffer)
    → s.buffer_end ≡ s.buffer_size
    → IsValid (clear s) × (contents (clear s) ≡ [])
unfolding clear read
clear_lem s e = (omega arith, refl)

pub make_lem : (m : Memory) → IsValid (make m) × (contents (make m) ≡ [])
unfolding make read
make_lem m = (omega arith, refl)

-- `PutData` into a buffer that nothing was read from: the buffer stays valid; a block that fits
-- is appended and its size returned, any other changes nothing and returns 0.
pub put_data_lem :
    (src : List ℕ) (s : SerializeBuffer)
    → IsValid s
    → s.front ≡ 0
    → IsValid (put_data src s).1
      × (((s.rear + length src ≤ s.buffer_size)
            × ((put_data src s).0 ≡ length src)
            × (contents (put_data src s).1 ≡ contents s ++ src))
          ⊎ ((s.buffer_size < s.rear + length src) × (put_data src s ≡ (0, s))))
unfolding put_data
put_data_lem src s h fresh = elim (lt-or-ge s.buffer_size (s.data_size + length src)) [
  | inl over ↦
      rw (lt→ltb s.buffer_size (s.data_size + length src) over) (h, inr (omega arith, refl))
  | inr fits ↦ rw (le→ltb s.buffer_size (s.data_size + length src) fits) (
    omega arith,
    inl (omega arith, refl, read_extended s.memory s.front s.data_size s.rear src h.counted),
  )
]

-- The end of a copied block, from a place inside it on.
read_end :
    (m : Memory) (off end : ℕ) (src : List ℕ)
    → off ≤ end
    → end ≤ off + length src
    → read (copy_in m off src) end (off + length src - end) ≡ drop (end - off) src
read_end m off end src lo hi =
    let m' : Memory = copy_in m off src in
    let a : ℕ = end - off in
    let b : ℕ = off + length src - end in
    let parts : read m' off a ++ read m' end b ≡ src =
      sym (read_split m' off end a b (length src) (omega arith) (omega arith))
      ∙ read-copy_in m off src in
    sym (drop-append (read m' off a) (read m' end b) a (sym (length-read m' off a)))
    ∙ ap (drop a) parts

-- After a read, `PutData` compares the bytes held, not the place they end at, with the size: a
-- block that fits that test but not the room behind the rear is written past the buffer's end,
-- and the buffer is no longer valid: the block stands in memory behind the rear, its last bytes,
-- at least one, from the buffer's end on.
pub put_data_overruns :
    (src : List ℕ) (s : SerializeBuffer)
    → IsValid s
    → s.data_size + length src ≤ s.buffer_size
    → s.buffer_size < s.rear + length src
    → ((put_data src s).0 ≡ length src)
      × (read (put_data src s).1.memory s.rear (length src) ≡ src)
      × (read (put_data src s).1.memory s.buffer_end (s.rear + length src - s.buffer_end)
          ≡ drop (s.buffer_end - s.rear) src)
      × (0 < length (drop (s.buffer_end - s.rear) src))
      × ¬ IsValid (put_data src s).1
unfolding put_data
put_data_overruns src s h fits over = rw (le→ltb s.buffer_size (s.data_size + length src) fits) (
  refl,
  read-copy_in s.memory s.rear src,
  read_end s.memory s.rear s.buffer_end src h.rear_in (omega (arith, h.end_at)),
  omega (arith, length-drop (s.buffer_end - s.rear) src, h.end_at, h.rear_in),
  λ v. omega (arith, v.rear_in),
)

-- `GetData` hands out the oldest bytes, as many as are asked for and held, and keeps the others.
pub get_data_lem :
    (size : ℕ) (s : SerializeBuffer)
    → IsValid s
    → let (n, out, s') = get_data size s in
      (n ≡ min size s.data_size) × (length out ≡ n) × (contents s ≡ out ++ contents s') × IsValid s'
unfolding get_data
get_data_lem size s h =
    let n : ℕ = if ltb s.data_size size then s.data_size else size in
    let least : n ≡ min size s.data_size = ground arith in
    (
      least,
      length-read s.memory s.front n,
      read_split s.memory s.front (s.front + n) n (s.data_size - n) s.data_size (omega arith) refl,
      omega arith,
    )

-- `MoveFront` drops what `GetData` of the same size hands out.
pub move_front-get_data :
    (size : ℕ) (s : SerializeBuffer)
    → move_front size s ≡ ((get_data size s).0, (get_data size s).2)
unfolding move_front get_data
move_front-get_data size s = refl

-- `MoveRear`: the buffer stays valid; bytes that were put behind the rear are taken over, and
-- where they cannot all lie in the buffer nothing moves.
pub move_rear_lem :
    (size : ℕ) (s : SerializeBuffer)
    → IsValid s
    → IsValid (move_rear size s).1
      × (((s.rear + size ≤ s.buffer_size)
            × (contents (move_rear size s).1 ≡ contents s ++ read s.memory s.rear size))
          ⊎ ((s.buffer_size < s.rear + size) × (move_rear size s ≡ (0, s))))
unfolding move_rear
move_rear_lem size s h = elim (lt-or-ge s.buffer_end (s.rear + size)) [
  | inl over ↦ rw (lt→ltb s.buffer_end (s.rear + size) over) (h, inr (omega arith, refl))
  | inr fits ↦ rw (le→ltb s.buffer_end (s.rear + size) fits) (
    omega arith,
    inl (
      omega arith,
      read_split s.memory s.front s.rear s.data_size size (s.data_size + size) refl h.counted,
    ),
  )
]

-- `Expand` doubles the size, and keeps what the buffer holds and its validity.
pub expand_lem :
    (fresh : Memory) (s : SerializeBuffer)
    → IsValid s
    → let (size, s') = expand fresh s in
      (size ≡ s.buffer_size * 2) × (s'.buffer_size ≡ size) × (contents s' ≡ contents s) × IsValid s'
unfolding expand
expand_lem fresh s h = (
  refl,
  refl,
  read_ext _ s.memory s.front s.data_size
      λ i lo hi. copy_in-read_inside s.memory fresh 0 s.buffer_size i (omega arith) (omega arith),
  omega arith,
)
