-- ===== src/Ring/Posted.antt =====
-- Bytes that arrive in a ring's free room from outside, as `Session::RecvPost` offers it to
-- `WSARecv`: first the run behind the rear, then the start of the allocation. `MoveRear` takes
-- them over.
use iocpnet_module_mono_repo.Prelude.{
  ℕ, ◌+◌, ◌-◌, ◌%◌, ◌≤◌, ◌<◌, ◌≡◌, refl, sym, List, ◌++◌, arith, length, min, append-nil,
  append_assoc, ◌⊎◌, inl, inr, leb, ltb, Bool-cases, le→ltb,
}
use native.Mathlib.Nat.{mod_self, mod-eq_of_lt}
use iocpnet_module_mono_repo.Prelude.Memory.{Memory, read, read_split, read_ext}
use iocpnet_module_mono_repo.Ring.{RingBuffer, use_size, free_size, direct_enqueue_size, move_rear}
use iocpnet_module_mono_repo.Ring.Contents.{IsValid, span, contents, span_straight, span_wrapped}

-- `w` is the memory `m` after the bytes `src` came to the run of `d` bytes at `rear`, and where
-- they are more, to the start.
pub record IsFilled (m w : Memory) (rear d : ℕ) (src : List ℕ) : Type 0 where
  pub bytes : read w rear (min (length src) d) ++ read w 0 (length src - d) ≡ src
  pub kept : (i : ℕ) → (i < rear) ⊎ (rear + min (length src) d ≤ i) → length src - d ≤ i → w i ≡ m i

module _ (m w : Memory) (size front rear d : ℕ) (src : List ℕ) (h : IsFilled m w rear d src) where
  -- The bytes held before are where they were.
  read_kept :
      (at n : ℕ)
      → (at + n ≤ rear) ⊎ (rear + min (length src) d ≤ at)
      → length src - d ≤ at
      → read w at n ≡ read m at n
  read_kept at n away high = read_ext w m at n λ i lo hi. h.kept i (omega arith) (omega arith)

  one_run : length src ≤ d → read w rear (length src) ≡ src
  unfolding read
  one_run le =
      let count : min (length src) d ≡ length src = omega arith in
      let rest : length src - d ≡ 0 = omega arith in rw (count, rest, append-nil) at h.bytes

  two_runs : d ≤ length src → read w rear d ++ read w 0 (length src - d) ≡ src
  two_runs le = let count : min (length src) d ≡ d = omega arith in rw count at h.bytes

  rear_straight :
      front ≤ rear
      → length src ≤ d
      → rear + length src < size
      → span w size front ((rear + length src) % size) ≡ span m size front rear ++ src
  rear_straight f le lt =
      let n : ℕ = length src in
      rw (
        mod-eq_of_lt lt,
        span_straight w size front (rear + n) (omega arith),
        span_straight m size front rear f,
        read_split w front rear (rear - front) n (rear + n - front) (omega arith) (omega arith),
        one_run le,
        read_kept front (rear - front) (inl (omega arith)) (omega arith),
      )

  rear_end :
      front ≤ rear
      → 0 < front
      → length src ≤ d
      → rear + length src ≡ size
      → span w size front ((rear + length src) % size) ≡ span m size front rear ++ src
  unfolding read
  rear_end f p le e =
      let n : ℕ = length src in
      let home : (rear + n) % size ≡ 0 = rw e (mod_self size) in
      rw (
        home,
        span_wrapped w size front 0 p,
        append-nil,
        span_straight m size front rear f,
        read_split w front rear (rear - front) n (size - front) (omega arith) (omega arith),
        one_run le,
        read_kept front (rear - front) (inl (omega arith)) (omega arith),
      )

  rear_wrapped :
      rear + length src < front
      → front < size
      → length src ≤ d
      → span w size front ((rear + length src) % size) ≡ span m size front rear ++ src
  rear_wrapped f p le =
      let n : ℕ = length src in
      rw
        (
          mod-eq_of_lt {n = rear + n} {m = size} (omega arith),
          span_wrapped w size front (rear + n) f,
          span_wrapped m size front rear (omega arith),
          read_split w 0 rear rear n (rear + n) refl (omega arith),
          one_run le,
          read_kept 0 rear (inl (omega arith)) (omega arith),
          read_kept front (size - front) (inr (omega arith)) (omega arith),
        )
        (sym (append_assoc (read m front (size - front)) (read m 0 rear) src))

  rear_round :
      front ≤ rear
      → rear < size
      → d ≡ size - rear
      → d ≤ length src
      → length src - d < front
      → span w size front ((length src - d) % size) ≡ span m size front rear ++ src
  rear_round f b e le lt =
      let k : ℕ = length src - d in
      rw (
        mod-eq_of_lt {n = k} {m = size} (omega arith),
        span_wrapped w size front k lt,
        span_straight m size front rear f,
        read_split w front rear (rear - front) d (size - front) (omega arith) (omega arith),
        read_kept front (rear - front) (inl (omega arith)) (omega arith),
        append_assoc (read m front (rear - front)) (read w rear d) (read w 0 k),
        two_runs le,
      )

move_rear-front :
    (n : ℕ) (r : RingBuffer)
    → ((move_rear n r).1.front ≡ r.front)
      × ((move_rear n r).1.memory ≡ r.memory)
      × ((move_rear n r).1.buffer_size ≡ r.buffer_size)
unfolding move_rear
move_rear-front n r = elim (Bool-cases (ltb (free_size r) n)) [
  | inl full ↦ rw (move_rear, full) (refl, refl, refl)
  | inr fits ↦ elim (Bool-cases (leb n (direct_enqueue_size r))) [
    | inl one ↦ rw (move_rear, fits, one) (refl, refl, refl)
    | inr two ↦ rw (move_rear, fits, two) (refl, refl, refl)
  ]
]

move_rear-contents :
    (r : RingBuffer) (w : Memory) (src : List ℕ)
    → IsValid r
    → length src ≤ free_size r
    → IsFilled r.memory w r.rear (direct_enqueue_size r) src
    → let (n, r') = move_rear (length src) (record r { memory = w }) in
      (n ≡ length src) × (contents r' ≡ contents r ++ src) × IsValid r'
unfolding move_rear free_size use_size direct_enqueue_size
move_rear-contents r w src v fits h = elim (Bool-cases (leb (length src) (direct_enqueue_size r))) [
  | inl e ↦
      rw (le→ltb (free_size r) (length src) fits, e, move_rear)
        (ground (
          arith,
          rear_straight r.memory w r.buffer_size r.front r.rear (direct_enqueue_size r) src h,
          rear_end r.memory w r.buffer_size r.front r.rear (direct_enqueue_size r) src h,
          rear_wrapped r.memory w r.buffer_size r.front r.rear (direct_enqueue_size r) src h,
        ))
  | inr e ↦
      rw (le→ltb (free_size r) (length src) fits, e, move_rear)
        (ground
          (arith, rear_round r.memory w r.buffer_size r.front r.rear (direct_enqueue_size r) src h))
]

-- `MoveRear` appends the bytes that came to the free room, and the ring stays valid; the front, the
-- memory and the size of the allocation are left alone.
pub move_rear-IsFilled :
    (r : RingBuffer) (w : Memory) (src : List ℕ)
    → IsValid r
    → length src ≤ free_size r
    → IsFilled r.memory w r.rear (direct_enqueue_size r) src
    → let (n, r') = move_rear (length src) (record r { memory = w }) in
      (n ≡ length src)
      × (contents r' ≡ contents r ++ src)
      × IsValid r'
      × (r'.front ≡ r.front)
      × (r'.memory ≡ w)
      × (r'.buffer_size ≡ r.buffer_size)
move_rear-IsFilled r w src v fits h =
    let (n, c, v') = move_rear-contents r w src v fits h in
    let (front, memory, size) = move_rear-front (length src) (record r { memory = w }) in
    (n, c, v', front, memory, size)
