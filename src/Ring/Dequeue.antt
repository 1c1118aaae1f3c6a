-- ===== src/Ring/Dequeue.antt =====
-- Reading from a ring: `Peek`, `MoveFront` and `Dequeue`.
use iocpnet_module_mono_repo.Prelude.{
  ℕ, ◌+◌, ◌-◌, ◌%◌, ◌≤◌, ◌<◌, ◌≡◌, refl, ap, ◌++◌, arith, length, min, length-append, append_assoc,
  inl, inr, leb, Bool-cases,
}
use native.Mathlib.Nat.{mod_self, mod-eq_of_lt}
use iocpnet_module_mono_repo.Prelude.Memory.{Memory, read, read_split, length-read}
use iocpnet_module_mono_repo.Ring.{
  RingBuffer, use_size, direct_dequeue_size, served, peek, move_front, dequeue,
}
use iocpnet_module_mono_repo.Ring.Contents.{IsValid, span, contents, span_straight, span_wrapped}

-- One call of `Dequeue` is a `Peek` and a `MoveFront` of the same size.
pub dequeue-peek-move_front :
    (size : ℕ) (r : RingBuffer)
    → (dequeue size r ≡ ((peek size r).0, (peek size r).1, (move_front size r).1))
      × ((move_front size r).0 ≡ (peek size r).0)
unfolding dequeue peek move_front
dequeue-peek-move_front size r = ground arith

module _ (m : Memory) (size : ℕ) where
  -- The three ways in which the front moves past `n` bytes.
  front_straight :
      (front rear n : ℕ)
      → front + n ≤ rear
      → rear < size
      → span m size front rear ≡ read m front n ++ span m size ((front + n) % size) rear
  front_straight front rear n h k =
      rw
        (
          mod-eq_of_lt {n = front + n} {m = size} (omega arith),
          span_straight m size front rear (omega arith),
          span_straight m size (front + n) rear h,
        )
        (read_split m front (front + n) n (rear - (front + n)) (rear - front) (omega arith) refl)

  front_wrapped :
      (front rear n : ℕ)
      → front + n < size
      → rear < front
      → span m size front rear ≡ read m front n ++ span m size ((front + n) % size) rear
  front_wrapped front rear n h w =
      rw
        (
          mod-eq_of_lt h,
          span_wrapped m size front rear w,
          span_wrapped m size (front + n) rear (omega arith),
          read_split m front (front + n) n (size - (front + n)) (size - front) (omega arith) refl,
        )
        (append_assoc (read m front n) _ _)

  front_round :
      (front rear k : ℕ)
      → k ≤ rear
      → rear < front
      → front < size
      → span m size front rear
        ≡ (read m front (size - front) ++ read m 0 k) ++ span m size (k % size) rear
  front_round front rear k h w b = rw (
    mod-eq_of_lt {n = k} {m = size} (omega arith),
    span_wrapped m size front rear w,
    span_straight m size k rear h,
    append_assoc (read m front (size - front)) (read m 0 k) (read m k (rear - k)),
    read_split m 0 k k (rear - k) rear (omega arith) (omega arith),
  )

  front_end :
      (front rear n : ℕ)
      → rear < front
      → front + n ≡ size
      → span m size front rear ≡ read m front n ++ span m size ((front + n) % size) rear
  front_end front rear n w e =
      let count : n ≡ size - front = omega arith in
      let home : (front + n) % size ≡ 0 = rw e (mod_self size) in
      let tail : rear ≡ rear - 0 = omega arith in
      rw (home, count, span_wrapped m size front rear w, span_straight m size 0 rear (omega arith))
        (ap (λ k. read m front (size - front) ++ read m 0 k) tail)

-- `Dequeue` takes the oldest bytes, as many as are asked for and held, in order, and leaves the
-- others; the ring stays valid.
pub dequeue_lem :
    (size : ℕ) (r : RingBuffer)
    → IsValid r
    → let (n, out, r') = dequeue size r in
      (n ≡ min size (use_size r))
      × (length out ≡ n)
      × (contents r ≡ out ++ contents r')
      × IsValid r'
unfolding dequeue use_size direct_dequeue_size
dequeue_lem size r v = elim (Bool-cases (leb (served size r) (direct_dequeue_size r))) [
  | inl e ↦
      rw (e, dequeue)
        (ground (
          arith,
          front_straight m s f b (served size r),
          front_wrapped m s f b (served size r),
          front_end m s f b (served size r),
          length-read m f (served size r),
        ))
  | inr e ↦
      rw (e, dequeue)
        (ground (
          arith,
          front_round m s f b (served size r - (s - f)),
          length-read m f (s - f),
          length-read m 0 (served size r - (s - f)),
          length-append (read m f (s - f)) (read m 0 (served size r - (s - f))),
        ))
]
  where
    open r use {memory as m, buffer_size as s, front as f, rear as b}
