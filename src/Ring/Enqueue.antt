-- ===== src/Ring/Enqueue.antt =====
-- Writing to a ring: `Enqueue` puts the bytes into the free room and moves the rear past them.
use iocpnet_module_mono_repo.Prelude.{
  ℕ, ◌-◌, ◌≤◌, ◌<◌, ◌≡◌, ◌∙◌, List, ◌++◌, arith, length, min, take, drop, length-take, length-drop,
  take-append-drop, append-nil, inl, inr, leb, Bool-cases, ltb, lt→ltb, le→ltb, if◌then◌else◌,
}
use iocpnet_module_mono_repo.Prelude.Memory.{
  Memory, copy_in, read, read-copy_in, read-copy_in_disjoint, copy_in_outside, read_ext,
}
use iocpnet_module_mono_repo.Ring.{
  RingBuffer, free_size, use_size, direct_enqueue_size, enqueue, move_rear,
}
use iocpnet_module_mono_repo.Ring.Contents.{IsValid, contents, sizes_lem}
use iocpnet_module_mono_repo.Ring.Posted.{IsFilled, move_rear-IsFilled}

-- The memory after the one or two copies of `Enqueue`.
placed : List ℕ → RingBuffer → Memory
placed src r =
    let d = direct_enqueue_size r in
    if leb (length src) d
    then copy_in r.memory r.rear src
    else copy_in (copy_in r.memory r.rear (take d src)) 0 (drop d src)

enqueue-move_rear :
    (src : List ℕ) (r : RingBuffer)
    → length src ≤ free_size r
    → enqueue src r ≡ move_rear (length src) (record r { memory = placed src r })
unfolding enqueue move_rear placed free_size use_size direct_enqueue_size
enqueue-move_rear src r fits = elim (Bool-cases (leb (length src) (direct_enqueue_size r))) [
  | inl e ↦ rw (le→ltb (free_size r) (length src) fits, e, enqueue, move_rear, placed)
  | inr e ↦ rw (le→ltb (free_size r) (length src) fits, e, enqueue, move_rear, placed)
]

one_copy :
    (m : Memory) (rear d : ℕ) (src : List ℕ)
    → length src ≤ d
    → IsFilled m (copy_in m rear src) rear d src
unfolding read
one_copy m rear d src le =
    let count : min (length src) d ≡ length src = omega arith in
    let rest : length src - d ≡ 0 = omega arith in
    record {
      bytes = rw (count, rest, append-nil) (read-copy_in m rear src);
      kept = λ i away high. copy_in_outside m rear src i (omega arith);
    }

two_copies :
    (m : Memory) (rear d : ℕ) (src : List ℕ)
    → d ≤ length src
    → length src - d ≤ rear
    → IsFilled m (copy_in (copy_in m rear (take d src)) 0 (drop d src)) rear d src
two_copies m rear d src le low =
    let first : List ℕ = take d src in
    let rest : List ℕ = drop d src in
    let count : min (length src) d ≡ d = omega arith in
    let first_length : length first ≡ d = omega (arith, length-take d src) in
    let rest_length : length rest ≡ length src - d = length-drop d src in
    let at_rear : read (copy_in (copy_in m rear first) 0 rest) rear d ≡ first =
      read-copy_in_disjoint (copy_in m rear first) 0 rest rear d (inr (omega arith))
      ∙ rw first_length at (read-copy_in m rear first) in
    let at_start : read (copy_in (copy_in m rear first) 0 rest) 0 (length src - d) ≡ rest =
      rw rest_length at (read-copy_in (copy_in m rear first) 0 rest) in
    record {
      bytes = rw (count, at_rear, at_start) (take-append-drop d src);
      kept = λ i away high.
          copy_in_outside (copy_in m rear first) 0 rest i (omega arith)
          ∙ copy_in_outside m rear first i (omega arith);
    }

placed-IsFilled :
    (src : List ℕ) (r : RingBuffer)
    → IsValid r
    → length src ≤ free_size r
    → IsFilled r.memory (placed src r) r.rear (direct_enqueue_size r) src
unfolding placed free_size use_size
placed-IsFilled src r v fits = elim (Bool-cases (leb (length src) (direct_enqueue_size r))) [
  | inl e ↦ rw e (one_copy r.memory r.rear (direct_enqueue_size r) src (ground arith))
  | inr e ↦ rw e (
      two_copies r.memory r.rear (direct_enqueue_size r) src (ground arith)
        (unfold direct_enqueue_size in ground arith))
]

memory-move_rear : (n : ℕ) (r : RingBuffer) → (move_rear n r).1.memory ≡ r.memory
unfolding move_rear
memory-move_rear n r = elim (Bool-cases (ltb (free_size r) n)) [
  | inl e ↦ rw (e, move_rear)
  | inr e ↦ elim (Bool-cases (leb n (direct_enqueue_size r))) [
    | inl f ↦ rw (e, f, move_rear)
    | inr f ↦ rw (e, f, move_rear)
  ]
]

-- What fits is appended to the bytes held, in order; the ring stays valid, and the bytes behind
-- the allocation, however many are looked at, are as they were.
pub enqueue_lem :
    (src : List ℕ) (r : RingBuffer) (behind : ℕ)
    → IsValid r
    → length src ≤ free_size r
    → let (n, r') = enqueue src r in
      (n ≡ length src)
      × (contents r' ≡ contents r ++ src)
      × IsValid r'
      × (read r'.memory r.buffer_size behind ≡ read r.memory r.buffer_size behind)
enqueue_lem src r behind v fits =
    let w : Memory = placed src r in
    let filled : IsFilled r.memory w r.rear (direct_enqueue_size r) src =
      placed-IsFilled src r v fits in
    let moved = move_rear-IsFilled r w src v fits filled in
    let sizes = sizes_lem r v in
    rw (enqueue-move_rear src r fits) (
      moved.0,
      moved.1,
      moved.2,
      rw (memory-move_rear (length src) (record r { memory = w })) (
          read_ext w r.memory r.buffer_size behind λ i lo hi.
            filled.kept i (omega (arith, v.rear_in, sizes)) (omega (arith, v.rear_in, sizes))),
    )

-- What does not fit is refused whole: the count is 0 and the ring is as it was.
pub enqueue_full :
    (src : List ℕ) (r : RingBuffer) → free_size r < length src → enqueue src r ≡ (0, r)
unfolding enqueue
enqueue_full src r h = rw (lt→ltb (free_size r) (length src) h)
