-- ===== src/Prelude/Memory.antt =====
-- Byte memory as the C++ code sees a buffer: a byte at each offset from the buffer's start, with
-- `memcpy` into it and out of it. Writes past an allocation are kept, so that a theorem can say
-- that none happens.
use iocpnet_module_mono_repo.Prelude.Lists.{length, get_or}
use iocpnet_module_mono_repo.Prelude.Tests.{leb, ltb, if◌then◌else◌}
use Prim.Native.Nat.{ℕ, zero, suc, ◌+◌, ◌-◌, ◌≤◌, ◌<◌}
use mathlib.Core.Path.{◌≡◌, refl, ap, ap₂, ◌∙◌}
use mathlib.Core.Logic.{◌⊎◌, inl, inr}
use mathlib.Core.Bool.{◌&&◌}
use mathlib.Core.List.{List, [], ◌∷◌, ◌++◌}
use native.Mathlib.Omega.{arith}

abbrev pub Memory : Type 0
Memory = ℕ → ℕ

-- `memcpy(buffer + off, src, n)`, with the `n` bytes of `src` as a list.
unfoldable pub copy_in : Memory → ℕ → List ℕ → Memory
copy_in m off src i = if leb off i && ltb i (off + length src) then get_or src (i - off) 0 else m i

-- `memcpy(dest, buffer + off, n)`, with what it puts in `dest` as a list.
unfoldable pub read : Memory → ℕ → ℕ → List ℕ
read m off zero = []
read m off (suc n) = m off ∷ read m (off + 1) n

pub length-read : (m : Memory) (off n : ℕ) → length (read m off n) ≡ n
unfolding read
length-read m off zero = refl
length-read m off (suc n) = ap suc (length-read m (off + 1) n)

pub read-append :
    (m : Memory) (off a b : ℕ) → read m off (a + b) ≡ read m off a ++ read m (off + a) b
unfolding read
read-append m off zero b = ap₂ (read m) (omega arith) (omega arith)
read-append m off (suc a) b =
    let shift : off + 1 + a ≡ off + suc a = omega arith in
    let count : suc a + b ≡ suc (a + b) = omega arith in
    rw (count, read)
      (ap (λ t. m off ∷ t)
        (read-append m (off + 1) a b ∙ ap (λ k. read m (off + 1) a ++ read m k b) shift))

-- A read in two parts, the second at a given offset.
pub read_split :
    (m : Memory) (off at a b n : ℕ)
    → n ≡ a + b
    → off + a ≡ at
    → read m off n ≡ read m off a ++ read m at b
read_split m off at a b n e f =
    ap (read m off) e ∙ read-append m off a b ∙ ap (λ k. read m off a ++ read m k b) f

-- Reads agree where the memories do.
pub read_ext :
    (m w : Memory) (off n : ℕ)
    → ((i : ℕ) → off ≤ i → i < off + n → m i ≡ w i)
    → read m off n ≡ read w off n
unfolding read
read_ext m w off zero h = refl
read_ext m w off (suc n) h =
    ap₂ ◌∷◌ (h off (omega arith) (omega arith))
      (read_ext m w (off + 1) n (λ i lo hi. h i (omega arith) (omega arith)))

pub in_run : (off n i : ℕ) → ((off ≤ i) × (i < off + n)) ⊎ ((i < off) ⊎ (off + n ≤ i))
in_run off n i = grind arith

pub copy_in_outside :
    (m : Memory) (off : ℕ) (src : List ℕ) (i : ℕ)
    → (i < off) ⊎ (off + length src ≤ i)
    → copy_in m off src i ≡ m i
unfolding copy_in
copy_in_outside m off src i h = ground arith

-- A copy does not disturb a read that it does not meet.
pub read-copy_in_disjoint :
    (m : Memory) (off : ℕ) (src : List ℕ) (at n : ℕ)
    → (at + n ≤ off) ⊎ (off + length src ≤ at)
    → read (copy_in m off src) at n ≡ read m at n
read-copy_in_disjoint m off src at n h =
    read_ext (copy_in m off src) m at n λ i lo hi. copy_in_outside m off src i (omega arith)

copy_in-cons :
    (m : Memory) (off x : ℕ) (xs : List ℕ) (i : ℕ)
    → off + 1 ≤ i
    → copy_in m off (x ∷ xs) i ≡ copy_in m (off + 1) xs i
unfolding copy_in
copy_in-cons m off x xs i h =
    let e : i - off ≡ suc (i - (off + 1)) = omega arith in rw e (ground arith)

copy_in-head : (m : Memory) (off x : ℕ) (xs : List ℕ) → copy_in m off (x ∷ xs) off ≡ x
unfolding copy_in
copy_in-head m off x xs = let e : off - off ≡ 0 = omega arith in rw e (ground arith)

-- What a copy puts down is read back.
pub read-copy_in :
    (m : Memory) (off : ℕ) (src : List ℕ) → read (copy_in m off src) off (length src) ≡ src
unfolding read
read-copy_in m off [] = refl
read-copy_in m off (x ∷ xs) = ap₂ ◌∷◌ (copy_in-head m off x xs) (
    read_ext _ (copy_in m (off + 1) xs) (off + 1) (length xs)
      (λ i lo hi. copy_in-cons m off x xs i lo)
    ∙ read-copy_in m (off + 1) xs)

get_or-read : (m : Memory) (off n j : ℕ) → j < n → get_or (read m off n) j 0 ≡ m (off + j)
unfolding read
get_or-read m off zero j h = elim h [ ]
get_or-read m off (suc n) zero h = ap m (omega arith)
get_or-read m off (suc n) (suc j) h =
    let shift : off + 1 + j ≡ off + suc j = omega arith in
    get_or-read m (off + 1) n j (omega arith) ∙ ap m shift

-- Inside the copied run stands what was read, elsewhere what was there.
pub copy_in-read_inside :
    (m w : Memory) (off n i : ℕ) → off ≤ i → i < off + n → copy_in w off (read m off n) i ≡ m i
unfolding copy_in
copy_in-read_inside m w off n i lo hi =
    let shift : off + (i - off) ≡ i = omega arith in
    let byte : get_or (read m off n) (i - off) 0 ≡ m i =
      get_or-read m off n (i - off) (omega arith) ∙ ap m shift in
    ground (arith, byte, length-read m off n)

pub copy_in-read :
    (m w : Memory) (off n i : ℕ)
    → ((j : ℕ) → (j < off) ⊎ (off + n ≤ j) → w j ≡ m j)
    → copy_in w off (read m off n) i ≡ m i
unfolding copy_in
copy_in-read m w off n i h = elim (in_run off n i) [
  | inl (lo, hi) ↦ copy_in-read_inside m w off n i lo hi
  | inr away ↦ ground (arith, length-read m off n, h i away)
]
