-- ===== src/Prelude/Bits.antt =====
-- `^` and `|` on native numbers, one binary digit at a time: exclusive or undoes itself and
-- commutes with the truncation to a word, and `|` of disjoint fields is a sum.
use Prim.Native.Nat.{
  ℕ, zero, suc, ◌+◌, ◌*◌, ◌/◌, ◌%◌, ◌^◌, ◌≤◌, ◌<◌, max, bit_or, bit_xor, digits, differ,
  bit_or-bitwise, bit_xor-bitwise,
}
use iocpnet_module_mono_repo.Prelude.Tests.{lt-or-ge}
use mathlib.Core.Logic.{inl, inr}
use mathlib.Core.Path.{◌≡◌, refl, ◌∙◌}
use native.Mathlib.Nat.{pow-suc, one-le-pow, div-add-mod, add-mul-mod_self_left, mod-eq_of_lt}
use native.Mathlib.Omega.{arith}

differ_digit : (x y : ℕ) → x < 2 → y < 2 → differ x y ≡ (x + y) % 2
differ_digit zero y h k = omega arith
differ_digit (suc zero) zero h k = refl
differ_digit (suc zero) (suc y) h k = let e : y ≡ 0 = omega arith in rw e
differ_digit (suc (suc x)) y h k = absurd (omega arith)

-- One loop serves both operations: fuel beyond the number itself changes nothing.
module _ (digit : ℕ → ℕ → ℕ) where
  digits_more :
      (n a b : ℕ) → a ≤ n → digits (λ b. b) digit (suc n) a b ≡ digits (λ b. b) digit n a b
  digits_more n zero b h = no_digits n b
    where
      no_digits : (n b : ℕ) → digits (λ b. b) digit (suc n) 0 b ≡ digits (λ b. b) digit n 0 b
      no_digits zero b = refl
      no_digits (suc n) b = refl
  digits_more zero (suc a) b h = absurd (omega arith)
  digits_more (suc n) (suc a) b h = omega (arith, digits_more n (suc a / 2) (b / 2) (omega arith))

  digits_up :
      (n low a b : ℕ)
      → a ≤ low
      → low ≤ n
      → digits (λ b. b) digit n a b ≡ digits (λ b. b) digit low a b
  digits_up zero low a b h k = let e : low ≡ 0 = omega arith in rw e refl
  digits_up (suc n) low a b h k = elim (lt-or-ge n low) [
    | inl last ↦ let e : low ≡ suc n = omega arith in rw e refl
    | inr within ↦ digits_more n a b (omega arith) ∙ digits_up n low a b h within
  ]

zero-bit_xor : (b : ℕ) → bit_xor 0 b ≡ b
zero-bit_xor b = bit_xor-bitwise 0 b

pub bit_xor_step : (a b : ℕ) → bit_xor a b ≡ bit_xor (a / 2) (b / 2) * 2 + (a % 2 + b % 2) % 2
bit_xor_step zero b = omega (arith, zero-bit_xor b, zero-bit_xor (b / 2))
bit_xor_step (suc a) b = omega (
  arith,
  bit_xor-bitwise (suc a) b,
  bit_xor-bitwise (suc a / 2) (b / 2),
  digits_up differ a (suc a / 2) (suc a / 2) (b / 2) (omega arith) (omega arith),
  differ_digit (suc a % 2) (b % 2) (omega arith) (omega arith),
)

zero-bit_or : (b : ℕ) → bit_or 0 b ≡ b
zero-bit_or b = bit_or-bitwise 0 b

bit_or_step : (a b : ℕ) → bit_or a b ≡ max (a % 2) (b % 2) + 2 * bit_or (a / 2) (b / 2)
bit_or_step zero b = omega (arith, zero-bit_or b, zero-bit_or (b / 2))
bit_or_step (suc a) b = omega (
  arith,
  bit_or-bitwise (suc a) b,
  bit_or-bitwise (suc a / 2) (b / 2),
  digits_up max a (suc a / 2) (suc a / 2) (b / 2) (omega arith) (omega arith),
)

-- The truncation of a shifted number, digit by digit.
mod_double : (m y d : ℕ) → 0 < m → d < 2 → (y * 2 + d) % (2 * m) ≡ y % m * 2 + d
mod_double m y d h k =
    let split : y * 2 + d ≡ y % m * 2 + d + 2 * m * (y / m) = omega (arith, div-add-mod y m) in
    rw (split, add-mul-mod_self_left (y % m * 2 + d) (2 * m) (y / m)) (mod-eq_of_lt (omega arith))

pow_double : (k : ℕ) → 2 ^ suc k ≡ 2 * 2 ^ k
pow_double k = omega (arith, pow-suc 2 k)

-- The word of `suc k` digits: its last digit, and the word of the others.
xor_word :
    (k a b : ℕ)
    → bit_xor a b % 2 ^ suc k ≡ bit_xor (a / 2) (b / 2) % 2 ^ k * 2 + (a % 2 + b % 2) % 2
xor_word k a b =
    rw (bit_xor_step a b, pow_double k)
      (mod_double (2 ^ k) (bit_xor (a / 2) (b / 2)) _ (one-le-pow k 2 (omega arith)) (omega arith))

-- Adding a key and adding it again gives a word back, though each result is cut to the word.
pub xor_twice_word : (k a key : ℕ) → a < 2 ^ k → bit_xor (bit_xor a key % 2 ^ k) key % 2 ^ k ≡ a
xor_twice_word zero a key h = omega arith
xor_twice_word (suc k) a key h =
    let y : ℕ = bit_xor (a / 2) (key / 2) % 2 ^ k in
    let d : ℕ = (a % 2 + key % 2) % 2 in
    let half : (y * 2 + d) / 2 ≡ y = omega arith in
    let digit : ((y * 2 + d) % 2 + key % 2) % 2 ≡ a % 2 = omega arith in
    let ih : bit_xor y (key / 2) % 2 ^ k ≡ a / 2 =
      xor_twice_word k (a / 2) (key / 2) (omega (arith, pow_double k)) in
    rw (xor_word k a key, xor_word k (y * 2 + d) key, half, digit, ih) (omega arith)

bit_or-zero : (n a : ℕ) → a ≤ n → bit_or a 0 ≡ a
bit_or-zero n zero h = refl
bit_or-zero zero (suc a) h = absurd (omega arith)
bit_or-zero (suc n) (suc a) h =
    omega (arith, bit_or_step (suc a) 0, bit_or-zero n (suc a / 2) (omega arith))

-- `(q << k) | r` is a sum when `r` has at most `k` digits.
pub bit_or_fields : (k q r : ℕ) → r < 2 ^ k → bit_or (q * 2 ^ k) r ≡ q * 2 ^ k + r
bit_or_fields zero q r h =
    let e : r ≡ 0 = omega arith in
    rw e (bit_or-zero (q * 2 ^ 0) (q * 2 ^ 0) (omega arith) ∙ omega arith)
bit_or_fields (suc k) q r h =
    let scaled : q * 2 ^ suc k ≡ q * 2 ^ k * 2 = rw (pow_double k) (omega arith) in
    let half : q * 2 ^ k * 2 / 2 ≡ q * 2 ^ k = omega arith in
    rw (scaled, bit_or_step (q * 2 ^ k * 2) r, half)
      (omega (arith, bit_or_fields k q (r / 2) (omega (arith, pow_double k))))
