-- ===== src/Encoder/Checksum.antt =====
-- `CalculateChecksum` as a sum modulo 256.
use iocpnet_module_mono_repo.Prelude.{ℕ, ◌+◌, ◌%◌, ◌^◌, ◌<◌, ◌≡◌, List, [], ◌∷◌, ◌++◌, arith}
use iocpnet_module_mono_repo.Encoder.{checksum_from, calculate_checksum}

-- The plain sum of the bytes.
pub total : List ℕ → ℕ
total [] = 0
total (b ∷ bs) = b + total bs

total-append : (xs ys : List ℕ) → total (xs ++ ys) ≡ total xs + total ys
unfolding total
total-append [] ys = omega arith
total-append (x ∷ xs) ys = omega (arith, total-append xs ys)

checksum_from-total : (sum : ℕ) (bs : List ℕ) → checksum_from sum bs ≡ (sum + total bs) % 256
unfolding checksum_from total
checksum_from-total sum [] = omega arith
checksum_from-total sum (b ∷ bs) = omega (arith, checksum_from-total ((sum + b) % 2 ^ 32) bs)

pub checksum-total : (bs : List ℕ) → calculate_checksum bs ≡ total bs % 256
unfolding calculate_checksum
checksum-total bs = omega (arith, checksum_from-total 0 bs)

-- A single changed byte changes the checksum, wherever it stands: equal checksums of two
-- byte strings that differ in one place at most mean equal bytes in that place.
pub checksum_detects_one :
    (xs ys : List ℕ) (a b : ℕ)
    → a < 256
    → b < 256
    → calculate_checksum (xs ++ a ∷ ys) ≡ calculate_checksum (xs ++ b ∷ ys)
    → a ≡ b
unfolding total
checksum_detects_one xs ys a b ha hb e = omega (
  arith,
  checksum-total (xs ++ a ∷ ys),
  checksum-total (xs ++ b ∷ ys),
  total-append xs (a ∷ ys),
  total-append xs (b ∷ ys),
)

-- A checksum is a byte.
pub checksum_is_byte : (sum : ℕ) (bs : List ℕ) → checksum_from sum bs < 256
unfolding checksum_from
checksum_is_byte sum [] = omega arith
checksum_is_byte sum (b ∷ bs) = checksum_is_byte ((sum + b) % 2 ^ 32) bs
