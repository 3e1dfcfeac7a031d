-- ===== src/TestProtocol/Codec.antt =====
-- internal/testprotocol/testprotocol.go: lists of bytes and the numbers in them.
use netring.Prelude.{
  ℕ, zero, suc, ◌+◌, ◌/◌, ◌<◌, ◌≤◌, ◌≡◌, refl, ap, List, [], ◌∷◌, ◌++◌, length, arith,
}
use netring.TestProtocol.{take, drop, le_bytes, from_le}

module _ {ℓ} {A : Type ℓ} where
  pub length-append : (xs ys : List A) → length (xs ++ ys) ≡ length xs + length ys
  length-append [] ys = omega arith
  length-append (x ∷ xs) ys = omega (arith, length-append xs ys)

  pub take-append : (n : ℕ) (xs ys : List A) → n ≤ length xs → take n (xs ++ ys) ≡ take n xs
  take-append zero xs ys enough = refl
  take-append (suc n) [] ys enough = absurd (omega arith)
  take-append (suc n) (x ∷ xs) ys enough = ap (λ l. x ∷ l) (take-append n xs ys (omega arith))

  pub drop-append : (n : ℕ) (xs ys : List A) → n ≤ length xs → drop n (xs ++ ys) ≡ drop n xs ++ ys
  drop-append zero xs ys enough = refl
  drop-append (suc n) [] ys enough = absurd (omega arith)
  drop-append (suc n) (x ∷ xs) ys enough = drop-append n xs ys (omega arith)

  pub take-length : (xs ys : List A) → take (length xs) (xs ++ ys) ≡ xs
  take-length [] ys = refl
  take-length (x ∷ xs) ys = ap (λ l. x ∷ l) (take-length xs ys)

  pub drop-length : (xs ys : List A) → drop (length xs) (xs ++ ys) ≡ ys
  drop-length [] ys = refl
  drop-length (x ∷ xs) ys = drop-length xs ys

pub length-le_bytes : (count value : ℕ) → length (le_bytes count value) ≡ count
unfolding le_bytes
length-le_bytes zero value = refl
length-le_bytes (suc count) value = ap suc (length-le_bytes count (value / 256))

-- The bytes of a number stand for it.
pub from_le-le_bytes-8 :
    (value : ℕ) → value < 18446744073709551616 → from_le (le_bytes 8 value) ≡ value
unfolding from_le le_bytes
from_le-le_bytes-8 value small = omega arith
