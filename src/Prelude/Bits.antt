-- ===== src/Prelude/Bits.antt =====
-- The functions of math/bits that the source calls, on numbers below 2 ^ n.
use Prim.Native.Nat.{ℕ, zero, suc, ◌+◌, ◌/◌, ◌%◌, ◌^◌, ◌<◌}
use mathlib.Core.Path.{◌≡◌}
use mathlib.Core.Logic.{inl, inr}
use native.Mathlib.Omega.{arith}
use native.Mathlib.Nat.{pow-suc}
use netring.Prelude.Tests.{◌==◌, if◌then◌else◌, Bool-cases}

-- bits.OnesCount of a number below 2 ^ n
unfoldable pub ones_count : ℕ → ℕ → ℕ
ones_count zero x = 0
ones_count (suc n) x = x % 2 + ones_count n (x / 2)

-- bits.TrailingZeros64 of a number below 2 ^ n; n if it is zero
unfoldable pub trailing_zeros : ℕ → ℕ → ℕ
trailing_zeros zero x = 0
trailing_zeros (suc n) x = if x % 2 == 1 then 0 else suc (trailing_zeros n (x / 2))

ones_count-zero : (n x : ℕ) → x < 2 ^ n → ones_count n x ≡ 0 → x ≡ 0
unfolding ones_count
ones_count-zero zero x small h = omega arith
ones_count-zero (suc n) x small h =
    omega (arith, pow-suc 2 n, ones_count-zero n (x / 2) (omega (arith, pow-suc 2 n)) (omega arith))

-- One bit set: a power of two, and the exponent is the number of zeros below it.
pub ones_count-one :
    (n x : ℕ)
    → x < 2 ^ n
    → ones_count n x ≡ 1
    → (x ≡ 2 ^ trailing_zeros n x) × (trailing_zeros n x < n)
unfolding ones_count trailing_zeros
ones_count-one zero x small h = absurd (omega arith)
ones_count-one (suc n) x small h = elim (Bool-cases (x % 2 == 1)) [
  | inl odd ↦
      let none_left = ones_count-zero n (x / 2) (omega (arith, pow-suc 2 n)) (ground arith) in
      rw odd (ground arith, omega arith)
  | inr even ↦
      let (half, lt) = ones_count-one n (x / 2) (omega (arith, pow-suc 2 n)) (ground arith) in
      rw even (ground (arith, pow-suc 2 (trailing_zeros n (x / 2))), omega arith)
]
