-- ===== src/TaskSlots/Words.antt =====
-- A uint64 of a slot bitmap, as its 64 bits: bit k of the word is `w k`, and the bits from 64 on
-- are never read. The operations are those of math/bits and sync/atomic that the bitmaps use.
use netring.Prelude.{
  ℕ, zero, suc, ◌+◌, ◌≤◌, ◌<◌, ◌≡◌, Bool, true, false, not, xor, ◌&&◌, arith, ◌==◌, if◌then◌else◌,
  update, count_below, Bool-cases, inl, inr,
}

abbrev pub Word : Type 0
Word = ℕ → Bool

abbrev pub zero_word : Word
zero_word _ = false

-- `w | 1<<k`
abbrev pub set_bit : ℕ → Word → Word
set_bit k w = update w k true

-- `w ^ v`
abbrev pub xor_word : Word → Word → Word
xor_word w v k = xor (w k) (v k)

-- bits.OnesCount64(w)
abbrev pub ones : Word → ℕ
ones w = count_below 64 w

-- `w == 0`, of the lowest n bits
unfoldable pub is_zero_below : ℕ → Word → Bool
is_zero_below zero w = true
is_zero_below (suc n) w = not (w n) && is_zero_below n w

-- bits.TrailingZeros64(math.MaxUint64 ^ w): the first clear bit from i on, or i + n if the n bits
-- from i on are all set
unfoldable pub first_clear : ℕ → ℕ → Word → ℕ
first_clear zero i w = i
first_clear (suc n) i w = if w i then first_clear n (i + 1) w else i

pub first_clear-clear :
    (n i : ℕ) (w : Word) → first_clear n i w < i + n → w (first_clear n i w) ≡ false
unfolding first_clear
first_clear-clear zero i w h = absurd (omega arith)
first_clear-clear (suc n) i w h = ground (arith, first_clear-clear n (i + 1) w)

pub first_clear-le : (n i : ℕ) (w : Word) → first_clear n i w ≤ i + n
unfolding first_clear
first_clear-le zero i w = omega arith
first_clear-le (suc n) i w = ground (arith, first_clear-le n (i + 1) w)

-- A clear bit in the range is found.
pub first_clear-lt :
    (n i k : ℕ) (w : Word) → i ≤ k → k < i + n → w k ≡ false → first_clear n i w < i + n
unfolding first_clear
first_clear-lt zero i k w p q h = absurd (omega arith)
first_clear-lt (suc n) i k w p q h = elim (Bool-cases (i == k)) [
  | inl e ↦ ground arith
  | inr e ↦ ground (arith, first_clear-lt n (i + 1) k w)
]

pub is_zero-bit : (n k : ℕ) (w : Word) → is_zero_below n w ≡ true → k < n → w k ≡ false
unfolding is_zero_below
is_zero-bit zero k w h p = absurd (omega arith)
is_zero-bit (suc n) k w h p = elim (Bool-cases (n == k)) [
  | inl e ↦ ground arith
  | inr e ↦ ground (arith, is_zero-bit n k w)
]

-- A word that is not zero has a bit.
pub nonzero-bit : (n : ℕ) (w : Word) → is_zero_below n w ≡ false → (k : ℕ) × (k < n) × (w k ≡ true)
unfolding is_zero_below
nonzero-bit zero w h = absurd (ground arith)
nonzero-bit (suc n) w h = elim (Bool-cases (w n)) [
  | inl e ↦ (n, omega arith, e)
  | inr e ↦ let (k, p, q) = nonzero-bit n w (ground arith) in (k, omega arith, q)
]
