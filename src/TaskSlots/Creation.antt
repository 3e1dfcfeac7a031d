-- ===== src/TaskSlots/Creation.antt =====
-- New: which capacities it takes, and the table that it makes.
use netring.Prelude.{
  ℕ, ◌+◌, ◌-◌, ◌*◌, ◌/◌, ◌%◌, ◌^◌, ◌≤◌, ◌<◌, ◌≡◌, ◌≢◌, ◌&&◌, [], sym, ap, refl, Bool, true, false,
  ◌||◌, arith, ◌==◌, ltb, leb, holds_below, holds_below-true, sum_below, sum_below-const,
  ones_count, trailing_zeros, ones_count-one, Bool-cases, inl, inr,
}
use netring.TaskSlots.Words.{zero_word, ones}
use netring.TaskSlots.{Slots, ok, new, pending}
use netring.TaskSlots.Invariant.{clear, Inv, Wraps}

-- The arithmetic of the sizes, for each exponent that New takes.
sizes : ℕ → Bool
sizes k =
    ltb k 12
    || ((2 ^ (70 - k) * (2 ^ k / 64) == 2 ^ 64)
        && (2 ^ k / 64 * 64 == 2 ^ k)
        && (2 ^ (k + 1) * (2 ^ (63 - k) - 1 + 1) == 2 ^ 64))

sizes-table : holds_below sizes 63 ≡ true
unfolding holds_below sizes
sizes-table = refl

abbrev Sizes : ℕ → Type 0
Sizes k =
    (2 ^ 64 ≡ 2 ^ (70 - k) * (2 ^ k / 64))
    × (2 ^ k ≡ 2 ^ k / 64 * 64)
    × (2 ^ 64 ≡ 2 ^ (k + 1) * (2 ^ (63 - k) - 1 + 1))

exponents_hold : (k : ℕ) → 12 ≤ k → k < 63 → Sizes k
unfolding sizes
exponents_hold k lo hi = let checked = holds_below-true sizes 63 hi sizes-table in ground arith

clear-zero : clear zero_word ≡ 64
unfolding sum_below
clear-zero = refl

ones-zero : ones zero_word ≡ 0
unfolding sum_below
ones-zero = refl

small_powers : (k : ℕ) → k < 12 → 2 ^ k < 4096
unfolding holds_below
small_powers k h =
    let checked = holds_below-true (λ k. ltb (2 ^ k) 4096) 12 h small_powers-table in ground arith
  where
    small_powers-table : holds_below (λ k. ltb (2 ^ k) 4096) 12 ≡ true
    small_powers-table = refl

abbrev fits_ids : ℕ → Bool
fits_ids k = leb (2 ^ (63 - k) - 1 + 2 ^ k) (2 ^ 63)

fits_ids-table : holds_below fits_ids 63 ≡ true
unfolding holds_below
fits_ids-table = refl

fits_ids-le : (k : ℕ) → fits_ids k ≡ true → 2 ^ (63 - k) - 1 + 2 ^ k ≤ 2 ^ 63
fits_ids-le k h = ground arith

-- A capacity that New takes.
pub record IsCapacity (capacity : ℕ) : Type 0 where
  pub one_bit : ones_count 64 capacity ≡ 1
  pub enough : 4096 ≤ capacity
  pub positive : capacity < 2 ^ 63

module _ {ℓ} {T : Type ℓ} (nil : T) (capacity : ℕ) where
  abbrev k : ℕ
  k = trailing_zeros 64 capacity

  abbrev pub words : ℕ
  words = capacity / 64

  abbrev pub made : Slots T
  made = record {
    cap = capacity;
    tasks = λ _. nil;
    bitmap = λ _. zero_word;
    poller_bitmap = λ _. zero_word;
    bitmap_len_mask = capacity / 64 - 1;
    wave = 0;
    free = capacity;
    del_count = 0;
    last_del_count = 0;
    fallback_mask = 2 ^ (63 - k) - 1;
    fallback = [];
    fallback_wave = 0;
  }

  module _ (c : IsCapacity capacity) where
    exponent : (capacity ≡ 2 ^ k) × (12 ≤ k) × (k < 63)
    exponent =
        let (is_power, lt) = ones_count-one 64 capacity (omega (arith, c.positive)) c.one_bit in
        let not_last : k ≢ 63 =
          λ e. let top = ap (λ (n : ℕ). 2 ^ n) e in omega (arith, is_power, top, c.positive) in
        let not_small : ltb k 12 ≡ false = elim (Bool-cases (ltb k 12)) [
          | inl e ↦ absurd (omega (arith, c.enough, is_power, small_powers k (ground arith)))
          | inr e ↦ e
        ] in
        (is_power, ground arith, omega arith)

    -- The indices of the fallback map are task ids.
    pub made-bounds : made.fallback_mask + made.cap ≤ 2 ^ 63
    made-bounds =
        let (is_power, lo, hi) = exponent in
        let checked = holds_below-true fits_ids 63 hi fits_ids-table in
        omega (arith, is_power, fits_ids-le k checked)

    none_made : sum_below words (λ _. ones zero_word) ≡ 0
    none_made =
        omega (arith, sum_below-const words (ones zero_word), ap (λ (x : ℕ). words * x) ones-zero)

    sum_made : capacity ≡ sum_below words (λ _. clear zero_word)
    sum_made =
        let (is_power, lo, hi) = exponent in
        let whole = rw (← is_power) at (exponents_hold k lo hi).1 in
        omega (
          arith,
          whole,
          sum_below-const words (clear zero_word),
          ap (λ (x : ℕ). words * x) clear-zero,
        )

    pub made-Inv : Inv words (2 ^ (70 - k)) made
    unfolding pending
    made-Inv =
        let (is_power, lo, hi) = exponent in
        let (ring, whole, _) = exponents_hold k lo hi in
        record {
          some_words = omega (arith, c.enough);
          ring = rw (← is_power) at ring;
          capacity = rw (← is_power) at whole;
          bounded = c.positive;
          mask = omega (arith, c.enough);
          wave_fits = omega arith;
          counts_fit = omega arith;
          released = λ i j e. cc;
          free_slots = sum_made;
          pending_slots = sym none_made;
        }

    pub made-Wraps : Wraps (2 ^ (k + 1)) made
    made-Wraps =
        let (_, lo, hi) = exponent in
        record { ring = (exponents_hold k lo hi).2; fits = omega arith }

    pub new-made : (sizeof : ℕ) → sizeof ≢ 0 → sizeof % 8 ≡ 0 → new sizeof nil capacity ≡ ok made
    unfolding new
    new-made sizeof p q = ground (arith, c.one_bit, c.enough, c.positive)

  -- New takes no other.
  pub new-ok :
      (sizeof : ℕ) {s : Slots T}
      → new sizeof nil capacity ≡ ok s
      → IsCapacity capacity × (sizeof ≢ 0) × (sizeof % 8 ≡ 0)
  unfolding new
  new-ok sizeof h = (
    record { one_bit = ground arith; enough = ground arith; positive = ground arith },
    ground arith,
    ground arith,
  )
