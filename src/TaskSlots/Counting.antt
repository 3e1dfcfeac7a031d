-- ===== src/TaskSlots/Counting.antt =====
-- How the operations on the words of a bitmap change the number of their bits.
use netring.Prelude.{
  ℕ, zero, suc, ◌+◌, ◌<◌, ◌≡◌, refl, true, false, not, xor, arith, bit, count_below, sum_below,
  sum_below-change,
}
use netring.TaskSlots.Words.{Word, zero_word, set_bit, ones}
use netring.TaskSlots.Invariant.{clear}

pub clear-xor :
    (n : ℕ) (w p : Word)
    → ((k : ℕ) → p k ≡ true → w k ≡ true)
    → count_below n (λ k. not (xor (w k) (p k))) ≡ count_below n (λ k. not (w k)) + count_below n p
unfolding sum_below
clear-xor zero w p h = omega arith
clear-xor (suc n) w p h = ground (arith, clear-xor n w p h, h n)

pub ones-zero : (n : ℕ) → count_below n zero_word ≡ 0
unfolding sum_below
ones-zero zero = refl
ones-zero (suc n) = omega (arith, ones-zero n)

pub clear-set_bit : (b : ℕ) (w : Word) → b < 64 → w b ≡ false → clear (set_bit b w) + 1 ≡ clear w
clear-set_bit b w h e =
    let same = sum_below-change 64 (λ k. bit (not (w k))) (λ k. bit (not (set_bit b w k))) b h in
    ground (arith, same (λ j q. rw q))

pub ones-set_bit : (b : ℕ) (w : Word) → b < 64 → w b ≡ false → ones (set_bit b w) ≡ ones w + 1
ones-set_bit b w h e =
    let same = sum_below-change 64 (λ k. bit (w k)) (λ k. bit (set_bit b w k)) b h in
    ground (arith, same (λ j q. rw q))
