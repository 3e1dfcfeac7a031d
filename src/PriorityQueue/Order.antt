-- ===== src/PriorityQueue/Order.antt =====
-- internal/pqueue/pqueue.go: the order of the entries by weight.
use netring.Prelude.{
  ℕ, zero, suc, ◌<◌, ◌≡◌, Bool, swap, ap-swap, ℤ, ◌≤ℤ◌, arith, ◌∙◌, bit, sum_below-swap,
  count_below,
}
use mathlib.Core.Path.{fun_ext}
use netring.PriorityQueue.{QueueSlot, parent_idx}

abbrev pub weights {ℓ} : {T : Type ℓ} → (ℕ → QueueSlot T) → ℕ → ℤ
weights d i = (d i).weight

-- the number of the first n entries that pass the test
abbrev pub count_slots {ℓ} :
    {T : Type ℓ} → (n : ℕ) (test : QueueSlot T → Bool) → (ℕ → QueueSlot T) → ℕ
count_slots n test d = count_below n (λ i. test (d i))

-- No entry weighs less than its parent.
abbrev pub IsOrdered {ℓ} : {T : Type ℓ} → ℕ → (ℕ → QueueSlot T) → Type 0
IsOrdered n d = (c : ℕ) → 0 < c → c < n → (d (parent_idx c)).weight ≤ℤ (d c).weight

-- The root weighs the least.
pub root-le {ℓ} :
    {T : Type ℓ} (fuel n : ℕ) (d : ℕ → QueueSlot T) (i : ℕ)
    → IsOrdered n d
    → i < fuel
    → i < n
    → (d 0).weight ≤ℤ (d i).weight
root-le zero n d i ordered enough inside = absurd (omega arith)
root-le (suc fuel) n d zero ordered enough inside = omega arith
root-le (suc fuel) n d (suc i) ordered enough inside =
    let above : (d 0).weight ≤ℤ (d (parent_idx (suc i))).weight =
      root-le fuel n d (parent_idx (suc i)) ordered (omega arith) (omega arith) in
    omega (arith, above, ordered (suc i) (omega arith) inside)

pub swap-weight {ℓ} :
    {T : Type ℓ} (d : ℕ → QueueSlot T) (i j : ℕ) → weights (swap d i j) ≡ swap (weights d) i j
swap-weight d i j = fun_ext (ap-swap (λ s. s.weight) d i j)

-- A swap keeps the entries.
pub count_slots-swap {ℓ} :
    {T : Type ℓ} (n : ℕ) (test : QueueSlot T → Bool) (d : ℕ → QueueSlot T) (i j : ℕ)
    → i < n
    → j < n
    → count_slots n test (swap d i j) ≡ count_slots n test d
count_slots-swap n test d i j p q =
    rw (fun_ext (ap-swap (λ s. bit (test s)) d i j))
      (sum_below-swap n (λ l. bit (test (d l))) i j p q)

-- A family in order whose first n entries are those of another.
pub record Sifted {ℓ} {T : Type ℓ} (n : ℕ) (before after : ℕ → QueueSlot T) : Type ℓ where
  pub ordered : IsOrdered n after
  pub same : (test : QueueSlot T → Bool) → count_slots n test after ≡ count_slots n test before

pub swap-Sifted {ℓ} :
    {T : Type ℓ} (n : ℕ) (d after : ℕ → QueueSlot T) (i j : ℕ)
    → i < n
    → j < n
    → Sifted n (swap d i j) after
    → Sifted n d after
swap-Sifted n d after i j p q s = record {
  ordered = s.ordered;
  same = λ test. s.same test ∙ count_slots-swap n test d i j p q;
}
