-- ===== src/PriorityQueue/Up.antt =====
-- internal/pqueue/pqueue.go, lines 43-52: the loop of Push.
use netring.Prelude.{
  ℕ, zero, suc, ◌<◌, ◌≡◌, refl, false, ◌==◌, swap, ℤ, ◌≤ℤ◌, leb_int, arith, Bool-cases, inl, inr,
  some,
}
use netring.PriorityQueue.{QueueSlot, parent_idx, up_loop}
use netring.PriorityQueue.Order.{weights, swap-weight, Sifted, swap-Sifted}

-- Only the edge above i may be out of order.
pub record Rising (n : ℕ) (w : ℕ → ℤ) (i : ℕ) : Type 0 where
  pub inside : i < n
  pub edges : (c : ℕ) → 0 < c → c < n → (c == i) ≡ false → w (parent_idx c) ≤ℤ w c
  pub bridged : (c : ℕ) → 0 < c → c < n → parent_idx c ≡ i → 0 < i → w (parent_idx i) ≤ℤ w c

swap-Rising :
    (n : ℕ) (w : ℕ → ℤ) (i : ℕ)
    → Rising n w i
    → (i == 0) ≡ false
    → leb_int (w (parent_idx i)) (w i) ≡ false
    → Rising n (swap w (parent_idx i) i) (parent_idx i)
swap-Rising n w i r off below = record {
  inside = ground (arith, r.inside);
  edges = λ c pos small apart. ground (arith, r.edges c, r.bridged c);
  bridged = λ c pos small child pos_p. ground (arith, r.edges c, r.edges (parent_idx i));
}

-- From a family with one entry too low, the loop of Push ends within its fuel, in order.
pub up_loop-Sifted {ℓ} :
    {T : Type ℓ} (f n i : ℕ) (d : ℕ → QueueSlot T)
    → Rising n (weights d) i
    → i < f
    → (after : ℕ → QueueSlot T) × (up_loop f i d ≡ some after) × Sifted n d after
unfolding up_loop
up_loop-Sifted zero n i d r enough = absurd (omega arith)
up_loop-Sifted (suc f) n i d r enough = elim (Bool-cases (i == 0)) [
  | inl root ↦ (
    d,
    rw root refl,
    record { ordered = λ c pos small. r.edges c pos small (ground arith); same = λ test. refl },
  )
  | inr off ↦ elim (Bool-cases (leb_int (d (parent_idx i)).weight (d i).weight)) [
    | inl settled ↦ (
      d,
      rw (off, settled) refl,
      record { ordered = λ c pos small. ground (arith, r.edges c); same = λ test. refl },
    )
    | inr below ↦
        let above : Rising n (weights (swap d (parent_idx i) i)) (parent_idx i) =
          rw (swap-weight d (parent_idx i) i) (swap-Rising n (weights d) i r off below) in
        let inside : i < n = r.inside in
        let (after, ends, s) =
          up_loop-Sifted f n (parent_idx i) (swap d (parent_idx i) i) above (ground arith) in
        (after, rw (off, below) ends, swap-Sifted n d after (parent_idx i) i (omega arith) inside s)
  ]
]
