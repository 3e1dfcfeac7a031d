-- ===== src/PriorityQueue/Down.antt =====
-- internal/pqueue/pqueue.go, lines 70-101: the loop of Pop.
use netring.Prelude.{
  ℕ, zero, suc, ◌+◌, ◌*◌, ◌<◌, ◌≤◌, ◌≡◌, refl, false, ◌==◌, leb, ltb, swap, ℤ, ◌≤ℤ◌, leb_int, arith,
  Bool-cases, inl, inr, some,
}
use netring.PriorityQueue.{QueueSlot, parent_idx, children_array_start_idx, pick_idx, down_loop}
use netring.PriorityQueue.Order.{weights, swap-weight, Sifted, swap-Sifted}

-- Only the edges below i may be out of order.
pub record Sinking (n : ℕ) (w : ℕ → ℤ) (i : ℕ) : Type 0 where
  pub edges : (c : ℕ) → 0 < c → c < n → (parent_idx c == i) ≡ false → w (parent_idx c) ≤ℤ w c
  pub bridged : (c : ℕ) → 0 < c → c < n → parent_idx c ≡ i → 0 < i → w (parent_idx i) ≤ℤ w c

-- the child k of i that weighs the least
record Picked (n : ℕ) (w : ℕ → ℤ) (i k : ℕ) : Type 0 where
  pub inside : k < n
  pub child : parent_idx k ≡ i
  pub below : i < k
  pub least : (c : ℕ) → 0 < c → c < n → parent_idx c ≡ i → w k ≤ℤ w c

pick_idx-Picked {ℓ} :
    {T : Type ℓ} (n i : ℕ) (d : ℕ → QueueSlot T)
    → leb n (children_array_start_idx i) ≡ false
    → Picked n (weights d) i (pick_idx n i d)
unfolding pick_idx
pick_idx-Picked n i d some_child = elim (Bool-cases (leb n (children_array_start_idx i + 1))) [
  | inl only ↦ rw only (record {
    inside = ground arith;
    child = omega arith;
    below = omega arith;
    least = λ c pos small child. let same : c ≡ 2 * i + 1 = ground arith in rw same (omega arith);
  })
  | inr both ↦ elim (Bool-cases (leb_int (d (2 * i + 1)).weight (d (2 * i + 1 + 1)).weight)) [
    | inl left ↦
        rw (both, left)
          (record {
            inside = ground arith;
            child = omega arith;
            below = omega arith;
            least = λ c pos small child. ground arith;
          })
    | inr right ↦
        rw (both, right)
          (record {
            inside = ground arith;
            child = omega arith;
            below = omega arith;
            least = λ c pos small child. ground arith;
          })
  ]
]

swap-Sinking :
    (n : ℕ) (w : ℕ → ℤ) (i k : ℕ)
    → Sinking n w i
    → Picked n w i k
    → leb_int (w i) (w k) ≡ false
    → Sinking n (swap w i k) k
swap-Sinking n w i k s picked above =
    let child : parent_idx k ≡ i = picked.child in
    let below : i < k = picked.below in
    record {
      edges = λ c pos small apart.
          ground (arith, s.edges c, s.bridged c, picked.least c, s.bridged k, picked.inside);
      bridged = λ c pos small of_k pos_k. ground (arith, s.edges c);
    }

-- From a family with one entry too high, the loop of Pop ends within its fuel, in order.
pub down_loop-Sifted {ℓ} :
    {T : Type ℓ} (f n i : ℕ) (d : ℕ → QueueSlot T)
    → Sinking n (weights d) i
    → i ≤ n
    → n < i + f
    → (after : ℕ → QueueSlot T) × (down_loop f n i d ≡ some after) × Sifted n d after
unfolding down_loop
down_loop-Sifted zero n i d s inside enough = absurd (omega arith)
down_loop-Sifted (suc f) n i d s inside enough = elim (Bool-cases (ltb i n)) [
  | inr past ↦ (d, rw past refl, settled (λ c. ground arith))
  | inl within ↦ elim (Bool-cases (leb n (children_array_start_idx i))) [
    | inl leaf ↦ (d, rw (within, leaf) refl, settled (λ c. ground arith))
    | inr some_child ↦
        let k : ℕ = pick_idx n i d in
        let picked : Picked n (weights d) i k = pick_idx-Picked n i d some_child in
        elim (Bool-cases (leb_int (d i).weight (d k).weight)) [
          | inl light ↦ (
            d,
            rw (within, some_child, light) refl,
            settled (λ c pos small child. ground (arith, picked.least c)),
          )
          | inr heavy ↦
              let lower : Sinking n (weights (swap d i k)) k =
                rw (swap-weight d i k) (swap-Sinking n (weights d) i k s picked heavy) in
              let inside_k : k < n = picked.inside in
              let below : i < k = picked.below in
              let (after, ends, sifted) =
                down_loop-Sifted f n k (swap d i k) lower (omega arith) (omega arith) in
              (
                after,
                rw (within, some_child, heavy) ends,
                swap-Sifted n d after i k (ground arith) inside_k sifted,
              )
        ]
  ]
]
  where
    settled :
        ((c : ℕ) → 0 < c → c < n → parent_idx c ≡ i → (d i).weight ≤ℤ (d c).weight) → Sifted n d d
    settled children = record {
      ordered = λ c pos small. elim (Bool-cases (parent_idx c == i)) [
        | inl child ↦
            let at_i : parent_idx c ≡ i = ground arith in rw at_i (children c pos small at_i)
        | inr other ↦ s.edges c pos small other
      ];
      same = λ test. refl;
    }
