-- ===== src/TimingWheel/Chains.antt =====
-- internal/timingwheel/timingwheel.go: the list of nodes of each bucket.
use netring.Prelude.{
  ℕ, zero, suc, ◌+◌, ◌<◌, ◌≤◌, ◌≡◌, refl, false, List, [], ◌∷◌, ◌==◌, update, ltb, bit, sum_below,
  le-sum_below, sum_below-two, sum_below-change, sum_below-le, sum_below-const, length, ◌∙◌, arith,
  ap-update, Bool-cases, inl, inr,
}
use mathlib.Core.Path.{fun_ext}
use netring.TimingWheel.{TimingWheel, invalid_index, num_buckets, new, indices_below}

-- how often a node stands in a list
abbrev pub occurs : ℕ → List ℕ → ℕ
occurs node [] = 0
occurs node (x ∷ xs) = bit (x == node) + occurs node xs

-- The links from `head` run through the nodes of the list, forward and back to `before`.
abbrev pub IsChain : (next prev : ℕ → ℕ) (before head : ℕ) → List ℕ → Type 0
IsChain next prev before head [] = head ≡ invalid_index
IsChain next prev before head (x ∷ xs) =
    (head ≡ x) × (prev x ≡ before) × IsChain next prev x (next x) xs

-- The wheel holds the nodes of `lists b` in bucket b, and each node of the pool stands in one of
-- these lists or is free.
pub record Holds {ℓ} {C : Type ℓ} (w : TimingWheel C) (lists : ℕ → List ℕ) : Type ℓ where
  pub turning : w.current_bucket < num_buckets
  pub small : w.size ≤ invalid_index
  pub chains :
      (b : ℕ) → b < num_buckets → IsChain w.next w.prev invalid_index (w.buckets b) (lists b)
  pub nodes :
      (node : ℕ)
      → occurs node w.free_nodes + sum_below num_buckets (λ b. occurs node (lists b))
        ≡ bit (ltb node w.size)

pub occurs-apart : (x y : ℕ) (xs : List ℕ) → occurs x xs ≡ 0 → 0 < occurs y xs → (x == y) ≡ false
occurs-apart x y xs absent member = elim (Bool-cases (x == y)) [
  | inr apart ↦ apart
  | inl same ↦ absurd (
      let at_y : x ≡ y = ground arith in
      let none_y : occurs y xs ≡ 0 = rw (← at_y) absent in omega arith)
]

pub IsChain-frame :
    (next prev next_after prev_after : ℕ → ℕ) (before head : ℕ) (xs : List ℕ)
    → ((x : ℕ) → 0 < occurs x xs → next_after x ≡ next x)
    → ((x : ℕ) → 0 < occurs x xs → prev_after x ≡ prev x)
    → IsChain next prev before head xs
    → IsChain next_after prev_after before head xs
IsChain-frame next prev next_after prev_after before head [] same_next same_prev chain = chain
IsChain-frame next prev next_after prev_after before head (x ∷ xs) same_next same_prev
      (at, back, rest) =
    let next_x : next_after x ≡ next x = same_next x (ground arith) in
    let prev_x : prev_after x ≡ prev x = same_prev x (ground arith) in
    (
      at,
      prev_x ∙ back,
      rw next_x (
          IsChain-frame next prev next_after prev_after x (next x) xs
            (λ y member. same_next y (omega arith)) (λ y member. same_prev y (omega arith)) rest),
    )

-- A list without repetitions of numbers below n has at most n entries.
pub length-le : (n : ℕ) (xs : List ℕ) → ((x : ℕ) → occurs x xs ≤ bit (ltb x n)) → length xs ≤ n
length-le n xs once = omega (
  arith,
  counted xs (λ x member. ground (arith, once x)),
  sum_below-le n 1 (λ x. occurs x xs) (λ x. ground (arith, once x)),
)
  where
    counted :
        (ys : List ℕ)
        → ((x : ℕ) → 0 < occurs x ys → x < n)
        → length ys ≡ sum_below n (λ x. occurs x ys)
    counted [] inside = omega (arith, sum_below-const n 0)
    counted (y ∷ ys) inside =
        let here : y < n = inside y (ground arith) in
        ground (
          arith,
          counted ys (λ x member. inside x (omega arith)),
          sum_below-change n (λ x. occurs x ys) (λ x. occurs x (y ∷ ys)) y here
              (λ x apart. ground arith),
        )

-- what a change of one bucket's list does to the places of a node
pub sum_below-bucket :
    (lists : ℕ → List ℕ) (b node : ℕ) (xs : List ℕ)
    → b < num_buckets
    → sum_below num_buckets (λ c. occurs node (update lists b xs c)) + occurs node (lists b)
      ≡ sum_below num_buckets (λ c. occurs node (lists c)) + occurs node xs
sum_below-bucket lists b node xs inside = rw (fun_ext (ap-update (occurs node) lists b xs)) (
    ground (
      arith,
      sum_below-change num_buckets (λ c. occurs node (lists c))
          (update (λ c. occurs node (lists c)) b (occurs node xs)) b inside
          (λ c apart. rw apart refl),
    ))

occurs-indices_below :
    (node n : ℕ) → n ≤ invalid_index → occurs node (indices_below n) ≡ bit (ltb node n)
unfolding indices_below
occurs-indices_below node zero fits = ground arith
occurs-indices_below node (suc n) fits = ground (arith, occurs-indices_below node n)

module _ {ℓ} {C : Type ℓ} where
  -- A node of a bucket is in the pool, stands once in its bucket, in no other, and is not free.
  pub Holds-once :
      (w : TimingWheel C) (lists : ℕ → List ℕ) (b node : ℕ)
      → Holds w lists
      → b < num_buckets
      → occurs node w.free_nodes + occurs node (lists b) ≤ bit (ltb node w.size)
  Holds-once w lists b node h inside =
      omega (arith, h.nodes node, le-sum_below num_buckets b (λ c. occurs node (lists c)) inside)

  pub Holds-apart :
      (w : TimingWheel C) (lists : ℕ → List ℕ) (b c node : ℕ)
      → Holds w lists
      → b < num_buckets
      → c < num_buckets
      → (b == c) ≡ false
      → occurs node (lists b) + occurs node (lists c) ≤ 1
  Holds-apart w lists b c node h inside_b inside_c apart = ground (
    arith,
    h.nodes node,
    sum_below-two num_buckets (λ d. occurs node (lists d)) b c inside_b inside_c apart,
  )

  -- A new wheel holds nothing.
  pub new-Holds :
      (max_connections : ℕ)
      → max_connections ≤ invalid_index
      → Holds (new {C = C} max_connections) (λ _. [])
  new-Holds max_connections fits = record {
    turning = omega arith;
    small = fits;
    chains = λ b inside. refl;
    nodes = λ node.
        omega
          (arith, occurs-indices_below node max_connections fits, sum_below-const num_buckets 0);
  }
