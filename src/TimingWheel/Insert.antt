-- ===== src/TimingWheel/Insert.antt =====
-- internal/timingwheel/timingwheel.go, lines 88-118: Add.
use netring.Prelude.{
  ℕ, ◌+◌, ◌%◌, ◌<◌, ◌≤◌, ◌≡◌, refl, sym, Bool, true, false, Option, List, [], ◌∷◌, ◌==◌, update,
  ltb, bit, arith, Bool-cases, inl, inr, ◌∙◌, ap, ℤ, ==_refl,
}
use netring.TimingWheel.{
  TimingWheel, TimerId, invalid_index, num_buckets, insert, target_epoch, add, add_free,
}
use netring.TimingWheel.Chains.{
  occurs, occurs-apart, IsChain, Holds, IsChain-frame, Holds-once, Holds-apart, sum_below-bucket,
}

-- A node before the first of a list.
IsChain-cons :
    (next prev next_after prev_after : ℕ → ℕ) (idx head : ℕ) (xs : List ℕ)
    → ((x : ℕ) → 0 < occurs x xs → next_after x ≡ next x)
    → ((x : ℕ) → 0 < occurs x xs → (head == x) ≡ false → prev_after x ≡ prev x)
    → ((x : ℕ) → occurs x xs ≤ 1)
    → ((head == invalid_index) ≡ false → prev_after head ≡ idx)
    → ((x : ℕ) → 0 < occurs x xs → x < invalid_index)
    → prev_after idx ≡ invalid_index
    → next_after idx ≡ head
    → IsChain next prev invalid_index head xs
    → IsChain next_after prev_after invalid_index idx (idx ∷ xs)
IsChain-cons next prev next_after prev_after idx head [] same_next same_prev once back small first
      link chain =
    (refl, first, link ∙ chain)
IsChain-cons next prev next_after prev_after idx head (x ∷ xs) same_next same_prev once back small
      first link (at, _, rest) =
    let some_head : (head == invalid_index) ≡ false = ground (arith, small x) in
    let alone : occurs x xs ≡ 0 = ground (arith, once x) in
    let next_x : next_after x ≡ next x = same_next x (ground arith) in
    (
      refl,
      first,
      (
        link ∙ at,
        ap prev_after (sym at) ∙ back some_head,
        rw next_x (
            IsChain-frame next prev next_after prev_after x (next x) xs
              (λ y member. same_next y (omega arith))
              (λ y member. same_prev y (omega arith) (rw at (occurs-apart x y xs alone member)))
              rest),
      ),
    )

module _ {ℓ} {C : Type ℓ} (w : TimingWheel C) (target idx : ℕ) (rest : List ℕ) (fd : ℤ)
    (callback : Option C) where
  -- the back links of the wheel with the node idx in the bucket `target`
  abbrev prev_after : ℕ → ℕ
  prev_after = (insert target idx rest fd callback w).prev

  prev_after-idx : (w.buckets target == idx) ≡ false → prev_after idx ≡ invalid_index
  prev_after-idx apart = elim (Bool-cases (w.buckets target == invalid_index)) [
    | inl empty ↦ rw (empty, ==_refl idx) refl
    | inr some_head ↦ rw (some_head, apart, ==_refl idx) refl
  ]

  prev_after-head :
      (w.buckets target == invalid_index) ≡ false → prev_after (w.buckets target) ≡ idx
  prev_after-head some_head = rw (some_head, ==_refl (w.buckets target)) refl

  prev_after-other :
      (y : ℕ) → (idx == y) ≡ false → (w.buckets target == y) ≡ false → prev_after y ≡ w.prev y
  prev_after-other y apart off = elim (Bool-cases (w.buckets target == invalid_index)) [
    | inl empty ↦ rw (empty, apart) refl
    | inr some_head ↦ rw (some_head, off, apart) refl
  ]

  -- the first node of a bucket is not a node that stands in no bucket
  head_apart :
      (head x : ℕ) (xs : List ℕ)
      → IsChain w.next w.prev invalid_index head xs
      → occurs x xs ≡ 0
      → x < invalid_index
      → (head == x) ≡ false
  head_apart head x [] chain absent small = ground arith
  head_apart head x (y ∷ ys) (at, _, _) absent small = ground arith

  insert-Holds :
      (lists : ℕ → List ℕ)
      → Holds w lists
      → w.free_nodes ≡ idx ∷ rest
      → target < num_buckets
      → Holds (insert target idx rest fd callback w) (update lists target (idx ∷ lists target))
  insert-Holds lists h free inside_target = record {
    turning = h.turning;
    small = h.small;
    nodes = λ node.
        let was = h.nodes node in
        let free_count : occurs node w.free_nodes ≡ bit (idx == node) + occurs node rest =
          ap (occurs node) free in
        omega (
          arith,
          was,
          free_count,
          sum_below-bucket lists target node (idx ∷ lists target) inside_target,
        );
    chains = λ b inside. elim (Bool-cases (target == b)) [
      | inl same ↦ rw same (
          IsChain-cons w.next w.prev (insert target idx rest fd callback w).next prev_after idx
            (w.buckets target) (lists target)
            (λ x member. rw (off_idx target x inside_target member) refl)
            (λ x member off. prev_after-other x (off_idx target x inside_target member) off)
            (λ x. ground (arith, Holds-once w lists target x h inside_target)) prev_after-head
            (λ x member. ground (arith, Holds-once w lists target x h inside_target, h.small))
            (prev_after-idx (
              head_apart (w.buckets target) idx (lists target) (h.chains target inside_target)
                (absent target inside_target) idx_small))
            (rw (==_refl idx) refl) (h.chains target inside_target))
      | inr apart ↦ rw apart (
          IsChain-frame w.next w.prev (insert target idx rest fd callback w).next prev_after
            invalid_index (w.buckets b) (lists b) (λ x member. rw (off_idx b x inside member) refl)
            (λ x member.
              prev_after-other x (off_idx b x inside member) (off_head b x inside apart member))
            (h.chains b inside))
    ];
  }
    where
      once_free :
          (b x : ℕ) → b < num_buckets → bit (idx == x) + occurs x (lists b) ≤ bit (ltb x w.size)
      once_free b x inside =
          let once = Holds-once w lists b x h inside in
          let free_count : occurs x w.free_nodes ≡ bit (idx == x) + occurs x rest =
            ap (occurs x) free in
          omega (arith, once, free_count)

      off_idx : (b x : ℕ) → b < num_buckets → 0 < occurs x (lists b) → (idx == x) ≡ false
      off_idx b x inside member = ground (arith, once_free b x inside)

      absent : (b : ℕ) → b < num_buckets → occurs idx (lists b) ≡ 0
      absent b inside = ground (arith, once_free b idx inside)

      idx_small : idx < invalid_index
      idx_small = ground (arith, once_free target idx inside_target, h.small)

      off_head :
          (b x : ℕ)
          → b < num_buckets
          → (target == b) ≡ false
          → 0 < occurs x (lists b)
          → (w.buckets target == x) ≡ false
      off_head b x inside apart member =
          head_apart (w.buckets target) x (lists target) (h.chains target inside_target)
            (omega (arith, Holds-apart w lists target b x h inside_target inside apart))
            (ground (arith, Holds-once w lists b x h inside, h.small))

module _ {ℓ} {C : Type ℓ} where
  -- what Add promises, by its test of the time and the free nodes before it
  abbrev pub Added :
      (ttl_seconds : ℕ)
      → ℤ
      → Option C
      → TimingWheel C
      → (ℕ → List ℕ)
      → TimingWheel C × TimerId
      → (no_time : Bool) → List ℕ
      → Type ℓ
  Added ttl_seconds fd callback w lists (after, id) true free =
      (after ≡ w) × (id ≡ record { index = invalid_index; generation = 0 })
  Added ttl_seconds fd callback w lists (after, id) false [] =
      (after ≡ w) × (id ≡ record { index = invalid_index; generation = 0 })
  Added ttl_seconds fd callback w lists (after, id) false (idx ∷ rest) =
      let target = (w.current_bucket + ttl_seconds) % num_buckets in
      (id ≡ record { index = idx; generation = w.generation idx })
      × (after.generation ≡ w.generation)
      × (after.current_bucket ≡ w.current_bucket)
      × (after.fd ≡ update w.fd idx fd)
      × (after.callback ≡ update w.callback idx callback)
      × (after.free_nodes ≡ rest)
      × Holds after (update lists target (idx ∷ lists target))

  -- Add of a time other than 0 with a free node: the id names that node in its generation, the node
  -- holds the descriptor and the callback and comes first in the list of the bucket
  -- (currentBucket + ttlSeconds) mod 4096, while the other nodes and lists are as they were. Add of
  -- the time 0, or without a free node, changes nothing and returns the invalid id. The sum of
  -- currentBucket and ttlSeconds is below 2 ^ 32.
  pub add-Added :
      (ttl_seconds : ℕ) (fd : ℤ) (callback : Option C) (w : TimingWheel C) (lists : ℕ → List ℕ)
      → Holds w lists
      → w.current_bucket + ttl_seconds < 4294967296
      → Added ttl_seconds fd callback w lists
          (add ttl_seconds fd callback w)
          (ttl_seconds == 0)
          w.free_nodes
  unfolding add
  add-Added ttl_seconds fd callback w lists h no_wrap = elim (Bool-cases (ttl_seconds == 0)) [
    | inl e ↦ rw e (refl, refl)
    | inr e ↦ rw e (by_free w.free_nodes refl)
  ]
    where
      by_free :
          (free : List ℕ)
          → w.free_nodes ≡ free
          → Added ttl_seconds fd callback w lists
              (add_free ttl_seconds fd callback w free)
              false
              free
      by_free [] at = (refl, refl)
      by_free (idx ∷ rest) at =
          let target : ℕ = (w.current_bucket + ttl_seconds) % num_buckets in
          let same : target_epoch ttl_seconds w ≡ target = omega arith in
          (
            refl,
            refl,
            refl,
            refl,
            refl,
            refl,
            rw same (insert-Holds w target idx rest fd callback lists h at (omega arith)),
          )
