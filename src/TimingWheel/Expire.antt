-- ===== src/TimingWheel/Expire.antt =====
-- internal/timingwheel/timingwheel.go, lines 55-85: Tick.
use netring.Prelude.{
  ℕ, zero, suc, ◌+◌, ◌%◌, ◌<◌, ◌≤◌, ◌≡◌, refl, true, false, Option, none, some, List, [], ◌∷◌, ◌==◌,
  if◌then◌else◌, update, ltb, bit, arith, Bool-cases, inl, inr, ◌∙◌, ap, ℤ, length,
}
use netring.TimingWheel.{
  TimingWheel, invalid_index, num_buckets, tick_loop, tick, release_node, next_bucket, call,
}
use netring.TimingWheel.Chains.{
  occurs, occurs-apart, IsChain, Holds, IsChain-frame, Holds-once, Holds-apart, sum_below-bucket,
  length-le,
}

module _ {ℓ} {C : Type ℓ} where
  -- the calls for the nodes of a list, in its order
  unfoldable pub calls : TimingWheel C → List ℕ → List (C × ℤ)
  calls w [] = []
  calls w (x ∷ xs) = call (w.callback x) (w.fd x) (calls w xs)

  -- what is left of a wheel whose nodes `xs` have been released
  pub record Released (w after : TimingWheel C) (xs : List ℕ) : Type ℓ where
    pub bucket : after.current_bucket ≡ w.current_bucket
    pub heads : after.buckets ≡ w.buckets
    pub size : after.size ≡ w.size
    pub free : (x : ℕ) → occurs x after.free_nodes ≡ occurs x w.free_nodes + occurs x xs
    pub next : (x : ℕ) → occurs x xs ≡ 0 → after.next x ≡ w.next x
    pub prev : (x : ℕ) → occurs x xs ≡ 0 → after.prev x ≡ w.prev x
    pub callback : (x : ℕ) → after.callback x ≡ (if occurs x xs == 0 then w.callback x else none)
    pub fd : after.fd ≡ w.fd
    pub generation :
        (x : ℕ)
        → after.generation x
          ≡ (if occurs x xs == 0 then w.generation x else (w.generation x + 1) % 4294967296)

  calls-release_node :
      (w : TimingWheel C) (x : ℕ) (xs : List ℕ)
      → occurs x xs ≡ 0
      → calls (release_node x w) xs ≡ calls w xs
  unfolding calls
  calls-release_node w x [] absent = refl
  calls-release_node w x (y ∷ ys) absent =
      let apart : (x == y) ≡ false = ground arith in
      rw (apart, calls-release_node w x ys (ground arith)) refl

  released-cons :
      (w after : TimingWheel C) (x : ℕ) (xs : List ℕ)
      → occurs x xs ≡ 0
      → Released (release_node x w) after xs
      → Released w after (x ∷ xs)
  released-cons w after x xs absent r = record {
    bucket = r.bucket;
    heads = r.heads;
    size = r.size;
    free = λ y. omega (arith, r.free y);
    next = λ y off. r.next y (omega arith) ∙ rw (none_at y off) refl;
    prev = λ y off. r.prev y (omega arith) ∙ rw (none_at y off) refl;
    callback = λ y. r.callback y ∙ written none w.callback y;
    fd = r.fd;
    generation = λ y. elim (Bool-cases (x == y)) [
      | inl same ↦ let at_y : x ≡ y = ground arith in ground (arith, r.generation y)
      | inr apart ↦ ground (arith, r.generation y)
    ];
  }
    where
      none_at : (y : ℕ) → occurs y (x ∷ xs) ≡ 0 → (x == y) ≡ false
      none_at y off = ground arith

      written :
          {B : Type ℓ} (b : Option B) (f : ℕ → Option B) (y : ℕ)
          → (if occurs y xs == 0 then update f x b y else b)
            ≡ (if occurs y (x ∷ xs) == 0 then f y else b)
      written b f y = elim (Bool-cases (x == y)) [
        | inl same ↦
            let some_y : (1 + occurs y xs == 0) ≡ false = ground arith in
            elim (Bool-cases (occurs y xs == 0)) [
              | inl e ↦ rw (same, some_y, e) refl
              | inr e ↦ rw (same, some_y, e) refl
            ]
        | inr apart ↦
            let same_y : 0 + occurs y xs ≡ occurs y xs = omega arith in rw (apart, same_y) refl
      ]

  -- The loop of Tick ends within its fuel, calls the callbacks and releases the nodes.
  pub tick_loop-Released :
      (f head before : ℕ) (xs : List ℕ) (w : TimingWheel C)
      → IsChain w.next w.prev before head xs
      → ((x : ℕ) → occurs x xs ≤ bit (ltb x invalid_index))
      → length xs < f
      → (after : TimingWheel C) × (tick_loop f head w ≡ some (after, calls w xs))
        × Released w after xs
  unfolding tick_loop calls
  tick_loop-Released zero head before xs w chain once enough = absurd (omega arith)
  tick_loop-Released (suc f) head before [] w chain once enough =
      let empty : (head == invalid_index) ≡ true = ground arith in
      (
        w,
        rw empty refl,
        record {
          bucket = refl;
          heads = refl;
          size = refl;
          free = λ x. omega arith;
          next = λ x absent. refl;
          prev = λ x absent. refl;
          callback = λ x. refl;
          fd = refl;
          generation = λ x. refl;
        },
      )
  tick_loop-Released (suc f) head before (x ∷ xs) w (at, _, rest) once enough =
      let some_head : (head == invalid_index) ≡ false = ground (arith, once x) in
      let alone : occurs x xs ≡ 0 = ground (arith, once x) in
      let below : IsChain (release_node x w).next (release_node x w).prev x (w.next x) xs =
        IsChain-frame w.next w.prev (release_node x w).next (release_node x w).prev x (w.next x) xs
          (λ y member. rw (occurs-apart x y xs alone member) refl)
          (λ y member. rw (occurs-apart x y xs alone member) refl) rest in
      let (after, ends, released) =
        tick_loop-Released f (w.next x) x xs (release_node x w) below (λ y. omega (arith, once y))
          (omega arith) in
      (
        after,
        rw (some_head, at, ends, calls-release_node w x xs alone) refl,
        released-cons w after x xs alone released,
      )

  calls-next_bucket : (w : TimingWheel C) (xs : List ℕ) → calls (next_bucket w) xs ≡ calls w xs
  unfolding calls
  calls-next_bucket w [] = refl
  calls-next_bucket w (x ∷ xs) = ap (call (w.callback x) (w.fd x)) (calls-next_bucket w xs)

  Released-Holds :
      (w after : TimingWheel C) (lists : ℕ → List ℕ)
      → Holds w lists
      → Released (next_bucket w) after (lists w.current_bucket)
      → Holds after (update lists w.current_bucket [])
  Released-Holds w after lists h r = record {
    turning = let bucket = r.bucket in omega arith;
    small = let size = r.size in let small = h.small in omega arith;
    nodes = λ node.
        let size = r.size in
        rw size (
          omega (
            arith,
            r.free node,
            h.nodes node,
            sum_below-bucket lists w.current_bucket node [] h.turning,
          ));
    chains = λ b inside. rw (r.heads) (elim (Bool-cases (w.current_bucket == b)) [
      | inl same ↦ rw same refl
      | inr apart ↦ rw apart (
          IsChain-frame w.next w.prev after.next after.prev invalid_index (w.buckets b) (lists b)
            (λ x member. r.next x (off b x inside apart member))
            (λ x member. r.prev x (off b x inside apart member)) (h.chains b inside))
    ]);
  }
    where
      off :
          (b x : ℕ)
          → b < num_buckets
          → (w.current_bucket == b) ≡ false
          → 0 < occurs x (lists b)
          → occurs x (lists w.current_bucket) ≡ 0
      off b x inside apart member =
          omega (arith, Holds-apart w lists w.current_bucket b x h h.turning inside apart)

  -- Tick ends: it calls the callbacks of the current bucket's timers from the head of the list on,
  -- frees their nodes, and leaves the other buckets as they were.
  pub tick-Holds :
      (w : TimingWheel C) (lists : ℕ → List ℕ)
      → Holds w lists
      → (after : TimingWheel C) × (tick w ≡ some (after, calls w (lists w.current_bucket)))
        × Released (next_bucket w) after (lists w.current_bucket)
        × Holds after (update lists w.current_bucket [])
  unfolding tick
  tick-Holds w lists h =
      let once : (x : ℕ) → occurs x (lists w.current_bucket) ≤ bit (ltb x w.size) =
        λ x. omega (arith, Holds-once w lists w.current_bucket x h h.turning) in
      let few : length (lists w.current_bucket) ≤ w.size =
        length-le w.size (lists w.current_bucket) once in
      let (after, ends, released) =
        tick_loop-Released (w.size + 1) (w.buckets w.current_bucket) invalid_index
          (lists w.current_bucket) (next_bucket w) (h.chains w.current_bucket h.turning)
          (λ x. ground (arith, once x, h.small)) (omega arith) in
      (
        after,
        rw (ends, calls-next_bucket w (lists w.current_bucket)) refl,
        released,
        Released-Holds w after lists h released,
      )
