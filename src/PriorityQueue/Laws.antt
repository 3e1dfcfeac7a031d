-- ===== src/PriorityQueue/Laws.antt =====
-- internal/pqueue/pqueue.go: what Push and Pop do to the entries.
use mathlib.Core.Path.{fun_ext}
use netring.Prelude.{
  ℕ, zero, suc, ◌+◌, ◌-◌, ◌<◌, ◌≤◌, ◌≡◌, refl, sym, subst, Bool, true, false, ◌==◌, ltb,
  if◌then◌else◌, update, ap-update, ℤ, ◌≤ℤ◌, arith, Bool-cases, inl, inr, some, ◌∙◌, ap, bit,
  sum_below-update_of_le, sum_below, sum_below-change,
}
use netring.PriorityQueue.{QueueSlot, PriorityQueue, push, pop, no_slot, take_root}
use netring.PriorityQueue.Order.{weights, count_slots, IsOrdered, root-le}
use netring.PriorityQueue.Up.{Rising, up_loop-Sifted}
use netring.PriorityQueue.Down.{Sinking, down_loop-Sifted}

-- A queue whose entries fit its array and stand in order.
pub record IsHeap {ℓ} {T : Type ℓ} (q : PriorityQueue T) : Type ℓ where
  pub fits : q.len ≤ q.cap
  pub ordered : IsOrdered q.len q.slots

-- what Push promises: a full queue is as it was; another has the new entry besides its own
abbrev pub Pushed {ℓ} : {T : Type ℓ} → ℤ → T → PriorityQueue T → PriorityQueue T × Bool → Type ℓ
Pushed weight payload q (after, taken) =
    IsHeap after
    × (taken ≡ ltb q.len q.cap)
    × (after.cap ≡ q.cap)
    × (after.len ≡ q.len + bit taken)
    × ((test : QueueSlot _ → Bool)
        → count_slots after.len test after.slots
          ≡ count_slots q.len test q.slots
            + (if taken then bit (test (record { weight = weight; payload = payload })) else 0))

push_start-Rising {ℓ} :
    {T : Type ℓ} (n : ℕ) (d : ℕ → QueueSlot T) (entry : QueueSlot T)
    → IsOrdered n d
    → Rising (n + 1) (weights (update d n entry)) n
push_start-Rising n d entry ordered = rw (fun_ext (ap-update (λ s. s.weight) d n entry)) (record {
  inside = omega arith;
  edges = λ c pos small apart. ground (arith, ordered c);
  bridged = λ c pos small child above. absurd (omega arith);
})

push_start-count {ℓ} :
    {T : Type ℓ} (n : ℕ) (d : ℕ → QueueSlot T) (entry : QueueSlot T) (test : QueueSlot T → Bool)
    → count_slots (n + 1) test (update d n entry) ≡ count_slots n test d + bit (test entry)
unfolding sum_below
push_start-count n d entry test = rw (fun_ext (ap-update (λ s. bit (test s)) d n entry)) (
    let below =
      sum_below-update_of_le n (λ l. bit (test (d l))) n (bit (test entry)) (omega arith) in
    ground arith)

-- Push ends within its fuel, and keeps its promise.
pub push-Pushed {ℓ} :
    {T : Type ℓ} (weight : ℤ) (payload : T) (q : PriorityQueue T)
    → IsHeap q
    → (r : PriorityQueue T × Bool) × (push weight payload q ≡ some r) × Pushed weight payload q r
unfolding push
push-Pushed weight payload q heap = elim (Bool-cases (q.len == q.cap)) [
  | inl full ↦ (
    (q, false),
    rw full refl,
    (heap, ground (arith, heap.fits), refl, omega arith, λ test. omega arith),
  )
  | inr room ↦
      let entry : QueueSlot _ = record { weight = weight; payload = payload } in
      let (after, ends, sifted) =
        up_loop-Sifted (q.len + 1) (q.len + 1) q.len (update q.slots q.len entry)
          (push_start-Rising q.len q.slots entry heap.ordered) (omega arith) in
      (
        (record q { slots = after; len = q.len + 1 }, true),
        rw (room, ends) refl,
        (
          record { fits = ground (arith, heap.fits); ordered = sifted.ordered },
          ground (arith, heap.fits),
          refl,
          omega arith,
          λ test. sifted.same test ∙ push_start-count q.len q.slots entry test,
        ),
      )
]

-- what Pop promises: an empty queue is as it was; another has lost an entry of least weight
abbrev pub Popped {ℓ} : {T : Type ℓ} → T → PriorityQueue T → PriorityQueue T × T × Bool → Type ℓ
Popped nil q (after, payload, found) =
    IsHeap after
    × (found ≡ ltb 0 q.len)
    × (after.cap ≡ q.cap)
    × (after.len ≡ q.len - 1)
    × ((slot : QueueSlot _) × (payload ≡ (if found then slot.payload else nil))
        × ((i : ℕ) → i < q.len → slot.weight ≤ℤ (q.slots i).weight)
        × ((test : QueueSlot _ → Bool)
            → count_slots after.len test after.slots + (if found then bit (test slot) else 0)
              ≡ count_slots q.len test q.slots))

ap-take_root {ℓ ℓ'} :
    {T : Type ℓ} {B : Type ℓ'} (g : QueueSlot T → B) (nil : T) (n : ℕ) (d : ℕ → QueueSlot T) (k : ℕ)
    → g (take_root nil n d k) ≡ update (update (λ l. g (d l)) 0 (g (d n))) n (g (no_slot nil)) k
unfolding take_root
ap-take_root g nil n d k =
    ap-update g (update d 0 (d n)) n (no_slot nil) k
    ∙ ap (λ f. update f n (g (no_slot nil)) k) (fun_ext (ap-update g d 0 (d n)))

pop_start-Sinking {ℓ} :
    {T : Type ℓ} (nil : T) (n : ℕ) (d : ℕ → QueueSlot T)
    → IsOrdered (n + 1) d
    → Sinking n (weights (take_root nil n d)) 0
pop_start-Sinking nil n d ordered = rw (fun_ext (ap-take_root (λ s. s.weight) nil n d)) (record {
  edges = λ c pos small apart. ground (arith, ordered c);
  bridged = λ c pos small child above. absurd (omega arith);
})

pop_start-count {ℓ} :
    {T : Type ℓ} (nil : T) (n : ℕ) (d : ℕ → QueueSlot T) (test : QueueSlot T → Bool)
    → count_slots n test (take_root nil n d) + bit (test (d 0)) ≡ count_slots (n + 1) test d
unfolding sum_below
pop_start-count nil n d test =
    let marks : ℕ → ℕ = λ l. bit (test (d l)) in
    let cleared =
      sum_below-update_of_le n (update marks 0 (marks n)) n (bit (test (no_slot nil)))
        (omega arith) in
    rw (fun_ext (ap-take_root (λ s. bit (test s)) nil n d), cleared) (moved n marks)
  where
    moved :
        (k : ℕ) (marks : ℕ → ℕ)
        → sum_below k (update marks 0 (marks k)) + marks 0 ≡ sum_below (k + 1) marks
    moved zero marks = omega arith
    moved (suc k) marks = ground (
      arith,
      sum_below-change (suc k) marks (update marks 0 (marks (suc k))) 0 (omega arith)
          (λ j apart. rw apart),
    )

-- Pop ends within its fuel, and keeps its promise.
pub pop-Popped {ℓ} :
    {T : Type ℓ} (nil : T) (q : PriorityQueue T)
    → IsHeap q
    → (r : PriorityQueue T × T × Bool) × (pop nil q ≡ some r) × Popped nil q r
unfolding pop
pop-Popped nil q heap = elim (Bool-cases (q.len == 0)) [
  | inl empty ↦ (
    (q, nil, false),
    rw empty refl,
    (
      heap,
      ground arith,
      refl,
      ground arith,
      (q.slots 0, refl, λ i inside. absurd (ground arith), λ test. omega arith),
    ),
  )
  | inr some_entry ↦
      let n : ℕ = q.len - 1 in
      let last : q.len ≡ n + 1 = ground arith in
      let ordered : IsOrdered (n + 1) q.slots =
        subst (λ m. IsOrdered m q.slots) last heap.ordered in
      let (after, ends, sifted) =
        down_loop-Sifted q.len n 0 (take_root nil n q.slots)
          (pop_start-Sinking nil n q.slots ordered) (omega arith) (omega arith) in
      (
        (record q { slots = after; len = n }, (q.slots 0).payload, true),
        rw (some_entry, ends) refl,
        (
          record { fits = ground (arith, heap.fits); ordered = sifted.ordered },
          ground arith,
          refl,
          refl,
          (
            q.slots 0,
            refl,
            λ i inside. root-le (i + 1) q.len q.slots i heap.ordered (omega arith) inside,
            λ test.
                let same = sifted.same test in
                let start = pop_start-count nil n q.slots test in
                rw (same, start) (ap (λ m. count_slots m test q.slots) (sym last)),
          ),
        ),
      )
]
