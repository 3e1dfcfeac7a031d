-- ===== src/Prelude/Counts.antt =====
-- Families indexed by numbers: writes at one index, sums, and the number of indices that pass a test.
use Prim.Native.Nat.{ℕ, zero, suc, ◌+◌, ◌*◌, ◌≤◌, ◌<◌}
use mathlib.Core.Path.{◌≡◌, refl}
use mathlib.Core.Bool.{Bool, true, false, ◌&&◌}
use native.Mathlib.Omega.{arith}
use netring.Prelude.Tests.{◌==◌, if◌then◌else◌, Bool-cases}
use mathlib.Core.Logic.{inl, inr}

-- `f[i] = a`
abbrev pub update {ℓ} : {A : Type ℓ} → (ℕ → A) → ℕ → A → ℕ → A
update f i a j = if i == j then a else f j

-- `f[i] = w` for an array of families, by the entries of the rows
abbrev pub update_row {ℓ} : {A : Type ℓ} → (ℕ → ℕ → A) → ℕ → (ℕ → A) → ℕ → ℕ → A
update_row f i w j k = if i == j then w k else f j k

unfoldable pub sum_below : ℕ → (ℕ → ℕ) → ℕ
sum_below zero f = 0
sum_below (suc n) f = sum_below n f + f n

abbrev pub bit : Bool → ℕ
bit true = 1
bit false = 0

abbrev pub count_below : ℕ → (ℕ → Bool) → ℕ
count_below n p = sum_below n (λ i. bit (p i))

pub sum_below-update_of_le :
    (n : ℕ) (f : ℕ → ℕ) (i a : ℕ) → n ≤ i → sum_below n (update f i a) ≡ sum_below n f
unfolding sum_below
sum_below-update_of_le zero f i a h = refl
sum_below-update_of_le (suc n) f i a h = ground (arith, sum_below-update_of_le n f i a)

-- A write changes a sum by the difference at the written index.
pub sum_below-change :
    (n : ℕ) (f g : ℕ → ℕ) (i : ℕ)
    → i < n
    → ((j : ℕ) → (i == j) ≡ false → g j ≡ f j)
    → sum_below n g + f i ≡ sum_below n f + g i
unfolding sum_below
sum_below-change zero f g i h same = absurd (omega arith)
sum_below-change (suc n) f g i h same = elim (Bool-cases (i == n)) [
  | inl e ↦ ground (arith, sum_below-same n f g (λ j q. same j (ground arith)))
  | inr e ↦ ground (arith, sum_below-change n f g i (ground arith) same, same n e)
]
  where
    sum_below-same :
        (n : ℕ) (f g : ℕ → ℕ) → ((j : ℕ) → j < n → g j ≡ f j) → sum_below n g ≡ sum_below n f
    sum_below-same zero f g h = refl
    sum_below-same (suc n) f g h =
        omega (arith, h n (omega arith), sum_below-same n f g (λ j q. h j (omega arith)))

pub sum_below-le : (n c : ℕ) (f : ℕ → ℕ) → ((i : ℕ) → f i ≤ c) → sum_below n f ≤ n * c
unfolding sum_below
sum_below-le zero c f h = omega arith
sum_below-le (suc n) c f h = omega (arith, sum_below-le n c f h, h n)

pub count_below-le : (n : ℕ) (p : ℕ → Bool) → count_below n p ≤ n
count_below-le n p = omega (arith, sum_below-le n 1 (λ i. bit (p i)) (λ i. ground arith))

pub le-sum_below : (n i : ℕ) (f : ℕ → ℕ) → i < n → f i ≤ sum_below n f
unfolding sum_below
le-sum_below zero i f h = absurd (omega arith)
le-sum_below (suc n) i f h = elim (Bool-cases (i == n)) [
  | inl e ↦ ground arith
  | inr e ↦ ground (arith, le-sum_below n i f)
]

pub sum_below_mono : (n : ℕ) (f g : ℕ → ℕ) → ((i : ℕ) → f i ≤ g i) → sum_below n f ≤ sum_below n g
unfolding sum_below
sum_below_mono zero f g below = omega arith
sum_below_mono (suc n) f g below = omega (arith, sum_below_mono n f g below, below n)

-- Two summands at different indices come to no more than the sum.
pub sum_below-two :
    (n : ℕ) (f : ℕ → ℕ) (i j : ℕ) → i < n → j < n → (i == j) ≡ false → f i + f j ≤ sum_below n f
sum_below-two n f i j p q apart =
    let without : ℕ → ℕ = update f i 0 in
    let kept : without j ≡ f j = rw apart in
    let none_left : without i ≡ 0 = ground arith in
    omega (
      arith,
      sum_below-change n f without i p (λ l apart_l. rw apart_l),
      le-sum_below n j without q,
      kept,
      none_left,
    )

-- A sum that is not zero has a summand that is not.
pub sum_below-pos : (n : ℕ) (f : ℕ → ℕ) → 0 < sum_below n f → (i : ℕ) × (i < n) × (0 < f i)
unfolding sum_below
sum_below-pos zero f h = absurd (omega arith)
sum_below-pos (suc n) f h = elim (Bool-cases (f n == 0)) [
  | inl e ↦ let (i, p, q) = sum_below-pos n f (ground arith) in (i, omega arith, q)
  | inr e ↦ (n, omega arith, ground arith)
]

-- A test that passes somewhere below n.
pub count_below-pos :
    (n : ℕ) (p : ℕ → Bool) → 0 < count_below n p → (i : ℕ) × (i < n) × (p i ≡ true)
count_below-pos n p h = let (i, q, r) = sum_below-pos n (λ i. bit (p i)) h in (i, q, ground arith)

pub sum_below-const : (n c : ℕ) → sum_below n (λ _. c) ≡ n * c
unfolding sum_below
sum_below-const zero c = omega arith
sum_below-const (suc n) c = omega (arith, sum_below-const n c)

-- `f[i], f[j] = f[j], f[i]`
abbrev pub swap {ℓ} : {A : Type ℓ} → (ℕ → A) → ℕ → ℕ → ℕ → A
swap f i j k = if j == k then f i else if i == k then f j else f k

-- A function of the entries commutes with a write, and with a swap.
pub ap-update {ℓ ℓ'} :
    {A : Type ℓ} {B : Type ℓ'} (g : A → B) (f : ℕ → A) (i : ℕ) (a : A) (j : ℕ)
    → g (update f i a j) ≡ update (λ l. g (f l)) i (g a) j
ap-update g f i a j = elim (Bool-cases (i == j)) [ inl at_i ↦ rw at_i refl | inr off ↦ rw off refl ]

pub ap-swap {ℓ ℓ'} :
    {A : Type ℓ} {B : Type ℓ'} (g : A → B) (f : ℕ → A) (i j k : ℕ)
    → g (swap f i j k) ≡ swap (λ l. g (f l)) i j k
ap-swap g f i j k = elim (Bool-cases (j == k)) [
  | inl at_j ↦ rw at_j refl
  | inr off_j ↦ elim (Bool-cases (i == k)) [
    | inl at_i ↦ rw (off_j, at_i) refl
    | inr off_i ↦ rw (off_j, off_i) refl
  ]
]

-- A swap below n changes no sum over the entries.
pub sum_below-swap :
    (n : ℕ) (f : ℕ → ℕ) (i j : ℕ) → i < n → j < n → sum_below n (swap f i j) ≡ sum_below n f
sum_below-swap n f i j p q =
    let middle : ℕ → ℕ = update f i (f j) in
    let at_i : middle i ≡ f j = ground arith in
    let at_j : middle j ≡ f j = ground arith in
    let swapped : swap f i j j ≡ f i = ground arith in
    omega (
      arith,
      sum_below-change n f middle i p (λ k apart. rw apart),
      sum_below-change n middle (swap f i j) j q (λ k apart. rw apart),
      at_i,
      at_j,
      swapped,
    )

-- A test that holds of every number below the bound, checked by evaluation.
unfoldable pub holds_below : (test : ℕ → Bool) → (bound : ℕ) → Bool
holds_below test zero = true
holds_below test (suc bound) = holds_below test bound && test bound

pub holds_below-true :
    (test : ℕ → Bool) (bound : ℕ) {i : ℕ}
    → i < bound
    → holds_below test bound ≡ true
    → test i ≡ true
unfolding holds_below
holds_below-true test zero small checked = absurd (omega arith)
holds_below-true test (suc bound) {i} small checked = elim (Bool-cases (bound == i)) [
  | inl last ↦ ground arith
  | inr earlier ↦ ground (arith, holds_below-true test bound {i = i})
]
