-- ===== src/NetRing/Flight/Keys.antt =====
-- method_submit.go and method_poller.go: the keys of the entries on their way, and the invariant.
use netring.Prelude.{
  ℕ, ◌+◌, ◌<◌, ◌≤◌, ◌≡◌, refl, Option, none, some, List, [], ◌∷◌, ◌++◌, ◌==◌, bit, lookup, arith,
}
use mathlib.Core.List.{head-eq_of_cons-eq, tail-eq_of_cons-eq}
use netring.TaskSlots.{sys_ids}
use netring.TaskSlots.Invariant.{view, Valid}
use netring.IoUring.Entries.{SqEntry, CqEntry}
use netring.IoUring.Queues.{submitted, completed}
use netring.IoUring.Queues.Fifo.{SqValid, CqValid}
use netring.NetRing.Cells.{send, send_cells_count}
use netring.NetRing.Flight.{System}

-- how many elements of a list have the key
unfoldable pub count_key {ℓ} : {A : Type ℓ} → (key : A → ℕ) (k : ℕ) → List A → ℕ
count_key key k [] = 0
count_key key k (x ∷ xs) = bit (key x == k) + count_key key k xs

pub count_key-append {ℓ} :
    {A : Type ℓ} (key : A → ℕ) (k : ℕ) (xs ys : List A)
    → count_key key k (xs ++ ys) ≡ count_key key k xs + count_key key k ys
unfolding count_key
count_key-append key k [] ys = omega arith
count_key-append key k (x ∷ xs) ys = omega (arith, count_key-append key k xs ys)

pub count_key-one {ℓ} :
    {A : Type ℓ} (key : A → ℕ) (k : ℕ) (x : A) (xs : List A)
    → count_key key k (x ∷ xs) ≡ bit (key x == k) + count_key key k xs
unfolding count_key
count_key-one key k x xs = refl

pub count_key-nil {ℓ} : {A : Type ℓ} (key : A → ℕ) (k : ℕ) → count_key key k [] ≡ 0
unfolding count_key
count_key-nil key k = refl

-- What stands last in two equal lists with the same elements before.
pub last-eq {ℓ} : {A : Type ℓ} (xs : List A) {x y : A} → xs ++ x ∷ [] ≡ xs ++ y ∷ [] → x ≡ y
last-eq [] e = head-eq_of_cons-eq e
last-eq (z ∷ xs) e = last-eq xs (tail-eq_of_cons-eq e)

abbrev pub sq_key : SqEntry → ℕ
sq_key e = e.user_data

abbrev pub cq_key : CqEntry → ℕ
cq_key e = e.user_data

-- how many entries with the key are in the submission queue, with the kernel, and in the completion queue
abbrev pub on_the_way : ℕ → System → ℕ
on_the_way k s =
    count_key sq_key k (submitted s.nr.uring)
    + count_key sq_key k s.taken
    + count_key cq_key k (completed s.nr.uring)

abbrev pub present : Option ℕ → ℕ
present none = 0
present (some p) = 1

pub record Inv (words ring back sq_ring cq_ring : ℕ) (s : System) : Type 0 where
  pub slots : Valid words ring back s.nr.slots
  pub bounds : s.nr.slots.fallback_mask + s.nr.slots.cap ≤ sys_ids
  pub sq : SqValid sq_ring s.nr.uring
  pub cq : CqValid cq_ring s.nr.uring
  pub keys : (k : ℕ) → on_the_way k s ≡ present (lookup k s.flights)
  pub held :
      (k p : ℕ)
      → lookup k s.flights ≡ some p
      → (view s.nr.slots k ≡ some p)
        × (k ≤ sys_ids)
        × ((s.nr.cells p).op_code ≡ send → (s.nr.cells p).fd < send_cells_count)
