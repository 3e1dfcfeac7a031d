-- ===== src/PriorityQueue.antt =====
-- internal/pqueue/pqueue.go: a bounded priority queue in an array.
pub mod Order
pub mod Up
pub mod Down
pub mod Laws
mod Tests
use netring.Prelude.{
  ℕ, zero, suc, ◌+◌, ◌-◌, ◌*◌, ◌/◌, Bool, true, false, Option, none, some, ◌==◌, ltb, leb,
  if◌then◌else◌, update, swap, ℤ, negsuc, leb_int,
}
use mathlib.Core.Option

-- `queueSlot`
pub record QueueSlot {ℓ} (T : Type ℓ) : Type ℓ where
  pub weight : ℤ
  pub payload : T

-- `PriorityQueue`; `slots` is its array of `cap` entries.
pub record PriorityQueue {ℓ} (T : Type ℓ) : Type ℓ where
  pub slots : ℕ → QueueSlot T
  pub len : ℕ
  pub cap : ℕ

-- `parentIdx`, and `childrenArrayStartIdx`
abbrev pub parent_idx : ℕ → ℕ
parent_idx idx = (idx - 1) / 2

abbrev pub children_array_start_idx : ℕ → ℕ
children_array_start_idx idx = 2 * idx + 1

module _ {ℓ} {T : Type ℓ} where
  -- an empty slot; `nil` is the zero value of T
  abbrev pub no_slot : (nil : T) → QueueSlot T
  no_slot nil = record { weight = negsuc 0; payload = nil }

  -- `New`
  pub new : (nil : T) (capacity : ℕ) → PriorityQueue T
  new nil capacity = record { slots = λ _. no_slot nil; len = 0; cap = capacity }

  -- the loop of `Push`; `none` when the fuel runs out
  pub up_loop : ℕ → (idx : ℕ) → (ℕ → QueueSlot T) → Option (ℕ → QueueSlot T)
  up_loop zero idx d = none
  up_loop (suc f) idx d =
      let pidx = parent_idx idx in
      let rest = up_loop f pidx (swap d pidx idx) in
      if idx == 0 then some d else if leb_int (d pidx).weight (d idx).weight then some d else rest

  -- `Push`: the queue, and whether the payload was taken
  pub push : (weight : ℤ) (payload : T) → PriorityQueue T → Option (PriorityQueue T × Bool)
  push weight payload q =
      if q.len == q.cap
      then some (q, false)
      else Option.map (λ d. (record q { slots = d; len = q.len + 1 }, true))
          (up_loop (q.len + 1) q.len
            (update q.slots q.len (record { weight = weight; payload = payload })))

  -- the child that the loop of `Pop` compares with, of an entry that has one
  pub pick_idx : (len idx : ℕ) → (ℕ → QueueSlot T) → ℕ
  pick_idx len idx d =
      let lidx = children_array_start_idx idx in
      if leb len (lidx + 1)
      then lidx
      else if leb_int (d lidx).weight (d (lidx + 1)).weight
      then lidx
      else lidx + 1

  -- the loop of `Pop`; `none` when the fuel runs out
  pub down_loop : ℕ → (len idx : ℕ) → (ℕ → QueueSlot T) → Option (ℕ → QueueSlot T)
  unfolding pick_idx
  down_loop zero len idx d = none
  down_loop (suc f) len idx d =
      let pick = pick_idx len idx d in
      let rest = down_loop f len pick (swap d idx pick) in
      if ltb idx len
      then if leb len (children_array_start_idx idx)
        then some d
        else if leb_int (d idx).weight (d pick).weight
        then some d
        else rest
      else some d

  -- the two stores of `Pop` before its loop
  pub take_root : (nil : T) → (last : ℕ) → (ℕ → QueueSlot T) → ℕ → QueueSlot T
  take_root nil last d = update (update d 0 (d last)) last (no_slot nil)

  -- `Pop`: the queue, and the payload, or `nil` and false
  pub pop : (nil : T) → PriorityQueue T → Option (PriorityQueue T × T × Bool)
  unfolding take_root
  pop nil q =
      if q.len == 0
      then some (q, nil, false)
      else Option.map (λ d. (record q { slots = d; len = q.len - 1 }, (q.slots 0).payload, true))
          (down_loop q.len (q.len - 1) 0 (take_root nil (q.len - 1) q.slots))
