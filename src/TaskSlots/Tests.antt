-- ===== src/TaskSlots/Tests.antt =====
-- The slot table at concrete inputs.
use netring.Prelude.{
  ℕ, ◌+◌, ◌-◌, ◌^◌, ◌≤◌, ◌≡◌, refl, ◌∙◌, ==_refl, Option, none, some, arith, ◌==◌, if◌then◌else◌,
  ones_count, trailing_zeros, entries,
}
use netring.TaskSlots.Words.{first_clear, is_zero_below}
use netring.TaskSlots.{
  Slots, sys_ids, ok, err, not_power_of_two, too_small, new, word_idx, pending, take_slot, add_loop,
  add, del,
}
use netring.TaskSlots.Invariant.{view, Valid}
use netring.TaskSlots.Creation.{IsCapacity, made, made-Inv, made-Wraps}
use netring.TaskSlots.Laws.{Stores, add-Stores, del-view, new-Valid}

abbrev start : Slots ℕ
start = made 0 4096

abbrev after : Option (ℕ × Slots ℕ) → Slots ℕ
after none = start
after (some (i, s)) = s

abbrev index : Option (ℕ × Slots ℕ) → Option ℕ
index none = none
index (some (i, s)) = some i

-- The second task goes to the next bit; a released slot is taken again only after a sync.
adds :
    (index (add 66 7 start) ≡ some 0)
    × (index (add 66 8 (after (add 66 7 start))) ≡ some 1)
    × (index (add 66 9 (del 0 (after (add 66 7 start)))) ≡ some 1)
unfolding add add_loop pending word_idx take_slot first_clear is_zero_below del
adds = (refl, refl, refl)

refused : (new {T = ℕ} 8 0 4097 ≡ err not_power_of_two) × (new {T = ℕ} 8 0 2048 ≡ err too_small)
unfolding new ones_count
refused = (refl, refl)

num_4096-IsCapacity : IsCapacity 4096
unfolding ones_count
num_4096-IsCapacity = record { one_bit = refl; enough = omega arith; positive = omega arith }

abbrev ring : ℕ
ring = 2 ^ (70 - trailing_zeros 64 4096)

abbrev back : ℕ
back = 2 ^ (trailing_zeros 64 4096 + 1)

start-Valid : Valid 64 ring back start
start-Valid = record {
  slots = made-Inv 0 4096 num_4096-IsCapacity;
  back_ring = made-Wraps 0 4096 num_4096-IsCapacity;
}

new-Valid_example :
    (s : Slots ℕ) × (new 8 0 4096 ≡ ok s) × Valid 64 ring back s × ((j : ℕ) → view s j ≡ none)
new-Valid_example = new-Valid 0 4096 8 num_4096-IsCapacity (omega arith) (omega arith)

add-Stores_example : (r : ℕ × Slots ℕ) × (add 65 7 start ≡ some r) × Stores 64 ring back 7 start r
unfolding entries
add-Stores_example = add-Stores start start-Valid 65 7 (omega arith) (omega arith) (omega arith)

-- a table that holds task 7
abbrev one_task : (r : ℕ × Slots ℕ) × (add 65 7 start ≡ some r) × Stores 64 ring back 7 start r
unfolding entries
one_task = add-Stores start start-Valid 65 7 (omega arith) (omega arith) (omega arith)

abbrev idx : ℕ
idx = one_task.0.0

abbrev table : Slots ℕ
table = one_task.0.1

holds : view table idx ≡ some 7
holds = one_task.2.stored idx ∙ rw (==_refl idx)

in_range : idx ≤ sys_ids
in_range = let hot = one_task.2.hot_iff.1 (omega arith) in omega arith

del-view_example :
    Valid 64 ring back (del idx table)
    × ((j : ℕ) → view (del idx table) j ≡ (if idx == j then none else view table j))
del-view_example = del-view table one_task.2.valid idx holds in_range
