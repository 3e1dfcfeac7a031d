-- ===== src/PriorityQueue/Tests.antt =====
-- Runs of internal/pqueue/pqueue.go on a queue of three entries.
use netring.Prelude.{ℕ, ◌+◌, ◌≡◌, refl, arith, Bool, ◌==◌, if◌then◌else◌, pos, Option, none, some}
use netring.PriorityQueue.{PriorityQueue, push, pop, pick_idx, up_loop, down_loop, take_root}
use netring.PriorityQueue.Laws.{IsHeap, Pushed, Popped, push-Pushed, pop-Popped}

-- weights 2, 7, 4 in an array of four
abbrev three : PriorityQueue ℕ
three = record {
  slots = λ i. record {
    weight = pos (if i == 0 then 2 else if i == 1 then 7 else 4);
    payload = i + 10;
  };
  len = 3;
  cap = 4;
}

abbrev payloads : Option (PriorityQueue ℕ × Bool) → ℕ × ℕ × ℕ × ℕ
payloads none = (0, 0, 0, 0)
payloads (some (q, _)) =
    ((q.slots 0).payload, (q.slots 1).payload, (q.slots 2).payload, (q.slots 3).payload)

push_rises : payloads (push (pos 1) 99 three) ≡ (99, 10, 12, 11)
unfolding push up_loop
push_rises = refl

abbrev popped : Option (PriorityQueue ℕ × ℕ × Bool) → ℕ × ℕ × ℕ
popped none = (0, 0, 0)
popped (some (q, payload, _)) = (payload, (q.slots 0).payload, (q.slots 1).payload)

pop_sinks : popped (pop 0 three) ≡ (10, 12, 11)
unfolding pop down_loop pick_idx take_root
pop_sinks = refl

three-IsHeap : IsHeap three
three-IsHeap = record { fits = omega arith; ordered = λ c above inside. ground arith }

push-Pushed_example :
    (r : PriorityQueue ℕ × Bool) × (push (pos 1) 99 three ≡ some r) × Pushed (pos 1) 99 three r
push-Pushed_example = push-Pushed (pos 1) 99 three three-IsHeap

pop-Popped_example : (r : PriorityQueue ℕ × ℕ × Bool) × (pop 0 three ≡ some r) × Popped 0 three r
pop-Popped_example = pop-Popped 0 three three-IsHeap
