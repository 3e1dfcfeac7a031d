-- ===== src/TimingWheel/Tests.antt =====
-- Runs of internal/timingwheel/timingwheel.go on a wheel of three nodes.
use mathlib.Core.List.{Mem}
use netring.Prelude.{
  ℕ, ◌+◌, ◌%◌, ◌≡◌, refl, Option, none, some, List, [], ◌∷◌, ◌==◌, update, arith, ℤ, pos,
}
use netring.TimingWheel.{
  TimingWheel, num_buckets, indices_below, new, add, add_free, tick, tick_loop, next_bucket,
}
use netring.TimingWheel.Chains.{Holds, new-Holds}
use netring.TimingWheel.Insert.{Added, add-Added}
use netring.TimingWheel.Expire.{calls, Released, tick-Holds}
use netring.TimingWheel.Fires.{ticks, add-fires}

-- callbacks are numbers here
abbrev empty_wheel : TimingWheel ℕ
empty_wheel = new 3

empty_wheel-Holds : Holds empty_wheel (λ _. [])
empty_wheel-Holds = new-Holds 3 (omega arith)

-- a wheel whose current bucket has one timer
abbrev one_timer : TimingWheel ℕ
one_timer = record empty_wheel {
  current_bucket = 1;
  buckets = update empty_wheel.buckets 1 2;
  fd = update empty_wheel.fd 2 (pos 9);
  callback = update empty_wheel.callback 2 (some 70);
  free_nodes = 1 ∷ 0 ∷ [];
}

abbrev fired : Option (TimingWheel ℕ × List (ℕ × ℤ)) → List (ℕ × ℤ)
fired none = []
fired (some (_, calls)) = calls

tick_calls : fired (tick one_timer) ≡ (70, pos 9) ∷ []
unfolding tick tick_loop
tick_calls = refl

add_takes : (add 5 (pos 4) (some 60) one_timer).1 ≡ record { index = 1; generation = 0 }
unfolding add add_free
add_takes = refl

add-Added_example :
    Added 5
      (pos 4)
      (some 60)
      empty_wheel
      (λ _. [])
      (add 5 (pos 4) (some 60) empty_wheel)
      (5 == 0)
      empty_wheel.free_nodes
add-Added_example =
    add-Added 5 (pos 4) (some 60) empty_wheel (λ _. []) empty_wheel-Holds (omega arith)

-- the wheel after that, and its lists
abbrev loaded : TimingWheel ℕ
loaded = (add 4096 (pos 4) (some 60) empty_wheel).0

abbrev loaded_lists : ℕ → List ℕ
loaded_lists = update (λ _. []) 0 (2 ∷ [])

loaded-Holds : Holds loaded loaded_lists
unfolding indices_below
loaded-Holds =
    let (_, _, _, _, _, _, holds) =
      add-Added 4096 (pos 4) (some 60) empty_wheel (λ _. []) empty_wheel-Holds (omega arith) in
    holds

tick-Holds_example :
    (after : TimingWheel ℕ) × (tick loaded
      ≡ some (after, calls loaded (loaded_lists loaded.current_bucket)))
    × Released (next_bucket loaded) after (loaded_lists loaded.current_bucket)
    × Holds after (update loaded_lists loaded.current_bucket [])
tick-Holds_example = tick-Holds loaded loaded_lists loaded-Holds

-- a time of 4097 seconds
add-fires_example :
    (before : TimingWheel ℕ) × (ticks
        (4097 % num_buckets)
        (add 4097 (pos 4) (some 60) empty_wheel).0
      ≡ some before)
    × (before.generation 2 ≡ (add 4097 (pos 4) (some 60) empty_wheel).1.generation)
    × ((after : TimingWheel ℕ) × (fired_calls : List (ℕ × ℤ)) × (tick before
          ≡ some (after, fired_calls))
        × Mem (60, pos 4) fired_calls
        × (after.generation 2 ≡ (before.generation 2 + 1) % 4294967296))
unfolding indices_below
add-fires_example =
    add-fires 4097 (pos 4) 60 empty_wheel (λ _. []) 2 (1 ∷ 0 ∷ []) empty_wheel-Holds (omega arith)
      (ground arith) refl
