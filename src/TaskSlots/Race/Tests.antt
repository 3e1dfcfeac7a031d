-- ===== src/TaskSlots/Race/Tests.antt =====
-- Add and Del at the same time on a table of two words, of which one slot is free.
use netring.Prelude.{
  ℕ, zero, suc, ◌-◌, ◌^◌, ◌<◌, ◌≡◌, refl, true, ◌&&◌, some, List, [], ◌∷◌, arith, ◌==◌, not,
  entries, sum_below,
}
use netring.TaskSlots.Words.{zero_word, is_zero_below, first_clear}
use netring.TaskSlots.{Slots, word_idx, pending, take_slot, advance, add}
use netring.TaskSlots.Invariant.{view, Valid}
use netring.TaskSlots.Laws.{Stores}
use netring.TaskSlots.Race.{
  outside, looking, facing, idle, counting, Event, quiet, stored, deleted, Race, enter, swap_word,
  absorb, proceed, release, count_release, table, merged, call, translate, delete_hot, count,
}
use netring.TaskSlots.Race.Steps.{seen}
use netring.TaskSlots.Race.Runs.{Run, here, first, at_rest, Replays, race-Replays}
use netring.TaskSlots.Race.Alone.{quiets, alone-Stores}
use netring.TaskSlots.Race.Stalls.{IsFull, returns, uncounted-stalls}

abbrev two_words : Slots ℕ
two_words = record {
  cap = 128;
  tasks = λ i. i;
  bitmap = λ i k. not (i == 1 && k == 0);
  poller_bitmap = λ _. zero_word;
  bitmap_len_mask = 1;
  wave = 0;
  free = 1;
  del_count = 0;
  last_del_count = 0;
  fallback_mask = 2 ^ 56 - 1;
  fallback = [];
  fallback_wave = 0;
}

abbrev ring : ℕ
ring = 2 ^ 63

abbrev back : ℕ
back = 2 ^ 8

two_words-Valid : Valid 2 ring back two_words
unfolding sum_below pending
two_words-Valid = record {
  slots = record {
    some_words = omega arith;
    ring = refl;
    capacity = refl;
    bounded = omega arith;
    mask = refl;
    wave_fits = omega arith;
    counts_fit = (omega arith, omega arith);
    released = λ i k e. absurd (cc);
    free_slots = refl;
    pending_slots = refl;
  };
  back_ring = record { ring = refl; fits = omega arith };
}

-- The translator takes slot 5, which the poller releases and does not count, and then slot 64.
abbrev released : Slots ℕ
released = release 5 two_words

abbrev swapped : Slots ℕ
swapped = swap_word 0 released

abbrev absorbed : Slots ℕ
absorbed = absorb 0 (released.poller_bitmap 0) swapped

abbrev taken_again : Slots ℕ
taken_again = (take_slot 0 5 7 absorbed).1

abbrev moved : Slots ℕ
moved = advance taken_again

abbrev all_taken : Slots ℕ
all_taken = (take_slot 1 0 8 moved).1

abbrev uncounted : Race ℕ
uncounted = record { translator = outside; poller = counting; slots = all_taken }

abbrev events : List (Event ℕ)
events =
    quiet
    ∷ quiet
    ∷ deleted 5
    ∷ quiet
    ∷ quiet
    ∷ quiet
    ∷ stored 5 7
    ∷ quiet
    ∷ quiet
    ∷ quiet
    ∷ stored 64 8
    ∷ []

to_uncounted : Run (at_rest two_words) events uncounted
unfolding enter proceed word_idx pending first_clear is_zero_below release swap_word absorb
    take_slot advance table merged sum_below
to_uncounted = first (call 7 refl) (
    first (translate refl) (
      first (delete_hot 5 refl (omega arith) refl) (
        first (translate refl) (
          first (translate refl) (
            first (translate refl) (
              first (translate refl) (
                first (call 8 refl) (
                  first (translate refl)
                    (first (translate refl) (first (translate refl) here))))))))))

all_taken-IsFull : IsFull 2 all_taken
unfolding first_clear is_zero_below release swap_word absorb take_slot advance
all_taken-IsFull = record {
  some_words = omega arith;
  mask = refl;
  taken = taken;
  unreleased = unreleased;
}
  where
    taken : (i : ℕ) → i < 2 → first_clear 64 0 (all_taken.bitmap i) ≡ 64
    taken zero small = refl
    taken (suc zero) small = refl
    taken (suc (suc i)) small = absurd (omega arith)

    unreleased : (i : ℕ) → i < 2 → is_zero_below 64 (all_taken.poller_bitmap i) ≡ true
    unreleased zero small = refl
    unreleased (suc zero) small = refl
    unreleased (suc (suc i)) small = absurd (omega arith)

race-Replays_example :
    Valid 2 ring back (table outside counting all_taken)
    × Replays events (view two_words) (seen uncounted)
race-Replays_example = race-Replays two_words two_words-Valid to_uncounted

-- The poller counts its release, and the translator walks on.
abbrev walk : List (Event ℕ)
walk = quiet ∷ quiet ∷ quiet ∷ quiet ∷ []

abbrev walking : Race ℕ
walking = record {
  translator = facing 9 0;
  poller = idle;
  slots = advance (count_release all_taken);
}

to_walking : Run (record uncounted { translator = enter 9 all_taken }) walk walking
unfolding enter proceed word_idx pending first_clear is_zero_below release swap_word absorb
    take_slot advance count_release sum_below
to_walking =
    first (translate refl)
      (first (count refl) (first (translate refl) (first (translate refl) here)))

uncounted-stalls_example : (enter 9 all_taken ≡ looking 9) × (returns walk ≡ 0)
uncounted-stalls_example =
    uncounted-stalls two_words two_words-Valid to_uncounted refl refl all_taken-IsFull 9 to_walking
      (tt)

alone-Stores_example :
    (r : ℕ × Slots ℕ) × (n : ℕ) × Run (at_rest two_words) (quiets n (stored r.0 7)) (at_rest r.1)
    × (add 3 7 two_words ≡ some r)
    × Stores 2 ring back 7 two_words r
unfolding entries
alone-Stores_example = alone-Stores two_words two_words-Valid 7 (omega arith)
