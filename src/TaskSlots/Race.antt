-- ===== src/TaskSlots/Race.antt =====
-- internal/taskslots/taskslots.go: Add on the translator's thread while Del runs on the poller's. A step
-- is one access to what the two threads share (`pollerBitmap`, `delCount`, and `fallback` under the
-- mutex), with the accesses of its thread to its own words up to the next one.
pub mod Absorb
pub mod Release
pub mod Shared
pub mod Steps
pub mod Runs
pub mod Alone
pub mod Stalls
mod Tests
use netring.Prelude.{
  ℕ, ◌+◌, ◌*◌, ◌/◌, ◌%◌, ◌^◌, ◌≤◌, ◌<◌, ◌≡◌, ◌==◌, true, ◌&&◌, none, some, List, [], ◌∷◌, ltb,
  if◌then◌else◌, update_row, lookup, insert, delete,
}
use netring.TaskSlots.Words.{Word, zero_word, set_bit, xor_word, ones, is_zero_below, first_clear}
use netring.TaskSlots.{
  Slots, sys_ids, word_idx, pending, fallback_idx, next_fallback, take_slot, advance,
}
use netring.TaskSlots.Invariant.{live}

-- where the translator is in `Add`, with the task that it adds
pub data Translator {ℓ} (T : Type ℓ) : Type ℓ where
  outside : Translator T
  saturated : T → Translator T  -- in the first loop
  looking : T → Translator T  -- at the head of the second loop
  facing : T → ℕ → Translator T  -- the word has no clear bit
  swapping : T → ℕ → Translator T  -- the poller's word was not zero
  holding : T → ℕ → Word → Translator T  -- in `syncWord`, with `pw`

-- where the poller is in `Del`
pub data Poller : Type 0 where
  idle : Poller
  counting : Poller  -- the bit is set, and `delCount` is not increased yet

-- what a step does that the other thread's caller can see
pub data Event {ℓ} (T : Type ℓ) : Type ℓ where
  quiet : Event T
  stored : ℕ → T → Event T
  deleted : ℕ → Event T

pub record Race {ℓ} (T : Type ℓ) : Type ℓ where
  pub translator : Translator T
  pub poller : Poller
  pub slots : Slots T

-- the releases that the poller set, with the one that it has not counted yet
pub counted : Poller → ℕ → ℕ
counted idle n = n
counted counting n = (n + 1) % 2 ^ 64

module _ {ℓ} {T : Type ℓ} where
  -- the test at the head of `Add`
  pub enter : T → Slots T → Translator T
  enter v s = if s.free == 0 && pending s == 0 then saturated v else looking v

  -- the swap in `syncWord`
  pub swap_word : ℕ → Slots T → Slots T
  swap_word i s = record s { poller_bitmap = update_row s.poller_bitmap i zero_word }

  -- the rest of `syncWord`
  pub absorb : ℕ → Word → Slots T → Slots T
  absorb i pw s = record s {
    bitmap = update_row s.bitmap i (xor_word (s.bitmap i) pw);
    free = (s.free + ones pw) % 2 ^ 64;
    last_del_count = (s.last_del_count + ones pw) % 2 ^ 64;
  }

  -- the next step of a translator inside `Add`
  pub proceed : Translator T → Slots T → Event T × Translator T × Slots T
  proceed outside s = (quiet, outside, s)
  proceed (saturated v) s = elim (lookup (fallback_idx s) s.fallback) [
    | some _ ↦ (quiet, saturated v, next_fallback s)
    | none ↦ (
      stored (fallback_idx s) v,
      outside,
      record (next_fallback s) { fallback = insert (fallback_idx s) v s.fallback },
    )
  ]
  proceed (looking v) s =
      let i = word_idx s in
      let b = first_clear 64 0 (s.bitmap i) in
      if ltb b 64
      then (stored (take_slot i b v s).0 v, outside, (take_slot i b v s).1)
      else (quiet, facing v i, s)
  proceed (facing v i) s =
      if is_zero_below 64 (s.poller_bitmap i)
      then (quiet, looking v, advance s)
      else (quiet, swapping v i, s)
  proceed (swapping v i) s = (quiet, holding v i (s.poller_bitmap i), swap_word i s)
  proceed (holding v i pw) s = (quiet, looking v, absorb i pw s)

  -- the OR in `Del`
  pub release : ℕ → Slots T → Slots T
  release idx s = record s {
    poller_bitmap =
        update_row s.poller_bitmap (idx / 64) (set_bit (idx % 64) (s.poller_bitmap (idx / 64)));
  }

  -- `s.delCount++`
  pub count_release : Slots T → Slots T
  count_release s = record s { del_count = (s.del_count + 1) % 2 ^ 64 }

  -- `Del` of an index of the fallback map, under the mutex
  pub forget : ℕ → Slots T → Slots T
  forget idx s = record s { fallback = delete idx s.fallback }

  -- bits that the poller set and the translator has not taken into its bitmap
  pub merged : Translator T → (ℕ → Word) → ℕ → Word
  merged outside q = q
  merged (saturated v) q = q
  merged (looking v) q = q
  merged (facing v i) q = q
  merged (swapping v i) q = q
  merged (holding v i pw) q = λ j k. (if i == j && pw k then true else q j k)

  -- The table that the shared memory stands for: a release counts from its OR on, and one that the
  -- translator swapped out counts until it is absorbed.
  pub table : Translator T → Poller → Slots T → Slots T
  table t p s = record s {
    poller_bitmap = merged t s.poller_bitmap;
    del_count = counted p s.del_count;
  }

  -- The poller deletes an index that holds a task.
  pub data Step (r : Race T) : Event T → Race T → Type ℓ where
    call :
        (v : T) → r.translator ≡ outside → Step r quiet (record r { translator = enter v r.slots })
    translate :
        {e : Event T} {t : Translator T} {s : Slots T}
        → proceed r.translator r.slots ≡ (e, t, s)
        → Step r e (record { translator = t; poller = r.poller; slots = s })
    delete_hot :
        (idx : ℕ)
        → r.poller ≡ idle
        → idx < r.slots.cap
        → live (table r.translator r.poller r.slots) idx ≡ true
        → Step r (deleted idx) (record r { poller = counting; slots = release idx r.slots })
    count :
        r.poller ≡ counting
        → Step r quiet (record r { poller = idle; slots = count_release r.slots })
    delete_cold :
        (idx : ℕ) {v : T}
        → r.poller ≡ idle
        → r.slots.cap ≤ idx
        → idx ≤ sys_ids
        → lookup idx r.slots.fallback ≡ some v
        → Step r (deleted idx) (record r { slots = forget idx r.slots })
