-- ===== src/TaskSlots.antt =====
-- internal/taskslots/taskslots.go: the table of in-flight tasks.
pub mod Words
pub mod Invariant
pub mod Counting
pub mod Keeps
pub mod Adds
pub mod Fallback
pub mod Creation
pub mod Laws
pub mod Race
mod Tests
use netring.Prelude.{
  ℕ, zero, suc, ◌+◌, ◌-◌, ◌*◌, ◌/◌, ◌%◌, ◌^◌, ◌≤◌, ◌<◌, ◌≡◌, Bool, true, false, ◌&&◌, ◌||◌, Option,
  none, some, List, [], ◌==◌, ltb, leb, if◌then◌else◌, update, update_row, lookup, insert, delete,
  ones_count, trailing_zeros,
}
use netring.TaskSlots.Words.{Word, zero_word, set_bit, xor_word, ones, is_zero_below, first_clear}

-- `Slots[T]`. The two bitmaps and `tasks` are families over their index.
pub record Slots {ℓ} (T : Type ℓ) : Type ℓ where
  pub cap : ℕ
  pub tasks : ℕ → T
  pub bitmap : ℕ → Word  -- owned by the translator
  pub poller_bitmap : ℕ → Word  -- bits that the poller released
  pub bitmap_len_mask : ℕ
  pub wave : ℕ
  pub free : ℕ
  pub del_count : ℕ
  pub last_del_count : ℕ
  pub fallback_mask : ℕ
  pub fallback : List (ℕ × T)
  pub fallback_wave : ℕ

pub data NewError : Type 0 where
  not_power_of_two too_small zero_sized not_word_sized : NewError

pub data NewResult {ℓ} (A : Type ℓ) : Type ℓ where
  ok : A → NewResult A
  err : NewError → NewResult A

abbrev pub sys_ids : ℕ
sys_ids = 2 ^ 63

module _ {ℓ} {T : Type ℓ} where
  -- `New`. `sizeof` is the size of T, and `nil` its zero value. A negative capacity is a bit pattern
  -- with bit 63 set; the second test refuses the only such power of two.
  pub new : (sizeof : ℕ) (nil : T) (capacity : ℕ) → NewResult (Slots T)
  new sizeof nil capacity =
      if ones_count 64 capacity == 1
      then if ltb capacity 4096 || leb (2 ^ 63) capacity
        then err too_small
        else if sizeof == 0
        then err zero_sized
        else if sizeof % 8 == 0
        then ok (record {
          cap = capacity;
          tasks = λ _. nil;
          bitmap = λ _. zero_word;
          poller_bitmap = λ _. zero_word;
          bitmap_len_mask = capacity / 64 - 1;
          wave = 0;
          free = capacity;
          del_count = 0;
          last_del_count = 0;
          fallback_mask = 2 ^ (63 - trailing_zeros 64 capacity) - 1;
          fallback = [];
          fallback_wave = 0;
        })
        else err not_word_sized
      else err not_power_of_two

  -- `s.wave & s.bitmapLenMask`, the mask being one below a power of two
  pub word_idx : Slots T → ℕ
  word_idx s = s.wave % (s.bitmap_len_mask + 1)

  -- `s.delCount - s.lastDelCount` on uint64
  pub pending : Slots T → ℕ
  pending s = (s.del_count + 2 ^ 64 - s.last_del_count) % 2 ^ 64

  -- `(s.fallbackWave & s.fallbackMask) + s.cap`
  pub fallback_idx : Slots T → ℕ
  fallback_idx s = s.fallback_wave % (s.fallback_mask + 1) + s.cap

  -- the index is tried, so the wave goes on whatever is found there
  pub next_fallback : Slots T → Slots T
  next_fallback s = record s { fallback_wave = (s.fallback_wave + 1) % 2 ^ 64 }

  -- the first loop of `Add`; `none` when the fuel runs out
  pub add_fallback : ℕ → T → Slots T → Option (ℕ × Slots T)
  add_fallback zero v s = none
  add_fallback (suc f) v s = elim (lookup (fallback_idx s) s.fallback) [
    | some _ ↦ add_fallback f v (next_fallback s)
    | none ↦ some (
      fallback_idx s,
      record (next_fallback s) { fallback = insert (fallback_idx s) v s.fallback },
    )
  ]

  -- the hot path of `Add`: bit `b` of word `i` is clear
  pub take_slot : ℕ → ℕ → T → Slots T → ℕ × Slots T
  take_slot i b v s = (
    i * 64 + b,
    record s {
      bitmap = update_row s.bitmap i (set_bit b (s.bitmap i));
      tasks = update s.tasks (i * 64 + b) v;
      free = (s.free + 2 ^ 64 - 1) % 2 ^ 64;
    },
  )

  -- `s.wave += 1`
  pub advance : Slots T → Slots T
  advance s = record s { wave = (s.wave + 1) % 2 ^ 64 }

  -- `syncWord` for word `i`
  pub sync_word : ℕ → Slots T → Slots T
  sync_word i s = record s {
    poller_bitmap = update_row s.poller_bitmap i zero_word;
    bitmap = update_row s.bitmap i (xor_word (s.bitmap i) (s.poller_bitmap i));
    free = (s.free + ones (s.poller_bitmap i)) % 2 ^ 64;
    last_del_count = (s.last_del_count + ones (s.poller_bitmap i)) % 2 ^ 64;
  }

  -- the second loop of `Add`; `none` when the fuel runs out
  pub add_loop : ℕ → T → Slots T → Option (ℕ × Slots T)
  add_loop zero v s = none
  add_loop (suc f) v s =
      let i = word_idx s in
      let moved = add_loop f v (advance s) in
      let synced = add_loop f v (sync_word i s) in
      let b = first_clear 64 0 (s.bitmap i) in
      if ltb b 64
      then some (take_slot i b v s)
      else if is_zero_below 64 (s.poller_bitmap i)
      then moved
      else synced

  -- `Add`. An OR of two words is zero when both are.
  pub add : ℕ → T → Slots T → Option (ℕ × Slots T)
  add fuel v s = if s.free == 0 && pending s == 0 then add_fallback fuel v s else add_loop fuel v s

  -- `Del`
  pub del : ℕ → Slots T → Slots T
  del idx s =
      if leb s.cap idx
      then if ltb sys_ids idx then s else record s { fallback = delete idx s.fallback }
      else record s {
        poller_bitmap =
            update_row s.poller_bitmap (idx / 64) (set_bit (idx % 64) (s.poller_bitmap (idx / 64)));
        del_count = (s.del_count + 1) % 2 ^ 64;
      }

  -- `Get`: the task, `nil` where the map has none, and whether it exists
  pub get : T → ℕ → Slots T → T × Bool
  get nil idx s =
      if ltb idx s.cap
      then (s.tasks idx, s.bitmap (idx / 64) (idx % 64))
      else elim (lookup idx s.fallback) [ some v ↦ (v, true) | none ↦ (nil, false) ]
