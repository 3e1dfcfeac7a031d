-- ===== src/TaskSlots/Invariant.antt =====
-- What holds of a slot table between operations, and the map that it stands for.
use netring.Prelude.{
  ℕ, ◌+◌, ◌*◌, ◌/◌, ◌%◌, ◌^◌, ◌<◌, ◌≡◌, Bool, true, not, ◌&&◌, Option, none, some, ltb,
  if◌then◌else◌, count_below, sum_below, lookup,
}
use netring.TaskSlots.Words.{Word, ones}
use netring.TaskSlots.{Slots, pending}

-- clear bits of a word of the translator's bitmap
abbrev pub clear : Word → ℕ
clear w = count_below 64 (λ k. not (w k))

module _ {ℓ} {T : Type ℓ} where
  -- Slot `idx` holds a task: its bit is set, and the poller has not released it.
  abbrev pub live : Slots T → ℕ → Bool
  live s idx = s.bitmap (idx / 64) (idx % 64) && not (s.poller_bitmap (idx / 64) (idx % 64))

  -- The finite map that the table stands for.
  abbrev pub view : Slots T → ℕ → Option T
  view s idx =
      if ltb idx s.cap
      then if live s idx then some (s.tasks idx) else none
      else lookup idx s.fallback

  pub record Inv (words ratio : ℕ) (s : Slots T) : Type 0 where
    pub some_words : 0 < words
    pub ring : 2 ^ 64 ≡ ratio * words
    pub capacity : s.cap ≡ words * 64
    pub bounded : s.cap < 2 ^ 63
    pub mask : s.bitmap_len_mask + 1 ≡ words
    pub wave_fits : s.wave < 2 ^ 64
    pub counts_fit : (s.del_count < 2 ^ 64) × (s.last_del_count < 2 ^ 64)
    pub released : (i k : ℕ) → s.poller_bitmap i k ≡ true → s.bitmap i k ≡ true
    pub free_slots : s.free ≡ sum_below words (λ i. clear (s.bitmap i))
    pub pending_slots : pending s ≡ sum_below words (λ i. ones (s.poller_bitmap i))

  -- The wave of the fallback indices wraps together with their ring.
  pub record Wraps (ratio : ℕ) (s : Slots T) : Type 0 where
    pub ring : 2 ^ 64 ≡ ratio * (s.fallback_mask + 1)
    pub fits : s.fallback_wave < 2 ^ 64

  pub record Valid (words ring back : ℕ) (s : Slots T) : Type 0 where
    pub slots : Inv words ring s
    pub back_ring : Wraps back s
