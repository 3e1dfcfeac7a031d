-- ===== src/TaskSlots/Keeps.antt =====
-- The parts of Add, and Del, keep the invariant and act on the map as they should.
use netring.Prelude.{
  ℕ, ◌+◌, ◌*◌, ◌/◌, ◌%◌, ◌≤◌, ◌<◌, ◌≡◌, refl, true, false, none, some, arith, ◌==◌, ltb, leb,
  ==_iff, ==_refl, if◌then◌else◌, sum_below, sum_below-change, sum_below-le, count_below-le,
  Bool-cases, inl, inr,
}
use netring.TaskSlots.Counting.{clear-xor, ones-zero, clear-set_bit, ones-set_bit}
use netring.TaskSlots.Words.{ones}
use netring.TaskSlots.{Slots, sys_ids, pending, take_slot, advance, sync_word, del}
use netring.TaskSlots.Invariant.{clear, live, view, Inv}

module _ {ℓ} {T : Type ℓ} {words ratio : ℕ} (s : Slots T) (inv : Inv words ratio s) where
  open inv use {capacity, bounded, released, free_slots, pending_slots, counts_fit}

  free-le : s.free ≤ words * 64
  free-le =
      let bound = sum_below-le words 64 (λ i. clear (s.bitmap i)) (λ i. count_below-le 64 _) in
      omega (arith, bound)

  pub advance-Inv : Inv words ratio (advance s)
  unfolding advance pending
  advance-Inv = record {
    some_words = inv.some_words;
    ring = inv.ring;
    capacity = capacity;
    bounded = bounded;
    mask = inv.mask;
    wave_fits = omega arith;
    counts_fit = counts_fit;
    released = released;
    free_slots = free_slots;
    pending_slots = pending_slots;
  }

  pub advance-view : (j : ℕ) → view (advance s) j ≡ view s j
  unfolding advance
  advance-view j = refl

  module _ (i : ℕ) (here : i < words) where
    abbrev freed : ℕ
    freed = ones (s.poller_bitmap i)

    free-sync : sum_below words (λ j. clear ((sync_word i s).bitmap j)) ≡ s.free + freed
    unfolding sync_word
    free-sync =
        let change =
          sum_below-change words (λ j. clear (s.bitmap j)) (λ j. clear ((sync_word i s).bitmap j)) i
            here (λ j q. rw q) in
        let row = clear-xor 64 (s.bitmap i) (s.poller_bitmap i) (released i) in
        let here : clear ((sync_word i s).bitmap i) ≡ clear (s.bitmap i) + freed =
          rw (==_refl i) row in
        omega arith

    pending-sync : sum_below words (λ j. ones ((sync_word i s).poller_bitmap j)) + freed ≡ pending s
    unfolding sync_word
    pending-sync =
        let change =
          sum_below-change words (λ j. ones (s.poller_bitmap j))
            (λ j. ones ((sync_word i s).poller_bitmap j)) i here (λ j q. rw q) in
        let here : ones ((sync_word i s).poller_bitmap i) ≡ 0 = rw (==_refl i) (ones-zero 64) in
        omega arith

    sync-le : s.free + freed ≤ words * 64
    sync-le = rw (← free-sync) (sum_below-le words 64 _ (λ j. count_below-le 64 _))

    freed-le : freed ≤ 64
    freed-le = count_below-le 64 (s.poller_bitmap i)

    pub sync_word-Inv : Inv words ratio (sync_word i s)
    unfolding sync_word pending
    sync_word-Inv = record {
      some_words = inv.some_words;
      ring = inv.ring;
      capacity = capacity;
      bounded = bounded;
      mask = inv.mask;
      wave_fits = inv.wave_fits;
      counts_fit = omega arith;
      released = λ j k e. ground (arith, released j k);
      free_slots = omega (arith, free-sync, sync-le);
      pending_slots = omega (arith, pending-sync, freed-le);
    }

    sync-live : (j : ℕ) → live (sync_word i s) j ≡ live s j
    unfolding sync_word
    sync-live j = ground (arith, released i (j % 64))

    pub sync_word-view : (j : ℕ) → view (sync_word i s) j ≡ view s j
    unfolding sync_word
    sync_word-view j = rw (sync-live j)

  module _ (i b : ℕ) (v : T) (here : i < words) (inside : b < 64) where
    module _ (empty : s.bitmap i b ≡ false) where
      free-take : sum_below words (λ j. clear ((take_slot i b v s).1.bitmap j)) + 1 ≡ s.free
      unfolding take_slot
      free-take =
          let change =
            sum_below-change words (λ j. clear (s.bitmap j))
              (λ j. clear ((take_slot i b v s).1.bitmap j)) i here (λ j q. rw q) in
          let row = clear-set_bit b (s.bitmap i) inside empty in
          let here : clear ((take_slot i b v s).1.bitmap i) + 1 ≡ clear (s.bitmap i) =
            rw (==_refl i) row in
          omega arith

      pub take_slot-Inv : Inv words ratio (take_slot i b v s).1
      unfolding take_slot pending
      take_slot-Inv = record {
        some_words = inv.some_words;
        ring = inv.ring;
        capacity = capacity;
        bounded = bounded;
        mask = inv.mask;
        wave_fits = inv.wave_fits;
        counts_fit = counts_fit;
        released = λ j k e. ground (arith, released j k);
        free_slots = omega (arith, free-take, free-le);
        pending_slots = pending_slots;
      }

      not-released : s.poller_bitmap i b ≡ false
      not-released = ground (arith, released i b)

      in_range : ltb (i * 64 + b) s.cap ≡ true
      in_range = ground arith

      -- The slot was free.
      pub take_slot-fresh : view s (i * 64 + b) ≡ none
      take_slot-fresh =
          let word : (i * 64 + b) / 64 ≡ i = omega arith in
          let place : (i * 64 + b) % 64 ≡ b = omega arith in rw (in_range, word, place, empty)

      take-live :
          (j : ℕ) → live (take_slot i b v s).1 j ≡ (if i * 64 + b == j then true else live s j)
      unfolding take_slot
      take-live j = ground (arith, not-released)

      pub take_slot-view :
          (j : ℕ) → view (take_slot i b v s).1 j ≡ (if i * 64 + b == j then some v else view s j)
      unfolding take_slot
      take_slot-view j = elim (Bool-cases (i * 64 + b == j)) [
        | inl e ↦
            let at : i * 64 + b ≡ j = (==_iff _ _).0 e in
            let inside : ltb j s.cap ≡ true = rw at at in_range in rw (take-live j, inside, e)
        | inr e ↦ rw (take-live j, e)
      ]

  module _ (idx : ℕ) (held : live s idx ≡ true) (hot : idx < s.cap) where
    abbrev word : ℕ
    word = idx / 64

    pending-del : sum_below words (λ j. ones ((del idx s).poller_bitmap j)) ≡ pending s + 1
    unfolding del
    pending-del =
        let cold : leb s.cap idx ≡ false = ground arith in
        let change =
          sum_below-change words (λ j. ones (s.poller_bitmap j))
            (λ j. ones ((del idx s).poller_bitmap j)) word (omega arith) (λ j q. rw (cold, q)) in
        let row = ones-set_bit (idx % 64) (s.poller_bitmap word) (omega arith) (ground arith) in
        let here : ones ((del idx s).poller_bitmap word) ≡ ones (s.poller_bitmap word) + 1 =
          rw (cold, ==_refl word) row in
        omega arith

    pub del-Inv : Inv words ratio (del idx s)
    unfolding del pending
    del-Inv =
        let cold : leb s.cap idx ≡ false = ground arith in
        let after = rw cold at pending-del in
        let few = sum_below-le words 64 _ (λ j. count_below-le 64 (s.poller_bitmap j)) in
        rw cold (record {
          some_words = inv.some_words;
          ring = inv.ring;
          capacity = capacity;
          bounded = bounded;
          mask = inv.mask;
          wave_fits = inv.wave_fits;
          counts_fit = omega arith;
          released = λ j k e. ground (arith, released j k);
          free_slots = free_slots;
          pending_slots = omega (arith, after, few);
        })

    del-live : (j : ℕ) → live (del idx s) j ≡ (if idx == j then false else live s j)
    unfolding del
    del-live j = let cold : leb s.cap idx ≡ false = ground arith in rw cold (ground arith)

    pub del-same :
        ((del idx s).cap ≡ s.cap)
        × ((del idx s).tasks ≡ s.tasks)
        × ((del idx s).fallback ≡ s.fallback)
        × ((del idx s).fallback_wave ≡ s.fallback_wave)
        × ((del idx s).fallback_mask ≡ s.fallback_mask)
    unfolding del
    del-same =
        let cold : leb s.cap idx ≡ false = ground arith in rw cold (refl, refl, refl, refl, refl)

    pub del_hot-view : (j : ℕ) → view (del idx s) j ≡ (if idx == j then none else view s j)
    del_hot-view j =
        let (same_cap, same_tasks, same_fallback, _, _) = del-same in
        rw (del-live j, same_cap, same_tasks, same_fallback)
          (elim (Bool-cases (idx == j)) [
            | inl e ↦
                let at : idx ≡ j = (==_iff _ _).0 e in
                let inside : ltb j s.cap ≡ true = ground arith in rw (e, inside)
            | inr e ↦ rw e
          ])

module _ {ℓ} {T : Type ℓ} where
  pub del-same_bounds :
      (idx : ℕ) (s : Slots T)
      → ((del idx s).cap ≡ s.cap) × ((del idx s).fallback_mask ≡ s.fallback_mask)
  unfolding del
  del-same_bounds idx s = elim (Bool-cases (leb s.cap idx)) [
    | inr hot ↦ rw hot (refl, refl)
    | inl cold ↦ elim (Bool-cases (ltb sys_ids idx)) [
      | inl system ↦ rw (cold, system) (refl, refl)
      | inr task ↦ rw (cold, task) (refl, refl)
    ]
  ]
