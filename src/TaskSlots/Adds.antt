-- ===== src/TaskSlots/Adds.antt =====
-- The hot path of Add ends with a slot that was free.
use netring.Prelude.{
  ℕ, zero, suc, ◌+◌, ◌-◌, ◌≤◌, ◌<◌, ◌≡◌, ◌∙◌, sym, refl, subst, true, false, not, ◌⊎◌, none, some,
  arith, ◌==◌, ==_refl, ltb, leb, if◌then◌else◌, wrapped_succ_mod, sum_below-pos, count_below-pos,
  Bool-cases, inl, inr,
}
use netring.TaskSlots.Words.{
  ones, is_zero_below, first_clear, first_clear-clear, first_clear-lt, is_zero-bit, nonzero-bit,
}
use netring.TaskSlots.{Slots, word_idx, pending, take_slot, advance, sync_word, add_loop}
use netring.TaskSlots.Invariant.{clear, view, Inv}
use netring.TaskSlots.Keeps.{
  advance-Inv, advance-view, sync_word-Inv, sync_word-view, take_slot-Inv, take_slot-fresh,
  take_slot-view,
}

module _ {ℓ} {T : Type ℓ} where
  -- `r` is the index that Add returns, and the table after it.
  pub record Added (words ratio : ℕ) (v : T) (s : Slots T) (r : ℕ × Slots T) : Type ℓ where
    pub inv : Inv words ratio r.1
    pub hot : r.0 < s.cap
    pub fresh : view s r.0 ≡ none
    pub same_back : (r.1.fallback_wave ≡ s.fallback_wave) × (r.1.fallback_mask ≡ s.fallback_mask)
    pub stored : (j : ℕ) → view r.1 j ≡ (if r.0 == j then some v else view s j)

  -- A word from which a slot can be taken, now or after a sync.
  abbrev HasRoom : Slots T → ℕ → Type 0
  HasRoom s j =
      (first_clear 64 0 (s.bitmap j) < 64) ⊎ (is_zero_below 64 (s.poller_bitmap j) ≡ false)

  -- `j` is `d` words ahead of the wave.
  abbrev Ahead : ℕ → Slots T → ℕ → ℕ → Type 0
  Ahead words s d j = (word_idx s + d ≡ j) ⊎ (word_idx s + d ≡ j + words)

  abbrev Adds : ℕ → ℕ → T → ℕ → Slots T → Type ℓ
  Adds words ratio v f s = (r : ℕ × Slots T) × (add_loop f v s ≡ some r) × Added words ratio v s r

  module _ {words ratio : ℕ} (v : T) where
    -- A step that changes nothing that the map shows may come first.
    Added-after :
        (s t : Slots T) (r : ℕ × Slots T)
        → (t.cap ≡ s.cap)
          × (t.fallback_wave ≡ s.fallback_wave)
          × (t.fallback_mask ≡ s.fallback_mask)
        → ((j : ℕ) → view t j ≡ view s j)
        → Added words ratio v t r
        → Added words ratio v s r
    Added-after s t r e same a = record {
      inv = a.inv;
      same_back = omega (arith, e, a.same_back);
      hot = omega (arith, e, a.hot);
      fresh = sym (same r.0) ∙ a.fresh;
      stored = λ j. rw (← same j) (a.stored j);
    }

    pub word_idx-lt : (s : Slots T) → Inv words ratio s → word_idx s < words
    unfolding word_idx
    word_idx-lt s inv = grind (arith, inv.mask, inv.some_words)

    next_word :
        (s : Slots T)
        → Inv words ratio s
        → word_idx (advance s) ≡ (if word_idx s + 1 == words then 0 else word_idx s + 1)
    unfolding word_idx advance
    next_word s inv =
        let wraps = wrapped_succ_mod s.wave ratio words inv.some_words (omega arith) in
        rw (inv.mask, inv.ring) wraps

    -- The word that the wave points at has a clear bit.
    take_now :
        (f : ℕ) (s : Slots T)
        → Inv words ratio s
        → first_clear 64 0 (s.bitmap (word_idx s)) < 64
        → (r : ℕ × Slots T) × (add_loop (suc f) v s ≡ some r) × Added words ratio v s r
    unfolding add_loop take_slot
    take_now f s inv h =
        let i = word_idx s in
        let b = first_clear 64 0 (s.bitmap i) in
        let empty = first_clear-clear 64 0 (s.bitmap i) (omega arith) in
        let here : i < words = word_idx-lt s inv in
        let found : ltb b 64 ≡ true = ground arith in
        (
          take_slot i b v s,
          rw found,
          record {
            inv = take_slot-Inv s inv i b v here h empty;
            same_back = (refl, refl);
            hot = grind (arith, inv.capacity, here);
            fresh = take_slot-fresh s inv i b v here h empty;
            stored = take_slot-view s inv i b v here h empty;
          },
        )

    sync-room :
        (s : Slots T) (i : ℕ)
        → Inv words ratio s
        → is_zero_below 64 (s.poller_bitmap i) ≡ false
        → first_clear 64 0 ((sync_word i s).bitmap i) < 64
    unfolding sync_word
    sync-room s i inv some_bit =
        let (k, small, on) = nonzero-bit 64 (s.poller_bitmap i) some_bit in
        let taken = inv.released i k on in
        first_clear-lt 64 0 k _ (omega arith) (omega arith) (rw (==_refl i, taken, on))

    advance-Ahead :
        (s : Slots T) (d j : ℕ)
        → Inv words ratio s
        → j < words
        → Ahead words s (suc d) j
        → Ahead words (advance s) d j
    advance-Ahead s d j inv h (inl e) = inl (ground (arith, next_word s inv))
    advance-Ahead s d j inv h (inr e) = elim (Bool-cases (word_idx s + 1 == words)) [
      | inl last ↦ inl (ground (arith, next_word s inv))
      | inr more ↦ inr (ground (arith, next_word s inv))
    ]

    -- a slot from the word that the wave points at, after a sync if need be
    take_here :
        (f : ℕ) (s : Slots T)
        → Inv words ratio s
        → HasRoom s (word_idx s)
        → Adds words ratio v (suc (suc f)) s
    unfolding add_loop sync_word word_idx
    take_here f s inv (inl h) = take_now (suc f) s inv h
    take_here f s inv (inr h) =
        elim (Bool-cases (ltb (first_clear 64 0 (s.bitmap (word_idx s))) 64)) [
          | inl room ↦ take_now (suc f) s inv (ground arith)
          | inr full ↦ synced full
        ]
      where
        synced :
            ltb (first_clear 64 0 (s.bitmap (word_idx s))) 64 ≡ false
            → Adds words ratio v (suc (suc f)) s
        synced full =
            let i = word_idx s in
            let t = sync_word i s in
            let keeps = sync_word-Inv s inv i (word_idx-lt s inv) in
            let (r, done, a) = take_now f t keeps (sync-room s i inv h) in
            (
              r,
              rw (full, h) done,
              Added-after s t r (refl, refl, refl) (sync_word-view s inv i (word_idx-lt s inv)) a,
            )

    add_loop_total :
        (f d : ℕ) (s : Slots T)
        → Inv words ratio s
        → (j : ℕ) → j < words
        → Ahead words s d j
        → HasRoom s j
        → d + 2 ≤ f
        → Adds words ratio v f s
    unfolding add_loop advance
    add_loop_total zero d s inv j h a room fuel = absurd (omega arith)
    add_loop_total (suc zero) d s inv j h a room fuel = absurd (omega arith)
    add_loop_total (suc (suc f)) zero s inv j h a room fuel =
        let at : j ≡ word_idx s = grind (arith, word_idx-lt s inv) in
        take_here f s inv (subst (HasRoom s) at room)
    add_loop_total (suc (suc f)) (suc d) s inv j h a room fuel =
        elim (Bool-cases (ltb (first_clear 64 0 (s.bitmap (word_idx s))) 64)) [
          | inl room ↦ take_now (suc f) s inv (ground arith)
          | inr full ↦ elim (Bool-cases (is_zero_below 64 (s.poller_bitmap (word_idx s)))) [
            | inr some_bit ↦ take_here f s inv (inr some_bit)
            | inl nothing ↦
                let moved = advance-Ahead s d j inv h a in
                let (r, done, b) =
                  add_loop_total (suc f) d (advance s) (advance-Inv s inv) j h moved room
                    (omega arith) in
                (
                  r,
                  rw (full, nothing) done,
                  Added-after s (advance s) r (refl, refl, refl) (advance-view s inv) b,
                )
          ]
        ]

    -- A free slot, or one that waits for a sync, shows in some word.
    find_room :
        (s : Slots T)
        → Inv words ratio s
        → 0 < s.free + pending s
        → (j : ℕ) × (j < words) × HasRoom s j
    find_room s inv h = elim (Bool-cases (s.free == 0)) [
      | inr some_free ↦
          let (j, h, some_clear) = sum_below-pos words (λ i. clear (s.bitmap i)) (ground arith) in
          let (k, small, off) = count_below-pos 64 (λ k. not (s.bitmap j k)) some_clear in
          (j, h, inl (first_clear-lt 64 0 k (s.bitmap j) (omega arith) small (ground arith)))
      | inl none_free ↦
          let (j, h, some_on) =
            sum_below-pos words (λ i. ones (s.poller_bitmap i)) (ground arith) in
          let (k, small, on) = count_below-pos 64 (s.poller_bitmap j) some_on in
          (j, h, inr (ground (arith, is_zero-bit 64 k (s.poller_bitmap j))))
    ]

    from_wave :
        (s : Slots T) (j : ℕ)
        → Inv words ratio s
        → j < words
        → (d : ℕ) × (d < words) × Ahead words s d j
    from_wave s j inv h =
        let lt = word_idx-lt s inv in
        elim (Bool-cases (leb (word_idx s) j)) [
          | inl e ↦ (j - word_idx s, omega arith, inl (ground arith))
          | inr e ↦ (j + words - word_idx s, ground arith, inr (omega arith))
        ]

    pub add_loop-Added :
        (fuel : ℕ) (s : Slots T)
        → Inv words ratio s
        → 0 < s.free + pending s
        → words < fuel
        → Adds words ratio v fuel s
    add_loop-Added fuel s inv some_room enough =
        let (j, h, room) = find_room s inv some_room in
        let (d, lt, ahead) = from_wave s j inv h in
        add_loop_total fuel d s inv j h ahead room (omega arith)
