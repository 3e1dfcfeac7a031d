-- ===== src/TaskSlots/Race/Shared.antt =====
-- What holds of the table between two steps, and what a step does to it.
use netring.Prelude.{
  ℕ, ◌<◌, ◌≡◌, refl, true, false, Option, none, some, arith, ◌==◌, ltb, if◌then◌else◌, lookup,
  Bool-cases, Option-cases, inl, inr,
}
use netring.TaskSlots.Words.{Word, is_zero_below, first_clear, first_clear-clear}
use netring.TaskSlots.{Slots, word_idx, fallback_idx, next_fallback, take_slot, advance}
use netring.TaskSlots.Invariant.{view, Valid}
use netring.TaskSlots.Keeps.{advance-Inv, take_slot-Inv, take_slot-fresh, take_slot-view}
use netring.TaskSlots.Adds.{word_idx-lt}
use netring.TaskSlots.Fallback.{Inv-fallback, AddedBack-here, next_fallback-Wraps}
use netring.TaskSlots.Race.{
  Translator, outside, saturated, looking, facing, swapping, holding, Poller, Event, quiet, stored,
  deleted, proceed, swap_word, merged, table,
}
use netring.TaskSlots.Race.Absorb.{
  swap_word-table, swap_word-clears, absorb-Inv, absorb-view, absorb-Wraps,
}

module _ {ℓ} {T : Type ℓ} where
  -- What the step may do to the map that the table stands for.
  abbrev pub Acts : Event T → (ℕ → Option T) → (ℕ → Option T) → Type ℓ
  Acts quiet m n = (j : ℕ) → n j ≡ m j
  Acts (stored i v) m n = (m i ≡ none) × ((j : ℕ) → n j ≡ (if i == j then some v else m j))
  Acts (deleted i) m n = (j : ℕ) → n j ≡ (if i == j then none else m j)

  -- The word that the translator looks at is one of the table's, and the bits that it holds are none
  -- of the poller's.
  abbrev pub Placed : ℕ → Translator T → Slots T → Type 0
  Placed words outside s = Unit
  Placed words (saturated v) s = Unit
  Placed words (looking v) s = Unit
  Placed words (facing v i) s = i < words
  Placed words (swapping v i) s = i < words
  Placed words (holding v i pw) s =
      (i < words) × ((k : ℕ) → pw k ≡ true → s.poller_bitmap i k ≡ false)

  pub record Moves (words ring back : ℕ) (p : Poller) (m : ℕ → Option T)
      (next : Event T × Translator T × Slots T) : Type ℓ where
    pub valid : Valid words ring back (table next.1 p next.2)
    pub placed : Placed words next.1 next.2
    pub acts : Acts next.0 m (view (table next.1 p next.2))

  module _ {words ring back : ℕ} (p : Poller) (s : Slots T) where
    module _ (v : T) where
      saturated-Moves :
          Valid words ring back (table (saturated v) p s)
          → Moves words ring back p (view (table (saturated v) p s)) (proceed (saturated v) s)
      unfolding proceed table merged next_fallback fallback_idx
      saturated-Moves valid = elim (Option-cases (lookup (fallback_idx s) s.fallback)) [
        | inl missing ↦
            let a = AddedBack-here back v (table (saturated v) p s) missing valid.back_ring in
            rw (missing, proceed)
              (record {
                valid = record { slots = a.keeps valid.slots; back_ring = a.wraps };
                placed = tt;
                acts = (a.fresh, a.stored);
              })
        | inr (w, there) ↦
            rw (there, proceed)
              (record {
                valid = record {
                  slots = Inv-fallback (table (saturated v) p s) _ _ valid.slots;
                  back_ring = next_fallback-Wraps back (table (saturated v) p s) valid.back_ring;
                };
                placed = tt;
                acts = λ j. refl;
              })
      ]

      looking-Moves :
          Valid words ring back (table (looking v) p s)
          → Moves words ring back p (view (table (looking v) p s)) (proceed (looking v) s)
      unfolding proceed table merged take_slot word_idx
      looking-Moves valid =
          let b = first_clear 64 0 (s.bitmap (word_idx s)) in
          let full : Slots T = table (looking v) p s in
          let here : word_idx s < words = word_idx-lt v full valid.slots in
          elim (Bool-cases (ltb b 64)) [
            | inl found ↦
                let lt : b < 64 = ground arith in
                let empty = first_clear-clear 64 0 (s.bitmap (word_idx s)) (omega arith) in
                rw found (record {
                  valid = record {
                    slots = take_slot-Inv full valid.slots (word_idx s) b v here lt empty;
                    back_ring = record { ring = valid.back_ring.ring; fits = valid.back_ring.fits };
                  };
                  placed = tt;
                  acts = (
                    take_slot-fresh full valid.slots (word_idx s) b v here lt empty,
                    take_slot-view full valid.slots (word_idx s) b v here lt empty,
                  );
                })
            | inr none_clear ↦
                rw none_clear (record { valid = valid; placed = here; acts = λ j. refl })
          ]

      facing-Moves :
          (i : ℕ)
          → Valid words ring back (table (facing v i) p s)
          → i < words
          → Moves words ring back p (view (table (facing v i) p s)) (proceed (facing v i) s)
      unfolding proceed table merged advance
      facing-Moves i valid here = elim (Bool-cases (is_zero_below 64 (s.poller_bitmap i))) [
        | inl zero_here ↦ rw zero_here (record {
          valid = record {
            slots = advance-Inv (table (facing v i) p s) valid.slots;
            back_ring = record { ring = valid.back_ring.ring; fits = valid.back_ring.fits };
          };
          placed = tt;
          acts = λ j. refl;
        })
        | inr some_bit ↦ rw some_bit (record { valid = valid; placed = here; acts = λ j. refl })
      ]

      swapping-Moves :
          (i : ℕ)
          → Valid words ring back (table (swapping v i) p s)
          → i < words
          → Moves words ring back p (view (table (swapping v i) p s)) (proceed (swapping v i) s)
      unfolding proceed
      swapping-Moves i valid here = record {
        valid = rw (swap_word-table v p s i) valid;
        placed = (here, cleared);
        acts = λ j. rw (swap_word-table v p s i) refl;
      }
        where
          cleared : (k : ℕ) → s.poller_bitmap i k ≡ true → (swap_word i s).poller_bitmap i k ≡ false
          cleared k on = rw (swap_word-clears i s k) refl

      holding-Moves :
          (i : ℕ) (pw : Word)
          → Valid words ring back (table (holding v i pw) p s)
          → Placed words (holding v i pw) s
          → Moves words ring back p (view (table (holding v i pw) p s)) (proceed (holding v i pw) s)
      unfolding proceed
      holding-Moves i pw valid (here, apart) = record {
        valid = record {
          slots = absorb-Inv v p s i pw here apart valid.slots;
          back_ring = absorb-Wraps v p s i pw valid.back_ring;
        };
        placed = tt;
        acts = absorb-view v p s i pw here apart valid.slots;
      }

    -- A step of Add keeps the table valid, and only its last step acts on the map.
    pub proceed-Moves :
        (t : Translator T)
        → Valid words ring back (table t p s)
        → Placed words t s
        → Moves words ring back p (view (table t p s)) (proceed t s)
    unfolding proceed
    proceed-Moves outside valid placed = record { valid = valid; placed = placed; acts = λ j. refl }
    proceed-Moves (saturated v) valid placed = saturated-Moves v valid
    proceed-Moves (looking v) valid placed = looking-Moves v valid
    proceed-Moves (facing v i) valid placed = facing-Moves v i valid placed
    proceed-Moves (swapping v i) valid placed = swapping-Moves v i valid placed
    proceed-Moves (holding v i pw) valid placed = holding-Moves v i pw valid placed
