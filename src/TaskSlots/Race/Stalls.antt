-- ===== src/TaskSlots/Race/Stalls.antt =====
-- taskslots.go:89, 131: the test of Add on a table that is full, with a release that Del has not counted.
use netring.Prelude.{
  ℕ, zero, suc, ◌+◌, ◌-◌, ◌%◌, ◌^◌, ◌≤◌, ◌<◌, ◌≡◌, ◌≢◌, refl, subst, sym, ◌∙◌, true, false, List,
  [], ◌∷◌, arith, ◌==◌, ltb, count_below, sum_below,
}
use netring.TaskSlots.Words.{Word, ones, is_zero_below, first_clear}
use netring.TaskSlots.{Slots, word_idx, pending, advance}
use netring.TaskSlots.Invariant.{Inv, Valid}
use netring.TaskSlots.Race.{
  Translator, outside, saturated, looking, facing, swapping, holding, counting, Event, quiet,
  stored, deleted, Race, enter, proceed, count_release, forget, counted, merged, table, Step, call,
  translate, delete_hot, count, delete_cold,
}
use netring.TaskSlots.Race.Runs.{Run, here, first, at_rest, race-Replays}

zero-ones : (n : ℕ) (w : Word) → is_zero_below n w ≡ true → count_below n w ≡ 0
unfolding is_zero_below sum_below
zero-ones zero w h = refl
zero-ones (suc n) w h = ground (arith, zero-ones n w)

zero-sum :
    (n m : ℕ) (q : ℕ → Word)
    → n ≤ m
    → ((i : ℕ) → i < m → is_zero_below 64 (q i) ≡ true)
    → sum_below n (λ i. ones (q i)) ≡ 0
unfolding sum_below
zero-sum zero m q le h = refl
zero-sum (suc n) m q le h =
    omega (arith, zero-sum n m q (omega arith) h, zero-ones 64 (q n) (h n (omega arith)))

module _ {ℓ} {T : Type ℓ} where
  -- every slot is taken, and no bit of the poller's is set
  pub record IsFull (words : ℕ) (s : Slots T) : Type 0 where
    pub some_words : 0 < words
    pub mask : s.bitmap_len_mask + 1 ≡ words
    pub taken : (i : ℕ) → i < words → first_clear 64 0 (s.bitmap i) ≡ 64
    pub unreleased : (i : ℕ) → i < words → is_zero_below 64 (s.poller_bitmap i) ≡ true

  -- in the second loop of Add
  abbrev Loops : ℕ → Translator T → Type 0
  Loops words outside = ⊥
  Loops words (saturated v) = ⊥
  Loops words (looking v) = Unit
  Loops words (facing v i) = i < words
  Loops words (swapping v i) = ⊥
  Loops words (holding v i pw) = ⊥

  -- how many of the events are an Add that returns
  abbrev pub returns : List (Event T) → ℕ
  returns [] = 0
  returns (quiet ∷ es) = returns es
  returns (stored i v ∷ es) = suc (returns es)
  returns (deleted i ∷ es) = returns es

  -- The poller releases none of the slots, but entries of the fallback map at most.
  abbrev pub IsCold : ℕ → List (Event T) → Type 0
  IsCold cap [] = Unit
  IsCold cap (quiet ∷ es) = IsCold cap es
  IsCold cap (stored i v ∷ es) = IsCold cap es
  IsCold cap (deleted i ∷ es) = (cap ≤ i) × IsCold cap es

  record Stalls (words cap : ℕ) (next : Event T × Translator T × Slots T) : Type 0 where
    full : IsFull words next.2
    loops : Loops words next.1
    none_stored : returns (next.0 ∷ []) ≡ 0
    same_cap : next.2.cap ≡ cap

  word_idx-small : (words : ℕ) (s : Slots T) → IsFull words s → word_idx s < words
  unfolding word_idx
  word_idx-small words s full = grind (arith, full.mask, full.some_words)

  proceed-Stalls :
      (words : ℕ) (t : Translator T) (s : Slots T)
      → IsFull words s
      → Loops words t
      → Stalls words s.cap (proceed t s)
  unfolding proceed advance
  proceed-Stalls words outside s full loops = elim loops [ ]
  proceed-Stalls words (saturated v) s full loops = elim loops [ ]
  proceed-Stalls words (swapping v i) s full loops = elim loops [ ]
  proceed-Stalls words (holding v i pw) s full loops = elim loops [ ]
  proceed-Stalls words (looking v) s full loops =
      rw none_clear (record { full = full; loops = small; none_stored = refl; same_cap = refl })
    where
      small : word_idx s < words
      small = word_idx-small words s full

      none_clear : ltb (first_clear 64 0 (s.bitmap (word_idx s))) 64 ≡ false
      none_clear = let all = full.taken (word_idx s) small in ground arith
  proceed-Stalls words (facing v i) s full loops = rw (full.unreleased i loops) (record {
    full = record {
      some_words = full.some_words;
      mask = full.mask;
      taken = full.taken;
      unreleased = full.unreleased;
    };
    loops = tt;
    none_stored = refl;
    same_cap = refl;
  })

  module _ (words : ℕ) where
    Step-Stalls :
        (r : Race T) {e : Event T} {r' : Race T}
        → Step r e r'
        → IsFull words r.slots
        → Loops words r.translator
        → IsCold r.slots.cap (e ∷ [])
        → Stalls words r.slots.cap (e, r'.translator, r'.slots)
    unfolding count_release forget
    Step-Stalls r (call v away) full loops cold = elim (subst (Loops words) away loops) [ ]
    Step-Stalls r (translate moved) full loops cold =
        subst (Stalls words r.slots.cap) moved
          (proceed-Stalls words r.translator r.slots full loops)
    Step-Stalls r (delete_hot idx at_idle hot held) full loops cold = absurd (omega (arith, cold.0))
    Step-Stalls r (count at_counting) full loops cold = record {
      full = record {
        some_words = full.some_words;
        mask = full.mask;
        taken = full.taken;
        unreleased = full.unreleased;
      };
      loops = loops;
      none_stored = refl;
      same_cap = refl;
    }
    Step-Stalls r (delete_cold idx at_idle past task there) full loops cold = record {
      full = record {
        some_words = full.some_words;
        mask = full.mask;
        taken = full.taken;
        unreleased = full.unreleased;
      };
      loops = loops;
      none_stored = refl;
      same_cap = refl;
    }

    Run-Stalls :
        {r r' : Race T} {es : List (Event T)}
        → Run r es r'
        → IsFull words r.slots
        → Loops words r.translator
        → IsCold r.slots.cap es
        → (returns es ≡ 0) × Loops words r'.translator
    Run-Stalls here full loops cold = (refl, loops)
    Run-Stalls {r} (first {e} {es} step rest) full loops cold =
        let (now, later) = cold-split r.slots.cap e es cold in
        let stalls = Step-Stalls r step full loops now in
        let (none, still) =
          Run-Stalls rest stalls.full stalls.loops
            (subst (λ c. IsCold c es) (sym stalls.same_cap) later) in
        (returns-none e es stalls.none_stored none, still)
      where
        cold-split :
            (c : ℕ) (e : Event T) (es : List (Event T))
            → IsCold c (e ∷ es)
            → IsCold c (e ∷ []) × IsCold c es
        cold-split c quiet es cold = (tt, cold)
        cold-split c (stored i v) es cold = (tt, cold)
        cold-split c (deleted i) es cold = ((cold.0, tt), cold.1)

        returns-none :
            (e : Event T) (es : List (Event T))
            → returns (e ∷ []) ≡ 0
            → returns es ≡ 0
            → returns (e ∷ es) ≡ 0
        returns-none quiet es p q = q
        returns-none (stored i v) es p q = absurd (omega (arith, p))
        returns-none (deleted i) es p q = q

  module _ {words ring back : ℕ} (s : Slots T) (valid : Valid words ring back s) {r : Race T}
      {es : List (Event T)} (run : Run (at_rest s) es r) (away : r.translator ≡ outside)
      (uncounted : r.poller ≡ counting) (full : IsFull words r.slots) where
    -- `lastDelCount` is one ahead of `delCount`.
    phantom : (pending r.slots == 0) ≡ false
    unfolding table merged counted pending
    phantom =
        let (ok, _) = race-Replays s valid run in
        let inv : Inv words ring (table outside counting r.slots) =
          (subst (λ p. Valid words ring back (table outside p r.slots)) uncounted
            (subst (λ t. Valid words ring back (table t r.poller r.slots)) away ok)).slots in
        let (del_fits, last_fits) = inv.counts_fit in
        let none = zero-sum words words r.slots.poller_bitmap (omega arith) full.unreleased in
        let equal : ((r.slots.del_count + 1) % 2 ^ 64 + 2 ^ 64 - r.slots.last_del_count) % 2 ^ 64
            ≡ 0 =
          inv.pending_slots ∙ none in
        let apart : (r.slots.del_count + 2 ^ 64 - r.slots.last_del_count) % 2 ^ 64 ≢ 0 =
          λ e. omega (arith, equal, e, last_fits) in
        ground (arith, apart)

    -- In a run from a valid table, let a Del have set its bit and not counted it, the translator have
    -- taken that bit in, and all slots be taken again. An Add that is called then does not see that the
    -- table is full: it goes to the loop over the words, and returns in no run in which the poller
    -- releases none of the slots, though the fallback map may have room.
    pub uncounted-stalls :
        (v : T) {more : List (Event T)} {r' : Race T}
        → Run (record r { translator = enter v r.slots }) more r'
        → IsCold r.slots.cap more
        → (enter v r.slots ≡ looking v) × (returns more ≡ 0)
    unfolding enter
    uncounted-stalls v later cold =
        let entered : enter v r.slots ≡ looking v = ground (arith, phantom) in
        let loops : Loops words (enter v r.slots) = subst (Loops words) (sym entered) tt in
        (entered, (Run-Stalls words later full loops cold).0)
