-- ===== src/TaskSlots/Race/Absorb.antt =====
-- The bits that `syncWord` swapped out of the poller's word reach the translator's bitmap.
use netring.Prelude.{
  ℕ, zero, suc, ◌+◌, ◌*◌, ◌%◌, ◌≤◌, ◌<◌, ◌≡◌, refl, ap, true, false, ◌&&◌, arith, ◌==◌, ==_iff,
  ==_refl, if◌then◌else◌, count_below, sum_below, sum_below-change, sum_below-le, count_below-le,
  Bool-cases, inl, inr,
}
use mathlib.Core.Path.{fun_ext}
use netring.TaskSlots.Words.{Word, ones}
use netring.TaskSlots.{Slots, pending}
use netring.TaskSlots.Invariant.{clear, live, view, Inv, Wraps}
use netring.TaskSlots.Counting.{clear-xor}
use netring.TaskSlots.Race.{
  looking, swapping, holding, Poller, swap_word, absorb, counted, merged, table,
}

count-join :
    (n : ℕ) (p q : Word)
    → ((k : ℕ) → p k ≡ true → q k ≡ false)
    → count_below n (λ k. if true && p k then true else q k) ≡ count_below n p + count_below n q
unfolding sum_below
count-join zero p q apart = refl
count-join (suc n) p q apart = ground (arith, count-join n p q apart, apart n)

module _ {ℓ} {T : Type ℓ} where
  pub swap_word-clears : (i : ℕ) (s : Slots T) (k : ℕ) → (swap_word i s).poller_bitmap i k ≡ false
  unfolding swap_word
  swap_word-clears i s k = rw (==_refl i) refl

module _ {ℓ} {T : Type ℓ} (v : T) (p : Poller) (s : Slots T) (i : ℕ) where
  -- The swap moves the bits; the table that the memory stands for stays.
  pub swap_word-table :
      table (holding v i (s.poller_bitmap i)) p (swap_word i s) ≡ table (swapping v i) p s
  unfolding table merged swap_word
  swap_word-table =
      ap (λ q. record s { poller_bitmap = q; del_count = counted p s.del_count })
        (fun_ext (λ j. fun_ext (λ k. same j k)))
    where
      same :
          (j k : ℕ)
          → (if i == j && s.poller_bitmap i k
              then true
              else (if i == j then false else s.poller_bitmap j k))
            ≡ s.poller_bitmap j k
      same j k = elim (Bool-cases (i == j)) [
        | inl e ↦
            let at : i ≡ j = (==_iff _ _).0 e in ground (arith, ap (λ l. s.poller_bitmap l k) at)
        | inr e ↦ rw e
      ]

  pub absorb-Wraps :
      (pw : Word) {back : ℕ}
      → Wraps back (table (holding v i pw) p s)
      → Wraps back (table (looking v) p (absorb i pw s))
  unfolding table absorb
  absorb-Wraps pw w = record { ring = w.ring; fits = w.fits }

  module _ {words ratio : ℕ} (pw : Word) (here : i < words)
      (apart : (k : ℕ) → pw k ≡ true → s.poller_bitmap i k ≡ false)
      (inv : Inv words ratio (table (holding v i pw) p s)) where
    released :
        (j k : ℕ)
        → (if i == j && pw k then true else s.poller_bitmap j k) ≡ true
        → s.bitmap j k ≡ true
    unfolding table merged
    released = inv.released

    taken : (k : ℕ) → pw k ≡ true → s.bitmap i k ≡ true
    taken k on = released i k (rw (==_refl i, on) refl)

    free-absorb : sum_below words (λ j. clear ((absorb i pw s).bitmap j)) ≡ s.free + ones pw
    unfolding absorb table
    free-absorb =
        let change =
          sum_below-change words (λ j. clear (s.bitmap j)) (λ j. clear ((absorb i pw s).bitmap j)) i
            here (λ j q. rw q) in
        let row = clear-xor 64 (s.bitmap i) pw taken in
        let here : clear ((absorb i pw s).bitmap i) ≡ clear (s.bitmap i) + ones pw =
          rw (==_refl i) row in
        omega (arith, inv.free_slots)

    pending-absorb :
        sum_below words (λ j. ones (s.poller_bitmap j)) + ones pw
        ≡ pending (table (holding v i pw) p s)
    unfolding table merged
    pending-absorb =
        let change =
          sum_below-change words
            (λ j. ones (λ k. if i == j && pw k then true else s.poller_bitmap j k))
            (λ j. ones (s.poller_bitmap j)) i here (λ j q. rw q) in
        let row = count-join 64 pw (s.poller_bitmap i) apart in
        let here : ones (λ k. if i == i && pw k then true else s.poller_bitmap i k)
            ≡ ones pw + ones (s.poller_bitmap i) =
          rw (==_refl i) row in
        omega (arith, inv.pending_slots)

    absorb-le : s.free + ones pw ≤ words * 64
    absorb-le = rw (← free-absorb) (sum_below-le words 64 _ (λ j. count_below-le 64 _))

    pub absorb-Inv : Inv words ratio (table (looking v) p (absorb i pw s))
    unfolding table absorb pending merged
    absorb-Inv = record {
      some_words = inv.some_words;
      ring = inv.ring;
      capacity = inv.capacity;
      bounded = inv.bounded;
      mask = inv.mask;
      wave_fits = inv.wave_fits;
      counts_fit = omega (arith, inv.counts_fit);
      released = λ j k e. ground (arith, released j k, apart k);
      free_slots = omega (arith, free-absorb, absorb-le, inv.capacity, inv.bounded);
      pending_slots = omega (arith, pending-absorb, inv.counts_fit, count_below-le 64 pw);
    }

    pub absorb-view :
        (j : ℕ) → view (table (looking v) p (absorb i pw s)) j ≡ view (table (holding v i pw) p s) j
    unfolding table absorb merged
    absorb-view j = rw (live_same j)
      where
        live_same :
            (j : ℕ)
            → live (table (looking v) p (absorb i pw s)) j ≡ live (table (holding v i pw) p s) j
        live_same j = ground (arith, released i (j % 64), apart (j % 64))
