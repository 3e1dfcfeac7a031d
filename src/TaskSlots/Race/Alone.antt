-- ===== src/TaskSlots/Race/Alone.antt =====
-- An Add that no Del interrupts is the `add` of TaskSlots.
use netring.Prelude.{
  ℕ, zero, suc, ◌+◌, ◌≤◌, ◌≡◌, refl, subst, sym, Bool, true, false, ◌&&◌, some, List, [], ◌∷◌,
  arith, ◌==◌, ltb, if◌then◌else◌, lookup, entries, Bool-cases, Option-cases, inl, inr,
}
use mathlib.Core.Option.{some-injective}
use netring.TaskSlots.Words.{is_zero_below, first_clear}
use netring.TaskSlots.{
  Slots, word_idx, pending, fallback_idx, next_fallback, take_slot, advance, sync_word,
  add_fallback, add_loop, add,
}
use netring.TaskSlots.Invariant.{Valid}
use netring.TaskSlots.Laws.{Stores, add-Stores}
use netring.TaskSlots.Race.{
  Translator, outside, saturated, looking, facing, swapping, idle, Event, quiet, stored, Race,
  enter, swap_word, absorb, proceed, call, translate,
}
use netring.TaskSlots.Race.Runs.{Run, here, first, at_rest}

module _ {ℓ} {T : Type ℓ} where
  -- `n` steps that show nothing, and the last one
  abbrev pub quiets : ℕ → Event T → List (Event T)
  quiets zero e = e ∷ []
  quiets (suc n) e = quiet ∷ quiets n e

  abbrev at : Translator T → Slots T → Race T
  at t s = record { translator = t; poller = idle; slots = s }

  abbrev Returns : Translator T → Slots T → T → ℕ × Slots T → Type ℓ
  Returns t s v r = (n : ℕ) × Run (at t s) (quiets n (stored r.0 v)) (at outside r.1)

  silent :
      {t u : Translator T} {s s' : Slots T} {v : T} {r : ℕ × Slots T}
      → proceed t s ≡ (quiet, u, s')
      → Returns u s' v r
      → Returns t s v r
  silent moved (n, run) = (suc n, first (translate moved) run)

  fallback-Run :
      (f : ℕ) (v : T) (s : Slots T) (r : ℕ × Slots T)
      → add_fallback f v s ≡ some r
      → Returns (saturated v) s v r
  unfolding add_fallback proceed
  fallback-Run zero v s r done = absurd (cc)
  fallback-Run (suc f) v s r done = elim (Option-cases (lookup (fallback_idx s) s.fallback)) [
    | inl missing ↦
        let same = some-injective _ r (rw (missing, add_fallback) at done) in
        subst (Returns (saturated v) s v) same
          (0, first (translate (rw (missing, proceed) refl)) here)
    | inr (w, there) ↦
        silent (rw (there, proceed) refl)
          (fallback-Run f v (next_fallback s) r (rw (there, add_fallback) at done))
  ]

  module _ (v : T) (s : Slots T)
      (full : ltb (first_clear 64 0 (s.bitmap (word_idx s))) 64 ≡ false) where
    looked : proceed (looking v) s ≡ (quiet, facing v (word_idx s), s)
    unfolding proceed
    looked = rw full refl

    moved-Run :
        (r : ℕ × Slots T)
        → is_zero_below 64 (s.poller_bitmap (word_idx s)) ≡ true
        → Returns (looking v) (advance s) v r
        → Returns (looking v) s v r
    unfolding proceed
    moved-Run r zero_here rest = silent looked (silent crossed rest)
      where
        crossed : proceed (facing v (word_idx s)) s ≡ (quiet, looking v, advance s)
        crossed = rw zero_here refl

    synced-Run :
        (r : ℕ × Slots T)
        → is_zero_below 64 (s.poller_bitmap (word_idx s)) ≡ false
        → Returns (looking v) (sync_word (word_idx s) s) v r
        → Returns (looking v) s v r
    unfolding proceed sync_word swap_word absorb
    synced-Run r some_bit rest = silent looked (silent loaded (silent refl (silent refl rest)))
      where
        loaded : proceed (facing v (word_idx s)) s ≡ (quiet, swapping v (word_idx s), s)
        loaded = rw some_bit refl

  loop-Run :
      (f : ℕ) (v : T) (s : Slots T) (r : ℕ × Slots T)
      → add_loop f v s ≡ some r
      → Returns (looking v) s v r
  unfolding add_loop proceed
  loop-Run zero v s r done = absurd (cc)
  loop-Run (suc f) v s r done =
      elim (Bool-cases (ltb (first_clear 64 0 (s.bitmap (word_idx s))) 64)) [
        | inl found ↦
            let same = some-injective _ r (rw found at done) in
            subst (Returns (looking v) s v) same (0, first (translate (took found)) here)
        | inr full ↦ elim (Bool-cases (is_zero_below 64 (s.poller_bitmap (word_idx s)))) [
          | inl zero_here ↦
              moved-Run v s full r zero_here
                (loop-Run f v (advance s) r (rw (full, zero_here) at done))
          | inr some_bit ↦
              synced-Run v s full r some_bit
                (loop-Run f v (sync_word (word_idx s) s) r (rw (full, some_bit) at done))
        ]
      ]
    where
      took :
          ltb (first_clear 64 0 (s.bitmap (word_idx s))) 64 ≡ true
          → proceed (looking v) s ≡ (
            stored (take_slot (word_idx s) (first_clear 64 0 (s.bitmap (word_idx s))) v s).0 v,
            outside,
            (take_slot (word_idx s) (first_clear 64 0 (s.bitmap (word_idx s))) v s).1,
          )
      took found = rw found refl

  add-Run :
      (f : ℕ) (v : T) (s : Slots T) (r : ℕ × Slots T) → add f v s ≡ some r → Returns outside s v r
  unfolding add enter
  add-Run f v s r done = elim (Bool-cases (s.free == 0 && pending s == 0)) [
    | inl full ↦
        let (n, run) = fallback-Run f v s r (rw full at done) in
        (
          suc n,
          first (call v refl) (
              subst (λ t. Run (at t s) (quiets n (stored r.0 v)) (at outside r.1))
                (sym (entered true full)) run),
        )
    | inr room ↦
        let (n, run) = loop-Run f v s r (rw room at done) in
        (
          suc n,
          first (call v refl) (
              subst (λ t. Run (at t s) (quiets n (stored r.0 v)) (at outside r.1))
                (sym (entered false room)) run),
        )
  ]
    where
      entered :
          (b : Bool)
          → (s.free == 0 && pending s == 0) ≡ b
          → enter v s ≡ (if b then saturated v else looking v)
      entered b e = rw e refl

  module _ {words ring back : ℕ} (s : Slots T) (valid : Valid words ring back s) where
    -- On a valid table that neither thread is in, and provided that the fallback indices are not all
    -- taken, the steps of Add alone come to an end: it returns the index and leaves the table that the
    -- sequential Add does, with the task at an index that was free and the rest of the map unchanged.
    pub alone-Stores :
        (v : T)
        → entries s.fallback ≤ s.fallback_mask
        → (r : ℕ × Slots T) × (n : ℕ) × Run (at_rest s) (quiets n (stored r.0 v)) (at_rest r.1)
          × (add (suc (words + entries s.fallback)) v s ≡ some r)
          × Stores words ring back v s r
    alone-Stores v room =
        let fuel = suc (words + entries s.fallback) in
        let (r, done, stores) = add-Stores s valid fuel v (omega arith) (omega arith) room in
        let (n, run) = add-Run fuel v s r done in (r, n, run, done, stores)
