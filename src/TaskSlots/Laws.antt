-- ===== src/TaskSlots/Laws.antt =====
-- The slot table as a finite map from indices to tasks: what Add, Del, Get and New do to it.
use netring.Prelude.{
  ℕ, ◌+◌, ◌-◌, ◌/◌, ◌%◌, ◌^◌, ◌≤◌, ◌<◌, ◌≡◌, ◌↔◌, ◌≢◌, refl, sym, ◌∙◌, Bool, true, false, ◌&&◌,
  none, some, arith, ◌==◌, ==_iff, ltb, leb, if◌then◌else◌, trailing_zeros, lookup, delete, entries,
  lookup-delete, Bool-cases, inl, inr,
}
use mathlib.Core.Option.{some-injective}
use netring.TaskSlots.{Slots, sys_ids, ok, new, pending, add, del, get}
use netring.TaskSlots.Invariant.{live, view, Valid}
use netring.TaskSlots.Keeps.{del-Inv, del_hot-view, del-same}
use netring.TaskSlots.Adds.{add_loop-Added}
use netring.TaskSlots.Fallback.{Inv-fallback, add_fallback-AddedBack}
use netring.TaskSlots.Creation.{IsCapacity, made, made-Inv, made-Wraps, new-made}

if_some {ℓ} :
    {A : Type ℓ} (b : Bool) (x : A) {v : A} → (if b then some x else none) ≡ some v → b ≡ true
if_some true x h = refl
if_some false x h = cc

if_value {ℓ} : {A : Type ℓ} (b : Bool) (x v : A) → (if b then some x else none) ≡ some v → x ≡ v
if_value true x v h = some-injective x v h
if_value false x v h = absurd (cc)

module _ {ℓ} {T : Type ℓ} where
  -- What Add returns: an index that was free, and a valid table that holds `v` there and is the
  -- same everywhere else. The index is one of the slots exactly when a slot was free or released, and
  -- is no larger than the largest index of the fallback map.
  pub record Stores (words ring back : ℕ) (v : T) (s : Slots T) (r : ℕ × Slots T) : Type ℓ where
    pub valid : Valid words ring back r.1
    pub fresh : view s r.0 ≡ none
    pub stored : (j : ℕ) → view r.1 j ≡ (if r.0 == j then some v else view s j)
    pub hot_iff : (r.0 < s.cap) ↔ (0 < s.free + pending s)
    pub bounded : r.0 ≤ s.fallback_mask + s.cap
    pub same_bounds : (r.1.cap ≡ s.cap) × (r.1.fallback_mask ≡ s.fallback_mask)

  module _ {words ring back : ℕ} (s : Slots T) (valid : Valid words ring back s) where
    -- On a valid table, given fuel for a walk over the words and over the fallback entries, and
    -- provided that the fallback indices are not all taken, Add ends: it returns an index that was free,
    -- and a valid table that holds the task there and is the same at every other index. The index is
    -- one of the slots exactly when a slot was free or released, and is no larger than the largest
    -- index of the fallback map.
    pub add-Stores :
        (fuel : ℕ) (v : T)
        → words < fuel
        → entries s.fallback < fuel
        → entries s.fallback ≤ s.fallback_mask
        → (r : ℕ × Slots T) × (add fuel v s ≡ some r) × Stores words ring back v s r
    unfolding add
    add-Stores fuel v enough_words enough_back room =
        elim (Bool-cases (s.free == 0 && pending s == 0)) [
          | inl saturated ↦
              let (r, done, a) =
                add_fallback-AddedBack back fuel v s valid.back_ring room enough_back in
              (
                r,
                rw saturated done,
                record {
                  valid = record { slots = a.keeps valid.slots; back_ring = a.wraps };
                  fresh = a.fresh;
                  stored = a.stored;
                  hot_iff =
                      (λ lt. absurd (omega (arith, lt, a.cold)), λ pos. absurd (ground arith));
                  bounded = a.bounded;
                  same_bounds = (a.same_cap, a.same_mask);
                },
              )
          | inr some_room ↦
              let (r, done, a) = add_loop-Added v fuel s valid.slots (ground arith) enough_words in
              (
                r,
                rw some_room done,
                record {
                  valid = record {
                    slots = a.inv;
                    back_ring = record {
                      ring = rw (a.same_back.1) valid.back_ring.ring;
                      fits = omega (arith, a.same_back, valid.back_ring.fits);
                    };
                  };
                  fresh = a.fresh;
                  stored = a.stored;
                  hot_iff = (λ _. ground arith, λ _. a.hot);
                  bounded = omega (arith, a.hot);
                  same_bounds = (a.inv.capacity ∙ sym valid.slots.capacity, a.same_back.1);
                },
              )
        ]

    del_cold :
        (idx : ℕ)
        → ltb idx s.cap ≡ false
        → idx ≤ sys_ids
        → del idx s ≡ record s { fallback = delete idx s.fallback }
    unfolding del
    del_cold idx cold h =
        let past : leb s.cap idx ≡ true = ground arith in
        let task : ltb sys_ids idx ≡ false = ground arith in rw (past, task)

    -- Del of an index of a valid table that holds a task, and is no system id, empties it, keeps the
    -- rest, and keeps the table valid.
    pub del-view :
        (idx : ℕ) {v : T}
        → view s idx ≡ some v
        → idx ≤ sys_ids
        → Valid words ring back (del idx s)
          × ((j : ℕ) → view (del idx s) j ≡ (if idx == j then none else view s j))
    del-view idx held h = elim (Bool-cases (ltb idx s.cap)) [
      | inl hot ↦
          let lt : idx < s.cap = ground arith in
          let on = if_some (live s idx) _ (rw hot at held) in
          let inv = del-Inv s valid.slots idx on lt in
          let (_, _, _, same_wave, same_mask) = del-same s valid.slots idx on lt in
          (
            record {
              slots = inv;
              back_ring = record {
                ring = rw same_mask valid.back_ring.ring;
                fits = rw same_wave valid.back_ring.fits;
              };
            },
            del_hot-view s valid.slots idx on lt,
          )
      | inr cold ↦ rw (del_cold idx cold h) (
        record {
          slots = Inv-fallback s _ s.fallback_wave valid.slots;
          back_ring = record { ring = valid.back_ring.ring; fits = valid.back_ring.fits };
        },
        λ j. rw lookup-delete (elim (Bool-cases (idx == j)) [
          | inl e ↦
              let at : idx ≡ j = (==_iff _ _).0 e in
              let cold_j : ltb j s.cap ≡ false = rw at at cold in rw (cold_j, e)
          | inr e ↦ rw e
        ]),
      )
    ]

  -- Get finds the task of every index that the map has.
  pub get-view :
      (nil : T) (idx : ℕ) (s : Slots T) {v : T} → view s idx ≡ some v → get nil idx s ≡ (v, true)
  unfolding get
  get-view nil idx s h = elim (Bool-cases (ltb idx s.cap)) [
    | inl hot ↦
        let on = if_some (live s idx) _ (rw hot at h) in
        let same = if_value (live s idx) _ _ (rw hot at h) in
        let bit : s.bitmap (idx / 64) (idx % 64) ≡ true = ground arith in rw (hot, bit, same)
    | inr cold ↦ let there = rw cold at h in rw (cold, there)
  ]

module _ {ℓ} {T : Type ℓ} (nil : T) (capacity sizeof : ℕ) where
  -- New takes a power of two from 4096 on, for a type of a positive multiple of 8 bytes, and makes a
  -- valid table that holds no task.
  pub new-Valid :
      IsCapacity capacity
      → sizeof ≢ 0
      → sizeof % 8 ≡ 0
      → (s : Slots T) × (new sizeof nil capacity ≡ ok s)
        × Valid
            (capacity / 64)
            (2 ^ (70 - trailing_zeros 64 capacity))
            (2 ^ (trailing_zeros 64 capacity + 1))
            s
        × ((j : ℕ) → view s j ≡ none)
  unfolding lookup
  new-Valid c p q = (
    made nil capacity,
    new-made nil capacity c sizeof p q,
    record { slots = made-Inv nil capacity c; back_ring = made-Wraps nil capacity c },
    λ j. elim (Bool-cases (ltb j capacity)) [ inl e ↦ rw e | inr e ↦ rw e ],
  )
