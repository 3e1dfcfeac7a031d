-- ===== src/TaskSlots/Fallback.antt =====
-- The fallback path of Add finds an index that no task has.
use netring.Prelude.{
  ℕ, zero, suc, ◌+◌, ◌%◌, ◌^◌, ◌≤◌, ◌<◌, ◌≡◌, ◌∙◌, ◌⊎◌, sym, ap, refl, false, none, some, List,
  arith, ◌==◌, ==_iff, ltb, if◌then◌else◌, lookup, insert, entries, keys-le-entries,
  offset-injective, wrap_mod, lookup-insert, Bool-cases, Option-cases, inl, inr,
}
use native.Mathlib.Nat.{mod-add-mod}
use netring.TaskSlots.{Slots, pending, fallback_idx, next_fallback, add_fallback}
use netring.TaskSlots.Invariant.{view, Inv, Wraps}

module _ {ℓ} {T : Type ℓ} where
  -- the index that is tried `t` rounds later
  tried : Slots T → ℕ → ℕ
  tried s t = (s.fallback_wave + t) % (s.fallback_mask + 1) + s.cap

  -- The invariant does not speak of the fallback map.
  pub Inv-fallback :
      (s : Slots T) (m : List (ℕ × T)) (u : ℕ) {words ring : ℕ}
      → Inv words ring s
      → Inv words ring (record s { fallback = m; fallback_wave = u })
  unfolding pending
  Inv-fallback s m u inv = record {
    some_words = inv.some_words;
    ring = inv.ring;
    capacity = inv.capacity;
    bounded = inv.bounded;
    mask = inv.mask;
    wave_fits = inv.wave_fits;
    counts_fit = inv.counts_fit;
    released = inv.released;
    free_slots = inv.free_slots;
    pending_slots = inv.pending_slots;
  }

  module _ (ratio : ℕ) where
    tried-zero : (s : Slots T) → tried s 0 ≡ fallback_idx s
    unfolding tried fallback_idx
    tried-zero s = ap (λ (x : ℕ). x % (s.fallback_mask + 1) + s.cap) (omega arith)

    tried-next : (s : Slots T) (t : ℕ) → Wraps ratio s → tried (next_fallback s) t ≡ tried s (suc t)
    unfolding tried next_fallback
    tried-next s t w =
        let m = s.fallback_mask + 1 in
        let wrapped : (s.fallback_wave + 1) % 2 ^ 64 % m ≡ (s.fallback_wave + 1) % m =
          rw w.ring (wrap_mod s.fallback_wave ratio m (omega (arith, w.fits, w.ring))) in
        let first = mod-add-mod ((s.fallback_wave + 1) % 2 ^ 64) m t in
        let second = mod-add-mod (s.fallback_wave + 1) m t in
        let sums : s.fallback_wave + 1 + t ≡ s.fallback_wave + suc t = omega arith in
        ap (λ (x : ℕ). x + s.cap)
          (sym first ∙ ap (λ (x : ℕ). (x + t) % m) wrapped ∙ second ∙ ap (λ (x : ℕ). x % m) sums)

    -- What the fallback path returns: an index past the slots, free before, that holds `v` now.
    pub record AddedBack (v : T) (s : Slots T) (r : ℕ × Slots T) : Type ℓ where
      pub cold : s.cap ≤ r.0
      pub bounded : r.0 ≤ s.fallback_mask + s.cap
      pub fresh : view s r.0 ≡ none
      pub stored : (j : ℕ) → view r.1 j ≡ (if r.0 == j then some v else view s j)
      pub wraps : Wraps ratio r.1
      pub same_cap : r.1.cap ≡ s.cap
      pub same_mask : r.1.fallback_mask ≡ s.fallback_mask
      pub keeps : {words ring : ℕ} → Inv words ring s → Inv words ring r.1

    pub next_fallback-Wraps : (s : Slots T) → Wraps ratio s → Wraps ratio (next_fallback s)
    unfolding next_fallback
    next_fallback-Wraps s w = record { ring = w.ring; fits = omega arith }

    AddedBack-next :
        (v : T) (s : Slots T) (r : ℕ × Slots T) → AddedBack v (next_fallback s) r → AddedBack v s r
    unfolding next_fallback
    AddedBack-next v s r a = record {
      cold = a.cold;
      bounded = a.bounded;
      fresh = a.fresh;
      stored = a.stored;
      wraps = a.wraps;
      same_cap = a.same_cap;
      same_mask = a.same_mask;
      keeps = λ inv. a.keeps (Inv-fallback s s.fallback _ inv);
    }

    fallback_idx-cold : (s : Slots T) → s.cap ≤ fallback_idx s
    unfolding fallback_idx
    fallback_idx-cold s = omega arith

    fallback_idx-le : (s : Slots T) → fallback_idx s ≤ s.fallback_mask + s.cap
    unfolding fallback_idx
    fallback_idx-le s =
        let small : s.fallback_wave % (s.fallback_mask + 1) < s.fallback_mask + 1 = grind arith in
        omega arith

    pub AddedBack-here :
        (v : T) (s : Slots T)
        → lookup (fallback_idx s) s.fallback ≡ none
        → Wraps ratio s
        → AddedBack v s (
          fallback_idx s,
          record (next_fallback s) { fallback = insert (fallback_idx s) v s.fallback },
        )
    unfolding next_fallback pending
    AddedBack-here v s missing w = record {
      cold = fallback_idx-cold s;
      bounded = fallback_idx-le s;
      fresh = rw past missing;
      stored = λ j. elim (Bool-cases (fallback_idx s == j)) [
        | inl e ↦
            let at : fallback_idx s ≡ j = (==_iff _ _).0 e in
            let past_j : ltb j s.cap ≡ false = rw at at past in rw (past_j, lookup-insert, e)
        | inr e ↦ rw (lookup-insert, e)
      ];
      wraps = record { ring = w.ring; fits = omega arith };
      same_cap = refl;
      same_mask = refl;
      keeps = Inv-fallback s _ _;
    }
      where
        past : ltb (fallback_idx s) s.cap ≡ false
        past = let cold = fallback_idx-cold s in ground arith

    -- Either the path ends, or every index that it tried is taken.
    add_fallback-cases :
        (f : ℕ) (v : T) (s : Slots T)
        → Wraps ratio s
        → ((r : ℕ × Slots T) × (add_fallback f v s ≡ some r) × AddedBack v s r)
          ⊎ ((t : ℕ) → t < f → (w : T) × (lookup (tried s t) s.fallback ≡ some w))
    unfolding add_fallback next_fallback
    add_fallback-cases zero v s wraps = inr (λ t h. absurd (omega arith))
    add_fallback-cases (suc f) v s wraps =
        elim (Option-cases (lookup (fallback_idx s) s.fallback)) [
          | inl missing ↦ inl (_, rw (missing, add_fallback), AddedBack-here v s missing wraps)
          | inr (w, taken) ↦
              elim (add_fallback-cases f v (next_fallback s) (next_fallback-Wraps s wraps)) [
                | inl (r, done, a) ↦ inl (r, rw (taken, add_fallback) done, AddedBack-next v s r a)
                | inr all ↦ inr (also_here w taken all)
              ]
        ]
      where
        also_here :
            (w : T)
            → lookup (fallback_idx s) s.fallback ≡ some w
            → ((t : ℕ) → t < f → (u : T) × (lookup (tried (next_fallback s) t) s.fallback ≡ some u))
            → (t : ℕ) → t < suc f
            → (u : T) × (lookup (tried s t) s.fallback ≡ some u)
        also_here w taken all zero h = (w, rw tried-zero taken)
        also_here w taken all (suc t) h =
            let (u, there) = all t (omega arith) in (u, rw (tried-next s t wraps) at there)

    tried-injective :
        (s : Slots T) (t u : ℕ)
        → t < s.fallback_mask + 1
        → u < s.fallback_mask + 1
        → tried s t ≡ tried s u
        → t ≡ u
    unfolding tried
    tried-injective s t u ht hu e =
        offset-injective s.fallback_wave (s.fallback_mask + 1) t u ht hu (omega arith)

    -- With fewer entries than indices, the path ends within one more round than there are entries.
    pub add_fallback-AddedBack :
        (fuel : ℕ) (v : T) (s : Slots T)
        → Wraps ratio s
        → entries s.fallback ≤ s.fallback_mask
        → entries s.fallback < fuel
        → (r : ℕ × Slots T) × (add_fallback fuel v s ≡ some r) × AddedBack v s r
    add_fallback-AddedBack fuel v s wraps few enough = elim (add_fallback-cases fuel v s wraps) [
      | inl done ↦ done
      | inr all ↦ absurd (omega (arith, full all))
    ]
      where
        full :
            ((t : ℕ) → t < fuel → (w : T) × (lookup (tried s t) s.fallback ≡ some w))
            → suc (entries s.fallback) ≤ entries s.fallback
        full all =
            keys-le-entries (suc (entries s.fallback)) (tried s) s.fallback
              (λ t u ht hu. tried-injective s t u (omega arith) (omega arith))
              (λ t h. all t (omega arith))
