-- ===== src/Prelude/Table.antt =====
-- A Go map with uint64 keys, as an association list: lookup, `m[k] = v`, `delete(m, k)`.
use Prim.Native.Nat.{ℕ, zero, suc, ◌≤◌, ◌<◌}
use mathlib.Core.Path.{◌≡◌, refl}
use mathlib.Core.Option.{Option, none, some}
use mathlib.Core.List.{List, [], ◌∷◌}
use mathlib.Core.Logic.{inl, inr}
use native.Mathlib.Omega.{arith}
use netring.Prelude.Tests.{◌==◌, if◌then◌else◌, Bool-cases}

module _ {ℓ} {A : Type ℓ} where
  unfoldable pub lookup : ℕ → List (ℕ × A) → Option A
  lookup key [] = none
  lookup key ((other, value) ∷ rest) = if other == key then some value else lookup key rest

  unfoldable pub insert : ℕ → A → List (ℕ × A) → List (ℕ × A)
  insert key value [] = (key, value) ∷ []
  insert key value ((other, old) ∷ rest) =
      if other == key then (key, value) ∷ rest else (other, old) ∷ insert key value rest

  -- Every entry of the key goes.
  unfoldable pub delete : ℕ → List (ℕ × A) → List (ℕ × A)
  delete k [] = []
  delete k ((j, w) ∷ m) = let rest = delete k m in if j == k then rest else (j, w) ∷ rest

  unfoldable pub entries : List (ℕ × A) → ℕ
  entries [] = 0
  entries (e ∷ m) = suc (entries m)

  pub lookup-insert :
      (key at : ℕ) (value : A) (table : List (ℕ × A))
      → lookup at (insert key value table) ≡ (if key == at then some value else lookup at table)
  unfolding lookup insert
  lookup-insert key at value [] = refl
  lookup-insert key at value (e ∷ rest) = ground (arith, lookup-insert key at value rest)

  pub lookup-delete :
      (k j : ℕ) (m : List (ℕ × A)) → lookup j (delete k m) ≡ (if k == j then none else lookup j m)
  unfolding lookup delete
  lookup-delete k j [] = ground arith
  lookup-delete k j ((i, w) ∷ m) = ground (arith, lookup-delete k j m)

  pub entries-delete-le : (k : ℕ) (m : List (ℕ × A)) → entries (delete k m) ≤ entries m
  unfolding entries delete
  entries-delete-le k [] = omega arith
  entries-delete-le k ((i, w) ∷ m) = ground (arith, entries-delete-le k m)

  -- Deleting a key that is there makes the map smaller.
  pub entries-delete-lt :
      (k : ℕ) (v : A) (m : List (ℕ × A)) → lookup k m ≡ some v → entries (delete k m) < entries m
  unfolding lookup entries delete
  entries-delete-lt k v [] h = elim (none≢some h) [ ]
    where
      none≢some : none ≡ some v → ⊥
      none≢some e = cc
  entries-delete-lt k v ((i, w) ∷ m) h = elim (Bool-cases (i == k)) [
    | inl e ↦ ground (arith, entries-delete-le k m)
    | inr e ↦ ground (arith, entries-delete-lt k v m)
  ]

  -- Keys that are all there and all differ are no more than the entries.
  pub keys-le-entries :
      (n : ℕ) (p : ℕ → ℕ) (m : List (ℕ × A))
      → ((t u : ℕ) → t < n → u < n → p t ≡ p u → t ≡ u)
      → ((t : ℕ) → t < n → (v : A) × (lookup (p t) m ≡ some v))
      → n ≤ entries m
  keys-le-entries zero p m apart there = omega arith
  keys-le-entries (suc n) p m apart there =
      let (v, last) = there n (omega arith) in
      let fewer = entries-delete-lt (p n) v m last in
      let rest =
        keys-le-entries n p (delete (p n) m)
          (λ t u ht hu e. apart t u (omega arith) (omega arith) e)
          (λ t ht.
            let (w, found) = there t (omega arith) in
            (
              w,
              let differ = apart n t (omega arith) (omega arith) in
                  ground (arith, lookup-delete (p n) (p t) m, differ),
            )) in
      omega arith
