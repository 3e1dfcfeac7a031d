-- ===== src/Prelude/Lists.antt =====
-- The length of a list, and what an element at the end does to it.
use Prim.Native.Nat.{ℕ, suc}
use mathlib.Core.Path.{◌≡◌, refl, ap}
use mathlib.Core.List.{List, [], ◌∷◌, ◌++◌}

module _ {ℓ} {A : Type ℓ} where
  abbrev pub length : List A → ℕ
  length [] = 0
  length (_ ∷ l) = suc (length l)

  pub length-snoc : (l : List A) (a : A) → length (l ++ a ∷ []) ≡ suc (length l)
  length-snoc [] a = refl
  length-snoc (_ ∷ l) a = ap suc (length-snoc l a)
