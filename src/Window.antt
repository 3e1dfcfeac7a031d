-- ===== src/Window.antt =====
-- The entries between the head and the tail of a ring, oldest first: the queue that the submission,
-- the completion and the buffer ring of internal/iouring stand for. A counter runs on and a position
-- is the counter modulo the ring's size.
use netring.Prelude.{
  ℕ, zero, suc, ◌+◌, ◌-◌, ◌%◌, ◌≤◌, ◌<◌, ◌≡◌, ◌∙◌, sym, ap, refl, List, [], ◌∷◌, ◌++◌, false, arith,
  ◌==◌, ==_iff, ==_refl, update, offset-injective, Bool-cases, inl, inr,
}
use native.Mathlib.Nat.{mod-add-mod, add-zero}
use mathlib.Core.Path.{ap₂}
use mathlib.Core.List.{head-eq_of_cons-eq, tail-eq_of_cons-eq}

module _ {ℓ} {A : Type ℓ} where
  -- `n` entries from counter `h` on
  unfoldable pub window : (ℕ → A) → (size n h : ℕ) → List A
  window f size zero h = []
  window f size (suc n) h = f (h % size) ∷ window f size n (h + 1)

  pub window-snoc :
      (f : ℕ → A) (size n h : ℕ)
      → window f size (suc n) h ≡ window f size n h ++ f ((h + n) % size) ∷ []
  unfolding window
  window-snoc f size zero h = ap (λ (x : ℕ). f (x % size) ∷ []) (omega arith)
  window-snoc f size (suc n) h =
      let later : h + 1 + n ≡ h + suc n = omega arith in
      ap (◌∷◌ (f (h % size))) (rw (← later) (window-snoc f size n (h + 1)))

  -- Only the position of the head matters.
  pub window-cong :
      (f : ℕ → A) (size n h k : ℕ) → h % size ≡ k % size → window f size n h ≡ window f size n k
  unfolding window
  window-cong f size zero h k e = refl
  window-cong f size (suc n) h k e =
      let next : (h + 1) % size ≡ (k + 1) % size =
        sym (mod-add-mod h size 1) ∙ ap (λ (x : ℕ). (x + 1) % size) e ∙ mod-add-mod k size 1 in
      rw (e, window-cong f size n (h + 1) (k + 1) next)

  -- A write past the window does not show in it.
  pub window-update :
      (f : ℕ → A) (size n m h : ℕ) (v : A)
      → n ≤ m
      → m < size
      → window (update f ((h + m) % size) v) size n h ≡ window f size n h
  unfolding window
  window-update f size zero m h v le lt = refl
  window-update f size (suc n) zero h v le lt = absurd (omega arith)
  window-update f size (suc n) (suc m) h v le lt =
      let moved : h + suc m ≡ h + 1 + m = omega arith in
      let first : update f ((h + suc m) % size) v (h % size) ≡ f (h % size) = rw elsewhere refl in
      let rest = window-update f size n m (h + 1) v (omega arith) (omega arith) in
      ap₂ ◌∷◌ first (ap (λ (x : ℕ). window (update f (x % size) v) size n (h + 1)) moved ∙ rest)
    where
      elsewhere : ((h + suc m) % size == h % size) ≡ false
      elsewhere = elim (Bool-cases ((h + suc m) % size == h % size)) [
        | inr e ↦ e
        | inl e ↦
            let same = (==_iff ((h + suc m) % size) (h % size)).0 e in
            let none_apart : suc m ≡ 0 =
              offset-injective h size (suc m) 0 lt (omega arith)
                (same ∙ ap (λ (x : ℕ). x % size) (omega arith)) in
            absurd (omega arith)
      ]

  -- Writing the entry at the tail appends it.
  pub window-push :
      (f : ℕ → A) (size n h : ℕ) (v : A)
      → n < size
      → window (update f ((h + n) % size) v) size (suc n) h ≡ window f size n h ++ v ∷ []
  window-push f size n h v lt =
      window-snoc (update f ((h + n) % size) v) size n h
      ∙ rw (window-update f size n n h v (omega arith) lt, ==_refl ((h + n) % size)) refl

  -- Two rings that agree on the window's positions have the same window.
  pub window-ext :
      (f g : ℕ → A) (size n h : ℕ)
      → ((i : ℕ) → i < n → f ((h + i) % size) ≡ g ((h + i) % size))
      → window f size n h ≡ window g size n h
  unfolding window
  window-ext f g size zero h same = refl
  window-ext f g size (suc n) h same = ap₂ ◌∷◌ (rw add-zero at (same 0 (omega arith))) (
      window-ext f g size n (h + 1) (λ i lt.
        let moved : h + suc i ≡ h + 1 + i = omega arith in
        rw moved at (same (suc i) (omega arith))))

  -- A window with a first entry: what the entry is, and the window that is left.
  pub window-uncons :
      (f : ℕ → A) (size n h : ℕ) (e : A) (rest : List A)
      → window f size n h ≡ e ∷ rest
      → (0 < n) × (f (h % size) ≡ e) × (window f size (n - 1) (h + 1) ≡ rest)
  unfolding window
  window-uncons f size zero h e rest eq = absurd (cc)
  window-uncons f size (suc n) h e rest eq =
      let short : suc n - 1 ≡ n = omega arith in
      (omega arith, head-eq_of_cons-eq eq, rw short (tail-eq_of_cons-eq eq))
