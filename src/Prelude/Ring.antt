-- ===== src/Prelude/Ring.antt =====
-- The wrap-around of a ring position.
use Prim.Native.Nat.{ℕ, ◌+◌, ◌-◌, ◌*◌, ◌/◌, ◌%◌, ◌≤◌, ◌<◌}
use mathlib.Core.Path.{◌≡◌, sym, ap, ◌∙◌}
use mathlib.Core.Logic.{◌⊎◌, inl, inr}
use native.Mathlib.Omega.{arith}
use native.Mathlib.Nat.{
  mod-add-mod, mod-eq_of_lt, mod_self, mod-lt, zero-mod, mul-mod_left, mod-eq-sub-mod, mod-add-div,
  add-mul-mod_self_left, mul_comm, mul_assoc,
}
use netring.Prelude.Tests.{◌==◌, ==_iff, ltb, if◌then◌else◌, Bool-cases}

pub succ_mod : (w n : ℕ) → 0 < n → (w + 1) % n ≡ (if w % n + 1 == n then 0 else w % n + 1)
succ_mod w n h =
    let small = mod-lt w h in
    sym (mod-add-mod w n 1) ∙ elim (Bool-cases (w % n + 1 == n)) [
      | inl e ↦
          let whole = ap (λ (x : ℕ). x % n) ((==_iff (w % n + 1) n).0 e) in
          rw e (whole ∙ mod_self n)
      | inr e ↦ rw e (mod-eq_of_lt (ground arith))
    ]

-- A counter that wraps at a multiple of the ring's length wraps the position with it.
pub wrap_mod : (w c n : ℕ) → w < c * n → (w + 1) % (c * n) % n ≡ (w + 1) % n
wrap_mod w c n lt = elim (Bool-cases (w + 1 == c * n)) [
  | inl e ↦ rw ((==_iff (w + 1) (c * n)).0 e) (rw (mod_self, mul-mod_left, zero-mod))
  | inr e ↦ rw (mod-eq_of_lt {n = w + 1} {m = c * n} (ground arith))
]

pub wrapped_succ_mod :
    (w c n : ℕ)
    → 0 < n
    → w < c * n
    → (w + 1) % (c * n) % n ≡ (if w % n + 1 == n then 0 else w % n + 1)
wrapped_succ_mod w c n h lt = wrap_mod w c n lt ∙ succ_mod w n h

mod_twice : (x n : ℕ) → 0 < n → x < n + n → ((x < n) × (x % n ≡ x)) ⊎ ((n ≤ x) × (x % n ≡ x - n))
mod_twice x n h lt = elim (Bool-cases (ltb x n)) [
  | inl e ↦ inl (ground arith, mod-eq_of_lt (ground arith))
  | inr e ↦
      let below = mod-eq_of_lt {n = x - n} {m = n} (ground arith) in
      inr (ground arith, mod-eq-sub-mod (ground arith) ∙ below)
]

-- The positions of n steps in a row differ.
pub offset-injective : (w n t u : ℕ) → t < n → u < n → (w + t) % n ≡ (w + u) % n → t ≡ u
offset-injective w n t u ht hu e =
    let pos : 0 < n = omega arith in
    let small = mod-lt w pos in
    let at_t = mod_twice (w % n + t) n pos (omega arith) in
    let at_u = mod_twice (w % n + u) n pos (omega arith) in
    omega (arith, mod-add-mod w n t, mod-add-mod w n u, at_t, at_u)

-- A position is the same before and after its counter wraps.
pub mod_wrapped : (x c n : ℕ) → x % (c * n) % n ≡ x % n
mod_wrapped x c n =
    let parts = mod-add-div x (c * n) in
    let regroup : c * n * (x / (c * n)) ≡ n * (c * (x / (c * n))) =
      ap (λ (y : ℕ). y * (x / (c * n))) (mul_comm c n) ∙ mul_assoc n c (x / (c * n)) in
    let whole : x % (c * n) + n * (c * (x / (c * n))) ≡ x = omega arith in
    sym (add-mul-mod_self_left (x % (c * n)) n (c * (x / (c * n)))) ∙ ap (λ (y : ℕ). y % n) whole

pub wrap_position : (x m c n : ℕ) → m ≡ c * n → x % m % n ≡ x % n
wrap_position x m c n e = rw e (mod_wrapped x c n)
