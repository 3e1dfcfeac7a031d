-- ===== src/TaskSlots/Race/Release.antt =====
-- Setting a bit of the poller's word is the whole of Del, for the table that the memory stands for.
use netring.Prelude.{
  ℕ, ◌+◌, ◌/◌, ◌%◌, ◌^◌, ◌<◌, ◌≡◌, refl, ap, true, false, ◌&&◌, arith, ◌==◌, ==_iff, leb,
  if◌then◌else◌, update_row, Bool-cases, inl, inr,
}
use mathlib.Core.Path.{fun_ext}
use netring.TaskSlots.Words.{Word, set_bit}
use netring.TaskSlots.{Slots, del}
use netring.TaskSlots.Invariant.{live}
use netring.TaskSlots.Race.{
  Translator, outside, saturated, looking, facing, swapping, holding, idle, counting, release,
  counted, merged, table,
}

module _ {ℓ} {T : Type ℓ} (s : Slots T) (idx : ℕ) where
  abbrev word : ℕ
  word = idx / 64

  abbrev row : (ℕ → Word) → Word
  row q = set_bit (idx % 64) (q word)

  merged-release :
      (t : Translator T)
      → merged t (update_row s.poller_bitmap word (row s.poller_bitmap))
        ≡ update_row (merged t s.poller_bitmap) word (row (merged t s.poller_bitmap))
  unfolding merged
  merged-release outside = refl
  merged-release (saturated v) = refl
  merged-release (looking v) = refl
  merged-release (facing v i) = refl
  merged-release (swapping v i) = refl
  merged-release (holding v i pw) = fun_ext (λ j. fun_ext (λ k. same j k))
    where
      same :
          (j k : ℕ)
          → (if i == j && pw k
              then true
              else update_row s.poller_bitmap word (row s.poller_bitmap) j k)
            ≡ (if word == j
                then (if idx % 64 == k
                    then true
                    else (if i == word && pw k then true else s.poller_bitmap word k))
                else (if i == j && pw k then true else s.poller_bitmap j k))
      same j k = elim (Bool-cases (word == j)) [
        | inl e ↦ let at : word ≡ j = (==_iff _ _).0 e in rw (e, ← at) (ground arith)
        | inr e ↦ rw e refl
      ]

  pub release-table :
      (t : Translator T) → idx < s.cap → table t counting (release idx s) ≡ del idx (table t idle s)
  unfolding table release del counted
  release-table t hot =
      let cold : leb s.cap idx ≡ false = ground arith in
      rw cold (
        ap (λ q. record s { poller_bitmap = q; del_count = (s.del_count + 1) % 2 ^ 64 })
          (merged-release t))

  -- A bit that the poller may set is not one that the translator holds.
  pub release-apart :
      (v : T) (i : ℕ) (pw : Word)
      → live (table (holding v i pw) idle s) idx ≡ true
      → ((k : ℕ) → pw k ≡ true → s.poller_bitmap i k ≡ false)
      → (k : ℕ) → pw k ≡ true
      → (release idx s).poller_bitmap i k ≡ false
  unfolding table release merged
  release-apart v i pw held apart k on = ground (arith, apart k on)
