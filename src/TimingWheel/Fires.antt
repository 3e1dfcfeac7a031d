-- ===== src/TimingWheel/Fires.antt =====
-- internal/timingwheel/timingwheel.go: when the callback of a timer is called.
use netring.Prelude.{
  ℕ, zero, suc, ◌+◌, ◌%◌, ◌<◌, ◌≡◌, refl, sym, false, Option, none, some, List, [], ◌∷◌, ◌==◌,
  update, arith, Bool-cases, inl, inr, ◌∙◌, ap, subst, ℤ, ==_refl,
}
use mathlib.Core.Option
use mathlib.Core.List.{Mem, mem-cons_self, mem-cons_of_mem}
use netring.TimingWheel.{TimingWheel, num_buckets, tick, add, call}
use netring.TimingWheel.Chains.{occurs, Holds, Holds-apart}
use netring.TimingWheel.Insert.{Added, add-Added}
use netring.TimingWheel.Expire.{calls, tick-Holds}

module _ {ℓ} {C : Type ℓ} where
  -- some calls of Tick
  unfoldable pub ticks : ℕ → TimingWheel C → Option (TimingWheel C)
  ticks zero w = some w
  ticks (suc k) w = Option.bind (tick w) (λ r. ticks k r.0)

  -- the node idx, as it is in the wheel `start`, waits in the bucket `target` of the wheel
  record Waits (start w : TimingWheel C) (idx target : ℕ) : Type ℓ where
    pub lists : ℕ → List ℕ
    pub holds : Holds w lists
    pub member : 0 < occurs idx (lists target)
    pub generation : w.generation idx ≡ start.generation idx
    pub callback : w.callback idx ≡ start.callback idx
    pub fd : w.fd idx ≡ start.fd idx

  tick-Waits :
      (w start : TimingWheel C) (idx target : ℕ)
      → Waits start w idx target
      → target < num_buckets
      → (w.current_bucket == target) ≡ false
      → (after : TimingWheel C) × (fired : List (C × ℤ)) × (tick w ≡ some (after, fired))
        × (after.current_bucket ≡ (w.current_bucket + 1) % num_buckets)
        × Waits start after idx target
  tick-Waits w start idx target waits inside later =
      let h = waits.holds in
      let lists = waits.lists in
      let (after, ends, released, holds) = tick-Holds w lists h in
      let absent : occurs idx (lists w.current_bucket) ≡ 0 = omega (
        arith,
        waits.member,
        Holds-apart w lists w.current_bucket target idx h h.turning inside later,
      ) in
      (
        after,
        calls w (lists w.current_bucket),
        ends,
        released.bucket,
        record {
          lists = update lists w.current_bucket [];
          holds = holds;
          member = rw later waits.member;
          generation = released.generation idx ∙ rw absent waits.generation;
          callback = released.callback idx ∙ rw absent waits.callback;
          fd = ap (λ (f : ℕ → ℤ). f idx) released.fd ∙ waits.fd;
        },
      )

  -- A timer whose bucket is k ticks ahead waits through the ticks.
  ticks-Waits :
      (k : ℕ) (w start : TimingWheel C) (idx : ℕ)
      → k < num_buckets
      → Waits start w idx ((w.current_bucket + k) % num_buckets)
      → w.current_bucket < num_buckets
      → (after : TimingWheel C) × (ticks k w ≡ some after)
        × Waits start after idx after.current_bucket
  unfolding ticks Option.bind
  ticks-Waits zero w start idx near waits turning =
      let here : (w.current_bucket + 0) % num_buckets ≡ w.current_bucket = omega arith in
      (w, refl, rw here at waits)
  ticks-Waits (suc k) w start idx near waits turning =
      let target : ℕ = (w.current_bucket + suc k) % num_buckets in
      let (next, fired, ends, turned, still) =
        tick-Waits w start idx target waits (omega arith) (ground arith) in
      let nearer : target ≡ (next.current_bucket + k) % num_buckets = omega arith in
      let (after, rest, waits_after) =
        ticks-Waits k next start idx (omega arith) (subst (Waits start next idx) nearer still)
          (omega arith) in
      (after, rw ends rest, waits_after)

  calls-Mem :
      (w : TimingWheel C) (idx : ℕ) (c : C) (xs : List ℕ)
      → 0 < occurs idx xs
      → w.callback idx ≡ some c
      → Mem (c, w.fd idx) (calls w xs)
  unfolding calls
  calls-Mem w idx c [] member at = absurd (omega arith)
  calls-Mem w idx c (x ∷ xs) member at = elim (Bool-cases (x == idx)) [
    | inl same ↦ let at_x : x ≡ idx = ground arith in rw (at_x, at) mem-cons_self
    | inr apart ↦ after_call (w.callback x) (w.fd x) (calls-Mem w idx c xs (ground arith) at)
  ]
    where
      after_call :
          (callback : Option C) (fd : ℤ)
          → Mem (c, w.fd idx) (calls w xs)
          → Mem (c, w.fd idx) (call callback fd (calls w xs))
      after_call none fd m = m
      after_call (some callback) fd m = mem-cons_of_mem (callback, fd) m

  -- Add of a time that is not 0, with a free node: during the first ttlSeconds mod 4096 ticks the
  -- node keeps the generation of the id, and the next tick calls the callback with the descriptor
  -- and moves the node to the next generation. The sum of currentBucket and ttlSeconds is below 2 ^ 32.
  pub add-fires :
      (ttl_seconds : ℕ) (fd : ℤ) (callback : C) (w : TimingWheel C) (lists : ℕ → List ℕ) (idx : ℕ)
      (rest : List ℕ)
      → Holds w lists
      → w.current_bucket + ttl_seconds < 4294967296
      → (ttl_seconds == 0) ≡ false
      → w.free_nodes ≡ idx ∷ rest
      → (before : TimingWheel C) × (ticks
            (ttl_seconds % num_buckets)
            (add ttl_seconds fd (some callback) w).0
          ≡ some before)
        × (before.generation idx ≡ (add ttl_seconds fd (some callback) w).1.generation)
        × ((after : TimingWheel C) × (fired : List (C × ℤ)) × (tick before ≡ some (after, fired))
            × Mem (callback, fd) fired
            × (after.generation idx ≡ (before.generation idx + 1) % 4294967296))
  add-fires ttl_seconds fd callback w lists idx rest h no_wrap some_time free =
      let added : TimingWheel C = (add ttl_seconds fd (some callback) w).0 in
      let target : ℕ = (w.current_bucket + ttl_seconds) % num_buckets in
      let (named, generations, current, fds, callbacks, freed, holds) =
        subst
          (Added ttl_seconds fd (some callback) w lists (add ttl_seconds fd (some callback) w)
            false)
          free (rw some_time at (add-Added ttl_seconds fd (some callback) w lists h no_wrap)) in
      let first : Waits added added idx target = record {
        lists = update lists target (idx ∷ lists target);
        holds = holds;
        member = rw (==_refl target, ==_refl idx) (omega arith);
        generation = refl;
        callback = refl;
        fd = refl;
      } in
      let ahead : target ≡ (added.current_bucket + ttl_seconds % num_buckets) % num_buckets =
        omega arith in
      let (before, ends, waits) =
        ticks-Waits (ttl_seconds % num_buckets) added added idx (omega arith)
          (subst (Waits added added idx) ahead first) (holds.turning) in
      let (after, fires, released, _) = tick-Holds before waits.lists waits.holds in
      let due : List ℕ = waits.lists before.current_bucket in
      let held : before.callback idx ≡ some callback =
        waits.callback ∙ ap (λ (f : ℕ → Option C). f idx) callbacks ∙ rw (==_refl idx) refl in
      let described : before.fd idx ≡ fd =
        waits.fd ∙ ap (λ (f : ℕ → ℤ). f idx) fds ∙ rw (==_refl idx) refl in
      let in_due : (occurs idx due == 0) ≡ false = ground (arith, waits.member) in
      (
        before,
        ends,
        waits.generation
            ∙ ap (λ (f : ℕ → ℕ). f idx) generations
            ∙ sym (ap (λ id. id.generation) named),
        (
          after,
          calls before due,
          fires,
          subst (λ v. Mem (callback, v) (calls before due)) described
              (calls-Mem before idx callback due waits.member held),
          released.generation idx ∙ rw in_due refl,
        ),
      )
