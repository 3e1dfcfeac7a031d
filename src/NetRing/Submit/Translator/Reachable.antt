-- ===== src/NetRing/Submit/Translator/Reachable.antt =====
-- Every state that a new NetRing reaches in fewer than 2 ^ 32 - 2 submissions has the invariant.
use netring.Prelude.{
  ℕ, ◌+◌, ◌^◌, ◌≤◌, ◌<◌, ◌≡◌, false, arith, refl, ◌==◌, Bool-cases, inl, inr, sum_below,
  sum_below-change, sum_below_mono, sum_below-two, sum_below-const, le-sum_below, update,
}
use netring.NetRing.Submit.{Memory, Pc, Move, intend}
use netring.NetRing.Submit.Translator.{
  Phase, Turn, take, System, Step, goroutine, loop, kernel, stop, init, Steps, here, later,
}
use netring.NetRing.Submit.Translator.Invariant.{
  holds, pending, uncounted, committed, sums, Counts, Inv,
}
use netring.NetRing.Submit.Translator.Goroutines.{
  Moved, Steady, Steady-Current, kept-Fresh, Move-Counts, Move-Steady, Move-Fresh, Move-tail,
}
use netring.NetRing.Submit.Translator.Loops.{
  Turn-Counts, Turn-Current, Turn-tail, kernel-Counts, stop-Counts,
}

-- one goroutine's part in a sum
weight-change :
    (weight : Pc → ℕ) (n : ℕ) (pc : ℕ → Pc) (i : ℕ) (p : Pc)
    → i < n
    → sum_below n (λ j. weight (update pc i p j)) + weight (pc i)
      ≡ sum_below n (λ j. weight (pc j)) + weight p
weight-change weight n pc i p lt =
    let own : weight (update pc i p i) ≡ weight p = ground arith in
    omega (
      arith,
      sum_below-change n (λ j. weight (pc j)) (λ j. weight (update pc i p j)) i lt
          (λ j apart. rw apart refl),
      own,
    )

pub mover :
    (n : ℕ) (pc : ℕ → Pc) (i : ℕ) (p : Pc)
    → i < n
    → Moved (pc i) p (sums n pc) (sums n (update pc i p))
mover n pc i p lt = record {
  held = weight-change holds n pc i p lt;
  pend = weight-change pending n pc i p lt;
  uncount = weight-change uncounted n pc i p lt;
  commit = weight-change committed n pc i p lt;
}

committed-le-pending : (p : Pc) → committed p ≤ pending p
committed-le-pending p = ground arith

module _ {size n : ℕ} (s : System) (v : Inv size n s) where
  loop-Inv :
      {m : Memory} {ph : Phase}
      → Turn size s.mem s.phase m ph
      → Inv size n (record { mem = m; pc = s.pc; phase = ph })
  loop-Inv {m} turn =
      let some_pend =
        sum_below_mono n (λ j. committed (s.pc j)) (λ j. pending (s.pc j))
          (λ j. committed-le-pending (s.pc j)) in
      let (tail, head, _, unmoved) = Turn-tail turn v.current v.counts in
      record {
        counts = Turn-Counts some_pend turn v.current v.counts;
        fresh = λ j below.
            kept-Fresh size s.mem m (s.pc j) tail (omega arith)
              (λ holder.
                unmoved (omega (arith, le-sum_below n j (λ l. holds (s.pc l)) below, holder)))
              (v.fresh j below);
        current = Turn-Current some_pend turn v.current v.counts;
      }

  -- a step of the kernel, or the close of `stop`
  Steady-Inv :
      (m : Memory)
      → m.sq_tail ≡ s.mem.sq_tail
      → Counts size m s.phase (sums n s.pc) × Steady s.mem m s.phase (sums n s.pc) (sums n s.pc)
      → Inv size n (record s { mem = m })
  Steady-Inv m same (counts, steady) = record {
    counts = counts;
    fresh = λ j below.
        kept-Fresh size s.mem m (s.pc j) steady.tail steady.head (λ _. same) (v.fresh j below);
    current = Steady-Current size s.phase steady v.current;
  }

module _ {size buffer n : ℕ} (s : System) (v : Inv size n s) where
  goroutine-Inv :
      (i : ℕ) {m : Memory} {p : Pc}
      → i < n
      → Move size buffer s.mem (s.pc i) m p
      → m.total + 2 < 2 ^ 32
      → Inv size n (record { mem = m; pc = update s.pc i p; phase = s.phase })
  goroutine-Inv i {m} {p} lt mv few =
      let moved = mover n s.pc i p lt in
      let own = v.fresh i lt in
      let steady = Move-Steady v.counts mv few own moved in
      record {
        counts = Move-Counts v.counts mv few own moved;
        fresh = λ j below. elim (Bool-cases (i == j)) [
          | inl e ↦ rw e (Move-Fresh v.counts mv own moved)
          | inr apart ↦ rw apart (
              kept-Fresh size s.mem m (s.pc j) steady.tail steady.head
                (λ holder. unmoved j below apart holder) (v.fresh j below))
        ];
        current = Steady-Current size s.phase steady v.current;
      }
    where
      unmoved : (j : ℕ) → j < n → (i == j) ≡ false → holds (s.pc j) ≡ 1 → m.sq_tail ≡ s.mem.sq_tail
      unmoved j below apart holder = Move-tail mv (
          omega (
            arith,
            sum_below-two n (λ l. holds (s.pc l)) i j lt below apart,
            v.counts.alone,
            holder,
          ))

  pub Step-Inv : {t : System} → Step size buffer n s t → t.mem.total + 2 < 2 ^ 32 → Inv size n t
  Step-Inv (goroutine i lt mv) few = goroutine-Inv i lt mv few
  Step-Inv (loop turn) few = loop-Inv s v turn
  Step-Inv (kernel more) few = Steady-Inv s v _ refl (kernel-Counts more v.counts)
  Step-Inv stop few = Steady-Inv s v _ refl (stop-Counts v.counts)

Move-total :
    {size buffer : ℕ} {m m' : Memory} {p p' : Pc} → Move size buffer m p m' p' → m.total ≤ m'.total
Move-total intend = omega arith
Move-total mv = omega arith

Turn-total :
    {size : ℕ} {m m' : Memory} {ph ph' : Phase} → Turn size m ph m' ph' → m.total ≤ m'.total
Turn-total (take g) = omega arith
Turn-total turn = omega arith

-- Submissions are never taken back.
pub Step-total :
    {size buffer n : ℕ} {s t : System} → Step size buffer n s t → s.mem.total ≤ t.mem.total
Step-total (goroutine i lt mv) = Move-total mv
Step-total (loop turn) = Turn-total turn
Step-total (kernel more) = omega arith
Step-total stop = omega arith

pub Steps-total :
    {size buffer n : ℕ} {s t : System} → Steps size buffer n s t → s.mem.total ≤ t.mem.total
Steps-total here = omega arith
Steps-total (later way step) = omega (arith, Steps-total way, Step-total step)

init-Inv : (size n : ℕ) → Inv size n init
init-Inv size n =
    let none_yet = sum_below-const n 0 in
    record { counts = omega arith; fresh = λ i below. tt; current = tt }

pub Steps-Inv :
    {size buffer n : ℕ} {s t : System}
    → Inv size n s
    → Steps size buffer n s t
    → t.mem.total + 2 < 2 ^ 32
    → Inv size n t
Steps-Inv v here few = v
Steps-Inv v (later way step) few =
    Step-Inv _ (Steps-Inv v way (omega (arith, Step-total step))) step few

-- The states that a new NetRing reaches.
pub init-Steps-Inv :
    {size buffer n : ℕ} {s : System}
    → Steps size buffer n init s
    → s.mem.total + 2 < 2 ^ 32
    → Inv size n s
init-Steps-Inv {size} {buffer} {n} way few = Steps-Inv (init-Inv size n) way few
