-- ===== src/NetRing/Submit/Translator/Overlap.antt =====
-- The store to finishedPushes at the end of a round of the fallback loop writes over the increments that
-- goroutines made since the loop loaded it.
use netring.Prelude.{
  ℕ, ◌+◌, ◌%◌, ◌^◌, ◌<◌, ◌≡◌, Bool, true, false, length, arith, refl, update, subst, sym,
}
use netring.NetRing.Submit.{Memory, Pc, idle, counting, Move, count}
use netring.NetRing.Submit.Translator.{
  Phase, waiting, took, reselecting, unlocking, draining, snapped, holding, bumping, selecting,
  storing, leaving, storing_ticket, dropping, Turn, take, load_barrier, load_finished, see_room,
  bump, load_tail, store_tail, take_next, stop_inside, store_finished, leave, stay, retake,
  stop_after, load_ticket, store_ticket, stop_outside, drain, drop_async, drop_sync, System, Step,
  goroutine, loop, kernel, stop, init, Steps, here, later,
}
use netring.NetRing.Submit.Translator.Invariant.{Sums, sums, Counts, Current, Inv, open_tasks}
use netring.NetRing.Submit.Translator.Goroutines.{Steady, Move-Steady}
use netring.NetRing.Submit.Translator.Loops.{kernel-Counts, stop-Counts}
use netring.NetRing.Submit.Translator.Reachable.{
  Steps-Inv, init-Steps-Inv, Step-Inv, Step-total, Steps-total, mover,
}

-- The fallback is active and fewer pushes are counted than were made, or will be after the store.
abbrev Lost : Memory → Sums → Phase → Type 0
Lost m k took = (m.active ≡ true) × (m.finished + open_tasks m k took < m.total)
Lost m k (snapped was cur) =
    (m.active ≡ true) × (m.finished + open_tasks m k (snapped was cur) < m.total)
Lost m k (holding was cur left) =
    (m.active ≡ true) × (open_tasks m k (holding was cur left) + cur < m.total + left)
Lost m k (bumping was cur left) =
    (m.active ≡ true) × (open_tasks m k (bumping was cur left) + cur < m.total + left)
Lost m k (Phase.pushing was cur left) =
    (m.active ≡ true) × (open_tasks m k (Phase.pushing was cur left) + cur < m.total + left)
Lost m k (Phase.writing was cur left x) =
    (m.active ≡ true) × (open_tasks m k (Phase.writing was cur left x) + cur < m.total + left)
Lost m k (selecting was cur left) =
    (m.active ≡ true) × (open_tasks m k (selecting was cur left) + cur < m.total + left)
Lost m k (storing was cur) = (m.active ≡ true) × (open_tasks m k (storing was cur) + cur < m.total)
Lost m k (leaving was cur) =
    (m.active ≡ true) × (m.finished + open_tasks m k (leaving was cur) < m.total)
Lost m k reselecting = (m.active ≡ true) × (m.finished + open_tasks m k reselecting < m.total)
Lost m k draining = (m.active ≡ true) × (m.stopped ≡ true)
Lost m k (dropping _) = (m.active ≡ true) × (m.stopped ≡ true)
Lost m k _ = ⊥

Lost-active : (m : Memory) (k : Sums) (ph : Phase) → Lost m k ph → m.active ≡ true
Lost-active m k ph h = ground arith

-- A goroutine, the kernel or the close of `stop` makes up for nothing.
Steady-Lost :
    (ph : Phase) (m m' : Memory) (k k' : Sums) → Steady m m' ph k k' → Lost m k ph → Lost m' k' ph
Steady-Lost took m m' k k' s h = ground (arith, s.on h.0)
Steady-Lost (snapped was cur) m m' k k' s h = ground (arith, s.on h.0)
Steady-Lost (holding was cur left) m m' k k' s h = ground (arith, s.on h.0)
Steady-Lost (bumping was cur left) m m' k k' s h = ground (arith, s.on h.0)
Steady-Lost (Phase.pushing was cur left) m m' k k' s h = ground (arith, s.on h.0)
Steady-Lost (Phase.writing was cur left x) m m' k k' s h = ground (arith, s.on h.0)
Steady-Lost (selecting was cur left) m m' k k' s h = ground (arith, s.on h.0)
Steady-Lost (storing was cur) m m' k k' s h = ground (arith, s.on h.0)
Steady-Lost (leaving was cur) m m' k k' s h = ground (arith, s.on h.0)
Steady-Lost reselecting m m' k k' s h = ground (arith, s.on h.0)
Steady-Lost draining m m' k k' s h = (s.on h.0, s.stopped h.1)
Steady-Lost (dropping t) m m' k k' s h = (s.on h.0, s.stopped h.1)
Steady-Lost waiting m m' k k' s h = absurd h
Steady-Lost unlocking m m' k k' s h = absurd h
Steady-Lost (storing_ticket x) m m' k k' s h = absurd h

-- Neither does the loop: its M never falls to what would let it leave.
module _ {size : ℕ} {m : Memory} {k : Sums} where
  Turn-Lost :
      {ph ph' : Phase} {m' : Memory}
      → Turn size m ph m' ph'
      → Current size m k ph
      → Counts size m ph k
      → Lost m k ph
      → Lost m' k ph'
  Turn-Lost (take g) c v h = absurd h
  Turn-Lost load_barrier c v h = ground arith
  Turn-Lost load_finished c v h = ground arith
  Turn-Lost (see_room g) c v h = ground arith
  Turn-Lost bump c v h = ground arith
  Turn-Lost load_tail c v h = ground arith
  Turn-Lost store_tail c v h = ground arith
  Turn-Lost (take_next g) c v h = ground arith
  Turn-Lost (stop_inside g) c v h = (h.0, g)
  Turn-Lost store_finished c v h = ground arith
  Turn-Lost (leave g e) c v h = absurd (ground arith)
  Turn-Lost (stay g) c v h = ground arith
  Turn-Lost (retake g) c v h = ground arith
  Turn-Lost (stop_after g) c v h = (h.0, g)
  Turn-Lost load_ticket c v h = absurd h
  Turn-Lost store_ticket c v h = absurd h
  Turn-Lost (stop_outside g) c v h = absurd h
  Turn-Lost (drain g) c v h = h
  Turn-Lost (drop_async g) c v h = h
  Turn-Lost (drop_sync g) c v h = h

abbrev IsLost : (n : ℕ) → System → Type 0
IsLost n s = Lost s.mem (sums n s.pc) s.phase

module _ {size buffer n : ℕ} where
  Step-Lost :
      {s t : System}
      → Inv size n s
      → Step size buffer n s t
      → t.mem.total + 2 < 2 ^ 32
      → IsLost n s
      → IsLost n t
  Step-Lost {s} v (goroutine i {m} {p} lt mv) few h =
      Steady-Lost s.phase s.mem m (sums n s.pc) _
        (Move-Steady v.counts mv few (v.fresh i lt) (mover n s.pc i p lt)) h
  Step-Lost v (loop turn) few h = Turn-Lost turn v.current v.counts h
  Step-Lost {s} v (kernel more) few h =
      Steady-Lost s.phase s.mem _ (sums n s.pc) _ (kernel-Counts more v.counts).1 h
  Step-Lost {s} v stop few h =
      Steady-Lost s.phase s.mem _ (sums n s.pc) _ (stop-Counts v.counts).1 h

  Steps-Lost :
      {s t : System}
      → Inv size n s
      → Steps size buffer n s t
      → t.mem.total + 2 < 2 ^ 32
      → IsLost n s
      → IsLost n t
  Steps-Lost v here few h = h
  Steps-Lost v (later way step) few h =
      Step-Lost (Steps-Inv v way (omega (arith, Step-total step))) step few
        (Steps-Lost v way (omega (arith, Step-total step)) h)

-- The loop is between its load of finishedPushes and its store.
abbrev pub in_round : Phase → Bool
in_round (holding _ _ _) = true
in_round (bumping _ _ _) = true
in_round (Phase.pushing _ _ _) = true
in_round (Phase.writing _ _ _ _) = true
in_round (selecting _ _ _) = true
in_round (storing _ _) = true
in_round _ = false

-- the state after `finishedPushes.Add(1)` of goroutine `i`
abbrev pub after_count : System → ℕ → System
after_count s i = record {
  mem = record s.mem { finished = (s.mem.finished + 1) % 2 ^ 64 };
  pc = update s.pc i idle;
  phase = s.phase;
}

counted-Lost :
    (size : ℕ) (m m' : Memory) (k k' : Sums) (ph : Phase)
    → Current size m k ph
    → in_round ph ≡ true
    → m'.active ≡ m.active
    → m'.total ≡ m.total
    → length m'.chan ≡ length m.chan
    → k'.pend + k'.uncount < k.pend + k.uncount
    → Lost m' k' ph
counted-Lost size m m' k k' (holding was cur left) c on a t l fewer = ground arith
counted-Lost size m m' k k' (bumping was cur left) c on a t l fewer = ground arith
counted-Lost size m m' k k' (Phase.pushing was cur left) c on a t l fewer = ground arith
counted-Lost size m m' k k' (Phase.writing was cur left x) c on a t l fewer = ground arith
counted-Lost size m m' k k' (selecting was cur left) c on a t l fewer = ground arith
counted-Lost size m m' k k' (storing was cur) c on a t l fewer = ground arith
counted-Lost size m m' k k' waiting c on a t l fewer = absurd (cc)
counted-Lost size m m' k k' took c on a t l fewer = absurd (cc)
counted-Lost size m m' k k' reselecting c on a t l fewer = absurd (cc)
counted-Lost size m m' k k' unlocking c on a t l fewer = absurd (cc)
counted-Lost size m m' k k' draining c on a t l fewer = absurd (cc)
counted-Lost size m m' k k' (snapped was cur) c on a t l fewer = absurd (cc)
counted-Lost size m m' k k' (leaving was cur) c on a t l fewer = absurd (cc)
counted-Lost size m m' k k' (storing_ticket x) c on a t l fewer = absurd (cc)
counted-Lost size m m' k k' (dropping x) c on a t l fewer = absurd (cc)

-- A reachable state in which a goroutine has pushed its task and not yet counted it, while the loop is
-- between its load of finishedPushes and its store: once the goroutine counts, the fallback stays active
-- in every later state, for as long as there are fewer than 2 ^ 32 - 2 submissions.
pub overlap-active :
    {size buffer n : ℕ} {s t : System} (i : ℕ)
    → Steps size buffer n init s
    → i < n
    → s.pc i ≡ counting
    → in_round s.phase ≡ true
    → Steps size buffer n (after_count s i) t
    → t.mem.total + 2 < 2 ^ 32
    → t.mem.active ≡ true
overlap-active {size} {buffer} {n} {s} {t} i way lt at on rest few =
    let counted : Step size buffer n s (after_count s i) =
      goroutine i lt
        (subst (λ (p : Pc). Move size buffer s.mem p (after_count s i).mem idle) (sym at) count) in
    let fewer : s.mem.total + 2 < 2 ^ 32 = omega (arith, Steps-total rest) in
    let v = init-Steps-Inv way fewer in
    let change = rw at at (mover n s.pc i idle lt) in
    let lost : IsLost n (after_count s i) =
      counted-Lost size s.mem (after_count s i).mem (sums n s.pc) (sums n (update s.pc i idle))
        s.phase v.current on refl refl refl (omega (arith, change.pend, change.uncount)) in
    Lost-active t.mem (sums n t.pc) t.phase (Steps-Lost (Step-Inv s v counted fewer) rest few lost)
