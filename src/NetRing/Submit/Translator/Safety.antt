-- ===== src/NetRing/Submit/Translator/Safety.antt =====
-- What the protocol gives: one goroutine at a time in dispatch, room in the queue, and no task lost.
use netring.Prelude.{
  ℕ, ◌+◌, ◌^◌, ◌≤◌, ◌<◌, ◌≡◌, ◌⊎◌, Bool, true, false, List, [], ◌∷◌, refl, length, arith, bit,
  sum_below, count_below, sum_below_mono, sum_below-pos, inl, inr, ◌==◌, Bool-cases,
}
use netring.NetRing.Cells.{RingTask}
use netring.NetRing.Submit.{Pc, waiting_entries}
use netring.NetRing.Submit.Translator.{Phase, System, init, Steps}
use netring.NetRing.Submit.Translator.Invariant.{
  holds, pending, committed, in_hand, sums, Inv, Current, Fresh,
}
use netring.NetRing.Submit.Translator.Reachable.{init-Steps-Inv}

-- inside dispatch
abbrev pub dispatches : Pc → Bool
dispatches Pc.pushing = true
dispatches (Pc.writing _) = true
dispatches _ = false

abbrev pub loop_dispatches : Phase → Bool
loop_dispatches (Phase.pushing _ _ _) = true
loop_dispatches (Phase.writing _ _ _ _) = true
loop_dispatches _ = false

-- those inside dispatch: goroutines, and the loop
abbrev pub dispatchers : (n : ℕ) → System → ℕ
dispatchers n s = count_below n (λ i. dispatches (s.pc i)) + bit (loop_dispatches s.phase)

dispatches-le-holds : (p : Pc) → bit (dispatches p) ≤ holds p
dispatches-le-holds p = ground arith

module _ {size buffer n : ℕ} (s : System) (way : Steps size buffer n init s)
    (few : s.mem.total + 2 < 2 ^ 32) where
  inv : Inv size n s
  inv = init-Steps-Inv way few

  holders : count_below n (λ i. dispatches (s.pc i)) ≤ sum_below n (λ i. holds (s.pc i))
  holders =
      sum_below_mono n (λ i. bit (dispatches (s.pc i))) (λ i. holds (s.pc i))
        (λ i. dispatches-le-holds (s.pc i))

  loop_active :
      (ph : Phase)
      → Current size s.mem (sums n s.pc) ph
      → bit (loop_dispatches ph) ≤ bit s.mem.active
  loop_active ph c = ground arith

  loop_room :
      (ph : Phase)
      → Current size s.mem (sums n s.pc) ph
      → loop_dispatches ph ≡ true
      → s.mem.sq_tail < s.mem.sq_head + size
  loop_room ph c e = ground arith

  goroutine_room :
      (p : Pc) → Fresh size s.mem p → 0 < bit (dispatches p) → s.mem.sq_tail < s.mem.sq_head + size
  goroutine_room Pc.pushing f h = f
  goroutine_room (Pc.writing x) f h = f.1
  goroutine_room Pc.idle f h = absurd (omega arith)
  goroutine_room Pc.trying f h = absurd (omega arith)
  goroutine_room Pc.activating f h = absurd (omega arith)
  goroutine_room Pc.sending f h = absurd (omega arith)
  goroutine_room Pc.counting f h = absurd (omega arith)
  goroutine_room Pc.retrying f h = absurd (omega arith)
  goroutine_room (Pc.loaded k) f h = absurd (omega arith)
  goroutine_room (Pc.claiming k) f h = absurd (omega arith)
  goroutine_room (Pc.claimed k) f h = absurd (omega arith)

  room : (dispatchers n s ≡ 0) ⊎ (s.mem.sq_tail < s.mem.sq_head + size)
  room = elim (Bool-cases (count_below n (λ i. dispatches (s.pc i)) == 0)) [
    | inr some_goroutine ↦
        let (i, lt, one) = sum_below-pos n (λ i. bit (dispatches (s.pc i))) (ground arith) in
        inr (goroutine_room (s.pc i) (inv.fresh i lt) one)
    | inl no_goroutine ↦ elim (Bool-cases (loop_dispatches s.phase)) [
      | inl on ↦ inr (loop_room s.phase inv.current on)
      | inr off ↦ inl (ground arith)
    ]
  ]

  -- In every state that a new NetRing reaches in fewer than 2 ^ 32 - 2 submissions: at most one of the
  -- goroutines and the fallback loop is inside dispatch, the submission queue never has more entries
  -- than it can hold, and while somebody is inside dispatch it has room, so Push writes over nothing.
  pub dispatch-alone :
      (dispatchers n s ≤ 1)
      × (waiting_entries s.mem.sq_tail s.mem.sq_head ≤ size)
      × ((dispatchers n s ≡ 0) ⊎ (waiting_entries s.mem.sq_tail s.mem.sq_head < size))
  dispatch-alone =
      let v = inv.counts in
      let loops = loop_active s.phase inv.current in
      (
        omega (arith, holders, loops, v.alone),
        omega (arith, v.queue, v.pushed, v.small),
        elim room [
          | inl none_inside ↦ inl none_inside
          | inr some_room ↦ inr (omega (arith, some_room, v.queue, v.pushed, v.small))
        ],
      )

  -- In every state that a new NetRing reaches in fewer than 2 ^ 32 - 2 submissions, every submitted task
  -- is accounted for once: it is pushed to the submission queue, still with its goroutine, in the channel
  -- or with the loop, or was given up; and none is given up before a stop.
  pub tasks-conserved :
      (s.mem.sq_tail
          + sum_below n (λ i. pending (s.pc i))
          + length s.mem.chan
          + in_hand s.phase
          + s.mem.dropped
        ≡ s.mem.total)
      × ((s.mem.stopped ≡ true) ⊎ (s.mem.dropped ≡ 0))
  tasks-conserved = (
    inv.counts.pushed,
    elim (Bool-cases s.mem.stopped) [ inl e ↦ inl e | inr e ↦ inr (inv.counts.given_up e) ],
  )

  -- In every state that a new NetRing reaches in fewer than 2 ^ 32 - 2 submissions, when the fallback is
  -- not active the channel is empty, no goroutine is about to send to it, and the loop has no task: no
  -- task is left behind by the switch back to direct pushes.
  pub fallback-quiet :
      s.mem.active ≡ false
      → (s.mem.chan ≡ []) × (sum_below n (λ i. committed (s.pc i)) ≡ 0) × (in_hand s.phase ≡ 0)
  fallback-quiet off =
      let none_left = inv.counts.quiet off in
      (
        empty s.mem.chan (omega (arith, none_left)),
        omega (arith, none_left),
        omega (arith, none_left),
      )
    where
      empty : (l : List RingTask) → length l ≡ 0 → l ≡ []
      empty [] h = refl
      empty (x ∷ l) h = absurd (omega arith)
