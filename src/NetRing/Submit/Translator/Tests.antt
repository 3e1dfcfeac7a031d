-- ===== src/NetRing/Submit/Translator/Tests.antt =====
-- Two goroutines over a queue of one entry: the first pushes, the second finds the queue full and hands
-- its task to the loop, before the first has counted its push.
use netring.Prelude.{◌+◌, ◌^◌, ◌≤◌, ◌<◌, ◌≡◌, ◌⊎◌, refl, true, [], length, sum_below, none, arith}
use netring.NetRing.Cells.{RingTask, send}
use netring.NetRing.Submit.{
  waiting_entries, intend, load_ticket, equal, win, full, room, activate, send as send_on,
  load_tail, store_tail,
}
use netring.NetRing.Submit.Translator.{
  System, goroutine, loop, init, Steps, here, later, take, load_barrier, load_finished,
}
use netring.NetRing.Submit.Translator.Invariant.{pending, committed, in_hand}
use netring.NetRing.Submit.Translator.Safety.{
  dispatchers, dispatch-alone, tasks-conserved, fallback-quiet,
}
use netring.NetRing.Submit.Translator.Overlap.{after_count, overlap-active}

abbrev task : RingTask
task = record { opcode = send; addr = 0; len = 1; bgid = 0; offset = 0; ctx = none; payload = 4096 }

-- the steps of the first goroutine up to Push's load of the tail
abbrev first_way : (s : System) × Steps 1 1 2 init s × (s.mem.total + 2 < 2 ^ 32)
first_way = (
  _,
  later
      (later
        (later
          (later
            (later (later here (goroutine 0 (omega arith) intend))
              (goroutine 0 (omega arith) load_ticket))
            (goroutine 0 (omega arith) (equal refl)))
          (goroutine 0 (omega arith) (win refl)))
        (goroutine 0 (omega arith) (room (omega arith))))
      (goroutine 0 (omega arith) load_tail),
  omega arith,
)

abbrev first : System
first = first_way.0

dispatch-alone_example :
    (dispatchers 2 first ≤ 1)
    × (waiting_entries first.mem.sq_tail first.mem.sq_head ≤ 1)
    × ((dispatchers 2 first ≡ 0) ⊎ (waiting_entries first.mem.sq_tail first.mem.sq_head < 1))
dispatch-alone_example = dispatch-alone first first_way.1 first_way.2

tasks-conserved_example :
    (first.mem.sq_tail
        + sum_below 2 (λ i. pending (first.pc i))
        + length first.mem.chan
        + in_hand first.phase
        + first.mem.dropped
      ≡ first.mem.total)
    × ((first.mem.stopped ≡ true) ⊎ (first.mem.dropped ≡ 0))
tasks-conserved_example = tasks-conserved first first_way.1 first_way.2

fallback-quiet_example :
    (first.mem.chan ≡ [])
    × (sum_below 2 (λ i. committed (first.pc i)) ≡ 0)
    × (in_hand first.phase ≡ 0)
fallback-quiet_example = fallback-quiet first first_way.1 first_way.2 refl

-- then the second hands its task over, and the loop loads finishedPushes
abbrev second_way : (s : System) × Steps 1 1 2 init s
second_way = (
  _,
  later
      (later
        (later
          (later
            (later
              (later
                (later
                  (later
                    (later
                      (later (later first_way.1 (goroutine 0 (omega arith) store_tail))
                        (goroutine 1 (omega arith) intend))
                      (goroutine 1 (omega arith) load_ticket))
                    (goroutine 1 (omega arith) (equal refl)))
                  (goroutine 1 (omega arith) (win refl)))
                (goroutine 1 (omega arith) (full refl)))
              (goroutine 1 (omega arith) activate))
            (goroutine 1 (omega arith) (send_on task (omega arith))))
          (loop (take refl)))
        (loop load_barrier))
      (loop load_finished),
)

abbrev counted : System
counted = after_count second_way.0 0

none_more : Steps 1 1 2 counted counted
none_more = here

overlap-active_example : counted.mem.active ≡ true
overlap-active_example =
    overlap-active 0 second_way.1 (omega arith) refl refl none_more (omega arith)
